-- ===== src/Streaming/Nacks.antt =====
-- core/Streaming.cpp: an acknowledgement, and the packets that it says have arrived.
use i2pd.Prelude.{
  ℕ, zero, suc, ◌+◌, ◌-◌, ◌%◌, ◌^◌, ◌≤◌, ◌<◌, ◌≡◌, refl, false, ◌&&◌, ◌||◌, not, List, [], ◌∷◌,
  ◌++◌, arith, ltb, leb,
}
use i2pd.Streaming.{Packet, next}
use i2pd.Streaming.Acks.{contains, numbers_from, fill_nacks}
use i2pd.Streaming.InOrder.{IsSaved, holds_seqn}

pub contains-append :
    (k : ℕ) (xs ys : List ℕ) → contains k (xs ++ ys) ≡ (contains k xs || contains k ys)
unfolding contains
contains-append k [] ys = refl
contains-append k (x ∷ xs) ys = ground (arith, contains-append k xs ys)

contains-numbers_from :
    (k n count : ℕ) → contains k (numbers_from n count) ≡ (leb n k && ltb k (n + count))
unfolding contains numbers_from
contains-numbers_from k n zero = ground arith
contains-numbers_from k n (suc count) = ground (arith, contains-numbers_from k (n + 1) count)

-- The numbers that are missing from a number on, up to the last one stored.
unfoldable pub missing : ℕ → List Packet → ℕ
missing n [] = 0
missing n (q ∷ qs) = (q.seqn - n) + missing (suc q.seqn) qs

-- The number behind the last one stored.
abbrev pub end_of : ℕ → List Packet → ℕ
end_of n [] = n
end_of n (q ∷ qs) = end_of (suc q.seqn) qs

module _ (d : ℕ → List ℕ) where
  pub holds_seqn_below :
      (k n : ℕ) (qs : List Packet) → IsSaved d n qs → k < n → holds_seqn k qs ≡ false
  unfolding holds_seqn
  holds_seqn_below k n [] h l = refl
  holds_seqn_below k n (q ∷ qs) (a, b, c) l =
      ground (arith, holds_seqn_below k (suc q.seqn) qs c (omega arith))

  pub end_of_le : (n : ℕ) (qs : List Packet) → IsSaved d n qs → n ≤ end_of n qs
  end_of_le n [] h = omega arith
  end_of_le n (q ∷ qs) (a, b, c) = omega (arith, end_of_le (suc q.seqn) qs c)

  pub end_of_lt : (n : ℕ) (qs : List Packet) → n ≤ 2 ^ 31 → IsSaved d n qs → end_of n qs ≤ 2 ^ 31
  end_of_lt n [] l h = l
  end_of_lt n (q ∷ qs) l (a, b, c) = end_of_lt (suc q.seqn) qs (omega (arith, b.1)) c

  pub holds_seqn_end :
      (k n : ℕ) (qs : List Packet) → IsSaved d n qs → end_of n qs ≤ k → holds_seqn k qs ≡ false
  unfolding holds_seqn
  holds_seqn_end k n [] h l = refl
  holds_seqn_end k n (q ∷ qs) (a, b, c) l =
      ground (arith, end_of_le (suc q.seqn) qs c, holds_seqn_end k (suc q.seqn) qs c l)

  not_held :
      (n : ℕ) (q : Packet) (qs : List Packet)
      → n < q.seqn
      → IsSaved d (suc q.seqn) qs
      → holds_seqn n (q ∷ qs) ≡ false
  unfolding holds_seqn
  not_held n q qs l c = ground (arith, holds_seqn_below n (suc q.seqn) qs c (omega arith))

  gap_lem :
      (n : ℕ) (q : Packet)
      → n ≤ q.seqn
      → q.seqn < 2 ^ 31
      → (q.seqn + 2 ^ 32 - n) % 2 ^ 32 ≡ q.seqn - n
  gap_lem n q a b = omega arith

  next_lem : (q : Packet) → q.seqn < 2 ^ 31 → next q.seqn ≡ suc q.seqn
  next_lem q b = omega arith

  -- With room for all of them, the NACKs are the missing numbers.
  pub fill_nacks-exact :
      (through n count k : ℕ) (qs : List Packet)
      → IsSaved d n qs
      → count + missing n qs < 256
      → ((fill_nacks through n count qs).0 ≡ through)
        × (contains k (fill_nacks through n count qs).1
            ≡ ((leb n k && ltb k (end_of n qs)) && not (holds_seqn k qs)))
  unfolding fill_nacks contains holds_seqn missing
  fill_nacks-exact through n count k [] h m = (refl, ground arith)
  fill_nacks-exact through n count k (q ∷ qs) (a, b, c) m =
      let gap = q.seqn - n in
      let ih = fill_nacks-exact through (suc q.seqn) (count + gap) k qs c (omega arith) in
      let rest = (fill_nacks through (suc q.seqn) (count + gap) qs).1 in
      let fits : leb 256 (count + gap) ≡ false = ground arith in
      rw (gap_lem n q a b.1, next_lem q b.1, fits)
        (
          ih.0,
          ground (
            arith,
            contains-append k (numbers_from n gap) rest,
            contains-numbers_from k n gap,
            ih.1,
            end_of_le (suc q.seqn) qs c,
            holds_seqn_below k (suc q.seqn) qs c,
          ),
        )
