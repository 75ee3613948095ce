-- ===== src/Streaming/Acked.antt =====
-- core/Streaming.cpp: what the acknowledgement of a receiver says, and what a sender does upon it.
use i2pd.Prelude.{
  ℕ, suc, ◌+◌, ◌^◌, ◌≤◌, ◌<◌, ◌≡◌, refl, ap, ◌∙◌, Bool, false, ◌&&◌, not, List, [], ◌∷◌, arith, ltb,
  leb, if◌then◌else◌,
}
use mathlib.Core.Path.{subst}
use i2pd.Streaming.{Packet, Stream, signed_lt, next}
use i2pd.Streaming.Acks.{contains, fill_nacks, last_seqn, last_received_of, quick_ack, still_sent}
use i2pd.Streaming.InOrder.{IsSaved, holds_seqn, is_known, IsInOrder}
use i2pd.Streaming.Nacks.{
  missing, end_of, end_of_le, end_of_lt, holds_seqn_below, holds_seqn_end, fill_nacks-exact,
}

-- Whether an acknowledgement says that the packet of this number has arrived, as `ProcessAck` reads it.
abbrev pub covers : Packet → ℕ → Bool
covers ack k = leb k ack.ack_through && not (contains k ack.nacks)

-- The packets of a sender stand in the order of their numbers.
abbrev pub IsAscending : ℕ → List Packet → Type 0
IsAscending n [] = Unit
IsAscending n (q ∷ qs) = (n ≤ q.seqn) × IsAscending (suc q.seqn) qs

holds_seqn-IsAscending :
    (k n : ℕ) (qs : List Packet) → IsAscending n qs → k < n → holds_seqn k qs ≡ false
unfolding holds_seqn
holds_seqn-IsAscending k n [] h l = refl
holds_seqn-IsAscending k n (q ∷ qs) (a, c) l =
    ground (arith, holds_seqn-IsAscending k (suc q.seqn) qs c (omega arith))

-- `ProcessAck` keeps just the packets that the acknowledgement does not cover.
pub still_sent-covers :
    (ack : Packet) (k n : ℕ) (ps : List Packet)
    → IsAscending n ps
    → holds_seqn k (still_sent ack.ack_through ack.nacks ps)
      ≡ (holds_seqn k ps && not (covers ack k))
unfolding still_sent holds_seqn
still_sent-covers ack k n [] h = refl
still_sent-covers ack k n (p ∷ ps) (a, c) =
    let ih = still_sent-covers ack k (suc p.seqn) ps c in
    let later = λ (e : k ≤ p.seqn). holds_seqn-IsAscending k (suc p.seqn) ps c (omega arith) in
    ground (arith, ih, later)

last_seqn-end_of : (l : ℕ) (qs : List Packet) → suc (last_seqn l qs) ≡ end_of (suc l) qs
last_seqn-end_of l [] = refl
last_seqn-end_of l (q ∷ qs) = last_seqn-end_of q.seqn qs

IsSaved-weaken : (d : ℕ → List ℕ) (n : ℕ) (qs : List Packet) → IsSaved d (suc n) qs → IsSaved d n qs
IsSaved-weaken d n [] h = tt
IsSaved-weaken d n (q ∷ qs) (a, b, c) = (omega arith, b, c)

module _ {I : Type 0} (d : ℕ → List ℕ) where
  last_received_of_lem :
      (read : List ℕ) (s : Stream I)
      → IsInOrder d read s
      → (last_received_of s ≡ last_seqn s.last_received s.saved_packets)
        × (s.last_received ≤ last_received_of s)
        × (last_received_of s < 2 ^ 31)
  unfolding last_received_of
  last_received_of_lem read s (l, h, c) =
      let step : s.last_received + 2 ≡ suc (suc s.last_received) = omega arith in
      let saved =
        IsSaved-weaken d (suc s.last_received) s.saved_packets
          (subst (λ m. IsSaved d m s.saved_packets) step c) in
      let last = last_seqn-end_of s.last_received s.saved_packets in
      let above = end_of_le d (suc s.last_received) s.saved_packets saved in
      let below = end_of_lt d (suc s.last_received) s.saved_packets (omega arith) saved in
      let m = last_seqn s.last_received s.saved_packets in
      let low : s.last_received ≤ m = omega (arith, last, above) in
      let high : m < 2 ^ 31 = omega (arith, last, below) in
      let same : (if signed_lt s.last_received m then m else s.last_received) ≡ m = ground arith in
      (same, omega (arith, same), omega (arith, same))

  -- The NACKs of an acknowledgement that has a stored packet behind a gap.
  abbrev filled : Stream I → ℕ × List ℕ
  filled s = fill_nacks (last_received_of s) (suc s.last_received) 0 s.saved_packets

  covers-quick_ack_lem :
      (read : List ℕ) (s : Stream I) (k : ℕ)
      → IsInOrder d read s
      → covers (quick_ack s) k ≡ (
          if ltb s.last_received (last_received_of s)
          then leb k (filled s).0 && not (contains k (filled s).1)
          else leb k (last_received_of s))
  unfolding quick_ack contains
  covers-quick_ack_lem read s k h =
      let (same, low, high) = last_received_of_lem read s h in
      let step : next s.last_received ≡ suc s.last_received = omega (arith, h.0) in
      let signed : signed_lt s.last_received (last_received_of s)
          ≡ ltb s.last_received (last_received_of s) =
        ground (arith, low, high) in
      rw (step, signed) (ground arith)

  -- The missing numbers of a receiver, from the next in sequence to the last that it stored.
  abbrev pub num_missing : Stream I → ℕ
  num_missing s = missing (suc s.last_received) s.saved_packets

  saved_packets-IsSaved :
      (read : List ℕ) (s : Stream I)
      → IsInOrder d read s
      → IsSaved d (suc s.last_received) s.saved_packets
  saved_packets-IsSaved read s h =
      let step : s.last_received + 2 ≡ suc (suc s.last_received) = omega arith in
      IsSaved-weaken d (suc s.last_received) s.saved_packets
        (subst (λ m. IsSaved d m s.saved_packets) step h.2)

  -- The acknowledgement of a receiver that misses fewer than 256 packets covers exactly the packets that
  -- have arrived, be they delivered or stored.
  pub covers-quick_ack :
      (read : List ℕ) (s : Stream I)
      → IsInOrder d read s
      → num_missing s < 256
      → (k : ℕ) → covers (quick_ack s) k ≡ is_known k s
  covers-quick_ack read s h m k =
      let saved = saved_packets-IsSaved read s h in
      let (same, low, high) = last_received_of_lem read s h in
      let exact =
        fill_nacks-exact d (last_received_of s) (suc s.last_received) 0 k s.saved_packets saved
          (omega arith) in
      ground (
        arith,
        covers-quick_ack_lem read s k h,
        exact.0,
        exact.1,
        same,
        low,
        last_seqn-end_of s.last_received s.saved_packets,
        holds_seqn_below d k (suc s.last_received) s.saved_packets saved,
        holds_seqn_end d k (suc s.last_received) s.saved_packets saved,
      )

  -- A sender that processes the acknowledgement of a receiver with fewer than 256 missing packets keeps
  -- exactly those of its packets that the receiver does not have.
  pub still_sent-quick_ack :
      (read : List ℕ) (s : Stream I)
      → IsInOrder d read s
      → num_missing s < 256
      → (n : ℕ) (ps : List Packet) → IsAscending n ps
      → (k : ℕ)
      → holds_seqn k (still_sent (quick_ack s).ack_through (quick_ack s).nacks ps)
        ≡ (holds_seqn k ps && not (is_known k s))
  still_sent-quick_ack read s h m n ps g k =
      still_sent-covers (quick_ack s) k n ps g
      ∙ ap (λ (b : Bool). holds_seqn k ps && not b) (covers-quick_ack read s h m k)
