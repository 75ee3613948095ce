-- ===== src/Streaming/InOrder.antt =====
-- core/Streaming.cpp: what it is that a receiver has the packets of a sender in order.
use i2pd.Prelude.{
  ℕ, zero, suc, ◌+◌, ◌^◌, ◌≤◌, ◌<◌, ◌≡◌, refl, sym, ap, ◌∙◌, Bool, false, ◌||◌, List, [], ◌∷◌, ◌++◌,
  append_assoc, append-nil, arith, leb, ◌==◌,
}
use i2pd.Streaming.{Packet, Stream, insert_packet, is_syn}
use i2pd.Streaming.Frame.{received}

-- The bytes of the first packets of a sender, whose packet of number k has the payload `payload_of k`.
unfoldable pub sent_bytes : (ℕ → List ℕ) → ℕ → List ℕ
sent_bytes payload_of zero = payload_of 0
sent_bytes payload_of (suc n) = sent_bytes payload_of n ++ payload_of (suc n)

abbrev pub concat : List (List ℕ) → List ℕ
concat [] = []
concat (p ∷ ps) = p ++ concat ps

-- A packet of that sender behind the first one, with any flags and options but SYN: it may end the
-- stream, reset it, or be signed, well or badly.
abbrev pub IsFollowing : (ℕ → List ℕ) → Packet → Type 0
IsFollowing payload_of p =
    (0 < p.seqn) × (p.seqn < 2 ^ 31) × (p.payload ≡ payload_of p.seqn) × (is_syn p ≡ false)

-- The stored packets: of that sender, in order, from a number on.
abbrev pub IsSaved : (ℕ → List ℕ) → ℕ → List Packet → Type 0
IsSaved payload_of n [] = Unit
IsSaved payload_of n (q ∷ qs) =
    (n ≤ q.seqn) × IsFollowing payload_of q × IsSaved payload_of (suc q.seqn) qs

unfoldable pub holds_seqn : ℕ → List Packet → Bool
holds_seqn k [] = false
holds_seqn k (q ∷ qs) = q.seqn == k || holds_seqn k qs

module _ (d : ℕ → List ℕ) where
  pub insert_packet-IsSaved :
      (n : ℕ) (p : Packet) (qs : List Packet)
      → n ≤ p.seqn
      → IsFollowing d p
      → IsSaved d n qs
      → IsSaved d n (insert_packet p qs)
  unfolding insert_packet
  insert_packet-IsSaved n p [] h g s = (h, g, tt)
  insert_packet-IsSaved n p (q ∷ qs) h g (a, b, c) =
      let further = λ (e : q.seqn < p.seqn). insert_packet-IsSaved (suc q.seqn) p qs e g c in
      ground (arith, further)

pub holds_seqn-insert_packet :
    (k : ℕ) (p : Packet) (qs : List Packet)
    → holds_seqn k (insert_packet p qs) ≡ (p.seqn == k || holds_seqn k qs)
unfolding holds_seqn insert_packet
holds_seqn-insert_packet k p [] = refl
holds_seqn-insert_packet k p (q ∷ qs) = ground (arith, holds_seqn-insert_packet k p qs)

pub concat-append : (ps : List (List ℕ)) (b : List ℕ) → concat (ps ++ b ∷ []) ≡ concat ps ++ b
concat-append [] b = append-nil b
concat-append (p ∷ ps) b = ap (◌++◌ p) (concat-append ps b) ∙ sym (append_assoc p (concat ps) b)

-- Of what the receiving half keeps: the payloads that wait, the stored packets and the last number.
abbrev pub KeepsOrder : (ℕ → List ℕ) → List ℕ → List (List ℕ) × List Packet × ℕ → Type 0
KeepsOrder d read (queue, saved, last) =
    (last < 2 ^ 31) × (read ++ concat queue ≡ sent_bytes d last) × IsSaved d (last + 2) saved

abbrev pub knows : ℕ → List (List ℕ) × List Packet × ℕ → Bool
knows k (queue, saved, last) = leb k last || holds_seqn k saved

module _ {I : Type 0} where
  -- Whether the packet of this number arrived, as far as the stream knows.
  abbrev pub is_known : ℕ → Stream I → Bool
  is_known k s = knows k (received s)

  -- What was read of a stream and what waits in it are the first bytes of the sender, in order, and the
  -- stored packets are those behind a gap.
  abbrev pub IsInOrder : (ℕ → List ℕ) → List ℕ → Stream I → Type 0
  IsInOrder d read s = KeepsOrder d read (received s)
