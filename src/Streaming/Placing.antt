-- ===== src/Streaming/Placing.antt =====
-- core/Streaming.cpp: the receiving half of a stream puts the packets back in order.
use i2pd.Prelude.{
  ℕ, suc, ◌+◌, ◌^◌, ◌≤◌, ◌<◌, ◌≡◌, ◌⊎◌, inl, inr, refl, sym, ap, ◌∙◌, false, ◌||◌, List, [], ◌∷◌,
  ◌++◌, append_assoc, append-nil, arith, ltb, leb, ◌==◌, List-cases, Bool-cases,
}
use mathlib.Core.Path.{subst}
use i2pd.Streaming.{Packet, Stream, Services, insert_packet, is_syn, signed_lt, next}
use i2pd.Streaming.Acks.{send_quick_ack}
use i2pd.Streaming.Receiving.{
  take_identity, is_signed, deliver, process_packet, try_saved, receive_next, save_packet,
  receive_packet,
}
use i2pd.Streaming.Frame.{received, received-close, received-send_quick_ack}
use i2pd.Streaming.InOrder.{
  sent_bytes, concat, IsFollowing, IsSaved, holds_seqn, insert_packet-IsSaved,
  holds_seqn-insert_packet, concat-append, KeepsOrder, knows, is_known, IsInOrder,
}

module _ {I : Type 0} (services : Services I) (d : ℕ → List ℕ) where
  -- As far as receiving goes, a packet is delivered whatever its options say.
  received-process_packet :
      (p : Packet) (s : Stream I)
      → received (process_packet services p s) ≡ received (deliver services p s)
  unfolding process_packet take_identity is_signed deliver
  received-process_packet p s = grind (arith, received-close services)

  last_received-deliver :
      (p : Packet) (s : Stream I) → (deliver services p s).last_received ≡ p.seqn
  unfolding deliver
  last_received-deliver p s = ground arith

  saved_packets-deliver :
      (p : Packet) (s : Stream I) → (deliver services p s).saved_packets ≡ s.saved_packets
  unfolding deliver
  saved_packets-deliver p s = ground arith

  pub concat-deliver :
      (p : Packet) (s : Stream I)
      → concat (deliver services p s).receive_queue ≡ concat s.receive_queue ++ p.payload
  unfolding deliver
  concat-deliver p s = elim (List-cases p.payload) [
    | inl e ↦ rw e (sym (append-nil (concat s.receive_queue)))
    | inr (x, xs, e) ↦ rw e (concat-append s.receive_queue (x ∷ xs))
  ]

  pub last_received-process_packet :
      (p : Packet) (s : Stream I) → (process_packet services p s).last_received ≡ p.seqn
  last_received-process_packet p s = grind (arith, received-process_packet, last_received-deliver)

  pub receive_queue-process_packet :
      (p : Packet) (s : Stream I)
      → (process_packet services p s).receive_queue ≡ (deliver services p s).receive_queue
  receive_queue-process_packet p s = grind (arith, received-process_packet)

  saved_packets-process_packet :
      (p : Packet) (s : Stream I) → (process_packet services p s).saved_packets ≡ s.saved_packets
  saved_packets-process_packet p s = grind (arith, received-process_packet, saved_packets-deliver)

  process_packet-next :
      (read : List ℕ) (p : Packet) (s : Stream I)
      → read ++ concat s.receive_queue ≡ sent_bytes d s.last_received
      → p.seqn ≡ suc s.last_received
      → p.payload ≡ d p.seqn
      → read ++ concat (process_packet services p s).receive_queue ≡ sent_bytes d p.seqn
  unfolding sent_bytes
  process_packet-next read p s h n e =
      let queue = concat s.receive_queue in
      ap (◌++◌ read) (ap concat (receive_queue-process_packet p s) ∙ concat-deliver p s)
      ∙ sym (append_assoc read queue p.payload)
      ∙ ap (λ (bs : List ℕ). bs ++ p.payload) h
      ∙ ap (◌++◌ (sent_bytes d s.last_received)) (e ∙ ap d n)
      ∙ sym (ap (sent_bytes d) n)

  -- A packet in sequence is taken, and those behind it that were stored.
  try_saved-IsInOrder :
      (read : List ℕ) (qs : List Packet) (s : Stream I)
      → s.last_received < 2 ^ 31
      → read ++ concat s.receive_queue ≡ sent_bytes d s.last_received
      → IsSaved d (suc s.last_received) qs
      → IsInOrder d read (try_saved services qs s)
  unfolding try_saved
  try_saved-IsInOrder read [] s l h g = (l, h, tt)
  try_saved-IsInOrder read (q ∷ qs) s l h (a, b, c) =
      elim (Bool-cases (q.seqn == next s.last_received)) [
        | inl e ↦
            let n : q.seqn ≡ suc s.last_received = ground arith in
            let last = last_received-process_packet q s in
            rw e (
              try_saved-IsInOrder read qs (process_packet services q s) (omega (arith, b.1, last))
                (process_packet-next read q s h n b.2 ∙ ap (sent_bytes d) (sym last)) (rw last c))
        | inr e ↦ let m : s.last_received + 2 ≤ q.seqn = ground arith in rw e (l, h, (m, b, c))
      ]

  is_known-try_saved :
      (k : ℕ) (qs : List Packet) (s : Stream I)
      → s.last_received < 2 ^ 31
      → IsSaved d (suc s.last_received) qs
      → is_known k (try_saved services qs s) ≡ (leb k s.last_received || holds_seqn k qs)
  unfolding try_saved holds_seqn
  is_known-try_saved k [] s l g = refl
  is_known-try_saved k (q ∷ qs) s l (a, b, c) = elim (Bool-cases (q.seqn == next s.last_received)) [
    | inl e ↦
        let n : q.seqn ≡ suc s.last_received = ground arith in
        let last = last_received-process_packet q s in
        let step : (leb k q.seqn || holds_seqn k qs)
            ≡ (leb k s.last_received || (q.seqn == k || holds_seqn k qs)) =
          ground arith in
        rw e (
          is_known-try_saved k qs (process_packet services q s) (omega (arith, b.1, last))
            (rw last c)
          ∙ ap (λ (m : ℕ). leb k m || holds_seqn k qs) last
          ∙ step)
    | inr e ↦ rw e refl
  ]

  received-receive_next :
      (now : ℕ) (p : Packet) (s : Stream I)
      → is_syn p ≡ false
      → received (receive_next services now p s)
        ≡ received (try_saved services s.saved_packets (process_packet services p s))
  unfolding receive_next
  received-receive_next now p s g = rw g (grind (arith, saved_packets-process_packet))

  received-save_packet :
      (p : Packet) (s : Stream I)
      → received (save_packet services p s)
        ≡ (s.receive_queue, insert_packet p s.saved_packets, s.last_received)
  unfolding save_packet
  received-save_packet p s = grind (arith, received-send_quick_ack)

  next_number :
      (now : ℕ) (p : Packet) (s : Stream I)
      → p.seqn ≡ suc s.last_received
      → s.last_received + 2 ≡ suc (process_packet services p s).last_received
  next_number now p s n = omega (arith, n, last_received-process_packet p s)

  -- What arrived and what is taken down of it, for each of the three places of a packet.
  receive_next-IsInOrder :
      (read : List ℕ) (now : ℕ) (p : Packet) (s : Stream I)
      → IsFollowing d p
      → p.seqn ≡ suc s.last_received
      → IsInOrder d read s
      → IsInOrder d read (receive_next services now p s)
  receive_next-IsInOrder read now p s g n (l, h, c) =
      subst (KeepsOrder d read) (sym (received-receive_next now p s g.3)) (
        try_saved-IsInOrder read s.saved_packets (process_packet services p s)
          (omega (arith, g.1, last_received-process_packet p s))
          (process_packet-next read p s h n g.2
            ∙ ap (sent_bytes d) (sym (last_received-process_packet p s)))
          (subst (λ m. IsSaved d m s.saved_packets) (next_number now p s n) c))

  save_packet-IsInOrder :
      (read : List ℕ) (p : Packet) (s : Stream I)
      → IsFollowing d p
      → s.last_received + 2 ≤ p.seqn
      → IsInOrder d read s
      → IsInOrder d read (save_packet services p s)
  save_packet-IsInOrder read p s g n (l, h, c) =
      subst (KeepsOrder d read) (sym (received-save_packet p s))
        (l, h, insert_packet-IsSaved d (s.last_received + 2) p s.saved_packets n g c)

  -- The place of a packet that arrives: in sequence, behind a gap, or there before.
  place :
      (now : ℕ) (p : Packet) (s : Stream I)
      → IsFollowing d p
      → s.last_received < 2 ^ 31
      → ((p.seqn ≡ suc s.last_received)
          × (receive_packet services now p s ≡ receive_next services now p s))
        ⊎ (((s.last_received + 2 ≤ p.seqn)
              × (receive_packet services now p s ≡ save_packet services p s))
            ⊎ ((p.seqn ≤ s.last_received) × (receive_packet services now p s ≡ send_quick_ack s)))
  unfolding receive_packet
  place now p s (a, b, c, e) l =
      let next_number : next s.last_received ≡ suc s.last_received = omega arith in
      let signed : signed_lt s.last_received p.seqn ≡ ltb s.last_received p.seqn = ground arith in
      let first : (p.seqn == 0) ≡ false = ground arith in
      rw (first, e, next_number, signed) (ground arith)

  pub receive_packet-IsInOrder :
      (read : List ℕ) (now : ℕ) (p : Packet) (s : Stream I)
      → IsFollowing d p
      → IsInOrder d read s
      → IsInOrder d read (receive_packet services now p s)
  receive_packet-IsInOrder read now p s g h = elim (place now p s g h.0) [
    | inl (n, e) ↦ rw e (receive_next-IsInOrder read now p s g n h)
    | inr (inl (n, e)) ↦ rw e (save_packet-IsInOrder read p s g n h)
    | inr (inr (n, e)) ↦
        rw e (subst (KeepsOrder d read) (sym (received-send_quick_ack services s)) h)
  ]

  -- Behind a packet, exactly that packet is known besides what was known before.
  pub is_known-receive_packet :
      (read : List ℕ) (now : ℕ) (p : Packet) (s : Stream I)
      → IsFollowing d p
      → IsInOrder d read s
      → (k : ℕ) → is_known k (receive_packet services now p s) ≡ (p.seqn == k || is_known k s)
  is_known-receive_packet read now p s g (l, h, c) k = elim (place now p s g l) [
    | inl (n, e) ↦
        let last = last_received-process_packet p s in
        let below : p.seqn < 2 ^ 31 = g.1 in
        ap (knows k) (ap received e ∙ received-receive_next now p s g.3)
        ∙ is_known-try_saved k s.saved_packets (process_packet services p s)
            (omega (arith, below, last))
            (subst (λ m. IsSaved d m s.saved_packets) (next_number now p s n) c)
        ∙ ground (arith, n, last)
    | inr (inl (n, e)) ↦
        ap (knows k) (ap received e ∙ received-save_packet p s)
        ∙ ground (arith, holds_seqn-insert_packet k p s.saved_packets)
    | inr (inr (n, e)) ↦
        ap (knows k) (ap received e ∙ received-send_quick_ack services s) ∙ ground (arith, n)
  ]
