-- ===== src/Streaming/Delivery.antt =====
-- core/Streaming.cpp: a run of a stream that receives, and what its reader gets.
use i2pd.Prelude.{
  not, false, append-nil, List-cases, Bool-cases, inl, inr, true, ℕ, ◌+◌, ◌-◌, ◌<◌, ◌≡◌, refl, sym,
  ap, ◌∙◌, Bool, ◌||◌, List, [], ◌∷◌, ◌++◌, append_assoc, arith, ◌==◌, if◌then◌else◌, length, take,
  drop, take-append-drop, min, length-append, length-take,
}
use mathlib.Core.Path.{subst}
use i2pd.Streaming.{Packet, Stream, Services, is_no_ack, is_syn}
use i2pd.Streaming.Wire.{encode}
use i2pd.Streaming.Closing.{is_empty, close}
use i2pd.Streaming.Sending.{send_buffer, concatenate_packets, send, async_send, send_packet}
use i2pd.Streaming.Acks.{process_ack}
use i2pd.Streaming.Receiving.{
  receive_packet, handle_next_packet, receive_next, try_saved, process_packet,
}
use i2pd.Streaming.Reading.{bytes_of, is_reset, after_read, handle_receive_timer, async_receive}
use i2pd.Streaming.Timers.{change_route, resend, handle_resend_timer, handle_ack_send_timer}
use i2pd.Streaming.Frame.{
  received, received-close, received-send_buffer, received-process_ack, received-send_quick_ack,
}
use i2pd.Streaming.InOrder.{concat, IsFollowing, KeepsOrder, holds_seqn, knows, is_known, IsInOrder}
use i2pd.Streaming.Placing.{
  receive_packet-IsInOrder, is_known-receive_packet, last_received-process_packet,
  receive_queue-process_packet, concat-deliver,
}

concatenate_packets-concat :
    (len : ℕ) (queue : List (List ℕ))
    → (concatenate_packets len queue).0 ++ concat (concatenate_packets len queue).1 ≡ concat queue
unfolding concatenate_packets
concatenate_packets-concat len [] = refl
concatenate_packets-concat len (p ∷ ps) =
    let bytes = (concatenate_packets (len - length p) ps).0 in
    let rest = concat (concatenate_packets (len - length p) ps).1 in
    let whole : (p ++ bytes) ++ rest ≡ p ++ concat ps =
      append_assoc p bytes rest ∙ ap (◌++◌ p) (concatenate_packets-concat (len - length p) ps) in
    let part : take len p ++ (drop len p ++ concat ps) ≡ p ++ concat ps =
      sym (append_assoc (take len p) (drop len p) (concat ps))
      ∙ ap (λ (x : List ℕ). x ++ concat ps) (take-append-drop len p) in
    ground (arith, whole, part)

length-concatenate_packets :
    (len : ℕ) (queue : List (List ℕ))
    → length (concatenate_packets len queue).0 ≡ min len (length (concat queue))
unfolding concatenate_packets
length-concatenate_packets len [] = omega arith
length-concatenate_packets len (p ∷ ps) = ground (
  arith,
  length-concatenate_packets (len - length p) ps,
  length-append p (concat ps),
  length-append p (concatenate_packets (len - length p) ps).0,
  length-take len p,
)

-- A read takes the first bytes of those that wait, and leaves the others in their order; it gets as many as
-- it asks for, or all if there are fewer.
pub concatenate_packets-bytes :
    (len : ℕ) (queue : List (List ℕ))
    → ((concatenate_packets len queue).0 ++ concat (concatenate_packets len queue).1 ≡ concat queue)
      × (length (concatenate_packets len queue).0 ≡ min len (length (concat queue)))
concatenate_packets-bytes len queue =
    (concatenate_packets-concat len queue, length-concatenate_packets len queue)

module _ {I : Type 0} (services : Services I) where
  received-resend : (ps : List Packet) (s : Stream I) → received (resend ps s) ≡ received s
  unfolding resend change_route
  received-resend [] s = refl
  received-resend (p ∷ ps) s = ground arith

  received-handle_resend_timer :
      (b : Bool) (now : ℕ) (s : Stream I)
      → received (handle_resend_timer services b now s) ≡ received s
  unfolding handle_resend_timer
  received-handle_resend_timer b now s = grind (arith, received-resend, received-close services)

  received-handle_ack_send_timer :
      (s : Stream I) → received (handle_ack_send_timer services s) ≡ received s
  unfolding handle_ack_send_timer
  received-handle_ack_send_timer s =
      grind (arith, received-send_quick_ack services, received-close services)

  bytes_of-result :
      (is_aborted : Bool) (len : ℕ) (s : Stream I)
      → bytes_of (handle_receive_timer is_aborted len s).0
        ≡ (concatenate_packets len s.receive_queue).0
  unfolding handle_receive_timer
  bytes_of-result is_aborted len s = elim (List-cases (concatenate_packets len s.receive_queue).0) [
    | inl e ↦ rw e (ground arith)
    | inr (x, xs, e) ↦ rw e refl
  ]

  -- What `HandleNextPacket` hands on behind the acknowledgement: the same as far as receiving goes.
  abbrev pub after_ack : ℕ → Packet → Stream I → Stream I
  after_ack now p s =
      let s₁ = record s {
        num_received_bytes = s.num_received_bytes + length (encode p);
        send_stream_id = if s.send_stream_id == 0 then p.receive_stream_id else s.send_stream_id;
      } in
      if is_no_ack p then s₁ else process_ack services now p s₁

  received-after_ack :
      (now : ℕ) (p : Packet) (s : Stream I) → received (after_ack now p s) ≡ received s
  received-after_ack now p s = grind (arith, received-process_ack services)

  pub handle_next_packet_lem :
      (now : ℕ) (p : Packet) (s : Stream I)
      → handle_next_packet services now p s ≡ receive_packet services now p (after_ack now p s)
  unfolding handle_next_packet
  handle_next_packet_lem now p s = refl

  receive_packet-plain_ack :
      (now : ℕ) (p : Packet) (s : Stream I)
      → p.seqn ≡ 0
      → is_syn p ≡ false
      → receive_packet services now p s ≡ s
  unfolding receive_packet
  receive_packet-plain_ack now p s z g = ground (arith, z, g)

  received-plain_ack :
      (now : ℕ) (p : Packet) (s : Stream I)
      → p.seqn ≡ 0
      → is_syn p ≡ false
      → received (handle_next_packet services now p s) ≡ received s
  received-plain_ack now p s z g =
      ap received
        (handle_next_packet_lem now p s ∙ receive_packet-plain_ack now p (after_ack now p s) z g)
      ∙ received-after_ack now p s

  received-syn :
      (now : ℕ) (p : Packet) (s : Stream I)
      → is_syn p ≡ true
      → s.saved_packets ≡ []
      → received (receive_packet services now p s) ≡ (
        (process_packet services p s).receive_queue,
        [],
        (process_packet services p s).last_received,
      )
  unfolding receive_packet receive_next try_saved
  received-syn now p s g e = rw (g, e) (grind (arith, received-send_buffer services))

  -- A packet with a SYN is taken whatever has arrived before: with no packet stored behind a gap, its payload
  -- is given to the reader, even if it was before, and the last number in sequence becomes its number,
  -- so that packets behind it that were taken are waited for again.
  pub repeated_syn :
      (now : ℕ) (p : Packet) (s : Stream I)
      → is_syn p ≡ true
      → s.saved_packets ≡ []
      → let s' = handle_next_packet services now p s in
        (concat s'.receive_queue ≡ concat s.receive_queue ++ p.payload)
        × (s'.last_received ≡ p.seqn)
        × ((k : ℕ) → p.seqn < k → is_known k s' ≡ false)
  unfolding holds_seqn
  repeated_syn now p s g e =
      let s₁ = after_ack now p s in
      let t = process_packet services p s₁ in
      let kept = received-after_ack now p s in
      let whole : received (handle_next_packet services now p s)
          ≡ (t.receive_queue, [], t.last_received) =
        ap received (handle_next_packet_lem now p s)
        ∙ received-syn now p s₁ g (ap (λ r. r.1) kept ∙ e) in
      let last = last_received-process_packet services (λ k. []) p s₁ in
      (
        ap (λ r. concat r.0) whole
            ∙ ap concat (receive_queue-process_packet services (λ k. []) p s₁)
            ∙ concat-deliver services (λ k. []) p s₁
            ∙ ap (λ r. concat r.0 ++ p.payload) kept,
        ap (λ r. r.2) whole ∙ last,
        λ k l. ap (knows k) whole ∙ ground (arith, last),
      )

  module _ (d : ℕ → List ℕ) where
    -- A step of a stream, with what was read of it so far: a packet of its sender behind the first one
    -- arrives, or one that only acknowledges; the stream is read, written to or closed, a timer of it
    -- expires, or work that it posted is done.
    pub data Step : List ℕ × Stream I → List ℕ × Stream I → Type 0 where
      arrive :
          (read : List ℕ) (s : Stream I) (now : ℕ) (p : Packet)
          → IsFollowing d p
          → Step (read, s) (read, handle_next_packet services now p s)
      arrive_ack :
          (read : List ℕ) (s : Stream I) (now : ℕ) (p : Packet)
          → p.seqn ≡ 0
          → is_syn p ≡ false
          → Step (read, s) (read, handle_next_packet services now p s)
      receive :
          (read : List ℕ) (s : Stream I) (len : ℕ)
          → Step (read, s) (read ++ bytes_of (async_receive len s).0, (async_receive len s).1)
      receive_timer :
          (read : List ℕ) (s : Stream I) (is_aborted : Bool) (len : ℕ)
          → Step
              (read, s)
              (
                read ++ bytes_of (handle_receive_timer is_aborted len s).0,
                (handle_receive_timer is_aborted len s).1,
              )
      write :
          (read : List ℕ) (s : Stream I) (bytes : List ℕ)
          → Step (read, s) (read, send services bytes s)
      write_async :
          (read : List ℕ) (s : Stream I) (bytes : List ℕ)
          → Step (read, s) (read, async_send services bytes s)
      posted_packet :
          (read : List ℕ) (s : Stream I) (p : Packet)
          → Step (read, s) (read, send_packet services p s)
      flush :
          (read : List ℕ) (s : Stream I) (now : ℕ)
          → Step (read, s) (read, send_buffer services now s)
      resend_timer :
          (read : List ℕ) (s : Stream I) (is_aborted : Bool) (now : ℕ)
          → Step (read, s) (read, handle_resend_timer services is_aborted now s)
      ack_timer :
          (read : List ℕ) (s : Stream I) → Step (read, s) (read, handle_ack_send_timer services s)
      shut : (read : List ℕ) (s : Stream I) → Step (read, s) (read, close services s)

    pub data Run (start : List ℕ × Stream I) : List ℕ × Stream I → Type 0 where
      here : Run start start
      then_step : {x y : List ℕ × Stream I} → Run start x → Step x y → Run start y

    received_lem :
        (read : List ℕ) (s t : Stream I)
        → received t ≡ received s
        → IsInOrder d read s
        → IsInOrder d read t
    received_lem read s t e h = subst (KeepsOrder d read) (sym e) h

    take_bytes-IsInOrder :
        (read : List ℕ) (s : Stream I) (len : ℕ)
        → IsInOrder d read s
        → IsInOrder d
            (read ++ (concatenate_packets len s.receive_queue).0)
            (record s { receive_queue = (concatenate_packets len s.receive_queue).1 })
    take_bytes-IsInOrder read s len (l, h, c) =
        let bytes = (concatenate_packets len s.receive_queue).0 in
        let rest = (concatenate_packets len s.receive_queue).1 in
        (
          l,
          append_assoc read bytes (concat rest)
              ∙ ap (◌++◌ read) (concatenate_packets-concat len s.receive_queue)
              ∙ h,
          c,
        )

    handle_receive_timer-IsInOrder :
        (read : List ℕ) (s : Stream I) (is_aborted : Bool) (len : ℕ)
        → IsInOrder d read s
        → IsInOrder d
            (read ++ bytes_of (handle_receive_timer is_aborted len s).0)
            (handle_receive_timer is_aborted len s).1
    unfolding handle_receive_timer
    handle_receive_timer-IsInOrder read s is_aborted len h =
        subst (λ x. IsInOrder d (read ++ x) (after_read len s))
          (sym (bytes_of-result is_aborted len s)) (take_bytes-IsInOrder read s len h)

    async_receive-IsInOrder :
        (read : List ℕ) (s : Stream I) (len : ℕ)
        → IsInOrder d read s
        → IsInOrder d (read ++ bytes_of (async_receive len s).0) (async_receive len s).1
    unfolding async_receive
    async_receive-IsInOrder read s len h =
        elim (Bool-cases (not (is_empty s.receive_queue) || is_reset s.status)) [
          | inl e ↦ rw e (handle_receive_timer-IsInOrder read s true len h)
          | inr e ↦ rw e (subst (λ x. IsInOrder d x s) (sym (append-nil read)) h)
        ]

    handle_next_packet-IsInOrder :
        (read : List ℕ) (now : ℕ) (p : Packet) (s : Stream I)
        → IsFollowing d p
        → IsInOrder d read s
        → IsInOrder d read (handle_next_packet services now p s)
    handle_next_packet-IsInOrder read now p s g h = rw (handle_next_packet_lem now p s) (
        receive_packet-IsInOrder services d read now p (after_ack now p s) g
          (received_lem read s (after_ack now p s) (received-after_ack now p s) h))

    Step-IsInOrder :
        {x y : List ℕ × Stream I} → Step x y → IsInOrder d x.0 x.1 → IsInOrder d y.0 y.1
    unfolding send async_send send_packet
    Step-IsInOrder (arrive read s now p g) h = handle_next_packet-IsInOrder read now p s g h
    Step-IsInOrder (arrive_ack read s now p z g) h =
        received_lem read s (handle_next_packet services now p s) (received-plain_ack now p s z g) h
    Step-IsInOrder (receive read s len) h = async_receive-IsInOrder read s len h
    Step-IsInOrder (receive_timer read s b len) h = handle_receive_timer-IsInOrder read s b len h
    Step-IsInOrder (write read s bytes) h =
        received_lem read s (send services bytes s) (ground arith) h
    Step-IsInOrder (write_async read s bytes) h =
        received_lem read s (async_send services bytes s) (ground arith) h
    Step-IsInOrder (posted_packet read s p) h =
        received_lem read s (send_packet services p s) (ground arith) h
    Step-IsInOrder (flush read s now) h =
        received_lem read s (send_buffer services now s) (received-send_buffer services now s) h
    Step-IsInOrder (resend_timer read s b now) h =
        received_lem read s (handle_resend_timer services b now s)
          (received-handle_resend_timer b now s) h
    Step-IsInOrder (ack_timer read s) h =
        received_lem read s (handle_ack_send_timer services s) (received-handle_ack_send_timer s) h
    Step-IsInOrder (shut read s) h =
        received_lem read s (close services s) (received-close services s) h

    -- However the packets of a sender behind its first one arrive, in any order, once, often or never, none
    -- of them with a SYN or a number from 2^31 on, whatever else their flags and options are, and whatever
    -- happens in between of these: packets that only acknowledge, reads, writes, closing, the resend,
    -- acknowledgement and receive timers, and posted work (`SendBuffer` and `SendPacket`): what the reader
    -- got and what waits for it are the payloads of the packets up to the last number in sequence, in
    -- their order, none left out or given twice; and each stored packet lies behind a gap. It starts from
    -- a stream of which this holds, like one that took the first packet.
    pub Run-IsInOrder :
        {x y : List ℕ × Stream I} → Run x y → IsInOrder d x.0 x.1 → IsInOrder d y.0 y.1
    Run-IsInOrder here h = h
    Run-IsInOrder (then_step run step) h = Step-IsInOrder step (Run-IsInOrder run h)

    -- In a stream whose packets come from one sender, upon a packet behind the first one, with a number
    -- below 2^31 and without a SYN, `HandleNextPacket` makes known exactly its number: every other
    -- number is known, in sequence or stored, just when it was before.
    pub is_known-handle_next_packet :
        (read : List ℕ) (now : ℕ) (p : Packet) (s : Stream I)
        → IsFollowing d p
        → IsInOrder d read s
        → (k : ℕ) → is_known k (handle_next_packet services now p s) ≡ (p.seqn == k || is_known k s)
    is_known-handle_next_packet read now p s g h k =
        ap (is_known k) (handle_next_packet_lem now p s)
        ∙ is_known-receive_packet services d read now p (after_ack now p s) g
            (received_lem read s (after_ack now p s) (received-after_ack now p s) h) k
        ∙ ap (λ x. p.seqn == k || knows k x) (received-after_ack now p s)
