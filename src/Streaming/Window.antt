-- ===== src/Streaming/Window.antt =====
-- core/Streaming.cpp: the window of a stream, and how much it sends without an acknowledgement.
use i2pd.Prelude.{
  ℕ, zero, suc, ◌+◌, ◌-◌, ◌≤◌, ◌≡◌, refl, Bool, List, [], ◌∷◌, arith, leb, if◌then◌else◌, length,
  Bool-cases, inl, inr,
}
use i2pd.Streaming.{
  Packet, Stream, Services, Status, new, open_status, reset, closing, closed, is_negative,
  insert_packet, min_window_size, max_window_size, is_no_ack,
}
use i2pd.Streaming.Closing.{terminate, send_close, finish, close_closing, close_in, close}
use i2pd.Streaming.Sending.{insert_sent, make_packets, after_packet, send_packets, send_buffer}
use i2pd.Streaming.Acks.{acknowledge, acknowledge_all, acknowledged, process_ack, send_quick_ack}
use i2pd.Streaming.Receiving.{
  take_identity, deliver, process_packet, try_saved, receive_next, save_packet, receive_packet,
  handle_next_packet,
}
use i2pd.Streaming.Timers.{change_route, resend, overdue, restamp, handle_resend_timer}
use i2pd.Streaming.Delivery.{after_ack, handle_next_packet_lem}
use i2pd.Streaming.Cutting.{length-make_packets}

-- The size of a window is between the smallest and the largest.
abbrev pub IsWindow : ℕ → Type 0
IsWindow w = (min_window_size ≤ w) × (w ≤ max_window_size)

length-insert_packet :
    (p : Packet) (qs : List Packet) → length (insert_packet p qs) ≤ suc (length qs)
unfolding insert_packet
length-insert_packet p [] = omega arith
length-insert_packet p (q ∷ qs) = ground (arith, length-insert_packet p qs)

length-insert_sent :
    (now : ℕ) (ps qs : List Packet) → length (insert_sent now ps qs) ≤ length ps + length qs
length-insert_sent now [] qs = omega arith
length-insert_sent now (p ∷ ps) qs = omega (
  arith,
  length-insert_sent now ps (insert_packet (record p { send_time = now }) qs),
  length-insert_packet (record p { send_time = now }) qs,
)

module _ {I : Type 0} (services : Services I) where
  window_size-finish : (s : Stream I) → (finish services s).window_size ≡ s.window_size
  unfolding finish send_close terminate
  window_size-finish s = ground arith

  window_size-close_closing :
      (s : Stream I) → (close_closing services s).window_size ≡ s.window_size
  unfolding close_closing
  window_size-close_closing s = ground (arith, window_size-finish (record s { status = closed }))

  window_size-close_in :
      (st : Status) (s : Stream I) → (close_in services st s).window_size ≡ s.window_size
  unfolding close_in terminate
  window_size-close_in new s = refl
  window_size-close_in open_status s = window_size-close_closing (record s { status = closing })
  window_size-close_in reset s = window_size-finish s
  window_size-close_in closing s = window_size-close_closing s
  window_size-close_in closed s = ground arith

  window_size-close : (s : Stream I) → (close services s).window_size ≡ s.window_size
  unfolding close
  window_size-close s = window_size-close_in s.status s

  -- What making packets leaves alone.
  untouched-make_packets :
      (n : ℕ) (b : Bool) (s : Stream I)
      → ((make_packets services n b s).1.window_size ≡ s.window_size)
        × ((make_packets services n b s).1.sent_packets ≡ s.sent_packets)
  unfolding make_packets after_packet
  untouched-make_packets zero b s = (refl, refl)
  untouched-make_packets (suc n) b s =
      let ih = untouched-make_packets n b (after_packet services s) in
      (ground (arith, ih.0), ground (arith, ih.1))

  window_size-send_packets :
      (now : ℕ) (ps : List Packet) (s : Stream I)
      → (send_packets services now ps s).window_size ≡ s.window_size
  unfolding send_packets send_close
  window_size-send_packets now [] s = refl
  window_size-send_packets now (p ∷ ps) s = ground arith

  sent_packets-send_packets :
      (now : ℕ) (ps : List Packet) (s : Stream I)
      → (send_packets services now ps s).sent_packets ≡ insert_sent now ps s.sent_packets
  unfolding send_packets send_close
  sent_packets-send_packets now [] s = refl
  sent_packets-send_packets now (p ∷ ps) s = ground arith

  window_size-send_buffer :
      (now : ℕ) (s : Stream I) → (send_buffer services now s).window_size ≡ s.window_size
  unfolding send_buffer
  window_size-send_buffer now s = grind (arith, window_size-send_packets, untouched-make_packets)

  pub sent_packets-send_buffer :
      (now : ℕ) (s : Stream I)
      → (send_buffer services now s).sent_packets ≡ (
          if leb s.window_size (length s.sent_packets)
          then s.sent_packets
          else insert_sent now
              (make_packets services
                (s.window_size - length s.sent_packets)
                (is_negative s.last_received)
                s).0
              s.sent_packets)
  unfolding send_buffer
  sent_packets-send_buffer now s = grind (arith, sent_packets-send_packets, untouched-make_packets)

  pub length-send_buffer :
      (now : ℕ) (s : Stream I)
      → length s.sent_packets ≤ s.window_size
      → length (send_buffer services now s).sent_packets ≤ s.window_size
  length-send_buffer now s h =
      let room = s.window_size - length s.sent_packets in
      let made = (make_packets services room (is_negative s.last_received) s).0 in
      ground (
        arith,
        sent_packets-send_buffer now s,
        length-insert_sent now made s.sent_packets,
        length-make_packets services room (is_negative s.last_received) s,
      )

  acknowledge-IsWindow :
      (now : ℕ) (p : Packet) (s : Stream I)
      → IsWindow s.window_size
      → IsWindow (acknowledge now p s).window_size
  unfolding acknowledge
  acknowledge-IsWindow now p s h = ground arith

  acknowledge_all-IsWindow :
      (now : ℕ) (ps : List Packet) (s : Stream I)
      → IsWindow s.window_size
      → IsWindow (acknowledge_all now ps s).window_size
  unfolding acknowledge_all
  acknowledge_all-IsWindow now [] s h = h
  acknowledge_all-IsWindow now (p ∷ ps) s h =
      acknowledge_all-IsWindow now ps (acknowledge now p s) (acknowledge-IsWindow now p s h)

  window_size-process_ack :
      (now : ℕ) (p : Packet) (s : Stream I)
      → (process_ack services now p s).window_size
        ≡ (acknowledge_all now (acknowledged p.ack_through p.nacks s.sent_packets) s).window_size
  unfolding process_ack
  window_size-process_ack now p s = grind (arith, window_size-close, window_size-send_buffer)

  window_size-process_packet :
      (p : Packet) (s : Stream I) → (process_packet services p s).window_size ≡ s.window_size
  unfolding process_packet take_identity deliver
  window_size-process_packet p s = grind (arith, window_size-close)

  window_size-try_saved :
      (qs : List Packet) (s : Stream I) → (try_saved services qs s).window_size ≡ s.window_size
  unfolding try_saved
  window_size-try_saved [] s = refl
  window_size-try_saved (q ∷ qs) s = ground (
    arith,
    window_size-try_saved qs (process_packet services q s),
    window_size-process_packet q s,
  )

  window_size-receive_next :
      (now : ℕ) (p : Packet) (s : Stream I)
      → (receive_next services now p s).window_size ≡ s.window_size
  unfolding receive_next
  window_size-receive_next now p s =
      grind (arith, window_size-send_buffer, window_size-try_saved, window_size-process_packet)

  window_size-send_quick_ack : (s : Stream I) → (send_quick_ack s).window_size ≡ s.window_size
  unfolding send_quick_ack
  window_size-send_quick_ack s = ground arith

  window_size-save_packet :
      (p : Packet) (s : Stream I) → (save_packet services p s).window_size ≡ s.window_size
  unfolding save_packet
  window_size-save_packet p s = grind (arith, window_size-send_quick_ack)

  window_size-receive_packet :
      (now : ℕ) (p : Packet) (s : Stream I)
      → (receive_packet services now p s).window_size ≡ s.window_size
  unfolding receive_packet
  window_size-receive_packet now p s = ground (
    arith,
    window_size-receive_next now p s,
    window_size-save_packet p s,
    window_size-send_quick_ack s,
  )

  resend-IsWindow :
      (ps : List Packet) (s : Stream I)
      → IsWindow s.window_size
      → IsWindow (resend ps s).window_size
  unfolding resend change_route
  resend-IsWindow [] s h = h
  resend-IsWindow (p ∷ ps) s h = ground arith

  after_ack-IsWindow :
      (now : ℕ) (p : Packet) (s : Stream I)
      → IsWindow s.window_size
      → IsWindow (after_ack services now p s).window_size
  after_ack-IsWindow now p s h = elim (Bool-cases (is_no_ack p)) [
    | inl e ↦ rw e h
    | inr e ↦ rw (e, window_size-process_ack now p _) (acknowledge_all-IsWindow now _ _ h)
  ]

  handle_next_packet-IsWindow :
      (now : ℕ) (p : Packet) (s : Stream I)
      → IsWindow s.window_size
      → IsWindow (handle_next_packet services now p s).window_size
  handle_next_packet-IsWindow now p s h =
      let t = after_ack services now p s in
      let kept : IsWindow t.window_size = after_ack-IsWindow now p s h in
      rw (handle_next_packet_lem services now p s, window_size-receive_packet now p t) kept

  handle_resend_timer-IsWindow :
      (is_aborted : Bool) (now : ℕ) (s : Stream I)
      → IsWindow s.window_size
      → IsWindow (handle_resend_timer services is_aborted now s).window_size
  unfolding handle_resend_timer
  handle_resend_timer-IsWindow is_aborted now s h = ground (
    arith,
    window_size-close (record s { status = reset }),
    resend-IsWindow (overdue now s.rto s.sent_packets)
        (record s { sent_packets = restamp now s.rto s.sent_packets }) h,
  )

  -- The window of a stream that is between 1 and 128 packets stays there, whatever packet arrives, whenever
  -- the resend timer fires, and when the buffer is sent.
  pub IsWindow-kept :
      (now : ℕ) (p : Packet) (is_aborted : Bool) (s : Stream I)
      → IsWindow s.window_size
      → IsWindow (handle_next_packet services now p s).window_size
        × IsWindow (handle_resend_timer services is_aborted now s).window_size
        × IsWindow (send_buffer services now s).window_size
  IsWindow-kept now p is_aborted s h = (
    handle_next_packet-IsWindow now p s h,
    handle_resend_timer-IsWindow is_aborted now s h,
    rw (window_size-send_buffer now s) h,
  )
