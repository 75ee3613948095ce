-- ===== src/Streaming/Timers.antt =====
-- core/Streaming.cpp: the timers of a stream, and the streams of a destination.
use i2pd.Prelude.{
  ℕ, ◌+◌, ◌*◌, ◌/◌, ◌%◌, ◌^◌, Bool, false, List, [], ◌∷◌, ltb, leb, ◌==◌, if◌then◌else◌,
}
use i2pd.Streaming.{
  Packet, reset, Stream, Services, transmit, pick_lease, pick_tunnel, act, is_open, is_negative,
  max_num_resend_attempts, min_window_size, initial_rto,
}
use i2pd.Streaming.Closing.{close}
use i2pd.Streaming.Sending.{schedule_resend}
use i2pd.Streaming.Acks.{send_quick_ack}

-- The packets that waited for an acknowledgement for the timeout: the set with their new times, and they.
unfoldable pub restamp : ℕ → ℕ → List Packet → List Packet
restamp now rto [] = []
restamp now rto (p ∷ ps) =
    let rest = restamp now rto ps in
    (if leb (p.send_time + rto) now then record p { send_time = now } else p) ∷ rest

unfoldable pub overdue : ℕ → ℕ → List Packet → List Packet
overdue now rto [] = []
overdue now rto (p ∷ ps) =
    let rest = overdue now rto ps in
    if leb (p.send_time + rto) now then record p { send_time = now } ∷ rest else rest

module _ {I : Type 0} where
  -- `switch (m_NumResendAttempts)`
  unfoldable pub change_route : Stream I → Stream I
  change_route s =
      if s.num_resend_attempts == 1
      then record s {
        window_size =
            if ltb (s.window_size / 2) min_window_size then min_window_size else s.window_size / 2;
      }
      else (if s.num_resend_attempts == 2
          then act pick_lease (record s { rto = initial_rto })
          else (if s.num_resend_attempts == 4
              then act pick_lease s
              else (if s.num_resend_attempts == 3 then act pick_tunnel s else s)))

  -- The packets are sent again, if there are any.
  unfoldable pub resend : List Packet → Stream I → Stream I
  unfolding change_route
  resend [] s = s
  resend (p ∷ ps) s = act (transmit (p ∷ ps)) (
      change_route
        (record s { num_resend_attempts = s.num_resend_attempts + 1; rto = s.rto * 2 % 2 ^ 32 }))

  module _ (services : Services I) where
    -- `HandleResendTimer`, of a timer that is no longer pending.
    unfoldable pub handle_resend_timer : Bool → ℕ → Stream I → Stream I
    unfolding restamp overdue resend
    handle_resend_timer is_aborted now s =
        let s₁ = record s { sent_packets = restamp now s.rto s.sent_packets } in
        if is_aborted
        then s
        else (if leb max_num_resend_attempts s.num_resend_attempts
            then close services (record s { status = reset })
            else schedule_resend services (resend (overdue now s.rto s.sent_packets) s₁))

    -- `HandleAckSendTimer`, which does not look at the error that it is called with.
    unfoldable pub handle_ack_send_timer : Stream I → Stream I
    handle_ack_send_timer s =
        let s₁ = if is_open s.status then send_quick_ack s else s in
        if s.is_ack_send_scheduled
        then (if is_negative s.last_received
            then close services (record s { status = reset })
            else record s₁ { is_ack_send_scheduled = false })
        else s
