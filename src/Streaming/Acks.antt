-- ===== src/Streaming/Acks.antt =====
-- core/Streaming.cpp: acknowledgements, as a stream sends them and as it takes them.
use i2pd.Prelude.{
  ℕ, zero, suc, ◌+◌, ◌-◌, ◌*◌, ◌/◌, ◌%◌, ◌^◌, Bool, false, ◌||◌, List, [], ◌∷◌, ◌++◌, ltb, leb,
  ◌==◌, if◌then◌else◌,
}
use i2pd.Streaming.{
  Packet, Stream, Services, transmit, act, next, is_closing, is_negative, signed_lt,
  window_size_of_slow_start, max_window_size,
}
use i2pd.Streaming.Closing.{is_empty, close}
use i2pd.Streaming.Sending.{send_buffer}

unfoldable pub contains : ℕ → List ℕ → Bool
contains x [] = false
contains x (y ∷ ys) = y == x || contains x ys

-- The loop of `ProcessAck` over the packets sent: those that stay, and those that are acknowledged.
unfoldable pub still_sent : ℕ → List ℕ → List Packet → List Packet
unfolding contains
still_sent through nacks [] = []
still_sent through nacks (p ∷ ps) =
    let rest = still_sent through nacks ps in
    if leb p.seqn through then (if contains p.seqn nacks then p ∷ rest else rest) else p ∷ ps

unfoldable pub acknowledged : ℕ → List ℕ → List Packet → List Packet
unfolding contains
acknowledged through nacks [] = []
acknowledged through nacks (p ∷ ps) =
    let rest = acknowledged through nacks ps in
    if leb p.seqn through then (if contains p.seqn nacks then rest else p ∷ rest) else []

-- An `int` as the 64 bits that it is compared by.
abbrev sign_extended : ℕ → ℕ
sign_extended n = if ltb n (2 ^ 31) then n else n + 2 ^ 64 - 2 ^ 32

-- `(m_RTT*seqn + rtt)/(seqn + 1)`; `m_RTT*1.5` is taken of a round trip time that is not negative as an int.
unfoldable pub new_rtt : ℕ → ℕ → ℕ → ℕ
new_rtt old seqn sample = (old * seqn % 2 ^ 32 + sample) % 2 ^ 64 / next seqn % 2 ^ 32

-- The list of sequence numbers from one on.
unfoldable pub numbers_from : ℕ → ℕ → List ℕ
numbers_from n zero = []
numbers_from n (suc count) = n ∷ numbers_from (n + 1) count

-- "fill NACKs": what is acknowledged through, and the NACKs.
unfoldable pub fill_nacks : ℕ → ℕ → ℕ → List Packet → ℕ × List ℕ
unfolding numbers_from
fill_nacks through next_seqn count [] = (through, [])
fill_nacks through next_seqn count (q ∷ qs) =
    let gap = (q.seqn + 2 ^ 32 - next_seqn) % 2 ^ 32 in
    let (t, ns) = fill_nacks through (next q.seqn) (count + gap) qs in
    if leb 256 (count + gap) then (next_seqn, []) else (t, numbers_from next_seqn gap ++ ns)

abbrev pub last_seqn : ℕ → List Packet → ℕ
last_seqn n [] = n
last_seqn n (q ∷ qs) = last_seqn q.seqn qs

module _ {I : Type 0} where
  -- A packet that is acknowledged: the round trip time is averaged, and the window grows.
  unfoldable pub acknowledge : ℕ → Packet → Stream I → Stream I
  unfolding new_rtt
  acknowledge now p s =
      let rtt = new_rtt s.rtt p.seqn ((now + 2 ^ 64 - p.send_time) % 2 ^ 64) in
      let s' = record s { rtt = rtt; rto = rtt * 3 / 2 % 2 ^ 32 } in
      if ltb s.window_size window_size_of_slow_start
      then record s' { window_size = s.window_size + 1 }
      else (if ltb ((s.last_window_size_increase_time + sign_extended rtt) % 2 ^ 64) now
          then record s' {
            window_size =
                if ltb max_window_size (s.window_size + 1)
                then max_window_size
                else s.window_size + 1;
            last_window_size_increase_time = now;
          }
          else s')

  unfoldable pub acknowledge_all : ℕ → List Packet → Stream I → Stream I
  unfolding acknowledge
  acknowledge_all now [] s = s
  acknowledge_all now (p ∷ ps) s = acknowledge_all now ps (acknowledge now p s)

  module _ (services : Services I) where
    -- `ProcessAck`
    unfoldable pub process_ack : ℕ → Packet → Stream I → Stream I
    unfolding still_sent acknowledged acknowledge_all
    process_ack now p s =
        let acked = acknowledged p.ack_through p.nacks s.sent_packets in
        let kept = still_sent p.ack_through p.nacks s.sent_packets in
        let s₁ = record (acknowledge_all now acked s) { sent_packets = kept } in
        let s₂ = if is_empty kept then record s₁ { resend_timer = false } else s₁ in
        let s₃ =
          if is_empty acked
          then s₂
          else send_buffer services now (record s₂ { num_resend_attempts = 0 }) in
        if is_closing s₃.status then close services s₃ else s₃

  -- `lastReceivedSeqn`: the last packet that was received, be it in sequence or not.
  unfoldable pub last_received_of : Stream I → ℕ
  last_received_of s =
      let seqn = last_seqn s.last_received s.saved_packets in
      if signed_lt s.last_received seqn then seqn else s.last_received

  -- The packet of `SendQuickAck`; its resend delay is left uninitialised, and read by nobody.
  unfoldable pub quick_ack : Stream I → Packet
  unfolding last_received_of fill_nacks
  quick_ack s =
      let last = last_received_of s in
      let (through, nacks) = fill_nacks last (next s.last_received) 0 s.saved_packets in
      let blank : Packet = record {
        send_stream_id = s.send_stream_id;
        receive_stream_id = s.recv_stream_id;
        seqn = 0;
        ack_through = last;
        nacks = [];
        resend_delay = 0;
        flags = 0;
        option_data = [];
        payload = [];
        send_time = 0;
      } in
      if signed_lt s.last_received last
      then record blank { ack_through = through; nacks = nacks }
      else blank

  -- `SendQuickAck`
  unfoldable pub send_quick_ack : Stream I → Stream I
  unfolding quick_ack last_received_of
  send_quick_ack s =
      if is_negative (last_received_of s) then s else act (transmit (quick_ack s ∷ [])) s
