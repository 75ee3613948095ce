-- ===== src/Streaming/Sending.antt =====
-- core/Streaming.cpp: data of the application is cut into packets, as far as the window allows.
use i2pd.Prelude.{
  ℕ, zero, suc, ◌+◌, ◌-◌, ◌/◌, ◌%◌, Bool, true, false, not, ◌&&◌, ◌||◌, List, [], ◌∷◌, ◌++◌, ltb,
  leb, ◌==◌, if◌then◌else◌, length, take, drop, replicate,
}
use i2pd.Prelude.Bytes.{be16}
use i2pd.Streaming.{
  Packet, open_status, Stream, Services, transmit, post_send_buffer, sent, in_progress, act, next,
  insert_packet, is_new, is_open, is_closing, is_negative, streaming_mtu, flag_synchronize,
  flag_no_ack, flag_signature_included, flag_from_included, flag_max_packet_size_included,
}
use i2pd.Streaming.Wire.{encode}
use i2pd.Streaming.Closing.{is_empty, send_close}

-- The payload of a packet without options: 22 bytes stand in front of it.
abbrev pub follow_on_size : ℕ
follow_on_size = streaming_mtu - 22

-- `ConcatenatePackets`: what a read of `len` bytes gets, and what is left of the queue.
unfoldable pub concatenate_packets : ℕ → List (List ℕ) → List ℕ × List (List ℕ)
concatenate_packets len [] = ([], [])
concatenate_packets len (p ∷ ps) =
    let (bytes, rest) = concatenate_packets (len - length p) ps in
    if len == 0
    then ([], p ∷ ps)
    else (if leb (length p) len then (p ++ bytes, rest) else (take len p, drop len p ∷ ps))

abbrev pub insert_sent : ℕ → List Packet → List Packet → List Packet
insert_sent now [] held = held
insert_sent now (p ∷ ps) held =
    insert_sent now ps (insert_packet (record p { send_time = now }) held)

module _ {I : Type 0} where
  -- `IsEstablished`
  abbrev pub is_established : Stream I → Bool
  is_established s = not (s.send_stream_id == 0)

  -- `m_SendBuffer.read (…, n)`, and `gcount`: a read that comes up short sets `eof`, and behind that
  -- nothing is read.
  abbrev pub taken : ℕ → Stream I → List ℕ
  taken n s = if s.eof then [] else take n s.send_buffer

  abbrev pub read_buffer : ℕ → Stream I → Stream I
  read_buffer n s =
      if s.eof
      then s
      else record s { send_buffer = drop n s.send_buffer; eof = ltb (length s.send_buffer) n }

  abbrev blank_packet : Bool → Stream I → Packet
  blank_packet no_ack s = record {
    send_stream_id = s.send_stream_id;
    receive_stream_id = s.recv_stream_id;
    seqn = s.sequence_number;
    ack_through = if no_ack then s.last_received else 0;
    nacks = [];
    resend_delay = s.rto / 1000 % 256;
    flags = 0;
    option_data = [];
    payload = [];
    send_time = 0;
  }

  -- "follow on packet"
  unfoldable pub follow_on_packet : Bool → Stream I → Packet
  follow_on_packet no_ack s = record (blank_packet no_ack s) { payload = taken follow_on_size s }

  module _ (services : Services I) where
    -- The payload of the initial packet, which has an identity, a size and a signature in front of it.
    abbrev pub initial_size : ℕ
    initial_size = streaming_mtu - (24 + length services.identity_bytes + services.signature_len)

    -- "initial packet", signed with zeroes in the signature's place.
    unfoldable pub initial_packet : Bool → Stream I → Packet
    initial_packet no_ack s =
        let options =
          λ (signature : List ℕ). services.identity_bytes ++ (be16 streaming_mtu ++ signature) in
        let p = record (blank_packet no_ack s) {
          flags =
              flag_synchronize
              + flag_from_included
              + flag_signature_included
              + flag_max_packet_size_included
              + (if no_ack then flag_no_ack else 0);
          option_data = options (replicate services.signature_len 0);
          payload = taken initial_size s;
        } in
        record p { option_data = options (services.sign (encode p)) }

    -- A round of the loop of `SendBuffer`: the packet, and the stream behind it.
    unfoldable pub next_packet : Bool → Stream I → Packet
    unfolding initial_packet follow_on_packet
    next_packet no_ack s =
        if is_new s.status then initial_packet no_ack s else follow_on_packet no_ack s

    unfoldable pub after_packet : Stream I → Stream I
    after_packet s =
        let s' = read_buffer (if is_new s.status then initial_size else follow_on_size) s in
        record s' {
          sequence_number = next s.sequence_number;
          status = if is_new s.status then open_status else s.status;
        }

    -- The loop of `SendBuffer`: the window leaves room for as many packets as there are rounds.
    unfoldable pub make_packets : ℕ → Bool → Stream I → List Packet × Stream I
    unfolding next_packet after_packet
    make_packets zero no_ack s = ([], s)
    make_packets (suc room) no_ack s =
        let (ps, s') = make_packets room no_ack (after_packet s) in
        if is_new s.status || (is_established s && not s.eof)
        then (next_packet no_ack s ∷ ps, s')
        else ([], s)

    -- `ScheduleResend`
    abbrev pub schedule_resend : Stream I → Stream I
    schedule_resend s = record s { resend_timer = true }

    -- The rest of `SendBuffer`, for the packets that were made.
    unfoldable pub send_packets : ℕ → List Packet → Stream I → Stream I
    send_packets now [] s = s
    send_packets now (p ∷ ps) s =
        let s₁ = act (transmit (p ∷ ps)) (record s {
          is_ack_send_scheduled = false;
          ack_timer = false;
          sent_packets = insert_sent now (p ∷ ps) s.sent_packets;
        }) in
        let s₂ = if is_closing s₁.status && s₁.eof then send_close services s₁ else s₁ in
        if is_empty s.sent_packets then schedule_resend s₂ else s₂

    -- `SendBuffer`
    unfoldable pub send_buffer : ℕ → Stream I → Stream I
    unfolding make_packets send_packets
    send_buffer now s =
        let (ps, s₁) =
          make_packets (s.window_size - length s.sent_packets) (is_negative s.last_received) s in
        let s₂ = if s₁.eof && s₁.handler then act sent (record s₁ { handler = false }) else s₁ in
        if leb s.window_size (length s.sent_packets) then s else send_packets now ps s₂

    -- `Send`, which leaves the sending to the I/O service.
    unfoldable pub send : List ℕ → Stream I → Stream I
    send bytes s =
        let s' = record s { send_buffer = s.send_buffer ++ bytes; eof = false } in
        act post_send_buffer (if is_empty bytes then s else s')

    -- `AsyncSend`
    unfoldable pub async_send : List ℕ → Stream I → Stream I
    unfolding send
    async_send bytes s =
        send bytes (if s.handler then act in_progress s else record s { handler = true })

    -- `SendPacket`, for a packet that was posted.
    unfoldable pub send_packet : Packet → Stream I → Stream I
    send_packet p s =
        let s₁ =
          if s.is_ack_send_scheduled
          then record s { is_ack_send_scheduled = false; ack_timer = false }
          else s in
        let s₂ = act (transmit (p ∷ [])) s₁ in
        let s₃ = record s₂ { sent_packets = insert_packet p s.sent_packets } in
        if is_open s.status
        then (if is_empty s.sent_packets then schedule_resend s₃ else s₃)
        else s₂
