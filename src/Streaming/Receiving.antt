-- ===== src/Streaming/Receiving.antt =====
-- core/Streaming.cpp: packets that arrive, in sequence or not.
use i2pd.Prelude.{
  ℕ, ◌+◌, ◌-◌, ◌/◌, ◌%◌, Bool, true, false, not, ◌&&◌, ◌||◌, List, [], ◌∷◌, ◌++◌, ◌==◌,
  if◌then◌else◌, length, take, drop, replicate,
}
use i2pd.Streaming.{
  Packet, reset, Stream, Services, wake_receiver, act, next, is_syn, is_no_ack, is_open,
  is_negative, signed_lt, insert_packet,
}
use i2pd.Streaming.Wire.{encode}
use i2pd.Streaming.Closing.{is_empty, close}
use i2pd.Streaming.Sending.{send_buffer}
use i2pd.Streaming.Acks.{process_ack, send_quick_ack}

-- A flag of a packet, given by its bit's value.
abbrev pub has_flag : ℕ → Packet → Bool
has_flag bit p = p.flags / bit % 2 == 1

module _ {I : Type 0} (services : Services I) where
  open services use {read_identity, signature_len_of, verify}

  -- The options of `ProcessPacket` from the identity on: the stream's remote identity, and where the
  -- options go on. A read of options goes on into the payload, as the code's does.
  abbrev options_start : Packet → ℕ
  options_start p = if has_flag 0x0040 p then 2 else 0

  abbrev options_of : Packet → List ℕ
  options_of p = drop (options_start p) (p.option_data ++ p.payload)

  abbrev identity_size : Packet → ℕ
  identity_size p = if has_flag 0x0020 p then (read_identity (options_of p)).1 else 0

  abbrev signature_start : Packet → ℕ
  signature_start p = options_start p + identity_size p + (if has_flag 0x0080 p then 2 else 0)

  unfoldable pub take_identity : Packet → Stream I → Stream I
  take_identity p s =
      if has_flag 0x0020 p
      then record s { remote_identity = (read_identity (options_of p)).0 }
      else s

  -- The packet with zeroes in the place of its signature.
  abbrev signed_bytes : Packet → ℕ → ℕ → List ℕ
  signed_bytes p start size =
      let body = p.option_data ++ p.payload in
      let header = encode p in
      take (length header - length body) header
      ++ (take start body ++ (replicate size 0 ++ drop (start + size) body))

  -- Whether the packet has no signature, or a good one.
  unfoldable pub is_signed : Packet → Stream I → Bool
  is_signed p s =
      let size = signature_len_of s.remote_identity in
      if has_flag 0x0008 p
      then verify s.remote_identity (signed_bytes p (signature_start p) size)
          (take size (drop (signature_start p) (p.option_data ++ p.payload)))
      else true

  -- The payload goes to the receiver, and its number is taken down.
  unfoldable pub deliver : Packet → Stream I → Stream I
  deliver p s =
      let s' = record s { last_received = p.seqn } in
      if is_empty p.payload
      then s'
      else act wake_receiver (record s' { receive_queue = s.receive_queue ++ p.payload ∷ [] })

  -- `ProcessPacket`
  unfoldable pub process_packet : Packet → Stream I → Stream I
  unfolding take_identity is_signed deliver
  process_packet p s =
      let s₁ = take_identity p s in
      let good = is_signed p s₁ in
      let s₂ = deliver p (if good then s₁ else close services s₁) in
      if has_flag 0x0002 p || has_flag 0x0004 p || not good
      then close services (record s₂ { status = reset })
      else s₂

  -- "we should also try stored messages if any"
  unfoldable pub try_saved : List Packet → Stream I → Stream I
  try_saved [] s = record s { saved_packets = [] }
  try_saved (q ∷ qs) s =
      let rest = try_saved qs (process_packet q s) in
      if q.seqn == next s.last_received then rest else record s { saved_packets = q ∷ qs }

  abbrev pub schedule_ack : Stream I → Stream I
  schedule_ack s = record s { is_ack_send_scheduled = true; ack_timer = true }

  -- A packet in sequence: it and the stored ones behind it are processed, and acknowledged later.
  unfoldable pub receive_next : ℕ → Packet → Stream I → Stream I
  unfolding try_saved
  receive_next now p s =
      let s' = try_saved s.saved_packets (process_packet p s) in
      if is_open s'.status
      then (if s'.is_ack_send_scheduled then s' else schedule_ack s')
      else (if is_syn p then send_buffer services now s' else s')

  -- "wait for missing message again"
  unfoldable pub save_packet : Packet → Stream I → Stream I
  save_packet p s =
      let s' = record s { saved_packets = insert_packet p s.saved_packets } in
      if is_negative s.last_received
      then schedule_ack s'
      else send_quick_ack (
          if s.is_ack_send_scheduled
          then record s' { is_ack_send_scheduled = false; ack_timer = false }
          else s')

  -- `HandleNextPacket` behind the acknowledgement.
  unfoldable pub receive_packet : ℕ → Packet → Stream I → Stream I
  unfolding receive_next save_packet
  receive_packet now p s =
      if p.seqn == 0 && not (is_syn p)
      then s
      else (if is_syn p || p.seqn == next s.last_received
          then receive_next now p s
          else (if signed_lt s.last_received p.seqn then save_packet p s else send_quick_ack s))

  -- `HandleNextPacket`
  unfoldable pub handle_next_packet : ℕ → Packet → Stream I → Stream I
  unfolding receive_packet process_ack
  handle_next_packet now p s =
      let s₁ = record s {
        num_received_bytes = s.num_received_bytes + length (encode p);
        send_stream_id = if s.send_stream_id == 0 then p.receive_stream_id else s.send_stream_id;
      } in
      receive_packet now p (if is_no_ack p then s₁ else process_ack services now p s₁)
