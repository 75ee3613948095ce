-- ===== src/Streaming/Tests.antt =====
-- Streams of concrete destinations.
use i2pd.Prelude.{
  ◌⊎◌, ◌-◌, ℕ, ◌+◌, ◌%◌, ◌≤◌, ◌<◌, ◌≡◌, refl, true, false, ◌&&◌, ◌||◌, not, List, [], ◌∷◌, ◌++◌,
  arith, some, ◌==◌, length, take, replicate,
}
use i2pd.Streaming.{Packet, Stream, Services, open_status, init, insert_packet}
use i2pd.Streaming.Wire.{encode, parse}
use i2pd.Streaming.Sending.{concatenate_packets, insert_sent, make_packets, send_buffer}
use i2pd.Streaming.Acks.{quick_ack, still_sent, send_quick_ack}
use i2pd.Streaming.Receiving.{handle_next_packet, process_packet}
use i2pd.Streaming.Reading.{ReadResult, received_bytes, bytes_of, async_receive}
use i2pd.Streaming.Timers.{handle_resend_timer}
use i2pd.Streaming.InOrder.{concat, sent_bytes, IsFollowing, holds_seqn, is_known, IsInOrder}
use i2pd.Streaming.Delivery.{
  arrive, receive, Run, here, then_step, Run-IsInOrder, repeated_syn, is_known-handle_next_packet,
}
use i2pd.Streaming.Nacks.{missing}
use i2pd.Streaming.Acked.{still_sent-quick_ack}
use i2pd.Streaming.WireRoundTrip.{parse-encode}
use i2pd.Streaming.Cutting.{carried, IsNumbered, goes_on}
use i2pd.Streaming.Window.{IsWindow, IsWindow-kept}
use i2pd.Streaming.Flushed.{made, left, send_buffer-cuts}

-- Identities of three bytes, and signatures of two.
abbrev services : Services (List ℕ)
services = record {
  identity_bytes = 1 ∷ 2 ∷ 3 ∷ [];
  signature_len = 2;
  sign = λ bytes. (length bytes % 256) ∷ 9 ∷ [];
  read_identity = λ bytes. (take 3 bytes, 3);
  signature_len_of = λ i. 2;
  verify = λ i bytes signature. true;
}

-- A sender whose packet of number k carries the bytes k and k + 1.
abbrev payload_of : ℕ → List ℕ
payload_of k = (k % 256) ∷ ((k + 1) % 256) ∷ []

abbrev packet : ℕ → Packet
packet k = record {
  send_stream_id = 5;
  receive_stream_id = 6;
  seqn = k;
  ack_through = 0;
  nacks = [];
  resend_delay = 9;
  flags = 0;
  option_data = [];
  payload = payload_of k;
  send_time = 0;
}

-- A stream that took the first packet, and was read.
abbrev stream : Stream (List ℕ)
stream = record (init 6 []) {
  send_stream_id = 5;
  status = open_status;
  last_received = 0;
  sequence_number = 1;
  receive_queue = payload_of 0 ∷ [];
  eof = true;
}

abbrev packet_IsFollowing : IsFollowing payload_of (packet 2)
packet_IsFollowing = (omega arith, omega arith, refl, refl)

abbrev packet_1_IsFollowing : IsFollowing payload_of (packet 1)
packet_1_IsFollowing = (omega arith, omega arith, refl, refl)

stream-IsInOrder : IsInOrder payload_of [] stream
unfolding sent_bytes init
stream-IsInOrder = (omega arith, refl, tt)

-- Packet 2 arrives, packet 1, packet 2 once more, and three bytes are read.
abbrev overtaken : Stream (List ℕ)
overtaken = handle_next_packet services 100 (packet 2) stream

abbrev joined : Stream (List ℕ)
joined = handle_next_packet services 200 (packet 1) overtaken

abbrev repeated : Stream (List ℕ)
repeated = handle_next_packet services 300 (packet 2) joined

abbrev outcome : ReadResult × Stream (List ℕ)
outcome = async_receive 3 repeated

abbrev run : Run services payload_of ([], stream) ([] ++ bytes_of outcome.0, outcome.1)
run =
    then_step
      (then_step
        (then_step (then_step here (arrive [] stream 100 (packet 2) packet_IsFollowing))
          (arrive [] overtaken 200 (packet 1) packet_1_IsFollowing))
        (arrive [] joined 300 (packet 2) packet_IsFollowing))
      (receive [] repeated 3)

Run-IsInOrder_example : IsInOrder payload_of ([] ++ bytes_of outcome.0) outcome.1
Run-IsInOrder_example = Run-IsInOrder services payload_of run stream-IsInOrder

outcome_test :
    (outcome.0 ≡ received_bytes (0 ∷ 1 ∷ 1 ∷ []))
    × (outcome.1.receive_queue ≡ (2 ∷ []) ∷ (2 ∷ 3 ∷ []) ∷ [])
unfolding handle_next_packet async_receive concatenate_packets init send_quick_ack insert_packet
    process_packet
outcome_test = (refl, refl)

-- The first packet, which comes once more when the packets up to 3 have arrived.
abbrev syn : Packet
syn = record (packet 0) { flags = 1 }

abbrev further : Stream (List ℕ)
further = record stream { last_received = 3; receive_queue = payload_of 3 ∷ [] }

repeated_syn_example :
    (concat (handle_next_packet services 100 syn further).receive_queue
      ≡ concat further.receive_queue ++ payload_of 0)
    × ((handle_next_packet services 100 syn further).last_received ≡ 0)
    × ((k : ℕ) → 0 < k → is_known k (handle_next_packet services 100 syn further) ≡ false)
unfolding init
repeated_syn_example = repeated_syn services 100 syn further refl refl

is_known-handle_next_packet_example : is_known 2 overtaken ≡ (2 == 2 || is_known 2 stream)
is_known-handle_next_packet_example =
    is_known-handle_next_packet services payload_of [] 100 (packet 2) stream packet_IsFollowing
      stream-IsInOrder 2

-- A receiver that has the first packet and the fourth.
abbrev gappy : Stream (List ℕ)
gappy = record stream { saved_packets = packet 3 ∷ [] }

gappy-IsInOrder : IsInOrder payload_of [] gappy
unfolding sent_bytes init
gappy-IsInOrder = (omega arith, refl, (omega arith, (omega arith, omega arith, refl, refl), tt))

still_sent-quick_ack_example :
    holds_seqn 2
      (still_sent (quick_ack gappy).ack_through (quick_ack gappy).nacks (packet 2 ∷ packet 3 ∷ []))
    ≡ (holds_seqn 2 (packet 2 ∷ packet 3 ∷ []) && not (is_known 2 gappy))
unfolding missing init
still_sent-quick_ack_example =
    still_sent-quick_ack payload_of [] gappy gappy-IsInOrder (omega arith) 1
      (packet 2 ∷ packet 3 ∷ []) (omega arith, (omega arith, tt)) 2

parse-encode_example : parse (encode (packet 7)) ≡ some (packet 7)
parse-encode_example = parse-encode (packet 7) (
  omega arith,
  omega arith,
  omega arith,
  omega arith,
  omega arith,
  tt,
  omega arith,
  omega arith,
  omega arith,
  refl,
)

-- A stream that writes while an acknowledgement is scheduled.
abbrev writer : Stream (List ℕ)
writer = record stream {
  send_buffer = replicate 1800 7;
  eof = false;
  window_size = 4;
  last_received = 3;
  is_ack_send_scheduled = true;
  ack_timer = true;
}

send_buffer-cuts_example :
    (carried (made services writer) ++ (send_buffer services 50 writer).send_buffer
      ≡ writer.send_buffer)
    × IsNumbered writer.sequence_number (made services writer)
    × ((send_buffer services 50 writer).sent_packets
        ≡ insert_sent 50 (made services writer) writer.sent_packets)
    × (length (send_buffer services 50 writer).sent_packets ≤ writer.window_size)
    × ((length (made services writer) ≡ writer.window_size - length writer.sent_packets)
        ⊎ (goes_on (left services writer) ≡ false))
unfolding init
send_buffer-cuts_example = send_buffer-cuts services 50 writer (omega arith)

made_test : length (made services writer) ≡ 2
unfolding make_packets init
made_test = refl

IsWindow-kept_example :
    IsWindow (handle_next_packet services 100 (packet 1) writer).window_size
    × IsWindow (handle_resend_timer services false 100 writer).window_size
    × IsWindow (send_buffer services 100 writer).window_size
IsWindow-kept_example =
    IsWindow-kept services 100 (packet 1) false writer (omega arith, omega arith)
