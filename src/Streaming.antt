-- ===== src/Streaming.antt =====
-- core/Streaming.h and Streaming.cpp: streams of bytes over a tunnel's datagrams. A packet is kept by the
-- fields that its getters read; Streaming/Wire has its bytes. What goes to the tunnels, to the
-- handlers of the application and to the queue of the I/O service is logged in `actions`.
pub mod Wire
pub mod Closing
pub mod Sending
pub mod Acks
pub mod Receiving
pub mod Reading
pub mod Timers
pub mod Dispatch
pub mod Frame
pub mod InOrder
pub mod Placing
pub mod Delivery
pub mod Nacks
pub mod Acked
pub mod WireRoundTrip
pub mod Cutting
pub mod Window
pub mod Flushed
mod Tests
use i2pd.Prelude.{
  ℕ, ◌+◌, ◌-◌, ◌*◌, ◌/◌, ◌%◌, ◌^◌, Bool, true, false, List, [], ◌∷◌, ◌++◌, Option, ltb, leb, ◌==◌,
  if◌then◌else◌,
}

abbrev pub flag_synchronize : ℕ
flag_synchronize = 0x0001

abbrev pub flag_close : ℕ
flag_close = 0x0002

abbrev pub flag_signature_included : ℕ
flag_signature_included = 0x0008

abbrev pub flag_from_included : ℕ
flag_from_included = 0x0020

abbrev pub flag_max_packet_size_included : ℕ
flag_max_packet_size_included = 0x0080

abbrev pub flag_no_ack : ℕ
flag_no_ack = 0x0400

abbrev pub streaming_mtu : ℕ
streaming_mtu = 1730

abbrev pub max_num_resend_attempts : ℕ
max_num_resend_attempts = 6

abbrev pub window_size_of_slow_start : ℕ
window_size_of_slow_start = 6

abbrev pub min_window_size : ℕ
min_window_size = 1

abbrev pub max_window_size : ℕ
max_window_size = 128

abbrev pub initial_rtt : ℕ
initial_rtt = 8000

abbrev pub initial_rto : ℕ
initial_rto = 9000

-- `Packet`
pub record Packet : Type 0 where
  pub send_stream_id : ℕ
  pub receive_stream_id : ℕ
  pub seqn : ℕ
  pub ack_through : ℕ
  pub nacks : List ℕ
  pub resend_delay : ℕ
  pub flags : ℕ
  pub option_data : List ℕ
  pub payload : List ℕ
  pub send_time : ℕ

-- `IsSYN` and `IsNoAck`, and the other bits of the flags.
abbrev pub is_syn : Packet → Bool
is_syn p = p.flags % 2 == 1

abbrev pub is_no_ack : Packet → Bool
is_no_ack p = p.flags / 0x0400 % 2 == 1

-- `std::set<Packet *, PacketCmp>::insert`: in the order of the numbers, and not twice.
unfoldable pub insert_packet : Packet → List Packet → List Packet
insert_packet p [] = p ∷ []
insert_packet p (q ∷ qs) =
    if ltb p.seqn q.seqn
    then p ∷ q ∷ qs
    else (if p.seqn == q.seqn then q ∷ qs else q ∷ insert_packet p qs)

-- `StreamStatus`
pub data Status : Type 0 where
  new open_status reset closing closed : Status

abbrev pub is_new : Status → Bool
is_new new = true
is_new _ = false

abbrev pub is_open : Status → Bool
is_open open_status = true
is_open _ = false

abbrev pub is_closing : Status → Bool
is_closing closing = true
is_closing _ = false

-- `transmit` is `SendPackets`; `post_packet` is a packet that `SendPacket` sends later; `sent` and
-- `aborted` are what a send handler is called with, and `in_progress` what a second one is.
pub data Action : Type 0 where
  transmit : List Packet → Action
  post_packet : Packet → Action
  post_send_buffer wake_receiver sent aborted in_progress : Action
  pick_lease pick_tunnel delete_stream : Action

-- A number of 32 bits, and one more than it.
abbrev pub next : ℕ → ℕ
next n = (n + 1) % 2 ^ 32

-- Comparisons of an `int32_t`, by its 32-bit pattern.
abbrev pub is_negative : ℕ → Bool
is_negative n = leb (2 ^ 31) n

abbrev pub signed_lt : ℕ → ℕ → Bool
signed_lt a b = ltb ((a + 2 ^ 31) % 2 ^ 32) ((b + 2 ^ 31) % 2 ^ 32)

-- What a stream asks of its destination's identity, and of the identities of others: the code that reads
-- an identity, and the cryptographic library.
pub record Services (I : Type 0) : Type 0 where
  pub identity_bytes : List ℕ
  pub signature_len : ℕ
  pub sign : List ℕ → List ℕ
  pub read_identity : List ℕ → I × ℕ
  pub signature_len_of : I → ℕ
  pub verify : I → List ℕ → List ℕ → Bool

-- `Stream`: `last_received` is the pattern of `m_LastReceivedSequenceNumber`; the timers say whether they
-- are pending; `send_buffer` is what `m_SendBuffer` has to read, and `eof` its flag; `handler` says
-- whether a send handler is set; `receive_queue` has the payloads that were not read yet.
pub record Stream (I : Type 0) : Type 0 where
  pub send_stream_id : ℕ
  pub recv_stream_id : ℕ
  pub sequence_number : ℕ
  pub last_received : ℕ
  pub status : Status
  pub is_ack_send_scheduled : Bool
  pub ack_timer : Bool
  pub resend_timer : Bool
  pub remote_identity : I
  pub receive_queue : List (List ℕ)
  pub saved_packets : List Packet
  pub sent_packets : List Packet
  pub num_received_bytes : ℕ
  pub send_buffer : List ℕ
  pub eof : Bool
  pub handler : Bool
  pub window_size : ℕ
  pub rtt : ℕ
  pub rto : ℕ
  pub last_window_size_increase_time : ℕ
  pub num_resend_attempts : ℕ
  pub actions : List Action

module _ {I : Type 0} where
  abbrev pub act : Action → Stream I → Stream I
  act a s = record s { actions = s.actions ++ a ∷ [] }

  -- The constructors: the stream's random number, and an identity that for an incoming stream is a blank.
  unfoldable pub init : ℕ → I → Stream I
  init recv_stream_id identity = record {
    send_stream_id = 0;
    recv_stream_id = recv_stream_id;
    sequence_number = 0;
    last_received = 2 ^ 32 - 1;
    status = new;
    is_ack_send_scheduled = false;
    ack_timer = false;
    resend_timer = false;
    remote_identity = identity;
    receive_queue = [];
    saved_packets = [];
    sent_packets = [];
    num_received_bytes = 0;
    send_buffer = [];
    eof = false;
    handler = false;
    window_size = min_window_size;
    rtt = initial_rtt;
    rto = initial_rto;
    last_window_size_increase_time = 0;
    num_resend_attempts = 0;
    actions = [];
  }
