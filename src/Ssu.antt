-- ===== src/Ssu.antt =====
-- core/transport/SSUData.h and SSUData.cpp: the data layer of an SSU session. The session itself,
-- which encrypts and sends, is outside of this file: what goes to it, and to the handler of received
-- messages, is logged in `actions`.
pub mod Acks
pub mod Receive
pub mod Transmit
pub mod Packets
pub mod Reassembly
pub mod Delivery
pub mod Timers
mod Tests
use i2pd.Prelude.{
  ℕ, ◌+◌, ◌-◌, ◌*◌, ◌/◌, ◌≤◌, ◌<◌, Bool, true, false, List, [], ◌∷◌, ◌++◌, Option, none, some, ltb,
  if◌then◌else◌,
}
use i2pd.Prelude.Assoc.{Assoc}

abbrev pub ssu_v4_max_packet_size : ℕ
ssu_v4_max_packet_size = 1456

abbrev pub ssu_v6_max_packet_size : ℕ
ssu_v6_max_packet_size = 1424

abbrev pub resend_interval : ℕ
resend_interval = 3

abbrev pub max_num_resends : ℕ
max_num_resends = 5

abbrev pub decay_interval : ℕ
decay_interval = 20

abbrev pub max_num_received_messages : ℕ
max_num_received_messages = 1000

abbrev pub incomplete_messages_cleanup_timeout : ℕ
incomplete_messages_cleanup_timeout = 30

abbrev pub data_flag_want_reply : ℕ
data_flag_want_reply = 0x04

abbrev pub data_flag_ack_bitfields_included : ℕ
data_flag_ack_bitfields_included = 0x40

abbrev pub data_flag_explicit_acks_included : ℕ
data_flag_explicit_acks_included = 0x80

-- `Fragment`
pub record Fragment : Type 0 where
  pub fragment_num : ℕ
  pub is_last : Bool
  pub bytes : List ℕ

-- The part of an `I2NPMessage` behind its SSU header, which begins 13 bytes into the buffer.
pub record Message : Type 0 where
  pub bytes : List ℕ
  pub max_len : ℕ
  pub capacity : ℕ

-- `IncompleteMessage`; the saved fragments are in the order of their numbers.
pub record IncompleteMessage : Type 0 where
  pub msg : Message
  pub next_fragment_num : ℕ
  pub last_fragment_insert_time : ℕ
  pub saved_fragments : List Fragment

-- `SentMessage`; an acknowledged fragment is `none`.
pub record SentMessage : Type 0 where
  pub fragments : List (Option Fragment)
  pub next_resend_time : ℕ
  pub num_resends : ℕ

-- A `deadline_timer` with the handlers that wait on it.
pub data TimerHandler : Type 0 where
  resend_handler decay_handler cleanup_handler : TimerHandler

pub record Timer : Type 0 where
  pub deadline : ℕ
  pub waiting : List TimerHandler

pub data Action : Type 0 where
  packet : List ℕ → Action
  put_next_message : ℕ → List ℕ → Action
  flush : Action
  established : Action

pub record SsuData : Type 0 where
  pub incomplete : Assoc IncompleteMessage
  pub sent : Assoc SentMessage
  pub received : List ℕ
  pub resend_timer : Timer
  pub decay_timer : Timer
  pub cleanup_timer : Timer
  pub is_v6 : Bool
  pub max_packet_size : ℕ
  pub packet_size : ℕ
  pub is_established : Bool
  pub actions : List Action

abbrev pub act : Action → SsuData → SsuData
act a d = record d { actions = d.actions ++ a ∷ [] }

-- `cancel` hands an error to the waiting handlers, which then do nothing.
abbrev pub cancel : Timer → Timer
cancel t = record t { waiting = [] }

abbrev pub expires_at : ℕ → Timer → Timer
expires_at deadline t = record { deadline = deadline; waiting = [] }

abbrev pub async_wait : TimerHandler → Timer → Timer
async_wait h t = record t { waiting = t.waiting ++ h ∷ [] }

-- `ScheduleResend`
unfoldable pub schedule_resend : ℕ → SsuData → SsuData
schedule_resend now d = record d {
  resend_timer =
      async_wait resend_handler (expires_at (now + resend_interval) (cancel d.resend_timer));
}

-- `ScheduleDecay` sets the decay timer, and waits on the resend timer.
unfoldable pub schedule_decay : ℕ → SsuData → SsuData
schedule_decay now d = record d {
  decay_timer = expires_at (now + decay_interval) (cancel d.decay_timer);
  resend_timer = async_wait decay_handler d.resend_timer;
}

-- `ScheduleIncompleteMessagesCleanup`, which is also what `Start` does.
unfoldable pub schedule_incomplete_messages_cleanup : ℕ → SsuData → SsuData
schedule_incomplete_messages_cleanup now d = record d {
  cleanup_timer =
      async_wait cleanup_handler
        (expires_at (now + incomplete_messages_cleanup_timeout) (cancel d.cleanup_timer));
}

-- `Stop`
unfoldable pub stop : SsuData → SsuData
stop d = record d {
  resend_timer = cancel d.resend_timer;
  decay_timer = cancel d.decay_timer;
  cleanup_timer = cancel d.cleanup_timer;
}

-- `AdjustPacketSize`, for the MTU of the remote router's SSU address: zero stands for none given.
unfoldable pub adjust_packet_size : ℕ → SsuData → SsuData
adjust_packet_size mtu d =
    let headers = if d.is_v6 then 48 else 28 in
    let rounded = (mtu - headers) / 16 * 16 in
    if ltb 0 mtu
    then record d {
      packet_size =
          if ltb headers mtu
          then (if ltb d.max_packet_size rounded then d.max_packet_size else rounded)
          else d.max_packet_size;
    }
    else d

-- The constructor, for a session with an address family and perhaps a known MTU.
unfoldable pub init : Bool → ℕ → SsuData
unfolding adjust_packet_size
init is_v6 mtu =
    let size = if is_v6 then ssu_v6_max_packet_size else ssu_v4_max_packet_size in
    let idle : Timer = record { deadline = 0; waiting = [] } in
    adjust_packet_size mtu (record {
      incomplete = [];
      sent = [];
      received = [];
      resend_timer = idle;
      decay_timer = idle;
      cleanup_timer = idle;
      is_v6 = is_v6;
      max_packet_size = size;
      packet_size = size;
      is_established = false;
      actions = [];
    })
