-- ===== src/Bob.antt =====
-- client/BOB.cpp: a session of the BOB command channel, and the channel that owns its destinations.
-- `BOBDestination *` is an index into the channel's heap: an object that was deleted is missing there.
pub mod Input
pub mod Commands
pub mod Lines
mod Tests
use i2pd.Prelude.{
  ℕ, ◌+◌, Bool, true, false, List, [], ◌∷◌, ◌++◌, Option, none, some, ltb, if◌then◌else◌, length,
}
use i2pd.Prelude.Bytes.{codes}
use i2pd.Prelude.Assoc.{Assoc}
use i2pd.Prelude.Dict.{Text, Dict}

abbrev pub bob_command_buffer_size : ℕ
bob_command_buffer_size = 1024

-- An `int` is its 32-bit pattern.
pub record OutboundTunnel : Type 0 where
  pub address : Text
  pub port : ℕ
  pub is_quiet : Bool
  pub started : Bool

pub record InboundTunnel : Type 0 where
  pub port : ℕ
  pub started : Bool

module _ (K : Type 0) where
  -- `BOBDestination`, with the keys and the options of its local destination.
  pub record Destination : Type 0 where
    pub keys : K
    pub options : Dict Text
    pub is_running : Bool
    pub outbound : Option OutboundTunnel
    pub inbound : Option InboundTunnel

  -- `BOBCommandChannel`
  pub record Channel : Type 0 where
    pub destinations : Dict ℕ
    pub heap : Assoc Destination
    pub next_address : ℕ

  -- `BOBCommandSession`: `reading` says whether a read is pending, `writes` how many writes are.
  pub record Session : Type 0 where
    pub channel : Channel
    pub buffer : List ℕ
    pub is_open : Bool
    pub is_quiet : Bool
    pub nickname : Text
    pub address : Text
    pub in_port : ℕ
    pub out_port : ℕ
    pub keys : K
    pub options : Dict Text
    pub current : Option ℕ
    pub reading : Bool
    pub writes : ℕ
    pub socket_open : Bool
    pub requests : List (List ℕ)
    pub keys_drawn : ℕ

  -- What the session asks of the other parts of the program and of the libraries: keys, the number
  -- parser of `lexical_cast`, the address book, and lease sets at hand.
  pub record Services : Type 0 where
    pub create_random_keys : ℕ → K
    pub from_base64 : K → Text → K
    pub public_base64 : K → Text
    pub keys_base64 : K → Text
    pub parse_int : Text → Option ℕ
    pub get_ident_hash : Text → Option (List ℕ)
    pub find_lease_set : List ℕ → Option Text

-- What goes to the socket: a text, or, where `snprintf` cut the text, as many bytes as it would have had.
pub data Reply : Type 0 where
  text : Text → Reply
  garbled : ℕ → Reply

-- A command's outcome: the session and its replies; an exception, with what was done before it; or
-- the use of a deleted object.
pub data Result {ℓ} (S : Type ℓ) : Type ℓ where
  ok : S → List Reply → Result S
  thrown : S → Result S
  fault : Result S

-- `snprintf` writes at most one byte less than the buffer has.
abbrev pub formatted : Text → Reply
formatted t = if ltb (length t) bob_command_buffer_size then text t else garbled (length t)

abbrev pub reply_ok : Text → Reply
reply_ok msg = formatted (codes "OK " ++ (msg ++ codes "\n"))

abbrev pub reply_error : Text → Reply
reply_error msg = formatted (codes "ERROR " ++ (msg ++ codes "\n"))

abbrev pub reply_data : Text → Reply
reply_data nickname = formatted (codes "NICKNAME " ++ (nickname ++ codes "\n"))

-- `BOB_VERSION`, which a new session sends first.
abbrev pub bob_version : Reply
bob_version = text (codes "BOB 00.00.10\nOK\n")
