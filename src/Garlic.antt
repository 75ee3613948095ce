-- ===== src/Garlic.antt =====
-- core/Garlic.h and Garlic.cpp: garlic messages, which hide messages for the far end under a key that both ends
-- know by one-time tags.
pub mod Session
pub mod Wrap
pub mod Single
pub mod Receive
pub mod Incoming
pub mod Cloves
pub mod Delivering
pub mod Blocks
pub mod Payload
pub mod Exchange
pub mod Unwrapping
pub mod RoundTrip
pub mod Destination
pub mod Tags
pub mod Known
pub mod Confirmed
pub mod Status
pub mod Owned
pub mod EndToEnd
mod Tests
use i2pd.Prelude.{
  ℕ, ◌+◌, ◌*◌, ◌/◌, ◌^◌, ◌%◌, Bool, List, ◌++◌, Option, length, take, drop, replicate,
}
use i2pd.Prelude.Assoc.{Assoc}

abbrev pub incoming_tags_expiration_timeout : ℕ
incoming_tags_expiration_timeout = 960

abbrev pub outgoing_tags_expiration_timeout : ℕ
outgoing_tags_expiration_timeout = 720

abbrev pub leaset_confirmation_timeout : ℕ
leaset_confirmation_timeout = 4000

-- `GarlicDeliveryType`
abbrev pub delivery_type_local : ℕ
delivery_type_local = 0

abbrev pub delivery_type_destination : ℕ
delivery_type_destination = 1

abbrev pub delivery_type_router : ℕ
delivery_type_router = 2

abbrev pub delivery_type_tunnel : ℕ
delivery_type_tunnel = 3

-- The cryptographic library. The ciphers take a key and an initialisation vector, and work on whole blocks;
-- ElGamal encrypts for a destination's public key, and decrypts with the own private one.
pub record Crypto : Type 0 where
  pub sha256 : List ℕ → List ℕ
  pub cbc_encrypt : List ℕ → List ℕ → List ℕ → List ℕ
  pub cbc_decrypt : List ℕ → List ℕ → List ℕ → List ℕ
  pub elgamal_encrypt : List ℕ → List ℕ → List ℕ
  pub elgamal_decrypt : List ℕ → List ℕ → Option (List ℕ)

-- `CBCEncryption::Encrypt` and `CBCDecryption::Decrypt`, in place: what is behind the last whole block stays.
unfoldable pub encrypt : Crypto → List ℕ → List ℕ → List ℕ → List ℕ
encrypt c key iv bytes =
    let whole = length bytes / 16 * 16 in
    c.cbc_encrypt key iv (take whole bytes) ++ drop whole bytes

unfoldable pub decrypt : Crypto → List ℕ → List ℕ → List ℕ → List ℕ
decrypt c key iv bytes =
    let whole = length bytes / 16 * 16 in
    c.cbc_decrypt key iv (take whole bytes) ++ drop whole bytes

-- `SessionTag`, when it is sent with.
pub record SessionTag : Type 0 where
  pub tag : List ℕ
  pub creation_time : ℕ

-- `GarlicRoutingSession::UnconfirmedTags`
pub record UnconfirmedTags : Type 0 where
  pub session_tags : List SessionTag
  pub tags_creation_time : ℕ

-- `GarlicRoutingSession::LeaseSetUpdateStatus`
pub data LeaseSetUpdateStatus : Type 0 where
  up_to_date : LeaseSetUpdateStatus
  updated : LeaseSetUpdateStatus
  submitted : LeaseSetUpdateStatus
  do_not_send : LeaseSetUpdateStatus

-- The far end, as its lease set or router info tells it.
pub record RoutingDestination : Type 0 where
  pub ident_hash : List ℕ
  pub public_key : List ℕ
  pub is_destination : Bool

-- `GarlicRoutingSession`: `has_owner` is `m_Owner` as a test. The id and the time of a lease set's submission
-- are not set before the first.
pub record RoutingSession : Type 0 where
  pub has_owner : Bool
  pub destination : Option RoutingDestination
  pub session_key : List ℕ
  pub session_tags : List SessionTag
  pub num_tags : ℕ
  pub unconfirmed_tags_msgs : Assoc UnconfirmedTags
  pub lease_set_update_status : LeaseSetUpdateStatus
  pub lease_set_update_msg_id : ℕ
  pub lease_set_submission_time : ℕ

-- A sum of `uint32_t`.
abbrev pub add32 : ℕ → ℕ → ℕ
add32 a b = (a + b) % 2 ^ 32
