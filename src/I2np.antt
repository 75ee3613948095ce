-- ===== src/I2np.antt =====
-- core/I2NPProtocol.h and I2NPProtocol.cpp: the header of I2NP messages, the short header that SSU sends in its
-- place, and the messages that garlic routing and the network database create.
pub mod Header
pub mod Lookup
mod Tests
use i2pd.Prelude.{
  ℕ, ◌+◌, ◌*◌, ◌/◌, ◌<◌, Bool, List, [], ◌∷◌, ◌++◌, Option, none, some, ltb, ◌==◌, if◌then◌else◌,
  length, take, drop, replicate,
}
use i2pd.Prelude.Bytes.{be16, be32, be64, from_be16, from_be32, from_be64}

abbrev pub i2np_header_size : ℕ
i2np_header_size = 16

-- The values of `I2NPMessageType` that are created here.
abbrev pub database_store : ℕ
database_store = 1

abbrev pub database_lookup : ℕ
database_lookup = 2

abbrev pub database_search_reply : ℕ
database_search_reply = 3

abbrev pub delivery_status : ℕ
delivery_status = 10

abbrev pub garlic : ℕ
garlic = 11

-- `GetI2NPMessageLength`; no result if it reads behind the memory that is left.
unfoldable pub message_length : List ℕ → Option ℕ
message_length bytes = size (drop 13 bytes)
  where
    size : List ℕ → Option ℕ
    size (a ∷ b ∷ rest) = some (from_be16 a b + i2np_header_size)
    size rest = none

-- The words that `ToSSU` and `FromSSU` read and write. A message is the bytes from `GetBuffer ()` on, a short
-- one those from `GetSSUHeader ()` on; the caller of `ToSSU` gets the message's id with it.
unfoldable pub to_ssu : List ℕ → Option (ℕ × List ℕ)
to_ssu
      (type ∷ i0 ∷ i1 ∷ i2 ∷ i3 ∷ e0 ∷ e1 ∷ e2 ∷ e3 ∷ e4 ∷ e5 ∷ e6 ∷ e7 ∷ s0 ∷ s1 ∷ chks
        ∷ payload) =
    some (
      from_be32 i0 i1 i2 i3,
      type ∷ (be32 (from_be64 e0 e1 e2 e3 e4 e5 e6 e7 / 1000) ++ take (from_be16 s0 s1) payload),
    )
to_ssu bytes = none

unfoldable pub from_ssu : ℕ → List ℕ → Option (List ℕ)
from_ssu id (type ∷ e0 ∷ e1 ∷ e2 ∷ e3 ∷ payload) = some (
    type
    ∷ (be32 id
        ++ (be64 (from_be32 e0 e1 e2 e3 * 1000) ++ (be16 (length payload) ++ (0 ∷ payload)))))
from_ssu id bytes = none

-- `FillI2NPMessageHeader` over a payload: `random` is a word of the random number generator, `now` the clock in
-- milliseconds. `UpdateSize` and `UpdateChks` write the payload's size and the first byte of its hash.
module _ (sha256 : List ℕ → List ℕ) where
  unfoldable pub fill_header : ℕ → ℕ → ℕ → ℕ → List ℕ → List ℕ
  fill_header type reply_id random now payload =
      type
      ∷ (be32 (if reply_id == 0 then random else reply_id)
          ++ (be64 (now + 5000) ++ (be16 (length payload) ++ (take 1 (sha256 payload) ++ payload))))

  -- `CreateI2NPMessage` of a type and a payload: one that is too long for its buffer is left out.
  unfoldable pub create_i2np_message : ℕ → List ℕ → ℕ → ℕ → ℕ → List ℕ
  create_i2np_message type payload reply_id random now =
      let room = if ltb (length payload) 2048 then 4096 else 32768 in
      fill_header type reply_id random now (if ltb (18 + length payload) room then payload else [])

  -- `CreateDeliveryStatusMsg`; `fresh` is the word that stands for the id while a connection is made.
  unfoldable pub create_delivery_status_msg : ℕ → ℕ → ℕ → ℕ → List ℕ
  create_delivery_status_msg id fresh random now =
      fill_header delivery_status 0 random now
        (if id == 0 then be32 fresh ++ be64 2 else be32 id ++ be64 now)

-- `CreateI2NPMessage` of a message's bytes, which copies `len` of them; a longer one than the buffer leaves a
-- message of a blank header.
unfoldable pub copy_message : ℕ → List ℕ → Option (List ℕ)
copy_message len bytes =
    if ltb (2 + len) 32768
    then (if ltb (length bytes) len then none else some (take len bytes))
    else some (replicate i2np_header_size 0)

-- What `CreateDatabaseStoreMsg` reads of a lease set; a lease is its tunnel id and gateway.
pub record StoredLeaseSet : Type 0 where
  pub ident_hash : List ℕ
  pub buffer : List ℕ
  pub non_expired_leases : List (ℕ × List ℕ)

-- The reply token, and where to reply: with no lease left there is nobody to reply to.
unfoldable pub reply_path : ℕ → List (ℕ × List ℕ) → List ℕ
reply_path token [] = be32 0
reply_path token ((tunnel_id, gateway) ∷ leases) =
    if token == 0 then be32 0 else be32 token ++ (be32 tunnel_id ++ gateway)

module _ (sha256 : List ℕ → List ℕ) where
  -- `CreateDatabaseStoreMsg` of a lease set.
  unfoldable pub create_database_store_msg : StoredLeaseSet → ℕ → ℕ → ℕ → List ℕ
  create_database_store_msg ls token random now =
      fill_header sha256 database_store 0 random now
        (ls.ident_hash ++ (1 ∷ (reply_path token ls.non_expired_leases ++ ls.buffer)))
