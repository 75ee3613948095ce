-- ===== src/Garlic/Receive.antt =====
-- core/Garlic.cpp: garlic messages as a destination receives them. No result where the code reads behind the
-- message's memory.
use i2pd.Prelude.{
  ℕ, zero, suc, ◌+◌, ◌/◌, ◌%◌, Bool, List, [], ◌∷◌, ◌++◌, Option, none, some, ltb, leb,
  if◌then◌else◌, length, take, drop,
}
use i2pd.Prelude.Chain.{and_then}
use i2pd.Prelude.Bytes.{from_be16, from_be32}
use i2pd.Prelude.Dict.{Dict, find, put}
use i2pd.I2np.{message_length, copy_message}

-- The state of a `GarlicDestination` for incoming messages: under each tag the time it came and the key.
pub record Receiver : Type 0 where
  pub tags : Dict (ℕ × List ℕ)
  pub last_tags_cleanup_time : ℕ

-- What becomes of a clove: `HandleI2NPMessage` gets the memory from the message on and a length, or a message
-- is sent to a tunnel's gateway.
pub data Delivery : Type 0 where
  handed : List ℕ → ℕ → Delivery
  sent : List ℕ → ℕ → List ℕ → Delivery

-- The time that stands in a tag's key is kept when the tag comes again.
unfoldable pub first_time : ℕ → Option (ℕ × List ℕ) → ℕ
first_time now none = now
first_time now (some (since, key)) = since

-- `m_Tags[SessionTag (tag, now)] = decryption`
unfoldable pub put_tag : ℕ → List ℕ → List ℕ → Dict (ℕ × List ℕ) → Dict (ℕ × List ℕ)
put_tag now key tag all = put tag (first_time now (find tag all), key) all

-- `AddSessionKey` of a key that is given.
unfoldable pub add_session_key : ℕ → List ℕ → List ℕ → Receiver → Receiver
add_session_key now key tag r = record r { tags = put_tag now key tag r.tags }

unfoldable pub put_tags : ℕ → List ℕ → ℕ → List ℕ → Dict (ℕ × List ℕ) → Dict (ℕ × List ℕ)
put_tags now key zero bytes all = all
put_tags now key (suc n) bytes all =
    put_tags now key n (drop 32 bytes) (put_tag now key (take 32 bytes) all)

-- The first bytes of memory, and what is behind them.
unfoldable pub read : ℕ → List ℕ → Option (List ℕ × List ℕ)
read n bytes = if ltb (length bytes) n then none else some (take n bytes, drop n bytes)

unfoldable pub read_be16 : List ℕ → Option (ℕ × List ℕ)
read_be16 (a ∷ b ∷ rest) = some (from_be16 a b, rest)
read_be16 bytes = none

unfoldable pub read_be32 : List ℕ → Option (ℕ × List ℕ)
read_be32 (a ∷ b ∷ c ∷ d ∷ rest) = some (from_be32 a b c d, rest)
read_be32 bytes = none

unfoldable pub read_byte : List ℕ → Option (ℕ × List ℕ)
read_byte [] = none
read_byte (x ∷ rest) = some (x, rest)

module _ (outbound : Bool) (len : ℕ) where
  -- What is done with a clove of a delivery type, and the message's place: the rest of the memory, and how far
  -- it is from the payload's start. `outbound` tells whether the pool of the tunnel that the message came from
  -- has an outbound tunnel.
  unfoldable pub deliver : ℕ → ℕ → List ℕ → Option (List Delivery × ℕ × List ℕ)
  deliver zero at bytes = some (handed bytes len ∷ [], at, bytes)
  deliver (suc zero) at bytes = some (handed (drop 32 bytes) len ∷ [], at + 32, drop 32 bytes)
  deliver (suc (suc zero)) at bytes = some ([], at + 32, drop 32 bytes)
  deliver (suc (suc (suc zero))) at bytes = and_then (read_be32 (drop 32 bytes)) (λ gw_tunnel.
      if outbound
      then and_then (read 32 bytes) (λ gw_hash. and_then (message_length gw_tunnel.1) (λ size.
        and_then (copy_message size gw_tunnel.1)
          (λ msg. some (sent gw_hash.0 gw_tunnel.0 msg ∷ [], at + 36, gw_tunnel.1))))
      else some ([], at + 36, gw_tunnel.1))
  deliver (suc (suc (suc (suc type)))) at bytes = some ([], at, bytes)

  -- The cloves that are left, from a place on.
  unfoldable pub handle_cloves : ℕ → ℕ → List ℕ → Option (List Delivery)
  handle_cloves zero at bytes = some []
  handle_cloves (suc n) at bytes = and_then (read_byte bytes) (λ flag.
      let skipped = if leb 128 (flag.0 % 256) then 32 else 0 in
      and_then (deliver (flag.0 / 32 % 4) (at + 1 + skipped) (drop skipped flag.1)) (λ done.
        and_then (message_length done.2) (λ size.
          let next = done.1 + size + 15 in
          if ltb len next
          then some (done.0)
          else and_then (handle_cloves n next (drop (size + 15) done.2))
              (λ more. some (done.0 ++ more)))))

-- `HandleGarlicPayload`
unfoldable pub handle_garlic_payload : Bool → ℕ → List ℕ → Option (List Delivery)
handle_garlic_payload outbound len bytes =
    and_then (read_byte bytes) (λ count. handle_cloves outbound len count.0 1 count.1)
