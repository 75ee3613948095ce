-- ===== src/Tunnel/Endpoint.antt =====
-- core/tunnel/TunnelEndpoint.cpp: fragments are taken out of decrypted tunnel data messages and put
-- together. What the endpoint hands on is logged in `delivered`.
use i2pd.Prelude.{
  ℕ, zero, suc, ◌+◌, ◌-◌, ◌/◌, ◌%◌, Bool, true, false, not, ◌&&◌, List, [], ◌∷◌, ◌++◌, Option, none,
  some, ltb, leb, ◌==◌, if◌then◌else◌, length, take, drop,
}
use i2pd.Prelude.Bytes.{from_be16, from_be32, same_bytes}
use i2pd.Prelude.Assoc.{Assoc, lookup, insert, erase}
use i2pd.Tunnel.{
  DeliveryType, to_local, to_tunnel, to_router, to_unknown, tunnel_data_msg_size,
  i2np_max_message_size, i2np_max_short_message_size,
}

-- An `I2NPMessage`: the bytes from `offset` up to `len`, where the buffer ends for the check of
-- `maxLen`, and where it really ends.
pub record Message : Type 0 where
  pub bytes : List ℕ
  pub offset : ℕ
  pub max_len : ℕ
  pub capacity : ℕ

-- `TunnelMessageBlockEx`
pub record Block : Type 0 where
  pub delivery_type : DeliveryType
  pub hash : List ℕ
  pub tunnel_id : ℕ
  pub msg : Message
  pub next_fragment_num : ℕ

-- `TunnelEndpoint::Fragment`
pub record Fragment : Type 0 where
  pub fragment_num : ℕ
  pub is_last_fragment : Bool
  pub msg : Message

-- What `HandleNextMessage` does with a message.
pub data Delivery : Type 0 where
  handled : List ℕ → Delivery
  via_gateway : List ℕ → ℕ → List ℕ → Delivery
  sent : List ℕ → List ℕ → Delivery

pub record Endpoint : Type 0 where
  pub incomplete : Assoc Block
  pub out_of_sequence : Assoc Fragment
  pub is_inbound : Bool
  pub num_received_bytes : ℕ
  pub our_ident : List ℕ
  pub delivered : List Delivery

-- `overrun`: a read or a write outside of a buffer; `stuck`: the model ran out of fuel.
pub data Outcome : Type 0 where
  ok : Endpoint → Outcome
  overrun : Outcome
  stuck : Outcome

infixl 5 ◌>>=◌
abbrev pub ◌>>=◌ : Outcome → (Endpoint → Outcome) → Outcome
ok e >>= f = f e
overrun >>= f = overrun
stuck >>= f = stuck

abbrev deliver : Delivery → Endpoint → Endpoint
deliver d e = record e { delivered = e.delivered ++ d ∷ [] }

-- `HandleNextMessage`
unfoldable pub handle_next_message : DeliveryType → List ℕ → ℕ → List ℕ → Endpoint → Endpoint
unfolding same_bytes
handle_next_message to_local hash id bytes e = deliver (handled bytes) e
handle_next_message to_tunnel hash id bytes e = deliver (via_gateway hash id bytes) e
handle_next_message to_router hash id bytes e =
    if same_bytes hash e.our_ident
    then deliver (handled bytes) e
    else (if not e.is_inbound then deliver (sent hash bytes) e else e)
handle_next_message to_unknown hash id bytes e = e

abbrev pub hand_on : Block → Endpoint → Endpoint
hand_on b e = handle_next_message b.delivery_type b.hash b.tunnel_id b.msg.bytes e

-- `*newMsg = *msg` into `NewI2NPMessage ()`, which takes over `maxLen` too.
abbrev enlarged : Message → Message
enlarged m = record m { offset = 2; capacity = i2np_max_message_size + 16 }

abbrev grown : Message → ℕ → Message
grown m size = if ltb m.max_len (m.offset + length m.bytes + size) then enlarged m else m

-- `memcpy (buf + len, fragment, size)` after the change of buffer; `none` past the end of it.
unfoldable pub concatenate : Message → List ℕ → Option Message
concatenate m fragment =
    let m' = grown m (length fragment) in
    if leb (m'.offset + length m.bytes + length fragment) m'.capacity
    then some (record m' { bytes = m.bytes ++ fragment })
    else none

-- `AddOutOfSequenceFragment`
unfoldable pub add_out_of_sequence_fragment : ℕ → ℕ → Bool → Message → Endpoint → Endpoint
add_out_of_sequence_fragment id num last m e = elim (lookup id e.out_of_sequence) [
  | none ↦ record e {
    out_of_sequence =
        insert id (record { fragment_num = num; is_last_fragment = last; msg = m })
          e.out_of_sequence;
  }
  | some f ↦ e
]

-- The matching fragment is joined to the message: `HandleOutOfSequenceFragment` from there on.
abbrev pub join_saved : ℕ → Block → Fragment → Endpoint → Outcome
join_saved id b f e = elim (concatenate b.msg f.msg.bytes) [
  | none ↦ overrun
  | some m ↦
      let b' = record b { msg = m } in
      let e' = record e { out_of_sequence = erase id e.out_of_sequence } in
      if f.is_last_fragment
      then (let done = hand_on b' e' in ok (record done { incomplete = erase id e.incomplete }))
      else ok (record e' {
        incomplete =
            insert id (record b' { next_fragment_num = (b.next_fragment_num + 1) % 256 })
              e.incomplete;
      })
]

-- `HandleOutOfSequenceFragment`, for the message `b` that stands in `incomplete` under `id`.
unfoldable pub handle_out_of_sequence_fragment : ℕ → Block → Endpoint → Outcome
handle_out_of_sequence_fragment id b e = elim (lookup id e.out_of_sequence) [
  | none ↦ ok e
  | some f ↦ if f.fragment_num == b.next_fragment_num then join_saved id b f e else ok e
]

-- The expected fragment is joined to the message: `HandleFollowOnFragment` from there on.
unfoldable pub join_next : ℕ → Bool → Message → Block → Endpoint → Outcome
join_next id last m b e =
    if ltb (b.msg.offset + length b.msg.bytes + length m.bytes) i2np_max_message_size
    then elim (concatenate b.msg m.bytes) [
      | none ↦ overrun
      | some joined ↦
          let b' = record b { msg = joined } in
          let b'' = record b' { next_fragment_num = (b.next_fragment_num + 1) % 256 } in
          if last
          then ok (record (hand_on b' e) { incomplete = erase id e.incomplete })
          else handle_out_of_sequence_fragment id b''
              (record e { incomplete = insert id b'' e.incomplete })
    ]
    else ok (record e { incomplete = erase id e.incomplete })

-- `HandleFollowOnFragment`
unfoldable pub handle_follow_on_fragment : ℕ → Bool → ℕ → Message → Endpoint → Outcome
handle_follow_on_fragment id last num m e = elim (lookup id e.incomplete) [
  | none ↦ ok (add_out_of_sequence_fragment id num last m e)
  | some b ↦
      if num == b.next_fragment_num
      then join_next id last m b e
      else ok (add_out_of_sequence_fragment id num last m e)
]

-- The instructions in front of a fragment, the bytes behind them, and the bytes they took.
pub record Header : Type 0 where
  pub is_follow_on : Bool
  pub is_last : Bool
  pub delivery_type : DeliveryType
  pub hash : List ℕ
  pub tunnel_id : ℕ
  pub msg_id : ℕ
  pub fragment_num : ℕ
  pub size : ℕ
  pub rest : List ℕ
  pub used : ℕ

-- Reads of a word, a hash and a size; `none` where the buffer ends.
unfoldable pub read_word : List ℕ → Option (ℕ × List ℕ)
read_word (a ∷ b ∷ c ∷ d ∷ rest) = some (from_be32 a b c d, rest)
read_word _ = none

unfoldable pub read_half : List ℕ → Option (ℕ × List ℕ)
read_half (a ∷ b ∷ rest) = some (from_be16 a b, rest)
read_half _ = none

unfoldable pub read_hash : List ℕ → Option (List ℕ × List ℕ)
read_hash bytes = if leb 32 (length bytes) then some (take 32 bytes, drop 32 bytes) else none

-- `(flag >> 5) & 0x03`
abbrev pub flag_type : ℕ → DeliveryType
flag_type flag =
    if flag / 32 % 4 == 0
    then to_local
    else (if flag / 32 % 4 == 1
        then to_tunnel
        else (if flag / 32 % 4 == 2 then to_router else to_unknown))

infixl 5 ◌>>=?◌
abbrev ◌>>=?◌ {ℓ κ} : {A : Type ℓ} {B : Type κ} → Option A → (A → Option B) → Option B
none >>=? f = none
some a >>=? f = f a

abbrev with_size : Header → Option Header
with_size h = read_half h.rest >>=? λ (size, rest).
    some (record h { size = size; rest = rest; used = h.used + 2 })

-- `flag & 0x08`: a fragmented message has its id in front of the size.
abbrev with_id : ℕ → Header → Option Header
with_id flag h =
    if flag / 8 % 2 == 1
    then (read_word h.rest >>=? λ (id, rest).
        with_size (record h { msg_id = id; is_last = false; rest = rest; used = h.used + 4 }))
    else with_size h

abbrev with_address : ℕ → DeliveryType → Header → Option Header
with_address flag to_tunnel h = read_word h.rest >>=? λ (id, rest).
    read_hash rest >>=? λ (hash, rest').
    with_id flag (record h { tunnel_id = id; hash = hash; rest = rest'; used = h.used + 36 })
with_address flag to_router h = read_hash h.rest >>=? λ (hash, rest).
    with_id flag (record h { hash = hash; rest = rest; used = h.used + 32 })
with_address flag _ h = with_id flag h

abbrev blank_header : DeliveryType → List ℕ → Header
blank_header type rest = record {
  is_follow_on = false;
  is_last = true;
  delivery_type = type;
  hash = [];
  tunnel_id = 0;
  msg_id = 0;
  fragment_num = 0;
  size = 0;
  rest = rest;
  used = 1;
}

unfoldable pub parse_header : List ℕ → Option Header
parse_header [] = none
parse_header (flag ∷ rest) =
    if flag / 128 % 2 == 1
    then (read_word rest >>=? λ (id, rest'). with_size (record (blank_header to_local rest') {
      is_follow_on = true;
      is_last = flag % 2 == 1;
      msg_id = id;
      fragment_num = flag / 2 % 64;
      used = 5;
    }))
    else with_address flag (flag_type flag) (blank_header (flag_type flag) rest)

-- A fragment with its instructions: deliver it, start a message, or go on with one.
unfoldable pub handle_fragment : Header → Message → Endpoint → Outcome
handle_fragment h m e =
    if not h.is_follow_on && h.is_last
    then ok (handle_next_message h.delivery_type h.hash h.tunnel_id m.bytes e)
    else (if h.msg_id == 0
        then ok e
        else (if h.is_follow_on
            then handle_follow_on_fragment h.msg_id h.is_last h.fragment_num m e
            else elim (lookup h.msg_id e.incomplete) [
              | some b ↦ ok e
              | none ↦
                  let b : Block = record {
                    delivery_type = h.delivery_type;
                    hash = h.hash;
                    tunnel_id = h.tunnel_id;
                    msg = m;
                    next_fragment_num = 1;
                  } in
                  handle_out_of_sequence_fragment h.msg_id b
                    (record e { incomplete = insert h.msg_id b e.incomplete })
            ]))

-- A tunnel data message in its buffer: the IV, the 1008 decrypted bytes, what the buffer holds behind
-- them, the place of the decrypted bytes in the buffer, and the buffer's limits.
pub record TunnelData : Type 0 where
  pub iv : List ℕ
  pub decrypted : List ℕ
  pub behind : List ℕ
  pub start : ℕ
  pub max_len : ℕ
  pub capacity : ℕ

-- The message for a fragment: a copy in a short buffer, or for the last one the buffer itself.
abbrev pub fragment_message : TunnelData → ℕ → Header → ℕ → Message
fragment_message t offset h left =
    if ltb (h.used + h.size) left
    then record {
      bytes = take h.size h.rest;
      offset = 8;
      max_len = t.max_len;
      capacity = i2np_max_short_message_size + 16;
    }
    else record {
      bytes = take h.size h.rest;
      offset = offset + h.used;
      max_len = t.max_len;
      capacity = t.capacity;
    }

-- `while (fragment < decrypted + TUNNEL_DATA_ENCRYPTED_SIZE)`: `left` bytes are in front of the end,
-- and `memory` is the buffer from `fragment` on. Each round takes a byte at least.
unfoldable pub handle_fragments : ℕ → TunnelData → ℕ → List ℕ → ℕ → Endpoint → Outcome
handle_fragments fuel t offset memory zero e = ok e
handle_fragments zero t offset memory (suc left) e = stuck
handle_fragments (suc fuel) t offset memory (suc left) e = elim (parse_header memory) [
  | none ↦ overrun
  | some h ↦ elim (leb h.size (length h.rest)) [
    | false ↦ overrun
    | true ↦ handle_fragment h (fragment_message t offset h (suc left)) e >>= λ e'.
        handle_fragments fuel t (offset + h.used + h.size) (drop h.size h.rest)
          (suc left - (h.used + h.size)) e'
  ]
]

-- `memchr (…, 0, …)`: what stands behind the first zero.
unfoldable pub after_zero : List ℕ → Option (List ℕ)
after_zero [] = none
after_zero (b ∷ bs) = if b == 0 then some bs else after_zero bs

-- `HandleDecryptedTunnelDataMsg`, over the hash function of the cryptographic library.
module _ (sha256 : List ℕ → List ℕ) where
  unfoldable pub handle_decrypted_tunnel_data_msg : TunnelData → Endpoint → Outcome
  handle_decrypted_tunnel_data_msg t e =
      let e' = record e { num_received_bytes = e.num_received_bytes + tunnel_data_msg_size } in
      elim (after_zero (drop 4 t.decrypted)) [
        | none ↦ ok e'
        | some payload ↦
            if same_bytes (take 4 (sha256 (payload ++ t.iv))) (take 4 t.decrypted)
            then handle_fragments (length payload) t (t.start + (1008 - length payload))
                (payload ++ (t.iv ++ t.behind)) (length payload) e'
            else ok e'
      ]
