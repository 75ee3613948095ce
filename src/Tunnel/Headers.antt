-- ===== src/Tunnel/Headers.antt =====
-- core/tunnel: the endpoint reads the delivery instructions that the gateway writes.
use i2pd.Prelude.{
  ℕ, ◌+◌, ◌/◌, ◌%◌, ◌^◌, ◌<◌, ◌≡◌, ◌≢◌, refl, ap, Bool, true, false, List, [], ◌∷◌, ◌++◌, some,
  ◌==◌, if◌then◌else◌, length, length-append, take-append_left, drop-append_left, arith,
}
use i2pd.Prelude.Bytes.{be16, be32, from_be32-be32, agree_below, agree_below_sound}
use i2pd.Tunnel.{DeliveryType, to_local, to_tunnel, to_router, to_unknown}
use i2pd.Tunnel.Endpoint.{Header, read_word, read_half, read_hash, parse_header}
use i2pd.Tunnel.Gateway.{instructions, mark_fragmented, follow_on_flag}
use i2pd.Tunnel.Gateway

read_half-be16 : (n : ℕ) (rest : List ℕ) → n < 65536 → read_half (be16 n ++ rest) ≡ some (n, rest)
unfolding read_half
read_half-be16 n rest h = ap (λ (t : ℕ). some (t, rest)) (omega arith)

read_word-be32 : (n : ℕ) (rest : List ℕ) → n < 2 ^ 32 → read_word (be32 n ++ rest) ≡ some (n, rest)
unfolding read_word
read_word-be32 n rest h = ap (λ (t : ℕ). some (t, rest)) (from_be32-be32 n h)

read_hash-append :
    (hash rest : List ℕ) → length hash ≡ 32 → read_hash (hash ++ rest) ≡ some (hash, rest)
unfolding read_hash
read_hash-append hash rest h =
    rw (take-append_left 32 hash rest h, drop-append_left 32 hash rest h)
      (ground (arith, length-append hash rest))

-- The address that the endpoint finds in the instructions.
abbrev pub hash_of : DeliveryType → List ℕ → List ℕ
hash_of to_local hash = []
hash_of _ hash = hash

abbrev pub id_of : DeliveryType → ℕ → ℕ
id_of to_tunnel id = id
id_of _ id = 0

-- A block with a well-formed address.
pub record Addressed (b : Gateway.Block) : Type 0 where
  pub known_type : b.delivery_type ≢ to_unknown
  pub hash_size : length b.hash ≡ 32
  pub id_fits : b.tunnel_id < 2 ^ 32

abbrev pub first_header : Gateway.Block → ℕ → ℕ → List ℕ → Header
first_header b id n rest = record {
  is_follow_on = false;
  is_last = id == 0;
  delivery_type = b.delivery_type;
  hash = hash_of b.delivery_type b.hash;
  tunnel_id = id_of b.delivery_type b.tunnel_id;
  msg_id = id;
  fragment_num = 0;
  size = n;
  rest = rest;
  used = length (instructions b) + (if id == 0 then 2 else 6);
}

abbrev block : DeliveryType → List ℕ → ℕ → Gateway.Outgoing → Gateway.Block
block t hash id m = record { delivery_type = t; hash = hash; tunnel_id = id; msg = m }

parse_whole_fields :
    (t : DeliveryType) (hash : List ℕ) (id : ℕ) (m : Gateway.Outgoing) (n : ℕ) (rest : List ℕ)
    → t ≢ to_unknown
    → length hash ≡ 32
    → id < 2 ^ 32
    → n < 65536
    → parse_header (instructions (block t hash id m) ++ (be16 n ++ rest))
      ≡ some (first_header (block t hash id m) 0 n rest)
unfolding parse_header instructions
parse_whole_fields to_local hash id m n rest k l i h = ground (arith, read_half-be16 n rest h)
parse_whole_fields to_tunnel hash id m n rest k l i h = ground (
  arith,
  read_word-be32 id (hash ++ (be16 n ++ rest)) i,
  read_hash-append hash (be16 n ++ rest) l,
  read_half-be16 n rest h,
)
parse_whole_fields to_router hash id m n rest k l i h =
    ground (arith, read_hash-append hash (be16 n ++ rest) l, read_half-be16 n rest h)
parse_whole_fields to_unknown hash id m n rest k l i h = absurd (k refl)

parse_first_fields :
    (t : DeliveryType) (hash : List ℕ) (id : ℕ) (m : Gateway.Outgoing) (msg_id n : ℕ)
    (rest : List ℕ)
    → t ≢ to_unknown
    → length hash ≡ 32
    → id < 2 ^ 32
    → 0 < msg_id
    → msg_id < 2 ^ 32
    → n < 65536
    → parse_header
        (mark_fragmented (instructions (block t hash id m)) ++ (be32 msg_id ++ (be16 n ++ rest)))
      ≡ some (first_header (block t hash id m) msg_id n rest)
unfolding parse_header instructions mark_fragmented
parse_first_fields to_local hash id m msg_id n rest k l i p q h =
    ground (arith, read_word-be32 msg_id (be16 n ++ rest) q, read_half-be16 n rest h)
parse_first_fields to_tunnel hash id m msg_id n rest k l i p q h = ground (
  arith,
  read_word-be32 id (hash ++ (be32 msg_id ++ (be16 n ++ rest))) i,
  read_hash-append hash (be32 msg_id ++ (be16 n ++ rest)) l,
  read_word-be32 msg_id (be16 n ++ rest) q,
  read_half-be16 n rest h,
)
parse_first_fields to_router hash id m msg_id n rest k l i p q h = ground (
  arith,
  read_hash-append hash (be32 msg_id ++ (be16 n ++ rest)) l,
  read_word-be32 msg_id (be16 n ++ rest) q,
  read_half-be16 n rest h,
)
parse_first_fields to_unknown hash id m msg_id n rest k l i p q h = absurd (k refl)

-- The instructions that the gateway writes in front of a message in one piece, with a well-formed
-- address and a size of 16 bits, are read by the endpoint as a first and last fragment of just that
-- delivery type, address and size, and the bytes behind them as its content.
pub parse_whole :
    (b : Gateway.Block) (n : ℕ) (rest : List ℕ)
    → Addressed b
    → n < 65536
    → parse_header (instructions b ++ (be16 n ++ rest)) ≡ some (first_header b 0 n rest)
parse_whole b n rest a h =
    parse_whole_fields b.delivery_type b.hash b.tunnel_id b.msg n rest a.known_type a.hash_size
      a.id_fits h

-- The instructions that the gateway writes in front of a first fragment, with a well-formed address, a
-- positive message id and a size of 16 bits, are read by the endpoint as a fragment that is not the
-- last, of just that delivery type, address, message id and size.
pub parse_first :
    (b : Gateway.Block) (msg_id n : ℕ) (rest : List ℕ)
    → Addressed b
    → 0 < msg_id
    → msg_id < 2 ^ 32
    → n < 65536
    → parse_header (mark_fragmented (instructions b) ++ (be32 msg_id ++ (be16 n ++ rest)))
      ≡ some (first_header b msg_id n rest)
parse_first b msg_id n rest a p q h =
    parse_first_fields b.delivery_type b.hash b.tunnel_id b.msg msg_id n rest a.known_type
      a.hash_size a.id_fits p q h

-- The flag of a follow-on fragment, read back.
flag_follows : (n : ℕ) → n < 64 → follow_on_flag n false / 128 % 2 ≡ 1
unfolding agree_below follow_on_flag
flag_follows = agree_below_sound (λ n. follow_on_flag n false / 128 % 2) (λ n. 1) 64 refl

flag_follows_last : (n : ℕ) → n < 64 → follow_on_flag n true / 128 % 2 ≡ 1
unfolding agree_below follow_on_flag
flag_follows_last = agree_below_sound (λ n. follow_on_flag n true / 128 % 2) (λ n. 1) 64 refl

flag_number : (n : ℕ) → n < 64 → follow_on_flag n false / 2 % 64 ≡ n
unfolding agree_below follow_on_flag
flag_number = agree_below_sound (λ n. follow_on_flag n false / 2 % 64) (λ n. n) 64 refl

flag_number_last : (n : ℕ) → n < 64 → follow_on_flag n true / 2 % 64 ≡ n
unfolding agree_below follow_on_flag
flag_number_last = agree_below_sound (λ n. follow_on_flag n true / 2 % 64) (λ n. n) 64 refl

flag_parity : (n : ℕ) → n < 64 → follow_on_flag n false % 2 ≡ 0
unfolding agree_below follow_on_flag
flag_parity = agree_below_sound (λ n. follow_on_flag n false % 2) (λ n. 0) 64 refl

flag_parity_last : (n : ℕ) → n < 64 → follow_on_flag n true % 2 ≡ 1
unfolding agree_below follow_on_flag
flag_parity_last = agree_below_sound (λ n. follow_on_flag n true % 2) (λ n. 1) 64 refl

abbrev pub follow_header : ℕ → Bool → ℕ → ℕ → List ℕ → Header
follow_header k last id n rest = record {
  is_follow_on = true;
  is_last = last;
  delivery_type = to_local;
  hash = [];
  tunnel_id = 0;
  msg_id = id;
  fragment_num = k;
  size = n;
  rest = rest;
  used = 7;
}

-- The instructions that the gateway writes in front of a follow-on fragment with a number below 64, a
-- message id of 32 bits and a size of 16 bits are read by the endpoint as just that number, id and
-- size, and as the last fragment if and only if the gateway says so.
pub parse_follow :
    (k : ℕ) (last : Bool) (id n : ℕ) (rest : List ℕ)
    → k < 64
    → id < 2 ^ 32
    → n < 65536
    → parse_header (follow_on_flag k last ∷ be32 id ++ (be16 n ++ rest))
      ≡ some (follow_header k last id n rest)
unfolding parse_header
parse_follow k true id n rest hk hi hn = ground (
  arith,
  flag_follows_last k hk,
  flag_number_last k hk,
  flag_parity_last k hk,
  read_word-be32 id (be16 n ++ rest) hi,
  read_half-be16 n rest hn,
)
parse_follow k false id n rest hk hi hn = ground (
  arith,
  flag_follows k hk,
  flag_number k hk,
  flag_parity k hk,
  read_word-be32 id (be16 n ++ rest) hi,
  read_half-be16 n rest hn,
)
