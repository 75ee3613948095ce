-- ===== src/LeaseSet.antt =====
-- core/LeaseSet.h and LeaseSet.cpp: the inbound tunnels of a destination, as they are published and read.
pub mod Leases
pub mod Publish
pub mod Expiry
mod Tests
use i2pd.Prelude.{
  ℕ, zero, suc, ◌+◌, ◌-◌, ◌*◌, ◌/◌, ◌%◌, ◌^◌, Bool, true, false, not, ◌&&◌, ◌||◌, List, [], ◌∷◌,
  ◌++◌, Option, none, some, ltb, leb, ◌==◌, if◌then◌else◌, length, take, drop, replicate,
}
use i2pd.Prelude.Chain.{and_then}
use i2pd.Prelude.Bytes.{be32, be64, from_be32, from_be64}
use i2pd.Identity.{
  IdentityEx, blank, from_buffer, to_buffer, signing_key_type, public_key_len, signature_len,
  verifying_key,
}

-- `TUNNEL_EXPIRATION_TIMEOUT` and `TUNNEL_EXPIRATION_THRESHOLD`, in seconds.
abbrev pub tunnel_expiration_timeout : ℕ
tunnel_expiration_timeout = 660

abbrev pub tunnel_expiration_threshold : ℕ
tunnel_expiration_threshold = 60

-- `Lease`
pub record Lease : Type 0 where
  pub tunnel_gateway : List ℕ
  pub tunnel_id : ℕ
  pub end_date : ℕ

-- The cryptographic library: the hash, and the verifiers by type and key.
pub record Crypto : Type 0 where
  pub sha256 : List ℕ → List ℕ
  pub verify : ℕ → List ℕ → List ℕ → List ℕ → Bool

-- `LeaseSet`; `buffer` has the first `m_BufferLen` bytes of `m_Buffer`, and `looked_up` the gateways that
-- the network database was asked for.
pub record LeaseSet : Type 0 where
  pub is_valid : Bool
  pub leases : List Lease
  pub identity : IdentityEx
  pub encryption_key : List ℕ
  pub buffer : List ℕ
  pub looked_up : List (List ℕ)

-- The numbers of a lease; `none` where they lie behind the end.
abbrev read_numbers : List ℕ → List ℕ → Option (Lease × List ℕ)
read_numbers gateway (a ∷ b ∷ c ∷ d ∷ e ∷ f ∷ g ∷ h ∷ i ∷ j ∷ k ∷ l ∷ rest) = some (
  record {
    tunnel_gateway = gateway;
    tunnel_id = from_be32 a b c d;
    end_date = from_be64 e f g h i j k l;
  },
  rest,
)
read_numbers gateway bytes = none

-- The loop over the leases.
unfoldable pub read_leases : ℕ → List ℕ → Option (List Lease × List ℕ)
read_leases zero bytes = some ([], bytes)
read_leases (suc n) bytes =
    and_then (read_numbers (take 32 bytes) (drop 32 bytes))
      (λ one. and_then (read_leases n one.1) (λ more. some (one.0 ∷ more.0, more.1)))

abbrev gateways : List Lease → List (List ℕ)
gateways [] = []
gateways (l ∷ ls) = l.tunnel_gateway ∷ gateways ls

-- `IdentityEx::Verify`; `none` for a read behind the end. A key type without a verifier fits no signature.
unfoldable pub verify : Crypto → IdentityEx → ℕ → List ℕ → List ℕ → Option Bool
verify crypto i type message signature =
    if leb 8 type
    then some false
    else and_then (verifying_key type i) (λ key.
      if leb (signature_len type) (length signature)
      then some (crypto.verify type key message (take (signature_len type) signature))
      else none)

-- `ReadFromBuffer` behind the number of leases.
unfoldable pub read_signed : Crypto → IdentityEx → ℕ → ℕ → List ℕ → LeaseSet → Option LeaseSet
unfolding read_leases verify
read_signed crypto i type num bytes s = and_then (read_leases num bytes) (λ read.
    and_then (verify crypto i type (take (length s.buffer - length read.1) s.buffer) read.1)
      (λ good. some (record s {
        is_valid = s.is_valid && (not (num == 0) && good);
        leases = s.leases ++ read.0;
        looked_up = s.looked_up ++ gateways read.0;
      })))

abbrev read_num : Crypto → IdentityEx → ℕ → List ℕ → LeaseSet → Option LeaseSet
read_num crypto i type [] s = none
read_num crypto i type (num ∷ bytes) s = read_signed crypto i type num bytes s

-- `ReadFromBuffer` behind the identity, whose size is given.
unfoldable pub read_keys : Crypto → ℕ → IdentityEx → LeaseSet → Option LeaseSet
unfolding read_signed
read_keys crypto size i s =
    if leb (size + 256) (length s.buffer)
    then and_then (signing_key_type i) (λ type.
      read_num crypto i type (drop (size + 256 + public_key_len type) s.buffer)
        (record s { identity = i; encryption_key = take 256 (drop size s.buffer) }))
    else none

-- `ReadFromBuffer`; `none` where it reads behind the buffer's bytes, or deletes a buffer twice.
unfoldable pub read_from_buffer : Crypto → LeaseSet → Option LeaseSet
unfolding read_keys
read_from_buffer crypto s =
    and_then (from_buffer crypto.sha256 s.buffer s.identity)
      (λ read. read_keys crypto read.0 read.1 s)

-- `LeaseSet (buf, len)`, over fields that have no value yet.
unfoldable pub from_bytes : Crypto → List ℕ → List ℕ → Option LeaseSet
unfolding read_from_buffer
from_bytes crypto garbage buf = read_from_buffer crypto (record {
  is_valid = true;
  leases = [];
  identity = blank garbage;
  encryption_key = [];
  buffer = buf;
  looked_up = [];
})

-- `Update`
unfoldable pub update : Crypto → List ℕ → LeaseSet → Option LeaseSet
unfolding read_from_buffer
update crypto buf s = read_from_buffer crypto (record s { leases = []; buffer = buf })

-- An inbound tunnel of the pool: its gateway, the id there, and the second of its creation.
pub record InboundTunnel : Type 0 where
  pub next_ident_hash : List ℕ
  pub next_tunnel_id : ℕ
  pub creation_time : ℕ

-- The lease of a tunnel, whose end has up to five random milliseconds added.
unfoldable pub lease_of : ℕ → InboundTunnel → Lease
lease_of random t = record {
  tunnel_gateway = t.next_ident_hash;
  tunnel_id = t.next_tunnel_id;
  end_date =
      ((t.creation_time + tunnel_expiration_timeout - tunnel_expiration_threshold) * 1000 + random)
      % 2 ^ 64;
}

abbrev lease_bytes : Lease → List ℕ
lease_bytes l = l.tunnel_gateway ++ (be32 l.tunnel_id ++ be64 l.end_date)

unfoldable pub leases_of : List (ℕ × InboundTunnel) → List Lease
leases_of [] = []
leases_of ((random, t) ∷ ts) = lease_of random t ∷ leases_of ts

unfoldable pub write_leases : List Lease → List ℕ
write_leases [] = []
write_leases (l ∷ ls) = lease_bytes l ++ write_leases ls

-- The bytes that `LeaseSet (pool)` writes in front of the signature.
unfoldable pub unsigned_bytes : List ℕ → List ℕ → ℕ → List (ℕ × InboundTunnel) → List ℕ
unfolding leases_of write_leases
unsigned_bytes identity_bytes encryption_key type tunnels =
    identity_bytes
    ++ (encryption_key
        ++ (replicate (public_key_len type) 0
            ++ (length tunnels ∷ write_leases (leases_of tunnels))))

-- `LeaseSet (pool)` up to `ReadFromBuffer`, for at most five tunnels.
unfoldable pub publish :
    (List ℕ → List ℕ) → IdentityEx → List ℕ → List (ℕ × InboundTunnel) → Option (List ℕ)
unfolding unsigned_bytes
publish sign i encryption_key tunnels = and_then (to_buffer i) (λ identity_bytes.
    and_then (signing_key_type i) (λ type.
      let bytes = unsigned_bytes identity_bytes encryption_key type (take 5 tunnels) in
      some (bytes ++ sign bytes)))

-- `LeaseSet (pool)`, which reads what it wrote; without a local destination it is not valid.
unfoldable pub from_pool :
    Crypto
    → (List ℕ → List ℕ)
    → List ℕ
    → Option IdentityEx
    → List ℕ
    → List (ℕ × InboundTunnel)
    → Option LeaseSet
from_pool crypto sign garbage none encryption_key tunnels = some (record {
  is_valid = false;
  leases = [];
  identity = blank garbage;
  encryption_key = [];
  buffer = [];
  looked_up = [];
})
from_pool crypto sign garbage (some i) encryption_key tunnels =
    and_then (publish sign i encryption_key tunnels) (from_bytes crypto garbage)

-- `GetNonExpiredLeases`; `ts` is the time in milliseconds.
unfoldable pub non_expired_leases : Bool → ℕ → List Lease → List Lease
non_expired_leases with_threshold ts [] = []
non_expired_leases with_threshold ts (l ∷ ls) =
    let more = non_expired_leases with_threshold ts ls in
    let end_date =
      if with_threshold
      then l.end_date
      else (l.end_date + 2 ^ 64 - tunnel_expiration_threshold * 1000) % 2 ^ 64 in
    if ltb ts end_date then l ∷ more else more

-- `HasExpiredLeases` and `HasNonExpiredLeases`
unfoldable pub has_expired_leases : ℕ → List Lease → Bool
has_expired_leases ts [] = false
has_expired_leases ts (l ∷ ls) = leb l.end_date ts || has_expired_leases ts ls

unfoldable pub has_non_expired_leases : ℕ → List Lease → Bool
has_non_expired_leases ts [] = false
has_non_expired_leases ts (l ∷ ls) = ltb ts l.end_date || has_non_expired_leases ts ls
