-- ===== src/I2np/Header.antt =====
-- core/I2NPProtocol.h: the size that a message's header tells, and a message's way through SSU.
use i2pd.Prelude.{
  ℕ, ◌+◌, ◌*◌, ◌/◌, ◌%◌, ◌^◌, ◌<◌, ◌≡◌, refl, ap, List, [], ◌∷◌, ◌++◌, some, arith, length, take,
  take_all, ◌==◌, if◌then◌else◌, List-cases, inl, inr,
}
use i2pd.Prelude.Bytes.{be16, be32, be64, from_be16, from_be32-be32, from_be64-be64}
use i2pd.I2np.{fill_header, message_length, to_ssu, from_ssu}

-- A message as its header's fields and its payload.
abbrev pub message : ℕ → ℕ → ℕ → ℕ → List ℕ → List ℕ
message type id expiration chks payload =
    type ∷ (be32 id ++ (be64 expiration ++ (be16 (length payload) ++ (chks ∷ payload))))

pub from_be16-be16 : (n : ℕ) → n < 2 ^ 16 → from_be16 (n / 256 % 256) (n % 256) ≡ n
from_be16-be16 n h = omega arith

pub message_length-message :
    (type id expiration chks : ℕ) (payload : List ℕ)
    → length payload < 2 ^ 16
    → message_length (message type id expiration chks payload) ≡ some (length payload + 16)
unfolding message_length
message_length-message type id expiration chks payload h =
    ap (λ n. some (n + 16)) (from_be16-be16 (length payload) h)

-- A message that SSU carries keeps its type, its id and its payload; its expiration, below 2 ^ 32 seconds, loses
-- the milliseconds, and its checksum is 0. The payload is shorter than 2 ^ 16 bytes.
pub from_ssu-to_ssu :
    (type id expiration chks : ℕ) (payload : List ℕ)
    → id < 2 ^ 32
    → expiration < 1000 * 2 ^ 32
    → length payload < 2 ^ 16
    → (short : List ℕ) × (to_ssu (message type id expiration chks payload) ≡ some (id, short))
      × (from_ssu id short ≡ some (message type id (expiration / 1000 * 1000) 0 payload))
unfolding to_ssu from_ssu
from_ssu-to_ssu type id expiration chks payload i e p = (
  type ∷ (be32 (expiration / 1000) ++ payload),
  rw
      (
        from_be32-be32 id i,
        from_be64-be64 expiration (omega arith),
        from_be16-be16 (length payload) p,
        take_all payload,
      )
      refl,
  rw (from_be32-be32 (expiration / 1000) (omega arith)) refl,
)

module _ (sha256 : List ℕ → List ℕ) (hashes : (bytes : List ℕ) → length (sha256 bytes) ≡ 32) where
  first_of_hash : (payload : List ℕ) → (chks : ℕ) × (take 1 (sha256 payload) ≡ chks ∷ [])
  first_of_hash payload = elim (List-cases (sha256 payload)) [
    | inl e ↦ absurd (let n = ap length e in omega (arith, n, hashes payload))
    | inr (x, xs, e) ↦ (x, ap (take 1) e)
  ]

  -- The header that is filled in makes a message of the given payload.
  pub fill_header-message :
      (type reply_id random now : ℕ) (payload : List ℕ)
      → (chks : ℕ) × (fill_header sha256 type reply_id random now payload
          ≡ message type (if reply_id == 0 then random else reply_id) (now + 5000) chks payload)
  unfolding fill_header
  fill_header-message type reply_id random now payload =
      let first = first_of_hash payload in (first.0, rw (first.1) refl)
