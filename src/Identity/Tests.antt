-- ===== src/Identity/Tests.antt =====
-- Identities with and without a certificate.
use i2pd.Prelude.{
  length-replicate, ℕ, ◌≤◌, ◌≡◌, refl, List, [], ◌∷◌, ◌++◌, none, some, length, take, replicate,
  arith,
}
use i2pd.Identity.{
  IdentityEx, deleted, buffer_of, delete_buffer, copy_standard, from_buffer, standard_bytes,
  signing_key_type, verifying_key, public_key_len,
}
use i2pd.Identity.RoundTrip.{HasCertificate, certificate, HasKeys, from_buffer-twice}
use i2pd.Identity.Keys.{
  new_identity, PrivateKeys, private_key_len, keys_from_buffer, keys_to_buffer,
}
use i2pd.Identity.Created.{new_identity-IsMadeOf}
use i2pd.Identity.Private.{keys_from_buffer-keys_to_buffer}

-- A hash for the tests: the first byte of its input.
abbrev toy_hash : List ℕ → List ℕ
toy_hash bytes = take 1 bytes

-- An identity with a key certificate for EdDSA.
abbrev eddsa_identity : IdentityEx
eddsa_identity = record {
  public_key = replicate 256 2;
  signing_key = replicate 128 3;
  cert_type = 5;
  cert_length = 4;
  ident_hash = [];
  extended_len = 4;
  extended = buffer_of (0 ∷ 7 ∷ 0 ∷ 0 ∷ []);
}

-- A buffer whose certificate has a length of 0x0505, and none of its bytes.
abbrev short_buffer : List ℕ
short_buffer = replicate 387 5

from_buffer-twice_example :
    (k : IdentityEx) × (from_buffer toy_hash short_buffer eddsa_identity ≡ some (0, k))
    × ((other : List ℕ) → 387 ≤ length other → from_buffer toy_hash other k ≡ none)
unfolding copy_standard
from_buffer-twice_example =
    from_buffer-twice toy_hash (0 ∷ 7 ∷ 0 ∷ 0 ∷ []) short_buffer eddsa_identity refl (omega arith)
      (omega arith)

-- An identity for ECDSA with the curve P521, whose key has 132 bytes.
abbrev p521_key : List ℕ
p521_key = replicate 128 6 ++ (1 ∷ 2 ∷ 3 ∷ 4 ∷ [])

abbrev p521_identity : IdentityEx
p521_identity = new_identity toy_hash (λ n. replicate n 0) [] (replicate 256 2) p521_key 3

new_identity-IsMadeOf_example :
    HasKeys p521_identity
    × ((ext : List ℕ) × HasCertificate p521_identity ext)
    × (signing_key_type p521_identity ≡ some 3)
    × (verifying_key 3 p521_identity ≡ some p521_key)
unfolding public_key_len
new_identity-IsMadeOf_example =
    new_identity-IsMadeOf toy_hash (λ n. replicate n 0) [] (replicate 256 2) p521_key 3
      (omega arith) refl refl (λ n. length-replicate n 0)

abbrev eddsa_keys : PrivateKeys
eddsa_keys = record {
  public = eddsa_identity;
  private_key = replicate 256 1;
  signing_private_key = replicate 32 7;
}

keys_from_buffer-keys_to_buffer_example :
    (bytes : List ℕ) × (keys_to_buffer eddsa_keys ≡ some bytes)
    × (keys_from_buffer toy_hash (bytes ++ (5 ∷ [])) eddsa_keys
        ≡ some (
          length bytes,
          record eddsa_keys {
            public = record eddsa_identity {
              ident_hash = toy_hash (standard_bytes eddsa_identity ++ (0 ∷ 7 ∷ 0 ∷ 0 ∷ []));
            };
          },
        ))
unfolding signing_key_type private_key_len delete_buffer
keys_from_buffer-keys_to_buffer_example =
    keys_from_buffer-keys_to_buffer eddsa_keys (0 ∷ 7 ∷ 0 ∷ 0 ∷ []) (5 ∷ []) 7
      (certificate (replicate 256 2) (replicate 128 3) [] 5 (0 ∷ 7 ∷ 0 ∷ 0 ∷ []) (omega arith)
        (omega arith))
      (refl, refl) refl refl refl toy_hash eddsa_keys deleted refl
