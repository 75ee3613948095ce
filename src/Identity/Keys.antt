-- ===== src/Identity/Keys.antt =====
-- core/Identity.cpp: new identities, and the private keys that belong to one.
use i2pd.Prelude.{
  ℕ, ◌+◌, ◌-◌, List, [], ◌∷◌, ◌++◌, Option, none, some, leb, ◌==◌, if◌then◌else◌, length, get_or,
  take, drop,
}
use i2pd.Prelude.Bytes.{be16}
use i2pd.Identity.{
  IdentityEx, null_buffer, buffer_of, certificate_type_key, standard_bytes, public_key_len,
  signing_key_type, from_buffer, to_buffer,
}

-- What the constructor puts into the field of the signing key, and what is left of the key; the field of
-- a type that is not supported keeps what stood there.
unfoldable pub place_key : (ℕ → List ℕ) → List ℕ → List ℕ → ℕ → List ℕ × List ℕ
place_key random garbage key type =
    let len = public_key_len type in
    if leb 8 type
    then (garbage, [])
    else (if leb len 128
        then (random (128 - len) ++ take len key, [])
        else (take 128 key, take (len - 128) (drop 128 key)))

-- The fields of an identity with a key certificate.
unfoldable pub certified : (List ℕ → List ℕ) → List ℕ → ℕ → List ℕ → List ℕ → IdentityEx
certified sha256 public type signing excess =
    let extended = be16 type ++ (be16 0 ++ excess) in
    let i : IdentityEx = record {
      public_key = public;
      signing_key = signing;
      cert_type = certificate_type_key;
      cert_length = length extended;
      ident_hash = [];
      extended_len = length extended;
      extended = buffer_of extended;
    } in
    record i { ident_hash = sha256 (standard_bytes i ++ extended) }

unfoldable pub uncertified : (List ℕ → List ℕ) → List ℕ → List ℕ → IdentityEx
uncertified sha256 public signing =
    let i : IdentityEx = record {
      public_key = public;
      signing_key = signing;
      cert_type = 0;
      cert_length = 0;
      ident_hash = [];
      extended_len = 0;
      extended = null_buffer;
    } in
    record i { ident_hash = sha256 (standard_bytes i) }

-- `IdentityEx (publicKey, signingKey, type)`; the padding of a short key is random.
unfoldable pub new_identity :
    (List ℕ → List ℕ) → (ℕ → List ℕ) → List ℕ → List ℕ → List ℕ → ℕ → IdentityEx
unfolding place_key certified uncertified
new_identity sha256 random garbage public key type =
    let (signing, excess) = place_key random garbage key type in
    if type == 0
    then uncertified sha256 (take 256 public) (take 128 key)
    else certified sha256 (take 256 public) type signing excess

-- `PrivateKeys`, without the signer that is made of them.
pub record PrivateKeys : Type 0 where
  pub public : IdentityEx
  pub private_key : List ℕ
  pub signing_private_key : List ℕ

-- `GetSigningPrivateKeyLen`, by the type of the key.
unfoldable pub private_key_len : ℕ → ℕ
private_key_len type = get_or (20 ∷ 32 ∷ 48 ∷ 66 ∷ 512 ∷ 768 ∷ 1024 ∷ 32 ∷ []) type 20

abbrev pub read_signing : ℕ → IdentityEx → List ℕ → List ℕ → Option ℕ → Option (ℕ × PrivateKeys)
read_signing size i private rest none = none
read_signing size i private rest (some type) =
    if leb (private_key_len type) (length rest)
    then some (
      size + 256 + private_key_len type,
      record {
        public = i;
        private_key = private;
        signing_private_key = take (private_key_len type) rest;
      },
    )
    else none

unfoldable pub read_private : List ℕ → Option (ℕ × IdentityEx) → Option (ℕ × PrivateKeys)
read_private buf none = none
read_private buf (some (size, i)) =
    let rest = drop size buf in
    if leb 256 (length rest)
    then read_signing size i (take 256 rest) (drop 256 rest) (signing_key_type i)
    else none

-- `PrivateKeys::FromBuffer`; `none` where it reads behind the buffer.
unfoldable pub keys_from_buffer :
    (List ℕ → List ℕ) → List ℕ → PrivateKeys → Option (ℕ × PrivateKeys)
unfolding read_private
keys_from_buffer sha256 buf k = read_private buf (from_buffer sha256 buf k.public)

abbrev pub with_keys : PrivateKeys → Option (List ℕ) → Option (List ℕ)
with_keys k none = none
with_keys k (some bytes) = some (bytes ++ (k.private_key ++ k.signing_private_key))

-- `PrivateKeys::ToBuffer`, for a signing key of the length that its type has.
unfoldable pub keys_to_buffer : PrivateKeys → Option (List ℕ)
keys_to_buffer k = with_keys k (to_buffer k.public)
