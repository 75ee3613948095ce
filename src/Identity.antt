-- ===== src/Identity.antt =====
-- core/Identity.h and Identity.cpp: `IdentityEx`, the keys that name a router or a destination, and their
-- certificate. The pointer to the extended buffer is kept as such, since a deleted buffer stays in it.
pub mod RoundTrip
pub mod Keys
pub mod Created
pub mod Private
mod Tests
use mathlib.Core.Option
use i2pd.Prelude.{
  ℕ, zero, suc, ◌+◌, ◌-◌, ◌*◌, Bool, true, false, not, ◌&&◌, ◌||◌, List, [], ◌∷◌, ◌++◌, Option,
  none, some, ltb, leb, ◌==◌, if◌then◌else◌, length, get_or, take, drop,
}
use i2pd.Prelude.Bytes.{be16, from_be16}

-- `DEFAULT_IDENTITY_SIZE`
abbrev pub default_identity_size : ℕ
default_identity_size = 387

abbrev pub certificate_type_key : ℕ
certificate_type_key = 5

-- `m_ExtendedBuffer`: no buffer, a buffer with its bytes, or a buffer that was deleted.
pub data Extended : Type 0 where
  null_buffer deleted : Extended
  buffer_of : List ℕ → Extended

-- `IdentityEx`. The verifier that it caches is the one of `verifying_key`: every change of the keys but that of
-- a failed read drops it.
pub record IdentityEx : Type 0 where
  pub public_key : List ℕ
  pub signing_key : List ℕ
  pub cert_type : ℕ
  pub cert_length : ℕ
  pub ident_hash : List ℕ
  pub extended_len : ℕ
  pub extended : Extended

-- `IdentityEx ()`, whose keys have no value yet: they are given.
unfoldable pub blank : List ℕ → IdentityEx
blank garbage = record {
  public_key = take 256 garbage;
  signing_key = take 128 (drop 256 garbage);
  cert_type = get_or garbage 384 0;
  cert_length = from_be16 (get_or garbage 385 0) (get_or garbage 386 0);
  ident_hash = [];
  extended_len = 0;
  extended = null_buffer;
}

-- `GetFullLen`
abbrev pub full_len : IdentityEx → ℕ
full_len i = i.extended_len + default_identity_size

-- `delete[] m_ExtendedBuffer`; `none` for a buffer that is deleted already.
unfoldable pub delete_buffer : Extended → Option Extended
delete_buffer null_buffer = some null_buffer
delete_buffer deleted = none
delete_buffer (buffer_of bytes) = some deleted

-- The copy of the standard identity.
unfoldable pub copy_standard : List ℕ → IdentityEx → IdentityEx
copy_standard buf i = record i {
  public_key = take 256 buf;
  signing_key = take 128 (drop 256 buf);
  cert_type = get_or buf 384 0;
  cert_length = from_be16 (get_or buf 385 0) (get_or buf 386 0);
}

-- `FromBuffer` behind the delete, for the pointer that is left.
unfoldable pub read_extended : (List ℕ → List ℕ) → List ℕ → Extended → IdentityEx → ℕ × IdentityEx
read_extended sha256 buf left i =
    let whole = i.cert_length + default_identity_size in
    if i.cert_length == 0
    then (
      default_identity_size,
      record i {
        extended_len = 0;
        extended = null_buffer;
        ident_hash = sha256 (take default_identity_size buf);
      },
    )
    else (if leb whole (length buf)
        then (
          whole,
          record i {
            extended_len = i.cert_length;
            extended = buffer_of (take i.cert_length (drop default_identity_size buf));
            ident_hash = sha256 (take whole buf);
          },
        )
        else (0, record i { extended_len = i.cert_length; extended = left }))

abbrev read_behind_delete :
    (List ℕ → List ℕ) → List ℕ → IdentityEx → Option Extended → Option (ℕ × IdentityEx)
read_behind_delete sha256 buf i none = none
read_behind_delete sha256 buf i (some left) =
    some (read_extended sha256 buf left (copy_standard buf i))

-- `FromBuffer`, for a buffer of its length; `none` where a buffer is deleted twice.
unfoldable pub from_buffer : (List ℕ → List ℕ) → List ℕ → IdentityEx → Option (ℕ × IdentityEx)
unfolding delete_buffer copy_standard read_extended
from_buffer sha256 buf i =
    if ltb (length buf) default_identity_size
    then some (0, i)
    else read_behind_delete sha256 buf i (delete_buffer i.extended)

-- The bytes of the standard identity.
abbrev pub standard_bytes : IdentityEx → List ℕ
standard_bytes i = i.public_key ++ (i.signing_key ++ (i.cert_type ∷ be16 i.cert_length))

abbrev extended_bytes : Extended → Option (List ℕ)
extended_bytes null_buffer = some []
extended_bytes deleted = none
extended_bytes (buffer_of bytes) = some bytes

-- The bytes that `ToBuffer` writes; `none` where it reads a deleted buffer.
unfoldable pub to_buffer : IdentityEx → Option (List ℕ)
to_buffer i =
    Option.map (λ bytes. standard_bytes i ++ take i.extended_len bytes)
      (if i.extended_len == 0 then some [] else extended_bytes i.extended)

-- A number of two bytes in the extended buffer; `none` for a read that the buffer does not hold.
abbrev read_be16 : List ℕ → Option ℕ
read_be16 (a ∷ b ∷ rest) = some (from_be16 a b)
read_be16 bytes = none

abbrev type_in : Extended → Option ℕ
type_in null_buffer = some 0
type_in deleted = none
type_in (buffer_of bytes) = read_be16 bytes

-- `GetSigningKeyType`
unfoldable pub signing_key_type : IdentityEx → Option ℕ
signing_key_type i = if i.cert_type == certificate_type_key then type_in i.extended else some 0

-- The sizes of the keys and signatures of a type, as its verifier gives them; without a verifier, those
-- that `GetSigningPublicKeyLen` and `GetSignatureLen` end with.
unfoldable pub public_key_len : ℕ → ℕ
public_key_len type = get_or (128 ∷ 64 ∷ 96 ∷ 132 ∷ 256 ∷ 384 ∷ 512 ∷ 32 ∷ []) type 128

unfoldable pub signature_len : ℕ → ℕ
signature_len type = get_or (40 ∷ 64 ∷ 96 ∷ 132 ∷ 256 ∷ 384 ∷ 512 ∷ 64 ∷ []) type 40

-- The bytes that are read of the extended buffer for a key that is longer than its field.
abbrev excess_of : ℕ → Extended → Option (List ℕ)
excess_of n (buffer_of bytes) =
    if leb (4 + n) (length bytes) then some (take n (drop 4 bytes)) else none
excess_of n other = none

-- `CreateVerifier`: the key that the verifier of a type gets; `none` where the extended buffer ends early.
unfoldable pub verifying_key : ℕ → IdentityEx → Option (List ℕ)
unfolding public_key_len
verifying_key type i =
    if leb (public_key_len type) 128
    then some (drop (128 - public_key_len type) i.signing_key)
    else Option.map (◌++◌ i.signing_key) (excess_of (public_key_len type - 128) i.extended)
