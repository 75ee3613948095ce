-- ===== src/Identity/Created.antt =====
-- core/Identity.cpp: a new identity is verified by the key that it was made of, and private keys are read as
-- they are written.
use mathlib.Core.Path.{subst}
use i2pd.Prelude.{
  ℕ, zero, suc, ◌+◌, ◌-◌, ◌/◌, ◌%◌, ◌^◌, ◌≤◌, ◌<◌, ◌≡◌, refl, sym, ap, ◌∙◌, true, false, List, [],
  ◌++◌, some, leb, ◌==◌, length, take, drop, arith, length-append, length-take, length-drop,
  drop-append_left, take-append-drop, take_all, leb-true, leb-false, leb_le, leb_lt, Bool-cases,
  inl, inr,
}
use i2pd.Prelude.Bytes.{be16, from_be16}
use i2pd.Identity.{IdentityEx, public_key_len, signing_key_type, verifying_key}
use i2pd.Identity.Keys.{place_key, certified, uncertified, new_identity}
use i2pd.Identity.RoundTrip.{HasCertificate, no_certificate, certificate, HasKeys}

public_key_len_le : (type : ℕ) → public_key_len type ≤ 512
unfolding public_key_len
public_key_len_le zero = omega arith
public_key_len_le (suc zero) = omega arith
public_key_len_le (suc (suc zero)) = omega arith
public_key_len_le (suc (suc (suc zero))) = omega arith
public_key_len_le (suc (suc (suc (suc zero)))) = omega arith
public_key_len_le (suc (suc (suc (suc (suc zero))))) = omega arith
public_key_len_le (suc (suc (suc (suc (suc (suc zero)))))) = omega arith
public_key_len_le (suc (suc (suc (suc (suc (suc (suc zero))))))) = omega arith
public_key_len_le (suc (suc (suc (suc (suc (suc (suc (suc n)))))))) = omega arith

-- What a new identity is good for: its keys and its certificate have their sizes, and it is verified by the
-- key that was given, as one of the given type.
abbrev IsMadeOf : List ℕ → ℕ → IdentityEx → Type 0
IsMadeOf key type i =
    HasKeys i
    × ((ext : List ℕ) × HasCertificate i ext)
    × (signing_key_type i ≡ some type)
    × (verifying_key type i ≡ some key)

uncertified-IsMadeOf :
    (sha256 : List ℕ → List ℕ) (public key : List ℕ)
    → length public ≡ 256
    → length key ≡ 128
    → IsMadeOf key 0 (uncertified sha256 public key)
unfolding uncertified signing_key_type verifying_key public_key_len
uncertified-IsMadeOf sha256 public key p k =
    ((p, k), ([], no_certificate public key _ 0), refl, refl)

certified-type :
    (sha256 : List ℕ → List ℕ) (public signing excess : List ℕ) (type : ℕ)
    → type < 2 ^ 16
    → signing_key_type (certified sha256 public type signing excess) ≡ some type
unfolding certified signing_key_type
certified-type sha256 public signing excess type h =
    let read : from_be16 (type / 256 % 256) (type % 256) ≡ type = omega arith in ap some read

certified-HasCertificate :
    (sha256 : List ℕ → List ℕ) (public signing excess : List ℕ) (type : ℕ)
    → length excess ≤ 384
    → (ext : List ℕ) × HasCertificate (certified sha256 public type signing excess) ext
unfolding certified
certified-HasCertificate sha256 public signing excess type h = (
  be16 type ++ (be16 0 ++ excess),
  certificate public signing _ 5 (be16 type ++ (be16 0 ++ excess)) (omega arith) (omega arith),
)

-- A key that fits its field stands at the field's end, and one that does not goes on in the certificate.
certified-key_short :
    (sha256 : List ℕ → List ℕ) (public pad key : List ℕ) (type : ℕ)
    → public_key_len type ≤ 128
    → length pad ≡ 128 - public_key_len type
    → verifying_key type (certified sha256 public type (pad ++ key) []) ≡ some key
unfolding certified verifying_key
certified-key_short sha256 public pad key type h p =
    rw
      (leb-true (public_key_len type) 128 h, drop-append_left (128 - public_key_len type) pad key p)
      refl

certified-key_long :
    (sha256 : List ℕ → List ℕ) (public key excess : List ℕ) (type : ℕ)
    → 128 < public_key_len type
    → length excess ≡ public_key_len type - 128
    → verifying_key type (certified sha256 public type key excess) ≡ some (key ++ excess)
unfolding certified verifying_key
certified-key_long sha256 public key excess type h e =
    let len = public_key_len type - 128 in
    let fits : leb (4 + len) (length (be16 type ++ (be16 0 ++ excess))) ≡ true =
      ground (arith, e) in
    let whole : take len excess ≡ excess =
      ap (λ (n : ℕ). take n excess) (sym e) ∙ take_all excess in
    rw (leb-false (public_key_len type) 128 h, fits, whole) refl

take_whole : (n : ℕ) (xs : List ℕ) → length xs ≡ n → take n xs ≡ xs
take_whole n xs h = ap (λ (k : ℕ). take k xs) (sym h) ∙ take_all xs

module _ (sha256 : List ℕ → List ℕ) (random : ℕ → List ℕ) (garbage public key : List ℕ) (type : ℕ)
    (supported : type < 8) (has_public : length public ≡ 256)
    (has_key : length key ≡ public_key_len type) (pads : (n : ℕ) → length (random n) ≡ n) where
  certified_short :
      public_key_len type ≤ 128
      → IsMadeOf key type
          (certified sha256 public type (random (128 - public_key_len type) ++ key) [])
  certified_short h =
      let pad = random (128 - public_key_len type) in
      (
        unfold certified in
            (
              has_public,
              omega (arith, length-append pad key, pads (128 - public_key_len type), has_key),
            ),
        certified-HasCertificate sha256 public (pad ++ key) [] type (omega arith),
        certified-type sha256 public (pad ++ key) [] type (omega arith),
        certified-key_short sha256 public pad key type h (pads (128 - public_key_len type)),
      )

  certified_long :
      128 < public_key_len type
      → IsMadeOf key type (
          certified sha256 public type
            (take 128 key)
            (take (public_key_len type - 128) (drop 128 key)))
  certified_long h =
      let first = take 128 key in
      let excess = take (public_key_len type - 128) (drop 128 key) in
      let rest : excess ≡ drop 128 key =
        take_whole (public_key_len type - 128) (drop 128 key)
          (omega (arith, length-drop 128 key, has_key)) in
      let size : length excess ≡ public_key_len type - 128 =
        ap length rest ∙ omega (arith, length-drop 128 key, has_key) in
      (
        unfold certified in (has_public, omega (arith, length-take 128 key, has_key)),
        certified-HasCertificate sha256 public first excess type
            (omega (arith, size, public_key_len_le type)),
        certified-type sha256 public first excess type (omega arith),
        certified-key_long sha256 public first excess type h size
            ∙ ap some (ap (◌++◌ first) rest ∙ take-append-drop 128 key),
      )

  new_identity-uncertified :
      type ≡ 0 → new_identity sha256 random garbage public key type ≡ uncertified sha256 public key
  unfolding new_identity public_key_len
  new_identity-uncertified e =
      let none_needed : (type == 0) ≡ true = ground (arith, e) in
      let size : length key ≡ 128 = has_key ∙ ap public_key_len e in
      rw (none_needed, take_whole 256 public has_public, take_whole 128 key size) refl

  new_identity-short :
      (type == 0) ≡ false
      → public_key_len type ≤ 128
      → new_identity sha256 random garbage public key type
        ≡ certified sha256 public type (random (128 - public_key_len type) ++ key) []
  unfolding new_identity place_key
  new_identity-short e h =
      let known : leb 8 type ≡ false = ground (arith, supported) in
      rw
        (
          e,
          known,
          leb-true (public_key_len type) 128 h,
          take_whole 256 public has_public,
          take_whole (public_key_len type) key has_key,
        )
        refl

  new_identity-long :
      (type == 0) ≡ false
      → 128 < public_key_len type
      → new_identity sha256 random garbage public key type
        ≡ certified sha256 public type
            (take 128 key)
            (take (public_key_len type - 128) (drop 128 key))
  unfolding new_identity place_key
  new_identity-long e h =
      let known : leb 8 type ≡ false = ground (arith, supported) in
      rw (e, known, leb-false (public_key_len type) 128 h, take_whole 256 public has_public) refl

  -- An identity that is made of a public key and of a signing key of a supported type, with the sizes that
  -- these have, has keys and a certificate that can be written and read back; it is of that type; and
  -- its verifier gets the whole signing key, also where a part of the key stands in the certificate.
  pub new_identity-IsMadeOf :
      HasKeys (new_identity sha256 random garbage public key type)
      × ((ext : List ℕ) × HasCertificate (new_identity sha256 random garbage public key type) ext)
      × (signing_key_type (new_identity sha256 random garbage public key type) ≡ some type)
      × (verifying_key type (new_identity sha256 random garbage public key type) ≡ some key)
  unfolding public_key_len
  new_identity-IsMadeOf = elim (Bool-cases (type == 0)) [
    | inl e ↦
        let zeroth : type ≡ 0 = ground (arith, e) in
        subst (IsMadeOf key type) (sym (new_identity-uncertified zeroth)) (
          subst (λ n. IsMadeOf key n (uncertified sha256 public key)) (sym zeroth)
            (uncertified-IsMadeOf sha256 public key has_public
              (has_key ∙ ap public_key_len zeroth)))
    | inr e ↦ elim (Bool-cases (leb (public_key_len type) 128)) [
      | inl f ↦
          let h = leb_le (public_key_len type) 128 f in
          subst (IsMadeOf key type) (sym (new_identity-short e h)) (certified_short h)
      | inr f ↦
          let h = leb_lt (public_key_len type) 128 f in
          subst (IsMadeOf key type) (sym (new_identity-long e h)) (certified_long h)
    ]
  ]
