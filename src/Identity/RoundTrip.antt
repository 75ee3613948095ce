-- ===== src/Identity/RoundTrip.antt =====
-- core/Identity.cpp: what `ToBuffer` writes is what `FromBuffer` reads.
use i2pd.Prelude.{
  ℕ, ◌+◌, ◌^◌, ◌/◌, ◌%◌, ◌≤◌, ◌<◌, ◌≡◌, refl, sym, ap, ◌∙◌, true, false, List, [], ◌∷◌, ◌++◌,
  append_assoc, append-nil, none, some, ltb, leb, ◌==◌, length, get_or, take, drop, arith,
  length-append, take-append_left, drop-append_left, get_or-append, take_all,
}
use i2pd.Prelude.Bytes.{be16, from_be16}
use i2pd.Identity.{
  IdentityEx, Extended, null_buffer, deleted, buffer_of, default_identity_size, full_len,
  copy_standard, read_extended, delete_buffer, from_buffer, to_buffer, standard_bytes,
}

-- The certificate of an identity, as the constructors and a successful read leave it: none, or one whose bytes
-- are in the extended buffer.
pub data HasCertificate : IdentityEx → List ℕ → Type 0 where
  no_certificate :
      (public signing hash : List ℕ) (type : ℕ)
      → HasCertificate
          (record {
            public_key = public;
            signing_key = signing;
            cert_type = type;
            cert_length = 0;
            ident_hash = hash;
            extended_len = 0;
            extended = null_buffer;
          })
          []
  certificate :
      (public signing hash : List ℕ) (type : ℕ) (bytes : List ℕ)
      → 0 < length bytes
      → length bytes < 2 ^ 16
      → HasCertificate
          (record {
            public_key = public;
            signing_key = signing;
            cert_type = type;
            cert_length = length bytes;
            ident_hash = hash;
            extended_len = length bytes;
            extended = buffer_of bytes;
          })
          bytes

abbrev pub HasKeys : IdentityEx → Type 0
HasKeys i = (length i.public_key ≡ 256) × (length i.signing_key ≡ 128)

standard_bytes_lem :
    (i : IdentityEx) (tail : List ℕ)
    → standard_bytes i ++ tail
      ≡ i.public_key ++ (i.signing_key ++ (i.cert_type ∷ (be16 i.cert_length ++ tail)))
standard_bytes_lem i tail =
    append_assoc i.public_key (i.signing_key ++ (i.cert_type ∷ be16 i.cert_length)) tail
    ∙ ap (◌++◌ i.public_key) (append_assoc i.signing_key (i.cert_type ∷ be16 i.cert_length) tail)

pub length-standard_bytes : (i : IdentityEx) → HasKeys i → length (standard_bytes i) ≡ 387
length-standard_bytes i (a, b) = omega (
  arith,
  length-append i.public_key (i.signing_key ++ (i.cert_type ∷ be16 i.cert_length)),
  length-append i.signing_key (i.cert_type ∷ be16 i.cert_length),
)

module _ (i : IdentityEx) (tail : List ℕ) (keys : HasKeys i) where
  behind_keys : List ℕ
  behind_keys = i.cert_type ∷ (be16 i.cert_length ++ tail)

  get_or-behind_keys :
      (k : ℕ)
      → get_or (i.public_key ++ (i.signing_key ++ behind_keys)) (384 + k) 0 ≡ get_or behind_keys k 0
  get_or-behind_keys k =
      let place : 384 + k ≡ length i.public_key + (length i.signing_key + k) = omega arith in
      ap (λ (n : ℕ). get_or (i.public_key ++ (i.signing_key ++ behind_keys)) n 0) place
      ∙ get_or-append i.public_key (i.signing_key ++ behind_keys) (length i.signing_key + k) 0
      ∙ get_or-append i.signing_key behind_keys k 0

  -- The standard identity is read as it is written.
  copy_standard-standard_bytes :
      (j : IdentityEx)
      → i.cert_length < 2 ^ 16
      → copy_standard (standard_bytes i ++ tail) j ≡ record j {
        public_key = i.public_key;
        signing_key = i.signing_key;
        cert_type = i.cert_type;
        cert_length = i.cert_length;
      }
  unfolding copy_standard behind_keys
  copy_standard-standard_bytes j h =
      let rest = i.signing_key ++ behind_keys in
      let size : from_be16 (i.cert_length / 256 % 256) (i.cert_length % 256) ≡ i.cert_length =
        omega arith in
      rw
        (
          standard_bytes_lem i tail,
          take-append_left 256 i.public_key rest keys.0,
          drop-append_left 256 i.public_key rest keys.0,
          take-append_left 128 i.signing_key behind_keys keys.1,
          get_or-behind_keys 0,
          get_or-behind_keys 1,
          get_or-behind_keys 2,
        )
        (ap
          (λ (n : ℕ). record i {
            cert_length = n;
            ident_hash = j.ident_hash;
            extended_len = j.extended_len;
            extended = j.extended;
          })
          size)

pub to_buffer-bytes :
    (i : IdentityEx) (bytes : List ℕ)
    → HasCertificate i bytes
    → to_buffer i ≡ some (standard_bytes i ++ bytes)
unfolding to_buffer
to_buffer-bytes i bytes (no_certificate p s hash type) = refl
to_buffer-bytes i cert (certificate p s hash type bytes pos small) =
    let some_bytes : (length bytes == 0) ≡ false = ground (arith, pos) in
    rw (some_bytes, take_all bytes) refl

cert_length_lt : (i : IdentityEx) (bytes : List ℕ) → HasCertificate i bytes → i.cert_length < 2 ^ 16
cert_length_lt i bytes (no_certificate p s hash type) = omega arith
cert_length_lt i cert (certificate p s hash type bytes pos small) = small

pub extended_len_lem :
    (i : IdentityEx) (bytes : List ℕ) → HasCertificate i bytes → i.extended_len ≡ length bytes
extended_len_lem i bytes (no_certificate p s hash type) = refl
extended_len_lem i cert (certificate p s hash type bytes pos small) = refl

module _ (sha256 : List ℕ → List ℕ) where
  from_buffer_lem :
      (buf : List ℕ) (j : IdentityEx) (left : Extended)
      → 387 ≤ length buf
      → delete_buffer j.extended ≡ some left
      → from_buffer sha256 buf j ≡ some (read_extended sha256 buf left (copy_standard buf j))
  unfolding from_buffer
  from_buffer_lem buf j left h e =
      let long : ltb (length buf) default_identity_size ≡ false = ground (arith, h) in
      rw (long, e) refl

  -- What an identity is once it is read, for what was read behind the standard identity.
  read_extended-bytes :
      (i : IdentityEx) (bytes tail : List ℕ) (left : Extended)
      → HasCertificate i bytes
      → HasKeys i
      → (j : IdentityEx)
      → read_extended sha256 (standard_bytes i ++ (bytes ++ tail)) left (record j {
        public_key = i.public_key;
        signing_key = i.signing_key;
        cert_type = i.cert_type;
        cert_length = i.cert_length;
      })
        ≡ (full_len i, record i { ident_hash = sha256 (standard_bytes i ++ bytes) })
  unfolding read_extended
  read_extended-bytes i bytes tail left (no_certificate p s hash type) keys j =
      let std = standard_bytes i in
      rw (take-append_left 387 std tail (length-standard_bytes i keys), append-nil std) refl
  read_extended-bytes i cert tail left (certificate p s hash type bytes pos small) keys j =
      let std = standard_bytes i in
      let size = length-standard_bytes i keys in
      let whole : std ++ (bytes ++ tail) ≡ (std ++ bytes) ++ tail =
        sym (append_assoc std bytes tail) in
      let some_bytes : (length bytes == 0) ≡ false = ground (arith, pos) in
      let fits : leb (length bytes + 387) (length (std ++ (bytes ++ tail))) ≡ true =
        ground (arith, size, length-append std (bytes ++ tail), length-append bytes tail) in
      let all : take (length bytes + 387) (std ++ (bytes ++ tail)) ≡ std ++ bytes =
        ap (take (length bytes + 387)) whole
        ∙ take-append_left (length bytes + 387) (std ++ bytes) tail
            (omega (arith, size, length-append std bytes)) in
      let extra : take (length bytes) (drop 387 (std ++ (bytes ++ tail))) ≡ bytes =
        ap (take (length bytes)) (drop-append_left 387 std (bytes ++ tail) size)
        ∙ take-append_left (length bytes) bytes tail refl in
      rw (some_bytes, fits, all, extra) refl

  -- The bytes that `ToBuffer` writes for an identity, whatever stands behind them in the buffer, are read by
  -- `FromBuffer` of any identity whose buffer was not deleted as just that identity, with the hash of those bytes;
  -- and just their number is returned.
  pub from_buffer-to_buffer :
      (i : IdentityEx) (bytes tail : List ℕ)
      → HasCertificate i bytes
      → HasKeys i
      → (j : IdentityEx) (left : Extended) → delete_buffer j.extended ≡ some left
      → (to_buffer i ≡ some (standard_bytes i ++ bytes))
        × (from_buffer sha256 (standard_bytes i ++ (bytes ++ tail)) j
            ≡ some (full_len i, record i { ident_hash = sha256 (standard_bytes i ++ bytes) }))
  from_buffer-to_buffer i bytes tail c keys j left e =
      let buf = standard_bytes i ++ (bytes ++ tail) in
      let long : 387 ≤ length buf =
        omega
          (arith, length-standard_bytes i keys, length-append (standard_bytes i) (bytes ++ tail)) in
      (
        to_buffer-bytes i bytes c,
        from_buffer_lem buf j left long e
            ∙ ap (λ x. some (read_extended sha256 buf left x))
                (copy_standard-standard_bytes i (bytes ++ tail) keys j (cert_length_lt i bytes c))
            ∙ ap some (read_extended-bytes i bytes tail left c keys j),
      )

  read_extended-short :
      (buf : List ℕ) (left : Extended) (i : IdentityEx)
      → 387 ≤ length buf
      → length buf < i.cert_length + 387
      → read_extended sha256 buf left i
        ≡ (0, record i { extended_len = i.cert_length; extended = left })
  unfolding read_extended
  read_extended-short buf left i long short =
      let certified : (i.cert_length == 0) ≡ false = ground (arith, long, short) in
      let refused : leb (i.cert_length + 387) (length buf) ≡ false = ground (arith, short) in
      rw (certified, refused) refl

  from_buffer-deleted :
      (buf : List ℕ) (j : IdentityEx)
      → 387 ≤ length buf
      → delete_buffer j.extended ≡ none
      → from_buffer sha256 buf j ≡ none
  unfolding from_buffer
  from_buffer-deleted buf j h e =
      let long : ltb (length buf) default_identity_size ≡ false = ground (arith, h) in
      rw (long, e) refl

  -- An identity with a certificate, whose `FromBuffer` gets a buffer of an identity with a certificate that
  -- is longer than the buffer, is refused and keeps a deleted buffer: the next read of an identity of any
  -- content deletes it once more.
  pub from_buffer-twice :
      (bytes buf : List ℕ) (j : IdentityEx)
      → j.extended ≡ buffer_of bytes
      → 387 ≤ length buf
      → length buf < (copy_standard buf j).cert_length + 387
      → (k : IdentityEx) × (from_buffer sha256 buf j ≡ some (0, k))
        × ((other : List ℕ) → 387 ≤ length other → from_buffer sha256 other k ≡ none)
  unfolding delete_buffer
  from_buffer-twice bytes buf j e long short =
      let i = copy_standard buf j in
      let k : IdentityEx = record i { extended_len = i.cert_length; extended = deleted } in
      (
        k,
        from_buffer_lem buf j deleted long (ap delete_buffer e)
            ∙ ap some (read_extended-short buf deleted i long short),
        λ (other : List ℕ) (h : 387 ≤ length other). from_buffer-deleted other k h refl,
      )
