-- ===== src/Identity/Private.antt =====
-- core/Identity.cpp: private keys are read as they are written.
use i2pd.Prelude.{
  ℕ, ◌+◌, ◌≡◌, refl, ap, ◌∙◌, List, ◌++◌, append_assoc, some, length, arith, length-append,
  take-append_left, drop-append_left, leb-true,
}
use i2pd.Identity.{
  IdentityEx, Extended, full_len, standard_bytes, signing_key_type, from_buffer, delete_buffer,
}
use i2pd.Identity.Keys.{
  PrivateKeys, private_key_len, read_private, keys_from_buffer, with_keys, keys_to_buffer,
}
use i2pd.Identity.RoundTrip.{
  HasCertificate, HasKeys, from_buffer-to_buffer, to_buffer-bytes, length-standard_bytes,
  extended_len_lem,
}

module _ (k : PrivateKeys) (ext tail : List ℕ) (type : ℕ) (has : HasCertificate k.public ext)
    (keys : HasKeys k.public) (size : length k.private_key ≡ 256)
    (has_type : signing_key_type k.public ≡ some type)
    (signing : length k.signing_private_key ≡ private_key_len type) where
  public_bytes : List ℕ
  public_bytes = standard_bytes k.public ++ ext

  length-public_bytes : length public_bytes ≡ full_len k.public
  unfolding public_bytes
  length-public_bytes = omega (
    arith,
    length-standard_bytes k.public keys,
    length-append (standard_bytes k.public) ext,
    extended_len_lem k.public ext has,
  )

  rehashed_type :
      (hash : List ℕ) → signing_key_type (record k.public { ident_hash = hash }) ≡ some type
  unfolding signing_key_type
  rehashed_type hash = has_type

  read_private-bytes :
      (hash : List ℕ)
      → read_private
          (public_bytes ++ (k.private_key ++ (k.signing_private_key ++ tail)))
          (some (full_len k.public, record k.public { ident_hash = hash }))
        ≡ some (
          full_len k.public + 256 + private_key_len type,
          record k { public = record k.public { ident_hash = hash } },
        )
  unfolding read_private
  read_private-bytes hash =
      let i : IdentityEx = record k.public { ident_hash = hash } in
      let private = k.private_key in
      let rest = k.signing_private_key ++ tail in
      let behind =
        drop-append_left (full_len k.public) public_bytes (private ++ rest) length-public_bytes in
      let long =
        leb-true 256 (length (private ++ rest)) (omega (arith, length-append private rest, size)) in
      let enough =
        leb-true (private_key_len type) (length rest)
          (omega (arith, length-append k.signing_private_key tail, signing)) in
      rw
        (
          behind,
          long,
          take-append_left 256 private rest size,
          drop-append_left 256 private rest size,
          rehashed_type hash,
          enough,
          take-append_left (private_key_len type) k.signing_private_key tail signing,
        )
        refl

  -- The bytes that `PrivateKeys::ToBuffer` writes for keys of the sizes that their type has, whatever stands behind
  -- them, are read by `FromBuffer` as just those keys, with the hash of the public part; their number is
  -- returned.
  pub keys_from_buffer-keys_to_buffer :
      (sha256 : List ℕ → List ℕ) (j : PrivateKeys) (left : Extended)
      → delete_buffer j.public.extended ≡ some left
      → (bytes : List ℕ) × (keys_to_buffer k ≡ some bytes)
        × (keys_from_buffer sha256 (bytes ++ tail) j
            ≡ some (
              length bytes,
              record k {
                public = record k.public { ident_hash = sha256 (standard_bytes k.public ++ ext) };
              },
            ))
  unfolding keys_from_buffer keys_to_buffer public_bytes
  keys_from_buffer-keys_to_buffer sha256 j left e =
      let secret = k.private_key ++ k.signing_private_key in
      let bytes = public_bytes ++ secret in
      let split : bytes ++ tail
          ≡ public_bytes ++ (k.private_key ++ (k.signing_private_key ++ tail)) =
        append_assoc public_bytes secret tail
        ∙ ap (◌++◌ public_bytes) (append_assoc k.private_key k.signing_private_key tail) in
      let rest = k.private_key ++ (k.signing_private_key ++ tail) in
      let read =
        ap (λ (x : List ℕ). from_buffer sha256 x j.public)
          (append_assoc (standard_bytes k.public) ext rest)
        ∙ (from_buffer-to_buffer sha256 k.public ext rest has keys j.public left e).1 in
      let count : full_len k.public + 256 + private_key_len type ≡ length bytes = omega (
        arith,
        length-public_bytes,
        length-append public_bytes secret,
        length-append k.private_key k.signing_private_key,
        size,
        signing,
      ) in
      let hash = sha256 (standard_bytes k.public ++ ext) in
      (
        bytes,
        ap (with_keys k) (to_buffer-bytes k.public ext has),
        ap (λ (x : List ℕ). read_private x (from_buffer sha256 x j.public)) split
            ∙ ap (read_private (public_bytes ++ rest)) read
            ∙ read_private-bytes hash
            ∙ ap (λ (n : ℕ). some (n, record k { public = record k.public { ident_hash = hash } }))
                count,
      )
