-- ===== src/Garlic/Incoming.antt =====
-- core/Garlic.cpp: the decryption of garlic messages, and the tags that they bring.
use i2pd.Prelude.{
  ℕ, ◌+◌, ◌-◌, ◌*◌, ◌%◌, ◌^◌, Bool, List, [], ◌∷◌, ◌++◌, Option, none, some, ltb, leb, ◌==◌,
  if◌then◌else◌, length, take, drop,
}
use i2pd.Prelude.Chain.{and_then}
use i2pd.Prelude.Bytes.{same_bytes}
use i2pd.Prelude.Dict.{Dict, find, remove}
use i2pd.Garlic.{Crypto, decrypt, add32, incoming_tags_expiration_timeout}
use i2pd.Garlic.Receive.{
  Receiver, Delivery, put_tags, read, read_be16, read_be32, read_byte, handle_garlic_payload,
}

module _ (c : Crypto) (outbound : Bool) where
  -- The payload of the given size and hash; `bytes` is the memory from the flag on.
  unfoldable pub verify_payload : ℕ → List ℕ → List ℕ → Option (List Delivery)
  verify_payload size hash bytes = and_then (read_byte bytes) (λ flag.
      let payload = if flag.0 == 0 then flag.1 else drop 32 flag.1 in
      and_then (read size payload) (λ whole.
        if same_bytes (c.sha256 (whole.0)) hash
        then handle_garlic_payload outbound size payload
        else some []))

  -- The block behind the tags; `len` is what the code takes for the length of `bytes`.
  unfoldable pub handle_block : ℕ → List ℕ → Option (List Delivery)
  handle_block len bytes = and_then (read_be32 bytes) (λ size.
      if ltb len size.0
      then some []
      else and_then (read 32 size.1) (λ hash. verify_payload size.0 hash.0 hash.1))

module _ (c : Crypto) (outbound : Bool) (now : ℕ) where
  -- `HandleAESBlock`
  unfoldable pub handle_aes_block :
      List ℕ → ℕ → List ℕ → Receiver → Option (Receiver × List Delivery)
  handle_aes_block key len bytes r = and_then (read_be16 bytes) (λ count.
      let left = (len + 2 ^ 64 - 2) % 2 ^ 64 in
      if ltb left (count.0 * 32)
      then some (r, [])
      else and_then (read (count.0 * 32) count.1) (λ tags.
        let known = record r { tags = put_tags now key count.0 tags.0 r.tags } in
        and_then (handle_block c outbound (left - count.0 * 32) tags.1)
          (λ done. some (known, done))))

  -- The decryption in place of what is behind the tag or the ElGamal block, and its handling.
  unfoldable pub open_block :
      ℕ → List ℕ → List ℕ → ℕ → List ℕ → Receiver → Option (Receiver × List Delivery)
  open_block head key digest length bytes r =
      and_then (read (length - head) (drop head bytes)) (λ block.
        handle_aes_block key (length - head) (decrypt c key (take 16 digest) block.0 ++ block.1) r)

  -- A message under a known tag, which is forgotten.
  unfoldable pub handle_tagged :
      List ℕ → ℕ → List ℕ → List ℕ → Receiver → Option (Receiver × List Delivery)
  handle_tagged key length tag bytes r =
      and_then
        (if leb 32 length then open_block 32 key (c.sha256 tag) length bytes r else some (r, []))
        (λ done. some (record done.0 { tags = remove tag (done.0).tags }, done.1))

  -- A message behind an ElGamal block that is decrypted, or not.
  unfoldable pub handle_elgamal :
      ℕ → List ℕ → Option (List ℕ) → Receiver → Option (Receiver × List Delivery)
  handle_elgamal length bytes none r = some (r, [])
  handle_elgamal length bytes (some block) r =
      open_block 514 (take 32 block) (c.sha256 (take 32 (drop 32 block))) length bytes r

  unfoldable pub handle_untagged :
      List ℕ → ℕ → List ℕ → Receiver → Option (Receiver × List Delivery)
  handle_untagged private length bytes r =
      if ltb length 514
      then some (r, [])
      else and_then (read 514 bytes)
          (λ block. handle_elgamal length bytes (c.elgamal_decrypt private block.0) r)

  unfoldable pub handle_by_tag :
      List ℕ
      → Option (ℕ × List ℕ)
      → ℕ
      → List ℕ
      → List ℕ
      → Receiver
      → Option (Receiver × List Delivery)
  handle_by_tag private none length tag bytes r = handle_untagged private length bytes r
  handle_by_tag private (some (since, key)) length tag bytes r =
      handle_tagged key length tag bytes r

unfoldable pub keep_incoming : ℕ → Dict (ℕ × List ℕ) → Dict (ℕ × List ℕ)
keep_incoming now [] = []
keep_incoming now ((tag, (since, key)) ∷ rest) =
    let kept = keep_incoming now rest in
    if ltb (add32 since incoming_tags_expiration_timeout) now
    then kept
    else (tag, (since, key)) ∷ kept

-- The cleanup at the end of `HandleGarlicMessage`, at most once in a tag's time.
unfoldable pub cleanup_tags : ℕ → Receiver → Receiver
cleanup_tags now r =
    if ltb (add32 r.last_tags_cleanup_time incoming_tags_expiration_timeout) now
    then record {
      tags = if r.last_tags_cleanup_time == 0 then r.tags else keep_incoming now r.tags;
      last_tags_cleanup_time = now;
    }
    else r

-- `HandleGarlicMessage`: `get_length` is the message's `GetLength ()`, its header included, and `bytes` the
-- memory from `GetPayload ()` on.
unfoldable pub handle_garlic_message :
    Crypto → List ℕ → Bool → ℕ → ℕ → List ℕ → Receiver → Option (Receiver × List Delivery)
handle_garlic_message c private outbound now get_length bytes r =
    and_then (read_be32 bytes) (λ length.
      if ltb get_length length.0
      then some (r, [])
      else and_then (read 32 length.1) (λ tag.
        and_then
          (handle_by_tag c outbound now private (find tag.0 r.tags) length.0 tag.0 length.1 r)
          (λ done. some (cleanup_tags now done.0, done.1))))
