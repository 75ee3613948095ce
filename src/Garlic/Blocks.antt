-- ===== src/Garlic/Blocks.antt =====
-- core/Garlic.cpp: an AES block is read as it was made, and brings its tags to the receiver.
use i2pd.Prelude.{
  ltb-false, ℕ, ◌+◌, ◌-◌, ◌*◌, ◌/◌, ◌%◌, ◌^◌, ◌≤◌, ◌<◌, ◌≡◌, refl, ap, ◌∙◌, Bool, false, List, [],
  ◌∷◌, ◌++◌, append_assoc, append-nil, Option, none, some, ltb, arith, length, replicate,
  length-append, take_all, drop_all, length-replicate,
}
use i2pd.Prelude.Chain.{and_then-some}
use i2pd.Prelude.Bytes.{be16, be32, from_be32-be32, same_bytes_refl}
use i2pd.I2np.Header.{from_be16-be16}
use i2pd.Garlic.{Crypto, encrypt, decrypt, SessionTag, UnconfirmedTags}
use i2pd.Garlic.Receive.{
  Receiver, Delivery, put_tags, read_be16, read_be32, read_byte, handle_garlic_payload,
}
use i2pd.Garlic.Incoming.{verify_payload, handle_block, handle_aes_block}
use i2pd.Garlic.Wrap.{bytes_of}
use i2pd.Garlic.Single.{tag_bytes, plain_block}
use i2pd.Garlic.Cloves.{read-append}

-- What is asked of the library: hashes of 32 bytes, and that whole blocks are decrypted as they were.
pub record IsSound (c : Crypto) : Type 0 where
  pub hashes : (bytes : List ℕ) → length (c.sha256 bytes) ≡ 32
  pub decrypts :
      (key iv bytes : List ℕ)
      → length bytes % 16 ≡ 0
      → c.cbc_decrypt key iv (c.cbc_encrypt key iv bytes) ≡ bytes
  pub keeps_length :
      (key iv bytes : List ℕ)
      → length bytes % 16 ≡ 0
      → length (c.cbc_encrypt key iv bytes) ≡ length bytes

-- The tags are of 32 bytes.
abbrev pub AreTags : List SessionTag → Type 0
AreTags [] = Unit
AreTags (t ∷ ts) = (length t.tag ≡ 32) × AreTags ts

length-bytes_of : (ts : List SessionTag) → AreTags ts → length (bytes_of ts) ≡ length ts * 32
length-bytes_of [] h = omega arith
length-bytes_of (t ∷ ts) (h, hs) =
    omega (arith, length-append (t.tag) (bytes_of ts), length-bytes_of ts hs)

abbrev pub tags_in : Option UnconfirmedTags → List SessionTag
tags_in none = []
tags_in (some tags) = tags.session_tags

tag_bytes_lem :
    (o : Option UnconfirmedTags) → tag_bytes o ≡ be16 (length (tags_in o)) ++ bytes_of (tags_in o)
unfolding tag_bytes
tag_bytes_lem none = refl
tag_bytes_lem (some tags) = refl

module _ (c : Crypto) (sound : IsSound c) where
  whole_blocks : (n : ℕ) → n % 16 ≡ 0 → n / 16 * 16 ≡ n
  whole_blocks n h = omega arith

  encrypt-whole :
      (key iv bytes : List ℕ)
      → length bytes % 16 ≡ 0
      → encrypt c key iv bytes ≡ c.cbc_encrypt key iv bytes
  unfolding encrypt
  encrypt-whole key iv bytes h =
      rw (whole_blocks (length bytes) h, take_all bytes, drop_all bytes)
        (append-nil (c.cbc_encrypt key iv bytes))

  pub length-encrypt :
      (key iv bytes : List ℕ)
      → length bytes % 16 ≡ 0
      → length (encrypt c key iv bytes) ≡ length bytes
  length-encrypt key iv bytes h =
      ap length (encrypt-whole key iv bytes h) ∙ sound.keeps_length key iv bytes h

  pub decrypt-encrypt :
      (key iv bytes : List ℕ)
      → length bytes % 16 ≡ 0
      → decrypt c key iv (encrypt c key iv bytes) ≡ bytes
  unfolding decrypt
  decrypt-encrypt key iv bytes h =
      let coded = c.cbc_encrypt key iv bytes in
      let whole : length coded / 16 * 16 ≡ length coded =
        whole_blocks (length coded) (omega (arith, sound.keeps_length key iv bytes h)) in
      rw
        (
          encrypt-whole key iv bytes h,
          whole,
          take_all coded,
          drop_all coded,
          append-nil (c.cbc_decrypt key iv coded),
        )
        (sound.decrypts key iv bytes h)

  pub length-plain_block :
      (o : Option UnconfirmedTags) (payload : List ℕ) → length (plain_block c o payload) % 16 ≡ 0
  unfolding plain_block
  length-plain_block o payload =
      let block = tag_bytes o ++ (be32 (length payload) ++ (c.sha256 payload ++ (0 ∷ payload))) in
      omega (
        arith,
        length-append block (replicate ((16 - length block % 16) % 16) 0),
        length-replicate {A = ℕ} ((16 - length block % 16) % 16) 0,
      )

  pub plain_block-size :
      (o : Option UnconfirmedTags) (payload : List ℕ)
      → AreTags (tags_in o)
      → (39 + length (tags_in o) * 32 + length payload ≤ length (plain_block c o payload))
        × (length (plain_block c o payload) ≤ 54 + length (tags_in o) * 32 + length payload)
  unfolding plain_block
  plain_block-size o payload are =
      let ts = tags_in o in
      let hashed = c.sha256 payload ++ (0 ∷ payload) in
      let block = tag_bytes o ++ (be32 (length payload) ++ hashed) in
      let pad = length-replicate {A = ℕ} ((16 - length block % 16) % 16) 0 in
      let padded = length-append block (replicate ((16 - length block % 16) % 16) 0) in
      let tags : length (tag_bytes o) ≡ 2 + length ts * 32 =
        ap length (tag_bytes_lem o)
        ∙ omega (arith, length-append (be16 (length ts)) (bytes_of ts), length-bytes_of ts are) in
      let whole : length block ≡ 39 + length ts * 32 + length payload = omega (
        arith,
        length-append (tag_bytes o) (be32 (length payload) ++ hashed),
        length-append (be32 (length payload)) hashed,
        length-append (c.sha256 payload) (0 ∷ payload),
        sound.hashes payload,
        tags,
      ) in
      (omega (arith, padded, pad, whole), omega (arith, padded, pad, whole))

  -- A payload of the announced size and hash is handled.
  verify_payload-plain :
      (outbound : Bool) (payload rest : List ℕ)
      → verify_payload c outbound (length payload) (c.sha256 payload) (0 ∷ (payload ++ rest))
        ≡ handle_garlic_payload outbound (length payload) (payload ++ rest)
  unfolding verify_payload read_byte
  verify_payload-plain outbound payload rest = and_then-some _ refl (
      and_then-some _ (read-append payload rest (length payload) refl)
        (rw (same_bytes_refl (c.sha256 payload)) refl))

  handle_block-plain :
      (outbound : Bool) (len : ℕ) (payload rest : List ℕ)
      → length payload ≤ len
      → length payload < 2 ^ 32
      → handle_block c outbound len
          (be32 (length payload) ++ (c.sha256 payload ++ (0 ∷ (payload ++ rest))))
        ≡ handle_garlic_payload outbound (length payload) (payload ++ rest)
  unfolding handle_block read_be32
  handle_block-plain outbound len payload rest fits small =
      let size : ltb len (length payload) ≡ false = ground arith in
      and_then-some _ refl (
        rw (from_be32-be32 (length payload) small, size)
          (and_then-some _
            (read-append (c.sha256 payload) (0 ∷ (payload ++ rest)) 32 (sound.hashes payload))
            (verify_payload-plain outbound payload rest)))

  -- What is behind the payload: the zeros that fill the block, and the memory behind that.
  abbrev pub behind_payload : Option UnconfirmedTags → List ℕ → List ℕ → List ℕ
  behind_payload o payload memory =
      let block = tag_bytes o ++ (be32 (length payload) ++ (c.sha256 payload ++ (0 ∷ payload))) in
      replicate ((16 - length block % 16) % 16) 0 ++ memory

  -- The block as its parts, with the memory behind it.
  plain_block-parts :
      (o : Option UnconfirmedTags) (payload memory : List ℕ)
      → plain_block c o payload ++ memory
        ≡ be16 (length (tags_in o))
          ++ (bytes_of (tags_in o)
              ++ (be32 (length payload)
                  ++ (c.sha256 payload ++ (0 ∷ (payload ++ behind_payload o payload memory)))))
  unfolding plain_block
  plain_block-parts o payload memory =
      let ts = tags_in o in
      let hashed = c.sha256 payload ++ (0 ∷ payload) in
      let block = tag_bytes o ++ (be32 (length payload) ++ hashed) in
      let pad : List ℕ = replicate ((16 - length block % 16) % 16) 0 in
      append_assoc block pad memory
      ∙ append_assoc (tag_bytes o) (be32 (length payload) ++ hashed) (pad ++ memory)
      ∙ ap (λ (b : List ℕ). b ++ (be32 (length payload) ++ (hashed ++ (pad ++ memory))))
          (tag_bytes_lem o)
      ∙ ap (λ (b : List ℕ). be16 (length ts) ++ (bytes_of ts ++ (be32 (length payload) ++ b)))
          (append_assoc (c.sha256 payload) (0 ∷ payload) (pad ++ memory))

  -- `HandleAESBlock` of a block that was made from tags and a payload.
  pub handle_aes_block-plain :
      (outbound : Bool) (now : ℕ) (key : List ℕ) (o : Option UnconfirmedTags)
      (payload memory : List ℕ) (r : Receiver) (done : List Delivery)
      → AreTags (tags_in o)
      → length (tags_in o) < 2 ^ 16
      → length payload < 2 ^ 32
      → handle_garlic_payload outbound (length payload) (payload ++ behind_payload o payload memory)
        ≡ some done
      → handle_aes_block c outbound now key
          (length (plain_block c o payload))
          (plain_block c o payload ++ memory)
          r
        ≡ some (
          record r { tags = put_tags now key (length (tags_in o)) (bytes_of (tags_in o)) r.tags },
          done,
        )
  unfolding handle_aes_block read_be16
  handle_aes_block-plain outbound now key o payload memory r done tags count small handled =
      let ts = tags_in o in
      let rest = behind_payload o payload memory in
      let behind = be32 (length payload) ++ (c.sha256 payload ++ (0 ∷ (payload ++ rest))) in
      let len = length (plain_block c o payload) in
      let left = (len + 2 ^ 64 - 2) % 2 ^ 64 in
      let size = plain_block-size o payload tags in
      let short : left ≡ len - 2 = omega (arith, size.0, size.1, small, count) in
      let fits : ltb left (length ts * 32) ≡ false =
        ltb-false left (length ts * 32) (omega (arith, short, size.0)) in
      let known = record r { tags = put_tags now key (length ts) (bytes_of ts) r.tags } in
      ap (λ (b : List ℕ). handle_aes_block c outbound now key len b r)
        (plain_block-parts o payload memory)
      ∙ and_then-some _ refl (
          rw (from_be16-be16 (length ts) count, fits)
            (and_then-some _
              (read-append (bytes_of ts) behind (length ts * 32) (length-bytes_of ts tags))
              (and_then-some _
                (handle_block-plain outbound (left - length ts * 32) payload (rest)
                    (omega (arith, short, size.0)) small
                  ∙ handled)
                refl)))
