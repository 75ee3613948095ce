-- ===== src/Garlic/Exchange.antt =====
-- core/Garlic.cpp: what a session wraps, a destination that knows the tag or has the private key unwraps.
use i2pd.Prelude.{
  ℕ, zero, suc, ◌+◌, ◌-◌, ◌%◌, ◌^◌, ◌≤◌, ◌<◌, ◌≡◌, refl, ap, ◌∙◌, Bool, List, [], ◌∷◌, ◌++◌,
  append_assoc, Option, some, map, arith, length, take, drop, All, length-append, drop-append_left,
  ltb-false, Bool-cases, inl, inr,
}
use i2pd.Prelude.Chain.{and_then-some}
use i2pd.Prelude.Bytes.{be32, from_be32-be32}
use i2pd.Prelude.Dict.{find}
use i2pd.Garlic.{Crypto, encrypt, SessionTag, RoutingSession}
use i2pd.Garlic.Session.{generate_tags, generate_session_tags}
use i2pd.Garlic.Receive.{Receiver, Delivery, put_tags, read, read_be32, handle_garlic_payload}
use i2pd.Garlic.Incoming.{
  handle_aes_block, open_block, handle_by_tag, cleanup_tags, handle_garlic_message,
}
use i2pd.Garlic.Wrap.{Clock, Draws, OwnerCall, bytes_of, payload_bytes}
use i2pd.Garlic.Single.{plain_block, creates_tags, fresh_tags, create_garlic_payload}
use i2pd.Garlic.Cloves.{Clove, clove_bytes, IsClove, arrival, arrivals, all_bytes, read-append}
use i2pd.Garlic.Blocks.{
  IsSound, AreTags, tags_in, decrypt-encrypt, length-encrypt, plain_block-size, behind_payload,
  handle_aes_block-plain,
}
use i2pd.Garlic.Payload.{
  sender_cloves, with_bytes, create_garlic_payload-cloves, length-payload_bytes,
  handle_garlic_payload-bytes,
}

module _ (c : Crypto) (sound : IsSound c) (outbound : Bool) (now : ℕ) where
  -- What is encrypted behind a head is decrypted behind it.
  pub open_block-encrypt :
      (key digest head plain memory : List ℕ) (r : Receiver)
      → length plain % 16 ≡ 0
      → let body = head ++ encrypt c key (take 16 digest) plain in
        open_block c outbound now (length head) key digest (length body) (body ++ memory) r
        ≡ handle_aes_block c outbound now key (length plain) (plain ++ memory) r
  unfolding open_block
  open_block-encrypt key digest head plain memory r whole =
      let coded = encrypt c key (take 16 digest) plain in
      let size = length-encrypt c sound key (take 16 digest) plain whole in
      let left : length (head ++ coded) - length head ≡ length plain =
        omega (arith, length-append head coded, size) in
      let behind : drop (length head) ((head ++ coded) ++ memory) ≡ coded ++ memory =
        ap (drop (length head)) (append_assoc head coded memory)
        ∙ drop-append_left (length head) head (coded ++ memory) refl in
      rw (left, behind)
        (and_then-some _ (read-append coded memory (length plain) size)
          (rw (decrypt-encrypt c sound key (take 16 digest) plain whole) refl))

  -- The head of the handler: the length, and the first 32 bytes as a tag.
  pub handle_garlic_message-body :
      (private : List ℕ) (get_length : ℕ) (tag rest memory : List ℕ) (r : Receiver) {r2 : Receiver}
      {done : List Delivery}
      → length tag ≡ 32
      → length (tag ++ rest) < 2 ^ 32
      → length (tag ++ rest) ≤ get_length
      → handle_by_tag c outbound now private
          (find tag r.tags)
          (length (tag ++ rest))
          tag
          ((tag ++ rest) ++ memory)
          r
        ≡ some (r2, done)
      → handle_garlic_message c private outbound now get_length
          (be32 (length (tag ++ rest)) ++ ((tag ++ rest) ++ memory))
          r
        ≡ some (cleanup_tags now r2, done)
  unfolding handle_garlic_message read_be32
  handle_garlic_message-body private get_length tag rest memory r tag32 small fits handled =
      let first : read 32 ((tag ++ rest) ++ memory) ≡ some (tag, rest ++ memory) =
        ap (read 32) (append_assoc tag rest memory) ∙ read-append tag (rest ++ memory) 32 tag32 in
      and_then-some _ refl (
        rw
          (
            from_be32-be32 (length (tag ++ rest)) small,
            ltb-false get_length (length (tag ++ rest)) fits,
          )
          (and_then-some _ first (and_then-some _ handled refl)))

AreTags-append :
    (ts : List SessionTag) (t : SessionTag)
    → AreTags ts
    → length t.tag ≡ 32
    → AreTags (ts ++ (t ∷ []))
AreTags-append [] t h k = (k, tt)
AreTags-append (x ∷ ts) t (h, hs) k = (h, AreTags-append ts t hs k)

pub generate_tags-AreTags :
    (random : ℕ → List ℕ) (now n : ℕ)
    → ((i : ℕ) → length (random i) ≡ 32)
    → AreTags (generate_tags random now n) × (length (generate_tags random now n) ≡ n)
unfolding generate_tags
generate_tags-AreTags random now zero h = (tt, refl)
generate_tags-AreTags random now (suc n) h =
    let before = generate_tags-AreTags random now n h in
    (
      AreTags-append (generate_tags random now n) _ (before.0) (h n),
      omega (
        arith,
        length-append (generate_tags random now n)
            (record { tag = random n; creation_time = now } ∷ []),
        before.1,
      ),
    )

fresh_tags-AreTags :
    (clock : Clock) (draws : Draws) (s : RoutingSession)
    → ((i : ℕ) → length (draws.new_tags i) ≡ 32)
    → AreTags (tags_in (fresh_tags clock draws s))
      × (length (tags_in (fresh_tags clock draws s)) ≤ s.num_tags)
unfolding fresh_tags generate_session_tags
fresh_tags-AreTags clock draws s h = elim (Bool-cases (creates_tags s)) [
  | inl e ↦
      let made = generate_tags-AreTags draws.new_tags clock.seconds s.num_tags h in
      rw e (made.0, omega (arith, made.1))
  | inr e ↦ rw e (tt, omega arith)
]

module _ (c : Crypto) (sound : IsSound c) (clock : Clock) (draws : Draws)
    (status : Option (Clove × List OwnerCall)) (store : Clove) (msg : List ℕ) where
  -- The cloves of a message that a session makes, the draws and the tags of which have their sizes.
  abbrev pub Fits : RoutingSession → Type 0
  Fits s =
      let cloves = sender_cloves clock draws (fresh_tags clock draws s) status store msg s in
      All IsClove cloves
      × (length cloves < 256)
      × (length (all_bytes cloves) < 2 ^ 31)
      × (s.num_tags < 2 ^ 16)
      × ((i : ℕ) → length (draws.new_tags i) ≡ 32)

  abbrev pub payload_of : RoutingSession → List ℕ
  payload_of s =
      let tags = fresh_tags clock draws s in
      let made =
        create_garlic_payload clock draws tags (with_bytes status) (clove_bytes store) (some msg)
          s in
      payload_bytes draws.msg_id clock.milliseconds made.cloves

  abbrev pub block_of : RoutingSession → List ℕ
  block_of s = plain_block c (fresh_tags clock draws s) (payload_of s)

  -- The receiver with a message's new tags.
  abbrev pub with_new_tags : ℕ → RoutingSession → Receiver → Receiver
  with_new_tags now s r =
      let ts = tags_in (fresh_tags clock draws s) in
      record r { tags = put_tags now s.session_key (length ts) (bytes_of ts) r.tags }

  payload_of-bytes :
      (s : RoutingSession)
      → payload_of s
        ≡ payload_bytes draws.msg_id clock.milliseconds (
            map clove_bytes
              (sender_cloves clock draws (fresh_tags clock draws s) status store msg s))
  payload_of-bytes s =
      ap (payload_bytes draws.msg_id clock.milliseconds)
        (create_garlic_payload-cloves clock draws (fresh_tags clock draws s) status store msg s)

  -- The block of a session's message brings the tags and the cloves.
  pub block_handled :
      (outbound : Bool) (now : ℕ) (memory : List ℕ) (s : RoutingSession) (r : Receiver)
      → Fits s
      → (done : List Delivery) × (handle_aes_block c outbound now s.session_key
            (length (block_of s))
            (block_of s ++ memory)
            r
          ≡ some (with_new_tags now s r, done))
        × (map arrival done
            ≡ arrivals outbound
                (sender_cloves clock draws (fresh_tags clock draws s) status store msg s))
        × (length (block_of s) < 2 ^ 31 + 2 ^ 22)
  block_handled outbound now memory s r (are, few, small, n, sized) =
      let tags = fresh_tags clock draws s in
      let cloves = sender_cloves clock draws tags status store msg s in
      let have = fresh_tags-AreTags clock draws s sized in
      let behind = behind_payload c sound tags (payload_of s) memory in
      let handled =
        handle_garlic_payload-bytes outbound cloves draws.msg_id clock.milliseconds behind are
          few in
      let bytes = payload_of-bytes s in
      let size = ap length bytes ∙ length-payload_bytes draws.msg_id clock.milliseconds cloves in
      let whole = plain_block-size c sound tags (payload_of s) (have.0) in
      (
        handled.0,
        handle_aes_block-plain c sound outbound now s.session_key tags (payload_of s) memory r
            (handled.0) (have.0) (omega (arith, have.1, n)) (omega (arith, size, small))
            (ap (λ (p : List ℕ). handle_garlic_payload outbound (length p) (p ++ behind)) bytes
              ∙ handled.1),
        handled.2,
        omega (arith, whole.1, have.1, size, small, n),
      )
