-- ===== src/Garlic/RoundTrip.antt =====
-- core/Garlic.cpp: a message that a session wraps, under a tag or with ElGamal, arrives at the far end.
use i2pd.Prelude.{
  ℕ, ◌+◌, ◌^◌, ◌<◌, ◌≡◌, refl, sym, ap, ◌∙◌, Bool, true, false, List, ◌++◌, append_assoc, Option,
  none, some, map, ltb, leb, arith, length, take, drop, length-append, drop-append_left,
  take-append_left, ltb-false, leb-true, take-append-drop, length-take,
}
use i2pd.Prelude.Chain.{and_then-some}
use i2pd.Prelude.Dict.{find, remove}
use i2pd.Garlic.{Crypto, encrypt, SessionTag, RoutingSession, RoutingDestination}
use i2pd.Garlic.Receive.{Receiver, Delivery, read}
use i2pd.Garlic.Incoming.{
  open_block, handle_tagged, handle_elgamal, handle_untagged, handle_by_tag, cleanup_tags,
}
use i2pd.Garlic.Wrap.{Clock, Draws, OwnerCall}
use i2pd.Garlic.Single.{fresh_tags, finish, with_tag, with_elgamal, find_tag, wrap_with}
use i2pd.Garlic.Cloves.{Clove, clove_bytes, arrival, arrivals, read-append}
use i2pd.Garlic.Blocks.{IsSound, length-encrypt, length-plain_block}
use i2pd.Garlic.Payload.{sender_cloves, with_bytes}
use i2pd.Garlic.Exchange.{open_block-encrypt, Fits, block_of, with_new_tags, block_handled}
use i2pd.Garlic.Unwrapping.{Unwraps, garlic_message, Unwraps-body, Unwraps-at}

-- A private and a public key, by what one of them decrypts that the other has encrypted.
abbrev pub IsPair : Crypto → List ℕ → List ℕ → Type 0
IsPair c private public =
    (block : List ℕ)
    → length block ≡ 222
    → (c.elgamal_decrypt private (c.elgamal_encrypt public block) ≡ some block)
      × (length (c.elgamal_encrypt public block) ≡ 514)

module _ (c : Crypto) (sound : IsSound c) (clock : Clock) (draws : Draws)
    (status : Option (Clove × List OwnerCall)) (store : Clove) (msg : List ℕ) where
  abbrev pub cloves_of : RoutingSession → List Clove
  cloves_of s = sender_cloves clock draws (fresh_tags clock draws s) status store msg s

  abbrev body_of : List ℕ → List ℕ → RoutingSession → List ℕ
  body_of head digest s =
      head
      ++ encrypt c s.session_key (take 16 digest) (block_of c sound clock draws status store msg s)

  finish-message :
      (head digest : List ℕ) (s : RoutingSession)
      → (finish c clock draws
          (with_bytes status)
          (clove_bytes store)
          (some msg)
          head
          digest
          s).message
        ≡ some (garlic_message c sound clock draws (body_of head digest s))
  unfolding finish
  finish-message head digest s = refl

  length-body_of :
      (head digest : List ℕ) (s : RoutingSession)
      → length (body_of head digest s)
        ≡ length head + length (block_of c sound clock draws status store msg s)
  length-body_of head digest s =
      let block = block_of c sound clock draws status store msg s in
      omega (
        arith,
        length-append head (encrypt c s.session_key (take 16 digest) block),
        length-encrypt c sound s.session_key (take 16 digest) block
            (length-plain_block c sound _ _),
      )

  -- What stands behind its head is handled as the block that was encrypted.
  opened :
      (outbound : Bool) (now : ℕ) (head digest memory : List ℕ) (s : RoutingSession) (r : Receiver)
      → Fits c sound clock draws status store msg s
      → (done : List Delivery) × (open_block c outbound now
            (length head)
            s.session_key
            digest
            (length (body_of head digest s))
            (body_of head digest s ++ memory)
            r
          ≡ some (with_new_tags c sound clock draws status store msg now s r, done))
        × (map arrival done ≡ arrivals outbound (cloves_of s))
        × (length (body_of head digest s) < length head + 2 ^ 31 + 2 ^ 22)
  opened outbound now head digest memory s r fits =
      let block = block_of c sound clock draws status store msg s in
      let handled =
        block_handled c sound clock draws status store msg outbound now memory s r fits in
      (
        handled.0,
        open_block-encrypt c sound outbound now s.session_key digest head block memory r
              (length-plain_block c sound _ _)
            ∙ handled.1,
        handled.2,
        omega (arith, length-body_of head digest s, handled.3),
      )

  -- A session with a tag that is not expired wraps a message under it. A destination that has the session's key
  -- under the tag handles it to its end: it forgets the tag, has the message's new tags under the key, and the
  -- messages of the cloves arrive as they were, the wrapped one last. The cloves are to be messages that tell
  -- their length, with hashes of 32 bytes; the tags have 32 bytes, and there are fewer than 2 ^ 16 of them.
  pub wrap-handle_tagged :
      (outbound : Bool) (now since : ℕ) (private memory : List ℕ) (s : RoutingSession)
      (t : SessionTag) (rest : List SessionTag) (r : Receiver)
      → find_tag clock.seconds s ≡ (some t, rest)
      → length t.tag ≡ 32
      → find t.tag r.tags ≡ some (since, s.session_key)
      → Fits c sound clock draws status store msg (record s { session_tags = rest })
      → let after = record s { session_tags = rest } in
        let known = with_new_tags c sound clock draws status store msg now after r in
        (m : List ℕ) × ((wrap_with c clock draws
            (with_bytes status)
            (clove_bytes store)
            (some msg)
            s).message
          ≡ some m)
        × Unwraps c outbound now private memory r m
            (cleanup_tags now (record known { tags = remove t.tag known.tags }))
            (cloves_of after)
  unfolding wrap_with with_tag handle_by_tag handle_tagged
  wrap-handle_tagged outbound now since private memory s t rest r found tag32 known fits =
      let after = record s { session_tags = rest } in
      let digest = c.sha256 t.tag in
      let block =
        encrypt c s.session_key (take 16 digest)
          (block_of c sound clock draws status store msg after) in
      let done = opened outbound now t.tag digest memory after r fits in
      let long : leb 32 (length (t.tag ++ block)) ≡ true =
        leb-true 32 (length (t.tag ++ block)) (omega (arith, length-append (t.tag) block, tag32)) in
      (
        garlic_message c sound clock draws (t.tag ++ block),
        rw found (finish-message t.tag digest after),
        Unwraps-body c sound clock draws outbound now private memory t.tag block r _ (done.0)
            (cloves_of after) tag32 (omega (arith, done.3, tag32))
            (rw (known, long)
              (and_then-some _
                (ap
                    (λ (n : ℕ).
                      open_block c outbound now n s.session_key digest (length (t.tag ++ block))
                        ((t.tag ++ block) ++ memory) r)
                    (sym tag32)
                  ∙ done.1)
                refl))
            (done.2),
      )

  -- What the ElGamal block of a session's message carries.
  abbrev pub elgamal_block : RoutingSession → List ℕ
  elgamal_block s = s.session_key ++ (draws.pre_iv ++ draws.padding)

  -- A session without a tag that is not expired wraps a message with ElGamal for the key of its destination. The
  -- destination, that does not take the block's first bytes for a tag that it has, handles the message to its
  -- end: it has the message's new tags under the session's key, and the messages of the cloves arrive as they
  -- were, the wrapped one last. The cloves are to be messages that tell their length, with hashes of 32 bytes; the
  -- key, the tags and what else is drawn have their sizes.
  pub wrap-handle_untagged :
      (outbound : Bool) (now : ℕ) (private memory : List ℕ) (s : RoutingSession)
      (d : RoutingDestination) (rest : List SessionTag) (r : Receiver)
      → IsPair c private d.public_key
      → find_tag clock.seconds s ≡ (none, rest)
      → s.destination ≡ some d
      → (length s.session_key ≡ 32) × (length draws.pre_iv ≡ 32) × (length draws.padding ≡ 158)
      → find (take 32 (c.elgamal_encrypt d.public_key (elgamal_block s))) r.tags ≡ none
      → Fits c sound clock draws status store msg (record s { session_tags = rest })
      → let after = record s { session_tags = rest } in
        (m : List ℕ) × ((wrap_with c clock draws
            (with_bytes status)
            (clove_bytes store)
            (some msg)
            s).message
          ≡ some m)
        × Unwraps c outbound now private memory r m
            (cleanup_tags now (with_new_tags c sound clock draws status store msg now after r))
            (cloves_of after)
  unfolding wrap_with with_tag with_elgamal handle_by_tag handle_untagged handle_elgamal
  wrap-handle_untagged outbound now private memory s d rest r pair none_left dest
        (key32, iv32, pad158) unknown fits =
      let after = record s { session_tags = rest } in
      let plain = elgamal_block s in
      let coded = pair plain (
        omega (
          arith,
          length-append (s.session_key) (draws.pre_iv ++ draws.padding),
          length-append (draws.pre_iv) (draws.padding),
          key32,
          iv32,
          pad158,
        )) in
      let head = c.elgamal_encrypt d.public_key plain in
      let digest = c.sha256 draws.pre_iv in
      let block =
        encrypt c s.session_key (take 16 digest)
          (block_of c sound clock draws status store msg after) in
      let done = opened outbound now head digest memory after r fits in
      let parts : take 32 head ++ (drop 32 head ++ block) ≡ head ++ block =
        sym (append_assoc (take 32 head) (drop 32 head) block)
        ∙ ap (λ (h : List ℕ). h ++ block) (take-append-drop 32 head) in
      let sizes = length-append head block in
      let long : ltb (length (head ++ block)) 514 ≡ false =
        ltb-false (length (head ++ block)) 514 (omega (arith, sizes, coded.1)) in
      let first : read 514 ((head ++ block) ++ memory) ≡ some (head, block ++ memory) =
        ap (read 514) (append_assoc head block memory)
        ∙ read-append head (block ++ memory) 514 (coded.1) in
      let key : take 32 plain ≡ s.session_key =
        take-append_left 32 s.session_key (draws.pre_iv ++ draws.padding) key32 in
      let iv : take 32 (drop 32 plain) ≡ draws.pre_iv =
        ap (take 32) (drop-append_left 32 s.session_key (draws.pre_iv ++ draws.padding) key32)
        ∙ take-append_left 32 draws.pre_iv draws.padding iv32 in
      let handled : handle_by_tag c outbound now private (find (take 32 head) r.tags)
            (length (head ++ block)) (take 32 head) ((head ++ block) ++ memory) r
          ≡ some (with_new_tags c sound clock draws status store msg now after r, done.0) =
        rw (unknown, long)
          (and_then-some _ first (
            ap
              (λ o.
                handle_elgamal c outbound now (length (head ++ block)) ((head ++ block) ++ memory) o
                  r)
              (coded.0)
            ∙ rw (key, iv)
                (ap
                    (λ (n : ℕ).
                      open_block c outbound now n s.session_key digest (length (head ++ block))
                        ((head ++ block) ++ memory) r)
                    (sym (coded.1))
                  ∙ done.1))) in
      (
        garlic_message c sound clock draws (head ++ block),
        rw none_left (
            ap
              (λ (o : Option RoutingDestination).
                (with_elgamal c clock draws (with_bytes status) (clove_bytes store) (some msg) o
                  after).message)
              dest
            ∙ finish-message head digest after),
        Unwraps-at c sound clock draws outbound now private memory (take 32 head)
            (drop 32 head ++ block) (head ++ block) r _ (done.0) (cloves_of after) parts
            (omega (arith, length-take 32 head, coded.1)) (omega (arith, done.3, coded.1)) handled
            (done.2),
      )
