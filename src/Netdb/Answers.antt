-- ===== src/Netdb/Answers.antt =====
-- core/NetworkDatabase.cpp: the answer to the lookup of a lease set, and the key that it is encrypted with.
use i2pd.Prelude.{
  ℕ, ◌+◌, ◌*◌, ◌/◌, ◌^◌, ◌≤◌, ◌<◌, ◌≡◌, ◌≢◌, ◌⊎◌, inl, inr, refl, ap, ◌∙◌, Bool, false, List, [],
  ◌∷◌, ◌++◌, append_assoc, Option, none, some, ◌==◌, arith, length, take, drop, length-append,
  drop-append_left, ltb-false, Bool-cases, ==_ne,
}
use i2pd.Prelude.Chain.{and_then-some}
use i2pd.Prelude.Bytes.{be16, be32}
use i2pd.I2np.{StoredLeaseSet, create_database_store_msg}
use i2pd.I2np.Lookup.{lease_set_lookup_payload, hashes_bytes}
use i2pd.Garlic.{Crypto}
use i2pd.Garlic.Receive.{read, read_byte}
use i2pd.Garlic.Wrap.{Clock, Draws}
use i2pd.Garlic.Single.{wrap_one_time}
use i2pd.Garlic.Cloves.{read-append}
use i2pd.Netdb.{
  Database, to_tunnel, read_lookup, is_zero, make_reply, found_or_closest, router_or_lease_set,
  stored_lease_set, reply_keys, with_keys, encrypted, handle_database_lookup_msg,
}
use i2pd.Netdb.Replies.{read_as, read_lookup-tunnel, parts}

-- The key is what stands first, whatever that is.
reply_keys-first :
    (key tail : List ℕ)
    → length key ≡ 32
    → 33 ≤ length tail
    → (keys : Option (List ℕ × List ℕ)) × (reply_keys (key ++ tail) ≡ some keys)
      × ((keys ≡ none) ⊎ ((tag : List ℕ) × (keys ≡ some (key, tag))))
unfolding reply_keys read_byte
reply_keys-first key [] key32 long = absurd (omega arith)
reply_keys-first key (num_tags ∷ tags) key32 long =
    let first = read-append key (num_tags ∷ tags) 32 key32 in
    elim (Bool-cases (num_tags == 0)) [
      | inl zero_tags ↦
          (none, and_then-some _ first (and_then-some _ refl (rw zero_tags refl)), inl refl)
      | inr some_tags ↦
          let tag : read 32 tags ≡ some (take 32 tags, drop 32 tags) =
            unfold read in rw (ltb-false (length tags) 32 (omega (arith, long))) refl in
          (
            some (key, take 32 tags),
            and_then-some _ first (and_then-some _ refl (rw some_tags (and_then-some _ tag refl))),
            inr (take 32 tags, refl),
          )
    ]

module _ (c : Crypto) (clock : Clock) (draws : Draws) (garbage : ℕ) (db : Database)
    (outbound : Bool) (random : ℕ) (dest tunnel_hash reply_key reply_tag : List ℕ) (tunnel_id : ℕ)
    (ls : StoredLeaseSet) (dest32 : length dest ≡ 32) (hash32 : length tunnel_hash ≡ 32)
    (key32 : length reply_key ≡ 32) (tag32 : length reply_tag ≡ 32) (small : tunnel_id < 2 ^ 32)
    (nonzero : is_zero dest ≡ false) (found : db.find_lease_set dest ≡ some ls) where
  abbrev pub store_msg : List ℕ
  store_msg = create_database_store_msg c.sha256 ls 0 random clock.milliseconds

  abbrev pub asked : List (List ℕ) → List ℕ
  asked excluded = lease_set_lookup_payload dest excluded tunnel_hash tunnel_id reply_key reply_tag

  -- What follows the excluded peers' number, and the tunnel that is read.
  abbrev behind_count : List (List ℕ) → List ℕ → List ℕ
  behind_count excluded memory = hashes_bytes excluded ++ (reply_key ++ (1 ∷ (reply_tag ++ memory)))

  abbrev read_id : ℕ
  read_id = 7 * 2 ^ 24 + tunnel_id / 256

  read_lookup-lease_set :
      (excluded : List (List ℕ)) (memory : List ℕ)
      → length excluded ≤ 512
      → read_lookup (asked excluded ++ memory)
        ≡ some (read_as dest 7 read_id (length excluded) (behind_count excluded memory))
  unfolding lease_set_lookup_payload
  read_lookup-lease_set excluded memory few =
      let keys = reply_key ++ (1 ∷ reply_tag) in
      let counted = be16 (length excluded) ++ hashes_bytes excluded in
      let whole : (counted ++ keys) ++ memory
          ≡ be16 (length excluded) ++ behind_count excluded memory =
        append_assoc counted keys memory
        ∙ append_assoc (be16 (length excluded)) (hashes_bytes excluded) (keys ++ memory)
        ∙ ap (λ (t : List ℕ). counted ++ t) (append_assoc reply_key (1 ∷ reply_tag) memory) in
      ap read_lookup (
        parts dest tunnel_hash (7 ∷ be32 tunnel_id) (counted ++ keys) memory
        ∙ ap (λ (t : List ℕ). dest ++ (tunnel_hash ++ ((7 ∷ be32 tunnel_id) ++ t))) whole)
      ∙ read_lookup-tunnel dest tunnel_hash dest32 hash32 (length excluded) few
          (behind_count excluded memory) 7 tunnel_id refl small

  make_reply-found :
      (n : ℕ) (rest : List ℕ)
      → make_reply db c.sha256 random clock.milliseconds (read_as dest 7 read_id n rest)
        ≡ some (store_msg, rest)
  unfolding make_reply router_or_lease_set found_or_closest
  make_reply-found n rest =
      ap
        (λ (o : Option StoredLeaseSet).
          found_or_closest db c.sha256 random clock.milliseconds (read_as dest 7 read_id n rest)
            (stored_lease_set db c.sha256 random clock.milliseconds o))
        found
      ∙ unfold stored_lease_set in refl

  answered :
      (excluded : List (List ℕ)) (memory : List ℕ) (keys : Option (List ℕ × List ℕ))
      → length excluded ≤ 512
      → reply_keys (behind_count excluded memory) ≡ some keys
      → handle_database_lookup_msg c clock draws garbage db outbound random
          (asked excluded ++ memory)
        ≡ some (
            some (
              to_tunnel outbound tunnel_hash read_id
                (with_keys c clock draws garbage store_msg keys)))
  unfolding handle_database_lookup_msg encrypted
  answered excluded memory keys few named =
      let tail =
        (7 ∷ be32 tunnel_id)
        ++ (be16 (length excluded) ++ (hashes_bytes excluded ++ (reply_key ++ (1 ∷ reply_tag)))) in
      let other : read_id ≢ 0 = λ e. absurd (omega arith) in
      let bytes : asked excluded ++ memory ≡ dest ++ (tunnel_hash ++ (tail ++ memory)) =
        unfold lease_set_lookup_payload in
        (append_assoc dest (tunnel_hash ++ tail) memory
          ∙ ap (λ (t : List ℕ). dest ++ t) (append_assoc tunnel_hash tail memory)) in
      and_then-some _
        (ap (read 32) bytes ∙ read-append dest (tunnel_hash ++ (tail ++ memory)) 32 dest32)
        (rw nonzero (
          and_then-some _ (read_lookup-lease_set excluded memory few) (
            and_then-some _ (make_reply-found (length excluded) (behind_count excluded memory)) (
              and_then-some _
                (ap (λ (b : List ℕ). read 32 (drop 32 b)) bytes
                  ∙ ap (read 32) (drop-append_left 32 dest (tunnel_hash ++ (tail ++ memory)) dest32)
                  ∙ read-append tunnel_hash (tail ++ memory) 32 hash32)
                (rw (==_ne read_id 0 other) (and_then-some _ (and_then-some _ named refl) refl))))))

  keys_without :
      (memory : List ℕ) → reply_keys (behind_count [] memory) ≡ some (some (reply_key, reply_tag))
  unfolding reply_keys read_byte
  keys_without memory =
      and_then-some _ (read-append reply_key (1 ∷ (reply_tag ++ memory)) 32 key32)
        (and_then-some _ refl (and_then-some _ (read-append reply_tag memory 32 tag32) refl))

  -- A floodfill that has the lease set of a lookup that excludes nobody encrypts it under the lookup's key and tag.
  handle_database_lookup_msg-encrypts :
      (memory : List ℕ)
      → (id : ℕ) × (handle_database_lookup_msg c clock draws garbage db outbound random
            (asked [] ++ memory)
          ≡ some (
              some (
                to_tunnel outbound tunnel_hash id
                  (wrap_one_time c clock draws garbage reply_key reply_tag store_msg).message)))
  handle_database_lookup_msg-encrypts memory = (
    read_id,
    answered [] memory (some (reply_key, reply_tag)) (omega arith) (keys_without memory)
        ∙ unfold with_keys in refl,
  )

  -- If the lookup excludes a peer, that peer's hash is the key.
  handle_database_lookup_msg-takes_peer :
      (first memory : List ℕ) (others : List (List ℕ))
      → length first ≡ 32
      → length others < 512
      → (id : ℕ) × (keys : Option (List ℕ × List ℕ)) × (handle_database_lookup_msg c clock draws
            garbage db outbound random
            (asked (first ∷ others) ++ memory)
          ≡ some (
              some (
                to_tunnel outbound tunnel_hash id
                  (with_keys c clock draws garbage store_msg keys))))
        × ((keys ≡ none) ⊎ ((tag : List ℕ) × (keys ≡ some (first, tag))))
  handle_database_lookup_msg-takes_peer first memory others first32 few =
      let tail = reply_key ++ (1 ∷ (reply_tag ++ memory)) in
      let sizes : 33 ≤ length (hashes_bytes others ++ tail) = omega (
        arith,
        length-append (hashes_bytes others) tail,
        length-append reply_key (1 ∷ (reply_tag ++ memory)),
        length-append reply_tag memory,
      ) in
      let keys = reply_keys-first first (hashes_bytes others ++ tail) first32 sizes in
      (
        read_id,
        keys.0,
        answered (first ∷ others) memory (keys.0) (omega arith)
            (ap reply_keys (append_assoc first (hashes_bytes others) tail) ∙ keys.1),
        keys.2,
      )

  -- A floodfill that has the lease set of a lookup sends it to the gateway that the lookup names, encrypted under the
  -- lookup's key and tag if the lookup excludes nobody. If it excludes peers, 512 at most, the floodfill takes the
  -- first one's hash for the key, since it reads the key where the excluded peers start: the reply goes under a hash
  -- that is known, or as it is. Hashes, key and tag have 32 bytes, and the hash that is asked for is not zero.
  pub handle_database_lookup_msg-keys :
      (memory : List ℕ)
      → ((id : ℕ) × (handle_database_lookup_msg c clock draws garbage db outbound random
              (asked [] ++ memory)
            ≡ some (
                some (
                  to_tunnel outbound tunnel_hash id
                    (wrap_one_time c clock draws garbage reply_key reply_tag store_msg).message))))
        × ((first : List ℕ) (others : List (List ℕ))
            → length first ≡ 32
            → length others < 512
            → (id : ℕ) × (keys : Option (List ℕ × List ℕ)) × (handle_database_lookup_msg c clock
                  draws garbage db outbound random
                  (asked (first ∷ others) ++ memory)
                ≡ some (
                    some (
                      to_tunnel outbound tunnel_hash id
                        (with_keys c clock draws garbage store_msg keys))))
              × ((keys ≡ none) ⊎ ((tag : List ℕ) × (keys ≡ some (first, tag)))))
  handle_database_lookup_msg-keys memory = (
    handle_database_lookup_msg-encrypts memory,
    λ first others first32 few.
        handle_database_lookup_msg-takes_peer first memory others first32 few,
  )
