-- ===== src/LeaseSet/Publish.antt =====
-- core/LeaseSet.cpp: a lease set that a destination publishes, and another router reads.
use i2pd.Prelude.{
  length-replicate, ℕ, ◌+◌, ◌-◌, ◌≤◌, ◌<◌, ◌≡◌, refl, sym, ap, ◌∙◌, Bool, true, false, not, ◌&&◌,
  List, [], ◌∷◌, ◌++◌, append_assoc, some, leb, ◌==◌, length, take, drop, replicate, arith, All,
  length-append, take-append_left, drop-append_left, take_all, leb-true,
}
use i2pd.Identity.{
  IdentityEx, null_buffer, blank, from_buffer, signing_key_type, public_key_len, signature_len,
  verifying_key, full_len, standard_bytes, delete_buffer,
}
use i2pd.Identity.RoundTrip.{
  HasCertificate, HasKeys, from_buffer-to_buffer, to_buffer-bytes, length-standard_bytes,
  extended_len_lem,
}
use i2pd.LeaseSet.{
  Crypto, LeaseSet, InboundTunnel, read_leases, write_leases, leases_of, verify, read_signed,
  read_keys, read_from_buffer, from_bytes, unsigned_bytes, publish, gateways, read_num,
}
use i2pd.Prelude.Chain.{and_then-some}
use i2pd.LeaseSet.Leases.{
  FitsTunnel, leases_of_fit, length-leases_of, read_leases-write_leases, take_few,
}

-- The keys of a destination: the type of its signing key, the key of its verifier, and a signer whose
-- signatures have their length and are accepted under that key.
pub record IsSound (crypto : Crypto) (sign : List ℕ → List ℕ) (i : IdentityEx) : Type 0 where
  pub key_type : ℕ
  pub key : List ℕ
  pub has_type : signing_key_type i ≡ some key_type
  pub is_supported : key_type < 8
  pub has_key : verifying_key key_type i ≡ some key
  pub signs : (bytes : List ℕ) → crypto.verify key_type key bytes (sign bytes) ≡ true
  pub has_length : (bytes : List ℕ) → length (sign bytes) ≡ signature_len key_type

module _ (crypto : Crypto) (sign : List ℕ → List ℕ) (i : IdentityEx)
    (sound : IsSound crypto sign i) where
  type_rehashed :
      (hash : List ℕ) → signing_key_type (record i { ident_hash = hash }) ≡ some sound.key_type
  unfolding signing_key_type
  type_rehashed hash = sound.has_type

  key_rehashed :
      (hash : List ℕ)
      → verifying_key sound.key_type (record i { ident_hash = hash }) ≡ some sound.key
  unfolding verifying_key
  key_rehashed hash = sound.has_key

  verify-sign :
      (hash bytes : List ℕ)
      → verify crypto (record i { ident_hash = hash }) sound.key_type bytes (sign bytes) ≡ some true
  unfolding verify
  verify-sign hash bytes =
      let supported : leb 8 sound.key_type ≡ false = ground (arith, sound.is_supported) in
      let long : leb (signature_len sound.key_type) (length (sign bytes)) ≡ true =
        ground (arith, sound.has_length bytes) in
      let whole : take (signature_len sound.key_type) (sign bytes) ≡ sign bytes =
        ap (λ (n : ℕ). take n (sign bytes)) (sym (sound.has_length bytes))
        ∙ take_all (sign bytes) in
      rw supported (and_then-some _ (key_rehashed hash) (rw (long, whole, sound.signs bytes) refl))

  module _ (ext enc : List ℕ) (has : HasCertificate i ext) (keys : HasKeys i)
      (size : length enc ≡ 256) where
    length-identity : length (standard_bytes i ++ ext) ≡ full_len i
    length-identity = omega (
      arith,
      length-standard_bytes i keys,
      length-append (standard_bytes i) ext,
      extended_len_lem i ext has,
    )

    -- What is signed, and what is published.
    message : List (ℕ × InboundTunnel) → List ℕ
    message ts = unsigned_bytes (standard_bytes i ++ ext) enc sound.key_type ts

    published : List (ℕ × InboundTunnel) → List ℕ
    published ts = message ts ++ sign (message ts)

    publish_lem :
        (ts : List (ℕ × InboundTunnel))
        → length ts ≤ 5
        → publish sign i enc ts ≡ some (published ts)
    unfolding publish published message
    publish_lem ts h =
        and_then-some _ (to_buffer-bytes i ext has)
          (and_then-some _ sound.has_type (rw (take_few 5 ts h) refl))

    -- The bytes behind the unused key.
    behind : List (ℕ × InboundTunnel) → List ℕ
    behind ts = length ts ∷ (write_leases (leases_of ts) ++ sign (message ts))

    published_lem :
        (ts : List (ℕ × InboundTunnel))
        → published ts
          ≡ (standard_bytes i ++ ext)
            ++ (enc ++ (replicate (public_key_len sound.key_type) 0 ++ behind ts))
    unfolding published behind message unsigned_bytes
    published_lem ts =
        let idents = standard_bytes i ++ ext in
        let zeros : List ℕ = replicate (public_key_len sound.key_type) 0 in
        let counted = length ts ∷ write_leases (leases_of ts) in
        let signature = sign (message ts) in
        append_assoc idents (enc ++ (zeros ++ counted)) signature
        ∙ ap (◌++◌ idents) (
            append_assoc enc (zeros ++ counted) signature
            ∙ ap (◌++◌ enc) (append_assoc zeros counted signature))

    -- The places of the fields in what is published.
    key_place : (ts : List (ℕ × InboundTunnel)) → take 256 (drop (full_len i) (published ts)) ≡ enc
    key_place ts =
        let zeros : List ℕ = replicate (public_key_len sound.key_type) 0 in
        rw
          (
            published_lem ts,
            drop-append_left (full_len i) (standard_bytes i ++ ext) (enc ++ (zeros ++ behind ts))
                length-identity,
          )
          (take-append_left 256 enc (zeros ++ behind ts) size)

    leases_place :
        (ts : List (ℕ × InboundTunnel))
        → drop (full_len i + 256 + public_key_len sound.key_type) (published ts) ≡ behind ts
    leases_place ts =
        let idents = standard_bytes i ++ ext in
        let zeros : List ℕ = replicate (public_key_len sound.key_type) 0 in
        let joined : published ts ≡ (idents ++ (enc ++ zeros)) ++ behind ts =
          published_lem ts
          ∙ sym (
              append_assoc idents (enc ++ zeros) (behind ts)
              ∙ ap (◌++◌ idents) (append_assoc enc zeros (behind ts))) in
        ap (drop (full_len i + 256 + public_key_len sound.key_type)) joined
        ∙ drop-append_left (full_len i + 256 + public_key_len sound.key_type)
            (idents ++ (enc ++ zeros)) (behind ts)
            (omega (
              arith,
              length-identity,
              length-append idents (enc ++ zeros),
              length-append enc zeros,
              length-replicate {A = ℕ} (public_key_len sound.key_type) 0,
              size,
            ))

    length-published_le : (ts : List (ℕ × InboundTunnel)) → full_len i + 256 ≤ length (published ts)
    length-published_le ts =
        let idents = standard_bytes i ++ ext in
        let rest = replicate (public_key_len sound.key_type) 0 ++ behind ts in
        omega (
          arith,
          ap length (published_lem ts),
          length-identity,
          length-append idents (enc ++ rest),
          length-append enc rest,
          size,
        )

    signed_part :
        (ts : List (ℕ × InboundTunnel))
        → take (length (published ts) - length (sign (message ts))) (published ts) ≡ message ts
    unfolding published
    signed_part ts =
        take-append_left (length (published ts) - length (sign (message ts))) (message ts)
          (sign (message ts)) (omega (arith, length-append (message ts) (sign (message ts))))

    rehashed : IdentityEx
    rehashed = record i { ident_hash = crypto.sha256 (standard_bytes i ++ ext) }

    -- The lease set before its leases are read, and behind them.
    abbrev opened : List (ℕ × InboundTunnel) → LeaseSet
    opened ts = record {
      is_valid = true;
      leases = [];
      identity = rehashed;
      encryption_key = enc;
      buffer = published ts;
      looked_up = [];
    }

    abbrev read_set : List (ℕ × InboundTunnel) → LeaseSet
    read_set ts = record (opened ts) {
      is_valid = not (length ts == 0);
      leases = leases_of ts;
      looked_up = gateways (leases_of ts);
    }

    read_signed-published :
        (ts : List (ℕ × InboundTunnel))
        → All FitsTunnel ts
        → read_signed crypto rehashed sound.key_type
            (length ts)
            (write_leases (leases_of ts) ++ sign (message ts))
            (opened ts)
          ≡ some (read_set ts)
    unfolding read_signed rehashed
    read_signed-published ts fits =
        let bytes = write_leases (leases_of ts) ++ sign (message ts) in
        let read : read_leases (length ts) bytes ≡ some (leases_of ts, sign (message ts)) =
          ap (λ (n : ℕ). read_leases n bytes) (sym (length-leases_of ts))
          ∙ read_leases-write_leases (leases_of ts) (sign (message ts)) (leases_of_fit ts fits) in
        let good =
          ap (λ (x : List ℕ). verify crypto rehashed sound.key_type x (sign (message ts)))
            (signed_part ts)
          ∙ verify-sign (crypto.sha256 (standard_bytes i ++ ext)) (message ts) in
        let valid : (true && (not (length ts == 0) && true)) ≡ not (length ts == 0) =
          ground arith in
        and_then-some _ read (
          and_then-some _ good
            (ap (λ (b : Bool). some (record (read_set ts) { is_valid = b })) valid))

    read_keys-published :
        (garbage : List ℕ) (ts : List (ℕ × InboundTunnel))
        → All FitsTunnel ts
        → read_keys crypto
            (full_len i)
            rehashed
            (record (opened ts) { identity = blank garbage; encryption_key = [] })
          ≡ some (read_set ts)
    unfolding read_keys behind rehashed
    read_keys-published garbage ts fits =
        let long = leb-true (full_len i + 256) (length (published ts)) (length-published_le ts) in
        let num =
          ap
            (λ (x : List ℕ).
              read_num crypto rehashed sound.key_type x (record (opened ts) {
                encryption_key = take 256 (drop (full_len i) (published ts));
              }))
            (leases_place ts) in
        let key =
          ap
            (λ (x : List ℕ).
              read_signed crypto rehashed sound.key_type (length ts)
                (write_leases (leases_of ts) ++ sign (message ts))
                (record (opened ts) { encryption_key = x }))
            (key_place ts) in
        rw long (
          and_then-some _ (type_rehashed (crypto.sha256 (standard_bytes i ++ ext)))
            (num ∙ key ∙ read_signed-published ts fits))

    -- A destination whose keys are sound publishes a lease set of its tunnels, at most five, that any router
    -- reads: as valid where there is a tunnel, with the leases of just those tunnels, in their order, with
    -- the encryption key that was published, and with the destination's identity.
    pub from_bytes-publish :
        (garbage : List ℕ) (ts : List (ℕ × InboundTunnel))
        → length ts ≤ 5
        → All FitsTunnel ts
        → (bytes : List ℕ) × (publish sign i enc ts ≡ some bytes)
          × (from_bytes crypto garbage bytes
              ≡ some (record {
                is_valid = not (length ts == 0);
                leases = leases_of ts;
                identity = record i { ident_hash = crypto.sha256 (standard_bytes i ++ ext) };
                encryption_key = enc;
                buffer = bytes;
                looked_up = gateways (leases_of ts);
              }))
    unfolding from_bytes read_from_buffer rehashed blank delete_buffer
    from_bytes-publish garbage ts few fits =
        let tail = enc ++ (replicate {A = ℕ} (public_key_len sound.key_type) 0 ++ behind ts) in
        let split = published_lem ts ∙ append_assoc (standard_bytes i) ext tail in
        let read =
          ap (λ (x : List ℕ). from_buffer crypto.sha256 x (blank garbage)) split
          ∙ (from_buffer-to_buffer crypto.sha256 i ext tail has keys (blank garbage) null_buffer
              refl).1 in
        (
          published ts,
          publish_lem ts few,
          and_then-some _ read (read_keys-published garbage ts fits),
        )
