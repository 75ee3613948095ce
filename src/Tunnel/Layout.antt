-- ===== src/Tunnel/Layout.antt =====
-- core/tunnel: the endpoint finds the payload that the gateway put into a tunnel data message.
use i2pd.Prelude.{
  ℕ, zero, suc, ◌+◌, ◌-◌, ◌≤◌, ◌<◌, ◌≡◌, ◌≢◌, refl, ap, sym, ◌∙◌, true, List, [], ◌∷◌, ◌++◌, some,
  length, take, drop, All, length-take, take-append_left, drop-append_left, length-append, leb, ◌⊎◌,
  inl, inr, arith,
}
use i2pd.Prelude.Bytes.{same_bytes_refl}
use i2pd.Tunnel.{tunnel_data_msg_size, tunnel_data_max_payload_size}
use i2pd.Tunnel.Endpoint.{
  Endpoint, Outcome, ok, overrun, stuck, Message, Header, TunnelData, parse_header, handle_fragment,
  fragment_message, after_zero, handle_fragments, handle_decrypted_tunnel_data_msg,
}
use i2pd.Tunnel.Gateway.{Buffer, Crypto, finished}

-- What a hash, an IV and the random padding have to be like: this is what the libraries document.
pub record IsSound (crypto : Crypto) (non_zero : List ℕ) : Type 0 where
  pub iv_size : (k : ℕ) → length (crypto.generate_iv k) ≡ 16
  pub hash_size : (bytes : List ℕ) → 4 ≤ length (crypto.sha256 bytes)
  pub padding : All (λ b. b ≢ 0) non_zero

-- Where the receiver has the message: the buffer behind it, its place, and the buffer's limits.
pub record Place : Type 0 where
  pub behind : List ℕ
  pub start : ℕ
  pub max_len : ℕ
  pub capacity : ℕ

-- `GetPayload ()` of a message with the given 1028 bytes, as the endpoint takes it apart.
abbrev pub tunnel_data : Place → List ℕ → TunnelData
tunnel_data p bytes = record {
  iv = take 16 (drop 4 bytes);
  decrypted = drop 20 bytes;
  behind = p.behind;
  start = p.start;
  max_len = p.max_len;
  capacity = p.capacity;
}

All-take : (n : ℕ) (xs : List ℕ) → All (λ b. b ≢ 0) xs → All (λ b. b ≢ 0) (take n xs)
All-take zero xs h = tt
All-take (suc n) [] h = tt
All-take (suc n) (x ∷ xs) (hx, hs) = (hx, All-take n xs hs)

All-drop : (n : ℕ) (xs : List ℕ) → All (λ b. b ≢ 0) xs → All (λ b. b ≢ 0) (drop n xs)
All-drop zero xs h = h
All-drop (suc n) [] h = tt
All-drop (suc n) (x ∷ xs) (hx, hs) = All-drop n xs hs

after_zero-append : (xs ys : List ℕ) → All (λ b. b ≢ 0) xs → after_zero (xs ++ 0 ∷ ys) ≡ some ys
unfolding after_zero
after_zero-append [] ys h = refl
after_zero-append (x ∷ xs) ys (hx, hs) = ground (arith, after_zero-append xs ys hs)

-- A message whose checksum, padding and payload are as they should be.
handle_checked :
    (sha256 : List ℕ → List ℕ) (t : TunnelData) (e : Endpoint) (checksum padding payload : List ℕ)
    → t.decrypted ≡ checksum ++ (padding ++ 0 ∷ payload)
    → length checksum ≡ 4
    → checksum ≡ take 4 (sha256 (payload ++ t.iv))
    → All (λ b. b ≢ 0) padding
    → handle_decrypted_tunnel_data_msg sha256 t e
      ≡ handle_fragments
          (length payload)
          t
          (t.start + (1008 - length payload))
          (payload ++ (t.iv ++ t.behind))
          (length payload)
          (record e { num_received_bytes = e.num_received_bytes + tunnel_data_msg_size })
unfolding handle_decrypted_tunnel_data_msg
handle_checked sha256 t e checksum padding payload d l c z =
    let found : after_zero (drop 4 t.decrypted) ≡ some payload =
      ap (λ (x : List ℕ). after_zero (drop 4 x)) d
      ∙ ap after_zero (drop-append_left 4 checksum (padding ++ 0 ∷ payload) l)
      ∙ after_zero-append padding payload z in
    let front : take 4 t.decrypted ≡ checksum =
      ap (take 4) d ∙ take-append_left 4 checksum (padding ++ 0 ∷ payload) l in
    ground (arith, found, front, same_bytes_refl checksum)

-- A tunnel data message that the gateway finished passes the endpoint's checksum, and the endpoint
-- handles the fragments of just the payload that the gateway put in, provided that hashes have four
-- bytes at least, IVs sixteen, and the random padding no zero.
pub handle_finished :
    (crypto : Crypto) (g : Buffer) (payload : List ℕ) (p : Place) (e : Endpoint)
    → IsSound crypto g.non_zero
    → let t = tunnel_data p (finished crypto g payload) in
      handle_decrypted_tunnel_data_msg crypto.sha256 t e
      ≡ handle_fragments
          (length payload)
          t
          (p.start + (1008 - length payload))
          (payload ++ (t.iv ++ p.behind))
          (length payload)
          (record e { num_received_bytes = e.num_received_bytes + tunnel_data_msg_size })
unfolding finished
handle_finished crypto g payload p e s =
    let iv = crypto.generate_iv g.drawn in
    let checksum : List ℕ = take 4 (crypto.sha256 (payload ++ iv)) in
    let padding : List ℕ = take (tunnel_data_max_payload_size - length payload) (
      drop
        (crypto.generate_word (g.drawn + 1)
          (tunnel_data_max_payload_size - (tunnel_data_max_payload_size - length payload)))
        g.non_zero) in
    handle_checked crypto.sha256 (tunnel_data p (finished crypto g payload)) e checksum padding
      payload (drop-append_left 16 iv (checksum ++ (padding ++ 0 ∷ payload)) (s.iv_size g.drawn))
      (omega (arith, length-take 4 (crypto.sha256 (payload ++ iv)), s.hash_size (payload ++ iv)))
      (ap (λ (x : List ℕ). take 4 (crypto.sha256 (payload ++ x)))
        (sym (take-append_left 16 iv (checksum ++ (padding ++ 0 ∷ payload)) (s.iv_size g.drawn))))
      (All-take _ _ (All-drop _ _ s.padding))

handle_fragments-zero :
    (fuel : ℕ) (t : TunnelData) (offset : ℕ) (memory : List ℕ) (e : Endpoint)
    → handle_fragments fuel t offset memory 0 e ≡ ok e
unfolding handle_fragments
handle_fragments-zero zero t offset memory e = refl
handle_fragments-zero (suc fuel) t offset memory e = refl

Outcome-cases : (r : Outcome) → ((e : Endpoint) × (r ≡ ok e)) ⊎ (r ≡ overrun) ⊎ (r ≡ stuck)
Outcome-cases (ok e) = inl (e, refl)
Outcome-cases overrun = inr (inl refl)
Outcome-cases stuck = inr (inr refl)

-- The message that a single fragment makes: it stays in the buffer of the tunnel data message.
abbrev pub in_place : Place → ℕ → ℕ → List ℕ → Message
in_place p left used data_bytes = record {
  bytes = data_bytes;
  offset = p.start + (1008 - left) + used;
  max_len = p.max_len;
  capacity = p.capacity;
}

-- A payload with one fragment.
pub handle_single :
    (fuel left : ℕ) (t : TunnelData) (offset : ℕ) (memory content tail : List ℕ) (h : Header)
    (e : Endpoint)
    → parse_header memory ≡ some h
    → h.rest ≡ content ++ tail
    → h.size ≡ length content
    → left ≡ h.used + h.size
    → 0 < left
    → left ≤ fuel
    → handle_fragments fuel t offset memory left e
      ≡ handle_fragment h
          (record {
            bytes = content;
            offset = offset + h.used;
            max_len = t.max_len;
            capacity = t.capacity;
          })
          e
unfolding handle_fragments
handle_single fuel zero t offset memory content tail h e p r s l lo hi = absurd (omega arith)
handle_single zero (suc left) t offset memory content tail h e p r s l lo hi = absurd (omega arith)
handle_single (suc fuel) (suc left) t offset memory content tail h e p r s l lo hi =
    let m : Message = record {
      bytes = content;
      offset = offset + h.used;
      max_len = t.max_len;
      capacity = t.capacity;
    } in
    let cut : take h.size h.rest ≡ content =
      ap (take h.size) r ∙ take-append_left h.size content tail (sym s) in
    let whole : leb h.size (length h.rest) ≡ true =
      ground (arith, ap length r, length-append content tail) in
    let same : fragment_message t offset h (suc left) ≡ m = ground (arith, cut) in
    let done : suc left - (h.used + h.size) ≡ 0 = omega arith in
    elim (Outcome-cases (handle_fragment h m e)) [
      | inl (e', q) ↦ ground (
        arith,
        p,
        whole,
        same,
        q,
        done,
        handle_fragments-zero fuel t (offset + h.used + h.size) (drop h.size h.rest) e',
      )
      | inr (inl q) ↦ ground (arith, p, whole, same, q)
      | inr (inr q) ↦ ground (arith, p, whole, same, q)
    ]
