-- ===== src/Tunnel/Fragments.antt =====
-- core/tunnel: a follow-on fragment, as the gateway sends it and as the endpoint receives it.
use i2pd.Prelude.{
  ℕ, zero, suc, ◌+◌, ◌-◌, ◌≤◌, ◌<◌, ◌^◌, ◌≡◌, refl, ap, sym, ◌∙◌, Bool, true, false, List, [], ◌∷◌,
  ◌++◌, none, some, ltb, leb, ◌==◌, length, take, drop, length-take, length-drop, inl, inr,
  Bool-cases, arith, take_all, ltb-true, leb-false,
}
use i2pd.Prelude.Bytes.{be16, be32}
use i2pd.Tunnel.Endpoint.{
  Endpoint, Outcome, ok, overrun, stuck, handle_fragment, handle_decrypted_tunnel_data_msg,
}
use i2pd.Tunnel.Gateway.{
  Buffer, Crypto, Outgoing, follow_on_flag, msg_id_bytes, finished,
  create_current_tunnel_data_message, complete_current_tunnel_data_message, follow_on,
}
use i2pd.Tunnel.Headers.{follow_header, parse_follow}
use i2pd.Tunnel.Layout.{IsSound, Place, tunnel_data, handle_finished, handle_single, in_place}

-- The payload with the follow-on fragment `k`.
abbrev pub follow_payload : ℕ → Bool → Outgoing → List ℕ → List ℕ
follow_payload k last m content =
    follow_on_flag k last ∷ msg_id_bytes m ++ (be16 (length content) ++ content)

-- The endpoint receives tunnel data messages, one after the other.
abbrev pub receive_all : Crypto → Place → List (List ℕ) → Endpoint → Outcome
receive_all crypto p [] e = ok e
receive_all crypto p (m ∷ ms) e =
    elim (handle_decrypted_tunnel_data_msg crypto.sha256 (tunnel_data p m) e) [
      | ok e' ↦ receive_all crypto p ms e'
      | overrun ↦ overrun
      | stuck ↦ stuck
    ]

pub receive_all-cons :
    (crypto : Crypto) (p : Place) (m : List ℕ) (ms : List (List ℕ)) (e e' : Endpoint)
    → handle_decrypted_tunnel_data_msg crypto.sha256 (tunnel_data p m) e ≡ ok e'
    → receive_all crypto p (m ∷ ms) e ≡ receive_all crypto p ms e'
receive_all-cons crypto p m ms e e' h = ground (arith, h)

-- The endpoint with the bytes of one more tunnel data message counted.
abbrev pub counted : Endpoint → Endpoint
counted e = record e { num_received_bytes = e.num_received_bytes + 1028 }

-- A tunnel data message with one follow-on fragment is handled as that fragment.
pub receive_follow :
    (crypto : Crypto) (g : Buffer) (p : Place) (k id : ℕ) (last : Bool) (m : Outgoing)
    (content : List ℕ) (e : Endpoint)
    → IsSound crypto g.non_zero
    → msg_id_bytes m ≡ be32 id
    → id < 2 ^ 32
    → k < 64
    → length content ≤ 996
    → (rest : List ℕ) × (handle_decrypted_tunnel_data_msg crypto.sha256
          (tunnel_data p (finished crypto g (follow_payload k last m content)))
          e
        ≡ handle_fragment
            (follow_header k last id (length content) rest)
            (in_place p (length (follow_payload k last m content)) 7 content)
            (counted e))
receive_follow crypto g p k id last m content e s mid hid hk small =
    let payload = follow_on_flag k last ∷ be32 id ++ (be16 (length content) ++ content) in
    let t = tunnel_data p (finished crypto g payload) in
    let tail = t.iv ++ p.behind in
    let h = follow_header k last id (length content) (content ++ tail) in
    (
      content ++ tail,
      rw mid (
          handle_finished crypto g payload p e s
          ∙ handle_single (length payload) (length payload) t (p.start + (1008 - length payload))
              (payload ++ tail) content tail h (counted e)
              (parse_follow k last id (length content) (content ++ tail) hk hid (omega arith)) refl
              refl (omega arith) (omega arith) (omega arith)),
    )

pub follow_on_done :
    (crypto : Crypto) (fuel size k : ℕ) (m : Outgoing) (g : Buffer)
    → length m.bytes ≤ size
    → follow_on crypto fuel m size k g ≡ some g
unfolding follow_on
follow_on_done crypto zero size k m g h = ground arith
follow_on_done crypto (suc fuel) size k m g h = ground arith

-- A tunnel data message with a payload, begun for a follow-on fragment.
abbrev pub holding : Buffer → List ℕ → ℕ → Buffer
holding g payload remaining = record g { current = some payload; remaining_size = remaining }

pub complete_holding :
    (crypto : Crypto) (g : Buffer) (payload : List ℕ) (remaining : ℕ)
    → let g' = complete_current_tunnel_data_message crypto (holding g payload remaining) in
      (g'.msgs ≡ g.msgs ++ finished crypto (holding g payload remaining) payload ∷ [])
      × (g'.current ≡ none)
      × (g'.non_zero ≡ g.non_zero)
unfolding complete_current_tunnel_data_message
complete_holding crypto g payload remaining = (refl, refl, refl)

pub complete_complete :
    (crypto : Crypto) (g : Buffer)
    → g.current ≡ none
    → complete_current_tunnel_data_message crypto g ≡ g
unfolding complete_current_tunnel_data_message
complete_complete crypto g h = ground (arith, h)

-- What the gateway does with the last follow-on fragment.
pub follow_on_last :
    (crypto : Crypto) (fuel size k : ℕ) (m : Outgoing) (g : Buffer)
    → size < length m.bytes
    → length m.bytes ≤ size + 996
    → let h =
        holding g
          (follow_payload k true m (drop size m.bytes))
          (1003 - (length m.bytes - size + 7)) in
      (g' : Buffer) × (follow_on crypto (suc fuel) m size k g ≡ some g')
      × (complete_current_tunnel_data_message crypto g'
          ≡ complete_current_tunnel_data_message crypto h)
unfolding follow_on create_current_tunnel_data_message
follow_on_last crypto fuel size k m g lo hi =
    let h =
      holding g (follow_payload k true m (drop size m.bytes))
        (1003 - (length m.bytes - size + 7)) in
    let left : length (drop size m.bytes) ≡ length m.bytes - size = length-drop size m.bytes in
    let all : take (length m.bytes - size) (drop size m.bytes) ≡ drop size m.bytes =
      ap (λ (n : ℕ). take n (drop size m.bytes)) (sym left) ∙ take_all (drop size m.bytes) in
    let (m₁, c, z) =
      complete_holding crypto g (follow_payload k true m (drop size m.bytes))
        (1003 - (length m.bytes - size + 7)) in
    elim (Bool-cases (1003 - (length m.bytes - size + 7) == 0)) [
      | inl full ↦ (
        complete_current_tunnel_data_message crypto h,
        ground (
          arith,
          all,
          left,
          follow_on_done crypto fuel (size + (length m.bytes - size)) (k + 1) m
              (complete_current_tunnel_data_message crypto h),
        ),
        complete_complete crypto (complete_current_tunnel_data_message crypto h) c,
      )
      | inr room ↦ (
        h,
        ground (
          arith,
          all,
          left,
          follow_on_done crypto fuel (size + (length m.bytes - size)) (k + 1) m h,
        ),
        refl,
      )
    ]

-- And with one that is not the last: it fills a tunnel data message.
pub follow_on_next :
    (crypto : Crypto) (fuel size k : ℕ) (m : Outgoing) (g : Buffer)
    → size + 996 < length m.bytes
    → let h = holding g (follow_payload k false m (take 996 (drop size m.bytes))) 1003 in
      follow_on crypto (suc fuel) m size k g
      ≡ follow_on crypto fuel m (size + 996) (k + 1) (complete_current_tunnel_data_message crypto h)
unfolding follow_on create_current_tunnel_data_message
follow_on_next crypto fuel size k m g long =
    let cut : length (take 996 (drop size m.bytes)) ≡ 996 =
      omega (arith, length-take 996 (drop size m.bytes), length-drop size m.bytes) in
    let goes_on : ltb size (length m.bytes) ≡ true = ltb-true _ _ (omega arith) in
    let not_last : leb (length m.bytes - size) 996 ≡ false = leb-false _ _ (omega arith) in
    rw (cut, goes_on, not_last) refl
