-- ===== src/Tunnel/Total.antt =====
-- core/tunnel/TunnelGateway.cpp: `PutI2NPMsg` comes to an end, in whatever state the buffer is.
use i2pd.Prelude.{
  ℕ, zero, suc, ◌+◌, ◌-◌, ◌≤◌, ◌≡◌, refl, ap, ◌∙◌, true, ◌||◌, List, [], ◌++◌, Option, none, some,
  ltb, leb, ◌==◌, length, take, inl, inr, Bool-cases, Option-cases, arith, ltb_lt, ltb_le, leb_le,
  leb_lt, leb-true,
}
use i2pd.Prelude.Bytes.{be16}
use i2pd.Tunnel.Gateway.{
  Buffer, Crypto, Outgoing, instructions, mark_fragmented, msg_id_bytes, full_length, non_fit,
  create_current_tunnel_data_message, complete_current_tunnel_data_message, put_whole,
  put_fragmented, payload_of, make_room, put_i2np_msg, follow_on,
}
use i2pd.Tunnel.Gateway
use i2pd.Tunnel.Headers.{Addressed}
use i2pd.Tunnel.Fragments.{
  holding, complete_holding, follow_on_done, follow_on_last, follow_on_next,
}
use i2pd.Tunnel.First.{length-instructions}
use i2pd.Tunnel.RoundTrip.{put_fits, put_exceeds}

follow_on-some :
    (crypto : Crypto) (fuel size k : ℕ) (m : Outgoing) (g : Buffer)
    → length m.bytes ≤ size + fuel
    → (g' : Buffer) × (follow_on crypto fuel m size k g ≡ some g')
follow_on-some crypto zero size k m g h = (g, follow_on_done crypto zero size k m g (omega arith))
follow_on-some crypto (suc fuel) size k m g h = elim (Bool-cases (ltb size (length m.bytes))) [
  | inr e ↦ (g, follow_on_done crypto (suc fuel) size k m g (ltb_le _ _ e))
  | inl e ↦ elim (Bool-cases (ltb (size + 996) (length m.bytes))) [
    | inr short ↦
        let (g', p, _) = follow_on_last crypto fuel size k m g (ltb_lt _ _ e) (ltb_le _ _ short) in
        (g', p)
    | inl long ↦
        let (g', p) = follow_on-some crypto fuel (size + 996) (k + 1) m _ (omega arith) in
        (g', follow_on_next crypto fuel size k m g (ltb_lt _ _ long) ∙ p)
  ]
]

put_fragmented-some :
    (crypto : Crypto) (b : Gateway.Block) (payload : List ℕ) (g : Buffer)
    → g.remaining_size - length (instructions b) - 6 ≤ length (b.msg.bytes ++ b.msg.behind)
    → (g' : Buffer) × (put_fragmented crypto b payload g ≡ some g')
unfolding put_fragmented
put_fragmented-some crypto b payload g readable =
    let reads : leb (g.remaining_size - length (instructions b) - 6)
          (length (b.msg.bytes ++ b.msg.behind))
        ≡ true =
      leb-true _ _ readable in
    let size = g.remaining_size - length (instructions b) - 6 in
    let content = take size (b.msg.bytes ++ b.msg.behind) in
    let first =
      payload
      ++ (mark_fragmented (instructions b) ++ (msg_id_bytes b.msg ++ (be16 size ++ content))) in
    let (g', p) =
      follow_on-some crypto (length b.msg.bytes) size 1 b.msg
        (complete_current_tunnel_data_message crypto (record g { current = some first }))
        (omega arith) in
    (g', rw reads p)

put_idle-some :
    (crypto : Crypto) (fuel : ℕ) (b : Gateway.Block) (g : Buffer)
    → Addressed b
    → g.current ≡ none
    → (g' : Buffer) × (put_i2np_msg crypto (suc fuel) b g ≡ some g')
put_idle-some crypto fuel b g a idle =
    let (_, short) = length-instructions b a in
    elim (Bool-cases (leb (full_length b) 1003)) [
      | inl e ↦ let (g', p, _) = put_fits crypto fuel b g idle (leb_le _ _ e) in (g', p)
      | inr e ↦
          let (g', p) =
            follow_on-some crypto (length b.msg.bytes) (1003 - length (instructions b) - 6) 1 b.msg
              _ (omega arith) in
          (g', put_exceeds crypto fuel b g idle (leb_lt _ _ e) short ∙ p)
    ]

put_begun-some :
    (crypto : Crypto) (b : Gateway.Block) (g : Buffer) (payload : List ℕ) (left : ℕ)
    → Addressed b
    → left ≤ 1003
    → 1003 ≤ length (b.msg.bytes ++ b.msg.behind)
    → (g' : Buffer) × (put_i2np_msg crypto 2 b (holding g payload left) ≡ some g')
unfolding put_i2np_msg make_room create_current_tunnel_data_message
put_begun-some crypto b g payload left a within readable =
    let (_, short) = length-instructions b a in
    let room : leb (length (instructions b) + 6) 1003 ≡ true = leb-true _ _ (omega arith) in
    let h = holding g payload left in
    elim (Bool-cases (leb (full_length b) left)) [
      | inl fits ↦ (put_whole crypto b (payload_of h) h, rw fits refl)
      | inr long ↦
          elim (Bool-cases (non_fit (full_length b) == 0 || ltb left (non_fit (full_length b)))) [
            | inl closes ↦
                let (g', p) =
                  put_fragmented-some crypto b []
                    (create_current_tunnel_data_message crypto
                      (complete_current_tunnel_data_message crypto h))
                    (omega arith) in
                (g', rw (long, closes, room) p)
            | inr stays ↦ elim (Bool-cases (leb (length (instructions b) + 6) left)) [
              | inl enough ↦
                  let (g', p) = put_fragmented-some crypto b payload h (omega arith) in
                  (g', rw (long, stays, enough) p)
              | inr full ↦
                  let (g', p) =
                    put_idle-some crypto 0 b (complete_current_tunnel_data_message crypto h) a
                      (complete_holding crypto g payload left).1 in
                  (g', rw (long, stays, full) p)
            ]
          ]
    ]

-- `PutI2NPMsg` always returns, and never reads outside of the message's buffer, if that buffer holds 1003
-- bytes, the address is well-formed, and no more bytes are left of a tunnel data message than a new one
-- has: two levels of calls are enough, and so are as many rounds of the loop as the message has bytes.
pub put_i2np_msg-some :
    (crypto : Crypto) (b : Gateway.Block) (g : Buffer)
    → Addressed b
    → g.remaining_size ≤ 1003
    → 1003 ≤ length (b.msg.bytes ++ b.msg.behind)
    → (g' : Buffer) × (put_i2np_msg crypto 2 b g ≡ some g')
put_i2np_msg-some crypto b g a within readable = elim (Option-cases g.current) [
  | inl idle ↦ put_idle-some crypto 1 b g a idle
  | inr (payload, busy) ↦
      let same : g ≡ holding g payload g.remaining_size =
        ap (λ (c : Option (List ℕ)). record g { current = c }) busy in
      let (g', p) = put_begun-some crypto b g payload g.remaining_size a within readable in
      (g', ap (put_i2np_msg crypto 2 b) same ∙ p)
]
