-- ===== src/Tunnel/Lost.antt =====
-- core/tunnel/TunnelGateway.cpp: a message that does not fit what is left of the tunnel data message.
use i2pd.Prelude.{
  ℕ, ◌+◌, ◌-◌, ◌≤◌, ◌<◌, ◌^◌, ◌≡◌, ap, ◌∙◌, true, false, List, [], ◌∷◌, ◌++◌, none, some, ltb, leb,
  ◌==◌, length, take, length-take, append_assoc, arith, ltb-true, leb-true, leb-false, ==_ne,
}
use i2pd.Prelude.Bytes.{be16, be32}
use i2pd.Prelude.Assoc.{lookup}
use i2pd.Tunnel.Endpoint.{Endpoint, ok, handle_decrypted_tunnel_data_msg}
use i2pd.Tunnel.Gateway.{
  Buffer, Crypto, instructions, mark_fragmented, msg_id_bytes, full_length, non_fit, payload_of,
  finished, create_current_tunnel_data_message, complete_current_tunnel_data_message,
  put_fragmented, make_room, put_i2np_msg, follow_on,
}
use i2pd.Tunnel.Gateway
use i2pd.Tunnel.Headers.{Addressed}
use i2pd.Tunnel.Layout.{IsSound, Place, tunnel_data}
use i2pd.Tunnel.Fragments.{holding, complete_holding, follow_on_done}
use i2pd.Tunnel.First.{
  HasRoom, ap_room, length-instructions, length-first_payload, first_payload, begun, receive_first,
}

non_fit-short : (full : ℕ) → full ≤ 999 → non_fit full ≡ full
non_fit-short full h = omega arith

full_length-positive : (b : Gateway.Block) → 2 ≤ full_length b
full_length-positive b = omega arith

-- What the gateway takes for the first fragment: the message, and bytes behind it.
abbrev pub over_read : Gateway.Block → List ℕ
over_read b = take (1003 - length (instructions b) - 6) (b.msg.bytes ++ b.msg.behind)

put_late :
    (crypto : Crypto) (b : Gateway.Block) (g : Buffer) (payload : List ℕ) (left : ℕ)
    → left < full_length b
    → full_length b ≤ 999
    → 1003 ≤ length (b.msg.bytes ++ b.msg.behind)
    → length (instructions b) ≤ 37
    → put_i2np_msg crypto 2 b (holding g payload left)
      ≡ some (
          complete_current_tunnel_data_message crypto (
            holding
              (complete_current_tunnel_data_message crypto (holding g payload left))
              (first_payload b (over_read b))
              1003))
unfolding put_i2np_msg put_fragmented make_room create_current_tunnel_data_message
put_late crypto b g payload left late small readable short =
    let size = 1003 - length (instructions b) - 6 in
    let too_long : leb (full_length b) left ≡ false = leb-false _ _ late in
    let fit : non_fit (full_length b) ≡ full_length b = non_fit-short (full_length b) small in
    let closes : ltb left (full_length b) ≡ true = ltb-true _ _ late in
    let some_bytes : (full_length b == 0) ≡ false =
      ==_ne _ _ (λ e. ground (arith, full_length-positive b)) in
    let room : leb (length (instructions b) + 6) 1003 ≡ true = leb-true _ _ (omega arith) in
    let reads : leb size (length (b.msg.bytes ++ b.msg.behind)) ≡ true =
      leb-true _ _ (omega arith) in
    let cut : length (over_read b) ≡ size =
      omega (arith, length-take size (b.msg.bytes ++ b.msg.behind)) in
    let h =
      holding (complete_current_tunnel_data_message crypto (holding g payload left))
        (mark_fragmented (instructions b) ++ (msg_id_bytes b.msg ++ (be16 size ++ over_read b)))
        1003 in
    let done : follow_on crypto (length b.msg.bytes) b.msg size 1
          (complete_current_tunnel_data_message crypto h)
        ≡ some (complete_current_tunnel_data_message crypto h) =
      follow_on_done crypto (length b.msg.bytes) size 1 b.msg
        (complete_current_tunnel_data_message crypto h) (omega arith) in
    rw (too_long, fit, some_bytes, closes, room, reads, cut) done

-- A message that would fit an empty tunnel data message with four bytes to spare, but not the bytes that
-- are left of the one that was begun, is lost: the gateway closes the begun one and sends one more,
-- with a first fragment that is filled up from the buffer behind the message; the endpoint takes it
-- for the beginning of a longer message and hands nothing on, and no further fragment is left to
-- send. The message's buffer holds 1003 bytes, its address and its id are well-formed, the id is
-- positive and new to the endpoint, the receiving buffer has room for 1003 bytes, hashes have four bytes
-- at least, IVs sixteen, and the padding has no zero.
pub second_message_lost :
    (crypto : Crypto) (p : Place) (b : Gateway.Block) (id : ℕ) (g : Buffer) (payload : List ℕ)
    (left : ℕ) (e : Endpoint)
    → IsSound crypto g.non_zero
    → Addressed b
    → msg_id_bytes b.msg ≡ be32 id
    → 0 < id
    → id < 2 ^ 32
    → HasRoom p 1003
    → left < full_length b
    → full_length b ≤ 999
    → 1003 ≤ length (b.msg.bytes ++ b.msg.behind)
    → lookup id e.incomplete ≡ none
    → lookup id e.out_of_sequence ≡ none
    → (g' : Buffer) × (m : List ℕ) × (e' : Endpoint) × (put_i2np_msg crypto 2 b
          (holding g payload left)
        ≡ some g')
      × (g'.current ≡ none)
      × (g'.msgs ≡ g.msgs ++ finished crypto (holding g payload left) payload ∷ m ∷ [])
      × (handle_decrypted_tunnel_data_msg crypto.sha256 (tunnel_data p m) e ≡ ok e')
      × (e'.delivered ≡ e.delivered)
      × (lookup id e'.incomplete ≡ some (begun p b (over_read b)))
second_message_lost crypto p b id g payload left e s a mid pos hid room late small readable new
      none_saved =
    let size = 1003 - length (instructions b) - 6 in
    let (_, short) = length-instructions b a in
    let done = complete_current_tunnel_data_message crypto (holding g payload left) in
    let h = holding done (first_payload b (over_read b)) 1003 in
    let cut : length (over_read b) ≡ size =
      omega (arith, length-take size (b.msg.bytes ++ b.msg.behind)) in
    let (closed, _, same) = complete_holding crypto g payload left in
    let (msgs, idle, _) = complete_holding crypto done (first_payload b (over_read b)) 1003 in
    let spare : 1003 ≡ length (over_read b) + (1003 - size) = omega arith in
    let (e', first, awaits, delivered, _, _) =
      receive_first crypto h p b id (1003 - size) (over_read b) e (rw same s) a mid pos hid
        (ap_room p spare room) (omega (arith, length-first_payload b id (over_read b) mid)) new
        none_saved in
    (
      complete_current_tunnel_data_message crypto h,
      finished crypto h (first_payload b (over_read b)),
      e',
      put_late crypto b g payload left late small readable short,
      idle,
      msgs
          ∙ ap (λ (x : List (List ℕ)). x ++ finished crypto h (first_payload b (over_read b)) ∷ [])
              closed
          ∙ append_assoc g.msgs (finished crypto (holding g payload left) payload ∷ [])
              (finished crypto h (first_payload b (over_read b)) ∷ []),
      first,
      delivered,
      awaits.found,
    )
