-- ===== src/Tunnel/RoundTrip.antt =====
-- core/tunnel: a message that is put into an empty gateway buffer, and received by the endpoint.
use i2pd.Prelude.{
  ℕ, suc, ◌+◌, ◌-◌, ◌≤◌, ◌<◌, ◌^◌, ◌≡◌, refl, ap, ◌∙◌, true, false, List, [], ◌∷◌, ◌++◌, none, some,
  leb, ◌==◌, length, take, length-append, length-take, append_assoc, inl, inr, Bool-cases, arith,
  take-append_short, leb-true, leb-false, leb_le, leb_lt,
}
use i2pd.Prelude.Bytes.{be16, be32}
use i2pd.Prelude.Assoc.{lookup}
use i2pd.Tunnel.Endpoint.{Endpoint, ok, handle_next_message}
use i2pd.Tunnel.Gateway.{
  Buffer, Crypto, Outgoing, instructions, mark_fragmented, msg_id_bytes, full_length, finished,
  create_current_tunnel_data_message, complete_current_tunnel_data_message, put_whole,
  put_fragmented, make_room, put_i2np_msg, follow_on,
}
use i2pd.Tunnel.Gateway
use i2pd.Tunnel.Headers.{Addressed}
use i2pd.Tunnel.Layout.{IsSound, Place}
use i2pd.Tunnel.Receiver.{handle_next_message-delivered, handle_next_message-address}
use i2pd.Tunnel.Fragments.{
  receive_all, receive_all-cons, counted, holding, complete_holding, complete_complete,
}
use i2pd.Tunnel.Sending.{Sent, send_rest}
use i2pd.Tunnel.First.{
  HasRoom, ap_room, length-instructions, length-first_payload, whole_payload, first_payload, begun,
  handle_next_message-incomplete, receive_whole, receive_first,
}

-- What the gateway does with a message that fits an empty tunnel data message.
pub put_fits :
    (crypto : Crypto) (fuel : ℕ) (b : Gateway.Block) (g : Buffer)
    → g.current ≡ none
    → full_length b ≤ 1003
    → let h =
        holding g (whole_payload b) (1003 - (length (instructions b) + 2 + length b.msg.bytes)) in
      (g' : Buffer) × (put_i2np_msg crypto (suc fuel) b g ≡ some g')
      × (complete_current_tunnel_data_message crypto g'
          ≡ complete_current_tunnel_data_message crypto h)
unfolding put_i2np_msg put_whole create_current_tunnel_data_message
put_fits crypto fuel b g idle fits =
    let left = 1003 - (length (instructions b) + 2 + length b.msg.bytes) in
    let h = holding g (whole_payload b) left in
    let fit : leb (full_length b) 1003 ≡ true = leb-true _ _ fits in
    let (_, c, _) = complete_holding crypto g (whole_payload b) left in
    elim (Bool-cases (left == 0)) [
      | inl full ↦ (
        complete_current_tunnel_data_message crypto h,
        rw (idle, fit, full) refl,
        complete_complete crypto (complete_current_tunnel_data_message crypto h) c,
      )
      | inr room ↦ (h, rw (idle, fit, room) refl, refl)
    ]

-- And with one that does not: the first fragment fills it.
pub put_exceeds :
    (crypto : Crypto) (fuel : ℕ) (b : Gateway.Block) (g : Buffer)
    → g.current ≡ none
    → 1003 < full_length b
    → length (instructions b) ≤ 37
    → let size = 1003 - length (instructions b) - 6 in
      let h = holding g (first_payload b (take size b.msg.bytes)) 1003 in
      put_i2np_msg crypto (suc fuel) b g
      ≡ follow_on crypto
          (length b.msg.bytes)
          b.msg
          size
          1
          (complete_current_tunnel_data_message crypto h)
unfolding put_i2np_msg put_fragmented make_room create_current_tunnel_data_message
put_exceeds crypto fuel b g idle long short =
    let size = 1003 - length (instructions b) - 6 in
    let too_long : leb (full_length b) 1003 ≡ false = leb-false _ _ long in
    let room : leb (length (instructions b) + 6) 1003 ≡ true = leb-true _ _ (omega arith) in
    let within : size ≤ length b.msg.bytes = omega arith in
    let readable : leb size (length (b.msg.bytes ++ b.msg.behind)) ≡ true =
      leb-true _ _ (omega (arith, length-append b.msg.bytes b.msg.behind)) in
    let front : take size (b.msg.bytes ++ b.msg.behind) ≡ take size b.msg.bytes =
      take-append_short size b.msg.bytes b.msg.behind within in
    let cut : length (take size b.msg.bytes) ≡ size = omega (arith, length-take size b.msg.bytes) in
    rw (idle, too_long, room, readable, front, cut) refl

put_whole_received :
    (crypto : Crypto) (p : Place) (b : Gateway.Block) (id : ℕ) (g : Buffer) (e : Endpoint)
    → IsSound crypto g.non_zero
    → Addressed b
    → g.current ≡ none
    → full_length b ≤ 1003
    → lookup id e.incomplete ≡ none
    → Sent crypto p id
        (handle_next_message b.delivery_type b.hash b.tunnel_id b.msg.bytes)
        g
        (put_i2np_msg crypto 2 b g)
        e
put_whole_received crypto p b id g e s a idle fits new =
    let payload = whole_payload b in
    let left = 1003 - (length (instructions b) + 2 + length b.msg.bytes) in
    let h = holding g payload left in
    let small : length payload ≤ 1003 =
      omega (arith, length-append (instructions b) (be16 (length b.msg.bytes) ++ b.msg.bytes)) in
    let e' = handle_next_message b.delivery_type b.hash b.tunnel_id b.msg.bytes (counted e) in
    let (g', made, same) = put_fits crypto 1 b g idle fits in
    record {
      result = g';
      succeeds = made;
      messages = finished crypto h payload ∷ [];
      completed = ap (λ (x : Buffer). x.msgs) same ∙ (complete_holding crypto g payload left).0;
      receiver = e';
      received =
          receive_all-cons crypto p (finished crypto h payload) [] e e'
            (receive_whole crypto h p b e s a small);
      delivered =
          handle_next_message-delivered b.delivery_type b.hash b.tunnel_id b.msg.bytes (counted e) e
            refl refl refl;
      forgotten =
          ap (lookup id) (
            handle_next_message-incomplete b.delivery_type b.hash b.tunnel_id b.msg.bytes
              (counted e))
          ∙ new;
    }

put_fragmented_received :
    (crypto : Crypto) (p : Place) (b : Gateway.Block) (id : ℕ) (g : Buffer) (e : Endpoint)
    → IsSound crypto g.non_zero
    → Addressed b
    → msg_id_bytes b.msg ≡ be32 id
    → 0 < id
    → id < 2 ^ 32
    → HasRoom p (length b.msg.bytes)
    → g.current ≡ none
    → 1003 < full_length b
    → lookup id e.incomplete ≡ none
    → lookup id e.out_of_sequence ≡ none
    → Sent crypto p id
        (handle_next_message b.delivery_type b.hash b.tunnel_id b.msg.bytes)
        g
        (put_i2np_msg crypto 2 b g)
        e
put_fragmented_received crypto p b id g e s a mid pos hid room idle long new none_saved =
    let bytes = b.msg.bytes in
    let (_, short) = length-instructions b a in
    let size = 1003 - length (instructions b) - 6 in
    let content = take size bytes in
    let payload = first_payload b content in
    let h = holding g payload 1003 in
    let cut : length content ≡ size = omega (arith, length-take size bytes) in
    let (msgs, _, same) = complete_holding crypto g payload 1003 in
    let parts : length bytes ≡ length content + (length bytes - size) = omega arith in
    let (e₁, first, awaits, delivered, ident, inbound) =
      receive_first crypto h p b id (length bytes - size) content e s a mid pos hid
        (ap_room p parts room) (omega (arith, length-first_payload b id content mid)) new
        none_saved in
    let rest =
      send_rest crypto p (length bytes) id size 1 b.msg (begun p b content)
        (complete_current_tunnel_data_message crypto h) e₁ (rw same s) mid pos hid (omega arith)
        (omega arith) (omega (arith, room.fits)) awaits in
    record {
      result = rest.result;
      succeeds = put_exceeds crypto 1 b g idle long short ∙ rest.succeeds;
      messages = finished crypto h payload ∷ rest.messages;
      completed =
          rest.completed
          ∙ ap (λ (x : List (List ℕ)). x ++ rest.messages) msgs
          ∙ append_assoc g.msgs (finished crypto h payload ∷ []) rest.messages;
      receiver = rest.receiver;
      received =
          receive_all-cons crypto p (finished crypto h payload) rest.messages e e₁ first
          ∙ rest.received;
      delivered =
          rest.delivered
          ∙ ap (λ (x : Endpoint). x.delivered)
              (handle_next_message-address b.delivery_type b.hash b.tunnel_id bytes e₁)
          ∙ handle_next_message-delivered b.delivery_type b.hash b.tunnel_id bytes e₁ e delivered
              ident inbound;
      forgotten = rest.forgotten;
    }

-- A message that is put into a gateway buffer with no tunnel data message begun, is completed and
-- received in order, arrives: `PutI2NPMsg` succeeds, whether the message fits one tunnel data message or
-- is cut into fragments; the endpoint accepts every tunnel data message that it makes; what the
-- endpoint hands on is just the message's bytes, once, to the message's address; and no part of the
-- message is left incomplete. The address is well-formed, the message id is positive and nothing is
-- known of it at the endpoint, the receiving buffers have room for the message, hashes have four
-- bytes at least, IVs sixteen, and the padding has no zero.
pub put-receive_all :
    (crypto : Crypto) (p : Place) (b : Gateway.Block) (id : ℕ) (g : Buffer) (e : Endpoint)
    → IsSound crypto g.non_zero
    → Addressed b
    → msg_id_bytes b.msg ≡ be32 id
    → 0 < id
    → id < 2 ^ 32
    → HasRoom p (length b.msg.bytes)
    → g.current ≡ none
    → lookup id e.incomplete ≡ none
    → lookup id e.out_of_sequence ≡ none
    → (g' : Buffer) × (ms : List (List ℕ)) × (e' : Endpoint) × (put_i2np_msg crypto 2 b g ≡ some g')
      × ((complete_current_tunnel_data_message crypto g').msgs ≡ g.msgs ++ ms)
      × (receive_all crypto p ms e ≡ ok e')
      × (e'.delivered
          ≡ (handle_next_message b.delivery_type b.hash b.tunnel_id b.msg.bytes e).delivered)
      × (lookup id e'.incomplete ≡ none)
put-receive_all crypto p b id g e s a mid pos hid room idle new none_saved =
    let r : Sent crypto p id (handle_next_message b.delivery_type b.hash b.tunnel_id b.msg.bytes) g
        (put_i2np_msg crypto 2 b g) e =
      elim (Bool-cases (leb (full_length b) 1003)) [
        | inl fits ↦ put_whole_received crypto p b id g e s a idle (leb_le _ _ fits) new
        | inr long ↦
            put_fragmented_received crypto p b id g e s a mid pos hid room idle (leb_lt _ _ long)
              new none_saved
      ] in
    (
      r.result, r.messages, r.receiver, r.succeeds, r.completed, r.received, r.delivered,
      r.forgotten,
    )
