-- ===== src/Tunnel/Sending.antt =====
-- core/tunnel: the follow-on fragments that the gateway sends, one tunnel data message after the other.
use i2pd.Prelude.{
  ℕ, zero, suc, ◌+◌, ◌-◌, ◌*◌, ◌≤◌, ◌<◌, ◌^◌, ◌≡◌, refl, ap, sym, ◌∙◌, true, false, List, [], ◌∷◌,
  ◌++◌, Option, none, some, ltb, length, take, drop, length-take, length-drop, take-append-drop,
  append_assoc, inl, inr, Bool-cases, arith, take_add, ltb_lt, ltb_le,
}
use i2pd.Prelude.Bytes.{be32}
use i2pd.Prelude.Assoc.{lookup}
use i2pd.Tunnel.Endpoint.{
  Endpoint, Outcome, ok, overrun, stuck, Message, Header, TunnelData, handle_next_message,
  handle_fragment, handle_fragments, handle_decrypted_tunnel_data_msg,
}
use i2pd.Tunnel.Endpoint
use i2pd.Tunnel.Gateway.{
  Buffer, Crypto, Outgoing, msg_id_bytes, finished, complete_current_tunnel_data_message, follow_on,
}
use i2pd.Tunnel.Layout.{IsSound, Place, in_place}
use i2pd.Tunnel.Receiver.{Awaits, handle_last, handle_next, handle_next_message-delivered}
use i2pd.Tunnel.Fragments.{
  follow_payload, receive_all, receive_all-cons, counted, receive_follow, holding, complete_holding,
  follow_on_last, follow_on_next,
}

-- The fragments of `m` from the byte `size` on are sent, received, and complete the message.
pub record Sent (crypto : Crypto) (p : Place) (id : ℕ) (t : Endpoint → Endpoint) (g : Buffer)
    (o : Option Buffer) (e : Endpoint) : Type 0 where
  pub result : Buffer
  pub succeeds : o ≡ some result
  pub messages : List (List ℕ)
  pub completed : (complete_current_tunnel_data_message crypto result).msgs ≡ g.msgs ++ messages
  pub receiver : Endpoint
  pub received : receive_all crypto p messages e ≡ ok receiver
  pub delivered : receiver.delivered ≡ (t e).delivered
  pub forgotten : lookup id receiver.incomplete ≡ none

-- What the receiver hands on for the block.
abbrev pub hand_on : Endpoint.Block → List ℕ → Endpoint → Endpoint
hand_on b bytes e = handle_next_message b.delivery_type b.hash b.tunnel_id bytes e

Awaits-counted :
    (id k more : ℕ) (got : List ℕ) (b : Endpoint.Block) (e : Endpoint)
    → Awaits id k got more b e
    → Awaits id k got more b (counted e)
Awaits-counted id k more got b e a = record {
  found = a.found;
  none_saved = a.none_saved;
  next_num = a.next_num;
  got_bytes = a.got_bytes;
  grows = a.grows;
}

send_last :
    (crypto : Crypto) (p : Place) (fuel id size k : ℕ) (m : Outgoing) (b : Endpoint.Block)
    (g : Buffer) (e : Endpoint)
    → IsSound crypto g.non_zero
    → msg_id_bytes m ≡ be32 id
    → 0 < id
    → id < 2 ^ 32
    → k < 64
    → size < length m.bytes
    → length m.bytes ≤ size + 996
    → Awaits id k (take size m.bytes) (length m.bytes - size) b e
    → Sent crypto p id (hand_on b m.bytes) g (follow_on crypto (suc fuel) m size k g) e
send_last crypto p fuel id size k m b g e s mid pos hid hk lo hi a =
    let content = drop size m.bytes in
    let payload = follow_payload k true m content in
    let h = holding g payload (1003 - (length m.bytes - size + 7)) in
    let left : length content ≡ length m.bytes - size = length-drop size m.bytes in
    let (g', made, same) = follow_on_last crypto fuel size k m g lo hi in
    let (rest, got) = receive_follow crypto h p k id true m content e s mid hid hk (omega arith) in
    let (e', last, delivered, forgotten) =
      handle_last id k (take size m.bytes) b (in_place p (length payload) 7 content) rest
        (counted e) pos
        (Awaits-counted id k (length content) (take size m.bytes) b e (rw left a)) in
    record {
      result = g';
      succeeds = made;
      messages = finished crypto h payload ∷ [];
      completed =
          ap (λ (x : Buffer). x.msgs) same
          ∙ (complete_holding crypto g payload (1003 - (length m.bytes - size + 7))).0;
      receiver = e';
      received = receive_all-cons crypto p (finished crypto h payload) [] e e' (got ∙ last);
      delivered =
          delivered
          ∙ handle_next_message-delivered b.delivery_type b.hash b.tunnel_id
              (take size m.bytes ++ content) (counted e) e refl refl refl
          ∙ ap (λ (x : List ℕ). (hand_on b x e).delivered) (take-append-drop size m.bytes);
      forgotten = forgotten;
    }

pub send_rest :
    (crypto : Crypto) (p : Place) (fuel id size k : ℕ) (m : Outgoing) (b : Endpoint.Block)
    (g : Buffer) (e : Endpoint)
    → IsSound crypto g.non_zero
    → msg_id_bytes m ≡ be32 id
    → 0 < id
    → id < 2 ^ 32
    → size < length m.bytes
    → length m.bytes ≤ size + fuel
    → length m.bytes + k * 996 ≤ size + 63744
    → Awaits id k (take size m.bytes) (length m.bytes - size) b e
    → Sent crypto p id (hand_on b m.bytes) g (follow_on crypto fuel m size k g) e
send_rest crypto p zero id size k m b g e s mid pos hid lo fuel_ok few a = absurd (omega arith)
send_rest crypto p (suc fuel) id size k m b g e s mid pos hid lo fuel_ok few a =
    elim (Bool-cases (ltb (size + 996) (length m.bytes))) [
      | inr short ↦
          send_last crypto p fuel id size k m b g e s mid pos hid (omega arith) lo
            (ltb_le _ _ short) a
      | inl long ↦
          let more : size + 996 < length m.bytes = ltb_lt _ _ long in
          let content = take 996 (drop size m.bytes) in
          let payload = follow_payload k false m content in
          let h = holding g payload 1003 in
          let full : length content ≡ 996 =
            omega (arith, length-take 996 (drop size m.bytes), length-drop size m.bytes) in
          let (msgs, _, same) = complete_holding crypto g payload 1003 in
          let (rest, got) =
            receive_follow crypto h p k id false m content e s mid hid (omega arith)
              (omega arith) in
          let split : length m.bytes - size ≡ length content + (length m.bytes - (size + 996)) =
            omega arith in
          let (b', e', next, awaits, type, hash, tunnel, delivered, ident, inbound) =
            handle_next id k (length m.bytes - (size + 996)) (take size m.bytes) b
              (in_place p (length payload) 7 content) rest (counted e) pos (omega arith)
              (Awaits-counted id k _ (take size m.bytes) b e (rw (sym split) a)) in
          let rest_sent =
            send_rest crypto p fuel id (size + 996) (k + 1) m b'
              (complete_current_tunnel_data_message crypto h) e' (rw same s) mid pos hid more
              (omega arith) (omega arith) (rw (take_add size 996 m.bytes) awaits) in
          record {
            result = rest_sent.result;
            succeeds = follow_on_next crypto fuel size k m g more ∙ rest_sent.succeeds;
            messages = finished crypto h payload ∷ rest_sent.messages;
            completed =
                rest_sent.completed
                ∙ ap (λ (x : List (List ℕ)). x ++ rest_sent.messages) msgs
                ∙ append_assoc g.msgs (finished crypto h payload ∷ []) rest_sent.messages;
            receiver = rest_sent.receiver;
            received =
                receive_all-cons crypto p (finished crypto h payload) rest_sent.messages e e'
                  (got ∙ next)
                ∙ rest_sent.received;
            delivered =
                rest_sent.delivered
                ∙ rw (type, hash, tunnel)
                    (handle_next_message-delivered b.delivery_type b.hash b.tunnel_id m.bytes e' e
                      delivered ident inbound);
            forgotten = rest_sent.forgotten;
          }
    ]
