-- ===== src/Tunnel/First.antt =====
-- core/tunnel: the endpoint receives a whole message, or the first fragment of one.
use i2pd.Prelude.{
  ℕ, ◌+◌, ◌-◌, ◌≤◌, ◌<◌, ◌^◌, ◌≡◌, refl, ap, ◌∙◌, List, [], ◌∷◌, ◌++◌, none, length, length-append,
  append_assoc, arith,
}
use i2pd.Prelude.Bytes.{be16, be32}
use i2pd.Prelude.Assoc.{lookup, insert, lookup-insert}
use i2pd.Tunnel.{DeliveryType, to_local, to_tunnel}
use i2pd.Tunnel.Endpoint.{
  Endpoint, Outcome, ok, Message, handle_next_message, handle_fragment,
  handle_out_of_sequence_fragment, handle_decrypted_tunnel_data_msg,
}
use i2pd.Tunnel.Endpoint
use i2pd.Tunnel.Gateway.{
  Buffer, Crypto, Outgoing, instructions, mark_fragmented, msg_id_bytes, full_length, finished,
  create_current_tunnel_data_message, complete_current_tunnel_data_message, put_whole,
  put_fragmented, make_room, put_i2np_msg, follow_on,
}
use i2pd.Tunnel.Gateway
use i2pd.Tunnel.Headers.{Addressed, first_header, hash_of, id_of, parse_whole, parse_first}
use i2pd.Tunnel.Layout.{IsSound, Place, tunnel_data, handle_finished, handle_single, in_place}
use i2pd.Tunnel.Receiver.{Awaits, handle_next_message-address}
use i2pd.Tunnel.Fragments.{counted}

-- A place in which tunnel data messages are received, with room for a message of `size` bytes.
pub record HasRoom (p : Place) (size : ℕ) : Type 0 where
  pub in_buffer : p.max_len ≤ p.capacity
  pub in_large : p.max_len ≤ 32784
  pub has_front : 2 ≤ p.start
  pub fits : p.start + 1008 + size < 32768

-- The fields of the instructions in front of a message, with their sizes.
length-instructions_fields :
    (t : DeliveryType) (hash : List ℕ) (id : ℕ) (m : Outgoing)
    → length hash ≡ 32
    → let b : Gateway.Block = record { delivery_type = t; hash = hash; tunnel_id = id; msg = m } in
      (1 ≤ length (instructions b)) × (length (instructions b) ≤ 37)
unfolding instructions
length-instructions_fields to_local hash id m h = omega arith
length-instructions_fields to_tunnel hash id m h = omega (arith, h)
length-instructions_fields t hash id m h = omega (arith, h)

pub length-instructions :
    (b : Gateway.Block)
    → Addressed b
    → (1 ≤ length (instructions b)) × (length (instructions b) ≤ 37)
length-instructions b a =
    length-instructions_fields b.delivery_type b.hash b.tunnel_id b.msg a.hash_size

length-mark_fragmented : (di : List ℕ) → length (mark_fragmented di) ≡ length di
unfolding mark_fragmented
length-mark_fragmented [] = refl
length-mark_fragmented (flag ∷ rest) = refl

-- The payload with a message in one piece, and with the first fragment of one.
abbrev pub whole_payload : Gateway.Block → List ℕ
whole_payload b = instructions b ++ (be16 (length b.msg.bytes) ++ b.msg.bytes)

abbrev pub first_payload : Gateway.Block → List ℕ → List ℕ
first_payload b content =
    mark_fragmented (instructions b) ++ (msg_id_bytes b.msg ++ (be16 (length content) ++ content))

pub handle_next_message-incomplete :
    (t : DeliveryType) (hash : List ℕ) (id : ℕ) (bytes : List ℕ) (e : Endpoint)
    → (handle_next_message t hash id bytes e).incomplete ≡ e.incomplete
unfolding handle_next_message
handle_next_message-incomplete to_local hash id bytes e = refl
handle_next_message-incomplete t hash id bytes e = ground arith

-- A tunnel data message with a whole message is handled as that message.
pub receive_whole :
    (crypto : Crypto) (g : Buffer) (p : Place) (b : Gateway.Block) (e : Endpoint)
    → IsSound crypto g.non_zero
    → Addressed b
    → length (whole_payload b) ≤ 1003
    → handle_decrypted_tunnel_data_msg crypto.sha256
        (tunnel_data p (finished crypto g (whole_payload b)))
        e
      ≡ ok (handle_next_message b.delivery_type b.hash b.tunnel_id b.msg.bytes (counted e))
unfolding handle_fragment
receive_whole crypto g p b e s a small =
    let n = length b.msg.bytes in
    let payload = whole_payload b in
    let t = tunnel_data p (finished crypto g payload) in
    let tail = t.iv ++ p.behind in
    let size : length payload ≡ length (instructions b) + 2 + n =
      omega (arith, length-append (instructions b) (be16 n ++ b.msg.bytes)) in
    let (front, _) = length-instructions b a in
    let shape : payload ++ tail ≡ instructions b ++ (be16 n ++ (b.msg.bytes ++ tail)) =
      append_assoc (instructions b) (be16 n ++ b.msg.bytes) tail in
    handle_finished crypto g payload p e s
    ∙ handle_single (length payload) (length payload) t (p.start + (1008 - length payload))
        (payload ++ tail) b.msg.bytes tail (first_header b 0 n (b.msg.bytes ++ tail)) (counted e)
        (ap Endpoint.parse_header shape ∙ parse_whole b n (b.msg.bytes ++ tail) a (omega arith))
        refl refl size (omega arith) (omega arith)
    ∙ ap ok (handle_next_message-address b.delivery_type b.hash b.tunnel_id b.msg.bytes (counted e))

-- The message that the first fragment begins.
abbrev pub begun : Place → Gateway.Block → List ℕ → Endpoint.Block
begun p b content = record {
  delivery_type = b.delivery_type;
  hash = hash_of b.delivery_type b.hash;
  tunnel_id = id_of b.delivery_type b.tunnel_id;
  msg = in_place p (length (first_payload b content)) (length (instructions b) + 6) content;
  next_fragment_num = 1;
}

pub length-first_payload :
    (b : Gateway.Block) (id : ℕ) (content : List ℕ)
    → msg_id_bytes b.msg ≡ be32 id
    → length (first_payload b content) ≡ length (instructions b) + 6 + length content
length-first_payload b id content mid = omega (
  arith,
  length-append (mark_fragmented (instructions b))
      (msg_id_bytes b.msg ++ (be16 (length content) ++ content)),
  length-append (msg_id_bytes b.msg) (be16 (length content) ++ content),
  length-mark_fragmented (instructions b),
  ap length mid,
)

used_fragmented :
    (b : Gateway.Block) (id n : ℕ) (rest : List ℕ)
    → 0 < id
    → (first_header b id n rest).used ≡ length (instructions b) + 6
used_fragmented b id n rest pos = ground arith

pub ap_room : (p : Place) {n k : ℕ} → n ≡ k → HasRoom p n → HasRoom p k
ap_room p e room = record {
  in_buffer = room.in_buffer;
  in_large = room.in_large;
  has_front = room.has_front;
  fits = omega (arith, room.fits, e);
}

begin_message :
    (p : Place) (b : Gateway.Block) (id more : ℕ) (content rest : List ℕ) (e : Endpoint)
    → 0 < id
    → HasRoom p (length content + more)
    → length (first_payload b content) ≡ length (instructions b) + 6 + length content
    → length (first_payload b content) ≤ 1003
    → lookup id e.incomplete ≡ none
    → lookup id e.out_of_sequence ≡ none
    → (e' : Endpoint) × (handle_fragment
          (first_header b id (length content) rest)
          (in_place p (length (first_payload b content)) (length (instructions b) + 6) content)
          (counted e)
        ≡ ok e')
      × Awaits id 1 content more (begun p b content) e'
      × (e'.delivered ≡ e.delivered)
      × (e'.our_ident ≡ e.our_ident)
      × (e'.is_inbound ≡ e.is_inbound)
unfolding handle_fragment handle_out_of_sequence_fragment
begin_message p b id more content rest e pos room size short new none_saved = (
  record (counted e) { incomplete = insert id (begun p b content) e.incomplete },
  ground (arith, new, none_saved),
  record {
    found = ground (arith, lookup-insert id id (begun p b content) e.incomplete);
    none_saved = none_saved;
    next_num = refl;
    got_bytes = refl;
    grows = record {
      in_buffer = room.in_buffer;
      in_large = room.in_large;
      has_front = omega (arith, room.has_front);
      fits = omega (arith, room.fits);
    };
  },
  refl,
  refl,
  refl,
)

-- A tunnel data message with the first fragment of a message begins that message.
pub receive_first :
    (crypto : Crypto) (g : Buffer) (p : Place) (b : Gateway.Block) (id more : ℕ) (content : List ℕ)
    (e : Endpoint)
    → IsSound crypto g.non_zero
    → Addressed b
    → msg_id_bytes b.msg ≡ be32 id
    → 0 < id
    → id < 2 ^ 32
    → HasRoom p (length content + more)
    → length (first_payload b content) ≤ 1003
    → lookup id e.incomplete ≡ none
    → lookup id e.out_of_sequence ≡ none
    → (e' : Endpoint) × (handle_decrypted_tunnel_data_msg crypto.sha256
          (tunnel_data p (finished crypto g (first_payload b content)))
          e
        ≡ ok e')
      × Awaits id 1 content more (begun p b content) e'
      × (e'.delivered ≡ e.delivered)
      × (e'.our_ident ≡ e.our_ident)
      × (e'.is_inbound ≡ e.is_inbound)
receive_first crypto g p b id more content e s a mid pos hid room short new none_saved =
    let n = length content in
    let payload = first_payload b content in
    let t = tunnel_data p (finished crypto g payload) in
    let tail = t.iv ++ p.behind in
    let size : length payload ≡ length (instructions b) + 6 + n =
      length-first_payload b id content mid in
    let (front, _) = length-instructions b a in
    let h = first_header b id n (content ++ tail) in
    let shape : payload ++ tail
        ≡ mark_fragmented (instructions b) ++ (be32 id ++ (be16 n ++ (content ++ tail))) =
      append_assoc (mark_fragmented (instructions b)) (msg_id_bytes b.msg ++ (be16 n ++ content))
        tail
      ∙ ap
          (λ (x : List ℕ). mark_fragmented (instructions b) ++ ((x ++ (be16 n ++ content)) ++ tail))
          mid in
    let used : h.used ≡ length (instructions b) + 6 =
      used_fragmented b id n (content ++ tail) pos in
    let (e', begins, awaits, delivered, ident, inbound) =
      begin_message p b id more content (content ++ tail) e pos room size short new none_saved in
    (
      e',
      handle_finished crypto g payload p e s
          ∙ handle_single (length payload) (length payload) t (p.start + (1008 - length payload))
              (payload ++ tail) content tail h (counted e)
              (ap Endpoint.parse_header shape
                ∙ parse_first b id n (content ++ tail) a pos hid (omega arith))
              refl refl (omega arith) (omega arith) (omega arith)
          ∙ ap (λ (k : ℕ). handle_fragment h (in_place p (length payload) k content) (counted e))
              used
          ∙ begins,
      awaits,
      delivered,
      ident,
      inbound,
    )
