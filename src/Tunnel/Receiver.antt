-- ===== src/Tunnel/Receiver.antt =====
-- core/tunnel/TunnelEndpoint.cpp: the steps of the endpoint on a message whose fragments come in order.
use i2pd.Prelude.{
  ℕ, ◌+◌, ◌%◌, ◌≤◌, ◌<◌, ◌≡◌, refl, ap, ◌∙◌, true, false, List, ◌++◌, none, some, ltb, length,
  length-append, inl, inr, Bool-cases, arith,
}
use i2pd.Prelude.Assoc.{lookup, insert, erase, lookup-insert, lookup-erase}
use i2pd.Tunnel.{DeliveryType, to_local}
use i2pd.Tunnel.Endpoint.{
  Endpoint, ok, Message, Block, concatenate, handle_next_message, handle_fragment,
  handle_follow_on_fragment, join_next, handle_out_of_sequence_fragment,
}
use i2pd.Tunnel.Headers.{hash_of, id_of, follow_header}

-- A message that can grow by `more` bytes.
pub record CanGrow (m : Message) (more : ℕ) : Type 0 where
  pub in_buffer : m.max_len ≤ m.capacity
  pub in_large : m.max_len ≤ 32784
  pub has_front : 2 ≤ m.offset
  pub fits : m.offset + length m.bytes + more < 32768

concatenate-some :
    (m : Message) (content : List ℕ) (more : ℕ)
    → CanGrow m (length content + more)
    → (m' : Message) × (concatenate m content ≡ some m')
      × (m'.bytes ≡ m.bytes ++ content)
      × CanGrow m' more
unfolding concatenate
concatenate-some m content more c =
    elim (Bool-cases (ltb m.max_len (m.offset + length m.bytes + length content))) [
      | inl grows ↦ (
        record m { offset = 2; capacity = 32784; bytes = m.bytes ++ content },
        ground arith,
        refl,
        record {
          in_buffer = c.in_large;
          in_large = c.in_large;
          has_front = omega arith;
          fits = omega (arith, c.fits, c.has_front, length-append m.bytes content);
        },
      )
      | inr stays ↦ (
        record m { bytes = m.bytes ++ content },
        ground arith,
        refl,
        record {
          in_buffer = c.in_buffer;
          in_large = c.in_large;
          has_front = c.has_front;
          fits = omega (arith, c.fits, length-append m.bytes content);
        },
      )
    ]

-- What is handed on does not depend on the messages in progress.
pub handle_next_message-delivered :
    (t : DeliveryType) (hash : List ℕ) (id : ℕ) (bytes : List ℕ) (e e' : Endpoint)
    → e.delivered ≡ e'.delivered
    → e.our_ident ≡ e'.our_ident
    → e.is_inbound ≡ e'.is_inbound
    → (handle_next_message t hash id bytes e).delivered
      ≡ (handle_next_message t hash id bytes e').delivered
unfolding handle_next_message
handle_next_message-delivered to_local hash id bytes e e' d o i = ground arith
handle_next_message-delivered t hash id bytes e e' d o i = ground arith

-- Nor does it take note of an address that its delivery type has no use for.
pub handle_next_message-address :
    (t : DeliveryType) (hash : List ℕ) (id : ℕ) (bytes : List ℕ) (e : Endpoint)
    → handle_next_message t (hash_of t hash) (id_of t id) bytes e
      ≡ handle_next_message t hash id bytes e
unfolding handle_next_message
handle_next_message-address to_local hash id bytes e = refl
handle_next_message-address t hash id bytes e = refl

-- The block under `id` has the bytes `got`, and expects the fragment `k` next; nothing is saved.
pub record Awaits (id k : ℕ) (got : List ℕ) (more : ℕ) (b : Block) (e : Endpoint) : Type 0 where
  pub found : lookup id e.incomplete ≡ some b
  pub none_saved : lookup id e.out_of_sequence ≡ none
  pub next_num : b.next_fragment_num ≡ k
  pub got_bytes : b.msg.bytes ≡ got
  pub grows : CanGrow b.msg more

-- The last fragment of a message of which the endpoint has the others, and whose buffer it can grow
-- into, completes the message: its bytes so far and those of the fragment are handed on as one
-- message, to the address of the first fragment, and it is no longer incomplete.
pub handle_last :
    (id k : ℕ) (got : List ℕ) (b : Block) (m : Message) (rest : List ℕ) (e : Endpoint)
    → 0 < id
    → Awaits id k got (length m.bytes) b e
    → (e' : Endpoint) × (handle_fragment (follow_header k true id (length m.bytes) rest) m e
        ≡ ok e')
      × (e'.delivered
          ≡ (handle_next_message b.delivery_type b.hash b.tunnel_id (got ++ m.bytes) e).delivered)
      × (lookup id e'.incomplete ≡ none)
unfolding handle_fragment handle_follow_on_fragment join_next
handle_last id k got b m rest e pos a =
    let (m', c, bytes, grown) = concatenate-some b.msg m.bytes 0 (record {
      in_buffer = a.grows.in_buffer;
      in_large = a.grows.in_large;
      has_front = a.grows.has_front;
      fits = omega (arith, a.grows.fits);
    }) in
    let joined : m'.bytes ≡ got ++ m.bytes =
      bytes ∙ ap (λ (t : List ℕ). t ++ m.bytes) a.got_bytes in
    (
      record (handle_next_message b.delivery_type b.hash b.tunnel_id m'.bytes e) {
        incomplete = erase id e.incomplete;
      },
      ground (arith, a.found, a.next_num, a.grows.fits, c),
      rw joined,
      ground (arith, lookup-erase id id e.incomplete),
    )

-- Another fragment is joined to the message, which then waits for the one after it.
pub handle_next :
    (id k more : ℕ) (got : List ℕ) (b : Block) (m : Message) (rest : List ℕ) (e : Endpoint)
    → 0 < id
    → k < 64
    → Awaits id k got (length m.bytes + more) b e
    → (b' : Block) × (e' : Endpoint) × (handle_fragment
          (follow_header k false id (length m.bytes) rest)
          m
          e
        ≡ ok e')
      × Awaits id (k + 1) (got ++ m.bytes) more b' e'
      × (b'.delivery_type ≡ b.delivery_type)
      × (b'.hash ≡ b.hash)
      × (b'.tunnel_id ≡ b.tunnel_id)
      × (e'.delivered ≡ e.delivered)
      × (e'.our_ident ≡ e.our_ident)
      × (e'.is_inbound ≡ e.is_inbound)
unfolding handle_fragment handle_follow_on_fragment join_next handle_out_of_sequence_fragment
handle_next id k more got b m rest e pos hk a =
    let (m', c, bytes, grown) = concatenate-some b.msg m.bytes more a.grows in
    let b' : Block = record b { msg = m'; next_fragment_num = (b.next_fragment_num + 1) % 256 } in
    (
      b',
      record e { incomplete = insert id b' e.incomplete },
      ground (arith, a.found, a.next_num, a.none_saved, a.grows.fits, c),
      record {
        found = ground (arith, lookup-insert id id b' e.incomplete);
        none_saved = a.none_saved;
        next_num = omega (arith, a.next_num);
        got_bytes = bytes ∙ ap (λ (t : List ℕ). t ++ m.bytes) a.got_bytes;
        grows = grown;
      },
      refl,
      refl,
      refl,
      refl,
      refl,
      refl,
    )
