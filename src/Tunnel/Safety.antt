-- ===== src/Tunnel/Safety.antt =====
-- core/tunnel/TunnelEndpoint.cpp: what an endpoint does with tunnel data messages of any content.
use i2pd.Prelude.{
  ℕ, zero, suc, ◌+◌, ◌-◌, ◌%◌, ◌≤◌, ◌≡◌, refl, Bool, true, false, List, [], ◌∷◌, ◌++◌, some, ltb,
  leb, ◌==◌, length, take, drop, All, inl, inr, Option-cases, Bool-cases, arith,
}
use i2pd.Prelude.Bytes.{same_bytes}
use i2pd.Prelude.Assoc.{lookup, insert, erase}
use i2pd.Tunnel.{DeliveryType, to_local, to_tunnel, to_router, to_unknown}
use i2pd.Tunnel.Endpoint.{
  Endpoint, Outcome, ok, overrun, stuck, ◌>>=◌, join_saved, Delivery, handled, via_gateway, sent,
  Message, Block, Fragment, Header, handle_next_message, concatenate, add_out_of_sequence_fragment,
  handle_out_of_sequence_fragment, join_next, handle_follow_on_fragment, parse_header,
  handle_fragment, TunnelData, fragment_message, handle_fragments, after_zero,
  handle_decrypted_tunnel_data_msg,
}

-- A message that is not sent to a router as its destination; one for a tunnel goes to the tunnel's gateway.
abbrev pub NotToRouter : Delivery → Type 0
NotToRouter (sent hash bytes) = ⊥
NotToRouter _ = Unit {0}

-- An endpoint of an inbound tunnel that has sent no message to a router as its destination.
pub record Safe (e : Endpoint) : Type 0 where
  pub inbound : e.is_inbound ≡ true
  pub none_sent : All NotToRouter e.delivered

-- An outcome that leaves a safe endpoint, or stopped at a read outside of a buffer; fuel never runs out.
abbrev pub StaysSafe : Outcome → Type 0
StaysSafe (ok e) = Safe e
StaysSafe overrun = Unit {0}
StaysSafe stuck = ⊥

All-snoc :
    (ds : List Delivery) (d : Delivery)
    → All NotToRouter ds
    → NotToRouter d
    → All NotToRouter (ds ++ d ∷ [])
All-snoc [] d h n = (n, tt)
All-snoc (x ∷ ds) d (hx, hs) n = (hx, All-snoc ds d hs n)

handle_next_message-Safe :
    (t : DeliveryType) (hash : List ℕ) (id : ℕ) (bytes : List ℕ) (e : Endpoint)
    → Safe e
    → Safe (handle_next_message t hash id bytes e)
unfolding handle_next_message
handle_next_message-Safe to_local hash id bytes e s = record {
  inbound = s.inbound;
  none_sent = All-snoc e.delivered (handled bytes) s.none_sent tt;
}
handle_next_message-Safe to_tunnel hash id bytes e s = record {
  inbound = s.inbound;
  none_sent = All-snoc e.delivered (via_gateway hash id bytes) s.none_sent tt;
}
handle_next_message-Safe to_router hash id bytes e s =
    let whole : All NotToRouter (e.delivered ++ handled bytes ∷ []) =
      All-snoc e.delivered (handled bytes) s.none_sent tt in
    record {
      inbound = ground (arith, s.inbound);
      none_sent = ground (arith, s.inbound, s.none_sent, whole);
    }
handle_next_message-Safe to_unknown hash id bytes e s = s

-- Only the logs of deliveries matter.
Safe-same :
    (e e' : Endpoint) → e'.is_inbound ≡ e.is_inbound → e'.delivered ≡ e.delivered → Safe e → Safe e'
Safe-same e e' i d s = record { inbound = rw i s.inbound; none_sent = rw d s.none_sent }

becomes : (r r' : Outcome) → r ≡ r' → StaysSafe r' → StaysSafe r
becomes r r' e s = rw e s

join_saved-Safe :
    (id : ℕ) (b : Block) (f : Fragment) (e : Endpoint) → Safe e → StaysSafe (join_saved id b f e)
join_saved-Safe id b f e s = elim (Option-cases (concatenate b.msg f.msg.bytes)) [
  | inl c ↦ becomes _ overrun (ground (arith, c)) tt
  | inr (m, c) ↦
      let e' = record e { out_of_sequence = erase id e.out_of_sequence } in
      let done = handle_next_message b.delivery_type b.hash b.tunnel_id m.bytes e' in
      elim (Bool-cases f.is_last_fragment) [
        | inl l ↦
            becomes _ (ok (record done { incomplete = erase id e.incomplete }))
              (ground (arith, c, l))
              (Safe-same done _ refl refl (
                handle_next_message-Safe b.delivery_type b.hash b.tunnel_id m.bytes e'
                  (Safe-same e e' refl refl s)))
        | inr l ↦
            becomes _
              (ok (record e' {
                incomplete =
                    insert id
                      (record b { msg = m; next_fragment_num = (b.next_fragment_num + 1) % 256 })
                      e.incomplete;
              }))
              (ground (arith, c, l)) (Safe-same e _ refl refl s)
      ]
]

handle_out_of_sequence_fragment-Safe :
    (id : ℕ) (b : Block) (e : Endpoint)
    → Safe e
    → StaysSafe (handle_out_of_sequence_fragment id b e)
unfolding handle_out_of_sequence_fragment
handle_out_of_sequence_fragment-Safe id b e s = elim (Option-cases (lookup id e.out_of_sequence)) [
  | inl p ↦ becomes _ (ok e) (ground (arith, p)) s
  | inr (f, p) ↦ elim (Bool-cases (f.fragment_num == b.next_fragment_num)) [
    | inr q ↦ becomes _ (ok e) (ground (arith, p, q)) s
    | inl q ↦ becomes _ (join_saved id b f e) (ground (arith, p, q)) (join_saved-Safe id b f e s)
  ]
]

join_next-Safe :
    (id : ℕ) (last : Bool) (m : Message) (b : Block) (e : Endpoint)
    → Safe e
    → StaysSafe (join_next id last m b e)
unfolding join_next
join_next-Safe id last m b e s =
    elim (Bool-cases (ltb (b.msg.offset + length b.msg.bytes + length m.bytes) 32768)) [
      | inr q ↦ rw q (Safe-same e _ refl refl s)
      | inl q ↦ elim (Option-cases (concatenate b.msg m.bytes)) [
        | inl c ↦ rw (q, c) tt
        | inr (joined, c) ↦ elim (Bool-cases last) [
          | inl l ↦
              rw (q, c, l)
                (Safe-same (handle_next_message b.delivery_type b.hash b.tunnel_id joined.bytes e) _
                  refl refl
                  (handle_next_message-Safe b.delivery_type b.hash b.tunnel_id joined.bytes e s))
          | inr l ↦
              let b' = record b {
                msg = joined;
                next_fragment_num = (b.next_fragment_num + 1) % 256;
              } in
              rw (q, c, l)
                (handle_out_of_sequence_fragment-Safe id b'
                  (record e { incomplete = insert id b' e.incomplete }) (Safe-same e _ refl refl s))
        ]
      ]
    ]

add_out_of_sequence_fragment-Safe :
    (id num : ℕ) (last : Bool) (m : Message) (e : Endpoint)
    → Safe e
    → Safe (add_out_of_sequence_fragment id num last m e)
unfolding add_out_of_sequence_fragment
add_out_of_sequence_fragment-Safe id num last m e s =
    Safe-same e (add_out_of_sequence_fragment id num last m e) (ground arith) (ground arith) s

handle_follow_on_fragment-Safe :
    (id : ℕ) (last : Bool) (num : ℕ) (m : Message) (e : Endpoint)
    → Safe e
    → StaysSafe (handle_follow_on_fragment id last num m e)
unfolding handle_follow_on_fragment
handle_follow_on_fragment-Safe id last num m e s =
    let saved = add_out_of_sequence_fragment id num last m e in
    let safe = add_out_of_sequence_fragment-Safe id num last m e s in
    elim (Option-cases (lookup id e.incomplete)) [
      | inl p ↦ becomes _ (ok saved) (ground (arith, p)) safe
      | inr (b, p) ↦ elim (Bool-cases (num == b.next_fragment_num)) [
        | inl q ↦
            becomes _ (join_next id last m b e) (ground (arith, p, q))
              (join_next-Safe id last m b e s)
        | inr q ↦ becomes _ (ok saved) (ground (arith, p, q)) safe
      ]
    ]

begin-Safe :
    (h : Header) (m : Message) (e : Endpoint)
    → h.is_follow_on ≡ false
    → h.is_last ≡ false
    → (h.msg_id == 0) ≡ false
    → Safe e
    → StaysSafe (handle_fragment h m e)
unfolding handle_fragment
begin-Safe h m e f l z s =
    let b : Block = record {
      delivery_type = h.delivery_type;
      hash = h.hash;
      tunnel_id = h.tunnel_id;
      msg = m;
      next_fragment_num = 1;
    } in
    elim (Option-cases (lookup h.msg_id e.incomplete)) [
      | inl p ↦
          rw (f, l, z, p)
            (handle_out_of_sequence_fragment-Safe h.msg_id b
              (record e { incomplete = insert h.msg_id b e.incomplete })
              (Safe-same e _ refl refl s))
      | inr (b', p) ↦ rw (f, l, z, p) s
    ]

handle_fragment-Safe :
    (h : Header) (m : Message) (e : Endpoint) → Safe e → StaysSafe (handle_fragment h m e)
unfolding handle_fragment
handle_fragment-Safe h m e s = elim (Bool-cases h.is_follow_on) [
  | inr f ↦ elim (Bool-cases h.is_last) [
    | inl l ↦ rw (f, l) (handle_next_message-Safe h.delivery_type h.hash h.tunnel_id m.bytes e s)
    | inr l ↦ elim (Bool-cases (h.msg_id == 0)) [
      | inl z ↦ rw (f, l, z) s
      | inr z ↦ begin-Safe h m e f l z s
    ]
  ]
  | inl f ↦ elim (Bool-cases (h.msg_id == 0)) [
    | inl z ↦ rw (f, z) s
    | inr z ↦ rw (f, z) (handle_follow_on_fragment-Safe h.msg_id h.is_last h.fragment_num m e s)
  ]
]

parse_header-used : (bytes : List ℕ) (h : Header) → parse_header bytes ≡ some h → 1 ≤ h.used
unfolding parse_header
parse_header-used [] h e = ground arith
parse_header-used (flag ∷ rest) h e = ground arith

-- What a step leaves of an outcome for the steps behind it.
bind-Safe :
    (r : Outcome) (f : Endpoint → Outcome)
    → StaysSafe r
    → ((e : Endpoint) → Safe e → StaysSafe (f e))
    → StaysSafe (r >>= f)
bind-Safe (ok e) f s h = h e s
bind-Safe overrun f s h = tt
bind-Safe stuck f s h = absurd s

handle_fragments-Safe :
    (fuel : ℕ) (t : TunnelData) (offset : ℕ) (memory : List ℕ) (left : ℕ) (e : Endpoint)
    → left ≤ fuel
    → Safe e
    → StaysSafe (handle_fragments fuel t offset memory left e)
unfolding handle_fragments
handle_fragments-Safe fuel t offset memory zero e enough s = s
handle_fragments-Safe zero t offset memory (suc left) e enough s = absurd (omega arith)
handle_fragments-Safe (suc fuel) t offset memory (suc left) e enough s =
    elim (Option-cases (parse_header memory)) [
      | inl p ↦ becomes _ overrun (ground (arith, p)) tt
      | inr (h, p) ↦
          let r = handle_fragment h (fragment_message t offset h (suc left)) e in
          let go : Endpoint → Outcome = λ e'.
            handle_fragments fuel t (offset + h.used + h.size) (drop h.size h.rest)
              (suc left - (h.used + h.size)) e' in
          elim (Bool-cases (leb h.size (length h.rest))) [
            | inr q ↦ becomes _ overrun (ground (arith, p, q)) tt
            | inl q ↦ becomes _ (r >>= go) (ground (arith, p, q)) (
                bind-Safe r go (handle_fragment-Safe h (fragment_message t offset h (suc left)) e s)
                  (λ e' s'.
                    handle_fragments-Safe fuel t (offset + h.used + h.size) (drop h.size h.rest)
                      (suc left - (h.used + h.size)) e'
                      (omega (arith, parse_header-used memory h p)) s'))
          ]
    ]

-- Whatever tunnel data message arrives, an endpoint of an inbound tunnel that has sent no message to a
-- router as its destination still has not afterwards: what leaves it is for the gateway of a tunnel, or handled
-- by the router itself. Its loop ends: at the end of the message, or at a read outside of the buffer,
-- behind which nothing is stated.
pub handle_decrypted_tunnel_data_msg-Safe :
    (sha256 : List ℕ → List ℕ) (t : TunnelData) (e : Endpoint)
    → Safe e
    → StaysSafe (handle_decrypted_tunnel_data_msg sha256 t e)
unfolding handle_decrypted_tunnel_data_msg
handle_decrypted_tunnel_data_msg-Safe sha256 t e s =
    let e' = record e { num_received_bytes = e.num_received_bytes + 1028 } in
    let s' : Safe e' = Safe-same e e' refl refl s in
    elim (Option-cases (after_zero (drop 4 t.decrypted))) [
      | inl p ↦ becomes _ (ok e') (ground (arith, p)) s'
      | inr (payload, p) ↦
          let checked = same_bytes (take 4 (sha256 (payload ++ t.iv))) (take 4 t.decrypted) in
          elim (Bool-cases checked) [
            | inr q ↦ becomes _ (ok e') (ground (arith, p, q)) s'
            | inl q ↦
                becomes _
                  (handle_fragments (length payload) t (t.start + (1008 - length payload))
                    (payload ++ (t.iv ++ t.behind)) (length payload) e')
                  (ground (arith, p, q))
                  (handle_fragments-Safe (length payload) t _ _ (length payload) e' (omega arith)
                    s')
          ]
    ]
