-- ===== src/Ssu/Reassembly.antt =====
-- core/transport/SSUData.cpp: what a fragment in order does to the message that it belongs to.
use i2pd.Prelude.{
  ℕ, ◌+◌, ◌≤◌, append-nil, ◌≡◌, ◌∙◌, refl, ap, true, false, List, [], ◌∷◌, ◌++◌, Option, none, some,
  ltb, length, inl, inr, Bool-cases, arith,
}
use i2pd.Prelude.Assoc.{lookup, insert, lookup-insert, lookup-erase}
use i2pd.Ssu.{
  SsuData, IncompleteMessage, Message, Fragment, Action, packet, put_next_message, flush,
  established, schedule_decay,
}
use i2pd.Ssu.Acks.{send_fragment_ack, send_msg_ack}
use i2pd.Ssu.Receive.{
  attach_next_fragment, try_saved, handle_fragment, new_message, contains, complete_message,
  process_fragment, process_message,
}
use i2pd.Ssu.Transmit.{fragment_packet}

-- Room for a message: the buffer reaches to where `maxLen` says at least.
abbrev pub HasRoom : Message → Type 0
HasRoom m = (m.max_len ≤ m.capacity) × (m.max_len ≤ 32784)

attach-some :
    (bytes : List ℕ) (i : IncompleteMessage)
    → HasRoom i.msg
    → 13 + length i.msg.bytes + length bytes ≤ 32784
    → (i' : IncompleteMessage) × (attach_next_fragment bytes i ≡ some i')
      × (i'.msg.bytes ≡ i.msg.bytes ++ bytes)
      × (i'.next_fragment_num ≡ i.next_fragment_num + 1)
      × (i'.saved_fragments ≡ i.saved_fragments)
      × HasRoom i'.msg
unfolding attach_next_fragment
attach-some bytes i room fits =
    elim (Bool-cases (ltb i.msg.max_len (13 + length i.msg.bytes + length bytes))) [
      | inl e ↦ (
        record i {
          msg = record i.msg { bytes = i.msg.bytes ++ bytes; capacity = 32784 };
          next_fragment_num = i.next_fragment_num + 1;
        },
        ground arith,
        refl,
        refl,
        refl,
        omega arith,
      )
      | inr e ↦ (
        record i {
          msg = record i.msg { bytes = i.msg.bytes ++ bytes };
          next_fragment_num = i.next_fragment_num + 1;
        },
        ground arith,
        refl,
        refl,
        refl,
        room,
      )
    ]

-- The message that a fragment for `id` goes to.
abbrev pub current : ℕ → SsuData → IncompleteMessage
current id d = elim (lookup id d.incomplete) [ none ↦ new_message | some i ↦ i ]

-- Packets received one after the other.
abbrev pub receive_all : ℕ → ℕ → List Fragment → SsuData → Option SsuData
receive_all now id [] d = some d
receive_all now id (f ∷ fs) d = elim (process_message now (fragment_packet id f) d) [
  | none ↦ none
  | some d' ↦ receive_all now id fs d'
]

-- The messages that were handed on, in their order.
unfoldable pub handed : List Action → List (ℕ × List ℕ)
handed [] = []
handed (put_next_message id bytes ∷ more) = (id, bytes) ∷ handed more
handed (packet bytes ∷ more) = handed more
handed (flush ∷ more) = handed more
handed (established ∷ more) = handed more

pub handed-append :
    (before after : List Action) → handed (before ++ after) ≡ handed before ++ handed after
unfolding handed
handed-append [] after = refl
handed-append (put_next_message id bytes ∷ more) after =
    ap (◌∷◌ (id, bytes)) (handed-append more after)
handed-append (packet bytes ∷ more) after = handed-append more after
handed-append (flush ∷ more) after = handed-append more after
handed-append (established ∷ more) after = handed-append more after

-- Since the receiver was in the state `start`, the message was handed on with these bytes, once, and no
-- other was; it is no longer incomplete, and its id is known.
pub record Delivered (start : SsuData) (id : ℕ) (bytes : List ℕ) (d : SsuData) : Type 0 where
  pub handed_on : handed d.actions ≡ handed start.actions ++ (id, bytes) ∷ []
  pub not_incomplete : lookup id d.incomplete ≡ none
  pub known : contains id d.received ≡ true

handed-packet :
    (before : List Action) (bytes : List ℕ) → handed (before ++ packet bytes ∷ []) ≡ handed before
unfolding handed
handed-packet before bytes = handed-append before (packet bytes ∷ []) ∙ append-nil (handed before)

handed-send_msg_ack : (id : ℕ) (d : SsuData) → handed (send_msg_ack id d).actions ≡ handed d.actions
unfolding send_msg_ack handed
handed-send_msg_ack id d = handed-packet d.actions _

pub complete_message-Delivered :
    (now id : ℕ) (bytes : List ℕ) (d : SsuData)
    → d.is_established ≡ true
    → contains id d.received ≡ false
    → Delivered d id bytes (complete_message now id bytes d)
unfolding complete_message schedule_decay send_msg_ack contains handed
complete_message-Delivered now id bytes d e fresh =
    elim (Bool-cases (ltb 1000 (length d.received))) [
      | inl full ↦ record {
        handed_on = ground (
          arith,
          handed-append (send_msg_ack id d).actions (put_next_message id bytes ∷ []),
          handed-send_msg_ack id d,
        );
        not_incomplete = ground (arith, lookup-erase id id d.incomplete);
        known = ground arith;
      }
      | inr few ↦ record {
        handed_on = ground (
          arith,
          handed-append (send_msg_ack id d).actions (put_next_message id bytes ∷ []),
          handed-send_msg_ack id d,
        );
        not_incomplete = ground (arith, lookup-erase id id d.incomplete);
        known = ground arith;
      }
    ]

-- An expected fragment makes the message grow.
pub handle_fragment_next :
    (now : ℕ) (f : Fragment) (i : IncompleteMessage)
    → f.is_last ≡ false
    → f.fragment_num ≡ i.next_fragment_num
    → i.saved_fragments ≡ []
    → HasRoom i.msg
    → 13 + length i.msg.bytes + length f.bytes ≤ 32784
    → (i' : IncompleteMessage) × (handle_fragment now f i ≡ some (false, i'))
      × (i'.msg.bytes ≡ i.msg.bytes ++ f.bytes)
      × (i'.next_fragment_num ≡ i.next_fragment_num + 1)
      × (i'.saved_fragments ≡ [])
      × HasRoom i'.msg
unfolding handle_fragment try_saved
handle_fragment_next now f i last num saved room fits =
    let (i', e, bytes, next, kept, room') = attach-some f.bytes i room fits in
    (record i' { saved_fragments = [] }, ground (arith, e, kept), bytes, next, refl, room')

pub handle_fragment_last :
    (now : ℕ) (f : Fragment) (i : IncompleteMessage)
    → f.is_last ≡ true
    → f.fragment_num ≡ i.next_fragment_num
    → HasRoom i.msg
    → 13 + length i.msg.bytes + length f.bytes ≤ 32784
    → (i' : IncompleteMessage) × (handle_fragment now f i ≡ some (true, i'))
      × (i'.msg.bytes ≡ i.msg.bytes ++ f.bytes)
unfolding handle_fragment
handle_fragment_last now f i last num room fits =
    let (i', e, bytes, next, kept, room') = attach-some f.bytes i room fits in
    (i', ground (arith, e), bytes)

pub send_fragment_ack-same :
    (id n : ℕ) (d : SsuData)
    → let d' = send_fragment_ack id n d in
      (d'.incomplete ≡ d.incomplete)
      × (d'.is_established ≡ d.is_established)
      × (d'.received ≡ d.received)
      × (handed d'.actions ≡ handed d.actions)
unfolding send_fragment_ack handed
send_fragment_ack-same id n d = elim (Bool-cases (ltb 64 n)) [
  | inl e ↦ ground (arith, e)
  | inr e ↦ rw e (refl, refl, refl, handed-packet d.actions _)
]

pub process_fragment_continues :
    (now id : ℕ) (f : Fragment) (d : SsuData) (i' : IncompleteMessage)
    → handle_fragment now f (current id d) ≡ some (false, i')
    → (d' : SsuData) × (process_fragment now id f d ≡ some d')
      × (current id d' ≡ i')
      × (d'.is_established ≡ d.is_established)
      × (d'.received ≡ d.received)
      × (handed d'.actions ≡ handed d.actions)
unfolding process_fragment
process_fragment_continues now id f d i' e =
    let d₁ = record d { incomplete = insert id i' d.incomplete } in
    let (same, still, received, kept) = send_fragment_ack-same id f.fragment_num d₁ in
    (
      send_fragment_ack id f.fragment_num d₁,
      ground (arith, e),
      ground (arith, same, lookup-insert id id i' d.incomplete),
      still,
      received,
      kept,
    )

pub process_fragment_completes :
    (now id : ℕ) (f : Fragment) (d : SsuData) (i' : IncompleteMessage)
    → handle_fragment now f (current id d) ≡ some (true, i')
    → process_fragment now id f d ≡ some (complete_message now id i'.msg.bytes d)
unfolding process_fragment
process_fragment_completes now id f d i' e = ground (arith, e)
