-- ===== src/Ssu/Delivery.antt =====
-- core/transport/SSUData.cpp: what `Send` cuts up, `ProcessMessage` puts together.
use i2pd.Prelude.{
  ℕ, zero, suc, ◌+◌, ◌*◌, ◌%◌, ◌^◌, ◌≤◌, ◌<◌, ◌≡◌, refl, ap, sym, ◌∙◌, Bool, true, false, List, [],
  ◌∷◌, ◌++◌, none, some, leb, length, take, drop, map, inl, inr, Bool-cases, Option-cases, ◌⊎◌,
  append_assoc, length-append, length-take, length-drop, take-append-drop, List-cases, arith,
}
use i2pd.Prelude.Assoc.{lookup, insert}
use i2pd.Ssu.{SsuData, IncompleteMessage, Fragment, schedule_resend, resend_interval}
use i2pd.Ssu.Receive.{new_message, contains, complete_message, process_message}
use i2pd.Ssu.Transmit.{fragment_packet, split_message, packets, payload_size, send}
use i2pd.Ssu.Packets.{process_message-fragment_packet}
use i2pd.Ssu.Reassembly.{
  HasRoom, current, receive_all, handed, Delivered, complete_message-Delivered,
  handle_fragment_next, handle_fragment_last, process_fragment_continues,
  process_fragment_completes,
}

-- What a receiver has to be in for the fragments from `num` on of a message whose first bytes it has.
pub record Ready (id num : ℕ) (got : List ℕ) (d : SsuData) : Type 0 where
  pub got_bytes : (current id d).msg.bytes ≡ got
  pub awaited : (current id d).next_fragment_num ≡ num
  pub none_saved : (current id d).saved_fragments ≡ []
  pub room : HasRoom (current id d).msg
  pub is_established : d.is_established ≡ true
  pub fresh : contains id d.received ≡ false

receive_all-cons :
    (now id : ℕ) (f : Fragment) (fs : List Fragment) (d d' : SsuData)
    → process_message now (fragment_packet id f) d ≡ some d'
    → receive_all now id (f ∷ fs) d ≡ receive_all now id fs d'
receive_all-cons now id f fs d d' e = ground (arith, e)

abbrev piece : ℕ → Bool → List ℕ → Fragment
piece num last bytes = record { fragment_num = num; is_last = last; bytes = bytes }

receive_last :
    (now id num : ℕ) (got bytes : List ℕ) (d : SsuData)
    → id < 2 ^ 32
    → num < 128
    → length bytes < 1456
    → 13 + length got + length bytes ≤ 32784
    → Ready id num got d
    → (d' : SsuData) × (receive_all now id (piece num true bytes ∷ []) d ≡ some d')
      × Delivered d id (got ++ bytes) d'
receive_last now id num got bytes d hid hn small fits r =
    let f = piece num true bytes in
    let (i', e, eb) =
      handle_fragment_last now f (current id d) refl (sym r.awaited) r.room
        (omega (arith, ap length r.got_bytes)) in
    let joined : i'.msg.bytes ≡ got ++ bytes = eb ∙ ap (λ (t : List ℕ). t ++ bytes) r.got_bytes in
    (
      complete_message now id i'.msg.bytes d,
      receive_all-cons now id f [] d _ (
          process_message-fragment_packet now id f d hid hn small
          ∙ process_fragment_completes now id f d i' e),
      rw joined (complete_message-Delivered now id (got ++ bytes) d r.is_established r.fresh),
    )

receive_next :
    (now id num : ℕ) (got bytes : List ℕ) (d : SsuData)
    → id < 2 ^ 32
    → num < 128
    → length bytes < 1456
    → 13 + length got + length bytes ≤ 32784
    → Ready id num got d
    → (d' : SsuData) × (process_message now (fragment_packet id (piece num false bytes)) d
        ≡ some d')
      × Ready id (num + 1) (got ++ bytes) d'
      × (handed d'.actions ≡ handed d.actions)
receive_next now id num got bytes d hid hn small fits r =
    let f = piece num false bytes in
    let (i', e, eb, next, saved, room) =
      handle_fragment_next now f (current id d) refl (sym r.awaited) r.none_saved r.room
        (omega (arith, ap length r.got_bytes)) in
    let (d', p, c, est, rec, kept) = process_fragment_continues now id f d i' e in
    (
      d',
      process_message-fragment_packet now id f d hid hn small ∙ p,
      record {
        got_bytes = rw c (eb ∙ ap (λ (t : List ℕ). t ++ bytes) r.got_bytes);
        awaited = rw c (next ∙ ap (λ (t : ℕ). t + 1) r.awaited);
        none_saved = rw c saved;
        room = rw c room;
        is_established = est ∙ r.is_established;
        fresh = rw rec r.fresh;
      },
      kept,
    )

split_message_step :
    (fuel payload num : ℕ) (bytes : List ℕ) (fs : List Fragment)
    → 0 < length bytes
    → split_message fuel payload num bytes ≡ some fs
    → ((length bytes ≤ payload) × (fs ≡ piece num true bytes ∷ []))
      ⊎ ((fuel' : ℕ) × (rest : List Fragment) × (fuel ≡ suc fuel')
          × (payload < length bytes)
          × (fs ≡ piece num false (take payload bytes) ∷ rest)
          × (split_message fuel' payload (num + 1) (drop payload bytes) ≡ some rest))
unfolding split_message
split_message_step fuel payload num [] fs h e = absurd (omega arith)
split_message_step zero payload num (b ∷ bs) fs h e = cc
split_message_step (suc fuel) payload num (b ∷ bs) fs h e =
    elim (Bool-cases (leb (length (b ∷ bs)) payload)) [
      | inl short ↦ inl (ground arith, ground arith)
      | inr long ↦
          elim (Option-cases (split_message fuel payload (num + 1) (drop payload (b ∷ bs)))) [
            | inl out ↦ absurd (ground (arith, out))
            | inr (rest, r) ↦ inr (fuel, rest, refl, ground arith, ground (arith, r), r)
          ]
    ]

-- Where nothing was handed on in between, what counts from later counts from earlier.
Delivered-since :
    (id : ℕ) {bytes : List ℕ} (d d₁ d' : SsuData)
    → handed d₁.actions ≡ handed d.actions
    → Delivered d₁ id bytes d'
    → Delivered d id bytes d'
Delivered-since id {bytes} d d₁ d' kept done = record {
  handed_on = done.handed_on ∙ ap (λ (x : List (ℕ × List ℕ)). x ++ (id, bytes) ∷ []) kept;
  not_incomplete = done.not_incomplete;
  known = done.known;
}

receive_split :
    (now id payload fuel num : ℕ) (got bytes : List ℕ) (fs : List Fragment) (d : SsuData)
    → id < 2 ^ 32
    → 0 < payload
    → payload < 1456
    → 0 < length bytes
    → split_message fuel payload num bytes ≡ some fs
    → num + length fs ≤ 128
    → 13 + length got + length bytes ≤ 32784
    → Ready id num got d
    → (d' : SsuData) × (receive_all now id fs d ≡ some d') × Delivered d id (got ++ bytes) d'
receive_split now id payload zero num got bytes fs d hid hp small some_bytes e hn fits r =
    elim (split_message_step zero payload num bytes fs some_bytes e) [
      | inl (short, f) ↦ rw f (
          receive_last now id num got bytes d hid (omega (arith, ap length f)) (omega arith) fits r)
      | inr (fuel', rest, z, long, f, more) ↦ cc
    ]
receive_split now id payload (suc fuel) num got bytes fs d hid hp small some_bytes e hn fits r =
    elim (split_message_step (suc fuel) payload num bytes fs some_bytes e) [
      | inl (short, f) ↦ rw f (
          receive_last now id num got bytes d hid (omega (arith, ap length f)) (omega arith) fits r)
      | inr (fuel', rest, z, long, f, more) ↦
          let front = take payload bytes in
          let cut : got ++ bytes ≡ (got ++ front) ++ drop payload bytes =
            ap (◌++◌ got) (sym (take-append-drop payload bytes))
            ∙ sym (append_assoc got front (drop payload bytes)) in
          let size : length front ≡ payload = omega (arith, length-take payload bytes) in
          let (d₁, p, r₁, kept) =
            receive_next now id num got front d hid (omega (arith, ap length f)) (omega arith)
              (omega arith) r in
          let (d', q, done) =
            receive_split now id payload fuel (num + 1) (got ++ front) (drop payload bytes) rest d₁
              hid hp small (omega (arith, length-drop payload bytes)) (cc (z, more))
              (omega (arith, ap length f))
              (omega (arith, length-append got front, length-drop payload bytes)) r₁ in
          (
            d',
            rw f (receive_all-cons now id (piece num false front) rest d d₁ p ∙ q),
            rw cut (Delivered-since id d d₁ d' kept done),
          )
    ]

-- The cut succeeds, and makes no more fragments than whole payloads cover the message.
split_message-some :
    (fuel payload num k : ℕ) (bytes : List ℕ)
    → 0 < payload
    → length bytes ≤ fuel
    → length bytes ≤ k * payload
    → (fs : List Fragment) × (split_message fuel payload num bytes ≡ some fs) × (length fs ≤ k)
unfolding split_message
split_message-some zero payload num k [] hp h few = ([], refl, omega arith)
split_message-some (suc fuel) payload num k [] hp h few = ([], refl, omega arith)
split_message-some zero payload num k (b ∷ bs) hp h few = absurd (omega arith)
split_message-some (suc fuel) payload num zero (b ∷ bs) hp h few = absurd (omega arith)
split_message-some (suc fuel) payload num (suc k) (b ∷ bs) hp h few =
    let rest = drop payload (b ∷ bs) in
    elim (Bool-cases (leb (length (b ∷ bs)) payload)) [
      | inl short ↦ (piece num true (b ∷ bs) ∷ [], ground arith, omega arith)
      | inr long ↦
          let (fs, e, n) =
            split_message-some fuel payload (num + 1) k rest hp
              (omega (arith, length-drop payload (b ∷ bs)))
              (omega (arith, length-drop payload (b ∷ bs))) in
          (piece num false (take payload (b ∷ bs)) ∷ fs, ground (arith, e), omega arith)
    ]

-- A message that is cut into at most 128 fragments and received in order is handed on once, whole:
-- the cut always succeeds, every packet is accepted, the message that an established receiver hands to
-- its handler has the very bytes that were sent, and afterwards its id is known and nothing of it is
-- left incomplete. The receiver has nothing of the message before, and did not see its id.
pub send_and_receive :
    (now id payload b : ℕ) (bs : List ℕ) (d : SsuData)
    → id < 2 ^ 32
    → 0 < payload
    → payload < 1456
    → length (b ∷ bs) ≤ 128 * payload
    → length (b ∷ bs) ≤ 32771
    → lookup id d.incomplete ≡ none
    → d.is_established ≡ true
    → contains id d.received ≡ false
    → (fs : List Fragment) × (split_message (length (b ∷ bs)) payload 0 (b ∷ bs) ≡ some fs)
      × (d' : SsuData) × (receive_all now id fs d ≡ some d')
      × Delivered d id (b ∷ bs) d'
send_and_receive now id payload b bs d hid hp small few fits new est fresh =
    let (fs, e, n) =
      split_message-some (length (b ∷ bs)) payload 0 128 (b ∷ bs) hp (omega arith) few in
    let start : current id d ≡ new_message = ground arith in
    let (d', p, done) =
      receive_split now id payload (length (b ∷ bs)) 0 [] (b ∷ bs) fs d hid hp small (omega arith) e
        (omega arith) (omega arith)
        (record {
          got_bytes = ap (λ (i : IncompleteMessage). i.msg.bytes) start;
          awaited = ap (λ (i : IncompleteMessage). i.next_fragment_num) start;
          none_saved = ap (λ (i : IncompleteMessage). i.saved_fragments) start;
          room = rw start (omega arith);
          is_established = est;
          fresh = fresh;
        }) in
    (fs, e, d', p, done)

-- The sender behind the loop of `Send`; `d'` has its resend timer set.
abbrev after_send : ℕ → ℕ → List Fragment → SsuData → SsuData → SsuData
after_send now id fs d d' = record d' {
  sent =
      insert id
        (record {
          fragments = map some fs;
          next_resend_time = (now + resend_interval) % 2 ^ 32;
          num_resends = 0;
        })
        d.sent;
  actions = d'.actions ++ packets id fs;
}

send_new :
    (now id : ℕ) (bytes : List ℕ) (fs : List Fragment) (d : SsuData)
    → lookup id d.sent ≡ none
    → split_message (length bytes) (payload_size d) 0 bytes ≡ some fs
    → (d' : SsuData) × (send now id bytes d ≡ some d') × (d'.actions ≡ d.actions ++ packets id fs)
unfolding send schedule_resend
send_new now id bytes fs d unsent e = elim (List-cases d.sent) [
  | inl idle ↦
      (after_send now id fs d (schedule_resend now d), ground (arith, unsent, e, idle), refl)
  | inr (entry, more, busy) ↦ (after_send now id fs d d, ground (arith, unsent, e, busy), refl)
]

-- `Send` of a new message of up to 32771 bytes, whose payload per packet is from 1 to 1455 bytes and
-- which makes at most 128 of them, succeeds and sends packets with fragments of it; an established
-- receiver that gets just these packets in order, knows nothing of the message before and did not see
-- its id, accepts them all, hands on the very bytes that were sent, once, and hands on nothing else.
pub send-receive_all :
    (now later id b : ℕ) (bs : List ℕ) (sender d : SsuData)
    → id < 2 ^ 32
    → 0 < payload_size sender
    → payload_size sender < 1456
    → length (b ∷ bs) ≤ 128 * payload_size sender
    → length (b ∷ bs) ≤ 32771
    → lookup id sender.sent ≡ none
    → lookup id d.incomplete ≡ none
    → d.is_established ≡ true
    → contains id d.received ≡ false
    → (fs : List Fragment) × (sender' d' : SsuData) × (send now id (b ∷ bs) sender ≡ some sender')
      × (sender'.actions ≡ sender.actions ++ packets id fs)
      × (receive_all later id fs d ≡ some d')
      × Delivered d id (b ∷ bs) d'
send-receive_all now later id b bs sender d hid hp small few fits unsent new est fresh =
    let (fs, e, d', p, done) =
      send_and_receive later id (payload_size sender) b bs d hid hp small few fits new est fresh in
    let (sender', s, a) = send_new now id (b ∷ bs) fs sender unsent e in
    (fs, sender', d', s, a, p, done)
