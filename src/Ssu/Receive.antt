-- ===== src/Ssu/Receive.antt =====
-- core/transport/SSUData.cpp: fragments received, and the messages that they make up.
use i2pd.Prelude.{
  ℕ, zero, suc, ◌+◌, ◌*◌, ◌/◌, ◌%◌, Bool, true, false, ◌||◌, List, [], ◌∷◌, ◌++◌, Option, none,
  some, ltb, leb, ◌==◌, if◌then◌else◌, length, take, drop, get_or,
}
use i2pd.Prelude.Bytes.{from_be32}
use i2pd.Prelude.Assoc.{Assoc, lookup, insert, erase}
use i2pd.Ssu.{
  SsuData, IncompleteMessage, Message, Fragment, put_next_message, flush, established, act,
  schedule_decay, schedule_incomplete_messages_cleanup, max_num_received_messages,
  incomplete_messages_cleanup_timeout, ssu_v4_max_packet_size,
}
use i2pd.Ssu.Acks.{process_acks, send_msg_ack, send_fragment_ack}

-- The buffer that is written to: `*newMsg = *msg` takes over the old `maxLen`.
abbrev grown : Message → ℕ → Message
grown m size =
    if ltb m.max_len (13 + length m.bytes + size) then record m { capacity = 32768 + 16 } else m

-- `IncompleteMessage::AttachNextFragment`; `none` is a write behind the end of the buffer.
unfoldable pub attach_next_fragment : List ℕ → IncompleteMessage → Option IncompleteMessage
attach_next_fragment fragment i =
    let m = grown i.msg (length fragment) in
    if leb (13 + length i.msg.bytes + length fragment) m.capacity
    then some (record i {
      msg = record m { bytes = i.msg.bytes ++ fragment };
      next_fragment_num = i.next_fragment_num + 1;
    })
    else none

-- `savedFragments.insert`: in order, and not twice.
unfoldable pub save_fragment : Fragment → List Fragment → Option (List Fragment)
save_fragment f [] = some (f ∷ [])
save_fragment f (g ∷ gs) =
    if ltb f.fragment_num g.fragment_num
    then some (f ∷ g ∷ gs)
    else (if f.fragment_num == g.fragment_num
        then none
        else elim (save_fragment f gs) [ none ↦ none | some hs ↦ some (g ∷ hs) ])

-- "try saved fragments": those that come next are attached, and the last of them decides `isLast`.
unfoldable pub try_saved :
    List Fragment → Bool → IncompleteMessage → Option (Bool × IncompleteMessage)
try_saved [] last i = some (last, record i { saved_fragments = [] })
try_saved (f ∷ fs) last i =
    if f.fragment_num == i.next_fragment_num
    then elim (attach_next_fragment f.bytes i) [ none ↦ none | some i' ↦ try_saved fs f.is_last i' ]
    else some (last, record i { saved_fragments = f ∷ fs })

-- A fragment for a message: the new state of the message, and whether it is complete.
unfoldable pub handle_fragment :
    ℕ → Fragment → IncompleteMessage → Option (Bool × IncompleteMessage)
handle_fragment now f i =
    if f.fragment_num == i.next_fragment_num
    then elim (attach_next_fragment f.bytes i) [
      | none ↦ none
      | some i' ↦ if f.is_last then some (true, i') else try_saved i'.saved_fragments false i'
    ]
    else (if ltb f.fragment_num i.next_fragment_num
        then some (false, i)
        else elim (save_fragment f i.saved_fragments) [
          | none ↦ some (false, i)
          | some fs ↦
              some (false, record i { saved_fragments = fs; last_fragment_insert_time = now })
        ])

abbrev pub new_message : IncompleteMessage
new_message = record {
  msg = record { bytes = []; max_len = 4096; capacity = 4096 + 16 };
  next_fragment_num = 0;
  last_fragment_insert_time = 0;
  saved_fragments = [];
}

unfoldable pub contains : ℕ → List ℕ → Bool
contains x [] = false
contains x (y ∷ ys) = y == x || contains x ys

-- A complete message: it is acknowledged, and handed on unless it was received before. The first
-- byte is its type, which before the session is established has to be DeliveryStatus.
unfoldable pub complete_message : ℕ → ℕ → List ℕ → SsuData → SsuData
unfolding contains
complete_message now id bytes d =
    let d' = send_msg_ack id (record d { incomplete = erase id d.incomplete }) in
    if d.is_established
    then (if contains id d.received
        then d'
        else (let room =
              if ltb max_num_received_messages (length d.received)
              then record d' { received = [] }
              else schedule_decay now d' in
            act (put_next_message id bytes) (record room { received = id ∷ room.received })))
    else (if get_or bytes 0 0 == 10
        then act established (record d' { is_established = true })
        else d')

-- One fragment of a packet, after its size was checked.
unfoldable pub process_fragment : ℕ → ℕ → Fragment → SsuData → Option SsuData
process_fragment now id f d =
    let i : IncompleteMessage = elim (lookup id d.incomplete) [ none ↦ new_message | some i ↦ i ] in
    elim (handle_fragment now f i) [
      | none ↦ none
      | some (true, i') ↦ some (complete_message now id i'.msg.bytes d)
      | some (false, i') ↦ some (
          send_fragment_ack id f.fragment_num (record d { incomplete = insert id i' d.incomplete }))
    ]

-- The loop of `ProcessFragments` over `n` fragments; `none` is a read behind the packet's end.
unfoldable pub process_fragment_list : ℕ → ℕ → List ℕ → SsuData → Option SsuData
process_fragment_list now zero buf d = some d
process_fragment_list now (suc n) (a ∷ b ∷ c ∷ e ∷ x ∷ y ∷ z ∷ buf) d =
    let size = (x * 65536 + y * 256 + z) % 8192 in
    let f : Fragment = record {
      fragment_num = x / 2;
      is_last = x % 2 == 1;
      bytes = take size buf;
    } in
    if leb ssu_v4_max_packet_size size
    then some d
    else (if leb size (length buf)
        then elim (process_fragment now (from_be32 a b c e) f d) [
          | none ↦ none
          | some d' ↦ process_fragment_list now n (drop size buf) d'
        ]
        else none)
process_fragment_list now (suc n) buf d = none

-- `ProcessFragments`
unfoldable pub process_fragments : ℕ → List ℕ → SsuData → Option SsuData
process_fragments now [] d = none
process_fragments now (n ∷ buf) d = process_fragment_list now n buf d

-- "extended data if presented": a size and as many bytes are skipped.
unfoldable pub skip_extended : Bool → List ℕ → Option (List ℕ)
skip_extended false buf = some buf
skip_extended true [] = none
skip_extended true (n ∷ buf) = if leb n (length buf) then some (drop n buf) else none

-- `ProcessMessage`
unfoldable pub process_message : ℕ → List ℕ → SsuData → Option SsuData
unfolding skip_extended
process_message now [] d = none
process_message now (flag ∷ buf) d = elim (process_acks flag buf d) [
  | none ↦ none
  | some (rest, d') ↦ elim (skip_extended (flag / 2 % 2 == 1) rest) [
    | none ↦ none
    | some rest' ↦ process_fragments now rest' d'
  ]
]

-- `FlushReceivedMessage`
unfoldable pub flush_received_message : SsuData → SsuData
flush_received_message d = act flush d

-- `HandleDecayTimer`
unfoldable pub handle_decay_timer : Bool → SsuData → SsuData
handle_decay_timer aborted d = if aborted then d else record d { received = [] }

unfoldable pub keep_recent : ℕ → Assoc IncompleteMessage → Assoc IncompleteMessage
keep_recent now [] = []
keep_recent now ((id, i) ∷ m) =
    let rest = keep_recent now m in
    if ltb (i.last_fragment_insert_time + incomplete_messages_cleanup_timeout) now
    then rest
    else (id, i) ∷ rest

-- `HandleIncompleteMessagesCleanupTimer`
unfoldable pub handle_cleanup_timer : Bool → ℕ → SsuData → SsuData
unfolding keep_recent
handle_cleanup_timer aborted now d =
    if aborted
    then d
    else schedule_incomplete_messages_cleanup now
        (record d { incomplete = keep_recent now d.incomplete })
