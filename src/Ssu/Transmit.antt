-- ===== src/Ssu/Transmit.antt =====
-- core/transport/SSUData.cpp: messages sent in fragments, and resent until they are acknowledged.
use i2pd.Prelude.{
  ℕ, zero, suc, ◌+◌, ◌-◌, ◌*◌, ◌/◌, ◌%◌, ◌^◌, Bool, true, false, List, [], ◌∷◌, ◌++◌, Option, none,
  some, ltb, leb, if◌then◌else◌, length, take, drop, map,
}
use i2pd.Prelude.Bytes.{be32}
use i2pd.Prelude.Assoc.{Assoc, lookup, insert}
use i2pd.Ssu.{
  SsuData, SentMessage, Fragment, Action, packet, schedule_resend, data_flag_want_reply,
  resend_interval, max_num_resends,
}

-- `payloadSize`: the packet less the SSU header of 37 bytes and the 9 bytes in front of the data.
abbrev pub payload_size : SsuData → ℕ
payload_size d = (d.packet_size + 2 ^ 64 - 37 - 9) % 2 ^ 64

-- The plain text of a data packet with one fragment.
unfoldable pub fragment_packet : ℕ → Fragment → List ℕ
fragment_packet id f =
    let info = f.fragment_num * 2 ^ 17 + (if f.is_last then 0x010000 else 0) + length f.bytes in
    data_flag_want_reply ∷ 1 ∷ be32 id
    ++ ((info / 65536 % 256) ∷ (info / 256 % 256) ∷ (info % 256) ∷ f.bytes)

-- The loop of `Send`: `none` is fuel that ran out.
unfoldable pub split_message : ℕ → ℕ → ℕ → List ℕ → Option (List Fragment)
split_message fuel payload num [] = some []
split_message zero payload num (b ∷ bs) = none
split_message (suc fuel) payload num (b ∷ bs) =
    let bytes = b ∷ bs in
    let more = split_message fuel payload (num + 1) (drop payload bytes) in
    let front : Fragment = record {
      fragment_num = num;
      is_last = false;
      bytes = take payload bytes;
    } in
    if leb (length bytes) payload
    then some (record { fragment_num = num; is_last = true; bytes = bytes } ∷ [])
    else elim more [ none ↦ none | some fs ↦ some (front ∷ fs) ]

abbrev pub packets : ℕ → List Fragment → List Action
packets id = map (λ f. packet (fragment_packet id f))

-- `Send`, for the id and the bytes that `ToSSU` leaves in the message.
unfoldable pub send : ℕ → ℕ → List ℕ → SsuData → Option SsuData
unfolding split_message
send now id bytes d = elim (lookup id d.sent) [
  | some m ↦ some d
  | none ↦ elim (split_message (length bytes) (payload_size d) 0 bytes) [
    | none ↦ none
    | some fs ↦
        let d' : SsuData = elim d.sent [ [] ↦ schedule_resend now d | p ∷ ps ↦ d ] in
        some (record d' {
          sent =
              insert id
                (record {
                  fragments = map some fs;
                  next_resend_time = (now + resend_interval) % 2 ^ 32;
                  num_resends = 0;
                })
                d.sent;
          actions = d'.actions ++ packets id fs;
        })
  ]
]

unfoldable pub unacknowledged : List (Option Fragment) → List Fragment
unacknowledged [] = []
unacknowledged (none ∷ fs) = unacknowledged fs
unacknowledged (some f ∷ fs) = f ∷ unacknowledged fs

-- A round of the loop of `HandleResendTimer`: the message, if it is kept, and what is sent again.
unfoldable pub resend_message : ℕ → ℕ → SentMessage → Option SentMessage × List Action
unfolding unacknowledged
resend_message now id m =
    if leb m.next_resend_time now
    then (if ltb m.num_resends max_num_resends
        then (
          some (record m {
            num_resends = m.num_resends + 1;
            next_resend_time =
                (m.next_resend_time + (m.num_resends + 1) * resend_interval) % 2 ^ 32;
          }),
          packets id (unacknowledged m.fragments),
        )
        else (none, []))
    else (some m, [])

unfoldable pub resend_all : ℕ → Assoc SentMessage → Assoc SentMessage × List Action
unfolding resend_message
resend_all now [] = ([], [])
resend_all now ((id, m) ∷ ms) =
    let (kept, again) = resend_message now id m in
    let (rest, more) = resend_all now ms in
    (elim kept [ none ↦ rest | some m' ↦ (id, m') ∷ rest ], again ++ more)

-- `HandleResendTimer`
unfoldable pub handle_resend_timer : Bool → ℕ → SsuData → SsuData
unfolding resend_all
handle_resend_timer aborted now d =
    let (kept, again) = resend_all now d.sent in
    if aborted
    then d
    else schedule_resend now (record d { sent = kept; actions = d.actions ++ again })
