-- ===== src/Ssu/Acks.antt =====
-- core/transport/SSUData.cpp: acknowledgements, as they are sent and as they are read.
pub mod Numbering
use i2pd.Prelude.{
  ℕ, zero, suc, ◌+◌, ◌-◌, ◌*◌, ◌/◌, ◌%◌, ◌^◌, Bool, true, false, List, [], ◌∷◌, ◌++◌, Option, none,
  some, ltb, leb, ◌==◌, if◌then◌else◌, length, replicate, set,
}
use i2pd.Prelude.Bytes.{be32, from_be32}
use i2pd.Prelude.Assoc.{Assoc, lookup, insert, erase}
use i2pd.Ssu.{
  SsuData, SentMessage, Fragment, Action, packet, act, cancel, data_flag_ack_bitfields_included,
  data_flag_explicit_acks_included,
}

-- `SendMsgAck`, before encryption.
unfoldable pub send_msg_ack : ℕ → SsuData → SsuData
send_msg_ack id d = act (packet (data_flag_explicit_acks_included ∷ 1 ∷ be32 id ++ 0 ∷ [])) d

-- The bytes of `SendFragmentAck`: a bit field of seven bits a byte.
unfoldable pub ack_bitfields : ℕ → List ℕ
ack_bitfields n = replicate (n / 7) 0x80 ++ 2 ^ (n % 7) ∷ []

-- `SendFragmentAck`
unfoldable pub send_fragment_ack : ℕ → ℕ → SsuData → SsuData
unfolding ack_bitfields
send_fragment_ack id n d =
    if ltb 64 n
    then d
    else act
        (packet (data_flag_ack_bitfields_included ∷ 1 ∷ be32 id ++ (ack_bitfields n ++ 0 ∷ []))) d

-- `ProcessSentMessageAck`
unfoldable pub process_sent_message_ack : ℕ → SsuData → SsuData
process_sent_message_ack id d = elim (lookup id d.sent) [
  | none ↦ d
  | some m ↦
      let d' = record d { sent = erase id d.sent } in
      elim (erase id d.sent) [
        | [] ↦ record d' { resend_timer = cancel d.resend_timer }
        | p ∷ ps ↦ d'
      ]
]

-- The reads of a packet return what is left of it; `none` is a read behind its end.
abbrev pub Read : Type 0
Read = Option (List ℕ × SsuData)

-- The list of explicit acknowledgements.
unfoldable pub process_explicit_acks : ℕ → List ℕ → SsuData → Read
unfolding process_sent_message_ack
process_explicit_acks zero buf d = some (buf, d)
process_explicit_acks (suc n) (a ∷ b ∷ c ∷ e ∷ buf) d =
    process_explicit_acks n buf (process_sent_message_ack (from_be32 a b c e) d)
process_explicit_acks (suc n) buf d = none

-- `for (int j = 0; j < 7; j++)`: the fragments of the bits that are set are acknowledged.
unfoldable pub process_bits : ℕ → ℕ → ℕ → List (Option Fragment) → List (Option Fragment)
process_bits zero bits fragment fs = fs
process_bits (suc n) bits fragment fs =
    process_bits n (bits / 2) (fragment + 1) (if bits % 2 == 1 then set fs fragment none else fs)

-- `do { … } while (isNonLast)`: `fragment` moves on only at a byte with a bit set.
unfoldable pub process_bitfields :
    List ℕ → ℕ → List (Option Fragment) → Option (List ℕ × List (Option Fragment))
unfolding process_bits
process_bitfields [] fragment fs = none
process_bitfields (byte ∷ buf) fragment fs =
    let bits = byte % 128 in
    let fs' = if bits == 0 then fs else process_bits 7 bits fragment fs in
    let fragment' = if bits == 0 then fragment else fragment + 7 in
    let more = process_bitfields buf fragment' fs' in
    if byte / 128 % 2 == 1 then more else some (buf, fs')

-- The message that a bit field is about may be unknown: then its bytes are skipped.
abbrev apply_bitfields : ℕ → List ℕ → SsuData → Read
apply_bitfields id buf d = elim (lookup id d.sent) [
  | none ↦ elim (process_bitfields buf 0 []) [ none ↦ none | some (rest, fs) ↦ some (rest, d) ]
  | some m ↦ elim (process_bitfields buf 0 m.fragments) [
    | none ↦ none
    | some (rest, fs) ↦
        some (rest, record d { sent = insert id (record m { fragments = fs }) d.sent })
  ]
]

unfoldable pub process_ack_bitfields : ℕ → List ℕ → SsuData → Read
unfolding process_bitfields
process_ack_bitfields zero buf d = some (buf, d)
process_ack_bitfields (suc n) (a ∷ b ∷ c ∷ e ∷ buf) d =
    elim (apply_bitfields (from_be32 a b c e) buf d) [
      | none ↦ none
      | some (rest, d') ↦ process_ack_bitfields n rest d'
    ]
process_ack_bitfields (suc n) buf d = none

-- A count in front of a list, read if its flag is set.
abbrev counted : (ℕ → List ℕ → SsuData → Read) → Bool → List ℕ → SsuData → Read
counted list false buf d = some (buf, d)
counted list true [] d = none
counted list true (n ∷ buf) d = list n buf d

-- `ProcessAcks`: bit 7 of the flag announces explicit acknowledgements, and bit 6 bit fields.
unfoldable pub process_acks : ℕ → List ℕ → SsuData → Read
unfolding process_explicit_acks process_ack_bitfields
process_acks flag buf d = elim (counted process_explicit_acks (flag / 128 % 2 == 1) buf d) [
  | none ↦ none
  | some (buf', d') ↦ counted process_ack_bitfields (flag / 64 % 2 == 1) buf' d'
]
