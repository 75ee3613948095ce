-- ===== src/Ssu/Packets.antt =====
-- core/transport/SSUData.cpp: a packet is read as it was built.
use i2pd.Prelude.{
  ℕ, ◌+◌, ◌*◌, ◌/◌, ◌%◌, ◌^◌, ◌<◌, ◌≡◌, Bool, true, false, ◌∷◌, ◌==◌, if◌then◌else◌, length,
  Option-cases, take_all, drop_all, arith,
}
use i2pd.Prelude.Bytes.{from_be32, from_be32-be32}
use i2pd.Ssu.{SsuData, Fragment}
use i2pd.Ssu.Acks.{process_acks}
use i2pd.Ssu.Receive.{process_fragment, process_fragment_list, process_fragments, process_message}
use i2pd.Ssu.Transmit.{fragment_packet}

abbrev last_bit : Bool → ℕ
last_bit last = if last then 0x010000 else 0

-- The three bytes of the fragment information, read back.
abbrev info : ℕ → Bool → ℕ → ℕ
info num last size = num * 2 ^ 17 + last_bit last + size

info_fields :
    (num : ℕ) (last : Bool) (size : ℕ)
    → num < 128
    → size < 8192
    → let i = info num last size in
      (i / 65536 % 256 / 2 ≡ num)
      × ((i / 65536 % 256 % 2 == 1) ≡ last)
      × ((i / 65536 % 256 * 65536 + i / 256 % 256 * 256 + i % 256) % 8192 ≡ size)
info_fields num true size hn hs = (omega arith, ground arith, omega arith)
info_fields num false size hn hs = (omega arith, ground arith, omega arith)

one_fragment :
    (now id a b c e x y z : ℕ) (f : Fragment) (d : SsuData)
    → from_be32 a b c e ≡ id
    → x / 2 ≡ f.fragment_num
    → (x % 2 == 1) ≡ f.is_last
    → (x * 65536 + y * 256 + z) % 8192 ≡ length f.bytes
    → length f.bytes < 1456
    → process_fragment_list now 1 (a ∷ b ∷ c ∷ e ∷ x ∷ y ∷ z ∷ f.bytes) d
      ≡ process_fragment now id f d
unfolding process_fragment_list
one_fragment now id a b c e x y z f d hid hn hl hs small =
    ground (arith, take_all f.bytes, drop_all f.bytes, Option-cases (process_fragment now id f d))

-- A packet that is built for a fragment with a number below 128 and less than 1456 bytes is handled
-- as just that fragment of the message with that id.
pub process_message-fragment_packet :
    (now id : ℕ) (f : Fragment) (d : SsuData)
    → id < 2 ^ 32
    → f.fragment_num < 128
    → length f.bytes < 1456
    → process_message now (fragment_packet id f) d ≡ process_fragment now id f d
unfolding process_message process_fragments fragment_packet process_acks
process_message-fragment_packet now id f d hid hn hs =
    let (num, last, size) =
      info_fields f.fragment_num f.is_last (length f.bytes) hn (omega arith) in
    one_fragment now id _ _ _ _ _ _ _ f d (from_be32-be32 id hid) num last size hs
