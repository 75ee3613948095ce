-- ===== src/Base64/Tests.antt =====
-- core/util/base64.cpp: runs of the codec, and its theorems at concrete inputs.
use i2pd.Prelude.{
  ltb, leb, ◌&&◌, if◌then◌else◌, ◌^◌, ℕ, ◌≡◌, refl, List, [], ◌∷◌, some, length, arith,
}
use i2pd.Prelude.Bytes.{codes}
use i2pd.Base64.{encode_groups, encoded_size, byte_stream_to_base64, base64_to_byte_stream, t64}
use i2pd.Base64.RoundTrip.{num_characters, base64_round_trip, byte_stream_to_base64-exact}

abbrev hello : List ℕ
hello = codes "Hello"

encode_hello : byte_stream_to_base64 hello 16 ≡ (8, codes "SGVsbG8=")
unfolding byte_stream_to_base64 encode_groups encoded_size t64
encode_hello = refl

-- The alphabet has '-' and '~' in place of '+' and '/'.
encode_high : byte_stream_to_base64 (0xfb ∷ 0xff ∷ 0xfe ∷ []) 4 ≡ (4, codes "-~~-")
unfolding byte_stream_to_base64 encode_groups encoded_size t64
encode_high = refl

-- Too small a buffer is left alone.
encode_no_room : byte_stream_to_base64 hello 7 ≡ (0, [])
unfolding byte_stream_to_base64 encode_groups encoded_size t64
encode_no_room = refl

-- A length that is no multiple of four is refused.
decode_odd : base64_to_byte_stream (codes "SGVsb") 16 ≡ some (0, [])
unfolding base64_to_byte_stream
decode_odd = refl

base64_round_trip_example :
    base64_to_byte_stream (byte_stream_to_base64 hello 16).1 5 ≡ some (5, hello)
base64_round_trip_example =
    base64_round_trip hello 16 5
      (omega arith, (omega arith, (omega arith, (omega arith, (omega arith, tt))))) (omega arith)
      (omega arith) (omega arith)

byte_stream_to_base64-exact_example :
    (byte_stream_to_base64 hello 16 ≡ (
      if leb (num_characters 5) 16 && ltb (num_characters 5) (2 ^ 31)
      then (num_characters 5, encode_groups hello)
      else (0, [])))
    × (length (encode_groups hello) ≡ num_characters 5)
byte_stream_to_base64-exact_example =
    byte_stream_to_base64-exact hello 16 (omega arith) (omega arith)
