-- ===== src/Base64.antt =====
-- core/util/base64.cpp. A buffer is a list of bytes; a call returns the value that the C++ function
-- returns together with the bytes that it writes from the start of the output buffer.
pub mod RoundTrip
mod Tests
use i2pd.Prelude.{
  ℕ, zero, suc, ◌+◌, ◌-◌, ◌*◌, ◌/◌, ◌%◌, ◌^◌, Bool, true, false, ◌&&◌, List, [], ◌∷◌, ◌++◌, Option,
  none, some, reverse, bit_and, bit_or, ltb, leb, ◌==◌, if◌then◌else◌, length, get_or, set, take,
}
use i2pd.Prelude.Bytes.{codes}
use mathlib.Core.Option

abbrev pub base64_alphabet : List ℕ
base64_alphabet = codes "ABCDEFGHIJKLMNOPQRSTUVWXYZabcdefghijklmnopqrstuvwxyz0123456789-~"

-- `T64[i]`
unfoldable pub t64 : ℕ → ℕ
t64 i = get_or base64_alphabet i 0

-- `P64`
abbrev pub pad : ℕ
pad = b'='

-- The loop of `iT64Build` over i < 64, as the last index at which a character stands: 0xff is the
-- byte of the initial -1.
reverse_entry : List ℕ → ℕ → ℕ → ℕ → ℕ
reverse_entry [] i found c = found
reverse_entry (t ∷ ts) i found c = reverse_entry ts (i + 1) (if t == c then i else found) c

-- `iT64[c]` as the byte to which it is assigned.
unfoldable pub inverse_t64 : ℕ → ℕ
unfolding reverse_entry
inverse_t64 c = if c == pad then 0 else reverse_entry base64_alphabet 0 0xff c

-- The values that the encoder looks up for a group of three bytes.
abbrev pub digit_1 : ℕ → ℕ
digit_1 a = a / 4

abbrev pub digit_2 : ℕ → ℕ → ℕ
digit_2 a b = bit_or (bit_and (a * 16 % 256) 0x30) (b / 16)

abbrev pub digit_3 : ℕ → ℕ → ℕ
digit_3 b c = bit_or (bit_and b 0x0f * 4 % 256) (c / 64)

abbrev pub digit_4 : ℕ → ℕ
digit_4 c = bit_and c 0x3f

-- The writes of `ByteStreamToBase64`: whole groups, then one or two bytes that are left.
unfoldable pub encode_groups : List ℕ → List ℕ
encode_groups [] = []
encode_groups (a ∷ []) = t64 (digit_1 a) ∷ t64 (bit_and (a * 16 % 256) 0x3f) ∷ pad ∷ pad ∷ []
encode_groups (a ∷ b ∷ []) =
    t64 (digit_1 a)
    ∷ t64 (bit_or (bit_and (a * 16 % 256) 0x3f) (b / 16))
    ∷ t64 (bit_and b 0x0f * 4 % 256)
    ∷ pad
    ∷ []
encode_groups (a ∷ b ∷ c ∷ rest) =
    t64 (digit_1 a) ∷ t64 (digit_2 a b) ∷ t64 (digit_3 b c) ∷ t64 (digit_4 c) ∷ encode_groups rest

-- An `int` of 32 bits that a calculation of `x` leaves, taken to wrap around, as the `size_t` that it
-- becomes.
abbrev pub int_size : ℕ → ℕ
int_size x = if ltb (x % 2 ^ 32) (2 ^ 31) then x % 2 ^ 32 else x % 2 ^ 32 + (2 ^ 64 - 2 ^ 32)

-- The rounds of a loop to an `int` to which `x` was assigned: none where it is negative.
abbrev pub rounds : ℕ → ℕ
rounds x = if ltb (x % 2 ^ 32) (2 ^ 31) then x % 2 ^ 32 else 0

unfoldable pub encoded_size : ℕ → ℕ
encoded_size n = if n % 3 == 0 then int_size (4 * (n / 3)) else int_size (4 * (n / 3 + 1))

-- What the encoder reads: the groups of its loop, and the one or two bytes behind them.
abbrev pub encoded_part : List ℕ → List ℕ
encoded_part input = take (3 * rounds (length input / 3) + length input % 3) input

-- `ByteStreamToBase64 (in, length in, out, len)`
unfoldable pub byte_stream_to_base64 : List ℕ → ℕ → ℕ × List ℕ
unfolding encoded_size encode_groups
byte_stream_to_base64 input len =
    if ltb len (encoded_size (length input))
    then (0, [])
    else (encoded_size (length input), encode_groups (encoded_part input))

-- `while (*ps-- == P64)` over the reversed buffer; `none` is a read in front of the buffer.
unfoldable pub count_pads : List ℕ → Option ℕ
count_pads [] = none
count_pads (c ∷ cs) = if c == pad then Option.map suc (count_pads cs) else some 0

abbrev pub octet_1 : ℕ → ℕ → ℕ
octet_1 d e = bit_or (d * 4 % 256) (e / 16)

abbrev pub octet_2 : ℕ → ℕ → ℕ
octet_2 e f = bit_or (e * 16 % 256) (f / 4)

abbrev pub octet_3 : ℕ → ℕ → ℕ
octet_3 f g = bit_or g (f * 64 % 256)

-- The write loop: it tests for the end of the output after the first two bytes of a group.
unfoldable pub decode_groups : ℕ → ℕ → List ℕ → List ℕ
decode_groups end written [] = []
decode_groups end written (c ∷ []) = []
decode_groups end written (c ∷ d ∷ []) = []
decode_groups end written (c ∷ d ∷ e ∷ []) = []
decode_groups end written (c ∷ d ∷ e ∷ f ∷ rest) =
    let first = octet_1 (inverse_t64 c) (inverse_t64 d) in
    let second = octet_2 (inverse_t64 d) (inverse_t64 e) in
    let third = octet_3 (inverse_t64 e) (inverse_t64 f) in
    let more = decode_groups end (written + 3) rest in
    if leb end (written + 1)
    then first ∷ []
    else (if leb end (written + 2) then first ∷ second ∷ [] else first ∷ second ∷ third ∷ more)

-- `outCount`: of an `int`, and a size_t, so it wraps where more pads are found than bytes are counted.
abbrev pub decoded_size : ℕ → ℕ → ℕ
decoded_size n pads = (int_size (3 * (n / 4)) + 2 ^ 64 - pads) % 2 ^ 64

-- What the write loop of the decoder reads.
abbrev pub decoded_part : List ℕ → List ℕ
decoded_part input = take (4 * rounds (length input / 4)) input

-- `Base64ToByteStream (in, length in, out, len)`; `none` where the scan leaves the buffer.
unfoldable pub base64_to_byte_stream : List ℕ → ℕ → Option (ℕ × List ℕ)
unfolding count_pads decode_groups inverse_t64
base64_to_byte_stream input len =
    if length input == 0
    then some (0, [])
    else (if length input % 4 == 0
        then Option.map
            (λ pads.
              let size = decoded_size (length input) pads in
              if ltb len size then (0, []) else (size, decode_groups size 0 (decoded_part input)))
            (count_pads (reverse input))
        else some (0, []))
