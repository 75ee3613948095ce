-- ===== src/Base64/RoundTrip.antt =====
-- core/util/base64.cpp: decoding undoes encoding.
use i2pd.Prelude.{
  ℕ, ◌+◌, ◌-◌, ◌*◌, ◌/◌, ◌%◌, ◌^◌, ◌≤◌, ◌<◌, ◌≡◌, refl, ap, ◌∙◌, List, [], ◌∷◌, ◌++◌, false, some,
  true, Bool-cases, inl, inr, reverse, reverse-cons, bit_and, bit_or, ltb, ◌&&◌, take, take_all,
  leb, ◌==◌, if◌then◌else◌, length, All, arith,
}
use i2pd.Prelude.Bytes.{IsByte, agree_below, agree_below_sound}
use i2pd.Base64.{
  t64, pad, inverse_t64, digit_1, digit_2, digit_3, digit_4, octet_1, octet_2, octet_3, rounds,
  encoded_part, decoded_part, encode_groups, encoded_size, byte_stream_to_base64, count_pads,
  decode_groups, decoded_size, base64_to_byte_stream,
}

-- The reverse table inverts the alphabet.
inverse_t64-t64 : (i : ℕ) → i < 64 → inverse_t64 (t64 i) ≡ i
unfolding agree_below t64 inverse_t64
inverse_t64-t64 = agree_below_sound _ _ 64 refl

inverse_t64-pad : inverse_t64 pad ≡ 0
unfolding inverse_t64
inverse_t64-pad = refl

pad_flag : ℕ → ℕ
pad_flag i = if t64 i == pad then 1 else 0

pad_flag-zero : (i : ℕ) → i < 64 → pad_flag i ≡ 0
unfolding agree_below t64 pad_flag
pad_flag-zero = agree_below_sound _ (λ i. 0) 64 refl

t64-ne-pad : (i : ℕ) → i < 64 → (t64 i == pad) ≡ false
unfolding pad_flag
t64-ne-pad i h = ground (arith, pad_flag-zero i h)

-- Masks and joins of aligned parts as arithmetic.
and_high : (a : ℕ) → a < 256 → bit_and (a * 16 % 256) 0x30 ≡ a % 4 * 16
unfolding agree_below
and_high = agree_below_sound (λ a. bit_and (a * 16 % 256) 0x30) (λ a. a % 4 * 16) 256 refl

and_high_last : (a : ℕ) → a < 256 → bit_and (a * 16 % 256) 0x3f ≡ a % 4 * 16
unfolding agree_below
and_high_last = agree_below_sound (λ a. bit_and (a * 16 % 256) 0x3f) (λ a. a % 4 * 16) 256 refl

and_low : (b : ℕ) → b < 256 → bit_and b 0x0f * 4 % 256 ≡ b % 16 * 4
unfolding agree_below
and_low = agree_below_sound (λ b. bit_and b 0x0f * 4 % 256) (λ b. b % 16 * 4) 256 refl

and_last : (c : ℕ) → c < 256 → bit_and c 0x3f ≡ c % 64
unfolding agree_below
and_last = agree_below_sound (λ c. bit_and c 0x3f) (λ c. c % 64) 256 refl

or_16 : (v : ℕ) → v < 256 → bit_or (v / 16 * 16) (v % 16) ≡ v
unfolding agree_below
or_16 = agree_below_sound (λ v. bit_or (v / 16 * 16) (v % 16)) (λ v. v) 256 refl

or_4 : (v : ℕ) → v < 256 → bit_or (v / 4 * 4) (v % 4) ≡ v
unfolding agree_below
or_4 = agree_below_sound (λ v. bit_or (v / 4 * 4) (v % 4)) (λ v. v) 256 refl

or_64 : (v : ℕ) → v < 256 → bit_or (v % 64) (v / 64 * 64) ≡ v
unfolding agree_below
or_64 = agree_below_sound (λ v. bit_or (v % 64) (v / 64 * 64)) (λ v. v) 256 refl

join_16 : (x y : ℕ) → x < 16 → y < 16 → bit_or (x * 16) y ≡ x * 16 + y
join_16 x y hx hy =
    ap (λ (t : ℕ). bit_or (t * 16) y) (omega arith)
    ∙ ap (bit_or ((x * 16 + y) / 16 * 16)) (omega arith)
    ∙ or_16 (x * 16 + y) (omega arith)

join_4 : (x y : ℕ) → x < 64 → y < 4 → bit_or (x * 4) y ≡ x * 4 + y
join_4 x y hx hy =
    ap (λ (t : ℕ). bit_or (t * 4) y) (omega arith)
    ∙ ap (bit_or ((x * 4 + y) / 4 * 4)) (omega arith)
    ∙ or_4 (x * 4 + y) (omega arith)

join_64 : (x y : ℕ) → x < 4 → y < 64 → bit_or y (x * 64) ≡ x * 64 + y
join_64 x y hx hy =
    ap (λ (t : ℕ). bit_or t (x * 64)) (omega arith)
    ∙ ap (λ (t : ℕ). bit_or ((x * 64 + y) % 64) (t * 64)) (omega arith)
    ∙ or_64 (x * 64 + y) (omega arith)

-- The values that the encoder looks up, and the octets that the decoder joins from them.
digits-lt :
    (a b c : ℕ)
    → a < 256
    → b < 256
    → c < 256
    → (digit_1 a < 64) × (digit_2 a b < 64) × (digit_3 b c < 64) × (digit_4 c < 64)
digits-lt a b c ha hb hc = (
  omega arith,
  rw (and_high a ha, join_16 (a % 4) (b / 16) (omega arith) (omega arith)) (omega arith),
  rw (and_low b hb, join_4 (b % 16) (c / 64) (omega arith) (omega arith)) (omega arith),
  rw (and_last c hc) (omega arith),
)

octet_1-digits : (a b : ℕ) → a < 256 → b < 256 → octet_1 (digit_1 a) (digit_2 a b) ≡ a
octet_1-digits a b ha hb =
    rw (and_high a ha, join_16 (a % 4) (b / 16) (omega arith) (omega arith))
      (ap (λ (t : ℕ). bit_or t ((a % 4 * 16 + b / 16) / 16)) (omega arith)
        ∙ join_4 (a / 4) ((a % 4 * 16 + b / 16) / 16) (omega arith) (omega arith)
        ∙ omega arith)

octet_2-digits : (a b c : ℕ) → a < 256 → b < 256 → c < 256 → octet_2 (digit_2 a b) (digit_3 b c) ≡ b
octet_2-digits a b c ha hb hc =
    rw
      (
        and_high a ha,
        join_16 (a % 4) (b / 16) (omega arith) (omega arith),
        and_low b hb,
        join_4 (b % 16) (c / 64) (omega arith) (omega arith),
      )
      (ap (λ (t : ℕ). bit_or t ((b % 16 * 4 + c / 64) / 4)) (omega arith)
        ∙ join_16 (b / 16) ((b % 16 * 4 + c / 64) / 4) (omega arith) (omega arith)
        ∙ omega arith)

octet_3-digits : (b c : ℕ) → b < 256 → c < 256 → octet_3 (digit_3 b c) (digit_4 c) ≡ c
octet_3-digits b c hb hc =
    rw (and_low b hb, join_4 (b % 16) (c / 64) (omega arith) (omega arith), and_last c hc)
      (ap (bit_or (c % 64)) (omega arith)
        ∙ join_64 (c / 64) (c % 64) (omega arith) (omega arith)
        ∙ omega arith)

-- A last byte is padded with zero bits: it is coded as if zero bytes followed.
digit_2_last : (a : ℕ) → a < 256 → bit_and (a * 16 % 256) 0x3f ≡ digit_2 a 0
digit_2_last a ha =
    rw (and_high_last a ha, and_high a ha, join_16 (a % 4) 0 (omega arith) (omega arith))
      (omega arith)

digit_2_pair : (a b : ℕ) → a < 256 → bit_or (bit_and (a * 16 % 256) 0x3f) (b / 16) ≡ digit_2 a b
digit_2_pair a b ha = rw (and_high a ha, and_high_last a ha)

digit_3_last : (b : ℕ) → b < 256 → bit_and b 0x0f * 4 % 256 ≡ digit_3 b 0
digit_3_last b hb = rw (and_low b hb, join_4 (b % 16) 0 (omega arith) (omega arith)) (omega arith)

module _ (a b c : ℕ) (ha : a < 256) (hb : b < 256) (hc : c < 256) where
  d : (digit_1 a < 64) × (digit_2 a b < 64) × (digit_3 b c < 64) × (digit_4 c < 64)
  d = digits-lt a b c ha hb hc

  -- A group decodes to its first, first two, or all three bytes, by where the output ends.
  decode_group :
      (end written : ℕ) (e f : ℕ) (rest : List ℕ)
      → inverse_t64 e ≡ digit_3 b c
      → inverse_t64 f ≡ digit_4 c
      → decode_groups end written (t64 (digit_1 a) ∷ t64 (digit_2 a b) ∷ e ∷ f ∷ rest) ≡ (
          if leb end (written + 1)
          then a ∷ []
          else (if leb end (written + 2)
              then a ∷ b ∷ []
              else a ∷ b ∷ c ∷ decode_groups end (written + 3) rest))
  unfolding decode_groups
  decode_group end written e f rest he hf = rw (
    inverse_t64-t64 (digit_1 a) d.0,
    inverse_t64-t64 (digit_2 a b) d.1,
    he,
    hf,
    octet_1-digits a b ha hb,
    octet_2-digits a b c ha hb hc,
    octet_3-digits b c hb hc,
  )

-- The characters of an encoding.
abbrev pub num_characters : ℕ → ℕ
num_characters n = 4 * ((n + 2) / 3)

length-encode_groups : (bs : List ℕ) → length (encode_groups bs) ≡ num_characters (length bs)
unfolding encode_groups
length-encode_groups [] = refl
length-encode_groups (a ∷ []) = refl
length-encode_groups (a ∷ b ∷ []) = refl
length-encode_groups (a ∷ b ∷ c ∷ rest) = ground (arith, length-encode_groups rest)

decode_groups-encode_groups :
    (bs : List ℕ) (end written : ℕ)
    → All IsByte bs
    → end ≡ written + length bs
    → decode_groups end written (encode_groups bs) ≡ bs
unfolding encode_groups
decode_groups-encode_groups [] end written h e = unfold decode_groups in refl
decode_groups-encode_groups (a ∷ []) end written (ha, _) e = rw (digit_2_last a ha) (
    decode_group a 0 0 ha (omega arith) (omega arith) end written pad pad [] (inverse_t64-pad)
      (inverse_t64-pad)
    ∙ ground arith)
decode_groups-encode_groups (a ∷ b ∷ []) end written (ha, (hb, _)) e =
    rw (digit_2_pair a b ha, digit_3_last b hb)
      (decode_group a b 0 ha hb (omega arith) end written (t64 (digit_3 b 0)) pad []
          (inverse_t64-t64 _ (digits-lt a b 0 ha hb (omega arith)).2) (inverse_t64-pad)
        ∙ ground arith)
decode_groups-encode_groups (a ∷ b ∷ c ∷ rest) end written (ha, (hb, (hc, hs))) e =
    let d = digits-lt a b c ha hb hc in
    decode_group a b c ha hb hc end written _ _ (encode_groups rest) (inverse_t64-t64 _ d.2)
      (inverse_t64-t64 _ d.3)
    ∙ ground (arith, decode_groups-encode_groups rest end (written + 3) hs)

count_pads-append :
    (xs ys : List ℕ) (k : ℕ) → count_pads xs ≡ some k → count_pads (xs ++ ys) ≡ some k
unfolding count_pads
count_pads-append [] ys k e = cc
count_pads-append (c ∷ cs) ys k e = ground (arith, count_pads-append cs ys (k - 1))

count_pads-reverse :
    (x : ℕ) (xs : List ℕ) (k : ℕ)
    → count_pads (reverse xs) ≡ some k
    → count_pads (reverse (x ∷ xs)) ≡ some k
count_pads-reverse x xs k e = rw (reverse-cons x xs) (count_pads-append (reverse xs) (x ∷ []) k e)

count_pads-reverse_four :
    (p q r s : ℕ) (xs : List ℕ) (k : ℕ)
    → count_pads (reverse xs) ≡ some k
    → count_pads (reverse (p ∷ q ∷ r ∷ s ∷ xs)) ≡ some k
count_pads-reverse_four p q r s xs k e = count_pads-reverse p (q ∷ r ∷ s ∷ xs) k (
    count_pads-reverse q (r ∷ s ∷ xs) k
      (count_pads-reverse r (s ∷ xs) k (count_pads-reverse s xs k e)))

-- The pads that the encoder writes.
pads_of : ℕ → ℕ
pads_of n = (3 - n % 3) % 3

count_pads-encode_groups :
    (b : ℕ) (bs : List ℕ)
    → All IsByte (b ∷ bs)
    → count_pads (reverse (encode_groups (b ∷ bs))) ≡ some (pads_of (length (b ∷ bs)))
unfolding encode_groups count_pads pads_of
count_pads-encode_groups a [] (ha, _) =
    rw (digit_2_last a ha)
      (ground (arith, t64-ne-pad _ (digits-lt a 0 0 ha (omega arith) (omega arith)).1))
count_pads-encode_groups a (b ∷ []) (ha, (hb, _)) =
    ground (arith, t64-ne-pad _ (digits-lt a b 0 ha hb (omega arith)).2, digit_3_last b hb)
count_pads-encode_groups a (b ∷ c ∷ []) (ha, (hb, (hc, _))) =
    ground (arith, t64-ne-pad _ (digits-lt a b c ha hb hc).3)
count_pads-encode_groups a (b ∷ c ∷ x ∷ rest) (ha, (hb, (hc, hs))) =
    count_pads-reverse_four _ _ _ _ (encode_groups (x ∷ rest)) _
      (count_pads-encode_groups x rest hs)
    ∙ ap some (omega arith)

decoded_size-pads : (n : ℕ) → n ≤ 3 * (2 ^ 29 - 1) → decoded_size (num_characters n) (pads_of n) ≡ n
unfolding pads_of
decoded_size-pads n h = ground arith

encoded_size-exact : (n : ℕ) → n ≤ 3 * (2 ^ 29 - 1) → encoded_size n ≡ num_characters n
unfolding encoded_size
encoded_size-exact n h = ground arith

encoded_size-negative :
    (n : ℕ) → 3 * (2 ^ 29 - 1) < n → n ≤ 3 * (2 ^ 30 - 1) → 2 ^ 63 ≤ encoded_size n
unfolding encoded_size
encoded_size-negative n l h = ground arith

-- Below the bounds, the loops go over the whole input.
encoded_part-whole : (bs : List ℕ) → length bs ≤ 3 * (2 ^ 30 - 1) → encoded_part bs ≡ bs
encoded_part-whole bs h =
    let all : 3 * rounds (length bs / 3) + length bs % 3 ≡ length bs = ground arith in
    ap (λ n. take n bs) all ∙ take_all bs

decoded_part-whole : (cs : List ℕ) → length cs % 4 ≡ 0 → length cs < 2 ^ 31 → decoded_part cs ≡ cs
decoded_part-whole cs m h =
    let all : 4 * rounds (length cs / 4) ≡ length cs = ground (arith, m) in
    ap (λ n. take n cs) all ∙ take_all cs

base64_to_byte_stream-encode_groups :
    (b : ℕ) (bs : List ℕ) (back : ℕ)
    → All IsByte (b ∷ bs)
    → length (b ∷ bs) ≤ 3 * (2 ^ 29 - 1)
    → length (b ∷ bs) ≤ back
    → base64_to_byte_stream (encode_groups (b ∷ bs)) back ≡ some (length (b ∷ bs), b ∷ bs)
unfolding base64_to_byte_stream
base64_to_byte_stream-encode_groups b bs back h small enough =
    let size = length-encode_groups (b ∷ bs) in
    rw
      (
        decoded_part-whole (encode_groups (b ∷ bs)) (omega (arith, size)) (omega (arith, size)),
        size,
        count_pads-encode_groups b bs h,
        decoded_size-pads (length (b ∷ bs)) small,
        decode_groups-encode_groups (b ∷ bs) (length (b ∷ bs)) 0 h (omega arith),
      )
      (ground arith)

choose_size :
    (n room : ℕ) (written : List ℕ) (failed : ℕ × List ℕ)
    → n ≤ 3 * (2 ^ 30 - 1)
    → room < 2 ^ 63
    → (if ltb room (encoded_size n) then failed else (encoded_size n, written)) ≡ (
        if leb (num_characters n) room && ltb (num_characters n) (2 ^ 31)
        then (num_characters n, written)
        else failed)
choose_size n room written failed h small = elim (Bool-cases (ltb (3 * (2 ^ 29 - 1)) n)) [
  | inl l ↦
      let big : ltb room (encoded_size n) ≡ true =
        ground (arith, encoded_size-negative n (ground (arith, l)) h) in
      let many : ltb (num_characters n) (2 ^ 31) ≡ false = ground (arith, l) in
      rw (big, many) (ground arith)
  | inr l ↦ rw (encoded_size-exact n (ground (arith, l))) (ground (arith, l))
]

-- Of up to 3 * (2^30 - 1) bytes, and with a buffer of less than 2^63, the encoder writes the whole
-- encoding, of four characters for each three bytes begun, and returns their number, if they fit and
-- there are fewer than 2^31 of them; else it writes nothing and returns 0.
pub byte_stream_to_base64-exact :
    (bs : List ℕ) (room : ℕ)
    → length bs ≤ 3 * (2 ^ 30 - 1)
    → room < 2 ^ 63
    → (byte_stream_to_base64 bs room ≡ (
        if leb (num_characters (length bs)) room && ltb (num_characters (length bs)) (2 ^ 31)
        then (num_characters (length bs), encode_groups bs)
        else (0, [])))
      × (length (encode_groups bs) ≡ num_characters (length bs))
unfolding byte_stream_to_base64
byte_stream_to_base64-exact bs room h small = (
  rw (encoded_part-whole bs h) (choose_size (length bs) room (encode_groups bs) (0, []) h small),
  length-encode_groups bs,
)

-- Decoding what was encoded gives back the bytes, for every input of up to 3 * (2^29 - 1) bytes whose
-- encoding fits the first buffer and which fits the second.
pub base64_round_trip :
    (bs : List ℕ) (room back : ℕ)
    → All IsByte bs
    → length bs ≤ 3 * (2 ^ 29 - 1)
    → num_characters (length bs) ≤ room
    → length bs ≤ back
    → base64_to_byte_stream (byte_stream_to_base64 bs room).1 back ≡ some (length bs, bs)
unfolding byte_stream_to_base64
base64_round_trip [] room back h small fits enough =
    unfold encoded_size base64_to_byte_stream encode_groups in ground arith
base64_round_trip (b ∷ bs) room back h small fits enough =
    rw (encoded_part-whole (b ∷ bs) (omega arith), encoded_size-exact (length (b ∷ bs)) small)
      (ground (arith, base64_to_byte_stream-encode_groups b bs back h small enough))
