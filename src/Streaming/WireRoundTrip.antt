-- ===== src/Streaming/WireRoundTrip.antt =====
-- core/Streaming.h: a packet that is written is read as it was.
use i2pd.Prelude.{
  ℕ, ◌/◌, ◌%◌, ◌^◌, ◌<◌, ◌≡◌, refl, sym, ap, ◌∙◌, List, [], ◌∷◌, ◌++◌, arith, Option, some,
  leb-true, length, All, length-append, take-append_left, drop-append_left,
}
use i2pd.Prelude.Bytes.{be16, from_be16, from_be32-be32}
use i2pd.Streaming.{Packet}
use i2pd.Streaming.Wire.{
  words, encode, read_words, read_tail, read_head, read_rest, read_behind, parse,
}

-- The fields fit in their places, and the packet was not sent yet.
abbrev pub FitsWire : Packet → Type 0
FitsWire p =
    (p.send_stream_id < 2 ^ 32)
    × (p.receive_stream_id < 2 ^ 32)
    × (p.seqn < 2 ^ 32)
    × (p.ack_through < 2 ^ 32)
    × (length p.nacks < 256)
    × All (λ (n : ℕ). n < 2 ^ 32) p.nacks
    × (p.resend_delay < 256)
    × (p.flags < 2 ^ 16)
    × (length p.option_data < 2 ^ 16)
    × (p.send_time ≡ 0)

read_words-words :
    (ns rest : List ℕ)
    → All (λ (n : ℕ). n < 2 ^ 32) ns
    → read_words (length ns) (words ns ++ rest) ≡ some (ns, rest)
unfolding read_words
read_words-words [] rest h = refl
read_words-words (n ∷ ns) rest (h, hs) = rw (read_words-words ns rest hs, from_be32-be32 n h) refl

from_be16-be16 : (n : ℕ) → n < 2 ^ 16 → from_be16 (n / 256 % 256) (n % 256) ≡ n
from_be16-be16 n h = omega arith

-- What `encode` writes behind the NACKs.
abbrev tail_of : Packet → List ℕ
tail_of p =
    (p.resend_delay % 256) ∷ be16 p.flags
    ++ (be16 (length p.option_data) ++ (p.option_data ++ p.payload))

read_tail-tail_of :
    (q p : Packet)
    → FitsWire p
    → read_tail q (tail_of p)
      ≡ some (record q {
        resend_delay = p.resend_delay;
        flags = p.flags;
        option_data = p.option_data;
        payload = p.payload;
      })
unfolding read_tail
read_tail-tail_of q p (a, b, c, d, e, f, g, h, i, j) =
    let size = from_be16-be16 (length p.option_data) i in
    let fits =
      leb-true (length p.option_data) (length (p.option_data ++ p.payload))
        (omega (arith, length-append p.option_data p.payload)) in
    let delay : p.resend_delay % 256 ≡ p.resend_delay = omega arith in
    rw
      (
        size,
        fits,
        delay,
        from_be16-be16 p.flags h,
        take-append_left (length p.option_data) p.option_data p.payload refl,
        drop-append_left (length p.option_data) p.option_data p.payload refl,
      )
      refl

parse_lem :
    (bytes rest ns tail : List ℕ) (q : Packet) (count : ℕ) (r : Option Packet)
    → read_head bytes ≡ some (q, count, rest)
    → read_words count rest ≡ some (ns, tail)
    → read_tail (record q { nacks = ns }) tail ≡ r
    → parse bytes ≡ r
unfolding parse
parse_lem bytes rest ns tail q count r e f g = ap read_rest e ∙ ap (read_behind q) f ∙ g

-- The fields in front of the NACKs.
abbrev head_of : Packet → Packet
head_of p = record p {
  nacks = [];
  resend_delay = 0;
  flags = 0;
  option_data = [];
  payload = [];
  send_time = 0;
}

read_head-encode :
    (p : Packet)
    → FitsWire p
    → read_head (encode p) ≡ some (head_of p, length p.nacks, words p.nacks ++ tail_of p)
unfolding read_head encode
read_head-encode p (a, b, c, d, e, f, g, h, i, j) =
    let count : length p.nacks % 256 ≡ length p.nacks = omega arith in
    rw
      (
        from_be32-be32 p.send_stream_id a,
        from_be32-be32 p.receive_stream_id b,
        from_be32-be32 p.seqn c,
        from_be32-be32 p.ack_through d,
        count,
      )
      refl

-- The bytes that the senders write for a packet are read, by the getters, as the packet.
pub parse-encode : (p : Packet) → FitsWire p → parse (encode p) ≡ some p
parse-encode p (a, b, c, d, e, f, g, h, i, j) =
    parse_lem (encode p) (words p.nacks ++ tail_of p) p.nacks (tail_of p) (head_of p)
      (length p.nacks) (some p) (read_head-encode p (a, b, c, d, e, f, g, h, i, j))
      (read_words-words p.nacks (tail_of p) f)
      (read_tail-tail_of (record (head_of p) { nacks = p.nacks }) p (a, b, c, d, e, f, g, h, i, j)
        ∙ ap (λ (n : ℕ). some (record p { send_time = n })) (sym j))
