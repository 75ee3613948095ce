-- ===== src/Streaming/Wire.antt =====
-- core/Streaming.h: the bytes of a packet, as the senders write them and as the getters read them.
use i2pd.Prelude.{
  ℕ, zero, suc, ◌%◌, List, [], ◌∷◌, ◌++◌, Option, none, some, leb, length, take, drop,
  if◌then◌else◌,
}
use i2pd.Prelude.Bytes.{be16, be32, from_be16, from_be32}
use i2pd.Streaming.{Packet}

abbrev pub words : List ℕ → List ℕ
words [] = []
words (n ∷ ns) = be32 n ++ words ns

-- The packet that `SendBuffer`, `SendQuickAck` and `SendClose` write, field after field.
unfoldable pub encode : Packet → List ℕ
encode p =
    be32 p.send_stream_id
    ++ (be32 p.receive_stream_id
        ++ (be32 p.seqn
            ++ (be32 p.ack_through
                ++ ((length p.nacks % 256) ∷ words p.nacks
                    ++ ((p.resend_delay % 256) ∷ be16 p.flags
                        ++ (be16 (length p.option_data) ++ (p.option_data ++ p.payload)))))))

-- `GetNACK` of each index, and what stands behind them.
unfoldable pub read_words : ℕ → List ℕ → Option (List ℕ × List ℕ)
read_words zero bytes = some ([], bytes)
read_words (suc n) (a ∷ b ∷ c ∷ d ∷ bytes) = elim (read_words n bytes) [
  | none ↦ none
  | some (ns, rest) ↦ some (from_be32 a b c d ∷ ns, rest)
]
read_words (suc n) bytes = none

-- The getters behind the NACKs: resend delay, flags, size of the options, options, payload.
unfoldable pub read_tail : Packet → List ℕ → Option Packet
read_tail p (delay ∷ f ∷ g ∷ m ∷ n ∷ rest) =
    if leb (from_be16 m n) (length rest)
    then some (record p {
      resend_delay = delay;
      flags = from_be16 f g;
      option_data = take (from_be16 m n) rest;
      payload = drop (from_be16 m n) rest;
    })
    else none
read_tail p _ = none

unfoldable pub read_head : List ℕ → Option (Packet × ℕ × List ℕ)
read_head (a ∷ b ∷ c ∷ d ∷ e ∷ f ∷ g ∷ h ∷ i ∷ j ∷ k ∷ l ∷ m ∷ n ∷ o ∷ p ∷ count ∷ rest) = some (
  record {
    send_stream_id = from_be32 a b c d;
    receive_stream_id = from_be32 e f g h;
    seqn = from_be32 i j k l;
    ack_through = from_be32 m n o p;
    nacks = [];
    resend_delay = 0;
    flags = 0;
    option_data = [];
    payload = [];
    send_time = 0;
  },
  count,
  rest,
)
read_head _ = none

abbrev pub read_behind : Packet → Option (List ℕ × List ℕ) → Option Packet
read_behind p none = none
read_behind p (some (nacks, tail)) = read_tail (record p { nacks = nacks }) tail

abbrev pub read_rest : Option (Packet × ℕ × List ℕ) → Option Packet
read_rest none = none
read_rest (some (p, count, rest)) = read_behind p (read_words count rest)

-- The getters of `Packet`; `none` where one of them reads behind the end of the packet.
unfoldable pub parse : List ℕ → Option Packet
unfolding read_head read_words read_tail
parse bytes = read_rest (read_head bytes)
