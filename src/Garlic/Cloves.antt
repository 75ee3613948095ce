-- ===== src/Garlic/Cloves.antt =====
-- core/Garlic.cpp: the cloves of a payload, one after the other, and what becomes of them.
use i2pd.Prelude.{
  ℕ, ◌+◌, ◌^◌, ◌<◌, ◌≡◌, refl, ap, Bool, true, false, List, [], ◌∷◌, ◌++◌, Option, none, some, ltb,
  if◌then◌else◌, arith, length, take, take-append_left, drop-append_left, length-append,
}
use i2pd.Prelude.Bytes.{be32}
use i2pd.I2np.{message_length, copy_message}
use i2pd.Garlic.Receive.{Delivery, handed, sent, read}

-- A clove: who is to have the message, and the clove's id, expiration and certificate.
pub data Clove : Type 0 where
  for_local : List ℕ → List ℕ → Clove
  for_destination : List ℕ → List ℕ → List ℕ → Clove
  for_tunnel : List ℕ → ℕ → List ℕ → List ℕ → Clove

abbrev pub clove_bytes : Clove → List ℕ
clove_bytes (for_local msg ends) = 0 ∷ (msg ++ ends)
clove_bytes (for_destination hash msg ends) = 32 ∷ (hash ++ (msg ++ ends))
clove_bytes (for_tunnel hash id msg ends) = 96 ∷ (hash ++ (be32 id ++ (msg ++ ends)))

-- Bytes whose header tells their length, whatever is behind them.
abbrev pub IsMessage : List ℕ → Type 0
IsMessage msg = (rest : List ℕ) → message_length (msg ++ rest) ≡ some (length msg)

abbrev pub IsClove : Clove → Type 0
IsClove (for_local msg ends) = IsMessage msg × (length ends ≡ 15)
IsClove (for_destination hash msg ends) = (length hash ≡ 32) × IsMessage msg × (length ends ≡ 15)
IsClove (for_tunnel hash id msg ends) =
    (length hash ≡ 32) × (id < 2 ^ 32) × (length msg < 32766) × IsMessage msg × (length ends ≡ 15)

-- What arrives: a message for the destination itself, or one on its way to a tunnel's gateway.
pub data Arrival : Type 0 where
  here : List ℕ → Arrival
  at_gateway : List ℕ → ℕ → List ℕ → Arrival

-- The bytes that a handler takes for its message, by the size in the header.
unfoldable pub sized : List ℕ → Option ℕ → List ℕ
sized bytes none = []
sized bytes (some n) = take n bytes

unfoldable pub arrival : Delivery → Arrival
unfolding sized message_length
arrival (handed bytes len) = here (sized bytes (message_length bytes))
arrival (sent hash id msg) = at_gateway hash id msg

unfoldable pub arrivals : Bool → List Clove → List Arrival
arrivals outbound [] = []
arrivals outbound (for_local msg ends ∷ rest) = here msg ∷ arrivals outbound rest
arrivals outbound (for_destination hash msg ends ∷ rest) = here msg ∷ arrivals outbound rest
arrivals outbound (for_tunnel hash id msg ends ∷ rest) =
    let others = arrivals outbound rest in
    if outbound then at_gateway hash id msg ∷ others else others

unfoldable pub all_bytes : List Clove → List ℕ
all_bytes [] = []
all_bytes (clove ∷ rest) = clove_bytes clove ++ all_bytes rest

pub read-append : (xs ys : List ℕ) (n : ℕ) → length xs ≡ n → read n (xs ++ ys) ≡ some (xs, ys)
unfolding read
read-append xs ys n h =
    let enough : ltb (length (xs ++ ys)) n ≡ false = ground (arith, length-append xs ys) in
    rw (enough, take-append_left n xs ys h, drop-append_left n xs ys h) refl

pub arrival-handed :
    (msg rest : List ℕ) (len : ℕ) → IsMessage msg → arrival (handed (msg ++ rest) len) ≡ here msg
unfolding arrival sized
arrival-handed msg rest len is =
    rw (is rest) (ap here (take-append_left (length msg) msg rest refl))

pub copy_message-append :
    (msg rest : List ℕ) → length msg < 32766 → copy_message (length msg) (msg ++ rest) ≡ some msg
unfolding copy_message
copy_message-append msg rest h =
    let fits : ltb (2 + length msg) 32768 ≡ true = ground arith in
    let whole : ltb (length (msg ++ rest)) (length msg) ≡ false =
      ground (arith, length-append msg rest) in
    rw (fits, whole, take-append_left (length msg) msg rest refl) refl
