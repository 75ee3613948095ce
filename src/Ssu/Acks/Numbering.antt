-- ===== src/Ssu/Acks/Numbering.antt =====
-- core/transport/SSUData.cpp: which fragment an acknowledgement reaches.
use i2pd.Prelude.{
  ℕ, zero, suc, ◌/◌, ◌%◌, ◌^◌, ◌≤◌, ◌<◌, ◌≡◌, ◌≢◌, refl, ap, ◌∙◌, List, [], ◌∷◌, ◌++◌, Option, none,
  some, ◌==◌, if◌then◌else◌, replicate, set, get_elem?, append_assoc, arith,
}
use i2pd.Prelude.Bytes.{be32, from_be32-be32}
use i2pd.Prelude.Assoc.{lookup, insert, lookup-insert, lookup-erase}
use i2pd.Ssu.{SsuData, SentMessage, Fragment}
use i2pd.Ssu.Acks.{ack_bitfields, process_bitfields, process_acks, process_sent_message_ack}

-- A single bit acknowledges a single fragment.
process_last_bitfield :
    (r : ℕ) (fs : List (Option Fragment)) (rest : List ℕ)
    → r < 7
    → process_bitfields (2 ^ r ∷ rest) 0 fs ≡ some (rest, set fs r none)
unfolding process_bitfields
process_last_bitfield zero fs rest h = refl
process_last_bitfield (suc zero) fs rest h = refl
process_last_bitfield (suc (suc zero)) fs rest h = refl
process_last_bitfield (suc (suc (suc zero))) fs rest h = refl
process_last_bitfield (suc (suc (suc (suc zero)))) fs rest h = refl
process_last_bitfield (suc (suc (suc (suc (suc zero))))) fs rest h = refl
process_last_bitfield (suc (suc (suc (suc (suc (suc zero)))))) fs rest h = refl
process_last_bitfield (suc (suc (suc (suc (suc (suc (suc r))))))) fs rest h = absurd (omega arith)

-- Empty bit fields do not move the fragment number on.
process_empty_bitfields :
    (q : ℕ) (bytes : List ℕ) (fs : List (Option Fragment))
    → process_bitfields (replicate q 0x80 ++ bytes) 0 fs ≡ process_bitfields bytes 0 fs
unfolding process_bitfields
process_empty_bitfields zero bytes fs = refl
process_empty_bitfields (suc q) bytes fs = process_empty_bitfields q bytes fs

process_bitfields-ack_bitfields :
    (n : ℕ) (fs : List (Option Fragment)) (rest : List ℕ)
    → process_bitfields (ack_bitfields n ++ rest) 0 fs ≡ some (rest, set fs (n % 7) none)
unfolding ack_bitfields
process_bitfields-ack_bitfields n fs rest =
    rw (append_assoc (replicate (n / 7) 0x80) (2 ^ (n % 7) ∷ []) rest) (
      process_empty_bitfields (n / 7) (2 ^ (n % 7) ∷ rest) fs
      ∙ process_last_bitfield (n % 7) fs rest (omega arith))

-- The acknowledgement that `SendFragmentAck` writes for the fragment `n` of a message is read by the
-- sender as one for the fragment `n % 7`: that fragment, and no other, is marked as received, and
-- the reading ends just behind the bit fields.
pub process_acks-ack_bitfields :
    (id n : ℕ) (rest : List ℕ) (d : SsuData) (m : SentMessage)
    → id < 2 ^ 32
    → lookup id d.sent ≡ some m
    → process_acks 0x40 (1 ∷ be32 id ++ (ack_bitfields n ++ rest)) d
      ≡ some (
        rest,
        record d {
          sent = insert id (record m { fragments = set m.fragments (n % 7) none }) d.sent;
        },
      )
unfolding process_acks
process_acks-ack_bitfields id n rest d m h found =
    ground (arith, from_be32-be32 id h, process_bitfields-ack_bitfields n m.fragments rest)

get_elem?-set_ne {ℓ} :
    {A : Type ℓ} (xs : List A) (i j : ℕ) (v : A) → i ≢ j → get_elem? (set xs i v) j ≡ get_elem? xs j
get_elem?-set_ne [] i j v h = refl
get_elem?-set_ne (x ∷ xs) zero zero v h = absurd (h refl)
get_elem?-set_ne (x ∷ xs) zero (suc j) v h = refl
get_elem?-set_ne (x ∷ xs) (suc i) zero v h = refl
get_elem?-set_ne (x ∷ xs) (suc i) (suc j) v h = get_elem?-set_ne xs i j v (λ e. h (ap suc e))

-- What the sender still holds as fragment `k` of the message `id` after an acknowledgement.
abbrev pub held : ℕ → ℕ → Option (List ℕ × SsuData) → Option (Option Fragment)
held id k none = none
held id k (some (rest, d)) = elim (lookup id d.sent) [
  | none ↦ none
  | some m ↦ get_elem? m.fragments k
]

-- After the acknowledgement that `SendFragmentAck` writes for a fragment from number 7 on, of a message
-- that was sent, the sender holds that fragment just as before.
pub late_fragment_not_acknowledged :
    (id n : ℕ) (rest : List ℕ) (d : SsuData) (m : SentMessage)
    → id < 2 ^ 32
    → 7 ≤ n
    → lookup id d.sent ≡ some m
    → held id n (process_acks 0x40 (1 ∷ be32 id ++ (ack_bitfields n ++ rest)) d)
      ≡ get_elem? m.fragments n
late_fragment_not_acknowledged id n rest d m h late found =
    rw (process_acks-ack_bitfields id n rest d m h found) (
      ground (
        arith,
        lookup-insert id id (record m { fragments = set m.fragments (n % 7) none }) d.sent,
        get_elem?-set_ne m.fragments (n % 7) n none (omega arith),
      ))

lookup-process_sent_message_ack :
    (id k : ℕ) (d : SsuData)
    → lookup k (process_sent_message_ack id d).sent ≡ (if id == k then none else lookup k d.sent)
unfolding process_sent_message_ack
lookup-process_sent_message_ack id k d = ground (arith, lookup-erase id k d.sent)

-- An explicit acknowledgement, as `SendMsgAck` writes it, takes the message off the list of messages
-- to resend, and leaves every other message there.
pub process_acks-explicit :
    (id k : ℕ) (rest : List ℕ) (d : SsuData)
    → id < 2 ^ 32
    → (d' : SsuData) × (process_acks 0x80 (1 ∷ be32 id ++ rest) d ≡ some (rest, d'))
      × (lookup k d'.sent ≡ (if id == k then none else lookup k d.sent))
unfolding process_acks
process_acks-explicit id k rest d h = (
  process_sent_message_ack id d,
  ap (λ (t : ℕ). some (rest, process_sent_message_ack t d)) (from_be32-be32 id h),
  lookup-process_sent_message_ack id k d,
)
