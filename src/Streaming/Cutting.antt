-- ===== src/Streaming/Cutting.antt =====
-- core/Streaming.cpp: how the loop of `SendBuffer` cuts the bytes of the application into packets.
use i2pd.Prelude.{
  inl, inr, ◌⊎◌, ℕ, zero, suc, ◌+◌, ◌-◌, ◌≤◌, ◌<◌, ◌≡◌, refl, ap, ◌∙◌, Bool, false, ◌&&◌, ◌||◌, not,
  List, [], ◌∷◌, ◌++◌, append_assoc, arith, if◌then◌else◌, length, All, Bool-cases, length-append,
  length-take, take-append-drop,
}
use i2pd.Prelude.Bytes.{be16}
use mathlib.Core.Path.{subst}
use i2pd.Streaming.{Packet, Stream, Services, is_new, next, streaming_mtu}
use i2pd.Streaming.Wire.{encode}
use i2pd.Streaming.Acked.{covers}
use i2pd.Streaming.Sending.{
  taken, read_buffer, follow_on_size, follow_on_packet, is_established, initial_size,
  initial_packet, next_packet, after_packet, make_packets,
}

-- The bytes that packets carry, in their order.
unfoldable pub carried : List Packet → List ℕ
carried [] = []
carried (p ∷ ps) = p.payload ++ carried ps

-- Packets whose numbers follow one another, from a number on.
abbrev pub IsNumbered : ℕ → List Packet → Type 0
IsNumbered n [] = Unit
IsNumbered n (p ∷ ps) = (p.seqn ≡ n) × IsNumbered (next n) ps

length-initial :
    (identity signature bytes : List ℕ) (n : ℕ)
    → length signature ≡ n
    → length bytes ≤ streaming_mtu - (24 + length identity + n)
    → length identity + n + 24 ≤ streaming_mtu
    → 22 + length ((identity ++ (be16 streaming_mtu ++ signature)) ++ bytes) ≤ streaming_mtu
length-initial identity signature bytes n e h fits = omega (
  arith,
  length-append (identity ++ (be16 streaming_mtu ++ signature)) bytes,
  length-append identity (be16 streaming_mtu ++ signature),
)

module _ {I : Type 0} where
  taken-read_buffer :
      (n : ℕ) (s : Stream I) → taken n s ++ (read_buffer n s).send_buffer ≡ s.send_buffer
  taken-read_buffer n s = elim (Bool-cases s.eof) [
    | inl e ↦ rw e refl
    | inr e ↦ rw e (take-append-drop n s.send_buffer)
  ]

  length-taken : (n : ℕ) (s : Stream I) → length (taken n s) ≤ n
  length-taken n s = ground (arith, length-take n s.send_buffer)

  -- The test of the loop.
  abbrev pub goes_on : Stream I → Bool
  goes_on s = is_new s.status || (is_established s && not s.eof)

  module _ (services : Services I) where
    covers-next_packet :
        (s : Stream I) (k : ℕ) → 0 < k → covers (next_packet services false s) k ≡ false
    unfolding next_packet initial_packet follow_on_packet
    covers-next_packet s k h = ground arith

    next_packet-after_packet :
        (b : Bool) (s : Stream I)
        → (next_packet services b s).payload ++ (after_packet services s).send_buffer
          ≡ s.send_buffer
    unfolding next_packet after_packet initial_packet follow_on_packet
    next_packet-after_packet b s = elim (Bool-cases (is_new s.status)) [
      | inl e ↦ rw e (taken-read_buffer (initial_size services) s)
      | inr e ↦ rw e (taken-read_buffer follow_on_size s)
    ]

    seqn-next_packet :
        (b : Bool) (s : Stream I) → (next_packet services b s).seqn ≡ s.sequence_number
    unfolding next_packet initial_packet follow_on_packet
    seqn-next_packet b s = ground arith

    sequence_number-after_packet :
        (s : Stream I) → (after_packet services s).sequence_number ≡ next s.sequence_number
    unfolding after_packet
    sequence_number-after_packet s = ground arith

    pub carried-make_packets :
        (room : ℕ) (b : Bool) (s : Stream I)
        → carried (make_packets services room b s).0
            ++ (make_packets services room b s).1.send_buffer
          ≡ s.send_buffer
    unfolding make_packets carried
    carried-make_packets zero b s = refl
    carried-make_packets (suc room) b s =
        let ih = carried-make_packets room b (after_packet services s) in
        let bytes = (next_packet services b s).payload in
        let more = carried (make_packets services room b (after_packet services s)).0 in
        let left = (make_packets services room b (after_packet services s)).1.send_buffer in
        let whole : (bytes ++ more) ++ left ≡ s.send_buffer =
          append_assoc bytes more left ∙ ap (◌++◌ bytes) ih ∙ next_packet-after_packet b s in
        elim (Bool-cases (goes_on s)) [ inl e ↦ rw e whole | inr e ↦ rw e refl ]

    pub IsNumbered-make_packets :
        (room : ℕ) (b : Bool) (s : Stream I)
        → IsNumbered s.sequence_number (make_packets services room b s).0
    unfolding make_packets
    IsNumbered-make_packets zero b s = tt
    IsNumbered-make_packets (suc room) b s =
        let ih = IsNumbered-make_packets room b (after_packet services s) in
        let number = sequence_number-after_packet s in
        let rest = (make_packets services room b (after_packet services s)).0 in
        elim (Bool-cases (goes_on s)) [
          | inl e ↦ rw e (seqn-next_packet b s, subst (λ n. IsNumbered n rest) number ih)
          | inr e ↦ rw e tt
        ]

    payload-next_packet :
        (b : Bool) (s : Stream I)
        → length (next_packet services b s).payload
          ≤ (if is_new s.status then initial_size services else follow_on_size)
    unfolding next_packet initial_packet follow_on_packet
    payload-next_packet b s = elim (Bool-cases (is_new s.status)) [
      | inl e ↦ rw e (length-taken (initial_size services) s)
      | inr e ↦ rw e (length-taken follow_on_size s)
    ]

    -- The loop ends only where the room is used up, or its test fails.
    pub make_packets_fills :
        (room : ℕ) (b : Bool) (s : Stream I)
        → (length (make_packets services room b s).0 ≡ room)
          ⊎ (goes_on (make_packets services room b s).1 ≡ false)
    unfolding make_packets
    make_packets_fills zero b s = inl refl
    make_packets_fills (suc room) b s = elim (Bool-cases (goes_on s)) [
      | inl e ↦ rw e (ground (arith, make_packets_fills room b (after_packet services s)))
      | inr e ↦ rw e (inr e)
    ]

    pub length-make_packets :
        (room : ℕ) (b : Bool) (s : Stream I) → length (make_packets services room b s).0 ≤ room
    unfolding make_packets
    length-make_packets zero b s = omega arith
    length-make_packets (suc room) b s =
        ground (arith, length-make_packets room b (after_packet services s))

    -- Behind a first packet, none acknowledges anything.
    pub covers-make_packets :
        (room : ℕ) (s : Stream I)
        → All (λ p. (k : ℕ) → 0 < k → covers p k ≡ false) (make_packets services room false s).0
    unfolding make_packets
    covers-make_packets zero s = tt
    covers-make_packets (suc room) s = elim (Bool-cases (goes_on s)) [
      | inl e ↦ rw e (covers-next_packet s, covers-make_packets room (after_packet services s))
      | inr e ↦ rw e tt
    ]

    -- Each packet fits in a datagram, where the identity leaves room for it and a signature has its length.
    length-initial_packet :
        length services.identity_bytes + services.signature_len + 24 ≤ streaming_mtu
        → ((bytes : List ℕ) → length (services.sign bytes) ≡ services.signature_len)
        → (b : Bool) (s : Stream I) → length (encode (initial_packet services b s)) ≤ streaming_mtu
    unfolding encode initial_packet
    length-initial_packet fits signs b s = omega (
      arith,
      length-initial services.identity_bytes (services.sign _) (taken (initial_size services) s)
          services.signature_len (signs _) (length-taken (initial_size services) s) fits,
    )

    length-follow_on_packet :
        (b : Bool) (s : Stream I) → length (encode (follow_on_packet b s)) ≤ streaming_mtu
    unfolding encode follow_on_packet
    length-follow_on_packet b s = omega (arith, length-taken follow_on_size s)

    pub length-next_packet :
        length services.identity_bytes + services.signature_len + 24 ≤ streaming_mtu
        → ((bytes : List ℕ) → length (services.sign bytes) ≡ services.signature_len)
        → (b : Bool) (s : Stream I) → length (encode (next_packet services b s)) ≤ streaming_mtu
    unfolding next_packet
    length-next_packet fits signs b s = elim (Bool-cases (is_new s.status)) [
      | inl e ↦ rw e (length-initial_packet fits signs b s)
      | inr e ↦ rw e (length-follow_on_packet b s)
    ]
