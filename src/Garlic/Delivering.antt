-- ===== src/Garlic/Delivering.antt =====
-- core/Garlic.cpp: cloves are handled one after the other.
use i2pd.Prelude.{
  ℕ, suc, ◌+◌, ◌^◌, ◌≤◌, ◌<◌, ◌≡◌, refl, sym, ap, ◌∙◌, Bool, true, false, List, [], ◌∷◌, ◌++◌,
  append_assoc, Option, some, map, ltb, if◌then◌else◌, arith, length, drop, All, drop-append_left,
  length-append,
}
use i2pd.Prelude.Chain.{and_then, and_then-some}
use i2pd.Prelude.Bytes.{be32, from_be32-be32}
use i2pd.I2np.{message_length}
use i2pd.Garlic.Receive.{Delivery, handed, sent, read_be32, read_byte, deliver, handle_cloves}
use i2pd.Garlic.Cloves.{
  clove_bytes, IsMessage, IsClove, arrival, arrivals, all_bytes, read-append, arrival-handed,
  copy_message-append, Clove, Arrival, for_local, for_destination, for_tunnel, here, at_gateway,
}

-- What a clove for a tunnel comes to.
abbrev forwarded : Bool → List ℕ → ℕ → List ℕ → List Delivery
forwarded outbound hash id msg = if outbound then sent hash id msg ∷ [] else []

deliver-tunnel :
    (outbound : Bool) (len at id : ℕ) (hash msg tail : List ℕ)
    → length hash ≡ 32
    → id < 2 ^ 32
    → length msg < 32766
    → message_length (msg ++ tail) ≡ some (length msg)
    → deliver outbound len 3 at (hash ++ (be32 id ++ (msg ++ tail)))
      ≡ some (forwarded outbound hash id msg, at + 36, msg ++ tail)
unfolding deliver read_be32
deliver-tunnel false len at id hash msg tail h i m is =
    rw (drop-append_left 32 hash (be32 id ++ (msg ++ tail)) h) (and_then-some _ refl refl)
deliver-tunnel true len at id hash msg tail h i m is =
    rw (drop-append_left 32 hash (be32 id ++ (msg ++ tail)) h) (
      and_then-some _ refl (
        and_then-some _ (read-append hash (be32 id ++ (msg ++ tail)) 32 h) (
          and_then-some _ is
            (and_then-some _ (copy_message-append msg tail m) (rw (from_be32-be32 id i) refl)))))

forwarded-arrival :
    (outbound : Bool) (hash : List ℕ) (id : ℕ) (msg : List ℕ) (ds : List Delivery)
    (others : List Arrival)
    → map arrival ds ≡ others
    → map arrival (forwarded outbound hash id msg ++ ds)
      ≡ (if outbound then at_gateway hash id msg ∷ others else others)
unfolding arrival
forwarded-arrival false hash id msg ds others e = e
forwarded-arrival true hash id msg ds others e = ap (◌∷◌ (at_gateway hash id msg)) e

module _ (outbound : Bool) (len : ℕ) where
  -- The end of a clove that was delivered: the next one is handled.
  after_message :
      (n at : ℕ) (msg ends rest : List ℕ) (done : List Delivery) (more : List Delivery)
      → IsMessage msg
      → length ends ≡ 15
      → at + length msg + 15 ≤ len
      → handle_cloves outbound len n (at + length msg + 15) rest ≡ some more
      → and_then (message_length (msg ++ (ends ++ rest))) (λ size.
        let next = at + size + 15 in
        if ltb len next
        then some done
        else and_then
            (handle_cloves outbound len n next (drop (size + 15) (msg ++ (ends ++ rest))))
            (λ others. some (done ++ others)))
        ≡ some (done ++ more)
  after_message n at msg ends rest done more is ends15 fits next =
      let short : ltb len (at + length msg + 15) ≡ false = ground arith in
      let all : drop (length msg + 15) (msg ++ (ends ++ rest)) ≡ rest =
        ap (drop (length msg + 15)) (sym (append_assoc msg ends rest))
        ∙ drop-append_left (length msg + 15) (msg ++ ends) rest
            (omega (arith, length-append msg ends)) in
      and_then-some _ (is (ends ++ rest)) (rw (short, all) (and_then-some _ next refl))

  from_parts :
      (n at : ℕ) (xs ys rest : List ℕ) {o : Option (List Delivery)}
      → handle_cloves outbound len (suc n) at (xs ++ (ys ++ rest)) ≡ o
      → handle_cloves outbound len (suc n) at ((xs ++ ys) ++ rest) ≡ o
  from_parts n at xs ys rest e =
      ap (λ (b : List ℕ). handle_cloves outbound len (suc n) at b) (append_assoc xs ys rest) ∙ e

  local_step :
      (n at : ℕ) (msg ends rest : List ℕ) (more : List Delivery)
      → IsClove (for_local msg ends)
      → at + length (clove_bytes (for_local msg ends)) ≤ len
      → handle_cloves outbound len n (at + length (clove_bytes (for_local msg ends))) rest
        ≡ some more
      → handle_cloves outbound len (suc n) at (clove_bytes (for_local msg ends) ++ rest)
        ≡ some (handed (msg ++ (ends ++ rest)) len ∷ more)
  unfolding handle_cloves read_byte deliver
  local_step n at msg ends rest more (is, ends15) fits next =
      let behind : at + length (clove_bytes (for_local msg ends)) ≡ at + 1 + 0 + length msg + 15 =
        omega (arith, length-append msg ends) in
      rw (append_assoc msg ends rest) (
        and_then-some _ refl (
          and_then-some _ refl (
            after_message n (at + 1 + 0) msg ends rest _ more is ends15
              (omega (arith, behind, fits))
              (ap (λ (k : ℕ). handle_cloves outbound len n k rest) (sym behind) ∙ next))))

  destination_step :
      (n at : ℕ) (hash msg ends rest : List ℕ) (more : List Delivery)
      → IsClove (for_destination hash msg ends)
      → at + length (clove_bytes (for_destination hash msg ends)) ≤ len
      → handle_cloves outbound len n
          (at + length (clove_bytes (for_destination hash msg ends)))
          rest
        ≡ some more
      → handle_cloves outbound len (suc n) at (clove_bytes (for_destination hash msg ends) ++ rest)
        ≡ some (handed (msg ++ (ends ++ rest)) len ∷ more)
  unfolding handle_cloves read_byte deliver
  destination_step n at hash msg ends rest more (hash32, is, ends15) fits next =
      let behind : at + length (clove_bytes (for_destination hash msg ends))
          ≡ at + 1 + 0 + 32 + length msg + 15 =
        omega (arith, length-append hash (msg ++ ends), length-append msg ends) in
      let tail = msg ++ (ends ++ rest) in
      let delivered : deliver outbound len 1 (at + 1 + 0) (hash ++ tail)
          ≡ some (handed tail len ∷ [], at + 1 + 0 + 32, tail) =
        rw (drop-append_left 32 hash tail hash32) refl in
      rw (append_assoc hash (msg ++ ends) rest, append_assoc msg ends rest)
        (and_then-some _ refl (
          and_then-some _ delivered (
            after_message n (at + 1 + 0 + 32) msg ends rest _ more is ends15
              (omega (arith, behind, fits))
              (ap (λ (k : ℕ). handle_cloves outbound len n k rest) (sym behind) ∙ next))))

  tunnel_step :
      (n at : ℕ) (hash : List ℕ) (id : ℕ) (msg ends rest : List ℕ) (more : List Delivery)
      → IsClove (for_tunnel hash id msg ends)
      → at + length (clove_bytes (for_tunnel hash id msg ends)) ≤ len
      → handle_cloves outbound len n (at + length (clove_bytes (for_tunnel hash id msg ends))) rest
        ≡ some more
      → handle_cloves outbound len (suc n) at (clove_bytes (for_tunnel hash id msg ends) ++ rest)
        ≡ some (forwarded outbound hash id msg ++ more)
  unfolding handle_cloves read_byte
  tunnel_step n at hash id msg ends rest more (hash32, id32, room, is, ends15) fits next =
      let behind : at + length (clove_bytes (for_tunnel hash id msg ends))
          ≡ at + 1 + 0 + 36 + length msg + 15 =
        omega (
          arith,
          length-append hash (be32 id ++ (msg ++ ends)),
          length-append (be32 id) (msg ++ ends),
          length-append msg ends,
        ) in
      rw (append_assoc hash (be32 id ++ (msg ++ ends)) rest, append_assoc msg ends rest)
        (and_then-some _ refl (
          and_then-some _
            (deliver-tunnel outbound len (at + 1 + 0) id hash msg (ends ++ rest) hash32 id32 room
              (is (ends ++ rest)))
            (after_message n (at + 1 + 0 + 36) msg ends rest _ more is ends15
              (omega (arith, behind, fits))
              (ap (λ (k : ℕ). handle_cloves outbound len n k rest) (sym behind) ∙ next))))

  -- Cloves that fit the payload are handled one by one, and each message arrives as it is in its clove.
  pub handle_cloves-arrivals :
      (cloves : List Clove) (at : ℕ) (rest : List ℕ)
      → All IsClove cloves
      → at + length (all_bytes cloves) ≤ len
      → (done : List Delivery) × (handle_cloves outbound len
            (length cloves)
            at
            (all_bytes cloves ++ rest)
          ≡ some done)
        × (map arrival done ≡ arrivals outbound cloves)
  unfolding handle_cloves all_bytes arrivals
  handle_cloves-arrivals [] at rest is fits = ([], refl, refl)
  handle_cloves-arrivals (for_local msg ends ∷ cs) at rest (is, iss) fits =
      let bytes = clove_bytes (for_local msg ends) in
      let sizes = length-append bytes (all_bytes cs) in
      let tail = all_bytes cs ++ rest in
      let others =
        handle_cloves-arrivals cs (at + length bytes) rest iss (omega (arith, sizes, fits)) in
      (
        handed (msg ++ (ends ++ tail)) len ∷ others.0,
        from_parts (length cs) at bytes (all_bytes cs) rest (
            local_step (length cs) at msg ends tail (others.0) is (omega (arith, sizes, fits))
              (others.1)),
        rw (arrival-handed msg (ends ++ tail) len (is.0)) (ap (◌∷◌ (here msg)) (others.2)),
      )
  handle_cloves-arrivals (for_destination hash msg ends ∷ cs) at rest (is, iss) fits =
      let bytes = clove_bytes (for_destination hash msg ends) in
      let sizes = length-append bytes (all_bytes cs) in
      let tail = all_bytes cs ++ rest in
      let others =
        handle_cloves-arrivals cs (at + length bytes) rest iss (omega (arith, sizes, fits)) in
      (
        handed (msg ++ (ends ++ tail)) len ∷ others.0,
        from_parts (length cs) at bytes (all_bytes cs) rest (
            destination_step (length cs) at hash msg ends tail (others.0) is
              (omega (arith, sizes, fits)) (others.1)),
        rw (arrival-handed msg (ends ++ tail) len (is.1)) (ap (◌∷◌ (here msg)) (others.2)),
      )
  handle_cloves-arrivals (for_tunnel hash id msg ends ∷ cs) at rest (is, iss) fits =
      let bytes = clove_bytes (for_tunnel hash id msg ends) in
      let sizes = length-append bytes (all_bytes cs) in
      let tail = all_bytes cs ++ rest in
      let others =
        handle_cloves-arrivals cs (at + length bytes) rest iss (omega (arith, sizes, fits)) in
      (
        forwarded outbound hash id msg ++ others.0,
        from_parts (length cs) at bytes (all_bytes cs) rest (
            tunnel_step (length cs) at hash id msg ends tail (others.0) is
              (omega (arith, sizes, fits)) (others.1)),
        forwarded-arrival outbound hash id msg (others.0) (arrivals outbound cs) (others.2),
      )
