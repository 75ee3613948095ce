-- ===== src/Netdb/Replies.antt =====
-- core/NetworkDatabase.cpp and I2NPProtocol.cpp: what a floodfill reads of the lookups that routers make, and where
-- and under which key it answers.
use i2pd.Prelude.{
  ℕ, ◌+◌, ◌*◌, ◌/◌, ◌%◌, ◌^◌, ◌≤◌, ◌<◌, ◌≡◌, inl, inr, refl, sym, ap, ◌∙◌, Bool, true, false, List,
  [], ◌∷◌, ◌++◌, append_assoc, Option, some, ◌==◌, if◌then◌else◌, arith, length, drop,
  length-append, drop-append_left, ltb-false, Bool-cases,
}
use i2pd.Prelude.Chain.{and_then-some}
use i2pd.Prelude.Bytes.{be16, be32}
use i2pd.I2np.Header.{from_be16-be16}
use i2pd.I2np.Lookup.{
  router_info_lookup_payload, excluded_or_none, hashes_bytes, exploratory_lookup,
  router_info_lookup,
}
use i2pd.Garlic.Receive.{read_byte, read_be16, read_be32}
use i2pd.Garlic.Cloves.{read-append}
use i2pd.Netdb.{Lookup, read_lookup, read_excluded}

-- The lookup that is read of its parts behind the flag.
abbrev pub read_as : List ℕ → ℕ → ℕ → ℕ → List ℕ → Lookup
read_as ident flag tunnel n rest = record {
  ident = ident;
  flag = flag;
  reply_tunnel_id = tunnel;
  num_excluded = n;
  excluded = rest;
}

module _ (key from : List ℕ) (key32 : length key ≡ 32) (from32 : length from ≡ 32) (n : ℕ)
    (few : n ≤ 512) (rest : List ℕ) where
  behind_from : (tail : List ℕ) → drop 64 (key ++ (from ++ tail)) ≡ tail
  behind_from tail =
      ap (drop 64) (sym (append_assoc key from tail))
      ∙ drop-append_left 64 (key ++ from) tail (omega (arith, length-append key from))

  read_excluded-bytes :
      (flag tunnel : ℕ)
      → read_excluded key flag tunnel (be16 n ++ rest) ≡ some (read_as key flag tunnel n rest)
  unfolding read_excluded read_be16
  read_excluded-bytes flag tunnel =
      and_then-some _ refl (rw (from_be16-be16 n (omega arith), ltb-false 512 n few) refl)

  read_lookup-direct :
      (flag : ℕ)
      → flag % 2 ≡ 0
      → read_lookup (key ++ (from ++ (flag ∷ (be16 n ++ rest)))) ≡ some (read_as key flag 0 n rest)
  unfolding read_lookup read_byte
  read_lookup-direct flag even =
      and_then-some _ (read-append key (from ++ (flag ∷ (be16 n ++ rest))) 32 key32) (
        rw (drop-append_left 32 from (flag ∷ (be16 n ++ rest)) from32)
          (and_then-some _ refl (rw even (read_excluded-bytes flag 0))))

  pub read_lookup-tunnel :
      (flag tunnel : ℕ)
      → flag % 2 ≡ 1
      → tunnel < 2 ^ 32
      → read_lookup (key ++ (from ++ (flag ∷ (be32 tunnel ++ (be16 n ++ rest)))))
        ≡ some (read_as key flag (flag * 2 ^ 24 + tunnel / 256) n rest)
  unfolding read_lookup read_byte read_be32
  read_lookup-tunnel flag tunnel odd small =
      let tail = flag ∷ (be32 tunnel ++ (be16 n ++ rest)) in
      let misread : flag * 2 ^ 24
            + tunnel / 2 ^ 24 % 256 * 2 ^ 16
            + tunnel / 2 ^ 16 % 256 * 256
            + tunnel / 256 % 256
          ≡ flag * 2 ^ 24 + tunnel / 256 =
        omega arith in
      and_then-some _ (read-append key (from ++ tail) 32 key32) (
        rw (drop-append_left 32 from tail from32) (
          and_then-some _ refl (
            rw (odd, behind_from tail)
              (and_then-some _ refl (
                read_excluded-bytes flag _
                ∙ ap (λ (t : ℕ). some (read_as key flag t n rest)) misread)))))

type_even : (b : Bool) → (if b then exploratory_lookup else router_info_lookup) % 2 ≡ 0
type_even true = refl
type_even false = refl

pub parts :
    (a b x y memory : List ℕ) → (a ++ (b ++ (x ++ y))) ++ memory ≡ a ++ (b ++ (x ++ (y ++ memory)))
parts a b x y memory =
    append_assoc a (b ++ (x ++ y)) memory
    ∙ ap (λ (t : List ℕ). a ++ t)
        (append_assoc b (x ++ y) memory ∙ ap (λ (t : List ℕ). b ++ t) (append_assoc x y memory))

-- A lookup of a router that excludes at most 512 peers is read as it was made, but for the tunnel: of a reply
-- tunnel's id only the first three bytes are taken, behind the flag as a first one. Hashes have 32 bytes.
pub read_lookup-router_info :
    (key from memory : List ℕ) (tunnel : ℕ) (exploratory : Bool) (excluded : Option (List (List ℕ)))
    → length key ≡ 32
    → length from ≡ 32
    → tunnel < 2 ^ 32
    → length (excluded_or_none excluded) ≤ 512
    → let type = if exploratory then exploratory_lookup else router_info_lookup in
      let peers = excluded_or_none excluded in
      read_lookup (router_info_lookup_payload key from tunnel exploratory excluded ++ memory)
      ≡ some (
          if tunnel == 0
          then read_as key type 0 (length peers) (hashes_bytes peers ++ memory)
          else read_as key
              (type + 1)
              ((type + 1) * 2 ^ 24 + tunnel / 256)
              (length peers)
              (hashes_bytes peers ++ memory))
unfolding router_info_lookup_payload
read_lookup-router_info key from memory tunnel exploratory excluded key32 from32 small few =
    let type = if exploratory then exploratory_lookup else router_info_lookup in
    let peers = excluded_or_none excluded in
    let n = length peers in
    let rest = hashes_bytes peers ++ memory in
    let even : type % 2 ≡ 0 = type_even exploratory in
    elim (Bool-cases (tunnel == 0)) [
      | inl direct ↦ rw direct (
          ap read_lookup (parts key from (type ∷ []) (be16 n ++ hashes_bytes peers) memory)
          ∙ read_lookup-direct key from key32 from32 n few rest type even)
      | inr through ↦ rw through (
          ap read_lookup
            (parts key from ((type + 1) ∷ be32 tunnel) (be16 n ++ hashes_bytes peers) memory)
          ∙ read_lookup-tunnel key from key32 from32 n few rest (type + 1) tunnel
              (omega (arith, even)) small)
    ]
