-- ===== src/LeaseSet/Leases.antt =====
-- core/LeaseSet.cpp: the leases of a lease set, as they are written and read.
use i2pd.Prelude.{
  ℕ, zero, suc, ◌^◌, ◌≤◌, ◌<◌, ◌≡◌, refl, ap, ◌∙◌, List, [], ◌∷◌, ◌++◌, append_assoc, some, length,
  take, arith, All, take-append_left, drop-append_left,
}
use i2pd.Prelude.Chain.{and_then-some}
use i2pd.Prelude.Bytes.{be32, be64, from_be32-be32, from_be64-be64}
use i2pd.LeaseSet.{
  Lease, InboundTunnel, read_leases, write_leases, lease_bytes, leases_of, lease_of, read_numbers,
}

abbrev FitsLease : Lease → Type 0
FitsLease l = (length l.tunnel_gateway ≡ 32) × (l.tunnel_id < 2 ^ 32) × (l.end_date < 2 ^ 64)

-- A tunnel whose gateway has a hash of 32 bytes, and a tunnel id of 32 bits.
abbrev pub FitsTunnel : ℕ × InboundTunnel → Type 0
FitsTunnel (random, t) = (length t.next_ident_hash ≡ 32) × (t.next_tunnel_id < 2 ^ 32)

pub leases_of_fit :
    (ts : List (ℕ × InboundTunnel)) → All FitsTunnel ts → All FitsLease (leases_of ts)
unfolding leases_of lease_of
leases_of_fit [] h = tt
leases_of_fit ((random, t) ∷ ts) (h, hs) = ((h.0, h.1, omega arith), leases_of_fit ts hs)

pub length-leases_of : (ts : List (ℕ × InboundTunnel)) → length (leases_of ts) ≡ length ts
unfolding leases_of
length-leases_of [] = refl
length-leases_of ((random, t) ∷ ts) = ap suc (length-leases_of ts)

read_numbers-lease_bytes :
    (l : Lease) (rest : List ℕ)
    → FitsLease l
    → read_numbers l.tunnel_gateway (be32 l.tunnel_id ++ (be64 l.end_date ++ rest)) ≡ some (l, rest)
read_numbers-lease_bytes l rest (a, b, c) =
    rw (from_be32-be32 l.tunnel_id b, from_be64-be64 l.end_date c) refl

lease_bytes_lem :
    (l : Lease) (rest : List ℕ)
    → lease_bytes l ++ rest ≡ l.tunnel_gateway ++ (be32 l.tunnel_id ++ (be64 l.end_date ++ rest))
lease_bytes_lem l rest = append_assoc l.tunnel_gateway (be32 l.tunnel_id ++ be64 l.end_date) rest

pub read_leases-write_leases :
    (ls : List Lease) (rest : List ℕ)
    → All FitsLease ls
    → read_leases (length ls) (write_leases ls ++ rest) ≡ some (ls, rest)
unfolding read_leases write_leases
read_leases-write_leases [] rest h = refl
read_leases-write_leases (l ∷ ls) rest (h, hs) =
    let more = write_leases ls ++ rest in
    let numbers = be32 l.tunnel_id ++ (be64 l.end_date ++ more) in
    let bytes : (lease_bytes l ++ write_leases ls) ++ rest ≡ l.tunnel_gateway ++ numbers =
      append_assoc (lease_bytes l) (write_leases ls) rest ∙ lease_bytes_lem l more in
    rw
      (
        bytes,
        take-append_left 32 l.tunnel_gateway numbers h.0,
        drop-append_left 32 l.tunnel_gateway numbers h.0,
      )
      (and_then-some _ (read_numbers-lease_bytes l more h)
        (and_then-some _ (read_leases-write_leases ls rest hs) refl))

pub take_few : (n : ℕ) (ts : List (ℕ × InboundTunnel)) → length ts ≤ n → take n ts ≡ ts
take_few zero [] h = refl
take_few zero (t ∷ ts) h = absurd (omega arith)
take_few (suc n) [] h = refl
take_few (suc n) (t ∷ ts) h = ap (◌∷◌ t) (take_few n ts (omega arith))
