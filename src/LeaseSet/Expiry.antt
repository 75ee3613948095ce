-- ===== src/LeaseSet/Expiry.antt =====
-- core/LeaseSet.cpp: the leases that have not expired.
use i2pd.Prelude.{
  ℕ, ◌+◌, ◌-◌, ◌*◌, ◌%◌, ◌^◌, ◌≤◌, ◌<◌, ◌≡◌, refl, ◌∙◌, Bool, true, false, List, [], ◌∷◌, ◌++◌, ltb,
  length, arith,
}
use i2pd.LeaseSet.{Lease, non_expired_leases, has_expired_leases, has_non_expired_leases}

non_expired_leases-append :
    (b : Bool) (ts : ℕ) (ls ms : List Lease)
    → non_expired_leases b ts (ls ++ ms) ≡ non_expired_leases b ts ls ++ non_expired_leases b ts ms
unfolding non_expired_leases
non_expired_leases-append b ts [] ms = refl
non_expired_leases-append b ts (l ∷ ls) ms = ground (arith, non_expired_leases-append b ts ls ms)

has_expired_leases-append :
    (ts : ℕ) (l : Lease) (ls ms : List Lease)
    → l.end_date ≤ ts
    → has_expired_leases ts (ls ++ (l ∷ ms)) ≡ true
unfolding has_expired_leases
has_expired_leases-append ts l [] ms h = ground (arith, h)
has_expired_leases-append ts l (k ∷ ls) ms h =
    ground (arith, has_expired_leases-append ts l ls ms h)

-- Which leases `GetNonExpiredLeases (true)` drops, and which it leaves, agrees with `HasExpiredLeases` and
-- `HasNonExpiredLeases`: it drops some exactly if there are expired ones, and leaves some exactly if there
-- are others.
pub non_expired_leases-counts :
    (ts : ℕ) (ls : List Lease)
    → (has_expired_leases ts ls ≡ ltb (length (non_expired_leases true ts ls)) (length ls))
      × (has_non_expired_leases ts ls ≡ ltb 0 (length (non_expired_leases true ts ls)))
      × (length (non_expired_leases true ts ls) ≤ length ls)
unfolding non_expired_leases has_expired_leases has_non_expired_leases
non_expired_leases-counts ts [] = (refl, refl, omega arith)
non_expired_leases-counts ts (l ∷ ls) =
    let ih = non_expired_leases-counts ts ls in
    (ground (arith, ih.0, ih.2), ground (arith, ih.1), ground (arith, ih.2))

-- A lease whose end lies in the first minute of the epoch is expired from its end on, and
-- `GetNonExpiredLeases (false)`, which takes a minute off the end, returns it nevertheless: among any other leases,
-- and at any time up to almost 2^64 milliseconds.
pub expired_lease_returned :
    (ts : ℕ) (l : Lease) (ls ms : List Lease)
    → l.end_date < 60000
    → l.end_date ≤ ts
    → ts < 2 ^ 64 - 60000
    → (has_expired_leases ts (ls ++ (l ∷ ms)) ≡ true)
      × (non_expired_leases false ts (ls ++ (l ∷ ms))
          ≡ non_expired_leases false ts ls ++ (l ∷ non_expired_leases false ts ms))
unfolding non_expired_leases
expired_lease_returned ts l ls ms early ended late =
    let kept : ltb ts ((l.end_date + 2 ^ 64 - 60 * 1000) % 2 ^ 64) ≡ true = ground arith in
    (
      has_expired_leases-append ts l ls ms ended,
      non_expired_leases-append false ts ls (l ∷ ms) ∙ rw kept refl,
    )
