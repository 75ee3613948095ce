-- ===== src/Profiling.antt =====
-- core/Profiling.h and Profiling.cpp: what a router remembers of its peers, to choose them for tunnels. Times
-- are in seconds; a file is kept by what the library of property trees reads of it.
pub mod Rating
mod Tests
use i2pd.Prelude.{
  ℕ, zero, suc, ◌+◌, ◌-◌, ◌*◌, ◌/◌, ◌%◌, ◌^◌, Bool, true, false, ◌&&◌, ◌||◌, Option, none, some,
  ltb, leb, ◌==◌, if◌then◌else◌,
}

-- `PEER_PROFILE_EXPIRATION_TIMEOUT`, in hours.
abbrev pub peer_profile_expiration_timeout : ℕ
peer_profile_expiration_timeout = 72

-- `RouterProfile`
pub record RouterProfile : Type 0 where
  pub last_update_time : ℕ
  pub num_tunnels_agreed : ℕ
  pub num_tunnels_declined : ℕ
  pub num_tunnels_non_replied : ℕ
  pub num_times_taken : ℕ
  pub num_times_rejected : ℕ

unfoldable pub init : ℕ → RouterProfile
init now = record {
  last_update_time = now;
  num_tunnels_agreed = 0;
  num_tunnels_declined = 0;
  num_tunnels_non_replied = 0;
  num_times_taken = 0;
  num_times_rejected = 0;
}

abbrev next : ℕ → ℕ
next n = (n + 1) % 2 ^ 32

-- `TunnelBuildResponse` and `TunnelNonReplied`
unfoldable pub tunnel_build_response : ℕ → ℕ → RouterProfile → RouterProfile
tunnel_build_response now ret p =
    if ltb 0 ret
    then record p { last_update_time = now; num_tunnels_declined = next p.num_tunnels_declined }
    else record p { last_update_time = now; num_tunnels_agreed = next p.num_tunnels_agreed }

unfoldable pub tunnel_non_replied : ℕ → RouterProfile → RouterProfile
tunnel_non_replied now p = record p {
  last_update_time = now;
  num_tunnels_non_replied = next p.num_tunnels_non_replied;
}

-- `IsAlwaysDeclining` and `IsLowPartcipationRate`
abbrev pub is_always_declining : RouterProfile → Bool
is_always_declining p = p.num_tunnels_agreed == 0 && leb 5 p.num_tunnels_declined

abbrev pub is_low_participation_rate : RouterProfile → Bool
is_low_participation_rate p = ltb (4 * p.num_tunnels_agreed % 2 ^ 32) p.num_tunnels_declined

-- `IsBad`, which counts its answers, and forgets what a peer did that was rejected often.
unfoldable pub is_bad : RouterProfile → Bool × RouterProfile
is_bad p =
    let bad = is_always_declining p || is_low_participation_rate p in
    let often = ltb (10 * next p.num_times_taken % 2 ^ 32) p.num_times_rejected in
    let forgotten = record p {
      num_tunnels_agreed = 0;
      num_tunnels_declined = 0;
      num_tunnels_non_replied = 0;
      num_times_taken = next p.num_times_taken;
    } in
    if bad
    then (if often
        then (false, forgotten)
        else (true, record p { num_times_rejected = next p.num_times_rejected }))
    else (false, record p { num_times_taken = next p.num_times_taken })

-- What is read of a profile's file: the time, and the two sections where they are.
pub record Saved : Type 0 where
  pub saved_time : ℕ
  pub participation : Option (ℕ × ℕ × ℕ)
  pub usage : Option (ℕ × ℕ)

-- `Save`, and what of it `Load` reads again.
unfoldable pub save : RouterProfile → Saved
save p = record {
  saved_time = p.last_update_time;
  participation = some (p.num_tunnels_agreed, p.num_tunnels_declined, p.num_tunnels_non_replied);
  usage = some (p.num_times_taken, p.num_times_rejected);
}

abbrev with_participation : Option (ℕ × ℕ × ℕ) → RouterProfile → RouterProfile
with_participation none p = p
with_participation (some (agreed, declined, non_replied)) p = record p {
  num_tunnels_agreed = agreed;
  num_tunnels_declined = declined;
  num_tunnels_non_replied = non_replied;
}

abbrev with_usage : Option (ℕ × ℕ) → RouterProfile → RouterProfile
with_usage none p = p
with_usage (some (taken, rejected)) p = record p {
  num_times_taken = taken;
  num_times_rejected = rejected;
}

-- `Load`, for a file that is there and can be read.
unfoldable pub load : ℕ → Saved → RouterProfile → RouterProfile
unfolding init
load now file p =
    if ltb ((now - file.saved_time) / 3600) peer_profile_expiration_timeout
    then with_usage file.usage
        (with_participation file.participation (record p { last_update_time = file.saved_time }))
    else init now
