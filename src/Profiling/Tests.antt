-- ===== src/Profiling/Tests.antt =====
-- Profiles of concrete peers.
use i2pd.Prelude.{◌+◌, ◌≡◌, refl, true, false, [], ◌∷◌, ◌++◌, replicate, arith}
use i2pd.Profiling.{RouterProfile, is_bad}
use i2pd.Profiling.Rating.{ask, limit, ask-reconsiders}

-- A peer that declined five times, and was rejected eight times since.
abbrev decliner : RouterProfile
decliner = record {
  last_update_time = 1000;
  num_tunnels_agreed = 0;
  num_tunnels_declined = 5;
  num_tunnels_non_replied = 1;
  num_times_taken = 0;
  num_times_rejected = 8;
}

ask-reconsiders_example : ask 4 decliner ≡ (
  replicate 3 true ++ (false ∷ []),
  record decliner {
    num_tunnels_agreed = 0;
    num_tunnels_declined = 0;
    num_tunnels_non_replied = 0;
    num_times_taken = 0 + 1;
    num_times_rejected = limit decliner;
  },
)
ask-reconsiders_example = ask-reconsiders 3 decliner refl (omega arith) (omega arith)

is_bad_test : (is_bad decliner).0 ≡ true
unfolding is_bad
is_bad_test = refl
