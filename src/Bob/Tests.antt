-- ===== src/Bob/Tests.antt =====
-- client/BOB.cpp: the theorems at concrete inputs.
use i2pd.Prelude.{ℕ, ◌≡◌, refl, true, false, [], ◌∷◌, none, some, length, arith}
use i2pd.Prelude.Bytes.{codes}
use i2pd.Prelude.Dict.{find, remove}
use i2pd.Prelude.Assoc.{erase}
use i2pd.Bob.{Session, Services, Channel, Destination, fault, reply_ok}
use i2pd.Bob.Commands.{clear, start, run_command}
use i2pd.Bob.Lines.{one_reply, start_after_clear}

-- Services whose keys are numbers, and which find nothing.
abbrev services : Services ℕ
services = record {
  create_random_keys = λ n. n;
  from_base64 = λ k t. length t;
  public_base64 = λ k. codes "public";
  keys_base64 = λ k. codes "keys";
  parse_int = λ t. none;
  get_ident_hash = λ t. none;
  find_lease_set = λ h. none;
}

-- The destination `me`, which is not running.
abbrev destination : Destination ℕ
destination = record { keys = 1; options = []; is_running = false; outbound = none; inbound = none }

abbrev channel : Channel ℕ
channel = record {
  destinations = (codes "me", 3) ∷ [];
  heap = (3, destination) ∷ [];
  next_address = 4;
}

abbrev session : Session ℕ
session = record {
  channel = channel;
  buffer = [];
  is_open = true;
  is_quiet = false;
  nickname = codes "me";
  address = [];
  in_port = 0;
  out_port = 0;
  keys = 1;
  options = [];
  current = some 3;
  reading = true;
  writes = 0;
  socket_open = true;
  requests = [];
  keys_drawn = 2;
}

-- After `clear`: the destination is gone, and `current` is as before.
abbrev cleared : Session ℕ
cleared = record session { channel = record channel { destinations = []; heap = [] } }

one_reply_example : length (reply_ok (codes "cleared") ∷ []) ≡ 1
unfolding run_command find remove erase
one_reply_example =
    one_reply services clear [] session cleared (reply_ok (codes "cleared") ∷ [])
      (λ e. ground arith) (λ e. ground arith) (λ e. ground arith) refl

start_after_clear_example : run_command services start [] cleared ≡ fault
unfolding run_command find remove erase
start_after_clear_example =
    start_after_clear services 3 [] [] session cleared (reply_ok (codes "cleared") ∷ []) refl refl
      refl
