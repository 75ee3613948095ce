-- ===== src/Bob/Lines.antt =====
-- client/BOB.cpp: what a session does with its input, and with a destination that was cleared.
use i2pd.Prelude.{
  ℕ, ◌+◌, ◌≡◌, ◌≢◌, refl, false, List, [], ◌∷◌, ◌++◌, none, some, length, All, arith,
}
use i2pd.Prelude.Assoc.{lookup-erase}
use i2pd.Prelude.Dict.{Text, find}
use i2pd.Bob.{Session, Services, Reply, Result, ok, thrown, fault}
use i2pd.Bob.Commands.{Command, zap, clear, start, list, lookup_name, run_command}
use i2pd.Bob.Input.{split_line, handle_line, handle_received}

-- A byte of a line: neither a newline nor zero.
abbrev pub InLine : ℕ → Type 0
InLine c = (c ≢ 10) × (c ≢ 0)

split_line-none : (xs : List ℕ) → All InLine xs → split_line xs ≡ none
unfolding split_line
split_line-none [] h = refl
split_line-none (x ∷ xs) (hx, hs) = ground (arith, split_line-none xs hs)

pub split_line-some :
    (xs rest : List ℕ) → All InLine xs → split_line (xs ++ 10 ∷ rest) ≡ some (xs, rest)
unfolding split_line
split_line-some [] rest h = refl
split_line-some (x ∷ xs) rest (hx, hs) = ground (arith, split_line-some xs rest hs)

module _ {K : Type 0} (services : Services K) where
  -- Of several lines that come in one read the first alone is handled, as it would be by itself; the
  -- others stay in the buffer.
  pub first_line_handled :
      (xs rest : List ℕ) (s : Session K)
      → s.buffer ≡ []
      → All InLine xs
      → handle_received services (xs ++ 10 ∷ rest) s
        ≡ elim (handle_line services xs (record s { reading = false }))
            as (λ r. Result (Session K)) [
              | ok t replies ↦
                  ok (record t { buffer = rest; writes = t.writes + length replies }) replies
              | thrown t ↦ thrown t
              | fault ↦ fault
            ]
  unfolding handle_received
  first_line_handled xs rest s e h = ground (arith, split_line-some xs rest h)

  -- Every command but `zap`, `list` and `lookup` that neither throws nor faults is answered exactly
  -- once.
  pub one_reply :
      (c : Command) (operand : Text) (s t : Session K) (replies : List Reply)
      → c ≢ zap
      → c ≢ list
      → c ≢ lookup_name
      → run_command services c operand s ≡ ok t replies
      → length replies ≡ 1
  unfolding run_command
  one_reply zap operand s t replies z l k e = absurd (z refl)
  one_reply c operand s t replies z l k e = ground arith

  -- After `clear` of the current destination the session still points at it: the next `start` uses a
  -- deleted object.
  pub start_after_clear :
      (p : ℕ) (operand operand' : Text) (s t : Session K) (replies : List Reply)
      → s.current ≡ some p
      → find s.nickname s.channel.destinations ≡ some p
      → run_command services clear operand s ≡ ok t replies
      → run_command services start operand' t ≡ fault
  unfolding run_command
  start_after_clear p operand operand' s t replies c f e =
      ground (arith, lookup-erase p p s.channel.heap)
