-- ===== src/Bob/Input.antt =====
-- client/BOB.cpp: lines of input, and what a session does between them.
use i2pd.Prelude.{
  ℕ, ◌+◌, ◌-◌, true, false, List, [], ◌∷◌, ◌++◌, Option, none, some, ltb, ◌==◌, if◌then◌else◌,
  length,
}
use i2pd.Prelude.Bytes.{codes}
use i2pd.Prelude.Dict.{Text, find}
use i2pd.Bob.{
  Session, Services, Reply, Result, ok, thrown, fault, reply_error, bob_command_buffer_size,
}
use i2pd.Bob.Commands.{command_handlers, run_command}

-- How an asynchronous operation ended.
pub data Completion : Type 0 where
  success aborted failed : Completion

-- `strchr (m_ReceiveBuffer, '\n')`: a zero byte ends the search. The line, and what is behind it.
unfoldable pub split_line : List ℕ → Option (Text × List ℕ)
split_line [] = none
split_line (c ∷ cs) =
    if c == 0
    then none
    else (if c == 10
        then some ([], cs)
        else elim (split_line cs) [ none ↦ none | some (l, rest) ↦ some (c ∷ l, rest) ])

-- The command and its operand, which is empty without a space.
unfoldable pub split_operand : Text → Text × Text
split_operand [] = ([], [])
split_operand (c ∷ cs) =
    let (command, operand) = split_operand cs in
    if c == b' ' then ([], cs) else (c ∷ command, operand)

module _ {K : Type 0} where
  -- `Terminate`
  abbrev pub terminate : Session K → Session K
  terminate s = record s { socket_open = false; is_open = false }

  -- Each reply starts a write.
  abbrev pub sending : Session K → List Reply → Session K
  sending s replies = record s { writes = s.writes + length replies }

  -- `HandleSent`: after a write the session reads on, or ends.
  unfoldable pub handle_sent : Completion → Session K → Session K
  handle_sent success s =
      let s' = record s { writes = s.writes - 1 } in
      if s.is_open then record s' { reading = true } else terminate s'
  handle_sent aborted s = record s { writes = s.writes - 1 }
  handle_sent failed s = terminate (record s { writes = s.writes - 1 })

  -- `HandleReceived`, for a read that ended with an error.
  unfoldable pub handle_receive_error : Completion → Session K → Session K
  handle_receive_error failed s = terminate (record s { reading = false })
  handle_receive_error _ s = record s { reading = false }

  module _ (services : Services K) where
    -- One line: a command that is not known is refused.
    unfoldable pub handle_line : Text → Session K → Result (Session K)
    unfolding split_operand find run_command
    handle_line line s =
        let (command, operand) = split_operand line in
        elim (find command command_handlers) [
          | none ↦ ok s (reply_error (codes "unknown command") ∷ [])
          | some c ↦ run_command services c operand s
        ]

    -- `HandleReceived`, for bytes that arrived without an error: one line of them is handled.
    unfoldable pub handle_received : List ℕ → Session K → Result (Session K)
    handle_received bytes s =
        let received = s.buffer ++ bytes in
        let s' = record s { reading = false } in
        elim (split_line received) [
          | some (line, rest) ↦ elim (handle_line line s') [
            | ok t replies ↦ ok (sending (record t { buffer = rest }) replies) replies
            | thrown t ↦ thrown t
            | fault ↦ fault
          ]
          | none ↦
              if ltb (length received) bob_command_buffer_size
              then ok (record s' { buffer = received }) []
              else ok (terminate s') []
        ]
