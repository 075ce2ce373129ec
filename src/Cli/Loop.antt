-- ===== src/Cli/Loop.antt =====
-- The loop of `Run`.
use node_messager.Base.{
  ℕ, zero, suc, String, Bool, true, false, Option, none, some, List, [], ◌++◌, ◌==◌, string_eq,
  length,
}
use node_messager.Cli.{Setup, Words, Services, Command, Event, prompt, read_command}
use node_messager.Cli.Commands.{Turn, run_command}

abbrev pub is_quit : Command → Bool
is_quit Command.quit = true
is_quit _ = false

module _ {S : Type 0} (words : Words) (setup : Setup) (services : Services S) where
  abbrev pub after : List Event → Option (Turn S) → Option (Turn S)
  after out none = none
  after out (some (t, more)) = some (t, out ++ more)

  -- At most so many rounds; an empty line ends the loop, as `quit` does.
  unfoldable pub run_for : ℕ → List String → S → Option (Turn S)
  unfolding read_command run_command
  run_for zero input s = none
  run_for (suc rounds) input s =
      let choice = (prompt input).0 in
      let rest = (prompt input).1 in
      elim (choice == "") [
        | true ↦ some ((rest, s), [])
        | false ↦ elim (is_quit (read_command choice)) [
          | true ↦ some ((rest, s), [])
          | false ↦
              let turn = run_command words setup services (read_command choice) rest s in
              after turn.1 (run_for rounds turn.0.0 turn.0.1)
        ]
      ]

  -- `Run` on a session's input, with a round for each line and one for its end.
  unfoldable pub run : List String → S → Option (Turn S)
  unfolding run_for
  run input s = run_for (suc (length input)) input s
