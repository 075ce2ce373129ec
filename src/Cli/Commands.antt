-- ===== src/Cli/Commands.antt =====
-- The cases of the `switch` in `Run`.
use node_messager.Base.{
  ℕ, zero, suc, ◌-◌, String, not, Option, none, some, List, [], ◌∷◌, ◌==◌, ◌||◌, string_eq, nat_eq,
  if◌then◌else◌, ltb, length, select, ℤ, pos, negsuc,
}
use node_messager.Base.Retry.{Result, ok, err}
use node_messager.Dto.{Node, TicketRow}
use node_messager.Service.Rows.{
  Rows, ingenieros, usuarios, dispositivos, tickets, Table, tickets_table,
}
use node_messager.Cli.{
  Setup, Words, Services, Command, Event, sent, broadcasted, raised, closed, added_user,
  added_engineer, added_device, showed_messages, showed_log, showed_nodes, showed_rows, no_rows,
  no_open_tickets, no_service, empty_input, invalid_choice, unknown_command, invalid_number,
  listing_failed, prompt, pick_node,
}

-- The input that is left, the state, and what happened.
abbrev pub Turn : Type 0 → Type 0
Turn S = (List String × S) × List Event

abbrev pub nth {ℓ} : {A : Type ℓ} → ℕ → List A → Option A
nth n [] = none
nth zero (x ∷ xs) = some x
nth (suc n) (x ∷ xs) = nth n xs

abbrev pub tickets_of : Rows → List TicketRow
tickets_of (tickets rows) = rows
tickets_of _ = []

abbrev pub row_count : Rows → ℕ
row_count (ingenieros rows) = length rows
row_count (usuarios rows) = length rows
row_count (dispositivos rows) = length rows
row_count (tickets rows) = length rows

unfoldable pub open_rows : Rows → List TicketRow
open_rows rows = select (λ t. t.estado == "ABIERTO") (tickets_of rows)

-- `idx < 1 || idx > len(open)`, or an error of Atoi.
unfoldable pub chosen : Option ℤ → List TicketRow → Option TicketRow
chosen none opened = none
chosen (some (negsuc n)) opened = none
chosen (some (pos n)) opened = if ltb n 1 || ltb (length opened) n then none else nth (n - 1) opened

unfoldable pub others : Node → List Node → List Node
others from nodes = select (λ n. not (n.id == from.id)) nodes

module _ {S : Type 0} where
  -- `if !ok { continue }`
  abbrev pub with_node : Option Node × List String → S → (Node → List String → Turn S) → Turn S
  with_node (none, input) s k = ((input, s), [])
  with_node (some n, input) s k = k n input

  abbrev pub with_text : String × List String → S → (String → List String → Turn S) → Turn S
  with_text (text, input) s k = if text == "" then ((input, s), empty_input ∷ []) else k text input

  abbrev pub with_number :
      (String → Option ℤ) → String × List String → S → (ℤ → List String → Turn S) → Turn S
  with_number atoi (text, input) s k = elim (atoi text) [
    | none ↦ ((input, s), invalid_number text ∷ [])
    | some n ↦ k n input
  ]

  abbrev pub finish : {A : Type 0} → List String → (A → Event) → S × A → Turn S
  finish input event (s, a) = ((input, s), event a ∷ [])

  abbrev pub with_rows : List String → S × Result String Rows → (Rows → S → Turn S) → Turn S
  with_rows input (s, err x) k = ((input, s), listing_failed x ∷ [])
  with_rows input (s, ok rows) k = k rows s

  abbrev pub with_ticket : Option TicketRow → List String → S → (TicketRow → Turn S) → Turn S
  with_ticket none input s k = ((input, s), invalid_choice ∷ [])
  with_ticket (some t) input s k = k t

module _ {S : Type 0} (words : Words) (setup : Setup) (services : Services S) where
  -- The node that the command is for: the host, or one that the user picks.
  abbrev pub origin : Option Node → List String → Option Node × List String
  origin (some h) input = (some h, input)
  origin none input = pick_node words setup.nodes input

  abbrev pub send_text : S → Node → Node → String → List String → Turn S
  send_text s from to text input =
      finish input (sent from to text) (services.send_msg from to text s)

  abbrev pub send_to : S → Node → Node → List String → Turn S
  send_to s from to input = with_text (prompt input) s (send_text s from to)

  abbrev pub send_from : S → Node → List String → Turn S
  send_from s from input =
      with_node (pick_node words (others from setup.nodes) input) s (send_to s from)

  unfoldable pub run_send : List String → S → Turn S
  unfolding pick_node others
  run_send input s = with_node (origin setup.host input) s (send_from s)

  abbrev pub broadcast_text : S → Node → String → List String → Turn S
  broadcast_text s from text input =
      finish input (broadcasted from (others from setup.nodes) text)
        (services.broadcast from (others from setup.nodes) text s)

  abbrev pub broadcast_from : S → Node → List String → Turn S
  broadcast_from s from input = with_text (prompt input) s (broadcast_text s from)

  unfoldable pub run_broadcast : List String → S → Turn S
  unfolding pick_node others
  run_broadcast input s = with_node (origin setup.host input) s (broadcast_from s)

  abbrev pub show : (Node → Event) → S → Node → List String → Turn S
  show event s n input = ((input, s), event n ∷ [])

  -- "messages" and "logs"
  unfoldable pub run_show : (Node → Event) → List String → S → Turn S
  unfolding pick_node
  run_show event input s = with_node (origin setup.host input) s (show event s)

  abbrev pub raise_for : S → ℤ → ℤ → List String → Turn S
  raise_for s usuario dispositivo input =
      finish input (raised usuario dispositivo) (services.raise_ticket usuario dispositivo s)

  abbrev pub raise_by : S → ℤ → List String → Turn S
  raise_by s usuario input = with_number words.atoi (prompt input) s (raise_for s usuario)

  unfoldable pub run_raise : List String → S → Turn S
  run_raise input s = with_number words.atoi (prompt input) s (raise_by s)

  abbrev pub close_ticket : Rows → List String → S → TicketRow → Turn S
  close_ticket rows input s t =
      finish input (closed (tickets_of rows) t) (services.close_ticket t.id t.id_ingeniero s)

  abbrev pub close_one : List String → Rows → S → Turn S
  close_one input rows s =
      if length (open_rows rows) == 0
      then ((input, s), no_open_tickets ∷ [])
      else with_ticket (chosen (words.atoi (prompt input).0) (open_rows rows)) (prompt input).1 s
          (close_ticket rows (prompt input).1 s)

  unfoldable pub run_close : List String → S → Turn S
  unfolding open_rows chosen
  run_close input s = with_rows input (services.list_all tickets_table s) (close_one input)

  abbrev pub show_rows : Table → List String → Rows → S → Turn S
  show_rows t input rows s =
      if row_count rows == 0
      then ((input, s), no_rows t ∷ [])
      else ((input, s), showed_rows rows ∷ [])

  unfoldable pub run_list : Table → List String → S → Turn S
  run_list t input s = with_rows input (services.list_all t s) (show_rows t input)

  abbrev pub add_user : S → String → List String → Turn S
  add_user s nombre input = finish input (added_user nombre) (services.add_usuario nombre s)

  unfoldable pub run_add_user : List String → S → Turn S
  run_add_user input s = with_text (prompt input) s (add_user s)

  abbrev pub add_engineer : S → String → List String → Turn S
  add_engineer s nombre input =
      finish input (added_engineer nombre) (services.add_ingeniero nombre s)

  unfoldable pub run_add_engineer : List String → S → Turn S
  run_add_engineer input s = with_text (prompt input) s (add_engineer s)

  abbrev pub add_typed : S → String → String → List String → Turn S
  add_typed s nombre tipo input =
      finish input (added_device nombre tipo) (services.add_device nombre tipo s)

  abbrev pub add_device : S → String → List String → Turn S
  add_device s nombre input = with_text (prompt input) s (add_typed s nombre)

  unfoldable pub run_add_device : List String → S → Turn S
  run_add_device input s = with_text (prompt input) s (add_device s)

  -- `if svc == nil { ...; continue }`
  abbrev pub served : (List String → S → Turn S) → List String → S → Turn S
  served run input s = if setup.has_service then run input s else ((input, s), no_service ∷ [])

  -- What a command does; `quit` is the loop's.
  unfoldable pub run_command : Command → List String → S → Turn S
  unfolding run_send run_broadcast run_show run_raise run_close run_list run_add_user
      run_add_engineer run_add_device
  run_command Command.send input s = run_send input s
  run_command Command.broadcast input s = run_broadcast input s
  run_command Command.messages input s = run_show showed_messages input s
  run_command Command.logs input s = run_show showed_log input s
  run_command Command.list_nodes input s = ((input, s), showed_nodes setup.nodes ∷ [])
  run_command Command.raise input s = served run_raise input s
  run_command Command.close input s = served run_close input s
  run_command Command.add_user input s = served run_add_user input s
  run_command Command.add_engineer input s = served run_add_engineer input s
  run_command Command.add_device input s = served run_add_device input s
  run_command (Command.list t) input s = served (run_list t) input s
  run_command Command.quit input s = ((input, s), [])
  run_command Command.unknown input s = ((input, s), unknown_command ∷ [])
