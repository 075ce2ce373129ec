-- ===== src/Cli.antt =====
-- internal/adapters/cli/cli.go: the menu. What it calls is an interface, `Services`, on a state that
-- it passes on; what a command does and shows is a list of `Event`s, without their layout. The input
-- is the list of the lines that readline gives, trimmed; an interrupt is an empty line.
pub mod Commands
pub mod Loop
pub mod Proper
pub mod Turns
pub mod Session
pub mod Outbox
pub mod Saved
pub mod Kept
pub mod Wired
mod Tests
use node_messager.Base.{
  ℕ, suc, ◌-◌, String, if◌then◌else◌, ltb, length, drop, nat_eq, Bool, true, false, Option, none,
  some, List, [], ◌∷◌, ◌||◌, ◌==◌, string_eq, ℤ,
}
use node_messager.Base.Dict.{Dict, lookup}
use node_messager.Base.Retry.{Result}
use node_messager.Dto.{Node, TicketRow}
use node_messager.Db.{Answer}
use node_messager.Service.Rows.{
  Rows, Table, ingenieros_table, usuarios_table, dispositivos_table, tickets_table,
}

-- What `Run` is given.
pub record Setup : Type 0 where
  pub nodes : List Node
  pub host : Option Node
  pub has_service : Bool

-- Of the Go library: `strconv.Atoi`, `strings.EqualFold`, and `%d`.
pub record Words : Type 0 where
  pub atoi : String → Option ℤ
  pub equal_fold : String → String → Bool
  pub decimal : ℕ → String

-- The ticket service, and `sendMsg` and `broadcast` with the pool and the stores.
pub record Services (S : Type 0) : Type 0 where
  pub send_msg : Node → Node → String → S → S × Answer
  pub broadcast : Node → List Node → String → S → S × List String
  pub raise_ticket : ℤ → ℤ → S → S × Answer
  pub close_ticket : ℕ → ℕ → S → S × Answer
  pub list_all : Table → S → S × Result String Rows
  pub add_usuario : String → S → S × Answer
  pub add_ingeniero : String → S → S × Answer
  pub add_device : String → String → S → S × Answer

pub data Command : Type 0 where
  send broadcast messages logs list_nodes : Command
  raise close add_user add_engineer add_device : Command
  list : Table → Command
  quit : Command
  unknown : Command

pub data Event : Type 0 where
  -- a call that changes something, and its outcome
  sent : Node → Node → String → Answer → Event
  broadcasted : Node → List Node → String → List String → Event
  raised : ℤ → ℤ → Answer → Event
  -- the rows that were listed, the one that was chosen
  closed : List TicketRow → TicketRow → Answer → Event
  added_user added_engineer : String → Answer → Event
  added_device : String → String → Answer → Event
  -- what is shown
  showed_messages showed_log : Node → Event
  showed_nodes : List Node → Event
  showed_rows : Rows → Event
  no_rows : Table → Event
  no_open_tickets no_service empty_input invalid_choice unknown_command : Event
  invalid_number : String → Event
  listing_failed : String → Event

-- `prompt`
abbrev pub prompt : List String → String × List String
prompt [] = ("", [])
prompt (l ∷ ls) = (l, ls)

-- The `switch` of `Run`.
abbrev pub names : Dict String Command
names =
    ("1", send)
    ∷ ("send", send)
    ∷ ("2", broadcast)
    ∷ ("broadcast", broadcast)
    ∷ ("3", messages)
    ∷ ("messages", messages)
    ∷ ("4", logs)
    ∷ ("logs", logs)
    ∷ ("5", list_nodes)
    ∷ ("list", list_nodes)
    ∷ ("7", raise)
    ∷ ("ticket", raise)
    ∷ ("raise", raise)
    ∷ ("8", close)
    ∷ ("close", close)
    ∷ ("9", list tickets_table)
    ∷ ("tickets", list tickets_table)
    ∷ ("10", add_user)
    ∷ ("adduser", add_user)
    ∷ ("11", add_engineer)
    ∷ ("addengineer", add_engineer)
    ∷ ("12", add_device)
    ∷ ("adddevice", add_device)
    ∷ ("13", list usuarios_table)
    ∷ ("users", list usuarios_table)
    ∷ ("14", list ingenieros_table)
    ∷ ("engineers", list ingenieros_table)
    ∷ ("15", list dispositivos_table)
    ∷ ("devices", list dispositivos_table)
    ∷ ("6", quit)
    ∷ ("q", quit)
    ∷ ("quit", quit)
    ∷ ("exit", quit)
    ∷ []

abbrev pub or_unknown : Option Command → Command
or_unknown none = unknown
or_unknown (some c) = c

unfoldable pub read_command : String → Command
unfolding lookup
read_command s = or_unknown (lookup s names)

module _ (words : Words) where
  -- The first node whose number or name is `raw`; the first of `nodes` has number `suc i`.
  unfoldable pub matching : String → ℕ → List Node → Option Node
  matching raw i [] = none
  matching raw i (n ∷ ns) = elim (raw == words.decimal (suc i) || words.equal_fold raw n.name) [
    | true ↦ some n
    | false ↦ matching raw (suc i) ns
  ]

  -- `pickNode`: it asks again until a line is empty or fits.
  unfoldable pub pick_node : List Node → List String → Option Node × List String
  unfolding matching
  pick_node nodes [] = (none, [])
  pick_node nodes (raw ∷ rest) = elim (raw == "") [
    | true ↦ (none, rest)
    | false ↦ elim (matching raw 0 nodes) [ some n ↦ (some n, rest) | none ↦ pick_node nodes rest ]
  ]

-- What `tailLogFile` shows of a file with these lines, if it can be opened.
pub data LogTail : Type 0 where
  cannot_open no_logs : LogTail
  log_lines : List String → LogTail

unfoldable pub tail_log_file : Option (List String) → ℕ → LogTail
tail_log_file none n = cannot_open
tail_log_file (some lines) n =
    if length lines == 0
    then no_logs
    else log_lines (if ltb n (length lines) then drop (length lines - n) lines else lines)
