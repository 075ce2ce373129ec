-- ===== src/Cli/Tests.antt =====
-- Instances of the theorems, and a session.
use node_messager.Base.{
  ℕ, ◌+◌, ◌++◌, String, ◌≡◌, true, none, some, List, [], ◌∷◌, ◌==◌, string_eq, nat_eq,
  if◌then◌else◌, pos,
}
use node_messager.Base.Retry.{ok, err}
use node_messager.Dto.{Node, TicketRow, Codec, msg}
use node_messager.Fixtures.{s1, s2, cluster, message}
use node_messager.MsgStore.{Entry, received, Store, done}
use node_messager.MsgStore.Window.{run as window}
use node_messager.Service.Rows.{tickets}
use node_messager.Cli.{Setup, Words, Services, sent, closed, read_command}
use node_messager.Cli.Commands.{Turn, run_command}
use node_messager.Cli.Loop.{run}
use node_messager.Cli.Session.{EndsAt, run-ends}
use node_messager.Cli.Wired.{World, wired}
use node_messager.Cli.Outbox.{Outbox, Moment}

abbrev words : Words
words = record {
  atoi = λ s. if s == "1" then some (pos 1) else none;
  equal_fold = λ a b. a == b;
  decimal = λ n. if n == 1 then "1" else "more";
}

abbrev setup : Setup
setup = record { nodes = cluster; host = some s1; has_service = true }

abbrev ticket : TicketRow
ticket = record {
  id = 10000000004;
  id_usuario = 10000000002;
  id_ingeniero = 10000000001;
  id_sucursal = 1;
  id_dispositivo = 10000000003;
  estado = "ABIERTO";
  folio = "";
  created_at = "t";
  closed_at = "";
}

-- The state counts the tickets that were closed.
abbrev services : Services ℕ
services = record {
  send_msg = λ from to text n. (n, none);
  broadcast = λ from targets text n. (n, []);
  raise_ticket = λ u d n. (n, some "no lock");
  close_ticket = λ t e n. (n + 1, none);
  list_all = λ t n. (n, ok (tickets (ticket ∷ [])));
  add_usuario = λ nombre n. (n, none);
  add_ingeniero = λ nombre n. (n, none);
  add_device = λ nombre tipo n. (n, none);
}

abbrev typed : List String
typed = "send" ∷ "sucursal2" ∷ "hola" ∷ "close" ∷ "1" ∷ "quit" ∷ "ignored" ∷ []

abbrev turn : Turn ℕ
turn = (("ignored" ∷ [], 1), sent s1 s2 "hola" none ∷ closed (ticket ∷ []) ticket none ∷ [])

run-ends_example : (t : Turn ℕ) × (run words setup services typed 0 ≡ some t) × EndsAt t.0.0 typed
run-ends_example = run-ends words setup services typed 0

-- Stores without a file never write an entry.
abbrev json : Codec (List ℕ) (Entry String)
json = record { marshal = λ e. []; unmarshal = λ l. none }

abbrev empty : Store String
empty = record { entries = []; max = 50; file = none }

abbrev outbox : Outbox String
outbox = record { pool = record { conns = [] }; stores = (1, empty) ∷ [] }

-- Node 3 is down, and a message comes in during the send to node 2.
abbrev moments : Node → Moment String
moments n = record {
  call = record {
    is_closed = λ c. true;
    dialled = if n.id == 3 then err "connection refused" else ok n.id;
    written = none;
    uuid = "u";
    now = "t";
  };
  incoming =
      if n.id == 2
      then record { now = "t0"; msg = message msg s2 "hi"; type = received; io = done } ∷ []
      else [];
  io = done;
  saved_at = "t";
}

abbrev world : World ℕ
world = record { outbox = outbox; calls = 0; log = []; service = 0 }

-- The messages go through the outbox.
abbrev connected : Services (World ℕ)
connected = wired json (λ f. f.reason) (λ n. moments) services

abbrev says : List String
says = "broadcast" ∷ "hola" ∷ "quit" ∷ []

abbrev ended : Turn (World ℕ)
ended = run_command words setup connected (read_command "broadcast") ("hola" ∷ "quit" ∷ []) world

abbrev last_turn : Turn (World ℕ)
last_turn = (([], ended.0.1), ended.1 ++ [])
