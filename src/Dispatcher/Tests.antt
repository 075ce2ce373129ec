-- ===== src/Dispatcher/Tests.antt =====
-- Instances of the theorems.
use node_messager.Base.{String, refl, none, some, List, [], ◌∷◌, ne_of_==, string_eq, All}
use node_messager.Dto.{MessageType, lock_request, vote_yes, unknown, Codec, LockPayload}
use node_messager.Db.{empty}
use node_messager.Mutex.{lock_payload}
use node_messager.Mutex
use node_messager.Consensus
use node_messager.Election
use node_messager.Heartbeat
use node_messager.NodeState
use node_messager.Commit.{Codecs}
use node_messager.Service.Rows.{RowCodecs}
use node_messager.Fixtures.{s1, cluster, started}
use node_messager.Dispatcher.{Running, Json, Arrival}
use node_messager.Dispatcher.Sound.{IsSound, IsNamedRequest}

-- Texts that decode to nothing.
abbrev silent : {P : Type 0} → Codec String P
silent = record { marshal = λ p. ""; unmarshal = λ s. none }

-- A text that is a request's id.
abbrev ids : Codec String LockPayload
ids = record { marshal = λ p. p.request_id; unmarshal = λ s. some (lock_payload s) }

abbrev operations : Codecs String
operations = record {
  usuario = silent;
  ingeniero = silent;
  dispositivo = silent;
  ticket = silent;
  folio = silent;
  close = silent;
}

abbrev no_rows : RowCodecs String
no_rows = record { ingenieros = silent; usuarios = silent; dispositivos = silent; tickets = silent }

abbrev json : Json String
json = record {
  propose = silent;
  vote = silent;
  commit = silent;
  lock = ids;
  election = silent;
  coordinator = silent;
  query = silent;
  query_response = silent;
  rows = no_rows;
  add_device = silent;
  node_dead = silent;
  operations = operations;
}

abbrev node : Running String
node = record {
  state = started s1;
  lock = Mutex.new;
  rounds = Consensus.new;
  contest = Election.new;
  monitor = Heartbeat.new;
  waits = [];
  tables = empty;
}

abbrev arrival : MessageType → String → Arrival String
arrival type content = record {
  message = record {
    id = "m";
    type = type;
    from_node = "sucursal2";
    to_node = "sucursal1";
    content = content;
    send_at = "2024-01-01T00:00:00Z";
  };
  select_error = none;
  context = record { now = "t"; first = none; second = none; bad_json = "bad" };
}

abbrev arrivals : List (Arrival String)
arrivals = arrival lock_request "b" ∷ arrival (unknown "HELLO") "b" ∷ arrival vote_yes "b" ∷ []

node-IsSound : IsSound s1 cluster node
unfolding NodeState.new Mutex.new
node-IsSound = record {
  is_self = refl;
  same_nodes = refl;
  queued = record { idle = λ e. refl; named = tt };
  placed = record {
    ingenieros = (tt, tt);
    usuarios = (tt, tt);
    dispositivos = (tt, tt);
    tickets = (tt, tt);
  };
}

are_named : All (IsNamedRequest json) arrivals
are_named =
    (λ e. ne_of_== "b" "" refl, (λ e. ne_of_== "b" "" refl, (λ e. ne_of_== "b" "" refl, tt)))
