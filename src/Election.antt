-- ===== src/Election.antt =====
-- internal/election/election.go: the inverted bully algorithm, in which the lowest id wins. Each
-- function is what runs without a wait in between; `lower_nodes` and the sends read the node's
-- `State`, whose `self` is the engine's.
pub mod Winner
pub mod Announce
mod Tests
use node_messager.Base.{
  ℕ, suc, ◌+◌, String, Bool, true, false, Option, none, some, List, [], ◌∷◌, map, ltb, leb, not,
  ◌==◌, nat_eq, if◌then◌else◌, select,
}
use node_messager.Dto.{
  Node, Message, MessageType, election, election_ok, coordinator, Codec, ElectionPayload,
  CoordinatorPayload, Outgoing,
}
use node_messager.NodeState.{State, peers, alive_peers, node_by_name, set_master_id}

-- Timers are numbered in the order of their creation; `armed` are those that will still fire.
pub record Engine : Type 0 where
  pub running : Bool
  pub ok_timer : Option ℕ
  pub armed : List ℕ
  pub next_timer : ℕ

unfoldable pub new : Engine
new = record { running = false; ok_timer = none; armed = []; next_timer = 0 }

pub data Effect : Type 0 where
  send : Outgoing ElectionPayload → Effect
  -- COORDINATOR, broadcast to these nodes
  announce : List Node → CoordinatorPayload → Effect

unfoldable pub lower_nodes : State → List Node
lower_nodes st = select (λ n. ltb n.id st.self.id) (alive_peers st)

abbrev pub stop : Option ℕ → List ℕ → List ℕ
stop none armed = armed
stop (some t) armed = select (λ u. not (u == t)) armed

-- What follows a step on the node itself.
pub data Next : Type 0 where
  -- the timer is to be armed
  wait : Next
  rest : Next

pub record Result : Type 0 where
  pub state : State
  pub engine : Engine
  pub effects : List Effect
  pub then_do : Next

unfoldable pub declare_victory : State → Engine → Result
declare_victory st e = record {
  state = set_master_id st.self.id st;
  engine = record e { running = false; armed = stop e.ok_timer e.armed };
  effects = announce (peers st) (record { master_id = st.self.id }) ∷ [];
  then_do = rest;
}

abbrev pub challenge : Node → Node → Effect
challenge self n =
    send (record { to = n; type = election; payload = record { candidate_id = self.id } })

pub contest : List Node → State → Engine → Result
contest [] st e = declare_victory st e
contest (n ∷ ns) st e = record {
  state = st;
  engine = e;
  effects = map (challenge st.self) (n ∷ ns);
  then_do = wait;
}

-- `StartElection` up to its timer.
unfoldable pub start_election : State → Engine → Result
unfolding contest
start_election st e =
    if e.running
    then record { state = st; engine = e; effects = []; then_do = rest }
    else contest (lower_nodes st) st (record e { running = true })

-- `e.okTimer = time.AfterFunc(...)`
unfoldable pub arm : Engine → Engine
arm e = record e {
  ok_timer = some e.next_timer;
  armed = e.next_timer ∷ e.armed;
  next_timer = suc e.next_timer;
}

-- The callback of a timer up to its unlock: whether it goes on to `declare_victory`.
unfoldable pub fire : ℕ → Engine → Engine × Bool
fire t e = (record e { armed = stop (some t) e.armed }, e.running)

unfoldable pub claim_mastership : State → State × List Effect
claim_mastership st =
    (set_master_id st.self.id st, announce (peers st) (record { master_id = st.self.id }) ∷ [])

unfoldable pub handle_election_ok : Engine → Engine
handle_election_ok e = record e {
  running = false;
  ok_timer = none;
  armed = stop e.ok_timer e.armed;
}

abbrev pub reply : State → Option Node → List Effect
reply st none = []
reply st (some sender) =
    send
      (record { to = sender; type = election_ok; payload = record { candidate_id = st.self.id } })
    ∷ []

-- `HandleElection`: the replies, and whether the node starts an election of its own.
unfoldable pub on_election : State → String → ElectionPayload → List Effect × Bool
on_election st from p =
    if leb p.candidate_id st.self.id then ([], false) else (reply st (node_by_name from st), true)

module _ {Raw : Type 0} where
  unfoldable pub handle_election :
      Codec Raw ElectionPayload → State → Message Raw → List Effect × Bool
  unfolding on_election
  handle_election json st m = elim (json.unmarshal m.content) [
    | none ↦ ([], false)
    | some p ↦ on_election st m.from_node p
  ]

  unfoldable pub handle_coordinator : Codec Raw CoordinatorPayload → Message Raw → State → State
  handle_coordinator json m st = elim (json.unmarshal m.content) [
    | none ↦ st
    | some p ↦ set_master_id p.master_id st
  ]
