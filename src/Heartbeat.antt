-- ===== src/Heartbeat.antt =====
-- internal/heartbeat/heartbeat.go: pings, missed pongs, and what a death sets off.
pub mod Liveness
mod Tests
use node_messager.Base.{
  ℕ, suc, ◌+◌, String, Bool, true, false, not, Option, none, some, List, [], ◌∷◌, leb, ◌==◌, nat_eq,
  if◌then◌else◌,
}
use node_messager.Base.Dict.{Dict, lookup, insert, delete}
use node_messager.Dto.{Node, Message, MessageType, pong, ping, node_dead, NodeDeadPayload, Outgoing}
use node_messager.NodeState.{
  State, flag, is_alive, mark_alive, mark_dead, is_master, get_master_node, node_by_name,
}

abbrev pub max_missed : ℕ
max_missed = 3

-- `pong_chs` maps a peer to its channel: whether a pong is in it. `has_callback` is
-- `OnNodeDead != nil`.
pub record Monitor : Type 0 where
  pub missed : Dict ℕ ℕ
  pub pong_chs : Dict ℕ Bool
  pub in_flight : Dict ℕ Bool
  pub has_callback : Bool

unfoldable pub new : Monitor
new = record { missed = []; pong_chs = []; in_flight = []; has_callback = false }

-- What the node does once a peer is declared dead.
pub data Action : Type 0 where
  start_election : Action
  redistribute : ℕ → Action
  report : Outgoing NodeDeadPayload → Action

abbrev pub report_to : ℕ → Option Node → List Action
report_to id none = []
report_to id (some master) =
    report (record { to = master; type = node_dead; payload = record { dead_node_id = id } }) ∷ []

unfoldable pub declare_dead : Bool → ℕ → State → State × List Action
declare_dead has_callback id st =
    let st' = mark_dead id st in
    let act =
      if id == st'.master_id
      then start_election ∷ []
      else if is_master st'
      then (if has_callback then redistribute id ∷ [] else [])
      else report_to id (get_master_node st') in
    if not (is_alive st id) then (st, []) else (st', act)

-- The beginning of `pingOne`: whether a PING is sent.
unfoldable pub begin_ping : ℕ → Monitor → Monitor × Bool
begin_ping id m = if flag (lookup id m.in_flight) then (m, false) else (
  record m { in_flight = insert id true m.in_flight; pong_chs = insert id false m.pong_chs },
  true,
)

-- How the `select` of `pingOne` ends.
pub data Outcome : Type 0 where
  answered timed_out cancelled : Outcome

abbrev pub count : Option ℕ → ℕ
count none = 0
count (some n) = n

unfoldable pub missed_of : ℕ → Monitor → ℕ
missed_of id m = count (lookup id m.missed)

-- The `select` itself.
unfoldable pub settle : ℕ → Outcome → Monitor → State → (Monitor × State) × List Action
settle id answered m st = ((record m { missed = insert id 0 m.missed }, mark_alive id st), [])
settle id timed_out m st =
    let n = suc (missed_of id m) in
    let m' = record m { missed = insert id n m.missed } in
    let died = declare_dead m.has_callback id st in
    if leb max_missed n then ((m', died.0), died.1) else ((m', st), [])
settle id cancelled m st = ((m, st), [])

-- The deletions at the end of `pingOne`.
unfoldable pub end_ping : ℕ → Monitor → Monitor
end_ping id m = record m { pong_chs = delete id m.pong_chs; in_flight = delete id m.in_flight }

unfoldable pub handle_ping : {Raw : Type 0} → State → Message Raw → List Node
handle_ping st m = elim (node_by_name m.from_node st) [ none ↦ [] | some peer ↦ peer ∷ [] ]

abbrev pub offer : ℕ → Option Bool → Monitor → Monitor
offer id none m = m
offer id (some _) m = record m { pong_chs = insert id true m.pong_chs }

unfoldable pub handle_pong : {Raw : Type 0} → State → Message Raw → Monitor → Monitor
handle_pong st msg m = elim (node_by_name msg.from_node st) [
  | none ↦ m
  | some peer ↦ offer peer.id (lookup peer.id m.pong_chs) m
]
