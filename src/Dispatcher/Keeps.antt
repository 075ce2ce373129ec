-- ===== src/Dispatcher/Keeps.antt =====
-- What a message may change in a node.
use node_messager.Base.{◌≡◌, refl, Bool, true, false, Option, none, some, List}
use node_messager.Dto.{
  MessageType, msg, broadcast, ping, pong, propose, vote_yes, vote_no, commit, commit_ack,
  lock_request, lock_grant, lock_release, lock_deny, election_ok, coordinator, query,
  query_response, assign_ticket, close_ticket, distribute, redistribute, unknown, AddDevicePayload,
  NodeDeadPayload,
}
use node_messager.NodeState.{is_master}
use node_messager.Mutex
use node_messager.Election
use node_messager.Election.{handle_coordinator, handle_election}
use node_messager.Service.Devices.{handle_add_device}
use node_messager.Dispatcher.{
  Running, Json, Arrival, on_challenge, on_device, on_death, handle, dispatch,
}

-- The components of a node.
pub data Part : Type 0 where
  state_part lock_part rounds_part contest_part monitor_part waits_part tables_part : Part
  no_part : Part

-- The component that messages of a type are for.
abbrev pub owner : MessageType → Part
owner MessageType.pong = monitor_part
owner MessageType.vote_yes = rounds_part
owner MessageType.vote_no = rounds_part
owner MessageType.commit = tables_part
owner MessageType.lock_request = lock_part
owner MessageType.lock_grant = lock_part
owner MessageType.lock_release = lock_part
owner MessageType.election_ok = contest_part
owner MessageType.coordinator = state_part
owner MessageType.query_response = waits_part
owner _ = no_part

module _ {Raw : Type 0} where
  -- Node `n` with that component of `n'`.
  abbrev pub replace : Part → Running Raw → Running Raw → Running Raw
  replace state_part n' n = record n { state = n'.state }
  replace lock_part n' n = record n { lock = n'.lock }
  replace rounds_part n' n = record n { rounds = n'.rounds }
  replace contest_part n' n = record n { contest = n'.contest }
  replace monitor_part n' n = record n { monitor = n'.monitor }
  replace waits_part n' n = record n { waits = n'.waits }
  replace tables_part n' n = record n { tables = n'.tables }
  replace no_part n' n = n

module _ {Raw : Type 0} (json : Json Raw) where
  on_challenge_same :
      (r : List Election.Effect × Bool) (n : Running Raw) → (on_challenge json r n).0 ≡ n
  on_challenge_same (out, true) n = refl
  on_challenge_same (out, false) n = refl

  on_device_same : (o : Option AddDevicePayload) (n : Running Raw) → (on_device json o n).0 ≡ n
  on_device_same none n = refl
  on_device_same (some p) n = refl

  on_death_same :
      (b : Bool) (o : Option NodeDeadPayload) (n : Running Raw) → (on_death json b o n).0 ≡ n
  on_death_same true (some p) n = refl
  on_death_same true none n = refl
  on_death_same false (some p) n = refl
  on_death_same false none n = refl

  handle-replace :
      (t : MessageType) (a : Arrival Raw) (n : Running Raw)
      → (handle json t a n).0 ≡ replace (owner t) (handle json t a n).0 n
  unfolding handle Mutex.handle_lock_deny
  handle-replace MessageType.election a n =
      on_challenge_same (handle_election json.election n.state a.message) n
  handle-replace MessageType.add_device a n =
      on_device_same (handle_add_device json.add_device n.state a.message) n
  handle-replace MessageType.node_dead a n =
      on_death_same (is_master n.state) (json.node_dead.unmarshal a.message.content) n
  handle-replace msg a n = refl
  handle-replace broadcast a n = refl
  handle-replace ping a n = refl
  handle-replace pong a n = refl
  handle-replace propose a n = refl
  handle-replace vote_yes a n = refl
  handle-replace vote_no a n = refl
  handle-replace commit a n = refl
  handle-replace commit_ack a n = refl
  handle-replace lock_request a n = refl
  handle-replace lock_grant a n = refl
  handle-replace lock_release a n = refl
  handle-replace lock_deny a n = refl
  handle-replace election_ok a n = refl
  handle-replace coordinator a n = refl
  handle-replace query a n = refl
  handle-replace query_response a n = refl
  handle-replace assign_ticket a n = refl
  handle-replace close_ticket a n = refl
  handle-replace distribute a n = refl
  handle-replace redistribute a n = refl
  handle-replace (unknown s) a n = refl

  -- A message changes at most the component that messages of its type are for; a message of any
  -- other type, among them every type that is none of the constants, leaves the node as it is.
  pub dispatch-replace :
      (a : Arrival Raw) (n : Running Raw)
      → (dispatch json a n).0 ≡ replace (owner a.message.type) (dispatch json a n).0 n
  unfolding dispatch
  dispatch-replace a n = handle-replace a.message.type a n
