-- ===== src/Mutex.antt =====
-- internal/mutex/mutex.go: a lock that the master arbitrates. One `Engine` runs on every node; its
-- critical sections under `mu` are the functions here, and what a goroutine does between two of
-- them is a separate step.
pub mod Events
pub mod Moves
pub mod Queue
pub mod Passing
pub mod Permits
pub mod Exclusion
pub mod Acquire
mod Tests
use node_messager.Base.{
  String, Bool, true, false, Option, none, some, List, [], ◌∷◌, ◌++◌, ◌==◌, string_eq,
  if◌then◌else◌,
}
use node_messager.Base.Dict.{Dict, lookup, insert, delete}
use node_messager.Dto.{
  Node, Message, MessageType, lock_request, lock_grant, lock_deny, lock_release, Codec, LockPayload,
  Outgoing,
}
use node_messager.NodeState.{State, is_master, get_master_node, node_by_name}

pub record PendingReq : Type 0 where
  pub request_id : String
  pub from_node : String

-- `holder` is "" when the lock is free. A channel of `grants` is named by its request: `chans` says
-- whether it holds a value, also after `grants` has dropped it, since the waiter still reads it.
pub record Engine : Type 0 where
  pub holder : String
  pub queue : List PendingReq
  pub grants : Dict String (Unit {0})
  pub chans : Dict String Bool

unfoldable pub new : Engine
new = record { holder = ""; queue = []; grants = []; chans = [] }

-- What a step does besides changing the engine.
pub data Effect : Type 0 where
  -- `acquireLocal` returns at once, with the lock
  enter : String → Effect
  -- `ch <- true` on the channel of a request
  signal : String → Effect
  send : Outgoing LockPayload → Effect

abbrev pub resource : String
resource = "engineer_assignment"

abbrev pub lock_payload : String → LockPayload
lock_payload id = record { request_id = id; resource = resource }

-- A message to a peer, if the state knows it.
abbrev pub send_to : Option Node → MessageType → LockPayload → List Effect
send_to none t p = []
send_to (some peer) t p = send (record { to = peer; type = t; payload = p }) ∷ []

-- The channel of `id` receives a value; on a full channel the sender blocks and it stays full.
abbrev pub fill : String → Engine → Engine
fill id e = record e { chans = insert id true e.chans }

-- `e.grants[reqID] = make(chan bool, 1)`
abbrev pub open_channel : String → Engine → Engine
open_channel id e = record e { grants = insert id tt e.grants; chans = insert id false e.chans }

abbrev pub enqueue : PendingReq → Engine → Engine
enqueue r e = record e { queue = e.queue ++ r ∷ [] }

-- The first critical section of `acquireLocal`; `self` is the node's own name.
unfoldable pub acquire_local : String → String → Engine → Engine × List Effect
acquire_local self id e =
    if e.holder == ""
    then (record e { holder = id }, enter id ∷ [])
    else (enqueue (record { request_id = id; from_node = self }) e, [])

-- The second one.
unfoldable pub register_local : String → Engine → Engine
register_local id e = open_channel id e

-- How the `select` of a waiting goroutine ends.
pub data Outcome : Type 0 where
  granted timed_out cancelled : Outcome

-- The end of `acquireLocal`: a timeout leaves the queue and `grants` as they are. It has no case
-- for a cancelled context.
unfoldable pub end_local : String → Outcome → Engine → Engine × Bool
end_local id granted e = (record e { chans = insert id false e.chans }, true)
end_local id _ e = (e, false)

-- The branch of `releaseLocal` that wakes the next request: by its channel, or by a message.
unfoldable pub wake : State → PendingReq → Option (Unit {0}) → Engine → Engine × List Effect
wake st next (some _) e = (
  record (fill next.request_id e) { grants = delete next.request_id e.grants },
  signal next.request_id ∷ [],
)
wake st next none e =
    (e, send_to (node_by_name next.from_node st) lock_grant (lock_payload next.request_id))

unfoldable pub hand_over : State → List PendingReq → Engine → Engine × List Effect
unfolding wake
hand_over st [] e = (record e { holder = "" }, [])
hand_over st (next ∷ rest) e =
    wake st next (lookup next.request_id e.grants)
      (record e { holder = next.request_id; queue = rest })

unfoldable pub release_local : State → String → Engine → Engine × List Effect
unfolding hand_over
release_local st id e =
    let passed = hand_over st e.queue e in if e.holder == id then passed else (e, [])

-- `acquireRemote` up to its `select`; `none` is "no master node found".
unfoldable pub request_from : Option Node → String → Engine → Option (Engine × List Effect)
request_from none id e = none
request_from (some master) id e =
    some (open_channel id e, send_to (some master) lock_request (lock_payload id))

unfoldable pub acquire_remote : State → String → Engine → Option (Engine × List Effect)
unfolding request_from
acquire_remote st id e = request_from (get_master_node st) id e

-- The request could not be sent.
unfoldable pub unsent_remote : String → Engine → Engine
unsent_remote id e = record e { grants = delete id e.grants }

-- The end of `acquireRemote`: only a timeout takes the channel out of `grants`.
unfoldable pub end_remote : String → Outcome → Engine → Engine × Bool
end_remote id granted e = (record e { chans = insert id false e.chans }, true)
end_remote id timed_out e = (record e { grants = delete id e.grants }, false)
end_remote id cancelled e = (e, false)

-- The release function that `acquireRemote` returns.
unfoldable pub release_remote : State → String → List Effect
release_remote st id = send_to (get_master_node st) lock_release (lock_payload id)

-- `acquire`: whether the request is decided here or by the master.
pub data Begun : Type 0 where
  here remote : Engine × List Effect → Begun
  no_master : Begun

abbrev pub begun : Option (Engine × List Effect) → Begun
begun none = no_master
begun (some r) = remote r

unfoldable pub acquire : State → String → Engine → Begun
unfolding acquire_local acquire_remote
acquire st id e =
    if is_master st then here (acquire_local st.self.name id e) else begun (acquire_remote st id e)

-- `HandleLockRequest` behind the decoding.
unfoldable pub on_request : State → String → LockPayload → Engine → Engine × List Effect
on_request st from p e =
    if e.holder == ""
    then (record e { holder = p.request_id }, send_to (node_by_name from st) lock_grant p)
    else (
      enqueue (record { request_id = p.request_id; from_node = from }) e,
      send_to (node_by_name from st) lock_deny p,
    )

abbrev pub notify : String → Option (Unit {0}) → Engine → Engine × List Effect
notify id none e = (e, [])
notify id (some _) e = (fill id e, signal id ∷ [])

-- `HandleLockGrant` behind the decoding.
unfoldable pub on_grant : LockPayload → Engine → Engine × List Effect
on_grant p e = notify p.request_id (lookup p.request_id e.grants) e

module _ {Raw : Type 0} (json : Codec Raw LockPayload) where
  -- A content that does not decode is dropped.
  abbrev pub decoded :
      (LockPayload → Engine → Engine × List Effect)
      → Option LockPayload
      → Engine
      → Engine × List Effect
  decoded f none e = (e, [])
  decoded f (some p) e = f p e

  unfoldable pub handle_lock_request : State → Message Raw → Engine → Engine × List Effect
  unfolding on_request
  handle_lock_request st m = decoded (on_request st m.from_node) (json.unmarshal m.content)

  unfoldable pub handle_lock_grant : Message Raw → Engine → Engine × List Effect
  unfolding on_grant
  handle_lock_grant m = decoded on_grant (json.unmarshal m.content)

  unfoldable pub handle_lock_deny : Message Raw → Engine → Engine × List Effect
  handle_lock_deny m e = (e, [])

  unfoldable pub handle_lock_release : State → Message Raw → Engine → Engine × List Effect
  unfolding release_local
  handle_lock_release st m = decoded (λ p. release_local st p.request_id) (json.unmarshal m.content)
