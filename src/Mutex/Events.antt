-- ===== src/Mutex/Events.antt =====
-- Everything that changes an `Engine` or asks for a send, as one step on an event. An event carries
-- the node's `State` where the code reads it, since the master may change between two events.
use node_messager.Base.{String, Option, none, some, List, [], ◌∷◌, ◌++◌}
use node_messager.Dto.{Message, Codec, LockPayload}
use node_messager.NodeState.{State}
use node_messager.Mutex.{
  Engine, Effect, Outcome, acquire_local, register_local, end_local, release_local, acquire_remote,
  unsent_remote, end_remote, release_remote, handle_lock_request, handle_lock_grant,
  handle_lock_deny, handle_lock_release,
}

pub data Event (Raw : Type 0) : Type 0 where
  local_request : State → String → Event Raw
  local_registered : String → Event Raw
  local_ended : String → Outcome → Event Raw
  local_release : State → String → Event Raw
  remote_request : State → String → Event Raw
  remote_unsent : String → Event Raw
  remote_ended : String → Outcome → Event Raw
  remote_release : State → String → Event Raw
  got_request : State → Message Raw → Event Raw
  got_grant : Message Raw → Event Raw
  got_deny : Message Raw → Event Raw
  got_release : State → Message Raw → Event Raw

-- A request that finds no master changes nothing.
abbrev pub or_stay : Engine → Option (Engine × List Effect) → Engine × List Effect
or_stay e none = (e, [])
or_stay e (some r) = r

module _ {Raw : Type 0} (json : Codec Raw LockPayload) where
  unfoldable pub step : Event Raw → Engine → Engine × List Effect
  step (local_request st id) e = acquire_local st.self.name id e
  step (local_registered id) e = (register_local id e, [])
  step (local_ended id o) e = ((end_local id o e).0, [])
  step (local_release st id) e = release_local st id e
  step (remote_request st id) e = or_stay e (acquire_remote st id e)
  step (remote_unsent id) e = (unsent_remote id e, [])
  step (remote_ended id o) e = ((end_remote id o e).0, [])
  step (remote_release st id) e = (e, release_remote st id)
  step (got_request st m) e = handle_lock_request json st m e
  step (got_grant m) e = handle_lock_grant json m e
  step (got_deny m) e = handle_lock_deny json m e
  step (got_release st m) e = handle_lock_release json st m e

  unfoldable pub run : List (Event Raw) → Engine → Engine × List Effect
  run [] e = (e, [])
  run (ev ∷ evs) e = let (e', out) = step ev e in let (e'', more) = run evs e' in (e'', out ++ more)
