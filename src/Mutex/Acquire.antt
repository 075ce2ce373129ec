-- ===== src/Mutex/Acquire.antt =====
-- `Acquire` as a whole: its attempts, with the events that other goroutines and messages bring to the
-- engine meanwhile.
use node_messager.Base.{
  ℕ, String, Bool, Option, none, some, List, [], ◌++◌, ◌==◌, string_eq, if◌then◌else◌,
}
use node_messager.Base.Dict.{lookup}
use node_messager.Base.Retry.{Result, ok, err, retry}
use node_messager.Dto.{Codec, LockPayload}
use node_messager.NodeState.{State, flag, is_master}
use node_messager.Mutex.{
  Engine, Effect, Outcome, granted, timed_out, cancelled, acquire_local, register_local, end_local,
  acquire_remote, unsent_remote, end_remote,
}
use node_messager.Mutex.Events.{Event, run}

pub data AcquireError : Type 0 where
  no_master timeout context_done : AcquireError
  not_sent : String → AcquireError

-- The release function that a success returns: `releaseLocal`, or LOCK_RELEASE to the master.
pub data Release : Type 0 where
  to_self to_master : String → Release

-- What one attempt meets: the request's id, the node's state, the events before it begins, between its
-- first two critical sections, and while it waits, whether LOCK_REQUEST cannot be sent, and how the
-- wait ends.
pub record Attempt (Raw : Type 0) : Type 0 where
  pub id : String
  pub state : State
  pub ahead : List (Event Raw)
  pub before : List (Event Raw)
  pub meanwhile : List (Event Raw)
  pub unsent : Option String
  pub outcome : Outcome

-- How the `select` of request `id` ends: by a value in its channel only if there is one, and by the
-- timer if the value does not come.
abbrev pub heard : String → Outcome → Engine → Outcome
heard id granted e = if flag (lookup id e.chans) then granted else timed_out
heard id o e = o

abbrev pub ended : Outcome → Release → Result AcquireError Release
ended granted release = ok release
ended timed_out release = err timeout
ended cancelled release = err context_done

-- The `select` of `acquireLocal` has no case for the context.
abbrev pub without_context : Outcome → Outcome
without_context cancelled = timed_out
without_context o = o

module _ {Raw : Type 0} (json : Codec Raw LockPayload) where
  abbrev pub Acquired : Type 0
  Acquired = (Engine × List Effect) × Result AcquireError Release

  abbrev pub then_run : List (Event Raw) → Engine × List Effect → Engine × List Effect
  then_run evs (e, out) = let r = run json evs e in (r.0, out ++ r.1)

  -- A busy lock: wait for the channel or the timer.
  abbrev pub wait_local : Attempt Raw → Engine × List Effect → Acquired
  wait_local a r =
      let queued = then_run a.before r in
      let waited = then_run a.meanwhile (register_local a.id queued.0, queued.1) in
      let o = heard a.id (without_context a.outcome) waited.0 in
      (((end_local a.id o waited.0).0, waited.1), ended o (to_self a.id))

  abbrev pub request_local : Attempt Raw → Engine → Acquired
  request_local a e =
      let r = acquire_local a.state.self.name a.id e in
      if e.holder == "" then (r, ok (to_self a.id)) else wait_local a r

  abbrev pub wait_remote : Attempt Raw → Option String → Engine × List Effect → Acquired
  wait_remote a (some x) r =
      let failed = then_run a.before r in
      ((unsent_remote a.id failed.0, failed.1), err (not_sent x))
  wait_remote a none r =
      let waited = then_run a.meanwhile r in
      let o = heard a.id a.outcome waited.0 in
      (((end_remote a.id o waited.0).0, waited.1), ended o (to_master a.id))

  abbrev pub request_remote : Attempt Raw → Engine → Option (Engine × List Effect) → Acquired
  request_remote a e none = ((e, []), err no_master)
  request_remote a e (some r) = wait_remote a a.unsent r

  -- `acquire`
  unfoldable pub acquire_once : Attempt Raw → Engine → Acquired
  unfolding acquire_local register_local end_local acquire_remote unsent_remote end_remote run
  acquire_once a e =
      if is_master a.state
      then request_local a e
      else request_remote a e (acquire_remote a.state a.id e)

  abbrev pub attempt : (ℕ → Attempt Raw) → ℕ → Engine × List Effect → Acquired
  attempt script n s =
      let begun = then_run (script n).ahead s in
      let r = acquire_once (script n) begun.0 in ((r.0.0, begun.1 ++ r.0.1), r.1)

  -- `Acquire`: three attempts at most; `stop n` is whether the context ends during the wait behind
  -- attempt `n`.
  unfoldable pub acquire_all : (ℕ → Attempt Raw) → (ℕ → Bool) → Engine → Acquired
  unfolding acquire_once run
  acquire_all script stop e =
      retry (attempt script) (λ n. if stop n then some context_done else none) 3 1 no_master (e, [])
