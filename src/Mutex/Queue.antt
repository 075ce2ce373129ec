-- ===== src/Mutex/Queue.antt =====
-- The engine of the master refines a queue: the holder first, then the waiting requests in the
-- order in which they came.
use node_messager.Base.{
  String, ◌≡◌, refl, ap, ◌∙◌, Option, none, some, List, [], ◌∷◌, arith, string_eq, All,
}
use node_messager.Dto.{Message, Codec, LockPayload}
use node_messager.NodeState.{State}
use node_messager.Mutex.{
  Engine, granted, timed_out, cancelled, new, register_local, end_local, release_local,
  request_from, acquire_remote, unsent_remote, end_remote, on_request, on_grant, decoded,
  handle_lock_request, handle_lock_grant, handle_lock_deny, handle_lock_release,
}
use node_messager.Mutex.Events.{
  Event, local_request, local_registered, local_ended, local_release, remote_request, remote_unsent,
  remote_ended, remote_release, got_request, got_grant, got_deny, got_release, or_stay, step, run,
}
use node_messager.Mutex.Moves.{
  waiting, IsQueued, Move, join, leave, stay, apply, IsNamed, Does, Same, stays, acquire_local-Does,
  on_request-Does, release_local-Does,
}

module _ {Raw : Type 0} (json : Codec Raw LockPayload) where
  abbrev pub decoded_move : (String → Move) → Option LockPayload → Move
  decoded_move f none = stay
  decoded_move f (some p) = f p.request_id

  -- What an event means for the queue.
  abbrev pub move : Event Raw → Move
  move (local_request st id) = join id
  move (local_release st id) = leave id
  move (got_request st m) = decoded_move join (json.unmarshal m.content)
  move (got_release st m) = decoded_move leave (json.unmarshal m.content)
  move _ = stay

  got_request-Does :
      (st : State) (m : Message Raw) (o : Option LockPayload) (e : Engine)
      → IsQueued e
      → IsNamed (decoded_move join o)
      → Does (decoded_move join o) e (decoded json (on_request st m.from_node) o e).0
  got_request-Does st m none e v h = stays e e v (refl, refl)
  got_request-Does st m (some p) e v h = on_request-Does st m.from_node p e v h

  got_release-Does :
      (st : State) (o : Option LockPayload) (e : Engine)
      → IsQueued e
      → Does (decoded_move leave o) e (decoded json (λ p. release_local st p.request_id) o e).0
  got_release-Does st none e v = stays e e v (refl, refl)
  got_release-Does st (some p) e v = release_local-Does st p.request_id e v

  remote_request-Same :
      (st : State) (id : String) (e : Engine) → Same e (or_stay e (acquire_remote st id e)).0
  unfolding acquire_remote request_from
  remote_request-Same st id e = (ground arith, ground arith)

  got_grant-Same : (m : Message Raw) (e : Engine) → Same e (handle_lock_grant json m e).0
  unfolding handle_lock_grant on_grant
  got_grant-Same m e = (ground arith, ground arith)

  -- Each step of an engine does to the queue of requests what its event means: a request joins at
  -- the end, a release by the holder removes it, and every other event, a release by anyone else, a
  -- message that does not decode and each timeout among them, leaves the queue as it is. The
  -- requests that join have an id.
  pub step-Does :
      (ev : Event Raw) (e : Engine)
      → IsQueued e
      → IsNamed (move ev)
      → Does (move ev) e (step json ev e).0
  unfolding step handle_lock_request handle_lock_release handle_lock_deny register_local end_local
      unsent_remote end_remote
  step-Does (local_request st id) e v h = acquire_local-Does st.self.name id e v h
  step-Does (local_registered id) e v h = stays e _ v (refl, refl)
  step-Does (local_ended id granted) e v h = stays e _ v (refl, refl)
  step-Does (local_ended id timed_out) e v h = stays e _ v (refl, refl)
  step-Does (local_ended id cancelled) e v h = stays e _ v (refl, refl)
  step-Does (local_release st id) e v h = release_local-Does st id e v
  step-Does (remote_request st id) e v h = stays e _ v (remote_request-Same st id e)
  step-Does (remote_unsent id) e v h = stays e _ v (refl, refl)
  step-Does (remote_ended id granted) e v h = stays e _ v (refl, refl)
  step-Does (remote_ended id timed_out) e v h = stays e _ v (refl, refl)
  step-Does (remote_ended id cancelled) e v h = stays e _ v (refl, refl)
  step-Does (remote_release st id) e v h = stays e _ v (refl, refl)
  step-Does (got_request st m) e v h = got_request-Does st m (json.unmarshal m.content) e v h
  step-Does (got_grant m) e v h = stays e _ v (got_grant-Same m e)
  step-Does (got_deny m) e v h = stays e _ v (refl, refl)
  step-Does (got_release st m) e v h = got_release-Does st (json.unmarshal m.content) e v

  abbrev pub applies : List (Event Raw) → List String → List String
  applies [] xs = xs
  applies (ev ∷ evs) xs = applies evs (apply (move ev) xs)

  pub run-Does :
      (evs : List (Event Raw)) (e : Engine)
      → IsQueued e
      → All (λ ev. IsNamed (move ev)) evs
      → IsQueued (run json evs e).0 × (waiting (run json evs e).0 ≡ applies evs (waiting e))
  unfolding run
  run-Does [] e v h = (v, refl)
  run-Does (ev ∷ evs) e v h =
      let d = step-Does ev e v h.0 in
      let r = run-Does evs (step json ev e).0 d.0 h.1 in (r.0, r.1 ∙ ap (applies evs) d.1)

  -- From the start, after any sequence of events whose requests have ids, the holder and the
  -- waiting requests are those of a first-come first-served queue that the same events work on.
  pub run-waiting :
      (evs : List (Event Raw))
      → All (λ ev. IsNamed (move ev)) evs
      → waiting (run json evs new).0 ≡ applies evs []
  unfolding new
  run-waiting evs h = (run-Does evs new (record { idle = λ _. refl; named = tt }) h).1
