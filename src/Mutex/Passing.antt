-- ===== src/Mutex/Passing.antt =====
-- Who gets the lock, how it is told, and how long it keeps it.
use node_messager.Base.{
  String, ◌≡◌, refl, sym, ◌∙◌, ◌≢◌, none, some, List, [], ◌∷◌, arith, string_eq, ==_refl, ==_of_ne,
  All,
}
use mathlib.Core.List.{head?}
use node_messager.Base.Dict.{lookup}
use node_messager.Dto.{Node, Codec, LockPayload, lock_grant}
use node_messager.NodeState.{State, node_by_name}
use node_messager.Mutex.{
  Engine, signal, send, PendingReq, timed_out, lock_payload, wake, hand_over, release_local,
}
use node_messager.Mutex.Events.{Event, local_ended, local_release, run}
use node_messager.Mutex.Moves.{waiting, IsQueued, Move, join, leave, stay, apply, IsNamed}
use node_messager.Mutex.Queue.{move, applies, run-Does}

-- When the holder releases, the next request of the queue gets the lock and leaves the queue, and is
-- told so once: through its channel if it has one here, and else by a LOCK_GRANT to the node that
-- asked, if that node is known.
pub release_local-wakes :
    (st : State) (e : Engine) (r : PendingReq) (rs : List PendingReq)
    → e.queue ≡ r ∷ rs
    → ((release_local st e.holder e).0.holder ≡ r.request_id)
      × ((release_local st e.holder e).0.queue ≡ rs)
      × (lookup r.request_id e.grants ≡ some tt
          → (release_local st e.holder e).1 ≡ signal r.request_id ∷ [])
      × ((peer : Node)
          → lookup r.request_id e.grants ≡ none
          → node_by_name r.from_node st ≡ some peer
          → (release_local st e.holder e).1
            ≡ send (record { to = peer; type = lock_grant; payload = lock_payload r.request_id })
              ∷ [])
unfolding release_local wake hand_over
release_local-wakes st e r rs q =
    rw (==_refl e.holder, q)
      (ground arith, ground arith, λ g. rw (g, wake) refl, λ peer g p. rw (g, wake) (rw p refl))

module _ {Raw : Type 0} (json : Codec Raw LockPayload) where
  -- An event that does not release the request `id`.
  abbrev pub Keeps : String → Move → Type 0
  Keeps id (leave j) = j ≢ id
  Keeps id _ = Unit

  apply-head :
      (m : Move) (id : String) (xs : List String)
      → Keeps id m
      → head? xs ≡ some id
      → head? (apply m xs) ≡ some id
  apply-head (join j) id (x ∷ xs) k h = h
  apply-head (join j) id [] k h = cc
  apply-head (leave j) id [] k h = h
  apply-head (leave j) id (x ∷ xs) k h = rw (==_of_ne x j (λ q. k (sym q ∙ ground arith))) h
  apply-head stay id xs k h = h

  applies-head :
      (evs : List (Event Raw)) (id : String) (xs : List String)
      → All (λ ev. Keeps id (move json ev)) evs
      → head? xs ≡ some id
      → head? (applies json evs xs) ≡ some id
  applies-head [] id xs k h = h
  applies-head (ev ∷ evs) id xs k h =
      applies-head evs id (apply (move json ev) xs) k.1 (apply-head (move json ev) id xs k.0 h)

  -- Mutual exclusion at the master: a request that holds the lock of a well-formed engine holds it
  -- through any sequence of events in which nobody releases that request, if the ids of the
  -- requests are not empty.
  pub held_until_released :
      (evs : List (Event Raw)) (id : String) (e : Engine)
      → IsQueued e
      → All (λ ev. IsNamed (move json ev)) evs
      → All (λ ev. Keeps id (move json ev)) evs
      → head? (waiting e) ≡ some id
      → head? (waiting (run json evs e).0) ≡ some id
  held_until_released evs id e v n k h =
      rw (run-Does json evs e v n).1 (applies-head evs id (waiting e) k h)

  -- A request whose acquisition times out stays in the queue: when the holder before it releases, it
  -- holds the lock, and goes on to hold it through any events in which nobody releases it. The
  -- engine is well formed and the requests' ids are not empty.
  pub timed_out_takes_lock :
      (st : State) (holder id : String) (rest : List String) (evs : List (Event Raw)) (e : Engine)
      → IsQueued e
      → waiting e ≡ holder ∷ id ∷ rest
      → All (λ ev. IsNamed (move json ev)) evs
      → All (λ ev. Keeps id (move json ev)) evs
      → head? (waiting (run json (local_ended id timed_out ∷ local_release st holder ∷ evs) e).0)
        ≡ some id
  timed_out_takes_lock st holder id rest evs e v w n k =
      rw
        (
          (run-Does json (local_ended id timed_out ∷ local_release st holder ∷ evs) e v
              (tt, (tt, n))).1,
          w,
        )
        (rw (==_refl holder) (applies-head evs id (id ∷ rest) k refl))
