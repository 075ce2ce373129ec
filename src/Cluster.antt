-- ===== src/Cluster.antt =====
-- The lock engines of internal/mutex/mutex.go on all the nodes of a cluster, with the messages
-- between them. A node is known by its id, and `view n` is what it knows of the cluster. A message
-- arrives at most once, in any order, or is lost.
pub mod Tokens
pub mod Channels
pub mod Invariant
pub mod Steps
pub mod Aside
pub mod Kept
pub mod Moves
mod Tests
use node_messager.Base.{
  ℕ, zero, suc, String, Bool, true, false, not, ◌&&◌, select, Option, none, some, List, [], ◌∷◌,
  ◌++◌, ◌==◌, nat_eq, string_eq, if◌then◌else◌,
}
use node_messager.Base.Dict.{lookup}
use node_messager.Dto.{
  Message, MessageType, lock_request, lock_grant, lock_deny, lock_release, Codec, LockPayload,
  Outgoing,
}
use node_messager.NodeState.{State, flag, is_master}
use node_messager.Mutex.{
  Engine, Effect, enter, signal, send, Outcome, acquire_remote, granted, timed_out, cancelled, new,
}
use node_messager.Mutex.Events.{
  Event, local_request, local_registered, local_ended, local_release, remote_request, remote_unsent,
  remote_ended, remote_release, got_request, got_grant, got_deny, got_release, step,
}

-- A message on its way.
pub record Packet : Type 0 where
  pub from_name : String
  pub out : Outgoing LockPayload

-- Requests, with their nodes: `begun` has those behind the first critical section of `acquire`,
-- `waiting` those in its `select`, and `inside` those whose `Acquire` has returned and whose release
-- function was not called yet.
pub record Cluster : Type 0 where
  pub engines : ℕ → Engine
  pub flight : List Packet
  pub begun : List (ℕ × String)
  pub waiting : List (ℕ × String)
  pub inside : List (ℕ × String)

unfoldable pub start : Cluster
start = record { engines = λ n. new; flight = []; begun = []; waiting = []; inside = [] }

-- What one goroutine, or the network, does next. `deliver` has the number of a message on its way,
-- and the id and the time that its sender gave it.
-- `register` is the way of a request to its `select`: at the master it makes the channel, elsewhere
-- LOCK_REQUEST was sent without an error. `unsent` is the error of that send, whose message may be on its way all the same; `lose` takes it.
pub data Move : Type 0 where
  ask register unsent : ℕ → String → Move
  finish : ℕ → String → Outcome → Move
  give_back lose : ℕ → Move
  deliver : ℕ → String → String → Move

abbrev pub put : ℕ → Engine → (ℕ → Engine) → ℕ → Engine
put n e engines k = if k == n then e else engines k

abbrev pub beside {ℓ} : {A : Type ℓ} → A → Option (A × List A) → Option (A × List A)
beside x none = none
beside x (some (y, rest)) = some (y, x ∷ rest)

-- An element by its number, and the others.
unfoldable pub pick {ℓ} : {A : Type ℓ} → ℕ → List A → Option (A × List A)
pick i [] = none
pick zero (x ∷ xs) = some (x, xs)
pick (suc i) (x ∷ xs) = beside x (pick i xs)

abbrev pub packet : String → Effect → List Packet
packet name (send o) = record { from_name = name; out = o } ∷ []
packet name _ = []

abbrev pub packets : String → List Effect → List Packet
packets name [] = []
packets name (x ∷ xs) = packet name x ++ packets name xs

abbrev pub entry : ℕ → Effect → List (ℕ × String)
entry n (enter id) = (n, id) ∷ []
entry n _ = []

abbrev pub entered : ℕ → List Effect → List (ℕ × String)
entered n [] = []
entered n (x ∷ xs) = entry n x ++ entered n xs

module _ (view : ℕ → State) where
  -- The new engine of a node, with the effects of its step.
  unfoldable pub act : ℕ → Engine × List Effect → Cluster → Cluster
  act n (e, effects) c = record {
    engines = put n e c.engines;
    flight = packets (view n).self.name effects ++ c.flight;
    begun = c.begun;
    waiting = c.waiting;
    inside = entered n effects ++ c.inside;
  }

module _ {Raw : Type 0} (json : Codec Raw LockPayload) (view : ℕ → State) where
  abbrev pub happens : ℕ → Event Raw → Cluster → Cluster
  happens n ev c = act view n (step json ev (c.engines n)) c

  -- The events of `acquire`, of the end of its `select`, and of the release function.
  abbrev pub asked : ℕ → String → Event Raw
  asked n id = if is_master (view n) then local_request (view n) id else remote_request (view n) id

  abbrev pub ended : ℕ → String → Outcome → Event Raw
  ended n id o = if is_master (view n) then local_ended id o else remote_ended id o

  abbrev pub released : ℕ → String → Event Raw
  released n id =
      if is_master (view n) then local_release (view n) id else remote_release (view n) id

  -- `SendJSON` at the sender, the dispatcher at the receiver.
  abbrev pub message_of : Packet → String → String → Message Raw
  message_of p id at = record {
    id = id;
    type = p.out.type;
    from_node = p.from_name;
    to_node = p.out.to.name;
    content = json.marshal p.out.payload;
    send_at = at;
  }

  abbrev pub receive : MessageType → State → Message Raw → Engine → Engine × List Effect
  receive lock_request st m e = step json (got_request st m) e
  receive lock_grant st m e = step json (got_grant m) e
  receive lock_deny st m e = step json (got_deny m) e
  receive lock_release st m e = step json (got_release st m) e
  receive _ st m e = (e, [])

  abbrev pub arrive : Packet → String → String → Cluster → Cluster
  arrive p id at c =
      let n = p.out.to.id in
      act view n (receive p.out.type (view n) (message_of p id at) (c.engines n)) c

  abbrev pub delivered : String → String → Option (Packet × List Packet) → Cluster → Cluster
  delivered id at none c = c
  delivered id at (some (p, rest)) c = arrive p id at (record c { flight = rest })

  abbrev pub lost : Option (Packet × List Packet) → Cluster → Cluster
  lost none c = c
  lost (some (p, rest)) c = record c { flight = rest }

  abbrev pub leave : Option ((ℕ × String) × List (ℕ × String)) → Cluster → Cluster
  leave none c = c
  leave (some ((n, id), rest)) c = happens n (released n id) (record c { inside = rest })

  abbrev pub named : ℕ → String → List (ℕ × String) → Bool
  named n id [] = false
  named n id (x ∷ xs) = let rest = named n id xs in if x.0 == n && x.1 == id then true else rest

  abbrev pub without : ℕ → String → List (ℕ × String) → List (ℕ × String)
  without n id = select (λ x. not (x.0 == n && x.1 == id))

  -- The request goes on behind the first critical section, unless it took a free lock there or the
  -- node knows no master.
  abbrev pub goes_on : ℕ → String → Engine → Bool
  goes_on n id e =
      if is_master (view n)
      then not (e.holder == "")
      else elim (acquire_remote (view n) id e) [ none ↦ false | some r ↦ true ]

  abbrev pub begin : ℕ → String → Cluster → Cluster
  begin n id c = if goes_on n id (c.engines n) then record c { begun = (n, id) ∷ c.begun } else c

  abbrev pub stop : ℕ → String → Cluster → Cluster
  stop n id c = record c { begun = without n id c.begun }

  abbrev pub await : ℕ → String → Cluster → Cluster
  await n id c = record c { begun = without n id c.begun; waiting = (n, id) ∷ c.waiting }

  abbrev pub registered : ℕ → String → Cluster → Cluster
  registered n id c = if is_master (view n) then happens n (local_registered id) c else c

  abbrev pub unwait : ℕ → String → Cluster → Cluster
  unwait n id c = record c { waiting = without n id c.waiting }

  -- The `select` of a request that waits ends by a value in its channel only if there is one.
  abbrev pub may_end : ℕ → String → Outcome → Cluster → Bool
  may_end n id granted c = named n id c.waiting && flag (lookup id (c.engines n).chans)
  may_end n id _ c = named n id c.waiting

  -- `ch` has a value, which the `select` takes.
  abbrev pub take_grant : ℕ → String → Cluster → Cluster
  take_grant n id c =
      let c' = happens n (ended n id granted) c in record c' { inside = (n, id) ∷ c'.inside }

  -- A move that is not possible changes nothing.
  unfoldable pub advance : Move → Cluster → Cluster
  advance (ask n id) c = happens n (asked n id) (begin n id c)
  advance (register n id) c = if named n id c.begun then registered n id (await n id c) else c
  advance (unsent n id) c =
      if named n id c.begun && not (is_master (view n))
      then happens n (remote_unsent id) (stop n id c)
      else c
  advance (finish n id granted) c =
      if may_end n id granted c then take_grant n id (unwait n id c) else c
  advance (finish n id timed_out) c =
      if may_end n id timed_out c then happens n (ended n id timed_out) (unwait n id c) else c
  advance (finish n id cancelled) c =
      if named n id c.waiting && not (is_master (view n))
      then happens n (ended n id cancelled) (unwait n id c)
      else c
  advance (give_back i) c = leave (pick i c.inside) c
  advance (lose i) c = lost (pick i c.flight) c
  advance (deliver i id at) c = delivered id at (pick i c.flight) c

  unfoldable pub run : List Move → Cluster → Cluster
  run [] c = c
  run (m ∷ ms) c = run ms (advance m c)
