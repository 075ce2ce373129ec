-- ===== src/Dispatcher/Sound.antt =====
-- The invariant of a node under every message.
use node_messager.Base.{
  ◌≡◌, refl, sym, subst, ◌∙◌, Option, none, some, List, [], ◌∷◌, All, arith, inl, inr, Option-cases,
}
use node_messager.Dto.{
  Node, Message, MessageType, lock_request, Codec, CommitPayload, CoordinatorPayload, LockPayload,
}
use node_messager.NodeState.{State, set_master_id}
use node_messager.Db.{Db}
use node_messager.Mutex.Events.{got_request, got_grant, got_release, step}
use node_messager.Mutex.Moves.{IsQueued, IsNamed, join, leave}
use node_messager.Mutex.Queue.{decoded_move, step-Does}
use node_messager.Consensus.{handle_commit}
use node_messager.Election.{handle_coordinator}
use node_messager.Commit.{Codecs, Context, commit_handler}
use node_messager.Commit.Rows.{IsPlaced}
use node_messager.Commit.Placement.{commit_handler-IsPlaced}
use node_messager.Dispatcher.{Running, Json, Arrival, handle, dispatch}
use node_messager.Dispatcher.Keeps.{
  Part, state_part, lock_part, rounds_part, contest_part, monitor_part, waits_part, tables_part,
  no_part, owner, replace, dispatch-replace,
}

-- The node is still itself, in the same configuration; the lock's engine is well formed, and the
-- tables hold the node's rows alone.
pub record IsSound {Raw : Type 0} (self : Node) (all : List Node) (n : Running Raw) : Type 0 where
  pub is_self : n.state.self ≡ self
  pub same_nodes : n.state.all ≡ all
  pub queued : IsQueued n.lock
  pub placed : IsPlaced self.id n.tables

-- A lock request that arrives has an id.
abbrev pub IsNamedRequest : {Raw : Type 0} → Json Raw → Arrival Raw → Type 0
IsNamedRequest json a =
    a.message.type ≡ lock_request
    → IsNamed (decoded_move json.lock join (json.lock.unmarshal a.message.content))

handle_coordinator_keeps :
    {Raw : Type 0} (json : Codec Raw CoordinatorPayload) (m : Message Raw) (st : State)
    → ((handle_coordinator json m st).self ≡ st.self)
      × ((handle_coordinator json m st).all ≡ st.all)
unfolding handle_coordinator set_master_id
handle_coordinator_keeps json m st = (ground arith, ground arith)

handle_commit-IsPlaced :
    {Raw : Type 0} (json : Codec Raw (CommitPayload Raw)) (codecs : Codecs Raw) (self : Node)
    (c : Context) (m : Message Raw) (d : Db)
    → IsPlaced self.id d
    → IsPlaced self.id (handle_commit (commit_handler codecs self c) json m d)
unfolding handle_commit
handle_commit-IsPlaced json codecs self c m d h = elim (Option-cases (json.unmarshal m.content)) [
  | inl e ↦ rw (e, handle_commit) h
  | inr (p, e) ↦
      rw (e, handle_commit) (commit_handler-IsPlaced codecs self c p.operation p.body d h)
]

release-IsNamed :
    {Raw : Type 0} (json : Codec Raw LockPayload) (o : Option LockPayload)
    → IsNamed (decoded_move json leave o)
release-IsNamed json none = tt
release-IsNamed json (some p) = tt

module _ {Raw : Type 0} (json : Json Raw) (self : Node) (all : List Node) where
  -- What the component that has changed owes.
  abbrev Owes : Part → Running Raw → Type 0
  Owes state_part n = (n.state.self ≡ self) × (n.state.all ≡ all)
  Owes lock_part n = IsQueued n.lock
  Owes tables_part n = IsPlaced self.id n.tables
  Owes _ n = Unit

  replace-IsSound :
      (p : Part) (n' n : Running Raw)
      → IsSound self all n
      → Owes p n'
      → IsSound self all (replace p n' n)
  replace-IsSound state_part n' n s o = record {
    is_self = o.0;
    same_nodes = o.1;
    queued = s.queued;
    placed = s.placed;
  }
  replace-IsSound lock_part n' n s o = record {
    is_self = s.is_self;
    same_nodes = s.same_nodes;
    queued = o;
    placed = s.placed;
  }
  replace-IsSound tables_part n' n s o = record {
    is_self = s.is_self;
    same_nodes = s.same_nodes;
    queued = s.queued;
    placed = o;
  }
  replace-IsSound rounds_part n' n s o = record {
    is_self = s.is_self;
    same_nodes = s.same_nodes;
    queued = s.queued;
    placed = s.placed;
  }
  replace-IsSound contest_part n' n s o = record {
    is_self = s.is_self;
    same_nodes = s.same_nodes;
    queued = s.queued;
    placed = s.placed;
  }
  replace-IsSound monitor_part n' n s o = record {
    is_self = s.is_self;
    same_nodes = s.same_nodes;
    queued = s.queued;
    placed = s.placed;
  }
  replace-IsSound waits_part n' n s o = record {
    is_self = s.is_self;
    same_nodes = s.same_nodes;
    queued = s.queued;
    placed = s.placed;
  }
  replace-IsSound no_part n' n s o = s

  handle-Owes :
      (t : MessageType) (a : Arrival Raw) (n : Running Raw)
      → (t ≡ lock_request
          → IsNamed (decoded_move json.lock join (json.lock.unmarshal a.message.content)))
      → IsSound self all n
      → Owes (owner t) (handle json t a n).0
  unfolding handle step
  handle-Owes MessageType.lock_request a n k s =
      (step-Does json.lock (got_request n.state a.message) n.lock s.queued (k refl)).0
  handle-Owes MessageType.lock_grant a n k s =
      (step-Does json.lock (got_grant a.message) n.lock s.queued tt).0
  handle-Owes MessageType.lock_release a n k s =
      (step-Does json.lock (got_release n.state a.message) n.lock s.queued
        (release-IsNamed json.lock (json.lock.unmarshal a.message.content))).0
  handle-Owes MessageType.coordinator a n k s =
      let h = handle_coordinator_keeps json.coordinator a.message n.state in
      (h.0 ∙ s.is_self, h.1 ∙ s.same_nodes)
  handle-Owes MessageType.commit a n k s =
      subst (λ (i : Node). IsPlaced i.id (handle json MessageType.commit a n).0.tables) s.is_self
        (handle_commit-IsPlaced json.commit json.operations n.state.self a.context a.message
          n.tables (subst (λ (i : Node). IsPlaced i.id n.tables) (sym s.is_self) s.placed))
  handle-Owes _ a n k s = tt

  dispatch-IsSound :
      (a : Arrival Raw) (n : Running Raw)
      → IsNamedRequest json a
      → IsSound self all n
      → IsSound self all (dispatch json a n).0
  unfolding dispatch
  dispatch-IsSound a n k s = subst (IsSound self all) (sym (dispatch-replace json a n)) (
      replace-IsSound (owner a.message.type) (dispatch json a n).0 n s
        (handle-Owes a.message.type a n k s))

  -- The node after these messages, in the order in which they arrive.
  abbrev pub after : List (Arrival Raw) → Running Raw → Running Raw
  after [] n = n
  after (a ∷ ms) n = after ms (dispatch json a n).0

  -- Whatever messages a sound node handles, of known and unknown types, with contents that decode or
  -- do not, and however its database answers: the node stays itself in its configuration, its lock's
  -- engine stays well formed, and its tables keep their keys and hold its own rows alone. The lock
  -- requests among the messages have ids.
  pub after-IsSound :
      (ms : List (Arrival Raw)) (n : Running Raw)
      → All (IsNamedRequest json) ms
      → IsSound self all n
      → IsSound self all (after ms n)
  after-IsSound [] n k s = s
  after-IsSound (a ∷ ms) n k s =
      after-IsSound ms (dispatch json a n).0 k.1 (dispatch-IsSound a n k.0 s)
