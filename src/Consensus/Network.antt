-- ===== src/Consensus/Network.antt =====
-- One attempt to propose, with all the nodes of the cluster: PROPOSE, the votes and COMMIT travel
-- as messages, of which some are lost. `view n` is what the node with id `n` knows.
use node_messager.Base.{
  ℕ, String, Bool, not, ◌&&◌, Option, none, some, List, [], ◌∷◌, ◌++◌, ◌==◌, nat_eq, if◌then◌else◌,
  select,
}
use node_messager.Base.Retry.{Result}
use node_messager.Dto.{
  Node, Message, MessageType, propose, commit, Codec, ProposePayload, VotePayload, CommitPayload,
  Outgoing,
}
use node_messager.NodeState.{State}
use node_messager.Consensus.{Engine, Error, Broadcast, open_round, handle_propose, handle_commit}
use node_messager.Consensus.Propose.{Interrupt, Script, propose_once}

-- What the network does with the messages of one attempt: whose vote comes back before the
-- proposer's own, whose after it, and whom COMMIT reaches. A peer whose PROPOSE or vote is lost is
-- in neither group.
pub record Course : Type 0 where
  pub round_id : String
  pub early : Node → Bool
  pub late : Node → Bool
  pub told : Node → Bool
  pub interrupt : Interrupt
  pub uuid : String
  pub now : String

abbrev pub comes_late : Course → Node → Bool
comes_late c p = not (c.early p) && c.late p

abbrev pub set : {D : Type 0} → ℕ → D → (ℕ → D) → ℕ → D
set n d all k = if k == n then d else all k

module _ {Raw D : Type 0} (votes : Codec Raw VotePayload)
    (proposals : Codec Raw (ProposePayload Raw)) (commits : Codec Raw (CommitPayload Raw))
    (handler : ℕ → String → Raw → D → D × Option String) (view : ℕ → State) where
  abbrev pub message_of : Course → State → Node → MessageType → Raw → Message Raw
  message_of c st to type content = record {
    id = c.uuid;
    type = type;
    from_node = st.self.name;
    to_node = to.name;
    content = content;
    send_at = c.now;
  }

  -- The votes among a peer's messages that go to the proposer `n`.
  abbrev pub votes_to : Course → ℕ → Node → List (Outgoing VotePayload) → List (Message Raw)
  votes_to c n peer [] = []
  votes_to c n peer (o ∷ os) =
      let rest = votes_to c n peer os in
      if o.to.id == n
      then message_of c (view peer.id) o.to o.type (votes.marshal o.payload) ∷ rest
      else rest

  -- PROPOSE arrives at a peer.
  unfoldable pub answer : Course → ℕ → ProposePayload Raw → Node → List (Message Raw)
  unfolding handle_propose
  answer c n p peer = votes_to c n peer (
      handle_propose proposals (view peer.id)
        (message_of c (view n) peer propose (proposals.marshal p)))

  abbrev pub answers : Course → ℕ → ProposePayload Raw → List Node → List (Message Raw)
  answers c n p [] = []
  answers c n p (peer ∷ peers) = answer c n p peer ++ answers c n p peers

  -- COMMIT arrives at these nodes, one after the other.
  unfoldable pub tell : Course → ℕ → CommitPayload Raw → List Node → (ℕ → D) → ℕ → D
  unfolding handle_commit
  tell c n p [] tables = tables
  tell c n p (peer ∷ peers) tables = tell c n p peers (
      set peer.id
        (handle_commit (handler peer.id) commits
          (message_of c (view n) peer commit (commits.marshal p)) (tables peer.id))
        tables)

  abbrev pub told_of : Course → ℕ → Option (Broadcast (CommitPayload Raw)) → (ℕ → D) → ℕ → D
  told_of c n none tables = tables
  told_of c n (some b) tables = tell c n b.payload (select c.told b.targets) tables

  abbrev pub script_of : Course → ℕ → Broadcast (ProposePayload Raw) → Script Raw
  script_of c n b = record {
    round_id = c.round_id;
    early = answers c n b.payload (select c.early b.targets);
    late = answers c n b.payload (select (comes_late c) b.targets);
    interrupt = c.interrupt;
  }

  -- The data of all the nodes after node `n` has proposed an operation, and what `propose` returns.
  unfoldable pub proposal :
      Course → ℕ → String → Raw → Engine Raw → (ℕ → D) → (ℕ → D) × Result Error (Unit {0})
  unfolding propose_once
  proposal c n operation body e tables =
      let sent = (open_round (view n) c.round_id operation body e).1 in
      let r =
        propose_once votes (handler n) (view n) operation body (script_of c n sent) e (tables n) in
      (told_of c n r.1 (set n r.0.1 tables), r.2)
