-- ===== src/Consensus.antt =====
-- internal/consensus/consensus.go: a proposal is broadcast, the votes for it are counted, and it is
-- committed on every node once a majority of the configured nodes has voted for it.
pub mod Rounds
pub mod Quorum
pub mod Propose
pub mod Majority
pub mod Network
pub mod Apart
pub mod Agreement
mod Tests
use node_messager.Base.{
  ℕ, zero, suc, ◌+◌, ◌/◌, String, Bool, true, false, Option, none, some, List, [], ◌∷◌, ◌==◌,
  string_eq, leb, ltb, if◌then◌else◌, length,
}
use node_messager.Base.Dict.{Dict, lookup, insert, delete}
use node_messager.Base.Retry.{Result, ok, err}
use node_messager.Dto.{
  Node, Message, MessageType, vote_yes, propose, commit, Codec, ProposePayload, VotePayload,
  CommitPayload, Outgoing,
}
use node_messager.NodeState.{State, alive_peers, node_by_name}

-- `done` is the channel of the round: `some c` when it holds a result with `committed = c`.
pub record Round (Raw : Type 0) : Type 0 where
  pub round_id : String
  pub operation : String
  pub body : Raw
  pub needed : ℕ
  pub yes_votes : ℕ
  pub no_votes : ℕ
  pub done : Option Bool

pub record Engine (Raw : Type 0) : Type 0 where
  pub rounds : Dict String (Round Raw)

unfoldable pub new : {Raw : Type 0} → Engine Raw
new = record { rounds = [] }

unfoldable pub quorum : ℕ → ℕ
quorum total = let needed = total / 2 + 1 in if ltb needed 1 then 1 else needed

pub data Error : Type 0 where
  no_quorum timeout cancelled : Error
  -- the commit handler's
  handler_failed : String → Error

-- A broadcast of one payload to several targets.
pub record Broadcast (P : Type 0) : Type 0 where
  pub targets : List Node
  pub type : MessageType
  pub payload : P

abbrev pub is_yes : MessageType → Bool
is_yes vote_yes = true
is_yes _ = false

-- A send to the channel of capacity 1 that gives up when it is full.
abbrev pub offer : Option Bool → Option Bool
offer none = some true
offer (some c) = some c

module _ {Raw : Type 0} where
  -- `propose` up to its broadcast: the new round stands in `rounds` while the votes come in.
  unfoldable pub open_round :
      State → String → String → Raw → Engine Raw → Engine Raw × Broadcast (ProposePayload Raw)
  open_round st id operation body e =
      let r : Round Raw = record {
        round_id = id;
        operation = operation;
        body = body;
        needed = quorum (length st.all);
        yes_votes = 0;
        no_votes = 0;
        done = none;
      } in
      (
        record { rounds = insert id r e.rounds },
        record {
          targets = alive_peers st;
          type = propose;
          payload = record { round_id = id; operation = operation; body = body };
        },
      )

  abbrev pub or_round : {A : Type 0} → Option (Round Raw) → A → (Round Raw → A) → A
  or_round none a f = a
  or_round (some r) a f = f r

  -- The vote of the proposer itself, which does not go through the channel.
  unfoldable pub self_vote : String → Engine Raw → Engine Raw × Bool
  self_vote id e =
      or_round (lookup id e.rounds) (e, false)
        λ r. (
          record { rounds = insert id (record r { yes_votes = r.yes_votes + 1 }) e.rounds },
          leb r.needed (r.yes_votes + 1),
        )

  unfoldable pub count_vote : MessageType → Round Raw → Round Raw
  count_vote t r =
      let counted =
        if is_yes t
        then record r { yes_votes = r.yes_votes + 1 }
        else record r { no_votes = r.no_votes + 1 } in
      if leb counted.needed counted.yes_votes
      then record counted { done = offer counted.done }
      else counted

  unfoldable pub on_vote : MessageType → VotePayload → Engine Raw → Engine Raw
  unfolding count_vote
  on_vote t p e =
      or_round (lookup p.round_id e.rounds) e
        λ r. record { rounds = insert p.round_id (count_vote t r) e.rounds }

  unfoldable pub handle_vote : Codec Raw VotePayload → Message Raw → Engine Raw → Engine Raw
  unfolding on_vote
  handle_vote json m e = elim (json.unmarshal m.content) [ none ↦ e | some p ↦ on_vote m.type p e ]

  -- The deferred deletion.
  unfoldable pub close_round : String → Engine Raw → Engine Raw
  close_round id e = record { rounds = delete id e.rounds }

  -- Every node votes yes, if it knows the proposer.
  unfoldable pub handle_propose :
      Codec Raw (ProposePayload Raw) → State → Message Raw → List (Outgoing VotePayload)
  handle_propose json st m = elim (json.unmarshal m.content) [
    | none ↦ []
    | some p ↦ elim (node_by_name m.from_node st) [
      | none ↦ []
      | some proposer ↦
          record { to = proposer; type = vote_yes; payload = record { round_id = p.round_id } } ∷ []
    ]
  ]

-- `handler` applies an operation to the node's data `D`; an error is its message.
module _ {Raw D : Type 0} (handler : String → Raw → D → D × Option String) where
  abbrev pub to_result : Option String → Result Error (Unit {0})
  to_result none = ok tt
  to_result (some x) = err (handler_failed x)

  unfoldable pub do_commit :
      List Node
      → String
      → String
      → Raw
      → D
      → D × Result Error (Unit {0}) × Broadcast (CommitPayload Raw)
  do_commit targets id operation body d =
      let (d', x) = handler operation body d in
      (
        d',
        to_result x,
        record {
          targets = targets;
          type = commit;
          payload = record { round_id = id; operation = operation; body = body };
        },
      )

  unfoldable pub handle_commit : Codec Raw (CommitPayload Raw) → Message Raw → D → D
  handle_commit json m d = elim (json.unmarshal m.content) [
    | none ↦ d
    | some p ↦ (handler p.operation p.body d).0
  ]
