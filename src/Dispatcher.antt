-- ===== src/Dispatcher.antt =====
-- internal/dispatcher/dispatcher.go: one node with all its components, and the way of a message to
-- the handler of its type.
pub mod Keeps
pub mod Sound
mod Tests
use node_messager.Base.{
  ℕ, String, Bool, true, false, Option, none, some, List, [], ◌∷◌, map, if◌then◌else◌,
}
use node_messager.Dto.{
  Node, Message, MessageType, Codec, Outgoing, ProposePayload, VotePayload, CommitPayload,
  LockPayload, ElectionPayload, CoordinatorPayload, NodeDeadPayload, QueryPayload,
  QueryResponsePayload, AddDevicePayload,
}
use node_messager.NodeState.{State, is_master}
use node_messager.Db.{Db, Answer}
use node_messager.Mutex
use node_messager.Consensus
use node_messager.Election
use node_messager.Heartbeat.{Monitor, handle_ping, handle_pong}
use node_messager.Commit.{Codecs, Context, commit_handler}
use node_messager.Service.Rows.{RowCodecs}
use node_messager.Service.Answering.{Waits, handle_query, handle_query_response}
use node_messager.Service.Devices.{handle_add_device}

pub record Running (Raw : Type 0) : Type 0 where
  pub state : State
  pub lock : Mutex.Engine
  pub rounds : Consensus.Engine Raw
  pub contest : Election.Engine
  pub monitor : Monitor
  pub waits : Waits Raw
  pub tables : Db

-- What a node sends, and what it starts in a goroutine.
pub data Effect (Raw : Type 0) : Type 0 where
  pong_to : Node → Effect Raw
  vote : Outgoing VotePayload → Effect Raw
  of_lock : Mutex.Effect → Effect Raw
  of_election : Election.Effect → Effect Raw
  start_election : Effect Raw
  respond : Outgoing (QueryResponsePayload Raw) → Effect Raw
  distribute : AddDevicePayload → Effect Raw
  redistribute : ℕ → Effect Raw

-- encoding/json at the payloads.
pub record Json (Raw : Type 0) : Type 0 where
  pub propose : Codec Raw (ProposePayload Raw)
  pub vote : Codec Raw VotePayload
  pub commit : Codec Raw (CommitPayload Raw)
  pub lock : Codec Raw LockPayload
  pub election : Codec Raw ElectionPayload
  pub coordinator : Codec Raw CoordinatorPayload
  pub query : Codec Raw QueryPayload
  pub query_response : Codec Raw (QueryResponsePayload Raw)
  pub rows : RowCodecs Raw
  pub add_device : Codec Raw AddDevicePayload
  pub node_dead : Codec Raw NodeDeadPayload
  pub operations : Codecs Raw

-- A message, with what the database answers while it is handled.
pub record Arrival (Raw : Type 0) : Type 0 where
  pub message : Message Raw
  pub select_error : Answer
  pub context : Context

abbrev pub Dispatched : Type 0 → Type 0
Dispatched Raw = Running Raw × List (Effect Raw)

module _ {Raw : Type 0} (json : Json Raw) where
  abbrev pub on_lock :
      (Mutex.Engine → Mutex.Engine × List Mutex.Effect) → Running Raw → Dispatched Raw
  on_lock f n = let (e, out) = f n.lock in (record n { lock = e }, map of_lock out)

  abbrev pub on_challenge : List Election.Effect × Bool → Running Raw → Dispatched Raw
  on_challenge (out, true) n = (n, start_election ∷ map of_election out)
  on_challenge (out, false) n = (n, map of_election out)

  abbrev pub on_device : Option AddDevicePayload → Running Raw → Dispatched Raw
  on_device none n = (n, [])
  on_device (some p) n = (n, distribute p ∷ [])

  abbrev pub on_death : Bool → Option NodeDeadPayload → Running Raw → Dispatched Raw
  on_death true (some p) n = (n, redistribute p.dead_node_id ∷ [])
  on_death _ _ n = (n, [])

  -- The `switch`.
  unfoldable pub handle : MessageType → Arrival Raw → Running Raw → Dispatched Raw
  handle MessageType.ping a n = (n, map pong_to (handle_ping n.state a.message))
  handle MessageType.pong a n = (record n { monitor = handle_pong n.state a.message n.monitor }, [])
  handle MessageType.propose a n =
      (n, map vote (Consensus.handle_propose json.propose n.state a.message))
  handle MessageType.vote_yes a n =
      (record n { rounds = Consensus.handle_vote json.vote a.message n.rounds }, [])
  handle MessageType.vote_no a n =
      (record n { rounds = Consensus.handle_vote json.vote a.message n.rounds }, [])
  handle MessageType.commit a n = (
    record n {
      tables =
          Consensus.handle_commit (commit_handler json.operations n.state.self a.context)
            json.commit a.message n.tables;
    },
    [],
  )
  handle MessageType.lock_request a n =
      on_lock (Mutex.handle_lock_request json.lock n.state a.message) n
  handle MessageType.lock_grant a n = on_lock (Mutex.handle_lock_grant json.lock a.message) n
  handle MessageType.lock_deny a n = on_lock (Mutex.handle_lock_deny json.lock a.message) n
  handle MessageType.lock_release a n =
      on_lock (Mutex.handle_lock_release json.lock n.state a.message) n
  handle MessageType.election a n =
      on_challenge (Election.handle_election json.election n.state a.message) n
  handle MessageType.election_ok a n =
      (record n { contest = Election.handle_election_ok n.contest }, [])
  handle MessageType.coordinator a n =
      (record n { state = Election.handle_coordinator json.coordinator a.message n.state }, [])
  handle MessageType.query a n = (
    n,
    map respond (
        handle_query json.query json.query_response json.rows n.state a.select_error n.tables
          a.message),
  )
  handle MessageType.query_response a n = (
    record n {
      waits = handle_query_response json.query json.query_response json.rows a.message n.waits;
    },
    [],
  )
  handle MessageType.add_device a n =
      on_device (handle_add_device json.add_device n.state a.message) n
  handle MessageType.node_dead a n =
      on_death (is_master n.state) (json.node_dead.unmarshal a.message.content) n
  handle _ a n = (n, [])

  unfoldable pub dispatch : Arrival Raw → Running Raw → Dispatched Raw
  unfolding handle
  dispatch a n = handle a.message.type a n
