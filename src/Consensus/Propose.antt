-- ===== src/Consensus/Propose.antt =====
-- `propose` and `Propose` as a whole, over what happens meanwhile: the votes that arrive before and
-- after the proposer's own vote, and what ends the wait if no result does.
use node_messager.Base.{
  ℕ, String, Bool, true, false, Option, none, some, List, [], ◌∷◌, if◌then◌else◌, string_eq,
}
use node_messager.Base.Dict.{lookup}
use node_messager.Base.Retry.{Result, err, retry}
use node_messager.Dto.{Message, Codec, VotePayload, CommitPayload}
use node_messager.NodeState.{State, alive_peers}
use node_messager.Consensus.{
  Engine, Error, no_quorum, timeout, cancelled, Broadcast, open_round, or_round, self_vote,
  handle_vote, close_round, do_commit,
}

pub data Interrupt : Type 0 where
  timed_out context_done : Interrupt

abbrev pub interrupted : Interrupt → Error
interrupted timed_out = timeout
interrupted context_done = cancelled

-- One attempt's surroundings.
pub record Script (Raw : Type 0) : Type 0 where
  pub round_id : String
  pub early : List (Message Raw)
  pub late : List (Message Raw)
  pub interrupt : Interrupt

module _ {Raw : Type 0} where
  abbrev pub deliver : Codec Raw VotePayload → List (Message Raw) → Engine Raw → Engine Raw
  deliver json [] e = e
  deliver json (m ∷ ms) e = deliver json ms (handle_vote json m e)

  -- What the channel of round `id` holds.
  abbrev pub outcome : String → Engine Raw → Option Bool
  outcome id e = or_round (lookup id e.rounds) none (λ r. r.done)

module _ {Raw D : Type 0} (json : Codec Raw VotePayload)
    (handler : String → Raw → D → D × Option String) where
  -- Engine and data; whether PROPOSE was followed by COMMIT; the result.
  abbrev pub Ended : Type 0
  Ended = (Engine Raw × D) × Option (Broadcast (CommitPayload Raw)) × Result Error (Unit {0})

  abbrev pub commit_and_close : State → String → String → Raw → Engine Raw → D → Ended
  commit_and_close st id operation body e d =
      let (d', r, b) = do_commit handler (alive_peers st) id operation body d in
      ((close_round id e, d'), some b, r)

  abbrev pub fail_and_close : String → Error → Engine Raw → D → Ended
  fail_and_close id x e d = ((close_round id e, d), none, err x)

  abbrev pub conclude :
      State → String → String → Raw → Interrupt → Option Bool → Engine Raw → D → Ended
  conclude st id operation body i (some true) e d = commit_and_close st id operation body e d
  conclude st id operation body i (some false) e d = fail_and_close id no_quorum e d
  conclude st id operation body i none e d = fail_and_close id (interrupted i) e d

  unfoldable pub propose_once : State → String → Raw → Script Raw → Engine Raw → D → Ended
  propose_once st operation body s e d =
      let e1 = deliver json s.early (open_round st s.round_id operation body e).0 in
      let e2 = (self_vote s.round_id e1).0 in
      let e3 = deliver json s.late e2 in
      if (self_vote s.round_id e1).1
      then commit_and_close st s.round_id operation body e2 d
      else conclude st s.round_id operation body s.interrupt (outcome s.round_id e3) e3 d

  -- `Propose`: three attempts at most. `scripts n` is what attempt `n` meets and `stop n` whether
  -- the context ends during the wait behind it.
  unfoldable pub propose_all :
      State
      → String
      → Raw
      → (ℕ → Script Raw)
      → (ℕ → Bool)
      → Engine Raw
      → D
      → (Engine Raw × D) × Result Error (Unit {0})
  unfolding propose_once
  propose_all st operation body scripts stop e d =
      retry (λ n (e, d). let r = propose_once st operation body (scripts n) e d in (r.0, r.2))
        (λ n. if stop n then some cancelled else none) 3 1 no_quorum (e, d)
