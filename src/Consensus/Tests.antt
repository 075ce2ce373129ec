-- ===== src/Consensus/Tests.antt =====
-- Instances of the theorems, and runs.
use node_messager.Base.{
  ℕ, ◌+◌, ◌≤◌, String, ◌≡◌, refl, Bool, true, false, Option, none, some, List, [], ◌∷◌, arith, ltb,
  In, string_eq,
}
use node_messager.Base.Dict.{lookup, insert, delete}
use node_messager.Base.Retry.{ok, retry}
use node_messager.Dto.{Node, Message, Codec, vote_yes, VotePayload}
use node_messager.NodeState.{new}
use node_messager.Fixtures.{view, s1, s2, s3, s4, cluster, started, message}
use node_messager.Consensus.{
  Engine, quorum, open_round, self_vote, handle_vote, close_round, do_commit,
}
use node_messager.Consensus
use node_messager.Consensus.Propose.{Interrupt, timed_out, Script, propose_once, propose_all}
use node_messager.Consensus.Majority.{Expected, propose_once-Expected, propose_all-majority}
use node_messager.Consensus.Rounds.{count_yes}
use node_messager.Base.{not, ◌&&◌, ◌||◌, ◌==◌, nat_eq, if◌then◌else◌, select, All}
use node_messager.Base.Retry.{Result, err}
use node_messager.Dto.{ProposePayload, CommitPayload}
use node_messager.NodeState.{alive_peers, is_alive, mark_all, node_by_name}
use node_messager.Consensus.{handle_propose, handle_commit}
use node_messager.Consensus.Propose.{interrupted}
use node_messager.Consensus.Network.{Course, proposal, answer, tell}
use node_messager.Consensus.Apart.{has_id, AreApart}
use node_messager.Consensus.Agreement.{Knows, enough, proposal-applies}
use node_messager.Consensus.Quorum.{quorum-overlap}

abbrev below_four : Node → Bool
below_four n = ltb n.id 4

abbrev above_one : Node → Bool
above_one n = ltb 1 n.id

quorum-overlap_example : (n : Node) × In n cluster × (below_four n ≡ true) × (above_one n ≡ true)
unfolding quorum
quorum-overlap_example =
    quorum-overlap cluster below_four above_one (omega arith) (omega arith) (omega arith)

-- Votes for round `id`, as texts: the content is the round's name.
abbrev vote_json : Codec String VotePayload
vote_json = record { marshal = λ p. p.round_id; unmarshal = λ id. some (record { round_id = id }) }

-- Data that records the operations applied.
abbrev journal : String → String → List String → List String × Option String
journal operation body d = (operation ∷ d, none)

abbrev votes : List Node → List (Message String)
votes [] = []
votes (n ∷ ns) = message vote_yes n "r" ∷ votes ns

abbrev script : List Node → Script String
script ns = record { round_id = "r"; early = []; late = votes ns; interrupt = timed_out }

abbrev attempt :
    List Node → Consensus.Propose.Ended {Raw = String} {D = List String} vote_json journal
attempt ns =
    propose_once vote_json journal (started s1) "INSERT_USUARIO" "u" (script ns) Consensus.new []

propose_once-Expected_example :
    Expected vote_json journal
      (started s1)
      "INSERT_USUARIO"
      "u"
      (script (s2 ∷ s3 ∷ []))
      []
      true
      (attempt (s2 ∷ s3 ∷ []))
unfolding quorum new
propose_once-Expected_example =
    propose_once-Expected vote_json journal (started s1) "INSERT_USUARIO" "u"
      (script (s2 ∷ s3 ∷ [])) Consensus.new []

-- Two votes and its own make three of four; one vote and its own do not.
three_of_four : (attempt (s2 ∷ s3 ∷ [])).0.1 ≡ "INSERT_USUARIO" ∷ []
unfolding propose_once open_round self_vote handle_vote close_round do_commit quorum lookup insert
    delete new Consensus.new
three_of_four = refl

two_of_four : (attempt (s2 ∷ [])).0.1 ≡ []
unfolding propose_once open_round self_vote handle_vote close_round do_commit quorum lookup insert
    delete new Consensus.new
two_of_four = refl

abbrev attempts : ℕ → Script String
attempts n = script (s2 ∷ s3 ∷ s4 ∷ [])

propose_all_ok :
    (propose_all vote_json journal
      (started s1)
      "INSERT_USUARIO"
      "u"
      attempts
      (λ n. false)
      Consensus.new
      []).1
    ≡ ok tt
unfolding propose_all retry open_round self_vote handle_vote close_round do_commit quorum lookup
    insert delete new Consensus.new
propose_all_ok = refl

propose_all-majority_example :
    (n : ℕ) × (1 ≤ n)
    × (n ≤ 3)
    × (quorum 4
        ≤ 1 + count_yes vote_json "r" [] + count_yes vote_json "r" (votes (s2 ∷ s3 ∷ s4 ∷ [])))
unfolding new
propose_all-majority_example =
    propose_all-majority vote_json journal (started s1) "INSERT_USUARIO" "u" attempts (λ n. false)
      Consensus.new [] propose_all_ok

-- A proposal in the cluster of four: the vote of node 2 comes early, that of node 3 late, the one of
-- node 4 is lost, and COMMIT reaches nodes 2 and 4.
abbrev course : Course
course = record {
  round_id = "r";
  early = λ p. p.id == 2;
  late = λ p. p.id == 3;
  told = λ p. not (p.id == 3);
  interrupt = timed_out;
  uuid = "m";
  now = "t";
}

-- The texts of the messages.
data Text : Type 0 where
  word voted : String → Text
  proposed committed : String → String → Text → Text

abbrev votes_json : Codec Text VotePayload
votes_json = record {
  marshal = λ p. voted p.round_id;
  unmarshal = λ t. elim t [ voted id ↦ some (record { round_id = id }) | _ ↦ none ];
}

abbrev proposals_json : Codec Text (ProposePayload Text)
proposals_json = record {
  marshal = λ p. proposed p.round_id p.operation p.body;
  unmarshal = λ t. elim t [
    | proposed id operation body ↦
        some (record { round_id = id; operation = operation; body = body })
    | _ ↦ none
  ];
}

abbrev commits_json : Codec Text (CommitPayload Text)
commits_json = record {
  marshal = λ p. committed p.round_id p.operation p.body;
  unmarshal = λ t. elim t [
    | committed id operation body ↦
        some (record { round_id = id; operation = operation; body = body })
    | _ ↦ none
  ];
}

abbrev journals : ℕ → String → Text → List String → List String × Option String
journals n operation body d = (operation ∷ d, none)

abbrev fleet : (ℕ → List String) × Result Consensus.Error (Unit {0})
fleet =
    proposal votes_json proposals_json commits_json journals view course 1 "CLOSE_TICKET" (word "t")
      Consensus.new (λ n. [])

peers_AreApart : AreApart (alive_peers (view 1))
unfolding new alive_peers is_alive mark_all lookup insert delete
peers_AreApart = (refl, (refl, (refl, tt)))

peers_know : All (Knows view 1) (alive_peers (view 1))
unfolding new alive_peers is_alive mark_all lookup insert delete node_by_name
peers_know = ((s1, refl, refl), ((s1, refl, refl), ((s1, refl, refl), tt)))

proposal-applies_example :
    ((k : ℕ)
      → fleet.0 k ≡ (
          if enough view course 1
            && (k == 1 || has_id k (select course.told (alive_peers (view 1))))
          then "CLOSE_TICKET" ∷ []
          else []))
    × (fleet.1 ≡ (if enough view course 1 then ok tt else err (interrupted timed_out)))
unfolding new
proposal-applies_example =
    proposal-applies votes_json proposals_json commits_json journals view (λ p. refl) (λ p. refl)
      (λ p. refl) course 1 "CLOSE_TICKET" (word "t") Consensus.new (λ n. []) refl peers_AreApart
      peers_know

-- Three of four nodes vote: the proposer and the nodes that hear of the commit have the operation.
fleet_run :
    fleet.0 1 ∷ fleet.0 2 ∷ fleet.0 3 ∷ fleet.0 4 ∷ []
    ≡ ("CLOSE_TICKET" ∷ []) ∷ ("CLOSE_TICKET" ∷ []) ∷ [] ∷ ("CLOSE_TICKET" ∷ []) ∷ []
unfolding proposal propose_once open_round self_vote handle_vote close_round do_commit
    handle_propose handle_commit answer tell quorum lookup insert delete new Consensus.new
    alive_peers is_alive mark_all node_by_name
fleet_run = refl
