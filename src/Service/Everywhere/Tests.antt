-- ===== src/Service/Everywhere/Tests.antt =====
-- Instances of the theorems: a user is added in the cluster of four.
use node_messager.Base.{
  ℕ, String, ◌≡◌, refl, Bool, true, false, none, some, ◌==◌, nat_eq, All, ◌&&◌, if◌then◌else◌,
}
use node_messager.Base.Dict.{lookup, insert, delete}
use node_messager.Base.Retry.{ok, err}
use node_messager.Dto.{Codec, ProposePayload, VotePayload, CommitPayload}
use node_messager.NodeState.{new, alive_peers, is_alive, mark_all, node_by_name}
use node_messager.Fixtures.{s1, view}
use node_messager.Db.{empty, insert_usuario}
use node_messager.Commit.{Codecs, Context}
use node_messager.Consensus
use node_messager.Consensus.Propose.{timed_out}
use node_messager.Consensus.Network.{Course}
use node_messager.Consensus.Apart.{AreApart}
use node_messager.Consensus.Agreement.{Knows}
use node_messager.Service.Adding.{new_usuario}
use node_messager.Service.Everywhere.{
  Surroundings, accepted, refusal, add_usuario_everywhere, add_usuario_everywhere_lem,
}

-- The texts of the messages, and of the users in them.
data Text : Type 0 where
  user : ℕ → String → ℕ → Text
  voted : String → Text
  proposed committed : String → String → Text → Text
  other : Text

-- A payload that is not used here.
abbrev unused : {P : Type 0} → Codec Text P
unused = record { marshal = λ p. other; unmarshal = λ t. none }

abbrev json : Codecs Text
json = record {
  usuario = record {
    marshal = λ r. user r.id r.nombre r.sucursal_id;
    unmarshal = λ t. elim t [
      | user id nombre sucursal_id ↦
          some (record { id = id; nombre = nombre; sucursal_id = sucursal_id })
      | _ ↦ none
    ];
  };
  ingeniero = unused;
  dispositivo = unused;
  ticket = unused;
  folio = unused;
  close = unused;
}

abbrev votes : Codec Text VotePayload
votes = record {
  marshal = λ p. voted p.round_id;
  unmarshal = λ t. elim t [ voted id ↦ some (record { round_id = id }) | _ ↦ none ];
}

abbrev proposals : Codec Text (ProposePayload Text)
proposals = record {
  marshal = λ p. proposed p.round_id p.operation p.body;
  unmarshal = λ t. elim t [
    | proposed id operation body ↦
        some (record { round_id = id; operation = operation; body = body })
    | _ ↦ none
  ];
}

abbrev commits : Codec Text (CommitPayload Text)
commits = record {
  marshal = λ p. committed p.round_id p.operation p.body;
  unmarshal = λ t. elim t [
    | committed id operation body ↦
        some (record { round_id = id; operation = operation; body = body })
    | _ ↦ none
  ];
}

abbrev context : Context
context = record { now = "t"; first = none; second = none; bad_json = "bad json" }

-- Nodes 2 and 3 vote, and COMMIT reaches node 2.
abbrev course : Course
course = record {
  round_id = "r";
  early = λ p. p.id == 2;
  late = λ p. p.id == 3;
  told = λ p. p.id == 2;
  interrupt = timed_out;
  uuid = "m";
  now = "t";
}

peers_AreApart : AreApart (alive_peers (view 1))
unfolding new alive_peers is_alive mark_all lookup insert delete
peers_AreApart = (refl, (refl, (refl, tt)))

peers_know : All (Knows view 1) (alive_peers (view 1))
unfolding new alive_peers is_alive mark_all lookup insert delete node_by_name
peers_know = ((s1, refl, refl), ((s1, refl, refl), ((s1, refl, refl), tt)))

itself : (k : ℕ) → (view k).self.id ≡ k
unfolding new
itself k = refl

-- No vote comes back.
abbrev silence : Course
silence = record course { early = λ p. false; late = λ p. false }

-- The second attempt is the one that succeeds.
abbrev surroundings : ℕ → Surroundings Text
surroundings i = record { course = if i == 1 then silence else course; engine = Consensus.new }

abbrev go_on : ℕ → Bool
go_on i = false

add_usuario_everywhere_lem_example :
    let p =
      add_usuario_everywhere json votes proposals commits view
        (λ k. context)
        surroundings
        go_on
        1
        "Eva"
        8
        (λ k. empty) in
    let b = accepted json votes proposals commits view (λ k. context) surroundings go_on 1 3 1 in
    ((k : ℕ)
      → p.0 k ≡ (
          if b && k == 1
          then (insert_usuario (new_usuario (view 1).self "Eva" 8).id "Eva" 1 none empty).0
          else empty))
    × (p.1 ≡ (
        if b
        then ok tt
        else err
            (refusal json votes proposals commits view (λ k. context) surroundings go_on 1 3 1)))
unfolding new
add_usuario_everywhere_lem_example =
    add_usuario_everywhere_lem json votes proposals commits view (λ k. context) surroundings go_on 1
      "Eva" 8 (λ k. empty) (λ p. refl) (λ p. refl) (λ p. refl) (λ p. refl) itself peers_AreApart
      peers_know refl

-- Two votes come back in the second attempt, which is enough.
is_accepted :
    accepted json votes proposals commits view (λ k. context) surroundings go_on 1 3 1 ≡ true
unfolding new alive_peers is_alive mark_all lookup insert delete Consensus.quorum
is_accepted = refl
