-- ===== src/Consensus/Rounds.antt =====
-- What votes do to a round.
use node_messager.Base.{
  ℕ, ◌+◌, String, ◌≡◌, inl, inr, Bool, true, false, ◌&&◌, Option, none, some, List, [], ◌∷◌, arith,
  ◌==◌, string_eq, leb, if◌then◌else◌, Bool-cases, Option-cases, eq_of_==,
}
use node_messager.Base.Dict.{lookup, lookup-insert}
use node_messager.Dto.{Message, MessageType, Codec, VotePayload}
use node_messager.Consensus.{Round, Engine, is_yes, count_vote, on_vote, handle_vote}
use node_messager.Consensus.Propose.{deliver}

abbrev pub weight : Bool → ℕ
weight true = 1
weight false = 0

module _ {Raw : Type 0} where
  -- The channel holds "committed" exactly if a quorum has voted yes; "not committed" is never sent.
  abbrev pub IsExact : Round Raw → Type 0
  IsExact r = r.done ≡ (if leb r.needed r.yes_votes then some true else none)

  -- `s` is `r` with `k` more yes votes.
  pub record Gains (k : ℕ) (r s : Round Raw) : Type 0 where
    pub needed : s.needed ≡ r.needed
    pub yes_votes : s.yes_votes ≡ r.yes_votes + k
    pub exact : IsExact s

  count_vote-Gains :
      (t : MessageType) (r : Round Raw) → IsExact r → Gains (weight (is_yes t)) r (count_vote t r)
  unfolding count_vote
  count_vote-Gains t r h = ground arith

module _ {Raw : Type 0} (json : Codec Raw VotePayload) (id : String) where
  -- Is the message a yes vote for the round?
  abbrev pub yes_for : MessageType → Option VotePayload → Bool
  yes_for t none = false
  yes_for t (some p) = (p.round_id == id) && is_yes t

  abbrev pub count_yes : List (Message Raw) → ℕ
  count_yes [] = 0
  count_yes (m ∷ ms) = weight (yes_for m.type (json.unmarshal m.content)) + count_yes ms

  abbrev pub Has : Engine Raw → Round Raw → Type 0
  Has e r = lookup id e.rounds ≡ some r

  -- What a step gives the round: it is still there, with `k` more yes votes.
  abbrev pub Gives : ℕ → Round Raw → Engine Raw → Type 0
  Gives k r e = (s : Round Raw) × Has e s × Gains k r s

  on_vote-Gives :
      (t : MessageType) (p : VotePayload) (e : Engine Raw) (r : Round Raw)
      → Has e r
      → IsExact r
      → Gives (weight (yes_for t (some p))) r (on_vote t p e)
  unfolding on_vote
  on_vote-Gives t p e r h x = elim (Bool-cases (p.round_id == id)) [
    | inl same ↦
        let q : lookup p.round_id e.rounds ≡ some r = rw (eq_of_== p.round_id id same) h in
        let found : lookup id (on_vote t p e).rounds ≡ some (count_vote t r) =
          rw (q, on_vote) (rw (lookup-insert p.round_id id (count_vote t r) e.rounds, same)) in
        (count_vote t r, found, rw same (count_vote-Gains t r x))
    | inr other ↦ elim (Option-cases (lookup p.round_id e.rounds)) [
      | inl q ↦ (r, rw (q, on_vote) h, ground arith)
      | inr (r', q) ↦
          let kept : lookup id (on_vote t p e).rounds ≡ some r =
            rw (q, on_vote)
              (rw (lookup-insert p.round_id id (count_vote t r') e.rounds, other) h) in
          (r, kept, ground arith)
    ]
  ]

  handle_vote-Gives :
      (m : Message Raw) (e : Engine Raw) (r : Round Raw)
      → Has e r
      → IsExact r
      → Gives (weight (yes_for m.type (json.unmarshal m.content))) r (handle_vote json m e)
  unfolding handle_vote
  handle_vote-Gives m e r h x = elim (Option-cases (json.unmarshal m.content)) [
    | inl q ↦ rw (q, handle_vote) (r, h, ground arith)
    | inr (p, q) ↦ rw (q, handle_vote) (on_vote-Gives m.type p e r h x)
  ]

  -- Delivering messages adds their yes votes for the round, and keeps its channel exact.
  pub deliver-Gives :
      (ms : List (Message Raw)) (e : Engine Raw) (r : Round Raw)
      → Has e r
      → IsExact r
      → Gives (count_yes ms) r (deliver json ms e)
  deliver-Gives [] e r h x = (r, h, ground arith)
  deliver-Gives (m ∷ ms) e r h x =
      let (s, hs, g) = handle_vote-Gives m e r h x in
      let (u, hu, k) = deliver-Gives ms (handle_vote json m e) s hs g.exact in (u, hu, ground arith)
