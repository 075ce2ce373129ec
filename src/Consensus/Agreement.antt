-- ===== src/Consensus/Agreement.antt =====
-- What a proposal does to the data of all the nodes.
use node_messager.Base.{
  ℕ, ◌+◌, String, ◌≡◌, refl, subst, ◌∙◌, inl, inr, Bool, false, ◌&&◌, ◌||◌, Option, some, List, [],
  ◌∷◌, ◌++◌, ◌==◌, nat_eq, string_eq, ==_refl, ==_of_eq, eq_of_==, Bool-cases, if◌then◌else◌,
  select, length, leb, All, All-select, arith,
}
use node_messager.Dto.{
  Node, Message, propose, commit, vote_yes, Codec, IsFaithful, ProposePayload, VotePayload,
  CommitPayload,
}
use node_messager.Base.Retry.{err}
use node_messager.NodeState.{State, node_by_name, alive_peers}
use node_messager.Consensus.{Engine, quorum, open_round, handle_propose, handle_commit, to_result}
use node_messager.Consensus.Propose.{propose_once, interrupted}
use node_messager.Consensus.Rounds.{count_yes}
use node_messager.Consensus.Majority.{Expected, propose_once-Expected}
use node_messager.Consensus.Apart.{has_id, AreApart, has_id-select, AreApart-select, has_id-peers}
use node_messager.Consensus.Network.{
  Course, comes_late, set, message_of, answer, answers, tell, script_of, proposal,
}

-- A proposal that decodes, from a known proposer, is answered by a vote.
handle_propose_votes :
    {Raw : Type 0} (json : Codec Raw (ProposePayload Raw)) (st : State) (m : Message Raw)
    (p : ProposePayload Raw) (proposer : Node)
    → json.unmarshal m.content ≡ some p
    → node_by_name m.from_node st ≡ some proposer
    → handle_propose json st m
      ≡ record { to = proposer; type = vote_yes; payload = record { round_id = p.round_id } } ∷ []
unfolding handle_propose
handle_propose_votes json st m p proposer h q = rw (h, q, handle_propose) refl

handle_commit_applies :
    {Raw D : Type 0} (handler : String → Raw → D → D × Option String)
    (json : Codec Raw (CommitPayload Raw)) (m : Message Raw) (p : CommitPayload Raw) (d : D)
    → json.unmarshal m.content ≡ some p
    → handle_commit handler json m d ≡ (handler p.operation p.body d).0
unfolding handle_commit
handle_commit_applies handler json m p d h = rw (h, handle_commit) refl

module _ (view : ℕ → State) where
  -- A peer that finds the proposer under its name.
  abbrev pub Knows : ℕ → Node → Type 0
  Knows n peer =
      (proposer : Node) × (proposer.id ≡ n)
      × (node_by_name (view n).self.name (view peer.id) ≡ some proposer)

  -- The votes that come back, the proposer's own among them, are a quorum.
  abbrev pub enough : Course → ℕ → Bool
  enough c n = leb (quorum (length (view n).all)) (
      1
      + length (select c.early (alive_peers (view n)))
      + length (select (comes_late c) (alive_peers (view n))))

module _ {Raw D : Type 0} (votes : Codec Raw VotePayload)
    (proposals : Codec Raw (ProposePayload Raw)) (commits : Codec Raw (CommitPayload Raw))
    (handler : ℕ → String → Raw → D → D × Option String) (view : ℕ → State) (fv : IsFaithful votes)
    (fp : IsFaithful proposals) (fc : IsFaithful commits) where
  count_yes-append :
      (id : String) (xs ys : List (Message Raw))
      → count_yes votes id (xs ++ ys) ≡ count_yes votes id xs + count_yes votes id ys
  count_yes-append id [] ys = omega arith
  count_yes-append id (x ∷ xs) ys = omega (arith, count_yes-append id xs ys)

  answer-count_yes :
      (c : Course) (n : ℕ) (operation : String) (body : Raw) (peer : Node)
      → Knows view n peer
      → count_yes votes c.round_id (
          answer votes proposals commits handler view c n
            (record { round_id = c.round_id; operation = operation; body = body })
            peer)
        ≡ 1
  unfolding answer
  answer-count_yes c n operation body peer (proposer, i, q) =
      let p : ProposePayload Raw = record {
        round_id = c.round_id;
        operation = operation;
        body = body;
      } in
      rw
        (
          handle_propose_votes proposals (view peer.id)
              (message_of votes proposals commits handler view c (view n) peer propose
                (proposals.marshal p))
              p proposer (fp p) q,
          ==_of_eq proposer.id n i,
          fv (record { round_id = c.round_id }),
          ==_refl c.round_id,
        )
        refl

  answers-count_yes :
      (c : Course) (n : ℕ) (operation : String) (body : Raw) (ps : List Node)
      → All (Knows view n) ps
      → count_yes votes c.round_id (
          answers votes proposals commits handler view c n
            (record { round_id = c.round_id; operation = operation; body = body })
            ps)
        ≡ length ps
  answers-count_yes c n operation body [] h = refl
  answers-count_yes c n operation body (p ∷ ps) h =
      let mine =
        answer votes proposals commits handler view c n
          (record { round_id = c.round_id; operation = operation; body = body }) p in
      let others =
        answers votes proposals commits handler view c n
          (record { round_id = c.round_id; operation = operation; body = body }) ps in
      omega (
        arith,
        count_yes-append c.round_id mine others,
        answer-count_yes c n operation body p h.0,
        answers-count_yes c n operation body ps h.1,
      )

  set_one :
      (k : ℕ) (q : Node) (p : CommitPayload Raw) (ps : List Node) (tables : ℕ → D)
      → has_id q.id ps ≡ false
      → (if has_id k ps
          then (handler k p.operation p.body
              (set q.id (handler q.id p.operation p.body (tables q.id)).0 tables k)).0
          else set q.id (handler q.id p.operation p.body (tables q.id)).0 tables k)
        ≡ (if has_id k (q ∷ ps) then (handler k p.operation p.body (tables k)).0 else tables k)
  set_one k q p ps tables a = elim (Bool-cases (k == q.id)) [
    | inl t ↦ let e = eq_of_== k q.id t in rw (e, a, ==_refl q.id) refl
    | inr f ↦ rw f refl
  ]

  tell_one :
      (c : Course) (n : ℕ) (p : CommitPayload Raw) (ps : List Node) (tables : ℕ → D) (k : ℕ)
      → AreApart ps
      → tell votes proposals commits handler view c n p ps tables k
        ≡ (if has_id k ps then (handler k p.operation p.body (tables k)).0 else tables k)
  unfolding tell
  tell_one c n p [] tables k a = refl
  tell_one c n p (q ∷ ps) tables k a =
      let m =
        message_of votes proposals commits handler view c (view n) q commit (commits.marshal p) in
      let d : D = (handler q.id p.operation p.body (tables q.id)).0 in
      let ih = tell_one c n p ps (set q.id d tables) k a.1 in
      rw (handle_commit_applies (handler q.id) commits m p (tables q.id) (fc p))
        (ih ∙ set_one k q p ps tables a.0)

  attempted :
      (c : Course) (n : ℕ) (operation : String) (body : Raw) (e : Engine Raw) (tables : ℕ → D)
      → All (Knows view n) (alive_peers (view n))
      → Expected votes
          (handler n)
          (view n)
          operation
          body
          (script_of votes proposals commits handler view c n
            (open_round (view n) c.round_id operation body e).1)
          (tables n)
          (enough view c n)
          (propose_once votes
            (handler n)
            (view n)
            operation
            body
            (script_of votes proposals commits handler view c n
              (open_round (view n) c.round_id operation body e).1)
            e
            (tables n))
  unfolding open_round
  attempted c n operation body e tables known =
      let b = (open_round (view n) c.round_id operation body e).1 in
      let s = script_of votes proposals commits handler view c n b in
      let ps = alive_peers (view n) in
      let first =
        answers-count_yes c n operation body (select c.early ps)
          (All-select (Knows view n) c.early ps known) in
      let second =
        answers-count_yes c n operation body (select (comes_late c) ps)
          (All-select (Knows view n) (comes_late c) ps known) in
      rw (← first, ← second)
        (propose_once-Expected votes (handler n) (view n) operation body s e (tables n))

  own_same : (n : ℕ) (tables : ℕ → D) (k : ℕ) → set n (tables n) tables k ≡ tables k
  own_same n tables k = elim (Bool-cases (k == n)) [
    | inl t ↦ let e = eq_of_== k n t in rw (e, ==_refl n) refl
    | inr f ↦ rw f refl
  ]

  told_or_own :
      (c : Course) (n : ℕ) (operation : String) (body : Raw) (tables : ℕ → D) (k : ℕ)
      → (view n).self.id ≡ n
      → (if has_id k (select c.told (alive_peers (view n)))
          then (handler k operation body (set n (handler n operation body (tables n)).0 tables k)).0
          else set n (handler n operation body (tables n)).0 tables k)
        ≡ (if k == n || has_id k (select c.told (alive_peers (view n)))
            then (handler k operation body (tables k)).0
            else tables k)
  unfolding alive_peers
  told_or_own c n operation body tables k i = elim (Bool-cases (k == n)) [
    | inl t ↦
        let e = eq_of_== k n t in
        let out : has_id n (select c.told (alive_peers (view n))) ≡ false =
          has_id-select n c.told (alive_peers (view n)) (
            subst (λ j. has_id j (alive_peers (view n)) ≡ false) i
              (has_id-peers (view n) (view n).all)) in
        rw (e, out, ==_refl n) refl
    | inr f ↦ rw f refl
  ]

  -- One proposal in the whole cluster: if the peers whose votes come back make a quorum of the
  -- configured nodes together with the proposer, the proposer and every peer that COMMIT reaches
  -- have applied the operation once, each with its own handler, and no other node has; if they do
  -- not, no node has. The result is the proposer's handler's, or the error of the interrupt. The
  -- alive peers have distinct ids and know the proposer, and JSON decodes what it encodes.
  pub proposal-applies :
      (c : Course) (n : ℕ) (operation : String) (body : Raw) (e : Engine Raw) (tables : ℕ → D)
      → (view n).self.id ≡ n
      → AreApart (alive_peers (view n))
      → All (Knows view n) (alive_peers (view n))
      → ((k : ℕ)
          → (proposal votes proposals commits handler view c n operation body e tables).0 k ≡ (
              if enough view c n && (k == n || has_id k (select c.told (alive_peers (view n))))
              then (handler k operation body (tables k)).0
              else tables k))
        × ((proposal votes proposals commits handler view c n operation body e tables).1 ≡ (
            if enough view c n
            then to_result (handler n) (handler n operation body (tables n)).1
            else err (interrupted c.interrupt)))
  unfolding proposal open_round
  proposal-applies c n operation body e tables i apart known =
      let x = attempted c n operation body e tables known in
      elim (Bool-cases (enough view c n)) [
        | inl t ↦
            let y = rw t at x in
            (
              λ k.
                  rw (t, y.committed, y.applied)
                    (tell_one c n _ (select c.told (alive_peers (view n))) _ k
                        (AreApart-select c.told _ apart)
                      ∙ told_or_own c n operation body tables k i),
              rw t y.result,
            )
        | inr f ↦
            let y = rw f at x in
            (λ k. rw (f, y.committed, y.applied) (own_same n tables k), rw f y.result)
      ]
