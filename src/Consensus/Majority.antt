-- ===== src/Consensus/Majority.antt =====
-- What one proposal comes to.
use node_messager.Base.{
  ℕ, ◌+◌, ◌≤◌, String, ◌≡◌, refl, ◌∙◌, inl, inr, Bool, true, false, Option, none, some, arith,
  string_eq, leb, if◌then◌else◌, Bool-cases, length, ==_refl,
}
use node_messager.Base.Dict.{lookup, lookup-insert_self, lookup-delete}
use node_messager.Base.Retry.{ok, err, retry_ok}
use node_messager.Dto.{Codec, VotePayload, commit}
use node_messager.NodeState.{State, alive_peers}
use node_messager.Consensus.{
  Round, Engine, no_quorum, quorum, open_round, self_vote, close_round, do_commit, to_result,
}
use node_messager.Consensus.Propose.{
  interrupted, Script, deliver, outcome, Ended, conclude, commit_and_close, propose_once,
  propose_all,
}
use node_messager.Consensus.Rounds.{IsExact, Has, count_yes, deliver-Gives}

module _ {Raw D : Type 0} (json : Codec Raw VotePayload)
    (handler : String → Raw → D → D × Option String) where
  -- What an attempt should come to, given whether enough nodes voted for it.
  pub record Expected (st : State) (operation : String) (body : Raw) (s : Script Raw) (d : D)
      (enough : Bool) (r : Ended json handler) : Type 0 where
    pub committed : r.1 ≡ (
        if enough
        then some (record {
          targets = alive_peers st;
          type = commit;
          payload = record { round_id = s.round_id; operation = operation; body = body };
        })
        else none)
    pub applied : r.0.1 ≡ (if enough then (handler operation body d).0 else d)
    pub result : r.2 ≡ (
        if enough
        then to_result handler (handler operation body d).1
        else err (interrupted s.interrupt))
    pub closed : lookup s.round_id r.0.0.rounds ≡ none

  close_round-lookup : (id : String) (e : Engine Raw) → lookup id (close_round id e).rounds ≡ none
  unfolding close_round
  close_round-lookup id e = rw (lookup-delete id id e.rounds, ==_refl id)

  commit-Expected :
      (st : State) (operation : String) (body : Raw) (s : Script Raw) (d : D) (e : Engine Raw)
      → Expected st operation body s d true
          (commit_and_close json handler st s.round_id operation body e d)
  unfolding do_commit
  commit-Expected st operation body s d e = record {
    committed = refl;
    applied = refl;
    result = refl;
    closed = close_round-lookup s.round_id e;
  }

  conclude-Expected :
      (st : State) (operation : String) (body : Raw) (s : Script Raw) (d : D) (e : Engine Raw)
      (b : Bool)
      → Expected st operation body s d b (
          conclude json handler st s.round_id operation body s.interrupt
            (if b then some true else none)
            e
            d)
  conclude-Expected st operation body s d e true = commit-Expected st operation body s d e
  conclude-Expected st operation body s d e false = record {
    committed = refl;
    applied = refl;
    result = refl;
    closed = close_round-lookup s.round_id e;
  }

  -- The proposer's own vote, on a round that stands.
  self_vote_has :
      (id : String) (e : Engine Raw) (r : Round Raw)
      → Has json id e r
      → ((self_vote id e).1 ≡ leb r.needed (r.yes_votes + 1))
        × Has json id (self_vote id e).0 (record r { yes_votes = r.yes_votes + 1 })
  unfolding self_vote
  self_vote_has id e r h = (rw (h, self_vote), rw (h, self_vote) (lookup-insert_self id _ e.rounds))

  opened :
      (st : State) (id operation : String) (body : Raw) (e : Engine Raw)
      → (r : Round Raw) × Has json id (open_round st id operation body e).0 r
        × IsExact r
        × (r.needed ≡ quorum (length st.all))
        × (r.yes_votes ≡ 0)
  unfolding open_round quorum
  opened st id operation body e = (_, lookup-insert_self id _ e.rounds, ground arith, refl, refl)

  -- One attempt to propose: COMMIT is broadcast to the alive peers, and the operation applied here
  -- with the handler's result, exactly if the votes for the round that arrive in time make a quorum
  -- of the configured nodes together with the proposer's own; otherwise nothing is applied and the
  -- attempt fails by what interrupted the wait. Either way the round is gone afterwards.
  pub propose_once-Expected :
      (st : State) (operation : String) (body : Raw) (s : Script Raw) (e : Engine Raw) (d : D)
      → Expected st operation body s d
          (leb
            (quorum (length st.all))
            (1 + count_yes json s.round_id s.early + count_yes json s.round_id s.late))
          (propose_once json handler st operation body s e d)
  unfolding propose_once
  propose_once-Expected st operation body s e d =
      let id = s.round_id in
      let (r0, h0, x0, n0, y0) = opened st id operation body e in
      let (r1, h1, g1) =
        deliver-Gives json id s.early (open_round st id operation body e).0 r0 h0 x0 in
      let e1 = deliver json s.early (open_round st id operation body e).0 in
      let v = self_vote_has id e1 r1 h1 in
      elim (Bool-cases (leb r1.needed (r1.yes_votes + 1))) [
        | inl t ↦
            let q : leb (quorum (length st.all))
                  (1 + count_yes json id s.early + count_yes json id s.late)
                ≡ true =
              ground (arith, t, n0, y0, g1.needed, g1.yes_votes) in
            rw (q, v.0 ∙ t, propose_once)
              (commit-Expected st operation body s d (self_vote id e1).0)
        | inr f ↦
            let r2 : Round Raw = record r1 { yes_votes = r1.yes_votes + 1 } in
            let x2 : IsExact r2 = ground (arith, f, g1.exact) in
            let (r3, h3, g3) = deliver-Gives json id s.late (self_vote id e1).0 r2 v.1 x2 in
            let q : leb (quorum (length st.all))
                  (1 + count_yes json id s.early + count_yes json id s.late)
                ≡ leb r3.needed r3.yes_votes =
              ground (arith, n0, y0, g1.needed, g1.yes_votes, g3.needed, g3.yes_votes) in
            let o : outcome id (deliver json s.late (self_vote id e1).0)
                ≡ (if leb r3.needed r3.yes_votes then some true else none) =
              rw h3 g3.exact in
            rw (q, v.0 ∙ f, o, propose_once)
              (conclude-Expected st operation body s d (deliver json s.late (self_vote id e1).0)
                (leb r3.needed r3.yes_votes))
      ]

  -- The proposal reports success only if in one of its three attempts the votes made a quorum.
  pub propose_all-majority :
      (st : State) (operation : String) (body : Raw) (scripts : ℕ → Script Raw) (stop : ℕ → Bool)
      (e : Engine Raw) (d : D)
      → (propose_all json handler st operation body scripts stop e d).1 ≡ ok tt
      → (n : ℕ) × (1 ≤ n)
        × (n ≤ 3)
        × (quorum (length st.all)
            ≤ 1
              + count_yes json (scripts n).round_id (scripts n).early
              + count_yes json (scripts n).round_id (scripts n).late)
  unfolding propose_all
  propose_all-majority st operation body scripts stop e d h =
      let (n, (e', d'), lo, hi, q) = retry_ok _ _ 3 1 no_quorum (e, d) tt h in
      let x = propose_once-Expected st operation body (scripts n) e' d' in
      (n, lo, omega arith, ground (arith, q, x.result))
