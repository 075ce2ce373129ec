-- ===== src/Service/Everywhere.antt =====
-- `AddUsuario` with the consensus and the commit handlers of all the nodes.
mod Tests
use node_messager.Base.{
  ℕ, zero, suc, ◌+◌, String, ◌≡◌, refl, sym, ap, ◌∙◌, ◌≢◌, inl, inr, Bool, true, false, ◌&&◌, ◌||◌,
  none, some, List, ◌==◌, nat_eq, not, ==_refl, ==_of_eq, ==_of_ne, eq_of_==, Bool-cases, select,
  All, if◌then◌else◌,
}
use node_messager.Base.Retry.{Result, ok, err, retry}
use node_messager.Dto.{Codec, IsFaithful, ProposePayload, VotePayload, CommitPayload, UsuarioRow}
use node_messager.NodeState.{State, alive_peers}
use node_messager.Db.{Db, Answer, has_key, insert_usuario}
use node_messager.Commit.{Codecs, Context, commit_handler}
use node_messager.Consensus.{Engine, Error, cancelled, no_quorum, to_result}
use node_messager.Consensus.Propose.{interrupted}
use node_messager.Consensus.Network.{Course, proposal}
use node_messager.Consensus.Apart.{AreApart, has_id}
use node_messager.Consensus.Agreement.{Knows, enough, proposal-applies}
use node_messager.Service.Adding.{
  new_usuario, add_usuario, committed, add_usuario-committed, committed_usuario,
}

-- What one attempt meets: the network, and the node's rounds by then.
pub record Surroundings (Raw : Type 0) : Type 0 where
  pub course : Course
  pub engine : Engine Raw

-- A handler that writes at the node itself alone.
goes_to :
    (enough own told : Bool) (x y : Db × Answer) (d : Db)
    → x ≡ (if own then y else (d, none))
    → (if enough && (own || told) then x.0 else d) ≡ (if enough && own then y.0 else d)
goes_to false own told x y d q = refl
goes_to true true told x y d q = rw q refl
goes_to true false true x y d q = rw q refl
goes_to true false false x y d q = refl

module _ {Raw : Type 0} (json : Codecs Raw) (votes : Codec Raw VotePayload)
    (proposals : Codec Raw (ProposePayload Raw)) (commits : Codec Raw (CommitPayload Raw))
    (view : ℕ → State) (contexts : ℕ → Context) where
  -- Each node's handler writes to its own tables.
  abbrev pub handlers : ℕ → String → Raw → Db → Db × Answer
  handlers k = commit_handler json (view k).self (contexts k)

  -- The tables of all the nodes after `AddUsuario` at node `n`, and what it returns. Its proposal has
  -- three attempts: number `i` meets `surroundings i`, and `stop i` is whether the context ends
  -- during the wait behind it. Nothing else changes the tables meanwhile.
  unfoldable pub add_usuario_everywhere :
      (ℕ → Surroundings Raw)
      → (ℕ → Bool)
      → ℕ
      → String
      → ℕ
      → (ℕ → Db)
      → (ℕ → Db) × Result Error (Unit {0})
  unfolding add_usuario
  add_usuario_everywhere surroundings stop n nombre counter tables =
      let p = (add_usuario json (view n).self nombre counter).0 in
      retry
        (λ i all.
          proposal votes proposals commits handlers view (surroundings i).course n p.operation
            p.body (surroundings i).engine all)
        (λ i. if stop i then some cancelled else none) 3 1 no_quorum tables

  -- What the commit of a new user does at node `k`.
  user_at :
      (n k : ℕ) (nombre : String) (counter : ℕ) (d : Db)
      → IsFaithful json.usuario
      → ((k : ℕ) → (view k).self.id ≡ k)
      → (contexts n).first ≡ none
      → let r = new_usuario (view n).self nombre counter in
        handlers k "INSERT_USUARIO" (json.usuario.marshal r) d
        ≡ (if k == n then insert_usuario r.id r.nombre r.sucursal_id none d else (d, none))
  user_at n k nombre counter d f itself w =
      let r = new_usuario (view n).self nombre counter in
      let q = committed_usuario json (view k).self r (contexts k) d f in
      elim (Bool-cases (k == n)) [
        | inl t ↦ let e = eq_of_== k n t in rw (t, q, e, ==_refl (view n).self.id, w) refl
        | inr b ↦
            let far : ((view n).self.id == (view k).self.id) ≡ false =
              rw (itself n, itself k) (==_of_ne n k (λ e. cc (b, ==_of_eq k n (sym e)))) in
            rw (b, q, far) refl
      ]

  -- One attempt to insert a user.
  attempt_lem :
      (c : Course) (n : ℕ) (nombre : String) (counter : ℕ) (e : Engine Raw) (tables : ℕ → Db)
      → IsFaithful json.usuario
      → IsFaithful votes
      → IsFaithful proposals
      → IsFaithful commits
      → ((k : ℕ) → (view k).self.id ≡ k)
      → AreApart (alive_peers (view n))
      → All (Knows view n) (alive_peers (view n))
      → (contexts n).first ≡ none
      → let r = new_usuario (view n).self nombre counter in
        let p =
          proposal votes proposals commits handlers view c n "INSERT_USUARIO"
            (json.usuario.marshal r)
            e
            tables in
        ((k : ℕ)
          → p.0 k ≡ (
              if enough view c n && k == n
              then (insert_usuario r.id r.nombre r.sucursal_id none (tables k)).0
              else tables k))
        × (p.1 ≡ (if enough view c n then ok tt else err (interrupted c.interrupt)))
  unfolding insert_usuario
  attempt_lem c n nombre counter e tables fu fv fp fc itself apart known w =
      let body = json.usuario.marshal (new_usuario (view n).self nombre counter) in
      let x =
        proposal-applies votes proposals commits handlers view fv fp fc c n "INSERT_USUARIO" body e
          tables (itself n) apart known in
      (
        λ k.
            x.0 k
            ∙ goes_to (enough view c n) (k == n) (has_id k (select c.told (alive_peers (view n)))) _
                _ _ (user_at n k nombre counter (tables k) fu itself w),
        x.1 ∙ rw (user_at n n nombre counter (tables n) fu itself w, ==_refl n) refl,
      )

  module _ (surroundings : ℕ → Surroundings Raw) (stop : ℕ → Bool) (n : ℕ) where
    -- Whether enough votes come back in one of the attempts from number `i` on, before the context
    -- ends.
    abbrev pub accepted : (left i : ℕ) → Bool
    accepted zero i = false
    accepted (suc zero) i = enough view (surroundings i).course n
    accepted (suc (suc left)) i =
        let later = accepted (suc left) (i + 1) in
        enough view (surroundings i).course n || (not (stop i) && later)

    -- The error if they do not: the end of the context, or the last attempt's error.
    abbrev pub refusal : (left i : ℕ) → Error
    refusal zero i = no_quorum
    refusal (suc zero) i = interrupted (surroundings i).course.interrupt
    refusal (suc (suc left)) i =
        let later = refusal (suc left) (i + 1) in if stop i then cancelled else later

    -- The tables and the result owed for a user `r`.
    abbrev Owes : Bool → Error → UsuarioRow → (ℕ → Db) → (ℕ → Db) × Result Error (Unit {0}) → Type 0
    Owes b x r tables p =
        ((k : ℕ)
          → p.0 k ≡ (
              if b && k == n
              then (insert_usuario r.id r.nombre r.sucursal_id none (tables k)).0
              else tables k))
        × (p.1 ≡ (if b then ok tt else err x))

    module _ (attempt : ℕ → (ℕ → Db) → (ℕ → Db) × Result Error (Unit {0})) (r : UsuarioRow)
        (one : (i : ℕ) (tables : ℕ → Db)
          → Owes
              (enough view (surroundings i).course n)
              (interrupted (surroundings i).course.interrupt)
              r
              tables
              (attempt i tables)) where
      retry-Owes :
          (left i : ℕ) (last : Error) (before tables : ℕ → Db)
          → ((k : ℕ) → tables k ≡ before k)
          → Owes (accepted (suc left) i) (refusal (suc left) i) r before (
              retry attempt (λ i. if stop i then some cancelled else none) (suc left) i last tables)
      unfolding retry
      retry-Owes zero i last before tables s =
          let x = one i tables in (λ k. x.0 k ∙ rw (s k) refl, x.1)
      retry-Owes (suc left) i last before tables s =
          let x = one i tables in
          elim (Bool-cases (enough view (surroundings i).course n)) [
            | inl t ↦ let y = rw t at x in rw (t, y.1, retry) (λ k. y.0 k ∙ rw (s k) refl, refl)
            | inr f ↦
                let y = rw f at x in
                elim (Bool-cases (stop i)) [
                  | inl u ↦ rw (f, y.1, u, retry) (λ k. y.0 k ∙ s k, refl)
                  | inr u ↦
                      rw (f, y.1, u, retry)
                        (retry-Owes left (i + 1) (interrupted (surroundings i).course.interrupt)
                          before (attempt i tables).0 (λ k. y.0 k ∙ s k))
                ]
          ]

  -- A user that is added at a node, in the whole cluster: if enough votes come back in one of the
  -- three attempts, before the context ends, the call succeeds, and the user is inserted once, into
  -- the node's table and into no other node's, whoever hears of the commit; if not, the call fails
  -- with the error of the context or of the third attempt, and all the tables are as before. The
  -- node's database gives no error, every node knows itself, the alive peers have distinct ids and
  -- know the proposer, and JSON decodes what it encodes.
  pub add_usuario_everywhere_lem :
      (surroundings : ℕ → Surroundings Raw) (stop : ℕ → Bool) (n : ℕ) (nombre : String)
      (counter : ℕ) (tables : ℕ → Db)
      → IsFaithful json.usuario
      → IsFaithful votes
      → IsFaithful proposals
      → IsFaithful commits
      → ((k : ℕ) → (view k).self.id ≡ k)
      → AreApart (alive_peers (view n))
      → All (Knows view n) (alive_peers (view n))
      → (contexts n).first ≡ none
      → let r = new_usuario (view n).self nombre counter in
        let p = add_usuario_everywhere surroundings stop n nombre counter tables in
        let b = accepted surroundings stop n 3 1 in
        ((k : ℕ)
          → p.0 k ≡ (
              if b && k == n
              then (insert_usuario r.id r.nombre r.sucursal_id none (tables k)).0
              else tables k))
        × (p.1 ≡ (if b then ok tt else err (refusal surroundings stop n 3 1)))
  unfolding add_usuario_everywhere add_usuario
  add_usuario_everywhere_lem surroundings stop n nombre counter tables fu fv fp fc itself apart
        known w =
      let r = new_usuario (view n).self nombre counter in
      retry-Owes surroundings stop n
        (λ i all.
          proposal votes proposals commits handlers view (surroundings i).course n "INSERT_USUARIO"
            (json.usuario.marshal r) (surroundings i).engine all)
        r
        (λ i all.
          attempt_lem (surroundings i).course n nombre counter (surroundings i).engine all fu fv fp
            fc itself apart known w)
        2 1 no_quorum tables tables (λ k. refl)
