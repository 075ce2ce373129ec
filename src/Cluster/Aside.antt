-- ===== src/Cluster/Aside.antt =====
-- The events of any node that leave the lock as it is, with the cluster around it.
use node_messager.Base.{
  ℕ, String, ◌≡◌, refl, sym, ap, ◌≢◌, ◌⊎◌, inl, inr, true, false, Option, none, some, List, [], ◌∷◌,
  ◌++◌, arith, string_eq, nat_eq, ◌==◌, ==_of_eq, Bool-cases, append-nil, All, In,
}
use node_messager.Base.Dict.{lookup, insert, lookup-insert}
use node_messager.Dto.{Node, LockPayload, lock_request, lock_release}
use node_messager.NodeState.{State}
use node_messager.Mutex.{Engine, on_grant, notify, lock_payload, open_channel, send_to}
use node_messager.Mutex.Permits.{permits, IsExclusive, IsExclusive-quiet}
use node_messager.Mutex.Moves.{IsQueued, Same, stays}
use node_messager.Cluster.{Cluster, act, put}
use node_messager.Cluster.Tokens.{
  gather, name_of, tokens, token, IsSole, exclusive, IsSole-left, alone, full-alone,
}
use node_messager.Cluster.Channels.{insert-false, on_grant-IsGood}
use node_messager.Cluster.Invariant.{
  IsAddressed, IsOpened, aside-IsGuarded, act-IsGuarded, put_other,
}
use node_messager.Cluster.Steps.{Agrees, Guarded}

-- A step without effects that fills no channel.
abbrev pub IsQuiet : Engine → Engine → Type 0
IsQuiet e e' =
    Same e e' × ((id : String) → lookup id e'.chans ≡ some true → lookup id e.chans ≡ some true)

-- The engine with the channel of a request made, or emptied.
abbrev pub emptied : String → Engine → Engine
emptied id e = record e { chans = insert id false e.chans }

on_grant-Same : (p : LockPayload) (e : Engine) → Same e (on_grant p e).0
unfolding on_grant
on_grant-Same p e = (ground arith, ground arith)

on_grant-permits :
    (p : LockPayload) (e : Engine)
    → (permits (on_grant p e).1 ≡ []) ⊎ (permits (on_grant p e).1 ≡ p.request_id ∷ [])
unfolding on_grant
on_grant-permits p e = noted p.request_id (lookup p.request_id e.grants)
  where
    noted :
        (id : String) (o : Option (Unit {0}))
        → (permits (notify id o e).1 ≡ []) ⊎ (permits (notify id o e).1 ≡ id ∷ [])
    noted id none = inl refl
    noted id (some _) = inr refl

only_one : (x y : ℕ × String) (full : List (ℕ × String)) → full ≡ x ∷ [] → In y full → y ≡ x
only_one x y full q i = elim (rw q at i) [ inl e ↦ e | inr z ↦ absurd z ]

-- When the only full channel is emptied, none is full.
none_full :
    (n : ℕ) (id : String) (engines : ℕ → Engine) (full : List (ℕ × String))
    → IsOpened engines full
    → full ≡ (n, id) ∷ []
    → IsOpened (put n (emptied id (engines n)) engines) []
none_full n id engines full o f k j q = elim (Bool-cases (k == n)) [
  | inl t ↦
      let h : lookup j (insert id false (engines n).chans) ≡ some true = rw t at q in
      let e =
        ap (λ x. x.1) (only_one (n, id) (n, j) full f (o n j (insert-false id (engines n) j h))) in
      ground (arith, lookup-insert id j false (engines n).chans, ==_of_eq id j (sym e))
  | inr b ↦
      let e = ap (λ x. x.0) (only_one (n, id) (k, j) full f (o k j (rw b at q))) in
      cc (b, ==_of_eq k n e)
]

module _ (view : ℕ → State) (m : ℕ) (a : Agrees view m) where
  pub quiet_keeps :
      (n : ℕ) (e : Engine) (c : Cluster)
      → IsQuiet (c.engines n) e
      → Guarded m c
      → Guarded m (act view n (e, []) c)
  quiet_keeps n e c q (full, g) =
      let x = exclusive _ (c.engines m).holder g.only in
      (
        _,
        aside-IsGuarded view m n (e, []) c full g.addressed g.opened g.queued q.0
            (tt, λ k h. inl (q.1 k h)) (IsExclusive-quiet _ [] (c.engines m).holder refl x),
      )

  -- `acquireRemote`: the request goes to the master.
  pub asked_master :
      (n : ℕ) (id : String) (peer : Node) (c : Cluster)
      → peer.id ≡ m
      → id ≢ ""
      → Guarded m c
      → Guarded m (
          act view n
            (open_channel id (c.engines n), send_to (some peer) lock_request (lock_payload id))
            c)
  asked_master n id peer c e h (full, g) =
      let there = put_other n m (open_channel id (c.engines n)) c.engines (refl, refl) in
      (
        _,
        act-IsGuarded view m n _ c full ((e, h), tt) g.addressed
            (λ k q. inl (insert-false id (c.engines n) k q)) g.opened
            ((stays (c.engines m) _ g.queued there).0) (rw (there.0) g.only),
      )

  -- The release function of `acquireRemote`: the token goes to the master.
  pub gave_master :
      (n : ℕ) (id : String) (peer : Node) (c : Cluster) (full : List (ℕ × String))
      → peer.id ≡ m
      → IsQueued (c.engines m)
      → All (IsAddressed m) c.flight
      → IsOpened c.engines full
      → IsSole (tokens c.flight full c.inside ++ id ∷ []) (c.engines m).holder
      → Guarded m (act view n (c.engines n, send_to (some peer) lock_release (lock_payload id)) c)
  gave_master n id peer c full e v d o s =
      let there = put_other n m (c.engines n) c.engines (refl, refl) in
      let (q, i, h) = alone (tokens c.flight full c.inside) id (c.engines m).holder s in
      let back : IsSole (id ∷ []) (c.engines m).holder = rw q at s in
      (
        _,
        act-IsGuarded view m n _ c full (e, tt) d (λ k q. inl q) o
            ((stays (c.engines m) _ v there).0) (rw (there.0, q) back),
      )

  -- A LOCK_GRANT arrives, with the token.
  pub granted_to :
      (n : ℕ) (p : LockPayload) (c : Cluster) (full : List (ℕ × String))
      → IsQueued (c.engines m)
      → All (IsAddressed m) c.flight
      → IsOpened c.engines full
      → IsSole (tokens c.flight full c.inside ++ p.request_id ∷ []) (c.engines m).holder
      → Guarded m (act view n (on_grant p (c.engines n)) c)
  granted_to n p c full v d o s =
      let t = tokens c.flight full c.inside in
      let x : IsExclusive (t ++ permits (on_grant p (c.engines n)).1) (c.engines m).holder =
        elim (on_grant-permits p (c.engines n)) [
          | inl q ↦
              rw q (exclusive (t ++ []) _ (rw append-nil (IsSole-left t (p.request_id ∷ []) _ s)))
          | inr q ↦ rw q (exclusive _ (c.engines m).holder s)
        ] in
      (
        _,
        aside-IsGuarded view m n _ c full d o v (on_grant-Same p (c.engines n))
            (on_grant-IsGood p (c.engines n)) x,
      )

  -- The `select` takes the value of a channel: nothing else has the token.
  pub took_grant :
      (n : ℕ) (id : String) (c : Cluster)
      → lookup id (c.engines n).chans ≡ some true
      → Guarded m c
      → Guarded m
          (record (act view n (emptied id (c.engines n), []) c) { inside = (n, id) ∷ c.inside })
  unfolding act
  took_grant n id c q (full, g) =
      let there = put_other n m (emptied id (c.engines n)) c.engines (refl, refl) in
      let (fl, fu, ins, i, h) =
        full-alone (n, id) (gather token c.flight) full (gather name_of c.inside) _
          (g.opened n id q) g.only in
      (
        [],
        record {
          queued = (stays (c.engines m) _ g.queued there).0;
          only = rw (there.0, fl, ins) (omega arith, ((i, h), tt));
          addressed = g.addressed;
          opened = none_full n id c.engines full g.opened fu;
        },
      )
