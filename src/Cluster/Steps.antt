-- ===== src/Cluster/Steps.antt =====
-- The events of one node, with the cluster around it.
use node_messager.Base.{
  ℕ, String, ◌≡◌, refl, sym, ◌∙◌, ◌≢◌, inl, inr, true, some, List, [], ◌∷◌, ◌++◌, string_eq, nat_eq,
  ==_refl, eq_of_==, All,
}
use node_messager.Dto.{Node, LockPayload}
use node_messager.NodeState.{State, is_master, get_master_node}
use node_messager.Mutex.{acquire_local, release_local, on_request}
use node_messager.Mutex.Permits.{
  IsExclusive, acquire_local-IsExclusive, on_request-IsExclusive, release_local-IsExclusive,
}
use node_messager.Mutex.Moves.{IsQueued, acquire_local-Does, on_request-Does, release_local-Does}
use node_messager.Cluster.{Cluster, act}
use node_messager.Cluster.Tokens.{tokens, IsSole, exclusive, alone}
use node_messager.Cluster.Channels.{acquire_local-IsGood, on_request-IsGood, release_local-IsGood}
use node_messager.Cluster.Invariant.{IsGuarded, IsAddressed, IsOpened, master-IsGuarded}

-- Every node knows itself, and all have the same master, which each finds in its list.
pub record Agrees (view : ℕ → State) (m : ℕ) : Type 0 where
  pub itself : (n : ℕ) → (view n).self.id ≡ n
  pub same_master : (n : ℕ) → (view n).master_id ≡ m
  pub found : (n : ℕ) → (peer : Node) × (peer.id ≡ m) × (get_master_node (view n) ≡ some peer)

abbrev pub Guarded : ℕ → Cluster → Type 0
Guarded m c = (full : List (ℕ × String)) × IsGuarded m c full

module _ (view : ℕ → State) (m : ℕ) (a : Agrees view m) where
  pub master_is : (n : ℕ) → is_master (view n) ≡ true → n ≡ m
  unfolding is_master
  master_is n t =
      sym (a.itself n) ∙ eq_of_== (view n).self.id (view n).master_id t ∙ a.same_master n

  pub asked_here :
      (n : ℕ) (id : String) (c : Cluster)
      → n ≡ m
      → id ≢ ""
      → Guarded m c
      → Guarded m (act view n (acquire_local (view n).self.name id (c.engines n)) c)
  asked_here n id c e h (full, g) =
      let v : IsQueued (c.engines n) = rw e g.queued in
      let x = exclusive _ (c.engines m).holder g.only in
      (
        _,
        master-IsGuarded view m n _ c full e g.addressed g.opened
            (acquire_local-IsGood _ id (c.engines n))
            ((acquire_local-Does _ id (c.engines n) v h).0)
            (acquire_local-IsExclusive _ id _ (c.engines n) h (rw e x)),
      )

  pub requested_here :
      (n : ℕ) (from : String) (p : LockPayload) (c : Cluster)
      → n ≡ m
      → p.request_id ≢ ""
      → Guarded m c
      → Guarded m (act view n (on_request (view n) from p (c.engines n)) c)
  requested_here n from p c e h (full, g) =
      let v : IsQueued (c.engines n) = rw e g.queued in
      let x = exclusive _ (c.engines m).holder g.only in
      (
        _,
        master-IsGuarded view m n _ c full e g.addressed g.opened
            (on_request-IsGood _ from p (c.engines n))
            ((on_request-Does _ from p (c.engines n) v h).0)
            (on_request-IsExclusive _ from p _ (c.engines n) h (rw e x)),
      )

  -- The one token there is comes back to the master.
  pub released_here :
      (n : ℕ) (id : String) (c : Cluster) (full : List (ℕ × String))
      → n ≡ m
      → IsQueued (c.engines m)
      → All (IsAddressed m) c.flight
      → IsOpened c.engines full
      → IsSole (tokens c.flight full c.inside ++ id ∷ []) (c.engines m).holder
      → Guarded m (act view n (release_local (view n) id (c.engines n)) c)
  released_here n id c full e v d o s =
      let (q, i, h) = alone (tokens c.flight full c.inside) id (c.engines m).holder s in
      let back : IsExclusive (id ∷ []) (c.engines n).holder = rw (e, i) (inr (refl, h)) in
      let x =
        release_local-IsExclusive (view n) id (id ∷ []) (c.engines n) (rw e v) (inl refl) back in
      (
        _,
        master-IsGuarded view m n _ c full e d o (release_local-IsGood _ id (c.engines n))
            ((release_local-Does _ id (c.engines n) (rw e v)).0) (rw q (rw (==_refl id) at x)),
      )
