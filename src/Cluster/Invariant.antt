-- ===== src/Cluster/Invariant.antt =====
-- What holds of the cluster after every move: one token, and every full channel is known.
use node_messager.Base.{
  ℕ, String, ◌≡◌, refl, sym, ◌≢◌, ◌⊎◌, inl, inr, true, some, List, [], ◌∷◌, ◌++◌, string_eq, nat_eq,
  ◌==◌, ==_refl, ==_of_eq, eq_of_==, Bool-cases, All, In,
}
use node_messager.Base.Dict.{lookup}
use node_messager.Dto.{Node, MessageType, lock_request, lock_release, Outgoing, LockPayload}
use node_messager.NodeState.{State}
use node_messager.Mutex.{Engine, Effect, enter, signal, send}
use node_messager.Mutex.Permits.{permits, IsExclusive}
use node_messager.Mutex.Moves.{IsQueued, Same, stays}
use node_messager.Cluster.{Packet, Cluster, packets, entered, put, act}
use node_messager.Cluster.Tokens.{
  token, gather, name_of, signalled, tag, tokens, All-++, IsAnswer, gather-append, gather-tag,
  mixed, In-left, In-right, In-tag, sole, IsSole,
}
use node_messager.Cluster.Channels.{answers-IsSpread, Opens, IsGood}

-- Requests have an id; they and the releases go to the node `m`.
abbrev pub IsFor : ℕ → Node → String → MessageType → Type 0
IsFor m to id lock_request = (to.id ≡ m) × (id ≢ "")
IsFor m to id lock_release = to.id ≡ m
IsFor m to id _ = Unit

abbrev pub IsAddressed : ℕ → Packet → Type 0
IsAddressed m p = IsFor m p.out.to p.out.payload.request_id p.out.type

abbrev pub IsOpened : (ℕ → Engine) → List (ℕ × String) → Type 0
IsOpened engines full =
    (n : ℕ) (id : String) → lookup id (engines n).chans ≡ some true → In (n, id) full

pub record IsGuarded (m : ℕ) (c : Cluster) (full : List (ℕ × String)) : Type 0 where
  pub queued : IsQueued (c.engines m)
  pub only : IsSole (tokens c.flight full c.inside) (c.engines m).holder
  pub addressed : All (IsAddressed m) c.flight
  pub opened : IsOpened c.engines full

answer-IsAddressed :
    (m : ℕ) (name : String) (o : Outgoing LockPayload)
    → IsAnswer (send o)
    → IsAddressed m (record { from_name = name; out = o })
answer-IsAddressed m name o (inl q) = rw q tt
answer-IsAddressed m name o (inr q) = rw q tt

pub answers-IsAddressed :
    (m : ℕ) (name : String) (xs : List Effect)
    → All IsAnswer xs
    → All (IsAddressed m) (packets name xs)
answers-IsAddressed m name [] h = tt
answers-IsAddressed m name (enter id ∷ xs) h = answers-IsAddressed m name xs h.1
answers-IsAddressed m name (signal id ∷ xs) h = answers-IsAddressed m name xs h.1
answers-IsAddressed m name (send o ∷ xs) h =
    (answer-IsAddressed m name o h.0, answers-IsAddressed m name xs h.1)

-- A channel that was full, or that the step has filled.
found :
    (n : ℕ) (id : String) (r : List Effect) (full : List (ℕ × String))
    → In (n, id) full ⊎ In id (signalled r)
    → In (n, id) (tag n (signalled r) ++ full)
found n id r full (inl i) = In-right (n, id) (tag n (signalled r)) full i
found n id r full (inr i) = In-left (n, id) (tag n (signalled r)) full (In-tag n id (signalled r) i)

pub opened-put :
    (n : ℕ) (r : Engine × List Effect) (engines : ℕ → Engine) (full : List (ℕ × String))
    → Opens (engines n) r
    → IsOpened engines full
    → IsOpened (put n r.0 engines) (tag n (signalled r.1) ++ full)
opened-put n r engines full o h k id q = elim (Bool-cases (k == n)) [
  | inl t ↦
      let e = eq_of_== k n t in
      rw e
        (found n id r.1 full (elim (o id (rw t at q)) [ inl p ↦ inl (h n id p) | inr i ↦ inr i ]))
  | inr f ↦ In-right (k, id) (tag n (signalled r.1)) full (h k id (rw f at q))
]

-- The tokens after a step.
pub spread-IsSole :
    (name : String) (n : ℕ) (r : List Effect) (c : Cluster) (full : List (ℕ × String))
    (holder : String)
    → All IsAnswer r
    → IsExclusive (tokens c.flight full c.inside ++ permits r) holder
    → IsSole
        (tokens
          (packets name r ++ c.flight)
          (tag n (signalled r) ++ full)
          (entered n r ++ c.inside))
        holder
spread-IsSole name n r c full holder a x =
    let s = answers-IsSpread name n r a in
    rw
      (
        gather-append token (packets name r) c.flight,
        gather-append name_of (tag n (signalled r)) full,
        gather-append name_of (entered n r) c.inside,
        gather-tag n (signalled r),
      )
      (mixed holder (gather token c.flight) (gather name_of full) (gather name_of c.inside)
        (gather token (packets name r)) (signalled r) (gather name_of (entered n r)) (permits r) s.0
        (λ P k. s.1 P k) (sole (tokens c.flight full c.inside ++ permits r) holder x))

pub put_other :
    (n m : ℕ) (e : Engine) (engines : ℕ → Engine)
    → Same (engines n) e
    → Same (engines m) (put n e engines m)
put_other n m e engines s = elim (Bool-cases (m == n)) [
  | inl t ↦ let q = eq_of_== m n t in rw (q, ==_refl n) s
  | inr f ↦ rw f (refl, refl)
]

module _ (view : ℕ → State) (m : ℕ) where
  pub act-IsGuarded :
      (n : ℕ) (r : Engine × List Effect) (c : Cluster) (full : List (ℕ × String))
      → All (IsAddressed m) (packets (view n).self.name r.1)
      → All (IsAddressed m) c.flight
      → Opens (c.engines n) r
      → IsOpened c.engines full
      → IsQueued (put n r.0 c.engines m)
      → IsSole
          (tokens
            (packets (view n).self.name r.1 ++ c.flight)
            (tag n (signalled r.1) ++ full)
            (entered n r.1 ++ c.inside))
          (put n r.0 c.engines m).holder
      → IsGuarded m (act view n r c) (tag n (signalled r.1) ++ full)
  unfolding act
  act-IsGuarded n r c full a d p o q x = record {
    queued = q;
    only = x;
    addressed = All-++ (IsAddressed m) (packets (view n).self.name r.1) c.flight a d;
    opened = opened-put n r c.engines full p o;
  }

  -- A step of the master.
  pub master-IsGuarded :
      (n : ℕ) (r : Engine × List Effect) (c : Cluster) (full : List (ℕ × String))
      → n ≡ m
      → All (IsAddressed m) c.flight
      → IsOpened c.engines full
      → IsGood (c.engines n) r
      → IsQueued r.0
      → IsExclusive (tokens c.flight full c.inside ++ permits r.1) r.0.holder
      → IsGuarded m (act view n r c) (tag n (signalled r.1) ++ full)
  master-IsGuarded n r c full e d o g q x =
      let here : put n r.0 c.engines m ≡ r.0 = rw (==_of_eq m n (sym e)) refl in
      act-IsGuarded n r c full (answers-IsAddressed m _ r.1 g.0) d g.1 o (rw here q)
        (rw here (spread-IsSole (view n).self.name n r.1 c full r.0.holder g.0 x))

  -- A step of any node that leaves the holder and the queue alone.
  pub aside-IsGuarded :
      (n : ℕ) (r : Engine × List Effect) (c : Cluster) (full : List (ℕ × String))
      → All (IsAddressed m) c.flight
      → IsOpened c.engines full
      → IsQueued (c.engines m)
      → Same (c.engines n) r.0
      → IsGood (c.engines n) r
      → IsExclusive (tokens c.flight full c.inside ++ permits r.1) (c.engines m).holder
      → IsGuarded m (act view n r c) (tag n (signalled r.1) ++ full)
  aside-IsGuarded n r c full d o v s g x =
      let there = put_other n m r.0 c.engines s in
      act-IsGuarded n r c full (answers-IsAddressed m _ r.1 g.0) d g.1 o
        ((stays (c.engines m) _ v there).0)
        (rw (there.0) (spread-IsSole (view n).self.name n r.1 c full (c.engines m).holder g.0 x))
