-- ===== src/Cluster/Channels.antt =====
-- The effects of an engine's steps: which tokens they make, and which channels they fill.
use node_messager.Base.{
  ℕ, ◌+◌, String, ◌≡◌, refl, ◌⊎◌, inl, inr, true, false, Option, none, some, List, [], ◌∷◌, arith,
  string_eq, ◌==◌, eq_of_==, Bool-cases, length, All, In,
}
use node_messager.Base.Dict.{lookup, insert, lookup-insert}
use node_messager.Dto.{Node, lock_grant, lock_deny, Outgoing, LockPayload}
use node_messager.NodeState.{State, node_by_name}
use node_messager.Mutex.{
  Engine, PendingReq, Effect, enter, signal, send, send_to, lock_payload, acquire_local, wake,
  hand_over, release_local, on_request, on_grant, notify,
}
use node_messager.Mutex.Permits.{permits}
use node_messager.Cluster.{packets, entered}
use node_messager.Cluster.Tokens.{token, gather, name_of, signalled, IsAnswer}

module _ (name : String) (n : ℕ) where
  -- The tokens of a step are the permits that it gives, each at one place.
  abbrev pub IsSpread : List Effect → Type 1
  IsSpread xs =
      (length (gather token (packets name xs))
          + (length (signalled xs) + length (gather name_of (entered n xs)))
        ≡ length (permits xs))
      × ((P : String → Type 0)
          → All P (permits xs)
          → All P (gather token (packets name xs))
            × All P (signalled xs)
            × All P (gather name_of (entered n xs)))

  answer-IsSpread :
      (o : Outgoing LockPayload) (xs : List Effect)
      → IsAnswer (send o)
      → IsSpread xs
      → IsSpread (send o ∷ xs)
  answer-IsSpread o xs (inl q) (l, a) =
      rw q (omega (arith, l), λ P k. let b = a P k.1 in ((k.0, b.0), b.1, b.2))
  answer-IsSpread o xs (inr q) (l, a) = rw q (l, a)

  pub answers-IsSpread : (xs : List Effect) → All IsAnswer xs → IsSpread xs
  answers-IsSpread [] h = (refl, λ P k. (tt, tt, tt))
  answers-IsSpread (enter id ∷ xs) h =
      let (l, a) = answers-IsSpread xs h.1 in
      (omega (arith, l), λ P k. let b = a P k.1 in (b.0, b.1, (k.0, b.2)))
  answers-IsSpread (signal id ∷ xs) h =
      let (l, a) = answers-IsSpread xs h.1 in
      (omega (arith, l), λ P k. let b = a P k.1 in (b.0, (k.0, b.1), b.2))
  answers-IsSpread (send o ∷ xs) h = answer-IsSpread o xs h.0 (answers-IsSpread xs h.1)

pub send_to-grant : (o : Option Node) (p : LockPayload) → All IsAnswer (send_to o lock_grant p)
send_to-grant none p = tt
send_to-grant (some x) p = (inl refl, tt)

pub send_to-deny : (o : Option Node) (p : LockPayload) → All IsAnswer (send_to o lock_deny p)
send_to-deny none p = tt
send_to-deny (some x) p = (inr refl, tt)

-- What a step does to the channels: one that is full was full, or the step has filled it.
abbrev pub Opens : Engine → Engine × List Effect → Type 0
Opens e r =
    (id : String)
    → lookup id r.0.chans ≡ some true
    → (lookup id e.chans ≡ some true) ⊎ In id (signalled r.1)

-- A step that answers, and whose full channels are accounted for.
abbrev pub IsGood : Engine → Engine × List Effect → Type 0
IsGood e r = All IsAnswer r.1 × Opens e r

pub acquire_local-IsGood : (self id : String) (e : Engine) → IsGood e (acquire_local self id e)
unfolding acquire_local
acquire_local-IsGood self id e = elim (Bool-cases (e.holder == "")) [
  | inl t ↦ rw t ((tt, tt), λ k q. inl q)
  | inr f ↦ rw f (tt, λ k q. inl q)
]

pub on_request-IsGood :
    (st : State) (from : String) (p : LockPayload) (e : Engine) → IsGood e (on_request st from p e)
unfolding on_request
on_request-IsGood st from p e = elim (Bool-cases (e.holder == "")) [
  | inl t ↦ rw t (send_to-grant (node_by_name from st) p, λ k q. inl q)
  | inr f ↦ rw f (send_to-deny (node_by_name from st) p, λ k q. inl q)
]

-- A channel that is made is empty, one that is filled is full.
pub insert-true :
    (id : String) (e : Engine) (k : String)
    → lookup k (insert id true e.chans) ≡ some true
    → (lookup k e.chans ≡ some true) ⊎ In k (id ∷ [])
insert-true id e k q = ground (arith, lookup-insert id k true e.chans, eq_of_== id k)

pub insert-false :
    (id : String) (e : Engine) (k : String)
    → lookup k (insert id false e.chans) ≡ some true
    → lookup k e.chans ≡ some true
insert-false id e k q = ground (arith, lookup-insert id k false e.chans)

wake-IsGood :
    (st : State) (r : PendingReq) (g : Option (Unit {0})) (e : Engine) → IsGood e (wake st r g e)
unfolding wake
wake-IsGood st r (some _) e = ((tt, tt), λ k q. insert-true r.request_id e k q)
wake-IsGood st r none e =
    (send_to-grant (node_by_name r.from_node st) (lock_payload r.request_id), λ k q. inl q)

hand_over-IsGood : (st : State) (rs : List PendingReq) (e : Engine) → IsGood e (hand_over st rs e)
unfolding hand_over
hand_over-IsGood st [] e = (tt, λ k q. inl q)
hand_over-IsGood st (r ∷ rs) e = wake-IsGood st r (lookup r.request_id e.grants) _

pub release_local-IsGood :
    (st : State) (id : String) (e : Engine) → IsGood e (release_local st id e)
unfolding release_local
release_local-IsGood st id e = elim (Bool-cases (e.holder == id)) [
  | inl t ↦ rw t (hand_over-IsGood st e.queue e)
  | inr f ↦ rw f (tt, λ k q. inl q)
]

notify-IsGood : (id : String) (o : Option (Unit {0})) (e : Engine) → IsGood e (notify id o e)
notify-IsGood id none e = (tt, λ k q. inl q)
notify-IsGood id (some _) e = ((tt, tt), λ k q. insert-true id e k q)

pub on_grant-IsGood : (p : LockPayload) (e : Engine) → IsGood e (on_grant p e)
unfolding on_grant
on_grant-IsGood p e = notify-IsGood p.request_id (lookup p.request_id e.grants) e
