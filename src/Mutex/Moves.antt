-- ===== src/Mutex/Moves.antt =====
-- A plain queue of requests, and what each critical section of internal/mutex/mutex.go does to it.
use node_messager.Base.{
  String, ◌≡◌, refl, sym, subst, ◌∙◌, ◌≢◌, inl, inr, true, false, Option, none, some, List, [], ◌∷◌,
  ◌++◌, map, ◌==◌, string_eq, eq_of_==, ==_of_eq, ==_of_ne, if◌then◌else◌, Bool-cases, All,
}
use mathlib.Core.List.{map-append}
use node_messager.Base.Dict.{lookup}
use node_messager.Dto.{LockPayload}
use node_messager.NodeState.{State}
use node_messager.Mutex.{
  Engine, PendingReq, enqueue, acquire_local, wake, hand_over, release_local, on_request,
}

abbrev pub ids : List PendingReq → List String
ids = map (λ r. r.request_id)

-- The abstract view.
abbrev pub waiting : Engine → List String
waiting e = if e.holder == "" then [] else e.holder ∷ ids e.queue

pub record IsQueued (e : Engine) : Type 0 where
  pub idle : e.holder ≡ "" → e.queue ≡ []
  pub named : All (λ r. r.request_id ≢ "") e.queue

-- The specification.
pub data Move : Type 0 where
  join leave : String → Move
  stay : Move

abbrev pub apply : Move → List String → List String
apply (join id) xs = xs ++ id ∷ []
apply (leave id) [] = []
apply (leave id) (x ∷ xs) = if x == id then xs else x ∷ xs
apply stay xs = xs

abbrev pub IsNamed : Move → Type 0
IsNamed (join id) = id ≢ ""
IsNamed _ = Unit

-- What a step owes the specification.
abbrev pub Does : Move → Engine → Engine → Type 0
Does m e e' = IsQueued e' × (waiting e' ≡ apply m (waiting e))

All-append :
    (rs : List PendingReq) (r : PendingReq)
    → All (λ r. r.request_id ≢ "") rs
    → r.request_id ≢ ""
    → All (λ r. r.request_id ≢ "") (rs ++ r ∷ [])
All-append [] r h k = (k, tt)
All-append (x ∷ rs) r h k = (h.0, All-append rs r h.1 k)

join_free :
    (e : Engine) (id : String)
    → IsQueued e
    → id ≢ ""
    → (e.holder == "") ≡ true
    → Does (join id) e (record e { holder = id })
join_free e id v h t =
    let free = eq_of_== e.holder "" t in
    (
      record { idle = λ k. absurd (h k); named = v.named },
      rw (t, ==_of_ne id "" h, v.idle free) refl,
    )

join_busy :
    (e : Engine) (r : PendingReq)
    → IsQueued e
    → r.request_id ≢ ""
    → (e.holder == "") ≡ false
    → Does (join r.request_id) e (enqueue r e)
join_busy e r v h f = (
  record { idle = λ k. cc (==_of_eq e.holder "" k, f); named = All-append e.queue r v.named h },
  rw (f, map-append) refl,
)

-- A step that leaves the holder and the queue alone.
abbrev pub Same : Engine → Engine → Type 0
Same e e' = (e'.holder ≡ e.holder) × (e'.queue ≡ e.queue)

pub stays : (e e' : Engine) → IsQueued e → Same e e' → Does stay e e'
stays e e' v s =
    (record { idle = λ k. s.1 ∙ v.idle (sym s.0 ∙ k); named = rw s.1 v.named }, rw (s.0, s.1) refl)

pub acquire_local-Does :
    (self id : String) (e : Engine)
    → IsQueued e
    → id ≢ ""
    → Does (join id) e (acquire_local self id e).0
unfolding acquire_local
acquire_local-Does self id e v h = elim (Bool-cases (e.holder == "")) [
  | inl t ↦
      let q : (acquire_local self id e).0 ≡ record e { holder = id } = rw t in
      subst (Does (join id) e) (sym q) (join_free e id v h t)
  | inr f ↦
      let r : PendingReq = record { request_id = id; from_node = self } in
      let q : (acquire_local self id e).0 ≡ enqueue r e = rw f in
      subst (Does (join id) e) (sym q) (join_busy e r v h f)
]

pub on_request-Does :
    (st : State) (from : String) (p : LockPayload) (e : Engine)
    → IsQueued e
    → p.request_id ≢ ""
    → Does (join p.request_id) e (on_request st from p e).0
unfolding on_request
on_request-Does st from p e v h = elim (Bool-cases (e.holder == "")) [
  | inl t ↦
      let q : (on_request st from p e).0 ≡ record e { holder = p.request_id } = rw t in
      subst (Does (join p.request_id) e) (sym q) (join_free e p.request_id v h t)
  | inr f ↦
      let r : PendingReq = record { request_id = p.request_id; from_node = from } in
      let q : (on_request st from p e).0 ≡ enqueue r e = rw f in
      subst (Does (join p.request_id) e) (sym q) (join_busy e r v h f)
]

wake-Same :
    (st : State) (r : PendingReq) (g : Option (Unit {0})) (e : Engine) → Same e (wake st r g e).0
unfolding wake
wake-Same st r none e = (refl, refl)
wake-Same st r (some _) e = (refl, refl)

-- The holder leaves: the queue's first request takes its place.
hand_over-Does :
    (st : State) (rs : List PendingReq) (e : Engine)
    → All (λ r. r.request_id ≢ "") rs
    → e.queue ≡ rs
    → IsQueued (hand_over st rs e).0 × (waiting (hand_over st rs e).0 ≡ ids rs)
unfolding hand_over
hand_over-Does st [] e h q = (record { idle = λ _. q; named = rw q tt }, refl)
hand_over-Does st (r ∷ rs) e h q =
    let e' : Engine = record e { holder = r.request_id; queue = rs } in
    let v : IsQueued e' = record { idle = λ k. absurd (h.0 k); named = h.1 } in
    let d = stays e' _ v (wake-Same st r (lookup r.request_id e.grants) e') in
    (d.0, d.1 ∙ (rw (==_of_ne r.request_id "" h.0) refl))

-- Without the holder the view is that of the waiting requests.
leave_holder :
    (id : String) (e : Engine)
    → IsQueued e
    → (e.holder == id) ≡ true
    → ids e.queue ≡ apply (leave id) (waiting e)
leave_holder id e v t = elim (Bool-cases (e.holder == "")) [
  | inl free ↦ rw (free, v.idle (eq_of_== e.holder "" free))
  | inr busy ↦ rw (busy, t)
]

leave_other :
    (id : String) (e : Engine) → (e.holder == id) ≡ false → waiting e ≡ apply (leave id) (waiting e)
leave_other id e f = elim (Bool-cases (e.holder == "")) [
  | inl free ↦ rw free
  | inr busy ↦ rw (busy, f)
]

pub release_local-Does :
    (st : State) (id : String) (e : Engine)
    → IsQueued e
    → Does (leave id) e (release_local st id e).0
unfolding release_local
release_local-Does st id e v = elim (Bool-cases (e.holder == id)) [
  | inl t ↦
      let d = hand_over-Does st e.queue e v.named refl in
      let q : (release_local st id e).0 ≡ (hand_over st e.queue e).0 = rw t in
      subst (Does (leave id) e) (sym q) (d.0, d.1 ∙ leave_holder id e v t)
  | inr f ↦
      let q : (release_local st id e).0 ≡ e = rw f in
      subst (Does (leave id) e) (sym q) (v, leave_other id e f)
]
