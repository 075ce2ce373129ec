-- ===== src/Mutex/Permits.antt =====
-- The permits to enter that a lock engine has given and that were not given back.
use node_messager.Base.{
  String, ◌≡◌, refl, sym, ◌≢◌, ◌⊎◌, inl, inr, true, not, Option, none, some, List, [], ◌∷◌, ◌++◌,
  ◌==◌, string_eq, eq_of_==, ==_of_eq, Bool-cases, select, In, All,
}
use node_messager.Base.Dict.{lookup}
use node_messager.Dto.{Node, lock_grant, lock_deny, Codec, LockPayload}
use node_messager.NodeState.{State, node_by_name}
use node_messager.Mutex.{
  Engine, PendingReq, Effect, enter, signal, send, send_to, lock_payload, acquire_local, wake,
  hand_over, release_local, on_request,
}
use node_messager.Mutex.Events.{Event, local_release, got_grant, got_release, step}
use node_messager.Mutex.Moves.{IsQueued}

-- The request that an effect lets go on: at once, through its channel, or by a LOCK_GRANT.
abbrev pub permit : Effect → List String
permit (enter id) = id ∷ []
permit (signal id) = id ∷ []
permit (send o) = elim o.type [ lock_grant ↦ o.payload.request_id ∷ [] | _ ↦ [] ]

abbrev pub permits : List Effect → List String
permits [] = []
permits (x ∷ xs) = permit x ++ permits xs

abbrev pub request_of : Option LockPayload → Option String
request_of none = none
request_of (some p) = some p.request_id

abbrev pub without : Option String → List String → List String
without none out = out
without (some id) out = select (λ x. not (x == id)) out

module _ {Raw : Type 0} (json : Codec Raw LockPayload) where
  -- The permits that an event gives. A LOCK_GRANT that arrives only passes on one that was given.
  abbrev pub issued : Event Raw → List Effect → List String
  issued (got_grant m) out = []
  issued _ out = permits out

  -- The request that an event gives back.
  abbrev pub given_back : Event Raw → Option String
  given_back (local_release st id) = some id
  given_back (got_release st m) = request_of (json.unmarshal m.content)
  given_back _ = none

  -- The permits that are out, after these events: given, and not given back.
  unfoldable pub outstanding : List (Event Raw) → List String → Engine → List String
  outstanding [] out e = out
  outstanding (ev ∷ evs) out e =
      outstanding evs (without (given_back ev) out ++ issued ev (step json ev e).1)
        (step json ev e).0

  -- Callers give back only what they have.
  abbrev pub GivesBack : Option String → List String → Type 0
  GivesBack none out = Unit
  GivesBack (some id) out = In id out

  unfoldable pub IsDisciplined : List (Event Raw) → List String → Engine → Type 0
  IsDisciplined [] out e = Unit
  IsDisciplined (ev ∷ evs) out e =
      GivesBack (given_back ev) out
      × IsDisciplined evs (without (given_back ev) out ++ issued ev (step json ev e).1)
          (step json ev e).0

-- At most the holder's permit is out.
abbrev pub IsExclusive : List String → String → Type 0
IsExclusive out holder = (out ≡ []) ⊎ ((out ≡ holder ∷ []) × (holder ≢ ""))

pub IsExclusive-free :
    (out : List String) (holder : String)
    → (holder == "") ≡ true
    → IsExclusive out holder
    → out ≡ []
IsExclusive-free out holder t (inl q) = q
IsExclusive-free out holder t (inr (q, h)) = absurd (h (eq_of_== holder "" t))

pub permits-send_to-grant :
    (o : Option Node) (p : LockPayload)
    → (permits (send_to o lock_grant p) ≡ [])
      ⊎ (permits (send_to o lock_grant p) ≡ p.request_id ∷ [])
permits-send_to-grant none p = inl refl
permits-send_to-grant (some x) p = inr refl

pub permits-send_to-deny :
    (o : Option Node) (p : LockPayload) → permits (send_to o lock_deny p) ≡ []
permits-send_to-deny none p = refl
permits-send_to-deny (some x) p = refl

-- A fresh holder and at most its permit.
pub fresh_holder :
    (id : String) (ps : List String) → id ≢ "" → (ps ≡ []) ⊎ (ps ≡ id ∷ []) → IsExclusive ps id
fresh_holder id ps h (inl n) = inl n
fresh_holder id ps h (inr n) = inr (n, h)

-- A step that gives no permit and leaves the holder.
pub IsExclusive-quiet :
    (out ps : List String) (holder : String)
    → ps ≡ []
    → IsExclusive out holder
    → IsExclusive (out ++ ps) holder
IsExclusive-quiet out ps holder q (inl n) = inl (rw (q, n) refl)
IsExclusive-quiet out ps holder q (inr (n, k)) = inr (rw (q, n) refl, k)

pub acquire_local-IsExclusive :
    (self id : String) (out : List String) (e : Engine)
    → id ≢ ""
    → IsExclusive out e.holder
    → IsExclusive (out ++ permits (acquire_local self id e).1) (acquire_local self id e).0.holder
unfolding acquire_local
acquire_local-IsExclusive self id out e h x = elim (Bool-cases (e.holder == "")) [
  | inl t ↦ rw (t, IsExclusive-free out e.holder t x) (inr (refl, h))
  | inr f ↦ rw f (IsExclusive-quiet out [] e.holder refl x)
]

pub on_request-IsExclusive :
    (st : State) (from : String) (p : LockPayload) (out : List String) (e : Engine)
    → p.request_id ≢ ""
    → IsExclusive out e.holder
    → IsExclusive (out ++ permits (on_request st from p e).1) (on_request st from p e).0.holder
unfolding on_request
on_request-IsExclusive st from p out e h x = elim (Bool-cases (e.holder == "")) [
  | inl t ↦
      rw (t, IsExclusive-free out e.holder t x)
        (fresh_holder p.request_id _ h (permits-send_to-grant (node_by_name from st) p))
  | inr f ↦
      rw f (IsExclusive-quiet out _ e.holder (permits-send_to-deny (node_by_name from st) p) x)
]

wake-IsExclusive :
    (st : State) (next : PendingReq) (g : Option (Unit {0})) (e : Engine)
    → next.request_id ≢ ""
    → e.holder ≡ next.request_id
    → IsExclusive (permits (wake st next g e).1) (wake st next g e).0.holder
unfolding wake
wake-IsExclusive st next (some _) e h q = rw q (fresh_holder next.request_id _ h (inr refl))
wake-IsExclusive st next none e h q = rw q (
    fresh_holder next.request_id _ h
      (permits-send_to-grant (node_by_name next.from_node st) (lock_payload next.request_id)))

hand_over-IsExclusive :
    (st : State) (queue : List PendingReq) (e : Engine)
    → All (λ r. r.request_id ≢ "") queue
    → IsExclusive (permits (hand_over st queue e).1) (hand_over st queue e).0.holder
unfolding hand_over
hand_over-IsExclusive st [] e h = inl refl
hand_over-IsExclusive st (next ∷ rest) e h =
    wake-IsExclusive st next (lookup next.request_id e.grants) _ h.0 refl

pub release_local-IsExclusive :
    (st : State) (id : String) (out : List String) (e : Engine)
    → IsQueued e
    → In id out
    → IsExclusive out e.holder
    → IsExclusive
        (without (some id) out ++ permits (release_local st id e).1)
        (release_local st id e).0.holder
unfolding release_local
release_local-IsExclusive st id out e v i (inl n) = absurd (rw n at i)
release_local-IsExclusive st id out e v i (inr (n, k)) = elim (rw n at i) [
  | inr z ↦ absurd z
  | inl q ↦
      let t : (e.holder == id) ≡ true = ==_of_eq e.holder id (sym q) in
      rw (n, t) (hand_over-IsExclusive st e.queue e v.named)
]
