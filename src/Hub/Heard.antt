-- ===== src/Hub/Heard.antt =====
-- What a hub saves and dispatches.
use node_messager.Base.{
  ℕ, String, ◌≡◌, refl, ap, ◌∙◌, inl, inr, Bool, true, false, Bool-cases, Option, none, some,
  Option-cases, List, [], ◌∷◌, ◌++◌, map, if◌then◌else◌,
}
use mathlib.Core.List.{Perm}
use mathlib.Core.List.Perm
use node_messager.Dto.{Message, Codec}
use node_messager.MsgStore.{Entry, received, Store, Io}
use node_messager.MsgStore.Window.{Call, run as window}
use node_messager.Hub.{
  Hub, Goroutine, dispatch, Event, stopped, registered, unregistered, arrived, has, without,
  include, new, keep, step, run,
}

abbrev pub heard_as :
    {C : Type 0} → String → Io → Option (Message C) → List (Call C) → List (Call C)
heard_as now io none rest = rest
heard_as now io (some m) rest = record { now = now; msg = m; type = received; io = io } ∷ rest

abbrev pub windowed :
    {C : Type 0} → Codec (List ℕ) (Entry C) → List (Call C) → Option (Store C) → Option (Store C)
windowed entries cs none = none
windowed entries cs (some s) = some (window entries cs s)

abbrev content : {C : Type 0} → Goroutine C → Message C
content (dispatch m) = m

contents : {C : Type 0} (ms : List (Message C)) → map content (map dispatch ms) ≡ ms
contents [] = refl
contents (m ∷ ms) = ap (λ r. m ∷ r) (contents ms)

contents_of :
    {C : Type 0} (cs : List (Call C))
    → map content (map (λ (c : Call C). dispatch c.msg) cs) ≡ map (λ c. c.msg) cs
contents_of [] = refl
contents_of (c ∷ cs) = ap (λ r. c.msg ∷ r) (contents_of cs)

-- Goroutines that were scheduled are those that were started.
undispatched :
    {C : Type 0} (d : Bool) (ms : List (Message C)) (cs : List (Call C))
    → Perm (map dispatch ms) (if d then map (λ c. dispatch c.msg) cs else [])
    → Perm ms (if d then map (λ c. c.msg) cs else [])
undispatched true ms cs p = rw (contents ms, contents_of cs) at (Perm.map content p)
undispatched false ms cs p = rw (contents ms) at (Perm.map content p)

module _ {Wire C : Type 0} (json : Codec Wire (Message C))
    (entries : Codec (List ℕ) (Entry C)) where
  -- The lines before the first stop that are messages, in their order.
  unfoldable pub heard : List (Event Wire) → List (Call C)
  heard [] = []
  heard (stopped ∷ evs) = []
  heard (registered c ∷ evs) = heard evs
  heard (unregistered c ∷ evs) = heard evs
  heard (arrived line now io ∷ evs) = heard_as now io (json.unmarshal line) (heard evs)

  -- What a run of `evs` owes, from the dispatcher and the store that the hub has.
  abbrev Hears : Bool → Option (Store C) → List (Call C) → Hub C × List (Goroutine C) → Type 0
  Hears d store cs r =
      (r.1 ≡ (if d then map (λ c. dispatch c.msg) cs else []))
      × (r.0.store ≡ windowed entries cs store)

  nothing_heard :
      (d : Bool) (store : Option (Store C))
      → ([] ≡ (if d then map (λ (c : Call C). dispatch c.msg) [] else []))
        × (store ≡ windowed entries [] store)
  unfolding window
  nothing_heard true none = (refl, refl)
  nothing_heard true (some s) = (refl, refl)
  nothing_heard false none = (refl, refl)
  nothing_heard false (some s) = (refl, refl)

  stored :
      (now : String) (io : Io) (m : Message C) (cs : List (Call C)) (store : Option (Store C))
      → windowed entries cs (keep json entries now io m store)
        ≡ windowed entries (heard_as now io (some m) cs) store
  unfolding window
  stored now io m cs none = refl
  stored now io m cs (some s) = refl

  message_heard :
      (m : Goroutine C) (out ms : List (Goroutine C)) (d : Bool)
      → out ≡ (if d then ms else [])
      → (if d then m ∷ [] else []) ++ out ≡ (if d then m ∷ ms else [])
  message_heard m out ms true e = ap (λ r. m ∷ r) e
  message_heard m out ms false e = e

  run-Hears :
      (evs : List (Event Wire)) (h : Hub C)
      → Hears h.has_dispatcher h.store (heard evs) (run json entries evs h)
  unfolding run heard step window
  run-Hears [] h = nothing_heard h.has_dispatcher h.store
  run-Hears (stopped ∷ evs) h = nothing_heard h.has_dispatcher h.store
  run-Hears (registered c ∷ evs) h = run-Hears evs (record h { clients = include c h.clients })
  run-Hears (unregistered c ∷ evs) h = elim (Bool-cases (has c h.clients)) [
    | inl t ↦
        rw t (run-Hears evs (record h { clients = without c h.clients; shut = h.shut ++ c ∷ [] }))
    | inr f ↦ rw f (run-Hears evs h)
  ]
  run-Hears (arrived line now io ∷ evs) h = elim (Option-cases (json.unmarshal line)) [
    | inl e ↦ rw e (run-Hears evs h)
    | inr (m, e) ↦
        let ih = run-Hears evs (record h { store = keep json entries now io m h.store }) in
        rw e (
          message_heard (dispatch m) _ _ h.has_dispatcher ih.0,
          ih.1 ∙ stored now io m (heard evs) h.store,
        )
  ]

  -- Whatever connections come, go and send, up to the first stop, and however the goroutines of
  -- `Run` are scheduled: the messages that the dispatcher was given so far, with those whose
  -- goroutine has not run yet, are the messages that decode, each once, in any order; the store is
  -- the store that saved them in the order in which they came. Without a dispatcher or a store
  -- nothing is given or saved. Lines that do not decode change nothing.
  pub run-heard :
      (evs : List (Event Wire)) (store : Option (Store C)) (d : Bool)
      (handled pending : List (Message C))
      → Perm (map dispatch (handled ++ pending)) (run json entries evs (new json entries store d)).1
      → Perm (handled ++ pending) (if d then map (λ c. c.msg) (heard evs) else [])
        × ((run json entries evs (new json entries store d)).0.store
            ≡ windowed entries (heard evs) store)
  unfolding new
  run-heard evs store d handled pending p =
      let h = run-Hears evs (new json entries store d) in
      (undispatched d (handled ++ pending) (heard evs) (rw h.0 at p), h.1)
