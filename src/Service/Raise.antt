-- ===== src/Service/Raise.antt =====
-- `raiseTicket` and `RaiseTicket`, with what the lock, the query and the proposals give back as
-- `Answers`. The answers to the last two proposals are only logged. `folio` is what fmt.Sprintf
-- makes of the four numbers.
pub mod Chosen
use node_messager.Base.{
  ℕ, String, ◌≡◌, refl, ◌∙◌, Bool, true, false, Option, none, some, List, [], ◌∷◌, ◌++◌, ap, arith,
  if◌then◌else◌,
}
use node_messager.Base.Retry.{Result, ok, err, retry, retry_keeps}
use node_messager.Dto.{Node, IngenieroRow, TicketRow}
use node_messager.Commit.{FolioUpdate}
use node_messager.Service.Assign.{new_ticket, first_available}

pub data Action : Type 0 where
  acquire release : Action
  -- the proposals INSERT_TICKET, UPDATE_TICKET_FOLIO and UPDATE_INGENIERO_DISPONIBLE
  insert_ticket : TicketRow → Action
  update_folio : FolioUpdate → Action
  update_ingeniero : IngenieroRow → Action

pub data Error : Type 0 where
  lock_failed list_failed insert_failed : String → Error
  no_engineer context_done : Error

pub record Answers : Type 0 where
  pub lock : Option String
  pub engineers : Result String (List IngenieroRow)
  pub inserted : Option String
  pub now : String

-- The counter of ids, the actions, and the result.
abbrev pub Raised : Type 0
Raised = (ℕ × List Action) × Result Error (Unit {0})

abbrev pub unavailable : ℕ → IngenieroRow
unavailable id = record { id = id; nombre = ""; sucursal_id = 0; disponible = 0 }

module _ (self : Node) (folio : ℕ → ℕ → ℕ → ℕ → String) (id_usuario id_dispositivo : ℕ) where
  abbrev pub folio_of : TicketRow → FolioUpdate
  folio_of t = record { id_ticket = t.id; folio = folio id_usuario t.id_ingeniero self.id t.id }

  -- The proposals, by the answer to the first one.
  abbrev pub propose_ticket : TicketRow → Option String → List Action × Result Error (Unit {0})
  propose_ticket t (some x) = (insert_ticket t ∷ [], err (insert_failed x))
  propose_ticket t none = (
    insert_ticket t
        ∷ update_folio (folio_of t)
        ∷ update_ingeniero (unavailable t.id_ingeniero)
        ∷ [],
    ok tt,
  )

  abbrev pub with_ticket : Answers → ℕ → Option (TicketRow × ℕ) → Raised
  with_ticket a counter none = ((counter, []), err no_engineer)
  with_ticket a counter (some (t, next)) = let p = propose_ticket t a.inserted in ((next, p.0), p.1)

  abbrev pub with_rows : Answers → ℕ → Result String (List IngenieroRow) → Raised
  with_rows a counter (err x) = ((counter, []), err (list_failed x))
  with_rows a counter (ok rows) =
      with_ticket a counter (new_ticket self id_usuario id_dispositivo a.now counter rows)

  -- `defer release()` runs on every return behind it.
  abbrev pub with_lock : Answers → ℕ → Option String → Raised
  with_lock a counter (some x) = ((counter, []), err (lock_failed x))
  with_lock a counter none =
      let r = with_rows a counter a.engineers in ((r.0.0, acquire ∷ r.0.1 ++ release ∷ []), r.1)

  unfoldable pub raise_once : Answers → ℕ → Raised
  raise_once a counter = with_lock a counter a.lock

  -- `stop n` is whether the context ends during the wait behind attempt `n`.
  unfoldable pub raise_ticket : (ℕ → Answers) → (ℕ → Bool) → ℕ → Raised
  unfolding raise_once
  raise_ticket answers stop counter =
      retry (λ n (c, log). let r = raise_once (answers n) c in ((r.0.0, log ++ r.0.1), r.1))
        (λ n. if stop n then some context_done else none) 3 1 no_engineer (counter, [])

-- Whether the lock is held after an action; none where the action must not happen.
abbrev pub follow : Bool → Action → Option Bool
follow false acquire = some true
follow false _ = none
follow true acquire = none
follow true release = some false
follow true _ = some true

unfoldable pub follow_all : Option Bool → List Action → Option Bool
follow_all none log = none
follow_all (some b) [] = some b
follow_all (some b) (x ∷ log) = follow_all (follow b x) log

follow_all-append :
    (b : Option Bool) (xs ys : List Action)
    → follow_all b (xs ++ ys) ≡ follow_all (follow_all b xs) ys
unfolding follow_all
follow_all-append none [] ys = refl
follow_all-append none (x ∷ xs) ys = refl
follow_all-append (some b) [] ys = refl
follow_all-append (some b) (x ∷ xs) ys = follow_all-append (follow b x) xs ys

module _ (self : Node) (folio : ℕ → ℕ → ℕ → ℕ → String) (id_usuario id_dispositivo : ℕ) where
  propose_ticket-follow :
      (t : TicketRow) (o : Option String)
      → follow_all (some true) (propose_ticket self folio id_usuario id_dispositivo t o).0
        ≡ some true
  unfolding follow_all
  propose_ticket-follow t none = refl
  propose_ticket-follow t (some x) = refl

  with_ticket-follow :
      (a : Answers) (c : ℕ) (o : Option (TicketRow × ℕ))
      → follow_all (some true) (with_ticket self folio id_usuario id_dispositivo a c o).0.1
        ≡ some true
  unfolding follow_all
  with_ticket-follow a c none = refl
  with_ticket-follow a c (some (t, next)) = propose_ticket-follow t a.inserted

  with_rows-follow :
      (a : Answers) (c : ℕ) (r : Result String (List IngenieroRow))
      → follow_all (some true) (with_rows self folio id_usuario id_dispositivo a c r).0.1
        ≡ some true
  unfolding follow_all
  with_rows-follow a c (err x) = refl
  with_rows-follow a c (ok rows) = with_ticket-follow a c _

  with_lock-follow :
      (a : Answers) (c : ℕ) (o : Option String)
      → follow_all (some false) (with_lock self folio id_usuario id_dispositivo a c o).0.1
        ≡ some false
  unfolding follow_all
  with_lock-follow a c (some x) = refl
  with_lock-follow a c none =
      let r = with_rows self folio id_usuario id_dispositivo a c a.engineers in
      follow_all-append (some true) r.0.1 (release ∷ [])
      ∙ ap (λ b. follow_all b (release ∷ [])) (with_rows-follow a c a.engineers)

  -- However the calls of a ticket's attempts end, each attempt takes the lock before it proposes
  -- anything and gives it back before it returns: in the actions of all the attempts together, no
  -- proposal is made without the lock, the lock is never taken twice, and it is not held at the end.
  pub raise_ticket_locked :
      (answers : ℕ → Answers) (stop : ℕ → Bool) (counter : ℕ)
      → follow_all
          (some false)
          (raise_ticket self folio id_usuario id_dispositivo answers stop counter).0.1
        ≡ some false
  unfolding raise_ticket raise_once follow_all
  raise_ticket_locked answers stop counter =
      retry_keeps _ _ (λ (s : ℕ × List Action). follow_all (some false) s.1 ≡ some false)
        (λ n (c, log) h.
          let a = answers n in
          follow_all-append (some false) log
            (with_lock self folio id_usuario id_dispositivo a c a.lock).0.1
          ∙ ap (λ b. follow_all b (with_lock self folio id_usuario id_dispositivo a c a.lock).0.1) h
          ∙ with_lock-follow a c a.lock)
        3 1 no_engineer (counter, []) refl
