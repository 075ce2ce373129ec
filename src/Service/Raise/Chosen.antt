-- ===== src/Service/Raise/Chosen.antt =====
-- Who gets a ticket that was raised.
use node_messager.Base.{
  ℕ, String, ◌≡◌, refl, sym, subst, ap, ◌∙◌, inl, inr, Option, none, some, List, [], ◌∷◌, ◌++◌,
  arith, ◌==◌, nat_eq, eq_of_==, Option-cases, find_first-In, In,
}
use node_messager.Base.Retry.{Result, ok, err}
use node_messager.Dto.{Node, IngenieroRow, TicketRow}
use node_messager.Commit.{FolioUpdate}
use node_messager.Service.Ids.{new_id}
use node_messager.Service.Assign.{new_ticket, first_available}
use node_messager.Service.Raise.{
  Action, acquire, release, insert_ticket, update_folio, update_ingeniero, Answers, Raised,
  unavailable, folio_of, with_ticket, with_rows, with_lock, raise_once,
}

-- The ticket `t` was made for engineer `e`, one of `rows`.
pub record IsFor (self : Node) (counter : ℕ) (rows : List IngenieroRow) (t : TicketRow)
    (e : IngenieroRow) : Type 0 where
  pub listed : In e rows
  pub was_free : e.disponible ≡ 1
  pub assigned : t.id_ingeniero ≡ e.id
  pub placed : t.id_sucursal ≡ self.id
  pub numbered : t.id ≡ (new_id self.id counter).0

module _ (self : Node) (folio : ℕ → ℕ → ℕ → ℕ → String) (id_usuario id_dispositivo : ℕ) where
  new_ticket-IsFor :
      (now : String) (counter : ℕ) (rows : List IngenieroRow) (t : TicketRow) (next : ℕ)
      → new_ticket self id_usuario id_dispositivo now counter rows ≡ some (t, next)
      → (e : IngenieroRow) × IsFor self counter rows t e
  unfolding new_ticket first_available new_id
  new_ticket-IsFor now counter rows t next q = elim (Option-cases (first_available rows)) [
    | inl n ↦ absurd (cc (rw (n, new_ticket) at q))
    | inr (e, s) ↦
        let i = find_first-In (λ (e : IngenieroRow). e.disponible == 1) rows s in
        (
          e,
          record {
            listed = i.0;
            was_free = eq_of_== e.disponible 1 i.1;
            assigned = ground (arith, s, q);
            placed = ground (arith, s, q);
            numbered = ground (arith, s, q);
          },
        )
  ]

  -- A success of an attempt: its ticket, the engineer that the ticket was made for, the folio that
  -- the ticket is given, and the update of that engineer, which makes the engineer unavailable.
  pub record Succeeds (a : Answers) (counter : ℕ) (log : List Action) : Type 0 where
    pub rows : List IngenieroRow
    pub ticket : TicketRow
    pub engineer : IngenieroRow
    pub answered : a.engineers ≡ ok rows
    pub made_for : IsFor self counter rows ticket engineer
    pub titled : FolioUpdate
    pub busy : IngenieroRow
    pub actions :
        log
        ≡ acquire
          ∷ insert_ticket ticket
          ∷ update_folio titled
          ∷ update_ingeniero busy
          ∷ release
          ∷ []
    pub of_ticket : titled.id_ticket ≡ ticket.id
    pub title : titled.folio ≡ folio id_usuario engineer.id self.id ticket.id
    pub of_engineer : busy.id ≡ engineer.id
    pub taken : busy.disponible ≡ 0

  with_ticket-Succeeds :
      (a : Answers) (counter : ℕ) (rows : List IngenieroRow) (o : Option (TicketRow × ℕ))
      → a.engineers ≡ ok rows
      → new_ticket self id_usuario id_dispositivo a.now counter rows ≡ o
      → (with_ticket self folio id_usuario id_dispositivo a counter o).1 ≡ ok tt
      → Succeeds a counter (
          acquire ∷ (with_ticket self folio id_usuario id_dispositivo a counter o).0.1
          ++ release ∷ [])
  with_ticket-Succeeds a counter rows none q n r = absurd (cc r)
  with_ticket-Succeeds a counter rows (some (t, next)) q n r =
      let (e, h) = new_ticket-IsFor a.now counter rows t next n in
      elim (Option-cases a.inserted) [
        | inl s ↦ record {
          rows = rows;
          ticket = t;
          engineer = e;
          answered = q;
          made_for = h;
          titled = folio_of self folio id_usuario id_dispositivo t;
          busy = unavailable t.id_ingeniero;
          actions = rw s refl;
          of_ticket = refl;
          title = ap (λ (i : ℕ). folio id_usuario i self.id t.id) h.assigned;
          of_engineer = h.assigned;
          taken = refl;
        }
        | inr (x, s) ↦ absurd (cc (rw s at r))
      ]

  with_rows-Succeeds :
      (a : Answers) (counter : ℕ) (r : Result String (List IngenieroRow))
      → a.engineers ≡ r
      → (with_rows self folio id_usuario id_dispositivo a counter r).1 ≡ ok tt
      → Succeeds a counter (
          acquire ∷ (with_rows self folio id_usuario id_dispositivo a counter r).0.1
          ++ release ∷ [])
  with_rows-Succeeds a counter (err x) q r = absurd (cc r)
  with_rows-Succeeds a counter (ok rows) q r = with_ticket-Succeeds a counter rows _ q refl r

  -- An attempt that ends without an error had the lock and a list of engineers, and made a ticket of
  -- its own branch, under the branch's next id, for a listed engineer who was available; under the
  -- lock it proposed the ticket, then the ticket's folio, made of the user, the engineer, the branch
  -- and the ticket, and then an update of that engineer with 0 for the availability.
  pub raise_once-Succeeds :
      (a : Answers) (counter : ℕ)
      → (raise_once self folio id_usuario id_dispositivo a counter).1 ≡ ok tt
      → (a.lock ≡ none)
        × Succeeds a counter (raise_once self folio id_usuario id_dispositivo a counter).0.1
  unfolding raise_once
  raise_once-Succeeds a counter r = elim (Option-cases a.lock) [
    | inl f ↦
        let q : (raise_once self folio id_usuario id_dispositivo a counter)
            ≡ with_lock self folio id_usuario id_dispositivo a counter none =
          rw f refl in
        (
          f,
          subst (λ (x : Raised). Succeeds a counter x.0.1) (sym q)
              (with_rows-Succeeds a counter a.engineers refl
                (sym (ap (λ (x : Raised). x.1) q) ∙ r)),
        )
    | inr (x, f) ↦ absurd (cc (rw f at r))
  ]
