-- ===== src/Service/Assign/Redistribution.antt =====
-- What `RedistributeTickets` proposes.
use node_messager.Base.{
  ℕ, ◌≡◌, refl, ap, ◌≢◌, inl, inr, not, ◌&&◌, Option, some, List, [], ◌∷◌, arith, ◌==◌, nat_eq,
  string_eq, eq_of_==, In, In-of_select, All,
}
use node_messager.Dto.{IngenieroRow, TicketRow}
use node_messager.Service.Assign.{open_tickets, available, reassigned, assign, redistribute_tickets}

-- A proposed row: an open ticket of the dead branch goes to an available engineer of another branch,
-- and is an open ticket of that engineer and branch, with its id, user, device and date of creation
-- kept.
pub record IsMoved (dead : ℕ) (tickets : List TicketRow) (engineers : List IngenieroRow)
    (row : TicketRow) : Type 0 where
  pub ticket : TicketRow
  pub engineer : IngenieroRow
  pub listed : In ticket tickets
  pub offered : In engineer engineers
  pub was_open : (ticket.estado ≡ "ABIERTO") × (ticket.id_sucursal ≡ dead)
  pub was_free : (engineer.disponible ≡ 1) × (engineer.sucursal_id ≢ dead)
  pub same_ticket : row.id ≡ ticket.id
  pub same_user : row.id_usuario ≡ ticket.id_usuario
  pub same_device : row.id_dispositivo ≡ ticket.id_dispositivo
  pub same_date : row.created_at ≡ ticket.created_at
  pub new_engineer : row.id_ingeniero ≡ engineer.id
  pub new_branch : row.id_sucursal ≡ engineer.sucursal_id
  pub still_open : row.estado ≡ "ABIERTO"

assign-In :
    (ts : List TicketRow) (es : List IngenieroRow) (row : TicketRow)
    → In row (assign ts es)
    → (t : TicketRow) × (e : IngenieroRow) × In t ts × In e es × (row ≡ reassigned t e)
unfolding assign
assign-In [] es row i = absurd i
assign-In (t ∷ ts) [] row i = absurd i
assign-In (t ∷ ts) (e ∷ es) row (inl q) = (t, e, inl refl, inl refl, q)
assign-In (t ∷ ts) (e ∷ es) row (inr i) =
    let (u, v, j, k, q) = assign-In ts es row i in (u, v, inr j, inr k, q)

redistribute-assign :
    (dead : ℕ) (tickets : List TicketRow) (engineers : List IngenieroRow)
    → redistribute_tickets dead (some tickets) (some engineers)
      ≡ assign (open_tickets dead tickets) (available dead engineers)
unfolding redistribute_tickets
redistribute-assign dead tickets engineers = ground arith

-- Every row that is proposed moves an open ticket of the dead branch to an available engineer of
-- another branch: the row has the ticket's id, user, device and date of creation, the engineer's id
-- and branch, and is open.
pub redistribute_tickets-IsMoved :
    (dead : ℕ) (tickets : List TicketRow) (engineers : List IngenieroRow) (row : TicketRow)
    → In row (redistribute_tickets dead (some tickets) (some engineers))
    → IsMoved dead tickets engineers row
unfolding open_tickets available
redistribute_tickets-IsMoved dead tickets engineers row i =
    let (t, e, j, k, q) =
      assign-In _ _ row (rw (redistribute-assign dead tickets engineers) at i) in
    let a =
      In-of_select (λ (t : TicketRow). t.estado == "ABIERTO" && t.id_sucursal == dead) tickets j in
    let b =
      In-of_select (λ (e : IngenieroRow). e.disponible == 1 && not (e.sucursal_id == dead))
        engineers k in
    record {
      ticket = t;
      engineer = e;
      listed = a.0;
      offered = b.0;
      was_open = (ground (arith, a.1, eq_of_== t.estado "ABIERTO"), ground (arith, a.1));
      was_free = (ground (arith, b.1), ground (arith, b.1));
      same_ticket = ap (λ (r : TicketRow). r.id) q;
      same_user = ap (λ (r : TicketRow). r.id_usuario) q;
      same_device = ap (λ (r : TicketRow). r.id_dispositivo) q;
      same_date = ap (λ (r : TicketRow). r.created_at) q;
      new_engineer = ap (λ (r : TicketRow). r.id_ingeniero) q;
      new_branch = ap (λ (r : TicketRow). r.id_sucursal) q;
      still_open = ap (λ (r : TicketRow). r.estado) q;
    }

none_open :
    (dead : ℕ) (tickets : List TicketRow)
    → All (λ t. t.id_sucursal ≢ dead) tickets
    → open_tickets dead tickets ≡ []
unfolding open_tickets
none_open dead [] h = refl
none_open dead (t ∷ ts) h = ground (arith, h.0, none_open dead ts h.1)

-- If no listed ticket belongs to the dead branch, nothing is proposed.
pub redistribute_tickets-nothing :
    (dead : ℕ) (tickets : List TicketRow) (engineers : Option (List IngenieroRow))
    → All (λ t. t.id_sucursal ≢ dead) tickets
    → redistribute_tickets dead (some tickets) engineers ≡ []
unfolding redistribute_tickets
redistribute_tickets-nothing dead tickets engineers h =
    rw (none_open dead tickets h, redistribute_tickets) refl
