-- ===== src/Service/Fleet.antt =====
-- `localRows`, and what a redistribution finds in the rows of all the nodes.
use node_messager.Base.{
  ℕ, ◌≡◌, refl, sym, ◌∙◌, ◌≢◌, inl, inr, Option, some, List, [], ◌∷◌, ◌++◌, map, arith, ltb, nat_eq,
  ==_of_eq, Bool-cases, In, All,
}
use node_messager.Dto.{Node, Codec, IsFaithful, TicketRow, IngenieroRow}
use node_messager.NodeState.{State, alive_peers, mark_dead}
use node_messager.NodeState.Alive.{alive_peers_iff, is_alive-mark}
use node_messager.Db.{Db, Ticket}
use node_messager.Commit.Rows.{IsPlaced}
use node_messager.Service.Query.{Collector, Wait, ready, timed_out, context_done, merge, list_all}
use node_messager.Service.Rows.{ticket_row}
use node_messager.Service.Assign.{redistribute_tickets}
use node_messager.Service.Assign.Redistribution.{redistribute_tickets-nothing}

-- The case TICKETS of `localRows`.
abbrev pub local_tickets : Db → List TicketRow
local_tickets d = map ticket_row d.tickets

-- The tickets of another branch than the dead one.
abbrev pub Elsewhere : ℕ → List TicketRow → Type 0
Elsewhere dead = All (λ t. t.id_sucursal ≢ dead)

placed-Elsewhere :
    (n dead : ℕ) (ts : List Ticket)
    → n ≢ dead
    → All (λ t. t.id_sucursal ≡ n) ts
    → Elsewhere dead (map ticket_row ts)
placed-Elsewhere n dead [] d h = tt
placed-Elsewhere n dead (t ∷ ts) d h = (λ e. d (sym h.0 ∙ e), placed-Elsewhere n dead ts d h.1)

append-Elsewhere :
    (dead : ℕ) (xs ys : List TicketRow)
    → Elsewhere dead xs
    → Elsewhere dead ys
    → Elsewhere dead (xs ++ ys)
append-Elsewhere dead [] ys h k = k
append-Elsewhere dead (x ∷ xs) ys h k = (h.0, append-Elsewhere dead xs ys h.1 k)

-- The nodes' databases, and the answers that their `HandleQuery` gives about TICKETS.
module _ {Raw : Type 0} (json : Codec Raw (List TicketRow)) (fleet : ℕ → Db) where
  abbrev pub answers : List Node → List Raw
  answers = map (λ n. json.marshal (local_tickets (fleet n.id)))

  merge-Elsewhere :
      (dead : ℕ) (rows : List TicketRow) (ns : List Node)
      → IsFaithful json
      → Elsewhere dead rows
      → ((n : Node) → In n ns → Elsewhere dead (local_tickets (fleet n.id)))
      → Elsewhere dead (merge json.unmarshal rows (answers ns))
  unfolding merge
  merge-Elsewhere dead rows [] f h k = h
  merge-Elsewhere dead rows (n ∷ ns) f h k =
      rw (f (local_tickets (fleet n.id)), merge)
        (merge-Elsewhere dead (rows ++ local_tickets (fleet n.id)) ns f
          (append-Elsewhere dead rows _ h (k n (inl refl))) (λ m i. k m (inr i)))

  not_dead :
      (st : State) (dead : ℕ) (n : Node) → In n (alive_peers (mark_dead dead st)) → n.id ≢ dead
  not_dead st dead n i e =
      let up = ((alive_peers_iff (mark_dead dead st) n).0 i).2 in
      let m = (is_alive-mark st dead n.id).1 in ground (arith, up, m, e, ==_of_eq dead n.id)

  list_all-Elsewhere :
      (dead : ℕ) (own : List TicketRow) (ns : List Node) (peers : ℕ) (w : Wait) (c : Collector Raw)
      → c.results ≡ answers ns
      → Elsewhere dead (merge json.unmarshal own (answers ns))
      → (engineers : Option (List IngenieroRow))
      → redistribute_tickets dead (list_all json.unmarshal (some own) peers w c) engineers ≡ []
  unfolding list_all redistribute_tickets
  list_all-Elsewhere dead own ns peers ready c q h es =
      rw q (redistribute_tickets-nothing dead (merge json.unmarshal own (answers ns)) es h)
  list_all-Elsewhere dead own ns peers timed_out c q h es =
      rw q (redistribute_tickets-nothing dead (merge json.unmarshal own (answers ns)) es h)
  list_all-Elsewhere dead own ns peers context_done c q h es = elim (Bool-cases (ltb 0 peers)) [
    | inl t ↦ rw t refl
    | inr f ↦
        rw (f, q) (redistribute_tickets-nothing dead (merge json.unmarshal own (answers ns)) es h)
  ]

  -- A redistribution finds nothing to move: where every node's tables hold that node's rows alone,
  -- and the answers come from peers that are alive once the dead node is marked dead, no row is
  -- proposed, however the wait for the answers ends. The codec is faithful and the node that
  -- redistributes is another than the dead one.
  pub redistribute_tickets_idle :
      (st : State) (dead : ℕ) (ns : List Node) (w : Wait) (c : Collector Raw) (peers : ℕ)
      → IsFaithful json
      → st.self.id ≢ dead
      → ((n : ℕ) → IsPlaced n (fleet n))
      → ((n : Node) → In n ns → In n (alive_peers (mark_dead dead st)))
      → c.results ≡ answers ns
      → (engineers : Option (List IngenieroRow))
      → redistribute_tickets dead
          (list_all json.unmarshal (some (local_tickets (fleet st.self.id))) peers w c)
          engineers
        ≡ []
  redistribute_tickets_idle st dead ns w c peers f d placed asked q =
      list_all-Elsewhere dead (local_tickets (fleet st.self.id)) ns peers w c q (
        merge-Elsewhere dead (local_tickets (fleet st.self.id)) ns f
          (placed-Elsewhere st.self.id dead _ d (placed st.self.id).tickets.1)
          λ n i.
            placed-Elsewhere n.id dead _ (not_dead st dead n (asked n i)) (placed n.id).tickets.1)
