-- ===== src/Service/Tests.antt =====
-- Instances of the theorems.
use node_messager.Base.{
  List, true, ℕ, ◌≤◌, String, ◌≡◌, refl, inl, inr, none, some, [], ◌∷◌, arith, In,
}
use node_messager.Dto.{Node, IngenieroRow, DispositivoRow, TicketRow}
use node_messager.Base.Dict
use node_messager.NodeState.{alive_peers, mark_dead, is_alive}
use node_messager.NodeState
use node_messager.NodeState.Alive.{alive_peers_iff}
use node_messager.Fixtures.{s1, s3, started, plain}
use node_messager.Commit.Rows.{IsPlaced}
use node_messager.Service.Fleet.{local_tickets, redistribute_tickets_idle}
use node_messager.Db.{
  Db, empty, insert_ingeniero, insert_usuario, insert_dispositivo, insert_or_ignore,
  count_ingenieros,
}
use node_messager.Base.Retry.{ok, retry}
use node_messager.Base.{if◌then◌else◌, ◌==◌, nat_eq, false}
use node_messager.Service.Assign.{new_ticket, first_available}
use node_messager.Service.Raise.{Answers, follow_all, raise_once, raise_ticket, raise_ticket_locked}
use node_messager.Service.Raise.Chosen.{Succeeds, raise_once-Succeeds}
use node_messager.Db.Seed.{SeedData, Io, seed}
use node_messager.Service.Ids.{new_id, set_min_id_counter, IsAbove, new_id-IsAbove-seed}
use node_messager.Service.Query.{Wait, list_all}
use node_messager.Service.Assign.{
  distribute_device, redistribute_tickets, reassigned, open_tickets, available, assign,
}
use node_messager.Service.Assign.Least.{devices_of, distribute_device-least}
use node_messager.Service.Assign.Redistribution.{IsMoved, redistribute_tickets-IsMoved}

abbrev rows : SeedData
rows = record {
  ingenieros =
      record { id = 10000000001; nombre = "Ana"; sucursal_id = 1 }
      ∷ record { id = 20000000001; nombre = "Luis"; sucursal_id = 2 }
      ∷ [];
  usuarios = record { id = 10000000002; nombre = "Eva"; sucursal_id = 1 } ∷ [];
  dispositivos =
      record {
        id = 10000000003;
        nombre = "PC";
        tipo = "laptop";
        sucursal_id = 1;
        ingeniero_id = 10000000001;
      }
      ∷ [];
}

abbrev well : Io
well = record { ingeniero = λ id. none; usuario = λ id. none; dispositivo = λ id. none }

nobody : count_ingenieros empty ≡ 0
unfolding count_ingenieros
nobody = refl

seeds_well : (seed 1 rows none well empty).1 ≡ none
unfolding seed insert_ingeniero insert_usuario insert_dispositivo insert_or_ignore count_ingenieros
seeds_well = refl

new_id-IsAbove-seed_example :
    IsAbove 1 rows (new_id 1 (set_min_id_counter (seed 1 rows none well empty).0.1 5)).0
new_id-IsAbove-seed_example = new_id-IsAbove-seed 1 5 rows well empty nobody seeds_well

abbrev ana : IngenieroRow
ana = record { id = 10000000001; nombre = "Ana"; sucursal_id = 1; disponible = 1 }

abbrev luis : IngenieroRow
luis = record { id = 20000000001; nombre = "Luis"; sucursal_id = 2; disponible = 1 }

abbrev device : DispositivoRow
device = record {
  id = 10000000003;
  nombre = "PC";
  tipo = "laptop";
  sucursal_id = 1;
  ingeniero_id = 10000000001;
}

distribute_device-least_example :
    (row : DispositivoRow) × (chosen : IngenieroRow) × (distribute_device
        (some (ana ∷ luis ∷ []))
        (some (device ∷ []))
        "printer"
        "laser"
        3
      ≡ some (row, 4))
    × In chosen (ana ∷ luis ∷ [])
    × ((x : IngenieroRow)
        → In x (ana ∷ luis ∷ [])
        → devices_of chosen.id (device ∷ []) ≤ devices_of x.id (device ∷ []))
    × (row.ingeniero_id ≡ chosen.id)
    × (row.sucursal_id ≡ chosen.sucursal_id)
    × (row.id ≡ (new_id chosen.sucursal_id 3).0)
distribute_device-least_example =
    distribute_device-least ana (luis ∷ []) (device ∷ []) "printer" "laser" 3

abbrev ticket : TicketRow
ticket = record {
  id = 10000000004;
  id_usuario = 10000000002;
  id_ingeniero = 10000000001;
  id_sucursal = 1;
  id_dispositivo = 10000000003;
  estado = "ABIERTO";
  folio = "";
  created_at = "t";
  closed_at = "";
}

moves_ticket :
    In
      (reassigned ticket luis)
      (redistribute_tickets 1 (some (ticket ∷ [])) (some (ana ∷ luis ∷ [])))
unfolding redistribute_tickets open_tickets available assign
moves_ticket = inl refl

redistribute_tickets-IsMoved_example :
    IsMoved 1 (ticket ∷ []) (ana ∷ luis ∷ []) (reassigned ticket luis)
redistribute_tickets-IsMoved_example =
    redistribute_tickets-IsMoved 1 (ticket ∷ []) (ana ∷ luis ∷ []) (reassigned ticket luis)
      moves_ticket

-- Every branch has one open ticket.
abbrev fleet : ℕ → Db
fleet n = record {
  ingenieros = [];
  usuarios = [];
  dispositivos = [];
  tickets =
      record {
        id = 1;
        id_usuario = 2;
        id_ingeniero = 3;
        id_sucursal = n;
        id_dispositivo = 4;
        estado = "ABIERTO";
        folio = "";
        created_at = "t";
        closed_at = "";
      }
      ∷ [];
}

fleet-IsPlaced : (n : ℕ) → IsPlaced n (fleet n)
fleet-IsPlaced n = record {
  ingenieros = (tt, tt);
  usuarios = (tt, tt);
  dispositivos = (tt, tt);
  tickets = ((refl, tt), (refl, tt));
}

three_is_asked : (n : Node) → In n (s3 ∷ []) → In n (alive_peers (mark_dead 2 (started s1)))
unfolding mark_dead is_alive NodeState.new Dict.lookup Dict.insert Dict.delete
three_is_asked n (inl e) = rw e (
    (alive_peers_iff (mark_dead 2 (started s1)) s3).1
      (inr (inr (inl refl)), (λ q. omega arith), refl))
three_is_asked n (inr x) = absurd x

redistribute_tickets_idle_example :
    redistribute_tickets 2
      (list_all {R = List TicketRow} some
        (some (local_tickets (fleet 1)))
        1
        Wait.ready
        (record { expected = 1; results = local_tickets (fleet 3) ∷ []; closed = true }))
      (some (ana ∷ luis ∷ []))
    ≡ []
unfolding NodeState.new
redistribute_tickets_idle_example =
    redistribute_tickets_idle plain fleet (started s1) 2 (s3 ∷ []) Wait.ready
      (record { expected = 1; results = local_tickets (fleet 3) ∷ []; closed = true }) 1 (λ p. refl)
      (λ e. omega arith) fleet-IsPlaced three_is_asked refl (some (ana ∷ luis ∷ []))

abbrev folio : ℕ → ℕ → ℕ → ℕ → String
folio u i s t = "folio"

-- The first attempt gets no lock; the others find an engineer.
abbrev meets : ℕ → Answers
meets n = record {
  lock = if n == 1 then some "timeout" else none;
  engineers = ok (ana ∷ luis ∷ []);
  inserted = none;
  now = "t";
}

raise_ticket_locked_example :
    follow_all (some false) (raise_ticket s1 folio 5 6 meets (λ n. false) 7).0.1 ≡ some false
raise_ticket_locked_example = raise_ticket_locked s1 folio 5 6 meets (λ n. false) 7

second_attempt : (raise_ticket s1 folio 5 6 meets (λ n. false) 7).1 ≡ ok tt
unfolding raise_ticket raise_once retry new_ticket first_available new_id
second_attempt = refl

raised_well : (raise_once s1 folio 5 6 (meets 2) 7).1 ≡ ok tt
unfolding raise_once new_ticket first_available new_id
raised_well = refl

raise_once-Succeeds_example :
    ((meets 2).lock ≡ none)
    × Succeeds s1 folio 5 6 (meets 2) 7 (raise_once s1 folio 5 6 (meets 2) 7).0.1
raise_once-Succeeds_example = raise_once-Succeeds s1 folio 5 6 (meets 2) 7 raised_well
