-- ===== src/Service/Assign.antt =====
-- Choosing engineers: `distributeDevice`, `raiseTicket` and `RedistributeTickets`, on the rows that
-- `ListAll` gives. Every row of a table has the table's row type.
pub mod Least
pub mod Redistribution
use node_messager.Base.{
  ℕ, suc, ◌+◌, ◌-◌, String, Bool, true, false, not, ◌&&◌, ◌||◌, Option, none, some, List, [], ◌∷◌,
  ltb, leb, ◌==◌, nat_eq, string_eq, if◌then◌else◌, select, find_first,
}
use node_messager.Base.Dict.{Dict, lookup, insert}
use node_messager.Dto.{Node, IngenieroRow, DispositivoRow, TicketRow}
use node_messager.Service.Ids.{new_id}

abbrev pub count : Option ℕ → ℕ
count none = 0
count (some n) = n

-- The loop over the devices: how many each engineer has.
unfoldable pub count_devices : List DispositivoRow → Dict ℕ ℕ → Dict ℕ ℕ
count_devices [] m = m
count_devices (r ∷ rs) m = count_devices rs (
    if not (r.ingeniero_id == 0)
    then insert r.ingeniero_id (suc (count (lookup r.ingeniero_id m))) m
    else m)

-- `minCount` and `chosen`, both unset at the start.
abbrev pub Best : Type 0
Best = Option (ℕ × IngenieroRow)

abbrev pub better : ℕ → IngenieroRow → Best → Best
better c e none = some (c, e)
better c e (some (low, chosen)) = if ltb c low then some (c, e) else some (low, chosen)

-- The loop over the engineers.
unfoldable pub pick : Dict ℕ ℕ → List IngenieroRow → Best → Best
pick counts [] best = best
pick counts (e ∷ es) best = pick counts es (better (count (lookup e.id counts)) e best)

-- `distributeDevice` up to its proposal: the row to insert and the counter of ids. The two lists are
-- the answers of `ListAll`, or none for an error.
abbrev pub place_device : String → String → ℕ → Best → Option (DispositivoRow × ℕ)
place_device nombre tipo counter none = none
place_device nombre tipo counter (some (c, chosen)) =
    let (id, next) = new_id chosen.sucursal_id counter in
    some (
      record {
        id = id;
        nombre = nombre;
        tipo = tipo;
        sucursal_id = chosen.sucursal_id;
        ingeniero_id = chosen.id;
      },
      next,
    )

unfoldable pub distribute_device :
    Option (List IngenieroRow)
    → Option (List DispositivoRow)
    → String
    → String
    → ℕ
    → Option (DispositivoRow × ℕ)
unfolding pick count_devices new_id
distribute_device none devices nombre tipo counter = none
distribute_device (some []) devices nombre tipo counter = none
distribute_device (some (e ∷ es)) none nombre tipo counter = none
distribute_device (some (e ∷ es)) (some devices) nombre tipo counter =
    place_device nombre tipo counter (pick (count_devices devices []) (e ∷ es) none)

-- The engineer of a new ticket.
unfoldable pub first_available : List IngenieroRow → Option IngenieroRow
first_available = find_first (λ e. e.disponible == 1)

-- `raiseTicket` between the list of engineers and the first proposal: the ticket, and the counter.
unfoldable pub new_ticket : Node → ℕ → ℕ → String → ℕ → List IngenieroRow → Option (TicketRow × ℕ)
unfolding first_available new_id
new_ticket self id_usuario id_dispositivo now counter rows = elim (first_available rows) [
  | none ↦ none
  | some chosen ↦
      let (id, next) = new_id self.id counter in
      some (
        record {
          id = id;
          id_usuario = id_usuario;
          id_ingeniero = chosen.id;
          id_sucursal = self.id;
          id_dispositivo = id_dispositivo;
          estado = "ABIERTO";
          folio = "";
          created_at = now;
          closed_at = "";
        },
        next,
      )
]

unfoldable pub open_tickets : ℕ → List TicketRow → List TicketRow
open_tickets dead = select (λ t. t.estado == "ABIERTO" && t.id_sucursal == dead)

unfoldable pub available : ℕ → List IngenieroRow → List IngenieroRow
available dead = select (λ e. e.disponible == 1 && not (e.sucursal_id == dead))

abbrev pub reassigned : TicketRow → IngenieroRow → TicketRow
reassigned t e = record {
  id = t.id;
  id_usuario = t.id_usuario;
  id_ingeniero = e.id;
  id_sucursal = e.sucursal_id;
  id_dispositivo = t.id_dispositivo;
  estado = "ABIERTO";
  folio = "";
  created_at = t.created_at;
  closed_at = "";
}

-- The loop over the tickets: each takes the next engineer, until there is none.
unfoldable pub assign : List TicketRow → List IngenieroRow → List TicketRow
assign [] es = []
assign (t ∷ ts) [] = []
assign (t ∷ ts) (e ∷ es) = reassigned t e ∷ assign ts es

-- `RedistributeTickets`: the rows that it proposes by REASSIGN_TICKET, in order. A proposal that
-- fails is logged and the loop goes on.
abbrev pub assign_to : ℕ → List TicketRow → Option (List IngenieroRow) → List TicketRow
assign_to dead ts none = []
assign_to dead ts (some rows) = assign ts (available dead rows)

unfoldable pub redistribute_tickets :
    ℕ → Option (List TicketRow) → Option (List IngenieroRow) → List TicketRow
unfolding open_tickets available assign
redistribute_tickets dead none engineers = []
redistribute_tickets dead (some rows) engineers = elim (open_tickets dead rows) [
  | [] ↦ []
  | t ∷ ts ↦ assign_to dead (t ∷ ts) engineers
]
