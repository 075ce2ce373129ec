-- ===== src/Fixtures/Wires.antt =====
-- Test data: two nodes, one of which has a ticket, and a wire between them.
use node_messager.Base.{ℕ, Option, none, some, List, [], ◌∷◌, refl}
use node_messager.Dto.{
  Node, Codec, QueryPayload, QueryResponsePayload, IngenieroRow, UsuarioRow, DispositivoRow,
  TicketRow,
}
use node_messager.Db.{Db, Ticket}
use node_messager.NodeState
use node_messager.NodeState.{State}
use node_messager.Fixtures.{s1, s2}
use node_messager.Service.Rows.{RowCodecs, AreFaithful}

-- A wire that carries values, with nothing to decode.
pub data Wire : Type 0 where
  asked : QueryPayload → Wire
  answered : List ℕ → Wire → ℕ → Wire
  of_ingenieros : List IngenieroRow → Wire
  of_usuarios : List UsuarioRow → Wire
  of_dispositivos : List DispositivoRow → Wire
  of_tickets : List TicketRow → Wire

abbrev pub read_query : Wire → Option QueryPayload
read_query (asked p) = some p
read_query _ = none

abbrev pub read_response : Wire → Option (QueryResponsePayload Wire)
read_response (answered t r n) = some (record { table = t; rows = r; node_id = n })
read_response _ = none

abbrev pub read_ingenieros : Wire → Option (List IngenieroRow)
read_ingenieros (of_ingenieros rows) = some rows
read_ingenieros _ = none

abbrev pub read_usuarios : Wire → Option (List UsuarioRow)
read_usuarios (of_usuarios rows) = some rows
read_usuarios _ = none

abbrev pub read_dispositivos : Wire → Option (List DispositivoRow)
read_dispositivos (of_dispositivos rows) = some rows
read_dispositivos _ = none

abbrev pub read_tickets : Wire → Option (List TicketRow)
read_tickets (of_tickets rows) = some rows
read_tickets _ = none

abbrev pub query_json : Codec Wire QueryPayload
query_json = record { marshal = asked; unmarshal = read_query }

abbrev pub response_json : Codec Wire (QueryResponsePayload Wire)
response_json = record {
  marshal = λ p. answered p.table p.rows p.node_id;
  unmarshal = read_response;
}

abbrev pub rows_json : RowCodecs Wire
rows_json = record {
  ingenieros = record { marshal = of_ingenieros; unmarshal = read_ingenieros };
  usuarios = record { marshal = of_usuarios; unmarshal = read_usuarios };
  dispositivos = record { marshal = of_dispositivos; unmarshal = read_dispositivos };
  tickets = record { marshal = of_tickets; unmarshal = read_tickets };
}

pub rows_json-AreFaithful : AreFaithful rows_json
rows_json-AreFaithful = record {
  ingenieros = λ p. refl;
  usuarios = λ p. refl;
  dispositivos = λ p. refl;
  tickets = λ p. refl;
}

abbrev pub at_node : Node → State
at_node self = NodeState.new self (s1 ∷ s2 ∷ []) 1

abbrev pub ticket : Ticket
ticket = record {
  id = 20000000004;
  id_usuario = 2;
  id_ingeniero = 3;
  id_sucursal = 2;
  id_dispositivo = 4;
  estado = "ABIERTO";
  folio = "";
  created_at = "t";
  closed_at = "";
}

abbrev pub tables : Db
tables = record { ingenieros = []; usuarios = []; dispositivos = []; tickets = ticket ∷ [] }
