-- ===== src/Service/Rows.antt =====
-- `localRows` and `unmarshalRows`: the rows of one table, by the table's name. A name is a text, the
-- list of its bytes.
use Prim.Native.Char.{code}
use node_messager.Base.{
  ℕ, String, ◌≡◌, refl, ap, Option, none, some, List, [], ◌∷◌, map, ◌==◌, list_eq, nat_eq,
  if◌then◌else◌,
}
use node_messager.Base.Retry.{Result, ok, err}
use node_messager.Dto.{Codec, IsFaithful, IngenieroRow, UsuarioRow, DispositivoRow, TicketRow}
use node_messager.Db.{
  Db, Ingeniero, Usuario, Dispositivo, Ticket, Answer, get_ingenieros, get_usuarios,
  get_dispositivos, get_tickets,
}

abbrev pub Text : Type 0
Text = List ℕ

-- The bytes of an ASCII text.
abbrev pub bytes : String → Text
bytes String.[] = []
bytes (String.◌∷◌ c s) = code c ∷ bytes s

-- A slice of rows of one type.
pub data Rows : Type 0 where
  ingenieros : List IngenieroRow → Rows
  usuarios : List UsuarioRow → Rows
  dispositivos : List DispositivoRow → Rows
  tickets : List TicketRow → Rows

pub data Table : Type 0 where
  ingenieros_table usuarios_table dispositivos_table tickets_table : Table

abbrev pub name : Table → Text
name ingenieros_table = bytes "INGENIEROS"
name usuarios_table = bytes "USUARIOS"
name dispositivos_table = bytes "DISPOSITIVOS"
name tickets_table = bytes "TICKETS"

-- The `switch` on the name.
unfoldable pub read_table : Text → Option Table
read_table t =
    if t == bytes "INGENIEROS"
    then some ingenieros_table
    else if t == bytes "USUARIOS"
    then some usuarios_table
    else if t == bytes "DISPOSITIVOS"
    then some dispositivos_table
    else if t == bytes "TICKETS"
    then some tickets_table
    else none

pub read_table-name : (t : Table) → read_table (name t) ≡ some t
unfolding read_table
read_table-name ingenieros_table = refl
read_table-name usuarios_table = refl
read_table-name dispositivos_table = refl
read_table-name tickets_table = refl

abbrev pub ingeniero_row : Ingeniero → IngenieroRow
ingeniero_row r = record {
  id = r.id;
  nombre = r.nombre;
  sucursal_id = r.sucursal_id;
  disponible = r.disponible;
}

abbrev pub usuario_row : Usuario → UsuarioRow
usuario_row r = record { id = r.id; nombre = r.nombre; sucursal_id = r.sucursal_id }

abbrev pub dispositivo_row : Dispositivo → DispositivoRow
dispositivo_row r = record {
  id = r.id;
  nombre = r.nombre;
  tipo = r.tipo;
  sucursal_id = r.sucursal_id;
  ingeniero_id = r.ingeniero_id;
}

abbrev pub ticket_row : Ticket → TicketRow
ticket_row t = record {
  id = t.id;
  id_usuario = t.id_usuario;
  id_ingeniero = t.id_ingeniero;
  id_sucursal = t.id_sucursal;
  id_dispositivo = t.id_dispositivo;
  estado = t.estado;
  folio = t.folio;
  created_at = t.created_at;
  closed_at = t.closed_at;
}

-- The error's text is not modelled.
pub data RowsError : Type 0 where
  unknown_table : RowsError
  database_failed : String → RowsError

-- `if err != nil { return nil, err }`, and the rows in the form in which they travel.
abbrev pub sent_as :
    {A B : Type 0} → (List B → Rows) → (A → B) → Result String (List A) → Result RowsError Rows
sent_as wrap row (err x) = err (database_failed x)
sent_as wrap row (ok rows) = ok (wrap (map row rows))

unfoldable pub local_rows : Answer → Option Table → Db → Result RowsError Rows
unfolding get_ingenieros get_usuarios get_dispositivos get_tickets
local_rows io none d = err unknown_table
local_rows io (some ingenieros_table) d = sent_as ingenieros ingeniero_row (get_ingenieros io d)
local_rows io (some usuarios_table) d = sent_as usuarios usuario_row (get_usuarios io d)
local_rows io (some dispositivos_table) d =
    sent_as dispositivos dispositivo_row (get_dispositivos io d)
local_rows io (some tickets_table) d = sent_as tickets ticket_row (get_tickets io d)

-- The rows of a table, without the database's errors.
abbrev pub rows_of : Table → Db → Rows
rows_of ingenieros_table d = ingenieros (map ingeniero_row d.ingenieros)
rows_of usuarios_table d = usuarios (map usuario_row d.usuarios)
rows_of dispositivos_table d = dispositivos (map dispositivo_row d.dispositivos)
rows_of tickets_table d = tickets (map ticket_row d.tickets)

-- encoding/json at the slices of rows.
pub record RowCodecs (Raw : Type 0) : Type 0 where
  pub ingenieros : Codec Raw (List IngenieroRow)
  pub usuarios : Codec Raw (List UsuarioRow)
  pub dispositivos : Codec Raw (List DispositivoRow)
  pub tickets : Codec Raw (List TicketRow)

pub record AreFaithful {Raw : Type 0} (json : RowCodecs Raw) : Type 0 where
  pub ingenieros : IsFaithful json.ingenieros
  pub usuarios : IsFaithful json.usuarios
  pub dispositivos : IsFaithful json.dispositivos
  pub tickets : IsFaithful json.tickets

module _ {Raw : Type 0} (json : RowCodecs Raw) where
  abbrev pub marshal_rows : Rows → Raw
  marshal_rows (ingenieros rows) = json.ingenieros.marshal rows
  marshal_rows (usuarios rows) = json.usuarios.marshal rows
  marshal_rows (dispositivos rows) = json.dispositivos.marshal rows
  marshal_rows (tickets rows) = json.tickets.marshal rows

  abbrev pub wrapped : {B : Type 0} → (List B → Rows) → Option (List B) → Option Rows
  wrapped wrap none = none
  wrapped wrap (some rows) = some (wrap rows)

  unfoldable pub unmarshal_rows : Option Table → Raw → Option Rows
  unmarshal_rows none raw = none
  unmarshal_rows (some ingenieros_table) raw = wrapped ingenieros (json.ingenieros.unmarshal raw)
  unmarshal_rows (some usuarios_table) raw = wrapped usuarios (json.usuarios.unmarshal raw)
  unmarshal_rows (some dispositivos_table) raw =
      wrapped dispositivos (json.dispositivos.unmarshal raw)
  unmarshal_rows (some tickets_table) raw = wrapped tickets (json.tickets.unmarshal raw)

  pub unmarshal_rows-rows_of :
      (t : Table) (d : Db)
      → AreFaithful json
      → unmarshal_rows (some t) (marshal_rows (rows_of t d)) ≡ some (rows_of t d)
  unfolding unmarshal_rows
  unmarshal_rows-rows_of ingenieros_table d f = ap (wrapped ingenieros) (f.ingenieros _)
  unmarshal_rows-rows_of usuarios_table d f = ap (wrapped usuarios) (f.usuarios _)
  unmarshal_rows-rows_of dispositivos_table d f = ap (wrapped dispositivos) (f.dispositivos _)
  unmarshal_rows-rows_of tickets_table d f = ap (wrapped tickets) (f.tickets _)

pub local_rows-rows_of : (t : Table) (d : Db) → local_rows none (some t) d ≡ ok (rows_of t d)
unfolding local_rows
local_rows-rows_of ingenieros_table d = refl
local_rows-rows_of usuarios_table d = refl
local_rows-rows_of dispositivos_table d = refl
local_rows-rows_of tickets_table d = refl
