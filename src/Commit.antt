-- ===== src/Commit.antt =====
-- cmd/main.go: `buildCommitHandler`, which applies a committed operation to a node's tables.
pub mod Rows
pub mod Placement
pub mod Repeat
mod Tests
use node_messager.Base.{
  ℕ, String, Bool, true, false, not, Option, none, some, List, [], ◌∷◌, ◌==◌, nat_eq, string_eq,
  if◌then◌else◌,
}
use node_messager.Dto.{Node, Codec, UsuarioRow, IngenieroRow, DispositivoRow, TicketRow}
use node_messager.Db.{
  Db, Ticket, Answer, insert_usuario, insert_ingeniero, insert_dispositivo, insert_ticket_full,
  update_ticket_folio, close_ticket, set_ingeniero_disponible,
}

pub data Operation : Type 0 where
  insert_usuario_op insert_ingeniero_op insert_dispositivo_op : Operation
  insert_ticket_op update_ticket_folio_op close_ticket_op : Operation
  update_ingeniero_disponible_op unknown_op : Operation

-- The cases of the `switch`; INSERT_TICKET and REASSIGN_TICKET share one.
unfoldable pub read_operation : String → Operation
read_operation s =
    if s == "INSERT_USUARIO"
    then insert_usuario_op
    else if s == "INSERT_INGENIERO"
    then insert_ingeniero_op
    else if s == "INSERT_DISPOSITIVO"
    then insert_dispositivo_op
    else if s == "INSERT_TICKET"
    then insert_ticket_op
    else if s == "REASSIGN_TICKET"
    then insert_ticket_op
    else if s == "UPDATE_TICKET_FOLIO"
    then update_ticket_folio_op
    else if s == "CLOSE_TICKET"
    then close_ticket_op
    else if s == "UPDATE_INGENIERO_DISPONIBLE"
    then update_ingeniero_disponible_op
    else unknown_op

pub record FolioUpdate : Type 0 where
  pub id_ticket : ℕ
  pub folio : String

pub record CloseData : Type 0 where
  pub id_ticket : ℕ
  pub id_ingeniero : ℕ

pub record Codecs (Raw : Type 0) : Type 0 where
  pub usuario : Codec Raw UsuarioRow
  pub ingeniero : Codec Raw IngenieroRow
  pub dispositivo : Codec Raw DispositivoRow
  pub ticket : Codec Raw TicketRow
  pub folio : Codec Raw FolioUpdate
  pub close : Codec Raw CloseData

-- What the surroundings give a commit: the time, the driver's answers to the first and the second
-- statement, and the text of a decoding error.
pub record Context : Type 0 where
  pub now : String
  pub first : Answer
  pub second : Answer
  pub bad_json : String

-- `if err := json.Unmarshal(...); err != nil { return err }`
abbrev pub with_payload : {P : Type 0} → Context → Option P → Db → (P → Db × Answer) → Db × Answer
with_payload c none d f = (d, some c.bad_json)
with_payload c (some p) d f = f p

abbrev pub ticket_of : TicketRow → Ticket
ticket_of r = record {
  id = r.id;
  id_usuario = r.id_usuario;
  id_ingeniero = r.id_ingeniero;
  id_sucursal = r.id_sucursal;
  id_dispositivo = r.id_dispositivo;
  estado = r.estado;
  folio = r.folio;
  created_at = r.created_at;
  closed_at = "";
}

-- The second statement of CLOSE_TICKET, if the first one had no error.
abbrev pub then_release : Context → ℕ → Db × Answer → Db × Answer
then_release c id (d, some x) = (d, some x)
then_release c id (d, none) = set_ingeniero_disponible id 1 c.second d

module _ {Raw : Type 0} (json : Codecs Raw) (self : Node) (c : Context) where
  unfoldable pub apply_operation : Operation → Raw → Db → Db × Answer
  apply_operation insert_usuario_op body d = with_payload c (json.usuario.unmarshal body) d λ r.
      if not (r.sucursal_id == self.id)
      then (d, none)
      else insert_usuario r.id r.nombre r.sucursal_id c.first d
  apply_operation insert_ingeniero_op body d = with_payload c (json.ingeniero.unmarshal body) d λ r.
      if not (r.sucursal_id == self.id)
      then (d, none)
      else insert_ingeniero r.id r.nombre r.sucursal_id c.first d
  apply_operation insert_dispositivo_op body d =
      with_payload c (json.dispositivo.unmarshal body) d λ r.
        if not (r.sucursal_id == self.id)
        then (d, none)
        else insert_dispositivo r.id r.nombre r.tipo r.sucursal_id r.ingeniero_id c.first d
  apply_operation insert_ticket_op body d = with_payload c (json.ticket.unmarshal body) d λ r.
      if not (r.id_sucursal == self.id)
      then (d, none)
      else insert_ticket_full (ticket_of r) c.first d
  apply_operation update_ticket_folio_op body d =
      with_payload c (json.folio.unmarshal body) d
        λ p. update_ticket_folio p.id_ticket p.folio c.first d
  apply_operation close_ticket_op body d =
      with_payload c (json.close.unmarshal body) d
        λ p. then_release c p.id_ingeniero (close_ticket c.now p.id_ticket c.first d)
  apply_operation update_ingeniero_disponible_op body d =
      with_payload c (json.ingeniero.unmarshal body) d
        λ r. set_ingeniero_disponible r.id r.disponible c.first d
  apply_operation unknown_op body d = (d, none)

  unfoldable pub commit_handler : String → Raw → Db → Db × Answer
  unfolding apply_operation
  commit_handler operation body d = apply_operation (read_operation operation) body d
