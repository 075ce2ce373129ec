-- ===== src/Dto/Payloads.antt =====
-- pkg/dto/payloads.go. Identifiers are natural numbers.
use node_messager.Base.{ℕ, String, List}

-- `Data` is JSON text of another payload.
pub record ProposePayload (Raw : Type 0) : Type 0 where
  pub round_id : String
  pub operation : String
  pub body : Raw

pub record VotePayload : Type 0 where
  pub round_id : String

pub record CommitPayload (Raw : Type 0) : Type 0 where
  pub round_id : String
  pub operation : String
  pub body : Raw

pub record LockPayload : Type 0 where
  pub request_id : String
  pub resource : String

pub record ElectionPayload : Type 0 where
  pub candidate_id : ℕ

pub record CoordinatorPayload : Type 0 where
  pub master_id : ℕ

pub record NodeDeadPayload : Type 0 where
  pub dead_node_id : ℕ

pub record TicketRow : Type 0 where
  pub id : ℕ
  pub id_usuario : ℕ
  pub id_ingeniero : ℕ
  pub id_sucursal : ℕ
  pub id_dispositivo : ℕ
  pub estado : String
  pub folio : String
  pub created_at : String
  pub closed_at : String

pub record IngenieroRow : Type 0 where
  pub id : ℕ
  pub nombre : String
  pub sucursal_id : ℕ
  pub disponible : ℕ

pub record UsuarioRow : Type 0 where
  pub id : ℕ
  pub nombre : String
  pub sucursal_id : ℕ

pub record DispositivoRow : Type 0 where
  pub id : ℕ
  pub nombre : String
  pub tipo : String
  pub sucursal_id : ℕ
  pub ingeniero_id : ℕ

-- `Table` of these two is a text that is cut: the list of its bytes.
pub record QueryPayload : Type 0 where
  pub table : List ℕ
  pub requester_id : ℕ
  pub requester_host : String
  pub requester_port : ℕ

pub record QueryResponsePayload (Raw : Type 0) : Type 0 where
  pub table : List ℕ
  pub rows : Raw
  pub node_id : ℕ

pub record AddDevicePayload : Type 0 where
  pub nombre : String
  pub tipo : String
