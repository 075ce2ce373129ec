-- ===== src/Dto/Messages.antt =====
-- pkg/dto/message.go and pkg/node/node.go. A message's type is an enumeration here and a string on
-- the wire; `Wire` relates the two. `Raw` is the text of a content.
use node_messager.Base.{ℕ, String, Option, ◌≡◌, some}

pub record Node : Type 0 where
  pub id : ℕ
  pub name : String
  pub host : String
  pub port : ℕ

pub data MessageType : Type 0 where
  msg broadcast ping pong : MessageType
  propose vote_yes vote_no commit commit_ack : MessageType
  lock_request lock_grant lock_release lock_deny : MessageType
  election election_ok coordinator : MessageType
  query query_response assign_ticket close_ticket : MessageType
  add_device distribute node_dead redistribute : MessageType
  -- any other string
  unknown : String → MessageType

pub record Message (Raw : Type 0) : Type 0 where
  pub id : String
  pub type : MessageType
  pub from_node : String
  pub to_node : String
  pub content : Raw
  pub send_at : String

-- `json.Marshal` and `json.Unmarshal` at one payload type; `none` is a decoding error.
pub record Codec (Raw P : Type 0) : Type 0 where
  pub marshal : P → Raw
  pub unmarshal : Raw → Option P

-- What encoding/json documents of a struct of strings and numbers.
abbrev pub IsFaithful : {Raw P : Type 0} → Codec Raw P → Type 0
IsFaithful {P = P} c = (p : P) → c.unmarshal (c.marshal p) ≡ some p

-- One call of the sender pool by a handler: the target, the message's type and the payload, which
-- `SendJSON` marshals into the content. The handlers ignore the error that the call may return.
pub record Outgoing (P : Type 0) : Type 0 where
  pub to : Node
  pub type : MessageType
  pub payload : P
