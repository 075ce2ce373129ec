-- ===== src/Dto/Wire.antt =====
-- The strings of pkg/dto/message.go.
use node_messager.Base.{
  String, ◌≡◌, refl, List, [], ◌∷◌, arith, ◌==◌, string_eq, eq_of_==, if◌then◌else◌, map,
}
use node_messager.Dto.Messages.{
  MessageType, msg, broadcast, ping, pong, propose, vote_yes, vote_no, commit, commit_ack,
  lock_request, lock_grant, lock_release, lock_deny, election, election_ok, coordinator, query,
  query_response, assign_ticket, close_ticket, add_device, distribute, node_dead, redistribute,
  unknown,
}

abbrev pub wire : MessageType → String
wire MessageType.msg = "MSG"
wire MessageType.broadcast = "BROADCAST"
wire MessageType.ping = "PING"
wire MessageType.pong = "PONG"
wire MessageType.propose = "PROPOSE"
wire MessageType.vote_yes = "VOTE_YES"
wire MessageType.vote_no = "VOTE_NO"
wire MessageType.commit = "COMMIT"
wire MessageType.commit_ack = "COMMIT_ACK"
wire MessageType.lock_request = "LOCK_REQUEST"
wire MessageType.lock_grant = "LOCK_GRANT"
wire MessageType.lock_release = "LOCK_RELEASE"
wire MessageType.lock_deny = "LOCK_DENY"
wire MessageType.election = "ELECTION"
wire MessageType.election_ok = "ELECTION_OK"
wire MessageType.coordinator = "COORDINATOR"
wire MessageType.query = "QUERY"
wire MessageType.query_response = "QUERY_RESPONSE"
wire MessageType.assign_ticket = "ASSIGN_TICKET"
wire MessageType.close_ticket = "CLOSE_TICKET"
wire MessageType.add_device = "ADD_DEVICE"
wire MessageType.distribute = "DISTRIBUTE"
wire MessageType.node_dead = "NODE_DEAD"
wire MessageType.redistribute = "REDISTRIBUTE"
wire (MessageType.unknown s) = s

-- The constants, in the source's order.
abbrev pub constants : List MessageType
constants =
    msg ∷ broadcast ∷ ping ∷ pong ∷ propose ∷ vote_yes ∷ vote_no ∷ commit ∷ commit_ack
    ∷ lock_request ∷ lock_grant ∷ lock_release ∷ lock_deny ∷ election ∷ election_ok ∷ coordinator
    ∷ query ∷ query_response ∷ assign_ticket ∷ close_ticket ∷ add_device ∷ distribute ∷ node_dead
    ∷ redistribute ∷ []

-- The type that a string stands for: how a `switch` on the string chooses its case.
unfoldable pub read_from : List MessageType → String → MessageType
read_from [] s = unknown s
read_from (t ∷ ts) s = let rest = read_from ts s in if wire t == s then t else rest

unfoldable pub of_wire : String → MessageType
unfolding read_from
of_wire = read_from constants

wire-read_from : (ts : List MessageType) (s : String) → wire (read_from ts s) ≡ s
unfolding read_from
wire-read_from [] s = refl
wire-read_from (t ∷ ts) s = ground (arith, eq_of_== (wire t) s, wire-read_from ts s)

-- Reading a type string loses nothing: writing the type again gives the same string, also for a
-- string that is none of the constants.
pub wire-of_wire : (s : String) → wire (of_wire s) ≡ s
unfolding of_wire
wire-of_wire = wire-read_from constants

-- The constants are pairwise different strings, so each of them is read as its own type.
pub of_wire-wire : map (λ t. of_wire (wire t)) constants ≡ constants
unfolding of_wire
of_wire-wire = refl
