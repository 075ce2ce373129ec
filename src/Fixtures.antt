-- ===== src/Fixtures.antt =====
-- Test data: the cluster of four nodes of the README, seen from each of its nodes.
pub mod Wires
pub mod Scanners
use node_messager.Base.{
  ℕ, ◌+◌, String, List, [], ◌∷◌, ◌==◌, nat_eq, if◌then◌else◌, some, inl, inr, arith,
}
use node_messager.Dto.{Node, Message, MessageType, Codec}
use node_messager.NodeState.{State}
use node_messager.NodeState
use node_messager.NodeState.Lookup.{HasDistinctIds}

abbrev pub sucursal : ℕ → String → Node
sucursal id name = record { id = id; name = name; host = "localhost"; port = 5000 + id }

abbrev pub s1 : Node
s1 = sucursal 1 "sucursal1"

abbrev pub s2 : Node
s2 = sucursal 2 "sucursal2"

abbrev pub s3 : Node
s3 = sucursal 3 "sucursal3"

abbrev pub s4 : Node
s4 = sucursal 4 "sucursal4"

abbrev pub cluster : List Node
cluster = s1 ∷ s2 ∷ s3 ∷ s4 ∷ []

-- What a node knows at the start, with node 1 as the master.
abbrev pub started : Node → State
started self = NodeState.new self cluster 1

abbrev pub branch : ℕ → String
branch n =
    if n == 1
    then "sucursal1"
    else if n == 2
    then "sucursal2"
    else if n == 3
    then "sucursal3"
    else "sucursal4"

-- The same for the node with an id.
abbrev pub view : ℕ → State
view n = started (sucursal n (branch n))

-- Contents that are payloads, with nothing to decode.
abbrev pub plain : {P : Type 0} → Codec P P
plain = record { marshal = λ p. p; unmarshal = some }

abbrev pub message : {P : Type 0} → MessageType → Node → P → Message P
message type from content = record {
  id = "m";
  type = type;
  from_node = from.name;
  to_node = "sucursal1";
  content = content;
  send_at = "2024-01-01T00:00:00Z";
}

pub pair-HasDistinctIds : HasDistinctIds (s1 ∷ s2 ∷ [])
pair-HasDistinctIds a b (inl p) (inl q) e = ground arith
pair-HasDistinctIds a b (inl p) (inr (inl q)) e = ground arith
pair-HasDistinctIds a b (inr (inl p)) (inl q) e = ground arith
pair-HasDistinctIds a b (inr (inl p)) (inr (inl q)) e = ground arith
pair-HasDistinctIds a b (inl p) (inr (inr x)) e = absurd x
pair-HasDistinctIds a b (inr (inl p)) (inr (inr x)) e = absurd x
pair-HasDistinctIds a b (inr (inr x)) j e = absurd x
