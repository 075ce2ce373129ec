-- ===== src/NodeState/Alive.antt =====
-- Who counts as alive.
use node_messager.Base.{
  ℕ, ◌≡◌, refl, ◌≢◌, ◌↔◌, Bool, true, false, ◌||◌, List, [], ◌∷◌, arith, ◌==◌, nat_eq,
  if◌then◌else◌, In, In-select, In-of_select,
}
use node_messager.Base.Dict.{Dict, lookup, insert, lookup-insert}
use node_messager.Dto.{Node}
use node_messager.NodeState.{
  State, mark_all, new, flag, is_alive, alive_peers, mark_alive, mark_dead,
}

-- Does some node of the list have this id?
abbrev pub known : ℕ → List Node → Bool
known id [] = false
known id (n ∷ ns) = n.id == id || known id ns

flag-mark_all :
    (ns : List Node) (m : Dict ℕ Bool) (id : ℕ)
    → flag (lookup id (mark_all ns m)) ≡ (known id ns || flag (lookup id m))
unfolding mark_all
flag-mark_all [] m id = refl
flag-mark_all (n ∷ ns) m id =
    ground (arith, flag-mark_all ns (insert n.id true m) id, lookup-insert n.id id true m)

-- A new state holds exactly the configured nodes to be alive.
pub is_alive-new :
    (self : Node) (all : List Node) (master_id id : ℕ)
    → is_alive (new self all master_id) id ≡ known id all
unfolding is_alive new lookup
is_alive-new self all master_id id = ground (arith, flag-mark_all all [] id)

-- Marking a node alive or dead changes what `is_alive` says of that node, and of no other.
pub is_alive-mark :
    (s : State) (id j : ℕ)
    → (is_alive (mark_alive id s) j ≡ (if id == j then true else is_alive s j))
      × (is_alive (mark_dead id s) j ≡ (if id == j then false else is_alive s j))
unfolding is_alive mark_alive mark_dead
is_alive-mark s id j = (
  ground (arith, lookup-insert id j true s.alive),
  ground (arith, lookup-insert id j false s.alive),
)

-- The alive peers are exactly the configured nodes, other than the node itself, that are marked
-- alive.
pub alive_peers_iff :
    (s : State) (n : Node)
    → In n (alive_peers s) ↔ (In n s.all × (n.id ≢ s.self.id) × (is_alive s n.id ≡ true))
unfolding alive_peers
alive_peers_iff s n = (
  λ i. let r = In-of_select _ s.all i in (r.0, ground arith, ground arith),
  λ h. In-select _ s.all h.0 (ground (arith, h.1, h.2)),
)
