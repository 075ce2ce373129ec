-- ===== src/NodeState/Lookup.antt =====
-- Finding a node by its id, its name, or as the master.
use node_messager.Base.{
  ℕ, ◌≡◌, inl, inr, some, List, arith, ◌==◌, nat_eq, Option-cases, In, find_first, find_first-In,
  find_first-none,
}
use node_messager.Dto.{Node}
use node_messager.NodeState.{State, node_by_id}

-- No two nodes of the configuration share an id.
abbrev pub HasDistinctIds : List Node → Type 0
HasDistinctIds ns = (a b : Node) → In a ns → In b ns → a.id ≡ b.id → a ≡ b

-- With distinct ids, a configured node is found under its id.
pub node_by_id-In :
    (s : State) (n : Node) → HasDistinctIds s.all → In n s.all → node_by_id n.id s ≡ some n
unfolding node_by_id
node_by_id-In s n distinct i = elim (Option-cases (find_first (λ m. m.id == n.id) s.all)) [
  | inl e ↦ ground (arith, find_first-none (λ m. m.id == n.id) s.all e i)
  | inr (m, e) ↦
      let r = find_first-In (λ m. m.id == n.id) s.all e in ground (arith, distinct m n r.0 i)
]

-- Whatever a lookup by id returns is a configured node with that id.
pub node_by_id_sound :
    (s : State) (id : ℕ) {n : Node} → node_by_id id s ≡ some n → In n s.all × (n.id ≡ id)
unfolding node_by_id
node_by_id_sound s id e = let r = find_first-In (λ m. m.id == id) s.all e in (r.0, ground arith)
