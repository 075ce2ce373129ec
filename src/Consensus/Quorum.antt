-- ===== src/Consensus/Quorum.antt =====
-- A quorum is a strict majority of the configured nodes, and two quorums share a node.
use node_messager.Base.{
  ℕ, ◌+◌, ◌*◌, ◌≤◌, ◌<◌, ◌≡◌, refl, inl, inr, Bool, true, List, [], ◌∷◌, arith, Bool-cases, length,
  select, In,
}
use node_messager.Dto.{Node}
use node_messager.Consensus.{quorum}

-- The quorum of one node or more is more than half of the nodes, and no more than there are.
pub quorum-majority : (total : ℕ) → 0 < total → (total < 2 * quorum total) × (quorum total ≤ total)
unfolding quorum
quorum-majority total h = ground arith

-- Too many to be disjoint: some node passes both tests.
overlap :
    (p q : Node → Bool) (ns : List Node)
    → length ns < length (select p ns) + length (select q ns)
    → (n : Node) × In n ns × (p n ≡ true) × (q n ≡ true)
overlap p q [] h = absurd (omega arith)
overlap p q (n ∷ ns) h = elim (Bool-cases (p n)) [
  | inl a ↦ elim (Bool-cases (q n)) [
    | inl b ↦ (n, inl refl, a, b)
    | inr b ↦ let (m, i, x, y) = overlap p q ns (ground arith) in (m, inr i, x, y)
  ]
  | inr a ↦ let (m, i, x, y) = overlap p q ns (ground arith) in (m, inr i, x, y)
]

-- Two sets of configured nodes that are each as large as the quorum have a node in common.
pub quorum-overlap :
    (all : List Node) (p q : Node → Bool)
    → 0 < length all
    → quorum (length all) ≤ length (select p all)
    → quorum (length all) ≤ length (select q all)
    → (n : Node) × In n all × (p n ≡ true) × (q n ≡ true)
quorum-overlap all p q h a b = overlap p q all (omega (arith, quorum-majority (length all)))
