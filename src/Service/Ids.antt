-- ===== src/Service/Ids.antt =====
-- `idCounter`, `newID` and `SetMinIDCounter`. The atomic operations are single steps; the numbers
-- stay far below 2 ^ 63 as long as the counter stays below the size of a node's block of ids.
use node_messager.Base.{ℕ, suc, ◌+◌, ◌*◌, ◌<◌, ◌≡◌, none, arith, leb, if◌then◌else◌, In}
use node_messager.Db.{Db, count_ingenieros}
use node_messager.Db.Seed.{
  SeedIngeniero, SeedUsuario, SeedDispositivo, SeedData, id_block, Io, seed, seed-Bounds,
}

-- The id, and the counter afterwards.
unfoldable pub new_id : ℕ → ℕ → ℕ × ℕ
new_id node_id counter = let n = suc counter in (node_id * id_block + n, n)

unfoldable pub set_min_id_counter : ℕ → ℕ → ℕ
set_min_id_counter low counter = if leb low counter then counter else low

-- While the counters stay within a block, two ids are equal only if they were made for the same node
-- with the same counter.
pub new_id-injective :
    (a b i j : ℕ)
    → suc i < id_block
    → suc j < id_block
    → (new_id a i).0 ≡ (new_id b j).0
    → (a ≡ b) × (i ≡ j)
unfolding new_id
new_id-injective a b i j h k e = (omega arith, omega arith)

-- Every seed row of the node has a smaller id.
abbrev pub IsAbove : ℕ → SeedData → ℕ → Type 0
IsAbove node s id =
    ((x : SeedIngeniero) → In x s.ingenieros → x.sucursal_id ≡ node → x.id < id)
    × ((x : SeedUsuario) → In x s.usuarios → x.sucursal_id ≡ node → x.id < id)
    × ((x : SeedDispositivo) → In x s.dispositivos → x.sucursal_id ≡ node → x.id < id)

-- Once a node without engineers has been seeded without an error and the counter raised to what `Seed` returned, the
-- next id of the node is above the ids of all its seed rows, whatever the counter was before.
pub new_id-IsAbove-seed :
    (node counter : ℕ) (s : SeedData) (io : Io) (d : Db)
    → count_ingenieros d ≡ 0
    → (seed node s none io d).1 ≡ none
    → IsAbove node s (new_id node (set_min_id_counter (seed node s none io d).0.1 counter)).0
unfolding new_id set_min_id_counter
new_id-IsAbove-seed node counter s io d z e =
    let b = seed-Bounds node s io d z e in
    (
      λ x i w. let h = b.0 x i w in ground arith,
      λ x i w. let h = b.1 x i w in ground arith,
      λ x i w. let h = b.2 x i w in ground arith,
    )
