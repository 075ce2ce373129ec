-- ===== src/Service/Assign/Least.antt =====
-- A new device goes to an engineer with the fewest devices.
use node_messager.Base.{
  ℕ, suc, ◌+◌, ◌≤◌, String, ◌≡◌, refl, sym, ◌∙◌, ◌⊎◌, inl, inr, not, none, some, List, [], ◌∷◌,
  arith, ltb, ◌==◌, nat_eq, if◌then◌else◌, Bool-cases, In,
}
use node_messager.Base.Dict.{Dict, lookup, insert, lookup-insert}
use node_messager.Dto.{IngenieroRow, DispositivoRow}
use node_messager.Service.Ids.{new_id}
use node_messager.Service.Assign.{
  count, count_devices, Best, better, pick, place_device, distribute_device,
}

-- How many of the devices an engineer has. The id 0 stands for no engineer.
abbrev pub devices_of : ℕ → List DispositivoRow → ℕ
devices_of id [] = 0
devices_of id (r ∷ rs) =
    let rest = devices_of id rs in
    if r.ingeniero_id == id then (if not (id == 0) then suc rest else rest) else rest

count_devices_lem :
    (id : ℕ) (rs : List DispositivoRow) (m : Dict ℕ ℕ)
    → count (lookup id (count_devices rs m)) ≡ devices_of id rs + count (lookup id m)
unfolding count_devices
count_devices_lem id [] m = omega arith
count_devices_lem id (r ∷ rs) m =
    let k = r.ingeniero_id in
    let m' = insert k (suc (count (lookup k m))) m in
    ground (
      arith,
      count_devices_lem id rs m,
      count_devices_lem id rs m',
      lookup-insert k id (suc (count (lookup k m))) m,
    )

abbrev pub count_of : Dict ℕ ℕ → IngenieroRow → ℕ
count_of counts e = count (lookup e.id counts)

-- What the loop ends with, from a candidate that it may have had before.
record Picks (counts : Dict ℕ ℕ) (es : List IngenieroRow) (best : Best) (low : ℕ) (e : IngenieroRow)
    : Type 0 where
  from : (In e es × (low ≡ count_of counts e)) ⊎ (best ≡ some (low, e))
  least : (x : IngenieroRow) → In x es → low ≤ count_of counts x
  below : (c : ℕ) (x : IngenieroRow) → best ≡ some (c, x) → low ≤ c

better-cases :
    (c : ℕ) (e : IngenieroRow) (best : Best)
    → (better c e best ≡ some (c, e))
      ⊎ ((low : ℕ) × (x : IngenieroRow) × (best ≡ some (low, x))
          × (low ≤ c)
          × (better c e best ≡ best))
better-cases c e none = inl refl
better-cases c e (some (low, x)) = elim (Bool-cases (ltb c low)) [
  | inl t ↦ inl (rw t)
  | inr f ↦ inr (low, x, refl, ground arith, rw f)
]

better-below :
    (c : ℕ) (e : IngenieroRow) (best : Best) (low : ℕ) (x : IngenieroRow)
    → best ≡ some (low, x)
    → (k : ℕ) × (y : IngenieroRow) × (better c e best ≡ some (k, y)) × (k ≤ low) × (k ≤ c)
better-below c e best low x q = elim (Bool-cases (ltb c low)) [
  | inl t ↦ (c, e, ground arith, ground arith, ground arith)
  | inr f ↦ (low, x, ground arith, ground arith, ground arith)
]

better-le :
    (c : ℕ) (e : IngenieroRow) (best : Best)
    → (k : ℕ) × (z : IngenieroRow) × (better c e best ≡ some (k, z)) × (k ≤ c)
better-le c e best = elim (better-cases c e best) [
  | inl r ↦ (c, e, r, omega arith)
  | inr (l, x, r, le, same) ↦ (l, x, same ∙ r, le)
]

pick-Picks :
    (counts : Dict ℕ ℕ) (es : List IngenieroRow) (best : Best) (low : ℕ) (e : IngenieroRow)
    → pick counts es best ≡ some (low, e)
    → Picks counts es best low e
unfolding pick
pick-Picks counts [] best low e q = record {
  from = inr q;
  least = λ x i. absurd i;
  below = λ c x r. ground arith;
}
pick-Picks counts (y ∷ es) best low e q =
    let c = count_of counts y in
    let ih = pick-Picks counts es (better c y best) low e q in
    let (k, z, b, kc) = better-le c y best in
    record {
      from = elim ih.from [
        | inl (i, w) ↦ inl (inr i, w)
        | inr p ↦ elim (better-cases c y best) [
          | inl r ↦ inl (inl (ground arith), ground arith)
          | inr (l, x, r, le, same) ↦ inr (sym same ∙ p)
        ]
      ];
      least = λ x i.
          let h = ih.below k z b in elim i [ inl r ↦ rw r (omega arith) | inr j ↦ ih.least x j ];
      below = λ c' x r.
          let (l, v, w, lc, _) = better-below c y best c' x r in
          let h = ih.below l v w in omega arith;
    }

-- A loop over at least one engineer ends with one.
pick-some :
    (counts : Dict ℕ ℕ) (es : List IngenieroRow) (low : ℕ) (e : IngenieroRow)
    → (l : ℕ) × (x : IngenieroRow) × (pick counts es (some (low, e)) ≡ some (l, x))
unfolding pick
pick-some counts [] low e = (low, e, refl)
pick-some counts (y ∷ es) low e =
    let (l, v, w, _, _) = better-below (count_of counts y) y (some (low, e)) low e refl in
    rw w (pick-some counts es l v)

pick-start :
    (counts : Dict ℕ ℕ) (e : IngenieroRow) (es : List IngenieroRow)
    → pick counts (e ∷ es) none ≡ pick counts es (some (count_of counts e, e))
unfolding pick
pick-start counts e es = refl

counted :
    (id : ℕ) (devices : List DispositivoRow)
    → count (lookup id (count_devices devices [])) ≡ devices_of id devices
unfolding lookup
counted id devices = omega (arith, count_devices_lem id devices [])

-- A device is placed whenever there is an engineer. Its engineer is one of those listed and has no
-- more devices than any of them, and the device lives on that engineer's branch, under an id of that
-- branch.
pub distribute_device-least :
    (e : IngenieroRow) (es : List IngenieroRow) (devices : List DispositivoRow)
    (nombre tipo : String) (counter : ℕ)
    → (row : DispositivoRow) × (chosen : IngenieroRow) × (distribute_device
          (some (e ∷ es))
          (some devices)
          nombre
          tipo
          counter
        ≡ some (row, suc counter))
      × In chosen (e ∷ es)
      × ((x : IngenieroRow)
          → In x (e ∷ es)
          → devices_of chosen.id devices ≤ devices_of x.id devices)
      × (row.ingeniero_id ≡ chosen.id)
      × (row.sucursal_id ≡ chosen.sucursal_id)
      × (row.id ≡ (new_id chosen.sucursal_id counter).0)
unfolding distribute_device new_id
distribute_device-least e es devices nombre tipo counter =
    let m = count_devices devices [] in
    let (low, x, q) = pick-some m es (count_of m e) e in
    let r : pick m (e ∷ es) none ≡ some (low, x) = pick-start m e es ∙ q in
    let p = pick-Picks m (e ∷ es) none low x r in
    let row : DispositivoRow = record {
      id = (new_id x.sucursal_id counter).0;
      nombre = nombre;
      tipo = tipo;
      sucursal_id = x.sucursal_id;
      ingeniero_id = x.id;
    } in
    let i : In x (e ∷ es) × (low ≡ count_of m x) = elim p.from [
      | inl h ↦ h
      | inr n ↦ absurd (cc n)
    ] in
    (
      row,
      x,
      rw (r, place_device) refl,
      i.0,
      λ y j. let h = p.least y j in omega (arith, i.1, counted x.id devices, counted y.id devices),
      refl,
      refl,
      refl,
    )
