-- ===== src/Db/Seed.antt =====
-- internal/db/seed.go: `Seed`, with the driver's answers to its statements as `io`.
use node_messager.Base.{
  ℕ, ◌+◌, ◌-◌, ◌*◌, ◌≤◌, String, ◌≡◌, refl, subst, inl, inr, Bool, true, false, none, some, List,
  [], ◌∷◌, arith, ltb, ◌==◌, nat_eq, ne_of_==, sym, ap, ◌∙◌, if◌then◌else◌, In,
}
use node_messager.Db.{
  Db, Answer, insert_ingeniero, insert_usuario, insert_dispositivo, count_ingenieros,
}

pub record SeedIngeniero : Type 0 where
  pub id : ℕ
  pub nombre : String
  pub sucursal_id : ℕ

pub record SeedUsuario : Type 0 where
  pub id : ℕ
  pub nombre : String
  pub sucursal_id : ℕ

pub record SeedDispositivo : Type 0 where
  pub id : ℕ
  pub nombre : String
  pub tipo : String
  pub sucursal_id : ℕ
  pub ingeniero_id : ℕ

pub record SeedData : Type 0 where
  pub ingenieros : List SeedIngeniero
  pub usuarios : List SeedUsuario
  pub dispositivos : List SeedDispositivo

-- Ids of a node start here.
abbrev pub id_block : ℕ
id_block = 10000000000

-- The driver's answers, by table and row.
pub record Io : Type 0 where
  pub ingeniero : ℕ → Answer
  pub usuario : ℕ → Answer
  pub dispositivo : ℕ → Answer

-- `if c := id - offset; c > maxCounter { maxCounter = c }`; a negative `c` counts as 0, which is
-- never above the maximum.
abbrev pub raise_max : ℕ → ℕ → ℕ → ℕ
raise_max offset id top = let c = id - offset in if ltb top c then c else top

-- The body of the loops: whether the row is the node's, the statement's result, and the maximum
-- with this row. A failing statement ends the loop with 0 and the error.
unfoldable pub seed_row :
    Bool → Db × Answer → ℕ → Db → ℕ → (Db → ℕ → (Db × ℕ) × Answer) → (Db × ℕ) × Answer
seed_row false put raised d top rest = rest d top
seed_row true (d', some x) raised d top rest = ((d', 0), some x)
seed_row true (d', none) raised d top rest = rest d' raised

-- One of the three loops.
module _ {R : Type 0} (sucursal id : R → ℕ) (put : R → Db → Db × Answer) (node : ℕ) where
  unfoldable pub seed_rows : List R → Db → ℕ → (Db × ℕ) × Answer
  unfolding seed_row
  seed_rows [] d top = ((d, top), none)
  seed_rows (r ∷ rs) d top =
      seed_row (sucursal r == node) (put r d) (raise_max (node * id_block) (id r) top) d top
        (seed_rows rs)

  -- What a loop that ends well owes: its maximum is above the counters of the node's rows.
  pub record Covers (rs : List R) (top : ℕ) (r : (Db × ℕ) × Answer) : Type 0 where
    pub grows : r.1 ≡ none → top ≤ r.0.1
    pub above : r.1 ≡ none → (x : R) → In x rs → sucursal x ≡ node → id x ≤ node * id_block + r.0.1

  seed_row-Covers :
      (r : R) (rs : List R) (mine : Bool) (p : Db × Answer) (d : Db) (top : ℕ)
      → (sucursal r == node) ≡ mine
      → ((d' : Db) (top' : ℕ) → Covers rs top' (seed_rows rs d' top'))
      → Covers
          (r ∷ rs)
          top
          (seed_row mine p (raise_max (node * id_block) (id r) top) d top (seed_rows rs))
  unfolding seed_row
  seed_row-Covers r rs false p d top q ih = record {
    grows = (ih d top).grows;
    above = λ e x i s. elim i [
      | inl w ↦ absurd (ne_of_== (sucursal r) node q (ap sucursal (sym w) ∙ s))
      | inr j ↦ (ih d top).above e x j s
    ];
  }
  seed_row-Covers r rs true (d', some x) d top q ih = record {
    grows = λ e. absurd (cc e);
    above = λ e y i s. absurd (cc e);
  }
  seed_row-Covers r rs true (d', none) d top q ih =
      let h = ih d' (raise_max (node * id_block) (id r) top) in
      record {
        grows = λ e. let g = h.grows e in ground arith;
        above = λ e x i s. elim i [
          | inl w ↦ let g = h.grows e in rw w (ground arith)
          | inr j ↦ h.above e x j s
        ];
      }

  pub seed_rows-Covers : (rs : List R) (d : Db) (top : ℕ) → Covers rs top (seed_rows rs d top)
  unfolding seed_rows
  seed_rows-Covers [] d top = record { grows = λ e. omega arith; above = λ e x i. absurd i }
  seed_rows-Covers (r ∷ rs) d top =
      seed_row-Covers r rs (sucursal r == node) (put r d) d top refl (seed_rows-Covers rs)

-- The next loop runs if the last one ended well.
abbrev pub and_then : (Db × ℕ) × Answer → (Db → ℕ → (Db × ℕ) × Answer) → (Db × ℕ) × Answer
and_then ((d, top), some x) f = ((d, 0), some x)
and_then ((d, top), none) f = f d top

abbrev pub put_ingeniero : Io → SeedIngeniero → Db → Db × Answer
put_ingeniero io r = insert_ingeniero r.id r.nombre r.sucursal_id (io.ingeniero r.id)

abbrev pub put_usuario : Io → SeedUsuario → Db → Db × Answer
put_usuario io r = insert_usuario r.id r.nombre r.sucursal_id (io.usuario r.id)

abbrev pub put_dispositivo : Io → SeedDispositivo → Db → Db × Answer
put_dispositivo io r =
    insert_dispositivo r.id r.nombre r.tipo r.sucursal_id r.ingeniero_id (io.dispositivo r.id)

unfoldable pub seed_tables : ℕ → SeedData → Io → Db → (Db × ℕ) × Answer
unfolding seed_rows
seed_tables node data_rows io d =
    and_then
      (and_then
        (seed_rows (λ r. r.sucursal_id) (λ r. r.id) (put_ingeniero io) node data_rows.ingenieros d
          0)
        (seed_rows (λ r. r.sucursal_id) (λ r. r.id) (put_usuario io) node data_rows.usuarios))
      (seed_rows (λ r. r.sucursal_id) (λ r. r.id) (put_dispositivo io) node data_rows.dispositivos)

-- A node that has engineers is not seeded. `counted` is the driver's answer to the count.
unfoldable pub seed : ℕ → SeedData → Answer → Io → Db → (Db × ℕ) × Answer
unfolding seed_tables
seed node data_rows counted io d = elim counted [
  | some x ↦ ((d, 0), some x)
  | none ↦
      let run = seed_tables node data_rows io d in
      if ltb 0 (count_ingenieros d) then ((d, 0), none) else run
]

and_then-none :
    (r : (Db × ℕ) × Answer) (f : Db → ℕ → (Db × ℕ) × Answer)
    → (and_then r f).1 ≡ none
    → (r.1 ≡ none) × (and_then r f ≡ f r.0.0 r.0.1)
and_then-none ((d, top), none) f e = (refl, refl)
and_then-none ((d, top), some x) f e = absurd (cc e)

-- The rows of the node with their ids bounded by the counter.
abbrev pub Bounds : ℕ → SeedData → ℕ → Type 0
Bounds node s top =
    ((x : SeedIngeniero) → In x s.ingenieros → x.sucursal_id ≡ node → x.id ≤ node * id_block + top)
    × ((x : SeedUsuario) → In x s.usuarios → x.sucursal_id ≡ node → x.id ≤ node * id_block + top)
    × ((x : SeedDispositivo)
        → In x s.dispositivos
        → x.sucursal_id ≡ node
        → x.id ≤ node * id_block + top)

seed_tables-Bounds :
    (node : ℕ) (s : SeedData) (io : Io) (d : Db)
    → (seed_tables node s io d).1 ≡ none
    → Bounds node s (seed_tables node s io d).0.1
unfolding seed_tables
seed_tables-Bounds node s io d e =
    let one = seed_rows (λ r. r.sucursal_id) (λ r. r.id) (put_ingeniero io) node s.ingenieros in
    let two = seed_rows (λ r. r.sucursal_id) (λ r. r.id) (put_usuario io) node s.usuarios in
    let three =
      seed_rows (λ r. r.sucursal_id) (λ r. r.id) (put_dispositivo io) node s.dispositivos in
    let outer = and_then-none (and_then (one d 0) two) three e in
    let inner = and_then-none (one d 0) two outer.0 in
    let a =
      seed_rows-Covers (λ r. r.sucursal_id) (λ r. r.id) (put_ingeniero io) node s.ingenieros d 0 in
    let b =
      seed_rows-Covers (λ r. r.sucursal_id) (λ r. r.id) (put_usuario io) node s.usuarios
        (one d 0).0.0 (one d 0).0.1 in
    let m = and_then (one d 0) two in
    let c =
      seed_rows-Covers (λ r. r.sucursal_id) (λ r. r.id) (put_dispositivo io) node s.dispositivos
        m.0.0 m.0.1 in
    let at_two : (two (one d 0).0.0 (one d 0).0.1).1 ≡ none =
      sym (ap (λ r. r.1) inner.1) ∙ outer.0 in
    let at_three : (three m.0.0 m.0.1).1 ≡ none = sym (ap (λ r. r.1) outer.1) ∙ e in
    let q : m.0.1 ≡ (two (one d 0).0.0 (one d 0).0.1).0.1 = ap (λ r. r.0.1) inner.1 in
    let p : (seed_tables node s io d).0.1 ≡ (three m.0.0 m.0.1).0.1 = ap (λ r. r.0.1) outer.1 in
    let top_two = b.grows at_two in
    let top_three = c.grows at_three in
    (
      λ x i w. let h = a.above inner.0 x i w in omega arith,
      λ x i w. let h = b.above at_two x i w in omega arith,
      λ x i w. let h = c.above at_three x i w in omega arith,
    )

-- Seeding a node that has no engineers gives a counter that bounds the ids of all its seed rows.
pub seed-Bounds :
    (node : ℕ) (s : SeedData) (io : Io) (d : Db)
    → count_ingenieros d ≡ 0
    → (seed node s none io d).1 ≡ none
    → Bounds node s (seed node s none io d).0.1
unfolding seed
seed-Bounds node s io d z e =
    let q : seed node s none io d ≡ seed_tables node s io d = rw z in
    subst (λ r. Bounds node s r.0.1) (sym q)
      (seed_tables-Bounds node s io d (sym (ap (λ r. r.1) q) ∙ e))
