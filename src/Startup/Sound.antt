-- ===== src/Startup/Sound.antt =====
-- A node from its start on.
use node_messager.Base.{
  ℕ, ◌≡◌, refl, subst, inl, inr, Bool, true, false, Bool-cases, Option, none, some, Option-cases,
  List, [], ◌∷◌, ◌==◌, nat_eq, eq_of_==, arith, ltb, All,
}
use node_messager.Dto.{Node, UsuarioRow, IngenieroRow, DispositivoRow}
use node_messager.NodeState
use node_messager.Mutex
use node_messager.Db.{Db, Answer, count_ingenieros}
use node_messager.Db.Seed.{
  SeedIngeniero, SeedUsuario, SeedDispositivo, SeedData, Io, seed_row, seed_rows, and_then,
  put_ingeniero, put_usuario, put_dispositivo, seed_tables, seed,
}
use node_messager.Commit.Rows.{
  IsPlaced, insert_ingeniero-IsPlaced, insert_usuario-IsPlaced, insert_dispositivo-IsPlaced,
}
use node_messager.Config.{Config}
use node_messager.Dispatcher.{Running, Json, Arrival}
use node_messager.Dispatcher.Sound.{IsSound, IsNamedRequest, after, after-IsSound}
use node_messager.Startup.{Seeding, seeded, with_seed, running, start_node}

module _ {R : Type 0} (sucursal id : R → ℕ) (put : R → Db → Db × Answer) (node : ℕ)
    (keeps : (r : R) (d : Db)
      → sucursal r ≡ node
      → IsPlaced node d
      → IsPlaced node (put r d).0) where
  seed_row-IsPlaced :
      (mine : Bool) (p : Db × Answer) (raised : ℕ) (d : Db) (top : ℕ)
      (rest : Db → ℕ → (Db × ℕ) × Answer)
      → IsPlaced node d
      → (mine ≡ true → IsPlaced node p.0)
      → ((d' : Db) (t : ℕ) → IsPlaced node d' → IsPlaced node (rest d' t).0.0)
      → IsPlaced node (seed_row mine p raised d top rest).0.0
  unfolding seed_row
  seed_row-IsPlaced false p raised d top rest h k r = r d top h
  seed_row-IsPlaced true (d', some x) raised d top rest h k r = k refl
  seed_row-IsPlaced true (d', none) raised d top rest h k r = r d' raised (k refl)

  seed_rows-IsPlaced :
      (rs : List R) (d : Db) (top : ℕ)
      → IsPlaced node d
      → IsPlaced node (seed_rows sucursal id put node rs d top).0.0
  unfolding seed_rows
  seed_rows-IsPlaced [] d top h = h
  seed_rows-IsPlaced (r ∷ rs) d top h =
      seed_row-IsPlaced (sucursal r == node) (put r d) _ d top (seed_rows sucursal id put node rs) h
        (λ e. keeps r d (eq_of_== (sucursal r) node e) h) (seed_rows-IsPlaced rs)

and_then-IsPlaced :
    (n : ℕ) (r : (Db × ℕ) × Answer) (f : Db → ℕ → (Db × ℕ) × Answer)
    → IsPlaced n r.0.0
    → ((d : Db) (top : ℕ) → IsPlaced n d → IsPlaced n (f d top).0.0)
    → IsPlaced n (and_then r f).0.0
and_then-IsPlaced n ((d, top), some x) f h k = h
and_then-IsPlaced n ((d, top), none) f h k = k d top h

module _ (n : ℕ) (io : Io) where
  put_ingeniero-IsPlaced :
      (r : SeedIngeniero) (d : Db)
      → r.sucursal_id ≡ n
      → IsPlaced n d
      → IsPlaced n (put_ingeniero io r d).0
  put_ingeniero-IsPlaced r d e h =
      let row : IngenieroRow = record {
        id = r.id;
        nombre = r.nombre;
        sucursal_id = r.sucursal_id;
        disponible = 1;
      } in
      insert_ingeniero-IsPlaced n d h row (io.ingeniero r.id) e

  put_usuario-IsPlaced :
      (r : SeedUsuario) (d : Db)
      → r.sucursal_id ≡ n
      → IsPlaced n d
      → IsPlaced n (put_usuario io r d).0
  put_usuario-IsPlaced r d e h =
      let row : UsuarioRow = record { id = r.id; nombre = r.nombre; sucursal_id = r.sucursal_id } in
      insert_usuario-IsPlaced n d h row (io.usuario r.id) e

  put_dispositivo-IsPlaced :
      (r : SeedDispositivo) (d : Db)
      → r.sucursal_id ≡ n
      → IsPlaced n d
      → IsPlaced n (put_dispositivo io r d).0
  put_dispositivo-IsPlaced r d e h =
      let row : DispositivoRow = record {
        id = r.id;
        nombre = r.nombre;
        tipo = r.tipo;
        sucursal_id = r.sucursal_id;
        ingeniero_id = r.ingeniero_id;
      } in
      insert_dispositivo-IsPlaced n d h row (io.dispositivo r.id) e

  seed_tables-IsPlaced :
      (rows : SeedData) (d : Db) → IsPlaced n d → IsPlaced n (seed_tables n rows io d).0.0
  unfolding seed_tables
  seed_tables-IsPlaced rows d h =
      and_then-IsPlaced n _ _
        (and_then-IsPlaced n _ _
          (seed_rows-IsPlaced _ _ _ n put_ingeniero-IsPlaced rows.ingenieros d 0 h)
          (seed_rows-IsPlaced _ _ _ n put_usuario-IsPlaced rows.usuarios))
        (seed_rows-IsPlaced _ _ _ n put_dispositivo-IsPlaced rows.dispositivos)

  seed-IsPlaced :
      (rows : SeedData) (counted : Answer) (d : Db)
      → IsPlaced n d
      → IsPlaced n (seed n rows counted io d).0.0
  unfolding seed
  seed-IsPlaced rows (some x) d h = h
  seed-IsPlaced rows none d h = elim (Bool-cases (ltb 0 (count_ingenieros d))) [
    | inl t ↦ rw t h
    | inr f ↦ rw f (seed_tables-IsPlaced rows d h)
  ]

seeded-IsPlaced :
    (n : ℕ) (r : (Db × ℕ) × Answer) (counter : ℕ) (out : Db × ℕ)
    → IsPlaced n r.0.0
    → seeded r counter ≡ some out
    → IsPlaced n out.0
seeded-IsPlaced n (r, some x) counter out h e = absurd (cc e)
seeded-IsPlaced n ((d, top), none) counter out h e =
    let q : d ≡ out.0 = ground (arith, e) in subst (IsPlaced n) q h

with_seed-IsPlaced :
    (n : Node) (file : Option SeedData) (s : Seeding) (d : Db) (counter : ℕ) (out : Db × ℕ)
    → IsPlaced n.id d
    → with_seed n file s d counter ≡ some out
    → IsPlaced n.id out.0
with_seed-IsPlaced n none s d counter out h e =
    let q : d ≡ out.0 = ground (arith, e) in subst (IsPlaced n.id) q h
with_seed-IsPlaced n (some rows) s d counter out h e =
    seeded-IsPlaced n.id (seed n.id rows s.counted s.io d) counter out
      (seed-IsPlaced n.id s.io rows s.counted d h) e

running-IsSound :
    {Raw : Type 0} (n : Node) (c : Config) (d : Db)
    → IsPlaced n.id d
    → IsSound n c.nodes (running {Raw = Raw} n c d)
unfolding NodeState.new Mutex.new
running-IsSound n c d h = record {
  is_self = refl;
  same_nodes = refl;
  queued = record { idle = λ e. refl; named = tt };
  placed = h;
}

module _ {Raw : Type 0} (json : Json Raw) where
  -- A node that starts on a database of its own branch, with whatever is in the seed file and
  -- however the driver answers, handles any messages and stays sound: it is itself in its
  -- configuration, its lock's engine is well formed, and its tables have keys and hold its own
  -- rows alone. The lock requests among the messages have ids.
  pub start_node-IsSound :
      (n : Node) (c : Config) (s : Seeding) (d : Db) (counter : ℕ) (started : Running Raw × ℕ)
      (ms : List (Arrival Raw))
      → IsPlaced n.id d
      → start_node n c s d counter ≡ some started
      → All (IsNamedRequest json) ms
      → IsSound n c.nodes (after json n c.nodes ms started.0)
  unfolding start_node
  start_node-IsSound n c s d counter started ms h e k =
      elim (Option-cases (with_seed n s.file s d counter)) [
        | inl z ↦
            let bad : ◌≡◌ {A = Option (Running Raw × ℕ)} none (some started) =
              rw (z, start_node) at e in
            absurd (cc bad)
        | inr (out, z) ↦
            let good : ◌≡◌ {A = Option (Running Raw × ℕ)} (some (running n c out.0, out.1))
                (some started) =
              rw (z, start_node) at e in
            let q : running n c out.0 ≡ started.0 = ground (arith, good) in
            after-IsSound json n c.nodes ms started.0 k (
              subst (IsSound n c.nodes) q
                (running-IsSound n c out.0 (with_seed-IsPlaced n s.file s d counter out h z)))
      ]
