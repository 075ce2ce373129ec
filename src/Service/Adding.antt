-- ===== src/Service/Adding.antt =====
-- `AddUsuario`, `AddIngeniero` and `CloseTicket`: each makes one proposal.
use node_messager.Base.{
  All, ap, not, if◌then◌else◌, ℕ, String, ◌≡◌, refl, sym, ◌≢◌, true, none, arith, ◌==◌, nat_eq,
  string_eq, ==_refl, ==_of_eq, ==_of_ne,
}
use node_messager.Dto.{Node, IsFaithful, UsuarioRow, IngenieroRow}
use node_messager.Db
use node_messager.Db.{
  Db, Answer, Usuario, Ingeniero, Ticket, set_ingeniero_disponible, has_key, exec, insert_usuario,
  insert_ingeniero, insert_or_ignore,
}
use node_messager.Db.Tables.{has_key-insert_or_ignore, update_where-sets}
use node_messager.Commit.{
  Codecs, Context, CloseData, with_payload, then_release, commit_handler, apply_operation,
  read_operation,
}
use node_messager.Service.Ids.{new_id}

-- What is handed to `consensus.Propose`.
pub record Proposal (Raw : Type 0) : Type 0 where
  pub operation : String
  pub body : Raw

abbrev pub new_usuario : Node → String → ℕ → UsuarioRow
new_usuario self nombre counter = record {
  id = (new_id self.id counter).0;
  nombre = nombre;
  sucursal_id = self.id;
}

abbrev pub new_ingeniero : Node → String → ℕ → IngenieroRow
new_ingeniero self nombre counter = record {
  id = (new_id self.id counter).0;
  nombre = nombre;
  sucursal_id = self.id;
  disponible = 1;
}

module _ {Raw : Type 0} (json : Codecs Raw) where
  unfoldable pub add_usuario : Node → String → ℕ → Proposal Raw × ℕ
  add_usuario self nombre counter = (
    record {
      operation = "INSERT_USUARIO";
      body = json.usuario.marshal (new_usuario self nombre counter);
    },
    (new_id self.id counter).1,
  )

  unfoldable pub add_ingeniero : Node → String → ℕ → Proposal Raw × ℕ
  add_ingeniero self nombre counter = (
    record {
      operation = "INSERT_INGENIERO";
      body = json.ingeniero.marshal (new_ingeniero self nombre counter);
    },
    (new_id self.id counter).1,
  )

  unfoldable pub close_ticket : ℕ → ℕ → Proposal Raw
  close_ticket id_ticket id_ingeniero = record {
    operation = "CLOSE_TICKET";
    body = json.close.marshal (record { id_ticket = id_ticket; id_ingeniero = id_ingeniero });
  }

  -- What committing a proposal does to the tables of node `n`.
  abbrev pub committed : Node → Context → Proposal Raw → Db → Db
  committed n c p d = (commit_handler json n c p.operation p.body d).0

  pub committed_usuario :
      (n : Node) (r : UsuarioRow) (c : Context) (d : Db)
      → IsFaithful json.usuario
      → commit_handler json n c "INSERT_USUARIO" (json.usuario.marshal r) d ≡ (
          if not (r.sucursal_id == n.id)
          then (d, none)
          else insert_usuario r.id r.nombre r.sucursal_id c.first d)
  unfolding commit_handler apply_operation read_operation
  committed_usuario n r c d f =
      ap
        (λ o. with_payload c o d λ r.
          if not (r.sucursal_id == n.id)
          then (d, none)
          else insert_usuario r.id r.nombre r.sucursal_id c.first d)
        (f r)

  inserted_usuario :
      (r : UsuarioRow) (d : Db)
      → has_key (λ r. r.id) r.id (insert_usuario r.id r.nombre r.sucursal_id none d).0.usuarios
        ≡ true
  unfolding insert_usuario
  inserted_usuario r d =
      let row : Usuario = record { id = r.id; nombre = r.nombre; sucursal_id = r.sucursal_id } in
      ground
        (arith, has_key-insert_or_ignore (λ (u : Usuario). u.id) r.id row d.usuarios, ==_refl r.id)

  -- A user that a node adds is in that node's table once the proposal is committed there without a
  -- database error; no other node's tables change by the commit. The codec is faithful.
  pub add_usuario-committed :
      (self n : Node) (nombre : String) (counter : ℕ) (c : Context) (d : Db)
      → IsFaithful json.usuario
      → (n.id ≡ self.id
          → c.first ≡ none
          → has_key
              (λ r. r.id)
              (new_usuario self nombre counter).id
              (committed n c (add_usuario self nombre counter).0 d).usuarios
            ≡ true)
        × (n.id ≢ self.id → committed n c (add_usuario self nombre counter).0 d ≡ d)
  unfolding add_usuario
  add_usuario-committed self n nombre counter c d f =
      let r = new_usuario self nombre counter in
      let q : committed n c (add_usuario self nombre counter).0 d
          ≡ (if not (self.id == n.id)
              then (d, none)
              else insert_usuario r.id r.nombre r.sucursal_id c.first d).0 =
        ap (λ (x : Db × Answer). x.0) (committed_usuario n r c d f) in
      (
        λ e w. rw (q, ==_of_eq self.id n.id (sym e), w) (inserted_usuario r d),
        λ h. rw (q, ==_of_ne self.id n.id (λ e. h (sym e))) refl,
      )

  -- Once the proposal that closes a ticket is committed at a node without a database error, every
  -- ticket with that id in the node's table is closed and every engineer with the given id available.
  -- The codec is faithful.
  pub close_ticket-committed :
      (n : Node) (id_ticket id_ingeniero : ℕ) (c : Context) (d : Db)
      → IsFaithful json.close
      → c.first ≡ none
      → c.second ≡ none
      → All
          (λ t. t.id ≡ id_ticket → t.estado ≡ "CERRADO")
          (committed n c (close_ticket id_ticket id_ingeniero) d).tickets
        × All
            (λ e. e.id ≡ id_ingeniero → e.disponible ≡ 1)
            (committed n c (close_ticket id_ticket id_ingeniero) d).ingenieros
  unfolding close_ticket commit_handler apply_operation read_operation Db.close_ticket
      set_ingeniero_disponible
  close_ticket-committed n id_ticket id_ingeniero c d f p q =
      let x : CloseData = record { id_ticket = id_ticket; id_ingeniero = id_ingeniero } in
      let r : committed n c (close_ticket id_ticket id_ingeniero) d
          ≡ (then_release c id_ingeniero (Db.close_ticket c.now id_ticket c.first d)).0 =
        ap
          (λ o.
            (with_payload c o d
              λ p. then_release c p.id_ingeniero (Db.close_ticket c.now p.id_ticket c.first d)).0)
          (f x) in
      rw (r, p, q)
        (
          update_where-sets (λ (t : Ticket). t.id) (λ t. t.estado ≡ "CERRADO") id_ticket _ d.tickets
              (λ t. refl),
          update_where-sets (λ (e : Ingeniero). e.id) (λ e. e.disponible ≡ 1) id_ingeniero _
              d.ingenieros (λ e. refl),
        )
