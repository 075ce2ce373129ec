-- ===== src/Commit/Rows.antt =====
-- What the statements of internal/db/db.go that a commit executes keep of a node's tables.
use node_messager.Base.{ℕ, String, ◌≡◌, refl, none, some, List, nat_eq, All}
use node_messager.Dto.{UsuarioRow, IngenieroRow, DispositivoRow}
use node_messager.Db.{
  Db, Ingeniero, Usuario, Dispositivo, Ticket, Answer, exec, insert_or_ignore, update_where,
  insert_usuario, insert_ingeniero, insert_dispositivo, insert_ticket_full, update_ticket_folio,
  close_ticket, set_ingeniero_disponible,
}
use node_messager.Db.Tables.{
  HasKeys, insert_or_ignore-HasKeys, update_where-HasKeys, All-insert_or_ignore, All-update_where,
}

-- The tables of node `n`: primary keys, and only rows of the node itself.
pub record IsPlaced (n : ℕ) (d : Db) : Type 0 where
  pub ingenieros : HasKeys (λ r. r.id) d.ingenieros × All (λ r. r.sucursal_id ≡ n) d.ingenieros
  pub usuarios : HasKeys (λ r. r.id) d.usuarios × All (λ r. r.sucursal_id ≡ n) d.usuarios
  pub dispositivos :
      HasKeys (λ r. r.id) d.dispositivos × All (λ r. r.sucursal_id ≡ n) d.dispositivos
  pub tickets : HasKeys (λ r. r.id) d.tickets × All (λ r. r.id_sucursal ≡ n) d.tickets

module _ {A : Type 0} (key place : A → ℕ) (n : ℕ) where
  abbrev pub Table : List A → Type 0
  Table rows = HasKeys key rows × All (λ r. place r ≡ n) rows

  insert-Table :
      (a : A) (rows : List A) → place a ≡ n → Table rows → Table (insert_or_ignore key a rows)
  insert-Table a rows p t = (
    insert_or_ignore-HasKeys key a rows t.0,
    All-insert_or_ignore key (λ r. place r ≡ n) a rows p t.1,
  )

  update-Table :
      (k : ℕ) (f : A → A) (rows : List A)
      → ((x : A) → key (f x) ≡ key x)
      → ((x : A) → place (f x) ≡ place x)
      → Table rows
      → Table (update_where key k f rows)
  update-Table k f rows g p t = (
    update_where-HasKeys key k f rows g t.0,
    All-update_where key (λ r. place r ≡ n) k f rows (λ x q. rw (p x) q) t.1,
  )

-- A statement that fails changes nothing, so it is enough to look at what it writes.
exec-IsPlaced :
    (n : ℕ) (io : Answer) (d' d : Db) → IsPlaced n d → IsPlaced n d' → IsPlaced n (exec io d' d).0
exec-IsPlaced n none d' d h k = k
exec-IsPlaced n (some x) d' d h k = h

-- A write to one table keeps the others.
module _ (n : ℕ) (d : Db) (h : IsPlaced n d) where
  with_ingenieros :
      (rows : List Ingeniero)
      → Table (λ r. r.id) (λ r. r.sucursal_id) n rows
      → IsPlaced n (record d { ingenieros = rows })
  with_ingenieros rows t = record {
    ingenieros = t;
    usuarios = h.usuarios;
    dispositivos = h.dispositivos;
    tickets = h.tickets;
  }

  with_usuarios :
      (rows : List Usuario)
      → Table (λ r. r.id) (λ r. r.sucursal_id) n rows
      → IsPlaced n (record d { usuarios = rows })
  with_usuarios rows t = record {
    ingenieros = h.ingenieros;
    usuarios = t;
    dispositivos = h.dispositivos;
    tickets = h.tickets;
  }

  with_dispositivos :
      (rows : List Dispositivo)
      → Table (λ r. r.id) (λ r. r.sucursal_id) n rows
      → IsPlaced n (record d { dispositivos = rows })
  with_dispositivos rows t = record {
    ingenieros = h.ingenieros;
    usuarios = h.usuarios;
    dispositivos = t;
    tickets = h.tickets;
  }

  with_tickets :
      (rows : List Ticket)
      → Table (λ r. r.id) (λ r. r.id_sucursal) n rows
      → IsPlaced n (record d { tickets = rows })
  with_tickets rows t = record {
    ingenieros = h.ingenieros;
    usuarios = h.usuarios;
    dispositivos = h.dispositivos;
    tickets = t;
  }

  pub set_ingeniero_disponible-IsPlaced :
      (id x : ℕ) (io : Answer) → IsPlaced n (set_ingeniero_disponible id x io d).0
  unfolding set_ingeniero_disponible
  set_ingeniero_disponible-IsPlaced id x io = exec-IsPlaced n io _ d h (
      with_ingenieros _ (
        update-Table (λ r. r.id) (λ r. r.sucursal_id) n id
          (λ (r : Ingeniero). record r { disponible = x }) d.ingenieros (λ r. refl) (λ r. refl)
          h.ingenieros))

  pub update_ticket_folio-IsPlaced :
      (id : ℕ) (folio : String) (io : Answer) → IsPlaced n (update_ticket_folio id folio io d).0
  unfolding update_ticket_folio
  update_ticket_folio-IsPlaced id folio io = exec-IsPlaced n io _ d h (
      with_tickets _ (
        update-Table (λ r. r.id) (λ r. r.id_sucursal) n id
          (λ (t : Ticket). record t { folio = folio }) d.tickets (λ r. refl) (λ r. refl) h.tickets))

  pub close_ticket-IsPlaced :
      (now : String) (id : ℕ) (io : Answer) → IsPlaced n (close_ticket now id io d).0
  unfolding close_ticket
  close_ticket-IsPlaced now id io = exec-IsPlaced n io _ d h (
      with_tickets _ (
        update-Table (λ r. r.id) (λ r. r.id_sucursal) n id
          (λ (t : Ticket). record t { estado = "CERRADO"; closed_at = now }) d.tickets (λ r. refl)
          (λ r. refl) h.tickets))

  -- The rows that the handler inserts are the node's own.
  pub insert_usuario-IsPlaced :
      (r : UsuarioRow) (io : Answer)
      → r.sucursal_id ≡ n
      → IsPlaced n (insert_usuario r.id r.nombre r.sucursal_id io d).0
  unfolding insert_usuario
  insert_usuario-IsPlaced r io p = exec-IsPlaced n io _ d h (
      with_usuarios _ (
        insert-Table (λ r. r.id) (λ r. r.sucursal_id) n
          (record { id = r.id; nombre = r.nombre; sucursal_id = r.sucursal_id }) d.usuarios p
          h.usuarios))

  pub insert_ingeniero-IsPlaced :
      (r : IngenieroRow) (io : Answer)
      → r.sucursal_id ≡ n
      → IsPlaced n (insert_ingeniero r.id r.nombre r.sucursal_id io d).0
  unfolding insert_ingeniero
  insert_ingeniero-IsPlaced r io p = exec-IsPlaced n io _ d h (
      with_ingenieros _ (
        insert-Table (λ r. r.id) (λ r. r.sucursal_id) n
          (record { id = r.id; nombre = r.nombre; sucursal_id = r.sucursal_id; disponible = 1 })
          d.ingenieros p h.ingenieros))

  pub insert_dispositivo-IsPlaced :
      (r : DispositivoRow) (io : Answer)
      → r.sucursal_id ≡ n
      → IsPlaced n (insert_dispositivo r.id r.nombre r.tipo r.sucursal_id r.ingeniero_id io d).0
  unfolding insert_dispositivo
  insert_dispositivo-IsPlaced r io p = exec-IsPlaced n io _ d h (
      with_dispositivos _ (
        insert-Table (λ r. r.id) (λ r. r.sucursal_id) n
          (record {
            id = r.id;
            nombre = r.nombre;
            tipo = r.tipo;
            sucursal_id = r.sucursal_id;
            ingeniero_id = r.ingeniero_id;
          })
          d.dispositivos p h.dispositivos))

  pub insert_ticket_full-IsPlaced :
      (t : Ticket) (io : Answer) → t.id_sucursal ≡ n → IsPlaced n (insert_ticket_full t io d).0
  unfolding insert_ticket_full
  insert_ticket_full-IsPlaced t io p =
      exec-IsPlaced n io _ d h
        (with_tickets _ (insert-Table (λ r. r.id) (λ r. r.id_sucursal) n t d.tickets p h.tickets))
