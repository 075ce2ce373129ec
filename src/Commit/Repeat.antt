-- ===== src/Commit/Repeat.antt =====
-- A commit that arrives twice.
use node_messager.Base.{
  ℕ, String, ◌≡◌, refl, ap, ap₂, inl, inr, Bool, true, false, not, Option, none, some, List, ◌==◌,
  nat_eq, if◌then◌else◌, Option-cases,
}
use node_messager.Dto.{Node, UsuarioRow, IngenieroRow, DispositivoRow}
use node_messager.Db.{
  Db, Ingeniero, Usuario, Dispositivo, Ticket, Answer, exec, update_where, insert_usuario,
  insert_ingeniero, insert_dispositivo, insert_ticket_full, update_ticket_folio, close_ticket,
  set_ingeniero_disponible,
}
use node_messager.Db.Tables.{insert_or_ignore_twice, update_where_twice}
use node_messager.Commit.{
  Operation, insert_usuario_op, insert_ingeniero_op, insert_dispositivo_op, insert_ticket_op,
  update_ticket_folio_op, close_ticket_op, update_ingeniero_disponible_op, unknown_op,
  read_operation, Codecs, Context, with_payload, ticket_of, then_release, apply_operation,
  commit_handler,
}

-- To execute it again changes nothing more.
abbrev pub Settles : (Db → Db × Answer) → Type 0
Settles s = (d : Db) → (s (s d).0).0 ≡ (s d).0

exec-Settles :
    (io : Answer) (g : Db → Db) → ((d : Db) → g (g d) ≡ g d) → Settles (λ d. exec io (g d) d)
exec-Settles none g h d = h d
exec-Settles (some x) g h d = refl

guarded-Settles :
    (b : Bool) (s : Db → Db × Answer) → Settles s → Settles (λ d. if b then (d, none) else s d)
guarded-Settles true s h d = refl
guarded-Settles false s h d = h d

with_payload-Settles :
    {P : Type 0} (c : Context) (o : Option P) (s : P → Db → Db × Answer)
    → ((p : P) → Settles (s p))
    → Settles (λ d. with_payload c o d (λ p. s p d))
with_payload-Settles c none s h d = refl
with_payload-Settles c (some p) s h d = h p d

insert_usuario-Settles :
    (r : UsuarioRow) (io : Answer) → Settles (insert_usuario r.id r.nombre r.sucursal_id io)
unfolding insert_usuario
insert_usuario-Settles r io = exec-Settles io _ λ d.
    ap (λ (rows : List Usuario). record d { usuarios = rows })
      (insert_or_ignore_twice (λ x. x.id) _ d.usuarios)

insert_ingeniero-Settles :
    (r : IngenieroRow) (io : Answer) → Settles (insert_ingeniero r.id r.nombre r.sucursal_id io)
unfolding insert_ingeniero
insert_ingeniero-Settles r io = exec-Settles io _ λ d.
    ap (λ (rows : List Ingeniero). record d { ingenieros = rows })
      (insert_or_ignore_twice (λ x. x.id) _ d.ingenieros)

insert_dispositivo-Settles :
    (r : DispositivoRow) (io : Answer)
    → Settles (insert_dispositivo r.id r.nombre r.tipo r.sucursal_id r.ingeniero_id io)
unfolding insert_dispositivo
insert_dispositivo-Settles r io = exec-Settles io _ λ d.
    ap (λ (rows : List Dispositivo). record d { dispositivos = rows })
      (insert_or_ignore_twice (λ x. x.id) _ d.dispositivos)

insert_ticket_full-Settles : (t : Ticket) (io : Answer) → Settles (insert_ticket_full t io)
unfolding insert_ticket_full
insert_ticket_full-Settles t io = exec-Settles io _ λ d.
    ap (λ (rows : List Ticket). record d { tickets = rows })
      (insert_or_ignore_twice (λ x. x.id) t d.tickets)

update_ticket_folio-Settles :
    (id : ℕ) (folio : String) (io : Answer) → Settles (update_ticket_folio id folio io)
unfolding update_ticket_folio
update_ticket_folio-Settles id folio io = exec-Settles io _ λ d.
    ap (λ (rows : List Ticket). record d { tickets = rows })
      (update_where_twice (λ x. x.id) id _ d.tickets (λ t. refl) (λ t. refl))

set_ingeniero_disponible-Settles :
    (id x : ℕ) (io : Answer) → Settles (set_ingeniero_disponible id x io)
unfolding set_ingeniero_disponible
set_ingeniero_disponible-Settles id x io = exec-Settles io _ λ d.
    ap (λ (rows : List Ingeniero). record d { ingenieros = rows })
      (update_where_twice (λ x. x.id) id _ d.ingenieros (λ t. refl) (λ t. refl))

closed_twice :
    (now : String) (id : ℕ) (ts : List Ticket)
    → let f = λ (t : Ticket). record t { estado = "CERRADO"; closed_at = now } in
      update_where (λ x. x.id) id f (update_where (λ x. x.id) id f ts)
      ≡ update_where (λ x. x.id) id f ts
closed_twice now id ts = update_where_twice (λ x. x.id) id _ ts (λ t. refl) (λ t. refl)

free_twice :
    (id : ℕ) (es : List Ingeniero)
    → let f = λ (r : Ingeniero). record r { disponible = 1 } in
      update_where (λ x. x.id) id f (update_where (λ x. x.id) id f es)
      ≡ update_where (λ x. x.id) id f es
free_twice id es = update_where_twice (λ x. x.id) id _ es (λ t. refl) (λ t. refl)

-- The two statements of CLOSE_TICKET, by their answers.
close-Settles :
    (c : Context) (id engineer : ℕ)
    → Settles (λ d. then_release c engineer (close_ticket c.now id c.first d))
unfolding close_ticket set_ingeniero_disponible
close-Settles c id engineer d = elim (Option-cases c.first) [
  | inr (x, e) ↦ rw e refl
  | inl e ↦ elim (Option-cases c.second) [
    | inr (x, k) ↦
        rw (e, k)
          (ap (λ (rows : List Ticket). record d { tickets = rows })
            (closed_twice c.now id d.tickets))
    | inl k ↦
        rw (e, k)
          (ap₂
            (λ (rows : List Ticket) (es : List Ingeniero). record d {
              tickets = rows;
              ingenieros = es;
            })
            (closed_twice c.now id d.tickets) (free_twice engineer d.ingenieros))
  ]
]

module _ {Raw : Type 0} (json : Codecs Raw) (self : Node) (c : Context) where
  apply_operation-Settles :
      (o : Operation) (body : Raw) → Settles (apply_operation json self c o body)
  unfolding apply_operation
  apply_operation-Settles insert_usuario_op body =
      with_payload-Settles c (json.usuario.unmarshal body) _
        λ r. guarded-Settles (not (r.sucursal_id == self.id)) _ (insert_usuario-Settles r c.first)
  apply_operation-Settles insert_ingeniero_op body =
      with_payload-Settles c (json.ingeniero.unmarshal body) _
        λ r. guarded-Settles (not (r.sucursal_id == self.id)) _ (insert_ingeniero-Settles r c.first)
  apply_operation-Settles insert_dispositivo_op body =
      with_payload-Settles c (json.dispositivo.unmarshal body) _ λ r.
        guarded-Settles (not (r.sucursal_id == self.id)) _ (insert_dispositivo-Settles r c.first)
  apply_operation-Settles insert_ticket_op body =
      with_payload-Settles c (json.ticket.unmarshal body) _ λ r.
        guarded-Settles (not (r.id_sucursal == self.id)) _
          (insert_ticket_full-Settles (ticket_of r) c.first)
  apply_operation-Settles update_ticket_folio_op body =
      with_payload-Settles c (json.folio.unmarshal body) _
        λ p. update_ticket_folio-Settles p.id_ticket p.folio c.first
  apply_operation-Settles close_ticket_op body =
      with_payload-Settles c (json.close.unmarshal body) _
        λ p. close-Settles c p.id_ticket p.id_ingeniero
  apply_operation-Settles update_ingeniero_disponible_op body =
      with_payload-Settles c (json.ingeniero.unmarshal body) _
        λ r. set_ingeniero_disponible-Settles r.id r.disponible c.first
  apply_operation-Settles unknown_op body = λ d. refl

  -- Applying a committed operation a second time, at the same time and with the same answers
  -- of the driver, leaves the tables as the first time left them.
  pub commit_handler-Settles :
      (operation : String) (body : Raw) → Settles (commit_handler json self c operation body)
  unfolding commit_handler
  commit_handler-Settles operation body = apply_operation-Settles (read_operation operation) body
