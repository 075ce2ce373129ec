-- ===== src/Commit/Placement.antt =====
-- What a commit keeps of a node's tables.
use node_messager.Base.{
  ℕ, String, ◌≡◌, inl, inr, not, Option, none, some, ◌==◌, nat_eq, eq_of_==, if◌then◌else◌,
  Bool-cases,
}
use node_messager.Dto.{Node}
use node_messager.Db.{Db, Answer, close_ticket}
use node_messager.Commit.{
  Operation, insert_usuario_op, insert_ingeniero_op, insert_dispositivo_op, insert_ticket_op,
  update_ticket_folio_op, close_ticket_op, update_ingeniero_disponible_op, unknown_op,
  read_operation, Codecs, Context, with_payload, ticket_of, then_release, apply_operation,
  commit_handler,
}
use node_messager.Commit.Rows.{
  IsPlaced, set_ingeniero_disponible-IsPlaced, update_ticket_folio-IsPlaced, close_ticket-IsPlaced,
  insert_usuario-IsPlaced, insert_ingeniero-IsPlaced, insert_dispositivo-IsPlaced,
  insert_ticket_full-IsPlaced,
}

module _ (n : ℕ) (d : Db) (h : IsPlaced n d) where
  guarded :
      (id : ℕ) (r : Db × Answer)
      → (id ≡ n → IsPlaced n r.0)
      → IsPlaced n (if not (id == n) then (d, none) else r).0
  guarded id r k = elim (Bool-cases (id == n)) [
    | inl mine ↦ rw mine (k (eq_of_== id n mine))
    | inr other ↦ rw other h
  ]

  decoded :
      {P : Type 0} (c : Context) (o : Option P) (f : P → Db × Answer)
      → ((p : P) → IsPlaced n (f p).0)
      → IsPlaced n (with_payload c o d f).0
  decoded c none f k = h
  decoded c (some p) f k = k p

then_release-IsPlaced :
    (n id : ℕ) (c : Context) (r : Db × Answer) → IsPlaced n r.0 → IsPlaced n (then_release c id r).0
then_release-IsPlaced n id c (d, some x) h = h
then_release-IsPlaced n id c (d, none) h = set_ingeniero_disponible-IsPlaced n d h id 1 c.second

module _ {Raw : Type 0} (json : Codecs Raw) (self : Node) (c : Context) where
  apply_operation-IsPlaced :
      (o : Operation) (body : Raw) (d : Db)
      → IsPlaced self.id d
      → IsPlaced self.id (apply_operation json self c o body d).0
  unfolding apply_operation
  apply_operation-IsPlaced insert_usuario_op body d h =
      decoded self.id d h c _ _
        λ r. guarded self.id d h r.sucursal_id _ (insert_usuario-IsPlaced self.id d h r c.first)
  apply_operation-IsPlaced insert_ingeniero_op body d h =
      decoded self.id d h c _ _
        λ r. guarded self.id d h r.sucursal_id _ (insert_ingeniero-IsPlaced self.id d h r c.first)
  apply_operation-IsPlaced insert_dispositivo_op body d h =
      decoded self.id d h c _ _
        λ r. guarded self.id d h r.sucursal_id _ (insert_dispositivo-IsPlaced self.id d h r c.first)
  apply_operation-IsPlaced insert_ticket_op body d h = decoded self.id d h c _ _ λ r.
      guarded self.id d h r.id_sucursal _
        (insert_ticket_full-IsPlaced self.id d h (ticket_of r) c.first)
  apply_operation-IsPlaced update_ticket_folio_op body d h =
      decoded self.id d h c _ _
        λ p. update_ticket_folio-IsPlaced self.id d h p.id_ticket p.folio c.first
  apply_operation-IsPlaced close_ticket_op body d h =
      decoded self.id d h c (json.close.unmarshal body)
        (λ p. then_release c p.id_ingeniero (close_ticket c.now p.id_ticket c.first d))
        λ p.
          then_release-IsPlaced self.id p.id_ingeniero c (close_ticket c.now p.id_ticket c.first d)
            (close_ticket-IsPlaced self.id d h c.now p.id_ticket c.first)
  apply_operation-IsPlaced update_ingeniero_disponible_op body d h =
      decoded self.id d h c _ _
        λ r. set_ingeniero_disponible-IsPlaced self.id d h r.id r.disponible c.first
  apply_operation-IsPlaced unknown_op body d h = h

  -- Whatever is committed, in whatever text and however the driver answers, the tables of a node keep
  -- their primary keys and hold rows of that node's branch alone.
  pub commit_handler-IsPlaced :
      (operation : String) (body : Raw) (d : Db)
      → IsPlaced self.id d
      → IsPlaced self.id (commit_handler json self c operation body d).0
  unfolding commit_handler
  commit_handler-IsPlaced operation body d h =
      apply_operation-IsPlaced (read_operation operation) body d h
