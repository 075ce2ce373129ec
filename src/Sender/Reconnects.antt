-- ===== src/Sender/Reconnects.antt =====
-- What the pool does for the next send.
use node_messager.Base.{
  ℕ, String, ◌≡◌, refl, ap, ◌∙◌, Bool, true, Bool-cases, Option, none, some, [], ◌∷◌, inl, inr,
  nat_eq, ==_refl,
}
use node_messager.Base.Dict.{lookup, insert, lookup-delete}
use node_messager.Base.Retry.{Result, ok, err}
use node_messager.Dto.{Node, Message, MessageType}
use node_messager.Sender.{
  Pool, Call, SendError, keep_dialled, get_from, get, message_to, write_to, send_on, send,
}

-- The pool has no client for the node that is open.
abbrev NeedsDial : (ℕ → Bool) → Option ℕ → Type 0
NeedsDial is_closed none = Unit
NeedsDial is_closed (some c) = is_closed c ≡ true

module _ {Raw Wire : Type 0} (encode : Message Raw → Wire) (from : Node) (type : MessageType) where
  write-NeedsDial :
      (call : Call) (to : Node) (content : Raw) (c : ℕ) (o : Option String) (p : Pool)
      (x : SendError)
      → (write_to encode from type call to content c o p).1 ≡ some x
      → NeedsDial call.is_closed
          (lookup to.id (write_to encode from type call to content c o p).0.0.conns)
  write-NeedsDial call to content c none p x h = cc
  write-NeedsDial call to content c (some y) p x h = rw (lookup-delete, ==_refl to.id) tt

  dial-NeedsDial :
      (call : Call) (to : Node) (content : Raw) (r : Result String ℕ) (p : Pool) (x : SendError)
      → NeedsDial call.is_closed (lookup to.id p.conns)
      → (send_on encode from type call to content (keep_dialled to r p)).1 ≡ some x
      → NeedsDial call.is_closed
          (lookup to.id (send_on encode from type call to content (keep_dialled to r p)).0.0.conns)
  dial-NeedsDial call to content (err y) p x n h = n
  dial-NeedsDial call to content (ok c) p x n h =
      write-NeedsDial call to content c call.written _ x h

  get-NeedsDial :
      (call : Call) (to : Node) (content : Raw) (o : Option ℕ) (p : Pool) (x : SendError)
      → lookup to.id p.conns ≡ o
      → (send_on encode from type call to content (get_from o call to p)).1 ≡ some x
      → NeedsDial call.is_closed
          (lookup to.id (send_on encode from type call to content (get_from o call to p)).0.0.conns)
  get-NeedsDial call to content none p x q h =
      dial-NeedsDial call to content call.dialled p x (rw q tt) h
  get-NeedsDial call to content (some c) p x q h = elim (Bool-cases (call.is_closed c)) [
    | inl t ↦ rw t (dial-NeedsDial call to content call.dialled p x (rw q t) (rw t at h))
    | inr f ↦ rw f (write-NeedsDial call to content c call.written p x (rw f at h))
  ]

  get_dials :
      (call : Call) (to : Node) (o : Option ℕ) (p : Pool)
      → NeedsDial call.is_closed o
      → get_from o call to p ≡ keep_dialled to call.dialled p
  get_dials call to none p n = refl
  get_dials call to (some c) p n = rw n refl

  still-NeedsDial :
      (before now : ℕ → Bool) (o : Option ℕ)
      → ((c : ℕ) → before c ≡ true → now c ≡ true)
      → NeedsDial before o
      → NeedsDial now o
  still-NeedsDial before now none k n = tt
  still-NeedsDial before now (some c) k n = k c n

  -- After a send to a node has failed, the next send to it dials a new connection, on which its
  -- message goes and which stays in the pool, if the dialling and the writing then succeed; closed
  -- connections stay closed.
  pub send-send :
      (call again : Call) (to : Node) (content next : Raw) (p : Pool) (x : SendError) (c : ℕ)
      → (send encode from type call to content p).1 ≡ some x
      → ((old : ℕ) → call.is_closed old ≡ true → again.is_closed old ≡ true)
      → again.dialled ≡ ok c
      → again.written ≡ none
      → (send encode from type again to next (send encode from type call to content p).0.0) ≡ (
        (
          record { conns = insert to.id c (send encode from type call to content p).0.0.conns },
          (c, encode (message_to encode from type again to next)) ∷ [],
        ),
        none,
      )
  unfolding send get
  send-send call again to content next p x c h k d w =
      let q = (send encode from type call to content p).0.0 in
      let n =
        still-NeedsDial call.is_closed again.is_closed (lookup to.id q.conns) k
          (get-NeedsDial call to content (lookup to.id p.conns) p x refl h) in
      ap (send_on encode from type again to next) (get_dials again to (lookup to.id q.conns) q n)
      ∙ rw (d, w) refl
