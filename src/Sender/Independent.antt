-- ===== src/Sender/Independent.antt =====
-- The targets of a broadcast do not disturb one another.
use node_messager.Base.{
  ℕ, String, ◌≡◌, refl, sym, subst, ap, ◌∙◌, ◌≢◌, inl, inr, Bool-cases, Option, none, some, List,
  [], ◌∷◌, nat_eq, ==_of_ne, if◌then◌else◌, In, All, All-In,
}
use node_messager.Base.Dict.{Dict, lookup, lookup-insert, lookup-insert_self, lookup-delete}
use node_messager.Base.Retry.{Result, ok, err}
use node_messager.Dto.{Node, Message, MessageType}
use node_messager.Sender.{
  Pool, Call, SendError, connect_failed, send_failed, keep_dialled, get_from, get, write_to,
  send_on, send, note_error, broadcast_from, broadcast,
}

-- No two targets have the same id.
abbrev pub AreApart : List Node → Type 0
AreApart [] = Unit
AreApart (t ∷ ts) = All (λ u. u.id ≢ t.id) ts × AreApart ts

-- The error of a send, from the client that the pool has for the target.
abbrev write_failure : Node → Option String → Option SendError
write_failure to none = none
write_failure to (some x) = some (send_failed to.name x)

abbrev dial_failure : Call → Node → Result String ℕ → Option SendError
dial_failure call to (err x) = some (connect_failed to.name x)
dial_failure call to (ok c) = write_failure to call.written

abbrev failure : Call → Node → Option ℕ → Option SendError
failure call to none = dial_failure call to call.dialled
failure call to (some c) =
    if call.is_closed c then dial_failure call to call.dialled else write_failure to call.written

note_error_self :
    (id : ℕ) (o : Option SendError) (errs : Dict ℕ SendError)
    → lookup id errs ≡ none
    → lookup id (note_error id o errs) ≡ o
note_error_self id none errs h = h
note_error_self id (some x) errs h = lookup-insert_self id x errs

note_error_other :
    (id other : ℕ) (o : Option SendError) (errs : Dict ℕ SendError)
    → other ≢ id
    → lookup other (note_error id o errs) ≡ lookup other errs
note_error_other id other none errs h = refl
note_error_other id other (some x) errs h =
    rw (lookup-insert, ==_of_ne id other (λ e. h (sym e))) refl

keep_dialled_other :
    (n : Node) (r : Result String ℕ) (p : Pool) (other : ℕ)
    → other ≢ n.id
    → lookup other (keep_dialled n r p).0.conns ≡ lookup other p.conns
keep_dialled_other n (err x) p other h = refl
keep_dialled_other n (ok c) p other h =
    rw (lookup-insert, ==_of_ne n.id other (λ e. h (sym e))) refl

get_from_other :
    (o : Option ℕ) (call : Call) (n : Node) (p : Pool) (other : ℕ)
    → other ≢ n.id
    → lookup other (get_from o call n p).0.conns ≡ lookup other p.conns
get_from_other none call n p other h = keep_dialled_other n call.dialled p other h
get_from_other (some c) call n p other h = elim (Bool-cases (call.is_closed c)) [
  | inl t ↦ rw t (keep_dialled_other n call.dialled p other h)
  | inr f ↦ rw f refl
]

module _ {Raw Wire : Type 0} (encode : Message Raw → Wire) (from : Node) (type : MessageType) where
  write_to_other :
      (call : Call) (to : Node) (content : Raw) (c : ℕ) (o : Option String) (p : Pool) (other : ℕ)
      → other ≢ to.id
      → lookup other (write_to encode from type call to content c o p).0.0.conns
        ≡ lookup other p.conns
  write_to_other call to content c none p other h = refl
  write_to_other call to content c (some x) p other h =
      rw (lookup-delete, ==_of_ne to.id other (λ e. h (sym e))) refl

  send_on_other :
      (call : Call) (to : Node) (content : Raw) (g : Pool × Result String ℕ) (other : ℕ)
      → other ≢ to.id
      → lookup other (send_on encode from type call to content g).0.0.conns ≡ lookup other g.0.conns
  send_on_other call to content (p, err x) other h = refl
  send_on_other call to content (p, ok c) other h =
      write_to_other call to content c call.written p other h

  send_other :
      (call : Call) (to : Node) (content : Raw) (p : Pool) (other : ℕ)
      → other ≢ to.id
      → lookup other (send encode from type call to content p).0.0.conns ≡ lookup other p.conns
  unfolding send get
  send_other call to content p other h =
      send_on_other call to content (get call to p) other h
      ∙ get_from_other (lookup to.id p.conns) call to p other h

  write_failed :
      (call : Call) (to : Node) (content : Raw) (c : ℕ) (o : Option String) (p : Pool)
      → (write_to encode from type call to content c o p).1 ≡ write_failure to o
  write_failed call to content c none p = refl
  write_failed call to content c (some x) p = refl

  dial_failed :
      (call : Call) (to : Node) (content : Raw) (r : Result String ℕ) (p : Pool)
      → (send_on encode from type call to content (keep_dialled to r p)).1 ≡ dial_failure call to r
  dial_failed call to content (err x) p = refl
  dial_failed call to content (ok c) p = write_failed call to content c call.written _

  get_failed :
      (call : Call) (to : Node) (content : Raw) (o : Option ℕ) (p : Pool)
      → (send_on encode from type call to content (get_from o call to p)).1 ≡ failure call to o
  get_failed call to content none p = dial_failed call to content call.dialled p
  get_failed call to content (some c) p = elim (Bool-cases (call.is_closed c)) [
    | inl t ↦ rw t (dial_failed call to content call.dialled p)
    | inr f ↦ rw f (write_failed call to content c call.written p)
  ]

  send-failure :
      (call : Call) (to : Node) (content : Raw) (p : Pool)
      → (send encode from type call to content p).1 ≡ failure call to (lookup to.id p.conns)
  unfolding send get
  send-failure call to content p = get_failed call to content (lookup to.id p.conns) p

  -- What is not among the targets is left alone.
  broadcast_from_other :
      (calls : Node → Call) (ts : List Node) (content : Raw) (errs : Dict ℕ SendError) (p : Pool)
      (other : ℕ)
      → All (λ u. u.id ≢ other) ts
      → (lookup other (broadcast_from encode from type calls ts content errs p).1
          ≡ lookup other errs)
        × (lookup other (broadcast_from encode from type calls ts content errs p).0.0.conns
            ≡ lookup other p.conns)
  unfolding broadcast_from
  broadcast_from_other calls [] content errs p other h = (refl, refl)
  broadcast_from_other calls (t ∷ ts) content errs p other h =
      let first = send encode from type (calls t) t content p in
      let ih =
        broadcast_from_other calls ts content (note_error t.id first.1 errs) first.0.0 other h.1 in
      (
        ih.0 ∙ note_error_other t.id other first.1 errs (λ e. h.0 (sym e)),
        ih.1 ∙ send_other (calls t) t content p other (λ e. h.0 (sym e)),
      )

  broadcast_from-failure :
      (calls : Node → Call) (ts : List Node) (content : Raw) (errs : Dict ℕ SendError) (p : Pool)
      (t : Node)
      → AreApart ts
      → In t ts
      → lookup t.id errs ≡ none
      → lookup t.id (broadcast_from encode from type calls ts content errs p).1
        ≡ failure (calls t) t (lookup t.id p.conns)
  unfolding broadcast_from
  broadcast_from-failure calls [] content errs p t a i n = absurd i
  broadcast_from-failure calls (u ∷ us) content errs p t a (inl e) n =
      let first = send encode from type (calls u) u content p in
      let same : u.id ≡ t.id = ap (λ (x : Node). x.id) (sym e) in
      subst
        (λ (x : Node).
          lookup x.id (broadcast_from encode from type calls (u ∷ us) content errs p).1
          ≡ failure (calls x) x (lookup x.id p.conns))
        (sym e)
        ((broadcast_from_other calls us content (note_error u.id first.1 errs) first.0.0 u.id a.0).0
          ∙ note_error_self u.id first.1 errs (rw same n)
          ∙ send-failure (calls u) u content p)
  broadcast_from-failure calls (u ∷ us) content errs p t a (inr i) n =
      let first = send encode from type (calls u) u content p in
      let ne : t.id ≢ u.id = All-In (λ v. v.id ≢ u.id) us a.0 i in
      broadcast_from-failure calls us content (note_error u.id first.1 errs) first.0.0 t a.1 i
        (note_error_other u.id t.id first.1 errs ne ∙ n)
      ∙ ap (failure (calls t) t) (send_other (calls u) u content p t.id ne)

  -- The errors of a broadcast to targets with distinct ids are, target by target, what sending to
  -- that target alone would give, with the same pool at the start: a target's entry is the error of
  -- its own send, and it has no entry if that gives none. No other node has an entry.
  pub broadcast-send :
      (calls : Node → Call) (targets : List Node) (content : Raw) (p : Pool)
      → AreApart targets
      → ((t : Node)
          → In t targets
          → lookup t.id (broadcast encode from type calls targets content p).1
            ≡ (send encode from type (calls t) t content p).1)
        × ((other : ℕ)
            → All (λ u. u.id ≢ other) targets
            → lookup other (broadcast encode from type calls targets content p).1 ≡ none)
  unfolding broadcast lookup
  broadcast-send calls targets content p a = (
    λ t i.
        broadcast_from-failure calls targets content [] p t a i refl
        ∙ sym (send-failure (calls t) t content p),
    λ other h. (broadcast_from_other calls targets content [] p other h).0,
  )
