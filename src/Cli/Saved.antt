-- ===== src/Cli/Saved.antt =====
-- What the menu writes is what it saves.
use node_messager.Base.{
  ℕ, suc, ◌+◌, String, ◌≡◌, refl, sym, ap, ◌∙◌, Option, none, some, List, [], ◌∷◌, ◌++◌, map, arith,
  nat_eq, length,
}
use node_messager.Base.Dict.{Dict, lookup, lookup-insert_self}
use node_messager.Base.Retry.{Result, ok, err}
use node_messager.Dto.{Node, Message, Codec}
use node_messager.MsgStore.{Entry, Store}
use node_messager.MsgStore.Window.{run}
use node_messager.MsgStore.Window
use node_messager.Sender.{Pool, get}
use node_messager.Cli.Outbox.{
  Outbox, Moment, Logged, by_hub, by_menu, Failure, Sending, hear_in, write_on, send_on, send, note,
  broadcast_message, broadcast_all,
}

abbrev missed : Option String → ℕ
missed none = 0
missed (some x) = 1

abbrev pub call_of : {C : Type 0} → Logged C → Window.Call C
call_of (by_hub c) = c
call_of (by_menu k c) = c

abbrev pub calls_of : {C : Type 0} → List (Logged C) → List (Window.Call C)
calls_of = map call_of

calls_of-by_hub : {C : Type 0} (cs : List (Window.Call C)) → calls_of (map by_hub cs) ≡ cs
calls_of-by_hub [] = refl
calls_of-by_hub (c ∷ cs) = ap (λ r. c ∷ r) (calls_of-by_hub cs)

-- How many messages the menu wrote.
abbrev pub written : {C : Type 0} → List (Logged C) → ℕ
written [] = 0
written (by_hub c ∷ ls) = written ls
written (by_menu k c ∷ ls) = suc (written ls)

written-append :
    {C : Type 0} (xs ys : List (Logged C)) → written (xs ++ ys) ≡ written xs + written ys
written-append [] ys = omega arith
written-append (by_hub c ∷ xs) ys = written-append xs ys
written-append (by_menu k c ∷ xs) ys = omega (arith, written-append xs ys)

written-by_hub : {C : Type 0} (cs : List (Window.Call C)) → written (map by_hub cs) ≡ 0
written-by_hub [] = refl
written-by_hub (c ∷ cs) = written-by_hub cs

pub calls_of-append :
    {C : Type 0} (xs ys : List (Logged C)) → calls_of (xs ++ ys) ≡ calls_of xs ++ calls_of ys
calls_of-append [] ys = refl
calls_of-append (x ∷ xs) ys = ap (λ r. call_of x ∷ r) (calls_of-append xs ys)

module _ {C : Type 0} (json : Codec (List ℕ) (Entry C)) where
  pub run-append :
      (xs ys : List (Window.Call C)) (s : Store C)
      → run json (xs ++ ys) s ≡ run json ys (run json xs s)
  unfolding run
  run-append [] ys s = refl
  run-append (x ∷ xs) ys s = run-append xs ys _

  -- One message: it is written or there is an error, and what is written is saved.
  abbrev Saves : Node → Dict ℕ (Store C) → Sending json → Type 0
  Saves from stores r =
      (written r.0.1 + missed r.1 ≡ 1)
      × ((s : Store C)
          → lookup from.id stores ≡ some s
          → lookup from.id r.0.0.stores ≡ some (run json (calls_of r.0.1) s))

  write_on-Saves :
      (at : Moment C) (from : Node) (m : Message C) (c : ℕ) (e : Option String) (o : Outbox C)
      → Saves from o.stores (write_on json at from m c e o)
  unfolding run
  write_on-Saves at from m c (some x) o = (omega arith, λ s h. h)
  write_on-Saves at from m c none o =
      (omega arith, λ s h. rw h (lookup-insert_self from.id _ o.stores))

  send_on-Saves :
      (at : Moment C) (from : Node) (m : Message C) (o : Outbox C) (g : Pool × Result String ℕ)
      → Saves from o.stores (send_on json at from m o g)
  unfolding run
  send_on-Saves at from m o (p, err x) = (omega arith, λ s h. h)
  send_on-Saves at from m o (p, ok c) =
      write_on-Saves at from m c at.call.written (record o { pool = p })

  hear_in_lem :
      (id : ℕ) (cs : List (Window.Call C)) (stores : Dict ℕ (Store C)) (s : Store C)
      → lookup id stores ≡ some s
      → lookup id (hear_in json id cs (lookup id stores) stores) ≡ some (run json cs s)
  hear_in_lem id cs stores s h = rw h (lookup-insert_self id _ stores)

  pub send-Saves :
      (at : Moment C) (from to : Node) (m : Message C) (o : Outbox C)
      → Saves from o.stores (send json at from to m o)
  unfolding send
  send-Saves at from to m o =
      let stores = hear_in json from.id at.incoming (lookup from.id o.stores) o.stores in
      let r = send_on json at from m (record o { stores = stores }) (get at.call to o.pool) in
      let (counted, kept) : Saves from stores r =
        send_on-Saves at from m (record o { stores = stores }) (get at.call to o.pool) in
      (
        omega (
          arith,
          counted,
          written-append (map by_hub at.incoming) r.0.1,
          written-by_hub at.incoming,
        ),
        λ s h.
            kept _ (hear_in_lem from.id at.incoming o.stores s h)
            ∙ ap some (
                sym (run-append at.incoming (calls_of r.0.1) s)
                ∙ ap (λ cs. run json cs s)
                    (sym (
                      calls_of-append (map by_hub at.incoming) r.0.1
                      ∙ ap (λ cs. cs ++ calls_of r.0.1) (calls_of-by_hub at.incoming)))),
      )

  length-note :
      (n : Node) (e : Option String) (errs : List Failure)
      → length (note json n e errs) ≡ missed e + length errs
  length-note n none errs = omega arith
  length-note n (some x) errs = omega arith

  -- Each target of a broadcast from the menu is counted once, as a message written or as an error,
  -- and the sender's store, if it has one, holds afterwards what it held before, the messages that
  -- the hub saved meanwhile and exactly those that were written, in the order of the saves.
  pub broadcast_all-run :
      (id now : String) (at : Node → Moment C) (from : Node) (content : C) (targets : List Node)
      (o : Outbox C) (s : Store C)
      → lookup from.id o.stores ≡ some s
      → (written (broadcast_all json id now at from content targets o).0.1
            + length (broadcast_all json id now at from content targets o).1
          ≡ length targets)
        × (lookup from.id (broadcast_all json id now at from content targets o).0.0.stores
            ≡ some
                (run json (calls_of (broadcast_all json id now at from content targets o).0.1) s))
  unfolding broadcast_all run
  broadcast_all-run id now at from content [] o s h = (omega arith, h)
  broadcast_all-run id now at from content (n ∷ ns) o s h =
      let m = broadcast_message json id now from content n in
      let first = send json (at n) from n m o in
      let rest = broadcast_all json id now at from content ns first.0.0 in
      let (counted, kept) = send-Saves (at n) from n m o in
      let (ih, stored) =
        broadcast_all-run id now at from content ns first.0.0 (run json (calls_of first.0.1) s)
          (kept s h) in
      (
        omega (arith, written-append first.0.1 rest.0.1, length-note n first.1 rest.1, counted, ih),
        stored
            ∙ ap some (
                sym (run-append (calls_of first.0.1) (calls_of rest.0.1) s)
                ∙ ap (λ cs. run json cs s) (sym (calls_of-append first.0.1 rest.0.1))),
      )
