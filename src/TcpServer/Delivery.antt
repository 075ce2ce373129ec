-- ===== src/TcpServer/Delivery.antt =====
-- From the `Send` of a client to the dispatcher of the node that it is connected to.
use node_messager.Base.{
  ℕ, String, ◌≡◌, refl, sym, ap, ◌∙◌, Bool, true, false, Option, none, some, List, [], ◌∷◌, ◌++◌,
  map, append-nil, append_assoc, All,
}
use node_messager.Base.Scanning.{IsLine, IsScanner, frames, scan-frames}
use mathlib.Core.List.{Perm, perm_middle}
use mathlib.Core.List.Perm
use node_messager.Dto.{Node, Message, Codec}
use node_messager.MsgStore.{Entry, Store, Io}
use node_messager.MsgStore.Window.{Call}
use node_messager.TcpClient.{Client, connected, send_all, send, whole}
use node_messager.Hub.{Event, dispatch, stopped, registered, unregistered, arrived, run, read_pump}
use node_messager.Hub
use node_messager.TcpServer.{Answer, serve, set_dispatcher, new}
use node_messager.Hub.Heard.{heard, heard_as, run-heard}

-- The events of two connections, in the order in which the hub takes them.
pub data Merges {ℓ} {A : Type ℓ} : List A → List A → List A → Type ℓ where
  done : Merges [] [] []
  left : {xs ys zs : List A} (x : A) → Merges xs ys zs → Merges (x ∷ xs) ys (x ∷ zs)
  right : {xs ys zs : List A} (y : A) → Merges xs ys zs → Merges xs (y ∷ ys) (y ∷ zs)

-- A list, with others between its elements.
pub data IsWithin {ℓ} {A : Type ℓ} : List A → List A → Type ℓ where
  none_left : IsWithin [] []
  keep : {xs ys : List A} (x : A) → IsWithin xs ys → IsWithin (x ∷ xs) (x ∷ ys)
  skip : {xs ys : List A} (y : A) → IsWithin xs ys → IsWithin xs (y ∷ ys)

among : {A : Type 0} {xs ys : List A} → IsWithin xs ys → (rest : List A) × Perm ys (xs ++ rest)
among none_left = ([], Perm.refl [])
among (keep x w) = let (rest, p) = among w in (rest, Perm.cons x p)
among (skip {xs} y w) =
    let (rest, p) = among w in
    (y ∷ rest, Perm.trans (Perm.cons y p) (Perm.symm (perm_middle xs rest)))

send_all-frames :
    (msgs : List (List ℕ)) (c : Client) → (send_all msgs c).written ≡ c.written ++ frames msgs
unfolding send_all send
send_all-frames [] c = sym (append-nil c.written)
send_all-frames (msg ∷ msgs) c =
    send_all-frames msgs (send whole msg c).0 ∙ rw (append_assoc, append_assoc) refl

All-map :
    {A B : Type 0} (P : B → Type 0) (f : A → B) (xs : List A)
    → All (λ x. P (f x)) xs
    → All P (map f xs)
All-map P f [] h = tt
All-map P f (x ∷ xs) h = (h.0, All-map P f xs h.1)

module _ {C : Type 0} (json : Codec (List ℕ) (Message C)) (entries : Codec (List ℕ) (Entry C)) where
  abbrev pub messages : List (Event (List ℕ)) → List (Message C)
  messages evs = map (λ c. c.msg) (heard json entries evs)

  abbrev pub Decodes : Message C → Type 0
  Decodes m = json.unmarshal (json.marshal m) ≡ some m

  abbrev pub GoesOn : Event (List ℕ) → Type 0
  GoesOn stopped = ⊥
  GoesOn _ = Unit

  one_heard :
      (now : String) (io : Io) (o : Option (Message C)) (cs ds : List (Call C))
      → IsWithin (map (λ c. c.msg) cs) (map (λ c. c.msg) ds)
      → IsWithin (map (λ c. c.msg) (heard_as now io o cs)) (map (λ c. c.msg) (heard_as now io o ds))
        × IsWithin (map (λ c. c.msg) cs) (map (λ c. c.msg) (heard_as now io o ds))
  one_heard now io none cs ds w = (w, w)
  one_heard now io (some m) cs ds w = (keep m w, skip m w)

  -- What a connection says is heard, in its order, whatever others say.
  merged :
      {xs ys zs : List (Event (List ℕ))}
      → Merges xs ys zs
      → All GoesOn xs
      → All GoesOn ys
      → IsWithin (messages xs) (messages zs)
  unfolding heard
  merged done h k = none_left
  merged (left stopped m) h k = absurd h.0
  merged (left (registered c) m) h k = merged m h.1 k
  merged (left (unregistered c) m) h k = merged m h.1 k
  merged (left (arrived line now io) m) h k =
      (one_heard now io (json.unmarshal line) _ _ (merged m h.1 k)).0
  merged (right stopped m) h k = absurd k.0
  merged (right (registered c) m) h k = merged m h k.1
  merged (right (unregistered c) m) h k = merged m h k.1
  merged (right (arrived line now io) m) h k =
      (one_heard now io (json.unmarshal line) _ _ (merged m h k.1)).1

  module _ (fits : List ℕ → Bool) (now : String) (io : Io) (c : ℕ) where
    read_pump-GoesOn :
        (lines : List (List ℕ)) → All GoesOn (read_pump json entries fits now io c lines)
    unfolding read_pump
    read_pump-GoesOn [] = (tt, tt)
    read_pump-GoesOn (line ∷ lines) = go (fits line) (read_pump-GoesOn lines)
      where
        go :
            (b : Bool)
            → All GoesOn (read_pump json entries fits now io c lines)
            → All GoesOn (elim b [
              | true ↦ arrived line now io ∷ read_pump json entries fits now io c lines
              | false ↦ unregistered c ∷ []
            ])
        go true r = (tt, r)
        go false r = (tt, tt)

    read_pump-messages :
        (ms : List (Message C))
        → All Decodes ms
        → All (λ m. IsLine fits (json.marshal m)) ms
        → messages (read_pump json entries fits now io c (map json.marshal ms)) ≡ ms
    unfolding heard read_pump
    read_pump-messages [] f h = refl
    read_pump-messages (m ∷ ms) f h =
        rw (h.0.2, f.0) (ap (λ r. m ∷ r) (read_pump-messages ms f.1 h.1))

  -- What a client sends is what the node hears: once all the goroutines that the hub of the node's
  -- server has started are done, the dispatcher was given each message that a client sent on one
  -- connection, whatever other connections do meanwhile and in whatever order the goroutines run, if
  -- the hub is not stopped before. Each message was written whole, its encoding is a line that the
  -- scanner takes, and decodes to the message.
  pub send_all-run :
      (fits : List ℕ → Bool) (scan : List ℕ → List (List ℕ)) (now : String) (io : Io) (c conn : ℕ)
      (n : Node) (store : Option (Store C)) (answers : List Answer) (ms : List (Message C))
      (others evs : List (Event (List ℕ))) (handled : List (Message C))
      → IsScanner fits scan
      → All Decodes ms
      → All (λ m. IsLine fits (json.marshal m)) ms
      → All GoesOn others
      → Merges
          (Hub.serve json entries fits now io c
            (scan (send_all (map json.marshal ms) (connected conn)).written))
          others
          evs
      → Perm
          (map dispatch handled)
          (run json entries evs
            (serve json entries answers
              (set_dispatcher json entries (new json entries n store))).0).1
      → (rest : List (Message C)) × Perm handled (ms ++ rest)
  unfolding Hub.serve heard serve set_dispatcher new
  send_all-run fits scan now io c conn n store answers ms others evs handled s f h k mix p =
      let lines = map json.marshal ms in
      let sent = send_all-frames lines (connected conn) in
      let read = scan-frames fits scan s lines (All-map (IsLine fits) json.marshal ms h) in
      let w = merged (rw (sent, read) at mix) (tt, read_pump-GoesOn fits now io c lines) k in
      let (rest, q) = among (rw (read_pump-messages fits now io c ms f h) at w) in
      let started =
        (run-heard json entries evs store true handled [] (rw (append-nil handled) p)).0 in
      (rest, Perm.trans (rw (append-nil handled) at started) q)
