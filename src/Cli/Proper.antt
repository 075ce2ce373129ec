-- ===== src/Cli/Proper.antt =====
-- What a session may do, and what holds of each way that a command goes.
use node_messager.Base.{
  ℕ, zero, suc, ◌-◌, ◌≤◌, String, ◌≡◌, refl, ◌∙◌, ◌≢◌, inl, inr, Bool, true, false, not, Bool-cases,
  Option, none, some, Option-cases, List, [], ◌∷◌, ◌++◌, append_assoc, ap, length-append, ◌==◌,
  ◌||◌, string_eq, nat_eq, ==_of_eq, eq_of_==, ne_of_==, arith, if◌then◌else◌, ltb, length, In,
  In-of_select, ℤ, pos, negsuc,
}
use node_messager.Base.Retry.{Result, ok, err}
use node_messager.Dto.{Node, TicketRow}
use node_messager.Service.Rows.{Rows}
use node_messager.Cli.{
  Setup, Words, Event, sent, broadcasted, raised, closed, added_user, added_engineer, added_device,
  showed_rows, no_rows, no_open_tickets, empty_input, invalid_choice, invalid_number,
  listing_failed, prompt, matching, pick_node,
}
use node_messager.Cli.Commands.{
  Turn, nth, tickets_of, open_rows, chosen, others, with_node, with_text, with_number, with_rows,
  with_ticket,
}

-- What the program may do for a user.
abbrev pub IsProper : Setup → Event → Type 0
IsProper setup (sent from to text a) = (text ≢ "") × In to setup.nodes × (to.id ≢ from.id)
IsProper setup (broadcasted from targets text errs) =
    (text ≢ "") × ((n : Node) → In n targets → In n setup.nodes × (n.id ≢ from.id))
IsProper setup (raised usuario dispositivo a) = setup.has_service ≡ true
IsProper setup (closed rows t a) = (setup.has_service ≡ true) × In t rows × (t.estado ≡ "ABIERTO")
IsProper setup (added_user nombre a) = (setup.has_service ≡ true) × (nombre ≢ "")
IsProper setup (added_engineer nombre a) = (setup.has_service ≡ true) × (nombre ≢ "")
IsProper setup (added_device nombre tipo a) =
    (setup.has_service ≡ true) × (nombre ≢ "") × (tipo ≢ "")
IsProper setup (showed_rows rows) = setup.has_service ≡ true
IsProper setup (no_rows t) = setup.has_service ≡ true
IsProper setup (listing_failed x) = setup.has_service ≡ true
IsProper setup no_open_tickets = setup.has_service ≡ true
IsProper setup _ = Unit

nth-In : {A : Type 0} (n : ℕ) (xs : List A) (a : A) → nth n xs ≡ some a → In a xs
nth-In n [] a e = cc
nth-In zero (x ∷ xs) a e = inl (ground (arith, e))
nth-In (suc n) (x ∷ xs) a e = inr (nth-In n xs a e)

-- What is left of an input.
abbrev pub IsTail : List String → List String → Type 0
IsTail left input = (used : List String) × (used ++ left ≡ input)

pub here : (input : List String) → IsTail input input
here input = ([], refl)

-- What is left of what is left.
pub after : {a b c : List String} → IsTail a b → IsTail b c → IsTail a c
after {a} (xs, e) (ys, q) = (ys ++ xs, append_assoc ys xs a ∙ ap (λ r. ys ++ r) e ∙ q)

pub length-IsTail : {a b : List String} → IsTail a b → length a ≤ length b
length-IsTail {a} (xs, e) = rw (← e) (omega (arith, length-append xs a))

pub prompt-IsTail : (input : List String) → IsTail (prompt input).1 input
prompt-IsTail [] = here []
prompt-IsTail (l ∷ ls) = (l ∷ [], refl)

matching-In :
    (words : Words) (raw : String) (i : ℕ) (nodes : List Node) (n : Node)
    → matching words raw i nodes ≡ some n
    → In n nodes
unfolding matching
matching-In words raw i [] n e = cc
matching-In words raw i (m ∷ ms) n e =
    elim (Bool-cases (raw == words.decimal (suc i) || words.equal_fold raw m.name)) [
      | inl t ↦
          let q : ◌≡◌ {A = Option Node} (some m) (some n) = rw (t, matching) at e in
          inl (ground (arith, q))
      | inr f ↦ inr (matching-In words raw (suc i) ms n (rw (f, matching) at e))
    ]

-- The input that is left, and a node of the list.
pub pick_node_lem :
    (words : Words) (nodes : List Node) (input : List String)
    → IsTail (pick_node words nodes input).1 input
      × ((n : Node) → (pick_node words nodes input).0 ≡ some n → In n nodes)
unfolding pick_node
pick_node_lem words nodes [] = (here [], λ n e. cc)
pick_node_lem words nodes (raw ∷ rest) =
    let next : IsTail rest (raw ∷ rest) = (raw ∷ [], refl) in
    elim (Bool-cases (raw == "")) [
      | inl t ↦ rw (t, pick_node) (next, λ n e. cc)
      | inr f ↦ elim (Option-cases (matching words raw 0 nodes)) [
        | inl e ↦
            let r = pick_node_lem words nodes rest in rw (f, e, pick_node) (after r.0 next, r.1)
        | inr (m, e) ↦ rw (f, e, pick_node) (next, λ n q. matching-In words raw 0 nodes n (e ∙ q))
      ]
    ]

pub others_lem :
    (from : Node) (nodes : List Node) (n : Node)
    → In n (others from nodes)
    → In n nodes × (n.id ≢ from.id)
unfolding others
others_lem from nodes n i =
    let r = In-of_select (λ (m : Node). not (m.id == from.id)) nodes i in
    (r.0, λ e. ground (arith, r.1, e, ==_of_eq n.id from.id e))

pub chosen-In :
    (o : Option ℤ) (rows : List TicketRow) (t : TicketRow) → chosen o rows ≡ some t → In t rows
unfolding chosen
chosen-In none rows t e = cc
chosen-In (some (negsuc n)) rows t e = cc
chosen-In (some (pos n)) rows t e = elim (Bool-cases (ltb n 1 || ltb (length rows) n)) [
  | inl q ↦ let bad : ◌≡◌ {A = Option TicketRow} none (some t) = rw q at e in absurd (cc bad)
  | inr q ↦ nth-In (n - 1) rows t (rw q at e)
]

pub open_rows_lem :
    (rows : Rows) (t : TicketRow)
    → In t (open_rows rows)
    → In t (tickets_of rows) × (t.estado ≡ "ABIERTO")
unfolding open_rows
open_rows_lem rows t i =
    let r = In-of_select (λ (x : TicketRow). x.estado == "ABIERTO") (tickets_of rows) i in
    (r.0, eq_of_== t.estado "ABIERTO" r.1)

-- What holds of a command holds if it holds of each way that it goes.
module _ {S : Type 0} (P : Turn S → Type 0) where
  pub with_node_lem :
      (r : Option Node × List String) (s : S) (k : Node → List String → Turn S)
      → P ((r.1, s), [])
      → ((n : Node) → r.0 ≡ some n → P (k n r.1))
      → P (with_node r s k)
  with_node_lem (none, input) s k h g = h
  with_node_lem (some n, input) s k h g = g n refl

  pub with_text_lem :
      (r : String × List String) (s : S) (k : String → List String → Turn S)
      → P ((r.1, s), empty_input ∷ [])
      → (r.0 ≢ "" → P (k r.0 r.1))
      → P (with_text r s k)
  with_text_lem (text, input) s k h g = elim (Bool-cases (text == "")) [
    | inl t ↦ rw t h
    | inr f ↦ rw f (g (ne_of_== text "" f))
  ]

  pub with_number_lem :
      (atoi : String → Option ℤ) (r : String × List String) (s : S) (k : ℤ → List String → Turn S)
      → P ((r.1, s), invalid_number r.0 ∷ [])
      → ((n : ℤ) → P (k n r.1))
      → P (with_number atoi r s k)
  with_number_lem atoi (text, input) s k h g = elim (Option-cases (atoi text)) [
    | inl e ↦ rw (e, with_number) h
    | inr (n, e) ↦ rw (e, with_number) (g n)
  ]

  pub with_rows_lem :
      (input : List String) (r : S × Result String Rows) (k : Rows → S → Turn S)
      → ((x : String) → P ((input, r.0), listing_failed x ∷ []))
      → ((rows : Rows) → P (k rows r.0))
      → P (with_rows input r k)
  with_rows_lem input (s, err x) k h g = h x
  with_rows_lem input (s, ok rows) k h g = g rows

  pub with_ticket_lem :
      (o : Option TicketRow) (input : List String) (s : S) (k : TicketRow → Turn S)
      → P ((input, s), invalid_choice ∷ [])
      → ((t : TicketRow) → o ≡ some t → P (k t))
      → P (with_ticket o input s k)
  with_ticket_lem none input s k h g = h
  with_ticket_lem (some t) input s k h g = g t refl

  pub if_lem :
      (b : Bool) (x y : Turn S) → (b ≡ true → P x) → (b ≡ false → P y) → P (if b then x else y)
  if_lem true x y h g = h refl
  if_lem false x y h g = g refl
