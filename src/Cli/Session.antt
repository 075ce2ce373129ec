-- ===== src/Cli/Session.antt =====
-- A session at the menu ends, and does only what it should.
use node_messager.Base.{
  ℕ, zero, suc, ◌<◌, String, ◌≡◌, refl, sym, ◌⊎◌, inl, inr, true, Bool-cases, eq_of_==,
  if◌then◌else◌, In, some, List, [], ◌∷◌, ◌++◌, ◌==◌, string_eq, arith, length, All,
}
use node_messager.Base.Dict.{Dict, lookup}
use node_messager.Cli.{Setup, Words, Services, Command, Event, names, or_unknown, read_command}
use node_messager.Cli.Commands.{Turn, run_command}
use node_messager.Cli.Loop.{is_quit, run_for, run}
use node_messager.Cli.Proper.{IsProper, IsTail, here, after, length-IsTail}
use node_messager.Cli.Turns.{Fits, run_command-Fits}

All-append : (P : Event → Type 0) (xs ys : List Event) → All P xs → All P ys → All P (xs ++ ys)
All-append P [] ys h g = g
All-append P (x ∷ xs) ys h g = (h.0, All-append P xs ys h.1 g)

-- The lines that end the loop of the menu.
abbrev pub quits : List String
quits = "6" ∷ "q" ∷ "quit" ∷ "exit" ∷ []

-- The names of a dictionary that mean `quit`.
abbrev quitting : Dict String Command → List String
quitting [] = []
quitting ((name, c) ∷ m) = let rest = quitting m in if is_quit c then name ∷ rest else rest

lookup-quitting :
    (l : String) (m : Dict String Command)
    → is_quit (or_unknown (lookup l m)) ≡ true
    → In l (quitting m)
unfolding lookup
lookup-quitting l [] e = cc
lookup-quitting l ((name, c) ∷ m) e = elim (Bool-cases (name == l)) [
  | inl t ↦ let q : is_quit c ≡ true = rw t at e in rw q (inl (sym (eq_of_== name l t)))
  | inr f ↦
      let i = lookup-quitting l m (rw f at e) in
      elim (Bool-cases (is_quit c)) [ inl q ↦ rw q (inr i) | inr q ↦ rw q i ]
]

read_command-quits : (l : String) → is_quit (read_command l) ≡ true → In l quits
unfolding read_command
read_command-quits l e = lookup-quitting l names e

-- The input is used up, or the last line that was read is empty or asks to quit.
abbrev pub EndsAt : List String → List String → Type 0
EndsAt left input = (left ≡ []) ⊎ ((l : String) × IsTail (l ∷ left) input × ((l ≡ "") ⊎ In l quits))

EndsAt-after : {left a b : List String} → EndsAt left a → IsTail a b → EndsAt left b
EndsAt-after (inl e) t = inl e
EndsAt-after (inr (l, i, q)) t = inr (l, after i t, q)

module _ {S : Type 0} (words : Words) (setup : Setup) (services : Services S) where
  left_over : (m : List String) (t : Turn S) → Fits words setup services m t → IsTail t.0.0 m
  unfolding Fits
  left_over m t h = h.0

  what_is_done :
      (m : List String) (t : Turn S) → Fits words setup services m t → All (IsProper setup) t.1
  unfolding Fits
  what_is_done m t h = h.1

  -- A run of so many rounds ends, properly.
  Ends : ℕ → List String → S → Type 0
  Ends rounds input s =
      (turn : Turn S) × (run_for words setup services rounds input s ≡ some turn)
      × EndsAt turn.0.0 input
      × All (IsProper setup) turn.1

  run_for-Ends :
      (rounds : ℕ) (input : List String) (s : S) → length input < rounds → Ends rounds input s
  unfolding run_for Ends
  run_for-Ends zero input s h = absurd (omega arith)
  run_for-Ends (suc rounds) [] s h = ((([], s), []), refl, inl refl, tt)
  run_for-Ends (suc rounds) (l ∷ rest) s h = elim (Bool-cases (l == "")) [
    | inl t ↦
        let last = inr (l, here (l ∷ rest), inl (eq_of_== l "" t)) in
        (((rest, s), []), rw (t, run_for) refl, last, tt)
    | inr f ↦ elim (Bool-cases (is_quit (read_command l))) [
      | inl t ↦
          let last = inr (l, here (l ∷ rest), inr (read_command-quits l t)) in
          (((rest, s), []), rw (f, t, run_for) refl, last, tt)
      | inr g ↦
          let turn = run_command words setup services (read_command l) rest s in
          let fit : Fits words setup services rest turn =
            run_command-Fits words setup services (read_command l) rest s in
          let left : IsTail turn.0.0 rest = left_over _ _ fit in
          let (end, e, last, proper) =
            run_for-Ends rounds turn.0.0 turn.0.1 (omega (arith, h, length-IsTail left)) in
          (
            (end.0, turn.1 ++ end.1),
            rw (f, g, e, run_for) refl,
            EndsAt-after last (after left (l ∷ [], refl)),
            All-append (IsProper setup) turn.1 end.1 (what_is_done _ _ fit) proper,
          )
    ]
  ]

  -- Whatever a user types, and whatever the service answers, the loop of the menu ends: where the
  -- input ends, or behind a line of the input that is empty or is one of "6", "q", "quit" and
  -- "exit".
  pub run-ends :
      (input : List String) (s : S)
      → (turn : Turn S) × (run words setup services input s ≡ some turn) × EndsAt turn.0.0 input
  unfolding run Ends
  run-ends input s =
      let (turn, e, last, proper) = run_for-Ends (suc (length input)) input s (omega arith) in
      (turn, e, last)
