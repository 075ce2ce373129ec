-- ===== src/Base/Search.antt =====
-- What a filtering loop keeps and what a searching loop finds.
use mathlib.Core.Path.{◌≡◌}
use mathlib.Core.Logic.{inl, inr}
use mathlib.Core.Bool.{Bool, true, false}
use mathlib.Core.Option.{none, some}
use mathlib.Core.List.{List, [], ◌∷◌}
use native.Mathlib.Omega.{arith}
use node_messager.Base.Tests.{Bool-cases}
use node_messager.Base.Lists.{select, find_first, In, All}

module _ {A : Type 0} where
  pub In-select : (p : A → Bool) (xs : List A) {a : A} → In a xs → p a ≡ true → In a (select p xs)
  In-select p [] i h = i
  In-select p (x ∷ xs) (inl e) h = ground arith
  In-select p (x ∷ xs) (inr i) h = let r = In-select p xs i h in ground arith

  pub In-of_select :
      (p : A → Bool) (xs : List A) {a : A} → In a (select p xs) → In a xs × (p a ≡ true)
  In-of_select p [] i = absurd i
  In-of_select p (x ∷ xs) {a} i =
      let ih : In a (select p xs) → In a xs × (p a ≡ true) = In-of_select p xs in
      elim (Bool-cases (p x)) [
        | inl t ↦ kept t ih (rw t at i)
        | inr f ↦ let r = ih (rw f at i) in (inr r.0, r.1)
      ]
    where
      kept :
          p x ≡ true
          → (In a (select p xs) → In a xs × (p a ≡ true))
          → In a (x ∷ select p xs)
          → In a (x ∷ xs) × (p a ≡ true)
      kept t ih (inl e) = (inl e, rw e t)
      kept t ih (inr j) = (inr (ih j).0, (ih j).1)

  -- A search returns the first element that passes, which is in the list.
  pub find_first-In :
      (p : A → Bool) (xs : List A) {a : A} → find_first p xs ≡ some a → In a xs × (p a ≡ true)
  find_first-In p [] e = cc
  find_first-In p (x ∷ xs) e = elim (Bool-cases (p x)) [
    | inl t ↦ (inl (ground arith), ground arith)
    | inr f ↦ let r = find_first-In p xs (rw f at e) in (inr r.0, r.1)
  ]

  -- It fails only if nothing passes.
  pub find_first-none :
      (p : A → Bool) (xs : List A) {a : A} → find_first p xs ≡ none → In a xs → p a ≡ false
  find_first-none p [] e i = absurd i
  find_first-none p (x ∷ xs) e (inl i) = ground arith
  find_first-none p (x ∷ xs) e (inr i) = find_first-none p xs (ground arith) i

  pub All-In : (P : A → Type 0) {a : A} (xs : List A) → All P xs → In a xs → P a
  All-In P [] h i = absurd i
  All-In P (x ∷ xs) h (inl e) = rw e h.0
  All-In P (x ∷ xs) h (inr i) = All-In P xs h.1 i

  pub All-select : (P : A → Type 0) (p : A → Bool) (xs : List A) → All P xs → All P (select p xs)
  All-select P p [] h = tt
  All-select P p (x ∷ xs) h = elim (Bool-cases (p x)) [
    | inl t ↦ rw t (h.0, All-select P p xs h.1)
    | inr f ↦ rw f (All-select P p xs h.1)
  ]
