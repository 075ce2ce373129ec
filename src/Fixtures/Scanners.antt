-- ===== src/Fixtures/Scanners.antt =====
-- Test data: a scanner of lines without a limit.
use node_messager.Base.{
  ℕ, ◌≢◌, ◌≡◌, refl, sym, inl, inr, Bool, true, List, [], ◌∷◌, ◌++◌, ◌==◌, nat_eq, ==_of_ne,
  if◌then◌else◌, In,
}
use node_messager.Base.Scanning.{newline, IsLine, IsScanner}

abbrev put_first : ℕ → List (List ℕ) → List (List ℕ)
put_first b [] = (b ∷ []) ∷ []
put_first b (line ∷ lines) = (b ∷ line) ∷ lines

-- A scanner that leaves a carriage return where it is.
abbrev pub split : List ℕ → List (List ℕ)
split [] = []
split (b ∷ bs) = let rest = split bs in if b == newline then [] ∷ rest else put_first b rest

split_line :
    (line rest : List ℕ)
    → ((b : ℕ) → In b line → b ≢ newline)
    → split (line ++ newline ∷ rest) ≡ line ∷ split rest
split_line [] rest h = refl
split_line (b ∷ line) rest h =
    rw (==_of_ne b newline (h b (inl refl)), split_line line rest (λ x i. h x (inr i))) refl

abbrev pub short : List ℕ → Bool
short line = true

pub split-IsScanner : IsScanner short split
split-IsScanner = record { at_end = refl; at_line = λ line rest h. split_line line rest h.0 }

ends_with : (start : List ℕ) → In 13 (start ++ 13 ∷ [])
ends_with [] = inl refl
ends_with (b ∷ start) = inr (ends_with start)

-- A line without the two bytes that end lines.
pub plain-IsLine :
    (line : List ℕ) → ((b : ℕ) → In b line → b ≢ newline) → (In 13 line → ⊥) → IsLine short line
plain-IsLine line h k = (h, λ start e. k (rw e (ends_with start)), refl)

pub byte-IsLine : (b : ℕ) → b ≢ 10 → b ≢ 13 → IsLine short (b ∷ [])
byte-IsLine b h k =
    plain-IsLine (b ∷ []) (λ x i. elim i [ inl p ↦ rw p h | inr z ↦ absurd z ])
      (λ i. elim i [ inl p ↦ k (sym p) | inr z ↦ z ])
