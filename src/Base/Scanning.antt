-- ===== src/Base/Scanning.antt =====
-- What the program relies on of bufio.Scanner with its limit: lines of bytes.
use node_messager.Base.{
  ℕ, ◌≢◌, ◌≡◌, refl, sym, ap, ◌∙◌, Bool, true, List, [], ◌∷◌, ◌++◌, append_assoc, In, All,
}

-- The byte of "\n".
abbrev pub newline : ℕ
newline = 10

-- A line that a `bufio.Scanner` gives back as it is: it has no newline and no carriage return at
-- its end, and it fits into the buffer.
abbrev pub IsLine : (List ℕ → Bool) → List ℕ → Type 0
IsLine fits line =
    ((b : ℕ) → In b line → b ≢ newline)
    × ((start : List ℕ) → line ≢ start ++ 13 ∷ [])
    × (fits line ≡ true)

-- What bufio documents of `ScanLines`: the lines of a text, each up to its "\n".
pub record IsScanner (fits : List ℕ → Bool) (scan : List ℕ → List (List ℕ)) : Type 0 where
  pub at_end : scan [] ≡ []
  pub at_line :
      (line rest : List ℕ) → IsLine fits line → scan (line ++ newline ∷ rest) ≡ line ∷ scan rest

abbrev pub frames : List (List ℕ) → List ℕ
frames [] = []
frames (line ∷ lines) = line ++ newline ∷ frames lines

pub frames-append : (xs ys : List (List ℕ)) → frames (xs ++ ys) ≡ frames xs ++ frames ys
frames-append [] ys = refl
frames-append (x ∷ xs) ys =
    rw (frames-append xs ys) (sym (append_assoc x (newline ∷ frames xs) (frames ys)))

pub scan-frames :
    (fits : List ℕ → Bool) (scan : List ℕ → List (List ℕ))
    → IsScanner fits scan
    → (lines : List (List ℕ)) → All (IsLine fits) lines
    → scan (frames lines) ≡ lines
scan-frames fits scan s [] h = s.at_end
scan-frames fits scan s (line ∷ lines) h =
    s.at_line line (frames lines) h.0 ∙ ap (λ r. line ∷ r) (scan-frames fits scan s lines h.1)

pub All-++ : {A : Type 0} (P : A → Type 0) (xs ys : List A) → All P xs → All P ys → All P (xs ++ ys)
All-++ P [] ys h g = g
All-++ P (x ∷ xs) ys h g = (h.0, All-++ P xs ys h.1 g)
