-- ===== src/MsgStore/Window.antt =====
-- The store is a window on the history of what was saved.
use node_messager.Base.{
  ℕ, ◌+◌, ◌-◌, ◌≤◌, String, ◌≡◌, refl, sym, ap, ◌∙◌, inl, inr, Bool, true, Option, none, some, List,
  [], ◌∷◌, ◌++◌, map, append-nil, arith, ltb, leb, Bool-cases, length, drop, All, length-append,
  length-drop, drop-drop, drop-append, append_assoc,
}
use native.Mathlib.Decide.{dec_lt}
use node_messager.Base.Scanning.{IsLine, IsScanner, frames, frames-append, scan-frames, All-++}
use node_messager.Dto.{Message, Codec}
use node_messager.MsgStore.{
  EntryType, Entry, Store, Io, done, new, trim, scan, load_from_file, new_with_file, save, latest,
}

-- The last `n` of a list.
abbrev pub last {ℓ} : {A : Type ℓ} → ℕ → List A → List A
last n xs = drop (length xs - n) xs

module _ {ℓ} {A : Type ℓ} where
  last_all : (n : ℕ) (xs : List A) → length xs ≤ n → last n xs ≡ xs
  last_all n xs h = let z : length xs - n ≡ 0 = omega arith in rw z

  last-append_last : (n : ℕ) (xs ys : List A) → last n (last n xs ++ ys) ≡ last n (xs ++ ys)
  last-append_last n xs ys = elim (dec_lt n (length xs)) [
    | no small ↦ rw (last_all n xs (omega arith))
    | yes big ↦
        let k : ℕ = length xs - n in
        let e : drop k xs ++ ys ≡ drop k (xs ++ ys) = sym (drop-append k xs ys (omega arith)) in
        let q : k + (length (drop k (xs ++ ys)) - n) ≡ length (xs ++ ys) - n =
          omega (arith, length-drop k (xs ++ ys), length-append xs ys) in
        rw (e, drop-drop, q) refl
  ]

  length-last : (n : ℕ) (xs : List A) → length (last n xs) ≤ n
  length-last n xs = omega (arith, length-drop (length xs - n) xs)

  last-last : (n m : ℕ) (xs : List A) → m ≤ n → last m (last n xs) ≡ last m xs
  last-last n m xs h =
      let q : (length xs - n) + (length (last n xs) - m) ≡ length xs - m =
        omega (arith, length-drop (length xs - n) xs) in
      rw (drop-drop, q) refl

trim-last : {A : Type 0} (max : ℕ) (es : List A) → trim max es ≡ last max es
trim-last max es = elim (Bool-cases (ltb max (length es))) [
  | inl t ↦ rw t
  | inr f ↦ rw f (sym (last_all max es (ground arith)))
]

-- One call of `save` and what the file system does on it.
pub record Call (C : Type 0) : Type 0 where
  pub now : String
  pub msg : Message C
  pub type : EntryType
  pub io : Io

abbrev pub entry : {C : Type 0} → Call C → Entry C
entry c = record { at = c.now; type = c.type; msg = c.msg }

abbrev pub history : {C : Type 0} → List (Call C) → List (Entry C)
history = map entry

module _ {C : Type 0} (json : Codec (List ℕ) (Entry C)) where
  abbrev pub saved : Call C → Store C → Store C
  saved c s = (save json c.now c.msg c.type c.io s).0

  unfoldable pub run : List (Call C) → Store C → Store C
  run [] s = s
  run (c ∷ cs) s = run cs (saved c s)

  saved-entries :
      (c : Call C) (s : Store C)
      → ((saved c s).entries ≡ last s.max (s.entries ++ entry c ∷ [])) × ((saved c s).max ≡ s.max)
  unfolding save
  saved-entries c s = (trim-last s.max (s.entries ++ entry c ∷ []), refl)

  run-max : (cs : List (Call C)) (s : Store C) → (run cs s).max ≡ s.max
  unfolding run
  run-max [] s = refl
  run-max (c ∷ cs) s = run-max cs (saved c s) ∙ (saved-entries c s).1

  run-entries :
      (cs : List (Call C)) (s : Store C)
      → s.entries ≡ last s.max s.entries
      → (run cs s).entries ≡ last s.max (s.entries ++ history cs)
  unfolding run
  run-entries [] s h = rw append-nil h
  run-entries (c ∷ cs) s h =
      let e = saved-entries c s in
      let short : (saved c s).entries ≡ last (saved c s).max (saved c s).entries =
        rw (e.1, e.0) (sym (last-last s.max s.max (s.entries ++ entry c ∷ []) (omega arith))) in
      let ih = run-entries cs (saved c s) short in
      ih
      ∙ rw (e.1, e.0)
          (last-append_last s.max (s.entries ++ entry c ∷ []) (history cs) ∙ rw append_assoc refl)

  latest-last : (n : ℕ) (s : Store C) → latest json n s ≡ last n s.entries
  unfolding latest
  latest-last n s = elim (Bool-cases (leb (length s.entries) n)) [
    | inl t ↦ rw t (sym (last_all n s.entries (ground arith)))
    | inr f ↦ rw f
  ]

  -- Whatever was saved and however the writes went, `latest n` gives the last `n` messages saved,
  -- for `n` up to the store's maximum, and beyond that the last `max`; there are never more than
  -- `max` entries.
  pub latest-run :
      (max n : ℕ) (cs : List (Call C))
      → (latest json n (run cs (new json max)) ≡ last n (last max (history cs)))
        × (n ≤ max → latest json n (run cs (new json max)) ≡ last n (history cs))
        × (length (run cs (new json max)).entries ≤ max)
  unfolding new
  latest-run max n cs =
      let s : Store C = new json max in
      let e : (run cs s).entries ≡ last max (history cs) =
        run-entries cs s (sym (last_all max [] (omega arith))) in
      let l : latest json n (run cs s) ≡ last n (last max (history cs)) =
        latest-last n (run cs s) ∙ ap (last n) e in
      (l, λ h. l ∙ last-last max n (history cs) h, rw e (length-last max (history cs)))

  -- An entry that is one line of the file and decodes.
  abbrev pub IsLegible : (List ℕ → Bool) → Call C → Type 0
  IsLegible fits c =
      IsLine fits (json.marshal (entry c))
      × (json.unmarshal (json.marshal (entry c)) ≡ some (entry c))

  -- A file of complete lines that the scanner takes, if there is one.
  abbrev pub IsComplete : (List ℕ → Bool) → Option (List ℕ) → Type 0
  IsComplete fits none = Unit
  IsComplete fits (some bytes) = (ls : List (List ℕ)) × (bytes ≡ frames ls) × All (IsLine fits) ls

  scan-append :
      (ls : List (List ℕ)) (e : Entry C) (line : List ℕ)
      → json.unmarshal [] ≡ none
      → json.unmarshal line ≡ some e
      → scan json (ls ++ line ∷ []) ≡ scan json ls ++ e ∷ []
  unfolding scan
  scan-append [] e [] z f = absurd (cc (z, f))
  scan-append [] e (b ∷ bs) z f = rw f
  scan-append ([] ∷ ls) e line z f = scan-append ls e line z f
  scan-append ((b ∷ bs) ∷ ls) e line z f = ground (arith, scan-append ls e line z f)

  module _ (fits : List ℕ → Bool) (lines_of : List ℕ → List (List ℕ))
      (scanner : IsScanner fits lines_of) (blank : json.unmarshal [] ≡ none) where
    -- The file has complete lines, which give the entries in memory if they are read again.
    abbrev IsSaved : Store C → Type 0
    IsSaved s =
        (ls : List (List ℕ)) × (s.file ≡ some (frames ls))
        × All (IsLine fits) ls
        × (s.entries ≡ last s.max (scan json ls))

    saved-IsSaved :
        (c : Call C) (s : Store C)
        → IsLegible fits c
        → c.io ≡ done
        → IsSaved s
        → IsSaved (saved c s)
    unfolding save
    saved-IsSaved c s (l, f) d (ls, q, a, h) = (
      ls ++ json.marshal (entry c) ∷ [],
      rw (d, q, frames-append ls (json.marshal (entry c) ∷ [])) refl,
      All-++ (IsLine fits) ls (json.marshal (entry c) ∷ []) a (l, tt),
      (saved-entries c s).0
          ∙ rw (h, scan-append ls (entry c) (json.marshal (entry c)) blank f)
              (last-append_last s.max (scan json ls) (entry c ∷ [])),
    )

    run-IsSaved :
        (cs : List (Call C)) (s : Store C)
        → All (IsLegible fits) cs
        → All (λ c. c.io ≡ done) cs
        → IsSaved s
        → IsSaved (run cs s)
    unfolding run
    run-IsSaved [] s f d h = h
    run-IsSaved (c ∷ cs) s f d h = run-IsSaved cs (saved c s) f.1 d.1 (saved-IsSaved c s f.0 d.0 h)

    new_with_file-IsSaved :
        (max : ℕ) (found : Option (List ℕ)) (s : Store C)
        → IsComplete fits found
        → new_with_file json lines_of max found true ≡ some s
        → IsSaved s × (s.max ≡ max)
    unfolding new_with_file load_from_file scan
    new_with_file-IsSaved max none s k e =
        (([], ground arith, tt, ground (arith, last_all max (scan json []))), ground arith)
    new_with_file-IsSaved max (some bytes) s (ls, q, a) e =
        let again : lines_of bytes ≡ ls = rw q (scan-frames fits lines_of scanner ls a) in
        (
          (ls, ground (arith, q), a, ground (arith, again, trim-last max (scan json ls))),
          ground arith,
        )

    -- A store that is opened on a file, or on none, and whose writes all succeed loses nothing at a
    -- restart: reading the file that it leaves gives the same entries. The file that is found
    -- consists of complete lines that the scanner takes, each saved entry is encoded as such a line
    -- and decodes, and an empty text does not decode.
    pub restart-run :
        (max : ℕ) (found : Option (List ℕ)) (cs : List (Call C)) {s : Store C}
        → IsComplete fits found
        → new_with_file json lines_of max found true ≡ some s
        → All (IsLegible fits) cs
        → All (λ c. c.io ≡ done) cs
        → load_from_file json lines_of (run cs s).file max ≡ (run cs s).entries
    unfolding load_from_file
    restart-run max found cs {s} k e f d =
        let (h, m) = new_with_file-IsSaved max found s k e in
        let (ls, q, a, w) = run-IsSaved cs s f d h in
        rw (q, scan-frames fits lines_of scanner ls a)
          (trim-last max (scan json ls) ∙ sym (w ∙ rw (run-max cs s, m) refl))
