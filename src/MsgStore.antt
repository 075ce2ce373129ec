-- ===== src/MsgStore.antt =====
-- pkg/msgstore/store.go: the latest messages in memory, and all of them in a JSONL file. A time is
-- an argument of `save`; sizes are natural numbers, as `main` and the CLI give them.
pub mod Window
mod Tests
use node_messager.Base.{
  ℕ, ◌+◌, ◌-◌, String, Bool, true, false, Option, none, some, List, [], ◌∷◌, ◌++◌, ltb, leb,
  if◌then◌else◌, length, drop,
}
use node_messager.Base.Scanning.{newline}
use node_messager.Dto.{Message, Codec}

pub data EntryType : Type 0 where
  sent received : EntryType

pub record Entry (C : Type 0) : Type 0 where
  pub at : String
  pub type : EntryType
  pub msg : Message C

-- `file` holds the bytes of the file, if there is one.
pub record Store (C : Type 0) : Type 0 where
  pub entries : List (Entry C)
  pub max : ℕ
  pub file : Option (List ℕ)

-- What the file system does on a write; one that fails may have written a part of the line.
pub data Io : Type 0 where
  done : Io
  failed : List ℕ → Io

-- What is kept of too many entries.
abbrev pub trim : {A : Type 0} → ℕ → List A → List A
trim max es = if ltb max (length es) then drop (length es - max) es else es

module _ {C : Type 0} (json : Codec (List ℕ) (Entry C)) where
  unfoldable pub new : ℕ → Store C
  new max = record { entries = []; max = max; file = none }

  -- The loop over the lines.
  unfoldable pub scan : List (List ℕ) → List (Entry C)
  scan [] = []
  scan ([] ∷ ls) = scan ls
  scan ((b ∷ bs) ∷ ls) =
      let rest = scan ls in elim (json.unmarshal (b ∷ bs)) [ none ↦ rest | some e ↦ e ∷ rest ]

  -- `lines_of` is what a `bufio.Scanner` gives of a text: it stops at a line that is too long, and
  -- gives a last line that has no newline. A file that cannot be opened reads as empty.
  unfoldable pub load_from_file : (List ℕ → List (List ℕ)) → Option (List ℕ) → ℕ → List (Entry C)
  unfolding scan
  load_from_file lines_of none max = []
  load_from_file lines_of (some bytes) max = trim max (scan (lines_of bytes))

  -- `found` is the file that is there at the start. It is opened for appending after it is read;
  -- `opened` is whether that works.
  unfoldable pub new_with_file :
      (List ℕ → List (List ℕ)) → ℕ → Option (List ℕ) → Bool → Option (Store C)
  unfolding load_from_file
  new_with_file lines_of max found false = none
  new_with_file lines_of max found true = some (record {
    entries = load_from_file lines_of found max;
    max = max;
    file = elim found [ none ↦ some [] | some bytes ↦ some bytes ];
  })

  abbrev pub write : Entry C → Io → Option (List ℕ) → Option (List ℕ) × Bool
  write e io none = (none, true)
  write e done (some bytes) = (some (bytes ++ (json.marshal e ++ newline ∷ [])), true)
  write e (failed part) (some bytes) = (some (bytes ++ part), false)

  -- Whether the save reported no error. A failed write leaves the entry in memory.
  unfoldable pub save : String → Message C → EntryType → Io → Store C → Store C × Bool
  save now m t io s =
      let e : Entry C = record { at = now; type = t; msg = m } in
      let w = write e io s.file in
      (record s { entries = trim s.max (s.entries ++ e ∷ []); file = w.0 }, w.1)

  unfoldable pub latest : ℕ → Store C → List (Entry C)
  latest n s = if leb (length s.entries) n then s.entries else drop (length s.entries - n) s.entries
