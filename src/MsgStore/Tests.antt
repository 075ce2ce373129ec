-- ===== src/MsgStore/Tests.antt =====
-- Instances of the theorems.
use node_messager.Base.{
  ℕ, String, ◌≤◌, ◌≡◌, refl, true, Option, none, some, List, [], ◌∷◌, ◌==◌, nat_eq, string_eq,
  if◌then◌else◌, length, arith,
}
use node_messager.Fixtures.Scanners.{short, split, split-IsScanner, plain-IsLine, byte-IsLine}
use node_messager.Dto.{msg, Codec}
use node_messager.Fixtures.{s1, s2, message}
use node_messager.MsgStore.{
  Entry, sent, received, scan, Store, done, new, new_with_file, load_from_file, latest,
}
use node_messager.MsgStore.Window.{last, Call, history, run, IsComplete, latest-run, restart-run}

-- Entries as lines of one byte.
abbrev code : String → ℕ
code at = if at == "t0" then 48 else if at == "t1" then 49 else if at == "t2" then 50 else 51

abbrev of_code : ℕ → Option (Entry String)
of_code b =
    if b == 48
    then some (record { at = "t0"; type = sent; msg = message msg s1 "old" })
    else if b == 49
    then some (record { at = "t1"; type = sent; msg = message msg s1 "hi" })
    else if b == 50
    then some (record { at = "t2"; type = received; msg = message msg s2 "hello" })
    else some (record { at = "t3"; type = sent; msg = message msg s1 "bye" })

abbrev decode : List ℕ → Option (Entry String)
decode [] = none
decode (b ∷ bs) = of_code b

abbrev json : Codec (List ℕ) (Entry String)
json = record { marshal = λ e. code e.at ∷ []; unmarshal = decode }

abbrev calls : List (Call String)
calls =
    record { now = "t1"; msg = message msg s1 "hi"; type = sent; io = done }
    ∷ record { now = "t2"; msg = message msg s2 "hello"; type = received; io = done }
    ∷ record { now = "t3"; msg = message msg s1 "bye"; type = sent; io = done }
    ∷ []

latest-run_example :
    (latest json 1 (run json calls (new json 2)) ≡ last 1 (last 2 (history calls)))
    × (1 ≤ 2 → latest json 1 (run json calls (new json 2)) ≡ last 1 (history calls))
    × (length (run json calls (new json 2)).entries ≤ 2)
latest-run_example = latest-run json 2 1 calls

-- The file has an empty line and the line of an entry.
abbrev file : List ℕ
file = 10 ∷ 48 ∷ 10 ∷ []

file-IsComplete : IsComplete json short (some file)
file-IsComplete = (
  [] ∷ (48 ∷ []) ∷ [],
  refl,
  (
    plain-IsLine [] (λ b i e. i) (λ i. i),
    (byte-IsLine 48 (λ e. omega arith) (λ e. omega arith), tt),
  ),
)

abbrev opened : Store String
opened = record {
  entries = record { at = "t0"; type = sent; msg = message msg s1 "old" } ∷ [];
  max = 2;
  file = some file;
}

opens : new_with_file json split 2 (some file) true ≡ some opened
unfolding new_with_file load_from_file scan
opens = refl

restart-run_example :
    load_from_file json split (run json calls opened).file 2 ≡ (run json calls opened).entries
restart-run_example =
    restart-run json short split split-IsScanner refl 2 (some file) calls file-IsComplete opens
      (
        (byte-IsLine 49 (λ e. omega arith) (λ e. omega arith), refl),
        (
          (byte-IsLine 50 (λ e. omega arith) (λ e. omega arith), refl),
          ((byte-IsLine 51 (λ e. omega arith) (λ e. omega arith), refl), tt),
        ),
      )
      (refl, (refl, (refl, tt)))
