-- ===== src/Db/Migrate.antt =====
-- internal/db/db.go: `openAt`, `Version` and `migrate`. A statement's text is its effect on the
-- `Schema`; a statement that fails changes nothing.
pub mod Versions
pub mod Stuck
mod Tests
use node_messager.Base.{
  ℕ, String, Bool, true, false, Option, none, some, List, [], ◌∷◌, ◌++◌, map, leb, ◌==◌, nat_eq,
  if◌then◌else◌,
}
use node_messager.Db.{Answer}

-- `created` is whether the four tables exist, `ingeniero_id` whether DISPOSITIVOS has that column,
-- and `versions` the rows of _schema_version.
pub record Schema : Type 0 where
  pub created : Bool
  pub ingeniero_id : Bool
  pub version_table : Bool
  pub versions : List ℕ

pub data Statement : Type 0 where
  create_version_table create_tables add_column : Statement
  insert_version update_version : ℕ → Statement

-- What SQLite answers to a statement that it cannot execute, with the driver's errors beside it.
abbrev pub refused : Statement → Schema → Option String
refused add_column s =
    if s.created
    then (if s.ingeniero_id then some "duplicate column name: ingeniero_id" else none)
    else some "no such table: DISPOSITIVOS"
refused _ s = none

abbrev pub effect : Statement → Schema → Schema
effect create_version_table s = record s { version_table = true }
effect create_tables s = record s { created = true }
effect add_column s = record s { ingeniero_id = true }
effect (insert_version v) s = record s { versions = s.versions ++ v ∷ [] }
effect (update_version v) s = record s { versions = map (λ _. v) s.versions }

abbrev pub finish : Option String → Statement → Schema → Schema × Answer
finish (some x) t s = (s, some x)
finish none t s = (effect t s, none)

unfoldable pub execute : Answer → Statement → Schema → Schema × Answer
execute (some x) t s = (s, some x)
execute none t s = finish (refused t s) t s

abbrev pub first_version : List ℕ → ℕ
first_version [] = 0
first_version (v ∷ vs) = v

-- Every error of the query reads as version 0.
unfoldable pub version : Answer → Schema → ℕ
version (some x) s = 0
version none s = first_version s.versions

pub record Migration : Type 0 where
  pub number : ℕ
  pub statement : Statement

abbrev pub migrations : List Migration
migrations =
    record { number = 1; statement = create_tables }
    ∷ record { number = 2; statement = add_column }
    ∷ []

pub data Failure : Type 0 where
  version_table_failed : String → Failure
  migration_failed update_failed : ℕ → String → Failure
  open_failed : String → Failure

-- The driver's errors, by statement.
pub record Driver : Type 0 where
  pub open_error : Answer
  pub creation : Answer
  pub reading : Answer
  pub applying : ℕ → Answer
  pub recording : ℕ → Answer

abbrev pub Migrated : Type 0
Migrated = Schema × Option Failure

-- `if err != nil { return ... }`, and what follows otherwise.
abbrev pub or_fail : (String → Failure) → Schema × Answer → (Schema → Migrated) → Migrated
or_fail f (s, some x) k = (s, some (f x))
or_fail f (s, none) k = k s

-- The row of _schema_version for the version that was just applied.
abbrev pub record_version : ℕ → ℕ → Statement
record_version current v = if current == 0 then insert_version v else update_version v

module _ (d : Driver) where
  -- The loop, from version `current`.
  unfoldable pub apply_all : List Migration → ℕ → Schema → Migrated
  unfolding execute
  apply_all [] current s = (s, none)
  apply_all (m ∷ ms) current s = elim (leb m.number current) [
    | true ↦ apply_all ms current s
    | false ↦
        or_fail (migration_failed m.number) (execute (d.applying m.number) m.statement s) λ s1.
          or_fail (update_failed m.number)
            (execute (d.recording m.number) (record_version current m.number) s1)
            λ s2. apply_all ms m.number s2
  ]

  unfoldable pub migrate : Schema → Migrated
  unfolding apply_all execute version
  migrate s =
      or_fail version_table_failed (execute d.creation create_version_table s)
        λ s1. apply_all migrations (version d.reading s1) s1

  abbrev pub opened : Answer → Schema → Migrated
  opened (some x) s = (s, some (open_failed x))
  opened none s = migrate s

  -- Opening a connection runs the migrations; the handle is closed if they fail.
  unfoldable pub open_at : Schema → Migrated
  unfolding migrate
  open_at s = opened d.open_error s
