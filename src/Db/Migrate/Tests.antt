-- ===== src/Db/Migrate/Tests.antt =====
-- Instances of the theorems.
use node_messager.Base.{
  ℕ, ◌≤◌, ◌≡◌, refl, ◌≢◌, none, some, [], ◌∷◌, true, false, if◌then◌else◌, ◌==◌, nat_eq,
}
use node_messager.Db.Migrate.{Schema, Driver, update_failed, open_at}
use node_messager.Db.Migrate.Versions.{IsAt, IsWell, open_at_keeps}
use node_messager.Db.Migrate.Stuck.{reopened, unrecorded_stays}

abbrev well : Driver
well = record {
  open_error = none;
  creation = none;
  reading = none;
  applying = λ n. none;
  recording = λ n. none;
}

well-IsWell : IsWell well
well-IsWell = (refl, refl, refl, λ n. refl, λ n. refl)

abbrev fresh : Schema
fresh = record { created = false; ingeniero_id = false; version_table = false; versions = [] }

abbrev old : Schema
old = record { created = true; ingeniero_id = false; version_table = true; versions = 1 ∷ [] }

-- The new column is refused.
abbrev no_column : Driver
no_column = record well { applying = λ n. if n == 2 then some "disk I/O error" else none }

open_at_keeps_example : (k : ℕ) × (0 ≤ k) × IsAt k (open_at no_column fresh).0
open_at_keeps_example = open_at_keeps no_column 0 fresh refl (λ n. refl) (refl, refl)

-- The new version is not recorded.
abbrev unrecorded : Driver
unrecorded = record well { recording = λ n. some "database is locked" }

unrecorded_stays_example :
    ((open_at unrecorded old).1 ≡ some (update_failed 2 "database is locked"))
    × ((open_at well (reopened (well ∷ []) (open_at unrecorded old).0)).1 ≢ none)
unrecorded_stays_example =
    unrecorded_stays unrecorded old "database is locked" (well ∷ []) well (refl, refl, refl) refl
      refl refl refl refl
