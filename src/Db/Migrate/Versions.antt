-- ===== src/Db/Migrate/Versions.antt =====
-- Where the migrations leave a database.
use node_messager.Base.{
  ℕ, zero, suc, ◌≤◌, ◌≡◌, inl, inr, true, false, none, [], ◌∷◌, arith, Option-cases,
}
use node_messager.Db.Migrate.{Schema, Driver, execute, version, apply_all, migrate, open_at}

-- The schema of version `v`. Before the first version the tables may be there already.
abbrev pub IsAt : ℕ → Schema → Type 0
IsAt zero s = (s.versions ≡ []) × (s.ingeniero_id ≡ false)
IsAt (suc zero) s = (s.versions ≡ 1 ∷ []) × (s.created ≡ true) × (s.ingeniero_id ≡ false)
IsAt (suc (suc zero)) s = (s.versions ≡ 2 ∷ []) × (s.created ≡ true) × (s.ingeniero_id ≡ true)
IsAt (suc (suc (suc _))) s = ⊥

-- A driver without errors.
abbrev pub IsWell : Driver → Type 0
IsWell d =
    (d.open_error ≡ none)
    × (d.creation ≡ none)
    × (d.reading ≡ none)
    × ((n : ℕ) → d.applying n ≡ none)
    × ((n : ℕ) → d.recording n ≡ none)

-- Opening a database that is at any version, a new one among them, ends without an error at the
-- latest version, with its column, when the driver gives no error.
pub open_at_latest :
    (d : Driver) (v : ℕ) (s : Schema)
    → IsWell d
    → IsAt v s
    → ((open_at d s).1 ≡ none) × IsAt 2 (open_at d s).0
unfolding open_at migrate apply_all execute version
open_at_latest d zero s w h = ground (arith, w.3 1, w.3 2, w.4 1, w.4 2)
open_at_latest d (suc zero) s w h = ground (arith, w.3 1, w.3 2, w.4 1, w.4 2)
open_at_latest d (suc (suc zero)) s w h = ground (arith, w.3 1, w.3 2, w.4 1, w.4 2)
open_at_latest d (suc (suc (suc _))) s w h = absurd h

-- Whichever statements of the opening fail, a database at a version stays at a version, the same or
-- a later one: it is never between two, as long as the version can be read and recorded.
pub open_at_keeps :
    (d : Driver) (v : ℕ) (s : Schema)
    → d.reading ≡ none
    → ((n : ℕ) → d.recording n ≡ none)
    → IsAt v s
    → (k : ℕ) × (v ≤ k) × IsAt k (open_at d s).0
unfolding open_at migrate apply_all execute version
open_at_keeps d zero s r w h = elim (Option-cases d.open_error) [
  | inr (x, e) ↦ (0, omega arith, ground (arith, e))
  | inl e ↦ elim (Option-cases d.creation) [
    | inr (x, f) ↦ (0, omega arith, ground (arith, e, f))
    | inl f ↦ elim (Option-cases (d.applying 1)) [
      | inr (x, g) ↦ (0, omega arith, ground (arith, e, f, g))
      | inl g ↦ elim (Option-cases (d.applying 2)) [
        | inr (x, k) ↦ (1, omega arith, ground (arith, e, f, g, k, w 1))
        | inl k ↦ (2, omega arith, ground (arith, e, f, g, k, w 1, w 2))
      ]
    ]
  ]
]
open_at_keeps d (suc zero) s r w h = elim (Option-cases d.open_error) [
  | inr (x, e) ↦ (1, omega arith, ground (arith, e))
  | inl e ↦ elim (Option-cases d.creation) [
    | inr (x, f) ↦ (1, omega arith, ground (arith, e, f))
    | inl f ↦ elim (Option-cases (d.applying 2)) [
      | inr (x, k) ↦ (1, omega arith, ground (arith, e, f, k))
      | inl k ↦ (2, omega arith, ground (arith, e, f, k, w 2))
    ]
  ]
]
open_at_keeps d (suc (suc zero)) s r w h = (2, omega arith, ground arith)
open_at_keeps d (suc (suc (suc _))) s r w h = absurd h
