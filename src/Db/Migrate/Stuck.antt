-- ===== src/Db/Migrate/Stuck.antt =====
-- A migration that was applied and not recorded.
use node_messager.Base.{
  ℕ, String, ◌≡◌, ◌≢◌, inl, inr, true, none, some, List, [], ◌∷◌, ◌++◌, arith, Option-cases,
}
use node_messager.Db.Migrate.{
  Schema, Driver, update_failed, first_version, execute, version, apply_all, migrate, open_at,
}
use node_messager.Db.Migrate.Versions.{IsAt}

-- The column is there, and the version is still the first.
abbrev pub IsHalf : Schema → Type 0
IsHalf s = (s.created ≡ true) × (s.ingeniero_id ≡ true) × (first_version s.versions ≡ 1)

first_version-append :
    (vs : List ℕ) (v : ℕ) → first_version vs ≡ 1 → first_version (vs ++ v ∷ []) ≡ 1
first_version-append [] v h = absurd (omega arith)
first_version-append (x ∷ vs) v h = h

-- Each opening fails and leaves it so, whatever the driver answers.
open_at-IsHalf :
    (d : Driver) (s : Schema) → IsHalf s → ((open_at d s).1 ≢ none) × IsHalf (open_at d s).0
unfolding open_at migrate apply_all execute version
open_at-IsHalf d s h = elim (Option-cases d.open_error) [
  | inr (x, e) ↦ ground (arith, e)
  | inl e ↦ elim (Option-cases d.creation) [
    | inr (x, f) ↦ ground (arith, e, f)
    | inl f ↦ elim (Option-cases d.reading) [
      | inl r ↦ elim (Option-cases (d.applying 2)) [
        | inl g ↦ ground (arith, e, f, r, g)
        | inr (x, g) ↦ ground (arith, e, f, r, g)
      ]
      | inr (x, r) ↦ elim (Option-cases (d.applying 1)) [
        | inr (x, g) ↦ ground (arith, e, f, r, g)
        | inl g ↦ elim (Option-cases (d.recording 1)) [
          | inr (x, k) ↦ ground (arith, e, f, r, g, k)
          | inl k ↦ elim (Option-cases (d.applying 2)) [
            | inl l ↦ ground (arith, e, f, r, g, k, l, first_version-append s.versions 1 h.2)
            | inr (x, l) ↦ ground (arith, e, f, r, g, k, l, first_version-append s.versions 1 h.2)
          ]
        ]
      ]
    ]
  ]
]

-- The database after it was opened by each of these drivers in turn.
abbrev pub reopened : List Driver → Schema → Schema
reopened [] s = s
reopened (d ∷ ds) s = reopened ds (open_at d s).0

reopened-IsHalf : (ds : List Driver) (s : Schema) → IsHalf s → IsHalf (reopened ds s)
reopened-IsHalf [] s h = h
reopened-IsHalf (d ∷ ds) s h = reopened-IsHalf ds (open_at d s).0 (open_at-IsHalf d s h).1

-- If the second migration is applied to a database of the first version and the version cannot be
-- recorded, the opening fails with that error, and so does every later opening, after any others
-- and whatever the driver answers.
pub unrecorded_stays :
    (d : Driver) (s : Schema) (x : String) (ds : List Driver) (last : Driver)
    → IsAt 1 s
    → d.open_error ≡ none
    → d.creation ≡ none
    → d.reading ≡ none
    → d.applying 2 ≡ none
    → d.recording 2 ≡ some x
    → ((open_at d s).1 ≡ some (update_failed 2 x))
      × ((open_at last (reopened ds (open_at d s).0)).1 ≢ none)
unfolding open_at migrate apply_all execute version
unrecorded_stays d s x ds last h o c r a w =
    let half : IsHalf (open_at d s).0 = ground (arith, h, o, c, r, a, w) in
    (
      ground (arith, h, o, c, r, a, w),
      (open_at-IsHalf last _ (reopened-IsHalf ds (open_at d s).0 half)).0,
    )
