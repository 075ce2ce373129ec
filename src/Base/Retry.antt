-- ===== src/Base/Retry.antt =====
-- The loop that `mutex.Acquire`, `consensus.Propose` and `service.RaiseTicket` share:
-- `for attempt := 1; attempt <= max; attempt++`, with a wait that a cancelled context ends.
use node_messager.Base.Tests.{Option-cases}
use node_messager.Base.{
  ℕ, zero, suc, ◌+◌, ◌≤◌, ◌<◌, ◌≡◌, refl, ◌∙◌, ◌⊎◌, inl, inr, Option, none, some, arith,
}

pub data Result {ℓ κ} (E : Type ℓ) (A : Type κ) : Type (ℓ ⊔ κ) where
  ok : A → Result E A
  err : E → Result E A

pub Result-cases {ℓ κ} :
    {E : Type ℓ} {A : Type κ} (r : Result E A) → ((a : A) × (r ≡ ok a)) ⊎ ((x : E) × (r ≡ err x))
Result-cases (ok a) = inl (a, refl)
Result-cases (err x) = inr (x, refl)

module _ {S E A : Type 0} (attempt : ℕ → S → S × Result E A) (cancelled : ℕ → Option E) where
  -- `left` attempts remain, the next one is number `n`, and `last` is the latest error. There is
  -- no wait behind the last attempt.
  unfoldable pub retry : (left n : ℕ) (last : E) → S → S × Result E A
  retry zero n last s = (s, err last)
  retry (suc zero) n last s = attempt n s
  retry (suc (suc left)) n last s =
      let (t, r) = attempt n s in
      elim r [
        | ok a ↦ (t, ok a)
        | err x ↦ elim (cancelled n) [ some c ↦ (t, err c) | none ↦ retry (suc left) (n + 1) x t ]
      ]

  -- A success is the success of one of the attempts.
  pub retry_ok :
      (left n : ℕ) (last : E) (s : S) (a : A)
      → (retry left n last s).1 ≡ ok a
      → (k : ℕ) × (t : S) × (n ≤ k) × (k < n + left) × ((attempt k t).1 ≡ ok a)
  unfolding retry
  retry_ok zero n last s a e = cc
  retry_ok (suc zero) n last s a e = (n, s, omega arith, omega arith, e)
  retry_ok (suc (suc left)) n last s a e = elim (Result-cases (attempt n s).1) [
    | inl (b, q) ↦ (n, s, omega arith, omega arith, q ∙ (rw (q, retry) at e))
    | inr (x, q) ↦ elim (Option-cases (cancelled n)) [
      | inl c ↦
          let (k, t, lo, hi, r) =
            retry_ok (suc left) (n + 1) x (attempt n s).0 a (rw (q, c, retry) at e) in
          (k, t, omega arith, omega arith, r)
      | inr (c, p) ↦
          let bad : ◌≡◌ {A = Result E A} (err c) (ok a) = rw (q, p, retry) at e in absurd (cc bad)
    ]
  ]

  -- What every attempt keeps, the loop keeps.
  pub retry_keeps :
      (P : S → Type 0)
      → ((n : ℕ) (s : S) → P s → P (attempt n s).0)
      → (left n : ℕ) (last : E) (s : S) → P s
      → P (retry left n last s).0
  unfolding retry
  retry_keeps P k zero n last s h = h
  retry_keeps P k (suc zero) n last s h = k n s h
  retry_keeps P k (suc (suc left)) n last s h = elim (Result-cases (attempt n s).1) [
    | inl (a, q) ↦ rw (q, retry) (k n s h)
    | inr (x, q) ↦ elim (Option-cases (cancelled n)) [
      | inl c ↦ rw (q, c, retry) (retry_keeps P k (suc left) (n + 1) x (attempt n s).0 (k n s h))
      | inr (c, p) ↦ rw (q, p, retry) (k n s h)
    ]
  ]
