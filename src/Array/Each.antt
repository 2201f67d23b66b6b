-- ===== src/Array/Each.antt =====
-- Calling a function on every element until one call fails.
use ccommon.Prelude.{ℕ, zero, suc, ◌+◌, ◌<◌, ◌≡◌, ◌≢◌, refl, ap, arith, ◌⊎◌, inl, inr, Bool-cases}
use ccommon.Status.{Status, ok, is_ok, is_ok-true, is_ok-false}
use ccommon.Array.{Array, array_get, array_each, each_from}

module _ {ℓ κ} {A : Type ℓ} {S : Type κ} (func : S → ℕ → Status × S) (arr : Array A) where
  -- The calls on the `n` elements from `i` on return success, and lead from `s` to `s'`.
  abbrev pub Runs : ℕ → ℕ → S → S → Type κ
  Runs zero i s s' = s ≡ s'
  Runs (suc n) i s s' = (s1 : S) × (func s (array_get arr i) ≡ (ok, s1)) × Runs n (i + 1) s1 s'

  -- The loop over `n` elements from `i` on ends behind them, or at the first that fails.
  abbrev pub Stops : ℕ → ℕ → S → ℕ × Status × S → Type κ
  Stops n i s (j, status, s') =
      (k : ℕ) × (s1 : S) × (j ≡ i + k)
      × Runs k i s s1
      × (((k ≡ n) × (status ≡ ok) × (s1 ≡ s'))
          ⊎ ((k < n) × (status ≢ ok) × (func s1 (array_get arr j) ≡ (status, s'))))

  failed-Stops :
      (n i : ℕ) (s s' : S) (status : Status)
      → func s (array_get arr i) ≡ (status, s')
      → status ≢ ok
      → Stops (suc n) i s (i, status, s')
  failed-Stops n i s s' status e ne = (0, s, omega arith, refl, inr (omega arith, ne, e))

  more-Stops :
      (n i : ℕ) (s s' : S) (r : ℕ × Status × S)
      → func s (array_get arr i) ≡ (ok, s')
      → Stops n (i + 1) s' r
      → Stops (suc n) i s r
  more-Stops n i s s' r e (k, s1, at, runs, inl (all, good, same)) =
      (suc k, s1, omega arith, (s', e, runs), inl (omega arith, good, same))
  more-Stops n i s s' r e (k, s1, at, runs, inr (few, bad, last)) =
      (suc k, s1, omega arith, (s', e, runs), inr (omega arith, bad, last))

  each_from-Stops : (n i : ℕ) (s : S) → Stops n i s (each_from func arr n i s)
  unfolding each_from
  each_from-Stops zero i s = (0, s, omega arith, refl, inl (refl, refl, refl))
  each_from-Stops (suc n) i s =
      let (status, s') = func s (array_get arr i) in
      let others = each_from-Stops n (i + 1) s' in
      elim (Bool-cases (is_ok status)) [
        | inl good ↦
            let e : func s (array_get arr i) ≡ (ok, s') =
              ap (λ t. (t, s')) (is_ok-true status good) in
            rw good (more-Stops n i s s' (each_from func arr n (i + 1) s') e others)
        | inr bad ↦ rw bad (failed-Stops n i s s' status refl (is_ok-false status bad))
      ]

  -- `array_each` calls the function on the elements from the first on, each time in the state that
  -- the call before it left, and stops at the first call that fails: it returns that element's
  -- index and status, or the number of elements when every call succeeds.
  array_each-Stops : (s : S) → Stops arr.nelem 0 s (array_each func arr s)
  unfolding array_each
  array_each-Stops s = each_from-Stops arr.nelem 0 s
