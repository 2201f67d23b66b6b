-- ===== src/Dbuf/Fit.antt =====
-- The loop that looks for a size.
use native.Mathlib.Nat.{pow-suc, mul_assoc}
use ccommon.Prelude.{
  ℕ, zero, suc, ◌*◌, ◌%◌, ◌^◌, ◌≤◌, ◌<◌, none, some, ◌≡◌, refl, sym, ap, ◌∙◌, arith, dec_lt, lt→ltb,
  le→ltb, ◌⊎◌, inl, inr,
}
use ccommon.Prelude.Words.{u32_mod}
use ccommon.Dbuf.{fit_size}

-- The loop has found the least of `size`, `2 * size`, `4 * size` and so on that reaches `target`.
pub record Fits (size target found : ℕ) : Type 0 where
  pub enough : target ≤ found
  pub doubled : (k : ℕ) × (found ≡ size * 2 ^ k)
  pub least : (found ≡ size) ⊎ (found < 2 * target)

mul-pow : (n k : ℕ) → n * 2 * 2 ^ k ≡ n * 2 ^ suc k
mul-pow n k =
    mul_assoc n 2 (2 ^ k)
    ∙ ap (λ t. n * t) {x = 2 * 2 ^ k} {y = 2 ^ suc k} (omega (arith, pow-suc 2 k))

-- What a run of the loop on `fuel` rounds finds.
abbrev pub Finds : ℕ → ℕ → ℕ → Type 0
Finds fuel size target =
    (found : ℕ) × (fit_size fuel size target ≡ some found)
    × Fits size target found
    × (found < u32_mod)

fit_size_step :
    (fuel size target : ℕ)
    → size < target
    → target ≤ 2 ^ 31
    → Finds fuel (size * 2) target
    → Finds (suc fuel) size target
unfolding fit_size
fit_size_step fuel size target less l (found, run, fits, small) =
    let next : size * 2 % u32_mod ≡ size * 2 = omega arith in
    let (j, double) = fits.doubled in
    (
      found,
      rw (lt→ltb size target less, next) run,
      record {
        enough = fits.enough;
        doubled = (suc j, double ∙ mul-pow size j);
        least = inr (bounded less fits.least);
      },
      small,
    )
  where
    bounded :
        {found : ℕ} → size < target → (found ≡ size * 2) ⊎ (found < 2 * target) → found < 2 * target
    bounded less (inl e) = omega arith
    bounded less (inr lt) = lt

-- The loop ends for every target up to 2^31, with the least doubling of a size that is not 0 that
-- reaches the target, when there is fuel for the doublings and one round more.
pub fit_size-Finds :
    (fuel size target : ℕ)
    → 0 < size
    → size < u32_mod
    → target ≤ 2 ^ 31
    → target ≤ size * 2 ^ fuel
    → Finds (suc fuel) size target
fit_size-Finds zero size target h k l m = (
  size,
  unfold fit_size in rw (le→ltb size target (omega arith)),
  record { enough = omega arith; doubled = (0, omega arith); least = inl refl },
  k,
)
fit_size-Finds (suc fuel) size target h k l m = elim (dec_lt size target) [
  | yes less ↦
      let reach : size * 2 ^ suc fuel ≡ size * 2 * 2 ^ fuel = sym (mul-pow size fuel) in
      fit_size_step (suc fuel) size target less l
        (fit_size-Finds fuel (size * 2) target (omega arith) (omega arith) l (omega arith))
  | no done ↦ (
    size,
    unfold fit_size in rw (le→ltb size target (omega arith)),
    record { enough = omega arith; doubled = (0, omega arith); least = inl refl },
    k,
  )
]

fit_size-zero : (fuel target : ℕ) → 0 < target → fit_size fuel 0 target ≡ none
unfolding fit_size
fit_size-zero zero target h = refl
fit_size-zero (suc fuel) target h = rw (lt→ltb 0 target h, fit_size-zero fuel target h)

-- For a target above 2^31 the loop never ends when the first size is a power of two, such as the
-- default: the size wraps round to 0 and stays there.
pub fit_size-diverges :
    (fuel k size target : ℕ)
    → size < u32_mod
    → size * 2 ^ k ≡ u32_mod
    → 2 ^ 31 < target
    → fit_size fuel size target ≡ none
unfolding fit_size
fit_size-diverges zero k size target h e l = refl
fit_size-diverges (suc fuel) zero size target h e l = absurd (omega arith)
fit_size-diverges (suc fuel) (suc zero) size target h e l =
    let next : size * 2 % u32_mod ≡ 0 = omega arith in
    rw (lt→ltb size target (omega arith), next, fit_size-zero fuel target (omega arith))
fit_size-diverges (suc fuel) (suc (suc k)) size target h e l =
    let e' : size * 2 * 2 ^ suc k ≡ u32_mod = mul-pow size (suc k) ∙ e in
    let e'' : size * 2 * 2 * 2 ^ k ≡ u32_mod = mul-pow (size * 2) k ∙ e' in
    let small : size * 2 * 2 ≤ u32_mod = below (size * 2 * 2) k e'' in
    let next : size * 2 % u32_mod ≡ size * 2 = omega arith in
    rw (
      lt→ltb size target (omega arith),
      next,
      fit_size-diverges fuel (suc k) (size * 2) target (omega arith) e' l,
    )
  where
    below : (n k : ℕ) → n * 2 ^ k ≡ u32_mod → n ≤ u32_mod
    below n zero e = omega arith
    below n (suc k) e = let h = below (n * 2) k (mul-pow n k ∙ e) in omega arith
