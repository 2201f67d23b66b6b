-- ===== src/Print/Decimal.antt =====
-- Decimal text, independently of the printer: its digits from the left, and its value.
use native.Mathlib.Nat.{pow-suc, pow-le-pow_right}
use ccommon.Prelude.{
  ℕ, zero, suc, ◌+◌, ◌-◌, ◌*◌, ◌/◌, ◌%◌, ◌^◌, ◌≤◌, ◌<◌, List, [], ◌∷◌, ◌++◌, none, some, ◌≡◌, refl,
  ◌⊎◌, inl, inr, arith, length, length-append, ◌∙◌, subst, dec_lt, le→leb, lt→leb,
}
use ccommon.Print.{digits, digits_from}

-- The `d` last digits of `n`, most significant first.
abbrev pub decimal : ℕ → ℕ → List ℕ
decimal zero n = []
decimal (suc d) n = decimal d (n / 10) ++ ((b'0' + n % 10) ∷ [])

-- The value of a text of digits behind the digits of `v`.
abbrev pub value_from : ℕ → List ℕ → ℕ
value_from v [] = v
value_from v (c ∷ cs) = value_from (10 * v + (c - b'0')) cs

-- The bytes are decimal digits.
abbrev pub AreDigits : List ℕ → Type 0
AreDigits [] = Unit
AreDigits (c ∷ cs) = (b'0' ≤ c) × (c ≤ b'9') × AreDigits cs

pub value_from-append :
    (v : ℕ) (xs ys : List ℕ) → value_from v (xs ++ ys) ≡ value_from (value_from v xs) ys
value_from-append v [] ys = refl
value_from-append v (x ∷ xs) ys = value_from-append (10 * v + (x - b'0')) xs ys

pub AreDigits-append : (xs ys : List ℕ) → AreDigits xs → AreDigits ys → AreDigits (xs ++ ys)
AreDigits-append [] ys h k = k
AreDigits-append (x ∷ xs) ys h k = (h.0, h.1, AreDigits-append xs ys h.2 k)

pub length-decimal : (d n : ℕ) → length (decimal d n) ≡ d
length-decimal zero n = refl
length-decimal (suc d) n =
    omega
      (arith, length-append (decimal d (n / 10)) ((b'0' + n % 10) ∷ []), length-decimal d (n / 10))

pub AreDigits-decimal : (d n : ℕ) → AreDigits (decimal d n)
AreDigits-decimal zero n = tt
AreDigits-decimal (suc d) n =
    AreDigits-append (decimal d (n / 10)) ((b'0' + n % 10) ∷ []) (AreDigits-decimal d (n / 10))
      (omega arith, omega arith, tt)

pub value-decimal : (d n : ℕ) → n < 10 ^ d → value_from 0 (decimal d n) ≡ n
value-decimal zero n h = omega arith
value-decimal (suc d) n h =
    value_from-append 0 (decimal d (n / 10)) ((b'0' + n % 10) ∷ [])
    ∙ omega (arith, value-decimal d (n / 10), pow-suc 10 d)

-- The number of digits that a number is written with: no leading zero, and one digit for 0.
pub record HasDigits (n d : ℕ) : Type 0 where
  pub below : n < 10 ^ d
  pub above : (d ≡ 1) ⊎ (10 ^ (d - 1) ≤ n)
  pub nonzero : 0 < d

-- The powers of ten from the `k`th on.
abbrev powers : ℕ → ℕ → List ℕ
powers zero k = []
powers (suc m) k = (10 ^ k) ∷ powers m (k + 1)

digits_from-powers :
    (m k n : ℕ)
    → 0 < k
    → ((k ≡ 1) × (0 < m)) ⊎ (10 ^ (k - 1) ≤ n)
    → n < 10 ^ (k + m - 1)
    → (d : ℕ) × (digits_from (powers m k) k n ≡ some d) × HasDigits n d × (d < k + m)
unfolding digits_from
digits_from-powers zero k n pos_k (inl e) hi = absurd (omega arith)
digits_from-powers zero k n pos_k (inr lo) hi =
    let e : k + 0 - 1 ≡ k - 1 = omega arith in
    let hi' : n < 10 ^ (k - 1) = rw e at hi in absurd (omega arith)
digits_from-powers (suc m) k n pos_k lo hi = elim (dec_lt n (10 ^ k)) [
  | yes h ↦ (
    k,
    rw (lt→leb (10 ^ k) n h),
    record { below = h; above = first lo; nonzero = pos_k },
    omega arith,
  )
  | no h ↦
      let e : k + suc m - 1 ≡ k + 1 + m - 1 = omega arith in
      let e' : k ≡ k + 1 - 1 = omega arith in
      let lo' : 10 ^ (k + 1 - 1) ≤ n = subst (λ j. 10 ^ j ≤ n) e' (omega arith) in
      let (d, found, has, bound) =
        digits_from-powers m (k + 1) n (omega arith) (inr lo') (subst (λ j. n < 10 ^ j) e hi) in
      (d, rw (le→leb (10 ^ k) n (omega arith)) found, has, omega arith)
]
  where
    first : ((k ≡ 1) × (0 < suc m)) ⊎ (10 ^ (k - 1) ≤ n) → (k ≡ 1) ⊎ (10 ^ (k - 1) ≤ n)
    first (inl a) = inl a.0
    first (inr b) = inr b

digits_from-powers-none : (m k n : ℕ) → 10 ^ (k + m) ≤ 10 * n → digits_from (powers m k) k n ≡ none
unfolding digits_from
digits_from-powers-none zero k n h = refl
digits_from-powers-none (suc m) k n h =
    let e : k + suc m ≡ k + 1 + m = omega arith in
    let small : 10 ^ suc k ≤ 10 ^ (k + suc m) =
      pow-le-pow_right {n = 10} (omega arith) {i = suc k} {j = k + suc m} (omega arith) in
    let le : 10 ^ k ≤ n = omega (arith, pow-suc 10 k) in
    rw (le→leb (10 ^ k) n le)
      (digits_from-powers-none m (k + 1) n (subst (λ j. 10 ^ j ≤ 10 * n) e h))

digits_table : (n : ℕ) → digits n ≡ digits_from (powers 19 1) 1 n
unfolding digits
digits_table n = refl

-- `digits` counts the decimal digits of every number below 10^19, and for the others reads outside
-- its table.
pub digits_lem :
    (n : ℕ)
    → ((n < 10 ^ 19) × (d : ℕ) × (digits n ≡ some d) × HasDigits n d × (d ≤ 19))
      ⊎ ((10 ^ 19 ≤ n) × (digits n ≡ none))
digits_lem n = elim (dec_lt n (10 ^ 19)) [
  | yes h ↦
      let (d, found, has, bound) =
        digits_from-powers 19 1 n (omega arith) (inl (refl, omega arith)) h in
      inl (h, d, digits_table n ∙ found, has, omega arith)
  | no h ↦ inr (omega arith, digits_table n ∙ digits_from-powers-none 19 1 n (omega arith))
]

pub HasDigits-le : (n d k : ℕ) → HasDigits n d → n < 10 ^ k → 1 ≤ k → d ≤ k
HasDigits-le n d k h lt one = elim (dec_lt k d) [
  | yes more ↦ absurd (too_many more h.above)
  | no enough ↦ omega arith
]
  where
    too_many : k < d → (d ≡ 1) ⊎ (10 ^ (d - 1) ≤ n) → ⊥
    too_many more (inl e) = omega arith
    too_many more (inr lo) =
        let up : 10 ^ k ≤ 10 ^ (d - 1) =
          pow-le-pow_right {n = 10} (omega arith) {i = k} {j = d - 1} (omega arith) in
        omega arith
