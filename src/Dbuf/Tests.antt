-- ===== src/Dbuf/Tests.antt =====
-- Runs of the doubling buffers on concrete inputs, and their theorems at them.
use ccommon.Prelude.{
  ℕ, zero, suc, ◌-◌, ◌≤◌, ◌<◌, List, [], ◌∷◌, ◌++◌, Option, some, none, ◌≡◌, refl, ◌∙◌, arith, ap,
  sym, eq_of_some, length, min, take, false, ◌⊎◌, length-take, length-append, take-take, take_at,
  take-append_le,
}
use ccommon.Prelude.Memory.{slice}
use ccommon.Status.{error}
use ccommon.Buf.{Buf, buf_size}
use ccommon.Buf.Inv.{IsValid, unread}
use ccommon.Dbuf.{Counters, Outcome, fit_size, dbuf_fit}
use ccommon.Dbuf.Fit.{Finds, fit_size-Finds, fit_size-diverges}
use ccommon.Dbuf.Resize.{Reallocs, Fitted, dbuf_fit-Fitted}

zeros : ℕ → List ℕ
zeros zero = []
zeros (suc n) = 0 ∷ zeros n

length-zeros : (n : ℕ) → length (zeros n) ≡ n
unfolding zeros
length-zeros zero = refl
length-zeros (suc n) = omega (arith, length-zeros n)

-- A block of the size asked for, filled up with zeros.
abbrev grow : List ℕ → ℕ → Option (List ℕ)
grow bytes n = some (take (n - 33) (bytes ++ zeros (n - 33)))

length-grown : (bytes : List ℕ) (m : ℕ) → length (take m (bytes ++ zeros m)) ≡ m
length-grown bytes m =
    omega (arith, length-take m (bytes ++ zeros m), length-append bytes (zeros m), length-zeros m)

take-grown :
    (bytes : List ℕ) (m k : ℕ)
    → k ≤ length bytes
    → k ≤ m
    → take k (take m (bytes ++ zeros m)) ≡ take k bytes
take-grown bytes m k h l =
    take-take k m (bytes ++ zeros m)
    ∙ take_at (min k m) k (bytes ++ zeros m) (omega arith)
    ∙ take-append_le k bytes (zeros m) h

grow-Reallocs : Reallocs grow
grow-Reallocs = record {
  size = λ bytes n out h e. omega (arith, length-grown bytes (n - 33), ap length (eq_of_some e));
  keeps = λ bytes n out k h l e.
      ap (take k) (sym (eq_of_some e)) ∙ take-grown bytes (n - 33) k h (omega arith);
}

abbrev middle : Buf ℕ
middle = record { rpos = 1; wpos = 3; end = 5; free = false; bytes = 0 ∷ 7 ∷ 8 ∷ 0 ∷ 0 ∷ [] }

middle-IsValid : IsValid middle
middle-IsValid = omega arith

abbrev no_metrics : Counters
no_metrics = record { buf_metrics = none; dbuf_metrics = none }

fit_size_run : fit_size 33 16384 100000 ≡ some 131072
unfolding fit_size
fit_size_run = refl

fit_size-Finds_example : Finds (suc 5) 34 100
fit_size-Finds_example =
    fit_size-Finds 5 34 100 (omega arith) (omega arith) (omega arith) (omega arith)

fit_size-diverges_example : fit_size 1000 16384 3000000000 ≡ none
fit_size-diverges_example =
    fit_size-diverges 1000 18 16384 3000000000 (omega arith) refl (omega arith)

size-middle : buf_size middle ≡ 38
unfolding buf_size
size-middle = refl

dbuf_fit-Fitted_example :
    (out : Outcome ℕ) × (dbuf_fit grow 38 1000 33 middle no_metrics 40 ≡ some out)
    × (((40 < length (unread middle)) × (out.status ≡ error) × (out.buf ≡ middle))
        ⊎ ((length (unread middle) ≤ 40) × Fitted grow 38 1000 middle 40 out))
dbuf_fit-Fitted_example =
    dbuf_fit-Fitted grow 38 1000 no_metrics 40 grow-Reallocs middle-IsValid (omega arith)
      (omega arith) (omega arith)

length-unread : length (unread middle) ≡ 2
unfolding slice
length-unread = refl
