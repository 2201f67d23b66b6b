-- ===== src/Histogram.antt =====
-- src/stats/cc_histogram.c and include/cc_histogram.h: histograms of logarithmic buckets.
-- Percentiles are of a type `D`, as floating point is not modelled: a record gives the comparisons and
-- `_threshold`. Shifts of the `int` 1 are undefined from 31 on, `none`.
pub mod Buckets
pub mod Report
mod Tests
use ccommon.Prelude.{
  ℕ, zero, suc, ◌+◌, ◌-◌, ◌*◌, ◌/◌, ◌%◌, ◌^◌, List, [], ◌∷◌, Option, none, some, Bool, true, false,
  if◌then◌else◌, ltb, leb, ◌==◌, ◌>>=◌, length, drop, ◌||◌,
}
use ccommon.Prelude.Words.{u32_mod, u64_mod, add64}

-- `histo_rstatus_e`.
pub data HistoStatus : Type 0 where
  histo_ok histo_eoverflow histo_eunderflow histo_eempty histo_eorder : HistoStatus

-- `struct histo_u32`. The upper-case fields have an underscore: `M`, `R`, `N` and `G`.
pub record Histo : Type 0 where
  pub m : ℕ
  pub r : ℕ
  pub n : ℕ
  pub m_ : ℕ
  pub r_ : ℕ
  pub n_ : ℕ
  pub g_ : ℕ
  pub nbucket : ℕ
  pub nrecord : ℕ
  pub buckets : List ℕ

-- `struct percentile_profile`.
pub record Profile {ℓ} (D : Type ℓ) : Type ℓ where
  pub cap : ℕ
  pub count : ℕ
  pub percentile : List D
  pub result : List ℕ
  pub min : ℕ
  pub max : ℕ

-- `1 << n` where 1 is an `int` of 32 bits.
abbrev pub shift1 : ℕ → Option ℕ
shift1 n = if ltb n 31 then some (2 ^ n) else none

unfoldable pub zeros : ℕ → List ℕ
zeros zero = []
zeros (suc n) = 0 ∷ zeros n

-- `histo_u32_reset`.
unfoldable pub histo_u32_reset : Histo → Histo
unfolding zeros
histo_u32_reset h = record h { nrecord = 0; buckets = zeros h.nbucket }

-- `histo_u32_create` after the tests and the allocations: `none` is an undefined shift.
unfoldable pub histo_u32_fill : ℕ → ℕ → ℕ → Option Histo
unfolding histo_u32_reset
histo_u32_fill m r n = do
  m_ ← shift1 m
  r1 ← shift1 r
  n1 ← shift1 n
  g_ ← shift1 (r - m - 1)
  some (
      histo_u32_reset (record {
        m = m;
        r = r;
        n = n;
        m_ = m_;
        r_ = r1 - 1;
        n_ = n1 - 1;
        g_ = g_;
        nbucket = (n - r + 2) * g_;
        nrecord = 0;
        buckets = [];
      }))

-- `histo_u32_create`; `alloc` tells whether a block of a number of bytes can be had. The first result
-- is `none` where the behaviour is undefined, the second where there is no histogram.
unfoldable pub histo_u32_create : (ℕ → Bool) → ℕ → ℕ → ℕ → Option (Option Histo)
unfolding histo_u32_fill
histo_u32_create alloc m r n =
    if leb r m || (ltb n r || ltb 64 n)
    then some none
    else if alloc 72
    then (do h ← histo_u32_fill m r n; if alloc (h.nbucket * 4) then some (some h) else some none)
    else some none

-- The place of the highest bit of a number that is not 0, looked for from bit `fuel` down.
unfoldable pub high_bit : ℕ → ℕ → ℕ
high_bit zero v = 0
high_bit (suc k) v = let rest = high_bit k v in if leb (2 ^ suc k) v then suc k else rest

-- `_bucket_offset`.
unfoldable pub _bucket_offset : ℕ → ℕ → ℕ → ℕ → Option ℕ
unfolding high_bit
_bucket_offset value m r g_ =
    let v = if value == 0 then 1 else value in
    let h = high_bit 63 v in
    if ltb h r
    then some (value / 2 ^ m)
    else (do low ← shift1 h; let d = h - r + 1 in some ((d + 1) * g_ + (value - low) / 2 ^ (m + d)))

-- One bucket of a list increased, as a `uint32_t`; `none` is a bucket outside the list.
abbrev pub add_at : ℕ → ℕ → List ℕ → Option (List ℕ)
add_at i count [] = none
add_at zero count (b ∷ bs) = some ((b + count) % u32_mod ∷ bs)
add_at (suc i) count (b ∷ bs) = do bs' ← add_at i count bs; some (b ∷ bs')

-- `histo_u32_record`.
unfoldable pub histo_u32_record : Histo → ℕ → ℕ → Option (HistoStatus × Histo)
unfolding _bucket_offset
histo_u32_record h value count = if ltb h.n_ value then some (histo_eoverflow, h) else (do
  offset ← _bucket_offset value h.m h.r h.g_
  bs ← add_at offset count h.buckets
  some (histo_ok, record h { buckets = bs; nrecord = add64 h.nrecord count }))

-- `bucket_low` and `bucket_high`. The term of the sum that is multiplied by 0 is left out.
unfoldable pub bucket_low : Histo → ℕ → Option ℕ
bucket_low h bucket =
    let g = bucket / 2 ^ (h.r - h.m - 1) in
    let b = bucket - g * h.g_ in
    if g == 0
    then (do unit ← shift1 h.m; some (unit * b))
    else (do base ← shift1 (h.r + g - 2); unit ← shift1 (h.m + g - 1); some (base + unit * b))

unfoldable pub bucket_high : Histo → ℕ → Option ℕ
bucket_high h bucket =
    let g = bucket / 2 ^ (h.r - h.m - 1) in
    let b = bucket - g * h.g_ + 1 in
    if g == 0
    then (do unit ← shift1 h.m; some (unit * b - 1))
    else (do base ← shift1 (h.r + g - 2); unit ← shift1 (h.m + g - 1); some (base + unit * b - 1))
