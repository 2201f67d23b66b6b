-- ===== src/Histogram/Tests.antt =====
-- Runs of a histogram on concrete inputs, and its theorem at one.
use ccommon.Prelude.{ℕ, ◌+◌, [], ◌∷◌, some, ◌≡◌, refl, arith, length, true, Bool}
use ccommon.Histogram.{
  Histo, histo_ok, histo_u32_record, histo_u32_create, histo_u32_fill, histo_u32_reset, zeros,
  _bucket_offset, high_bit, bucket_low, bucket_high,
}
use ccommon.Histogram.Buckets.{total, histo_u32_record-total}

abbrev always : ℕ → Bool
always n = true

-- With m = 1, r = 3 and n = 5: eight buckets.
abbrev small : Histo
small = record {
  m = 1;
  r = 3;
  n = 5;
  m_ = 2;
  r_ = 7;
  n_ = 31;
  g_ = 2;
  nbucket = 8;
  nrecord = 0;
  buckets = 0 ∷ 0 ∷ 0 ∷ 0 ∷ 0 ∷ 0 ∷ 0 ∷ 0 ∷ [];
}

create_run : histo_u32_create always 1 3 5 ≡ some (some small)
unfolding histo_u32_create histo_u32_fill histo_u32_reset zeros
create_run = refl

-- 19 falls into the bucket from 16 to 23.
offset_run : _bucket_offset 19 1 3 2 ≡ some 6
unfolding _bucket_offset high_bit
offset_run = refl

low_run : (bucket_low small 6 ≡ some 16) × (bucket_high small 6 ≡ some 23)
unfolding bucket_low bucket_high
low_run = (refl, refl)

histo_u32_record-total_example :
    (h' : Histo) × (histo_u32_record small 19 4 ≡ some (histo_ok, h'))
    × (total h'.buckets ≡ h'.nrecord)
    × (h'.nrecord ≡ small.nrecord + 4)
    × (length h'.buckets ≡ length small.buckets)
histo_u32_record-total_example =
    histo_u32_record-total small 19 4 6 (omega arith) offset_run (omega arith) refl (omega arith)
