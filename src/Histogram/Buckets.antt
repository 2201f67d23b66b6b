-- ===== src/Histogram/Buckets.antt =====
-- Recording a value.
use ccommon.Prelude.{
  ℕ, zero, suc, ◌+◌, ◌%◌, ◌≤◌, ◌<◌, List, [], ◌∷◌, some, ◌≡◌, refl, ap, arith, length, le→ltb,
}
use ccommon.Prelude.Words.{u32_mod, add64}
use ccommon.Histogram.{Histo, histo_ok, histo_u32_record, _bucket_offset, add_at}

-- The sum of the counts.
abbrev pub total : List ℕ → ℕ
total [] = 0
total (b ∷ bs) = b + total bs

add_at_total :
    (i count : ℕ) (bs : List ℕ)
    → i < length bs
    → total bs + count < u32_mod
    → (bs' : List ℕ) × (add_at i count bs ≡ some bs')
      × (total bs' ≡ total bs + count)
      × (length bs' ≡ length bs)
add_at_total i count [] h k = absurd (omega arith)
add_at_total zero count (b ∷ bs) h k =
    let e : (b + count) % u32_mod ≡ b + count = omega arith in
    ((b + count) ∷ bs, ap (λ t. some (t ∷ bs)) e, omega arith, refl)
add_at_total (suc i) count (b ∷ bs) h k =
    let (bs', run, sum, len) = add_at_total i count bs (omega arith) (omega arith) in
    (b ∷ bs', rw run, omega arith, omega arith)

-- Recording a value in range, whose bucket is one of the histogram's, adds its count to the sum of the
-- buckets and to the number of records, so that the two stay equal; the number of buckets stays. All
-- this as long as the sum stays below 2^32.
pub histo_u32_record-total :
    (h : Histo) (value count offset : ℕ)
    → value ≤ h.n_
    → _bucket_offset value h.m h.r h.g_ ≡ some offset
    → offset < length h.buckets
    → total h.buckets ≡ h.nrecord
    → h.nrecord + count < u32_mod
    → (h' : Histo) × (histo_u32_record h value count ≡ some (histo_ok, h'))
      × (total h'.buckets ≡ h'.nrecord)
      × (h'.nrecord ≡ h.nrecord + count)
      × (length h'.buckets ≡ length h.buckets)
unfolding histo_u32_record
histo_u32_record-total h value count offset small e inside same k =
    let (bs, run, sum, len) = add_at_total offset count h.buckets inside (omega arith) in
    let more : add64 h.nrecord count ≡ h.nrecord + count = omega arith in
    (
      record h { buckets = bs; nrecord = h.nrecord + count },
      rw (le→ltb h.n_ value small, e, run, more),
      omega arith,
      refl,
      len,
    )
