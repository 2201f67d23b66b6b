-- ===== src/Histogram/Report.antt =====
-- The reports on a histogram and the percentile profiles of src/stats/cc_histogram.c.
use ccommon.Prelude.{
  ℕ, ◌+◌, List, [], ◌∷◌, ◌++◌, Option, none, some, Bool, true, false, if◌then◌else◌, ltb, leb, ◌==◌,
  length, take, drop, ◌>>=◌, ◌||◌, ◌&&◌, ◌≡◌, refl, ap, ◌∙◌,
}
use ccommon.Prelude.Words.{add64}
use ccommon.Histogram.{
  Histo, HistoStatus, histo_ok, histo_eoverflow, histo_eunderflow, histo_eempty, histo_eorder,
  Profile,
}

-- The operations on percentiles: `_greater_dbl`, `_lesser_dbl`, `_equal_dbl`, the constants 0 and 100
-- and -1, and `_threshold`.
pub record Percentiles {ℓ} (D : Type ℓ) : Type ℓ where
  pub greater : D → D → Bool
  pub lesser : D → D → Bool
  pub equal : D → D → Bool
  pub lowest : D
  pub highest : D
  pub before_all : D
  pub threshold : ℕ → D → ℕ

-- The buckets from the first that is not empty on, and its offset.
unfoldable pub skip_empty : List ℕ → ℕ → List ℕ × ℕ
skip_empty [] offset = ([], offset)
skip_empty (b ∷ bs) offset =
    let rest = skip_empty bs (offset + 1) in if b == 0 then rest else (b ∷ bs, offset)

-- The second loop of `histo_u32_report`: `*value` after it.
unfoldable pub scan : List ℕ → ℕ → ℕ → ℕ → ℕ → ℕ
scan [] offset rcount rthreshold value = value
scan (b ∷ bs) offset rcount rthreshold value =
    let rest = scan bs (offset + 1) (add64 rcount b) rthreshold offset in
    if ltb rcount rthreshold then rest else value

-- Where the loops of `histo_u32_report_multi` stand.
pub record Cursor : Type 0 where
  pub rest : List ℕ
  pub curr : ℕ
  pub rcount : ℕ
  pub offset : ℕ

-- The inner loop, up to the bucket where the threshold is met.
unfoldable pub advance : List ℕ → ℕ → ℕ → ℕ → ℕ → Cursor
advance [] curr rcount offset rthreshold = record {
  rest = [];
  curr = curr;
  rcount = rcount;
  offset = offset;
}
advance (b ∷ bs) curr rcount offset rthreshold =
    let next =
      if ltb 0 b
      then advance bs (curr + 1) (add64 rcount b) curr rthreshold
      else advance bs (curr + 1) rcount offset rthreshold in
    if ltb rcount rthreshold
    then next
    else record { rest = b ∷ bs; curr = curr; rcount = rcount; offset = offset }

-- The loop for the maximum: `pp->max` is assigned `offset`, which does not change.
unfoldable pub last_max : List ℕ → ℕ → ℕ → ℕ
last_max [] offset max = max
last_max (b ∷ bs) offset max = last_max bs offset (if b == 0 then max else offset)

module _ {ℓ} {D : Type ℓ} (ops : Percentiles D) where
  -- `histo_u32_report`, with what `*value` holds after it.
  unfoldable pub histo_u32_report : ℕ → Histo → D → HistoStatus × ℕ
  unfolding skip_empty scan
  histo_u32_report value h p =
      if ops.greater p ops.highest
      then (histo_eoverflow, value)
      else if ops.lesser p ops.lowest
      then (histo_eunderflow, value)
      else if h.nrecord == 0
      then (histo_eempty, value)
      else (let (rest, offset) = skip_empty h.buckets 0 in
          (histo_ok, scan rest offset 0 (ops.threshold h.nrecord p) offset))

  -- The outer loop over the percentiles that are left: the results written, and where it stops.
  -- `again` tells whether the test of the `do` loop comes first.
  unfoldable pub report_from : ℕ → Bool → List D → Cursor → List ℕ × Cursor
  unfolding advance
  report_from nrecord again [] c = ([], c)
  report_from nrecord again (p ∷ ps) c =
      let rthreshold = ops.threshold nrecord p in
      let c' = advance c.rest c.curr c.rcount c.offset rthreshold in
      let (same, last) = report_from nrecord true ps c in
      let (vs, end) = report_from nrecord true ps c' in
      if again && leb rthreshold c.rcount
      then (c.offset ∷ same, last)
      else if length c.rest == 0
      then ([], c)
      else (c'.offset ∷ vs, end)

  -- `histo_u32_report_multi`. The results that are not written keep their values.
  unfoldable pub histo_u32_report_multi : Profile D → Histo → HistoStatus × Profile D
  unfolding skip_empty report_from last_max
  histo_u32_report_multi pp h =
      if h.nrecord == 0
      then (histo_eempty, pp)
      else (let (rest, curr) = skip_empty h.buckets 0 in
          let (vs, c) =
            report_from h.nrecord false (take pp.count pp.percentile)
              (record { rest = rest; curr = curr; rcount = 0; offset = curr }) in
          (
            histo_ok,
            record pp {
              result = vs ++ drop (length vs) pp.result;
              min = curr;
              max = last_max c.rest c.offset c.offset;
            },
          ))

  -- The tests on one percentile in `percentile_profile_set`.
  unfoldable pub check_percentile : D → D → HistoStatus
  check_percentile p last =
      if ops.greater p ops.highest
      then histo_eoverflow
      else if ops.lesser p ops.lowest
      then histo_eunderflow
      else if ops.lesser p last || ops.equal p last
      then histo_eorder
      else histo_ok

  -- The loop of `percentile_profile_set`: the percentiles stored over those of the profile. `none` is
  -- a write behind the last one.
  unfoldable pub set_from : List D → D → List D → Option (HistoStatus × List D)
  unfolding check_percentile
  set_from [] last dst = some (histo_ok, dst)
  set_from (p ∷ ps) last [] = elim (check_percentile p last) [
    | histo_ok ↦ none
    | failed ↦ some (failed, [])
  ]
  set_from (p ∷ ps) last (d ∷ dst) =
      let rest = set_from ps p dst in
      elim (check_percentile p last) [
        | histo_ok ↦ (do (status, ds) ← rest; some (status, p ∷ ds))
        | failed ↦ some (failed, d ∷ dst)
      ]

  -- `percentile_profile_set`; the count is an `uint8_t`, and is not compared with `cap`.
  unfoldable pub percentile_profile_set : Profile D → List D → Option (HistoStatus × Profile D)
  unfolding set_from
  percentile_profile_set pp ps = do
    (status, ds) ← set_from ps ops.before_all pp.percentile
    some (status, record pp { count = length ps; percentile = ds })

-- However many records lie behind the bucket of the last percentile, the maximum that
-- `histo_u32_report_multi` stores is the offset of that bucket: the loop that looks for the last bucket
-- with records assigns the wrong variable.
last_max_lem : (bs : List ℕ) (offset : ℕ) → last_max bs offset offset ≡ offset
unfolding last_max
last_max_lem [] offset = refl
last_max_lem (b ∷ bs) offset = ap (last_max bs offset) (same (b == 0)) ∙ last_max_lem bs offset
  where
    same : (t : Bool) → (if t then offset else offset) ≡ offset
    same true = refl
    same false = refl
