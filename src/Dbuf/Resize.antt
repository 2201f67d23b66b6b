-- ===== src/Dbuf/Resize.antt =====
-- What doubling, fitting and shrinking do to a buffer.
use ccommon.Prelude.{
  ℕ, ◌+◌, ◌-◌, ◌*◌, ◌%◌, ◌^◌, ◌≤◌, ◌<◌, List, Option, none, some, ◌≡◌, refl, sym, ap, subst, ◌∙◌,
  arith, length, if◌then◌else◌, dec_lt, lt→ltb, le→ltb, ◌⊎◌, inl, inr, take, drop, not, ◌==◌, eq→==,
  ne→==, ℕ_discrete, drop-take,
}
use ccommon.Prelude.Words.{u32_mod}
use ccommon.Prelude.Memory.{slice, length-slice}
use ccommon.Metric.{incr}
use ccommon.Status.{ok, error, enomem}
use ccommon.Buf.{Buf, buf_hdr_size, buf_size, buf_rsize, buf_lshift}
use ccommon.Buf.Inv.{IsValid, unread, rsize_lem, size_lem}
use ccommon.Buf.Ops.{buf_lshift_lem}
use ccommon.Dbuf.{
  Counters, DbufMetrics, Outcome, _dbuf_resize, dbuf_double, dbuf_fit, dbuf_shrink, fit_size,
  count_outcome, reallocated,
}
use ccommon.Dbuf.Fit.{Fits, Finds, fit_size-Finds}

-- What the code relies on of `realloc`: a new block has the size asked for, and begins with the
-- bytes of the old one.
pub record Reallocs {ℓ} {A : Type ℓ} (realloc : List A → ℕ → Option (List A)) : Type ℓ where
  pub size :
      (bytes : List A) (n : ℕ) (out : List A)
      → buf_hdr_size ≤ n
      → realloc bytes n ≡ some out
      → length out + buf_hdr_size ≡ n
  pub keeps :
      (bytes : List A) (n : ℕ) (out : List A) (k : ℕ)
      → k ≤ length bytes
      → k + buf_hdr_size ≤ n
      → realloc bytes n ≡ some out
      → take k out ≡ take k bytes

module _ {ℓ} {A : Type ℓ} where
  -- A resizing to `nsize` bytes with the header, or a failure that leaves the buffer alone.
  abbrev pub Resized : Buf A → ℕ → Outcome A → Type ℓ
  Resized buf nsize out =
      ((out.status ≡ ok)
        × (out.buf.end + buf_hdr_size ≡ nsize)
        × (unread out.buf ≡ unread buf)
        × (out.buf.rpos ≡ buf.rpos)
        × IsValid out.buf)
      ⊎ (((out.status ≡ error) ⊎ (out.status ≡ enomem)) × (out.buf ≡ buf))

  slice-prefix :
      (mem mem' : List A) (i n : ℕ)
      → take (i + n) mem' ≡ take (i + n) mem
      → slice mem' i n ≡ slice mem i n
  unfolding slice
  slice-prefix mem mem' i n e = sym (drop-take i n mem') ∙ ap (drop i) e ∙ drop-take i n mem

  reallocated-Resized :
      {realloc : List A → ℕ → Option (List A)} {buf : Buf A} (c : Counters) (nsize : ℕ)
      → Reallocs realloc
      → IsValid buf
      → buf.wpos + buf_hdr_size ≤ nsize
      → nsize < u32_mod
      → (r : Option (List A)) → realloc buf.bytes nsize ≡ r
      → Resized buf nsize (reallocated buf c nsize r)
  reallocated-Resized c nsize law v fits small none e = inr (inr refl, refl)
  reallocated-Resized {buf = buf} c nsize law v fits small (some bytes) e =
      let size = law.size buf.bytes nsize bytes (omega arith) e in
      let n = buf.wpos - buf.rpos in
      let kept = law.keeps buf.bytes nsize bytes (buf.rpos + n) (omega arith) (omega arith) e in
      inl (refl, omega arith, slice-prefix buf.bytes bytes buf.rpos n kept, refl, omega arith)

module _ {ℓ} {A : Type ℓ} (realloc : List A → ℕ → Option (List A)) (init max_size : ℕ) where
  _dbuf_resize-Resized :
      {buf : Buf A} (c : Counters) (nsize : ℕ)
      → Reallocs realloc
      → IsValid buf
      → buf.wpos + buf_hdr_size ≤ nsize
      → nsize < u32_mod
      → Resized buf nsize (_dbuf_resize realloc init max_size buf c nsize)
  unfolding _dbuf_resize
  _dbuf_resize-Resized {buf} c nsize law v fits small = elim (dec_lt max_size nsize) [
    | yes big ↦ rw (lt→ltb max_size nsize big) (inr (inl refl, refl))
    | no fine ↦
        rw (le→ltb max_size nsize (omega arith))
          (reallocated-Resized c nsize law v fits small (realloc buf.bytes nsize) refl)
  ]

  -- `dbuf_double` of a valid buffer of less than 2^31 bytes with its header, over a `realloc` as
  -- documented, either doubles that size and keeps the unread bytes and the read offset, or fails
  -- and leaves the buffer as it was.
  dbuf_double-Resized :
      {buf : Buf A} (c : Counters)
      → Reallocs realloc
      → IsValid buf
      → 2 * buf_size buf < u32_mod
      → Resized buf (2 * buf_size buf) (dbuf_double realloc init max_size buf c)
  dbuf_double-Resized {buf} c law v small =
      let size : buf_size buf ≡ buf.end + buf_hdr_size = size_lem v in
      let twice : buf_size buf * 2 % u32_mod ≡ 2 * buf_size buf = omega arith in
      unfold dbuf_double in
      rw twice (_dbuf_resize-Resized c (2 * buf_size buf) law v (omega arith) small)

  -- The unread bytes are at the start of a valid buffer, whose size with the header is the least
  -- doubling of the first size that has room for `cap` bytes, or on a failure the former one.
  abbrev pub Fitted : Buf A → ℕ → Outcome A → Type ℓ
  Fitted buf cap out =
      (unread out.buf ≡ unread buf)
      × (out.buf.rpos ≡ 0)
      × IsValid out.buf
      × (((out.status ≡ ok) × Fits init (cap + buf_hdr_size) (out.buf.end + buf_hdr_size))
          ⊎ (((out.status ≡ error) ⊎ (out.status ≡ enomem)) × (out.buf.end ≡ buf.end)))

  Fitted-Resized :
      {buf : Buf A} (cap nsize : ℕ) (out : Outcome A)
      → IsValid buf
      → buf.rpos ≡ 0
      → Fits init (cap + buf_hdr_size) nsize
      → Resized buf nsize out
      → Fitted buf cap out
  Fitted-Resized {buf} cap nsize out v z fits (inl (e, size, same, pos, v')) =
      (same, pos ∙ z, v', inl (e, subst (Fits init (cap + buf_hdr_size)) (sym size) fits))
  Fitted-Resized {buf} cap nsize out v z fits (inr (e, same)) = (
    ap unread same,
    ap (λ b. b.rpos) same ∙ z,
    subst IsValid (sym same) v,
    inr (e, ap (λ b. b.end) same),
  )

  Fitted-trans :
      (buf buf' : Buf A) (cap : ℕ) (out : Outcome A)
      → unread buf' ≡ unread buf
      → buf'.end ≡ buf.end
      → Fitted buf' cap out
      → Fitted buf cap out
  Fitted-trans buf buf' cap out kept same (text, z, v, inl x) = (text ∙ kept, z, v, inl x)
  Fitted-trans buf buf' cap out kept same (text, z, v, inr (e, size)) =
      (text ∙ kept, z, v, inr (e, size ∙ same))

  -- The end of `dbuf_fit` and `dbuf_shrink`.
  adjust-Fitted :
      {buf : Buf A} (c : Counters) (cap nsize : ℕ) (done failed : DbufMetrics → DbufMetrics)
      → Reallocs realloc
      → IsValid buf
      → buf.rpos ≡ 0
      → buf.wpos ≤ cap
      → nsize < u32_mod
      → Fits init (cap + buf_hdr_size) nsize
      → (out : Outcome A) × ((if not (nsize == buf_size buf)
            then some (count_outcome done failed (_dbuf_resize realloc init max_size buf c nsize))
            else some (record { status = ok; buf = buf; counters = c }))
          ≡ some out)
        × Fitted buf cap out
  adjust-Fitted {buf} c cap nsize done failed law v z room small fits =
      elim (ℕ_discrete nsize (buf_size buf)) [
        | yes e ↦
            let size : nsize ≡ buf.end + buf_hdr_size = e ∙ size_lem v in
            (
              record { status = ok; buf = buf; counters = c },
              rw (eq→== nsize (buf_size buf) e),
              (refl, z, v, inl (refl, subst (Fits init (cap + buf_hdr_size)) size fits)),
            )
        | no ne ↦
            let enough = fits.enough in
            let out = _dbuf_resize realloc init max_size buf c nsize in
            (
              count_outcome done failed out,
              rw (ne→== nsize (buf_size buf) ne),
              Fitted-Resized cap nsize out v z fits
                  (_dbuf_resize-Resized c nsize law v (omega arith) small),
            )
      ]

  -- The unread bytes moved to the start, and the size that the loop finds.
  fit_size_found :
      (cap : ℕ)
      → 0 < init
      → init < u32_mod
      → cap + buf_hdr_size ≤ 2 ^ 31
      → Finds 33 init (cap + buf_hdr_size)
  fit_size_found cap some_init small target =
      fit_size-Finds 32 init (cap + buf_hdr_size) some_init small target (omega arith)

  fit_run :
      (buf buf' : Buf A) (c : Counters) (cap nsize : ℕ) (out : Outcome A)
      → buf_rsize buf ≤ cap
      → buf_lshift buf ≡ some buf'
      → fit_size 33 init (cap + buf_hdr_size) ≡ some nsize
      → (if not (nsize == buf_size buf')
          then some (
              count_outcome
                (λ m. record m { dbuf_fit = incr m.dbuf_fit })
                (λ m. record m { dbuf_fit_ex = incr m.dbuf_fit_ex })
                (_dbuf_resize realloc init max_size buf' c nsize))
          else some (record { status = ok; buf = buf'; counters = c }))
        ≡ some out
      → dbuf_fit realloc init max_size 33 buf c cap ≡ some out
  unfolding dbuf_fit
  fit_run buf buf' c cap nsize out fine run found end =
      rw (le→ltb cap (buf_rsize buf) fine, run, found) end

  shrink_run :
      (buf buf' : Buf A) (c : Counters) (nsize : ℕ) (out : Outcome A)
      → buf_lshift buf ≡ some buf'
      → fit_size 33 init (buf_rsize buf + buf_hdr_size) ≡ some nsize
      → (if not (nsize == buf_size buf')
          then some (
              count_outcome
                (λ m. record m { dbuf_shrink = incr m.dbuf_shrink })
                (λ m. record m { dbuf_shrink_ex = incr m.dbuf_shrink_ex })
                (_dbuf_resize realloc init max_size buf' c nsize))
          else some (record { status = ok; buf = buf'; counters = c }))
        ≡ some out
      → dbuf_shrink realloc init max_size 33 buf c ≡ some out
  unfolding dbuf_shrink
  shrink_run buf buf' c nsize out run found end = rw (run, found) end

  -- `dbuf_fit` of a valid buffer to a capacity of at most 2^31 less the header, over a `realloc` as
  -- documented and with a first size that is not 0 and is below 2^32, ends within 33 rounds of its
  -- loop. It refuses a capacity that the unread bytes exceed, and leaves the buffer alone. Otherwise it keeps
  -- the unread bytes, moves them to the start, and gives the buffer the least doubling of the first
  -- size that has room for the capacity, or fails and leaves the size as it was.
  pub dbuf_fit-Fitted :
      {buf : Buf A} (c : Counters) (cap : ℕ)
      → Reallocs realloc
      → IsValid buf
      → 0 < init
      → init < u32_mod
      → cap + buf_hdr_size ≤ 2 ^ 31
      → (out : Outcome A) × (dbuf_fit realloc init max_size 33 buf c cap ≡ some out)
        × (((cap < length (unread buf)) × (out.status ≡ error) × (out.buf ≡ buf))
            ⊎ ((length (unread buf) ≤ cap) × Fitted buf cap out))
  dbuf_fit-Fitted {buf} c cap law v some_init small target =
      let size : buf_rsize buf ≡ buf.wpos - buf.rpos = rsize_lem v in
      let len : length (unread buf) ≡ buf.wpos - buf.rpos =
        length-slice buf.bytes buf.rpos (buf.wpos - buf.rpos) (omega arith) in
      elim (dec_lt cap (buf_rsize buf)) [
        | yes more ↦ (
          record { status = error; buf = buf; counters = c },
          unfold dbuf_fit in rw (lt→ltb cap (buf_rsize buf) more),
          inl (omega arith, refl, refl),
        )
        | no fine ↦
            let (buf', run, kept, z, v', same) = buf_lshift_lem v in
            let (nsize, found, fits, below) = fit_size_found cap some_init small target in
            let len' : length (unread buf') ≡ buf'.wpos - buf'.rpos =
              length-slice buf'.bytes buf'.rpos (buf'.wpos - buf'.rpos) (omega arith) in
            let total : length (unread buf') ≡ length (unread buf) = ap length kept in
            let (out, end, fitted) =
              adjust-Fitted c cap nsize (λ m. record m { dbuf_fit = incr m.dbuf_fit })
                (λ m. record m { dbuf_fit_ex = incr m.dbuf_fit_ex }) law v' z (omega arith) below
                fits in
            (
              out,
              fit_run buf buf' c cap nsize out (omega arith) run found end,
              inr (omega arith, Fitted-trans buf buf' cap out kept same fitted),
            )
      ]

  -- `dbuf_shrink` of a buffer with at most 2^31 unread bytes, the header counted, with 33 rounds of its
  -- loop, ends. It keeps the unread bytes, moves them to the start, and gives the buffer the least
  -- doubling of the first size that has room for them, or fails and leaves the size as it was.
  dbuf_shrink-Fitted :
      {buf : Buf A} (c : Counters)
      → Reallocs realloc
      → IsValid buf
      → 0 < init
      → init < u32_mod
      → length (unread buf) + buf_hdr_size ≤ 2 ^ 31
      → (out : Outcome A) × (dbuf_shrink realloc init max_size 33 buf c ≡ some out)
        × Fitted buf (length (unread buf)) out
  dbuf_shrink-Fitted {buf} c law v some_init small target =
      let cap = length (unread buf) in
      let len : cap ≡ buf.wpos - buf.rpos =
        length-slice buf.bytes buf.rpos (buf.wpos - buf.rpos) (omega arith) in
      let size : buf_rsize buf ≡ cap = rsize_lem v ∙ sym len in
      let (buf', run, kept, z, v', same) = buf_lshift_lem v in
      let (nsize, found, fits, below) = fit_size_found cap some_init small target in
      let len' : length (unread buf') ≡ buf'.wpos - buf'.rpos =
        length-slice buf'.bytes buf'.rpos (buf'.wpos - buf'.rpos) (omega arith) in
      let total : length (unread buf') ≡ cap = ap length kept in
      let (out, end, fitted) =
        adjust-Fitted c cap nsize (λ m. record m { dbuf_shrink = incr m.dbuf_shrink })
          (λ m. record m { dbuf_shrink_ex = incr m.dbuf_shrink_ex }) law v' z (omega arith) below
          fits in
      (
        out,
        shrink_run buf buf' c nsize out run
            (ap (λ n. fit_size 33 init (n + buf_hdr_size)) size ∙ found) end,
        Fitted-trans buf buf' cap out kept same fitted,
      )
