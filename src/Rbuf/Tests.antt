-- ===== src/Rbuf/Tests.antt =====
-- Runs of the ring buffer on concrete inputs, and its theorems at them.
use ccommon.Prelude.{
  ℕ, List, [], ◌∷◌, Option, none, some, ◌≡◌, refl, arith, length, eq_of_some, ap, min, inl, ◌==◌,
  if◌then◌else◌, eq→==, ℕ_discrete,
}
use ccommon.Prelude.Memory.{store, load, slice, overwrite}
use ccommon.Metric.{gauge, counter}
use ccommon.Rbuf.{Rbuf, RbufMetrics, rbuf_read, rbuf_write, rbuf_wcap}
use ccommon.Rbuf.Inv.{IsValid}
use ccommon.Rbuf.Read.{Reads, rbuf_read-Reads}
use ccommon.Rbuf.Write.{Writes, rbuf_write-Writes}
use ccommon.Rbuf.Overrun.{rbuf_write-overrun}
use ccommon.Rbuf.Life.{Allocates}

-- 7, 8 and 9, round the end of an array of five bytes.
abbrev wrapped : Rbuf ℕ
wrapped = record { rpos = 3; wpos = 1; cap = 4; bytes = 9 ∷ 0 ∷ 0 ∷ 7 ∷ 8 ∷ [] }

abbrev fresh : Rbuf ℕ
fresh = record { rpos = 0; wpos = 0; cap = 2; bytes = 0 ∷ 0 ∷ 0 ∷ [] }

wrapped-IsValid : IsValid wrapped
wrapped-IsValid = omega arith

fresh-IsValid : IsValid fresh
fresh-IsValid = omega arith

read_wrapped_run : rbuf_read wrapped 7 ≡ some (3, 7 ∷ 8 ∷ 9 ∷ [], record wrapped { rpos = 1 })
unfolding rbuf_read load slice
read_wrapped_run = refl

write_wrapped_run :
    rbuf_write (record fresh { rpos = 2; wpos = 2 }) (5 ∷ 6 ∷ 7 ∷ [])
    ≡ some (2, record { rpos = 2; wpos = 1; cap = 2; bytes = 6 ∷ 0 ∷ 5 ∷ [] })
unfolding rbuf_write store overwrite
write_wrapped_run = refl

rbuf_read-Reads_example : Reads wrapped 2 (rbuf_read wrapped 2)
rbuf_read-Reads_example = rbuf_read-Reads 2 wrapped-IsValid (omega arith)

abbrev two : List ℕ
two = 5 ∷ 6 ∷ []

rbuf_write-Writes_example :
    Writes wrapped two (min (length two) (rbuf_wcap wrapped)) (rbuf_write wrapped two)
rbuf_write-Writes_example = rbuf_write-Writes two wrapped-IsValid (omega arith) (inl (omega arith))

abbrev seven : List ℕ
seven = 1 ∷ 2 ∷ 3 ∷ 4 ∷ 5 ∷ 6 ∷ 7 ∷ []

wcap-fresh : rbuf_wcap fresh ≡ 2
unfolding rbuf_wcap
wcap-fresh = refl

rbuf_write-overrun_example : rbuf_write fresh seven ≡ none
rbuf_write-overrun_example =
    rbuf_write-overrun seven fresh-IsValid refl (omega arith) (omega (arith, wcap-fresh))

-- An allocator that only knows the block that the example asks for.
abbrev fifteen : ℕ → Option (List ℕ)
fifteen n = if n == 15 then some (0 ∷ 0 ∷ 0 ∷ []) else none

fifteen-Allocates : Allocates fifteen
fifteen-Allocates n bytes e = elim (ℕ_discrete n 15) [
  | yes h ↦
      let e' : some (0 ∷ 0 ∷ 0 ∷ []) ≡ some bytes = rw (eq→== n 15 h) at e in
      omega (arith, ap length (eq_of_some e'))
  | no h ↦ absurd (ground arith)
]

abbrev zero_metrics : RbufMetrics
zero_metrics = record {
  rbuf_create = record { type = counter; bits = 0 };
  rbuf_create_ex = record { type = counter; bits = 0 };
  rbuf_destroy = record { type = counter; bits = 0 };
  rbuf_curr = record { type = gauge; bits = 0 };
  rbuf_byte = record { type = gauge; bits = 0 };
}
