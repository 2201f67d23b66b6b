-- ===== src/Rbuf/Life.antt =====
-- Creation and destruction of a ring buffer, and the gauges that count them.
use ccommon.Prelude.{
  ℕ, ◌+◌, ◌-◌, ◌<◌, List, [], Option, none, some, ◌≡◌, refl, arith, length, ◌∙◌, ◌⊎◌, Option-cases,
  inl, inr,
}
use ccommon.Prelude.Words.{u32_mod, u64_mod, add64}
use ccommon.Prelude.Memory.{slice_at, slice-zero}
use ccommon.Window.{window-flat}
use ccommon.Metric.{gauge, incr_n, decr_n}
use ccommon.Metric.Laws.{decr_n-incr_n}
use ccommon.Rbuf.{Rbuf, RbufMetrics, rbuf_create, rbuf_destroy, rbuf_hdr_size}
use ccommon.Rbuf.Inv.{IsValid, contents}

-- The gauges have their type, and their values fit in 64 bits.
pub record AreGauges (m : RbufMetrics) : Type 0 where
  pub curr : m.rbuf_curr.type ≡ gauge
  pub byte : m.rbuf_byte.type ≡ gauge
  pub curr_bits : m.rbuf_curr.bits < u64_mod
  pub byte_bits : m.rbuf_byte.bits < u64_mod

module _ {ℓ} {A : Type ℓ} where
  -- An allocator that returns the bytes behind the header of a block of the size asked for.
  abbrev pub Allocates : (ℕ → Option (List A)) → Type ℓ
  Allocates alloc =
      (n : ℕ) (bytes : List A) → alloc n ≡ some bytes → length bytes + rbuf_hdr_size ≡ n

  -- A ring buffer is created exactly when its allocation succeeds. With an allocator that returns a
  -- block of the size asked for, and a capacity below 2^32 - 1, it is then valid, empty and of the
  -- capacity asked for.
  pub rbuf_create_lem :
      (alloc : ℕ → Option (List A)) (cap : ℕ) (metrics : Option RbufMetrics)
      → Allocates alloc
      → cap + 1 < u32_mod
      → ((buf : Rbuf A) × ((rbuf_create alloc cap metrics).0 ≡ some buf)
          × IsValid buf
          × (contents buf ≡ [])
          × (buf.cap ≡ cap))
        ⊎ ((alloc (rbuf_hdr_size + cap + 1) ≡ none) × ((rbuf_create alloc cap metrics).0 ≡ none))
  unfolding rbuf_create
  rbuf_create_lem alloc cap metrics law h =
      let e : add64 (add64 rbuf_hdr_size cap) 1 ≡ rbuf_hdr_size + cap + 1 = omega arith in
      elim (Option-cases (alloc (rbuf_hdr_size + cap + 1))) [
        | inl out ↦ inr (out, rw (e, out, rbuf_create))
        | inr (bytes, got) ↦ inl (
          record { rpos = 0; wpos = 0; cap = cap; bytes = bytes },
          rw (e, got, rbuf_create),
          omega (arith, law (rbuf_hdr_size + cap + 1) bytes got),
          window-flat bytes (cap + 1) 0 0 (omega arith)
              ∙ slice_at bytes 0 (0 - 0) 0 (omega arith)
              ∙ slice-zero bytes 0,
          refl,
        )
      ]

  -- Creating a ring buffer and destroying it leaves the gauges of live buffers and of allocated
  -- bytes as they were, whether the creation succeeds or not.
  rbuf_destroy-create :
      (alloc : ℕ → Option (List A)) (cap : ℕ) (m : RbufMetrics)
      → AreGauges m
      → let (buf, m1) = rbuf_create alloc cap (some m) in
        (m2 : RbufMetrics) × (rbuf_destroy buf m1 ≡ (none, some m2))
        × (m2.rbuf_curr ≡ m.rbuf_curr)
        × (m2.rbuf_byte ≡ m.rbuf_byte)
  unfolding rbuf_create rbuf_destroy
  rbuf_destroy-create alloc cap m g =
      let size = add64 (add64 rbuf_hdr_size cap) 1 in
      elim (Option-cases (alloc size)) [
        | inl out ↦ (
          record m { rbuf_create_ex = incr_n m.rbuf_create_ex 1 },
          rw (out, rbuf_create),
          refl,
          refl,
        )
        | inr (bytes, got) ↦ (
          record m {
            rbuf_create = incr_n m.rbuf_create 1;
            rbuf_destroy = incr_n m.rbuf_destroy 1;
            rbuf_curr = decr_n (incr_n m.rbuf_curr 1) 1;
            rbuf_byte = decr_n (incr_n m.rbuf_byte size) size;
          },
          rw (got, rbuf_create),
          decr_n-incr_n m.rbuf_curr 1 g.curr_bits g.curr,
          decr_n-incr_n m.rbuf_byte size g.byte_bits g.byte,
        )
      ]
