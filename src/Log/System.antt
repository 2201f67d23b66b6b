-- ===== src/Log/System.antt =====
-- The system calls that src/cc_log.c makes, and what it relies on of `write`.
use ccommon.Prelude.{ℕ, ◌≤◌, List, ◌++◌, ◌≡◌, ◌⊎◌, length, take}
use ccommon.Prelude.Int.{ℤ, pos, negsuc}

-- The calls, over the states `W` of the system. `open` is told whether to append or to truncate.
-- `cannot_flush` is the text that the C library formats for a logger whose descriptor is negative.
pub record Sys {ℓ} (W : Type ℓ) : Type ℓ where
  pub write : W → ℤ → List ℕ → ℤ × W
  pub open_append : W → List ℕ → ℤ × W
  pub open_truncate : W → List ℕ → ℤ × W
  pub close : W → ℤ → W
  pub rename : W → List ℕ → List ℕ → ℤ × W
  pub cannot_flush : List ℕ

-- `write` writes some bytes from the start of the buffer to the file and returns their number, or
-- writes nothing and returns -1. A negative number is no descriptor: nothing is written behind it.
pub record Posix {ℓ} {W : Type ℓ} (sys : Sys W) (file : W → ℤ → List ℕ) : Type ℓ where
  pub written :
      (w : W) (fd : ℤ) (bytes : List ℕ)
      → let (ret, w') = sys.write w fd bytes in
        ((n : ℕ) × (ret ≡ pos n) × (n ≤ length bytes) × (file w' fd ≡ file w fd ++ take n bytes))
        ⊎ ((ret ≡ negsuc 0) × (file w' fd ≡ file w fd))
  pub closed :
      (w : W) (fd : ℤ) (bytes : List ℕ) (n : ℕ)
      → file (sys.write w fd bytes).1 (negsuc n) ≡ file w (negsuc n)
