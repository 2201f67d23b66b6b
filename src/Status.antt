-- ===== src/Status.antt =====
-- The return codes of include/cc_define.h.
use ccommon.Prelude.{Bool, true, false, ◌≡◌, ◌≢◌, refl, ap, arith}

-- `rstatus_i`.
pub data Status : Type 0 where
  ok error eagain eretry enomem eempty erdhup einval unfin : Status

-- `status == CC_OK`.
abbrev pub is_ok : Status → Bool
is_ok ok = true
is_ok s = false

pub is_ok-true : (s : Status) → is_ok s ≡ true → s ≡ ok
is_ok-true ok h = refl
is_ok-true s h = ground arith

pub is_ok-false : (s : Status) → is_ok s ≡ false → s ≢ ok
is_ok-false s h e = ground (arith, h, ap is_ok e)
