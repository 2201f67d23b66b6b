-- ===== src/Buf/Tests.antt =====
-- Runs of the buffers on concrete inputs, and their theorems at them.
use ccommon.Prelude.{ℕ, List, [], ◌∷◌, ◌++◌, some, ◌≡◌, refl, arith, length, min, take, drop, false}
use ccommon.Prelude.Memory.{load, store, slice, overwrite}
use ccommon.Buf.{Buf, buf_read, buf_write, buf_rshift, buf_rsize, buf_wsize, move_unread}
use ccommon.Buf.Inv.{IsValid, unread}
use ccommon.Buf.Ops.{buf_read_lem, buf_write_lem}

-- 7 and 8 in the middle of five bytes.
abbrev middle : Buf ℕ
middle = record { rpos = 1; wpos = 3; end = 5; free = false; bytes = 0 ∷ 7 ∷ 8 ∷ 0 ∷ 0 ∷ [] }

middle-IsValid : IsValid middle
middle-IsValid = omega arith

buf_write_run :
    buf_write middle (9 ∷ 4 ∷ 6 ∷ [])
    ≡ some (2, record middle { wpos = 5; bytes = 0 ∷ 7 ∷ 8 ∷ 9 ∷ 4 ∷ [] })
unfolding buf_write buf_wsize store overwrite
buf_write_run = refl

buf_rshift_run :
    buf_rshift middle ≡ some (record middle { rpos = 3; wpos = 5; bytes = 0 ∷ 7 ∷ 8 ∷ 7 ∷ 8 ∷ [] })
unfolding buf_rshift buf_rsize move_unread load slice store overwrite
buf_rshift_run = refl

buf_read_lem_example :
    (buf' : Buf ℕ) × (buf_read middle 1
      ≡ some (min (length (unread middle)) 1, take 1 (unread middle), buf'))
    × (unread buf' ≡ drop 1 (unread middle))
    × IsValid buf'
    × (buf'.end ≡ middle.end)
buf_read_lem_example = buf_read_lem 1 middle-IsValid

abbrev three : List ℕ
three = 9 ∷ 4 ∷ 6 ∷ []

buf_write_lem_example :
    (buf' : Buf ℕ) × (buf_write middle three ≡ some (min 2 (length three), buf'))
    × (unread buf' ≡ unread middle ++ take 2 three)
    × IsValid buf'
    × (buf'.end ≡ middle.end)
buf_write_lem_example = buf_write_lem three middle-IsValid
