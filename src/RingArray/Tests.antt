-- ===== src/RingArray/Tests.antt =====
-- Runs of the ring array on concrete inputs, and its theorems at them.
use ccommon.Prelude.{
  ℕ, List, [], ◌∷◌, Option, some, true, false, ◌≡◌, refl, arith, length, replicate,
  length-replicate, eq_of_some, ◌∙◌, ap, sym,
}
use ccommon.Status.{ok, error}
use ccommon.RingArray.Queue.{Call, push, pop, flush, Reply, put, get}
use ccommon.RingArray.Queue
use ccommon.Prelude.Memory.{store, load, slice, overwrite}
use ccommon.Window.{window}
use ccommon.RingArray.{RingArray, ring_array_push, ring_array_pop, ring_array_flush, run}
use ccommon.RingArray.Inv.{IsValid, contents}
use ccommon.RingArray.Refine.{run_refines}
use ccommon.RingArray.Create.{Allocates}

-- 8 and 9, round the end of an array of four cells.
abbrev wrapped : RingArray ℕ
wrapped = record { elem_size = 4; cap = 3; rpos = 3; wpos = 1; cells = 9 ∷ 0 ∷ 7 ∷ 8 ∷ [] }

abbrev script : List (Call ℕ)
script = push 1 ∷ push 2 ∷ pop true ∷ pop false ∷ pop true ∷ pop true ∷ flush ∷ []

wrapped-IsValid : IsValid wrapped
wrapped-IsValid = omega arith

contents-wrapped : contents wrapped ≡ 8 ∷ 9 ∷ []
unfolding window slice
contents-wrapped = refl

run-wrapped :
    run wrapped script
    ≡ some (
        (ok, [])
        ∷ (error, [])
        ∷ (ok, 8 ∷ [])
        ∷ (ok, [])
        ∷ (ok, 1 ∷ [])
        ∷ (error, [])
        ∷ (ok, [])
        ∷ [])
unfolding run ring_array_push ring_array_pop ring_array_flush store load slice overwrite
run-wrapped = refl

run_refines_example : run wrapped script ≡ some (Queue.run 3 (contents wrapped) script)
run_refines_example = run_refines script wrapped-IsValid

abbrev zeroed : ℕ → Option (List ℕ)
zeroed n = some (replicate n 0)

zeroed-Allocates : Allocates zeroed
zeroed-Allocates n cells e = ap length (sym (eq_of_some e)) ∙ length-replicate n 0
