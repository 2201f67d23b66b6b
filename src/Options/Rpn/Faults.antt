-- ===== src/Options/Rpn/Faults.antt =====
-- Expressions in which a multiplication or division comes before an addition or subtraction.
use ccommon.Prelude.{ℕ, ◌≡◌, ap, List, []}
use ccommon.Options.Rpn.{Attempt, undefined, done, failed, ◌>>=◌}
use ccommon.Options.Rpn.Unbounded.{pop_all_free, convert_free, eval_rpn_free, eval_free}
use ccommon.Options.Rpn.Convert.{reads_free-blanks, without_blanks}

abbrev IsDefined : Attempt ℕ → Type 0
IsDefined undefined = ⊥
IsDefined failed = Unit
IsDefined (done v) = Unit

-- Spaces and tabs have no meaning for the result, even between two digits of a number.
eval_free-blanks : (str : List ℕ) → eval_free str ≡ eval_free (without_blanks str)
unfolding eval_free convert_free
eval_free-blanks str =
    ap (λ r. (r >>= λ s. pop_all_free s.0 s.1) >>= eval_rpn_free) (reads_free-blanks str ([], []))
