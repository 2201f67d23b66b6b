-- ===== src/Options/Rpn/Tests.antt =====
-- Runs on concrete texts.
use ccommon.Prelude.{ℕ, List, [], ◌∷◌, ◌≡◌, refl, arith}
use ccommon.Options.Rpn.Overrun.{pluses, _option_eval_int_expr-overrun}
use ccommon.Options.Rpn.{undefined, done, failed, _option_eval_int_expr, atoll}
use ccommon.Options.Rpn.Grammar.{add, mul, number, paren, Chain, last, more, text, value}
use ccommon.Options.Rpn.Evaluate.{_option_eval_int_expr-text, attempt}

-- (1 + 2) * 3
grouped_run :
    _option_eval_int_expr
      (b'(' ∷ b'1' ∷ b' ' ∷ b'+' ∷ b' ' ∷ b'2' ∷ b')' ∷ b' ' ∷ b'*' ∷ b' ' ∷ b'3' ∷ [])
    ≡ done 9
unfolding _option_eval_int_expr atoll
grouped_run = refl

-- 8-3-2
right_run : _option_eval_int_expr (b'8' ∷ b'-' ∷ b'3' ∷ b'-' ∷ b'2' ∷ []) ≡ done 7
unfolding _option_eval_int_expr atoll
right_run = refl

-- 4*2+1
falling_run : _option_eval_int_expr (b'4' ∷ b'*' ∷ b'2' ∷ b'+' ∷ b'1' ∷ []) ≡ failed
unfolding _option_eval_int_expr atoll
falling_run = refl

-- "1 2" is twelve.
joined_run : _option_eval_int_expr (b'1' ∷ b' ' ∷ b'2' ∷ []) ≡ done 12
unfolding _option_eval_int_expr atoll
joined_run = refl

-- (7+2)*3
abbrev grouped : Chain
grouped =
    more (paren (more (number (b'7' ∷ [])) add (last (number (b'2' ∷ []))))) mul
      (last (number (b'3' ∷ [])))

_option_eval_int_expr-text_example : _option_eval_int_expr (text grouped) ≡ attempt (value grouped)
_option_eval_int_expr-text_example =
    _option_eval_int_expr-text grouped
      (
        (
          ((omega arith, omega arith, tt), omega arith, omega arith),
          ((omega arith, omega arith, tt), omega arith, omega arith),
          tt,
        ),
        ((omega arith, omega arith, tt), omega arith, omega arith),
        tt,
      )
      (omega arith)

-- 8-3-2
abbrev minuses : List ℕ
minuses = b'8' ∷ b'-' ∷ b'3' ∷ b'-' ∷ b'2' ∷ []

-- 8 3 2 - -
abbrev minuses_rpn : List ℕ
minuses_rpn = b'8' ∷ b' ' ∷ b'3' ∷ b' ' ∷ b'2' ∷ b' ' ∷ b'-' ∷ b' ' ∷ b'-' ∷ []

pluses_run : _option_eval_int_expr (pluses 400) ≡ undefined
pluses_run = _option_eval_int_expr-overrun 400 (omega arith) (omega arith)
