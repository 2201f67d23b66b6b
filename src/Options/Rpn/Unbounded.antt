-- ===== src/Options/Rpn/Unbounded.antt =====
-- The conversion and the evaluation as in Options/Rpn, with an output and stacks of any length in place
-- of the arrays. No code is modelled here: Options/Rpn/Arrays compares the two.
use ccommon.Prelude.{ℕ, List, [], ◌∷◌, ◌++◌, if◌then◌else◌, ◌==◌, ◌||◌}
use ccommon.Options.Rpn.{
  Attempt, failed, done, ◌>>=◌, is_digit, is_operator, pop_higher, pop_to_paren, tokens_from, atoll,
  operate, only, apply_operator,
}

abbrev pub close_free : List ℕ → List ℕ × List ℕ → Attempt (List ℕ × List ℕ)
close_free rpn (text, []) = failed
close_free rpn (text, p ∷ stack) = done (stack, rpn ++ text)

unfoldable pub read_free : ℕ → List ℕ × List ℕ → Attempt (List ℕ × List ℕ)
unfolding pop_higher pop_to_paren
read_free c (stack, rpn) =
    if is_digit c
    then done (stack, rpn ++ c ∷ [])
    else if is_operator c
    then done (c ∷ (pop_higher stack c).1, rpn ++ b' ' ∷ (pop_higher stack c).0)
    else if c == b'('
    then done (c ∷ stack, rpn)
    else if c == b')'
    then close_free rpn (pop_to_paren stack)
    else if c == b' ' || c == 9
    then done (stack, rpn)
    else failed

unfoldable pub reads_free : List ℕ → List ℕ × List ℕ → Attempt (List ℕ × List ℕ)
unfolding read_free
reads_free [] s = done s
reads_free (c ∷ cs) s = do s' ← read_free c s; reads_free cs s'

unfoldable pub pop_all_free : List ℕ → List ℕ → Attempt (List ℕ)
pop_all_free [] rpn = done rpn
pop_all_free (o ∷ stack) rpn =
    let rest = pop_all_free stack (rpn ++ b' ' ∷ o ∷ []) in if o == b'(' then failed else rest

unfoldable pub convert_free : List ℕ → Attempt (List ℕ)
unfolding reads_free pop_all_free
convert_free val_str = do (stack, rpn) ← reads_free val_str ([], []); pop_all_free stack rpn

unfoldable pub eval_token_free : List ℕ → List ℕ → Attempt (List ℕ)
unfolding apply_operator
eval_token_free [] stack = done stack
eval_token_free (c ∷ cs) stack =
    if is_digit c then (do v ← atoll (c ∷ cs); done (v ∷ stack)) else operate c stack

unfoldable pub eval_tokens_free : List (List ℕ) → List ℕ → Attempt (List ℕ)
unfolding eval_token_free
eval_tokens_free [] stack = done stack
eval_tokens_free (t ∷ ts) stack = do stack' ← eval_token_free t stack; eval_tokens_free ts stack'

unfoldable pub eval_rpn_free : List ℕ → Attempt ℕ
unfolding tokens_from eval_tokens_free
eval_rpn_free rpn = eval_tokens_free (tokens_from [] rpn) [] >>= only

unfoldable pub eval_free : List ℕ → Attempt ℕ
unfolding convert_free eval_rpn_free
eval_free val_str = do rpn ← convert_free val_str; eval_rpn_free rpn
