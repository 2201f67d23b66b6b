-- ===== src/Options/Rpn.antt =====
-- Integer expressions in src/cc_option.c: conversion to reverse Polish notation and evaluation.
-- A text is the list of its bytes before the terminating NUL; a stack is a list from its top down. The
-- arrays `rpn`, `op_stack` and `stack` have OPTLINE_MAXLEN elements each; a write behind one of them
-- is undefined behaviour. What is written stays in place until the end of a step, where its length is
-- compared with the array.
pub mod Grammar
pub mod Unbounded
pub mod Convert
pub mod Tokens
pub mod Evaluate
pub mod Bounds
pub mod Arrays
pub mod Overrun
pub mod Faults
mod Tests
use ccommon.Prelude.{
  ℕ, zero, suc, ◌+◌, ◌-◌, ◌*◌, ◌/◌, ◌%◌, ◌^◌, List, [], ◌∷◌, ◌++◌, Bool, true, false, if◌then◌else◌,
  ltb, leb, ◌==◌, ◌&&◌, ◌||◌, not, length,
}
use ccommon.Prelude.Words.{u64_mod, add64, sub64, mul64}
use ccommon.Options.Line.{optline_maxlen}

-- What a step of the code leads to: undefined behaviour, `CC_ERROR`, or a result.
pub data Attempt {ℓ} (A : Type ℓ) : Type ℓ where
  undefined : Attempt A
  failed : Attempt A
  done : A → Attempt A

infixl 5 ◌>>=◌
abbrev pub ◌>>=◌ {ℓ κ} : {A : Type ℓ} {B : Type κ} → Attempt A → (A → Attempt B) → Attempt B
undefined >>= f = undefined
failed >>= f = failed
done a >>= f = f a

-- `isdigit` of the C library.
abbrev pub is_digit : ℕ → Bool
is_digit c = leb b'0' c && leb c b'9'

abbrev pub is_operator : ℕ → Bool
is_operator c = c == b'+' || (c == b'-' || (c == b'*' || c == b'/'))

-- `_option_comp_op_precedence`.
unfoldable pub _option_comp_op_precedence : ℕ → ℕ → Bool
_option_comp_op_precedence op1 op2 = (op1 == b'*' || op1 == b'/') && (op2 == b'+' || op2 == b'-')

-- The loop at an operator: what goes to the output, and the stack that is left.
unfoldable pub pop_higher : List ℕ → ℕ → List ℕ × List ℕ
unfolding _option_comp_op_precedence
pop_higher [] c = ([], [])
pop_higher (o ∷ stack) c =
    let rest = pop_higher stack c in
    if not (o == b'(') && _option_comp_op_precedence o c
    then (o ∷ rest.0, rest.1)
    else ([], o ∷ stack)

-- The loop at a closing parenthesis.
unfoldable pub pop_to_paren : List ℕ → List ℕ × List ℕ
pop_to_paren [] = ([], [])
pop_to_paren (o ∷ stack) =
    let rest = pop_to_paren stack in
    if o == b'(' then ([], o ∷ stack) else (b' ' ∷ o ∷ rest.0, rest.1)

-- What the arrays `rpn` and `op_stack` hold after a byte of the text, where that is the most that
-- the byte has led to.
abbrev pub within_arrays : List ℕ × List ℕ → Attempt (List ℕ × List ℕ)
within_arrays (stack, rpn) =
    if leb (length rpn) optline_maxlen && leb (length stack) optline_maxlen
    then done (stack, rpn)
    else undefined

-- A closing parenthesis removes the open one; if there is none, the parentheses do not match, which
-- shows when all operators have been put out.
abbrev pub close_paren : List ℕ → List ℕ × List ℕ → Attempt (List ℕ × List ℕ)
close_paren rpn (text, []) =
    if leb (length rpn + length text) optline_maxlen then failed else undefined
close_paren rpn (text, p ∷ stack) = done (stack, rpn ++ text)

-- The `switch` on one byte: the stack and the output after it.
unfoldable pub read_byte : ℕ → List ℕ × List ℕ → Attempt (List ℕ × List ℕ)
unfolding pop_higher pop_to_paren
read_byte c (stack, rpn) =
    if is_digit c
    then done (stack, rpn ++ c ∷ [])
    else if is_operator c
    then done (c ∷ (pop_higher stack c).1, rpn ++ b' ' ∷ (pop_higher stack c).0)
    else if c == b'('
    then done (c ∷ stack, rpn)
    else if c == b')'
    then close_paren rpn (pop_to_paren stack)
    else if c == b' ' || c == 9
    then done (stack, rpn)
    else failed

-- The loop over the text.
unfoldable pub read_bytes : List ℕ → List ℕ × List ℕ → Attempt (List ℕ × List ℕ)
unfolding read_byte
read_bytes [] s = done s
read_bytes (c ∷ cs) s = do s' ← read_byte c s; s'' ← within_arrays s'; read_bytes cs s''

-- The loop that empties the stack at the end, and the NUL behind the output.
unfoldable pub pop_all : List ℕ → List ℕ → Attempt (List ℕ)
pop_all [] rpn = if ltb (length rpn) optline_maxlen then done rpn else undefined
pop_all (o ∷ stack) rpn =
    let rest = pop_all stack (rpn ++ b' ' ∷ o ∷ []) in
    if o == b'(' then failed else if leb (length rpn + 2) optline_maxlen then rest else undefined

-- `_option_convert_rpn`.
unfoldable pub _option_convert_rpn : List ℕ → Attempt (List ℕ)
unfolding read_bytes pop_all
_option_convert_rpn val_str = do (stack, rpn) ← read_bytes val_str ([], []); pop_all stack rpn

abbrev pub flush_token : List ℕ → List (List ℕ) → List (List ℕ)
flush_token [] tokens = tokens
flush_token (c ∷ cs) tokens = (c ∷ cs) ∷ tokens

-- The tokens that `strtok` finds between spaces; `token` has been read of the first.
unfoldable pub tokens_from : List ℕ → List ℕ → List (List ℕ)
tokens_from token [] = flush_token token []
tokens_from token (c ∷ cs) =
    let next = tokens_from [] cs in
    let more = tokens_from (token ++ c ∷ []) cs in
    if c == b' ' then flush_token token next else more

-- `atoll`: the value of the digits at the start, which has to fit in a `long long`.
unfoldable pub leading_value : ℕ → List ℕ → ℕ
leading_value v [] = v
leading_value v (c ∷ cs) =
    let rest = leading_value (10 * v + (c - b'0')) cs in if is_digit c then rest else v

unfoldable pub atoll : List ℕ → Attempt ℕ
unfolding leading_value
atoll token =
    if ltb (leading_value 0 token) (2 ^ 63) then done (leading_value 0 token) else undefined

-- The `switch` on an operator, with its tests for overflow on the `uintmax_t` result.
unfoldable pub apply_operator : ℕ → ℕ → ℕ → Attempt ℕ
apply_operator c first second =
    if c == b'+'
    then (if ltb (add64 first second) first then failed else done (add64 first second))
    else if c == b'-'
    then (if ltb first (sub64 first second) then failed else done (sub64 first second))
    else if c == b'*'
    then (if not (first == 0) && not (mul64 first second / first == second)
        then failed
        else done (mul64 first second))
    else if c == b'/'
    then (if second == 0 then failed else done (first / second))
    else done 0

-- An operator takes two operands.
abbrev pub operate : ℕ → List ℕ → Attempt (List ℕ)
operate c [] = failed
operate c (second ∷ []) = failed
operate c (second ∷ first ∷ stack) = do
  result ← apply_operator c first second
  done (result ∷ stack)

-- A number on the stack.
abbrev pub push : ℕ → List ℕ → Attempt (List ℕ)
push v stack = if ltb (length stack) optline_maxlen then done (v ∷ stack) else undefined

-- One token: a number, or an operator, which leaves fewer values than it has found. `strtok` gives no
-- empty token.
unfoldable pub eval_token : List ℕ → List ℕ → Attempt (List ℕ)
unfolding apply_operator
eval_token [] stack = done stack
eval_token (c ∷ cs) stack =
    if is_digit c then (do v ← atoll (c ∷ cs); push v stack) else operate c stack

unfoldable pub eval_tokens : List (List ℕ) → List ℕ → Attempt (List ℕ)
unfolding eval_token
eval_tokens [] stack = done stack
eval_tokens (t ∷ ts) stack = do stack' ← eval_token t stack; eval_tokens ts stack'

-- The stack has to hold one value.
abbrev pub only : List ℕ → Attempt ℕ
only [] = failed
only (v ∷ []) = done v
only (v ∷ w ∷ stack) = failed

-- `_option_eval_rpn`.
unfoldable pub _option_eval_rpn : List ℕ → Attempt ℕ
unfolding tokens_from eval_tokens
_option_eval_rpn rpn = eval_tokens (tokens_from [] rpn) [] >>= only

-- `_option_eval_int_expr`.
unfoldable pub _option_eval_int_expr : List ℕ → Attempt ℕ
unfolding _option_convert_rpn _option_eval_rpn
_option_eval_int_expr val_str = do rpn ← _option_convert_rpn val_str; _option_eval_rpn rpn
