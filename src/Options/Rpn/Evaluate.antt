-- ===== src/Options/Rpn/Evaluate.antt =====
-- The value of a text is that of the expression that it spells.
use native.Mathlib.Nat.{div-le_self, div-mul-le_self, mul-div_right}
use ccommon.Prelude.{
  ℕ, ◌*◌, ◌/◌, ◌^◌, ◌≤◌, ◌<◌, List, [], ◌∷◌, ◌++◌, Option, none, some, ◌≡◌, ◌≢◌, refl, ap, ◌∙◌,
  arith, ne→==, eq→==, lt→ltb, le→ltb, le→leb, length, dec_lt, ℕ_discrete, eq_of_some,
}
use ccommon.Prelude.Words.{u64_mod, mul64}
use ccommon.Print.Decimal.{AreDigits, value_from}
use ccommon.Options.Rpn.Arrays.{eval_same}
use ccommon.Options.Rpn.{
  _option_eval_int_expr, Attempt, done, failed, undefined, ◌>>=◌, apply_operator, only,
}
use ccommon.Options.Rpn.Unbounded.{eval_token_free, eval_tokens_free, eval_rpn_free, eval_free}
use ccommon.Options.Rpn.Grammar.{
  Op, add, sub, mul, div, Operand, number, paren, Chain, last, more, sign, text, apply, combine,
  operand_value, value, IsOperand, IsRising,
}
use ccommon.Options.Rpn.Convert.{convert_free-text}
use ccommon.Options.Rpn.Tokens.{operand_tokens, chain_tokens, tokens-rpn, atoll-digits}

-- No value is an error.
abbrev pub attempt : Option ℕ → Attempt ℕ
attempt none = failed
attempt (some v) = done v

wraps_small : (x y : ℕ) → x * y < u64_mod → mul64 x y ≡ x * y
wraps_small x y h = omega arith

mul_exact : (x y : ℕ) → 0 < x → x * y < u64_mod → mul64 x y / x ≡ y
mul_exact x y h k = let e : mul64 x y ≡ x * y = omega arith in ap (λ t. t / x) e ∙ mul-div_right y h

mul_wraps : (x y : ℕ) → 0 < x → u64_mod ≤ x * y → mul64 x y / x ≢ y
mul_wraps x y h k e =
    let low : mul64 x y < u64_mod = omega arith in
    let most : mul64 x y / x * x ≤ mul64 x y = div-mul-le_self (mul64 x y) x in
    let same : mul64 x y / x * x ≡ y * x = ap (λ t. t * x) e in omega arith

-- The tests of the code on the results that have wrapped round are exact.
apply_operator_lem :
    (op : Op) (x y : ℕ)
    → x < u64_mod
    → y < u64_mod
    → apply_operator (sign op) x y ≡ attempt (apply op x y)
unfolding apply_operator
apply_operator_lem add x y h k = ground arith
apply_operator_lem sub x y h k = ground arith
apply_operator_lem div x y h k = ground arith
apply_operator_lem mul x y h k = elim (ℕ_discrete x 0) [
  | yes z ↦
      let product : x * y ≡ 0 = ap (λ t. t * y) z ∙ omega arith in
      let wrapped : mul64 x y ≡ x * y = omega arith in
      rw (eq→== x 0 z, lt→ltb (x * y) u64_mod (omega arith)) (ap done wrapped)
  | no ne ↦ elim (dec_lt (x * y) u64_mod) [
    | yes small ↦
        rw
          (
            ne→== x 0 ne,
            eq→== (mul64 x y / x) y (mul_exact x y (omega arith) small),
            lt→ltb (x * y) u64_mod small,
          )
          (ap done (wraps_small x y small))
    | no big ↦ rw (
      ne→== x 0 ne,
      ne→== (mul64 x y / x) y (mul_wraps x y (omega arith) (omega arith)),
      le→ltb (x * y) u64_mod (omega arith),
    )
  ]
]

apply-lt : (op : Op) (x y v : ℕ) → x < u64_mod → y < u64_mod → apply op x y ≡ some v → v < u64_mod
apply-lt add x y v h k e = ground arith
apply-lt sub x y v h k e = ground arith
apply-lt mul x y v h k e = ground arith
apply-lt div x y v h k e = ground (arith, div-le_self x y)

combine-lt :
    (op : Op) (p q : Option ℕ) (v : ℕ)
    → ((x : ℕ) → p ≡ some x → x < u64_mod)
    → ((y : ℕ) → q ≡ some y → y < u64_mod)
    → combine op p q ≡ some v
    → v < u64_mod
combine-lt op none q v h k e = ground arith
combine-lt op (some x) none v h k e = ground arith
combine-lt op (some x) (some y) v h k e = apply-lt op x y v (h x refl) (k y refl) e

mutual
  operand_value-lt : (a : Operand) → IsOperand a → (v : ℕ) → operand_value a ≡ some v → v < u64_mod
  operand_value-lt (number ds) h v e = omega (arith, eq_of_some e, h.2)
  operand_value-lt (paren c) h v e = value-lt c h v e

  value-lt : (c : Chain) → IsRising c → (v : ℕ) → value c ≡ some v → v < u64_mod
  value-lt (last a) h v e = operand_value-lt a h v e
  value-lt (more a op c) h v e =
      combine-lt op (operand_value a) (value c) v (operand_value-lt a h.0) (value-lt c h.1) e

-- A value on top of the stack, or an error.
abbrev push_value : Option ℕ → List ℕ → Attempt (List ℕ)
push_value none stack = failed
push_value (some v) stack = done (v ∷ stack)

eval_tokens_free-append :
    (ts us : List (List ℕ)) (stack : List ℕ)
    → eval_tokens_free (ts ++ us) stack ≡ (eval_tokens_free ts stack >>= eval_tokens_free us)
unfolding eval_tokens_free
eval_tokens_free-append [] us stack = refl
eval_tokens_free-append (t ∷ ts) us stack =
    split (eval_token_free t stack) (eval_tokens_free-append ts us)
  where
    split :
        (r : Attempt (List ℕ))
        → ((s : List ℕ)
            → eval_tokens_free (ts ++ us) s ≡ (eval_tokens_free ts s >>= eval_tokens_free us))
        → (r >>= eval_tokens_free (ts ++ us))
          ≡ ((r >>= eval_tokens_free ts) >>= eval_tokens_free us)
    split undefined ih = refl
    split failed ih = refl
    split (done s) ih = ih s

one_token : (t stack : List ℕ) → eval_tokens_free (t ∷ []) stack ≡ eval_token_free t stack
unfolding eval_tokens_free
one_token t stack = split (eval_token_free t stack)
  where
    split : (r : Attempt (List ℕ)) → (r >>= eval_tokens_free []) ≡ r
    split undefined = refl
    split failed = refl
    split (done s) = refl

pub eval_number :
    (ds stack : List ℕ)
    → AreDigits ds
    → 0 < length ds
    → value_from 0 ds < 2 ^ 63
    → eval_token_free ds stack ≡ done (value_from 0 ds ∷ stack)
unfolding eval_token_free
eval_number [] stack h k small = absurd (omega arith)
eval_number (d ∷ ds) stack h k small =
    rw (le→leb b'0' d h.0, le→leb d b'9' h.1, atoll-digits (d ∷ ds) h small)

eval_sign :
    (op : Op) (stack : List ℕ) (x y : ℕ)
    → x < u64_mod
    → y < u64_mod
    → eval_token_free (sign op ∷ []) (y ∷ x ∷ stack) ≡ push_value (apply op x y) stack
unfolding eval_token_free
eval_sign op stack x y h k =
    sign_operates op ∙ pushes (apply op x y) (apply_operator_lem op x y h k)
  where
    sign_operates :
        (op : Op)
        → eval_token_free (sign op ∷ []) (y ∷ x ∷ stack)
          ≡ (apply_operator (sign op) x y >>= λ r. done (r ∷ stack))
    sign_operates add = refl
    sign_operates sub = refl
    sign_operates mul = refl
    sign_operates div = refl

    pushes :
        (r : Option ℕ)
        → apply_operator (sign op) x y ≡ attempt r
        → (apply_operator (sign op) x y >>= λ v. done (v ∷ stack)) ≡ push_value r stack
    pushes none e = rw e
    pushes (some v) e = rw e

-- Operand, rest of the chain, and operator, whatever the first two lead to.
eval_combined :
    (op : Op) (stack : List ℕ) (ts us : List (List ℕ)) (p q : Option ℕ)
    → eval_tokens_free ts stack ≡ push_value p stack
    → ((x : ℕ) → eval_tokens_free us (x ∷ stack) ≡ push_value q (x ∷ stack))
    → ((x : ℕ) → p ≡ some x → x < u64_mod)
    → ((y : ℕ) → q ≡ some y → y < u64_mod)
    → eval_tokens_free (ts ++ (us ++ (sign op ∷ []) ∷ [])) stack ≡ push_value (combine op p q) stack
eval_combined op stack ts us none q e f h k =
    eval_tokens_free-append ts (us ++ (sign op ∷ []) ∷ []) stack ∙ rw e
eval_combined op stack ts us (some x) none e f h k =
    eval_tokens_free-append ts (us ++ (sign op ∷ []) ∷ []) stack
    ∙ rw e (eval_tokens_free-append us ((sign op ∷ []) ∷ []) (x ∷ stack) ∙ rw (f x))
eval_combined op stack ts us (some x) (some y) e f h k =
    eval_tokens_free-append ts (us ++ (sign op ∷ []) ∷ []) stack
    ∙ rw e (
        eval_tokens_free-append us ((sign op ∷ []) ∷ []) (x ∷ stack)
        ∙ rw (f x) (
            one_token (sign op ∷ []) (y ∷ x ∷ stack)
            ∙ eval_sign op stack x y (h x refl) (k y refl)))

mutual
  eval_operand :
      (a : Operand) (stack : List ℕ)
      → IsOperand a
      → eval_tokens_free (operand_tokens a) stack ≡ push_value (operand_value a) stack
  eval_operand (number ds) stack h = one_token ds stack ∙ eval_number ds stack h.0 h.1 h.2
  eval_operand (paren c) stack h = eval_chain c stack h

  eval_chain :
      (c : Chain) (stack : List ℕ)
      → IsRising c
      → eval_tokens_free (chain_tokens c) stack ≡ push_value (value c) stack
  eval_chain (last a) stack h = eval_operand a stack h
  eval_chain (more a op c) stack h =
      eval_combined op stack (operand_tokens a) (chain_tokens c) (operand_value a) (value c)
        (eval_operand a stack h.0) (λ x. eval_chain c (x ∷ stack) h.1) (operand_value-lt a h.0)
        (value-lt c h.1)

eval_free-text : (c : Chain) → IsRising c → eval_free (text c) ≡ attempt (value c)
unfolding eval_free eval_rpn_free
eval_free-text c h =
    ap (λ r. r >>= eval_rpn_free) (convert_free-text c h)
    ∙ ap (λ ts. eval_tokens_free ts [] >>= only) (tokens-rpn c h)
    ∙ ap (λ r. r >>= only) (eval_chain c [] h)
    ∙ ended (value c)
  where
    ended : (r : Option ℕ) → (push_value r [] >>= only) ≡ attempt r
    ended none = refl
    ended (some v) = refl

-- The value that `_option_eval_int_expr` finds for the text of an expression, in which no operator of
-- higher precedence stands before one of lower, is the expression's with all operators associating
-- to the right; it fails exactly when that value does not exist: a sum or a product of 2^64 or
-- more, a negative difference, or a division by zero. Numbers are below 2^63,
-- and the text has at most 341 bytes, for which the arrays of the code are large enough.
pub _option_eval_int_expr-text :
    (c : Chain)
    → IsRising c
    → length (text c) ≤ 341
    → _option_eval_int_expr (text c) ≡ attempt (value c)
_option_eval_int_expr-text c h short = eval_same (text c) short ∙ eval_free-text c h
