-- ===== src/Options/Rpn/Tokens.antt =====
-- The tokens of a postfix form.
use ccommon.Prelude.{
  ℕ, ◌+◌, ◌*◌, ◌-◌, ◌^◌, ◌<◌, List, [], ◌∷◌, ◌++◌, ◌≡◌, refl, Bool, true, false, sym, ap, ap₂, ◌∙◌,
  arith, if◌then◌else◌, ◌==◌, append-nil, append_assoc, ne→==, length, le→leb, lt→ltb,
}
use ccommon.Print.Decimal.{AreDigits, value_from}
use ccommon.Options.Rpn.{tokens_from, flush_token, leading_value, atoll, done}
use ccommon.Options.Rpn.Grammar.{
  Op, add, sub, mul, div, Operand, number, paren, Chain, last, more, sign, IsOperand, IsRising,
}
use ccommon.Options.Rpn.Convert.{operand_rpn, front, back, rpn}

abbrev mutual
  pub operand_tokens : Operand → List (List ℕ)
  operand_tokens (number ds) = ds ∷ []
  operand_tokens (paren c) = chain_tokens c

  pub chain_tokens : Chain → List (List ℕ)
  chain_tokens (last a) = operand_tokens a
  chain_tokens (more a op c) = operand_tokens a ++ (chain_tokens c ++ (sign op ∷ []) ∷ [])

flush-append :
    (token : List ℕ) (xs ys : List (List ℕ))
    → flush_token token xs ++ ys ≡ flush_token token (xs ++ ys)
flush-append [] xs ys = refl
flush-append (t ∷ ts) xs ys = refl

-- A space ends a token.
pub tokens-append :
    (token xs ys : List ℕ)
    → tokens_from token (xs ++ b' ' ∷ ys) ≡ tokens_from token xs ++ tokens_from [] ys
unfolding tokens_from
tokens-append token [] ys = sym (flush-append token [] (tokens_from [] ys))
tokens-append token (x ∷ xs) ys =
    split (x == b' ') (tokens-append [] xs ys) (tokens-append (token ++ x ∷ []) xs ys)
  where
    split :
        (b : Bool)
        → tokens_from [] (xs ++ b' ' ∷ ys) ≡ tokens_from [] xs ++ tokens_from [] ys
        → tokens_from (token ++ x ∷ []) (xs ++ b' ' ∷ ys)
          ≡ tokens_from (token ++ x ∷ []) xs ++ tokens_from [] ys
        → (if b
            then flush_token token (tokens_from [] (xs ++ b' ' ∷ ys))
            else tokens_from (token ++ x ∷ []) (xs ++ b' ' ∷ ys))
          ≡ (if b then flush_token token (tokens_from [] xs) else tokens_from (token ++ x ∷ []) xs)
            ++ tokens_from [] ys
    split true ended longer =
        ap (flush_token token) ended
        ∙ sym (flush-append token (tokens_from [] xs) (tokens_from [] ys))
    split false ended longer = longer

pub tokens-digits :
    (token ds : List ℕ) → AreDigits ds → tokens_from token ds ≡ flush_token (token ++ ds) []
unfolding tokens_from
tokens-digits token [] h = ap (λ t. flush_token t []) (sym (append-nil token))
tokens-digits token (d ∷ ds) h = rw (ne→== d b' ' (omega arith)) (
    tokens-digits (token ++ d ∷ []) ds h.2
    ∙ ap (λ t. flush_token t []) (append_assoc token (d ∷ []) ds))

pub tokens-sign : (op : Op) → tokens_from [] (sign op ∷ []) ≡ (sign op ∷ []) ∷ []
unfolding tokens_from
tokens-sign add = refl
tokens-sign sub = refl
tokens-sign mul = refl
tokens-sign div = refl

pub flush-one : (ds : List ℕ) → 0 < length ds → flush_token ds [] ≡ ds ∷ []
flush-one [] h = absurd (omega arith)
flush-one (d ∷ ds) h = refl

-- Operand, then the rest of the chain, then the operator.
regroup :
    (a : Operand) (op : Op) (c : Chain)
    → rpn (more a op c) ≡ operand_rpn a ++ b' ' ∷ (rpn c ++ b' ' ∷ sign op ∷ [])
regroup a op c =
    append_assoc (operand_rpn a) (b' ' ∷ front c) (back c ++ b' ' ∷ sign op ∷ [])
    ∙ ap (λ t. operand_rpn a ++ b' ' ∷ t)
        (sym (append_assoc (front c) (back c) (b' ' ∷ sign op ∷ [])))

mutual
  pub tokens-operand :
      (a : Operand) → IsOperand a → tokens_from [] (operand_rpn a) ≡ operand_tokens a
  tokens-operand (number ds) h = tokens-digits [] ds h.0 ∙ flush-one ds h.1
  tokens-operand (paren c) h = tokens-rpn c h

  pub tokens-rpn : (c : Chain) → IsRising c → tokens_from [] (rpn c) ≡ chain_tokens c
  tokens-rpn (last a) h = ap (tokens_from []) (append-nil (operand_rpn a)) ∙ tokens-operand a h
  tokens-rpn (more a op c) h =
      ap (tokens_from []) (regroup a op c)
      ∙ tokens-append [] (operand_rpn a) (rpn c ++ b' ' ∷ sign op ∷ [])
      ∙ ap₂ ◌++◌ (tokens-operand a h.0)
          (tokens-append [] (rpn c) (sign op ∷ []) ∙ ap₂ ◌++◌ (tokens-rpn c h.1) (tokens-sign op))

leading-digits : (v : ℕ) (ds : List ℕ) → AreDigits ds → leading_value v ds ≡ value_from v ds
unfolding leading_value
leading-digits v [] h = refl
leading-digits v (d ∷ ds) h =
    rw (le→leb b'0' d h.0, le→leb d b'9' h.1) (leading-digits (10 * v + (d - b'0')) ds h.2)

pub atoll-digits :
    (ds : List ℕ) → AreDigits ds → value_from 0 ds < 2 ^ 63 → atoll ds ≡ done (value_from 0 ds)
unfolding atoll
atoll-digits ds h small = rw (leading-digits 0 ds h, lt→ltb (value_from 0 ds) (2 ^ 63) small)
