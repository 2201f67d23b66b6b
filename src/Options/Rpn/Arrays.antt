-- ===== src/Options/Rpn/Arrays.antt =====
-- The arrays of the converter and of the evaluation, and the texts for which they are large enough.
use ccommon.Prelude.{
  ℕ, suc, ◌+◌, ◌*◌, ◌≤◌, ◌<◌, ◌≡◌, refl, ap, ◌∙◌, arith, List, [], ◌∷◌, ◌++◌, Bool, true, false,
  if◌then◌else◌, ◌==◌, length, length-append, le→leb, lt→ltb,
}
use ccommon.Options.Line.{optline_maxlen}
use ccommon.Options.Rpn.{
  Attempt, undefined, failed, done, ◌>>=◌, is_digit, pop_to_paren, close_paren, within_arrays,
  read_byte, read_bytes, pop_all, push, eval_token, eval_tokens, tokens_from, flush_token, atoll,
  operate, only, apply_operator, _option_convert_rpn, _option_eval_rpn, _option_eval_int_expr,
}
use ccommon.Options.Rpn.Unbounded.{
  close_free, read_free, reads_free, pop_all_free, convert_free, eval_token_free, eval_tokens_free,
  eval_rpn_free, eval_free,
}
use ccommon.Options.Rpn.Bounds.{
  room, Grows, read_byte-Grows, read_bytes-Grows, pop_to_paren-length, _option_convert_rpn-length,
}

close_same :
    (out : List ℕ) (popped : List ℕ × List ℕ)
    → length out + length popped.0 ≤ optline_maxlen
    → close_paren out popped ≡ close_free out popped
close_same out (text, []) h = rw (le→leb (length out + length text) optline_maxlen h)
close_same out (text, p ∷ stack) h = refl

read_same : (c : ℕ) (s : List ℕ × List ℕ) → room s ≤ optline_maxlen → read_byte c s ≡ read_free c s
unfolding read_byte read_free
read_same c (stack, out) h =
    rw (close_same out (pop_to_paren stack) (omega (arith, pop_to_paren-length stack)))

pub within_same :
    (stack out : List ℕ)
    → length out ≤ optline_maxlen
    → length stack ≤ optline_maxlen
    → within_arrays (stack, out) ≡ done (stack, out)
within_same stack out h k =
    rw (le→leb (length out) optline_maxlen h, le→leb (length stack) optline_maxlen k)

reads_same :
    (cs : List ℕ) (s : List ℕ × List ℕ)
    → room s + 3 * length cs < optline_maxlen
    → length s.0 + length cs < optline_maxlen
    → read_bytes cs s ≡ reads_free cs s
unfolding read_bytes reads_free
reads_same [] s h k = refl
reads_same (c ∷ cs) s h k =
    step (read_byte c s) (read_byte-Grows c s) (reads_same cs)
    ∙ ap (λ r. r >>= reads_free cs) (read_same c s (omega arith))
  where
    step :
        (r : Attempt (List ℕ × List ℕ))
        → Grows s 1 r
        → ((s' : List ℕ × List ℕ)
            → room s' + 3 * length cs < optline_maxlen
            → length s'.0 + length cs < optline_maxlen
            → read_bytes cs s' ≡ reads_free cs s')
        → (r >>= λ s'. within_arrays s' >>= read_bytes cs) ≡ (r >>= reads_free cs)
    step undefined g ih = refl
    step failed g ih = refl
    step (done (stack, out)) g ih =
        ap (λ r. r >>= read_bytes cs)
          (within_same stack out (omega (arith, g.0)) (omega (arith, g.1)))
        ∙ ih (stack, out) (omega (arith, g.0)) (omega (arith, g.1))

pop_all_same :
    (stack out : List ℕ)
    → length out + 2 * length stack < optline_maxlen
    → pop_all stack out ≡ pop_all_free stack out
unfolding pop_all pop_all_free
pop_all_same [] out h = rw (lt→ltb (length out) optline_maxlen (omega arith))
pop_all_same (o ∷ stack) out h = rw (
  le→leb (length out + 2) optline_maxlen (omega arith),
  pop_all_same stack (out ++ b' ' ∷ o ∷ []) (omega (arith, length-append out (b' ' ∷ o ∷ []))),
)

convert_same : (str : List ℕ) → length str ≤ 341 → _option_convert_rpn str ≡ convert_free str
unfolding _option_convert_rpn convert_free
convert_same str h =
    step (read_bytes str ([], [])) (read_bytes-Grows str ([], []))
    ∙ ap (λ r. r >>= λ s. pop_all_free s.0 s.1)
        (reads_same str ([], []) (omega arith) (omega arith))
  where
    step :
        (r : Attempt (List ℕ × List ℕ))
        → Grows ([], []) (length str) r
        → (r >>= λ s. pop_all s.0 s.1) ≡ (r >>= λ s. pop_all_free s.0 s.1)
    step undefined g = refl
    step failed g = refl
    step (done (stack, out)) g = pop_all_same stack out (omega (arith, g.0))

-- A stack that is the result has at most `n` values.
abbrev Holds : ℕ → Attempt (List ℕ) → Type 0
Holds n undefined = Unit
Holds n failed = Unit
Holds n (done stack) = length stack ≤ n

push_same :
    (r : Attempt ℕ) (stack : List ℕ)
    → length stack < optline_maxlen
    → (r >>= λ v. push v stack) ≡ (r >>= λ v. done (v ∷ stack))
push_same undefined stack h = refl
push_same failed stack h = refl
push_same (done v) stack h = rw (lt→ltb (length stack) optline_maxlen h)

eval_token_same :
    (t stack : List ℕ)
    → length stack < optline_maxlen
    → eval_token t stack ≡ eval_token_free t stack
unfolding eval_token eval_token_free
eval_token_same [] stack h = refl
eval_token_same (c ∷ cs) stack h = rw (push_same (atoll (c ∷ cs)) stack h)

eval_token_free-Holds : (t stack : List ℕ) → Holds (suc (length stack)) (eval_token_free t stack)
unfolding eval_token_free
eval_token_free-Holds [] stack = omega arith
eval_token_free-Holds (c ∷ cs) stack = choose (is_digit c)
  where
    number : (r : Attempt ℕ) → Holds (suc (length stack)) (r >>= λ v. done (v ∷ stack))
    number undefined = tt
    number failed = tt
    number (done v) = omega arith

    result :
        (r : Attempt ℕ) (rest : List ℕ)
        → Holds (suc (suc (suc (length rest)))) (r >>= λ v. done (v ∷ rest))
    result undefined rest = tt
    result failed rest = tt
    result (done v) rest = omega arith

    operator : (stack : List ℕ) → Holds (suc (length stack)) (operate c stack)
    operator [] = tt
    operator (y ∷ []) = tt
    operator (y ∷ x ∷ rest) = result (apply_operator c x y) rest

    choose :
        (b : Bool)
        → Holds
            (suc (length stack))
            (if b then (atoll (c ∷ cs) >>= λ v. done (v ∷ stack)) else operate c stack)
    choose true = number (atoll (c ∷ cs))
    choose false = operator stack

eval_tokens_same :
    (ts : List (List ℕ)) (stack : List ℕ)
    → length stack + length ts ≤ optline_maxlen
    → eval_tokens ts stack ≡ eval_tokens_free ts stack
unfolding eval_tokens eval_tokens_free
eval_tokens_same [] stack h = refl
eval_tokens_same (t ∷ ts) stack h =
    ap (λ r. r >>= eval_tokens ts) (eval_token_same t stack (omega arith))
    ∙ step (eval_token_free t stack) (eval_token_free-Holds t stack) (eval_tokens_same ts)
  where
    step :
        (r : Attempt (List ℕ))
        → Holds (suc (length stack)) r
        → ((s : List ℕ)
            → length s + length ts ≤ optline_maxlen
            → eval_tokens ts s ≡ eval_tokens_free ts s)
        → (r >>= eval_tokens ts) ≡ (r >>= eval_tokens_free ts)
    step undefined g ih = refl
    step failed g ih = refl
    step (done s) g ih = ih s (omega arith)

flush-length :
    (token : List ℕ) (ts : List (List ℕ)) → length (flush_token token ts) ≤ length token + length ts
flush-length [] ts = omega arith
flush-length (c ∷ cs) ts = omega arith

-- A token has a byte.
tokens-length : (token rpn : List ℕ) → length (tokens_from token rpn) ≤ length token + length rpn
unfolding tokens_from
tokens-length token [] = flush-length token []
tokens-length token (c ∷ cs) =
    choose (c == b' ') (tokens-length [] cs) (tokens-length (token ++ c ∷ []) cs)
  where
    choose :
        (b : Bool)
        → length (tokens_from [] cs) ≤ 0 + length cs
        → length (tokens_from (token ++ c ∷ []) cs) ≤ length (token ++ c ∷ []) + length cs
        → length
            (if b then flush_token token (tokens_from [] cs) else tokens_from (token ++ c ∷ []) cs)
          ≤ length token + suc (length cs)
    choose true h k = omega (arith, h, flush-length token (tokens_from [] cs))
    choose false h k = omega (arith, length-append token (c ∷ []))

-- The three arrays are large enough for every text of up to 341 bytes.
pub eval_same : (str : List ℕ) → length str ≤ 341 → _option_eval_int_expr str ≡ eval_free str
unfolding _option_eval_int_expr eval_free _option_eval_rpn eval_rpn_free
eval_same str h =
    step (_option_convert_rpn str) (_option_convert_rpn-length str)
    ∙ ap (λ r. r >>= eval_rpn_free) (convert_same str h)
  where
    step :
        (r : Attempt (List ℕ))
        → ((rpn : List ℕ) → r ≡ done rpn → length rpn ≤ 3 * length str)
        → (r >>= _option_eval_rpn) ≡ (r >>= eval_rpn_free)
    step undefined g = refl
    step failed g = refl
    step (done rpn) g =
        ap (λ r. r >>= only)
          (eval_tokens_same (tokens_from [] rpn) []
            (omega (arith, tokens-length [] rpn, g rpn refl)))
