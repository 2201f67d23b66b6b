-- ===== src/Options/Rpn/Overrun.antt =====
-- Texts for which the array `rpn` is too small.
use ccommon.Prelude.{
  ℕ, zero, suc, ◌+◌, ◌*◌, ◌≤◌, ◌≡◌, refl, ap, ◌∙◌, arith, List, [], ◌∷◌, ◌++◌, length,
  length-append, le→ltb, Bool, true, false, if◌then◌else◌, leb,
}
use ccommon.Options.Line.{optline_maxlen}
use ccommon.Options.Rpn.Arrays.{within_same}
use ccommon.Options.Rpn.{
  Attempt, undefined, done, ◌>>=◌, read_byte, read_bytes, pop_all, pop_higher, within_arrays,
  _option_convert_rpn, _option_eval_int_expr, _option_comp_op_precedence,
}

-- `n` plus signs.
abbrev pub pluses : ℕ → List ℕ
pluses zero = []
pluses (suc n) = b'+' ∷ pluses n

length-pluses : (n : ℕ) → length (pluses n) ≡ n
length-pluses zero = refl
length-pluses (suc n) = ap suc (length-pluses n)

read_plus :
    (k : ℕ) (out : List ℕ)
    → read_byte b'+' (pluses k, out) ≡ done (pluses (suc k), out ++ b' ' ∷ [])
unfolding read_byte pop_higher _option_comp_op_precedence
read_plus zero out = refl
read_plus (suc k) out = refl

pop_all-overrun :
    (k : ℕ) (out : List ℕ)
    → optline_maxlen ≤ length out + 2 * k
    → pop_all (pluses k) out ≡ undefined
unfolding pop_all
pop_all-overrun zero out h = rw (le→ltb (length out) optline_maxlen (omega arith))
pop_all-overrun (suc k) out h =
    let grown = length-append out (b' ' ∷ b'+' ∷ []) in
    rw (pop_all-overrun k (out ++ b' ' ∷ b'+' ∷ []) (omega arith))
      (both (leb (length out + 2) optline_maxlen) undefined)
  where
    both : (b : Bool) (r : Attempt (List ℕ)) → (if b then r else r) ≡ r
    both true r = refl
    both false r = refl

read_pluses :
    (n k : ℕ) (out : List ℕ)
    → length out ≡ k
    → n + k ≤ optline_maxlen
    → optline_maxlen ≤ 3 * (n + k)
    → (read_bytes (pluses n) (pluses k, out) >>= λ s. pop_all s.0 s.1) ≡ undefined
unfolding read_bytes
read_pluses zero k out e h l = pop_all-overrun k out (omega arith)
read_pluses (suc n) k out e h l =
    let grown : length (out ++ b' ' ∷ []) ≡ suc k = omega (arith, length-append out (b' ' ∷ [])) in
    ap (λ r. (r >>= λ s'. within_arrays s' >>= read_bytes (pluses n)) >>= λ s. pop_all s.0 s.1)
      (read_plus k out)
    ∙ ap (λ r. (r >>= read_bytes (pluses n)) >>= λ s. pop_all s.0 s.1)
        (within_same (pluses (suc k)) (out ++ b' ' ∷ []) (omega arith)
          (omega (arith, length-pluses k)))
    ∙ read_pluses n (suc k) (out ++ b' ' ∷ []) grown (omega arith) (omega arith)

-- For a text of 342 to 1024 plus signs the conversion writes behind the array `rpn`.
pub _option_eval_int_expr-overrun :
    (n : ℕ) → 342 ≤ n → n ≤ 1024 → _option_eval_int_expr (pluses n) ≡ undefined
unfolding _option_eval_int_expr _option_convert_rpn
_option_eval_int_expr-overrun n h l = rw (read_pluses n 0 [] refl (omega arith) (omega arith))
