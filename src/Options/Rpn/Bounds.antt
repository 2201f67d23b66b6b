-- ===== src/Options/Rpn/Bounds.antt =====
-- The buffers of the converter: `rpn` and `op_stack` of `OPTLINE_MAXLEN` bytes.
use ccommon.Prelude.{
  ℕ, suc, ◌+◌, ◌*◌, ◌≤◌, ◌≡◌, subst, arith, List, [], ◌∷◌, ◌++◌, Bool, true, false, if◌then◌else◌,
  not, ◌&&◌, ◌||◌, ◌==◌, length, leb, ltb, length-append, Bool-cases, inl, inr,
}
use ccommon.Options.Line.{optline_maxlen}
use ccommon.Options.Rpn.{
  Attempt, undefined, done, failed, ◌>>=◌, is_digit, is_operator, read_byte, read_bytes, pop_higher,
  pop_to_paren, pop_all, close_paren, within_arrays, _option_convert_rpn,
  _option_comp_op_precedence,
}

-- What the output holds, and what it will hold once the stack is emptied.
abbrev pub room : List ℕ × List ℕ → ℕ
room (stack, out) = length out + 2 * length stack

-- The popping at an operator writes one byte for each operator.
pop_higher-length :
    (stack : List ℕ) (c : ℕ)
    → length (pop_higher stack c).0 + length (pop_higher stack c).1 ≡ length stack
unfolding pop_higher
pop_higher-length [] c = omega arith
pop_higher-length (o ∷ stack) c =
    elim (Bool-cases (not (o == b'(') && _option_comp_op_precedence o c)) [
      | inl e ↦ rw e (omega (arith, pop_higher-length stack c))
      | inr e ↦ rw e (omega arith)
    ]

-- The popping at a parenthesis writes two bytes for each operator.
pub pop_to_paren-length :
    (stack : List ℕ)
    → length (pop_to_paren stack).0 + 2 * length (pop_to_paren stack).1 ≡ 2 * length stack
unfolding pop_to_paren
pop_to_paren-length [] = omega arith
pop_to_paren-length (o ∷ stack) = elim (Bool-cases (o == b'(')) [
  | inl e ↦ rw e (omega arith)
  | inr e ↦ rw e (omega (arith, pop_to_paren-length stack))
]

-- One step leaves at most three bytes and one operator more.
abbrev pub Grows : List ℕ × List ℕ → ℕ → Attempt (List ℕ × List ℕ) → Type 0
Grows s n undefined = Unit
Grows s n failed = Unit
Grows s n (done s') = (room s' ≤ room s + 3 * n) × (length s'.0 ≤ length s.0 + n)

either :
    (s : List ℕ × List ℕ) (b : Bool) (x y : Attempt (List ℕ × List ℕ))
    → Grows s 1 x
    → Grows s 1 y
    → Grows s 1 (if b then x else y)
either s true x y h k = h
either s false x y h k = k

close_paren-Grows :
    (stack out : List ℕ) (popped : List ℕ × List ℕ)
    → length popped.0 + 2 * length popped.1 ≡ 2 * length stack
    → Grows (stack, out) 1 (close_paren out popped)
close_paren-Grows stack out (text, []) h =
    either (stack, out) (leb (length out + length text) optline_maxlen) failed undefined tt tt
close_paren-Grows stack out (text, p ∷ rest) h =
    (omega (arith, length-append out text), omega (arith, length-append out text))

operator-Grows :
    (c : ℕ) (stack out : List ℕ)
    → Grows (stack, out) 1 (done (c ∷ (pop_higher stack c).1, out ++ b' ' ∷ (pop_higher stack c).0))
operator-Grows c stack out =
    let popped = pop_higher-length stack c in
    let grown = length-append out (b' ' ∷ (pop_higher stack c).0) in (omega arith, omega arith)

digit-Grows : (c : ℕ) (stack out : List ℕ) → Grows (stack, out) 1 (done (stack, out ++ c ∷ []))
digit-Grows c stack out = (omega (arith, length-append out (c ∷ [])), omega arith)

pub read_byte-Grows : (c : ℕ) (s : List ℕ × List ℕ) → Grows s 1 (read_byte c s)
unfolding read_byte
read_byte-Grows c (stack, out) = either s (is_digit c) _ _ (digit-Grows c stack out) (
    either s (is_operator c) _ _ (operator-Grows c stack out) (
      either s (c == b'(') _ _ (omega arith, omega arith)
        (either s (c == b')') _ _
          (close_paren-Grows stack out (pop_to_paren stack) (pop_to_paren-length stack))
          (either s (c == b' ' || c == 9) _ _ (omega arith, omega arith) tt))))
  where
    s : List ℕ × List ℕ
    s = (stack, out)

Grows-after :
    (s s' : List ℕ × List ℕ) (n : ℕ) (r : Attempt (List ℕ × List ℕ))
    → Grows s 1 (done s')
    → Grows s' n r
    → Grows s (suc n) r
Grows-after s s' n undefined h k = tt
Grows-after s s' n failed h k = tt
Grows-after s s' n (done s'') h k =
    (omega (arith, h.0, h.1, k.0, k.1), omega (arith, h.0, h.1, k.0, k.1))

pub read_bytes-Grows : (cs : List ℕ) (s : List ℕ × List ℕ) → Grows s (length cs) (read_bytes cs s)
unfolding read_bytes
read_bytes-Grows [] s = (omega arith, omega arith)
read_bytes-Grows (c ∷ cs) s = step (read_byte c s) (read_byte-Grows c s) (read_bytes-Grows cs)
  where
    step :
        (r : Attempt (List ℕ × List ℕ))
        → Grows s 1 r
        → ((s' : List ℕ × List ℕ) → Grows s' (length cs) (read_bytes cs s'))
        → Grows s (suc (length cs)) (r >>= λ s'. within_arrays s' >>= read_bytes cs)
    step undefined h ih = tt
    step failed h ih = tt
    step (done (stack, out)) h ih =
        kept (leb (length out) optline_maxlen && leb (length stack) optline_maxlen)
      where
        kept :
            (b : Bool)
            → Grows s
                (suc (length cs))
                ((if b then done (stack, out) else undefined) >>= read_bytes cs)
        kept true =
            Grows-after s (stack, out) (length cs) (read_bytes cs (stack, out)) h (ih (stack, out))
        kept false = tt

-- After any part of the text has been read, the output and what emptying the stack would add take
-- at most three bytes for each byte read, and the stack at most one.
read_bytes-length :
    (cs stack out : List ℕ)
    → read_bytes cs ([], []) ≡ done (stack, out)
    → (length out + 2 * length stack ≤ 3 * length cs) × (length stack ≤ length cs)
read_bytes-length cs stack out e =
    let h = subst (Grows ([], []) (length cs)) e (read_bytes-Grows cs ([], [])) in
    (omega (arith, h.0), omega (arith, h.1))

abbrev pub IsWithin : ℕ → Attempt (List ℕ) → Type 0
IsWithin n undefined = Unit
IsWithin n failed = Unit
IsWithin n (done out) = length out ≤ n

pop_all-IsWithin :
    (stack out : List ℕ) → IsWithin (length out + 2 * length stack) (pop_all stack out)
unfolding pop_all
pop_all-IsWithin [] out = choose (ltb (length out) optline_maxlen)
  where
    choose : (b : Bool) → IsWithin (length out + 2 * 0) (if b then done out else undefined)
    choose true = omega arith
    choose false = tt
pop_all-IsWithin (o ∷ stack) out =
    choose (o == b'(') (leb (length out + 2) optline_maxlen)
      (pop_all-IsWithin stack (out ++ b' ' ∷ o ∷ []))
  where
    written : length (out ++ b' ' ∷ o ∷ []) ≡ length out + 2
    written = omega (arith, length-append out (b' ' ∷ o ∷ []))

    same : length (out ++ b' ' ∷ o ∷ []) + 2 * length stack ≡ length out + 2 * length (o ∷ stack)
    same = omega (arith, written)

    choose :
        (b d : Bool)
        → IsWithin
            (length (out ++ b' ' ∷ o ∷ []) + 2 * length stack)
            (pop_all stack (out ++ b' ' ∷ o ∷ []))
        → IsWithin
            (length out + 2 * length (o ∷ stack))
            (if b then failed else if d then pop_all stack (out ++ b' ' ∷ o ∷ []) else undefined)
    choose true d h = tt
    choose false false h = tt
    choose false true h = subst (λ n. IsWithin n (pop_all stack (out ++ b' ' ∷ o ∷ []))) same h

IsWithin-more : (m n : ℕ) (r : Attempt (List ℕ)) → m ≤ n → IsWithin m r → IsWithin n r
IsWithin-more m n undefined le h = tt
IsWithin-more m n failed le h = tt
IsWithin-more m n (done out) le h = omega arith

pub _option_convert_rpn-length :
    (str rpn : List ℕ) → _option_convert_rpn str ≡ done rpn → length rpn ≤ 3 * length str
unfolding _option_convert_rpn
_option_convert_rpn-length str rpn e =
    subst (IsWithin (3 * length str)) e
      (finish (read_bytes str ([], [])) (read_bytes-Grows str ([], [])))
  where
    finish :
        (r : Attempt (List ℕ × List ℕ))
        → Grows ([], []) (length str) r
        → IsWithin (3 * length str) (r >>= λ s. pop_all s.0 s.1)
    finish undefined h = tt
    finish failed h = tt
    finish (done (stack, out)) h =
        IsWithin-more (length out + 2 * length stack) (3 * length str) (pop_all stack out)
          (omega (arith, h.0)) (pop_all-IsWithin stack out)
