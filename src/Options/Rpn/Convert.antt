-- ===== src/Options/Rpn/Convert.antt =====
-- What the converter makes of an expression.
use ccommon.Prelude.{
  ℕ, List, [], ◌∷◌, ◌++◌, ◌≡◌, refl, sym, ap, ap₂, ◌∙◌, arith, Bool, true, false, if◌then◌else◌,
  ◌==◌, ◌||◌, append-nil, append_assoc, le→leb, ℕ_discrete,
}
use ccommon.Print.Decimal.{AreDigits}
use ccommon.Options.Rpn.{Attempt, undefined, done, failed, ◌>>=◌, pop_higher, pop_to_paren}
use ccommon.Options.Rpn.Unbounded.{read_free, reads_free, pop_all_free, convert_free}
use ccommon.Options.Rpn.Grammar.{
  Op, add, sub, mul, div, Operand, number, paren, Chain, last, more, sign, operand_text, text,
  NotHigher, IsOperand, IsRising,
}

-- The operators of a chain, the last on top of the stack.
abbrev pub pushed : Chain → List ℕ → List ℕ
pushed (last a) stack = stack
pushed (more a op c) stack = pushed c (sign op ∷ stack)

-- What is put out while a chain is read, and when its operators are popped.
abbrev mutual
  pub operand_rpn : Operand → List ℕ
  operand_rpn (number ds) = ds
  operand_rpn (paren c) = front c ++ back c

  pub front : Chain → List ℕ
  front (last a) = operand_rpn a
  front (more a op c) = operand_rpn a ++ b' ' ∷ front c

  pub back : Chain → List ℕ
  back (last a) = []
  back (more a op c) = back c ++ b' ' ∷ sign op ∷ []

abbrev pub rpn : Chain → List ℕ
rpn c = front c ++ back c

-- The first operator of a chain pops nothing.
abbrev pub Calm : List ℕ → Chain → Type 0
Calm stack (last a) = Unit
Calm stack (more a op c) = pop_higher stack (sign op) ≡ ([], stack)

Calm-sign : (op : Op) (stack : List ℕ) (c : Chain) → NotHigher op c → Calm (sign op ∷ stack) c
unfolding pop_higher
Calm-sign op stack (last a) h = tt
Calm-sign add stack (more a add c) h = refl
Calm-sign add stack (more a sub c) h = refl
Calm-sign add stack (more a mul c) h = refl
Calm-sign add stack (more a div c) h = refl
Calm-sign sub stack (more a add c) h = refl
Calm-sign sub stack (more a sub c) h = refl
Calm-sign sub stack (more a mul c) h = refl
Calm-sign sub stack (more a div c) h = refl
Calm-sign mul stack (more a add c) h = absurd h
Calm-sign mul stack (more a sub c) h = absurd h
Calm-sign mul stack (more a mul c) h = refl
Calm-sign mul stack (more a div c) h = refl
Calm-sign div stack (more a add c) h = absurd h
Calm-sign div stack (more a sub c) h = absurd h
Calm-sign div stack (more a mul c) h = refl
Calm-sign div stack (more a div c) h = refl

Calm-paren : (stack : List ℕ) (c : Chain) → Calm (b'(' ∷ stack) c
unfolding pop_higher
Calm-paren stack (last a) = tt
Calm-paren stack (more a op c) = refl

Calm-empty : (c : Chain) → Calm [] c
unfolding pop_higher
Calm-empty (last a) = tt
Calm-empty (more a op c) = refl

pub read_sign :
    (op : Op) (stack out : List ℕ)
    → pop_higher stack (sign op) ≡ ([], stack)
    → read_free (sign op) (stack, out) ≡ done (sign op ∷ stack, out ++ b' ' ∷ [])
unfolding read_free
read_sign add stack out e = rw e
read_sign sub stack out e = rw e
read_sign mul stack out e = rw e
read_sign div stack out e = rw e

pub read_digits :
    (ds rest stack out : List ℕ)
    → AreDigits ds
    → reads_free (ds ++ rest) (stack, out) ≡ reads_free rest (stack, out ++ ds)
unfolding reads_free read_free
read_digits [] rest stack out h = ap (λ o. reads_free rest (stack, o)) (sym (append-nil out))
read_digits (d ∷ ds) rest stack out h =
    rw (le→leb b'0' d h.0, le→leb d b'9' h.1)
      (read_digits ds rest stack (out ++ d ∷ []) h.2
        ∙ ap (λ o. reads_free rest (stack, o)) (append_assoc out (d ∷ []) ds))

-- The popping at a closing parenthesis goes through the operators of the chain in it.
pop_to_paren-pushed :
    (c : Chain) (stack : List ℕ)
    → pop_to_paren (pushed c stack) ≡ (back c ++ (pop_to_paren stack).0, (pop_to_paren stack).1)
unfolding pop_to_paren
pop_to_paren-pushed (last a) stack = refl
pop_to_paren-pushed (more a op c) stack =
    pop_to_paren-pushed c (sign op ∷ stack)
    ∙ ap₂ (λ x y. (back c ++ x.0, y)) (pop_sign op stack) (ap (λ t. t.1) (pop_sign op stack))
    ∙ ap (λ t. (t, (pop_to_paren stack).1))
        (sym (append_assoc (back c) (b' ' ∷ sign op ∷ []) (pop_to_paren stack).0))
  where
    pop_sign :
        (op : Op) (stack : List ℕ)
        → pop_to_paren (sign op ∷ stack)
          ≡ (b' ' ∷ sign op ∷ (pop_to_paren stack).0, (pop_to_paren stack).1)
    pop_sign add stack = refl
    pop_sign sub stack = refl
    pop_sign mul stack = refl
    pop_sign div stack = refl

pop_all_free-pushed :
    (c : Chain) (stack out : List ℕ)
    → pop_all_free (pushed c stack) out ≡ pop_all_free stack (out ++ back c)
unfolding pop_all_free
pop_all_free-pushed (last a) stack out = ap (pop_all_free stack) (sym (append-nil out))
pop_all_free-pushed (more a op c) stack out =
    pop_all_free-pushed c (sign op ∷ stack) out
    ∙ pop_sign op
    ∙ ap (pop_all_free stack) (append_assoc out (back c) (b' ' ∷ sign op ∷ []))
  where
    pop_sign :
        (op : Op)
        → pop_all_free (sign op ∷ stack) (out ++ back c)
          ≡ pop_all_free stack ((out ++ back c) ++ b' ' ∷ sign op ∷ [])
    pop_sign add = refl
    pop_sign sub = refl
    pop_sign mul = refl
    pop_sign div = refl

pop_to_open :
    (c : Chain) (stack : List ℕ) → pop_to_paren (pushed c (b'(' ∷ stack)) ≡ (back c, b'(' ∷ stack)
unfolding pop_to_paren
pop_to_open c stack =
    pop_to_paren-pushed c (b'(' ∷ stack) ∙ ap (λ t. (t, b'(' ∷ stack)) (append-nil (back c))

read_close :
    (c : Chain) (rest stack out : List ℕ)
    → reads_free (b')' ∷ rest) (pushed c (b'(' ∷ stack), out)
      ≡ reads_free rest (stack, out ++ back c)
unfolding reads_free read_free
read_close c rest stack out = rw (pop_to_open c stack)

mutual
  unfolding reads_free read_free

  read_operand :
      (a : Operand) (rest stack out : List ℕ)
      → IsOperand a
      → reads_free (operand_text a ++ rest) (stack, out)
        ≡ reads_free rest (stack, out ++ operand_rpn a)
  read_operand (number ds) rest stack out h = read_digits ds rest stack out h.0
  read_operand (paren c) rest stack out h =
      ap (λ t. reads_free (b'(' ∷ t) (stack, out)) (append_assoc (text c) (b')' ∷ []) rest)
      ∙ read_chain c (b')' ∷ rest) (b'(' ∷ stack) out h (Calm-paren stack c)
      ∙ read_close c rest stack (out ++ front c)
      ∙ ap (λ o. reads_free rest (stack, o)) (append_assoc out (front c) (back c))

  read_chain :
      (c : Chain) (rest stack out : List ℕ)
      → IsRising c
      → Calm stack c
      → reads_free (text c ++ rest) (stack, out) ≡ reads_free rest (pushed c stack, out ++ front c)
  read_chain (last a) rest stack out h calm = read_operand a rest stack out h
  read_chain (more a op c) rest stack out h calm =
      ap (λ t. reads_free t (stack, out)) (append_assoc (operand_text a) (sign op ∷ text c) rest)
      ∙ read_operand a (sign op ∷ (text c ++ rest)) stack out h.0
      ∙ ap (λ r. r >>= reads_free (text c ++ rest)) (read_sign op stack (out ++ operand_rpn a) calm)
      ∙ read_chain c rest (sign op ∷ stack) ((out ++ operand_rpn a) ++ b' ' ∷ []) h.1
          (Calm-sign op stack c h.2)
      ∙ ap (λ o. reads_free rest (pushed c (sign op ∷ stack), o))
          (append_assoc (out ++ operand_rpn a) (b' ' ∷ []) (front c)
            ∙ append_assoc out (operand_rpn a) (b' ' ∷ front c))

-- The text without its spaces and tabs.
abbrev pub without_blanks : List ℕ → List ℕ
without_blanks [] = []
without_blanks (c ∷ cs) = if c == b' ' || c == 9 then without_blanks cs else c ∷ without_blanks cs

read_blank : (c : ℕ) (s : List ℕ × List ℕ) → (c == b' ' || c == 9) ≡ true → read_free c s ≡ done s
unfolding read_free
read_blank c (stack, out) e = elim (ℕ_discrete c b' ') [
  | yes z ↦ rw z
  | no n ↦ elim (ℕ_discrete c 9) [ yes z ↦ rw z | no m ↦ ground arith ]
]

-- The converter passes over spaces and tabs, also those between the digits of a number.
pub reads_free-blanks :
    (cs : List ℕ) (s : List ℕ × List ℕ) → reads_free cs s ≡ reads_free (without_blanks cs) s
unfolding reads_free
reads_free-blanks [] s = refl
reads_free-blanks (c ∷ cs) s = split (c == b' ' || c == 9) (read_blank c s) (reads_free-blanks cs)
  where
    after :
        (r : Attempt (List ℕ × List ℕ))
        → ((s : List ℕ × List ℕ) → reads_free cs s ≡ reads_free (without_blanks cs) s)
        → (r >>= reads_free cs) ≡ (r >>= reads_free (without_blanks cs))
    after undefined ih = refl
    after failed ih = refl
    after (done s) ih = ih s

    split :
        (b : Bool)
        → (b ≡ true → read_free c s ≡ done s)
        → ((s : List ℕ × List ℕ) → reads_free cs s ≡ reads_free (without_blanks cs) s)
        → (read_free c s >>= reads_free cs)
          ≡ reads_free (if b then without_blanks cs else c ∷ without_blanks cs) s
    split true blank ih = ap (λ r. r >>= reads_free cs) (blank refl) ∙ ih s
    split false blank ih = after (read_free c s) ih

-- A rising expression is converted to its postfix form, with the operators of a chain behind it
-- from the last one to the first.
pub convert_free-text : (c : Chain) → IsRising c → convert_free (text c) ≡ done (rpn c)
unfolding convert_free
convert_free-text c h =
    ap (λ t. reads_free t ([], []) >>= λ s. pop_all_free s.0 s.1) (sym (append-nil (text c)))
    ∙ ap (λ r. r >>= λ s. pop_all_free s.0 s.1)
        (read_chain c [] [] [] h (Calm-empty c) ∙ unfold reads_free in refl)
    ∙ pop_all_free-pushed c [] (front c)
    ∙ unfold pop_all_free in refl
