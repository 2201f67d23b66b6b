-- ===== src/Options/Rpn/Grammar.antt =====
-- Expressions, independently of the converter: their text and their value.
use ccommon.Prelude.{
  ℕ, ◌+◌, ◌-◌, ◌*◌, ◌/◌, ◌^◌, ◌<◌, List, [], ◌∷◌, ◌++◌, Option, none, some, ltb, leb, ◌==◌,
  if◌then◌else◌, length,
}
use ccommon.Prelude.Words.{u64_mod}
use ccommon.Print.Decimal.{AreDigits, value_from}

pub data Op : Type 0 where
  add sub mul div : Op

-- A chain is a sequence of operands with operators between them; an operand is a number or a chain
-- in parentheses.
mutual
  pub data Operand : Type 0 where
    number : List ℕ → Operand
    paren : Chain → Operand

  pub data Chain : Type 0 where
    last : Operand → Chain
    more : Operand → Op → Chain → Chain

abbrev pub sign : Op → ℕ
sign add = b'+'
sign sub = b'-'
sign mul = b'*'
sign div = b'/'

-- The text of an expression.
abbrev mutual
  pub operand_text : Operand → List ℕ
  operand_text (number ds) = ds
  operand_text (paren c) = b'(' ∷ (text c ++ b')' ∷ [])

  pub text : Chain → List ℕ
  text (last a) = operand_text a
  text (more a op c) = operand_text a ++ sign op ∷ text c

-- The result of an operator on numbers below 2^64, if it is one too.
abbrev pub apply : Op → ℕ → ℕ → Option ℕ
apply add a b = if ltb (a + b) u64_mod then some (a + b) else none
apply sub a b = if leb b a then some (a - b) else none
apply mul a b = if ltb (a * b) u64_mod then some (a * b) else none
apply div a b = if b == 0 then none else some (a / b)

abbrev pub combine : Op → Option ℕ → Option ℕ → Option ℕ
combine op none q = none
combine op (some x) none = none
combine op (some x) (some y) = apply op x y

-- The value of an expression whose operators all associate to the right.
abbrev mutual
  pub operand_value : Operand → Option ℕ
  operand_value (number ds) = some (value_from 0 ds)
  operand_value (paren c) = value c

  pub value : Chain → Option ℕ
  value (last a) = operand_value a
  value (more a op c) = combine op (operand_value a) (value c)

-- A multiplication or division is not followed by an addition or subtraction.
abbrev pub NotHigher : Op → Chain → Type 0
NotHigher op (last a) = Unit
NotHigher add (more a op' c) = Unit
NotHigher sub (more a op' c) = Unit
NotHigher mul (more a add c) = ⊥
NotHigher mul (more a sub c) = ⊥
NotHigher mul (more a mul c) = Unit
NotHigher mul (more a div c) = Unit
NotHigher div (more a add c) = ⊥
NotHigher div (more a sub c) = ⊥
NotHigher div (more a mul c) = Unit
NotHigher div (more a div c) = Unit

-- Numbers have a digit and fit in a `long long`, and in no chain does the precedence fall.
abbrev mutual
  pub IsOperand : Operand → Type 0
  IsOperand (number ds) = AreDigits ds × (0 < length ds) × (value_from 0 ds < 2 ^ 63)
  IsOperand (paren c) = IsRising c

  pub IsRising : Chain → Type 0
  IsRising (last a) = IsOperand a
  IsRising (more a op c) = IsOperand a × IsRising c × NotHigher op c
