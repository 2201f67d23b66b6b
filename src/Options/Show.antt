-- ===== src/Options/Show.antt =====
-- Printing a value in src/cc_option.c, and setting an option to what is printed.
use ccommon.Prelude.{
  ℕ, zero, suc, ◌-◌, ◌^◌, ◌≤◌, ◌<◌, ◌≡◌, ◌∙◌, refl, sym, ap, arith, List, [], ◌∷◌, Option, none,
  some, Bool, true, false, if◌then◌else◌, take, length, ◌⊎◌, inl, inr,
}
use ccommon.Status.{ok}
use ccommon.Print.Decimal.{AreDigits, value_from}
use ccommon.Options.Rpn.{done, _option_eval_int_expr}
use ccommon.Options.Rpn.Grammar.{last, number}
use ccommon.Options.Rpn.Evaluate.{_option_eval_int_expr-text}
use ccommon.Options.Store.{
  OptionType, bool_type, uint_type, fpn_type, str_type, sentinel, OptionVal, Opt, World, option_set,
  _option_parse_bool, _option_parse_uint, uint_result,
}

module _ {ℓ} {D : Type ℓ} (percent_ju : ℕ → List ℕ) (percent_f : D → List ℕ) where
  abbrev pub str_text : Option (List ℕ) → List ℕ
  str_text none = b'N' ∷ b'U' ∷ b'L' ∷ b'L' ∷ []
  str_text (some str) = str

  -- `option_print_val`, with what `snprintf` prints for a number as a parameter; it cuts the text off
  -- to leave room for the NUL. The code does not expect another type.
  unfoldable pub option_print_val : ℕ → OptionType → OptionVal D → Option (List ℕ)
  option_print_val len type val = elim type [
    | bool_type ↦
        some (take (len - 1) (if val.vbool then b'y' ∷ b'e' ∷ b's' ∷ [] else b'n' ∷ b'o' ∷ []))
    | uint_type ↦ some (take (len - 1) (percent_ju val.vuint))
    | fpn_type ↦ some (take (len - 1) (percent_f val.vfpn))
    | str_type ↦ some (take (len - 1) (str_text val.vstr))
    | sentinel ↦ none
  ]

-- The text is a decimal text of the number, of no more digits than the largest `uintmax_t` has.
abbrev pub IsDecimal : List ℕ → ℕ → Type 0
IsDecimal ds n = AreDigits ds × (0 < length ds) × (value_from 0 ds ≡ n) × (length ds ≤ 20)

take-all : {A : Type 0} (n : ℕ) (xs : List A) → length xs ≤ n → take n xs ≡ xs
take-all zero [] h = refl
take-all zero (x ∷ xs) h = absurd (omega arith)
take-all (suc n) [] h = refl
take-all (suc n) (x ∷ xs) h = ap (◌∷◌ x) (take-all n xs (omega arith))

eval-decimal :
    (ds : List ℕ) (n : ℕ) → IsDecimal ds n → n < 2 ^ 63 → _option_eval_int_expr ds ≡ done n
eval-decimal ds n (h, k, e, short) small =
    _option_eval_int_expr-text (last (number ds)) (h, k, omega arith) (omega arith) ∙ ap done e

module _ {D S : Type 0} (alloc : S → Bool × S) (strtod : List ℕ → D × List ℕ × Bool)
    (percent_ju : ℕ → List ℕ) (percent_f : D → List ℕ) where
  set_uint :
      (w : World S) (opt : Opt D) (ds : List ℕ)
      → opt.type ≡ uint_type
      → IsDecimal ds opt.val.vuint
      → opt.val.vuint < 2 ^ 63
      → option_set alloc strtod w opt ds ≡ some (ok, record opt { is_set = true }, w)
  unfolding option_set _option_parse_uint
  set_uint w opt ds e h small =
      rw e (ap (uint_result alloc strtod w) (parsed (eval-decimal ds opt.val.vuint h small)))
    where
      parsed :
          _option_eval_int_expr ds ≡ done opt.val.vuint
          → _option_parse_uint (record opt { type = uint_type }) ds
            ≡ some (ok, record opt { is_set = true; type = uint_type })
      parsed f = rw (_option_parse_uint, f)

  set_bool :
      (w : World S) (opt : Opt D) (b : Bool)
      → opt.type ≡ bool_type
      → opt.val.vbool ≡ b
      → option_set alloc strtod w opt (if b then b'y' ∷ b'e' ∷ b's' ∷ [] else b'n' ∷ b'o' ∷ [])
        ≡ some (ok, record opt { is_set = true }, w)
  unfolding option_set _option_parse_bool
  set_bool w opt true e h = rw e (
      ap
        (λ b. some (
          ok,
          record opt { type = bool_type; is_set = true; val = record opt.val { vbool = b } },
          w,
        ))
        (sym h))
  set_bool w opt false e h = rw e (
      ap
        (λ b. some (
          ok,
          record opt { type = bool_type; is_set = true; val = record opt.val { vbool = b } },
          w,
        ))
        (sym h))

  -- The value of a boolean option, and that of an integer option below 2^63 that `snprintf` prints as
  -- a decimal text of at most 20 digits, shorter than the buffer, is printed as a text to which the
  -- option can be set, which goes well and gives the value that was printed. In both cases the buffer
  -- has at least 4 bytes.
  pub option_set-option_print_val :
      (w : World S) (opt : Opt D) (len : ℕ)
      → 4 ≤ len
      → (opt.type ≡ bool_type)
        ⊎ ((opt.type ≡ uint_type)
            × IsDecimal (percent_ju opt.val.vuint) opt.val.vuint
            × (length (percent_ju opt.val.vuint) < len)
            × (opt.val.vuint < 2 ^ 63))
      → (str : List ℕ) × (option_print_val percent_ju percent_f len opt.type opt.val ≡ some str)
        × (option_set alloc strtod w opt str ≡ some (ok, record opt { is_set = true }, w))
  unfolding option_print_val
  option_set-option_print_val w opt len h (inl e) = (
    (if opt.val.vbool then b'y' ∷ b'e' ∷ b's' ∷ [] else b'n' ∷ b'o' ∷ []),
    rw e (ap some (whole opt.val.vbool)),
    set_bool w opt opt.val.vbool e refl,
  )
    where
      word : Bool → List ℕ
      word b = if b then b'y' ∷ b'e' ∷ b's' ∷ [] else b'n' ∷ b'o' ∷ []

      whole : (b : Bool) → take (len - 1) (word b) ≡ word b
      whole true = take-all (len - 1) (b'y' ∷ b'e' ∷ b's' ∷ []) (omega arith)
      whole false = take-all (len - 1) (b'n' ∷ b'o' ∷ []) (omega arith)
  option_set-option_print_val w opt len h (inr (e, decimal, fits, small)) = (
    percent_ju opt.val.vuint,
    rw e (ap some (take-all (len - 1) (percent_ju opt.val.vuint) (omega arith))),
    set_uint w opt (percent_ju opt.val.vuint) e decimal small,
  )
