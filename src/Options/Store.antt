-- ===== src/Options/Store.antt =====
-- The options themselves and how they get their values, in src/cc_option.c and include/cc_option.h.
-- A string is the list of its bytes before the NUL, and a pointer to it, which is never shared, is
-- the string or none.
use ccommon.Prelude.{
  ℕ, List, [], ◌∷◌, Option, none, some, Bool, true, false, if◌then◌else◌, ◌==◌, ◌||◌,
}
use ccommon.Status.{Status, ok, error}
use ccommon.Options.Rpn.{undefined, failed, done, _option_eval_int_expr}

-- `option_type_e`.
pub data OptionType : Type 0 where
  bool_type uint_type fpn_type str_type sentinel : OptionType

-- `option_val_u`. Only the member that belongs to the option's type is used.
pub record OptionVal {ℓ} (D : Type ℓ) : Type ℓ where
  pub vbool : Bool
  pub vuint : ℕ
  pub vfpn : D
  pub vstr : Option (List ℕ)

-- `struct option`.
pub record Opt {ℓ} (D : Type ℓ) : Type ℓ where
  pub name : List ℕ
  pub is_set : Bool
  pub type : OptionType
  pub default_val : OptionVal D
  pub val : OptionVal D
  pub description : List ℕ

-- What the functions share with the C library: the allocator, and whether `errno` is `ERANGE`.
pub record World {ℓ} (S : Type ℓ) : Type ℓ where
  pub heap : S
  pub erange : Bool

abbrev pub same_text : List ℕ → List ℕ → Bool
same_text [] [] = true
same_text [] (y ∷ ys) = false
same_text (x ∷ xs) [] = false
same_text (x ∷ xs) (y ∷ ys) = let rest = same_text xs ys in if x == y then rest else false

module _ {ℓ} {D : Type ℓ} where
  -- `_option_parse_bool`.
  unfoldable pub _option_parse_bool : Opt D → List ℕ → Status × Opt D
  _option_parse_bool opt val_str =
      if same_text val_str (b'y' ∷ b'e' ∷ b's' ∷ [])
      then (ok, record opt { is_set = true; val = record opt.val { vbool = true } })
      else if same_text val_str (b'n' ∷ b'o' ∷ [])
      then (ok, record opt { is_set = true; val = record opt.val { vbool = false } })
      else (error, opt)

  -- `_option_parse_uint`; none where the behaviour is undefined.
  unfoldable pub _option_parse_uint : Opt D → List ℕ → Option (Status × Opt D)
  unfolding _option_eval_int_expr
  _option_parse_uint opt val_str = elim (_option_eval_int_expr val_str) [
    | undefined ↦ none
    | failed ↦ some (error, opt)
    | done v ↦ some (ok, record opt { is_set = true; val = record opt.val { vuint = v } })
  ]

module _ {ℓ κ} {D : Type ℓ} {S : Type κ} (alloc : S → Bool × S)
    (strtod : List ℕ → D × List ℕ × Bool) where
  -- `_option_parse_fpn`. `strtod` gives the value, the text from `loc` on, and whether it sets `errno`
  -- to `ERANGE`; it leaves `errno` alone otherwise.
  unfoldable pub _option_parse_fpn : World S → Opt D → List ℕ → Status × Opt D × World S
  _option_parse_fpn w opt val_str =
      let (v, loc, out_of_range) = strtod val_str in
      let w' : World S = record w { erange = out_of_range || w.erange } in
      if w'.erange then (error, opt, w') else (elim loc [
        | [] ↦ (ok, record opt { is_set = true; val = record opt.val { vfpn = v } }, w')
        | c ∷ cs ↦ (error, opt, w')
      ])

  -- A copy of a string that is not null, if there is memory for it.
  abbrev pub copy_str : World S → Opt D → List ℕ → Status × Opt D × World S
  copy_str w opt str =
      let (got, heap') = alloc w.heap in
      let w' : World S = record w { heap = heap' } in
      if got
      then (ok, record opt { is_set = true; val = record opt.val { vstr = some str } }, w')
      else (error, record opt { is_set = true; val = record opt.val { vstr = none } }, w')

  -- `_option_parse_str`. The string that was there is freed.
  unfoldable pub _option_parse_str : World S → Opt D → Option (List ℕ) → Status × Opt D × World S
  _option_parse_str w opt none =
      (ok, record opt { is_set = true; val = record opt.val { vstr = none } }, w)
  _option_parse_str w opt (some str) = copy_str w opt str

  -- `option_default` for a string.
  abbrev pub default_str : World S → Opt D → Option (List ℕ) → Status × Opt D × World S
  default_str w opt none =
      (ok, record opt { is_set = true; val = record opt.val { vstr = none } }, w)
  default_str w opt (some str) = copy_str w opt str

  -- `option_default`.
  unfoldable pub option_default : World S → Opt D → Status × Opt D × World S
  option_default w opt = elim opt.type [
    | bool_type ↦ (
      ok,
      record opt { is_set = true; val = record opt.val { vbool = opt.default_val.vbool } },
      w,
    )
    | uint_type ↦ (
      ok,
      record opt { is_set = true; val = record opt.val { vuint = opt.default_val.vuint } },
      w,
    )
    | fpn_type ↦
        (ok, record opt { is_set = true; val = record opt.val { vfpn = opt.default_val.vfpn } }, w)
    | str_type ↦ default_str w opt opt.default_val.vstr
    | sentinel ↦ (error, record opt { is_set = false }, w)
  ]

  abbrev pub with_world : World S → Status × Opt D → Status × Opt D × World S
  with_world w (status, opt) = (status, opt, w)

  abbrev pub uint_result : World S → Option (Status × Opt D) → Option (Status × Opt D × World S)
  uint_result w none = none
  uint_result w (some r) = some (with_world w r)

  -- `option_set`, with a value that is not null.
  unfoldable pub option_set : World S → Opt D → List ℕ → Option (Status × Opt D × World S)
  unfolding _option_parse_bool _option_parse_uint _option_parse_fpn _option_parse_str
  option_set w opt val_str = elim opt.type [
    | bool_type ↦ some (with_world w (_option_parse_bool opt val_str))
    | uint_type ↦ uint_result w (_option_parse_uint opt val_str)
    | fpn_type ↦ some (_option_parse_fpn w opt val_str)
    | str_type ↦ some (_option_parse_str w opt (some val_str))
    | sentinel ↦ some (error, opt, w)
  ]
