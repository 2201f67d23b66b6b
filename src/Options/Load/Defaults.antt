-- ===== src/Options/Load/Defaults.antt =====
-- Loading the defaults of all options.
use ccommon.Prelude.{ℕ, ◌≡◌, ◌≢◌, refl, sym, arith, List, [], ◌∷◌, Option, none, some, Bool, true}
use ccommon.Status.{Status, ok, error, eagain, eretry, enomem, eempty, erdhup, einval, unfin}
use ccommon.Options.Store.{
  OptionType, bool_type, uint_type, fpn_type, str_type, sentinel, OptionVal, Opt, World,
  option_default, copy_str, default_str,
}
use ccommon.Options.Load.{option_load_default, go_on}

module _ {D : Type 0} where
  -- The same option, with another value.
  pub record IsSame (opt opt' : Opt D) : Type 0 where
    pub name : opt'.name ≡ opt.name
    pub type : opt'.type ≡ opt.type
    pub default_val : opt'.default_val ≡ opt.default_val
    pub description : opt'.description ≡ opt.description

  abbrev pub AllSame : List (Opt D) → List (Opt D) → Type 0
  AllSame [] [] = Unit
  AllSame [] (o' ∷ os') = ⊥
  AllSame (o ∷ os) [] = ⊥
  AllSame (o ∷ os) (o' ∷ os') = IsSame o o' × AllSame os os'

  pub same :
      {opt : Opt D} {b : Bool} {v : OptionVal D} → IsSame opt (record opt { is_set = b; val = v })
  same = record { name = refl; type = refl; default_val = refl; description = refl }

  -- The value of the option is its default, in the member of its type.
  abbrev pub IsDefault : Opt D → Type 0
  IsDefault opt = elim opt.type [
    | bool_type ↦ opt.val.vbool ≡ opt.default_val.vbool
    | uint_type ↦ opt.val.vuint ≡ opt.default_val.vuint
    | fpn_type ↦ opt.val.vfpn ≡ opt.default_val.vfpn
    | str_type ↦ opt.val.vstr ≡ opt.default_val.vstr
    | sentinel ↦ ⊥
  ]

module _ {D S : Type 0} (alloc : S → Bool × S) (strtod : List ℕ → D × List ℕ × Bool) where
  -- Every option after the loading is the one before it, with its default as its value.
  abbrev pub AllDefault : List (Opt D) → List (Opt D) → Type 0
  AllDefault [] [] = Unit
  AllDefault [] (o' ∷ os') = ⊥
  AllDefault (o ∷ os) [] = ⊥
  AllDefault (o ∷ os) (o' ∷ os') =
      IsSame o o' × (o'.is_set ≡ true) × IsDefault o' × AllDefault os os'

  abbrev pub AllTyped : List (Opt D) → Type 0
  AllTyped [] = Unit
  AllTyped (o ∷ os) = (o.type ≢ sentinel) × AllTyped os

  abbrev Done : Opt D → Status × Opt D × World S → Type 0
  Done opt (status, opt', w) =
      (status ≡ ok) × IsSame opt opt' × (opt'.is_set ≡ true) × IsDefault opt'

  copy_str-Done :
      (w : World S) (opt : Opt D) (str : List ℕ)
      → ((s : S) → (alloc s).0 ≡ true)
      → opt.type ≡ str_type
      → opt.default_val.vstr ≡ some str
      → Done opt (copy_str alloc strtod w opt str)
  copy_str-Done w opt str free t d = rw (free w.heap) (refl, same, refl, rw t (sym d))

  default_str-Done :
      (w : World S) (opt : Opt D) (str : Option (List ℕ))
      → ((s : S) → (alloc s).0 ≡ true)
      → opt.type ≡ str_type
      → opt.default_val.vstr ≡ str
      → Done opt (default_str alloc strtod w opt str)
  default_str-Done w opt none free t d = (refl, same, refl, rw t (sym d))
  default_str-Done w opt (some str) free t d = copy_str-Done w opt str free t d

  option_default-Done :
      (w : World S) (opt : Opt D)
      → ((s : S) → (alloc s).0 ≡ true)
      → opt.type ≢ sentinel
      → Done opt (option_default alloc strtod w opt)
  unfolding option_default
  option_default-Done w opt free t = choose opt.type refl
    where
      choose : (k : OptionType) → opt.type ≡ k → Done opt (option_default alloc strtod w opt)
      choose bool_type e = rw e (refl, same, refl, refl)
      choose uint_type e = rw e (refl, same, refl, refl)
      choose fpn_type e = rw e (refl, same, refl, refl)
      choose str_type e =
          rw e (
            default_str-Done w (record opt { type = str_type }) opt.default_val.vstr free refl refl)
      choose sentinel e = absurd (t e)

  -- When every option has one of the four types and memory is never short, loading the defaults goes
  -- well and leaves every option set to its default, and otherwise as it was.
  pub option_load_default_lem :
      (w : World S) (opts : List (Opt D))
      → ((s : S) → (alloc s).0 ≡ true)
      → AllTyped opts
      → ((option_load_default alloc strtod w opts).0 ≡ ok)
        × AllDefault opts (option_load_default alloc strtod w opts).1
  unfolding option_load_default
  option_load_default_lem w [] free t = (refl, tt)
  option_load_default_lem w (opt ∷ opts) free t =
      step (option_default alloc strtod w opt) (option_default-Done w opt free t.0)
        (λ w'. option_load_default_lem w' opts free t.1)
    where
      step :
          (r : Status × Opt D × World S)
          → Done opt r
          → ((w' : World S)
              → ((option_load_default alloc strtod w' opts).0 ≡ ok)
                × AllDefault opts (option_load_default alloc strtod w' opts).1)
          → ((go_on alloc strtod opts (option_load_default alloc strtod r.2 opts) r).0 ≡ ok)
            × AllDefault
                (opt ∷ opts)
                (go_on alloc strtod opts (option_load_default alloc strtod r.2 opts) r).1
      step (ok, opt', w') h ih = ((ih w').0, (h.1, h.2, h.3, (ih w').1))
      step (error, opt', w') h ih = absurd (ground (arith, h.0))
      step (eagain, opt', w') h ih = absurd (ground (arith, h.0))
      step (eretry, opt', w') h ih = absurd (ground (arith, h.0))
      step (enomem, opt', w') h ih = absurd (ground (arith, h.0))
      step (eempty, opt', w') h ih = absurd (ground (arith, h.0))
      step (erdhup, opt', w') h ih = absurd (ground (arith, h.0))
      step (einval, opt', w') h ih = absurd (ground (arith, h.0))
      step (unfin, opt', w') h ih = absurd (ground (arith, h.0))
