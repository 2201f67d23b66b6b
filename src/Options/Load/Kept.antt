-- ===== src/Options/Load/Kept.antt =====
-- What setting options from a file keeps.
use ccommon.Prelude.{
  ℕ, ◌≡◌, ◌∙◌, refl, List, [], ◌∷◌, Option, none, some, Bool, true, false, if◌then◌else◌, ◌||◌,
}
use ccommon.Status.{Status, ok, error, eagain, eretry, enomem, eempty, erdhup, einval, unfin}
use ccommon.Options.Rpn.{undefined, failed, done, _option_eval_int_expr}
use ccommon.Options.Line.{Line, blank, malformed, setting, _option_parse}
use ccommon.Options.Store.{
  OptionType, bool_type, uint_type, fpn_type, str_type, sentinel, Opt, World, same_text, option_set,
  _option_parse_bool, _option_parse_uint, _option_parse_fpn, _option_parse_str, copy_str,
  uint_result,
}
use ccommon.Options.Load.{
  option_load_file, set_named, load_line, load_lines, then_lines, lines_from, up_to_nul, behind?,
  alone, Loaded,
}
use ccommon.Options.Load.Defaults.{IsSame, same, AllSame}

module _ {D : Type 0} where
  unchanged : (opt : Opt D) → IsSame opt opt
  unchanged opt = record { name = refl; type = refl; default_val = refl; description = refl }

  IsSame-trans : (a b c : Opt D) → IsSame a b → IsSame b c → IsSame a c
  IsSame-trans a b c h k = record {
    name = k.name ∙ h.name;
    type = k.type ∙ h.type;
    default_val = k.default_val ∙ h.default_val;
    description = k.description ∙ h.description;
  }

  AllSame-refl : (os : List (Opt D)) → AllSame os os
  AllSame-refl [] = tt
  AllSame-refl (o ∷ os) = (unchanged o, AllSame-refl os)

  AllSame-trans : (xs ys zs : List (Opt D)) → AllSame xs ys → AllSame ys zs → AllSame xs zs
  AllSame-trans [] [] [] h k = tt
  AllSame-trans [] [] (c ∷ zs) h k = absurd k
  AllSame-trans [] (b ∷ ys) zs h k = absurd h
  AllSame-trans (a ∷ xs) [] zs h k = absurd h
  AllSame-trans (a ∷ xs) (b ∷ ys) [] h k = absurd k
  AllSame-trans (a ∷ xs) (b ∷ ys) (c ∷ zs) h k =
      (IsSame-trans a b c h.0 k.0, AllSame-trans xs ys zs h.1 k.1)

either : {A : Type 0} (P : A → Type 0) (b : Bool) (x y : A) → P x → P y → P (if b then x else y)
either P true x y h k = h
either P false x y h k = k

module _ {D S : Type 0} (alloc : S → Bool × S) (strtod : List ℕ → D × List ℕ × Bool) where
  abbrev pub SetSame : Opt D → Option (Status × Opt D × World S) → Type 0
  SetSame opt none = Unit
  SetSame opt (some (status, opt', w)) = IsSame opt opt'

  abbrev pub FileSame : List (Opt D) → Option (Loaded alloc strtod) → Type 0
  FileSame opts none = Unit
  FileSame opts (some (status, opts', w)) = AllSame opts opts'

  parse_bool-IsSame : (opt : Opt D) (val : List ℕ) → IsSame opt (_option_parse_bool opt val).1
  unfolding _option_parse_bool
  parse_bool-IsSame opt val =
      either P (same_text val (b'y' ∷ b'e' ∷ b's' ∷ [])) _ _ same
        (either P (same_text val (b'n' ∷ b'o' ∷ [])) _ _ same (unchanged opt))
    where
      P : Status × Opt D → Type 0
      P r = IsSame opt r.1

  copy_str-IsSame :
      (w : World S) (opt : Opt D) (str : List ℕ) → IsSame opt (copy_str alloc strtod w opt str).1
  copy_str-IsSame w opt str = either P (alloc w.heap).0 _ _ same same
    where
      P : Status × Opt D × World S → Type 0
      P r = IsSame opt r.1

  parse_uint-SetSame :
      (w : World S) (opt : Opt D) (val : List ℕ)
      → SetSame opt (uint_result alloc strtod w (_option_parse_uint opt val))
  unfolding _option_parse_uint
  parse_uint-SetSame w opt val =
      elim (_option_eval_int_expr val)
        as (λ r. SetSame opt (
          uint_result alloc strtod w (elim r [
            | undefined ↦ none
            | failed ↦ some (error, opt)
            | done v ↦ some (ok, record opt { is_set = true; val = record opt.val { vuint = v } })
          ]))) [ undefined ↦ tt | failed ↦ unchanged opt | done v ↦ same ]

  parse_fpn-IsSame :
      (w : World S) (opt : Opt D) (val : List ℕ)
      → IsSame opt (_option_parse_fpn alloc strtod w opt val).1
  unfolding _option_parse_fpn
  parse_fpn-IsSame w opt val =
      either P ((strtod val).2 || w.erange) _ _ (unchanged opt) (parsed (strtod val).1)
    where
      P : Status × Opt D × World S → Type 0
      P r = IsSame opt r.1

      parsed :
          (loc : List ℕ)
          → P (elim loc [
            | [] ↦ (
              ok,
              record opt { is_set = true; val = record opt.val { vfpn = (strtod val).0 } },
              record w { erange = (strtod val).2 || w.erange },
            )
            | c ∷ cs ↦ (error, opt, record w { erange = (strtod val).2 || w.erange })
          ])
      parsed [] = same
      parsed (c ∷ cs) = unchanged opt

  option_set-SetSame :
      (w : World S) (opt : Opt D) (val : List ℕ) → SetSame opt (option_set alloc strtod w opt val)
  unfolding option_set _option_parse_str
  option_set-SetSame w opt val = choose opt.type refl
    where
      choose : (k : OptionType) → opt.type ≡ k → SetSame opt (option_set alloc strtod w opt val)
      choose bool_type e = rw e (parse_bool-IsSame (record opt { type = bool_type }) val)
      choose uint_type e = rw e (parse_uint-SetSame w (record opt { type = uint_type }) val)
      choose fpn_type e = rw e (parse_fpn-IsSame w (record opt { type = fpn_type }) val)
      choose str_type e = rw e (copy_str-IsSame w (record opt { type = str_type }) val)
      choose sentinel e = rw e (unchanged (record opt { type = sentinel }))

  set_named-FileSame :
      (w : World S) (name val : List ℕ) (opts : List (Opt D))
      → FileSame opts (set_named alloc strtod w name val opts)
  unfolding set_named
  set_named-FileSame w name val [] = tt
  set_named-FileSame w name val (opt ∷ opts) =
      either (FileSame (opt ∷ opts)) (same_text name opt.name) _ _
        (found (option_set alloc strtod w opt val) (option_set-SetSame w opt val))
        (passed (set_named alloc strtod w name val opts) (set_named-FileSame w name val opts))
    where
      found :
          (r : Option (Status × Opt D × World S))
          → SetSame opt r
          → FileSame (opt ∷ opts) (alone alloc strtod opts r)
      found none h = tt
      found (some (status, opt', w')) h = (h, AllSame-refl opts)

      passed :
          (r : Option (Loaded alloc strtod))
          → FileSame opts r
          → FileSame (opt ∷ opts) (behind? alloc strtod opt r)
      passed none h = tt
      passed (some (status, opts', w')) h = (unchanged opt, h)

  load_line-FileSame :
      (w : World S) (line : Line) (opts : List (Opt D))
      → FileSame opts (load_line alloc strtod w line opts)
  unfolding load_line
  load_line-FileSame w blank opts = AllSame-refl opts
  load_line-FileSame w malformed opts = AllSame-refl opts
  load_line-FileSame w (setting name val) opts = set_named-FileSame w name val opts

  then_lines-FileSame :
      (r : Option (Loaded alloc strtod)) (f : World S → List (Opt D) → Option (Loaded alloc strtod))
      (opts : List (Opt D))
      → FileSame opts r
      → ((w : World S) (os : List (Opt D)) → FileSame os (f w os))
      → FileSame opts (then_lines alloc strtod r f)
  then_lines-FileSame none f opts h k = tt
  then_lines-FileSame (some (ok, os, w)) f opts h k = extend (f w os) (k w os)
    where
      extend : (r : Option (Loaded alloc strtod)) → FileSame os r → FileSame opts r
      extend none i = tt
      extend (some (status, os', w')) i = AllSame-trans opts os os' h i
  then_lines-FileSame (some (error, os, w)) f opts h k = h
  then_lines-FileSame (some (eagain, os, w)) f opts h k = h
  then_lines-FileSame (some (eretry, os, w)) f opts h k = h
  then_lines-FileSame (some (enomem, os, w)) f opts h k = h
  then_lines-FileSame (some (eempty, os, w)) f opts h k = h
  then_lines-FileSame (some (erdhup, os, w)) f opts h k = h
  then_lines-FileSame (some (einval, os, w)) f opts h k = h
  then_lines-FileSame (some (unfin, os, w)) f opts h k = h

  load_lines-FileSame :
      (failure : Bool) (ls : List (List ℕ)) (w : World S) (opts : List (Opt D))
      → FileSame opts (load_lines alloc strtod failure ls w opts)
  unfolding load_lines
  load_lines-FileSame failure [] w opts = AllSame-refl opts
  load_lines-FileSame failure (l ∷ ls) w opts =
      then_lines-FileSame (load_line alloc strtod w (_option_parse (up_to_nul l)) opts)
        (load_lines alloc strtod failure ls) opts
        (load_line-FileSame w (_option_parse (up_to_nul l)) opts) (load_lines-FileSame failure ls)

  -- Whatever a file holds, and whether or not it is loaded without error, there are the same options
  -- after it in the same order, each with its name, type, default and description; only their
  -- values and whether they are set may have changed.
  pub option_load_file-AllSame :
      (w : World S) (file : List ℕ) (failure : Bool) (opts : List (Opt D))
      → FileSame opts (option_load_file alloc strtod w file failure opts)
  unfolding option_load_file
  option_load_file-AllSame w file failure opts =
      load_lines-FileSame failure (lines_from [] file) w opts
