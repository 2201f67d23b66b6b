-- ===== src/Options/Load/Late.antt =====
-- Loading a file while `errno` is `ERANGE`.
use ccommon.Prelude.{
  ℕ, ◌≡◌, ◌≢◌, ◌∙◌, refl, sym, ap, subst, arith, List, [], ◌∷◌, Option, none, some, Bool, true,
  false, if◌then◌else◌, ◌||◌,
}
use ccommon.Status.{Status, ok, error, eagain, eretry, enomem, eempty, erdhup, einval, unfin}
use ccommon.Options.Line.{Line, blank, malformed, setting, _option_parse}
use ccommon.Options.Store.{
  OptionType, bool_type, uint_type, fpn_type, str_type, sentinel, Opt, World, same_text, option_set,
  _option_parse_bool, _option_parse_uint, _option_parse_fpn, _option_parse_str, copy_str,
  uint_result,
}
use ccommon.Options.Load.{
  option_load_file, set_named, load_line, load_lines, then_lines, lines_from, up_to_nul, behind?,
  alone, Loaded,
}

module _ {D : Type 0} where
  -- A floating point option is as it was.
  abbrev pub IsKept : Opt D → Opt D → Type 0
  IsKept opt opt' = opt.type ≡ fpn_type → opt' ≡ opt

  abbrev pub AllKept : List (Opt D) → List (Opt D) → Type 0
  AllKept [] [] = Unit
  AllKept [] (o' ∷ os') = ⊥
  AllKept (o ∷ os) [] = ⊥
  AllKept (o ∷ os) (o' ∷ os') = IsKept o o' × AllKept os os'

  AllKept-refl : (os : List (Opt D)) → AllKept os os
  AllKept-refl [] = tt
  AllKept-refl (o ∷ os) = ((λ e. refl), AllKept-refl os)

  IsKept-trans : (a b c : Opt D) → IsKept a b → IsKept b c → IsKept a c
  IsKept-trans a b c h k e = k (ap (λ o. o.type) (h e) ∙ e) ∙ h e

  AllKept-trans : (xs ys zs : List (Opt D)) → AllKept xs ys → AllKept ys zs → AllKept xs zs
  AllKept-trans [] [] [] h k = tt
  AllKept-trans [] [] (c ∷ zs) h k = absurd k
  AllKept-trans [] (b ∷ ys) zs h k = absurd h
  AllKept-trans (a ∷ xs) [] zs h k = absurd h
  AllKept-trans (a ∷ xs) (b ∷ ys) [] h k = absurd k
  AllKept-trans (a ∷ xs) (b ∷ ys) (c ∷ zs) h k =
      (IsKept-trans a b c h.0 k.0, AllKept-trans xs ys zs h.1 k.1)

module _ {D S : Type 0} (alloc : S → Bool × S) (strtod : List ℕ → D × List ℕ × Bool) where
  abbrev SetKeeps : Opt D → Option (Status × Opt D × World S) → Type 0
  SetKeeps opt none = Unit
  SetKeeps opt (some (status, opt', w)) = (w.erange ≡ true) × IsKept opt opt'

  abbrev Keeps : List (Opt D) → Option (Loaded alloc strtod) → Type 0
  Keeps opts none = Unit
  Keeps opts (some (status, opts', w)) = (w.erange ≡ true) × AllKept opts opts'

  other_type :
      (w : World S) (opt : Opt D) (r : Option (Status × Opt D))
      → w.erange ≡ true
      → opt.type ≢ fpn_type
      → SetKeeps opt (uint_result alloc strtod w r)
  other_type w opt none h ne = tt
  other_type w opt (some (status, opt')) h ne = (h, λ e. absurd (ne e))

  copy_str-SetKeeps :
      (w : World S) (opt : Opt D) (str : List ℕ)
      → w.erange ≡ true
      → opt.type ≢ fpn_type
      → SetKeeps opt (some (copy_str alloc strtod w opt str))
  copy_str-SetKeeps w opt str h ne = choose (alloc w.heap).0
    where
      w' : World S
      w' = record w { heap = (alloc w.heap).1 }

      choose :
          (b : Bool)
          → SetKeeps opt (
              some (
                if b
                then (
                  ok,
                  record opt { is_set = true; val = record opt.val { vstr = some str } },
                  w',
                )
                else (
                  error,
                  record opt { is_set = true; val = record opt.val { vstr = none } },
                  w',
                )))
      choose true = (h, λ e. absurd (ne e))
      choose false = (h, λ e. absurd (ne e))

  out_of_range :
      (w : World S) (opt : Opt D) (val : List ℕ)
      → w.erange ≡ true
      → _option_parse_fpn alloc strtod w opt val ≡ (error, opt, w)
  unfolding _option_parse_fpn
  out_of_range w opt val h =
      let e : ((strtod val).2 || w.erange) ≡ true = late (strtod val).2 in
      rw e (ap (λ b. (error, opt, record w { erange = b })) (sym h))
    where
      late : (b : Bool) → (b || w.erange) ≡ true
      late true = refl
      late false = h

  option_set-SetKeeps :
      (w : World S) (opt : Opt D) (val : List ℕ)
      → w.erange ≡ true
      → SetKeeps opt (option_set alloc strtod w opt val)
  unfolding option_set _option_parse_str
  option_set-SetKeeps w opt val h = choose opt.type refl
    where
      choose : (k : OptionType) → opt.type ≡ k → SetKeeps opt (option_set alloc strtod w opt val)
      choose bool_type e = rw e (
          other_type w (record opt { type = bool_type })
            (some (_option_parse_bool (record opt { type = bool_type }) val)) h
            (λ z. ground (arith, z)))
      choose uint_type e = rw e (
          other_type w (record opt { type = uint_type })
            (_option_parse_uint (record opt { type = uint_type }) val) h (λ z. ground (arith, z)))
      choose fpn_type e = rw e (
          subst (λ r. SetKeeps (record opt { type = fpn_type }) (some r))
            (sym (out_of_range w (record opt { type = fpn_type }) val h)) (h, λ z. refl))
      choose str_type e =
          rw e (copy_str-SetKeeps w (record opt { type = str_type }) val h (λ z. ground (arith, z)))
      choose sentinel e = rw e (h, λ z. refl)

  set_named-Keeps :
      (w : World S) (name val : List ℕ) (opts : List (Opt D))
      → w.erange ≡ true
      → Keeps opts (set_named alloc strtod w name val opts)
  unfolding set_named
  set_named-Keeps w name val [] h = (h, tt)
  set_named-Keeps w name val (opt ∷ opts) h =
      either (same_text name opt.name) _ _
        (found (option_set alloc strtod w opt val) (option_set-SetKeeps w opt val h))
        (passed (set_named alloc strtod w name val opts) (set_named-Keeps w name val opts h))
    where
      found :
          (r : Option (Status × Opt D × World S))
          → SetKeeps opt r
          → Keeps (opt ∷ opts) (alone alloc strtod opts r)
      found none k = tt
      found (some (status, opt', w')) k = (k.0, (k.1, AllKept-refl opts))

      passed :
          (r : Option (Loaded alloc strtod))
          → Keeps opts r
          → Keeps (opt ∷ opts) (behind? alloc strtod opt r)
      passed none k = tt
      passed (some (status, opts', w')) k = (k.0, ((λ e. refl), k.1))

      either :
          (b : Bool) (x y : Option (Loaded alloc strtod))
          → Keeps (opt ∷ opts) x
          → Keeps (opt ∷ opts) y
          → Keeps (opt ∷ opts) (if b then x else y)
      either true x y k l = k
      either false x y k l = l

  load_line-Keeps :
      (w : World S) (line : Line) (opts : List (Opt D))
      → w.erange ≡ true
      → Keeps opts (load_line alloc strtod w line opts)
  unfolding load_line
  load_line-Keeps w blank opts h = (h, AllKept-refl opts)
  load_line-Keeps w malformed opts h = (h, AllKept-refl opts)
  load_line-Keeps w (setting name val) opts h = set_named-Keeps w name val opts h

  then_lines-Keeps :
      (r : Option (Loaded alloc strtod)) (f : World S → List (Opt D) → Option (Loaded alloc strtod))
      (opts : List (Opt D))
      → Keeps opts r
      → ((w : World S) (os : List (Opt D)) → w.erange ≡ true → Keeps os (f w os))
      → Keeps opts (then_lines alloc strtod r f)
  then_lines-Keeps none f opts h k = tt
  then_lines-Keeps (some (ok, os, w)) f opts h k = extend (f w os) (k w os h.0)
    where
      extend : (r : Option (Loaded alloc strtod)) → Keeps os r → Keeps opts r
      extend none i = tt
      extend (some (status, os', w')) i = (i.0, AllKept-trans opts os os' h.1 i.1)
  then_lines-Keeps (some (error, os, w)) f opts h k = h
  then_lines-Keeps (some (eagain, os, w)) f opts h k = h
  then_lines-Keeps (some (eretry, os, w)) f opts h k = h
  then_lines-Keeps (some (enomem, os, w)) f opts h k = h
  then_lines-Keeps (some (eempty, os, w)) f opts h k = h
  then_lines-Keeps (some (erdhup, os, w)) f opts h k = h
  then_lines-Keeps (some (einval, os, w)) f opts h k = h
  then_lines-Keeps (some (unfin, os, w)) f opts h k = h

  load_lines-Keeps :
      (failure : Bool) (ls : List (List ℕ)) (w : World S) (opts : List (Opt D))
      → w.erange ≡ true
      → Keeps opts (load_lines alloc strtod failure ls w opts)
  unfolding load_lines
  load_lines-Keeps failure [] w opts h = (h, AllKept-refl opts)
  load_lines-Keeps failure (l ∷ ls) w opts h =
      then_lines-Keeps (load_line alloc strtod w (_option_parse (up_to_nul l)) opts)
        (load_lines alloc strtod failure ls) opts
        (load_line-Keeps w (_option_parse (up_to_nul l)) opts h) (load_lines-Keeps failure ls)

  -- What a load leaves of the floating point options.
  abbrev pub FileKeeps : List (Opt D) → Option (Loaded alloc strtod) → Type 0
  FileKeeps opts none = Unit
  FileKeeps opts (some (status, opts', w)) = AllKept opts opts'

  -- If `errno` is `ERANGE` when the loading of a file starts, no floating point option is changed by
  -- it, whatever the file holds and whether or not it is loaded without error, where an allocation
  -- that goes well leaves `errno` alone.
  pub option_load_file-AllKept :
      (w : World S) (file : List ℕ) (failure : Bool) (opts : List (Opt D))
      → w.erange ≡ true
      → FileKeeps opts (option_load_file alloc strtod w file failure opts)
  unfolding option_load_file
  option_load_file-AllKept w file failure opts h =
      all (option_load_file alloc strtod w file failure opts)
        (load_lines-Keeps failure (lines_from [] file) w opts h)
    where
      all : (r : Option (Loaded alloc strtod)) → Keeps opts r → FileKeeps opts r
      all none k = tt
      all (some (status, opts', w')) k = k.1
