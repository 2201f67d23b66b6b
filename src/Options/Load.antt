-- ===== src/Options/Load.antt =====
-- Setting all options, from their defaults or from a file, in src/cc_option.c.
pub mod Defaults
pub mod Lines
pub mod Kept
pub mod Late
use ccommon.Prelude.{
  ℕ, zero, suc, ◌+◌, List, [], ◌∷◌, ◌++◌, Option, none, some, Bool, true, false, if◌then◌else◌,
  ◌==◌, ◌||◌, not, length,
}
use ccommon.Status.{Status, ok, error}
use ccommon.Options.Line.{Line, blank, malformed, setting, _option_parse, optline_maxlen}
use ccommon.Options.Store.{
  OptionType, bool_type, uint_type, fpn_type, str_type, sentinel, OptionVal, Opt, World, same_text,
  option_default, option_set,
}

-- The calls of `fgets` on a file's bytes: a line ends behind a newline, or when the buffer is full.
unfoldable pub lines_from : List ℕ → List ℕ → List (List ℕ)
lines_from [] [] = []
lines_from (c ∷ line) [] = (c ∷ line) ∷ []
lines_from line (c ∷ file) =
    let fresh = lines_from [] file in
    let longer = lines_from (line ++ c ∷ []) file in
    if c == 10 || length (line ++ c ∷ []) == optline_maxlen
    then (line ++ c ∷ []) ∷ fresh
    else longer

-- A buffer as a string: up to the first NUL.
unfoldable pub up_to_nul : List ℕ → List ℕ
up_to_nul [] = []
up_to_nul (c ∷ cs) = let rest = up_to_nul cs in if c == 0 then [] else c ∷ rest

module _ {ℓ κ} {D : Type ℓ} {S : Type κ} (alloc : S → Bool × S)
    (strtod : List ℕ → D × List ℕ × Bool) where
  abbrev pub Loaded : Type (ℓ ⊔ κ)
  Loaded = Status × List (Opt D) × World S

  -- An option in front of those that a loop has gone through.
  abbrev pub behind : Opt D → Loaded → Loaded
  behind opt (status, opts, w) = (status, opt ∷ opts, w)

  abbrev pub go_on : List (Opt D) → Loaded → Status × Opt D × World S → Loaded
  go_on opts rest (ok, opt, w) = behind opt rest
  go_on opts rest (status, opt, w) = (status, opt ∷ opts, w)

  -- `option_load_default`, which returns at the first option that has no default.
  unfoldable pub option_load_default : World S → List (Opt D) → Loaded
  unfolding option_default
  option_load_default w [] = (ok, [], w)
  option_load_default w (opt ∷ opts) =
      let set_opt = option_default alloc strtod w opt in
      go_on opts (option_load_default set_opt.2 opts) set_opt

  abbrev pub alone : List (Opt D) → Option (Status × Opt D × World S) → Option Loaded
  alone opts none = none
  alone opts (some (status, opt, w)) = some (status, opt ∷ opts, w)

  abbrev pub behind? : Opt D → Option Loaded → Option Loaded
  behind? opt none = none
  behind? opt (some r) = some (behind opt r)

  -- The loop over the options for the one with a name; it is an error if there is none.
  unfoldable pub set_named : World S → List ℕ → List ℕ → List (Opt D) → Option Loaded
  unfolding option_set
  set_named w name val [] = some (error, [], w)
  set_named w name val (opt ∷ opts) =
      let rest = set_named w name val opts in
      if same_text name opt.name
      then alone opts (option_set alloc strtod w opt val)
      else behind? opt rest

  -- One line.
  unfoldable pub load_line : World S → Line → List (Opt D) → Option Loaded
  unfolding set_named
  load_line w blank opts = some (ok, opts, w)
  load_line w malformed opts = some (error, opts, w)
  load_line w (setting name val) opts = set_named w name val opts

  -- `CC_OK` is passed on to the next line; every other status ends the loading with `CC_ERROR`.
  abbrev pub then_lines : Option Loaded → (World S → List (Opt D) → Option Loaded) → Option Loaded
  then_lines none next = none
  then_lines (some (ok, opts, w)) next = next w opts
  then_lines (some (status, opts, w)) next = some (error, opts, w)

  -- The loop over the lines, and the test for an error of the file at its end.
  unfoldable pub load_lines : Bool → List (List ℕ) → World S → List (Opt D) → Option Loaded
  unfolding load_line _option_parse up_to_nul
  load_lines failure [] w opts = some (if failure then error else ok, opts, w)
  load_lines failure (line ∷ lines) w opts =
      then_lines (load_line w (_option_parse (up_to_nul line)) opts) (load_lines failure lines)

  -- `option_load_file`, on what can be read of the file and whether an error ended the reading; none
  -- where the behaviour is undefined.
  unfoldable pub option_load_file : World S → List ℕ → Bool → List (Opt D) → Option Loaded
  unfolding lines_from load_lines
  option_load_file w file failure opts = load_lines failure (lines_from [] file) w opts
