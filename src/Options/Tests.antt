-- ===== src/Options/Tests.antt =====
-- Lines, options and files on concrete inputs.
use ccommon.Prelude.{
  ℕ, ◌+◌, ◌≤◌, ◌≡◌, refl, arith, List, [], ◌∷◌, ◌++◌, none, some, Bool, true, false, length, inr,
}
use ccommon.Print.Decimal.{decimal, AreDigits-decimal, value-decimal}
use ccommon.Status.{ok, error}
use ccommon.Options.Rpn.{atoll}
use ccommon.Options.Line.{
  malformed, setting, _option_parse, _allowed_in_name, optname_maxlen, optval_maxlen,
}
use ccommon.Options.Line.Accept.{_option_parse-setting, IsName, IsValue}
use ccommon.Options.Line.Parts.{_option_parse-parts, IsSetting}
use ccommon.Options.Store.{
  OptionType, bool_type, uint_type, fpn_type, str_type, OptionVal, Opt, World, option_set,
}
use ccommon.Options.Load.{option_load_default, option_load_file, load_line, load_lines}
use ccommon.Options.Load.Defaults.{option_load_default_lem, AllDefault}
use ccommon.Options.Load.Lines.{load_lines_stop}
use ccommon.Options.Load.Kept.{option_load_file-AllSame, FileSame}
use ccommon.Options.Load.Late.{option_load_file-AllKept, FileKeeps}
use ccommon.Options.Show.{option_print_val, option_set-option_print_val}

-- The allocator counts, and a floating point value is a number that uses all of the text.
abbrev counting : ℕ → Bool × ℕ
counting n = (true, n + 1)

abbrev whole : List ℕ → ℕ × List ℕ × Bool
whole str = (length str, [], false)

abbrev plain : World ℕ
plain = record { heap = 0; erange = false }

abbrev late : World ℕ
late = record { heap = 0; erange = true }

abbrev nothing : OptionVal ℕ
nothing = record { vbool = false; vuint = 0; vfpn = 0; vstr = none }

abbrev of_type : List ℕ → OptionType → OptionVal ℕ → Opt ℕ
of_type name type default = record {
  name = name;
  is_set = false;
  type = type;
  default_val = default;
  val = nothing;
  description = [];
}

abbrev on_opt : Opt ℕ
on_opt = of_type (b'o' ∷ b'n' ∷ []) bool_type (record nothing { vbool = true })

abbrev n_opt : Opt ℕ
n_opt = of_type (b'n' ∷ []) uint_type (record nothing { vuint = 5 })

abbrev s_opt : Opt ℕ
s_opt = of_type (b's' ∷ []) str_type (record nothing { vstr = some (b'x' ∷ []) })

abbrev f_opt : Opt ℕ
f_opt = of_type (b'f' ∷ []) fpn_type nothing

abbrev three : List (Opt ℕ)
three = on_opt ∷ n_opt ∷ s_opt ∷ []

-- "n: 2*3"
abbrev n_line : List ℕ
n_line = b'n' ∷ b':' ∷ b' ' ∷ b'2' ∷ b'*' ∷ b'3' ∷ 10 ∷ []

abbrev on_line : List ℕ
on_line = b'o' ∷ b'n' ∷ b':' ∷ b'n' ∷ b'o' ∷ 10 ∷ []

abbrev bad_line : List ℕ
bad_line = b'n' ∷ 10 ∷ []

load_run :
    option_load_file counting whole plain (n_line ++ b'#' ∷ 10 ∷ on_line) false three
    ≡ some (
      ok,
      record on_opt { is_set = true }
          ∷ record n_opt { is_set = true; val = record nothing { vuint = 6 } }
          ∷ s_opt
          ∷ [],
      plain,
    )
unfolding option_load_file atoll
load_run = refl

bad_run :
    option_load_file counting whole plain (bad_line ++ on_line) false three
    ≡ some (error, three, plain)
unfolding option_load_file
bad_run = refl

empty_value_run : _option_parse (b'n' ∷ b':' ∷ b' ' ∷ b' ' ∷ 10 ∷ []) ≡ malformed
unfolding _option_parse
empty_value_run = refl

_option_parse-setting_example :
    _option_parse (b'n' ∷ b':' ∷ b' ' ∷ b'2' ∷ b' ' ∷ b'*' ∷ 10 ∷ [])
    ≡ setting (b'n' ∷ []) (b'2' ∷ b' ' ∷ b'*' ∷ [])
unfolding _allowed_in_name
_option_parse-setting_example =
    _option_parse-setting (b'n' ∷ []) (b' ' ∷ []) (b'2' ∷ b' ' ∷ b'*' ∷ []) (10 ∷ []) (refl, tt)
      (omega arith) (refl, tt) (refl, refl) (omega arith) (refl, tt) (omega arith)

_option_parse-parts_example :
    IsSetting n_line (b'n' ∷ []) (b'2' ∷ b'*' ∷ b'3' ∷ [])
    × IsName (b'n' ∷ [])
    × (length {A = ℕ} (b'n' ∷ []) ≤ optname_maxlen)
    × IsValue (b'2' ∷ b'*' ∷ b'3' ∷ [])
    × (length {A = ℕ} (b'2' ∷ b'*' ∷ b'3' ∷ []) ≤ optval_maxlen)
unfolding _option_parse
_option_parse-parts_example = _option_parse-parts n_line (b'n' ∷ []) (b'2' ∷ b'*' ∷ b'3' ∷ []) refl

option_load_default_lem_example :
    ((option_load_default counting whole plain three).0 ≡ ok)
    × AllDefault counting whole three (option_load_default counting whole plain three).1
option_load_default_lem_example =
    option_load_default_lem counting whole plain three (λ s. refl)
      ((λ e. ground (arith, e)), ((λ e. ground (arith, e)), ((λ e. ground (arith, e)), tt)))

load_lines_stop_example :
    load_lines counting whole false ((on_line ∷ []) ++ bad_line ∷ n_line ∷ []) plain three
    ≡ some (error, record on_opt { is_set = true } ∷ n_opt ∷ s_opt ∷ [], plain)
unfolding load_lines load_line
load_lines_stop_example =
    load_lines_stop counting whole false (on_line ∷ []) bad_line (n_line ∷ []) plain plain plain
      three (record on_opt { is_set = true } ∷ n_opt ∷ s_opt ∷ [])
      (record on_opt { is_set = true } ∷ n_opt ∷ s_opt ∷ []) error refl refl
      (λ e. ground (arith, e))

option_load_file-AllSame_example :
    FileSame counting whole three
      (option_load_file counting whole plain (n_line ++ bad_line) false three)
option_load_file-AllSame_example =
    option_load_file-AllSame counting whole plain (n_line ++ bad_line) false three

-- The number is in range, and "on: no" is set before it.
abbrev f_line : List ℕ
f_line = b'f' ∷ b':' ∷ b'1' ∷ 10 ∷ []

option_load_file-AllKept_example :
    FileKeeps counting whole
      (f_opt ∷ three)
      (option_load_file counting whole late (on_line ++ f_line) false (f_opt ∷ three))
option_load_file-AllKept_example =
    option_load_file-AllKept counting whole late (on_line ++ f_line) false (f_opt ∷ three) refl

abbrev two_digits : ℕ → List ℕ
two_digits n = decimal 2 n

abbrev n_value : Opt ℕ
n_value = record n_opt { val = record nothing { vuint = 42 } }

option_set-option_print_val_example :
    (str : List ℕ) × (option_print_val two_digits two_digits 4096 uint_type
        (record nothing { vuint = 42 })
      ≡ some str)
    × (option_set counting whole plain n_value str
        ≡ some (ok, record n_value { is_set = true }, plain))
option_set-option_print_val_example =
    option_set-option_print_val counting whole two_digits two_digits plain n_value 4096
      (omega arith)
      (inr (
        refl,
        (AreDigits-decimal 2 42, omega arith, value-decimal 2 42 (omega arith), omega arith),
        omega arith,
        omega arith,
      ))
