-- ===== src/Options/Line.antt =====
-- One line of a configuration file, `name: value`, in src/cc_option.c.
pub mod Accept
pub mod Parts
use ccommon.Prelude.{
  ℕ, zero, suc, ◌≤◌, ◌<◌, List, [], ◌∷◌, Option, none, some, Bool, true, false, if◌then◌else◌, ltb,
  leb, ◌==◌, ◌&&◌, ◌||◌, length,
}

abbrev pub optline_maxlen : ℕ
optline_maxlen = 1024

abbrev pub optname_maxlen : ℕ
optname_maxlen = 31

abbrev pub optval_maxlen : ℕ
optval_maxlen = 255

-- `isspace` and `isalnum` of the C locale.
abbrev pub isspace : ℕ → Bool
isspace c = c == b' ' || leb 9 c && leb c 13

abbrev pub isalnum : ℕ → Bool
isalnum c = leb b'0' c && leb c b'9' || (leb b'A' c && leb c b'Z' || leb b'a' c && leb c b'z')

-- What a line leads to: `CC_EEMPTY`, `CC_ERROR`, or `CC_OK` with the name and the value.
pub data Line : Type 0 where
  blank : Line
  malformed : Line
  setting : List ℕ → List ℕ → Line

-- `_allowed_in_name`.
unfoldable pub _allowed_in_name : ℕ → Bool
_allowed_in_name c = isalnum c || c == b'_'

abbrev pub extend : ℕ → Option (List ℕ × List ℕ) → Option (List ℕ × List ℕ)
extend c none = none
extend c (some (name, p)) = some (c ∷ name, p)

-- The loop over the name, for at most the given number of bytes: the name and the text from `p` on,
-- or nothing at an invalid character.
unfoldable pub parse_name : ℕ → List ℕ → Option (List ℕ × List ℕ)
unfolding _allowed_in_name
parse_name zero p = some ([], p)
parse_name (suc n) [] = some ([], [])
parse_name (suc n) (c ∷ p) =
    let rest = parse_name n p in
    if c == b':' then some ([], c ∷ p) else if _allowed_in_name c then extend c rest else none

-- The loop over white space at the start of the value, which stops at its last byte.
unfoldable pub ltrim : List ℕ → List ℕ
ltrim [] = []
ltrim (c ∷ []) = c ∷ []
ltrim (c ∷ d ∷ p) = let rest = ltrim (d ∷ p) in if isspace c then rest else c ∷ d ∷ p

abbrev pub keep : ℕ → List ℕ → List ℕ
keep c [] = if isspace c then [] else c ∷ []
keep c (d ∷ p) = c ∷ d ∷ p

-- The loop over white space at the end.
unfoldable pub rtrim : List ℕ → List ℕ
rtrim [] = []
rtrim (c ∷ p) = keep c (rtrim p)

-- The end of `_option_parse`: the value between the white space.
abbrev pub parse_value : List ℕ → List ℕ → Line
parse_value name [] = malformed
parse_value name (c ∷ val) =
    if ltb optval_maxlen (length (c ∷ val)) then malformed else setting name (c ∷ val)

-- The checks after the loop over the name: the line has ended, or the name is too long.
unfoldable pub parse_rest : Option (List ℕ × List ℕ) → Line
unfolding ltrim rtrim
parse_rest none = malformed
parse_rest (some (name, [])) = malformed
parse_rest (some (name, c ∷ p)) =
    if ltb optname_maxlen (length name) then malformed else parse_value name (rtrim (ltrim p))

-- `_option_parse`.
unfoldable pub _option_parse : List ℕ → Line
unfolding parse_name parse_rest
_option_parse [] = blank
_option_parse (c ∷ line) =
    if isspace c || c == b'#'
    then blank
    else if ltb optline_maxlen (length (c ∷ line))
    then malformed
    else parse_rest (parse_name (suc optname_maxlen) (c ∷ line))
