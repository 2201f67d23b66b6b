-- ===== src/Options/Line/Accept.antt =====
-- Which lines are settings.
use ccommon.Prelude.{
  ℕ, zero, suc, ◌≤◌, ◌<◌, ◌≡◌, ◌∙◌, refl, ap, arith, List, [], ◌∷◌, ◌++◌, some, true, false, ◌==◌,
  ◌||◌, length, le→ltb,
}
use ccommon.Options.Line.{
  optline_maxlen, optname_maxlen, optval_maxlen, isspace, setting, _allowed_in_name, extend,
  parse_name, ltrim, keep, rtrim, parse_value, parse_rest, _option_parse,
}

-- All bytes of a name are allowed, all of a blank are white space.
abbrev pub IsName : List ℕ → Type 0
IsName [] = Unit
IsName (c ∷ cs) = (_allowed_in_name c ≡ true) × IsName cs

abbrev pub IsBlank : List ℕ → Type 0
IsBlank [] = Unit
IsBlank (c ∷ cs) = (isspace c ≡ true) × IsBlank cs

-- The text ends in a byte that is not white space.
abbrev pub IsEnded : List ℕ → Type 0
IsEnded [] = ⊥
IsEnded (c ∷ []) = isspace c ≡ false
IsEnded (c ∷ d ∷ cs) = IsEnded (d ∷ cs)

-- A value starts and ends in a byte that is not white space.
abbrev pub IsValue : List ℕ → Type 0
IsValue [] = ⊥
IsValue (c ∷ cs) = (isspace c ≡ false) × IsEnded (c ∷ cs)

name_byte : (c : ℕ) → _allowed_in_name c ≡ true → (c == b':') ≡ false
unfolding _allowed_in_name
name_byte c h = ground arith

start_byte : (c : ℕ) → _allowed_in_name c ≡ true → (isspace c || c == b'#') ≡ false
unfolding _allowed_in_name
start_byte c h = ground arith

parse_name-colon :
    (n : ℕ) (name p : List ℕ)
    → length name < n
    → IsName name
    → parse_name n (name ++ b':' ∷ p) ≡ some (name, b':' ∷ p)
unfolding parse_name
parse_name-colon zero name p h k = absurd (omega arith)
parse_name-colon (suc n) [] p h k = refl
parse_name-colon (suc n) (c ∷ name) p h k =
    rw (name_byte c k.0, k.0) (ap (extend c) (parse_name-colon n name p (omega arith) k.1))

ltrim-value : (val p : List ℕ) → IsValue val → ltrim (val ++ p) ≡ val ++ p
unfolding ltrim
ltrim-value [] p h = absurd h
ltrim-value (c ∷ []) [] h = refl
ltrim-value (c ∷ []) (d ∷ p) h = rw h.0
ltrim-value (c ∷ d ∷ val) p h = rw h.0

ltrim-blank : (l val p : List ℕ) → IsBlank l → IsValue val → ltrim (l ++ (val ++ p)) ≡ val ++ p
unfolding ltrim
ltrim-blank [] val p h k = ltrim-value val p k
ltrim-blank (c ∷ []) [] p h k = absurd k
ltrim-blank (c ∷ []) (d ∷ val) p h k = rw h.0 (ltrim-value (d ∷ val) p k)
ltrim-blank (c ∷ d ∷ l) val p h k = rw h.0 (ltrim-blank (d ∷ l) val p h.1 k)

rtrim-blank : (r : List ℕ) → IsBlank r → rtrim r ≡ []
unfolding rtrim
rtrim-blank [] h = refl
rtrim-blank (c ∷ r) h = ap (keep c) (rtrim-blank r h.1) ∙ rw h.0

rtrim-ended : (val r : List ℕ) → IsEnded val → IsBlank r → rtrim (val ++ r) ≡ val
unfolding rtrim
rtrim-ended [] r h k = absurd h
rtrim-ended (c ∷ []) r h k = ap (keep c) (rtrim-blank r k) ∙ rw h
rtrim-ended (c ∷ d ∷ val) r h k = ap (keep c) (rtrim-ended (d ∷ val) r h k)

parse_value-value :
    (name val : List ℕ)
    → IsValue val
    → length val ≤ optval_maxlen
    → parse_value name val ≡ setting name val
parse_value-value name [] h k = absurd h
parse_value-value name (c ∷ val) h k = rw (le→ltb optval_maxlen (length (c ∷ val)) k)

started :
    (name p : List ℕ)
    → IsName name
    → length (name ++ b':' ∷ p) ≤ optline_maxlen
    → _option_parse (name ++ b':' ∷ p)
      ≡ parse_rest (parse_name (suc optname_maxlen) (name ++ b':' ∷ p))
unfolding _option_parse
started [] p h k = rw (le→ltb optline_maxlen (length (b':' ∷ p)) k)
started (c ∷ name) p h k =
    rw (start_byte c h.0, le→ltb optline_maxlen (length (c ∷ (name ++ b':' ∷ p))) k)

-- A line of at most 1024 bytes with a name of at most 31 letters, digits and underscores, a colon, and
-- a value of at most 255 bytes with any white space around it, is the setting of that name to that
-- value.
pub _option_parse-setting :
    (name l val r : List ℕ)
    → IsName name
    → length name ≤ optname_maxlen
    → IsBlank l
    → IsValue val
    → length val ≤ optval_maxlen
    → IsBlank r
    → length (name ++ b':' ∷ (l ++ (val ++ r))) ≤ optline_maxlen
    → _option_parse (name ++ b':' ∷ (l ++ (val ++ r))) ≡ setting name val
unfolding parse_rest
_option_parse-setting name l val r h short hl hv small hr fits =
    started name (l ++ (val ++ r)) h fits
    ∙ ap parse_rest (parse_name-colon (suc optname_maxlen) name (l ++ (val ++ r)) (omega arith) h)
    ∙ rw (le→ltb optname_maxlen (length name) short) (
        ap (λ t. parse_value name (rtrim t)) (ltrim-blank l val r hl hv)
        ∙ ap (parse_value name) (rtrim-ended val r (ended val hv) hr)
        ∙ parse_value-value name val hv small)
  where
    ended : (val : List ℕ) → IsValue val → IsEnded val
    ended [] h = absurd h
    ended (c ∷ val) h = h.1
