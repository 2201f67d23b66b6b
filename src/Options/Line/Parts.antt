-- ===== src/Options/Line/Parts.antt =====
-- The parts of a line that is a setting.
use ccommon.Prelude.{
  ℕ, zero, suc, ◌≤◌, ◌<◌, ◌≡◌, ◌∙◌, refl, ap, subst, arith, List, [], ◌∷◌, ◌++◌, Option, none, some,
  true, false, ltb, ◌==◌, ◌||◌, length, Bool-cases, inl, inr, ◌⊎◌,
}
use ccommon.Options.Line.{
  optline_maxlen, optname_maxlen, optval_maxlen, isspace, Line, blank, malformed, setting,
  _allowed_in_name, extend, parse_name, ltrim, keep, rtrim, parse_value, parse_rest, _option_parse,
}
use ccommon.Options.Line.Accept.{IsName, IsBlank, IsEnded, IsValue}

-- Where the loop over the name stops before its bound, the line has ended or there is a colon.
abbrev IsAt : ℕ → List ℕ → List ℕ → Type 0
IsAt n name [] = Unit
IsAt n name (c ∷ p) = length name < n → c ≡ b':'

abbrev IsSplit : ℕ → List ℕ → Option (List ℕ × List ℕ) → Type 0
IsSplit n line none = Unit
IsSplit n line (some (name, p)) = (line ≡ name ++ p) × IsName name × IsAt n name p

IsAt-suc : (n c : ℕ) (name p : List ℕ) → IsAt n name p → IsAt (suc n) (c ∷ name) p
IsAt-suc n c name [] h = tt
IsAt-suc n c name (d ∷ p) h = λ k. h (omega arith)

parse_name-IsSplit : (n : ℕ) (line : List ℕ) → IsSplit n line (parse_name n line)
unfolding parse_name
parse_name-IsSplit zero [] = (refl, tt, tt)
parse_name-IsSplit zero (c ∷ p) = (refl, tt, λ h. absurd (omega arith))
parse_name-IsSplit (suc n) [] = (refl, tt, tt)
parse_name-IsSplit (suc n) (c ∷ p) = elim (Bool-cases (c == b':')) [
  | inl e ↦ rw e (refl, tt, λ h. ground arith)
  | inr e ↦ elim (Bool-cases (_allowed_in_name c)) [
    | inl k ↦ rw (e, k) (longer k (parse_name n p) (parse_name-IsSplit n p))
    | inr k ↦ rw (e, k) tt
  ]
]
  where
    longer :
        _allowed_in_name c ≡ true
        → (r : Option (List ℕ × List ℕ)) → IsSplit n p r
        → IsSplit (suc n) (c ∷ p) (extend c r)
    longer k none h = tt
    longer k (some (name, rest)) h = (ap (◌∷◌ c) h.0, (k, h.1), IsAt-suc n c name rest h.2)

-- What the trimming removes is white space.
ltrim-parts : (p : List ℕ) → (l : List ℕ) × (p ≡ l ++ ltrim p) × IsBlank l
unfolding ltrim
ltrim-parts [] = ([], refl, tt)
ltrim-parts (c ∷ []) = ([], refl, tt)
ltrim-parts (c ∷ d ∷ p) = choose (Bool-cases (isspace c)) (ltrim-parts (d ∷ p))
  where
    choose :
        (isspace c ≡ true) ⊎ (isspace c ≡ false)
        → ((l : List ℕ) × (d ∷ p ≡ l ++ ltrim (d ∷ p)) × IsBlank l)
        → (l : List ℕ) × (c ∷ d ∷ p ≡ l ++ ltrim (c ∷ d ∷ p)) × IsBlank l
    choose (inl e) h = (c ∷ h.0, rw e (ap (◌∷◌ c) h.1), (e, h.2))
    choose (inr e) h = ([], rw e, tt)

rtrim-parts : (p : List ℕ) → (r : List ℕ) × (p ≡ rtrim p ++ r) × IsBlank r
unfolding rtrim
rtrim-parts [] = ([], refl, tt)
rtrim-parts (c ∷ p) = choose (rtrim p) (rtrim-parts p) (Bool-cases (isspace c))
  where
    choose :
        (t : List ℕ)
        → ((r : List ℕ) × (p ≡ t ++ r) × IsBlank r)
        → (isspace c ≡ true) ⊎ (isspace c ≡ false)
        → (r : List ℕ) × (c ∷ p ≡ keep c t ++ r) × IsBlank r
    choose [] h (inl e) = (c ∷ h.0, rw e (ap (◌∷◌ c) h.1), (e, h.2))
    choose [] h (inr e) = (h.0, rw e (ap (◌∷◌ c) h.1), h.2)
    choose (d ∷ t) h e = (h.0, ap (◌∷◌ c) h.1, h.2)

-- What is left starts and ends in other bytes.
abbrev IsTrimmed : List ℕ → Type 0
IsTrimmed [] = Unit
IsTrimmed (c ∷ val) = IsEnded (c ∷ val)

rtrim-IsTrimmed : (p : List ℕ) → IsTrimmed (rtrim p)
unfolding rtrim
rtrim-IsTrimmed [] = tt
rtrim-IsTrimmed (c ∷ p) = choose (rtrim p) (rtrim-IsTrimmed p) (Bool-cases (isspace c))
  where
    choose :
        (t : List ℕ) → IsTrimmed t → (isspace c ≡ true) ⊎ (isspace c ≡ false) → IsTrimmed (keep c t)
    choose [] h (inl e) = rw e tt
    choose [] h (inr e) = rw e e
    choose (d ∷ t) h e = h

-- The text is empty, one byte, or starts in a byte that is not white space.
abbrev IsOpen : List ℕ → Type 0
IsOpen [] = Unit
IsOpen (c ∷ []) = Unit
IsOpen (c ∷ d ∷ p) = isspace c ≡ false

ltrim-IsOpen : (p : List ℕ) → IsOpen (ltrim p)
unfolding ltrim
ltrim-IsOpen [] = tt
ltrim-IsOpen (c ∷ []) = tt
ltrim-IsOpen (c ∷ d ∷ p) = elim (Bool-cases (isspace c)) [
  | inl e ↦ rw e (ltrim-IsOpen (d ∷ p))
  | inr e ↦ rw e e
]

abbrev IsNoneOr : List ℕ → Type 0
IsNoneOr [] = Unit
IsNoneOr (c ∷ val) = IsValue (c ∷ val)

rtrim-IsNoneOr : (p : List ℕ) → IsOpen p → IsTrimmed (rtrim p) → IsNoneOr (rtrim p)
unfolding rtrim
rtrim-IsNoneOr [] h k = tt
rtrim-IsNoneOr (c ∷ []) h k = elim (Bool-cases (isspace c)) [
  | inl e ↦ rw e tt
  | inr e ↦ rw e (e, e)
]
rtrim-IsNoneOr (c ∷ d ∷ p) h k = choose (rtrim (d ∷ p)) k
  where
    choose : (t : List ℕ) → IsTrimmed (keep c t) → IsNoneOr (keep c t)
    choose [] k = rw h (h, h)
    choose (e ∷ t) k = (h, k)

-- The name, the white space before and after the value, and the value.
abbrev pub IsSetting : List ℕ → List ℕ → List ℕ → Type 0
IsSetting line name val =
    (l : List ℕ) × (r : List ℕ) × (line ≡ name ++ b':' ∷ (l ++ (val ++ r))) × IsBlank l × IsBlank r

abbrev Parts : List ℕ → Line → Type 0
Parts line blank = Unit
Parts line malformed = Unit
Parts line (setting name val) =
    IsSetting line name val
    × IsName name
    × (length name ≤ optname_maxlen)
    × IsValue val
    × (length val ≤ optval_maxlen)

trimmed-parts :
    (p : List ℕ)
    → (l : List ℕ) × (r : List ℕ) × (p ≡ l ++ (rtrim (ltrim p) ++ r)) × IsBlank l × IsBlank r
trimmed-parts p = join (ltrim-parts p) (rtrim-parts (ltrim p))
  where
    join :
        ((l : List ℕ) × (p ≡ l ++ ltrim p) × IsBlank l)
        → ((r : List ℕ) × (ltrim p ≡ rtrim (ltrim p) ++ r) × IsBlank r)
        → (l : List ℕ) × (r : List ℕ) × (p ≡ l ++ (rtrim (ltrim p) ++ r)) × IsBlank l × IsBlank r
    join (l, e, h) (r, f, k) = (l, r, e ∙ ap (λ t. l ++ t) f, h, k)

value-Parts :
    (line name p val : List ℕ)
    → line ≡ name ++ b':' ∷ p
    → IsName name
    → length name ≤ optname_maxlen
    → ((l : List ℕ) × (r : List ℕ) × (p ≡ l ++ (val ++ r)) × IsBlank l × IsBlank r)
    → IsNoneOr val
    → Parts line (parse_value name val)
value-Parts line name p [] e h short parts v = tt
value-Parts line name p (c ∷ val) e h short (l, r, f, k, k') v =
    elim (Bool-cases (ltb optval_maxlen (length (c ∷ val)))) [
      | inl b ↦ rw b tt
      | inr b ↦ rw b (((l, r, e ∙ ap (λ t. name ++ b':' ∷ t) f, k, k'), h, short, v, ground arith))
    ]

rest-Parts :
    (line : List ℕ) (r : Option (List ℕ × List ℕ))
    → IsSplit (suc optname_maxlen) line r
    → Parts line (parse_rest r)
unfolding parse_rest
rest-Parts line none h = tt
rest-Parts line (some (name, [])) h = tt
rest-Parts line (some (name, c ∷ p)) (e, h, at) =
    elim (Bool-cases (ltb optname_maxlen (length name))) [
      | inl b ↦ rw b tt
      | inr b ↦ rw b (
          let short : length name ≤ optname_maxlen = ground arith in
          value-Parts line name p (rtrim (ltrim p)) (e ∙ ap (λ d. name ++ d ∷ p) (at (omega arith)))
            h short (trimmed-parts p)
            (rtrim-IsNoneOr (ltrim p) (ltrim-IsOpen p) (rtrim-IsTrimmed (ltrim p))))
    ]

_option_parse-Parts : (line : List ℕ) → Parts line (_option_parse line)
unfolding _option_parse
_option_parse-Parts [] = tt
_option_parse-Parts (c ∷ line) = elim (Bool-cases (isspace c || c == b'#')) [
  | inl b ↦ rw b tt
  | inr b ↦ elim (Bool-cases (ltb optline_maxlen (length (c ∷ line)))) [
    | inl k ↦ rw (b, k) tt
    | inr k ↦
        rw (b, k)
          (rest-Parts (c ∷ line) (parse_name (suc optname_maxlen) (c ∷ line))
            (parse_name-IsSplit (suc optname_maxlen) (c ∷ line)))
  ]
]

-- A line that is a setting has at its start the name, of at most 31 letters, digits and underscores,
-- then a colon, white space, the value, of 1 to 255 bytes of which neither the first nor the last is
-- white space, and white space again, so that both fit their buffers with the terminating NUL.
pub _option_parse-parts :
    (line name val : List ℕ)
    → _option_parse line ≡ setting name val
    → IsSetting line name val
      × IsName name
      × (length name ≤ optname_maxlen)
      × IsValue val
      × (length val ≤ optval_maxlen)
_option_parse-parts line name val e = subst (Parts line) e (_option_parse-Parts line)
