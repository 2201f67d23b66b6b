-- ===== src/Options/Load/Lines.antt =====
-- The lines of a file, and loading them one after the other.
use ccommon.Prelude.{
  ℕ, ◌+◌, ◌≤◌, ◌<◌, ◌≡◌, ◌≢◌, ◌∙◌, refl, sym, ap, arith, List, [], ◌∷◌, ◌++◌, Option, none, some,
  Bool, false, if◌then◌else◌, ◌==◌, ◌||◌, length, length-append, append_assoc, Bool-cases, inl, inr,
}
use mathlib.Core.Path.{fun_ext}
use ccommon.Status.{Status, ok, error, eagain, eretry, enomem, eempty, erdhup, einval, unfin}
use ccommon.Options.Line.{_option_parse, optline_maxlen}
use ccommon.Options.Store.{Opt, World}
use ccommon.Options.Load.{lines_from, up_to_nul, then_lines, load_line, load_lines, Loaded}

-- The lines put together again.
abbrev pub joined : List (List ℕ) → List ℕ
joined [] = []
joined (l ∷ ls) = l ++ joined ls

-- Each line has a byte and fits in the buffer.
abbrev pub AllFit : List (List ℕ) → Type 0
AllFit [] = Unit
AllFit (l ∷ ls) = (0 < length l) × (length l ≤ optline_maxlen) × AllFit ls

lines_from-cons :
    (line file : List ℕ) (c : ℕ)
    → lines_from line (c ∷ file) ≡ (
        if c == 10 || length (line ++ c ∷ []) == optline_maxlen
        then (line ++ c ∷ []) ∷ lines_from [] file
        else lines_from (line ++ c ∷ []) file)
unfolding lines_from
lines_from-cons [] file c = refl
lines_from-cons (d ∷ line) file c = refl

-- The tests of `lines_from` as comparisons: not at the end of the buffer is before it.
before_end :
    (line : List ℕ) (c : ℕ)
    → length line < optline_maxlen
    → (c == 10 || length (line ++ c ∷ []) == optline_maxlen) ≡ false
    → length (line ++ c ∷ []) < optline_maxlen
before_end line c h e =
    let grown : length (line ++ c ∷ []) ≡ length line + 1 = length-append line (c ∷ []) in
    let differs : length (line ++ c ∷ []) ≢ optline_maxlen = λ z. ground (arith, e, z) in
    omega arith

lines_from-joined :
    (line file : List ℕ)
    → length line < optline_maxlen
    → (joined (lines_from line file) ≡ line ++ file) × AllFit (lines_from line file)
unfolding lines_from
lines_from-joined [] [] h = (refl, tt)
lines_from-joined (c ∷ line) [] h = (refl, (omega arith, omega arith, tt))
lines_from-joined line (c ∷ file) h =
    elim (Bool-cases (c == 10 || length (line ++ c ∷ []) == optline_maxlen)) [
      | inl e ↦
          rw (lines_from-cons line file c, e) (closed (lines_from-joined [] file (omega arith)))
      | inr e ↦
          rw (lines_from-cons line file c, e)
            (open_line (lines_from-joined (line ++ c ∷ []) file (before_end line c h e)))
    ]
  where
    closed :
        (joined (lines_from [] file) ≡ file) × AllFit (lines_from [] file)
        → (joined ((line ++ c ∷ []) ∷ lines_from [] file) ≡ line ++ c ∷ file)
          × AllFit ((line ++ c ∷ []) ∷ lines_from [] file)
    closed rest =
        let grown : length (line ++ c ∷ []) ≡ length line + 1 = length-append line (c ∷ []) in
        (
          ap (λ t. (line ++ c ∷ []) ++ t) rest.0 ∙ append_assoc line (c ∷ []) file,
          (omega arith, omega arith, rest.1),
        )

    open_line :
        (joined (lines_from (line ++ c ∷ []) file) ≡ (line ++ c ∷ []) ++ file)
          × AllFit (lines_from (line ++ c ∷ []) file)
        → (joined (lines_from (line ++ c ∷ []) file) ≡ line ++ c ∷ file)
          × AllFit (lines_from (line ++ c ∷ []) file)
    open_line rest = (rest.0 ∙ append_assoc line (c ∷ []) file, rest.1)

-- The lines that `option_load_file` reads are the file in pieces of 1 to 1024 bytes.
lines_from-file :
    (file : List ℕ) → (joined (lines_from [] file) ≡ file) × AllFit (lines_from [] file)
lines_from-file file = lines_from-joined [] file (omega arith)

module _ {ℓ κ} {D : Type ℓ} {S : Type κ} (alloc : S → Bool × S)
    (strtod : List ℕ → D × List ℕ × Bool) where
  then_lines_assoc :
      (r : Option (Loaded alloc strtod))
      (f g : World S → List (Opt D) → Option (Loaded alloc strtod))
      → then_lines alloc strtod (then_lines alloc strtod r f) g
        ≡ then_lines alloc strtod r (λ w opts. then_lines alloc strtod (f w opts) g)
  then_lines_assoc none f g = refl
  then_lines_assoc (some (ok, opts, w)) f g = refl
  then_lines_assoc (some (error, opts, w)) f g = refl
  then_lines_assoc (some (eagain, opts, w)) f g = refl
  then_lines_assoc (some (eretry, opts, w)) f g = refl
  then_lines_assoc (some (enomem, opts, w)) f g = refl
  then_lines_assoc (some (eempty, opts, w)) f g = refl
  then_lines_assoc (some (erdhup, opts, w)) f g = refl
  then_lines_assoc (some (einval, opts, w)) f g = refl
  then_lines_assoc (some (unfin, opts, w)) f g = refl

  -- Loading some lines and then others is loading the first, with the file still good, and, if that
  -- went well, the others on its result.
  load_lines-append :
      (failure : Bool) (ls ms : List (List ℕ)) (w : World S) (opts : List (Opt D))
      → load_lines alloc strtod failure (ls ++ ms) w opts
        ≡ then_lines alloc strtod
            (load_lines alloc strtod false ls w opts)
            (load_lines alloc strtod failure ms)
  unfolding load_lines
  load_lines-append failure [] ms w opts = refl
  load_lines-append failure (l ∷ ls) ms w opts =
      ap (then_lines alloc strtod (load_line alloc strtod w (_option_parse (up_to_nul l)) opts))
        (fun_ext (λ w'. fun_ext (λ opts'. load_lines-append failure ls ms w' opts')))
      ∙ sym (
          then_lines_assoc (load_line alloc strtod w (_option_parse (up_to_nul l)) opts)
            (load_lines alloc strtod false ls) (load_lines alloc strtod failure ms))

  ends :
      (status : Status) (opts : List (Opt D)) (w : World S)
      (next : World S → List (Opt D) → Option (Loaded alloc strtod))
      → status ≢ ok
      → then_lines alloc strtod (some (status, opts, w)) next ≡ some (error, opts, w)
  ends ok opts w next h = absurd (h refl)
  ends error opts w next h = refl
  ends eagain opts w next h = refl
  ends eretry opts w next h = refl
  ends enomem opts w next h = refl
  ends eempty opts w next h = refl
  ends erdhup opts w next h = refl
  ends einval opts w next h = refl
  ends unfin opts w next h = refl

  -- The first line that does not go well ends the loading: the status is `CC_ERROR` whatever that of the
  -- line is, the options are those that the lines up to it have left, and the lines behind it and
  -- an error of the file make no difference.
  pub load_lines_stop :
      (failure : Bool) (ls : List (List ℕ)) (l : List ℕ) (ms : List (List ℕ)) (w w' w'' : World S)
      (opts opts' opts'' : List (Opt D)) (status : Status)
      → load_lines alloc strtod false ls w opts ≡ some (ok, opts', w')
      → load_line alloc strtod w' (_option_parse (up_to_nul l)) opts' ≡ some (status, opts'', w'')
      → status ≢ ok
      → load_lines alloc strtod failure (ls ++ l ∷ ms) w opts ≡ some (error, opts'', w'')
  unfolding load_lines
  load_lines_stop failure ls l ms w w' w'' opts opts' opts'' status e f h =
      load_lines-append failure ls (l ∷ ms) w opts
      ∙ ap (λ r. then_lines alloc strtod r (load_lines alloc strtod failure (l ∷ ms))) e
      ∙ ap (λ r. then_lines alloc strtod r (load_lines alloc strtod failure ms)) f
      ∙ ends status opts'' w'' (load_lines alloc strtod failure ms) h
