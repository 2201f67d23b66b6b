-- ===== src/RingArray/Queue.antt =====
-- What a ring array promises: a first-in first-out queue of at most `cap` elements.
use ccommon.Prelude.{ℕ, List, [], ◌∷◌, ◌++◌, Bool, if◌then◌else◌, ◌==◌, length}
use ccommon.Status.{Status, ok, error}

-- The calls of a client, and what it sees of each.
pub data Call {ℓ} (A : Type ℓ) : Type ℓ where
  push : A → Call A
  pop : Bool → Call A
  flush : Call A

abbrev pub Reply {ℓ} : Type ℓ → Type ℓ
Reply A = Status × List A

module _ {ℓ} {A : Type ℓ} where
  unfoldable pub put : ℕ → A → List A → Status × List A
  put cap x q = if length q == cap then (error, q) else (ok, q ++ (x ∷ []))

  unfoldable pub get : Bool → List A → Status × List A × List A
  get wanted [] = (error, [], [])
  get wanted (x ∷ q) = (ok, (if wanted then x ∷ [] else []), q)

  unfoldable pub run : ℕ → List A → List (Call A) → List (Reply A)
  run cap q [] = []
  run cap q (push x ∷ cs) = let (s, q') = put cap x q in (s, []) ∷ run cap q' cs
  run cap q (pop wanted ∷ cs) = let (s, out, q') = get wanted q in (s, out) ∷ run cap q' cs
  run cap q (flush ∷ cs) = (ok, []) ∷ run cap [] cs
