-- ===== src/Base/Lists.antt =====
-- Lists indexed by the native numbers.
use Prim.Native.Nat.{ℕ, zero, suc, ◌+◌, ◌<◌}
use mathlib.Core.Path.{◌≡◌, refl}
use native.Mathlib.Omega.{arith}
use clunk.Base.Tests.{if◌then◌else◌, ltb, ◌==◌}
use mathlib.Core.List.{List, [], ◌∷◌, ◌++◌}
use mathlib.Core.Option.{Option, none, some}

module _ {ℓ} {A : Type ℓ} where
  abbrev pub length : List A → ℕ
  length [] = 0
  length (x ∷ xs) = suc (length xs)

  abbrev pub get_elem? : List A → ℕ → Option A
  get_elem? [] i = none
  get_elem? (x ∷ xs) zero = some x
  get_elem? (x ∷ xs) (suc i) = get_elem? xs i

  unfoldable pub remove_at : ℕ → List A → List A
  remove_at i [] = []
  remove_at zero (x ∷ xs) = xs
  remove_at (suc i) (x ∷ xs) = x ∷ remove_at i xs

  unfoldable pub last : List A → Option A
  last [] = none
  last (x ∷ []) = some x
  last (x ∷ y ∷ xs) = last (y ∷ xs)

  -- The element behind position `i` once position `k` is gone.
  pub get_elem?-remove_at :
      (k i : ℕ) (xs : List A)
      → get_elem? (remove_at k xs) i ≡ get_elem? xs (if ltb i k then i else suc i)
  unfolding remove_at
  get_elem?-remove_at k i [] = ground arith
  get_elem?-remove_at zero i (x ∷ xs) = ground arith
  get_elem?-remove_at (suc k) zero (x ∷ xs) = ground arith
  get_elem?-remove_at (suc k) (suc i) (x ∷ xs) = ground (arith, get_elem?-remove_at k i xs)

  pub get_elem?-back :
      (xs : List A) (x : A) (i : ℕ)
      → get_elem? (xs ++ x ∷ []) i ≡ (if i == length xs then some x else get_elem? xs i)
  get_elem?-back [] x zero = refl
  get_elem?-back [] x (suc i) = ground arith
  get_elem?-back (y ∷ xs) x zero = ground arith
  get_elem?-back (y ∷ xs) x (suc i) = ground (arith, get_elem?-back xs x i)

  pub get_elem?-lt : (xs : List A) (x : A) (i : ℕ) → get_elem? xs i ≡ some x → i < length xs
  get_elem?-lt [] x i h = absurd (cc)
  get_elem?-lt (y ∷ xs) x zero h = omega arith
  get_elem?-lt (y ∷ xs) x (suc i) h = omega (arith, get_elem?-lt xs x i h)

  pub length-append : (xs ys : List A) → length (xs ++ ys) ≡ length xs + length ys
  length-append [] ys = omega arith
  length-append (x ∷ xs) ys = omega (arith, length-append xs ys)
