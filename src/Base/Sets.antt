-- ===== src/Base/Sets.antt =====
-- `std::unordered_set` as a list without order, and what a search adds to it.
use mathlib.Core.Path.{◌≡◌, refl}
use mathlib.Core.Logic.{inl, inr}
use mathlib.Core.Bool.{Bool, true, false, ◌||◌}
use mathlib.Core.List.{List, [], ◌∷◌, ◌++◌}
use Prim.Native.Nat.{ℕ, ◌+◌, ◌≤◌, ◌<◌}
use native.Mathlib.Omega.{arith}
use clunk.Base.Tests.{if◌then◌else◌, Bool-cases}
use clunk.Base.Lists.{length}
use clunk.Base.Maps.{Key}

module _ {ℓ} {A : Type ℓ} ⦃e : Key A⦄ where
  unfoldable pub contains : A → List A → Bool
  contains a [] = false
  contains a (x ∷ xs) = e.same x a || contains a xs

  pub contains-append :
      (a : A) (xs ys : List A) → contains a (xs ++ ys) ≡ contains a xs || contains a ys
  unfolding contains
  contains-append a [] ys = refl
  contains-append a (x ∷ xs) ys = ground (arith, contains-append a xs ys)

  -- How many of the list are not in the set.
  unfoldable pub missing : List A → List A → ℕ
  missing [] seen = 0
  missing (x ∷ xs) seen = (if contains x seen then 0 else 1) + missing xs seen

  pub missing-cons-le : (v : A) (xs seen : List A) → missing xs (v ∷ seen) ≤ missing xs seen
  unfolding missing contains
  missing-cons-le v [] seen = omega arith
  missing-cons-le v (x ∷ xs) seen = ground (arith, missing-cons-le v xs seen)

  pub missing-cons-lt :
      (v : A) (xs seen : List A)
      → contains v xs ≡ true
      → contains v seen ≡ false
      → missing xs (v ∷ seen) < missing xs seen
  unfolding missing contains
  missing-cons-lt v [] seen h k = absurd (cc)
  missing-cons-lt v (x ∷ xs) seen h k = elim (Bool-cases (e.same x v)) [
    | inl here ↦ ground (arith, missing-cons-le v xs seen, e.same_iff x v, e.same_iff v x)
    | inr there ↦ ground (arith, missing-cons-lt v xs seen)
  ]

  pub missing-le-length : (xs seen : List A) → missing xs seen ≤ length xs
  unfolding missing
  missing-le-length [] seen = omega arith
  missing-le-length (x ∷ xs) seen = ground (arith, missing-le-length xs seen)

  -- No two are equal.
  pub data Unrepeated : List A → Type ℓ where
    empty : Unrepeated []
    one_more :
        {a : A} {rest : List A} → contains a rest ≡ false → Unrepeated rest → Unrepeated (a ∷ rest)

  missing_room :
      (xs seen : List A)
      → Unrepeated seen
      → ((a : A) → contains a seen ≡ true → contains a xs ≡ true)
      → missing xs seen + length seen ≤ length xs
  unfolding contains
  missing_room xs [] u h = omega (arith, missing-le-length xs [])
  missing_room xs (v ∷ seen) (one_more new u) h = omega (
    arith,
    missing-cons-lt v xs seen (h v (ground (arith, e.same_iff v v))) new,
    missing_room xs seen u (λ a m. h a (ground arith)),
  )

  none_missing :
      (xs seen : List A) (a : A)
      → missing xs seen ≡ 0
      → contains a xs ≡ true
      → contains a seen ≡ true
  unfolding missing contains
  none_missing [] seen a z h = absurd (cc)
  none_missing (x ∷ xs) seen a z h = ground (arith, e.same_iff x a, none_missing xs seen a)

  -- A set of as many elements as the list that it is taken from has all of them.
  pub contains_all :
      (xs seen : List A) (a : A)
      → Unrepeated seen
      → ((b : A) → contains b seen ≡ true → contains b xs ≡ true)
      → length seen ≡ length xs
      → contains a xs ≡ true
      → contains a seen ≡ true
  contains_all xs seen a u h same m =
      none_missing xs seen a (omega (arith, missing_room xs seen u h)) m
