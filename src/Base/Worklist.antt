-- ===== src/Base/Worklist.antt =====
-- The search that several passes run: a set of what was seen and a list of what is still to be looked
-- at. A new node is recorded when it is put on the list, which is a stack or a queue.
pub mod Reached
use mathlib.Core.Path.{◌≡◌, refl}
use mathlib.Core.Logic.{◌⊎◌, inl, inr, ◌↔◌}
use mathlib.Core.Bool.{Bool, true, false, ◌||◌, not}
use mathlib.Core.Option.{Option, none, some}
use mathlib.Core.List.{List, [], ◌∷◌, ◌++◌}
use Prim.Native.Nat.{ℕ, zero, suc, ◌+◌, ◌≤◌, ◌<◌}
use native.Mathlib.Omega.{arith}
use clunk.Base.Tests.{if◌then◌else◌, Bool-cases}
use clunk.Base.Lists.{length}
use clunk.Base.Maps.{Key}
use clunk.Base.Sets.{
  contains, missing, missing-cons-le, missing-cons-lt, missing-le-length, contains-append,
}

-- What a pass needs of the container of pending nodes.
pub record Frontier {ℓ} (A : Type ℓ) ⦃e : Key A⦄ : Type ℓ where
  pub push : A → List A → List A
  pub contains-push : (a x : A) (l : List A) → contains x (push a l) ≡ (e.same a x || contains x l)
  pub length-push : (a : A) (l : List A) → length (push a l) ≡ suc (length l)

module _ {ℓ} {A : Type ℓ} ⦃e : Key A⦄ where
  abbrev pub back : A → List A → List A
  back a l = l ++ a ∷ []

  pub contains-back : (a x : A) (l : List A) → contains x (back a l) ≡ (e.same a x || contains x l)
  unfolding contains
  contains-back a x [] = refl
  contains-back a x (y ∷ l) = ground (arith, contains-back a x l)

  pub length-back : (a : A) (l : List A) → length (back a l) ≡ suc (length l)
  length-back a [] = refl
  length-back a (x ∷ l) = omega (arith, length-back a l)

  pub contains-front : (a x : A) (l : List A) → contains x (a ∷ l) ≡ (e.same a x || contains x l)
  unfolding contains
  contains-front a x l = refl

  -- The last pushed is looked at first.
  abbrev pub stack : Frontier A
  stack = record { push = λ a l. a ∷ l; contains-push = contains-front; length-push = λ a l. refl }

  -- The first pushed is looked at first.
  abbrev pub queue : Frontier A
  queue = record { push = back; contains-push = contains-back; length-push = length-back }

pub record Search {ℓ} (A : Type ℓ) : Type ℓ where
  pub seen : List A
  pub pending : List A

module _ {ℓ} {A : Type ℓ} ⦃e : Key A⦄ (f : Frontier A) where
  -- `if (seen.insert(v).second) pending.push_back(v)`
  unfoldable pub offer : A → Search A → Search A
  offer v s =
      if contains v s.seen then s else record { seen = v ∷ s.seen; pending = f.push v s.pending }

  unfoldable pub offers : List A → Search A → Search A
  offers [] s = s
  offers (v ∷ vs) s = offers vs (offer v s)

  module _ (next : A → List A) where
    -- The loop while something is pending. `none` is a loop that needs more rounds than `fuel`.
    unfoldable pub explore : ℕ → List A → List A → Option (List A)
    explore fuel seen [] = some seen
    explore zero seen (u ∷ rest) = none
    explore (suc fuel) seen (u ∷ rest) =
        let s = offers (next u) (record { seen = seen; pending = rest }) in
        explore fuel s.seen s.pending

    -- From the seeds.
    unfoldable pub closure : ℕ → List A → Option (List A)
    closure fuel seeds =
        let s = offers seeds (record { seen = []; pending = [] }) in explore fuel s.seen s.pending

  pub contains-offer :
      (v x : A) (s : Search A)
      → (contains x (offer v s).seen ≡ (e.same v x || contains x s.seen))
        × (contains x s.pending ≡ true → contains x (offer v s).pending ≡ true)
        × (contains x (offer v s).pending ≡ true → (contains x s.pending ≡ true) ⊎ (v ≡ x))
        × (contains x (offer v s).seen ≡ true
            → (contains x s.seen ≡ true) ⊎ (contains x (offer v s).pending ≡ true))
  unfolding offer contains
  contains-offer v x s = ground (arith, f.contains-push v x s.pending, e.same_iff v x)
