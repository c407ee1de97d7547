-- ===== src/Evaluator/Recency.antt =====
-- The entries of the cache by key, the one used last first, and what the list operations do to them.
use mathlib.Core.Path.{subst}
use mathlib.Core.Option
use clunk.Base.{
  ℕ, zero, suc, ◌-◌, ◌≡◌, ◌≢◌, ◌<◌, ◌≤◌, ◌↔◌, refl, sym, ap, ◌∙◌, false, ◌==◌, some, none, List, [],
  ◌∷◌, length, Dict, lookup, erase, nat_key, Bool-cases, ◌⊎◌, inl, inr, arith,
}
use clunk.Evaluator.Cache.{Node, node_at, unlink, without_last}

module _ {ℓ} {V : Type ℓ} where
  unfoldable pub take : ℕ → Dict ℕ V → Dict ℕ V
  take zero l = []
  take (suc n) [] = []
  take (suc n) (e ∷ l) = e ∷ take n l

  -- An entry becomes the one used last.
  abbrev pub touch : ℕ → V → Dict ℕ V → Dict ℕ V
  touch key value l = (key, value) ∷ erase key l

  unfoldable pub entries : List (Node V) → Dict ℕ V
  entries [] = []
  entries (n ∷ rest) = (n.key, n.value) ∷ entries rest

  pub data In (n : Node V) : List (Node V) → Type ℓ where
    here : {rest : List (Node V)} → In n (n ∷ rest)
    there : {m : Node V} {rest : List (Node V)} → In n rest → In n (m ∷ rest)

  pub In-cons : (n m : Node V) (l : List (Node V)) → In n (m ∷ l) → (n ≡ m) ⊎ In n l
  In-cons n m l here = inl refl
  In-cons n m l (there i) = inr i

  -- The iterator of a key picks the nodes of the key.
  abbrev pub Picks : ℕ → ℕ → List (Node V) → Type ℓ
  Picks it key l = (n : Node V) → In n l → (n.id ≡ it) ↔ (n.key ≡ key)

  pub entries-unlink :
      (it key : ℕ) (l : List (Node V))
      → Picks it key l
      → entries (unlink it l) ≡ erase key (entries l)
  unfolding entries unlink erase
  entries-unlink it key [] p = refl
  entries-unlink it key (n ∷ rest) p =
      ground (arith, p n here, entries-unlink it key rest (λ m i. p m (there i)))

  pub lookup-entries :
      (it key : ℕ) (l : List (Node V))
      → Picks it key l
      → lookup key (entries l) ≡ Option.map (λ n. n.value) (node_at it l)
  unfolding entries node_at lookup
  lookup-entries it key [] p = refl
  lookup-entries it key (n ∷ rest) p =
      ground (arith, p n here, lookup-entries it key rest (λ m i. p m (there i)))

  -- A key that no node has.
  pub absent_key :
      (key : ℕ) (l : List (Node V))
      → ((n : Node V) → In n l → n.key ≢ key)
      → (lookup key (entries l) ≡ none) × (erase key (entries l) ≡ entries l)
  unfolding entries lookup erase
  absent_key key [] p = (refl, refl)
  absent_key key (n ∷ rest) p = ground (arith, p n here, absent_key key rest (λ m i. p m (there i)))

  pub length-entries : (l : List (Node V)) → length (entries l) ≡ length l
  unfolding entries
  length-entries [] = refl
  length-entries (n ∷ rest) = omega (arith, length-entries rest)

  pub take_all : (n : ℕ) (l : Dict ℕ V) → length l ≤ n → take n l ≡ l
  unfolding take
  take_all zero [] h = refl
  take_all zero (e ∷ l) h = absurd (omega arith)
  take_all (suc n) [] h = refl
  take_all (suc n) (e ∷ l) h = ap (λ t. e ∷ t) (take_all n l (omega arith))

  pub take-take : (m n : ℕ) (l : Dict ℕ V) → m ≤ n → take m (take n l) ≡ take m l
  unfolding take
  take-take zero n l h = refl
  take-take (suc m) zero l h = absurd (omega arith)
  take-take (suc m) (suc n) [] h = refl
  take-take (suc m) (suc n) (e ∷ l) h = ap (λ t. e ∷ t) (take-take m n l (omega arith))

  pub entries-without_last :
      (l : List (Node V)) → entries (without_last l) ≡ take (length l - 1) (entries l)
  unfolding entries without_last take
  entries-without_last [] = refl
  entries-without_last (n ∷ []) = refl
  entries-without_last (n ∷ m ∷ rest) =
      let fewer : suc (suc (length rest)) - 1 ≡ suc (suc (length rest) - 1) = omega arith in
      ap (λ t. (n.key, n.value) ∷ t) (entries-without_last (m ∷ rest))
      ∙ sym (ap (λ (k : ℕ). take k (entries (n ∷ m ∷ rest))) fewer)

  pub node_at-In :
      (it : ℕ) (l : List (Node V)) (n : Node V) → node_at it l ≡ some n → In n l × (n.id ≡ it)
  unfolding node_at
  node_at-In it [] n e = absurd (cc)
  node_at-In it (m ∷ rest) n e = elim (Bool-cases (m.id == it)) [
    | inl hit ↦
        let same : m ≡ n = Option.some_inj.0 (ground (arith, e)) in
        (
          subst (λ t. In t (m ∷ rest)) same here,
          ap (λ (t : Node V). t.id) (sym same) ∙ ground arith,
        )
    | inr miss ↦ let (i, same) = node_at-In it rest n (ground (arith, e)) in (there i, same)
  ]

  pub node_at_found :
      (it : ℕ) (l : List (Node V)) (n : Node V)
      → In n l
      → n.id ≡ it
      → (m : Node V) × (node_at it l ≡ some m)
  unfolding node_at
  node_at_found it [] n i e = elim i [ ]
  node_at_found it (x ∷ rest) n i e = elim (Bool-cases (x.id == it)) [
    | inl hit ↦ (x, rw hit)
    | inr miss ↦ elim (In-cons n x rest i) [
      | inl same ↦ absurd (ground (arith, ap (λ (t : Node V). t.id) same))
      | inr later ↦ rw miss (node_at_found it rest n later e)
    ]
  ]

  pub unlink-In :
      (it : ℕ) (l : List (Node V)) (n : Node V) → In n (unlink it l) → In n l × (n.id ≢ it)
  unfolding unlink
  unlink-In it [] n i = elim i [ ]
  unlink-In it (m ∷ rest) n i = elim (Bool-cases (m.id == it)) [
    | inl hit ↦ let (j, apart) = unlink-In it rest n (simp hit at i) in (there j, apart)
    | inr miss ↦ elim (In-cons n m (unlink it rest) (simp miss at i)) [
      | inl same ↦ (
        subst (λ t. In t (m ∷ rest)) (sym same) here,
        λ e. absurd (ground (arith, ap (λ (t : Node V). t.id) same)),
      )
      | inr later ↦ let (j, apart) = unlink-In it rest n later in (there j, apart)
    ]
  ]

  kept_head : (it : ℕ) (m : Node V) → m.id ≢ it → (m.id == it) ≡ false
  kept_head it m h = ground (arith, h)

  pub In-unlink :
      (it : ℕ) (l : List (Node V)) (n : Node V) → In n l → n.id ≢ it → In n (unlink it l)
  unfolding unlink
  In-unlink it [] n i apart = elim i [ ]
  In-unlink it (m ∷ rest) n i apart = elim (In-cons n m rest i) [
    | inl same ↦
        rw (kept_head it m (λ e. apart (ap (λ (t : Node V). t.id) same ∙ e)))
          (subst (λ t. In t (m ∷ unlink it rest)) (sym same) here)
    | inr later ↦ elim (Bool-cases (m.id == it)) [
      | inl hit ↦ rw hit (In-unlink it rest n later apart)
      | inr miss ↦ rw miss (there (In-unlink it rest n later apart))
    ]
  ]

  pub length-unlink_le : (it : ℕ) (l : List (Node V)) → length (unlink it l) ≤ length l
  unfolding unlink
  length-unlink_le it [] = omega arith
  length-unlink_le it (n ∷ rest) = ground (arith, length-unlink_le it rest)

  pub length-unlink :
      (it : ℕ) (l : List (Node V)) (n : Node V)
      → node_at it l ≡ some n
      → length (unlink it l) < length l
  unfolding unlink node_at
  length-unlink it [] n e = absurd (cc)
  length-unlink it (m ∷ rest) n e = elim (Bool-cases (m.id == it)) [
    | inl hit ↦ rw hit (omega (arith, length-unlink_le it rest))
    | inr miss ↦ rw miss (omega (arith, length-unlink it rest n (ground (arith, e))))
  ]
