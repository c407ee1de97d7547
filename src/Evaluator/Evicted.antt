-- ===== src/Evaluator/Evicted.antt =====
-- What removing the last node of the cache's list does, and that the index stays right.
use mathlib.Core.Path.{subst}
use mathlib.Core.Option
use clunk.Base.{
  ℕ, ◌-◌, ◌≡◌, ◌≢◌, ◌<◌, refl, sym, ap, ◌∙◌, ◌==◌, some, List, [], ◌∷◌, length, last, Dict, erase,
  lookup-erase, nat_key, Bool-cases, ◌⊎◌, inl, inr, arith,
}
use clunk.Evaluator.Cache.{Node, without_last}
use clunk.Evaluator.Recency.{In, here, there, In-cons}
use clunk.Evaluator.Linked.{Distinct, empty, one_more, Linked}

module _ {ℓ} {V : Type ℓ} where
  pub length-without_last : (l : List (Node V)) → length (without_last l) ≡ length l - 1
  unfolding without_last
  length-without_last [] = omega arith
  length-without_last (n ∷ []) = omega arith
  length-without_last (n ∷ m ∷ rest) = omega (arith, length-without_last (m ∷ rest))

  last_found : (n : Node V) (rest : List (Node V)) → (k : Node V) × (last (n ∷ rest) ≡ some k)
  unfolding last
  last_found n [] = (n, refl)
  last_found n (m ∷ rest) = last_found m rest

  pub last-some : (l : List (Node V)) → 0 < length l → (k : Node V) × (last l ≡ some k)
  last-some [] h = absurd (omega arith)
  last-some (n ∷ rest) h = last_found n rest

  last-In : (l : List (Node V)) (k : Node V) → last l ≡ some k → In k l
  unfolding last
  last-In [] k e = absurd (cc)
  last-In (n ∷ []) k e = subst (λ t. In t (n ∷ [])) (Option.some_inj.0 e) here
  last-In (n ∷ m ∷ rest) k e = there (last-In (m ∷ rest) k e)

  without_last-In : (l : List (Node V)) (n : Node V) → In n (without_last l) → In n l
  unfolding without_last
  without_last-In [] n i = elim i [ ]
  without_last-In (x ∷ []) n i = elim i [ ]
  without_last-In (x ∷ m ∷ rest) n i = elim (In-cons n x (without_last (m ∷ rest)) i) [
    | inl same ↦ subst (λ t. In t (x ∷ m ∷ rest)) (sym same) here
    | inr later ↦ there (without_last-In (m ∷ rest) n later)
  ]

  In-last :
      (l : List (Node V)) (k n : Node V)
      → last l ≡ some k
      → In n l
      → In n (without_last l) ⊎ (n ≡ k)
  unfolding last without_last
  In-last [] k n e i = elim i [ ]
  In-last (x ∷ []) k n e i = elim (In-cons n x [] i) [
    | inl same ↦ inr (same ∙ Option.some_inj.0 e)
    | inr later ↦ elim later [ ]
  ]
  In-last (x ∷ m ∷ rest) k n e i = elim (In-cons n x (m ∷ rest) i) [
    | inl same ↦ inl (subst (λ t. In t (x ∷ without_last (m ∷ rest))) (sym same) here)
    | inr later ↦ elim (In-last (m ∷ rest) k n e later) [
      | inl kept ↦ inl (there kept)
      | inr gone ↦ inr gone
    ]
  ]

  without_last-Distinct : (l : List (Node V)) → Distinct l → Distinct (without_last l)
  unfolding without_last
  without_last-Distinct [] d = empty
  without_last-Distinct (n ∷ []) d = empty
  without_last-Distinct (n ∷ m ∷ rest) (one_more apart d) =
      one_more (λ k i. apart k (without_last-In (m ∷ rest) k i))
        (without_last-Distinct (m ∷ rest) d)

  last_apart :
      (l : List (Node V)) (k n : Node V)
      → Distinct l
      → last l ≡ some k
      → In n (without_last l)
      → k.key ≢ n.key
  unfolding last without_last
  last_apart [] k n d e i = elim i [ ]
  last_apart (x ∷ []) k n d e i = elim i [ ]
  last_apart (x ∷ m ∷ rest) k n (one_more apart d) e i =
      elim (In-cons n x (without_last (m ∷ rest)) i) [
        | inl same ↦
            λ q. apart k (last-In (m ∷ rest) k e) (sym (ap (λ (t : Node V). t.key) same) ∙ sym q)
        | inr later ↦ last_apart (m ∷ rest) k n d e later
      ]

  -- The last node and its entry of the index go.
  pub evict-Linked :
      (lru : List (Node V)) (index : Dict ℕ ℕ) (next_id : ℕ) (k : Node V)
      → Linked lru index next_id
      → last lru ≡ some k
      → Linked (without_last lru) (erase k.key index) next_id
  evict-Linked lru index next_id k v e =
      let old = without_last-In lru in
      record {
        distinct = without_last-Distinct lru v.distinct;
        listed = λ n i. ground (
          arith,
          lookup-erase k.key n.key index,
          last_apart lru k n v.distinct e i,
          v.listed n (old n i),
        );
        indexed = λ key it f. elim (Bool-cases (k.key == key)) [
          | inl same ↦ absurd (ground (arith, lookup-erase k.key key index))
          | inr miss ↦
              let (n, i, n_key, n_id) =
                v.indexed key it (ground (arith, lookup-erase k.key key index)) in
              elim (In-last lru k n e i) [
                | inl kept ↦ (n, kept, n_key, n_id)
                | inr gone ↦ absurd (ground (arith, ap (λ (t : Node V). t.key) gone, n_key))
              ]
        ];
        same_node = λ n m i j. v.same_node n m (old n i) (old m j);
        used = λ n i. v.used n (old n i);
      }
