-- ===== src/Evaluator/Linked.antt =====
-- The invariant of the cache: the index and the list agree.
use mathlib.Core.Path.{subst}
use mathlib.Core.Option
use clunk.Base.{
  ℕ, ◌+◌, ◌≡◌, ◌≢◌, ◌<◌, ◌≤◌, sym, ap, ◌∙◌, ◌==◌, some, none, List, [], ◌∷◌, length, Dict, lookup,
  insert, lookup-insert, nat_key, Bool-cases, inl, inr, arith,
}
use clunk.Evaluator.Cache.{Node, EvaluationCache, unlink}
use clunk.Evaluator.Recency.{In, here, there, In-cons, Picks, unlink-In, In-unlink}

module _ {ℓ} {V : Type ℓ} where
  -- No key twice.
  pub data Distinct : List (Node V) → Type ℓ where
    empty : Distinct []
    one_more :
        {n : Node V} {rest : List (Node V)}
        → ((m : Node V) → In m rest → n.key ≢ m.key)
        → Distinct rest
        → Distinct (n ∷ rest)

  pub record Linked (lru : List (Node V)) (index : Dict ℕ ℕ) (next_id : ℕ) : Type ℓ where
    pub distinct : Distinct lru
    pub listed : (n : Node V) → In n lru → lookup n.key index ≡ some n.id
    pub indexed :
        (key it : ℕ)
        → lookup key index ≡ some it
        → (n : Node V) × In n lru × (n.key ≡ key) × (n.id ≡ it)
    pub same_node : (n m : Node V) → In n lru → In m lru → n.id ≡ m.id → n.key ≡ m.key
    pub used : (n : Node V) → In n lru → n.id < next_id

  -- The list is no longer than the capacity.
  pub record IsValid (c : EvaluationCache V) : Type ℓ where
    pub positive : 0 < c.capacity
    pub bounded : length c.lru ≤ c.capacity
    pub linked : Linked c.lru c.index c.next_id

  pub empty-Linked : (next_id : ℕ) → Linked [] [] next_id
  unfolding lookup
  empty-Linked next_id = record {
    distinct = empty;
    listed = λ n i. elim i [ ];
    indexed = λ key it e. absurd (cc);
    same_node = λ n m i. elim i [ ];
    used = λ n i. elim i [ ];
  }

  unlink-Distinct : (it : ℕ) (l : List (Node V)) → Distinct l → Distinct (unlink it l)
  unfolding unlink
  unlink-Distinct it [] d = empty
  unlink-Distinct it (n ∷ rest) (one_more apart d) = elim (Bool-cases (n.id == it)) [
    | inl hit ↦ rw hit (unlink-Distinct it rest d)
    | inr miss ↦
        rw miss (one_more (λ m i. apart m (unlink-In it rest m i).0) (unlink-Distinct it rest d))
  ]

  module _ (lru : List (Node V)) (index : Dict ℕ ℕ) (next_id : ℕ)
      (v : Linked lru index next_id) where
    pub Linked-Picks : (key it : ℕ) → lookup key index ≡ some it → Picks it key lru
    Linked-Picks key it e n m =
        let (k, among, key_eq, id_eq) = v.indexed key it e in
        (
          λ same. v.same_node n k m among (same ∙ sym id_eq) ∙ key_eq,
          λ same. Option.some_inj.0 (sym (v.listed n m) ∙ ap (λ (t : ℕ). lookup t index) same ∙ e),
        )

    pub Linked_absent : (key : ℕ) → lookup key index ≡ none → (n : Node V) → In n lru → n.key ≢ key
    Linked_absent key e n i =
        λ same. absurd (ground (arith, v.listed n i, ap (λ (t : ℕ). lookup t index) same))

    -- A node of the key that the iterator has goes to the front.
    pub touch-Linked :
        (key it : ℕ) (n : Node V)
        → lookup key index ≡ some it
        → n.id ≡ it
        → n.key ≡ key
        → Linked (n ∷ unlink it lru) index next_id
    touch-Linked key it n e id_eq key_eq =
        let p = Linked-Picks key it e in
        let (k, among, k_key, k_id) = v.indexed key it e in
        let old = λ (m : Node V) (i : In m (unlink it lru)). unlink-In it lru m i in
        record {
          distinct =
              one_more (λ m i same. absurd (ground (arith, old m i, p m (old m i).0)))
                (unlink-Distinct it lru v.distinct);
          listed = λ m i. elim (In-cons m n (unlink it lru) i) [
            | inl same ↦
                subst (λ (t : Node V). lookup t.key index ≡ some t.id) (sym same)
                  (ap (λ (t : ℕ). lookup t index) key_eq ∙ e ∙ ap some (sym id_eq))
            | inr later ↦ v.listed m (old m later).0
          ];
          indexed = λ other jt f.
              let (m, im, m_key, m_id) = v.indexed other jt f in
              elim (Bool-cases (jt == it)) [
                | inl same ↦ (
                  n,
                  here,
                  key_eq ∙ sym ((p m im).0 (m_id ∙ ground arith)) ∙ m_key,
                  id_eq ∙ ground arith,
                )
                | inr apart ↦ (
                  m,
                  there (In-unlink it lru m im (λ q. absurd (ground (arith, m_id)))),
                  m_key,
                  m_id,
                )
              ];
          same_node = λ a b ia ib q. elim (In-cons a n (unlink it lru) ia) [
            | inl ea ↦ elim (In-cons b n (unlink it lru) ib) [
              | inl eb ↦ ap (λ (t : Node V). t.key) (ea ∙ sym eb)
              | inr lb ↦ absurd ((old b lb).1 (sym q ∙ ap (λ (t : Node V). t.id) ea ∙ id_eq))
            ]
            | inr la ↦ elim (In-cons b n (unlink it lru) ib) [
              | inl eb ↦ absurd ((old a la).1 (q ∙ ap (λ (t : Node V). t.id) eb ∙ id_eq))
              | inr lb ↦ v.same_node a b (old a la).0 (old b lb).0 q
            ]
          ];
          used = λ m i. elim (In-cons m n (unlink it lru) i) [
            | inl same ↦ omega (arith, ap (λ (t : Node V). t.id) same, id_eq, k_id, v.used k among)
            | inr later ↦ v.used m (old m later).0
          ];
        }

    -- A new node of a key that the index does not have goes to the front.
    pub add-Linked :
        (n : Node V)
        → lookup n.key index ≡ none
        → n.id ≡ next_id
        → Linked (n ∷ lru) (insert n.key n.id index) (next_id + 1)
    add-Linked n e fresh =
        let apart = Linked_absent n.key e in
        record {
          distinct = one_more (λ m i same. apart m i (sym same)) v.distinct;
          listed = λ m i. elim (In-cons m n lru i) [
            | inl same ↦
                subst (λ (t : Node V). lookup t.key (insert n.key n.id index) ≡ some t.id)
                  (sym same) (ground (arith, lookup-insert n.key n.key n.id index))
            | inr later ↦
                ground
                  (arith, lookup-insert n.key m.key n.id index, apart m later, v.listed m later)
          ];
          indexed = λ other jt f. elim (Bool-cases (n.key == other)) [
            | inl same ↦
                (n, here, ground arith, ground (arith, lookup-insert n.key other n.id index))
            | inr miss ↦
                let (m, im, m_key, m_id) =
                  v.indexed other jt (ground (arith, lookup-insert n.key other n.id index)) in
                (m, there im, m_key, m_id)
          ];
          same_node = λ a b ia ib q. elim (In-cons a n lru ia) [
            | inl ea ↦ elim (In-cons b n lru ib) [
              | inl eb ↦ ap (λ (t : Node V). t.key) (ea ∙ sym eb)
              | inr lb ↦ absurd (omega (arith, v.used b lb, ap (λ (t : Node V). t.id) ea))
            ]
            | inr la ↦ elim (In-cons b n lru ib) [
              | inl eb ↦ absurd (omega (arith, v.used a la, ap (λ (t : Node V). t.id) eb))
              | inr lb ↦ v.same_node a b la lb q
            ]
          ];
          used = λ m i. elim (In-cons m n lru i) [
            | inl same ↦ omega (arith, ap (λ (t : Node V). t.id) same)
            | inr later ↦ omega (arith, v.used m later)
          ];
        }
