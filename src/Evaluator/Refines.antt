-- ===== src/Evaluator/Refines.antt =====
-- The cache implements a list of entries by recency that is cut to its capacity: what a caller sees of
-- any calls is what that list gives.
use clunk.Base.{
  ℕ, zero, suc, ◌+◌, ◌-◌, ◌≡◌, ◌<◌, ◌≤◌, refl, sym, ap, ◌∙◌, ltb, Option, some, none, ◌∷◌, length,
  Dict, lookup, insert, erase, nat_key, Bool-cases, Option-cases, inl, inr, arith,
}
use clunk.Evaluator.Cache.{
  Node, EvaluationCache, at_least_one, node_at, unlink, without_last, get, get_at, get_node, evict,
  evict_node, overwrite, make_room, put, put_at, shrink, set_capacity,
}
use clunk.Evaluator.Recency.{
  take, touch, entries, entries-unlink, lookup-entries, absent_key, length-entries, take_all,
  take-take, entries-without_last, node_at-In, node_at_found, length-unlink,
}
use clunk.Evaluator.Linked.{Linked, IsValid, Linked-Picks, Linked_absent, touch-Linked, add-Linked}
use clunk.Evaluator.Evicted.{evict-Linked, last-some, length-without_last}

-- The abstract cache.
pub record Recent {ℓ} (V : Type ℓ) : Type ℓ where
  pub capacity : ℕ
  pub items : Dict ℕ V

module _ {ℓ} {V : Type ℓ} where
  abbrev pub recent : ℕ → Dict ℕ V → Recent V
  recent capacity items = record { capacity = capacity; items = items }

  abbrev pub view : EvaluationCache V → Recent V
  view c = recent c.capacity (entries c.lru)

  -- A key that is asked for becomes the one used last, if there is an entry.
  unfoldable pub recall : ℕ → Option V → Dict ℕ V → Dict ℕ V
  recall key none l = l
  recall key (some value) l = touch key value l

  pub record Cut (c c' : EvaluationCache V) : Type ℓ where
    pub valid : IsValid c'
    pub same_capacity : c'.capacity ≡ c.capacity
    pub cut : entries c'.lru ≡ take c.capacity (entries c.lru)

  already :
      (c : EvaluationCache V)
      → Linked c.lru c.index c.next_id
      → 0 < c.capacity
      → length c.lru ≤ c.capacity
      → Cut c c
  already c v pos le = record {
    valid = record { positive = pos; bounded = le; linked = v };
    same_capacity = refl;
    cut = sym (take_all c.capacity (entries c.lru) (omega (arith, length-entries c.lru)));
  }

  -- The loop of `set_capacity` takes off what is above the capacity.
  shrink-Cut :
      (fuel : ℕ) (c : EvaluationCache V)
      → Linked c.lru c.index c.next_id
      → 0 < c.capacity
      → length c.lru ≤ c.capacity + fuel
      → Cut c (shrink fuel c)
  unfolding shrink
  shrink-Cut zero c v pos le = already c v pos (omega arith)
  shrink-Cut (suc fuel) c v pos le = elim (Bool-cases (ltb c.capacity (length c.lru))) [
    | inr fits ↦ rw fits (already c v pos (ground arith))
    | inl over ↦
        let (k, e) = last-some c.lru (ground arith) in
        let c' : EvaluationCache V = record c {
          lru = without_last c.lru;
          index = erase k.key c.index;
          evictions = c.evictions + 1;
        } in
        let gone : evict c ≡ c' = unfold evict evict_node in rw e in
        let rest =
          shrink-Cut fuel c' (evict-Linked c.lru c.index c.next_id k v e) pos
            (ground (arith, length-without_last c.lru)) in
        rw (over, gone)
          (record {
            valid = rest.valid;
            same_capacity = rest.same_capacity;
            cut =
                rest.cut
                ∙ ap (take c.capacity) (entries-without_last c.lru)
                ∙ take-take c.capacity (length c.lru - 1) (entries c.lru) (ground arith);
          })
  ]

  -- What is found by an iterator of the index.
  found_node :
      (c : EvaluationCache V) (key it : ℕ)
      → IsValid c
      → lookup key c.index ≡ some it
      → (n : Node V) × (node_at it c.lru ≡ some n) × (n.id ≡ it) × (n.key ≡ key)
  found_node c key it v e =
      let (k, among, k_key, k_id) = v.linked.indexed key it e in
      let (n, at) = node_at_found it c.lru k among k_id in
      let (i, same) = node_at-In it c.lru n at in
      (n, at, same, (Linked-Picks c.lru c.index c.next_id v.linked key it e n i).0 same)

  -- `get` gives the entry of the key and makes it the one used last; it fails for no valid cache.
  pub get-recall :
      (key : ℕ) (c : EvaluationCache V)
      → IsValid c
      → (c' : EvaluationCache V) × (get key c ≡ some (c', lookup key (entries c.lru)))
        × IsValid c'
        × (view c' ≡ recent c.capacity (recall key (lookup key (entries c.lru)) (entries c.lru)))
  unfolding get get_at get_node recall
  get-recall key c v = elim (Option-cases (lookup key c.index)) [
    | inl missing ↦
        let (absent, same) =
          absent_key key c.lru (Linked_absent c.lru c.index c.next_id v.linked key missing) in
        (
          (record c { misses = c.misses + 1 }),
          rw (missing, absent),
          record { positive = v.positive; bounded = v.bounded; linked = v.linked },
          rw absent,
        )
    | inr (it, e) ↦
        let (n, at, id_eq, key_eq) = found_node c key it v e in
        let p = Linked-Picks c.lru c.index c.next_id v.linked key it e in
        let value : lookup key (entries c.lru) ≡ some n.value =
          lookup-entries it key c.lru p ∙ rw at in
        (
          (record c { lru = n ∷ unlink it c.lru; hits = c.hits + 1 }),
          rw (e, at, value),
          record {
            positive = v.positive;
            bounded = omega (arith, length-unlink it c.lru n at, v.bounded);
            linked = touch-Linked c.lru c.index c.next_id v.linked key it n e id_eq key_eq;
          },
          rw value (
              ap (λ (l : Dict ℕ V). recent c.capacity l)
                (unfold entries in
                  ap (λ (k : ℕ). (k, n.value) ∷ entries (unlink it c.lru)) key_eq
                  ∙ ap (λ (l : Dict ℕ V). (key, n.value) ∷ l) (entries-unlink it key c.lru p))),
        )
  ]

  Cut-view :
      (c c' : EvaluationCache V)
      → Cut c c'
      → view c' ≡ recent c.capacity (take c.capacity (entries c.lru))
  Cut-view c c' h =
      ap (λ (n : ℕ). recent n (entries c'.lru)) h.same_capacity ∙ ap (recent c.capacity) h.cut

  -- `put` makes the entry the one used last and cuts what is above the capacity.
  pub put-touch :
      (key : ℕ) (value : V) (c : EvaluationCache V)
      → IsValid c
      → (c' : EvaluationCache V) × (put key value c ≡ some c')
        × IsValid c'
        × (view c' ≡ recent c.capacity (take c.capacity (touch key value (entries c.lru))))
  unfolding put put_at overwrite
  put-touch key value c v = elim (Option-cases (lookup key c.index)) [
    | inl missing ↦
        let (absent, same) =
          absent_key key c.lru (Linked_absent c.lru c.index c.next_id v.linked key missing) in
        let n : Node V = record { id = c.next_id; key = key; value = value } in
        let grown : EvaluationCache V = record c {
          lru = n ∷ c.lru;
          index = insert key c.next_id c.index;
          next_id = c.next_id + 1;
        } in
        let room =
          shrink-Cut 1 grown (add-Linked c.lru c.index c.next_id v.linked n missing refl) v.positive
            (omega (arith, v.bounded)) in
        (
          shrink 1 grown,
          rw missing (unfold make_room shrink in refl),
          room.valid,
          Cut-view grown (shrink 1 grown) room
              ∙ unfold entries in
                ap (λ (l : Dict ℕ V). recent c.capacity (take c.capacity ((key, value) ∷ l)))
                  (sym same),
        )
    | inr (it, e) ↦
        let (n, at, id_eq, key_eq) = found_node c key it v e in
        let p = Linked-Picks c.lru c.index c.next_id v.linked key it e in
        let n' : Node V = record n { value = value } in
        let c' : EvaluationCache V = record c { lru = n' ∷ unlink it c.lru } in
        let items : entries c'.lru ≡ touch key value (entries c.lru) =
          unfold entries in
          (ap (λ (k : ℕ). (k, value) ∷ entries (unlink it c.lru)) key_eq
            ∙ ap (λ (l : Dict ℕ V). (key, value) ∷ l) (entries-unlink it key c.lru p)) in
        (
          c',
          rw (e, at),
          record {
            positive = v.positive;
            bounded = omega (arith, length-unlink it c.lru n at, v.bounded);
            linked = touch-Linked c.lru c.index c.next_id v.linked key it n' e id_eq key_eq;
          },
          ap (recent c.capacity) (
              sym (
                take_all c.capacity (entries c'.lru)
                  (omega (arith, length-entries c'.lru, length-unlink it c.lru n at, v.bounded)))
              ∙ ap (take c.capacity) items),
        )
  ]

  -- `set_capacity` cuts the entries to the new capacity, which is 1 at least.
  pub set_capacity-take :
      (n : ℕ) (c : EvaluationCache V)
      → IsValid c
      → IsValid (set_capacity n c)
        × (view (set_capacity n c)
            ≡ recent (at_least_one n) (take (at_least_one n) (entries c.lru)))
  unfolding set_capacity
  set_capacity-take n c v =
      let c' : EvaluationCache V = record c { capacity = at_least_one n } in
      let h = shrink-Cut (length c.lru) c' v.linked (ground arith) (omega arith) in
      (h.valid, Cut-view c' (shrink (length c.lru) c') h)
