-- ===== src/Evaluator/Calls.antt =====
-- Any calls of the cache, against the same calls of the abstract one.
use clunk.Base.{
  ℕ, ◌≡◌, ◌≤◌, refl, ap, Option, some, none, List, [], ◌∷◌, length, lookup, nat_key, arith,
}
use clunk.Evaluator.Cache.{EvaluationCache, at_least_one, make_cache, get, put, clear, set_capacity}
use clunk.Evaluator.Recency.{take, touch, entries}
use clunk.Evaluator.Linked.{IsValid, empty-Linked}
use clunk.Evaluator.Refines.{Recent, recent, view, recall, get-recall, put-touch, set_capacity-take}

pub data Call {ℓ} (V : Type ℓ) : Type ℓ where
  get_call : ℕ → Call V
  put_call : ℕ → V → Call V
  clear_call : Call V
  capacity_call : ℕ → Call V

module _ {ℓ} {V : Type ℓ} where
  -- A call that gives nothing back.
  unfoldable pub silent : Option (EvaluationCache V) → Option (EvaluationCache V × Option V)
  silent none = none
  silent (some c) = some (c, none)

  unfoldable pub call : Call V → EvaluationCache V → Option (EvaluationCache V × Option V)
  call (get_call key) c = get key c
  call (put_call key value) c = silent (put key value c)
  call clear_call c = some (clear c, none)
  call (capacity_call n) c = some (set_capacity n c, none)

  unfoldable pub with_answer :
      Option V
      → Option (EvaluationCache V × List (Option V))
      → Option (EvaluationCache V × List (Option V))
  with_answer out none = none
  with_answer out (some (c, outs)) = some (c, out ∷ outs)

  unfoldable pub after :
      Option (EvaluationCache V × Option V)
      → (EvaluationCache V → Option (EvaluationCache V × List (Option V)))
      → Option (EvaluationCache V × List (Option V))
  after none rest = none
  after (some (c, out)) rest = with_answer out (rest c)

  unfoldable pub call_all :
      List (Call V) → EvaluationCache V → Option (EvaluationCache V × List (Option V))
  call_all [] c = some (c, [])
  call_all (k ∷ ks) c = after (call k c) (λ c'. call_all ks c')

  -- The same call of the abstract cache, and what it gives back.
  unfoldable pub recent_after : Call V → Recent V → Recent V
  recent_after (get_call key) r = recent r.capacity (recall key (lookup key r.items) r.items)
  recent_after (put_call key value) r =
      recent r.capacity (take r.capacity (touch key value r.items))
  recent_after clear_call r = recent r.capacity []
  recent_after (capacity_call n) r = recent (at_least_one n) (take (at_least_one n) r.items)

  unfoldable pub recent_gives : Call V → Recent V → Option V
  recent_gives (get_call key) r = lookup key r.items
  recent_gives _ r = none

  unfoldable pub answers : List (Call V) → Recent V → List (Option V)
  answers [] r = []
  answers (k ∷ ks) r = recent_gives k r ∷ answers ks (recent_after k r)

  -- One call of a valid cache.
  call-recent :
      (k : Call V) (c : EvaluationCache V)
      → IsValid c
      → (c' : EvaluationCache V) × (call k c ≡ some (c', recent_gives k (view c)))
        × IsValid c'
        × (view c' ≡ recent_after k (view c))
  unfolding call silent recent_after recent_gives
  call-recent (get_call key) c v = get-recall key c v
  call-recent (put_call key value) c v =
      let (c', e, valid, same) = put-touch key value c v in (c', rw e, valid, same)
  call-recent clear_call c v = (
    clear c,
    refl,
    unfold clear in
        record { positive = v.positive; bounded = omega arith; linked = empty-Linked c.next_id },
    unfold clear entries in refl,
  )
  call-recent (capacity_call n) c v =
      let (valid, same) = set_capacity-take n c v in (set_capacity n c, refl, valid, same)

  pub make_cache-IsValid : (capacity : ℕ) → IsValid (make_cache {V = V} capacity)
  unfolding make_cache
  make_cache-IsValid capacity = record {
    positive = ground arith;
    bounded = omega arith;
    linked = empty-Linked 0;
  }

  -- From a valid cache, any calls succeed, give what the abstract cache gives, and leave a valid cache.
  pub call_all-answers :
      (ks : List (Call V)) (c : EvaluationCache V)
      → IsValid c
      → (c' : EvaluationCache V) × (call_all ks c ≡ some (c', answers ks (view c))) × IsValid c'
  unfolding call_all after with_answer answers
  call_all-answers [] c v = (c, refl, v)
  call_all-answers (k ∷ ks) c v =
      let (c1, e1, v1, same1) = call-recent k c v in
      let (c2, e2, v2) = call_all-answers ks c1 v1 in
      (
        c2,
        rw (e1, e2)
            (ap (λ (r : Recent V). some (c2, recent_gives k (view c) ∷ answers ks r)) same1),
        v2,
      )

  -- A cache that was made new, whatever is called, behaves as the list of entries by recency that is cut
  -- to its capacity.
  pub make_cache-answers :
      (capacity : ℕ) (ks : List (Call V))
      → (c : EvaluationCache V) × (call_all ks (make_cache capacity)
          ≡ some (c, answers ks (recent (at_least_one capacity) [])))
        × (length c.lru ≤ c.capacity)
  make_cache-answers capacity ks =
      let (c, e, v) = call_all-answers ks (make_cache capacity) (make_cache-IsValid capacity) in
      (c, unfold make_cache entries in e, v.bounded)
