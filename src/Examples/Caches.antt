-- ===== src/Examples/Caches.antt =====
-- A cache of two entries (include/clunk/Evaluator/EvaluationCache.h).
use clunk.Base.{
  ℕ, ◌≡◌, ◌≤◌, refl, some, none, List, [], ◌∷◌, length, lookup, insert, erase, nat_key, arith,
}
use clunk.Evaluator.Cache.{Node, EvaluationCache, at_least_one, make_cache, get, put, set_capacity}
use clunk.Evaluator.Recency.{take, touch, entries}
use clunk.Evaluator.Linked.{IsValid, empty-Linked, add-Linked}
use clunk.Evaluator.Refines.{recent, view, recall, get-recall, put-touch, set_capacity-take}
use clunk.Evaluator.Calls.{
  Call, get_call, put_call, capacity_call, call_all, answers, recent_gives, recent_after,
  make_cache-answers,
}

abbrev node : ℕ → ℕ → ℕ → Node ℕ
node id key value = record { id = id; key = key; value = value }

abbrev two_entries : EvaluationCache ℕ
two_entries = record {
  capacity = 2;
  lru = node 1 8 80 ∷ node 0 7 70 ∷ [];
  index = insert 8 1 (insert 7 0 []);
  hits = 0;
  misses = 0;
  evictions = 0;
  next_id = 2;
}

two_entries-IsValid : IsValid two_entries
two_entries-IsValid = record {
  positive = omega arith;
  bounded = omega arith;
  linked =
      add-Linked (node 0 7 70 ∷ []) (insert 7 0 []) 1
        (add-Linked [] [] 0 (empty-Linked 0) (node 0 7 70) (unfold lookup in refl) refl)
        (node 1 8 80) (unfold lookup insert in refl) refl;
}

get-recall_example :
    (c' : EvaluationCache ℕ) × (get 7 two_entries ≡ some (c', lookup 7 (entries two_entries.lru)))
    × IsValid c'
    × (view c' ≡ recent 2 (recall 7 (lookup 7 (entries two_entries.lru)) (entries two_entries.lru)))
get-recall_example = get-recall 7 two_entries two_entries-IsValid

put-touch_example :
    (c' : EvaluationCache ℕ) × (put 9 90 two_entries ≡ some c')
    × IsValid c'
    × (view c' ≡ recent 2 (take 2 (touch 9 90 (entries two_entries.lru))))
put-touch_example = put-touch 9 90 two_entries two_entries-IsValid

set_capacity-take_example :
    IsValid (set_capacity 1 two_entries)
    × (view (set_capacity 1 two_entries)
        ≡ recent (at_least_one 1) (take (at_least_one 1) (entries two_entries.lru)))
set_capacity-take_example = set_capacity-take 1 two_entries two_entries-IsValid

abbrev some_calls : List (Call ℕ)
some_calls =
    put_call 1 10
    ∷ put_call 2 20
    ∷ get_call 1
    ∷ put_call 3 30
    ∷ get_call 2
    ∷ capacity_call 1
    ∷ get_call 3
    ∷ []

-- The entry of key 2 was used least recently and is gone.
answers-some_calls :
    answers some_calls (recent 2 []) ≡ none ∷ none ∷ some 10 ∷ none ∷ none ∷ none ∷ some 30 ∷ []
unfolding answers recent_gives lookup recent_after take erase recall
answers-some_calls = refl

make_cache-answers_example :
    (c : EvaluationCache ℕ) × (call_all some_calls (make_cache 2)
      ≡ some (c, answers some_calls (recent 2 [])))
    × (length c.lru ≤ c.capacity)
make_cache-answers_example = make_cache-answers 2 some_calls
