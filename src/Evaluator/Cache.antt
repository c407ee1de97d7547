-- ===== src/Evaluator/Cache.antt =====
-- `EvaluationCache` (include/clunk/Evaluator/EvaluationCache.h). A node of the `std::list` has a number,
-- which stands for the iterator that the index keeps; `next_id` is the number of the node made next. A
-- method runs under its lock, so it is one step. `none` is the use of an iterator of no node.
use clunk.Base.{
  ℕ, zero, suc, ◌+◌, if◌then◌else◌, ◌==◌, ltb, Option, some, none, List, [], ◌∷◌, length, last,
  Dict, lookup, insert, erase, nat_key,
}

pub record Node {ℓ} (V : Type ℓ) : Type ℓ where
  pub id : ℕ
  pub key : ℕ
  pub value : V

-- The front of `lru` is the entry used last.
pub record EvaluationCache {ℓ} (V : Type ℓ) : Type ℓ where
  pub capacity : ℕ
  pub lru : List (Node V)
  pub index : Dict ℕ ℕ
  pub hits : ℕ
  pub misses : ℕ
  pub evictions : ℕ
  pub next_id : ℕ

pub record CacheStats : Type 0 where
  pub hits : ℕ
  pub misses : ℕ
  pub evictions : ℕ
  pub size : ℕ
  pub capacity : ℕ

abbrev pub at_least_one : ℕ → ℕ
at_least_one n = if n == 0 then 1 else n

module _ {ℓ} {V : Type ℓ} where
  unfoldable pub make_cache : ℕ → EvaluationCache V
  make_cache capacity = record {
    capacity = at_least_one capacity;
    lru = [];
    index = [];
    hits = 0;
    misses = 0;
    evictions = 0;
    next_id = 0;
  }

  -- The node of an iterator.
  unfoldable pub node_at : ℕ → List (Node V) → Option (Node V)
  node_at it [] = none
  node_at it (n ∷ rest) = if n.id == it then some n else node_at it rest

  unfoldable pub unlink : ℕ → List (Node V) → List (Node V)
  unlink it [] = []
  unlink it (n ∷ rest) = if n.id == it then unlink it rest else n ∷ unlink it rest

  unfoldable pub without_last : List (Node V) → List (Node V)
  without_last [] = []
  without_last (n ∷ []) = []
  without_last (n ∷ m ∷ rest) = n ∷ without_last (m ∷ rest)

  -- `get` and the entry that it gives, where there is one.
  unfoldable pub get_node :
      ℕ → Option (Node V) → EvaluationCache V → Option (EvaluationCache V × Option V)
  get_node it none c = none
  get_node it (some n) c =
      some (record c { lru = n ∷ unlink it c.lru; hits = c.hits + 1 }, some n.value)

  unfoldable pub get_at : Option ℕ → EvaluationCache V → Option (EvaluationCache V × Option V)
  get_at none c = some (record c { misses = c.misses + 1 }, none)
  get_at (some it) c = get_node it (node_at it c.lru) c

  unfoldable pub get : ℕ → EvaluationCache V → Option (EvaluationCache V × Option V)
  get key c = get_at (lookup key c.index) c

  unfoldable pub evict_node : Option (Node V) → EvaluationCache V → EvaluationCache V
  evict_node none c = c
  evict_node (some victim) c = record c {
    lru = without_last c.lru;
    index = erase victim.key c.index;
    evictions = c.evictions + 1;
  }

  unfoldable pub evict : EvaluationCache V → EvaluationCache V
  evict c = evict_node (last c.lru) c

  unfoldable pub overwrite :
      ℕ → V → Option (Node V) → EvaluationCache V → Option (EvaluationCache V)
  overwrite it value none c = none
  overwrite it value (some n) c =
      some (record c { lru = (record n { value = value }) ∷ unlink it c.lru })

  unfoldable pub make_room : EvaluationCache V → EvaluationCache V
  make_room c = if ltb c.capacity (length c.lru) then evict c else c

  unfoldable pub put_at : Option ℕ → ℕ → V → EvaluationCache V → Option (EvaluationCache V)
  put_at (some it) key value c = overwrite it value (node_at it c.lru) c
  put_at none key value c = some (
      make_room (record c {
        lru = record { id = c.next_id; key = key; value = value } ∷ c.lru;
        index = insert key c.next_id c.index;
        next_id = c.next_id + 1;
      }))

  unfoldable pub put : ℕ → V → EvaluationCache V → Option (EvaluationCache V)
  put key value c = put_at (lookup key c.index) key value c

  unfoldable pub clear : EvaluationCache V → EvaluationCache V
  clear c = record c { lru = []; index = [] }

  unfoldable pub stats : EvaluationCache V → CacheStats
  stats c = record {
    hits = c.hits;
    misses = c.misses;
    evictions = c.evictions;
    size = length c.lru;
    capacity = c.capacity;
  }

  -- `while (lru_.size() > capacity_)`. Each round takes an entry off, so as many rounds as there are
  -- entries.
  unfoldable pub shrink : ℕ → EvaluationCache V → EvaluationCache V
  shrink zero c = c
  shrink (suc fuel) c =
      let rest = shrink fuel (evict c) in if ltb c.capacity (length c.lru) then rest else c

  unfoldable pub set_capacity : ℕ → EvaluationCache V → EvaluationCache V
  set_capacity new_capacity c =
      shrink (length c.lru) (record c { capacity = at_least_one new_capacity })
