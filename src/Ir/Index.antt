-- ===== src/Ir/Index.antt =====
-- The index of a function's blocks by name stays right as blocks are added and removed.
use Prim.Native.String.{String}
use mathlib.Core.Option
use clunk.Base.{
  ℕ, suc, ◌-◌, ◌≡◌, ◌≢◌, ◌↔◌, sym, ap, ◌∙◌, false, if◌then◌else◌, ◌==◌, ltb, Option, some, none,
  List, get_elem?, length, lookup, erase, string_key, remove_at, Option-cases, Bool-cases, inl, inr,
  arith, lookup-insert, lookup-erase, lookup-map_values, get_elem?-remove_at, get_elem?-back,
  get_elem?-lt,
}
use clunk.Ir.Function.{BasicBlock, Function}
use clunk.Ir.Blocks.{push_block, remove_block_at, remove_block}

-- The block at a position has the name.
abbrev pub Stands : List BasicBlock → String → ℕ → Type 0
Stands blocks name i = (b : BasicBlock) × (get_elem? blocks i ≡ some b) × (b.name ≡ name)

-- A name is indexed by a position exactly when the block there has it.
abbrev pub IsIndexed : Function → Type 0
IsIndexed fn =
    (name : String) (i : ℕ) → (lookup name fn.block_index ≡ some i) ↔ Stands fn.blocks name i

-- Adding a block of a new name keeps the index right.
pub push_block-IsIndexed :
    (b : BasicBlock) (fn : Function)
    → IsIndexed fn
    → lookup b.name fn.block_index ≡ none
    → IsIndexed (push_block b fn)
unfolding push_block
push_block-IsIndexed b fn h new name i =
    let index = lookup-insert b.name name (length fn.blocks) fn.block_index in
    let place = get_elem?-back fn.blocks b i in
    let same = string_key.same_iff b.name name in
    (
      λ e. elim (Bool-cases (string_key.same b.name name)) [
        | inl hit ↦ (b, ground (arith, index, place), same.0 hit)
        | inr miss ↦
            let (c, found, named) = (h name i).0 (ground (arith, index)) in
            (c, ground (arith, place, get_elem?-lt fn.blocks c i found), named)
      ],
      λ s. elim (Bool-cases (i == length fn.blocks)) [
        | inl hit ↦ ground (
          arith,
          index,
          place,
          same,
          ap (λ (o : Option BasicBlock). Option.map (λ (c : BasicBlock). c.name) o) s.1,
          s.2,
        )
        | inr miss ↦
            let old = (h name i).1 (s.0, ground (arith, place, s.1), s.2) in
            ground (arith, index, same, new)
      ],
    )

abbrev lowered : ℕ → ℕ → ℕ
lowered k v = if ltb k v then v - 1 else v

module _ (fn : Function) (h : IsIndexed fn) (name : String) (k : ℕ)
    (at : lookup name fn.block_index ≡ some k) where
  lookup-removed :
      (other : String)
      → lookup other (remove_block_at (some k) name fn).block_index ≡ (
          if string_key.same name other
          then none
          else Option.map (lowered k) (lookup other fn.block_index))
  unfolding remove_block_at
  lookup-removed other = ground (
    arith,
    lookup-map_values (lowered k) other (erase name fn.block_index),
    lookup-erase name other fn.block_index,
  )

  -- Only the removed name stands at its position.
  pub same_place : (other : String) → lookup other fn.block_index ≡ some k → name ≡ other
  same_place other e =
      let (b, found, named) = (h name k).0 at in
      let (c, again, other_named) = (h other k).0 e in
      sym named
      ∙ ap (λ (x : BasicBlock). x.name) (Option.some_inj.0 (sym found ∙ again))
      ∙ other_named

  -- Where position `i` was before the removal.
  abbrev before : ℕ → ℕ
  before i = if ltb i k then i else suc i

  removed_to :
      (other : String) (i v : ℕ)
      → string_key.same name other ≡ false
      → lookup other fn.block_index ≡ some v
      → lowered k v ≡ i
      → Stands (remove_at k fn.blocks) other i
  removed_to other i v miss found e =
      let elsewhere : v ≢ k = λ q.
        absurd
          (ground (arith, same_place other (found ∙ ap some q), string_key.same_iff name other)) in
      let (c, there, named) = (h other v).0 found in
      let back : before i ≡ v = ground (arith, elsewhere) in
      (c, get_elem?-remove_at k i fn.blocks ∙ ap (get_elem? fn.blocks) back ∙ there, named)

  removed_from :
      (other : String) (i : ℕ)
      → Stands (remove_at k fn.blocks) other i
      → (string_key.same name other ≡ false) × (lookup other fn.block_index ≡ some (before i))
  removed_from other i (c, there, named) =
      let old =
        (h other (before i)).1 (c, sym (get_elem?-remove_at k i fn.blocks) ∙ there, named) in
      (
        elim (Bool-cases (string_key.same name other)) [
          | inr miss ↦ miss
          | inl hit ↦
              let e : k ≡ before i = Option.some_inj.0 (
                sym at
                ∙ ap (λ (t : String). lookup t fn.block_index)
                    ((string_key.same_iff name other).0 hit)
                ∙ old) in
              absurd (ground arith)
        ],
        old,
      )

  removed-IsIndexed : IsIndexed (remove_block_at (some k) name fn)
  unfolding remove_block_at
  removed-IsIndexed other i = (
    λ e. elim (Bool-cases (string_key.same name other)) [
      | inl hit ↦ absurd (ground (arith, lookup-removed other))
      | inr miss ↦ elim (Option-cases (lookup other fn.block_index)) [
        | inl none_there ↦ absurd (ground (arith, lookup-removed other))
        | inr (v, found) ↦ removed_to other i v miss found (ground (arith, lookup-removed other))
      ]
    ],
    λ s. let (miss, found) = removed_from other i s in ground (arith, lookup-removed other),
  )

-- Removing a block by name keeps the index right.
pub remove_block-IsIndexed :
    (name : String) (fn : Function) → IsIndexed fn → IsIndexed (remove_block name fn)
unfolding remove_block remove_block_at
remove_block-IsIndexed name fn h = elim (Option-cases (lookup name fn.block_index)) [
  | inl missing ↦ rw missing h
  | inr (k, found) ↦ rw found (removed-IsIndexed fn h name k found)
]
