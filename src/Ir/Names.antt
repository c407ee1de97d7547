-- ===== src/Ir/Names.antt =====
-- The printer's names of opcodes and predicates against the parser's tables.
use Prim.Native.String.{String}
use mathlib.Core.Path.{subst₂}
use clunk.Base.{
  ◌≡◌, refl, Bool, true, false, some, [], ◌∷◌, arith, ◌↔◌, ◌⊎◌, ◌+◌, ◌≤◌, ℕ, Dict, Key, lookup,
  string_key, nat_key, inl, inr,
}
use clunk.Ir.Opcode.{
  Opcode, is_terminator, is_binary_op, is_memory_op, is_cast, is_cmp, opcode_name, binop_of_name,
  conversion_of_name,
}
use clunk.Ir.Opcode
use clunk.Ir.Predicate.{CmpPredicate, cmp_predicate_name, is_integer_predicate, predicate_of_name}

-- What holds of each entry of a table holds of what is found in it.
abbrev Entries {ℓ κ μ} : {K : Type ℓ} {V : Type κ} → (K → V → Type μ) → Dict K V → Type μ
Entries P [] = Unit
Entries P ((k, v) ∷ m) = P k v × Entries P m

module _ {ℓ κ} {K : Type ℓ} {V : Type κ} ⦃e : Key K⦄ where
  lookup-cases :
      (k j : K) (v w : V) (m : Dict K V)
      → lookup k ((j, w) ∷ m) ≡ some v
      → ((j ≡ k) × (w ≡ v)) ⊎ (lookup k m ≡ some v)
  unfolding lookup
  lookup-cases k j v w m h = ground (arith, e.same_iff j k)

  lookup-Entries {μ} :
      (P : K → V → Type μ) (k : K) (v : V) (m : Dict K V)
      → Entries P m
      → lookup k m ≡ some v
      → P k v
  lookup-Entries P k v [] h e = unfold lookup in cc
  lookup-Entries P k v ((j, w) ∷ m) h e = elim (lookup-cases k j v w m e) [
    | inl found ↦ subst₂ P found.0 found.1 h.0
    | inr rest ↦ lookup-Entries P k v m h.1 rest
  ]

abbrev IsNamed : (Opcode → Bool) → String → Opcode → Type 0
IsNamed class name op = (class op ≡ true) × (opcode_name op ≡ name)

binop-Entries : Entries (IsNamed is_binary_op) Opcode.binop_table
unfolding is_binary_op opcode_name
binop-Entries = grind arith

conversion-Entries : Entries (IsNamed is_cast) Opcode.conversion_table
unfolding is_cast opcode_name
conversion-Entries = grind arith

binop_of_name-opcode_name :
    (op : Opcode) → is_binary_op op ≡ true → binop_of_name (opcode_name op) ≡ some op
unfolding is_binary_op binop_of_name opcode_name lookup
binop_of_name-opcode_name Opcode.add h = refl
binop_of_name-opcode_name op h = ground arith

conversion_of_name-opcode_name :
    (op : Opcode) → is_cast op ≡ true → conversion_of_name (opcode_name op) ≡ some op
unfolding is_cast conversion_of_name opcode_name lookup
conversion_of_name-opcode_name Opcode.trunc h = refl
conversion_of_name-opcode_name op h = ground arith

-- The parser reads a word as the opcode of a binary operation exactly when the opcode is one and the
-- printer prints it as that word.
pub binop_of_name_iff :
    (name : String) (op : Opcode)
    → (binop_of_name name ≡ some op) ↔ ((is_binary_op op ≡ true) × (opcode_name op ≡ name))
binop_of_name_iff name op = (
  unfold binop_of_name in lookup-Entries (IsNamed is_binary_op) name op _ binop-Entries,
  λ h. rw (← h.1) (binop_of_name-opcode_name op h.0),
)

-- The parser reads a word as the opcode of a cast exactly when the opcode is one and the printer prints
-- it as that word.
pub conversion_of_name_iff :
    (name : String) (op : Opcode)
    → (conversion_of_name name ≡ some op) ↔ ((is_cast op ≡ true) × (opcode_name op ≡ name))
conversion_of_name_iff name op = (
  unfold conversion_of_name in lookup-Entries (IsNamed is_cast) name op _ conversion-Entries,
  λ h. rw (← h.1) (conversion_of_name-opcode_name op h.0),
)

-- Printing a predicate and parsing the word after `icmp`, for an integer predicate, or `fcmp`, for
-- another, gives the predicate back.
pub predicate_of_name-name :
    (p : CmpPredicate) → predicate_of_name (is_integer_predicate p) (cmp_predicate_name p) ≡ p
unfolding predicate_of_name is_integer_predicate cmp_predicate_name lookup
predicate_of_name-name CmpPredicate.eq = refl
predicate_of_name-name _ = refl

abbrev pub flag : Bool → ℕ
flag true = 1
flag false = 0

-- The five classes of opcodes do not overlap.
pub opcode_classes :
    (op : Opcode)
    → flag (is_terminator op)
        + flag (is_binary_op op)
        + flag (is_memory_op op)
        + flag (is_cast op)
        + flag (is_cmp op)
      ≤ 1
unfolding is_terminator is_binary_op is_memory_op is_cast is_cmp
opcode_classes Opcode.ret = omega arith
opcode_classes _ = omega arith
