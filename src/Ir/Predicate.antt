-- ===== src/Ir/Predicate.antt =====
-- `enum class CmpPredicate` with its numbers and names (include/clunk/IR/Instruction.h,
-- src/IR/Instruction.cpp), and how src/Parser/IRParser.cpp reads the names back.
use Prim.Native.String.{String}
use mathlib.Core.Option
use clunk.Base.{
  ℕ, Bool, true, false, Option, some, none, List, if◌then◌else◌, ◌==◌, [], ◌∷◌, Dict, lookup,
  string_key,
}

pub data CmpPredicate : Type 0 where
  eq ne ugt uge ult ule sgt sge slt sle : CmpPredicate
  f_false foeq fogt foge folt fole fone ford : CmpPredicate
  funo fueq fugt fuge fult fule fune f_true : CmpPredicate

-- The number of an enumerator.
unfoldable pub code : CmpPredicate → ℕ
code eq = 32
code ne = 33
code ugt = 34
code uge = 35
code ult = 36
code ule = 37
code sgt = 38
code sge = 39
code slt = 40
code sle = 41
code f_false = 0
code foeq = 1
code fogt = 2
code foge = 3
code folt = 4
code fole = 5
code fone = 6
code ford = 7
code funo = 8
code fueq = 9
code fugt = 10
code fuge = 11
code fult = 12
code fule = 13
code fune = 14
code f_true = 15

-- The enumerators.
abbrev pub enumerators : List CmpPredicate
enumerators =
    eq ∷ ne ∷ ugt ∷ uge ∷ ult ∷ ule ∷ sgt ∷ sge ∷ slt ∷ sle ∷ f_false ∷ foeq ∷ fogt ∷ foge ∷ folt
    ∷ fole ∷ fone ∷ ford ∷ funo ∷ fueq ∷ fugt ∷ fuge ∷ fult ∷ fule ∷ fune ∷ f_true ∷ []

unfoldable pub numbered : ℕ → List CmpPredicate → Option CmpPredicate
numbered n [] = none
numbered n (p ∷ rest) = let later = numbered n rest in if code p == n then some p else later

-- `static_cast<CmpPredicate>(n)` for `n` below 256: the enumerator whose number is `n`. A number that no
-- enumerator has is `none`; every `switch` of the program sends it to its default.
unfoldable pub of_code : ℕ → Option CmpPredicate
of_code n = numbered n enumerators

unfoldable pub cmp_predicate_name : CmpPredicate → String
cmp_predicate_name eq = "eq"
cmp_predicate_name ne = "ne"
cmp_predicate_name ugt = "ugt"
cmp_predicate_name uge = "uge"
cmp_predicate_name ult = "ult"
cmp_predicate_name ule = "ule"
cmp_predicate_name sgt = "sgt"
cmp_predicate_name sge = "sge"
cmp_predicate_name slt = "slt"
cmp_predicate_name sle = "sle"
cmp_predicate_name f_false = "false"
cmp_predicate_name foeq = "oeq"
cmp_predicate_name fogt = "ogt"
cmp_predicate_name foge = "oge"
cmp_predicate_name folt = "olt"
cmp_predicate_name fole = "ole"
cmp_predicate_name fone = "one"
cmp_predicate_name ford = "ord"
cmp_predicate_name funo = "uno"
cmp_predicate_name fueq = "ueq"
cmp_predicate_name fugt = "ugt"
cmp_predicate_name fuge = "uge"
cmp_predicate_name fult = "ult"
cmp_predicate_name fule = "ule"
cmp_predicate_name fune = "une"
cmp_predicate_name f_true = "true"

unfoldable pub is_integer_predicate : CmpPredicate → Bool
is_integer_predicate eq = true
is_integer_predicate ne = true
is_integer_predicate ugt = true
is_integer_predicate uge = true
is_integer_predicate ult = true
is_integer_predicate ule = true
is_integer_predicate sgt = true
is_integer_predicate sge = true
is_integer_predicate slt = true
is_integer_predicate sle = true
is_integer_predicate _ = false

abbrev icmp_table : Dict String CmpPredicate
icmp_table =
    ("eq", eq)
    ∷ ("ne", ne)
    ∷ ("ugt", ugt)
    ∷ ("uge", uge)
    ∷ ("ult", ult)
    ∷ ("ule", ule)
    ∷ ("sgt", sgt)
    ∷ ("sge", sge)
    ∷ ("slt", slt)
    ∷ ("sle", sle)
    ∷ []

abbrev fcmp_table : Dict String CmpPredicate
fcmp_table =
    ("oeq", foeq)
    ∷ ("ogt", fogt)
    ∷ ("oge", foge)
    ∷ ("olt", folt)
    ∷ ("ole", fole)
    ∷ ("one", fone)
    ∷ ("ord", ford)
    ∷ ("uno", funo)
    ∷ ("ueq", fueq)
    ∷ ("ugt", fugt)
    ∷ ("uge", fuge)
    ∷ ("ult", fult)
    ∷ ("ule", fule)
    ∷ ("une", fune)
    ∷ ("false", f_false)
    ∷ ("true", f_true)
    ∷ []

-- The predicate read after the opcode `icmp` or, with `false`, `fcmp`. A word that the chain does not
-- know leaves the default `EQ`.
unfoldable pub predicate_of_name : Bool → String → CmpPredicate
predicate_of_name true name = Option.get_or (lookup name icmp_table) eq
predicate_of_name false name = Option.get_or (lookup name fcmp_table) eq
