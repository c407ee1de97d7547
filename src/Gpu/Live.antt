-- ===== src/Gpu/Live.antt =====
-- What the sweep of a block records (`LivenessAnalysis::compute`, src/GPU/LivenessAnalysis.cpp) against
-- a direct definition of a live value: one that is used before it is defined again.
use clunk.Base.{
  ℕ, ◌≤◌, ◌≡◌, refl, ap, ◌∙◌, Bool, false, not, ◌&&◌, ◌||◌, if◌then◌else◌, ◌==◌, Option, some, none,
  List, [], ◌∷◌, ◌++◌, length, lookup, lookup-insert, nat_key, Bool-cases, inl, inr, arith,
}
use clunk.Base.Sets.{contains}
use clunk.Ir.Function.{Value, has_name, Instruction}
use clunk.Gpu.Liveness.{
  ValueSet, add_value, add_others, collect_uses, has_result, collect_def, Backward, step_back,
  sweep_back,
}

-- An operand of the address, which is named.
unfoldable pub is_use : ℕ → Option Value → Bool
is_use a none = false
is_use a (some v) = has_name v.name && v.address == a

unfoldable pub is_used : ℕ → List (Option Value) → Bool
is_used a [] = false
is_used a (o ∷ rest) = is_use a o || is_used a rest

unfoldable pub is_defined : ℕ → Instruction → Bool
is_defined a inst = (has_result inst.opcode && has_name inst.name) && inst.address == a

-- The value is live before the instructions, where `out` are live after them.
unfoldable pub is_live : ℕ → List Instruction → ValueSet → Bool
is_live a [] out = contains a out
is_live a (inst ∷ rest) out =
    is_used a inst.operands || (not (is_defined a inst) && is_live a rest out)

contains-add_value :
    (a b : ℕ) (s : ValueSet) → contains b (add_value a s) ≡ (a == b) || contains b s
unfolding add_value contains
contains-add_value a b s = ground (arith)

contains-collect_uses :
    (b : ℕ) (operands : List (Option Value)) (s : ValueSet)
    → contains b (collect_uses operands s) ≡ is_used b operands || contains b s
unfolding collect_uses is_used is_use
contains-collect_uses b [] s = refl
contains-collect_uses b (none ∷ rest) s = contains-collect_uses b rest s
contains-collect_uses b (some v ∷ rest) s = elim (Bool-cases (has_name v.name)) [
  | inl named ↦ rw named (
      contains-collect_uses b rest (add_value v.address s)
      ∙ ground (arith, contains-add_value v.address b s))
  | inr anonymous ↦ rw anonymous (contains-collect_uses b rest s)
]

contains-add_others :
    (b : ℕ) (values defs s : ValueSet)
    → contains b (add_others values defs s)
      ≡ contains b s || (not (contains b defs) && contains b values)
unfolding add_others contains
contains-add_others b [] defs s = ground arith
contains-add_others b (a ∷ rest) defs s =
    contains-add_others b rest defs (if contains a defs then s else add_value a s)
    ∙ elim (Bool-cases (a == b)) [
      | inl same ↦ let e : b ≡ a = ground arith in rw e (ground (arith, contains-add_value a b s))
      | inr other ↦ ground (arith, contains-add_value a b s)
    ]

contains-collect_def :
    (b : ℕ) (inst : Instruction) → contains b (collect_def inst) ≡ is_defined b inst
unfolding collect_def is_defined contains
contains-collect_def b inst = ground arith

-- One step of the sweep.
step_back-is_live :
    (b : ℕ) (inst : Instruction) (s : Backward)
    → contains b (step_back inst s).current
      ≡ is_used b inst.operands || (not (is_defined b inst) && contains b s.current)
unfolding step_back contains
step_back-is_live b inst s =
    contains-add_others b s.current (collect_def inst) (collect_uses inst.operands [])
    ∙ ground (arith, contains-collect_uses b inst.operands [], contains-collect_def b inst)

pub sweep_back-is_live :
    (b : ℕ) (l : List Instruction) (s : Backward)
    → contains b (sweep_back l s).current ≡ is_live b l s.current
unfolding sweep_back is_live
sweep_back-is_live b [] s = refl
sweep_back-is_live b (inst ∷ rest) s =
    step_back-is_live b inst (sweep_back rest s)
    ∙ ap (λ t. is_used b inst.operands || (not (is_defined b inst) && t))
        (sweep_back-is_live b rest s)

abbrev pub has_address : ℕ → List Instruction → Bool
has_address a [] = false
has_address a (inst ∷ rest) = inst.address == a || has_address a rest

-- The set recorded for an instruction, once the sweep has passed those before it.
pub sweep_back-recorded :
    (front : List Instruction) (inst : Instruction) (rest : List Instruction) (s : Backward)
    → has_address inst.address front ≡ false
    → let done = sweep_back (front ++ inst ∷ rest) s in
      (lookup inst.address done.live_in ≡ some (sweep_back (inst ∷ rest) s).current)
      × (lookup inst.address done.live_out ≡ some (sweep_back rest s).current)
      × (length (sweep_back (inst ∷ rest) s).current ≤ done.peak)
unfolding sweep_back step_back
sweep_back-recorded [] inst rest s h =
    let a = inst.address in
    let before = sweep_back rest s in
    (
      lookup-insert a a (step_back inst before).current before.live_in ∙ ground arith,
      lookup-insert a a before.current before.live_out ∙ ground arith,
      omega arith,
    )
sweep_back-recorded (first ∷ front) inst rest s h =
    let a = inst.address in
    let before = sweep_back (front ++ inst ∷ rest) s in
    let (ins, outs, peak) = sweep_back-recorded front inst rest s (ground arith) in
    let apart : (first.address == a) ≡ false = ground arith in
    (
      lookup-insert first.address a (step_back first before).current before.live_in
          ∙ ground (arith, ins, apart),
      lookup-insert first.address a before.current before.live_out ∙ ground (arith, outs, apart),
      omega (arith, peak),
    )
