-- ===== src/Prune/Cse.antt =====
-- `simplify_cse` and `prune_dataflow` (src/IR/DataflowPrune.cpp). `fresh` is the address that the
-- allocator hands out next; `to_string` is `std::to_string`, of a number and, as `to_string_signed`, of
-- the pattern of an `int64_t`.
use Prim.Native.String.{String, ◌++◌ as append}
use mathlib.Core.Option
use clunk.Base.{
  ℕ, zero, suc, ◌+◌, Bool, true, false, not, ◌&&◌, ◌||◌, if◌then◌else◌, ◌==◌, Option, some, none,
  List, [], ◌∷◌, ◌++◌, Dict, lookup, insert, string_key,
}
use clunk.Base.Sets.{contains}
use clunk.Ir.Opcode.{Opcode}
use clunk.Ir.Function.{
  IrType, bit_width, as_constant_int, Value, has_name, is_empty, Instruction, BasicBlock, Function,
}
use clunk.Ir.Blocks.{push_block}
use clunk.Ir.Clone.{as_value, without_blocks, remap_operands_by_name, compute_predecessors}
use clunk.Ir.Printer.{type_to_string, flags_to_string, opcode_number}
use clunk.Prune.Dead.{Outcome, unchanged, changed, out_of_fuel, eliminate_dead_code}
use clunk.Prune.Unreachable.{remove_unreachable_blocks}
use clunk.Prune.Folds.{Binding, resolve_all, simplify_known_bits}

-- Pure, and without access to memory.
unfoldable pub is_eligible : Opcode → Bool
is_eligible Opcode.add = true
is_eligible Opcode.sub = true
is_eligible Opcode.mul = true
is_eligible Opcode.udiv = true
is_eligible Opcode.sdiv = true
is_eligible Opcode.urem = true
is_eligible Opcode.srem = true
is_eligible Opcode.and = true
is_eligible Opcode.or = true
is_eligible Opcode.xor = true
is_eligible Opcode.shl = true
is_eligible Opcode.lshr = true
is_eligible Opcode.ashr = true
is_eligible Opcode.icmp = true
is_eligible Opcode.select = true
is_eligible Opcode.trunc = true
is_eligible Opcode.zext = true
is_eligible Opcode.sext = true
is_eligible Opcode.ptr_to_int = true
is_eligible Opcode.int_to_ptr = true
is_eligible Opcode.bit_cast = true
is_eligible Opcode.get_element_ptr = true
is_eligible _ = false

abbrev pub text_or_empty : Option String → String
text_or_empty none = ""
text_or_empty (some text) = text

abbrev pub width_of : Option IrType → ℕ
width_of none = 0
width_of (some t) = bit_width t

pub record Sharing : Type 0 where
  pub binding : Binding
  pub table : Dict String Value
  pub eliminated : ℕ
  pub fresh : ℕ
  pub instrs : List Instruction

pub record Shared : Type 0 where
  pub function : Function
  pub eliminated : ℕ

-- The function of the moment, whether this round changed it, and whether a loop had too few rounds.
pub record Round : Type 0 where
  pub base : Function
  pub changed_now : Bool
  pub stuck : Bool

unfoldable pub after_option : {A : Type 0} → Option (Function × A) → Round → Round
after_option none r = r
after_option (some (fn, count)) r = record r { base = fn; changed_now = true }

unfoldable pub after_outcome : Outcome → Round → Round
after_outcome unchanged r = r
after_outcome (changed fn count) r = record r { base = fn; changed_now = true }
after_outcome out_of_fuel r = record r { stuck = true }

abbrev pub max_iterations : ℕ
max_iterations = 4

module _ (to_string to_string_signed : ℕ → String) where
  abbrev pub printed_type : Option IrType → String
  printed_type none = ""
  printed_type (some t) = type_to_string to_string t

  unfoldable pub named_part : Value → Option String
  named_part v = if has_name v.name then some (append "%" v.name) else none

  -- `none` is an operand that cannot be compared.
  unfoldable pub constant_part : Option ℕ → Value → Option String
  constant_part (some c) v =
      some (append "#" (append (to_string_signed c) (append ":" (to_string (width_of v.type)))))
  constant_part none v = named_part v

  unfoldable pub operand_part : Option Value → Option String
  operand_part none = some "<null>"
  operand_part (some v) = constant_part (as_constant_int v.kind) v

  unfoldable pub joined : Option String → Option String → Option String
  joined none rest = none
  joined (some part) none = none
  joined (some part) (some rest) = some (append "|" (append part rest))

  unfoldable pub operand_parts : List (Option Value) → Option String
  operand_parts [] = some ""
  operand_parts (o ∷ rest) = joined (operand_part o) (operand_parts rest)

  abbrev pub key_front : Instruction → String
  key_front inst = append (to_string (opcode_number inst.opcode)) (
      append "|" (
        append (flags_to_string inst.flags) (
          append "|" (
            append (text_or_empty (lookup "pred" inst.metadata))
              (append "|" (printed_type inst.type))))))

  -- The empty key is an instruction that takes no part.
  unfoldable pub cse_key : Binding → Instruction → String
  cse_key binding inst =
      if is_eligible inst.opcode && has_name inst.name
      then text_or_empty
          (Option.map (append (key_front inst)) (operand_parts (resolve_all binding inst.operands)))
      else ""

  -- Whether a key stands twice.
  unfoldable pub any_duplicate : List String → List Instruction → Bool
  any_duplicate seen [] = false
  any_duplicate seen (i ∷ rest) =
      let key = cse_key [] i in
      let later = any_duplicate (if is_empty key then seen else key ∷ seen) rest in
      (not (is_empty key) && contains key seen) || later

  unfoldable pub any_duplicate_in : List BasicBlock → Bool
  any_duplicate_in [] = false
  any_duplicate_in (b ∷ rest) = any_duplicate [] b.instrs || any_duplicate_in rest

  abbrev pub copied : Instruction → Sharing → Instruction
  copied inst s = record inst { address = s.fresh; operands = resolve_all s.binding inst.operands }

  -- The first of a key is kept and recorded, a later one is bound to it.
  unfoldable pub share_as : String → Option Value → Instruction → Sharing → Sharing
  share_as key (some v) inst s = record s {
    binding = insert inst.name v s.binding;
    eliminated = s.eliminated + 1;
  }
  share_as key none inst s = record s {
    table = if is_empty key then s.table else insert key (as_value (copied inst s)) s.table;
    fresh = s.fresh + 1;
    instrs = s.instrs ++ copied inst s ∷ [];
  }

  unfoldable pub share : Instruction → Sharing → Sharing
  share inst s =
      let key = cse_key s.binding inst in
      share_as key (if is_empty key then none else lookup key s.table) inst s

  unfoldable pub share_all : List Instruction → Sharing → Sharing
  share_all [] s = s
  share_all (i ∷ rest) s = share_all rest (share i s)

  -- The table starts anew in every block, the binding goes on.
  unfoldable pub share_blocks : List BasicBlock → Function → Sharing → Shared
  share_blocks [] work s = record { function = work; eliminated = s.eliminated }
  share_blocks (b ∷ rest) work s =
      let t = share_all b.instrs (record s { table = []; instrs = [] }) in
      share_blocks rest (push_block (record { name = b.name; instrs = t.instrs; preds = [] }) work)
        t

  unfoldable pub finish_sharing : Shared → Option (Function × ℕ)
  finish_sharing r =
      if r.eliminated == 0
      then none
      else some (compute_predecessors to_string (remap_operands_by_name r.function), r.eliminated)

  unfoldable pub simplify_cse : ℕ → Function → Option (Function × ℕ)
  simplify_cse fresh fn =
      if any_duplicate_in fn.blocks
      then finish_sharing (
          share_blocks fn.blocks (without_blocks fn)
            (record { binding = []; table = []; eliminated = 0; fresh = fresh; instrs = [] }))
      else none

  -- The objects of a pass have addresses above every address that is in use.
  module _ (stoul : String → Option ℕ) (next_fresh : Function → ℕ) where
    abbrev pub fold_step : Round → Round
    fold_step r = after_option (simplify_known_bits to_string stoul (next_fresh r.base) r.base) r

    abbrev pub share_step : Round → Round
    share_step r = after_option (simplify_cse (next_fresh r.base) r.base) r

    abbrev pub reach_step : Round → Round
    reach_step r = after_outcome (remove_unreachable_blocks to_string (next_fresh r.base) r.base) r

    abbrev pub dead_step : Round → Round
    dead_step r = after_outcome (eliminate_dead_code to_string (next_fresh r.base) r.base) r

    unfoldable pub prune_round : Function → Round
    prune_round fn = dead_step (
        reach_step
          (share_step (fold_step (record { base = fn; changed_now = false; stuck = false }))))

    -- `iterations` rounds at most, until one changes nothing.
    unfoldable pub prune_rounds : ℕ → Function → Outcome → Outcome
    prune_rounds zero fn current = current
    prune_rounds (suc left) fn current =
        let r = prune_round fn in
        let later = prune_rounds left r.base (changed r.base 0) in
        if r.stuck then out_of_fuel else if r.changed_now then later else current

    unfoldable pub prune_dataflow : Function → Outcome
    prune_dataflow fn = prune_rounds max_iterations fn unchanged
