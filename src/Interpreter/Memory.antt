-- ===== src/Interpreter/Memory.antt =====
-- The memory of the interpreter: `Alloca`, `Store` and `Load` in `execute` of
-- src/Evaluator/Interpreter.cpp.
use Prim.Native.String.{String}
use clunk.Base.{
  ℕ, ◌+◌, ◌-◌, bit_or, bit_not, ◌^◌, ◌≤◌, ◌<◌, ◌≡◌, ◌≢◌, refl, ◌∙◌, Option, some, none, [], ◌∷◌,
  lookup, lookup-insert, ◌==◌, if◌then◌else◌, nat_key, arith,
}
use native.Mathlib.Decide.{dec_lt}
use clunk.Ir.Opcode.{Opcode}
use clunk.Ir.Function.{Value, as_constant_int, Instruction, integer_type}
use clunk.Base.Bits.{bit_ext, bit-bit_or}
use clunk.KnownBits.Lattice.{mask_for_width}
use clunk.KnownBits.Exact.{extended, fill_above}
use clunk.Interpreter.Bound.{operand-resolve_at, as_op, bound-resolve, bound-resolve_other}
use clunk.Interpreter.Values.{sign_extend}
use clunk.Interpreter.Execute.{
  Context, ExecResult, bind_value, store_value, load_value, bind_result, resolve, resolve_at,
  loaded, execute_alloca, execute_store, execute_load, execute_op, execute,
}
use clunk.Interpreter.Casts.{mask_below, sign_extend-extended, typed_width}

load_value-store_value :
    (ctx : Context) (handle other v : ℕ)
    → load_value (store_value ctx handle v) other
      ≡ (if handle == other then v else load_value ctx other)
unfolding load_value store_value
load_value-store_value ctx handle other v = ground (arith, lookup-insert handle other v ctx.memory)

or_again : (x m : ℕ) → bit_or (bit_or x m) m ≡ bit_or x m
or_again x m = bit_ext _ _ λ i. omega (arith, bit-bit_or (bit_or x m) m i, bit-bit_or x m i)

-- A pattern that is extended already is left as it is.
sign_extend_again :
    (w x : ℕ) → 1 < w → w < 64 → x < 2 ^ w → sign_extend (extended w x) w ≡ extended w x
sign_extend_again w x p h q = elim (dec_lt x (2 ^ (w - 1))) [
  | yes low ↦
      let e : extended w x ≡ x = unfold extended in ground arith in
      rw e (sign_extend-extended w x p (omega arith) q ∙ e)
  | no high ↦
      let filled : extended w x ≡ bit_or x (bit_not (mask_for_width w)) =
        unfold extended in ground (arith, fill_above w x (omega arith) q) in
      rw filled (
        unfold sign_extend in
        ground (arith, mask_below w h (omega arith), or_again x (bit_not (mask_for_width w))))
]

loaded_again :
    (w x : ℕ)
    → 1 < w
    → w ≤ 64
    → x < 2 ^ w
    → loaded (some (integer_type w)) (extended w x) ≡ extended w x
unfolding loaded
loaded_again w x p h q = elim (dec_lt w 64) [
  | yes narrow ↦ rw (loaded, typed_width w h) (ground (arith, sign_extend_again w x p narrow q))
  | no full ↦ rw (loaded, typed_width w h) (ground arith)
]

value_raised :
    (ctx : Context) (v : Value) (m : ℕ)
    → resolve ctx v ≡ some m
    → resolve (record ctx { next_handle = ctx.next_handle + 1 }) v ≡ some m
unfolding resolve
value_raised ctx v m e = e

resolve_stored :
    (ctx : Context) (v : Value) (handle val m : ℕ)
    → resolve ctx v ≡ some m
    → resolve (store_value ctx handle val) v ≡ some m
unfolding resolve store_value
resolve_stored ctx v handle val m e = e

stores :
    (ctx : Context) (store : Instruction) (v p : Value) (val handle : ℕ)
    → store.operands ≡ some v ∷ some p ∷ []
    → resolve ctx v ≡ some val
    → resolve ctx p ≡ some handle
    → execute_store ctx store ≡ ExecResult.continued (store_value ctx handle val)
unfolding execute_store
stores ctx store v p val handle ops ev ep =
    rw
      (
        execute_store,
        operand-resolve_at ctx store 0 v val (rw ops) ev,
        operand-resolve_at ctx store 1 p handle (rw ops) ep,
      )
      refl

loads :
    (ctx : Context) (load : Instruction) (q : Value) (handle kept : ℕ)
    → load.operands ≡ some q ∷ []
    → resolve ctx q ≡ some handle
    → load_value ctx handle ≡ kept
    → loaded load.type kept ≡ kept
    → execute_load ctx load ≡ ExecResult.continued (bind_value ctx load.address kept)
unfolding execute_load resolve_at bind_result
loads ctx load q handle kept ops eq found same =
    rw (execute_load, resolve_at, ops, eq, found, same) refl

-- After an `alloca`, a store of an integer of 2 to 64 bits, kept as an extended pattern, to the pointer
-- that it gives, and a load of the same type from that pointer, the loaded value is the stored one; at
-- every other handle memory is as before. The stored value is not that pointer itself.
pub execute_alloca_store_load :
    (stoi : String → Option ℕ) (ctx : Context) (slot store load : Instruction) (v p q : Value)
    (prev : String) (w x : ℕ)
    → 1 < w
    → w ≤ 64
    → x < 2 ^ w
    → slot.opcode ≡ Opcode.alloca
    → store.opcode ≡ Opcode.store
    → store.operands ≡ some v ∷ some p ∷ []
    → load.opcode ≡ Opcode.load
    → load.operands ≡ some q ∷ []
    → load.type ≡ some (integer_type w)
    → resolve ctx v ≡ some (extended w x)
    → v.address ≢ slot.address
    → as_constant_int p.kind ≡ none
    → p.address ≡ slot.address
    → as_constant_int q.kind ≡ none
    → q.address ≡ slot.address
    → (a b c : Context) × (execute stoi ctx slot prev ≡ ExecResult.continued a)
      × (execute stoi a store prev ≡ ExecResult.continued b)
      × (execute stoi b load prev ≡ ExecResult.continued c)
      × (lookup load.address c.values ≡ some (extended w x))
      × ((other : ℕ) → other ≢ ctx.next_handle → load_value c other ≡ load_value ctx other)
unfolding execute_op
execute_alloca_store_load stoi ctx slot store load v p q prev w x wide h small is_alloca is_store
      stored is_load from typed value apart pv pa qv qa =
    let handle = ctx.next_handle in
    let kept = extended w x in
    let raised : Context = record ctx { next_handle = handle + 1 } in
    let a = bind_value raised slot.address handle in
    let b = store_value a handle kept in
    let c = bind_value b load.address kept in
    (
      a,
      b,
      c,
      as_op stoi ctx slot prev Opcode.alloca is_alloca (unfold execute_alloca in refl),
      as_op stoi a store prev Opcode.store is_store (
          stores a store v p kept handle stored
            (bound-resolve_other raised v slot.address handle kept apart
              (value_raised ctx v kept value))
            (bound-resolve raised p slot.address handle pv pa)),
      as_op stoi b load prev Opcode.load is_load (
          loads b load q handle kept from
            (resolve_stored a q handle kept handle
              (bound-resolve raised q slot.address handle qv qa))
            (load_value-store_value a handle handle kept ∙ ground arith)
            (rw typed (loaded_again w x wide h small))),
      unfold bind_value in (lookup-insert load.address load.address kept b.values ∙ ground arith),
      λ other away.
          unfold bind_value load_value store_value in
          (load_value-store_value a handle other kept ∙ ground arith),
    )
