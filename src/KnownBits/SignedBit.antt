-- ===== src/KnownBits/SignedBit.antt =====
-- Signed orders of `i1` operands in `known_bits_icmp` (src/Analysis/KnownBits.cpp), which `signed_value`
-- reads as 0 and 1.
use clunk.Base.{
  ℕ, ◌^◌, ◌≤◌, ◌<◌, ◌≡◌, ap, ◌∙◌, true, if◌then◌else◌, ltb, not, Bool, some, slt64, arith,
}
use mathlib.Core.Path.{subst}
use clunk.Ir.Predicate.{CmpPredicate}
use clunk.Meaning.{icmp_meaning, signed_rank}
use clunk.KnownBits.Lattice.{KnownBits, exact, is_fully_known, signed_value}
use clunk.KnownBits.Transfer.{eval_icmp_exact, known_bits_icmp}
use clunk.KnownBits.Masks.{Holds}
use clunk.KnownBits.Exact.{extended, fully_known-one, signed_value-extended}
use clunk.KnownBits.Compare.{is_signed}

-- A bit reads as itself, and not as 0 or -1.
signed_value-bit :
    (kb : KnownBits) (x : ℕ)
    → kb.width ≡ 1
    → Holds kb x
    → is_fully_known kb ≡ true
    → (signed_value kb ≡ x) × (x < 2)
unfolding extended
signed_value-bit kb x w h known =
    let narrow : kb.width ≤ 64 = omega (arith, w) in
    let one_x = fully_known-one kb x narrow h known in
    let small : x < 2 ^ 1 = subst (λ (t : ℕ). x < 2 ^ t) w h.within in
    (
      signed_value-extended kb narrow (rw one_x h.within)
          ∙ ap (extended kb.width) one_x
          ∙ ap (λ (t : ℕ). extended t x) w,
      small,
    )

-- Of two bits, one is below the other as a number where it is above it as a signed bit.
slt64-reversed : (x y : ℕ) → x < 2 → y < 2 → slt64 x y ≡ ltb (signed_rank 1 y) (signed_rank 1 x)
slt64-reversed x y h k = ground arith

eval_reversed :
    (lhs rhs : KnownBits) (x y : ℕ)
    → signed_value lhs ≡ x
    → signed_value rhs ≡ y
    → x < 2
    → y < 2
    → (p : CmpPredicate) → is_signed p ≡ true
    → eval_icmp_exact (some p) lhs rhs ≡ icmp_meaning p 1 y x
unfolding eval_icmp_exact icmp_meaning is_signed
eval_reversed lhs rhs x y left right h k CmpPredicate.sgt s =
    rw (left, right) (slt64-reversed y x k h)
eval_reversed lhs rhs x y left right h k CmpPredicate.slt s =
    rw (left, right) (slt64-reversed x y h k)
eval_reversed lhs rhs x y left right h k CmpPredicate.sge s =
    rw (left, right) (ap not (slt64-reversed x y h k) ∙ ground arith)
eval_reversed lhs rhs x y left right h k CmpPredicate.sle s =
    rw (left, right) (ap not (slt64-reversed y x k h) ∙ ground arith)
eval_reversed lhs rhs x y left right h k _ s = cc

-- Where both operands are known, of type `i1`, the fact for a signed order is the answer of the opposite
-- order: that of the operands swapped.
pub known_bits_icmp_reversed :
    (p : CmpPredicate) (lhs rhs : KnownBits) (x y : ℕ)
    → is_signed p ≡ true
    → lhs.width ≡ 1
    → rhs.width ≡ 1
    → Holds lhs x
    → Holds rhs y
    → is_fully_known lhs ≡ true
    → is_fully_known rhs ≡ true
    → known_bits_icmp (some p) lhs rhs ≡ exact 1 (if icmp_meaning p 1 y x then 1 else 0)
unfolding known_bits_icmp
known_bits_icmp_reversed p lhs rhs x y s wl wr hx hy kl kr =
    let (left, x_small) = signed_value-bit lhs x wl hx kl in
    let (right, y_small) = signed_value-bit rhs y wr hy kr in
    rw (kl, kr)
      (ap (λ (b : Bool). exact 1 (if b then 1 else 0))
        (eval_reversed lhs rhs x y left right x_small y_small p s))
