-- ===== src/KnownBits/Arithmetic.antt =====
-- `Add`, `Sub` and `Mul`: the exact result of known operands, and the low zeros that survive.
use clunk.Base.{
  ℕ, ◌+◌, ◌-◌, ◌*◌, ◌^◌, ◌%◌, ◌≤◌, ◌<◌, ◌≡◌, ◌∙◌, ap, Bool, true, false, ◌&&◌, arith, min, inl, inr,
  Bool-cases,
}
use native.Mathlib.Nat.{one-le-pow, mod-lt}
use mathlib.Core.Path.{subst}
use clunk.KnownBits.Lattice.{KnownBits, exact, is_fully_known, signed_value}
use clunk.KnownBits.Transfer.{trailing_known_zeros, low_zeros, known_bits_add_sub, known_bits_mul}
use clunk.KnownBits.Masks.{Holds}
use clunk.KnownBits.Extended.{mod-mod-pow, extended-add, extended-sub, extended-mul}
use clunk.KnownBits.LowZeros.{
  trailing-ZerosBelow, trailing-mod, low_zeros-Holds, add-mod-zero, sub-mod-zero, mul-mod-zero,
  pow-mod-zero,
}
use clunk.KnownBits.Exact.{exact-Holds, fully_known-one, signed_value-extended, extended}

pub both : (a b : Bool) → (a && b) ≡ true → (a ≡ true) × (b ≡ true)
both a b h = ground arith

module _ (lhs rhs : KnownBits) (x y : ℕ) (wide : lhs.width ≤ 64) (same : rhs.width ≡ lhs.width)
    (hx : Holds lhs x) (hy : Holds rhs y) where
  read_left : is_fully_known lhs ≡ true → signed_value lhs ≡ extended lhs.width x
  read_left known =
      let e = fully_known-one lhs x wide hx known in
      signed_value-extended lhs wide (rw e hx.within) ∙ ap (extended lhs.width) e

  read_right : is_fully_known rhs ≡ true → signed_value rhs ≡ extended lhs.width y
  read_right known =
      let e = fully_known-one rhs y (omega arith) hy known in
      signed_value-extended rhs (omega arith) (rw e hy.within)
      ∙ ap (λ (t : ℕ). extended t rhs.one) same
      ∙ ap (extended lhs.width) e

  -- Both operands are multiples of `2 ^ k` for the zeros that they share.
  abbrev shared : ℕ
  shared = min (trailing_known_zeros lhs) (trailing_known_zeros rhs)

  shared-le : shared ≤ lhs.width
  shared-le = omega (arith, (trailing-ZerosBelow lhs wide).le_bound)

  left_multiple : x % 2 ^ shared ≡ 0
  left_multiple = trailing-mod lhs x shared wide hx (omega arith)

  right_multiple : y % 2 ^ shared ≡ 0
  right_multiple = trailing-mod rhs y shared (omega arith) hy (omega arith)

  low-Holds : (v : ℕ) → v % 2 ^ shared ≡ 0 → Holds (low_zeros lhs.width shared) (v % 2 ^ lhs.width)
  low-Holds v e =
      low_zeros-Holds lhs.width shared (v % 2 ^ lhs.width) wide shared-le
        (mod-lt v (one-le-pow lhs.width 2 (omega arith)))
        (mod-mod-pow shared lhs.width v shared-le ∙ e)

  exact-Holds_of : (v r : ℕ) → v % 2 ^ lhs.width ≡ r → Holds (exact lhs.width v) r
  exact-Holds_of v r e = subst (Holds (exact lhs.width v)) e (exact-Holds lhs.width v wide)

  in_width : y < 2 ^ lhs.width
  in_width = rw (← same) hy.within

  -- Where two facts of one width, at most 64, hold of `x` and `y`, the fact for the addition holds of the
  -- sum modulo 2 to the width.
  pub add-Holds : Holds (known_bits_add_sub lhs rhs false) ((x + y) % 2 ^ lhs.width)
  unfolding known_bits_add_sub
  add-Holds = elim (Bool-cases (is_fully_known lhs && is_fully_known rhs)) [
    | inl known ↦
        let (l, r) = both _ _ known in
        rw known (
          exact-Holds_of _ _
            (rw (read_left l, read_right r) (extended-add lhs.width x y wide hx.within in_width)))
    | inr partly ↦
        rw partly (low-Holds (x + y) (add-mod-zero (2 ^ shared) x y left_multiple right_multiple))
  ]

  -- Where two facts of one width, at most 64, hold of `x` and `y`, the fact for the subtraction holds of
  -- the difference modulo 2 to the width.
  pub sub-Holds :
      Holds (known_bits_add_sub lhs rhs true) ((x + (2 ^ lhs.width - y)) % 2 ^ lhs.width)
  unfolding known_bits_add_sub
  sub-Holds = elim (Bool-cases (is_fully_known lhs && is_fully_known rhs)) [
    | inl known ↦
        let (l, r) = both _ _ known in
        rw known (
          exact-Holds_of _ _
            (rw (read_left l, read_right r) (extended-sub lhs.width x y wide hx.within in_width)))
    | inr partly ↦ rw partly (
        low-Holds (x + (2 ^ lhs.width - y)) (
          add-mod-zero (2 ^ shared) x (2 ^ lhs.width - y) left_multiple (
            sub-mod-zero (2 ^ shared) (2 ^ lhs.width) y (pow-mod-zero shared lhs.width shared-le)
              right_multiple)))
  ]

  abbrev product_count : ℕ
  product_count = min lhs.width (trailing_known_zeros lhs + trailing_known_zeros rhs)

  product_multiple : (x * y) % 2 ^ product_count ≡ 0
  product_multiple =
      mul-mod-zero (trailing_known_zeros lhs) (trailing_known_zeros rhs) product_count x y
        (omega arith) (trailing-mod lhs x (trailing_known_zeros lhs) wide hx (omega arith))
        (trailing-mod rhs y (trailing_known_zeros rhs) (omega arith) hy (omega arith))

  -- Where two facts of one width, at most 64, hold of `x` and `y`, the fact for the multiplication holds
  -- of the product modulo 2 to the width.
  pub mul-Holds : Holds (known_bits_mul lhs rhs) ((x * y) % 2 ^ lhs.width)
  unfolding known_bits_mul
  mul-Holds = elim (Bool-cases (is_fully_known lhs && is_fully_known rhs)) [
    | inl known ↦
        let (l, r) = both _ _ known in
        rw known (
          exact-Holds_of _ _
            (rw (read_left l, read_right r) (extended-mul lhs.width x y wide hx.within in_width)))
    | inr partly ↦ rw partly (
        low_zeros-Holds lhs.width product_count ((x * y) % 2 ^ lhs.width) wide (omega arith)
          (mod-lt (x * y) (one-le-pow lhs.width 2 (omega arith)))
          (mod-mod-pow product_count lhs.width (x * y) (omega arith) ∙ product_multiple))
  ]
