-- ===== src/KnownBits/Transfer.antt =====
-- The transfer function of each opcode (src/Analysis/KnownBits.cpp).
use clunk.Base.{
  ℕ, zero, suc, ◌+◌, ◌-◌, Bool, false, not, ◌&&◌, ◌||◌, if◌then◌else◌, ◌==◌, ltb, leb, bit_and,
  bit_or, bit_not, ◌<<◌, ◌>>◌, add64, sub64, mul64, min, is_negative, slt64, Option, some,
}
use clunk.KnownBits.Lattice.{
  KnownBits, mask_for_width, unknown, exact, is_fully_known, signed_value, meet,
}
use clunk.Ir.Predicate.{CmpPredicate}

-- The loop of `trailing_known_zeros`, with `left` rounds up to the width.
unfoldable pub count_zeros : KnownBits → ℕ → ℕ → ℕ
count_zeros kb zero n = n
count_zeros kb (suc left) n =
    let rest = count_zeros kb left (n + 1) in if bit_and kb.zero (1 << n) == 0 then n else rest

unfoldable pub trailing_known_zeros : KnownBits → ℕ
trailing_known_zeros kb = if kb.width == 0 then 0 else count_zeros kb kb.width 0

-- `none` is a predicate that no enumerator names; the `switch` sends it, and the predicates of floats, to
-- its default.
unfoldable pub eval_icmp_exact : Option CmpPredicate → KnownBits → KnownBits → Bool
eval_icmp_exact pred lhs rhs =
    let mask = mask_for_width lhs.width in
    let ul = bit_and lhs.one mask in
    let ur = bit_and rhs.one mask in
    let sl = signed_value lhs in
    let sr = signed_value rhs in
    elim pred [
      | some CmpPredicate.eq ↦ ul == ur
      | some CmpPredicate.ne ↦ not (ul == ur)
      | some CmpPredicate.ugt ↦ ltb ur ul
      | some CmpPredicate.uge ↦ leb ur ul
      | some CmpPredicate.ult ↦ ltb ul ur
      | some CmpPredicate.ule ↦ leb ul ur
      | some CmpPredicate.sgt ↦ slt64 sr sl
      | some CmpPredicate.sge ↦ not (slt64 sl sr)
      | some CmpPredicate.slt ↦ slt64 sl sr
      | some CmpPredicate.sle ↦ not (slt64 sr sl)
      | _ ↦ false
    ]

-- No carry reaches the low bits that both operands have known zero.
unfoldable pub low_zeros : ℕ → ℕ → KnownBits
low_zeros w k =
    if ltb 0 k then record { width = w; zero = mask_for_width k; one = 0 } else unknown w

unfoldable pub known_bits_add_sub : KnownBits → KnownBits → Bool → KnownBits
known_bits_add_sub lhs rhs is_sub =
    if is_fully_known lhs && is_fully_known rhs
    then exact lhs.width (
        if is_sub
        then sub64 (signed_value lhs) (signed_value rhs)
        else add64 (signed_value lhs) (signed_value rhs))
    else low_zeros lhs.width (min (trailing_known_zeros lhs) (trailing_known_zeros rhs))

unfoldable pub known_bits_mul : KnownBits → KnownBits → KnownBits
known_bits_mul lhs rhs =
    if is_fully_known lhs && is_fully_known rhs
    then exact lhs.width (mul64 (signed_value lhs) (signed_value rhs))
    else low_zeros lhs.width (min lhs.width (trailing_known_zeros lhs + trailing_known_zeros rhs))

-- A shift count that is not known, negative or not below the width.
unfoldable pub is_bad_count : KnownBits → KnownBits → Bool
is_bad_count lhs rhs =
    let sc = signed_value rhs in not (is_fully_known rhs) || is_negative sc || leb lhs.width sc

unfoldable pub known_bits_shl : KnownBits → KnownBits → KnownBits
known_bits_shl lhs rhs =
    let c = signed_value rhs in
    let mask = mask_for_width lhs.width in
    if is_bad_count lhs rhs then unknown lhs.width else record {
      width = lhs.width;
      zero = bit_and (bit_or (lhs.zero << c) (mask_for_width c)) mask;
      one = bit_and (lhs.one << c) mask;
    }

-- The bits from `w - c` up to `w`.
unfoldable pub high_bits : ℕ → ℕ → ℕ
high_bits w c = bit_and (mask_for_width w) (bit_not (mask_for_width (w - c)))

unfoldable pub known_bits_lshr : KnownBits → KnownBits → KnownBits
known_bits_lshr lhs rhs =
    let c = signed_value rhs in
    if is_bad_count lhs rhs then unknown lhs.width else record {
      width = lhs.width;
      zero = bit_or (lhs.zero >> c) (high_bits lhs.width c);
      one = lhs.one >> c;
    }

-- What the sign bit decides: `zero` and `one` with `extension` added to the one that holds the sign.
unfoldable pub with_sign : KnownBits → ℕ → ℕ → KnownBits → KnownBits
with_sign src sign_bit extension kb =
    if not (bit_and src.zero sign_bit == 0)
    then record kb { zero = bit_or kb.zero extension }
    else if not (bit_and src.one sign_bit == 0)
    then record kb { one = bit_or kb.one extension }
    else kb

unfoldable pub known_bits_ashr : KnownBits → KnownBits → KnownBits
known_bits_ashr lhs rhs =
    let c = signed_value rhs in
    if is_bad_count lhs rhs || lhs.width == 0
    then unknown lhs.width
    else with_sign lhs (1 << (lhs.width - 1)) (high_bits lhs.width c)
        (record { width = lhs.width; zero = lhs.zero >> c; one = lhs.one >> c })

unfoldable pub known_bits_and : KnownBits → KnownBits → KnownBits
known_bits_and lhs rhs = record {
  width = lhs.width;
  zero = bit_or lhs.zero rhs.zero;
  one = bit_and lhs.one rhs.one;
}

unfoldable pub known_bits_or : KnownBits → KnownBits → KnownBits
known_bits_or lhs rhs = record {
  width = lhs.width;
  zero = bit_and lhs.zero rhs.zero;
  one = bit_or lhs.one rhs.one;
}

unfoldable pub known_bits_xor : KnownBits → KnownBits → KnownBits
known_bits_xor lhs rhs = record {
  width = lhs.width;
  zero = bit_or (bit_and lhs.zero rhs.zero) (bit_and lhs.one rhs.one);
  one = bit_or (bit_and lhs.zero rhs.one) (bit_and lhs.one rhs.zero);
}

unfoldable pub known_bits_trunc : KnownBits → ℕ → KnownBits
known_bits_trunc src new_width =
    let mask = mask_for_width new_width in
    record { width = new_width; zero = bit_and src.zero mask; one = bit_and src.one mask }

unfoldable pub known_bits_zext : KnownBits → ℕ → KnownBits
known_bits_zext src new_width =
    let new_mask = mask_for_width new_width in
    let old_mask = mask_for_width src.width in
    record {
      width = new_width;
      zero = bit_or (bit_and src.zero old_mask) (bit_and new_mask (bit_not old_mask));
      one = bit_and src.one old_mask;
    }

unfoldable pub known_bits_sext : KnownBits → ℕ → KnownBits
known_bits_sext src new_width =
    let old_mask = mask_for_width src.width in
    let ext_bits = bit_and (mask_for_width new_width) (bit_not old_mask) in
    let kb : KnownBits = record {
      width = new_width;
      zero = bit_and src.zero old_mask;
      one = bit_and src.one old_mask;
    } in
    if src.width == 0 then kb else with_sign src (1 << (src.width - 1)) ext_bits kb

-- The condition of a `select` decides the arm when its lowest bit is known.
unfoldable pub known_bits_select : KnownBits → KnownBits → KnownBits → KnownBits
known_bits_select cond a b =
    if leb 1 cond.width && not (bit_and cond.one 1 == 0)
    then a
    else if leb 1 cond.width && not (bit_and cond.zero 1 == 0)
    then b
    else meet a b

unfoldable pub known_bits_icmp : Option CmpPredicate → KnownBits → KnownBits → KnownBits
known_bits_icmp pred lhs rhs =
    let differs = not (bit_or (bit_and lhs.one rhs.zero) (bit_and lhs.zero rhs.one) == 0) in
    if is_fully_known lhs && is_fully_known rhs
    then exact 1 (if eval_icmp_exact pred lhs rhs then 1 else 0)
    else elim pred [
      | some CmpPredicate.eq ↦ if differs then exact 1 0 else unknown 1
      | some CmpPredicate.ne ↦ if differs then exact 1 1 else unknown 1
      | _ ↦ unknown 1
    ]
