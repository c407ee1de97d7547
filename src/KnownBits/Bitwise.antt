-- ===== src/KnownBits/Bitwise.antt =====
-- `And`, `Or`, `Xor` and the meet: what the digits of the operands decide.
use clunk.Base.{ℕ, ◌^◌, ◌%◌, ◌≤◌, ◌<◌, ◌≡◌, bit_and, bit_or, bit_xor, arith, ◌⊎◌, inl, inr}
use clunk.Base.Bits.{
  bit, bit-le-one, bit-bit_and, bit-bit_or, bit-bit_xor, bit-mod, bit_ext, bit_beyond, bit-zero,
}
use native.Mathlib.Nat.{one-le-pow, mod-lt}
use native.Mathlib.Decide.{dec_lt}
use clunk.Base.Fields.{bit-mod_above}
use clunk.KnownBits.Lattice.{KnownBits, unknown, meet}
use clunk.KnownBits.Transfer.{known_bits_and, known_bits_or, known_bits_xor}
use clunk.KnownBits.Masks.{Holds}

-- A number whose digits from `n` on are 0 is below `2 ^ n`.
pub lt_of_bits : (n x : ℕ) → ((i : ℕ) → n ≤ i → bit x i ≡ 0) → x < 2 ^ n
lt_of_bits n x h =
    let e : x % 2 ^ n ≡ x = bit_ext (x % 2 ^ n) x λ i. elim (dec_lt i n) [
      | yes p ↦ bit-mod n x i p
      | no p ↦ omega (arith, bit-mod_above n x i (omega arith), h i (omega arith))
    ] in
    omega (arith, e, mod-lt x (one-le-pow n 2 (omega arith)))

pub unknown-Holds : (w x : ℕ) → x < 2 ^ w → Holds (unknown w) x
unfolding unknown
unknown-Holds w x p = record {
  within = p;
  clean = λ i q. bit-zero i;
  zeros = λ i. omega (arith, bit-zero i, bit-le-one x i);
  ones = λ i. omega (arith, bit-zero i);
}

module _ (lhs rhs : KnownBits) (x y : ℕ) (same : rhs.width ≡ lhs.width) (hx : Holds lhs x)
    (hy : Holds rhs y) where
  in_width : y < 2 ^ lhs.width
  in_width = rw (← same) hy.within

  pub and-Holds : Holds (known_bits_and lhs rhs) (bit_and x y)
  unfolding known_bits_and
  and-Holds = record {
    within =
        lt_of_bits lhs.width (bit_and x y)
          λ i h. omega (arith, bit-bit_and x y i, bit_beyond lhs.width x i hx.within h);
    clean = λ i h.
        omega (arith, hx.clean i h, hy.clean i (omega arith), bit-bit_or lhs.zero rhs.zero i);
    zeros = λ i.
        omega (arith, hx.zeros i, hy.zeros i, bit-bit_and x y i, bit-bit_or lhs.zero rhs.zero i);
    ones =
        λ i. omega (arith, hx.ones i, hy.ones i, bit-bit_and x y i, bit-bit_and lhs.one rhs.one i);
  }

  pub or-Holds : Holds (known_bits_or lhs rhs) (bit_or x y)
  unfolding known_bits_or
  or-Holds = record {
    within = lt_of_bits lhs.width (bit_or x y) λ i h. omega (
      arith,
      bit-bit_or x y i,
      bit_beyond lhs.width x i hx.within h,
      bit_beyond lhs.width y i in_width h,
    );
    clean = λ i h. omega (arith, hx.clean i h, bit-bit_and lhs.zero rhs.zero i);
    zeros = λ i. omega (
      arith,
      hx.zeros i,
      hy.zeros i,
      bit-bit_or x y i,
      bit-bit_and lhs.zero rhs.zero i,
      bit-le-one x i,
      bit-le-one y i,
    );
    ones = λ i. omega (arith, hx.ones i, hy.ones i, bit-bit_or x y i, bit-bit_or lhs.one rhs.one i);
  }

  -- Where two facts of one width hold of `x` and `y`, the fact for `xor` holds of their exclusive or.
  pub xor-Holds : Holds (known_bits_xor lhs rhs) (bit_xor x y)
  unfolding known_bits_xor
  xor-Holds = record {
    within = lt_of_bits lhs.width (bit_xor x y) λ i h. omega (
      arith,
      bit-bit_xor x y i,
      bit_beyond lhs.width x i hx.within h,
      bit_beyond lhs.width y i in_width h,
    );
    clean = λ i h. omega (
      arith,
      hx.clean i h,
      hx.ones i,
      bit_beyond lhs.width x i hx.within h,
      bit-bit_or (bit_and lhs.zero rhs.zero) (bit_and lhs.one rhs.one) i,
      bit-bit_and lhs.zero rhs.zero i,
      bit-bit_and lhs.one rhs.one i,
    );
    zeros = λ i. omega (
      arith,
      hx.zeros i,
      hy.zeros i,
      hx.ones i,
      hy.ones i,
      bit-bit_xor x y i,
      bit-bit_or (bit_and lhs.zero rhs.zero) (bit_and lhs.one rhs.one) i,
      bit-bit_and lhs.zero rhs.zero i,
      bit-bit_and lhs.one rhs.one i,
      bit-le-one x i,
      bit-le-one y i,
    );
    ones = λ i. omega (
      arith,
      hx.zeros i,
      hy.zeros i,
      hx.ones i,
      hy.ones i,
      bit-bit_xor x y i,
      bit-bit_or (bit_and lhs.zero rhs.one) (bit_and lhs.one rhs.zero) i,
      bit-bit_and lhs.zero rhs.one i,
      bit-bit_and lhs.one rhs.zero i,
      bit-le-one x i,
      bit-le-one y i,
    );
  }

-- The meet holds of every value that either side describes.
pub meet-Holds :
    (a b : KnownBits) (x : ℕ) → b.width ≡ a.width → Holds a x ⊎ Holds b x → Holds (meet a b) x
unfolding meet
meet-Holds a b x same (inl h) = record {
  within = h.within;
  clean = λ i p. omega (arith, h.clean i p, bit-bit_and a.zero b.zero i);
  zeros = λ i. omega (arith, h.zeros i, bit-bit_and a.zero b.zero i);
  ones = λ i. omega (arith, h.ones i, bit-bit_and a.one b.one i);
}
meet-Holds a b x same (inr h) = record {
  within = rw (← same) h.within;
  clean = λ i p. omega (arith, h.clean i (omega arith), bit-bit_and a.zero b.zero i);
  zeros = λ i. omega (arith, h.zeros i, bit-bit_and a.zero b.zero i);
  ones = λ i. omega (arith, h.ones i, bit-bit_and a.one b.one i);
}
