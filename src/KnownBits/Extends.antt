-- ===== src/KnownBits/Extends.antt =====
-- `AShr`, and the result of filling a pattern with its sign.
use clunk.Base.{
  ℕ, ◌+◌, ◌-◌, ◌/◌, ◌^◌, ◌≤◌, ◌<◌, ◌≡◌, refl, Bool, true, false, ◌||◌, arith, ltb, ◌==◌, inl, inr,
  Bool-cases, ◌<<◌, ◌>>◌, ◌∙◌, some,
}
use mathlib.Core.Path.{subst}
use clunk.Base.Bits.{bit, bit-le-one, bit_beyond, bit-shr}
use native.Mathlib.Nat.{pow-le-pow_right, add-zero}
use clunk.Base.{lt→ltb, ltb→lt}
use native.Mathlib.Decide.{dec_lt}
use clunk.Ir.Opcode.{Opcode}
use clunk.Meaning.{binary_meaning, sign_fill}
use clunk.KnownBits.Lattice.{KnownBits}
use clunk.KnownBits.Transfer.{is_bad_count, known_bits_ashr, high_bits, with_sign}
use clunk.KnownBits.Masks.{Holds}
use clunk.KnownBits.Bitwise.{unknown-Holds, lt_of_bits}
use clunk.KnownBits.Shifts.{count_lem, bit-high_bits, bit-high_bits_above, guarded, guard_true}
use clunk.KnownBits.Signs.{with_sign-Holds, filled_below, filled_between, filled-lt}

quotient-lt : (w y x : ℕ) → y ≤ w → x < 2 ^ w → x / 2 ^ y < 2 ^ (w - y)
quotient-lt w y x le p =
    lt_of_bits (w - y) (x / 2 ^ y) λ i h. bit-shr y x i ∙ bit_beyond w x (i + y) p (omega arith)

-- `q` fills the bits below `cut`, and the sign of `x` the bits from `cut` to `v`.
module _ (w x cut v q : ℕ) (le : cut ≤ v) (fits : q < 2 ^ cut) where
  abbrev result : ℕ
  result = q + sign_fill w x (2 ^ v - 2 ^ cut)

  pub result-lt : result < 2 ^ v
  result-lt = ground (arith, filled-lt cut v q le fits, pow-le-pow_right {n = 2} (omega arith) le)

  pub result_below : (i : ℕ) → i < cut → bit result i ≡ bit q i
  result_below i p = elim (Bool-cases (ltb x (2 ^ (w - 1)))) [
    | inl low ↦ rw (low, add-zero)
    | inr high ↦ rw high (filled_below cut v q le fits i p)
  ]

  pub result_low : x < 2 ^ (w - 1) → (i : ℕ) → cut ≤ i → bit result i ≡ 0
  result_low p i h = rw (lt→ltb x (2 ^ (w - 1)) p, add-zero) (bit_beyond cut q i fits h)

  pub result_high : 2 ^ (w - 1) ≤ x → (i : ℕ) → cut ≤ i → i < v → bit result i ≡ 1
  result_high p i h s =
      let high : ltb x (2 ^ (w - 1)) ≡ false = ground arith in
      rw high (filled_between cut v q le fits i h s)

-- The bits from `v - c` to `v` agree with the fill.
module _ (w x v c q : ℕ) (wide : v ≤ 64) (le : c ≤ v) (fits : q < 2 ^ (v - c)) where
  pub fill_low :
      x < 2 ^ (w - 1)
      → (i : ℕ) → bit (high_bits v c) i + bit (q + sign_fill w x (2 ^ v - 2 ^ (v - c))) i ≤ 1
  fill_low p i = elim (dec_lt i (v - c)) [
    | yes s ↦
        ground (arith, bit-high_bits v c i, bit-le-one (q + sign_fill w x (2 ^ v - 2 ^ (v - c))) i)
    | no s ↦ omega (
      arith,
      result_low w x (v - c) v q (omega arith) fits p i (omega arith),
      bit-le-one (high_bits v c) i,
    )
  ]

  pub fill_high :
      2 ^ (w - 1) ≤ x
      → (i : ℕ) → bit (high_bits v c) i ≤ bit (q + sign_fill w x (2 ^ v - 2 ^ (v - c))) i
  fill_high p i = elim (dec_lt i v) [
    | yes s ↦ ground (
      arith,
      bit-high_bits v c i,
      result_high w x (v - c) v q (omega arith) fits p i,
      bit-le-one (high_bits v c) i,
    )
    | no s ↦ omega (arith, bit-high_bits_above v c i wide (omega arith))
  ]

not_either : (a b : Bool) → (a || b) ≡ false → a ≡ false
not_either false b h = refl
not_either true b h = cc

module _ (lhs rhs : KnownBits) (x y : ℕ) (wide : lhs.width ≤ 64) (same : rhs.width ≡ lhs.width)
    (hx : Holds lhs x) (hy : Holds rhs y) where
  ashr_known :
      (c : ℕ)
      → c < lhs.width
      → Holds
          (with_sign lhs
            (1 << (lhs.width - 1))
            (high_bits lhs.width c)
            (record { width = lhs.width; zero = lhs.zero >> c; one = lhs.one >> c }))
          (x / 2 ^ c + sign_fill lhs.width x (2 ^ lhs.width - 2 ^ (lhs.width - c)))
  ashr_known c p =
      let w = lhs.width in
      let cut = w - c in
      let q = x / 2 ^ c in
      let le : cut ≤ w = omega arith in
      let fits : q < 2 ^ cut = quotient-lt w c x (omega arith) hx.within in
      with_sign-Holds lhs _ x _ (high_bits w c) (omega arith) wide hx
        (record {
          within = result-lt w x cut w q le fits;
          clean = λ i h. omega (arith, bit-shr c lhs.zero i, hx.clean (i + c) (omega arith));
          zeros = λ i. elim (dec_lt i cut) [
            | yes s ↦ omega (
              arith,
              result_below w x cut w q le fits i s,
              bit-shr c x i,
              bit-shr c lhs.zero i,
              hx.zeros (i + c),
            )
            | no s ↦ omega (
              arith,
              bit-shr c lhs.zero i,
              hx.clean (i + c) (omega arith),
              bit-le-one (q + sign_fill w x (2 ^ w - 2 ^ cut)) i,
            )
          ];
          ones = λ i. elim (dec_lt i cut) [
            | yes s ↦ omega (
              arith,
              result_below w x cut w q le fits i s,
              bit-shr c x i,
              bit-shr c lhs.one i,
              hx.ones (i + c),
            )
            | no s ↦ omega (
              arith,
              bit-shr c lhs.one i,
              hx.ones (i + c),
              bit_beyond w x (i + c) hx.within (omega arith),
            )
          ];
        })
        (λ i h. bit-high_bits_above w c i wide h)
        (λ below i. fill_low w x w c q wide (omega arith) fits below i)
        (λ above i. fill_high w x w c q wide (omega arith) fits above i)

  -- Where two facts of one width, at most 64, hold of `x` and `y` and the arithmetic right shift is not
  -- poison, the fact for `ashr` holds of its result.
  pub ashr-Holds :
      (r : ℕ)
      → binary_meaning Opcode.ashr lhs.width x y ≡ some r
      → Holds (known_bits_ashr lhs rhs) r
  unfolding known_bits_ashr binary_meaning
  ashr-Holds r e =
      let v = guarded _ _ _ e in
      let small = ltb→lt _ _ (guard_true _ _ _ e) in
      elim (Bool-cases (is_bad_count lhs rhs || lhs.width == 0)) [
        | inl bad ↦ rw bad (
            unknown-Holds lhs.width r (
              subst (λ (t : ℕ). t < 2 ^ lhs.width) v
                (result-lt lhs.width x (lhs.width - y) lhs.width (x / 2 ^ y) (omega arith)
                  (quotient-lt lhs.width y x (omega arith) hx.within))))
        | inr good ↦
            let (c_eq, _) = count_lem lhs rhs x y wide same hx hy (not_either _ _ good) in
            rw (good, c_eq) (subst (Holds _) v (ashr_known y small))
      ]
