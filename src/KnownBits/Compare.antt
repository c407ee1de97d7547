-- ===== src/KnownBits/Compare.antt =====
-- `ICmp` and `Select`.
use clunk.Base.{
  ℕ, suc, ◌+◌, ◌-◌, ◌*◌, ◌^◌, ◌≤◌, ◌<◌, ◌≡◌, ◌≢◌, refl, ap, ◌∙◌, Bool, true, false, not, ◌&&◌,
  bit_and, bit_or, if◌then◌else◌, arith, leb, ltb, ◌==◌, inl, inr, Bool-cases, some, biased, slt64,
}
use mathlib.Core.Path.{subst}
use clunk.Base.Bits.{bit, bit-le-one, bit-bit_and, bit-bit_or, bit_ext, bit-zero}
use native.Mathlib.Nat.{mod-eq_of_lt, mod-eq-sub-mod, pow-suc}
use native.Mathlib.Decide.{dec_lt}
use clunk.Ir.Predicate.{CmpPredicate}
use clunk.Meaning.{icmp_meaning, signed_rank}
use clunk.KnownBits.Lattice.{
  KnownBits, unknown, exact, mask_for_width, signed_value, is_fully_known,
}
use clunk.KnownBits.Transfer.{eval_icmp_exact, known_bits_icmp, known_bits_select}
use clunk.KnownBits.Masks.{Holds, pow-le-64, pow-half}
use clunk.KnownBits.Exact.{extended, exact-Holds, fully_known-one, signed_value-extended, mask_and}
use clunk.KnownBits.Arithmetic.{both}
use clunk.KnownBits.LowZeros.{bit_test}
use clunk.KnownBits.Bitwise.{unknown-Holds, meet-Holds}

unfoldable pub is_signed : CmpPredicate → Bool
is_signed CmpPredicate.sgt = true
is_signed CmpPredicate.sge = true
is_signed CmpPredicate.slt = true
is_signed CmpPredicate.sle = true
is_signed _ = false

pub pow_double : (w : ℕ) → 0 < w → 2 ^ w ≡ 2 * 2 ^ (w - 1)
pow_double w h =
    let e : w ≡ suc (w - 1) = omega arith in
    ap (λ (t : ℕ). 2 ^ t) e ∙ omega (arith, pow-suc 2 (w - 1))

rank_low : (w x : ℕ) → 0 < w → x < 2 ^ (w - 1) → signed_rank w x ≡ x + 2 ^ (w - 1)
rank_low w x h p = mod-eq_of_lt (omega (arith, pow_double w h))

rank_high : (w x : ℕ) → 0 < w → 2 ^ (w - 1) ≤ x → x < 2 ^ w → signed_rank w x ≡ x - 2 ^ (w - 1)
rank_high w x h p q =
    mod-eq-sub-mod {n = x + 2 ^ (w - 1)} {m = 2 ^ w} (omega (arith, pow_double w h))
    ∙ mod-eq_of_lt (omega (arith, pow_double w h))
    ∙ omega (arith, pow_double w h)

-- The order of `int64_t` on extended patterns is the signed order of the width, except at `i1`.
pub biased_rank :
    (w x : ℕ)
    → 1 < w
    → w ≤ 64
    → x < 2 ^ w
    → biased (extended w x) + 2 ^ (w - 1) ≡ signed_rank w x + 2 ^ 63
unfolding extended
biased_rank w x h k p = elim (dec_lt x (2 ^ (w - 1))) [
  | yes low ↦ ground (arith, rank_low w x, pow-half (w - 1), pow_double w)
  | no high ↦ ground (arith, rank_high w x, pow-half (w - 1), pow_double w, pow-le-64 w k)
]

pub slt64-extended :
    (w x y : ℕ)
    → 1 < w
    → w ≤ 64
    → x < 2 ^ w
    → y < 2 ^ w
    → slt64 (extended w x) (extended w y) ≡ ltb (signed_rank w x) (signed_rank w y)
slt64-extended w x y h k p q = ground (arith, biased_rank w x h k p, biased_rank w y h k q)

module _ (lhs rhs : KnownBits) (x y : ℕ) (wide : lhs.width ≤ 64) (same : rhs.width ≡ lhs.width)
    (hx : Holds lhs x) (hy : Holds rhs y) where
  in_width : y < 2 ^ lhs.width
  in_width = rw (← same) hy.within

  module _ (kl : is_fully_known lhs ≡ true) (kr : is_fully_known rhs ≡ true) where
    left_bits : bit_and lhs.one (mask_for_width lhs.width) ≡ x
    left_bits = rw (fully_known-one lhs x wide hx kl) (mask_and lhs.width x wide hx.within)

    right_bits : bit_and rhs.one (mask_for_width lhs.width) ≡ y
    right_bits = rw (fully_known-one rhs y (omega arith) hy kr) (mask_and lhs.width y wide in_width)

    left_signed : signed_value lhs ≡ extended lhs.width x
    left_signed =
        let e = fully_known-one lhs x wide hx kl in
        signed_value-extended lhs wide (rw e hx.within) ∙ ap (extended lhs.width) e

    right_signed : signed_value rhs ≡ extended lhs.width y
    right_signed =
        let e = fully_known-one rhs y (omega arith) hy kr in
        signed_value-extended rhs (omega arith) (rw e hy.within)
        ∙ ap (λ (t : ℕ). extended t rhs.one) same
        ∙ ap (extended lhs.width) e

    less :
        1 < lhs.width
        → slt64 (signed_value lhs) (signed_value rhs)
          ≡ ltb (signed_rank lhs.width x) (signed_rank lhs.width y)
    less h = rw (left_signed, right_signed) (slt64-extended lhs.width x y h wide hx.within in_width)

    more :
        1 < lhs.width
        → slt64 (signed_value rhs) (signed_value lhs)
          ≡ ltb (signed_rank lhs.width y) (signed_rank lhs.width x)
    more h = rw (left_signed, right_signed) (slt64-extended lhs.width y x h wide in_width hx.within)

    -- Known operands compare as their values do.
    pub eval_icmp_exact-meaning :
        (p : CmpPredicate)
        → (is_signed p ≡ true → 1 < lhs.width)
        → eval_icmp_exact (some p) lhs rhs ≡ icmp_meaning p lhs.width x y
    unfolding eval_icmp_exact icmp_meaning is_signed
    eval_icmp_exact-meaning CmpPredicate.eq s = rw (left_bits, right_bits)
    eval_icmp_exact-meaning CmpPredicate.ne s = rw (left_bits, right_bits)
    eval_icmp_exact-meaning CmpPredicate.ugt s = rw (left_bits, right_bits)
    eval_icmp_exact-meaning CmpPredicate.uge s = rw (left_bits, right_bits)
    eval_icmp_exact-meaning CmpPredicate.ult s = rw (left_bits, right_bits)
    eval_icmp_exact-meaning CmpPredicate.ule s = rw (left_bits, right_bits)
    eval_icmp_exact-meaning CmpPredicate.sgt s = more (s refl)
    eval_icmp_exact-meaning CmpPredicate.sge s = ap not (less (s refl)) ∙ ground arith
    eval_icmp_exact-meaning CmpPredicate.slt s = less (s refl)
    eval_icmp_exact-meaning CmpPredicate.sle s = ap not (more (s refl)) ∙ ground arith
    eval_icmp_exact-meaning _ s = refl

  same_bits_agree :
      x ≡ y
      → (i : ℕ) → bit (bit_or (bit_and lhs.one rhs.zero) (bit_and lhs.zero rhs.one)) i ≡ bit 0 i
  same_bits_agree e i = omega (
    arith,
    bit-bit_or (bit_and lhs.one rhs.zero) (bit_and lhs.zero rhs.one) i,
    bit-bit_and lhs.one rhs.zero i,
    bit-bit_and lhs.zero rhs.one i,
    hx.zeros i,
    hx.ones i,
    hy.zeros i,
    hy.ones i,
    ap (λ (t : ℕ). bit t i) e,
    bit-zero i,
    bit-le-one y i,
  )

  -- A bit known to be 1 on one side and 0 on the other tells the values apart.
  pub differs : (bit_or (bit_and lhs.one rhs.zero) (bit_and lhs.zero rhs.one) == 0) ≡ false → x ≢ y
  differs h e =
      let none_differ =
        bit_ext (bit_or (bit_and lhs.one rhs.zero) (bit_and lhs.zero rhs.one)) 0
          (same_bits_agree e) in
      absurd (ground arith)

  abbrev flag_of : Bool → ℕ
  flag_of b = if b then 1 else 0

  exact_flag : (b : Bool) → Holds (exact 1 (flag_of b)) (flag_of b)
  exact_flag true = exact-Holds 1 1 (omega arith)
  exact_flag false = exact-Holds 1 0 (omega arith)

  unknown_flag : (b : Bool) → Holds (unknown 1) (flag_of b)
  unknown_flag true = unknown-Holds 1 1 (omega arith)
  unknown_flag false = unknown-Holds 1 0 (omega arith)

  partly_known :
      (p : CmpPredicate)
      → (is_fully_known lhs && is_fully_known rhs) ≡ false
      → Holds (known_bits_icmp (some p) lhs rhs) (flag_of (icmp_meaning p lhs.width x y))
  unfolding known_bits_icmp icmp_meaning
  partly_known CmpPredicate.eq h =
      rw h (elim (Bool-cases (bit_or (bit_and lhs.one rhs.zero) (bit_and lhs.zero rhs.one) == 0)) [
        | inl same_so_far ↦ rw same_so_far (unknown_flag (x == y))
        | inr d ↦
            let ne : (x == y) ≡ false = ground (arith, differs d) in rw (d, ne) (exact_flag false)
      ])
  partly_known CmpPredicate.ne h =
      rw h (elim (Bool-cases (bit_or (bit_and lhs.one rhs.zero) (bit_and lhs.zero rhs.one) == 0)) [
        | inl same_so_far ↦ rw same_so_far (unknown_flag (not (x == y)))
        | inr d ↦
            let ne : (x == y) ≡ false = ground (arith, differs d) in rw (d, ne) (exact_flag true)
      ])
  partly_known p h = rw h (unknown_flag (icmp_meaning p lhs.width x y))

  -- Where two facts of one width, at most 64, hold of `x` and `y`, the fact for the comparison holds of
  -- its result. A signed comparison needs more than one bit.
  pub icmp-Holds :
      (p : CmpPredicate)
      → (is_signed p ≡ true → 1 < lhs.width)
      → Holds (known_bits_icmp (some p) lhs rhs) (flag_of (icmp_meaning p lhs.width x y))
  unfolding known_bits_icmp
  icmp-Holds p s = elim (Bool-cases (is_fully_known lhs && is_fully_known rhs)) [
    | inr partly ↦ unfold known_bits_icmp in partly_known p partly
    | inl known ↦
        let (kl, kr) = both _ _ known in
        rw (known, eval_icmp_exact-meaning kl kr p s) (exact_flag (icmp_meaning p lhs.width x y))
  ]

second_not : (a b : Bool) → (a && not b) ≡ true → b ≡ false
second_not a b h = ground arith

nonzero_of_bit : (c : ℕ) → bit c 0 ≡ 1 → (c == 0) ≡ false
unfolding bit
nonzero_of_bit c h = ground arith

zero_of_bit : (c : ℕ) → c < 2 → bit c 0 ≡ 0 → (c == 0) ≡ true
unfolding bit
zero_of_bit c p h = ground arith

-- The arm that is chosen is described, whichever it is.
pub select-Holds :
    (cond a b : KnownBits) (c x y : ℕ)
    → cond.width ≡ 1
    → b.width ≡ a.width
    → Holds cond c
    → Holds a x
    → Holds b y
    → Holds (known_bits_select cond a b) (if c == 0 then y else x)
unfolding known_bits_select
select-Holds cond a b c x y one same hc ha hb =
    elim (Bool-cases (leb 1 cond.width && not (bit_and cond.one 1 == 0))) [
      | inl taken ↦
          let set : bit c 0 ≡ 1 = omega (
            arith,
            hc.ones 0,
            bit-le-one c 0,
            bit_test cond.one 0 (omega arith) (second_not _ _ taken),
          ) in
          rw (taken, nonzero_of_bit c set) ha
      | inr not_taken ↦ elim (Bool-cases (leb 1 cond.width && not (bit_and cond.zero 1 == 0))) [
        | inl skipped ↦
            let clear : bit c 0 ≡ 0 =
              omega
                (arith, hc.zeros 0, bit_test cond.zero 0 (omega arith) (second_not _ _ skipped)) in
            rw
              (not_taken, skipped, zero_of_bit c (subst (λ (t : ℕ). c < 2 ^ t) one hc.within) clear)
              hb
        | inr open_arm ↦
            rw (not_taken, open_arm)
              (elim (Bool-cases (c == 0)) [
                | inl z ↦ rw z (meet-Holds a b y same (inr hb))
                | inr n ↦ rw n (meet-Holds a b x same (inl ha))
              ])
      ]
    ]
