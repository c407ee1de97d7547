-- ===== src/Examples/Facts.antt =====
-- Facts and values for the transfer functions of the known-bits analysis (src/Analysis/KnownBits.cpp).
use clunk.Base.{◌+◌, ◌-◌, ◌*◌, ◌^◌, ◌%◌, ◌≤◌, ◌≡◌, refl, some, arith, inl, inr, if◌then◌else◌}
use clunk.Ir.Predicate.{CmpPredicate}
use clunk.Meaning.{binary_meaning, icmp_meaning, sign_fill}
use clunk.KnownBits.Lattice.{KnownBits, exact, meet}
use clunk.KnownBits.Transfer.{known_bits_mul, known_bits_ashr, known_bits_sext, known_bits_icmp}
use clunk.KnownBits.Masks.{Holds}
use clunk.KnownBits.Exact.{exact-Holds}
use clunk.KnownBits.Bitwise.{meet-Holds}
use clunk.KnownBits.Arithmetic.{mul-Holds}
use clunk.KnownBits.Extends.{ashr-Holds}
use clunk.KnownBits.Casts.{sext-Holds}
use clunk.KnownBits.Compare.{icmp-Holds}
use clunk.PowersOfTwo.Classify.{classify_pow2}
use clunk.PowersOfTwo.Sound.{classify_pow2_sound, Says}

-- 8 or 200, at 8 bits, and the amount 3.
abbrev either : KnownBits
either = meet (exact 8 200) (exact 8 8)

abbrev three : KnownBits
three = exact 8 3

either-Holds : Holds either 200
unfolding exact
either-Holds = meet-Holds (exact 8 200) (exact 8 8) 200 refl (inl (exact-Holds 8 200 (omega arith)))

three-Holds : Holds three 3
three-Holds = exact-Holds 8 3 (omega arith)

either-narrow : either.width ≤ 64
unfolding meet exact
either-narrow = omega arith

same_width : three.width ≡ either.width
unfolding meet exact
same_width = refl

mul-Holds_example : Holds (known_bits_mul either three) ((200 * 3) % 2 ^ either.width)
mul-Holds_example = mul-Holds either three 200 3 either-narrow same_width either-Holds three-Holds

ashr-Holds_example : Holds (known_bits_ashr either three) 249
ashr-Holds_example =
    ashr-Holds either three 200 3 either-narrow same_width either-Holds three-Holds 249
      (unfold binary_meaning meet exact in refl)

icmp-Holds_example :
    Holds
      (known_bits_icmp (some CmpPredicate.slt) either three)
      (if icmp_meaning CmpPredicate.slt either.width 200 3 then 1 else 0)
icmp-Holds_example =
    icmp-Holds either three 200 3 either-narrow same_width either-Holds three-Holds CmpPredicate.slt
      (λ _. unfold meet exact in omega arith)

sext-Holds_example :
    Holds (known_bits_sext either 16) (200 + sign_fill either.width 200 (2 ^ 16 - 2 ^ either.width))
sext-Holds_example =
    sext-Holds either 16 200 (unfold meet exact in omega arith) (omega arith) either-Holds

classify_pow2_sound_example : Says (classify_pow2 (meet (exact 8 0) (exact 8 8))) 8
classify_pow2_sound_example =
    classify_pow2_sound (meet (exact 8 0) (exact 8 8)) 8 (unfold meet exact in omega arith) (
      meet-Holds (exact 8 0) (exact 8 8) 8 (unfold exact in refl)
        (inr (exact-Holds 8 8 (omega arith))))
