-- ===== src/KnownBits/Lattice.antt =====
-- `struct KnownBits` and its static functions (include/clunk/Analysis/KnownBits.h).
use clunk.Base.{
  ℕ, ◌-◌, Bool, not, ◌&&◌, if◌then◌else◌, ◌==◌, ltb, leb, bit_and, bit_or, bit_not, ◌<<◌, sub64,
  all_ones,
}

-- A bit set in `zero` is known to be 0 in the value, a bit set in `one` is known to be 1.
pub record KnownBits : Type 0 where
  pub width : ℕ
  pub zero : ℕ
  pub one : ℕ

unfoldable pub mask_for_width : ℕ → ℕ
mask_for_width w = if w == 0 then 0 else if leb 64 w then all_ones else sub64 (1 << w) 1

unfoldable pub unknown : ℕ → KnownBits
unknown w = record { width = w; zero = 0; one = 0 }

unfoldable pub exact : ℕ → ℕ → KnownBits
exact w value =
    let mask = mask_for_width w in
    let bits = bit_and value mask in
    record { width = w; zero = bit_and (bit_not bits) mask; one = bits }

unfoldable pub has_conflict : KnownBits → Bool
has_conflict kb = not (bit_and kb.zero kb.one == 0)

unfoldable pub is_fully_known : KnownBits → Bool
is_fully_known kb = bit_or kb.zero kb.one == mask_for_width kb.width

-- The 64-bit pattern of the `int64_t`: sign-extended, but for `i1`, which reads as 0 or 1.
unfoldable pub signed_value : KnownBits → ℕ
signed_value kb =
    let bits = bit_and kb.one (mask_for_width kb.width) in
    if kb.width == 1
    then bits
    else if (ltb 0 kb.width && ltb kb.width 64) && not (bit_and bits (1 << (kb.width - 1)) == 0)
    then bit_or bits (bit_not (mask_for_width kb.width))
    else bits

unfoldable pub meet : KnownBits → KnownBits → KnownBits
meet a b = record { width = a.width; zero = bit_and a.zero b.zero; one = bit_and a.one b.one }
