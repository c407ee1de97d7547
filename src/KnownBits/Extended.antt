-- ===== src/KnownBits/Extended.antt =====
-- Arithmetic on sign-extended patterns, modulo the width.
use clunk.Base.{
  ℕ, ◌+◌, ◌-◌, ◌*◌, ◌^◌, ◌%◌, ◌≤◌, ◌<◌, ◌≡◌, sym, ◌∙◌, ap, ◌==◌, ltb, add64, sub64, mul64, arith,
  inl, inr, Bool-cases,
}
use clunk.Base.Fields.{pow_split}
use native.Mathlib.Nat.{
  one-le-pow, mod-eq_of_lt, add-mul-mod_self_right, mod-mod_of_dvd, dvd_of_mod-eq-zero,
  mul-mod_left, add-mod, add-mul,
}
use mathlib.Core.Path.{ap₂}
use clunk.KnownBits.Masks.{pow-le-64}
use clunk.KnownBits.Exact.{extended, complement_pow}

pub mod-mod-pow : (k w n : ℕ) → k ≤ w → n % 2 ^ w % 2 ^ k ≡ n % 2 ^ k
mod-mod-pow k w n h = mod-mod_of_dvd (2 ^ k) n (
    dvd_of_mod-eq-zero (2 ^ k)
      (ap (λ (t : ℕ). t % 2 ^ k) (sym (pow_split k w h)) ∙ mul-mod_left (2 ^ (w - k)) (2 ^ k)))

-- An extended pattern is the pattern and a multiple of `2 ^ w`.
extended_form :
    (w x : ℕ) → w ≤ 64 → (a : ℕ) × (a ≤ 2 ^ (64 - w) - 1) × (extended w x ≡ x + a * 2 ^ w)
unfolding extended
extended_form w x h = elim (Bool-cases (w == 1)) [
  | inl one ↦ (0, omega arith, rw one (omega arith))
  | inr wide ↦ elim (Bool-cases (ltb x (2 ^ (w - 1)))) [
    | inl low ↦ (0, omega arith, rw (wide, low) (omega arith))
    | inr high ↦ (
      2 ^ (64 - w) - 1,
      omega arith,
      rw (wide, high)
          (omega (
            arith,
            pow_split w 64 h,
            complement_pow (2 ^ (64 - w)) (2 ^ w) (one-le-pow (64 - w) 2 (omega arith)),
          )),
    )
  ]
]

pub extended-mod : (w x : ℕ) → w ≤ 64 → x < 2 ^ w → extended w x % 2 ^ w ≡ x
extended-mod w x h p =
    let (a, bound, e) = extended_form w x h in
    ap (λ (t : ℕ). t % 2 ^ w) e ∙ add-mul-mod_self_right x a (2 ^ w) ∙ mod-eq_of_lt p

sub_mul_add : (a b m : ℕ) → b ≤ a → (a - b) * m + b * m ≡ a * m
sub_mul_add a b m h = sym (add-mul (a - b) b m) ∙ ap (λ (t : ℕ). t * m) (omega arith)

mul_forms : (x y a b m : ℕ) → (x + a * m) * (y + b * m) ≡ x * y + (x * b + a * y + a * b * m) * m
mul_forms x y a b m = omega arith

module _ (w x y : ℕ) (h : w ≤ 64) (p : x < 2 ^ w) (q : y < 2 ^ w) where
  pub extended-add : add64 (extended w x) (extended w y) % 2 ^ w ≡ (x + y) % 2 ^ w
  extended-add =
      mod-mod-pow w 64 (extended w x + extended w y) h
      ∙ add-mod (extended w x) (extended w y) (2 ^ w)
      ∙ rw (extended-mod w x h p, extended-mod w y h q)

  pub extended-mul : mul64 (extended w x) (extended w y) % 2 ^ w ≡ (x * y) % 2 ^ w
  extended-mul =
      let (a, _, ea) = extended_form w x h in
      let (b, _, eb) = extended_form w y h in
      mod-mod-pow w 64 (extended w x * extended w y) h
      ∙ ap (λ (t : ℕ). t % 2 ^ w) (ap₂ ◌*◌ ea eb ∙ mul_forms x y a b (2 ^ w))
      ∙ add-mul-mod_self_right (x * y) (x * b + a * y + a * b * 2 ^ w) (2 ^ w)

  pub extended-sub : sub64 (extended w x) (extended w y) % 2 ^ w ≡ (x + (2 ^ w - y)) % 2 ^ w
  extended-sub =
      let (a, a_le, ea) = extended_form w x h in
      let (b, b_le, eb) = extended_form w y h in
      let top = 2 ^ (64 - w) - 1 in
      let e : extended w x + 2 ^ 64 - extended w y ≡ x + (2 ^ w - y) + (a + (top - b)) * 2 ^ w =
        omega (
          arith,
          ea,
          eb,
          pow_split w 64 h,
          complement_pow (2 ^ (64 - w)) (2 ^ w) (one-le-pow (64 - w) 2 (omega arith)),
          pow-le-64 w h,
          sub_mul_add top b (2 ^ w) b_le,
          add-mul a (top - b) (2 ^ w),
        ) in
      mod-mod-pow w 64 (extended w x + 2 ^ 64 - extended w y) h
      ∙ ap (λ (t : ℕ). t % 2 ^ w) e
      ∙ add-mul-mod_self_right (x + (2 ^ w - y)) (a + (top - b)) (2 ^ w)
