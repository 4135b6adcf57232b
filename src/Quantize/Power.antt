-- ===== src/Quantize/Power.antt =====
-- Powers of two among the divisors of divu_gen: src/quantize/mod.rs.
use native.Mathlib.Nat.{pow-suc}
use rav1e.Prelude.{
  ℕ, zero, suc, ◌+◌, ◌-◌, ◌*◌, ◌/◌, ◌%◌, ◌^◌, ◌≤◌, ◌<◌, ◌≡◌, ◌≢◌, refl, ap, ap₂, ◌∙◌, inl, inr,
  arith, true, false, Bool-cases, ltb, ◌==◌, ltb→lt, not_ltb→le, ==→≡,
}
use rav1e.Prelude.Powers.{pow-add, pow-pos, pow_mono, mul_mono_left, lt_cancel}
use rav1e.Ec.Format.{leading_zeros}
use rav1e.Ec.Base.Bounds.{leading_zeros-normal}
use rav1e.Quantize.Division.{is_power_of_two}

-- The highest set bit of a word.
pub top_bit :
    (d : ℕ)
    → 0 < d
    → d < 2 ^ 32
    → (2 ^ (32 - leading_zeros 32 d - 1) ≤ d)
      × (d < 2 * 2 ^ (32 - leading_zeros 32 d - 1))
      × (32 - leading_zeros 32 d - 1 < 32)
top_bit d pos h =
    let z = leading_zeros 32 d in
    let m = 32 - z - 1 in
    let (low, high) = leading_zeros-normal 32 d pos h in
    let few : z < 32 = elim (Bool-cases (ltb z 32)) [
      | inl e ↦ ltb→lt z 32 e
      | inr e ↦
          absurd
            (omega (arith, high, pow_mono 32 z (not_ltb→le z 32 e), mul_mono_left 1 d (2 ^ z) pos))
    ] in
    let split : 2 ^ 32 ≡ 2 ^ m * 2 * 2 ^ z =
      ap (λ (k : ℕ). 2 ^ k) {x = 32} {y = m + 1 + z} (omega (arith, few))
      ∙ pow-add (m + 1) z
      ∙ ap (λ (t : ℕ). t * 2 ^ z) (pow-add m 1) in
    let double = lt_cancel d (2 ^ m * 2) (2 ^ z) (omega (arith, high, split)) in
    let below = lt_cancel (2 ^ m * 2) (d * 2 + 1) (2 ^ z) (omega (arith, low, split, pow-pos z)) in
    (omega (arith, below), omega (arith, double), omega (arith, few))

pub is_power-true : (w d : ℕ) → is_power_of_two w d ≡ true → (k : ℕ) × (k < w) × (d ≡ 2 ^ k)
unfolding is_power_of_two
is_power-true zero d h = ground arith
is_power-true (suc w) d h = elim (Bool-cases (d == 2 ^ w)) [
  | inl e ↦ (w, omega arith, ==→≡ d (2 ^ w) e)
  | inr e ↦
      let rest : is_power_of_two w d ≡ true = ground arith in
      let (k, lt, same) = is_power-true w d rest in (k, omega (arith, lt), same)
]

pub is_power-false : (w d k : ℕ) → is_power_of_two w d ≡ false → k < w → d ≢ 2 ^ k
unfolding is_power_of_two
is_power-false zero d k h lt same = absurd (omega arith)
is_power-false (suc w) d k h lt same =
    let rest : is_power_of_two w d ≡ false = ground arith in
    elim (Bool-cases (k == w)) [
      | inl e ↦ let at : d ≡ 2 ^ w = same ∙ ap (λ (t : ℕ). 2 ^ t) (==→≡ k w e) in ground (arith, at)
      | inr e ↦ is_power-false w d k rest (ground (arith, e, lt)) same
    ]

-- A divisor of a power of two is a power of two.
pub divisor_is_power : (n t d : ℕ) → t * d ≡ 2 ^ n → (k : ℕ) × (d ≡ 2 ^ k)
divisor_is_power zero t zero h = absurd (omega (arith, h))
divisor_is_power zero t (suc zero) h = (0, refl)
divisor_is_power zero zero (suc (suc d)) h = absurd (omega (arith, h))
divisor_is_power zero (suc t) (suc (suc d)) h = absurd (omega (arith, h))
divisor_is_power (suc n) t d h = elim (Bool-cases (d % 2 == 0)) [
  | inl e ↦
      let even : d ≡ d / 2 * 2 = omega (arith, ==→≡ (d % 2) 0 e) in
      let half : t * (d / 2) ≡ 2 ^ n = omega (arith, h, pow-suc 2 n, ap (λ (x : ℕ). t * x) even) in
      let (k, is) = divisor_is_power n t (d / 2) half in
      (suc k, omega (arith, even, is, pow-suc 2 k))
  | inr e ↦
      let odd : d ≡ d / 2 * 2 + 1 = ground (arith, e) in
      let parts : t ≡ t / 2 * 2 + t % 2 = omega arith in
      let product : t * d ≡ (t / 2 * 2 + t % 2) * (d / 2 * 2 + 1) =
        ap₂ (λ (x y : ℕ). x * y) parts odd in
      let even : t ≡ t / 2 * 2 = omega (arith, h, pow-suc 2 n, product) in
      divisor_is_power n (t / 2) d (omega (arith, h, pow-suc 2 n, ap (λ (x : ℕ). x * d) even))
]
