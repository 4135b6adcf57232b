-- ===== src/Quantize/Exact.antt =====
-- divu_pair of src/quantize/mod.rs divides exactly by the number that divu_gen was given.
use native.Mathlib.Nat.{
  pow-suc, mod-eq_of_lt, mod-lt, div-add-mod', div-le_self, div-div-eq-div-mul, mul_comm,
  mul-add-mod_self_right,
}
use rav1e.Prelude.{
  ℕ, suc, ◌+◌, ◌-◌, ◌*◌, ◌/◌, ◌%◌, ◌^◌, ◌≤◌, ◌<◌, ◌≡◌, bit_and, ap, sym, ◌∙◌, inl, inr, arith,
  false, Bool-cases, leb, ltb, leb→le, not_leb→lt, ltb→lt, not_ltb→le,
}
use rav1e.Prelude.Bits.{and_word}
use rav1e.Prelude.Powers.{pow-add, pow-pos, pow_mono, mul_mono_left, lt_cancel}
use rav1e.Ec.Format.{leading_zeros}
use rav1e.Quantize.Division.{is_power_of_two, divu_gen, divu_pair}
use rav1e.Quantize.Magic.{mul_up, mul_down}
use rav1e.Quantize.Power.{top_bit, is_power-true, is_power-false, divisor_is_power}

words : (t : ℕ) → t + 1 < 2 ^ 32 → (t % 2 ^ 32 + 1) % 2 ^ 32 ≡ t + 1
words t h = omega (arith, h)

module _ (d x : ℕ) (pos : 0 < d) (small : d < 2 ^ 32) (word : x < 2 ^ 32) where
  abbrev m : ℕ
  m = 32 - leading_zeros 32 d - 1

  abbrev K : ℕ
  K = 2 ^ (m + 32)

  power : (k : ℕ) → k < 32 → d ≡ 2 ^ k → m ≡ k
  power k lt is =
      let (low, high, _) = top_bit d pos small in
      elim (Bool-cases (ltb m k)) [
        | inl e ↦ absurd (omega (arith, high, is, pow_mono (suc m) k (ltb→lt m k e), pow-suc 2 m))
        | inr e ↦ elim (Bool-cases (ltb k m)) [
          | inl f ↦
              absurd
                (omega (arith, low, is, pow_mono (suc k) m (ltb→lt k m f), pow-suc 2 k, pow-pos k))
          | inr f ↦ omega (arith, not_ltb→le m k e, not_ltb→le k m f)
        ]
      ]

  -- The branch of powers of two: the factor is one less than 2 ^ 32.
  by_shift : d ≡ 2 ^ m → (0xFFFF_FFFF * x + 0xFFFF_FFFF) / 2 ^ 32 / 2 ^ m % 2 ^ 32 ≡ x / d
  by_shift is =
      let whole : (0xFFFF_FFFF * x + 0xFFFF_FFFF) / 2 ^ 32 ≡ x = omega (arith, word) in
      rw (whole, sym is) (mod-eq_of_lt (omega (arith, div-le_self x d, word)))

  -- The end of both other branches.
  by_factor : (y : ℕ) → y / K ≡ x / d → y / 2 ^ 32 / 2 ^ m % 2 ^ 32 ≡ x / d
  by_factor y e =
      let once : y / 2 ^ 32 / 2 ^ m ≡ y / K =
        div-div-eq-div-mul y (2 ^ 32) (2 ^ m)
        ∙ ap (λ (t : ℕ). y / t) (mul_comm (2 ^ 32) (2 ^ m) ∙ sym (pow-add m 32)) in
      rw (once, e) (mod-eq_of_lt (omega (arith, div-le_self x d, word)))

  -- The other numbers: the factor is 2 ^ (m + 32) / d, rounded one way or the other.
  abbrev t : ℕ
  t = K / d

  abbrev rest : ℕ
  rest = K % d

  module _ (other : is_power_of_two 32 d ≡ false) where
    above : (2 ^ m < d) × (d < 2 * 2 ^ m) × (m < 32)
    above =
        let (low, high, lt) = top_bit d pos small in
        let ne = is_power-false 32 d m other lt in
        (
          elim (Bool-cases (ltb (2 ^ m) d)) [
            | inl e ↦ ltb→lt (2 ^ m) d e
            | inr e ↦ absurd (ne (omega (arith, low, not_ltb→le (2 ^ m) d e)))
          ],
          high,
          lt,
        )

    rest_pos : 0 < rest
    rest_pos = elim (Bool-cases (ltb 0 rest)) [
      | inl e ↦ ltb→lt 0 rest e
      | inr e ↦
          let whole : t * d ≡ K = omega (arith, div-add-mod' K d, not_ltb→le 0 rest e) in
          let (k, is) = divisor_is_power (m + 32) t d whole in
          elim (Bool-cases (ltb k 32)) [
            | inl lt ↦ absurd (is_power-false 32 d k other (ltb→lt k 32 lt) is)
            | inr ge ↦ absurd (omega (arith, small, is, pow_mono 32 k (not_ltb→le k 32 ge)))
          ]
    ]

    -- The power of two, and the word above it.
    power_split : K ≡ 2 ^ m * 2 ^ 32
    power_split = pow-add m 32

    t_bounds : t < 2 ^ 32
    t_bounds =
        let (over, _, _) = above in
        lt_cancel t (2 ^ 32) d (
          omega (arith, div-add-mod' K d, power_split, mul_mono_left (suc (2 ^ m)) d (2 ^ 32) over))

    mask : bit_and (t * d + d) (2 ^ 32 - 1) ≡ d - rest
    mask =
        let less = mod-lt K pos in
        let sum : t * d + d ≡ 2 ^ m * 2 ^ 32 + (d - rest) =
          omega (arith, div-add-mod' K d, power_split, less) in
        and_word (t * d + d)
        ∙ ap (λ (y : ℕ). y % 2 ^ 32) sum
        ∙ mul-add-mod_self_right (2 ^ m) (2 ^ 32) (d - rest)
        ∙ mod-eq_of_lt (omega (arith, small))

    rounded_up : d - rest ≤ 2 ^ m → ((t % 2 ^ 32 + 1) % 2 ^ 32 * x + 0) / K ≡ x / d
    rounded_up few =
        let (over, _, lt) = above in
        let less = mod-lt K pos in
        let factor : (t + 1) * d ≡ K + (d - rest) = omega (arith, div-add-mod' K d, less) in
        let room : t + 1 < 2 ^ 32 = lt_cancel (t + 1) (2 ^ 32) d (
          omega (
            arith,
            factor,
            few,
            power_split,
            mul_mono_left (suc (2 ^ m)) d (2 ^ 32) over,
            pow_mono (m + 1) 32 (omega (arith, lt)),
            pow-suc 2 m,
            pow-add m 1,
            pow-pos m,
          )) in
        let is_mul : (t % 2 ^ 32 + 1) % 2 ^ 32 * x + 0 ≡ (t + 1) * x =
          ap (λ (y : ℕ). y * x + 0) (words t room) ∙ omega arith in
        let error : (d - rest) * x < K = omega (
          arith,
          power_split,
          mul_mono_left (d - rest) (2 ^ m) x few,
          mul_mono_left (x + 1) (2 ^ 32) (2 ^ m) (omega (arith, word)),
          pow-pos m,
        ) in
        ap (λ (y : ℕ). y / K) is_mul
        ∙ mul_up K d (t + 1) x (x / d) (x % d) (sym (div-add-mod' x d)) (mod-lt x pos) (d - rest)
            factor error

    rounded_down : 2 ^ m < d - rest → (t % 2 ^ 32 * x + t % 2 ^ 32) / K ≡ x / d
    rounded_down many =
        let (_, under, _) = above in
        let is_mul : t % 2 ^ 32 * x + t % 2 ^ 32 ≡ t * (x + 1) =
          omega (arith, ap (λ (y : ℕ). y * x) (mod-eq_of_lt t_bounds), mod-eq_of_lt t_bounds) in
        let few : rest ≤ 2 ^ m = omega (arith, many, under) in
        let error : rest * (x + 1) ≤ K = omega (
          arith,
          power_split,
          mul_mono_left rest (2 ^ m) (x + 1) few,
          mul_mono_left (x + 1) (2 ^ 32) (2 ^ m) (omega (arith, word)),
        ) in
        ap (λ (y : ℕ). y / K) is_mul
        ∙ mul_down K d t x (x / d) (x % d) (sym (div-add-mod' x d)) (mod-lt x pos) rest
            (div-add-mod' K d) rest_pos error

  -- For every divisor d above 0 and every x, both below 2 ^ 32, `divu_pair` of x and of what
  -- `divu_gen` makes of d is x / d.
  pub divu_pair-divu_gen : divu_pair x (divu_gen d) ≡ x / d
  unfolding divu_pair divu_gen
  divu_pair-divu_gen = elim (Bool-cases (is_power_of_two 32 d)) [
    | inl e ↦
        let (k, lt, is) = is_power-true 32 d e in
        rw e (by_shift (is ∙ ap (λ (y : ℕ). 2 ^ y) (sym (power k lt is))))
    | inr e ↦
        rw (e, mask e)
          (elim (Bool-cases (leb (d - rest) (2 ^ m))) [
            | inl up ↦ rw up (by_factor _ (rounded_up e (leb→le (d - rest) (2 ^ m) up)))
            | inr down ↦ rw down (by_factor _ (rounded_down e (not_leb→lt (d - rest) (2 ^ m) down)))
          ])
  ]
