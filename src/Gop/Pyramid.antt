-- ===== src/Gop/Pyramid.antt =====
-- The slots of the lower levels of the pyramid: pos_to_lvl of src/encoder.rs on the order hints
-- that a frame refers to.
use Prim.Native.Nat.{digits, bit_or-bitwise, max}
use rav1e.Prelude.{ℕ, zero, suc, ◌+◌, ◌*◌, ◌/◌, ◌%◌, ◌≤◌, bit_or, ◌≡◌, refl, ap, ◌∙◌, arith}
use rav1e.Gop.Config.{trailing_zeros, pos_to_lvl}
use rav1e.Gop.Inter.{lower_slot}
use rav1e.Gop.Levels.{pyramid}

abbrev or_digits : ℕ → ℕ → ℕ → ℕ
or_digits = digits (λ b. b) max

or_digits-low : (n a b : ℕ) → a ≤ n → or_digits n a b % 2 ≡ max (a % 2) (b % 2)
or_digits-low zero a b h = omega (arith, h)
or_digits-low (suc n) zero b h = omega arith
or_digits-low (suc n) (suc a) b h = omega arith

or_digits-half :
    (n a b : ℕ)
    → a ≤ n
    → (m : ℕ) × (a / 2 ≤ m) × (or_digits n a b / 2 ≡ or_digits m (a / 2) (b / 2))
or_digits-half zero zero b h = (0, omega arith, refl)
or_digits-half zero (suc a) b h = absurd (omega arith)
or_digits-half (suc n) zero b h = (suc n, omega arith, refl)
or_digits-half (suc n) (suc a) b h = (n, omega (arith, h), omega arith)

tz-even : (w v : ℕ) → v % 2 ≡ 0 → trailing_zeros (suc w) v ≡ suc (trailing_zeros w (v / 2))
unfolding trailing_zeros
tz-even w v h = rw h refl

tz-odd : (w v : ℕ) → v % 2 ≡ 1 → trailing_zeros (suc w) v ≡ 0
unfolding trailing_zeros
tz-odd w v h = rw h refl

pub level_zero : (oh : ℕ) → oh % 4 ≡ 0 → pos_to_lvl oh 2 ≡ 0
unfolding pos_to_lvl
level_zero oh h =
    let v = or_digits oh oh 4 in
    let (m, fits, half) = or_digits-half oh oh 4 (omega arith) in
    let (m', fits', quarter) = or_digits-half m (oh / 2) 2 fits in
    let even : v % 2 ≡ 0 = omega (arith, h, or_digits-low oh oh 4 (omega arith)) in
    let even' : v / 2 % 2 ≡ 0 = omega (arith, h, half, or_digits-low m (oh / 2) 2 fits) in
    let odd : v / 2 / 2 % 2 ≡ 1 =
      ap (λ (t : ℕ). t / 2 % 2) half
      ∙ omega (arith, quarter, or_digits-low m' (oh / 2 / 2) 1 fits') in
    let zeros : trailing_zeros 64 v ≡ 2 =
      tz-even 63 v even ∙ ap suc (tz-even 62 (v / 2) even' ∙ ap suc (tz-odd 61 (v / 2 / 2) odd)) in
    let or : bit_or oh 4 ≡ v = bit_or-bitwise oh 4 in rw (or, zeros) refl

pub level_one : (oh : ℕ) → oh % 4 ≡ 2 → pos_to_lvl oh 2 ≡ 1
unfolding pos_to_lvl
level_one oh h =
    let v = or_digits oh oh 4 in
    let (m, fits, half) = or_digits-half oh oh 4 (omega arith) in
    let even : v % 2 ≡ 0 = omega (arith, h, or_digits-low oh oh 4 (omega arith)) in
    let odd : v / 2 % 2 ≡ 1 = omega (arith, h, half, or_digits-low m (oh / 2) 2 fits) in
    let zeros : trailing_zeros 64 v ≡ 1 = tz-even 63 v even ∙ ap suc (tz-odd 62 (v / 2) odd) in
    let or : bit_or oh 4 ≡ v = bit_or-bitwise oh 4 in rw (or, zeros) refl

pub lower_slot-zero : (k oh : ℕ) → oh ≡ 4 * k → lower_slot pyramid oh ≡ k % 4
unfolding lower_slot
lower_slot-zero k oh h = rw (level_zero oh (omega (arith, h))) (omega (arith, h))

pub lower_slot-one : (k oh : ℕ) → oh ≡ 4 * k + 2 → lower_slot pyramid oh ≡ 4
unfolding lower_slot
lower_slot-one k oh h = rw (level_one oh (omega (arith, h))) refl
