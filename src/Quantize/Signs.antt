-- ===== src/Quantize/Signs.antt =====
-- Integers as signs and magnitudes, for the coefficients of src/quantize/mod.rs.
use native.Mathlib.Nat.{mod-eq_of_lt, zero-add, div-eq-sub-div}
use rav1e.Prelude.Powers.{pow-add, pow-pos}
use rav1e.Prelude.{
  ℕ, zero, suc, ◌+◌, ◌-◌, ◌*◌, ◌/◌, ◌%◌, ◌^◌, ◌≤◌, ◌<◌, ◌≡◌, refl, ap, ap₂, sym, ◌∙◌, arith, true,
  false, ltb, lt→ltb,
}
use rav1e.Prelude.Int.{ℤ, pos, negsuc, ◌+ℤ◌, ◌-ℤ◌, ◌*ℤ◌, sub_ℕ, pos_part, neg_part}
use rav1e.O3yv.Motion.{shr}
use rav1e.O3yv.Residual.{wrap32, sub_i32, add_i32}
use rav1e.Quantize.Coefficients.{cast_from, unsigned_abs, copysign}

abbrev pub minus : ℕ → ℤ
minus zero = pos 0
minus (suc v) = negsuc v

pub sub_minus : (v : ℕ) → sub_ℕ 0 v ≡ minus v
sub_minus zero = refl
sub_minus (suc v) = ground arith

pub sub_pos : (v : ℕ) → sub_ℕ v 0 ≡ pos v
sub_pos v = ground arith

pub mul_pos : (a b : ℕ) → pos a *ℤ pos b ≡ pos (a * b)
unfolding ◌*ℤ◌
mul_pos a b =
    let whole : a * b + 0 * 0 ≡ a * b = omega arith in
    let none_left : a * 0 + 0 * b ≡ 0 = omega arith in ap₂ sub_ℕ whole none_left ∙ sub_pos (a * b)

pub mul_minus : (a b : ℕ) → minus a *ℤ pos b ≡ minus (a * b)
unfolding ◌*ℤ◌
mul_minus zero b =
    let none_left : 0 * b ≡ 0 = omega arith in
    mul_pos 0 b ∙ ap pos none_left ∙ sym (ap minus none_left)
mul_minus (suc a) b =
    let whole : 0 * 0 + suc a * b ≡ suc a * b = omega arith in
    let none_left : 0 * b + suc a * 0 ≡ 0 = omega arith in
    ap₂ sub_ℕ none_left whole ∙ sub_minus (suc a * b)

pub wrap_pos : (v : ℕ) → v < 2 ^ 31 → wrap32 (pos v) ≡ pos v
unfolding wrap32
wrap_pos v h = ground arith

pub wrap_minus : (v : ℕ) → v < 2 ^ 31 → wrap32 (minus v) ≡ minus v
unfolding wrap32
wrap_minus zero h = refl
wrap_minus (suc v) h = ground arith

word_rest : (w v : ℕ) → v < 2 ^ w → v % 2 ^ (w + 1) ≡ v
word_rest w v h = mod-eq_of_lt (omega (arith, h, pow-add w 1))

pub cast_pos : (w v : ℕ) → v < 2 ^ w → cast_from w (pos v) ≡ pos v
unfolding cast_from
cast_pos w v h = rw (word_rest w v h, lt→ltb v (2 ^ w) h) refl

pub cast_minus : (w v : ℕ) → v < 2 ^ w → cast_from w (minus v) ≡ minus v
unfolding cast_from
cast_minus w zero h = cast_pos w 0 h
cast_minus w (suc v) h =
    let less : v < 2 ^ w = omega (arith, h) in rw (word_rest w v less, lt→ltb v (2 ^ w) less) refl

pub copysign_pos : (v n : ℕ) → v < 2 ^ 31 → copysign v (pos n) ≡ pos v
unfolding copysign
copysign_pos v n h =
    let no_sign : ltb (n + 0) 0 ≡ false = ground arith in rw (wrap_pos v h, no_sign) refl

negated : (v : ℕ) → pos 0 -ℤ pos v ≡ minus v
unfolding ◌-ℤ◌
negated v = ap₂ sub_ℕ {x = 0 + 0} {y = 0} refl (zero-add v) ∙ sub_minus v

pub copysign-minus : (v n : ℕ) → v < 2 ^ 31 → 0 < n → copysign v (minus n) ≡ minus v
unfolding copysign sub_i32
copysign-minus v zero h p = absurd (omega (arith, p))
copysign-minus v (suc n) h p =
    let sign : ltb 0 (0 + suc n) ≡ true = ground arith in
    rw (wrap_pos v h, sign, negated v) (wrap_minus v h)

pub pos_minus : (n : ℕ) → pos_part (minus n) ≡ 0
pos_minus zero = refl
pos_minus (suc n) = refl

pub neg_minus : (n : ℕ) → neg_part (minus n) ≡ n
neg_minus zero = refl
neg_minus (suc n) = refl

pub abs_minus : (n : ℕ) → unsigned_abs (minus n) ≡ n
unfolding unsigned_abs
abs_minus zero = refl
abs_minus (suc n) = omega arith

add_bias : (v p : ℕ) → p < v → minus v +ℤ pos p ≡ negsuc (v - p - 1)
unfolding ◌+ℤ◌
add_bias zero p h = absurd (omega (arith, h))
add_bias (suc v) p h = ground arith

-- A division that rounds to zero, by a shift.
pub shift_minus :
    (v s : ℕ)
    → 2 ^ s ≤ v
    → v < 2 ^ 31
    → shr (add_i32 (minus v) (pos (2 ^ s - 1))) s ≡ minus (v / 2 ^ s)
unfolding add_i32
shift_minus v s le h =
    let p = 2 ^ s in
    let rest : v - (p - 1) - 1 ≡ v - p = omega (arith, le, pow-pos s) in
    let quotient : v / p ≡ (v - p) / p + 1 = div-eq-sub-div (pow-pos s) le in
    let next : v / p ≡ suc ((v - p) / p) = omega (arith, quotient) in
    rw
      (
        add_bias v (p - 1) (omega (arith, le, pow-pos s)),
        rest,
        wrap_minus (suc (v - p)) (omega (arith, h, le, pow-pos s)),
        next,
      )
      refl
