-- ===== src/Quantize/Returned.antt =====
-- How far a coefficient is from itself after quantize and dequantize of src/quantize/mod.rs.
use native.Mathlib.Nat.{add-zero, zero-mul, zero-div}
use rav1e.Prelude.{
  ℕ, zero, suc, ◌+◌, ◌*◌, ◌/◌, ◌^◌, ◌≤◌, ◌<◌, ◌≡◌, ap, ap₂, sym, ◌∙◌, arith, true, false, ltb,
}
use rav1e.Prelude.Int.{ℤ, pos, negsuc, sub_ℕ, ◌+ℤ◌, pos_part, neg_part}
use rav1e.Prelude.Powers.{pow-pos}
use rav1e.Quantize.Context.{QuantizationContext}
use rav1e.O3yv.Residual.{mul_i32, add_i32}
use rav1e.Quantize.Signs.{
  minus, sub_pos, mul_pos, mul_minus, wrap_pos, wrap_minus, cast_pos, cast_minus, copysign_pos,
  copysign-minus, abs_minus, pos_minus, neg_minus, shift_minus,
}
use rav1e.Quantize.Coefficients.{scaled, quantize_ac, dequantize_one, unsigned_abs}
use rav1e.Quantize.Levels.{IsContext, IsInside, level_of, size_back, sizes, near, word, level_word}

dequantize_pos :
    (w s quant l : ℕ)
    → l * quant < 2 ^ 31
    → l * quant / 2 ^ s < 2 ^ w
    → dequantize_one w s quant (pos l) ≡ pos (l * quant / 2 ^ s)
unfolding dequantize_one mul_i32 add_i32 ◌+ℤ◌
dequantize_pos w s quant l h k =
    let no_sign : ltb (l + 0) 0 ≡ false = ground arith in
    let sum = ap₂ sub_ℕ (add-zero (l * quant)) (add-zero 0) ∙ sub_pos (l * quant) in
    rw (no_sign, mul_pos l quant, wrap_pos (l * quant) h, sum, wrap_pos (l * quant) h)
      (cast_pos w (l * quant / 2 ^ s) k)

dequantize_minus :
    (w s quant l : ℕ)
    → 2 ^ s ≤ quant
    → l * quant < 2 ^ 31
    → l * quant / 2 ^ s < 2 ^ w
    → dequantize_one w s quant (minus l) ≡ minus (l * quant / 2 ^ s)
unfolding dequantize_one mul_i32
dequantize_minus w s quant zero fine h k =
    let none_left : 0 * quant / 2 ^ s ≡ 0 =
      ap (λ (t : ℕ). t / 2 ^ s) (zero-mul quant) ∙ zero-div (2 ^ s) in
    dequantize_pos w s quant 0 h k ∙ ap pos none_left ∙ sym (ap minus none_left)
dequantize_minus w s quant (suc l) fine h k =
    let sign : ltb (0 + 0) (0 + suc l) ≡ true = ground arith in
    let many : 2 ^ s ≤ suc l * quant = omega (arith, fine) in
    rw
      (
        sign,
        mul_minus (suc l) quant,
        wrap_minus (suc l * quant) h,
        shift_minus (suc l * quant) s many h,
      )
      (cast_minus w (suc l * quant / 2 ^ s) k)

module _ (q : QuantizationContext) (w mode : ℕ) (ctx : IsContext q) where
  quantized_pos :
      (n : ℕ) → IsInside q w (pos n) → quantize_ac q w mode (pos n) ≡ pos (level_of q mode n)
  unfolding quantize_ac scaled unsigned_abs
  quantized_pos n inside =
      let (up, lo, few, _) = sizes q w mode n ctx inside in
      let size = n * 2 ^ q.log_tx_scale in
      let word : size < 2 ^ 31 = omega (arith, inside.word) in
      rw
        (
          mul_pos n (2 ^ q.log_tx_scale),
          wrap_pos size word,
          add-zero size,
          copysign_pos (level_of q mode n) size (level_word q w mode n ctx inside),
        )
        (cast_pos w (level_of q mode n) few)

  quantized_minus :
      (n : ℕ)
      → IsInside q w (pos (suc n))
      → quantize_ac q w mode (negsuc n) ≡ minus (level_of q mode (suc n))
  unfolding quantize_ac scaled unsigned_abs
  quantized_minus n inside =
      let (up, lo, few, _) = sizes q w mode (suc n) ctx inside in
      let size = suc n * 2 ^ q.log_tx_scale in
      let word : size < 2 ^ 31 = omega (arith, inside.word) in
      rw
        (
          mul_minus (suc n) (2 ^ q.log_tx_scale),
          wrap_minus size word,
          abs_minus size,
          copysign-minus (level_of q mode (suc n)) size (level_word q w mode (suc n) ctx inside)
              (omega (arith, pow-pos q.log_tx_scale)),
        )
        (cast_minus w (level_of q mode (suc n)) few)

-- Neither is positive where the other is negative.
abbrev pub SameSign : ℤ → ℤ → Type 0
SameSign a b = (pos_part a * neg_part b ≡ 0) × (neg_part a * pos_part b ≡ 0)

-- For a context whose quantiser is above 0 and below 2 ^ 16, whose reciprocal is that of the
-- quantiser and whose offsets are below it, and a coefficient that leaves room for a quantiser
-- in its type and, scaled, in 31 bits, where the scale is at most the quantiser: what comes
-- back from `dequantize` for the level that `quantize` gives the coefficient has no other
-- sign, and its size times the scale is less than that of the coefficient plus a quantiser and
-- more than that of the coefficient less a quantiser and the scale.
pub dequantize_one-quantize_ac :
    (q : QuantizationContext) (w mode : ℕ) (c : ℤ)
    → IsContext q
    → IsInside q w c
    → SameSign (dequantize_one w q.log_tx_scale q.ac_quant (quantize_ac q w mode c)) c
      × (unsigned_abs (dequantize_one w q.log_tx_scale q.ac_quant (quantize_ac q w mode c))
            * 2 ^ q.log_tx_scale
          < unsigned_abs c * 2 ^ q.log_tx_scale + q.ac_quant)
      × (unsigned_abs c * 2 ^ q.log_tx_scale
          < unsigned_abs (dequantize_one w q.log_tx_scale q.ac_quant (quantize_ac q w mode c))
              * 2 ^ q.log_tx_scale
            + 2 ^ q.log_tx_scale
            + q.ac_quant)
unfolding unsigned_abs
dequantize_one-quantize_ac q w mode (pos n) ctx inside =
    let (_, _, _, small) = sizes q w mode n ctx inside in
    let back =
      ap (dequantize_one w q.log_tx_scale q.ac_quant) (quantized_pos q w mode ctx n inside)
      ∙ dequantize_pos w q.log_tx_scale q.ac_quant (level_of q mode n) (word q w mode n ctx inside)
          small in
    let (up, lo) = near q w mode n ctx inside in
    rw back ((omega arith, omega arith), omega (arith, up), omega (arith, lo))
dequantize_one-quantize_ac q w mode (negsuc n) ctx inside =
    let size = suc n in
    let at_size : IsInside q w (pos size) = record {
      word = omega (arith, inside.word);
      fits = omega (arith, inside.fits);
      fine = inside.fine;
    } in
    let (_, _, _, small) = sizes q w mode size ctx at_size in
    let back =
      ap (dequantize_one w q.log_tx_scale q.ac_quant) (quantized_minus q w mode ctx n at_size)
      ∙ dequantize_minus w q.log_tx_scale q.ac_quant (level_of q mode size) inside.fine
          (word q w mode size ctx at_size) small in
    let (up, lo) = near q w mode size ctx at_size in
    let v = size_back q mode size in
    rw (back, pos_minus v, neg_minus v)
      ((omega arith, omega arith), omega (arith, up), omega (arith, lo))
