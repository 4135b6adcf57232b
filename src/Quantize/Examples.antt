-- ===== src/Quantize/Examples.antt =====
-- The theorems on quantisation at concrete inputs.
use rav1e.Prelude.{◌+◌, ◌*◌, ◌/◌, ◌^◌, ◌<◌, ◌≡◌, refl, arith, true}
use rav1e.Prelude.Int.{pos, negsuc, ◌*ℤ◌, ◌+ℤ◌, ◌-ℤ◌}
use rav1e.O3yv.Residual.{wrap32, sub_i32, mul_i32, add_i32}
use rav1e.Quantize.Context.{
  Lookup, QuantizationContext, tx_8x8, tx_64x64, area, width_log2, height_log2, get_log_tx_scale,
  lookup_q, update,
}
use rav1e.Quantize.Coefficients.{
  cast_from, unsigned_abs, copysign, scaled, level, quantize_ac, dequantize_one,
}
use rav1e.Tiling.Info.{◌>>=◌}
use rav1e.Tiling.Examples.{aligned}
use rav1e.Quantize.Coefficients.{
  quantize, quantize_dc, deadzone, last_large, eob_of, next_mode, ac_loop,
}
use rav1e.Prelude.{[], ◌∷◌, some}
use rav1e.Quantize.Levels.{update-IsContext}
use rav1e.Quantize.Returned.{SameSign, dequantize_one-quantize_ac}
use rav1e.Ec.Format.{leading_zeros}
use rav1e.Quantize.Division.{is_power_of_two, divu_gen, divu_pair}
use rav1e.Quantize.Exact.{divu_pair-divu_gen}

-- Factors rounded up and down, and a power of two.
quotients :
    (divu_pair 1000 (divu_gen 7) ≡ 142)
    × (divu_pair 1000 (divu_gen 5) ≡ 200)
    × (divu_pair 1000 (divu_gen 8) ≡ 125)
unfolding divu_gen divu_pair is_power_of_two leading_zeros
quotients = (refl, refl, refl)

divu_pair-divu_gen_example : divu_pair 0xFFFF_FFFF (divu_gen 1336) ≡ 0xFFFF_FFFF / 1336
divu_pair-divu_gen_example =
    divu_pair-divu_gen 1336 0xFFFF_FFFF (omega arith) (omega arith) (omega arith)

-- The same quantiser everywhere.
abbrev forty : Lookup
forty = record {
  entry = λ _ _. 40;
  entry_pos = λ _ _. omega arith;
  entry_word = λ _ _. omega arith;
}

abbrev context : QuantizationContext
context = update forty forty 100 tx_8x8 true 8 (pos 0) (pos 0)

scales : (get_log_tx_scale tx_8x8 ≡ 0) × (get_log_tx_scale tx_64x64 ≡ 2)
unfolding get_log_tx_scale area width_log2 height_log2
scales = (refl, refl)

there_and_back :
    (quantize_ac context 15 1 (negsuc 99) ≡ negsuc 1)
    × (dequantize_one 15 0 40 (negsuc 1) ≡ negsuc 79)
unfolding update lookup_q get_log_tx_scale area width_log2 height_log2 quantize_ac scaled copysign
    cast_from level unsigned_abs divu_gen divu_pair is_power_of_two leading_zeros dequantize_one
    wrap32 sub_i32 mul_i32 add_i32 ◌*ℤ◌ ◌+ℤ◌ ◌-ℤ◌
there_and_back = (refl, refl)

dequantize_one-quantize_ac_example :
    SameSign (dequantize_one 15 0 40 (quantize_ac context 15 1 (negsuc 99))) (negsuc 99)
    × (unsigned_abs (dequantize_one 15 0 40 (quantize_ac context 15 1 (negsuc 99))) * 2 ^ 0
        < unsigned_abs (negsuc 99) * 2 ^ 0 + 40)
    × (unsigned_abs (negsuc 99) * 2 ^ 0
        < unsigned_abs (dequantize_one 15 0 40 (quantize_ac context 15 1 (negsuc 99))) * 2 ^ 0
          + 2 ^ 0
          + 40)
unfolding update lookup_q get_log_tx_scale area width_log2 height_log2 unsigned_abs
dequantize_one-quantize_ac_example =
    dequantize_one-quantize_ac context 15 1 (negsuc 99)
      (update-IsContext forty forty 100 tx_8x8 true 8 (pos 0) (pos 0))
      (record { word = omega arith; fits = omega arith; fine = omega arith })

-- The end of the block is behind the last coefficient outside the dead zone.
small_block :
    quantize aligned context 15
      (0 ∷ 1 ∷ 2 ∷ 3 ∷ [])
      (0 ∷ 1 ∷ 2 ∷ 3 ∷ [])
      (pos 100 ∷ negsuc 99 ∷ pos 5 ∷ pos 0 ∷ [])
      (pos 0 ∷ pos 0 ∷ pos 0 ∷ pos 0 ∷ [])
    ≡ some ((pos 2 ∷ negsuc 1 ∷ pos 0 ∷ pos 0 ∷ []), 2)
unfolding quantize quantize_dc deadzone last_large eob_of next_mode ac_loop ◌>>=◌ update lookup_q
    get_log_tx_scale area width_log2 height_log2 quantize_ac scaled copysign cast_from level
    unsigned_abs divu_gen divu_pair is_power_of_two leading_zeros wrap32 sub_i32 mul_i32 add_i32
    ◌*ℤ◌ ◌+ℤ◌ ◌-ℤ◌
small_block = refl
