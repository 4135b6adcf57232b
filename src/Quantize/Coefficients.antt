-- ===== src/Quantize/Coefficients.antt =====
-- quantize and dequantize of src/quantize/mod.rs. An `Option` is `none` where the source panics.
use package.rav1e.Prelude.{
  ℕ, ◌+◌, ◌-◌, ◌*◌, ◌%◌, ◌^◌, max, ltb, leb, ◌==◌, not, ◌&&◌, if◌then◌else◌, List, [], ◌∷◌,
  get_elem?, set, take, drop, length, Option, some,
}
use package.rav1e.Prelude.Int.{ℤ, pos, negsuc, ◌*ℤ◌, ltb_ℤ, pos_part, neg_part}
use package.rav1e.O3yv.Motion.{shr}
use package.rav1e.O3yv.Residual.{wrap32, add_i32, sub_i32, mul_i32}
use package.rav1e.Tiling.Info.{Align, ◌>>=◌, ensure}
use package.rav1e.Quantize.Division.{divu_pair}
use package.rav1e.Quantize.Context.{TxSize, Lookup, QuantizationContext, get_log_tx_scale, lookup_q}

-- `T::cast_from` of an `i32` into a coefficient of `w + 1` bits.
unfoldable pub cast_from : ℕ → ℤ → ℤ
cast_from w (pos n) =
    let v = n % 2 ^ (w + 1) in if ltb v (2 ^ w) then pos v else negsuc (2 ^ (w + 1) - 1 - v)
cast_from w (negsuc n) =
    let v = n % 2 ^ (w + 1) in if ltb v (2 ^ w) then negsuc v else pos (2 ^ (w + 1) - 1 - v)

unfoldable pub unsigned_abs : ℤ → ℕ
unsigned_abs z = pos_part z + neg_part z

unfoldable pub copysign : ℕ → ℤ → ℤ
copysign value signed =
    if ltb_ℤ signed (pos 0) then sub_i32 (pos 0) (wrap32 (pos value)) else wrap32 (pos value)

-- `i32::cast_from(c) << log_tx_scale`
unfoldable pub scaled : ℕ → ℤ → ℤ
scaled log_tx_scale c = wrap32 (c *ℤ pos (2 ^ log_tx_scale))

unfoldable pub quantize_dc : QuantizationContext → ℕ → ℤ → ℤ
quantize_dc q w c =
    let coeff = scaled q.log_tx_scale c in
    cast_from w (copysign (divu_pair (unsigned_abs coeff + q.dc_offset) q.dc_mul_add) coeff)

unfoldable pub deadzone : Align → QuantizationContext → ℕ → ℤ
deadzone A q w = cast_from w (pos (A.align_and_shift (q.ac_quant - q.ac_offset_eob) q.log_tx_scale))

-- The highest place in scan order of a coefficient outside the dead zone.
unfoldable pub last_large : ℕ → ℤ → List ℕ → List ℤ → ℕ
last_large w zone [] coeffs = 0
last_large w zone (i ∷ is) [] = 0
last_large w zone (i ∷ is) (c ∷ cs) =
    max (if ltb_ℤ (cast_from w (pos (unsigned_abs c))) zone then 0 else i) (last_large w zone is cs)

unfoldable pub eob_of : ℕ → ℤ → ℕ
eob_of eob_minus_one dc =
    if ltb 0 eob_minus_one then eob_minus_one + 1 else if unsigned_abs dc == 0 then 0 else 1

-- The absolute level of one coefficient, and the mode for the next one.
unfoldable pub level : QuantizationContext → ℕ → ℕ → ℕ
level q level_mode abs_coeff =
    let level0 = divu_pair abs_coeff q.ac_mul_add in
    let offset = if ltb (1 - level_mode) level0 then q.ac_offset1 else q.ac_offset0 in
    level0 + (if leb ((level0 + 1) * q.ac_quant) (abs_coeff + offset) then 1 else 0)

unfoldable pub next_mode : ℕ → ℕ → ℕ
next_mode level_mode abs_qcoeff =
    if not (level_mode == 0) && (abs_qcoeff == 0)
    then 0
    else if ltb 1 abs_qcoeff
    then 1
    else level_mode

unfoldable pub quantize_ac : QuantizationContext → ℕ → ℕ → ℤ → ℤ
quantize_ac q w level_mode c =
    let coeff = scaled q.log_tx_scale c in
    cast_from w (copysign (level q level_mode (unsigned_abs coeff)) coeff)

-- The loop over places, which are given by the scan order.
unfoldable pub ac_loop : QuantizationContext → ℕ → List ℤ → List ℕ → ℕ → List ℤ → Option (List ℤ)
ac_loop q w coeffs [] level_mode qcoeffs = some qcoeffs
ac_loop q w coeffs (p ∷ ps) level_mode qcoeffs = get_elem? coeffs p >>= λ c.
    ensure (ltb p (length qcoeffs)) >>= λ _.
    let next = next_mode level_mode (level q level_mode (unsigned_abs (scaled q.log_tx_scale c))) in
    ac_loop q w coeffs ps next (set qcoeffs p (quantize_ac q w level_mode c))

unfoldable pub quantize :
    Align → QuantizationContext → ℕ → List ℕ → List ℕ → List ℤ → List ℤ → Option (List ℤ × ℕ)
quantize A q w scan iscan coeffs qcoeffs = get_elem? coeffs 0 >>= λ c.
    ensure (ltb 0 (length qcoeffs)) >>= λ _.
    let dc = quantize_dc q w c in
    let eob = eob_of (last_large w (deadzone A q w) iscan coeffs) dc in
    ac_loop q w coeffs (drop 1 (take eob scan)) 1 (set qcoeffs 0 dc) >>= λ out. some (out, eob)

-- The value that `dequantize` writes for a coefficient and its quantiser.
unfoldable pub dequantize_one : ℕ → ℕ → ℕ → ℤ → ℤ
dequantize_one w log_tx_scale quant c =
    let offset = 2 ^ log_tx_scale - 1 in
    let bias = if ltb_ℤ c (pos 0) then offset else 0 in
    cast_from w (shr (add_i32 (mul_i32 c (pos quant)) (pos bias)) log_tx_scale)

unfoldable pub dequantize_from : ℕ → ℕ → ℕ → ℕ → ℕ → List ℤ → List ℤ
dequantize_from w log_tx_scale dc_quant ac_quant i [] = []
dequantize_from w log_tx_scale dc_quant ac_quant i (c ∷ cs) =
    dequantize_one w log_tx_scale (if i == 0 then dc_quant else ac_quant) c
    ∷ dequantize_from w log_tx_scale dc_quant ac_quant (i + 1) cs

-- As many values as there is room for.
unfoldable pub dequantize : Lookup → Lookup → ℕ → ℕ → List ℤ → ℕ → TxSize → ℕ → ℤ → ℤ → List ℤ
dequantize dc_table ac_table w qindex coeffs room tx_size bit_depth dc_delta_q ac_delta_q =
    dequantize_from w (get_log_tx_scale tx_size) (lookup_q dc_table qindex dc_delta_q bit_depth)
      (lookup_q ac_table qindex ac_delta_q bit_depth) 0 (take room coeffs)
