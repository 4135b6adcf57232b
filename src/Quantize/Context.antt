-- ===== src/Quantize/Context.antt =====
-- QuantizationContext and its update: src/quantize/mod.rs, with the sizes of src/transform/mod.rs.
use Prim.Native.Nat.{bit_xor}
use package.rav1e.Prelude.{ℕ, ◌+◌, ◌*◌, ◌/◌, ◌^◌, ◌<◌, min, Bool, ltb, if◌then◌else◌}
use package.rav1e.Prelude.Int.{ℤ, pos, ◌+ℤ◌, pos_part}
use package.rav1e.Quantize.Division.{MulAdd, divu_gen}

pub data TxSize : Type 0 where
  tx_4x4 tx_8x8 tx_16x16 tx_32x32 tx_64x64 tx_4x8 tx_8x4 tx_8x16 tx_16x8 tx_16x32 : TxSize
  tx_32x16 tx_32x64 tx_64x32 tx_4x16 tx_16x4 tx_8x32 tx_32x8 tx_16x64 tx_64x16 : TxSize

unfoldable pub width_log2 : TxSize → ℕ
width_log2 tx_4x4 = 2
width_log2 tx_4x8 = 2
width_log2 tx_4x16 = 2
width_log2 tx_8x8 = 3
width_log2 tx_8x4 = 3
width_log2 tx_8x16 = 3
width_log2 tx_8x32 = 3
width_log2 tx_16x16 = 4
width_log2 tx_16x8 = 4
width_log2 tx_16x32 = 4
width_log2 tx_16x4 = 4
width_log2 tx_16x64 = 4
width_log2 tx_32x32 = 5
width_log2 tx_32x16 = 5
width_log2 tx_32x64 = 5
width_log2 tx_32x8 = 5
width_log2 tx_64x64 = 6
width_log2 tx_64x32 = 6
width_log2 tx_64x16 = 6

unfoldable pub height_log2 : TxSize → ℕ
height_log2 tx_4x4 = 2
height_log2 tx_8x4 = 2
height_log2 tx_16x4 = 2
height_log2 tx_8x8 = 3
height_log2 tx_4x8 = 3
height_log2 tx_16x8 = 3
height_log2 tx_32x8 = 3
height_log2 tx_16x16 = 4
height_log2 tx_8x16 = 4
height_log2 tx_32x16 = 4
height_log2 tx_4x16 = 4
height_log2 tx_64x16 = 4
height_log2 tx_32x32 = 5
height_log2 tx_16x32 = 5
height_log2 tx_64x32 = 5
height_log2 tx_8x32 = 5
height_log2 tx_64x64 = 6
height_log2 tx_32x64 = 6
height_log2 tx_16x64 = 6

unfoldable pub area : TxSize → ℕ
area t = 2 ^ (width_log2 t + height_log2 t)

unfoldable pub get_log_tx_scale : TxSize → ℕ
get_log_tx_scale t =
    let num_pixels = area t in
    (if ltb 256 num_pixels then 1 else 0) + (if ltb 1024 num_pixels then 1 else 0)

-- A table of quantisers for a depth of 8, 10 or 12 bits, of which no entry is zero.
pub record Lookup : Type 0 where
  pub entry : ℕ → ℕ → ℕ
  pub entry_pos : (bd i : ℕ) → 0 < entry bd i
  pub entry_word : (bd i : ℕ) → entry bd i < 2 ^ 16

-- `bd`: 0, 1 and 2 for depths of 8, 10 and 12 bits.
unfoldable pub depth_index : ℕ → ℕ
depth_index bit_depth = min (bit_xor bit_depth 8 / 2) 2

-- `dc_q` and `ac_q`, by the table.
unfoldable pub lookup_q : Lookup → ℕ → ℤ → ℕ → ℕ
lookup_q table qindex delta_q bit_depth =
    table.entry (depth_index bit_depth) (min (pos_part (pos qindex +ℤ delta_q)) 255)

pub record QuantizationContext : Type 0 where
  pub log_tx_scale : ℕ
  pub dc_quant : ℕ
  pub dc_offset : ℕ
  pub dc_mul_add : MulAdd
  pub ac_quant : ℕ
  pub ac_offset_eob : ℕ
  pub ac_offset0 : ℕ
  pub ac_offset1 : ℕ
  pub ac_mul_add : MulAdd

unfoldable pub update : Lookup → Lookup → ℕ → TxSize → Bool → ℕ → ℤ → ℤ → QuantizationContext
update dc_table ac_table qindex tx_size is_intra bit_depth dc_delta_q ac_delta_q =
    let dc_quant = lookup_q dc_table qindex dc_delta_q bit_depth in
    let ac_quant = lookup_q ac_table qindex ac_delta_q bit_depth in
    record {
      log_tx_scale = get_log_tx_scale tx_size;
      dc_quant = dc_quant;
      dc_offset = dc_quant * (if is_intra then 109 else 108) / 256;
      dc_mul_add = divu_gen dc_quant;
      ac_quant = ac_quant;
      ac_offset_eob = ac_quant * (if is_intra then 88 else 44) / 256;
      ac_offset0 = ac_quant * (if is_intra then 98 else 97) / 256;
      ac_offset1 = ac_quant * (if is_intra then 109 else 108) / 256;
      ac_mul_add = divu_gen ac_quant;
    }
