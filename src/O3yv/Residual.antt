-- ===== src/O3yv/Residual.antt =====
-- Residuals of minidecoder/src/lib.rs (lines 1315 to 1517): raw blocks, DC blocks and inverse
-- transforms of 4 by 4 samples, added to the prediction.
-- An `i32` operation wraps, as in a release build; a checked build would panic there.
pub mod Safe
pub mod Direct
use package.rav1e.Prelude.{
  ℕ, zero, suc, ◌+◌, ◌-◌, ◌*◌, ◌/◌, ◌%◌, ◌^◌, List, [], ◌∷◌, ltb, leb, ◌==◌, not, ◌&&◌,
  if◌then◌else◌, length, get_or, set, replicate, bit_and,
}
use package.rav1e.Prelude.{M, ok, err, fault, ◌>>=◌, ◌>>◌, done, Bool}
use package.rav1e.Prelude.Int.{ℤ, pos, negsuc, ◌+ℤ◌, ◌-ℤ◌, ◌*ℤ◌, ltb_ℤ}
use package.rav1e.O3yv.Format.{dc_clip_delta_min, dc_clip_delta_max, zigzag}
use package.rav1e.O3yv.Frame.{is_zero}
use package.rav1e.O3yv.Motion.{shr, to_usize, clamp_i32}
use package.rav1e.O3yv.Pixels.{load_at, store_at}

-- The bit pattern of an integer on 32 bits, and the `i32` with a pattern.
abbrev pub pattern32 : ℤ → ℕ
pattern32 (pos n) = n % 2 ^ 32
pattern32 (negsuc n) = 2 ^ 32 - 1 - n % 2 ^ 32

abbrev pub signed32 : ℕ → ℤ
signed32 v = if ltb v (2 ^ 31) then pos v else negsuc (2 ^ 32 - 1 - v)

unfoldable pub wrap32 : ℤ → ℤ
wrap32 z = signed32 (pattern32 z)

unfoldable pub add_i32 : ℤ → ℤ → ℤ
add_i32 a b = wrap32 (a +ℤ b)

unfoldable pub sub_i32 : ℤ → ℤ → ℤ
sub_i32 a b = wrap32 (a -ℤ b)

unfoldable pub mul_i32 : ℤ → ℤ → ℤ
mul_i32 a b = wrap32 (a *ℤ b)

-- `v.clamp(0, 255) as u8`
unfoldable pub clip_u8 : ℤ → ℕ
clip_u8 v = if ltb_ℤ v (pos 0) then 0 else if ltb_ℤ (pos 255) v then 255 else to_usize v

-- A row of `DC_CLIP_TABLE`: `n` entries from `sample` on, as the `const fn` fills them.
unfoldable pub dc_clip_row : ℤ → ℕ → ℕ → List ℕ
dc_clip_row delta zero sample = []
dc_clip_row delta (suc n) sample =
    let value = pos sample +ℤ delta in
    (if ltb_ℤ value (pos 0) then 0 else if ltb_ℤ (pos 255) value then 255 else to_usize value)
    ∷ dc_clip_row delta n (sample + 1)

unfoldable pub dc_clip_rows : ℕ → ℤ → List (List ℕ)
dc_clip_rows zero delta = []
dc_clip_rows (suc n) delta = dc_clip_row delta 256 0 ∷ dc_clip_rows n (delta +ℤ pos 1)

unfoldable pub build_dc_clip_table : List (List ℕ)
build_dc_clip_table = dc_clip_rows 33 dc_clip_delta_min

unfoldable pub dc_clip_table_at : {S : Type 0} → ℕ → M S (List ℕ)
dc_clip_table_at index s =
    if ltb index (length build_dc_clip_table)
    then ok s (get_or build_dc_clip_table index [])
    else fault

unfoldable pub table_at : {S : Type 0} → List ℕ → ℕ → M S ℕ
table_at table sample s = if ltb sample (length table) then ok s (get_or table sample 0) else fault

-- `store_at(plane, off, f(load_at(plane, off)))`
abbrev pub update_at : ℕ → (ℕ → M (List ℕ) ℕ) → M (List ℕ) (Unit {0})
update_at off f = do v ← load_at off; w ← f v; store_at off w

unfoldable pub add_dc_row4_table : ℕ → List ℕ → M (List ℕ) (Unit {0})
add_dc_row4_table idx table = do
  update_at idx (table_at table)
  update_at (idx + 1) (table_at table)
  update_at (idx + 2) (table_at table)
  update_at (idx + 3) (table_at table)

abbrev pub add_clip : ℤ → ℕ → M (List ℕ) ℕ
add_clip delta v = done (clip_u8 (add_i32 (pos v) delta))

unfoldable pub add_dc_row4 : ℕ → ℤ → M (List ℕ) (Unit {0})
add_dc_row4 idx delta = do
  update_at idx (add_clip delta)
  update_at (idx + 1) (add_clip delta)
  update_at (idx + 2) (add_clip delta)
  update_at (idx + 3) (add_clip delta)

-- A test of the range before the table is used.
abbrev pub in_clip_range : ℤ → Bool
in_clip_range delta = not (ltb_ℤ delta dc_clip_delta_min) && not (ltb_ℤ dc_clip_delta_max delta)

unfoldable pub add_dc_block : ℕ → ℕ → ℤ → M (List ℕ) (Unit {0})
add_dc_block stride base coeff =
    let delta = shr (add_i32 coeff (pos 4)) 3 in
    let by_table = (do
      table ← dc_clip_table_at (to_usize (sub_i32 delta dc_clip_delta_min))
      add_dc_row4_table base table
      add_dc_row4_table (base + stride) table
      add_dc_row4_table (base + stride * 2) table
      add_dc_row4_table (base + stride * 3) table) in
    let by_sum = (do
      add_dc_row4 base delta
      add_dc_row4 (base + stride) delta
      add_dc_row4 (base + stride * 2) delta
      add_dc_row4 (base + stride * 3) delta) in
    if is_zero delta then done tt else if in_clip_range delta then by_table else by_sum
