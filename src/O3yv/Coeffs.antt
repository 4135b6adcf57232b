-- ===== src/O3yv/Coeffs.antt =====
-- Coded blocks of minidecoder/src/lib.rs (lines 1315 to 1428): the block mask, the tags, and the
-- coefficients behind them.
pub mod Safe
pub mod Macroblock
use package.rav1e.Prelude.{
  ℕ, zero, suc, ◌+◌, ◌-◌, ◌*◌, ◌/◌, ◌%◌, ◌^◌, List, [], ◌∷◌, ltb, leb, ◌==◌, not, if◌then◌else◌,
  length, get_or, set, replicate, bit_and,
}
use package.rav1e.Prelude.{
  M, ok, err, fault, ◌>>=◌, ◌>>◌, done, fail, invalid, eof, zoom, refuse_if,
}
use package.rav1e.Prelude.Int.{ℤ, pos}
use package.rav1e.O3yv.Format.{
  eye_w, chroma_w, mb_w, zigzag, tag_dc_only_s8, tag_dc_only_s16, tag_ac_mask_s8, tag_ac_mask_s16,
  tag_raw_4x4,
}
use package.rav1e.O3yv.Frame.{EyeFrame}
use package.rav1e.O3yv.Reader.{Reader, u8, i8, u16, i16, u32}
use package.rav1e.O3yv.Pixels.{copy_at_4}
use package.rav1e.O3yv.Residual.{add_dc_block}
use package.rav1e.O3yv.Transform.{add_idct_block}

-- `trailing_zeros` of a word of `width` bits.
unfoldable pub trailing_zeros : ℕ → ℕ → ℕ
trailing_zeros zero v = 0
trailing_zeros (suc width) v =
    let rest = trailing_zeros width (v / 2) in if v % 2 == 1 then 0 else suc rest

-- `v & (v - 1)`: the lowest set bit is cleared.
abbrev pub clear_lowest : ℕ → ℕ
clear_lowest v = bit_and v (v - 1)

unfoldable pub zigzag_at : {S : Type 0} → ℕ → M S ℕ
zigzag_at index s = if ltb index (length zigzag) then ok s (get_or zigzag index 0) else fault

unfoldable pub store_coeff : {S : Type 0} → List ℤ → ℕ → ℤ → M S (List ℤ)
store_coeff coeffs index value s =
    if ltb index (length coeffs) then ok s (set coeffs index value) else fault

-- The loop over the set bits of `nz`; `read` is `i8` or `i16`.
unfoldable pub read_coeffs : M Reader ℤ → ℕ → ℕ → List ℤ → M Reader (List ℤ)
read_coeffs read zero nz coeffs = if nz == 0 then done coeffs else (λ _. fault)
read_coeffs read (suc fuel) nz coeffs =
    let round = (do
      index ← zigzag_at (trailing_zeros 16 nz)
      value ← read
      coeffs' ← store_coeff coeffs index value
      read_coeffs read fuel (clear_lowest nz) coeffs') in
    if nz == 0 then done coeffs else round

-- A plane, and the stream of its residuals.
pub record BlockState : Type 0 where
  pub plane : List ℕ
  pub residual : Reader

abbrev pub on_residual : {A : Type 0} → M Reader A → M BlockState A
on_residual = zoom (λ s. s.residual) (λ r s. record s { residual = r })

abbrev pub on_plane : {A : Type 0} → M (List ℕ) A → M BlockState A
on_plane = zoom (λ s. s.plane) (λ p s. record s { plane = p })

-- Four words of the reader's slice go to the four rows.
unfoldable pub copy_raw_4x4_from_reader : ℕ → ℕ → M BlockState (Unit {0})
copy_raw_4x4_from_reader stride base s =
    let bytes = s.residual.bytes in
    let start = s.residual.pos in
    let rows = (do
      on_plane (copy_at_4 base bytes start)
      on_plane (copy_at_4 (base + stride) bytes (start + 4))
      on_plane (copy_at_4 (base + stride + stride) bytes (start + 8))
      on_plane (copy_at_4 (base + stride + stride + stride) bytes (start + 12))) in
    if ltb (length bytes) (start + 16)
    then err s eof
    else rows (record s { residual = record (s.residual) { pos = start + 16 } })

abbrev pub no_coeffs : List ℤ
no_coeffs = replicate 16 (pos 0)

-- A block with a mask of 16 bits and a coefficient for each of them.
abbrev pub apply_ac_block : M Reader ℤ → ℕ → ℕ → M BlockState (Unit {0})
apply_ac_block read stride base = do
  nz_mask ← on_residual u16
  coeffs ← on_residual (read_coeffs read nz_mask nz_mask no_coeffs)
  on_plane (add_idct_block stride base coeffs)

abbrev pub apply_dc_block : M Reader ℤ → ℕ → ℕ → M BlockState (Unit {0})
apply_dc_block read stride base = do
  coeff ← on_residual read
  on_plane (add_dc_block stride base coeff)

abbrev pub apply_tag : ℕ → ℕ → ℕ → M BlockState (Unit {0})
apply_tag tag stride base =
    if tag == tag_raw_4x4
    then copy_raw_4x4_from_reader stride base
    else if tag == tag_dc_only_s8
    then apply_dc_block i8 stride base
    else if tag == tag_dc_only_s16
    then apply_dc_block i16 stride base
    else if tag == tag_ac_mask_s8
    then apply_ac_block i8 stride base
    else if tag == tag_ac_mask_s16
    then apply_ac_block i16 stride base
    else fail invalid

unfoldable pub apply_block : ℕ → ℕ → M BlockState (Unit {0})
apply_block stride base = do tag ← on_residual u8; apply_tag tag stride base

-- A picture, and the stream of its residuals.
pub record EyeState : Type 0 where
  pub current : EyeFrame
  pub residual : Reader

abbrev pub on_luma : {A : Type 0} → M BlockState A → M EyeState A
on_luma =
    zoom (λ s. record { plane = s.current.y; residual = s.residual })
      (λ b s. record { current = record (s.current) { y = b.plane }; residual = b.residual })

abbrev pub on_blue : {A : Type 0} → M BlockState A → M EyeState A
on_blue =
    zoom (λ s. record { plane = s.current.cb; residual = s.residual })
      (λ b s. record { current = record (s.current) { cb = b.plane }; residual = b.residual })

abbrev pub on_red : {A : Type 0} → M BlockState A → M EyeState A
on_red =
    zoom (λ s. record { plane = s.current.cr; residual = s.residual })
      (λ b s. record { current = record (s.current) { cr = b.plane }; residual = b.residual })

-- Blocks 0 to 15 are luma, 16 to 19 are Cb, the others Cr.
unfoldable pub apply_coded : ℕ → ℕ → ℕ → M EyeState (Unit {0})
apply_coded y_base c_base block =
    if ltb block 16
    then on_luma (apply_block eye_w (y_base + block / 4 * 4 * eye_w + block % 4 * 4))
    else if ltb block 20
    then on_blue
        (apply_block chroma_w (c_base + (block - 16) / 2 * 4 * chroma_w + (block - 16) % 2 * 4))
    else on_red
        (apply_block chroma_w (c_base + (block - 20) / 2 * 4 * chroma_w + (block - 20) % 2 * 4))

-- The loop over the set bits of the mask.
unfoldable pub apply_coded_blocks : ℕ → ℕ → ℕ → ℕ → M EyeState (Unit {0})
apply_coded_blocks y_base c_base zero coded = if coded == 0 then done tt else (λ _. fault)
apply_coded_blocks y_base c_base (suc fuel) coded =
    let round = (do
      apply_coded y_base c_base (trailing_zeros 32 coded)
      apply_coded_blocks y_base c_base fuel (clear_lowest coded)) in
    if coded == 0 then done tt else round

unfoldable pub apply_mb_residual : ℕ → M EyeState (Unit {0})
apply_mb_residual mb_index = do
  mask ← zoom (λ s. s.residual) (λ r s. record s { residual = r }) u32
  let mb_x = mb_index % mb_w
  let mb_y = mb_index / mb_w
  let blocks =
      apply_coded_blocks (mb_y * 16 * eye_w + mb_x * 16) (mb_y * 8 * chroma_w + mb_x * 8) mask mask
  let checked = refuse_if (not (bit_and mask 0xff00_0000 == 0)) invalid >> blocks
  if mask == 0 then done tt else checked
