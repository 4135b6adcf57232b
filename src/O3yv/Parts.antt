-- ===== src/O3yv/Parts.antt =====
-- Macroblocks in parts, each with a vector of its own, and raw macroblocks
-- (minidecoder/src/lib.rs, lines 1685 to 1840 and 2138 to 2175).
pub mod Safe
use package.rav1e.Prelude.{
  ℕ, zero, suc, ◌+◌, ◌-◌, ◌*◌, ◌/◌, ◌%◌, List, [], ◌∷◌, ◌++◌, ltb, leb, min, if◌then◌else◌, length,
  get_or,
}
use package.rav1e.Prelude.{M, ok, fault, ◌>>=◌, ◌>>◌, done}
use package.rav1e.Prelude.Int.{ℤ, pos, negsuc, ◌+ℤ◌}
use package.rav1e.Prelude.Loops.{for_each, for_range}
use package.rav1e.O3yv.Format.{eye_w, eye_h, chroma_w, chroma_h, mb_w}
use package.rav1e.O3yv.Frame.{EyeFrame, Mv, on_y, on_cb, on_cr}
use package.rav1e.O3yv.Reader.{slice}
use package.rav1e.O3yv.Pixels.{copy_at_16_by_4, copy_at_8_by_4}
use package.rav1e.O3yv.Motion.{shr, copy_rect}

pub data VbsShape : Type 0 where
  split16x8 split8x16 split8x8 : VbsShape

abbrev pub negate : ℕ → ℤ
negate zero = pos zero
negate (suc k) = negsuc k

unfoldable pub round_div2_i32 : ℤ → ℤ
round_div2_i32 (pos n) = pos ((n + 1) / 2)
round_div2_i32 (negsuc n) = negate ((n + 1 + 1) / 2)

unfoldable pub round_div4_i32 : ℤ → ℤ
round_div4_i32 (pos n) = pos ((n + 2) / 4)
round_div4_i32 (negsuc n) = negate ((n + 1 + 2) / 4)

-- `mvs[i]`: out of range it panics.
abbrev pub mv_at : {S : Type 0} → List Mv → ℕ → M S Mv
mv_at mvs i s =
    if ltb i (length mvs) then ok s (get_or mvs i (record { x = pos 0; y = pos 0 })) else fault

-- The luma rectangle of one part.
abbrev pub copy_part : EyeFrame → List Mv → ℕ → ℕ → ℕ → ℕ → ℕ → M EyeFrame (Unit {0})
copy_part src mvs i x y bw bh = do
  mv ← mv_at mvs i
  on_y (copy_rect eye_w eye_h src.y x y bw bh mv.x mv.y)

abbrev pub average2 : {S : Type 0} → List Mv → M S Mv
average2 mvs = do
  m0 ← mv_at mvs 0
  m1 ← mv_at mvs 1
  done (record { x = round_div2_i32 (m0.x +ℤ m1.x); y = round_div2_i32 (m0.y +ℤ m1.y) })

-- The luma of each part, and the mean of the vectors.
unfoldable pub copy_luma_parts : EyeFrame → ℕ → ℕ → VbsShape → List Mv → M EyeFrame Mv
copy_luma_parts src base_x base_y split16x8 mvs = do
  copy_part src mvs 0 base_x base_y 16 8
  copy_part src mvs 1 base_x (base_y + 8) 16 8
  average2 mvs
copy_luma_parts src base_x base_y split8x16 mvs = do
  copy_part src mvs 0 base_x base_y 8 16
  copy_part src mvs 1 (base_x + 8) base_y 8 16
  average2 mvs
copy_luma_parts src base_x base_y split8x8 mvs = do
  for_each 2 0 λ part_y. for_each 2 0 λ part_x.
      copy_part src mvs (part_y * 2 + part_x) (base_x + part_x * 8) (base_y + part_y * 8) 8 8
  m0 ← mv_at mvs 0
  m1 ← mv_at mvs 1
  m2 ← mv_at mvs 2
  m3 ← mv_at mvs 3
  done (record {
    x = round_div4_i32 (m0.x +ℤ m1.x +ℤ m2.x +ℤ m3.x);
    y = round_div4_i32 (m0.y +ℤ m1.y +ℤ m2.y +ℤ m3.y);
  })

unfoldable pub copy_vbs_from_reference : EyeFrame → ℕ → VbsShape → List Mv → M EyeFrame (Unit {0})
copy_vbs_from_reference src mb_index shape mvs = do
  let mb_x = mb_index % mb_w
  let mb_y = mb_index / mb_w
  avg ← copy_luma_parts src (mb_x * 16) (mb_y * 16) shape mvs
  on_cb (copy_rect chroma_w chroma_h src.cb (mb_x * 8) (mb_y * 8) 8 8 (shr avg.x 1) (shr avg.y 1))
  on_cr (copy_rect chroma_w chroma_h src.cr (mb_x * 8) (mb_y * 8) 8 8 (shr avg.x 1) (shr avg.y 1))

-- `off` is 16 times the luma rows done, then 8 times the chroma rows.
unfoldable pub write_raw_mb : ℕ → List ℕ → M EyeFrame (Unit {0})
write_raw_mb mb_index bytes = do
  let mb_x = mb_index % mb_w
  let mb_y = mb_index / mb_w
  for_each 16 0
      λ row. on_y (copy_at_16_by_4 ((mb_y * 16 + row) * eye_w + mb_x * 16) bytes (16 * row))
  for_each 8 0
      λ row. on_cb (copy_at_8_by_4 ((mb_y * 8 + row) * chroma_w + mb_x * 8) bytes (256 + 8 * row))
  for_each 8 0
      λ row. on_cr (copy_at_8_by_4 ((mb_y * 8 + row) * chroma_w + mb_x * 8) bytes (320 + 8 * row))

-- Slice indices out of range panic: they are in range for a whole picture.
unfoldable pub read_raw_mb : EyeFrame → ℕ → List ℕ → List ℕ
read_raw_mb eye mb_index out =
    let mb_x = mb_index % mb_w in
    let mb_y = mb_index / mb_w in
    let luma =
      for_range 16 0 (λ row out. out ++ slice eye.y ((mb_y * 16 + row) * eye_w + mb_x * 16) 16)
        out in
    let blue =
      for_range 8 0 (λ row out. out ++ slice eye.cb ((mb_y * 8 + row) * chroma_w + mb_x * 8) 8)
        luma in
    for_range 8 0 (λ row out. out ++ slice eye.cr ((mb_y * 8 + row) * chroma_w + mb_x * 8) 8) blue
