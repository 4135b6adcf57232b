-- ===== src/O3yv/Blocks.antt =====
-- Macroblocks of minidecoder/src/lib.rs: a whole picture, one block of 16 by 16 luma pixels, a run
-- of blocks or the parts of one, predicted from the reference picture.
pub mod Safe
use package.rav1e.Prelude.{
  ℕ, zero, suc, ◌+◌, ◌-◌, ◌*◌, ◌/◌, ◌%◌, List, [], ◌∷◌, ◌++◌, ltb, leb, min, if◌then◌else◌, take,
  drop,
}
use package.rav1e.Prelude.{M, ok, fault, ◌>>=◌, ◌>>◌, done}
use package.rav1e.Prelude.Int.{ℤ, pos, negsuc, ◌+ℤ◌}
use package.rav1e.Prelude.Loops.{for_each, for_range}
use package.rav1e.O3yv.Format.{
  eye_w, eye_h, chroma_w, chroma_h, eye_y_bytes, eye_chroma_bytes, mb_w,
}
use package.rav1e.O3yv.Frame.{EyeFrame, Mv, is_zero_mv, on_y, on_cb, on_cr}
use package.rav1e.O3yv.Pixels.{
  copy_exact, copy_at_len, copy_at_16, copy_at_8, copy_at_16_by_4, copy_at_8_by_4,
}
use package.rav1e.O3yv.Motion.{shr, motion_copy_plane_fixed, copy_rect}

unfoldable pub prefill_eye : EyeFrame → Mv → M EyeFrame (Unit {0})
prefill_eye src mv =
    if is_zero_mv mv
    then (do
      on_y (copy_exact eye_y_bytes src.y)
      on_cb (copy_exact eye_chroma_bytes src.cb)
      on_cr (copy_exact eye_chroma_bytes src.cr))
    else (do
      on_y (motion_copy_plane_fixed eye_w eye_h src.y mv.x mv.y)
      on_cb (motion_copy_plane_fixed chroma_w chroma_h src.cb (shr mv.x 1) (shr mv.y 1))
      on_cr (motion_copy_plane_fixed chroma_w chroma_h src.cr (shr mv.x 1) (shr mv.y 1)))

unfoldable pub copy_mb_zero_mv : EyeFrame → ℕ → M EyeFrame (Unit {0})
copy_mb_zero_mv src mb_index = do
  let mb_x = mb_index % mb_w
  let mb_y = mb_index / mb_w
  for_each 16 0
      λ row. let off = (mb_y * 16 + row) * eye_w + mb_x * 16 in on_y (copy_at_16 off src.y off)
  for_each 8 0 λ row.
      let off = (mb_y * 8 + row) * chroma_w + mb_x * 8 in
      do on_cb (copy_at_8 off src.cb off); on_cr (copy_at_8 off src.cr off)

unfoldable pub copy_mb_from_reference : EyeFrame → ℕ → Mv → M EyeFrame (Unit {0})
copy_mb_from_reference src mb_index mv = if is_zero_mv mv then copy_mb_zero_mv src mb_index else (do
  let mb_x = mb_index % mb_w
  let mb_y = mb_index / mb_w
  on_y (copy_rect eye_w eye_h src.y (mb_x * 16) (mb_y * 16) 16 16 mv.x mv.y)
  on_cb (copy_rect chroma_w chroma_h src.cb (mb_x * 8) (mb_y * 8) 8 8 (shr mv.x 1) (shr mv.y 1))
  on_cr (copy_rect chroma_w chroma_h src.cr (mb_x * 8) (mb_y * 8) 8 8 (shr mv.x 1) (shr mv.y 1)))

unfoldable pub copy_mb_row_span_zero_mv : EyeFrame → ℕ → ℕ → ℕ → M EyeFrame (Unit {0})
copy_mb_row_span_zero_mv src mb_x mb_y mb_count = do
  for_each 16 0 λ row.
      let off = (mb_y * 16 + row) * eye_w + mb_x * 16 in
      on_y (copy_at_len off src.y off (mb_count * 16))
  for_each 8 0 λ row.
      let off = (mb_y * 8 + row) * chroma_w + mb_x * 8 in
      do
        on_cb (copy_at_len off src.cb off (mb_count * 8))
        on_cr (copy_at_len off src.cr off (mb_count * 8))

-- The `while` loop from `mb_index`; each round takes at least one block, and to run out of fuel
-- would be a fault.
unfoldable pub zero_mv_run : ℕ → EyeFrame → ℕ → ℕ → M EyeFrame (Unit {0})
zero_mv_run zero src end_mb mb_index = if ltb mb_index end_mb then (λ _. fault) else done tt
zero_mv_run (suc fuel) src end_mb mb_index =
    let mb_x = mb_index % mb_w in
    let mb_y = mb_index / mb_w in
    let row_mbs = min (mb_w - mb_x) (end_mb - mb_index) in
    let step =
      if leb 4 row_mbs
      then copy_mb_row_span_zero_mv src mb_x mb_y row_mbs
      else for_each row_mbs mb_index (copy_mb_zero_mv src) in
    let rest = zero_mv_run fuel src end_mb (mb_index + row_mbs) in
    if ltb mb_index end_mb then (step >> rest) else done tt

unfoldable pub copy_mb_run_zero_mv : EyeFrame → ℕ → ℕ → M EyeFrame (Unit {0})
copy_mb_run_zero_mv src start_mb count = zero_mv_run count src (start_mb + count) start_mb

unfoldable pub copy_mb_run_from_reference : EyeFrame → ℕ → ℕ → Mv → M EyeFrame (Unit {0})
copy_mb_run_from_reference src start_mb count mv =
    if is_zero_mv mv
    then copy_mb_run_zero_mv src start_mb count
    else for_each count start_mb λ mb_index. copy_mb_from_reference src mb_index mv
