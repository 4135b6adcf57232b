-- ===== src/O3yv/Blocks/Safe.antt =====
-- Prediction of the blocks of a picture keeps it a picture.
use rav1e.Prelude.{
  ℕ, zero, suc, ◌+◌, ◌-◌, ◌*◌, ◌/◌, ◌%◌, ◌≤◌, ◌<◌, arith, min, ltb, leb, ltb→lt, kept,
}
use rav1e.Prelude.{Keeps, Keeps-if, Keeps-bind}
use rav1e.Prelude.Int.{ℤ}
use rav1e.Prelude.Loops.{for_each, for_each-Keeps}
use rav1e.O3yv.Format.{
  eye_w, eye_h, chroma_w, chroma_h, eye_y_bytes, eye_chroma_bytes, mb_w, mb_count,
}
use rav1e.O3yv.Frame.{EyeFrame, Mv, is_zero_mv}
use rav1e.O3yv.Pixels.Safe.{
  copy_exact-IsPlane, copy_at_16-IsPlane, copy_at_8-IsPlane, copy_at_len-IsPlane,
}
use rav1e.O3yv.Motion.Safe.{copy_rect-IsPlane, motion_copy_plane_fixed-IsPlane}
use rav1e.O3yv.Eye.{IsEye, on_y-IsEye, on_cb-IsEye, on_cr-IsEye}
use rav1e.O3yv.Blocks

module _ {src : EyeFrame} (v : IsEye src) where
  pub prefill_eye-IsEye :
      (mv : Mv) {dst : EyeFrame} → IsEye dst → Keeps IsEye (Blocks.prefill_eye src mv dst)
  unfolding Blocks.prefill_eye
  prefill_eye-IsEye mv i =
      Keeps-if _ _ _ (is_zero_mv mv)
        (λ _.
          Keeps-bind
            (on_y-IsEye i (
              copy_exact-IsPlane i.luma src.y eye_y_bytes v.luma.bytes (omega arith) (omega arith)))
            λ _ _ j.
              Keeps-bind
                (on_cb-IsEye j (
                  copy_exact-IsPlane j.blue src.cb eye_chroma_bytes v.blue.bytes (omega arith)
                    (omega arith)))
                λ _ _ k. on_cr-IsEye k (
                  copy_exact-IsPlane k.red src.cr eye_chroma_bytes v.red.bytes (omega arith)
                    (omega arith)))
        (λ _.
          Keeps-bind
            (on_y-IsEye i (
              motion_copy_plane_fixed-IsPlane src.y v.luma.bytes eye_w eye_h _ _ i.luma
                (omega arith) (omega arith) (omega arith)))
            λ _ _ j.
              Keeps-bind
                (on_cb-IsEye j (
                  motion_copy_plane_fixed-IsPlane src.cb v.blue.bytes chroma_w chroma_h _ _ j.blue
                    (omega arith) (omega arith) (omega arith)))
                λ _ _ k. on_cr-IsEye k (
                  motion_copy_plane_fixed-IsPlane src.cr v.red.bytes chroma_w chroma_h _ _ k.red
                    (omega arith) (omega arith) (omega arith)))

  -- The rectangles of block `n`, in the three planes.
  pub copy_luma-IsEye :
      (x y bw bh : ℕ) (mv_x mv_y : ℤ) {dst : EyeFrame}
      → IsEye dst
      → x + bw ≤ eye_w
      → y + bh ≤ eye_h
      → Keeps IsEye (Blocks.on_y (Blocks.copy_rect eye_w eye_h src.y x y bw bh mv_x mv_y) dst)
  copy_luma-IsEye x y bw bh mv_x mv_y i hx hy = on_y-IsEye i (
      copy_rect-IsPlane src.y v.luma.bytes eye_w eye_h (omega arith) (omega arith) x y bw bh hx hy
        mv_x mv_y i.luma)

  pub copy_blue-IsEye :
      (x y : ℕ) (mv_x mv_y : ℤ) {dst : EyeFrame}
      → IsEye dst
      → x + 8 ≤ chroma_w
      → y + 8 ≤ chroma_h
      → Keeps IsEye (Blocks.on_cb (Blocks.copy_rect chroma_w chroma_h src.cb x y 8 8 mv_x mv_y) dst)
  copy_blue-IsEye x y mv_x mv_y i hx hy = on_cb-IsEye i (
      copy_rect-IsPlane src.cb v.blue.bytes chroma_w chroma_h (omega arith) v.blue.size x y 8 8 hx
        hy mv_x mv_y i.blue)

  pub copy_red-IsEye :
      (x y : ℕ) (mv_x mv_y : ℤ) {dst : EyeFrame}
      → IsEye dst
      → x + 8 ≤ chroma_w
      → y + 8 ≤ chroma_h
      → Keeps IsEye (Blocks.on_cr (Blocks.copy_rect chroma_w chroma_h src.cr x y 8 8 mv_x mv_y) dst)
  copy_red-IsEye x y mv_x mv_y i hx hy = on_cr-IsEye i (
      copy_rect-IsPlane src.cr v.red.bytes chroma_w chroma_h (omega arith) v.red.size x y 8 8 hx hy
        mv_x mv_y i.red)

  pub copy_mb_zero_mv-IsEye :
      (n : ℕ) {dst : EyeFrame}
      → IsEye dst
      → n < mb_count
      → Keeps IsEye (Blocks.copy_mb_zero_mv src n dst)
  unfolding Blocks.copy_mb_zero_mv
  copy_mb_zero_mv-IsEye n {dst} i h =
      Keeps-bind (for_each-Keeps IsEye 16 0 16 _ (omega arith) luma dst i)
        λ _ _ j. for_each-Keeps IsEye 8 0 8 _ (omega arith) chroma _ j
    where
      luma :
          (row : ℕ) (e : EyeFrame)
          → row < 16
          → IsEye e
          → let off = (n / mb_w * 16 + row) * eye_w + n % mb_w * 16 in
            Keeps IsEye (Blocks.on_y (Blocks.copy_at_16 off src.y off) e)
      luma row e hr k = on_y-IsEye k (
          copy_at_16-IsPlane k.luma src.y v.luma.bytes _ _ (omega arith)
            (omega (arith, v.luma.size)))

      chroma :
          (row : ℕ) (e : EyeFrame)
          → row < 8
          → IsEye e
          → let off = (n / mb_w * 8 + row) * chroma_w + n % mb_w * 8 in
            Keeps IsEye (
              Blocks.◌>>◌
                (Blocks.on_cb (Blocks.copy_at_8 off src.cb off))
                (Blocks.on_cr (Blocks.copy_at_8 off src.cr off))
                e)
      chroma row e hr k =
          Keeps-bind
            (on_cb-IsEye k (
              copy_at_8-IsPlane k.blue src.cb v.blue.bytes _ _ (omega arith)
                (omega (arith, v.blue.size))))
            λ _ _ l. on_cr-IsEye l (
              copy_at_8-IsPlane l.red src.cr v.red.bytes _ _ (omega arith)
                (omega (arith, v.red.size)))

  pub copy_mb_from_reference-IsEye :
      (n : ℕ) (mv : Mv) {dst : EyeFrame}
      → IsEye dst
      → n < mb_count
      → Keeps IsEye (Blocks.copy_mb_from_reference src n mv dst)
  unfolding Blocks.copy_mb_from_reference
  copy_mb_from_reference-IsEye n mv i h =
      Keeps-if _ _ _ (is_zero_mv mv) (λ _. copy_mb_zero_mv-IsEye n i h)
        λ _.
          Keeps-bind
            (copy_luma-IsEye (n % mb_w * 16) (n / mb_w * 16) 16 16 mv.x mv.y i (omega arith)
              (omega arith))
            λ _ _ j.
              Keeps-bind
                (copy_blue-IsEye (n % mb_w * 8) (n / mb_w * 8) _ _ j (omega arith) (omega arith))
                λ _ _ k.
                  copy_red-IsEye (n % mb_w * 8) (n / mb_w * 8) _ _ k (omega arith) (omega arith)

  pub copy_mb_row_span_zero_mv-IsEye :
      (mb_x mb_y n : ℕ) {dst : EyeFrame}
      → IsEye dst
      → mb_x + n ≤ mb_w
      → mb_y < 15
      → Keeps IsEye (Blocks.copy_mb_row_span_zero_mv src mb_x mb_y n dst)
  unfolding Blocks.copy_mb_row_span_zero_mv
  copy_mb_row_span_zero_mv-IsEye mb_x mb_y n {dst} i hx hy =
      Keeps-bind (for_each-Keeps IsEye 16 0 16 _ (omega arith) luma dst i)
        λ _ _ j. for_each-Keeps IsEye 8 0 8 _ (omega arith) chroma _ j
    where
      luma :
          (row : ℕ) (e : EyeFrame)
          → row < 16
          → IsEye e
          → let off = (mb_y * 16 + row) * eye_w + mb_x * 16 in
            Keeps IsEye (Blocks.on_y (Blocks.copy_at_len off src.y off (n * 16)) e)
      luma row e hr k = on_y-IsEye k (
          copy_at_len-IsPlane k.luma src.y v.luma.bytes _ _ (n * 16) (omega arith)
            (omega (arith, v.luma.size)))

      chroma :
          (row : ℕ) (e : EyeFrame)
          → row < 8
          → IsEye e
          → let off = (mb_y * 8 + row) * chroma_w + mb_x * 8 in
            Keeps IsEye (
              Blocks.◌>>◌
                (Blocks.on_cb (Blocks.copy_at_len off src.cb off (n * 8)))
                (Blocks.on_cr (Blocks.copy_at_len off src.cr off (n * 8)))
                e)
      chroma row e hr k =
          Keeps-bind
            (on_cb-IsEye k (
              copy_at_len-IsPlane k.blue src.cb v.blue.bytes _ _ (n * 8) (omega arith)
                (omega (arith, v.blue.size))))
            λ _ _ l. on_cr-IsEye l (
              copy_at_len-IsPlane l.red src.cr v.red.bytes _ _ (n * 8) (omega arith)
                (omega (arith, v.red.size)))

  -- The run goes row by row of the grid of blocks, and its fuel lasts.
  pub zero_mv_run-IsEye :
      (fuel end_mb n : ℕ) {dst : EyeFrame}
      → IsEye dst
      → end_mb ≤ mb_count
      → end_mb ≤ n + fuel
      → Keeps IsEye (Blocks.zero_mv_run fuel src end_mb n dst)
  unfolding Blocks.zero_mv_run
  zero_mv_run-IsEye zero end_mb n i h f =
      Keeps-if _ _ _ (ltb n end_mb) (λ t. absurd (omega (arith, ltb→lt n end_mb t))) (λ _. kept i)
  zero_mv_run-IsEye (suc fuel) end_mb n {dst} i h f =
      Keeps-if _ _ _ (ltb n end_mb)
        (λ t. Keeps-bind (step (ltb→lt n end_mb t)) λ _ _ j.
          zero_mv_run-IsEye fuel end_mb (n + row_mbs) j h (omega (arith, ltb→lt n end_mb t)))
        (λ _. kept i)
    where
      row_mbs : ℕ
      row_mbs = min (mb_w - n % mb_w) (end_mb - n)

      step :
          n < end_mb
          → Keeps IsEye (
              (Blocks.if◌then◌else◌
                  (leb 4 row_mbs)
                  (Blocks.copy_mb_row_span_zero_mv src (n % mb_w) (n / mb_w) row_mbs)
                  (for_each row_mbs n (Blocks.copy_mb_zero_mv src)))
                dst)
      step lt =
          Keeps-if _ _ _ (leb 4 row_mbs)
            (λ _.
              copy_mb_row_span_zero_mv-IsEye (n % mb_w) (n / mb_w) row_mbs i (omega arith)
                (omega arith))
            (λ _.
              for_each-Keeps IsEye row_mbs n end_mb _ (omega arith)
                (λ k e hk j. copy_mb_zero_mv-IsEye k j (omega arith)) dst i)

  pub copy_mb_run_from_reference-IsEye :
      (start count : ℕ) (mv : Mv) {dst : EyeFrame}
      → IsEye dst
      → start + count ≤ mb_count
      → Keeps IsEye (Blocks.copy_mb_run_from_reference src start count mv dst)
  unfolding Blocks.copy_mb_run_from_reference Blocks.copy_mb_run_zero_mv
  copy_mb_run_from_reference-IsEye start count mv {dst} i h =
      Keeps-if _ _ _ (is_zero_mv mv)
        (λ _. zero_mv_run-IsEye count (start + count) start i h (omega arith))
        λ _.
          for_each-Keeps IsEye count start (start + count) _ (omega arith)
            (λ n e hn j. copy_mb_from_reference-IsEye n mv j (omega arith)) dst i
