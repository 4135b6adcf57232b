-- ===== src/O3yv/Parts/Safe.antt =====
-- Blocks in parts and raw blocks keep a picture a picture.
use rav1e.Prelude.{ℕ, ◌+◌, ◌*◌, ◌/◌, ◌%◌, ◌≤◌, ◌<◌, ◌≡◌, List, length, arith, ltb, not_ltb→le, kept}
use rav1e.Prelude.{Keeps, Keeps-bind, Keeps-choice}
use rav1e.Prelude.Loops.{for_each-Keeps}
use rav1e.O3yv.Format.{eye_w, eye_h, mb_w, mb_count}
use rav1e.O3yv.Frame.{EyeFrame, Mv}
use rav1e.O3yv.Pixels.Safe.{IsBytes, copy_at_16_by_4-IsPlane, copy_at_8_by_4-IsPlane}
use rav1e.O3yv.Eye.{IsEye, on_y-IsEye, on_cb-IsEye, on_cr-IsEye}
use rav1e.O3yv.Blocks.Safe.{copy_luma-IsEye, copy_blue-IsEye, copy_red-IsEye}
use rav1e.O3yv.Parts
use rav1e.O3yv.Parts.{VbsShape, split16x8, split8x16, split8x8}

-- The number of vectors that a shape takes.
abbrev pub parts : VbsShape → ℕ
parts split16x8 = 2
parts split8x16 = 2
parts split8x8 = 4

pub mv_at-Keeps :
    {S : Type 0} (I : S → Type 0) (mvs : List Mv) (i : ℕ) (s : S)
    → i < length mvs
    → I s
    → Keeps I (Parts.mv_at mvs i s)
mv_at-Keeps I mvs i s h k =
    Keeps-choice (ltb i (length mvs)) (λ _. kept k)
      (λ t. absurd (omega (arith, not_ltb→le i (length mvs) t)))

module _ {src : EyeFrame} (v : IsEye src) where
  copy_part-IsEye :
      (mvs : List Mv) (i x y bw bh : ℕ) {dst : EyeFrame}
      → IsEye dst
      → i < length mvs
      → x + bw ≤ eye_w
      → y + bh ≤ eye_h
      → Keeps IsEye (Parts.copy_part src mvs i x y bw bh dst)
  copy_part-IsEye mvs i x y bw bh {dst} e h hx hy =
      Keeps-bind (mv_at-Keeps IsEye mvs i dst h e)
        λ s mv e'. copy_luma-IsEye v x y bw bh mv.x mv.y e' hx hy

  average2-IsEye :
      (mvs : List Mv) (dst : EyeFrame)
      → IsEye dst
      → 2 ≤ length mvs
      → Keeps IsEye (Parts.average2 mvs dst)
  average2-IsEye mvs dst e h =
      Keeps-bind (mv_at-Keeps IsEye mvs 0 dst (omega arith) e)
        λ s _ e'. Keeps-bind (mv_at-Keeps IsEye mvs 1 s (omega arith) e') λ s' _ e''. kept e''

  copy_luma_parts-IsEye :
      (x y : ℕ) (shape : VbsShape) (mvs : List Mv) (dst : EyeFrame)
      → IsEye dst
      → x + 16 ≤ eye_w
      → y + 16 ≤ eye_h
      → parts shape ≤ length mvs
      → Keeps IsEye (Parts.copy_luma_parts src x y shape mvs dst)
  unfolding Parts.copy_luma_parts
  copy_luma_parts-IsEye x y split16x8 mvs dst e hx hy h =
      Keeps-bind (copy_part-IsEye mvs 0 x y 16 8 e (omega arith) hx (omega arith)) λ _ _ f.
        Keeps-bind (copy_part-IsEye mvs 1 x (y + 8) 16 8 f (omega arith) hx (omega arith))
          λ s _ g. average2-IsEye mvs s g h
  copy_luma_parts-IsEye x y split8x16 mvs dst e hx hy h =
      Keeps-bind (copy_part-IsEye mvs 0 x y 8 16 e (omega arith) (omega arith) hy) λ _ _ f.
        Keeps-bind (copy_part-IsEye mvs 1 (x + 8) y 8 16 f (omega arith) (omega arith) hy)
          λ s _ g. average2-IsEye mvs s g h
  copy_luma_parts-IsEye x y split8x8 mvs dst e hx hy h =
      Keeps-bind
        (for_each-Keeps IsEye 2 0 2 _ (omega arith)
          (λ py s hpy f.
            for_each-Keeps IsEye 2 0 2 _ (omega arith)
              (λ px t hpx g.
                copy_part-IsEye mvs (py * 2 + px) (x + px * 8) (y + py * 8) 8 8 g (omega arith)
                  (omega arith) (omega arith))
              s f)
          dst e)
        λ s _ f. Keeps-bind (mv_at-Keeps IsEye mvs 0 s (omega arith) f) λ s0 _ f0.
          Keeps-bind (mv_at-Keeps IsEye mvs 1 s0 (omega arith) f0) λ s1 _ f1.
            Keeps-bind (mv_at-Keeps IsEye mvs 2 s1 (omega arith) f1)
              λ s2 _ f2. Keeps-bind (mv_at-Keeps IsEye mvs 3 s2 (omega arith) f2) λ s3 _ f3. kept f3

  -- For whole eyes, a macroblock index below 375 and as many vectors as the shape has parts,
  -- `copy_vbs_from_reference` does not fault and keeps the destination whole.
  pub copy_vbs_from_reference-IsEye :
      (n : ℕ) (shape : VbsShape) (mvs : List Mv) {dst : EyeFrame}
      → IsEye dst
      → n < mb_count
      → parts shape ≤ length mvs
      → Keeps IsEye (Parts.copy_vbs_from_reference src n shape mvs dst)
  unfolding Parts.copy_vbs_from_reference
  copy_vbs_from_reference-IsEye n shape mvs {dst} e h k =
      Keeps-bind
        (copy_luma_parts-IsEye (n % mb_w * 16) (n / mb_w * 16) shape mvs dst e (omega arith)
          (omega arith) k)
        λ _ _ f.
          Keeps-bind
            (copy_blue-IsEye v (n % mb_w * 8) (n / mb_w * 8) _ _ f (omega arith) (omega arith))
            λ _ _ g.
              copy_red-IsEye v (n % mb_w * 8) (n / mb_w * 8) _ _ g (omega arith) (omega arith)

pub write_raw_mb-IsEye :
    (n : ℕ) (bytes : List ℕ) (dst : EyeFrame)
    → IsEye dst
    → n < mb_count
    → IsBytes bytes
    → length bytes ≡ 384
    → Keeps IsEye (Parts.write_raw_mb n bytes dst)
unfolding Parts.write_raw_mb
write_raw_mb-IsEye n bytes dst e h b l =
    Keeps-bind
      (for_each-Keeps IsEye 16 0 16 _ (omega arith)
        (λ row s hr f.
          on_y-IsEye f
            (copy_at_16_by_4-IsPlane bytes b _ (16 * row) f.luma (omega arith) (omega arith)))
        dst e)
      λ s _ f.
        Keeps-bind
          (for_each-Keeps IsEye 8 0 8 _ (omega arith)
            (λ row s hr f.
              on_cb-IsEye f (
                copy_at_8_by_4-IsPlane bytes b _ (256 + 8 * row) f.blue (omega arith)
                  (omega arith)))
            s f)
          λ s' _ f'.
            for_each-Keeps IsEye 8 0 8 _ (omega arith)
              (λ row s hr f. on_cr-IsEye f (
                copy_at_8_by_4-IsPlane bytes b _ (320 + 8 * row) f.red (omega arith) (omega arith)))
              s' f'
