-- ===== src/O3yv/Transform.antt =====
-- The inverse transform of minidecoder/src/lib.rs (lines 1467 to 1517).
use package.rav1e.Prelude.{ℕ, ◌+◌, ◌*◌, List}
use package.rav1e.Prelude.{M, ◌>>◌, get_or}
use package.rav1e.Prelude.Int.{ℤ, pos}
use package.rav1e.O3yv.Motion.{shr}
use package.rav1e.O3yv.Residual.{add_i32, sub_i32, mul_i32, update_at, add_clip}

unfoldable pub idct_1d : ℤ → ℤ → ℤ → ℤ → ℤ × ℤ × ℤ × ℤ
idct_1d c0 c1 c2 c3 =
    let a1 = add_i32 c0 c2 in
    let b1 = sub_i32 c0 c2 in
    let c1v = sub_i32 (shr (mul_i32 c1 (pos 35468)) 16) c3 in
    let d1 = add_i32 c1 (shr (mul_i32 c3 (pos 35468)) 16) in
    (add_i32 a1 d1, add_i32 b1 c1v, sub_i32 b1 c1v, sub_i32 a1 d1)

unfoldable pub add_idct_row : ℕ → ℤ → ℤ → ℤ → ℤ → M (List ℕ) (Unit {0})
add_idct_row idx v0 v1 v2 v3 = do
  update_at idx (add_clip (shr (add_i32 v0 (pos 4)) 3))
  update_at (idx + 1) (add_clip (shr (add_i32 v1 (pos 4)) 3))
  update_at (idx + 2) (add_clip (shr (add_i32 v2 (pos 4)) 3))
  update_at (idx + 3) (add_clip (shr (add_i32 v3 (pos 4)) 3))

-- One output row of the second pass.
abbrev pub second_pass : ℕ → ℤ → ℤ → ℤ → ℤ → M (List ℕ) (Unit {0})
second_pass idx t0 t1 t2 t3 =
    let (v0, v1, v2, v3) = idct_1d t0 t1 t2 t3 in add_idct_row idx v0 v1 v2 v3

-- `coeffs` has 16 entries.
unfoldable pub add_idct_block : ℕ → ℕ → List ℤ → M (List ℕ) (Unit {0})
add_idct_block stride base coeffs =
    let c = λ (i : ℕ). get_or coeffs i (pos 0) in
    let (t0, t4, t8, t12) = idct_1d (c 0) (c 4) (c 8) (c 12) in
    let (t1, t5, t9, t13) = idct_1d (c 1) (c 5) (c 9) (c 13) in
    let (t2, t6, t10, t14) = idct_1d (c 2) (c 6) (c 10) (c 14) in
    let (t3, t7, t11, t15) = idct_1d (c 3) (c 7) (c 11) (c 15) in
    do
      second_pass base t0 t1 t2 t3
      second_pass (base + stride) t4 t5 t6 t7
      second_pass (base + stride * 2) t8 t9 t10 t11
      second_pass (base + stride * 3) t12 t13 t14 t15
