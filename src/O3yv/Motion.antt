-- ===== src/O3yv/Motion.antt =====
-- Motion compensation of minidecoder/src/lib.rs: rows and rectangles copied from a reference
-- plane, shifted by a vector, where a position off the plane is clamped to its edge.
-- The `i32` sums are of coordinates below 400 and vectors of at most 128, and cannot wrap.
pub mod Safe
pub mod Rows
pub mod Shifted
pub mod Plane
pub mod Rect
use package.rav1e.Prelude.{
  ℕ, zero, suc, ◌+◌, ◌-◌, ◌*◌, ◌/◌, ◌%◌, ◌^◌, List, ltb, leb, ◌==◌, ◌&&◌, ◌||◌, not, min,
  if◌then◌else◌,
}
use package.rav1e.Prelude.{M, ok, fault, ◌>>=◌, ◌>>◌, done, Bool, true, false}
use package.rav1e.Prelude.Int.{ℤ, pos, negsuc, ◌+ℤ◌, pos_part, neg_part, ltb_ℤ}
use package.rav1e.Prelude.Loops.{for_each}
use package.rav1e.O3yv.Frame.{is_zero}
use package.rav1e.O3yv.Pixels.{
  copy_exact, copy_at, copy_at_len, fill_at, load_from, load_at, store_at,
}

-- `v.max(lo).min(hi)`
unfoldable pub clamp_i32 : ℤ → ℤ → ℤ → ℤ
clamp_i32 v lo hi =
    let raised = if ltb_ℤ v lo then lo else v in if ltb_ℤ hi raised then hi else raised

-- `v as i32 - 1` of a number, and `v as usize` of an `i32` that is not negative.
abbrev pub last_of : ℕ → ℤ
last_of (suc n) = pos n
last_of zero = negsuc 0

abbrev pub to_usize : ℤ → ℕ
to_usize = pos_part

-- `v >> k` of an `i32`.
abbrev pub shr : ℤ → ℕ → ℤ
shr (pos n) k = pos (n / 2 ^ k)
shr (negsuc n) k = negsuc (n / 2 ^ k)

-- The source clamps this coordinate for each pixel.
abbrev pub clamped : ℕ → ℤ → ℕ → ℕ
clamped p mv size = to_usize (clamp_i32 (pos p +ℤ mv) (pos 0) (last_of size))

unfoldable pub copy_shifted_row_fixed : ℕ → ℕ → List ℕ → ℕ → ℤ → M (List ℕ) (Unit {0})
copy_shifted_row_fixed w dst_off src src_off (pos zero) = copy_at w dst_off src src_off
copy_shifted_row_fixed w dst_off src src_off (pos (suc zero)) = do
  copy_at_len dst_off src (src_off + 1) (w - 1)
  edge ← load_from src (src_off + w - 1)
  store_at (dst_off + w - 1) edge
copy_shifted_row_fixed w dst_off src src_off (negsuc zero) = do
  edge ← load_from src src_off
  store_at dst_off edge
  copy_at_len (dst_off + 1) src src_off (w - 1)
copy_shifted_row_fixed w dst_off src src_off (pos (suc (suc n))) = do
  let shift = min (suc (suc n)) w
  let copy_len = w - shift
  if ltb 0 copy_len then copy_at_len dst_off src (src_off + shift) copy_len else done tt
  edge ← load_from src (src_off + w - 1)
  fill_at (dst_off + copy_len) shift edge
copy_shifted_row_fixed w dst_off src src_off (negsuc (suc n)) = do
  let shift = min (suc (suc n)) w
  edge ← load_from src src_off
  fill_at dst_off shift edge
  let copy_len = w - shift
  if ltb 0 copy_len then copy_at_len (dst_off + shift) src src_off copy_len else done tt

-- `dst_off` is `y * W` in round `y`.
unfoldable pub motion_copy_plane_fixed : ℕ → ℕ → List ℕ → ℤ → ℤ → M (List ℕ) (Unit {0})
motion_copy_plane_fixed w h src mv_x mv_y =
    if is_zero mv_x && is_zero mv_y
    then copy_exact (w * h) src
    else for_each h 0 λ y. copy_shifted_row_fixed w (y * w) src (clamped y mv_y h * w) mv_x

-- `value >= 0` of an `i32`.
abbrev pub is_nonneg : ℤ → Bool
is_nonneg (pos n) = true
is_nonneg (negsuc n) = false

-- One pixel of the general branch of `copy_rect`, and of its row loop for other widths.
unfoldable pub copy_pixel : List ℕ → ℕ → ℕ → M (List ℕ) (Unit {0})
copy_pixel src dst_off src_off = do v ← load_from src src_off; store_at dst_off v

-- The general branch: each pixel from its clamped position.
unfoldable pub copy_clamped : ℕ → ℕ → List ℕ → ℕ → ℕ → ℕ → ℕ → ℤ → ℤ → M (List ℕ) (Unit {0})
copy_clamped w h src dst_x dst_y bw bh mv_x mv_y = for_each bh 0 λ row. for_each bw 0 λ col.
    let x = dst_x + col in
    let y = dst_y + row in copy_pixel src (y * w + x) (clamped y mv_y h * w + clamped x mv_x w)

-- The branch of a zero vector.
unfoldable pub copy_in_place : ℕ → List ℕ → ℕ → ℕ → ℕ → ℕ → M (List ℕ) (Unit {0})
copy_in_place w src dst_x dst_y bw bh =
    let off = λ (row : ℕ). (dst_y + row) * w + dst_x in
    if bw == 16
    then for_each bh 0 (λ row. copy_at 16 (off row) src (off row))
    else if bw == 8
    then for_each bh 0 (λ row. copy_at 8 (off row) src (off row))
    else for_each bh 0 (λ row. copy_at_len (off row) src (off row) bw)

-- The branch of a source rectangle that lies on the plane.
unfoldable pub copy_inside : ℕ → List ℕ → ℕ → ℕ → ℕ → ℕ → ℕ → ℕ → M (List ℕ) (Unit {0})
copy_inside w src dst_x dst_y bw bh src_x src_y =
    let dst_off = λ (row : ℕ). (dst_y + row) * w + dst_x in
    let src_off = λ (row : ℕ). (src_y + row) * w + src_x in
    if bw == 16
    then for_each bh 0 (λ row. copy_at 16 (dst_off row) src (src_off row))
    else if bw == 8
    then for_each bh 0 (λ row. copy_at 8 (dst_off row) src (src_off row))
    else for_each bh 0
        λ row. for_each bw 0 λ col. copy_pixel src (dst_off row + col) (src_off row + col)

unfoldable pub copy_rect : ℕ → ℕ → List ℕ → ℕ → ℕ → ℕ → ℕ → ℤ → ℤ → M (List ℕ) (Unit {0})
copy_rect w h src dst_x dst_y bw bh mv_x mv_y =
    if is_zero mv_x && is_zero mv_y
    then copy_in_place w src dst_x dst_y bw bh
    else let src_x = pos dst_x +ℤ mv_x in
      let src_y = pos dst_y +ℤ mv_y in
      if is_nonneg src_x
        && is_nonneg src_y
        && leb (to_usize src_x + bw) w
        && leb (to_usize src_y + bh) h
      then copy_inside w src dst_x dst_y bw bh (to_usize src_x) (to_usize src_y)
      else copy_clamped w h src dst_x dst_y bw bh mv_x mv_y
