-- ===== src/O3yv/Motion/Safe.antt =====
-- No access of a motion copy leaves its plane, whatever the vector.
use rav1e.Prelude.{
  ℕ, zero, suc, ◌+◌, ◌-◌, ◌*◌, ◌≤◌, ◌<◌, ◌≡◌, List, length, arith, true, ltb, leb, ◌==◌, ◌&&◌, min,
  ==_iff, if◌then◌else◌,
}
use rav1e.Prelude.{Keeps, kept, Keeps-if, Keeps-bind, Ensures, Ensures-bind, Ensures-intro, done}
use rav1e.Prelude.Int.{ℤ, pos, negsuc, ◌+ℤ◌}
use rav1e.Prelude.Loops.{for_each, for_each-Keeps}
use rav1e.O3yv.Frame.{is_zero}
use rav1e.O3yv.Pixels
use rav1e.O3yv.Pixels.{load_from, store_at}
use rav1e.O3yv.Pixels.Safe.{
  IsPlane, IsBytes, copy_at_len-IsPlane, copy_at-IsPlane, copy_exact-IsPlane, fill_at-IsPlane,
  store_at-IsPlane,
}
use rav1e.O3yv.Motion

-- A clamped coordinate lies on the plane.
pub clamped-lt : (p : ℕ) (mv : ℤ) (size : ℕ) → 0 < size → Motion.clamped p mv size < size
unfolding Motion.clamp_i32 ◌+ℤ◌
clamped-lt p mv zero h = elim h [ ]
clamped-lt p mv (suc n) h = ground arith

-- Positions of a grid have indices below its area.
pub index-lt : (x y w h : ℕ) → x < w → y < h → y * w + x < w * h
index-lt x y w h p q = grind arith

pub row-le : (x n y w h : ℕ) → x + n ≤ w → y < h → y * w + x + n ≤ w * h
row-le x n y w h p q = grind arith

pub load_from-IsByte :
    {S : Type 0} (I : S → Type 0) (src : List ℕ) (off : ℕ) (s : S)
    → IsBytes src
    → off < length src
    → I s
    → Ensures I (λ t v. I t × (v < 256)) (load_from src off s)
unfolding load_from
load_from-IsByte I src off s b h i = Ensures-intro _ _ _ (ground (arith, b off))

module _ {m : ℕ} (src : List ℕ) (b : IsBytes src) where
  some_columns :
      (d s n : ℕ) {dst : List ℕ}
      → IsPlane m dst
      → d + n ≤ m
      → s + n ≤ length src
      → Keeps (IsPlane m) ((if ltb 0 n then Pixels.copy_at_len d src s n else done tt) dst)
  some_columns d s n p h k =
      Keeps-if _ _ _ (ltb 0 n) (λ _. copy_at_len-IsPlane p src b d s n h k) (λ _. kept p)

  pub copy_shifted_row_fixed-IsPlane :
      (w d s : ℕ) (mv_x : ℤ) {dst : List ℕ}
      → IsPlane m dst
      → 0 < w
      → d + w ≤ m
      → s + w ≤ length src
      → Keeps (IsPlane m) (Motion.copy_shifted_row_fixed w d src s mv_x dst)
  unfolding Motion.copy_shifted_row_fixed
  copy_shifted_row_fixed-IsPlane w d s (pos zero) p pw h k = copy_at-IsPlane p src b d s w h k
  copy_shifted_row_fixed-IsPlane w d s (pos (suc zero)) p pw h k =
      Keeps-bind (copy_at_len-IsPlane p src b d (s + 1) (w - 1) (omega arith) (omega arith))
        λ t _ q.
          Ensures-bind (load_from-IsByte (IsPlane m) src (s + w - 1) t b (omega arith) q)
            λ t' v r. store_at-IsPlane r.0 (d + w - 1) v r.1 (omega arith)
  copy_shifted_row_fixed-IsPlane w d s (negsuc zero) {dst} p pw h k =
      Ensures-bind (load_from-IsByte (IsPlane m) src s dst b (omega arith) p) λ t v r.
        Keeps-bind (store_at-IsPlane r.0 d v r.1 (omega arith))
          λ t' _ q. copy_at_len-IsPlane q src b (d + 1) s (w - 1) (omega arith) (omega arith)
  copy_shifted_row_fixed-IsPlane w d s (pos (suc (suc n))) {dst} p pw h k =
      Keeps-bind
        (some_columns d (s + min (suc (suc n)) w) (w - min (suc (suc n)) w) p (omega arith)
          (omega arith))
        λ t _ q.
          Ensures-bind (load_from-IsByte (IsPlane m) src (s + w - 1) t b (omega arith) q) λ t' v r.
            fill_at-IsPlane r.0 (d + (w - min (suc (suc n)) w)) (min (suc (suc n)) w) v r.1
              (omega arith)
  copy_shifted_row_fixed-IsPlane w d s (negsuc (suc n)) {dst} p pw h k =
      Ensures-bind (load_from-IsByte (IsPlane m) src s dst b (omega arith) p) λ t v r.
        Keeps-bind (fill_at-IsPlane r.0 d (min (suc (suc n)) w) v r.1 (omega arith)) λ t' _ q.
          some_columns (d + min (suc (suc n)) w) s (w - min (suc (suc n)) w) q (omega arith)
            (omega arith)

  pub motion_copy_plane_fixed-IsPlane :
      (w h : ℕ) (mv_x mv_y : ℤ) {dst : List ℕ}
      → IsPlane m dst
      → 0 < w
      → m ≡ w * h
      → length src ≡ w * h
      → Keeps (IsPlane m) (Motion.motion_copy_plane_fixed w h src mv_x mv_y dst)
  unfolding Motion.motion_copy_plane_fixed
  motion_copy_plane_fixed-IsPlane w h mv_x mv_y {dst} p pw e f =
      Keeps-if _ _ _ (is_zero mv_x && is_zero mv_y)
        (λ _. copy_exact-IsPlane p src (w * h) b (omega arith) (omega arith))
        (λ _. for_each-Keeps (IsPlane m) h 0 h _ (omega arith) row dst p)
    where
      row :
          (y : ℕ) (t : List ℕ)
          → y < h
          → IsPlane m t
          → Keeps
              (IsPlane m)
              (Motion.copy_shifted_row_fixed w (y * w) src (Motion.clamped y mv_y h * w) mv_x t)
      row y t hy q =
          copy_shifted_row_fixed-IsPlane w (y * w) (Motion.clamped y mv_y h * w) mv_x q pw
            (omega (arith, row-le 0 w y w h (omega arith) hy))
            (omega (
              arith,
              row-le 0 w (Motion.clamped y mv_y h) w h (omega arith)
                  (clamped-lt y mv_y h (omega arith)),
            ))

  -- A rectangle on the plane, copied from one on the plane, by any of the row loops.
  module _ (w h : ℕ) (e : m ≡ w * h) (f : length src ≡ w * h) (x y bw bh : ℕ) (hx : x + bw ≤ w)
      (hy : y + bh ≤ h) where
    pub copy_pixel-IsPlane :
        (d s : ℕ) {dst : List ℕ}
        → IsPlane m dst
        → d < m
        → s < length src
        → Keeps (IsPlane m) (Motion.copy_pixel src d s dst)
    unfolding Motion.copy_pixel
    copy_pixel-IsPlane d s {dst} p hd hs =
        Ensures-bind (load_from-IsByte (IsPlane m) src s dst b hs p)
          λ t v r. store_at-IsPlane r.0 d v r.1 hd

    -- A row of `n` pixels, from a row of the same rectangle moved to `sx`, `sy`.
    pub row_of : (row : ℕ) → row < bh → (y + row) * w + x + bw ≤ m
    row_of row h' = omega (arith, row-le x bw (y + row) w h hx (omega arith))

    pub copy_inside-IsPlane :
        (sx sy : ℕ) {dst : List ℕ}
        → IsPlane m dst
        → sx + bw ≤ w
        → sy + bh ≤ h
        → Keeps (IsPlane m) (Motion.copy_inside w src x y bw bh sx sy dst)
    unfolding Motion.copy_inside
    copy_inside-IsPlane sx sy {dst} p kx ky =
        Keeps-if _ _ _ (bw == 16)
          (λ t. for_each-Keeps (IsPlane m) bh 0 bh _ (omega arith) (row 16 t) dst p)
          λ _.
            Keeps-if _ _ _ (bw == 8)
              (λ t. for_each-Keeps (IsPlane m) bh 0 bh _ (omega arith) (row 8 t) dst p)
              λ _. for_each-Keeps (IsPlane m) bh 0 bh _ (omega arith) pixels dst p
      where
        src_row : (i : ℕ) → i < bh → (sy + i) * w + sx + bw ≤ length src
        src_row i hi = omega (arith, row-le sx bw (sy + i) w h kx (omega arith))

        row :
            (n : ℕ)
            → (bw == n) ≡ true
            → (i : ℕ) (t : List ℕ) → i < bh
            → IsPlane m t
            → Keeps (IsPlane m) (Pixels.copy_at n ((y + i) * w + x) src ((sy + i) * w + sx) t)
        row n t i s hi q =
            let same : bw ≡ n = (==_iff bw n).0 t in
            copy_at-IsPlane q src b _ _ n (omega (arith, row_of i hi)) (omega (arith, src_row i hi))

        pixels :
            (i : ℕ) (t : List ℕ)
            → i < bh
            → IsPlane m t
            → Keeps (IsPlane m) (
                for_each bw 0
                  (λ col. Motion.copy_pixel src ((y + i) * w + x + col) ((sy + i) * w + sx + col))
                  t)
        pixels i t hi q =
            for_each-Keeps (IsPlane m) bw 0 bw _ (omega arith)
              (λ col u hc r.
                copy_pixel-IsPlane _ _ r (omega (arith, row_of i hi)) (omega (arith, src_row i hi)))
              t q

    -- The general branch reads each pixel at its clamped position.
    pub copy_clamped-IsPlane :
        (mv_x mv_y : ℤ) {dst : List ℕ}
        → IsPlane m dst
        → Keeps (IsPlane m) (Motion.copy_clamped w h src x y bw bh mv_x mv_y dst)
    unfolding Motion.copy_clamped
    copy_clamped-IsPlane mv_x mv_y {dst} p =
        for_each-Keeps (IsPlane m) bh 0 bh _ (omega arith)
          (λ i t hi q.
            for_each-Keeps (IsPlane m) bw 0 bw _ (omega arith)
              (λ j u hj r.
                copy_pixel-IsPlane _ _ r
                  (omega (arith, index-lt (x + j) (y + i) w h (omega arith) (omega arith)))
                  (omega (
                    arith,
                    index-lt (Motion.clamped (x + j) mv_x w) (Motion.clamped (y + i) mv_y h) w h
                        (clamped-lt (x + j) mv_x w (omega arith))
                        (clamped-lt (y + i) mv_y h (omega arith)),
                  )))
              t q)
          dst p

    pub copy_in_place-IsPlane :
        {dst : List ℕ}
        → IsPlane m dst
        → Keeps (IsPlane m) (Motion.copy_in_place w src x y bw bh dst)
    unfolding Motion.copy_in_place
    copy_in_place-IsPlane {dst} p =
        Keeps-if _ _ _ (bw == 16)
          (λ t. for_each-Keeps (IsPlane m) bh 0 bh _ (omega arith) (row 16 t) dst p)
          λ _.
            Keeps-if _ _ _ (bw == 8)
              (λ t. for_each-Keeps (IsPlane m) bh 0 bh _ (omega arith) (row 8 t) dst p)
              λ _. for_each-Keeps (IsPlane m) bh 0 bh _ (omega arith) full dst p
      where
        row :
            (n : ℕ)
            → (bw == n) ≡ true
            → (i : ℕ) (t : List ℕ) → i < bh
            → IsPlane m t
            → Keeps (IsPlane m) (Pixels.copy_at n ((y + i) * w + x) src ((y + i) * w + x) t)
        row n t i s hi q =
            let same : bw ≡ n = (==_iff bw n).0 t in
            copy_at-IsPlane q src b _ _ n (omega (arith, row_of i hi)) (omega (arith, row_of i hi))

        full :
            (i : ℕ) (t : List ℕ)
            → i < bh
            → IsPlane m t
            → Keeps (IsPlane m) (Pixels.copy_at_len ((y + i) * w + x) src ((y + i) * w + x) bw t)
        full i t hi q =
            copy_at_len-IsPlane q src b _ _ bw (omega (arith, row_of i hi))
              (omega (arith, row_of i hi))

    pub copy_rect-IsPlane :
        (mv_x mv_y : ℤ) {dst : List ℕ}
        → IsPlane m dst
        → Keeps (IsPlane m) (Motion.copy_rect w h src x y bw bh mv_x mv_y dst)
    unfolding Motion.copy_rect
    copy_rect-IsPlane mv_x mv_y p =
        Keeps-if _ _ _ (is_zero mv_x && is_zero mv_y) (λ _. copy_in_place-IsPlane p)
          λ _.
            Keeps-if _ _ _
              (Motion.is_nonneg (pos x +ℤ mv_x)
                && Motion.is_nonneg (pos y +ℤ mv_y)
                && leb (Motion.to_usize (pos x +ℤ mv_x) + bw) w
                && leb (Motion.to_usize (pos y +ℤ mv_y) + bh) h)
              (λ t. copy_inside-IsPlane _ _ p (right t) (below t))
              (λ _. copy_clamped-IsPlane mv_x mv_y p)
      where
        right :
            (Motion.is_nonneg (pos x +ℤ mv_x)
                && Motion.is_nonneg (pos y +ℤ mv_y)
                && leb (Motion.to_usize (pos x +ℤ mv_x) + bw) w
                && leb (Motion.to_usize (pos y +ℤ mv_y) + bh) h)
              ≡ true
            → Motion.to_usize (pos x +ℤ mv_x) + bw ≤ w
        right t = ground arith

        below :
            (Motion.is_nonneg (pos x +ℤ mv_x)
                && Motion.is_nonneg (pos y +ℤ mv_y)
                && leb (Motion.to_usize (pos x +ℤ mv_x) + bw) w
                && leb (Motion.to_usize (pos y +ℤ mv_y) + bh) h)
              ≡ true
            → Motion.to_usize (pos y +ℤ mv_y) + bh ≤ h
        below t = ground arith
