-- ===== src/O3yv/Motion/Plane.antt =====
-- The motion copy of a whole plane, pixel by pixel.
use rav1e.Prelude.{
  ℕ, ◌+◌, ◌-◌, ◌*◌, ◌<◌, ◌≡◌, sym, subst, ap, ap₂, ◌∙◌, ◌⊎◌, inl, inr, List, length, get_or, arith,
  true, ◌&&◌,
}
use rav1e.Prelude.{Ensures, Ensures-if, Ensures-intro, Ensures-weaken}
use rav1e.Prelude.Int.{ℤ, pos, negsuc}
use rav1e.Prelude.Loops.{for_each-Ensures}
use rav1e.O3yv.Frame.{is_zero}
use rav1e.O3yv.Pixels
use rav1e.O3yv.Pixels.Safe.{get_or-copy_range, length-copy_range}
use rav1e.O3yv.Motion
use rav1e.O3yv.Motion.Safe.{index-lt, row-le, clamped-lt}
use rav1e.O3yv.Motion.Rows.{Writes}
use rav1e.O3yv.Motion.Shifted.{clamped_pos, from, copy_shifted_row_fixed-Paints}

pub is_zero-pos : (z : ℤ) → is_zero z ≡ true → z ≡ pos 0
is_zero-pos (pos n) h = ground arith
is_zero-pos (negsuc n) h = ground arith

module _ (w h : ℕ) (src : List ℕ) (mv_x mv_y : ℤ) where
  -- The first `rows` rows of `out` are moved by the vector, with the edges of `src` extended.
  pub record IsMoved (rows : ℕ) (out : List ℕ) : Type 0 where
    pub size : length out ≡ w * h
    pub pixel :
        (x y : ℕ)
        → x < w
        → y < rows
        → get_or out (y * w + x) 0
          ≡ get_or src (Motion.clamped y mv_y h * w + Motion.clamped x mv_x w) 0

  module _ (pw : 0 < w) (hs : length src ≡ w * h) where
    next_row-IsMoved :
        (y : ℕ) (t : List ℕ)
        → y < h
        → IsMoved y t
        → Ensures
            (λ _. ⊥)
            (λ u _. IsMoved (y + 1) u)
            (Motion.copy_shifted_row_fixed w (y * w) src (Motion.clamped y mv_y h * w) mv_x t)
    next_row-IsMoved y t hy v =
        Ensures-weaken
          (copy_shifted_row_fixed-Paints src t w (y * w) (Motion.clamped y mv_y h * w) pw
            (omega (arith, v.size, row-le 0 w y w h (omega arith) hy))
            (omega (
              arith,
              hs,
              row-le 0 w (Motion.clamped y mv_y h) w h (omega arith)
                  (clamped-lt y mv_y h (omega arith)),
            ))
            mv_x)
          λ u _ p. record { size = p.size ∙ v.size; pixel = pixel u p }
      where
        rows : (z : ℕ) → z < y + 1 → (z < y) ⊎ (z ≡ y)
        rows z l = omega arith

        pixel :
            (u : List ℕ)
            → Writes (y * w) w (from src w (Motion.clamped y mv_y h * w) mv_x) t u
            → (x z : ℕ) → x < w
            → z < y + 1
            → get_or u (z * w + x) 0
              ≡ get_or src (Motion.clamped z mv_y h * w + Motion.clamped x mv_x w) 0
        pixel u p x z hx hz = elim (rows z hz) [
          | inl l ↦
              let left : z * w + x < y * w = omega (arith, index-lt x z w y hx l) in
              ground (arith, p.sample (z * w + x), left, v.pixel x z hx l)
          | inr e ↦
              let here : z * w ≡ y * w = ap (λ k. k * w) e in
              let same : from src w (Motion.clamped y mv_y h * w) mv_x (z * w + x - y * w)
                  ≡ get_or src (Motion.clamped z mv_y h * w + Motion.clamped x mv_x w) 0 =
                ap₂ (λ a b. from src w (Motion.clamped a mv_y h * w) mv_x b) (sym e)
                  (omega (arith, here)) in
              ground (arith, p.sample (z * w + x), here, same)
        ]

    in_place :
        (dst : List ℕ)
        → length dst ≡ w * h
        → mv_x ≡ pos 0
        → mv_y ≡ pos 0
        → IsMoved h (Pixels.copy_range (w * h) 0 src 0 dst)
    in_place dst hd ex ey = record {
      size = length-copy_range (w * h) 0 src 0 dst ∙ hd;
      pixel = λ x y hx hy.
          let copied = get_or-copy_range (w * h) 0 src 0 dst (y * w + x) (omega (arith, hd)) in
          let inside = index-lt x y w h hx hy in
          let at : get_or src (y * w + x) 0
              ≡ get_or src (Motion.clamped y mv_y h * w + Motion.clamped x mv_x w) 0 =
            ap₂ (λ a b. get_or src (a * w + b) 0) (still h y mv_y ey hy) (still w x mv_x ex hx) in
          ground (arith, copied, inside, at);
    }
      where
        still : (n i : ℕ) (mv : ℤ) → mv ≡ pos 0 → i < n → i ≡ Motion.clamped i mv n
        still n i mv e l =
            subst (λ z. i ≡ Motion.clamped i z n) (sym e) (omega (arith, clamped_pos n i 0 l))

    -- For planes of w * h samples with 0 < w, `motion_copy_plane_fixed` returns without a fault
    -- and each pixel of the result is the source pixel at the position moved by the vector and
    -- clamped to the plane.
    pub motion_copy_plane_fixed-IsMoved :
        (dst : List ℕ)
        → length dst ≡ w * h
        → Ensures
            (λ _. ⊥)
            (λ out _. IsMoved h out)
            (Motion.motion_copy_plane_fixed w h src mv_x mv_y dst)
    unfolding Motion.motion_copy_plane_fixed Pixels.copy_exact
    motion_copy_plane_fixed-IsMoved dst hd =
        Ensures-if _ _ _ (is_zero mv_x && is_zero mv_y)
          (λ t. Ensures-intro _ _ _ (
            ground (
              arith,
              hs,
              hd,
              in_place dst hd (is_zero-pos mv_x (ground arith)) (is_zero-pos mv_y (ground arith)),
            )))
          (λ _.
            for_each-Ensures IsMoved h 0 h _ (omega arith) next_row-IsMoved dst
              (record { size = hd; pixel = λ x y hx hy. absurd (omega arith) }))
