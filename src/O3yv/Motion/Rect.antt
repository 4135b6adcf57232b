-- ===== src/O3yv/Motion/Rect.antt =====
-- The copy of a rectangle, pixel by pixel: its three branches and their widths agree.
use rav1e.Prelude.{
  ℕ, zero, suc, ◌+◌, ◌-◌, ◌*◌, ◌≤◌, ◌<◌, ◌≡◌, refl, sym, subst, ap, ap₂, ◌∙◌, ◌⊎◌, inl, inr, List,
  length, get_or, arith, true, ltb, leb, ◌==◌, ◌&&◌, ==_iff, if◌then◌else◌,
}
use rav1e.Prelude.{M, Ensures, Ensures-if, Ensures-weaken}
use rav1e.Prelude.Int.{ℤ, pos, ◌+ℤ◌}
use rav1e.Prelude.Loops.{for_each, for_each-Ensures}
use rav1e.O3yv.Frame.{is_zero}
use rav1e.O3yv.Pixels
use rav1e.O3yv.Pixels.{load_from}
use rav1e.O3yv.Motion
use rav1e.O3yv.Motion.Safe.{index-lt, row-le, clamped-lt}
use rav1e.O3yv.Motion.Rows.{
  Writes, Paints, Writes-same, Writes-right, copy_at_len-Paints, copy_at-Paints, store_at-Paints,
}
use rav1e.O3yv.Motion.Plane.{is_zero-pos}
use rav1e.O3yv.Motion.Shifted.{clamped_pos, load_from-seq}

-- A span that stays on the plane is not clamped.
moved :
    (n p i k : ℕ) (mv : ℤ)
    → Motion.is_nonneg (pos p +ℤ mv) ≡ true
    → Motion.to_usize (pos p +ℤ mv) + k ≤ n
    → i < k
    → Motion.clamped (p + i) mv n ≡ Motion.to_usize (pos p +ℤ mv) + i
unfolding Motion.clamp_i32 ◌+ℤ◌
moved zero p i k mv a b l = absurd (omega arith)
moved (suc n) p i k mv a b l = ground arith

-- A row of pixels, one by one.
pixels-Paints :
    (src dst : List ℕ) (d n : ℕ) (to from : ℕ → ℕ)
    → d + n ≤ length dst
    → ((i : ℕ) → to i ≡ d + i)
    → ((i : ℕ) → i < n → from i < length src)
    → Paints d n
        (λ i. get_or src (from i) 0)
        dst
        (for_each n 0 (λ col. Motion.copy_pixel src (to col) (from col)) dst)
unfolding Motion.copy_pixel
pixels-Paints src dst d n to from hd ht hs =
    for_each-Ensures (λ k t. Writes d k (λ i. get_or src (from i) 0) dst t) n 0 n _ (omega arith)
      (λ i t l v. load_from-seq src (from i) t _ (hs i l) (
        Ensures-weaken (store_at-Paints t (to i) _ (omega (arith, ht i, v.size))) λ out _ p.
          Writes-same
            (Writes-right v (subst (λ k. Writes k 1 (λ _. get_or src (from i) 0) t out) (ht i) p))
            refl λ j h. last i j h))
      dst (record { size = refl; sample = λ j. ground arith })
  where
    last :
        (i j : ℕ)
        → j < i + 1
        → (if ltb j i then get_or src (from j) 0 else get_or src (from i) 0) ≡ get_or src (from j) 0
    last i j h =
        let same : i ≤ j → get_or src (from i) 0 ≡ get_or src (from j) 0 =
          λ l. ap (λ k. get_or src (from k) 0) (omega arith) in
        ground (arith, same)

module _ (w h : ℕ) (src dst : List ℕ) (x y bw bh : ℕ) (mv_x mv_y : ℤ) where
  -- The sample that the rectangle shows at a position.
  abbrev pub shown : ℕ → ℕ → ℕ
  shown px py = get_or src (Motion.clamped py mv_y h * w + Motion.clamped px mv_x w) 0

  -- The first `rows` rows of the rectangle are copied, and nothing else has changed.
  pub record IsCopied (rows : ℕ) (out : List ℕ) : Type 0 where
    pub size : length out ≡ length dst
    pub pixel :
        (px py : ℕ)
        → px < w
        → py < h
        → get_or out (py * w + px) 0 ≡ (
            if leb x px && ltb px (x + bw) && leb y py && ltb py (y + rows)
            then shown px py
            else get_or dst (py * w + px) 0)

  module _ (hx : x + bw ≤ w) (hy : y + bh ≤ h) where
    next_row-IsCopied :
        (row : ℕ) (t u : List ℕ)
        → row < bh
        → IsCopied row t
        → Writes ((y + row) * w + x) bw (λ i. shown (x + i) (y + row)) t u
        → IsCopied (row + 1) u
    next_row-IsCopied row t u l v p = record {
      size = p.size ∙ v.size;
      pixel = λ px py hpx hpy. elim (order py) [
        | inl a ↦
            let off : py * w + px < (y + row) * w =
              omega (arith, index-lt px py w (y + row) hpx a) in
            ground (arith, p.sample (py * w + px), v.pixel px py hpx hpy, off)
        | inr (inl e) ↦
            let off : py * w ≡ (y + row) * w = ap (λ k. k * w) e in
            let same : x ≤ px
                → shown (x + (py * w + px - ((y + row) * w + x))) (y + row) ≡ shown px py =
              λ m. ap₂ shown (omega (arith, off)) (sym e) in
            ground (arith, p.sample (py * w + px), v.pixel px py hpx hpy, off, same)
        | inr (inr b) ↦
            let off : (y + row) * w + w ≤ py * w = below (y + row) py b in
            ground (arith, p.sample (py * w + px), v.pixel px py hpx hpy, off)
      ];
    }
      where
        order : (py : ℕ) → (py < y + row) ⊎ ((py ≡ y + row) ⊎ (y + row < py))
        order py = omega arith

        below : (a b : ℕ) → a < b → a * w + w ≤ b * w
        below a b h = grind arith

    rows-Copied :
        (body : ℕ → M (List ℕ) (Unit {0}))
        → ((row : ℕ) (t : List ℕ)
            → row < bh
            → length t ≡ length dst
            → Paints ((y + row) * w + x) bw (λ i. shown (x + i) (y + row)) t (body row t))
        → Ensures (λ _. ⊥) (λ out _. IsCopied bh out) (for_each bh 0 body dst)
    rows-Copied body step =
        for_each-Ensures IsCopied bh 0 bh body (omega arith)
          (λ row t l v.
            Ensures-weaken (step row t l v.size) λ u _ p. next_row-IsCopied row t u l v p)
          dst (record { size = refl; pixel = λ px py hpx hpy. ground arith })

    module _ (hs : length src ≡ w * h) (hd : length dst ≡ w * h) where
      row_fits : (row : ℕ) → row < bh → (y + row) * w + x + bw ≤ w * h
      row_fits row l = row-le x bw (y + row) w h hx (omega arith)

      -- A row from a row of the plane at `sx`, `sy`, by a copy of `n` bytes.
      whole_row :
          (n row : ℕ) (t : List ℕ) (s : ℕ)
          → row < bh
          → length t ≡ length dst
          → n ≡ bw
          → s + bw ≤ length src
          → ((i : ℕ)
              → i < bw
              → s + i ≡ Motion.clamped (y + row) mv_y h * w + Motion.clamped (x + i) mv_x w)
          → Paints
              ((y + row) * w + x)
              bw
              (λ i. shown (x + i) (y + row))
              t
              (Pixels.copy_at n ((y + row) * w + x) src s t)
      whole_row n row t s l e en fits at =
          Ensures-weaken
            (copy_at-Paints src t ((y + row) * w + x) s n (omega (arith, row_fits row l))
              (omega arith))
            λ out _ p. Writes-same p en λ i hi. ap (λ k. get_or src k 0) (at i (omega arith))

      copy_clamped-Copied :
          Ensures
            (λ _. ⊥)
            (λ out _. IsCopied bh out)
            (Motion.copy_clamped w h src x y bw bh mv_x mv_y dst)
      unfolding Motion.copy_clamped
      copy_clamped-Copied = rows-Copied _ λ row t l e.
          pixels-Paints src t ((y + row) * w + x) bw _ _ (omega (arith, row_fits row l))
            (λ i. omega arith)
            λ i hi. omega (
              arith,
              index-lt (Motion.clamped (x + i) mv_x w) (Motion.clamped (y + row) mv_y h) w h
                  (clamped-lt (x + i) mv_x w (omega arith))
                  (clamped-lt (y + row) mv_y h (omega arith)),
            )

      -- The source rectangle lies on the plane at `sx`, `sy`.
      module _ (sx sy : ℕ) (cx : (i : ℕ) → i < bw → Motion.clamped (x + i) mv_x w ≡ sx + i)
          (cy : (row : ℕ) → row < bh → Motion.clamped (y + row) mv_y h ≡ sy + row)
          (kx : sx + bw ≤ w) (ky : sy + bh ≤ h) where
        source : (row : ℕ) → row < bh → (sy + row) * w + sx + bw ≤ length src
        source row l = omega (arith, row-le sx bw (sy + row) w h kx (omega arith))

        position :
            (row i : ℕ)
            → row < bh
            → i < bw
            → (sy + row) * w + sx + i
              ≡ Motion.clamped (y + row) mv_y h * w + Motion.clamped (x + i) mv_x w
        position row i l hi =
            let base : Motion.clamped (y + row) mv_y h * w ≡ (sy + row) * w =
              ap (λ k. k * w) (cy row l) in
            omega (arith, base, cx i hi)

        by_width :
            (n : ℕ)
            → (bw == n) ≡ true
            → Ensures
                (λ _. ⊥)
                (λ out _. IsCopied bh out)
                (for_each bh 0
                  (λ row. Pixels.copy_at n ((y + row) * w + x) src ((sy + row) * w + sx))
                  dst)
        by_width n t = rows-Copied _ λ row u l e.
            whole_row n row u _ l e (sym ((==_iff bw n).0 t)) (source row l)
              λ i hi. position row i l hi

        copy_inside-Copied :
            Ensures
              (λ _. ⊥)
              (λ out _. IsCopied bh out)
              (Motion.copy_inside w src x y bw bh sx sy dst)
        unfolding Motion.copy_inside
        copy_inside-Copied = Ensures-if _ _ _ (bw == 16) (by_width 16) λ _.
            Ensures-if _ _ _ (bw == 8) (by_width 8) λ _. rows-Copied _ λ row t l e.
              Ensures-weaken
                (pixels-Paints src t ((y + row) * w + x) bw _ _ (omega (arith, row_fits row l))
                  (λ i. refl) λ i hi. omega (arith, source row l))
                λ out _ p. Writes-same p refl λ i hi. ap (λ k. get_or src k 0) (position row i l hi)

      copy_in_place-Copied :
          mv_x ≡ pos 0
          → mv_y ≡ pos 0
          → Ensures (λ _. ⊥) (λ out _. IsCopied bh out) (Motion.copy_in_place w src x y bw bh dst)
      unfolding Motion.copy_in_place
      copy_in_place-Copied ex ey = Ensures-if _ _ _ (bw == 16) (by_width x y cx cy hx hy 16) λ _.
          Ensures-if _ _ _ (bw == 8) (by_width x y cx cy hx hy 8) λ _. rows-Copied _ λ row t l e.
            Ensures-weaken
              (copy_at_len-Paints src t ((y + row) * w + x) ((y + row) * w + x) bw
                (omega (arith, row_fits row l)) (omega (arith, row_fits row l)))
              λ out _ p.
                Writes-same p refl
                  λ i hi. ap (λ k. get_or src k 0) (position x y cx cy hx hy row i l hi)
        where
          still : (n i : ℕ) (mv : ℤ) → mv ≡ pos 0 → i < n → Motion.clamped i mv n ≡ i
          still n i mv e l =
              subst (λ z. Motion.clamped i z n ≡ i) (sym e) (omega (arith, clamped_pos n i 0 l))

          cx : (i : ℕ) → i < bw → Motion.clamped (x + i) mv_x w ≡ x + i
          cx i l = still w (x + i) mv_x ex (omega arith)

          cy : (row : ℕ) → row < bh → Motion.clamped (y + row) mv_y h ≡ y + row
          cy row l = still h (y + row) mv_y ey (omega arith)

      -- For planes of w * h samples and a rectangle that lies on the destination, `copy_rect`
      -- returns without a fault, and afterwards each position of the rectangle holds the source
      -- sample at the position moved by the vector and clamped to the plane; each other position
      -- is unchanged.
      pub copy_rect-IsCopied :
          Ensures
            (λ _. ⊥)
            (λ out _. IsCopied bh out)
            (Motion.copy_rect w h src x y bw bh mv_x mv_y dst)
      unfolding Motion.copy_rect
      copy_rect-IsCopied =
          Ensures-if _ _ _ (is_zero mv_x && is_zero mv_y)
            (λ t.
              copy_in_place-Copied (is_zero-pos mv_x (ground arith))
                (is_zero-pos mv_y (ground arith)))
            λ _.
              Ensures-if _ _ _
                (Motion.is_nonneg (pos x +ℤ mv_x)
                  && Motion.is_nonneg (pos y +ℤ mv_y)
                  && leb (Motion.to_usize (pos x +ℤ mv_x) + bw) w
                  && leb (Motion.to_usize (pos y +ℤ mv_y) + bh) h)
                (λ t.
                  copy_inside-Copied (Motion.to_usize (pos x +ℤ mv_x))
                    (Motion.to_usize (pos y +ℤ mv_y))
                    (λ i l. moved w x i bw mv_x (ground arith) (ground arith) l)
                    (λ i l. moved h y i bh mv_y (ground arith) (ground arith) l) (ground arith)
                    (ground arith))
                (λ _. copy_clamped-Copied)
