-- ===== src/Tiling/Cover.antt =====
-- The tiles that the iterator of src/tiling/tiler.rs yields part the frame.
use rav1e.Prelude.{
  ℕ, zero, suc, min, ◌+◌, ◌-◌, ◌*◌, ◌/◌, ◌%◌, ◌^◌, ◌≤◌, ◌<◌, ◌≡◌, refl, ap₂, sym, ◌∙◌, subst, ◌⊎◌,
  inl, inr, arith, lt→ltb, some,
}
use native.Mathlib.Nat.{div-add-mod', add-mul, mod-le, mod-lt, div-lt_iff_lt-mul}
use rav1e.Prelude.Powers.{mul_mono_left}
use rav1e.Tiling.Info.{
  TilingInfo, Rect, TileContext, TileContextIter, tile_iter_mut, tile_context, next, mi_size_log2,
  wrapping_mul,
}
use rav1e.Tiling.Small.{
  IsSmall, start_at, size_at, start_mi_at, size_mi_at, wrapping_mul-exact, wrapping_sub-exact,
}
use rav1e.Tiling.Strips.{IsStrips, strip_of, strip-lt, strip_holds, column_of, row_of}

abbrev pub InRect : Rect → ℕ → ℕ → Type 0
InRect r px py = (r.x ≤ px) × (px < r.x + r.width) × (r.y ≤ py) × (py < r.y + r.height)

-- The iterator at tile `t`.
abbrev pub at_tile : TilingInfo → ℕ → ℕ → ℕ → TileContextIter
at_tile ti fb_cols fb_rows t = record (tile_iter_mut ti fb_cols fb_rows) { next_tile = t }

-- What the tiles of a frame have in common in both directions.
pub record IsTiling (ti : TilingInfo) : Type 0 where
  pub across : IsStrips ti.frame_width (ti.tile_width_sb * 2 ^ ti.sb_size_log2) ti.cols
  pub down : IsStrips ti.frame_height (ti.tile_height_sb * 2 ^ ti.sb_size_log2) ti.rows

next_is :
    (it it' : TileContextIter) (a : TileContext)
    → next it ≡ some (a, it')
    → (tile_context it ≡ a) × (it.next_tile < it.ti.rows * it.ti.cols)
unfolding next wrapping_mul
next_is it it' a h = ground (arith, mod-le (it.ti.rows * it.ti.cols) (2 ^ 64))

same_tile : (cols t u : ℕ) → t % cols ≡ u % cols → t / cols ≡ u / cols → t ≡ u
same_tile cols t u c r =
    sym (div-add-mod' t cols) ∙ ap₂ (λ (x y : ℕ). x * cols + y) r c ∙ div-add-mod' u cols

some_column : (t rows cols : ℕ) → t < rows * cols → 0 < cols
some_column t rows zero h = omega arith
some_column t rows (suc cols) h = omega arith

-- Where a tile stands, and where a sample or a block of it lies.
module _ (it : TileContextIter) (tiles : IsSmall it.ti)
    (in_count : it.next_tile < it.ti.rows * it.ti.cols) where
  abbrev size : ℕ
  size = 2 ^ it.ti.sb_size_log2

  abbrev mi_size : ℕ
  mi_size = 2 ^ (it.ti.sb_size_log2 - mi_size_log2)

  abbrev col : ℕ
  col = it.next_tile % it.ti.cols

  abbrev row : ℕ
  row = it.next_tile / it.ti.cols

  col_lt : col < it.ti.cols
  col_lt = mod-lt it.next_tile (some_column it.next_tile it.ti.rows it.ti.cols in_count)

  row_lt : row < it.ti.rows
  row_lt =
      (div-lt_iff_lt-mul {k = it.ti.cols}
          (some_column it.next_tile it.ti.rows it.ti.cols in_count)).1
        in_count

  place :
      (px py : ℕ)
      → InRect (tile_context it).samples px py
      → (px / (it.ti.tile_width_sb * size) ≡ col) × (py / (it.ti.tile_height_sb * size) ≡ row)
  unfolding tile_context
  place px py (left, right, top, bottom) =
      let n = it.ti.sb_size_log2 in
      let w = it.ti.tile_width_sb in
      let h = it.ti.tile_height_sb in
      let x = start_at col it.ti.cols w n col_lt tiles.small tiles.wide in
      let y = start_at row it.ti.rows h n row_lt tiles.small tiles.high in
      let dx = size_at col it.ti.cols w n col_lt tiles.small tiles.wide in
      let dy = size_at row it.ti.rows h n row_lt tiles.small tiles.high in
      (
        strip_of col _ px (omega (arith, left, x)) (omega (arith, right, x, dx)),
        strip_of row _ py (omega (arith, top, y)) (omega (arith, bottom, y, dy)),
      )

  block_place :
      (px py : ℕ)
      → 2 ≤ it.ti.sb_size_log2
      → InRect (tile_context it).blocks px py
      → (px / (it.ti.tile_width_sb * mi_size) ≡ col) × (py / (it.ti.tile_height_sb * mi_size) ≡ row)
  unfolding tile_context
  block_place px py large (left, right, top, bottom) =
      let n = it.ti.sb_size_log2 in
      let w = it.ti.tile_width_sb in
      let h = it.ti.tile_height_sb in
      let x = start_mi_at col it.ti.cols w n col_lt tiles.small tiles.wide large in
      let y = start_mi_at row it.ti.rows h n row_lt tiles.small tiles.high large in
      let dx = size_mi_at col it.ti.cols w n col_lt tiles.small tiles.wide large in
      let dy = size_mi_at row it.ti.rows h n row_lt tiles.small tiles.high large in
      (
        strip_of col _ px (omega (arith, left, x)) (omega (arith, right, x, dx)),
        strip_of row _ py (omega (arith, top, y)) (omega (arith, bottom, y, dy)),
      )

  -- The samples of a tile, where the tile starts in the frame.
  samples_at :
      col * (it.ti.tile_width_sb * size) ≤ it.ti.frame_width
      → row * (it.ti.tile_height_sb * size) ≤ it.ti.frame_height
      → (tile_context it).samples ≡ record {
        x = col * (it.ti.tile_width_sb * size);
        y = row * (it.ti.tile_height_sb * size);
        width =
            min
              (it.ti.tile_width_sb * size)
              (it.ti.frame_width - col * (it.ti.tile_width_sb * size));
        height =
            min
              (it.ti.tile_height_sb * size)
              (it.ti.frame_height - row * (it.ti.tile_height_sb * size));
      }
  unfolding tile_context
  samples_at in_width in_height =
      let n = it.ti.sb_size_log2 in
      let w = it.ti.tile_width_sb in
      let h = it.ti.tile_height_sb in
      let x = start_at col it.ti.cols w n col_lt tiles.small tiles.wide in
      let y = start_at row it.ti.rows h n row_lt tiles.small tiles.high in
      let dx = size_at col it.ti.cols w n col_lt tiles.small tiles.wide in
      let dy = size_at row it.ti.rows h n row_lt tiles.small tiles.high in
      let right = wrapping_sub-exact it.ti.frame_width _ in_width tiles.frame_width in
      let bottom = wrapping_sub-exact it.ti.frame_height _ in_height tiles.frame_height in
      rw (x, y, dx, dy, right, bottom) refl

-- A tile does not leave the frame.
abbrev pub IsInFrame : TilingInfo → Rect → Type 0
IsInFrame ti r = (r.x + r.width ≤ ti.frame_width) × (r.y + r.height ≤ ti.frame_height)

module _ (ti : TilingInfo) (fb_cols fb_rows : ℕ) (tiles : IsSmall ti) where
  pub next_disjoint :
      (t u px py : ℕ) (a b : TileContext) (after_t after_u : TileContextIter)
      → 2 ≤ ti.sb_size_log2
      → next (at_tile ti fb_cols fb_rows t) ≡ some (a, after_t)
      → next (at_tile ti fb_cols fb_rows u) ≡ some (b, after_u)
      → (InRect a.samples px py × InRect b.samples px py)
        ⊎ (InRect a.blocks px py × InRect b.blocks px py)
      → t ≡ u
  unfolding tile_iter_mut
  next_disjoint t u px py a b after_t after_u large is_a is_b both =
      let it = at_tile ti fb_cols fb_rows t in
      let iu = at_tile ti fb_cols fb_rows u in
      let (ea, in_t) = next_is it after_t a is_a in
      let (eb, in_u) = next_is iu after_u b is_b in
      elim both [
        | inl (in_a, in_b) ↦
            let (c, r) =
              place it tiles in_t px py
                (subst (λ (x : TileContext). InRect x.samples px py) (sym ea) in_a) in
            let (c', r') =
              place iu tiles in_u px py
                (subst (λ (x : TileContext). InRect x.samples px py) (sym eb) in_b) in
            same_tile ti.cols t u (sym c ∙ c') (sym r ∙ r')
        | inr (in_a, in_b) ↦
            let (c, r) =
              block_place it tiles in_t px py large
                (subst (λ (x : TileContext). InRect x.blocks px py) (sym ea) in_a) in
            let (c', r') =
              block_place iu tiles in_u px py large
                (subst (λ (x : TileContext). InRect x.blocks px py) (sym eb) in_b) in
            same_tile ti.cols t u (sym c ∙ c') (sym r ∙ r')
      ]

  pub covered :
      (px py : ℕ)
      → IsTiling ti
      → ti.rows * ti.cols < 2 ^ 64
      → px < ti.frame_width
      → py < ti.frame_height
      → (t : ℕ) × (a : TileContext) × (after : TileContextIter) × (next
            (at_tile ti fb_cols fb_rows t)
          ≡ some (a, after))
        × InRect a.samples px py
        × IsInFrame ti a.samples
  unfolding next tile_iter_mut
  covered px py tiling few in_x in_y =
      let P = 2 ^ ti.sb_size_log2 in
      let tw = ti.tile_width_sb * P in
      let th = ti.tile_height_sb * P in
      let c = px / tw in
      let r = py / th in
      let t = r * ti.cols + c in
      let c_lt = strip-lt ti.frame_width tw ti.cols px tiling.across in_x in
      let r_lt = strip-lt ti.frame_height th ti.rows py tiling.down in_y in
      let (left, right, in_width) = strip_holds ti.frame_width tw ti.cols px tiling.across in_x in
      let (top, bottom, in_height) = strip_holds ti.frame_height th ti.rows py tiling.down in_y in
      let it = at_tile ti fb_cols fb_rows t in
      let column = column_of r ti.cols c c_lt in
      let row = row_of r ti.cols c c_lt in
      let in_count : t < ti.rows * ti.cols = omega (
        arith,
        c_lt,
        mul_mono_left (r + 1) ti.rows ti.cols (omega (arith, r_lt)),
        add-mul r 1 ti.cols,
      ) in
      let in_range =
        lt→ltb t (wrapping_mul ti.rows ti.cols)
          (omega (arith, in_count, wrapping_mul-exact ti.rows ti.cols few)) in
      let stands : (tile_context it).samples ≡ record {
        x = c * tw;
        y = r * th;
        width = min tw (ti.frame_width - c * tw);
        height = min th (ti.frame_height - r * th);
      } =
        samples_at it tiles in_count (rw column (omega (arith, left, in_x)))
          (rw row (omega (arith, top, in_y)))
        ∙ rw (column, row) refl in
      (
        t,
        tile_context it,
        record it { next_tile = t + 1 },
        rw in_range refl,
        rw stands (left, right, top, bottom),
        rw stands (in_width, in_height),
      )
