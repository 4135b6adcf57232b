-- ===== src/Tiling/Valid.antt =====
-- The tiling that from_target_tiles of src/tiling/tiler.rs makes parts the frame.
use rav1e.Prelude.{ℕ, refl, ◌^◌, ◌≤◌, ◌<◌, ◌≡◌, ◌⊎◌, arith, Bool, Option, some}
use rav1e.Prelude.Powers.{mul_mono_left}
use rav1e.Tiling.Info.{Align, TilingInfo, TileContext, TileContextIter, next, from_target_tiles}
use rav1e.Tiling.Returns.{Returns, present, Returns-bind, Returns-some}
use rav1e.Tiling.Strips.{align-IsStrips}
use rav1e.Tiling.Bounded.{from_target_tiles-IsBounded}
use rav1e.Tiling.Small.{from_target_tiles-IsSmall}
use rav1e.Tiling.Cover.{IsTiling, InRect, IsInFrame, at_tile, next_disjoint, covered}

module _ (A : Align) (n width height : ℕ) (rate_log2 : ℕ → ℕ → ℕ) (target_cols target_rows : ℕ)
    (is_422_p : Bool) where
  abbrev tiling : Option TilingInfo
  tiling = from_target_tiles A n width height rate_log2 target_cols target_rows is_422_p

  tiling-Returns : Returns IsTiling tiling
  unfolding from_target_tiles
  tiling-Returns = Returns-bind (λ min_cols e1. Returns-bind (λ max_cols e2.
      Returns-bind (λ max_rows e3. Returns-bind (λ min_area e4. Returns-bind (λ pre_cols e5.
        Returns-bind (λ cols e6. Returns-bind (λ cols_log2 e7. Returns-bind (λ u e8.
          Returns-bind (λ rows_log2 e9. Returns-bind (λ rows e10. present (record {
            across = align-IsStrips A (A.align width 3) n _ cols e6;
            down = align-IsStrips A (A.align height 3) n _ rows e10;
          })))))))))))

  pub from_target_tiles-IsTiling : (ti : TilingInfo) → tiling ≡ some ti → IsTiling ti
  from_target_tiles-IsTiling ti h = Returns-some tiling-Returns h

  size-Returns : Returns (λ ti. ti.sb_size_log2 ≡ n) tiling
  unfolding from_target_tiles
  size-Returns = Returns-bind (λ _ _. Returns-bind (λ _ _. Returns-bind (λ _ _. Returns-bind (λ _ _.
      Returns-bind (λ _ _. Returns-bind (λ _ _. Returns-bind (λ _ _.
        Returns-bind (λ _ _. Returns-bind (λ _ _. Returns-bind (λ _ _. present refl))))))))))

  from_target_tiles-size : (ti : TilingInfo) → tiling ≡ some ti → ti.sb_size_log2 ≡ n
  from_target_tiles-size ti h = Returns-some size-Returns h

module _ (A : Align) (n width height : ℕ) (rate_log2 : ℕ → ℕ → ℕ) (target_cols target_rows : ℕ)
    (is_422_p : Bool) (few : n ≤ 7) (w_le : width ≤ 2 ^ 32) (h_le : height ≤ 2 ^ 32)
    (ti : TilingInfo) (fb_cols fb_rows : ℕ) where
  -- If `from_target_tiles` returns, for superblocks of 4 to 128 samples and a frame of at most
  -- 2 ^ 32 by 2 ^ 32, then two tiles that the iterator yields and that have a sample in common, or
  -- a block of four samples by four, are the same tile, although `usize` wraps. The
  -- alignments of the crate v_frame are a parameter, and so is the number computed from the frame
  -- rate.
  pub from_target_tiles_disjoint :
      (t u px py : ℕ) (a b : TileContext) (after_t after_u : TileContextIter)
      → 2 ≤ n
      → from_target_tiles A n width height rate_log2 target_cols target_rows is_422_p ≡ some ti
      → next (at_tile ti fb_cols fb_rows t) ≡ some (a, after_t)
      → next (at_tile ti fb_cols fb_rows u) ≡ some (b, after_u)
      → (InRect a.samples px py × InRect b.samples px py)
        ⊎ (InRect a.blocks px py × InRect b.blocks px py)
      → t ≡ u
  from_target_tiles_disjoint t u px py a b after_t after_u large h =
      let tiles =
        from_target_tiles-IsSmall A n width height rate_log2 target_cols target_rows is_422_p few
          w_le h_le ti h in
      let same =
        from_target_tiles-size A n width height rate_log2 target_cols target_rows is_422_p ti h in
      next_disjoint ti fb_cols fb_rows tiles t u px py a b after_t after_u (omega arith)

  -- If `from_target_tiles` returns, for superblocks of at most 128 samples and a frame of at most
  -- 2 ^ 32 by 2 ^ 32, then each sample of the frame lies in a tile that the iterator yields, and
  -- that tile does not leave the frame. The alignments of the crate v_frame are a parameter, and
  -- so is the number computed from the frame rate.
  pub from_target_tiles_covered :
      (px py : ℕ)
      → from_target_tiles A n width height rate_log2 target_cols target_rows is_422_p ≡ some ti
      → px < ti.frame_width
      → py < ti.frame_height
      → (t : ℕ) × (a : TileContext) × (after : TileContextIter) × (next
            (at_tile ti fb_cols fb_rows t)
          ≡ some (a, after))
        × InRect a.samples px py
        × IsInFrame ti a.samples
  from_target_tiles_covered px py h =
      let tiles =
        from_target_tiles-IsSmall A n width height rate_log2 target_cols target_rows is_422_p few
          w_le h_le ti h in
      let bounded =
        from_target_tiles-IsBounded A n width height rate_log2 target_cols target_rows is_422_p ti
          few w_le h in
      let tiling =
        from_target_tiles-IsTiling A n width height rate_log2 target_cols target_rows is_422_p ti
          h in
      let product = mul_mono_left ti.rows 64 ti.cols bounded.few_rows in
      covered ti fb_cols fb_rows tiles px py tiling (omega (arith, product, bounded.few_cols))
