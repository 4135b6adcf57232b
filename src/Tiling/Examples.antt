-- ===== src/Tiling/Examples.antt =====
-- The theorems on tiles at concrete inputs, and the tilings of the tests of src/tiling/tiler.rs.
use native.Mathlib.Nat.{div-add-mod', mod-lt}
use rav1e.Prelude.{ℕ, ◌+◌, ◌-◌, ◌*◌, ◌/◌, ◌^◌, ◌≤◌, ◌<◌, ◌≡◌, refl, inl, true, false, arith, some}
use rav1e.Prelude.Powers.{pow-pos}
use rav1e.Tiling.Info.{
  Align, TilingInfo, TileContext, TileContextIter, ◌>>=◌, tile_log2_from, tile_log2, div_ceil,
  clamp, from_target_tiles, tile_count, tile_iter_mut, tile_context, next, size_hint, wrapping_mul,
  wrapping_sub, wrapping_shl,
}
use rav1e.Tiling.Log.{tile_log2-IsLeastLog, IsLeastLog}
use rav1e.Tiling.Cover.{InRect, IsInFrame, at_tile}
use rav1e.Tiling.Valid.{from_target_tiles_disjoint, from_target_tiles_covered}
use rav1e.Tiling.Bounded.{IsBounded, from_target_tiles-IsBounded}

-- How many times 2 ^ n covers x.
abbrev covering : ℕ → ℕ → ℕ
covering x n = (x + (2 ^ n - 1)) / 2 ^ n

pub covering-covers : (x n : ℕ) → x ≤ covering x n * 2 ^ n
covering-covers x n =
    omega (
      arith,
      div-add-mod' (x + (2 ^ n - 1)) (2 ^ n),
      mod-lt (x + (2 ^ n - 1)) (pow-pos n),
      pow-pos n,
    )

pub covering-least : (x n : ℕ) → covering x n * 2 ^ n < x + 2 ^ n
covering-least x n = omega (arith, div-add-mod' (x + (2 ^ n - 1)) (2 ^ n), pow-pos n)

abbrev pub aligned : Align
aligned = record {
  align = λ x n. covering x n * 2 ^ n;
  align_and_shift = covering;
  covers = covering-covers;
  least = covering-least;
  multiple = λ x n. refl;
}

abbrev info : ℕ → ℕ → ℕ → ℕ → TilingInfo
info w h c r = record {
  frame_width = 160;
  frame_height = 144;
  tile_width_sb = w;
  tile_height_sb = h;
  cols = c;
  rows = r;
  tile_cols_log2 = 1;
  tile_rows_log2 = 1;
  min_tile_cols_log2 = 0;
  max_tile_cols_log2 = 2;
  min_tile_rows_log2 = 0;
  max_tile_rows_log2 = 2;
  sb_size_log2 = 6;
  min_tiles_log2 = 0;
}

abbrev quarters : TilingInfo
quarters = info 2 2 2 2

four_tiles : from_target_tiles aligned 6 160 144 (λ _ _. 0) 1 1 false ≡ some quarters
unfolding from_target_tiles tile_log2 tile_log2_from div_ceil clamp ◌>>=◌
four_tiles = refl

-- 4:2:2 makes the tiles an even number of superblocks wide.
even_tiles :
    from_target_tiles aligned 6 160 144 (λ _ _. 0) 2 1 true
    ≡ some (record quarters { tile_rows_log2 = 1 })
unfolding from_target_tiles tile_log2 tile_log2_from div_ceil clamp ◌>>=◌
even_tiles = refl

four : (tile_count quarters ≡ 4) × (size_hint (at_tile quarters 40 36 1) ≡ 3)
unfolding tile_count size_hint tile_iter_mut wrapping_mul wrapping_sub
four = (refl, refl)

tile_log2-IsLeastLog_example : (r : ℕ) × (tile_log2 64 100 ≡ some r) × IsLeastLog 64 100 r
tile_log2-IsLeastLog_example = tile_log2-IsLeastLog 64 100 (omega arith) (omega arith) (omega arith)

abbrev last_tile : TileContext
last_tile = record {
  sbo_x = 2;
  sbo_y = 2;
  samples = record { x = 128; y = 128; width = 32; height = 16 };
  blocks = record { x = 32; y = 32; width = 8; height = 4 };
}

from_target_tiles_disjoint_example : ◌≡◌ {A = ℕ} 3 3
unfolding next tile_context tile_iter_mut wrapping_mul wrapping_sub wrapping_shl
from_target_tiles_disjoint_example =
    from_target_tiles_disjoint aligned 6 160 144 (λ _ _. 0) 1 1 false (omega arith) (omega arith)
      (omega arith) quarters 40 36 3 3 130 140 last_tile last_tile (at_tile quarters 40 36 4)
      (at_tile quarters 40 36 4) (omega arith) four_tiles refl refl
      (inl (
        (omega arith, omega arith, omega arith, omega arith),
        (omega arith, omega arith, omega arith, omega arith),
      ))

from_target_tiles_covered_example :
    (t : ℕ) × (a : TileContext) × (after : TileContextIter) × (next (at_tile quarters 40 36 t)
      ≡ some (a, after))
    × InRect a.samples 130 140
    × IsInFrame quarters a.samples
from_target_tiles_covered_example =
    from_target_tiles_covered aligned 6 160 144 (λ _ _. 0) 1 1 false (omega arith) (omega arith)
      (omega arith) quarters 40 36 130 140 four_tiles (omega arith) (omega arith)

from_target_tiles-IsBounded_example : IsBounded quarters
from_target_tiles-IsBounded_example =
    from_target_tiles-IsBounded aligned 6 160 144 (λ _ _. 0) 1 1 false quarters (omega arith)
      (omega arith) four_tiles
