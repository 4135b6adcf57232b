-- ===== src/Tiling/Info.antt =====
-- TilingInfo of src/tiling/tiler.rs and the iterator over tiles, as far as it computes places.
-- An `Option` is `none` where the source panics.
use package.rav1e.Prelude.{
  ℕ, zero, suc, ◌+◌, ◌-◌, ◌*◌, ◌/◌, ◌%◌, ◌^◌, ◌≤◌, ◌<◌, min, max, ◌≡◌, Bool, ltb, leb,
  if◌then◌else◌, Option, none, some,
}

abbrev pub max_tile_width : ℕ
max_tile_width = 4096

abbrev pub max_tile_area : ℕ
max_tile_area = 4096 * 2304

abbrev pub max_tile_cols : ℕ
max_tile_cols = 64

abbrev pub max_tile_rows : ℕ
max_tile_rows = 64

abbrev pub mi_size_log2 : ℕ
mi_size_log2 = 2

-- `align_power_of_two` and `align_power_of_two_and_shift` of the crate v_frame: the least multiple
-- of 2 ^ n from x on, and how many times 2 ^ n it is.
pub record Align : Type 0 where
  pub align : ℕ → ℕ → ℕ
  pub align_and_shift : ℕ → ℕ → ℕ
  pub covers : (x n : ℕ) → x ≤ align_and_shift x n * 2 ^ n
  pub least : (x n : ℕ) → align_and_shift x n * 2 ^ n < x + 2 ^ n
  pub multiple : (x n : ℕ) → align x n ≡ align_and_shift x n * 2 ^ n

pub record TilingInfo : Type 0 where
  pub frame_width : ℕ
  pub frame_height : ℕ
  pub tile_width_sb : ℕ
  pub tile_height_sb : ℕ
  pub cols : ℕ
  pub rows : ℕ
  pub tile_cols_log2 : ℕ
  pub tile_rows_log2 : ℕ
  pub min_tile_cols_log2 : ℕ
  pub max_tile_cols_log2 : ℕ
  pub min_tile_rows_log2 : ℕ
  pub max_tile_rows_log2 : ℕ
  pub sb_size_log2 : ℕ
  pub min_tiles_log2 : ℕ

infixl 5 ◌>>=◌
unfoldable pub ◌>>=◌ {ℓ κ} : {A : Type ℓ} {B : Type κ} → Option A → (A → Option B) → Option B
none >>= f = none
some a >>= f = f a

-- The loop of `tile_log2` from `k` on; `checked_shl` fails at 64.
unfoldable pub tile_log2_from : ℕ → ℕ → ℕ → ℕ → Option ℕ
tile_log2_from zero k blk_size target = none
tile_log2_from (suc fuel) k blk_size target =
    let rest = tile_log2_from fuel (k + 1) blk_size target in
    if ltb (blk_size * 2 ^ k % 2 ^ 64) target then rest else some k

unfoldable pub tile_log2 : ℕ → ℕ → Option ℕ
tile_log2 blk_size target = tile_log2_from 64 0 blk_size target

-- `a.div_ceil(b)`
unfoldable pub div_ceil : ℕ → ℕ → Option ℕ
div_ceil a zero = none
div_ceil a (suc b) = some ((a + b) / suc b)

-- `x.clamp(lo, hi)`
unfoldable pub clamp : ℕ → ℕ → ℕ → Option ℕ
clamp x lo hi =
    if ltb hi lo then none else some (if ltb x lo then lo else if ltb hi x then hi else x)

abbrev pub ensure : Bool → Option (Unit {0})
ensure b = if b then some tt else none

-- `rate_log2` is the number that the source computes with floats from the rate of samples.
unfoldable pub from_target_tiles :
    Align → ℕ → ℕ → ℕ → (ℕ → ℕ → ℕ) → ℕ → ℕ → Bool → Option TilingInfo
from_target_tiles A sb_size_log2 width height rate_log2 target_cols_log2 target_rows_log2 is_422_p =
    let frame_width = A.align width 3 in
    let frame_height = A.align height 3 in
    let sb_cols = A.align_and_shift frame_width sb_size_log2 in
    let sb_rows = A.align_and_shift frame_height sb_size_log2 in
    let max_tile_width_sb = max_tile_width / 2 ^ sb_size_log2 in
    let max_tile_area_sb = max_tile_area / 2 ^ (2 * sb_size_log2) in
    do
      min_tile_cols_log2 ← tile_log2 max_tile_width_sb sb_cols
      max_tile_cols_log2 ← tile_log2 1 (min sb_cols max_tile_cols)
      max_tile_rows_log2 ← tile_log2 1 (min sb_rows max_tile_rows)
      min_area_log2 ← tile_log2 max_tile_area_sb (sb_cols * sb_rows)
      let min_tiles_log2 = max min_tile_cols_log2 min_area_log2
      let min_tiles_ratelimit_log2 = max min_tiles_log2 (rate_log2 frame_width frame_height)
      pre_cols_log2 ← clamp target_cols_log2 min_tile_cols_log2 max_tile_cols_log2
      let tile_width_sb_pre = A.align_and_shift sb_cols pre_cols_log2
      let tile_width_sb = if is_422_p then (tile_width_sb_pre + 1) / 2 * 2 else tile_width_sb_pre
      cols ← div_ceil sb_cols tile_width_sb
      tile_cols_log2 ← tile_log2 1 cols
      _ ← ensure (leb min_tile_cols_log2 tile_cols_log2)
      let min_tile_rows_log2 = min_tiles_log2 - tile_cols_log2
      let min_tile_rows_ratelimit_log2 = min_tiles_ratelimit_log2 - tile_cols_log2
      tile_rows_log2 ←
          clamp (max target_rows_log2 min_tile_rows_log2) min_tile_rows_ratelimit_log2
            max_tile_rows_log2
      let tile_height_sb = A.align_and_shift sb_rows tile_rows_log2
      rows ← div_ceil sb_rows tile_height_sb
      some (record {
        frame_width = frame_width;
        frame_height = frame_height;
        tile_width_sb = tile_width_sb;
        tile_height_sb = tile_height_sb;
        cols = cols;
        rows = rows;
        tile_cols_log2 = tile_cols_log2;
        tile_rows_log2 = tile_rows_log2;
        min_tile_cols_log2 = min_tile_cols_log2;
        max_tile_cols_log2 = max_tile_cols_log2;
        min_tile_rows_log2 = min_tile_rows_log2;
        max_tile_rows_log2 = max_tile_rows_log2;
        sb_size_log2 = sb_size_log2;
        min_tiles_log2 = min_tiles_log2;
      })

-- `a * b`, `a - b` and `a << n` of `usize`, as a build without overflow checks computes them.
unfoldable pub wrapping_mul : ℕ → ℕ → ℕ
wrapping_mul a b = a * b % 2 ^ 64

unfoldable pub wrapping_sub : ℕ → ℕ → ℕ
wrapping_sub a b = (a + (2 ^ 64 - b)) % 2 ^ 64

unfoldable pub wrapping_shl : ℕ → ℕ → ℕ
wrapping_shl a n = a * 2 ^ (n % 64) % 2 ^ 64

unfoldable pub tile_count : TilingInfo → ℕ
tile_count ti = wrapping_mul ti.cols ti.rows

pub record Rect : Type 0 where
  pub x : ℕ
  pub y : ℕ
  pub width : ℕ
  pub height : ℕ

-- What the iterator passes to `TileStateMut::new`, in luma samples, and to `TileBlocksMut::new`, in
-- blocks of four samples.
pub record TileContext : Type 0 where
  pub sbo_x : ℕ
  pub sbo_y : ℕ
  pub samples : Rect
  pub blocks : Rect

pub record TileContextIter : Type 0 where
  pub ti : TilingInfo
  pub fb_cols : ℕ
  pub fb_rows : ℕ
  pub next_tile : ℕ

unfoldable pub tile_iter_mut : TilingInfo → ℕ → ℕ → TileContextIter
tile_iter_mut ti fb_cols fb_rows = record {
  ti = ti;
  fb_cols = fb_cols;
  fb_rows = fb_rows;
  next_tile = 0;
}

unfoldable pub tile_context : TileContextIter → TileContext
tile_context it =
    let ti = it.ti in
    let tile_col = it.next_tile % ti.cols in
    let tile_row = it.next_tile / ti.cols in
    let sbo_x = wrapping_mul tile_col ti.tile_width_sb in
    let sbo_y = wrapping_mul tile_row ti.tile_height_sb in
    let x = wrapping_shl sbo_x ti.sb_size_log2 in
    let y = wrapping_shl sbo_y ti.sb_size_log2 in
    let tile_width = wrapping_shl ti.tile_width_sb ti.sb_size_log2 in
    let tile_height = wrapping_shl ti.tile_height_sb ti.sb_size_log2 in
    let tile_width_mi = wrapping_shl ti.tile_width_sb (wrapping_sub ti.sb_size_log2 mi_size_log2) in
    let tile_height_mi =
      wrapping_shl ti.tile_height_sb (wrapping_sub ti.sb_size_log2 mi_size_log2) in
    let block_x = wrapping_mul tile_col tile_width_mi in
    let block_y = wrapping_mul tile_row tile_height_mi in
    record {
      sbo_x = sbo_x;
      sbo_y = sbo_y;
      samples = record {
        x = x;
        y = y;
        width = min tile_width (wrapping_sub ti.frame_width x);
        height = min tile_height (wrapping_sub ti.frame_height y);
      };
      blocks = record {
        x = block_x;
        y = block_y;
        width = min tile_width_mi (wrapping_sub it.fb_cols block_x);
        height = min tile_height_mi (wrapping_sub it.fb_rows block_y);
      };
    }

unfoldable pub next : TileContextIter → Option (TileContext × TileContextIter)
next it =
    if ltb it.next_tile (wrapping_mul it.ti.rows it.ti.cols)
    then some (tile_context it, record it { next_tile = it.next_tile + 1 })
    else none

unfoldable pub size_hint : TileContextIter → ℕ
size_hint it = wrapping_sub (wrapping_mul it.ti.cols it.ti.rows) it.next_tile
