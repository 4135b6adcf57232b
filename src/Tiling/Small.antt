-- ===== src/Tiling/Small.antt =====
-- The numbers of src/tiling/tiler.rs that do not wrap, for a tiling that from_target_tiles makes.
use rav1e.Prelude.{
  ℕ, ◌+◌, ◌-◌, ◌*◌, ◌/◌, ◌%◌, ◌^◌, ◌≤◌, ◌<◌, ◌≡◌, ap, ◌∙◌, arith, Bool, Option, some, if◌then◌else◌,
}
use native.Mathlib.Nat.{mul_assoc, add-mul, mod-eq_of_lt, le-mul_of_pos_right, mul-le-mul_left}
use rav1e.Prelude.Powers.{pow_mono, pow-pos, mul_mono_left}
use rav1e.Tiling.Info.{
  Align, TilingInfo, from_target_tiles, wrapping_mul, wrapping_sub, wrapping_shl, mi_size_log2,
  div_ceil,
}
use rav1e.Tiling.Strips.{align-IsStrips}
use rav1e.Tiling.Bounded.{strips_le}
use rav1e.Tiling.Returns.{Returns, present, Returns-bind, Returns-some}

pub wrapping_mul-exact : (a b : ℕ) → a * b < 2 ^ 64 → wrapping_mul a b ≡ a * b
unfolding wrapping_mul
wrapping_mul-exact a b h = mod-eq_of_lt h

pub wrapping_sub-exact : (a b : ℕ) → b ≤ a → a < 2 ^ 64 → wrapping_sub a b ≡ a - b
unfolding wrapping_sub
wrapping_sub-exact a b h k = omega arith

pub wrapping_shl-exact : (a n : ℕ) → n < 64 → a * 2 ^ n < 2 ^ 64 → wrapping_shl a n ≡ a * 2 ^ n
unfolding wrapping_shl
wrapping_shl-exact a n h k =
    ap (λ (m : ℕ). a * 2 ^ m % 2 ^ 64) {x = n % 64} {y = n} (mod-eq_of_lt h) ∙ mod-eq_of_lt k

-- One direction of a tiling, in superblocks of 2 ^ n samples: `count` tiles of `w` superblocks.
module _ (c count w n : ℕ) (in_count : c < count) (small : n < 64)
    (fits : count * w * 2 ^ n < 2 ^ 64) where
  scaled : (p : ℕ) → p ≤ n → (c * w * 2 ^ p < 2 ^ 64) × (w * 2 ^ p < 2 ^ 64) × (c * w < 2 ^ 64)
  scaled p h =
      let all = mul_mono_left (c * w) (count * w) (2 ^ n) (mul_mono_left c count w (omega arith)) in
      let one = mul_mono_left (1 * w) (count * w) (2 ^ n) (mul_mono_left 1 count w (omega arith)) in
      let low = mul-le-mul_left (c * w) (pow_mono p n h) in
      let low_one = mul-le-mul_left w (pow_mono p n h) in
      (
        omega (arith, all, low, fits),
        omega (arith, one, low_one, fits),
        omega (arith, all, fits, le-mul_of_pos_right {m = 2 ^ n} (c * w) (pow-pos n)),
      )

  pub start_at : wrapping_shl (wrapping_mul c w) n ≡ c * (w * 2 ^ n)
  start_at =
      let (all, one, plain) = scaled n (omega arith) in
      ap (λ a. wrapping_shl a n) (wrapping_mul-exact c w plain)
      ∙ (wrapping_shl-exact (c * w) n small all ∙ mul_assoc c w (2 ^ n))

  pub size_at : wrapping_shl w n ≡ w * 2 ^ n
  size_at = wrapping_shl-exact w n small (scaled n (omega arith)).1

  pub size_mi_at : 2 ≤ n → wrapping_shl w (wrapping_sub n mi_size_log2) ≡ w * 2 ^ (n - mi_size_log2)
  size_mi_at large =
      ap (λ k. wrapping_shl w k) (wrapping_sub-exact n mi_size_log2 large (omega arith))
      ∙ wrapping_shl-exact w (n - 2) (omega arith) (scaled (n - 2) (omega arith)).1

  pub start_mi_at :
      2 ≤ n
      → wrapping_mul c (wrapping_shl w (wrapping_sub n mi_size_log2))
        ≡ c * (w * 2 ^ (n - mi_size_log2))
  start_mi_at large =
      let (all, _, _) = scaled (n - 2) (omega arith) in
      ap (λ k. wrapping_mul c k) (size_mi_at large)
      ∙ wrapping_mul-exact c _ (omega (arith, all, mul_assoc c w (2 ^ (n - 2))))

-- No place in a tiling reaches 2 ^ 64.
pub record IsSmall (ti : TilingInfo) : Type 0 where
  pub small : ti.sb_size_log2 < 64
  pub wide : ti.cols * ti.tile_width_sb * 2 ^ ti.sb_size_log2 < 2 ^ 64
  pub high : ti.rows * ti.tile_height_sb * 2 ^ ti.sb_size_log2 < 2 ^ 64
  pub frame_width : ti.frame_width < 2 ^ 64
  pub frame_height : ti.frame_height < 2 ^ 64

module _ (A : Align) (n : ℕ) (few : n ≤ 7) where
  aligned_size : (size : ℕ) → size ≤ 2 ^ 32 → A.align size 3 < 2 ^ 33
  aligned_size size h = omega (arith, A.multiple size 3, A.least size 3)

  small_strips :
      (size w count : ℕ)
      → size ≤ 2 ^ 32
      → w ≤ A.align_and_shift (A.align size 3) n + 1
      → div_ceil (A.align_and_shift (A.align size 3) n) w ≡ some count
      → count * w * 2 ^ n < 2 ^ 64
  small_strips size w count h le e =
      let len = A.align size 3 in
      let s = A.align_and_shift len n in
      let strips = align-IsStrips A len n w count e in
      let unit = pow_mono n 7 few in
      omega (
        arith,
        strips.last,
        mul_assoc count w (2 ^ n),
        mul_mono_left w (s + 1) (2 ^ n) le,
        add-mul s 1 (2 ^ n),
        A.least len n,
        aligned_size size h,
        unit,
      )

  -- Strips of a number of superblocks, rounded up to an even number or not, are not longer by more
  -- than one.
  strip_width :
      (s p : ℕ) (even : Bool)
      → (if even then (A.align_and_shift s p + 1) / 2 * 2 else A.align_and_shift s p) ≤ s + 1
  strip_width s p even =
      let le = strips_le (A.align_and_shift s p) s (2 ^ p) (pow-pos p) (A.least s p) in ground arith

module _ (A : Align) (n width height : ℕ) (rate_log2 : ℕ → ℕ → ℕ) (target_cols target_rows : ℕ)
    (is_422_p : Bool) (few : n ≤ 7) (w_le : width ≤ 2 ^ 32) (h_le : height ≤ 2 ^ 32) where
  abbrev tiling : Option TilingInfo
  tiling = from_target_tiles A n width height rate_log2 target_cols target_rows is_422_p

  tiling-Returns : Returns IsSmall tiling
  unfolding from_target_tiles
  tiling-Returns = Returns-bind (λ min_cols e1. Returns-bind (λ max_cols e2.
      Returns-bind (λ max_rows e3. Returns-bind (λ min_area e4. Returns-bind (λ pre_cols e5.
        Returns-bind (λ cols e6. Returns-bind (λ cols_log2 e7. Returns-bind (λ u e8.
          Returns-bind (λ rows_log2 e9. Returns-bind (λ rows e10.
            let w = A.align width 3 in
            let h = A.align height 3 in
            present (record {
              small = omega arith;
              wide =
                  small_strips A n few width _ cols w_le
                    (strip_width A n few (A.align_and_shift w n) pre_cols is_422_p) e6;
              high =
                  small_strips A n few height _ rows h_le
                    (omega (
                      arith,
                      strips_le _ (A.align_and_shift h n) (2 ^ rows_log2) (pow-pos rows_log2)
                          (A.least (A.align_and_shift h n) rows_log2),
                    ))
                    e10;
              frame_width = omega (arith, aligned_size A n few width w_le);
              frame_height = omega (arith, aligned_size A n few height h_le);
            })))))))))))

  pub from_target_tiles-IsSmall : (ti : TilingInfo) → tiling ≡ some ti → IsSmall ti
  from_target_tiles-IsSmall ti h = Returns-some tiling-Returns h
