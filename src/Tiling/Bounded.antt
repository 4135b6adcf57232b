-- ===== src/Tiling/Bounded.antt =====
-- The limits of the format that from_target_tiles of src/tiling/tiler.rs keeps.
use rav1e.Prelude.{
  ℕ, zero, suc, ◌+◌, ◌*◌, ◌/◌, ◌^◌, ◌≤◌, ◌<◌, min, ◌≡◌, refl, ap, sym, ◌∙◌, inl, inr, arith, Bool,
  Bool-cases, ltb→lt, not_ltb→le, ltb, if◌then◌else◌, Option, some,
}
use native.Mathlib.Nat.{add-mul, mul-le-mul_left, le-mul_of_pos_right, div-le_self}
use rav1e.Prelude.Powers.{pow_mono, pow-pos, mul_mono_left, lt_cancel}
use rav1e.Tiling.Info.{
  Align, TilingInfo, from_target_tiles, tile_log2, div_ceil, clamp, max_tile_width, max_tile_cols,
  max_tile_rows,
}
use rav1e.Tiling.Log.{tile_log2-IsLeastLog}
use rav1e.Tiling.Strips.{div_ceil-bounds}
use rav1e.Tiling.Returns.{Returns, present, Returns-bind, Returns-some}

clamp_bounds : (x lo hi r : ℕ) → clamp x lo hi ≡ some r → (lo ≤ r) × (r ≤ hi)
unfolding clamp
clamp_bounds x lo hi r h = ground arith

-- An even bound also bounds a number rounded up to an even one.
even_bounds :
    (w half : ℕ) (is_422_p : Bool)
    → w ≤ half * 2
    → ((if is_422_p then (w + 1) / 2 * 2 else w) ≤ half * 2)
      × (w ≤ (if is_422_p then (w + 1) / 2 * 2 else w))
even_bounds w half is_422_p h = ground arith

some_inj : (a b : ℕ) → some a ≡ some b → a ≡ b
some_inj a b h = ground arith

-- The exponent of a number of at most 64.
small_log : (target k : ℕ) → target ≤ 64 → tile_log2 1 target ≡ some k → k ≤ 6
small_log target k h e =
    let (r, is, (covers, least)) =
      tile_log2-IsLeastLog 1 target (omega arith) (omega arith) (omega (arith, h)) in
    let same : r ≡ k = some_inj r k (sym is ∙ e) in
    elim least [
      | inl z ↦ omega (arith, same, z)
      | inr l ↦ elim (Bool-cases (ltb k 7)) [
        | inl lt ↦ omega (arith, ltb→lt k 7 lt)
        | inr ge ↦
            absurd
              (omega (arith, same, h, l, pow_mono 7 r (omega (arith, same, not_ltb→le k 7 ge))))
      ]
    ]

few_strips :
    (s p w w' count : ℕ) → s ≤ w' * 2 ^ p → w' ≤ w → p ≤ 6 → div_ceil s w ≡ some count → count ≤ 64
few_strips s p w w' count covers le small e =
    let (wide, _, last) = div_ceil-bounds s w count e in
    let many = mul_mono_left w' w (2 ^ p) le in
    let power = mul-le-mul_left w (pow_mono p 6 small) in
    omega (arith, lt_cancel count 65 w (omega (arith, last, covers, many, power)))

pub strips_le : (s len p : ℕ) → 0 < p → s * p < len + p → s ≤ len
strips_le s len p h lt = elim (Bool-cases (ltb len s)) [
  | inl e ↦
      let more = mul_mono_left (len + 1) s p (omega (arith, ltb→lt len s e)) in
      absurd (omega (arith, more, add-mul len 1 p, le-mul_of_pos_right {m = p} len h, lt))
  | inr e ↦ not_ltb→le len s e
]

-- The widest tile, in superblocks, is an even number.
widest :
    (n : ℕ)
    → n ≤ 7
    → (half : ℕ) × (0 < half)
      × (max_tile_width / 2 ^ n ≡ half * 2)
      × (half * 2 * 2 ^ n ≡ max_tile_width)
widest zero h = (2048, omega arith, refl, refl)
widest (suc zero) h = (1024, omega arith, refl, refl)
widest (suc (suc zero)) h = (512, omega arith, refl, refl)
widest (suc (suc (suc zero))) h = (256, omega arith, refl, refl)
widest (suc (suc (suc (suc zero)))) h = (128, omega arith, refl, refl)
widest (suc (suc (suc (suc (suc zero))))) h = (64, omega arith, refl, refl)
widest (suc (suc (suc (suc (suc (suc zero)))))) h = (32, omega arith, refl, refl)
widest (suc (suc (suc (suc (suc (suc (suc zero))))))) h = (16, omega arith, refl, refl)
widest (suc (suc (suc (suc (suc (suc (suc (suc n)))))))) h = absurd (omega (arith, h))

-- No tile is wider than the format allows, and there are not too many.
pub record IsBounded (ti : TilingInfo) : Type 0 where
  pub narrow : ti.tile_width_sb * 2 ^ ti.sb_size_log2 ≤ max_tile_width
  pub few_cols : ti.cols ≤ max_tile_cols
  pub few_rows : ti.rows ≤ max_tile_rows

module _ (A : Align) (n width height : ℕ) (rate_log2 : ℕ → ℕ → ℕ) (target_cols target_rows : ℕ)
    (is_422_p : Bool) where
  abbrev tiling : Option TilingInfo
  tiling = from_target_tiles A n width height rate_log2 target_cols target_rows is_422_p

  -- Superblocks of a frame of less than 2 ^ 32 samples.
  superblocks_bound : (size : ℕ) → size ≤ 2 ^ 32 → A.align_and_shift (A.align size 3) n ≤ 2 ^ 63
  superblocks_bound size h =
      let len = A.align size 3 in
      let few : A.align_and_shift len n ≤ len =
        strips_le (A.align_and_shift len n) len (2 ^ n) (pow-pos n) (A.least len n) in
      let aligned : len < size + 8 = omega (arith, A.multiple size 3, A.least size 3) in
      omega (arith, few, aligned, h)

  -- The width before the rounding for 4:2:2 is within the limit.
  width_bound :
      (half min_cols pre_cols : ℕ)
      → 0 < half
      → half * 2 ≤ 4096
      → width ≤ 2 ^ 32
      → tile_log2 (half * 2) (A.align_and_shift (A.align width 3) n) ≡ some min_cols
      → min_cols ≤ pre_cols
      → A.align_and_shift (A.align_and_shift (A.align width 3) n) pre_cols ≤ half * 2
  width_bound half min_cols pre_cols pos small w e le =
      let s = A.align_and_shift (A.align width 3) n in
      let (r, is, (covers, least)) =
        tile_log2-IsLeastLog (half * 2) s (omega (arith, pos)) (omega (arith, small))
          (superblocks_bound width w) in
      let same : r ≡ min_cols = some_inj r min_cols (sym is ∙ e) in
      let power = mul-le-mul_left (half * 2) (pow_mono r pre_cols (omega (arith, same, le))) in
      let strips = A.align_and_shift s pre_cols in
      let lt =
        lt_cancel strips (half * 2 + 1) (2 ^ pre_cols)
          (omega (arith, A.least s pre_cols, covers, power, add-mul (half * 2) 1 (2 ^ pre_cols))) in
      omega (arith, lt)

  tiling-IsBounded : n ≤ 7 → width ≤ 2 ^ 32 → Returns IsBounded tiling
  unfolding from_target_tiles
  tiling-IsBounded small w =
      let (half, pos, is_half, exact) = widest n small in
      let s = A.align_and_shift (A.align width 3) n in
      let t = A.align_and_shift (A.align height 3) n in
      Returns-bind (λ min_cols e1. Returns-bind (λ max_cols e2. Returns-bind (λ max_rows e3.
        Returns-bind (λ min_area e4. Returns-bind (λ pre_cols e5. Returns-bind (λ cols e6.
          Returns-bind (λ cols_log2 e7. Returns-bind (λ u e8. Returns-bind (λ rows_log2 e9.
            Returns-bind (λ rows e10.
              let (lo, hi) = clamp_bounds target_cols min_cols max_cols pre_cols e5 in
              let (lo', hi') = clamp_bounds _ _ max_rows rows_log2 e9 in
              let col_log = small_log (min s 64) max_cols (omega arith) e2 in
              let row_log = small_log (min t 64) max_rows (omega arith) e3 in
              let pre =
                width_bound half min_cols pre_cols pos
                  (omega (arith, is_half, div-le_self 4096 (2 ^ n))) w
                  (ap (λ (b : ℕ). tile_log2 b s) (sym is_half) ∙ e1) lo in
              let (even, wider) = even_bounds (A.align_and_shift s pre_cols) half is_422_p pre in
              present (record {
                narrow = omega (arith, exact, mul_mono_left _ (half * 2) (2 ^ n) even);
                few_cols =
                    few_strips s pre_cols _ (A.align_and_shift s pre_cols) cols
                      (A.covers s pre_cols) wider (omega (arith, hi, col_log)) e6;
                few_rows =
                    few_strips t rows_log2 _ (A.align_and_shift t rows_log2) rows
                      (A.covers t rows_log2) (omega arith) (omega (arith, hi', row_log)) e10;
              })))))))))))

  -- If `from_target_tiles` returns for superblocks of at most 128 samples and a width of at
  -- most 2 ^ 32, no tile is wider than 4096 samples, and there are at most 64 columns and 64
  -- rows of tiles.
  pub from_target_tiles-IsBounded :
      (ti : TilingInfo) → n ≤ 7 → width ≤ 2 ^ 32 → tiling ≡ some ti → IsBounded ti
  from_target_tiles-IsBounded ti small w h = Returns-some (tiling-IsBounded small w) h
