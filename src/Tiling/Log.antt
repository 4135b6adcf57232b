-- ===== src/Tiling/Log.antt =====
-- tile_log2 of src/tiling/tiler.rs returns the least fitting exponent.
use rav1e.Prelude.{
  ℕ, zero, suc, ◌+◌, ◌*◌, ◌%◌, ◌^◌, ◌≤◌, ◌<◌, ◌≡◌, refl, ap, sym, ◌∙◌, ◌⊎◌, inl, inr, arith,
  Bool-cases, ltb, ltb→lt, not_ltb→le, some,
}
use native.Mathlib.Nat.{mul_assoc, mod-eq_of_lt}
use rav1e.Prelude.Powers.{pow-add}
use rav1e.Tiling.Info.{tile_log2_from, tile_log2}

-- `k` blocks doubled cover the target, and with one doubling less they do not.
abbrev pub IsLeastLog : ℕ → ℕ → ℕ → Type 0
IsLeastLog blk_size target k =
    (target ≤ blk_size * 2 ^ k) × ((k ≡ 0) ⊎ (blk_size * 2 ^ k < 2 * target))

twice : (b p : ℕ) → b * (p * 2 ^ 1) ≡ 2 * (b * p)
twice b p = rw (sym (mul_assoc b p 2)) (omega arith)

module _ (blk_size target : ℕ) (whole : 0 < blk_size) (word : blk_size < 2 ^ 64)
    (fits : target ≤ 2 ^ 63) where
  unwrapped :
      (k : ℕ)
      → (k ≡ 0) ⊎ (blk_size * 2 ^ k < 2 * target)
      → blk_size * 2 ^ k % 2 ^ 64 ≡ blk_size * 2 ^ k
  unwrapped k (inl e) = mod-eq_of_lt (rw e (omega (arith, word)))
  unwrapped k (inr l) = mod-eq_of_lt (omega (arith, l, fits))

  abbrev Found : ℕ → ℕ → Type 0
  Found fuel k =
      (r : ℕ) × (tile_log2_from fuel k blk_size target ≡ some r) × IsLeastLog blk_size target r

  round :
      (fuel k : ℕ)
      → (k ≡ 0) ⊎ (blk_size * 2 ^ k < 2 * target)
      → (blk_size * 2 ^ k < target → Found fuel (k + 1))
      → Found (suc fuel) k
  unfolding tile_log2_from
  round fuel k low later = elim (Bool-cases (ltb (blk_size * 2 ^ k % 2 ^ 64) target)) [
    | inl e ↦
        let below : blk_size * 2 ^ k < target =
          omega (arith, ltb→lt (blk_size * 2 ^ k % 2 ^ 64) target e, unwrapped k low) in
        let (r, is, least) = later below in (r, rw e is, least)
    | inr e ↦
        let reached = not_ltb→le (blk_size * 2 ^ k % 2 ^ 64) target e in
        (k, rw e refl, (omega (arith, reached, unwrapped k low), low))
  ]

  -- There is fuel for one round more, since 63 doublings cover any target.
  tile_log2_from-IsLeastLog :
      (fuel k : ℕ)
      → suc fuel + k ≡ 64
      → (k ≡ 0) ⊎ (blk_size * 2 ^ k < 2 * target)
      → Found (suc fuel) k
  tile_log2_from-IsLeastLog zero k at low =
      let last : k ≡ 63 = omega (arith, at) in
      let size : blk_size * 2 ^ k ≡ blk_size * 2 ^ 63 = ap (λ (t : ℕ). blk_size * 2 ^ t) last in
      round zero k low (λ below. absurd (omega (arith, below, size, whole, fits)))
  tile_log2_from-IsLeastLog (suc fuel) k at low =
      let double : blk_size * 2 ^ (k + 1) ≡ 2 * (blk_size * 2 ^ k) =
        ap (λ (t : ℕ). blk_size * t) (pow-add k 1) ∙ twice blk_size (2 ^ k) in
      round (suc fuel) k low (λ below.
        tile_log2_from-IsLeastLog fuel (k + 1) (omega (arith, at))
          (inr (omega (arith, double, below))))

  -- For a positive size of blocks below 2 ^ 64 and a target of at most 2 ^ 63, `tile_log2`
  -- returns, and what it returns is the least exponent by which the blocks reach the target.
  pub tile_log2-IsLeastLog :
      (r : ℕ) × (tile_log2 blk_size target ≡ some r) × IsLeastLog blk_size target r
  unfolding tile_log2
  tile_log2-IsLeastLog = tile_log2_from-IsLeastLog 63 0 refl (inl refl)
