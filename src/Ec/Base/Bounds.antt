-- ===== src/Ec/Base/Bounds.antt =====
-- The range of a symbol: it is never empty, never leaves the range, and the ranges of the symbols
-- of one distribution lie side by side.
use Prim.Native.Nat.{ℕ, zero, suc}
use native.Mathlib.Nat.{pow-suc}
use rav1e.Prelude.{
  ◌+◌, ◌-◌, ◌*◌, ◌/◌, ◌%◌, ◌^◌, ◌≤◌, ◌<◌, ◌≡◌, ap₂, arith, leb, if◌then◌else◌, ap, inl, inr,
  Bool-cases, leb→le, not_leb→lt,
}
use rav1e.Ec.Format.{leading_zeros, sub16, sub32}
use rav1e.Ec.Base.{lr_compute, scale}

-- The shift that makes the highest of `w` bits one.
pub leading_zeros-normal :
    (w v : ℕ)
    → 0 < v
    → v < 2 ^ w
    → (2 ^ w ≤ v * 2 ^ leading_zeros w v * 2) × (v * 2 ^ leading_zeros w v < 2 ^ w)
unfolding leading_zeros
leading_zeros-normal zero v p h = absurd (omega arith)
leading_zeros-normal (suc w) v p h = elim (Bool-cases (leb (2 ^ w) v)) [
  | inl e ↦ rw e (omega (arith, leb→le (2 ^ w) v e, pow-suc 2 w))
  | inr e ↦
      let k = leading_zeros w v in
      let (low, high) = leading_zeros-normal w v p (not_leb→lt (2 ^ w) v e) in
      rw e (omega (arith, low, high, pow-suc 2 w, ap (λ (t : ℕ). v * t) (pow-suc 2 k)))
]

pub leading_zeros-lt : (w v : ℕ) → 0 < v → v < 2 ^ w → leading_zeros w v < w
unfolding leading_zeros
leading_zeros-lt zero v p h = absurd (omega arith)
leading_zeros-lt (suc w) v p h = ground (arith, leading_zeros-lt w v p)

-- A token as `symbol` makes it of a distribution of at most 16 symbols.
pub record IsToken (fl fh nms : ℕ) : Type 0 where
  pub ordered : fh / 64 ≤ fl / 64
  pub top : fl ≤ 32768
  pub below : fh < 32768
  pub least : 1 ≤ nms
  pub most : nms ≤ 16

pub record IsRange (rng : ℕ) : Type 0 where
  pub least : 32768 ≤ rng
  pub most : rng < 65536

module _ (rng fl fh nms : ℕ) (g : IsRange rng) (t : IsToken fl fh nms) where
  open g use {least as low, most as high}
  open t use {ordered, top, below, least, most}

  -- The two bounds, of which `u` is the upper one.
  abbrev pub upper : ℕ
  upper = if leb 32768 fl then rng else scale rng fl + 4 * nms

  abbrev pub lower : ℕ
  lower = scale rng fh + 4 * (nms - 1)

  scale-le : (f : ℕ) → f < 32768 → scale rng f + 64 ≤ rng
  scale-le f h =
      let R = rng / 256 in
      let F = f / 64 in
      let product : R * F ≤ R * 511 = grind (arith, λ (k : F ≤ 511). k) in omega (arith, product)

  scale_mono : scale rng fh ≤ scale rng fl
  scale_mono =
      let product : rng / 256 * (fh / 64) ≤ rng / 256 * (fl / 64) = grind arith in
      omega (arith, product)

  pub lower-le : lower + 4 ≤ upper
  lower-le = ground (arith, scale_mono, scale-le fh below)

  pub upper-le : upper ≤ rng
  upper-le = ground (arith, scale-le fl)

  -- Nothing wraps.
  pub lr_compute_lem : lr_compute rng fl fh nms ≡ (rng - upper, upper - lower)
  unfolding lr_compute
  lr_compute_lem =
      let one : sub16 nms 1 ≡ nms - 1 = omega arith in
      let left : sub32 rng upper ≡ rng - upper = omega (arith, upper-le) in
      let right : sub32 upper (scale rng fh + 4 * sub16 nms 1) % 2 ^ 16 ≡ upper - lower =
        omega (arith, one, upper-le, lower-le) in
      ap₂ (λ (a b : ℕ). (a, b)) left right

  -- For a range from 32768 to 65535 and a token of a valid distribution, the part of the range
  -- that `lr_compute` gives a symbol has a size of at least 4 and ends within the range.
  pub lr_compute_bounds :
      (4 ≤ (lr_compute rng fl fh nms).1)
      × ((lr_compute rng fl fh nms).0 + (lr_compute rng fl fh nms).1 ≤ rng)
  lr_compute_bounds = rw lr_compute_lem (omega (arith, upper-le, lower-le))

  -- The next range is normal again.
  pub renormal :
      (IsRange ((upper - lower) * 2 ^ leading_zeros 16 (upper - lower)))
      × (leading_zeros 16 (upper - lower) < 16)
  renormal =
      let size : upper - lower < 2 ^ 16 = omega (arith, upper-le) in
      let some_size : 0 < upper - lower = omega (arith, lower-le) in
      let (low', high') = leading_zeros-normal 16 (upper - lower) some_size size in
      (
        record { least = omega (arith, low'); most = omega (arith, high') },
        leading_zeros-lt 16 (upper - lower) some_size size,
      )

  pub lr_compute-IsRange :
      (IsRange ((lr_compute rng fl fh nms).1 * 2 ^ leading_zeros 16 (lr_compute rng fl fh nms).1))
      × (leading_zeros 16 (lr_compute rng fl fh nms).1 < 16)
  lr_compute-IsRange = rw lr_compute_lem renormal

-- For two neighbouring symbols of a valid distribution and a normal range, the part of the second
-- that `lr_compute` gives starts where that of the first ends.
pub lr_compute-touch :
    (rng fl f fh nms : ℕ)
    → IsRange rng
    → IsToken fl f (nms + 1)
    → IsToken f fh nms
    → (lr_compute rng f fh nms).0
      ≡ (lr_compute rng fl f (nms + 1)).0 + (lr_compute rng fl f (nms + 1)).1
lr_compute-touch rng fl f fh nms g t u =
    rw (lr_compute_lem rng fl f (nms + 1) g t, lr_compute_lem rng f fh nms g u)
      (touch (lower-le rng fl f (nms + 1) g t) (upper-le rng fl f (nms + 1) g t))
  where
    touch :
        lower rng fl f (nms + 1) g t + 4 ≤ upper rng fl f (nms + 1) g t
        → upper rng fl f (nms + 1) g t ≤ rng
        → rng - upper rng f fh nms g u
          ≡ rng
            - upper rng fl f (nms + 1) g t
            + (upper rng fl f (nms + 1) g t - lower rng fl f (nms + 1) g t)
    touch h k = ground (arith, t.below)
