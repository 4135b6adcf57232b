-- ===== src/Ec/Tell/Frac.antt =====
-- What `frac_compute` adds to whole bits.
use rav1e.Prelude.{
  ℕ, ◌+◌, ◌*◌, ◌/◌, ◌%◌, ◌^◌, ◌≤◌, ◌<◌, ◌≡◌, ap, arith, inl, inr, Bool-cases, ltb, ltb→lt,
  not_ltb→le,
}
use rav1e.Ec.Format.{sub32}
use rav1e.Ec.Base.{frac_compute, frac_round}
use rav1e.Ec.Base.Bounds.{IsRange}

-- A square of a normal range, in 15 fewer bits.
square_bounds : (r : ℕ) → IsRange r → (2 ^ 15 ≤ r * r / 2 ^ 15) × (r * r / 2 ^ 15 < 2 ^ 17)
square_bounds r g =
    let low : 2 ^ 15 * 2 ^ 15 ≤ r * r = grind (arith, g.least) in
    let high : r * r ≤ 65535 * 65535 = grind (arith, g.most) in omega (arith, low, high)

-- A round keeps the range normal and adds one binary digit.
round_lem :
    (r l : ℕ)
    → IsRange r
    → (IsRange ((frac_round (r, l)).0))
      × (l * 2 ≤ (frac_round (r, l)).1)
      × ((frac_round (r, l)).1 ≤ l * 2 + 1)
round_lem r l g =
    let (low, high) = square_bounds r g in
    let square = r * r / 2 ^ 15 in
    let b = square / 2 ^ 16 in
    elim (Bool-cases (ltb square (2 ^ 16))) [
      | inl e ↦
          let no_bit : b ≡ 0 = omega (arith, ltb→lt square (2 ^ 16) e) in
          rw no_bit (omega (arith, low, ltb→lt square (2 ^ 16) e))
      | inr e ↦
          let one : b ≡ 1 = omega (arith, not_ltb→le square (2 ^ 16) e) in
          rw one (omega (arith, high, not_ltb→le square (2 ^ 16) e))
    ]

-- The eighths of a bit that a range is worth.
abbrev pub loss : ℕ → ℕ
loss r = (frac_round (frac_round (frac_round (r, 0)))).1

pub loss-le : (r : ℕ) → IsRange r → loss r ≤ 7
loss-le r g =
    let (g1, a1, b1) = round_lem r 0 g in
    let one = frac_round (r, 0) in
    let (g2, a2, b2) = round_lem one.0 one.1 g1 in
    let two = frac_round one in
    let (g3, a3, b3) = round_lem two.0 two.1 g2 in omega (arith, b1, b2, b3)

pub frac_compute_lem : (n r : ℕ) → n < 2 ^ 29 → frac_compute n r ≡ sub32 (n * 8) (loss r)
unfolding frac_compute
frac_compute_lem n r h =
    ap (λ (k : ℕ). sub32 k (loss r)) {x = n * 8 % 2 ^ 32} {y = n * 8} (omega arith)

-- For a normal range and a number of whole bits from 1 to 2 ^ 29 - 1 the result of `frac_compute`
-- is those bits in eighths, less 7 eighths at most.
pub frac_compute_bounds :
    (n r : ℕ)
    → 1 ≤ n
    → n < 2 ^ 29
    → IsRange r
    → (n * 8 ≤ frac_compute n r + 7) × (frac_compute n r ≤ n * 8)
frac_compute_bounds n r p h g = omega (arith, frac_compute_lem n r h, loss-le r g)
