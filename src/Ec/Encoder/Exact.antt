-- ===== src/Ec/Encoder/Exact.antt =====
-- The coder that `WriterEncoder` of src/ec.rs stands for: one number without a bound for `low`,
-- and nothing put out.
pub mod Emit
pub mod Refinement
pub mod Finish
use package.rav1e.Prelude.{
  ℕ, zero, suc, ◌+◌, ◌-◌, ◌*◌, ◌/◌, ◌%◌, ◌^◌, ◌≤◌, ◌<◌, ◌≡◌, refl, List, [], ◌∷◌, ◌++◌, length,
  arith,
}
use package.rav1e.Prelude.Int.{ℤ, pos, negsuc}
use package.rav1e.Ec.Format.{leading_zeros}
use package.rav1e.Ec.Base.{WriterBase, lr_compute}

-- `low / 2 ^ bits` is the lower end of the interval, and `rng / 2 ^ bits` its size.
pub record Exact : Type 0 where
  pub low : ℕ
  pub rng : ℕ
  pub bits : ℕ

abbrev pub start : Exact
start = record { low = 0; rng = 0x8000; bits = 0 }

unfoldable pub exact_store : ℕ → ℕ → ℕ → Exact → Exact
exact_store fl fh nms x =
    let (l, r) = lr_compute x.rng fl fh nms in
    let d = leading_zeros 16 r in
    record { low = (x.low + l) * 2 ^ d; rng = r * 2 ^ d; bits = x.bits + d }

-- The number whose digits to the base 256 are a list's, behind those of `acc`; a digit may carry.
unfoldable pub value_from : ℕ → List ℕ → ℕ
value_from acc [] = acc
value_from acc (x ∷ xs) = value_from (acc * 256 + x) xs

-- A byte and its carry.
pub data IsDigits : List ℕ → Type 0 where
  no_digits : IsDigits []
  digit : {x : ℕ} {xs : List ℕ} → x < 512 → IsDigits xs → IsDigits (x ∷ xs)

pub value-append :
    (acc : ℕ) (xs ys : List ℕ) → value_from acc (xs ++ ys) ≡ value_from (value_from acc xs) ys
unfolding value_from
value-append acc [] ys = refl
value-append acc (x ∷ xs) ys = value-append (acc * 256 + x) xs ys

pub IsDigits-append : {xs ys : List ℕ} → IsDigits xs → IsDigits ys → IsDigits (xs ++ ys)
IsDigits-append no_digits k = k
IsDigits-append (digit l h) k = digit l (IsDigits-append h k)
