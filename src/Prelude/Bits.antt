-- ===== src/Prelude/Bits.antt =====
-- Bounds on bit operations, from the recursion on binary digits that `bit_and` stands for.
use Prim.Native.Nat.{digits, bit_and-bitwise}
use native.Mathlib.Nat.{
  pow-suc, mod-le, zero-mod, mod-lt, mod-eq_of_lt, div-add-mod', mul-add-mod_self_right,
}
use rav1e.Prelude.Powers.{pow-pos}
use rav1e.Prelude.{
  ℕ, zero, suc, ◌+◌, ◌-◌, ◌*◌, ◌/◌, ◌%◌, ◌^◌, ◌≤◌, ◌<◌, min, bit_and, ◌≡◌, ◌≢◌, refl, ap, ◌∙◌, sym,
  arith,
}

abbrev and_digits : ℕ → ℕ → ℕ → ℕ
and_digits = digits (λ _. zero) min

and_digits-le : (n a b : ℕ) → and_digits n a b ≤ b
and_digits-le zero a b = omega arith
and_digits-le (suc n) zero b = omega arith
and_digits-le (suc n) (suc a) b = omega (arith, and_digits-le n (suc a / 2) (b / 2))

pub bit_and-le : (a b : ℕ) → bit_and a b ≤ b
bit_and-le a b = omega (arith, bit_and-bitwise a b, and_digits-le a a b)

-- Clearing the lowest set bit makes a number smaller.
pub clear_lowest-lt : (v : ℕ) → v ≢ 0 → bit_and v (v - 1) < v
clear_lowest-lt v h = omega (arith, bit_and-le v (v - 1))

-- `a >> k`, one bit at a time.
abbrev halve : ℕ → ℕ → ℕ
halve zero a = a
halve (suc k) a = halve k (a / 2)

halve-zero : (k a : ℕ) → halve k a ≡ 0 → a < 2 ^ k
halve-zero zero a h = omega arith
halve-zero (suc k) a h = omega (arith, halve-zero k (a / 2) h, pow-suc 2 k)

halve-lt : (k c a : ℕ) → a < 2 ^ k * c → halve k a < c
halve-lt zero c a h = omega arith
halve-lt (suc k) c a h = halve-lt k c (a / 2) (omega (arith, ap (λ (t : ℕ). t * c) (pow-suc 2 k)))

-- Where the conjunction is empty, so is that of the higher bits.
halve-and_digits :
    (k n a b : ℕ)
    → a ≤ n
    → and_digits n a b ≡ 0
    → (m : ℕ) × (halve k a ≤ m) × (and_digits m (halve k a) (halve k b) ≡ 0)
halve-and_digits zero n a b h e = (n, h, e)
halve-and_digits (suc k) zero zero b h e = halve-and_digits k zero zero (b / 2) (omega arith) refl
halve-and_digits (suc k) zero (suc a) b h e = absurd (omega arith)
halve-and_digits (suc k) (suc n) zero b h e =
    halve-and_digits k (suc n) zero (b / 2) (omega arith) refl
halve-and_digits (suc k) (suc n) (suc a) b h e =
    halve-and_digits k n (suc a / 2) (b / 2) (omega arith) (omega arith)

abbrev ones : ℕ → ℕ
ones zero = 0
ones (suc j) = 2 * ones j + 1

half_ones : (j : ℕ) → ones (suc j) / 2 ≡ ones j
half_ones j = omega arith

and_digits-ones : (j n a : ℕ) → a < 2 ^ j → a ≤ n → and_digits n a (ones j) ≡ 0 → a ≡ 0
and_digits-ones zero n a h k e = omega arith
and_digits-ones (suc j) n zero h k e = refl
and_digits-ones (suc j) zero (suc a) h k e = absurd (omega arith)
and_digits-ones (suc j) (suc n) (suc a) h k e = omega (
  arith,
  and_digits-ones j n (suc a / 2) (omega (arith, pow-suc 2 j)) (omega arith)
      (ap (and_digits n (suc a / 2)) (sym (half_ones j)) ∙ omega arith),
)

-- A word with none of its eight highest bits set is below 2 ^ 24.
pub no_high_bits : (a : ℕ) → a < 2 ^ 32 → bit_and a 0xff00_0000 ≡ 0 → a < 2 ^ 24
no_high_bits a h e =
    let (m, fits, none) =
      halve-and_digits 24 a a 0xff00_0000 (omega arith) (sym (bit_and-bitwise a _) ∙ e) in
    halve-zero 24 a (and_digits-ones 8 m (halve 24 a) (halve-lt 24 256 a h) fits none)

-- The rest by twice a number, from the lowest bit and the others.
mod_two : (a p : ℕ) → 0 < p → a % (p * 2) ≡ a / 2 % p * 2 + a % 2
mod_two a p h =
    let q = a / 2 / p in
    let low = a / 2 % p * 2 + a % 2 in
    let parts : a ≡ q * (p * 2) + low = omega (arith, div-add-mod' (a / 2) p) in
    ap (λ (t : ℕ). t % (p * 2)) parts
    ∙ mul-add-mod_self_right q (p * 2) low
    ∙ mod-eq_of_lt (omega (arith, mod-lt (a / 2) h))

and_digits-low_ones : (j n a : ℕ) → a ≤ n → and_digits n a (ones j) ≡ a % 2 ^ j
and_digits-low_ones zero n a h = omega (arith, and_digits-le n a 0)
and_digits-low_ones (suc j) zero a h = omega (arith, h, mod-le a (2 ^ suc j))
and_digits-low_ones (suc j) (suc n) zero h = sym (zero-mod (2 ^ suc j))
and_digits-low_ones (suc j) (suc n) (suc a) h =
    let half = ap (and_digits n (suc a / 2)) (half_ones j) in
    let low : suc a % 2 ^ suc j ≡ suc a / 2 % 2 ^ j * 2 + suc a % 2 =
      ap (λ (p : ℕ). suc a % p) (pow-suc 2 j) ∙ mod_two (suc a) (2 ^ j) (pow-pos j) in
    omega (arith, half, and_digits-low_ones j n (suc a / 2) (omega arith), low)

pub bit_and-ones : (j a : ℕ) → bit_and a (ones j) ≡ a % 2 ^ j
bit_and-ones j a = bit_and-bitwise a (ones j) ∙ and_digits-low_ones j a a (omega arith)

-- The two lowest bits, and the 32 lowest.
pub and_three : (a : ℕ) → bit_and a 3 ≡ a % 4
and_three a = bit_and-ones 2 a

pub and_word : (a : ℕ) → bit_and a (2 ^ 32 - 1) ≡ a % 2 ^ 32
and_word a = bit_and-ones 32 a
