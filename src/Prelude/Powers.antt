-- ===== src/Prelude/Powers.antt =====
-- Powers of two, as shifts by a variable use them.
use native.Mathlib.Nat.{
  pow-suc, pow-le-pow_right, mod-lt, div-lt_iff_lt-mul, div-div-eq-div-mul, div-add-mod',
}
use rav1e.Prelude.{
  ℕ, zero, suc, ◌+◌, ◌*◌, ◌/◌, ◌%◌, ◌^◌, ◌≤◌, ◌<◌, ◌≡◌, ap, sym, ◌∙◌, arith, inl, inr, Bool-cases,
  ltb, ltb→lt, not_ltb→le,
}

pub pow-add : (m n : ℕ) → 2 ^ (m + n) ≡ 2 ^ m * 2 ^ n
pow-add zero n = ap (λ (k : ℕ). 2 ^ k) {x = 0 + n} {y = n} (omega arith) ∙ omega arith
pow-add (suc m) n =
    ap (λ (k : ℕ). 2 ^ k) {x = suc m + n} {y = suc (m + n)} (omega arith)
    ∙ omega (arith, pow-suc 2 (m + n), pow-add m n, ap (λ (t : ℕ). t * 2 ^ n) (pow-suc 2 m))

pub pow-pos : (n : ℕ) → 0 < 2 ^ n
pow-pos zero = omega arith
pow-pos (suc n) = omega (arith, pow-pos n, pow-suc 2 n)

pub pow_mono : (m n : ℕ) → m ≤ n → 2 ^ m ≤ 2 ^ n
pow_mono m n h = pow-le-pow_right {n = 2} (omega arith) h

pub mod-pow-lt : (n k : ℕ) → n % 2 ^ k < 2 ^ k
mod-pow-lt n k = mod-lt n (pow-pos k)

pub div-pow-lt : (n k b : ℕ) → n < 2 ^ k * b → n / 2 ^ k < b
div-pow-lt n k b h = (div-lt_iff_lt-mul {k = 2 ^ k} (pow-pos k)).1 (omega (arith, h))

pub pow_split : (a b n : ℕ) → n ≡ a + b → 2 ^ n ≡ 2 ^ a * 2 ^ b
pow_split a b n h = ap (λ (k : ℕ). 2 ^ k) h ∙ pow-add a b

pub mul_mono_left : (a b c : ℕ) → a ≤ b → a * c ≤ b * c
mul_mono_left a b c h = grind arith

pub lt_cancel : (a b c : ℕ) → a * c < b * c → a < b
lt_cancel a b c h = elim (Bool-cases (ltb a b)) [
  | inl e ↦ ltb→lt a b e
  | inr e ↦ absurd (omega (arith, mul_mono_left b a c (not_ltb→le a b e)))
]

pub mod-pow-suc : (n s : ℕ) → s % 2 ^ suc n ≡ s / 2 ^ n % 2 * 2 ^ n + s % 2 ^ n
mod-pow-suc n s =
    let P = 2 ^ n in
    let q = s / P in
    let half : s / 2 ^ suc n ≡ q / 2 =
      ap (λ (t : ℕ). s / t) (pow-suc 2 n) ∙ sym (div-div-eq-div-mul s P 2) in
    let twice : s / 2 ^ suc n * 2 ^ suc n ≡ q / 2 * 2 * P = rw (half, pow-suc 2 n) (omega arith) in
    let parts : q * P ≡ (q / 2 * 2 + q % 2) * P = ap (λ (t : ℕ). t * P) (omega arith) in
    omega (arith, twice, parts, div-add-mod' s P, div-add-mod' s (2 ^ suc n))
