-- ===== src/Quantize/Magic.antt =====
-- Why a multiplication and a shift divide.
use native.Mathlib.Nat.{div-eq_of_lt-le}
use rav1e.Prelude.{ℕ, ◌+◌, ◌*◌, ◌/◌, ◌≤◌, ◌<◌, ◌≡◌, ap, arith}
use rav1e.Prelude.Powers.{mul_mono_left, lt_cancel}

module _ (K d s x q rest : ℕ) (parts : x ≡ q * d + rest) (small : rest < d) where
  -- A factor that is a little too large.
  pub mul_up : (e : ℕ) → s * d ≡ K + e → e * x < K → s * x / K ≡ q
  mul_up e factor error =
      let lower : q * K ≤ s * x =
        omega
          (arith, ap (λ (t : ℕ). t * q) factor, mul_mono_left (q * d) x s (omega (arith, parts))) in
      let upper : s * x < (q + 1) * K = lt_cancel (s * x) ((q + 1) * K) d (
        omega (
          arith,
          ap (λ (t : ℕ). t * x) factor,
          error,
          mul_mono_left (x + 1) (q * d + d) K (omega (arith, parts, small)),
        )) in
      div-eq_of_lt-le K lower upper

  -- A factor that is a little too small.
  pub mul_down : (f : ℕ) → s * d + f ≡ K → 0 < f → f * (x + 1) ≤ K → s * (x + 1) / K ≡ q
  mul_down f factor pos error =
      let lower : q * K < s * (x + 1) + 1 = lt_cancel (q * K) (s * (x + 1) + 1) d (
        omega (
          arith,
          ap (λ (t : ℕ). t * (x + 1)) factor,
          error,
          mul_mono_left (q * d) x K (omega (arith, parts)),
          small,
        )) in
      let upper : s * (x + 1) < (q + 1) * K = lt_cancel (s * (x + 1)) ((q + 1) * K) d (
        omega (
          arith,
          ap (λ (t : ℕ). t * (x + 1)) factor,
          mul_mono_left 1 f (x + 1) pos,
          mul_mono_left (x + 1) (q * d + d) K (omega (arith, parts, small)),
        )) in
      div-eq_of_lt-le K (omega (arith, lower)) upper
