-- ===== src/Ec/Tell.antt =====
-- The costs that a `Writer` of src/ec.rs reports.
pub mod Agreement
pub mod Frac
pub mod Estimate
use package.rav1e.Prelude.{
  ℕ, ◌+◌, ◌-◌, ◌*◌, ◌/◌, ◌%◌, ◌^◌, List, length, get_elem?, Option, none, some, ltb, if◌then◌else◌,
}
use mathlib.Core.Option
use package.rav1e.Prelude.Int.{ℤ, pos, ◌+ℤ◌, ◌-ℤ◌, ltb_ℤ}
use package.rav1e.Ec.Format.{ec_prob_shift, ec_min_prob, sub32, leading_zeros}
use package.rav1e.Ec.Base.{WriterBase, StorageBackend, frac_compute}
use package.rav1e.Ec.Symbol.{to_u32}

unfoldable pub add_bits_frac : {S : Type 0} → ℕ → WriterBase S → WriterBase S
add_bits_frac bits_frac w = record w { fake_bits_frac = (w.fake_bits_frac + bits_frac) % 2 ^ 32 }

unfoldable pub tell : {S : Type 0} → StorageBackend S → WriterBase S → ℕ
tell b w = (to_u32 (pos (b.stream_bits w) +ℤ w.cnt +ℤ pos 10) + w.fake_bits_frac / 2 ^ 8) % 2 ^ 32

unfoldable pub tell_frac : {S : Type 0} → StorageBackend S → WriterBase S → ℕ
tell_frac b w = (frac_compute (tell b w) w.rng + w.fake_bits_frac) % 2 ^ 32

-- The bits that a shift by `d` puts out, and `cnt` after it: the sum of `bits` and `sh`.
unfoldable pub shifted : ℤ → ℕ → ℤ
shifted cnt d =
    let sh = cnt +ℤ pos d in
    let c = cnt +ℤ pos 16 in
    if ltb_ℤ sh (pos 0)
    then sh
    else if ltb_ℤ sh (pos 8)
    then pos 8 +ℤ (c +ℤ pos d -ℤ pos 24)
    else pos 16 +ℤ (c -ℤ pos 8 +ℤ pos d -ℤ pos 24)

-- The size of the range of a symbol, with the word `fl` before it if there is one.
unfoldable pub symbol_range : ℕ → Option ℕ → ℕ → ℕ → ℕ → ℕ
symbol_range r none fh len s =
    sub32 (sub32 r (r / 2 ^ 8 * (fh / 2 ^ ec_prob_shift) / 2 ^ (7 - ec_prob_shift)))
      (sub32 (sub32 len s) 1 * ec_min_prob)
symbol_range r (some fl) fh len s =
    (sub32 (r / 2 ^ 8 * (fl / 2 ^ ec_prob_shift) / 2 ^ (7 - ec_prob_shift))
        (r / 2 ^ 8 * (fh / 2 ^ ec_prob_shift) / 2 ^ (7 - ec_prob_shift))
      + ec_min_prob)
    % 2 ^ 32

-- `none` is an index outside of the distribution.
unfoldable pub symbol_bits : {S : Type 0} → ℕ → List ℕ → WriterBase S → Option ℕ
symbol_bits s cdf w =
    let before : Option (Option ℕ) =
      if ltb 0 s then Option.map some (get_elem? cdf (s - 1)) else some none in
    elim (get_elem? cdf s) [
      | none ↦ none
      | some fh ↦ elim before [
        | none ↦ none
        | some fl ↦
            let r = symbol_range w.rng fl fh (length cdf) s in
            let pre = frac_compute (to_u32 (w.cnt +ℤ pos 9)) w.rng in
            let d = leading_zeros 32 r - 16 in
            some (sub32 (frac_compute (to_u32 (shifted w.cnt d +ℤ pos 9)) (r * 2 ^ d % 2 ^ 32)) pre)
      ]
    ]
