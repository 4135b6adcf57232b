-- ===== src/Quantize/Division.antt =====
-- Division by multiplication: divu_gen and divu_pair of src/quantize/mod.rs.
use package.rav1e.Prelude.{
  ℕ, zero, suc, ◌+◌, ◌-◌, ◌*◌, ◌/◌, ◌%◌, ◌^◌, bit_and, Bool, false, ◌||◌, leb, ◌==◌, if◌then◌else◌,
}
use package.rav1e.Ec.Format.{leading_zeros}

-- `(u32, u32, u32)`
pub record MulAdd : Type 0 where
  pub mul : ℕ
  pub add : ℕ
  pub shift : ℕ

-- `d.is_power_of_two()` of a word of `w` bits.
unfoldable pub is_power_of_two : ℕ → ℕ → Bool
is_power_of_two zero d = false
is_power_of_two (suc w) d = (d == 2 ^ w) || is_power_of_two w d

unfoldable pub divu_gen : ℕ → MulAdd
divu_gen d =
    let nbits : ℕ = 32 in
    let m = nbits - leading_zeros 32 d - 1 in
    if is_power_of_two 32 d
    then record { mul = 0xFFFF_FFFF; add = 0xFFFF_FFFF; shift = m }
    else let t = 2 ^ (m + nbits) / d in
      let r = bit_and (t * d + d) (2 ^ nbits - 1) in
      if leb r (2 ^ m)
      then record { mul = (t % 2 ^ 32 + 1) % 2 ^ 32; add = 0; shift = m }
      else record { mul = t % 2 ^ 32; add = t % 2 ^ 32; shift = m }

unfoldable pub divu_pair : ℕ → MulAdd → ℕ
divu_pair x d = (d.mul * x + d.add) / 2 ^ 32 / 2 ^ d.shift % 2 ^ 32
