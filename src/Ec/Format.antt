-- ===== src/Ec/Format.antt =====
-- Constants of src/ec.rs, and the arithmetic of its machine words (`u16`, `u32`).
use package.rav1e.Prelude.{ℕ, zero, suc, ◌+◌, ◌-◌, ◌%◌, ◌^◌, leb, if◌then◌else◌}

abbrev pub od_bitres : ℕ
od_bitres = 3

abbrev pub ec_prob_shift : ℕ
ec_prob_shift = 6

abbrev pub ec_min_prob : ℕ
ec_min_prob = 4

-- `a - b` of words of 16 and of 32 bits, as a release build wraps them.
abbrev pub sub16 : ℕ → ℕ → ℕ
sub16 a b = (a + 2 ^ 16 - b) % 2 ^ 16

abbrev pub sub32 : ℕ → ℕ → ℕ
sub32 a b = (a + 2 ^ 32 - b) % 2 ^ 32

-- `v.leading_zeros()` of a word of `w` bits.
unfoldable pub leading_zeros : ℕ → ℕ → ℕ
leading_zeros zero v = 0
leading_zeros (suc w) v = let rest = leading_zeros w v in if leb (2 ^ w) v then 0 else suc rest
