-- ===== src/Ec/Base.antt =====
-- The state that every writer of src/ec.rs shares, and what it computes (lines 101 to 170 and
-- 305 to 395).
pub mod Bounds
use package.rav1e.Prelude.{ℕ, zero, suc, ◌+◌, ◌-◌, ◌*◌, ◌/◌, ◌%◌, ◌^◌, ltb, leb, if◌then◌else◌}
use package.rav1e.Prelude.Int.{ℤ, pos, negsuc}
use package.rav1e.Ec.Format.{od_bitres, ec_prob_shift, ec_min_prob, sub16, sub32}

-- `rng` is a `u16`, `cnt` an `i16` and `fake_bits_frac` a `u32`.
pub record WriterBase (S : Type 0) : Type 0 where
  pub rng : ℕ
  pub cnt : ℤ
  pub fake_bits_frac : ℕ
  pub s : S

pub record WriterCheckpoint : Type 0 where
  pub stream_size : ℕ
  pub backend_var : ℕ
  pub rng : ℕ
  pub cnt : ℤ

-- What the generic writer asks of its storage.
pub record StorageBackend (S : Type 0) : Type 0 where
  pub store : ℕ → ℕ → ℕ → WriterBase S → WriterBase S
  pub stream_bits : WriterBase S → ℕ
  pub checkpoint : WriterBase S → WriterCheckpoint
  pub rollback : WriterCheckpoint → WriterBase S → WriterBase S

unfoldable pub new : {S : Type 0} → S → WriterBase S
new storage = record { rng = 0x8000; cnt = negsuc 8; fake_bits_frac = 0; s = storage }

-- The scaled bound of a symbol: `((r >> 8) * (f >> 6)) >> 1`, and a minimum for each symbol left.
abbrev pub scale : ℕ → ℕ → ℕ
scale r f = r / 2 ^ 8 * (f / 2 ^ ec_prob_shift) / 2 ^ (7 - ec_prob_shift)

unfoldable pub lr_compute : ℕ → ℕ → ℕ → ℕ → ℕ × ℕ
lr_compute rng fl fh nms =
    let u = if leb 32768 fl then rng else scale rng fl + ec_min_prob * nms in
    let v = scale rng fh + ec_min_prob * sub16 nms 1 in (sub32 rng u, sub32 u v % 2 ^ 16)

-- One round of the loop of `frac_compute`, on `rng` and `l`.
abbrev pub frac_round : ℕ × ℕ → ℕ × ℕ
frac_round (rng, l) =
    let square = rng * rng / 2 ^ 15 in let b = square / 2 ^ 16 in (square / 2 ^ b, l * 2 + b)

unfoldable pub frac_compute : ℕ → ℕ → ℕ
frac_compute nbits_total rng =
    let (_, l) = frac_round (frac_round (frac_round (rng, 0))) in
    sub32 (nbits_total * 2 ^ od_bitres % 2 ^ 32) l

unfoldable pub recenter : ℕ → ℕ → ℕ
recenter r v = if ltb (r * 2) v then v else if leb r v then (v - r) * 2 else (r - v) * 2 - 1
