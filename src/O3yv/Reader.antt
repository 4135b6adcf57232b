-- ===== src/O3yv/Reader.antt =====
-- `Reader` of minidecoder/src/lib.rs: a position in a slice. Its methods are the state in `M`.
-- `usize` sums here stay below twice the length of a slice, and so do not wrap.
pub mod Safe
pub mod Advance
use package.rav1e.Prelude.{
  ℕ, ◌+◌, ◌-◌, ◌*◌, ◌^◌, List, ltb, leb, ◌==◌, if◌then◌else◌, take, drop, length,
}
use package.rav1e.Prelude.{M, ok, err, fault, ◌>>=◌, done, eof}
use package.rav1e.Prelude.Int.{ℤ}
use package.rav1e.O3yv.Bytes.{byte_at, word16, word32, signed8, signed16}

pub record Reader : Type 0 where
  pub bytes : List ℕ
  pub pos : ℕ

unfoldable pub new : List ℕ → Reader
new bytes = record { bytes = bytes; pos = 0 }

-- `usize` subtraction of a position that is never past the end.
unfoldable pub remaining : Reader → ℕ
remaining r = length r.bytes - r.pos

-- The `n` bytes of a slice from `start`.
abbrev pub slice : List ℕ → ℕ → ℕ → List ℕ
slice bytes start n = take n (drop start bytes)

unfoldable pub take_bytes : ℕ → M Reader (List ℕ)
unfolding remaining
take_bytes n r =
    if ltb (remaining r) n
    then err r eof
    else ok (record r { pos = r.pos + n }) (slice r.bytes r.pos n)

unfoldable pub skip : ℕ → M Reader (Unit {0})
skip n = take_bytes n >>= λ _. done tt

-- The value of the `n` bytes at the position, and the position behind them: a fault, if one of
-- them is outside the slice.
abbrev pub loaded : {A : Type 0} → ℕ → A → M Reader A
loaded n v r =
    if leb (r.pos + n) (length r.bytes) then ok (record r { pos = r.pos + n }) v else fault

unfoldable pub consume_optional_trailing_zero : M Reader (Unit {0})
unfolding remaining
consume_optional_trailing_zero r =
    if remaining r == 1
    then (if leb (length r.bytes) r.pos
        then fault
        else if byte_at r.bytes r.pos == 0
        then ok (record r { pos = r.pos + 1 }) tt
        else ok r tt)
    else ok r tt

unfoldable pub u8 : M Reader ℕ
u8 r = if leb (length r.bytes) r.pos then err r eof else loaded 1 (byte_at r.bytes r.pos) r

unfoldable pub i8 : M Reader ℤ
i8 = u8 >>= λ v. done (signed8 v)

unfoldable pub u16 : M Reader ℕ
u16 r = if ltb (length r.bytes) (r.pos + 2) then err r eof else loaded 2 (word16 r.bytes r.pos) r

unfoldable pub i16 : M Reader ℤ
i16 r =
    if ltb (length r.bytes) (r.pos + 2)
    then err r eof
    else loaded 2 (signed16 (word16 r.bytes r.pos)) r

unfoldable pub u32 : M Reader ℕ
unfolding word32
u32 r = if ltb (length r.bytes) (r.pos + 4) then err r eof else loaded 4 (word32 r.bytes r.pos) r

unfoldable pub u64 : M Reader ℕ
u64 r =
    if ltb (length r.bytes) (r.pos + 8)
    then err r eof
    else loaded 8
        (byte_at r.bytes r.pos
          + byte_at r.bytes (r.pos + 1) * 2 ^ 8
          + byte_at r.bytes (r.pos + 2) * 2 ^ 16
          + byte_at r.bytes (r.pos + 3) * 2 ^ 24
          + byte_at r.bytes (r.pos + 4) * 2 ^ 32
          + byte_at r.bytes (r.pos + 5) * 2 ^ 40
          + byte_at r.bytes (r.pos + 6) * 2 ^ 48
          + byte_at r.bytes (r.pos + 7) * 2 ^ 56)
        r
