-- ===== src/Tiling/Strips.antt =====
-- One direction of a tiling of src/tiling/tiler.rs: strips of one size that cover a length.
use rav1e.Prelude.{
  ℕ, zero, suc, ◌+◌, ◌-◌, ◌*◌, ◌/◌, ◌%◌, ◌^◌, ◌≤◌, ◌<◌, min, ◌≡◌, ap, sym, ◌∙◌, arith, some,
}
use native.Mathlib.Nat.{
  div-eq_of_lt-le, div-lt_iff_lt-mul, div-add-mod', mod-lt, mul_assoc, mul-pos, add-mul,
  mod-eq_of_lt, mul-add-mod_self_right,
}
use rav1e.Prelude.Powers.{pow-pos, mul_mono_left}
use rav1e.Tiling.Info.{Align, div_ceil}

-- Strips of a size cover a length, and the last of them starts within it.
pub record IsStrips (len size count : ℕ) : Type 0 where
  pub wide : 0 < size
  pub covers : len ≤ count * size
  pub last : count * size < len + size

pub div_ceil-bounds :
    (a b count : ℕ) → div_ceil a b ≡ some count → (0 < b) × (a ≤ count * b) × (count * b < a + b)
unfolding div_ceil
div_ceil-bounds a zero count h = ground arith
div_ceil-bounds a (suc b) count h =
    let is : (a + b) / suc b ≡ count = ground arith in
    let parts : count * suc b + (a + b) % suc b ≡ a + b =
      ap (λ (t : ℕ). t * suc b + (a + b) % suc b) (sym is) ∙ div-add-mod' (a + b) (suc b) in
    let rest = mod-lt (a + b) {m = suc b} (omega arith) in
    (omega arith, omega (arith, parts, rest), omega (arith, parts))

pub align-IsStrips :
    (A : Align) (len n w count : ℕ)
    → div_ceil (A.align_and_shift len n) w ≡ some count
    → IsStrips len (w * 2 ^ n) count
align-IsStrips A len n w count h =
    let (wide, covers, last) = div_ceil-bounds (A.align_and_shift len n) w count h in
    let s = A.align_and_shift len n in
    let size = mul_assoc count w (2 ^ n) in
    record {
      wide = mul-pos wide (pow-pos n);
      covers = omega (arith, A.covers len n, mul_mono_left s (count * w) (2 ^ n) covers, size);
      last = omega (
        arith,
        A.least len n,
        mul_mono_left (count * w + 1) (s + w) (2 ^ n) (omega (arith, last)),
        add-mul (count * w) 1 (2 ^ n),
        add-mul s w (2 ^ n),
        size,
      );
    }

-- A point lies in one strip, and in no other.
pub strip_of : (c size x : ℕ) → c * size ≤ x → x < c * size + size → x / size ≡ c
strip_of c size x lo hi = div-eq_of_lt-le _ lo (omega (arith, hi, add-mul c 1 size))

module _ (len size count x : ℕ) (strips : IsStrips len size count) (inside : x < len) where
  abbrev c : ℕ
  c = x / size

  pub strip-lt : x / size < count
  strip-lt = (div-lt_iff_lt-mul {k = size} strips.wide).1 (omega (arith, inside, strips.covers))

  -- The part of the strip within the length holds the point, and does not leave the length.
  pub strip_holds :
      (x / size * size ≤ x)
      × (x < x / size * size + min size (len - x / size * size))
      × (x / size * size + min size (len - x / size * size) ≤ len)
  strip_holds =
      let parts = div-add-mod' x size in
      let rest = mod-lt x strips.wide in
      (omega (arith, parts), omega (arith, parts, rest, inside), omega (arith, parts, inside))

-- The number of a tile, from its row and column, and back.
pub column_of : (row cols c : ℕ) → c < cols → (row * cols + c) % cols ≡ c
column_of row cols c h = mul-add-mod_self_right row cols c ∙ mod-eq_of_lt h

pub row_of : (row cols c : ℕ) → c < cols → (row * cols + c) / cols ≡ row
row_of row cols c h = div-eq_of_lt-le _ (omega arith) (omega (arith, h, add-mul row 1 cols))
