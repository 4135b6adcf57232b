-- ===== src/O3yv/Bytes.antt =====
-- Bytes and little-endian words of minidecoder/src/lib.rs: `put_u16`, `put_u32`, `put_u64`, the
-- loads, and the casts of a pattern to a signed integer.
pub mod Loads
use package.rav1e.Prelude.{
  ℕ, ◌+◌, ◌-◌, ◌*◌, ◌/◌, ◌%◌, ◌^◌, List, [], ◌∷◌, ◌++◌, ltb, leb, length, if◌then◌else◌, get_or, M,
  ok, fault,
}
use package.rav1e.Prelude.Int.{ℤ, pos, negsuc}

-- The `i`-th byte of `v.to_le_bytes()`.
abbrev pub le_byte : ℕ → ℕ → ℕ
le_byte i v = v / 2 ^ (8 * i) % 2 ^ 8

-- An out buffer grows at its end.
unfoldable pub put_u16 : List ℕ → ℕ → List ℕ
put_u16 out v = out ++ (le_byte 0 v ∷ le_byte 1 v ∷ [])

unfoldable pub put_u32 : List ℕ → ℕ → List ℕ
put_u32 out v = out ++ (le_byte 0 v ∷ le_byte 1 v ∷ le_byte 2 v ∷ le_byte 3 v ∷ [])

unfoldable pub put_u64 : List ℕ → ℕ → List ℕ
put_u64 out v =
    out
    ++ (le_byte 0 v
        ∷ le_byte 1 v
        ∷ le_byte 2 v
        ∷ le_byte 3 v
        ∷ le_byte 4 v
        ∷ le_byte 5 v
        ∷ le_byte 6 v
        ∷ le_byte 7 v
        ∷ [])

unfoldable pub push : List ℕ → ℕ → List ℕ
push out v = out ++ (v ∷ [])

-- What a byte list holds at an index, and the values of words of two and four bytes.
abbrev pub byte_at : List ℕ → ℕ → ℕ
byte_at bytes i = get_or bytes i 0

abbrev pub word16 : List ℕ → ℕ → ℕ
word16 bytes i = byte_at bytes i + byte_at bytes (i + 1) * 2 ^ 8

unfoldable pub word32 : List ℕ → ℕ → ℕ
word32 bytes i =
    byte_at bytes i
    + byte_at bytes (i + 1) * 2 ^ 8
    + byte_at bytes (i + 2) * 2 ^ 16
    + byte_at bytes (i + 3) * 2 ^ 24

-- The loads through a pointer into a slice. They are not checked by the code: a load that is not
-- wholly inside the slice is a fault.
unfoldable pub load_byte : {S : Type 0} → List ℕ → ℕ → M S ℕ
load_byte bytes i s = if leb (i + 1) (length bytes) then ok s (byte_at bytes i) else fault

unfoldable pub load_u16_le : {S : Type 0} → List ℕ → ℕ → M S ℕ
load_u16_le bytes i s = if leb (i + 2) (length bytes) then ok s (word16 bytes i) else fault

unfoldable pub load_u32_le : {S : Type 0} → List ℕ → ℕ → M S ℕ
load_u32_le bytes i s = if leb (i + 4) (length bytes) then ok s (word32 bytes i) else fault

-- `v as i8` for a byte, `i16::from_le_bytes` for a word of two.
abbrev pub signed8 : ℕ → ℤ
signed8 v = if ltb v 128 then pos v else negsuc (255 - v)

abbrev pub signed16 : ℕ → ℤ
signed16 v = if ltb v (2 ^ 15) then pos v else negsuc (2 ^ 16 - 1 - v)

-- `v as u8` for an `i8`.
abbrev pub byte_of : ℤ → ℕ
byte_of (pos n) = n
byte_of (negsuc n) = 255 - n
