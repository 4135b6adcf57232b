-- ===== src/O3yv/Pixels.antt =====
-- The unchecked loads, stores and copies of minidecoder/src/lib.rs (lines 1842 to 1978). The state
-- is the destination plane. What the source only asserts, an access inside the slice, is
-- demanded here: any other access is a `fault`.
pub mod Safe
use package.rav1e.Prelude.{
  ℕ, zero, suc, ◌+◌, List, ltb, leb, ◌&&◌, length, get_or, set, if◌then◌else◌,
}
use package.rav1e.Prelude.{M, ok, fault, ◌>>=◌, ◌>>◌, require}

-- `n` bytes moved in the order of their addresses. The two slices never overlap.
unfoldable pub copy_range : ℕ → ℕ → List ℕ → ℕ → List ℕ → List ℕ
copy_range zero dst_off src src_off dst = dst
copy_range (suc n) dst_off src src_off dst =
    copy_range n (dst_off + 1) src (src_off + 1) (set dst dst_off (get_or src src_off 0))

unfoldable pub fill_range : ℕ → ℕ → ℕ → List ℕ → List ℕ
fill_range zero off value dst = dst
fill_range (suc n) off value dst = fill_range n (off + 1) value (set dst off value)

unfoldable pub copy_at_len : ℕ → List ℕ → ℕ → ℕ → M (List ℕ) (Unit {0})
copy_at_len dst_off src src_off len dst =
    if leb (dst_off + len) (length dst) && leb (src_off + len) (length src)
    then ok (copy_range len dst_off src src_off dst) tt
    else fault

unfoldable pub copy_exact : ℕ → List ℕ → M (List ℕ) (Unit {0})
copy_exact n src dst =
    if leb n (length dst) && leb n (length src) then ok (copy_range n 0 src 0 dst) tt else fault

unfoldable pub copy_at : ℕ → ℕ → List ℕ → ℕ → M (List ℕ) (Unit {0})
copy_at n dst_off src src_off dst =
    if leb (dst_off + n) (length dst) && leb (src_off + n) (length src)
    then ok (copy_range n dst_off src src_off dst) tt
    else fault

-- One word of four bytes, read and written without alignment.
unfoldable pub copy_at_4 : ℕ → List ℕ → ℕ → M (List ℕ) (Unit {0})
copy_at_4 dst_off src src_off dst =
    if leb (dst_off + 4) (length dst) && leb (src_off + 4) (length src)
    then ok (copy_range 4 dst_off src src_off dst) tt
    else fault

unfoldable pub copy_at_8_by_4 : ℕ → List ℕ → ℕ → M (List ℕ) (Unit {0})
copy_at_8_by_4 dst_off src src_off = do
  copy_at_4 dst_off src src_off
  copy_at_4 (dst_off + 4) src (src_off + 4)

unfoldable pub copy_at_16_by_4 : ℕ → List ℕ → ℕ → M (List ℕ) (Unit {0})
copy_at_16_by_4 dst_off src src_off = do
  copy_at_4 dst_off src src_off
  copy_at_4 (dst_off + 4) src (src_off + 4)
  copy_at_4 (dst_off + 8) src (src_off + 8)
  copy_at_4 (dst_off + 12) src (src_off + 12)

-- One word of eight bytes.
unfoldable pub copy_at_8 : ℕ → List ℕ → ℕ → M (List ℕ) (Unit {0})
copy_at_8 dst_off src src_off dst =
    if leb (dst_off + 8) (length dst) && leb (src_off + 8) (length src)
    then ok (copy_range 8 dst_off src src_off dst) tt
    else fault

-- Two words of eight bytes, both read before the first is written: the slices are distinct.
unfoldable pub copy_at_16 : ℕ → List ℕ → ℕ → M (List ℕ) (Unit {0})
copy_at_16 dst_off src src_off dst =
    if leb (dst_off + 16) (length dst) && leb (src_off + 16) (length src)
    then ok (copy_range 8 (dst_off + 8) src (src_off + 8) (copy_range 8 dst_off src src_off dst)) tt
    else fault

unfoldable pub fill_at : ℕ → ℕ → ℕ → M (List ℕ) (Unit {0})
fill_at off len value dst =
    if leb (off + len) (length dst) then ok (fill_range len off value dst) tt else fault

-- A load from a slice beside the state, or from the plane itself.
unfoldable pub load_from : {S : Type 0} → List ℕ → ℕ → M S ℕ
load_from src off s = if ltb off (length src) then ok s (get_or src off 0) else fault

unfoldable pub load_at : ℕ → M (List ℕ) ℕ
load_at off plane = if ltb off (length plane) then ok plane (get_or plane off 0) else fault

unfoldable pub store_at : ℕ → ℕ → M (List ℕ) (Unit {0})
store_at off value plane = if ltb off (length plane) then ok (set plane off value) tt else fault
