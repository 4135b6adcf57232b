-- ===== src/O3yv/Reuse.antt =====
-- The test of minidecoder/src/lib.rs (lines 803 to 922) that a small P frame repeats its reference,
-- made without touching a picture. Where the source returns `None`, the model stops with an error,
-- whose kind the callers drop.
use rav1e.Prelude.{
  ℕ, zero, suc, ◌-◌, List, ltb, ◌==◌, not, ◌&&◌, ◌||◌, if◌then◌else◌, length, bit_and, Bool, false,
}
use rav1e.Prelude.{M, ok, err, fault, ◌>>=◌, ◌>>◌, done, invalid, refuse_if}
use rav1e.O3yv.Format.{mb_w, mb_h, tile_header_size, tile_flag_lazy_base_copy, fragment_header_size}
use rav1e.O3yv.Frame.{is_zero}
use rav1e.O3yv.Reader
use rav1e.O3yv.Reader.{Reader, u8, i8, u16, u32, take_bytes, remaining}
use rav1e.O3yv.Modes.{validate_fragment_header, validate_segment_map, mode_stream_is_all_skip}

-- `tile_flags & !SUPPORTED_TILE_FLAGS` is not zero.
abbrev pub unsupported_flags : ℕ → Bool
unsupported_flags tile_flags = not (bit_and tile_flags (0xffff - tile_flag_lazy_base_copy) == 0)

-- A reader of its own on `payload`; an error means `false`.
abbrev pub holds_on : List ℕ → M Reader Bool → Bool
holds_on payload m = elim (m (Reader.new payload)) [ ok _ b ↦ b | err _ _ ↦ false | fault ↦ false ]

unfoldable pub fragment_payload_reuses_reference : ℕ → ℕ → M Reader Bool
fragment_payload_reuses_reference tile_id segment_count = do
  λ r. refuse_if (ltb (remaining r) fragment_header_size) invalid r
  frag_tile_id ← u8
  row_start ← u8
  row_count ← u8
  flags ← u8
  start_mb ← u16
  count ← u16
  segment_map_size ← u32
  mode_size ← u32
  residual_size ← u32
  raw_size ← u32
  crc ← u32
  let rest = (do
    validate_fragment_header frag_tile_id tile_id flags crc row_start row_count start_mb count
    segment_map ← take_bytes segment_map_size
    validate_segment_map segment_map segment_count count
    mode_stream ← take_bytes mode_size
    residual_stream ← take_bytes residual_size
    raw_stream ← take_bytes raw_size
    done (
        length residual_stream == 0
        && length raw_stream == 0
        && mode_stream_is_all_skip mode_stream count))
  if not (residual_size == 0) || not (raw_size == 0) then done false else rest

-- `for _ in 0..n { .. return false .. }` over parts, and nothing left behind them.
unfoldable pub all_reuse : M Reader Bool → ℕ → M Reader Bool
all_reuse part zero = λ r. ok r (remaining r == 0)
all_reuse part (suc n) =
    let rest = all_reuse part n in part >>= λ identity. if identity then rest else done false

unfoldable pub tile_payload_reuses_reference : List ℕ → ℕ → ℕ → ℕ → Bool
tile_payload_reuses_reference payload tile_id segment_count fragment_count =
    holds_on payload
      (all_reuse (fragment_payload_reuses_reference tile_id segment_count) fragment_count)

unfoldable pub tile_reuses_reference : M Reader Bool
tile_reuses_reference = do
  λ r. refuse_if (ltb (remaining r) tile_header_size) invalid r
  tile_id ← u8
  mb_x ← u8
  mb_y ← u8
  tile_w ← u8
  tile_h ← u8
  base_x ← i8
  base_y ← i8
  q_y ← u8
  q_uv ← u8
  segment_count ← u8
  fragment_count ← u8
  tile_flags ← u16
  payload_size ← u32
  refuse_if
      (ltb 1 tile_id
        || not (mb_x == 0)
        || not (mb_y == 0)
        || not (tile_w == mb_w)
        || not (tile_h == mb_h)
        || ltb 127 q_y
        || ltb 127 q_uv
        || ltb segment_count 1
        || ltb 4 segment_count
        || fragment_count == 0
        || unsupported_flags tile_flags)
      invalid
  let rest = (do
    payload ← take_bytes payload_size
    done (tile_payload_reuses_reference payload tile_id segment_count fragment_count))
  if is_zero base_x && is_zero base_y then rest else done false

unfoldable pub p_payload_reuses_reference : List ℕ → ℕ → Bool
p_payload_reuses_reference payload tile_count =
    holds_on payload (all_reuse tile_reuses_reference tile_count)
