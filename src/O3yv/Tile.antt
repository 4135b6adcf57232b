-- ===== src/O3yv/Tile.antt =====
-- A tile, one eye of a P frame, of minidecoder/src/lib.rs (`decode_tile`, lines 728 to 801).
pub mod Safe
use package.rav1e.Prelude.{
  ℕ, zero, suc, ◌+◌, List, ltb, ◌==◌, not, ◌||◌, if◌then◌else◌, bit_and, Bool,
}
use package.rav1e.Prelude.{M, ok, err, fault, ◌>>=◌, ◌>>◌, done, eof, invalid, unsupported}
use package.rav1e.Prelude.{refuse_if, zoom, get_state}
use package.rav1e.Prelude.Loops.{for_each}
use package.rav1e.O3yv.Format.{mb_w, mb_h, tile_header_size, tile_flag_lazy_base_copy}
use package.rav1e.O3yv.Bytes.{load_byte, load_u16_le, load_u32_le, signed8}
use package.rav1e.O3yv.Frame.{EyeFrame, SbsFrame, Mv}
use package.rav1e.O3yv.Reader
use package.rav1e.O3yv.Reader.{Reader, take_bytes, remaining}
use package.rav1e.O3yv.Blocks.{prefill_eye}
use package.rav1e.O3yv.Fragment.{BaseCopyMode, prefilled, lazy, TileState, decode_fragment}
use package.rav1e.O3yv.Reuse.{unsupported_flags}

-- The payload of a P frame, and the picture under construction.
pub record PState : Type 0 where
  pub reader : Reader
  pub current : SbsFrame

-- `if tile_id == 0 { &reference.left } else { &reference.right }`
abbrev pub eye_of : ℕ → SbsFrame → EyeFrame
eye_of tile_id f = if tile_id == 0 then f.left else f.right

abbrev pub set_eye : ℕ → EyeFrame → SbsFrame → SbsFrame
set_eye tile_id e f = if tile_id == 0 then record f { left = e } else record f { right = e }

-- Work on the eye of a tile.
abbrev pub on_eye_of : {A : Type 0} → ℕ → M EyeFrame A → M PState A
on_eye_of tile_id =
    zoom (λ s. eye_of tile_id s.current) (λ e s. record s { current = set_eye tile_id e s.current })

-- The two ways to use the base vector: block by block as the modes ask for it, or all at once.
unfoldable pub base_copy : ℕ → ℕ → EyeFrame → Mv → M PState BaseCopyMode
base_copy tile_id tile_flags ref_eye base_mv =
    if not (bit_and tile_flags tile_flag_lazy_base_copy == 0)
    then done (lazy base_mv)
    else (on_eye_of tile_id (prefill_eye ref_eye base_mv) >> done prefilled)

-- The fragments of a tile, and nothing left behind them.
unfoldable pub decode_fragments : ℕ → ℕ → ℕ → BaseCopyMode → EyeFrame → M TileState (Unit {0})
decode_fragments n tile_id segment_count base_copy_mode ref_eye = do
  for_each n 0 (λ _. decode_fragment tile_id segment_count base_copy_mode ref_eye)
  s ← get_state
  refuse_if (not (remaining s.reader == 0)) invalid

pub record TileHeader : Type 0 where
  pub tile_id : ℕ
  pub mb_x : ℕ
  pub mb_y : ℕ
  pub mbs_wide : ℕ
  pub mbs_high : ℕ
  pub base_mv : Mv
  pub q_y : ℕ
  pub q_uv : ℕ
  pub segment_count : ℕ
  pub fragment_count : ℕ
  pub tile_flags : ℕ
  pub payload_size : ℕ

-- The unchecked loads of a tile's header at `h`.
unfoldable pub load_tile_header : {S : Type 0} → List ℕ → ℕ → M S TileHeader
load_tile_header bytes h = do
  tile_id ← load_byte bytes h
  mb_x ← load_byte bytes (h + 1)
  mb_y ← load_byte bytes (h + 2)
  mbs_wide ← load_byte bytes (h + 3)
  mbs_high ← load_byte bytes (h + 4)
  x ← load_byte bytes (h + 5)
  y ← load_byte bytes (h + 6)
  q_y ← load_byte bytes (h + 7)
  q_uv ← load_byte bytes (h + 8)
  segment_count ← load_byte bytes (h + 9)
  fragment_count ← load_byte bytes (h + 10)
  tile_flags ← load_u16_le bytes (h + 11)
  payload_size ← load_u32_le bytes (h + 13)
  done (record {
    tile_id = tile_id;
    mb_x = mb_x;
    mb_y = mb_y;
    mbs_wide = mbs_wide;
    mbs_high = mbs_high;
    base_mv = record { x = signed8 x; y = signed8 y };
    q_y = q_y;
    q_uv = q_uv;
    segment_count = segment_count;
    fragment_count = fragment_count;
    tile_flags = tile_flags;
    payload_size = payload_size;
  })

-- A tile whose header stands at `h` in the slice, and whose reader is past it.
unfoldable pub decode_tile_at : ℕ → List ℕ → SbsFrame → M PState (Unit {0})
decode_tile_at h bytes reference = do
  header ← load_tile_header bytes h
  let tile_id = header.tile_id
  refuse_if
      (ltb 1 tile_id
        || not (header.mb_x == 0)
        || not (header.mb_y == 0)
        || not (header.mbs_wide == mb_w)
        || not (header.mbs_high == mb_h))
      invalid
  refuse_if
      (ltb 127 header.q_y
        || ltb 127 header.q_uv
        || ltb header.segment_count 1
        || ltb 4 header.segment_count
        || header.fragment_count == 0
        || unsupported_flags header.tile_flags)
      unsupported
  s ← get_state
  refuse_if (ltb (remaining s.reader) header.payload_size) eof
  payload ← zoom (λ s. s.reader) (λ r s. record s { reader = r }) (take_bytes header.payload_size)
  let ref_eye = eye_of tile_id reference
  base_copy_mode ← base_copy tile_id header.tile_flags ref_eye header.base_mv
  zoom (λ s. record { reader = Reader.new payload; current = eye_of tile_id s.current })
      (λ t s. record s { current = set_eye tile_id t.current s.current })
      (decode_fragments header.fragment_count tile_id header.segment_count base_copy_mode ref_eye)

unfoldable pub decode_tile : SbsFrame → M PState (Unit {0})
decode_tile reference s =
    let r = s.reader in
    let s' = record s { reader = record r { pos = r.pos + tile_header_size } } in
    if ltb (remaining r) tile_header_size
    then err s eof
    else decode_tile_at r.pos r.bytes reference s'

-- The payload of a P frame.
unfoldable pub decode_tiles : SbsFrame → M PState (Unit {0})
decode_tiles reference = do
  for_each 2 0 (λ _. decode_tile reference)
  s ← get_state
  refuse_if (not (remaining s.reader == 0)) invalid
