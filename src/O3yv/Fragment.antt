-- ===== src/O3yv/Fragment.antt =====
-- Fragments of minidecoder/src/lib.rs (lines 944 to 1058 and 1202 to 1314): the loop over the
-- mode stream, and the decoding of one macroblock.
pub mod Safe
pub mod Loop
use package.rav1e.Prelude.{
  ℕ, zero, suc, ◌+◌, ◌*◌, List, [], ◌∷◌, ltb, leb, ◌==◌, not, ◌||◌, if◌then◌else◌, bit_and,
}
use package.rav1e.Prelude.{M, ok, err, fault, ◌>>=◌, ◌>>◌, done, fail, eof, invalid, unsupported}
use package.rav1e.Prelude.{refuse_if, zoom, modify, get_state}
use package.rav1e.Prelude.Loops.{for_each}
use package.rav1e.O3yv.Format.{
  mode_base_res, mode_copy16, mode_copy16_res, mode_copy16x8, mode_copy16x8_res, mode_copy8x16,
  mode_copy8x16_res, mode_copy8x8, mode_copy8x8_res, mode_raw_mb, raw_mb_bytes,
  fragment_header_size,
}
use package.rav1e.O3yv.Bytes.{load_byte, load_u16_le, load_u32_le}
use package.rav1e.O3yv.Frame.{EyeFrame, Mv}
use package.rav1e.O3yv.Reader
use package.rav1e.O3yv.Reader.{
  Reader, u8, i8, take_bytes, remaining, consume_optional_trailing_zero,
}
use package.rav1e.O3yv.Blocks.{copy_mb_from_reference, copy_mb_run_from_reference}
use package.rav1e.O3yv.Parts.{
  VbsShape, split16x8, split8x16, split8x8, copy_vbs_from_reference, write_raw_mb,
}
use package.rav1e.O3yv.Coeffs.{EyeState, apply_mb_residual}
use package.rav1e.O3yv.Modes.{validate_fragment_header, validate_segment_map}

pub data BaseCopyMode : Type 0 where
  prefilled : BaseCopyMode
  lazy : Mv → BaseCopyMode

-- The three streams of a fragment, and the picture under construction.
pub record Work : Type 0 where
  pub modes : Reader
  pub residual : Reader
  pub raw : Reader
  pub current : EyeFrame

abbrev pub on_modes : {A : Type 0} → M Reader A → M Work A
on_modes = zoom (λ w. w.modes) (λ r w. record w { modes = r })

abbrev pub on_raw : {A : Type 0} → M Reader A → M Work A
on_raw = zoom (λ w. w.raw) (λ r w. record w { raw = r })

abbrev pub on_current : {A : Type 0} → M EyeFrame A → M Work A
on_current = zoom (λ w. w.current) (λ e w. record w { current = e })

abbrev pub on_eye : {A : Type 0} → M EyeState A → M Work A
on_eye =
    zoom (λ w. record { current = w.current; residual = w.residual })
      (λ s w. record w { current = s.current; residual = s.residual })

unfoldable pub read_mv : M Reader Mv
read_mv = do x ← i8; y ← i8; done (record { x = x; y = y })

-- `if let BaseCopyMode::Lazy(base_mv) = base_copy_mode { .. }`
abbrev pub if_lazy : BaseCopyMode → (Mv → M EyeFrame (Unit {0})) → M Work (Unit {0})
if_lazy prefilled copy = done tt
if_lazy (lazy base_mv) copy = on_current (copy base_mv)

-- The modes with one vector, and those with two or four.
abbrev pub copy16 : EyeFrame → ℕ → M Work (Unit {0})
copy16 reference mb_index = do
  mv ← on_modes read_mv
  on_current (copy_mb_from_reference reference mb_index mv)

abbrev pub copy_halves : EyeFrame → ℕ → VbsShape → M Work (Unit {0})
copy_halves reference mb_index shape = do
  mv0 ← on_modes read_mv
  mv1 ← on_modes read_mv
  on_current (copy_vbs_from_reference reference mb_index shape (mv0 ∷ mv1 ∷ []))

abbrev pub copy_quarters : EyeFrame → ℕ → M Work (Unit {0})
copy_quarters reference mb_index = do
  mv0 ← on_modes read_mv
  mv1 ← on_modes read_mv
  mv2 ← on_modes read_mv
  mv3 ← on_modes read_mv
  on_current (copy_vbs_from_reference reference mb_index split8x8 (mv0 ∷ mv1 ∷ mv2 ∷ mv3 ∷ []))

abbrev pub raw_block : ℕ → M Work (Unit {0})
raw_block mb_index = do
  bytes ← on_raw (take_bytes raw_mb_bytes)
  on_current (write_raw_mb mb_index bytes)

unfoldable pub decode_one_mb : ℕ → ℕ → BaseCopyMode → EyeFrame → M Work (Unit {0})
decode_one_mb mode mb_index base_copy_mode reference =
    let residual = on_eye (apply_mb_residual mb_index) in
    if mode == mode_base_res
    then (if_lazy base_copy_mode (λ base_mv. copy_mb_from_reference reference mb_index base_mv)
        >> residual)
    else if mode == mode_copy16
    then copy16 reference mb_index
    else if mode == mode_copy16_res
    then (copy16 reference mb_index >> residual)
    else if mode == mode_copy16x8
    then copy_halves reference mb_index split16x8
    else if mode == mode_copy16x8_res
    then (copy_halves reference mb_index split16x8 >> residual)
    else if mode == mode_copy8x16
    then copy_halves reference mb_index split8x16
    else if mode == mode_copy8x16_res
    then (copy_halves reference mb_index split8x16 >> residual)
    else if mode == mode_copy8x8
    then copy_quarters reference mb_index
    else if mode == mode_copy8x8_res
    then (copy_quarters reference mb_index >> residual)
    else if mode == mode_raw_mb
    then raw_block mb_index
    else fail unsupported

-- What an opcode other than 0 does; it returns the index of the next block.
unfoldable pub decode_op : ℕ → BaseCopyMode → EyeFrame → ℕ → ℕ → M Work ℕ
decode_op end_mb base_copy_mode reference mb_index op =
    let skip_run = (do
      refuse_if (ltb end_mb (mb_index + op)) invalid
      if_lazy base_copy_mode (λ base_mv. copy_mb_run_from_reference reference mb_index op base_mv)
      done (mb_index + op)) in
    let one = (do
      decode_one_mb (bit_and op 0x0f) mb_index base_copy_mode reference
      done (mb_index + 1)) in
    let many = (do
      n ← on_modes u8
      let run = n + 1
      refuse_if (ltb end_mb (mb_index + run)) invalid
      for_each run mb_index (λ i. decode_one_mb (bit_and op 0x0f) i base_copy_mode reference)
      done (mb_index + run)) in
    if leb op 0x7f
    then skip_run
    else if bit_and op 0xf0 == 0x80
    then one
    else if bit_and op 0xf0 == 0x90
    then many
    else fail invalid

-- The loop, from `mb_index`; it returns the index at which it ends. Each round but the last
-- describes a block at least.
unfoldable pub decode_modes : ℕ → ℕ → BaseCopyMode → EyeFrame → ℕ → M Work ℕ
decode_modes zero end_mb base_copy_mode reference mb_index =
    if ltb mb_index end_mb then (λ _. fault) else done mb_index
decode_modes (suc fuel) end_mb base_copy_mode reference mb_index =
    let round = (do
      op ← on_modes u8
      let next = (do
        mb_index' ← decode_op end_mb base_copy_mode reference mb_index op
        decode_modes fuel end_mb base_copy_mode reference mb_index')
      if op == 0 then done mb_index else next) in
    if ltb mb_index end_mb then round else done mb_index

-- The tests after the loop.
unfoldable pub finish_fragment : ℕ → ℕ → M Work (Unit {0})
finish_fragment end_mb mb_index = do
  refuse_if (not (mb_index == end_mb)) invalid
  on_modes consume_optional_trailing_zero
  w ← get_state
  refuse_if
      (not (remaining w.modes == 0)
        || not (remaining w.residual == 0)
        || not (remaining w.raw == 0))
      invalid

unfoldable pub decode_streams : ℕ → ℕ → BaseCopyMode → EyeFrame → M Work (Unit {0})
decode_streams start_mb count base_copy_mode reference = do
  let end_mb = start_mb + count
  mb_index ← decode_modes count end_mb base_copy_mode reference start_mb
  finish_fragment end_mb mb_index

-- The payload of a tile, and the picture under construction.
pub record TileState : Type 0 where
  pub reader : Reader
  pub current : EyeFrame

abbrev pub on_reader : {A : Type 0} → M Reader A → M TileState A
on_reader = zoom (λ s. s.reader) (λ r s. record s { reader = r })

pub record FragmentHeader : Type 0 where
  pub frag_tile_id : ℕ
  pub row_start : ℕ
  pub row_count : ℕ
  pub flags : ℕ
  pub start_mb : ℕ
  pub count : ℕ
  pub segment_map_size : ℕ
  pub mode_size : ℕ
  pub residual_size : ℕ
  pub raw_size : ℕ
  pub crc : ℕ

-- The unchecked loads of a fragment's header at `h`.
unfoldable pub load_fragment_header : {S : Type 0} → List ℕ → ℕ → M S FragmentHeader
load_fragment_header bytes h = do
  frag_tile_id ← load_byte bytes h
  row_start ← load_byte bytes (h + 1)
  row_count ← load_byte bytes (h + 2)
  flags ← load_byte bytes (h + 3)
  start_mb ← load_u16_le bytes (h + 4)
  count ← load_u16_le bytes (h + 6)
  segment_map_size ← load_u32_le bytes (h + 8)
  mode_size ← load_u32_le bytes (h + 12)
  residual_size ← load_u32_le bytes (h + 16)
  raw_size ← load_u32_le bytes (h + 20)
  crc ← load_u32_le bytes (h + 24)
  done (record {
    frag_tile_id = frag_tile_id;
    row_start = row_start;
    row_count = row_count;
    flags = flags;
    start_mb = start_mb;
    count = count;
    segment_map_size = segment_map_size;
    mode_size = mode_size;
    residual_size = residual_size;
    raw_size = raw_size;
    crc = crc;
  })

-- A fragment whose header stands at `h` in the slice, and whose reader is past it.
abbrev pub decode_fragment_at :
    ℕ → ℕ → ℕ → BaseCopyMode → EyeFrame → List ℕ → M TileState (Unit {0})
decode_fragment_at h tile_id segment_count base_copy_mode reference bytes = do
  header ← load_fragment_header bytes h
  validate_fragment_header header.frag_tile_id tile_id header.flags header.crc header.row_start
      header.row_count header.start_mb header.count
  segment_map ← on_reader (take_bytes header.segment_map_size)
  validate_segment_map segment_map segment_count header.count
  mode_stream ← on_reader (take_bytes header.mode_size)
  residual_stream ← on_reader (take_bytes header.residual_size)
  raw_stream ← on_reader (take_bytes header.raw_size)
  zoom
      (λ s. record {
        modes = Reader.new mode_stream;
        residual = Reader.new residual_stream;
        raw = Reader.new raw_stream;
        current = s.current;
      })
      (λ w s. record s { current = w.current })
      (decode_streams header.start_mb header.count base_copy_mode reference)

unfoldable pub decode_fragment : ℕ → ℕ → BaseCopyMode → EyeFrame → M TileState (Unit {0})
decode_fragment tile_id segment_count base_copy_mode reference s =
    let r = s.reader in
    let s' = record s { reader = record r { pos = r.pos + fragment_header_size } } in
    if ltb (remaining r) fragment_header_size
    then err s eof
    else decode_fragment_at r.pos tile_id segment_count base_copy_mode reference r.bytes s'
