-- ===== src/O3yv/Stream.antt =====
-- The stream decoder of minidecoder/src/lib.rs: the file header, one frame, and whole streams
-- (lines 374 to 568, 672 to 726 and 2183 to 2193). `usize` has 64 bits.
pub mod Safe
pub mod Frames
pub mod Total
use package.rav1e.Prelude.{
  ℕ, zero, suc, ◌+◌, ◌-◌, ◌*◌, ◌^◌, List, [], ◌∷◌, ◌++◌, map, ltb, leb, ◌==◌, not, ◌&&◌, ◌||◌,
  if◌then◌else◌, length, Bool, true, false, Option, none, some,
}
use package.rav1e.Prelude.{M, ok, err, fault, ◌>>=◌, ◌>>◌, done, fail, eof, invalid, unsupported}
use package.rav1e.Prelude.{refuse_if, zoom, get_state, modify}
use package.rav1e.O3yv.Format.{
  visible_w, visible_h, eye_w, eye_h, eye_y_bytes, eye_chroma_bytes, eye_frame_bytes,
  sbs_frame_bytes, file_magic, frame_magic, file_header_size, frame_header_size, frame_type_key_raw,
  frame_type_p, reference_reuse_frame_payload_max,
}
use package.rav1e.O3yv.Bytes.{load_byte, load_u32_le}
use package.rav1e.O3yv.Frame.{
  EyeFrame, SbsFrame, DecoderState, new_state, reset, on_y, on_cb, on_cr,
}
use package.rav1e.O3yv.Reader
use package.rav1e.O3yv.Reader.{Reader, u8, u16, u32, u64, skip, remaining, slice}
use package.rav1e.O3yv.Pixels.{copy_at}
use package.rav1e.O3yv.Tile.{PState, decode_tiles}
use package.rav1e.O3yv.Reuse.{p_payload_reuses_reference}

unfoldable pub parse_file_header : M Reader (Unit {0})
parse_file_header = do
  magic ← u32
  refuse_if (not (magic == file_magic)) invalid
  major ← u16
  minor ← u16
  header_size ← u16
  header_crc ← u16
  vis_w ← u16
  vis_h ← u16
  e_w ← u16
  e_h ← u16
  fps_num ← u16
  fps_den ← u16
  pixel_format ← u8
  stereo_mode ← u8
  color_matrix ← u8
  color_range ← u8
  max_video_bitrate ← u32
  cpb_size ← u32
  max_p_frame ← u32
  max_key_frame ← u32
  keyint ← u16
  flags ← u16
  frame_count ← u32
  index_offset ← u64
  refuse_if (not (major == 1) || not (minor == 0)) unsupported
  refuse_if (ltb header_size file_header_size) invalid
  refuse_if
      (not (vis_w == visible_w)
        || not (vis_h == visible_h)
        || not (e_w == eye_w)
        || not (e_h == eye_h))
      unsupported
  refuse_if
      (not (fps_num == 24)
        || not (fps_den == 1)
        || not (pixel_format == 0)
        || not (stereo_mode == 1))
      unsupported
  refuse_if (not (flags == 0)) unsupported
  if ltb file_header_size header_size then skip (header_size - file_header_size) else done tt

-- The three planes of one eye, from a payload.
unfoldable pub read_eye_raw_from_stream : List ℕ → ℕ → M EyeFrame (Unit {0})
read_eye_raw_from_stream bytes offset = do
  on_y (copy_at eye_y_bytes 0 bytes offset)
  on_cb (copy_at eye_chroma_bytes 0 bytes (offset + eye_y_bytes))
  on_cr (copy_at eye_chroma_bytes 0 bytes (offset + eye_y_bytes + eye_chroma_bytes))

-- What a decoded frame is reported by; its picture is the new reference.
pub record DecodedFrame : Type 0 where
  pub frame_no : ℕ
  pub frame_type : ℕ
  pub frame : SbsFrame

-- `StreamDecoder`, and the two arguments of `decode_next_frame`.
pub record StreamDecoder : Type 0 where
  pub r : Reader
  pub state : DecoderState

abbrev pub on_left : {A : Type 0} → M EyeFrame A → M DecoderState A
on_left = zoom (λ d. d.current.left) (λ e d. record d { current = record (d.current) { left = e } })

abbrev pub on_right : {A : Type 0} → M EyeFrame A → M DecoderState A
on_right =
    zoom (λ d. d.current.right) (λ e d. record d { current = record (d.current) { right = e } })

-- The arm of a key frame.
unfoldable pub decode_key_raw : ℕ → ℕ → List ℕ → ℕ → M DecoderState (Unit {0})
decode_key_raw tile_count frame_size bytes payload_start = do
  refuse_if (not (tile_count == 2)) invalid
  refuse_if (not (frame_size == sbs_frame_bytes)) invalid
  on_left (read_eye_raw_from_stream bytes payload_start)
  on_right (read_eye_raw_from_stream bytes (payload_start + eye_frame_bytes))

-- The arm of a P frame; `true` if the reference is shown once more.
unfoldable pub decode_p : ℕ → ℕ → List ℕ → M DecoderState Bool
decode_p tile_count frame_size payload = do
  refuse_if (not (tile_count == 2)) invalid
  d ← get_state
  refuse_if (not d.has_reference) invalid
  let tiles =
      zoom (λ d. record { reader = Reader.new payload; current = d.current })
        (λ p d. record d { current = p.current }) (decode_tiles d.reference)
      >> done false
  if leb frame_size reference_reuse_frame_payload_max
        && p_payload_reuses_reference payload tile_count
      then done true
      else tiles

-- The match on the frame's type; `true` if the reference is shown once more.
unfoldable pub decode_picture : ℕ → ℕ → ℕ → List ℕ → ℕ → M DecoderState Bool
decode_picture frame_type tile_count frame_size bytes payload_start =
    if frame_type == frame_type_key_raw
    then (decode_key_raw tile_count frame_size bytes payload_start >> done false)
    else if frame_type == frame_type_p
    then decode_p tile_count frame_size (slice bytes payload_start frame_size)
    else fail unsupported

-- `mem::swap(&mut state.reference, &mut state.current); state.has_reference = true`
abbrev pub publish : DecoderState → DecoderState
publish d = record { reference = d.current; current = d.reference; has_reference = true }

-- What follows the start code in a frame's header.
pub record FrameHeader : Type 0 where
  pub frame_size : ℕ
  pub frame_no : ℕ
  pub frame_type : ℕ
  pub tile_count : ℕ
  pub flags : ℕ
  pub reserved : ℕ

-- The unchecked loads of a frame's header at `h`, behind its start code.
unfoldable pub load_frame_header : {S : Type 0} → List ℕ → ℕ → M S FrameHeader
load_frame_header bytes h = do
  frame_size ← load_u32_le bytes (h + 4)
  frame_no ← load_u32_le bytes (h + 8)
  frame_type ← load_byte bytes (h + 16)
  tile_count ← load_byte bytes (h + 17)
  flags ← load_byte bytes (h + 18)
  reserved ← load_byte bytes (h + 19)
  done (record {
    frame_size = frame_size;
    frame_no = frame_no;
    frame_type = frame_type;
    tile_count = tile_count;
    flags = flags;
    reserved = reserved;
  })

-- A frame whose header stands at `h` in the slice, and whose reader is past it.
unfoldable pub decode_frame_at : ℕ → List ℕ → M StreamDecoder DecodedFrame
decode_frame_at h bytes = do
  start_code ← load_u32_le bytes h
  refuse_if (not (start_code == frame_magic)) invalid
  header ← load_frame_header bytes h
  refuse_if (not (header.flags == 0) || not (header.reserved == 0)) invalid
  let payload_start = h + frame_header_size
  let payload_end = payload_start + header.frame_size
  -- `checked_add`
  refuse_if (leb (2 ^ 64) payload_end) invalid
  refuse_if (ltb (length bytes) payload_end) eof
  reused ←
      zoom (λ s. s.state) (λ d s. record s { state = d })
        (decode_picture header.frame_type header.tile_count header.frame_size bytes payload_start)
  modify λ s. record {
    r = record (s.r) { pos = payload_end };
    state = if reused then s.state else publish s.state;
  }
  s ← get_state
  done (record {
    frame_no = header.frame_no;
    frame_type = header.frame_type;
    frame = s.state.reference;
  })

unfoldable pub decode_next_frame : M StreamDecoder (Option DecodedFrame)
decode_next_frame s =
    let r = s.r in
    let s' = record s { r = record r { pos = r.pos + frame_header_size } } in
    let frame = (decode_frame_at r.pos r.bytes >>= λ f. done (some f)) s' in
    if remaining r == 0
    then ok s none
    else if ltb (remaining r) frame_header_size
    then err s eof
    else frame

unfoldable pub new : List ℕ → M StreamDecoder (Unit {0})
new bytes _ =
    zoom (λ s. s.r) (λ r s. record s { r = r }) parse_file_header
      (record { r = Reader.new bytes; state = new_state })

unfoldable pub reset_stream : M StreamDecoder (Unit {0})
reset_stream s =
    zoom (λ s. s.r) (λ r s. record s { r = r }) parse_file_header
      (record { r = record (s.r) { pos = 0 }; state = reset s.state })

-- The `while let` loop: the frames in order, in place of the calls of `on_frame`.
unfoldable pub decode_frames : ℕ → M StreamDecoder (List DecodedFrame)
decode_frames zero s = fault
decode_frames (suc fuel) s = elim (decode_next_frame s) [
  | ok s' next ↦ elim next [
    | none ↦ ok s' []
    | some f ↦ (decode_frames fuel >>= λ fs. done (f ∷ fs)) s'
  ]
  | err s' e ↦ err s' e
  | fault ↦ fault
]

-- Each frame takes 28 bytes at least, so the length of the stream is fuel enough.
unfoldable pub decode_stream_with_metadata : List ℕ → M StreamDecoder (List DecodedFrame)
decode_stream_with_metadata bytes = new bytes >> decode_frames (length bytes)

unfoldable pub decode_stream : List ℕ → M StreamDecoder (List SbsFrame)
decode_stream bytes = decode_stream_with_metadata bytes >>= λ fs. done (map (λ f. f.frame) fs)

unfoldable pub current_frame : M StreamDecoder SbsFrame
current_frame s = if s.state.has_reference then ok s (s.state.reference) else err s invalid
