-- ===== src/O3yv/Write.antt =====
-- The encoder's half of minidecoder/src/lib.rs: what it writes of a file header, a frame, a tile
-- and a fragment (lines 286 to 372, 589 to 670 and 2177 to 2181). An out buffer grows at its end.
pub mod RoundTrip
pub mod Places
pub mod KeyBytes
pub mod KeyFrame
use package.rav1e.Prelude.{
  ◌^◌, ◌%◌, ℕ, zero, suc, ◌+◌, ◌-◌, List, [], ◌∷◌, ◌++◌, length, ltb, leb, if◌then◌else◌,
}
use package.rav1e.Prelude.{M, ok, err, fault}
use package.rav1e.O3yv.Format.{
  visible_w, visible_h, eye_w, eye_h, mb_w, mb_h, mb_count, file_magic, frame_magic,
  file_header_size, frame_type_key_raw, frame_type_p, lazy_base_copy_max_mb_per_tile,
  tile_flag_lazy_base_copy,
}
use package.rav1e.O3yv.Bytes.{put_u16, put_u32, put_u64, push, byte_of}
use package.rav1e.O3yv.Frame.{EyeFrame, SbsFrame, Mv}
use package.rav1e.O3yv.Reader
use package.rav1e.O3yv.Modes.{count_base_predictor_mbs_in_modes}

pub record EncodedFragment : Type 0 where
  pub tile_id : ℕ
  pub row_start : ℕ
  pub row_count : ℕ
  pub start_mb : ℕ
  pub mb_count : ℕ
  pub segment_map_stream : List ℕ
  pub mode_stream : List ℕ
  pub residual_stream : List ℕ
  pub raw_stream : List ℕ

unfoldable pub full_eye : ℕ → List ℕ → List ℕ → List ℕ → EncodedFragment
full_eye tile_id mode_stream residual_stream raw_stream = record {
  tile_id = tile_id;
  row_start = 0;
  row_count = mb_h;
  start_mb = 0;
  mb_count = mb_count;
  segment_map_stream = [];
  mode_stream = mode_stream;
  residual_stream = residual_stream;
  raw_stream = raw_stream;
}

pub record EncodedTile : Type 0 where
  pub tile_id : ℕ
  pub base_mv : Mv
  pub segment_count : ℕ
  pub fragments : List EncodedFragment

unfoldable pub write_file_header : List ℕ → ℕ → List ℕ
write_file_header out frame_count =
    let magic = put_u32 out file_magic in
    let version = put_u16 (put_u16 magic 1) 0 in
    let sizes = put_u16 (put_u16 version file_header_size) 0 in
    let visible = put_u16 (put_u16 sizes visible_w) visible_h in
    let eyes = put_u16 (put_u16 visible eye_w) eye_h in
    let rate = put_u16 (put_u16 eyes 24) 1 in
    let format = rate ++ (0 ∷ 1 ∷ 1 ∷ 0 ∷ []) in
    let limits = put_u32 (put_u32 (put_u32 (put_u32 format 16000000) 1048576) 131072) 288000 in
    let flags = put_u16 (put_u16 limits 48) 0 in put_u64 (put_u32 flags frame_count) 0

unfoldable pub write_frame_header : List ℕ → ℕ → ℕ → ℕ → ℕ → List ℕ
write_frame_header out payload_len frame_no frame_type cost =
    let sizes = put_u32 (put_u32 out frame_magic) payload_len in
    let times = put_u32 (put_u32 sizes frame_no) frame_no in
    let kind = push (push (push (push times frame_type) 2) 0) 0 in put_u32 (put_u32 kind 0) cost

unfoldable pub write_eye_raw : List ℕ → EyeFrame → List ℕ
write_eye_raw out eye = out ++ eye.y ++ eye.cb ++ eye.cr

-- `payload.len() as u32` keeps 32 bits of a length.
unfoldable pub write_key_raw_frame : List ℕ → ℕ → SbsFrame → List ℕ
write_key_raw_frame out frame_no frame =
    let payload = write_eye_raw (write_eye_raw [] frame.left) frame.right in
    write_frame_header out (length payload) frame_no frame_type_key_raw 0 ++ payload

unfoldable pub write_fragment : List ℕ → EncodedFragment → List ℕ
write_fragment out f =
    let place = push (push (push (push out f.tile_id) f.row_start) f.row_count) 0 in
    let blocks = put_u16 (put_u16 place f.start_mb) f.mb_count in
    let maps = put_u32 (put_u32 blocks (length f.segment_map_stream)) (length f.mode_stream) in
    let sizes = put_u32 (put_u32 maps (length f.residual_stream)) (length f.raw_stream) in
    put_u32 sizes 0 ++ f.segment_map_stream ++ f.mode_stream ++ f.residual_stream ++ f.raw_stream

-- The loop over the fragments, with `total` blocks counted before it.
unfoldable pub base_predictor_mbs : List EncodedFragment → ℕ → ℕ
base_predictor_mbs [] total = total
base_predictor_mbs (f ∷ fs) total =
    let limit = lazy_base_copy_max_mb_per_tile in
    let rest = base_predictor_mbs fs in
    elim (count_base_predictor_mbs_in_modes f.mode_stream f.start_mb f.mb_count (limit - total)
      (Reader.new f.mode_stream)) [
        | ok _ base_mbs ↦
            if ltb limit (total + base_mbs) then total + base_mbs else rest (total + base_mbs)
        | err _ e ↦ limit + 1
        | fault ↦ limit + 1
      ]

unfoldable pub encoded_tile_base_predictor_mbs : EncodedTile → ℕ
encoded_tile_base_predictor_mbs tile = base_predictor_mbs tile.fragments 0

unfoldable pub tile_flags_for_encoded_tile : EncodedTile → ℕ
tile_flags_for_encoded_tile tile =
    if leb (encoded_tile_base_predictor_mbs tile) lazy_base_copy_max_mb_per_tile
    then tile_flag_lazy_base_copy
    else 0

unfoldable pub write_fragments : List EncodedFragment → List ℕ → List ℕ
write_fragments [] out = out
write_fragments (f ∷ fs) out = write_fragments fs (write_fragment out f)

unfoldable pub write_tile : List ℕ → EncodedTile → List ℕ
write_tile out tile =
    let payload = write_fragments tile.fragments [] in
    let place = push (push (push (push (push out tile.tile_id) 0) 0) mb_w) mb_h in
    let base = push (push place (byte_of tile.base_mv.x)) (byte_of tile.base_mv.y) in
    let limits = push (push (push base 64) 64) tile.segment_count in
    let count = push limits (length tile.fragments % 2 ^ 8) in
    put_u32 (put_u16 count (tile_flags_for_encoded_tile tile)) (length payload) ++ payload

unfoldable pub write_p_frame : List ℕ → ℕ → EncodedTile → EncodedTile → List ℕ
write_p_frame out frame_no left right =
    let payload = write_tile (write_tile [] left) right in
    write_frame_header out (length payload) frame_no frame_type_p 0 ++ payload
