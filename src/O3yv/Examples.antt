-- ===== src/O3yv/Examples.antt =====
-- The theorems at concrete inputs: a short stream, small planes, and the grey picture.
use rav1e.Prelude.{
  ℕ, zero, suc, ◌+◌, ◌≡◌, refl, List, [], ◌∷◌, ◌++◌, replicate, arith, Bool, true, ltb, ◌&&◌, some,
}
use rav1e.Prelude.{ok, Ensures, Keeps}
use rav1e.Prelude.Int.{pos, negsuc}
use rav1e.O3yv.Format.{sbs_frame_bytes}
use rav1e.O3yv.Frame
use rav1e.O3yv.Frame.{DecoderState, SbsFrame, EyeFrame, Mv}
use rav1e.O3yv.Pixels.Safe.{IsBytes, IsPlane}
use rav1e.O3yv.Eye.{IsEye, IsSbs}
use rav1e.O3yv.Reader
use rav1e.O3yv.Reader.{Reader}
use rav1e.O3yv.Reader.Safe.{IsReader, new-IsReader}
use rav1e.O3yv.Stream
use rav1e.O3yv.Stream.{StreamDecoder}
use rav1e.O3yv.Stream.Total.{new_eye-IsEye, new_state-IsDecoder}
use rav1e.O3yv.Write
use rav1e.O3yv.Write.RoundTrip.{parse_file_header-write_file_header}
use rav1e.O3yv.Write.KeyFrame.{decode_next_frame-write_key_raw_frame}
use rav1e.O3yv.Tile
use rav1e.O3yv.Tile.Safe.{IsPState, decode_tiles-IsPState}
use rav1e.O3yv.Fragment
use rav1e.O3yv.Fragment.{prefilled}
use rav1e.O3yv.Fragment.Safe.{IsWork, decode_one_mb-IsWork}
use rav1e.O3yv.Fragment.Loop.{IsTileState, decode_fragment-IsTileState}
use rav1e.O3yv.Coeffs
use rav1e.O3yv.Coeffs.Macroblock.{IsEyeState, apply_mb_residual-IsEyeState}
use rav1e.O3yv.Modes
use rav1e.O3yv.Modes.Safe.{Judged, IsInPicture, IsBand, validate_fragment_header-Judged}
use rav1e.O3yv.Parts
use rav1e.O3yv.Parts.{split16x8}
use rav1e.O3yv.Parts.Safe.{copy_vbs_from_reference-IsEye}
use rav1e.O3yv.Motion
use rav1e.O3yv.Motion.Rows.{Paints}
use rav1e.O3yv.Motion.Shifted.{from, copy_shifted_row_fixed-Paints}
use rav1e.O3yv.Motion.Plane.{IsMoved, motion_copy_plane_fixed-IsMoved}
use rav1e.O3yv.Motion.Rect.{IsCopied, copy_rect-IsCopied}
use rav1e.O3yv.Residual
use rav1e.O3yv.Residual.Direct.{add_dc_block_direct, add_dc_block-direct}

-- A file header, and the header of a P frame without a payload.
abbrev short_stream : List ℕ
short_stream =
    79 ∷ 51 ∷ 89 ∷ 86 ∷ 1 ∷ 0 ∷ 0 ∷ 0 ∷ 60 ∷ 0 ∷ 0 ∷ 0 ∷ 32 ∷ 3 ∷ 240 ∷ 0 ∷ 144 ∷ 1 ∷ 240 ∷ 0 ∷ 24
    ∷ 0 ∷ 1 ∷ 0 ∷ 0 ∷ 1 ∷ 1 ∷ 0 ∷ 0 ∷ 36 ∷ 244 ∷ 0 ∷ 0 ∷ 0 ∷ 16 ∷ 0 ∷ 0 ∷ 0 ∷ 2 ∷ 0 ∷ 0 ∷ 101 ∷ 4
    ∷ 0 ∷ 48 ∷ 0 ∷ 0 ∷ 0 ∷ 1 ∷ 0 ∷ 0 ∷ 0 ∷ 0 ∷ 0 ∷ 0 ∷ 0 ∷ 0 ∷ 0 ∷ 0 ∷ 0 ∷ 70 ∷ 82 ∷ 77 ∷ 49 ∷ 0 ∷ 0
    ∷ 0 ∷ 0 ∷ 7 ∷ 0 ∷ 0 ∷ 0 ∷ 7 ∷ 0 ∷ 0 ∷ 0 ∷ 2 ∷ 2 ∷ 0 ∷ 0 ∷ 0 ∷ 0 ∷ 0 ∷ 0 ∷ 0 ∷ 0 ∷ 0 ∷ 0 ∷ []

abbrev all_bytes : List ℕ → Bool
all_bytes [] = true
all_bytes (x ∷ xs) = ltb x 256 && all_bytes xs

all_bytes-IsBytes : (xs : List ℕ) → all_bytes xs ≡ true → IsBytes xs
all_bytes-IsBytes [] h i = omega arith
all_bytes-IsBytes (x ∷ xs) h zero = ground arith
all_bytes-IsBytes (x ∷ xs) h (suc i) = all_bytes-IsBytes xs (ground arith) i

short_stream-IsBytes : IsBytes short_stream
short_stream-IsBytes = all_bytes-IsBytes short_stream refl

abbrev start : StreamDecoder
start = record { r = record { bytes = short_stream; pos = 60 }; state = Frame.new_state }

abbrev plane : List ℕ
plane = 0 ∷ 10 ∷ 20 ∷ 30 ∷ 40 ∷ 50 ∷ 60 ∷ 70 ∷ 80 ∷ 90 ∷ 100 ∷ 110 ∷ 120 ∷ 130 ∷ 140 ∷ 250 ∷ []

plane-IsPlane : IsPlane 16 plane
plane-IsPlane = record { size = refl; bytes = all_bytes-IsBytes plane refl }

abbrev one_mv : Mv
one_mv = record { x = pos 1; y = negsuc 0 }

short-IsReader : IsReader (Reader.new short_stream)
short-IsReader = new-IsReader short_stream short_stream-IsBytes

new_sbs-IsSbs : IsSbs Frame.new_sbs
unfolding Frame.new_sbs
new_sbs-IsSbs = record { left = new_eye-IsEye; right = new_eye-IsEye }

-- A key frame that is grey all over, behind no bytes.
decode_next_frame-write_key_raw_frame_example :
    Stream.decode_next_frame (record {
      r = record { bytes = Write.write_key_raw_frame [] 7 Frame.new_sbs ++ short_stream; pos = 0 };
      state = Frame.new_state;
    })
    ≡ ok
        (record {
          r = record {
            bytes = Write.write_key_raw_frame [] 7 Frame.new_sbs ++ short_stream;
            pos = 0 + 28 + sbs_frame_bytes;
          };
          state = record {
            reference = Frame.new_sbs;
            current = Frame.new_state.reference;
            has_reference = true;
          };
        })
        (some (record { frame_no = 7; frame_type = 0; frame = Frame.new_sbs }))
decode_next_frame-write_key_raw_frame_example =
    decode_next_frame-write_key_raw_frame [] 7 Frame.new_sbs short_stream Frame.new_state
      new_sbs-IsSbs new_state-IsDecoder (omega arith) (omega arith)

parse_file_header-write_file_header_example :
    Stream.parse_file_header (Reader.new (Write.write_file_header [] 24 ++ short_stream))
    ≡ ok (record { bytes = Write.write_file_header [] 24 ++ short_stream; pos = 60 }) tt
parse_file_header-write_file_header_example = parse_file_header-write_file_header 24 short_stream

decode_tiles-IsPState_example : Keeps IsPState (
    Tile.decode_tiles Frame.new_sbs
      (record { reader = Reader.new short_stream; current = Frame.new_sbs }))
decode_tiles-IsPState_example =
    decode_tiles-IsPState new_sbs-IsSbs
      (record { reader = Reader.new short_stream; current = Frame.new_sbs })
      (record { reader = short-IsReader; current = new_sbs-IsSbs })

-- A fragment of zeros.
decode_fragment-IsTileState_example : Keeps IsTileState (
    Fragment.decode_fragment 0 1 prefilled Frame.new_eye
      (record { reader = Reader.new short_stream; current = Frame.new_eye }))
decode_fragment-IsTileState_example =
    decode_fragment-IsTileState new_eye-IsEye 0 1 prefilled
      (record { reader = Reader.new short_stream; current = Frame.new_eye })
      (record { reader = short-IsReader; current = new_eye-IsEye })

-- The vector of a copied block, and its residual, read from the same bytes.
decode_one_mb-IsWork_example : Keeps IsWork (
    Fragment.decode_one_mb 2 374 prefilled Frame.new_eye (record {
      modes = Reader.new short_stream;
      residual = Reader.new short_stream;
      raw = Reader.new short_stream;
      current = Frame.new_eye;
    }))
decode_one_mb-IsWork_example =
    decode_one_mb-IsWork new_eye-IsEye 374 (omega arith) 2 prefilled
      (record {
        modes = Reader.new short_stream;
        residual = Reader.new short_stream;
        raw = Reader.new short_stream;
        current = Frame.new_eye;
      })
      (record {
        modes = short-IsReader;
        residual = short-IsReader;
        raw = short-IsReader;
        current = new_eye-IsEye;
      })

apply_mb_residual-IsEyeState_example : Keeps IsEyeState (
    Coeffs.apply_mb_residual 25
      (record { current = Frame.new_eye; residual = Reader.new short_stream }))
apply_mb_residual-IsEyeState_example =
    apply_mb_residual-IsEyeState 25 (omega arith)
      (record { current = Frame.new_eye; residual = Reader.new short_stream })
      (record { current = new_eye-IsEye; residual = short-IsReader })

validate_fragment_header-Judged_example :
    Judged
      (Reader.new short_stream)
      (IsInPicture 1 1 0 0 1 2 25 50)
      (IsBand 1 2 25 50)
      (Modes.validate_fragment_header 1 1 0 0 1 2 25 50 (Reader.new short_stream))
validate_fragment_header-Judged_example =
    validate_fragment_header-Judged 1 1 0 0 1 2 25 50 (Reader.new short_stream)

copy_vbs_from_reference-IsEye_example :
    Keeps IsEye (
      Parts.copy_vbs_from_reference Frame.new_eye 26 split16x8 (one_mv ∷ one_mv ∷ []) Frame.new_eye)
copy_vbs_from_reference-IsEye_example =
    copy_vbs_from_reference-IsEye new_eye-IsEye 26 split16x8 (one_mv ∷ one_mv ∷ []) new_eye-IsEye
      (omega arith) (omega arith)

-- A rectangle of 2 by 2 pixels near the edge of a plane of 4 by 4.
copy_rect-IsCopied_example :
    Ensures
      (λ _. ⊥)
      (λ out _. IsCopied 4 4 plane (replicate 16 0) 1 1 2 2 (pos 2) (negsuc 2) 2 out)
      (Motion.copy_rect 4 4 plane 1 1 2 2 (pos 2) (negsuc 2) (replicate 16 0))
copy_rect-IsCopied_example =
    copy_rect-IsCopied 4 4 plane (replicate 16 0) 1 1 2 2 (pos 2) (negsuc 2) (omega arith)
      (omega arith) refl refl

motion_copy_plane_fixed-IsMoved_example :
    Ensures
      (λ _. ⊥)
      (λ out _. IsMoved 4 4 plane (negsuc 1) (pos 1) 4 out)
      (Motion.motion_copy_plane_fixed 4 4 plane (negsuc 1) (pos 1) (replicate 16 0))
motion_copy_plane_fixed-IsMoved_example =
    motion_copy_plane_fixed-IsMoved 4 4 plane (negsuc 1) (pos 1) (omega arith) refl (replicate 16 0)
      refl

copy_shifted_row_fixed-Paints_example :
    Paints 4 4
      (from plane 4 8 (pos 3))
      (replicate 16 0)
      (Motion.copy_shifted_row_fixed 4 4 plane 8 (pos 3) (replicate 16 0))
copy_shifted_row_fixed-Paints_example =
    copy_shifted_row_fixed-Paints plane (replicate 16 0) 4 4 8 (omega arith) (omega arith)
      (omega arith) (pos 3)

-- A delta of 5, by the table.
add_dc_block-direct_example :
    Residual.add_dc_block 4 0 (pos 40) plane ≡ add_dc_block_direct 4 0 (pos 40) plane
add_dc_block-direct_example = add_dc_block-direct 4 0 (pos 40) plane plane-IsPlane (omega arith)
