-- ===== src/O3yv/Write/KeyFrame.antt =====
-- A key frame that `write_key_raw_frame` wrote is decoded to the same picture.
use rav1e.Prelude.{
  ℕ, ◌+◌, ◌-◌, ◌<◌, ◌^◌, ◌≡◌, refl, List, ◌++◌, length, ltb, ◌==◌, arith, Bool, true, false, some,
}
use rav1e.Prelude.{ok, Error, refuse_if, ok-bind, ok-zoom}
use rav1e.O3yv.Format.{sbs_frame_bytes}
use rav1e.O3yv.Bytes.Loads.{load_u32_le_at}
use rav1e.O3yv.Frame.{SbsFrame, DecoderState}
use rav1e.O3yv.Eye.{IsSbs}
use rav1e.O3yv.Reader
use rav1e.O3yv.Reader.{Reader}
use rav1e.O3yv.Stream
use rav1e.O3yv.Stream.{StreamDecoder, DecodedFrame}
use rav1e.O3yv.Stream.Frames.{load_frame_header_at}
use rav1e.O3yv.Stream.Safe.{IsDecoder}
use rav1e.O3yv.Write
use rav1e.O3yv.Write.KeyBytes.{written, fits, magic, size, number, tags, decode_picture-key}

refuse-false : {S : Type 0} (b : Bool) (e : Error) (s : S) → b ≡ false → refuse_if b e s ≡ ok s tt
unfolding refuse_if
refuse-false true e s h = absurd (ground arith)
refuse-false false e s h = refl

-- For a whole picture, a valid decoder state, a frame number below 2 ^ 32 and an end of the frame
-- below 2 ^ 64, `decode_next_frame` at the place where `write_key_raw_frame` wrote returns the
-- frame with its number and picture, stands behind it, and has made the picture its reference.
pub decode_next_frame-write_key_raw_frame :
    (before : List ℕ) (frame_no : ℕ) (frame : SbsFrame) (rest : List ℕ) (d : DecoderState)
    → IsSbs frame
    → IsDecoder d
    → frame_no < 2 ^ 32
    → length before + 28 + sbs_frame_bytes < 2 ^ 64
    → Stream.decode_next_frame (record {
      r = record {
        bytes = Write.write_key_raw_frame before frame_no frame ++ rest;
        pos = length before;
      };
      state = d;
    })
      ≡ ok
          (record {
            r = record {
              bytes = Write.write_key_raw_frame before frame_no frame ++ rest;
              pos = length before + 28 + sbs_frame_bytes;
            };
            state = record { reference = frame; current = d.reference; has_reference = true };
          })
          (some (record { frame_no = frame_no; frame_type = 0; frame = frame }))
unfolding Stream.decode_next_frame Stream.decode_frame_at Reader.remaining
decode_next_frame-write_key_raw_frame before frame_no frame rest d v i small short =
    let bytes = written before frame_no frame rest v in
    let h = length before in
    let len = size before frame_no frame rest v in
    let fit = fits before frame_no frame rest v in
    let tag = tags before frame_no frame rest v in
    let some_left : (length bytes - h == 0) ≡ false = ground (arith, fit) in
    let enough : ltb (length bytes - h) 28 ≡ false = ground (arith, fit) in
    rw (some_left, enough)
      (ok-bind _
        (ok-bind _ (load_u32_le_at bytes h _ (omega (arith, fit))) (
          ok-bind _ (refuse-false _ _ _ (ground (arith, magic before frame_no frame rest v))) (
            ok-bind _ (load_frame_header_at bytes h _ (omega (arith, fit))) (
              ok-bind _ (refuse-false _ _ _ (ground (arith, tag.2, tag.3))) (
                ok-bind _ (refuse-false _ _ _ (ground (arith, len))) (
                  ok-bind _ (refuse-false _ _ _ (ground (arith, len, fit))) (
                    ok-bind _
                      (ok-zoom _
                        (decode_picture-key before frame_no frame rest v d _ _ _ i tag.0 tag.1 len))
                      (rw (len, number before frame_no frame rest v small, tag.0) refl))))))))
        refl)
