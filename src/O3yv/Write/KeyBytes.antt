-- ===== src/O3yv/Write/KeyBytes.antt =====
-- Where the bytes that `write_key_raw_frame` writes stand in a stream, and the picture they hold.
use rav1e.Prelude.{
  ℕ, ◌+◌, ◌≤◌, ◌<◌, ◌^◌, ◌≡◌, refl, ap, ◌∙◌, List, [], ◌++◌, append_assoc, length, length-append,
  arith, false,
}
use rav1e.Prelude.{ok, refuse_if, ok-bind, ok-zoom}
use rav1e.O3yv.Format.{frame_magic, eye_y_bytes, eye_chroma_bytes, eye_frame_bytes, sbs_frame_bytes}
use rav1e.O3yv.Bytes
use rav1e.O3yv.Bytes.{byte_at, le_byte, word16, word32}
use rav1e.O3yv.Frame.{SbsFrame, DecoderState}
use rav1e.O3yv.Eye.{IsSbs}
use rav1e.O3yv.Stream
use rav1e.O3yv.Stream.{StreamDecoder, DecodedFrame}
use rav1e.O3yv.Stream.Safe.{IsDecoder}
use rav1e.O3yv.Write
use rav1e.O3yv.Write.RoundTrip.{le_bytes_32}
use rav1e.O3yv.Write.Places.{
  write_frame_header-append, StandsAt, read_eye_raw_from_stream-StandsAt, part-StandsAt,
  load-StandsAt,
}

-- The payload, at `start` in the stream.
module _ (before : List ℕ) (frame_no : ℕ) (frame : SbsFrame) (rest : List ℕ) (v : IsSbs frame) where
  abbrev pub written : List ℕ
  written = Write.write_key_raw_frame before frame_no frame ++ rest

  abbrev header : List ℕ
  header = Write.write_frame_header [] sbs_frame_bytes frame_no 0 0

  abbrev planes : List ℕ
  planes =
      frame.left.y
      ++ (frame.left.cb
          ++ (frame.left.cr ++ (frame.right.y ++ (frame.right.cb ++ (frame.right.cr ++ rest)))))

  abbrev payload : List ℕ
  payload = Write.write_eye_raw (Write.write_eye_raw [] frame.left) frame.right

  length-payload : length payload ≡ sbs_frame_bytes
  unfolding Write.write_eye_raw
  length-payload = grind (
    arith, length-append, v.left.luma.size, v.left.blue.size, v.left.red.size, v.right.luma.size,
    v.right.blue.size, v.right.red.size,
  )

  layout : written ≡ before ++ (header ++ planes)
  unfolding Write.write_key_raw_frame Write.write_eye_raw
  layout = rw length-payload (simp (append_assoc, write_frame_header-append before))

  length-header : length header ≡ 28
  unfolding Write.write_frame_header Bytes.put_u32 Bytes.push
  length-header = refl

  left_y : StandsAt written (length before + 28) frame.left.y
  left_y =
      part-StandsAt (before ++ header) frame.left.y
        (frame.left.cb
          ++ (frame.left.cr ++ (frame.right.y ++ (frame.right.cb ++ (frame.right.cr ++ rest)))))
        _ _ (layout ∙ simp append_assoc)
        (grind (
          arith, length-append, length-header, v.left.luma.size, v.left.blue.size, v.left.red.size,
          v.right.luma.size, v.right.blue.size,
        ))

  left_cb : StandsAt written (length before + 28 + eye_y_bytes) frame.left.cb
  left_cb =
      part-StandsAt (before ++ (header ++ frame.left.y)) frame.left.cb
        (frame.left.cr ++ (frame.right.y ++ (frame.right.cb ++ (frame.right.cr ++ rest)))) _ _
        (layout ∙ simp append_assoc)
        (grind (
          arith, length-append, length-header, v.left.luma.size, v.left.blue.size, v.left.red.size,
          v.right.luma.size, v.right.blue.size,
        ))

  left_cr : StandsAt written (length before + 28 + eye_y_bytes + eye_chroma_bytes) frame.left.cr
  left_cr =
      part-StandsAt (before ++ (header ++ (frame.left.y ++ frame.left.cb))) frame.left.cr
        (frame.right.y ++ (frame.right.cb ++ (frame.right.cr ++ rest))) _ _
        (layout ∙ simp append_assoc)
        (grind (
          arith, length-append, length-header, v.left.luma.size, v.left.blue.size, v.left.red.size,
          v.right.luma.size, v.right.blue.size,
        ))

  right_y : StandsAt written (length before + 28 + eye_frame_bytes) frame.right.y
  right_y =
      part-StandsAt (before ++ (header ++ (frame.left.y ++ (frame.left.cb ++ frame.left.cr))))
        frame.right.y (frame.right.cb ++ (frame.right.cr ++ rest)) _ _ (layout ∙ simp append_assoc)
        (grind (
          arith, length-append, length-header, v.left.luma.size, v.left.blue.size, v.left.red.size,
          v.right.luma.size, v.right.blue.size,
        ))

  right_cb : StandsAt written (length before + 28 + eye_frame_bytes + eye_y_bytes) frame.right.cb
  right_cb =
      part-StandsAt
        (before
          ++ (header ++ (frame.left.y ++ (frame.left.cb ++ (frame.left.cr ++ frame.right.y)))))
        frame.right.cb (frame.right.cr ++ rest) _ _ (layout ∙ simp append_assoc)
        (grind (
          arith, length-append, length-header, v.left.luma.size, v.left.blue.size, v.left.red.size,
          v.right.luma.size, v.right.blue.size,
        ))

  right_cr :
      StandsAt written
        (length before + 28 + eye_frame_bytes + eye_y_bytes + eye_chroma_bytes)
        frame.right.cr
  right_cr =
      part-StandsAt
        (before
          ++ (header
              ++ (frame.left.y
                  ++ (frame.left.cb ++ (frame.left.cr ++ (frame.right.y ++ frame.right.cb))))))
        frame.right.cr (rest) _ _ (layout ∙ simp append_assoc)
        (grind (
          arith, length-append, length-header, v.left.luma.size, v.left.blue.size, v.left.red.size,
          v.right.luma.size, v.right.blue.size,
        ))

  pub fits : length before + 28 + sbs_frame_bytes ≤ length written
  fits = grind (
    arith,
    ap length layout,
    length-append,
    length-header,
    v.left.luma.size,
    v.left.blue.size,
    v.left.red.size,
    v.right.luma.size,
    v.right.blue.size,
    v.right.red.size,
  )

  fields : StandsAt written (length before) header
  fields = part-StandsAt before header planes _ _ layout refl

  pub magic : word32 written (length before) ≡ frame_magic
  unfolding Write.write_frame_header Bytes.put_u32 Bytes.push word32
  magic = load-StandsAt written header _ 0 _ fields (omega arith) (omega arith)

  pub size : word32 written (length before + 4) ≡ sbs_frame_bytes
  unfolding Write.write_frame_header Bytes.put_u32 Bytes.push word32
  size = load-StandsAt written header _ 4 _ fields (omega arith) refl

  pub number : frame_no < 2 ^ 32 → word32 written (length before + 8) ≡ frame_no
  unfolding Write.write_frame_header Bytes.put_u32 Bytes.push word32
  number h = load-StandsAt written header _ 8 _ fields (omega arith) refl ∙ le_bytes_32 frame_no h

  -- The frame's type, the number of its tiles, and two bytes of zero.
  pub tags :
      (byte_at written (length before + 16) ≡ 0)
      × (byte_at written (length before + 17) ≡ 2)
      × (byte_at written (length before + 18) ≡ 0)
      × (byte_at written (length before + 19) ≡ 0)
  unfolding Write.write_frame_header Bytes.put_u32 Bytes.push
  tags = (
    fields 16 (omega arith),
    fields 17 (omega arith),
    fields 18 (omega arith),
    fields 19 (omega arith),
  )

  -- The picture of a key frame.
  pub decode_picture-key :
      (d : DecoderState) (frame_type tiles len : ℕ)
      → IsDecoder d
      → frame_type ≡ 0
      → tiles ≡ 2
      → len ≡ sbs_frame_bytes
      → Stream.decode_picture frame_type tiles len written (length before + 28) d
        ≡ ok (record d { current = frame }) false
  unfolding Stream.decode_picture Stream.decode_key_raw refuse_if
  decode_picture-key d frame_type tiles len i et en el =
      rw (et, en, el)
        (ok-bind _
          (ok-bind _
            (ok-zoom _ (
              read_eye_raw_from_stream-StandsAt written _ _ frame.left i.current.left v.left
                (omega (arith, fits)) left_y left_cb left_cr))
            (ok-zoom _ (
              read_eye_raw_from_stream-StandsAt written _ _ frame.right i.current.right v.right
                (omega (arith, fits)) right_y right_cb right_cr)))
          refl)
