-- ===== src/O3yv/Stream/Safe.antt =====
-- The decoder of streams is safe: whatever the bytes, no frame makes an access outside a slice.
use rav1e.Prelude.{
  ℕ, ◌+◌, ◌≤◌, ◌≡◌, refl, sym, ◌∙◌, ◌⊎◌, List, length, leb, ◌==◌, ◌&&◌, not, arith, true, false,
  inl, inr, ==→≡, not-true,
}
use rav1e.Prelude.{
  Keeps, Keeps-bind, Keeps-seq, Keeps-zoom, Ensures, Ensures-bind, Ensures-seq, Ensures-if,
  Ensures-weaken, refuse_if-false, returned, failed,
}
use rav1e.O3yv.Format.{
  frame_type_key_raw, eye_y_bytes, eye_chroma_bytes, eye_frame_bytes, sbs_frame_bytes,
}
use rav1e.O3yv.Frame.{EyeFrame, SbsFrame, DecoderState}
use rav1e.O3yv.Eye.{IsEye, IsSbs, on_y-IsEye, on_cb-IsEye, on_cr-IsEye}
use rav1e.O3yv.Pixels.Safe.{IsBytes, copy_at-IsPlane}
use rav1e.O3yv.Reader
use rav1e.O3yv.Reader.{Reader}
use rav1e.O3yv.Reader.Safe.{IsReader, new-IsReader, slice-IsBytes}
use rav1e.O3yv.Tile.{PState}
use rav1e.O3yv.Tile.Safe.{decode_tiles-IsPState}
use rav1e.O3yv.Stream
use rav1e.O3yv.Stream.{StreamDecoder, DecodedFrame}

pub record IsDecoder (d : DecoderState) : Type 0 where
  pub reference : IsSbs d.reference
  pub current : IsSbs d.current

-- What a picture's decoding leaves: the reference it started with, and whole pictures.
pub record Continues (d0 d : DecoderState) : Type 0 where
  pub decoder : IsDecoder d
  pub reference : d.reference ≡ d0.reference
  pub has_reference : d.has_reference ≡ d0.has_reference

-- A decoder in the middle of a stream.
pub record IsValid (s : StreamDecoder) : Type 0 where
  pub reader : IsReader s.r
  pub decoder : IsDecoder s.state

read_eye_raw_from_stream-IsEye :
    (bytes : List ℕ) (offset : ℕ) (e : EyeFrame)
    → IsEye e
    → IsBytes bytes
    → offset + eye_frame_bytes ≤ length bytes
    → Keeps IsEye (Stream.read_eye_raw_from_stream bytes offset e)
unfolding Stream.read_eye_raw_from_stream
read_eye_raw_from_stream-IsEye bytes offset e v b h =
    Keeps-bind
      (on_y-IsEye v
        (copy_at-IsPlane v.luma bytes b 0 offset eye_y_bytes (omega arith) (omega arith)))
      λ _ _ v1.
        Keeps-bind
          (on_cb-IsEye v1
            (copy_at-IsPlane v1.blue bytes b 0 _ eye_chroma_bytes (omega arith) (omega arith)))
          λ _ _ v2.
            on_cr-IsEye v2
              (copy_at-IsPlane v2.red bytes b 0 _ eye_chroma_bytes (omega arith) (omega arith))

on_current :
    {d0 d : DecoderState} {c : SbsFrame}
    → Continues d0 d
    → IsSbs c
    → Continues d0 (record d { current = c })
on_current v k = record {
  decoder = record { reference = v.decoder.reference; current = k };
  reference = v.reference;
  has_reference = v.has_reference;
}

module _ (bytes : List ℕ) (b : IsBytes bytes) where
  decode_key_raw-Continues :
      (tile_count frame_size start : ℕ) (d : DecoderState)
      → IsDecoder d
      → start + frame_size ≤ length bytes
      → Keeps (Continues d) (Stream.decode_key_raw tile_count frame_size bytes start d)
  unfolding Stream.decode_key_raw
  decode_key_raw-Continues tile_count frame_size start d v h =
      Ensures-bind
        (refuse_if-false _ _ d (record { decoder = v; reference = refl; has_reference = refl }))
        λ d1 _ h1.
          Ensures-bind (refuse_if-false (not (frame_size == sbs_frame_bytes)) _ d1 h1.0) λ d2 _ h2.
            let size : frame_size ≡ sbs_frame_bytes = ==→≡ _ _ (not-true _ h2.1) in
            Keeps-bind
              (Keeps-zoom {J = IsEye}
                (λ e. record d2 { current = record (d2.current) { left = e } })
                (read_eye_raw_from_stream-IsEye bytes start _ h2.0.decoder.current.left b
                  (omega arith))
                λ e k. on_current h2.0 (record { left = k; right = h2.0.decoder.current.right }))
              λ d3 _ v3.
                Keeps-zoom {J = IsEye}
                  (λ e. record d3 { current = record (d3.current) { right = e } })
                  (read_eye_raw_from_stream-IsEye bytes (start + eye_frame_bytes) _
                    v3.decoder.current.right b (omega arith))
                  λ e k. on_current v3 (record { left = v3.decoder.current.left; right = k })

  decode_p-Continues :
      (tile_count frame_size start : ℕ) (d : DecoderState)
      → IsDecoder d
      → Ensures
          (Continues d)
          (λ t _. Continues d t × (d.has_reference ≡ true))
          (Stream.decode_p tile_count frame_size (Reader.slice bytes start frame_size) d)
  unfolding Stream.decode_p
  decode_p-Continues tile_count frame_size start d v =
      Ensures-seq
        (refuse_if-false _ _ d (record { decoder = v; reference = refl; has_reference = refl }))
        λ d1 _ h1. Ensures-seq (refuse_if-false (not d1.has_reference) _ d1 h1.0) λ d2 _ h2.
          let has : d.has_reference ≡ true = sym h1.0.has_reference ∙ not-true _ h2.1 in
          Ensures-if _ _ _
            (leb frame_size 512
              && Stream.p_payload_reuses_reference (Reader.slice bytes start frame_size) tile_count)
            (λ _. returned (h2.0, has))
            λ _.
              Keeps-seq
                (Keeps-zoom (λ (p : PState). record d2 { current = p.current })
                  (decode_tiles-IsPState h1.0.decoder.reference _ (record {
                    reader = new-IsReader _ (slice-IsBytes bytes start frame_size b);
                    current = h2.0.decoder.current;
                  }))
                  λ p k. on_current h2.0 k.current)
                λ _ _ v3. returned (v3, has)

  pub decode_picture-Continues :
      (frame_type tile_count frame_size start : ℕ) (d : DecoderState)
      → IsDecoder d
      → start + frame_size ≤ length bytes
      → Ensures
          (Continues d)
          (λ t reused.
            Continues d t
            × (d.has_reference ≡ true ⊎ ((frame_type ≡ frame_type_key_raw) × (reused ≡ false))))
          (Stream.decode_picture frame_type tile_count frame_size bytes start d)
  unfolding Stream.decode_picture
  decode_picture-Continues frame_type tile_count frame_size start d v h =
      Ensures-if _ _ _ (frame_type == 0)
        (λ e.
          Keeps-seq (decode_key_raw-Continues tile_count frame_size start d v h)
            λ _ _ v'. returned (v', inr (==→≡ _ _ e, refl)))
        λ _.
          Ensures-if _ _ _ (frame_type == 2)
            (λ _.
              Ensures-weaken (decode_p-Continues tile_count frame_size start d v)
                λ _ _ k. (k.0, inl k.1))
            (λ _. failed (record { decoder = v; reference = refl; has_reference = refl }))
