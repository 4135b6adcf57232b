-- ===== src/O3yv/Stream/Frames.antt =====
-- `decode_next_frame` and the loop over frames, for any bytes: no fault, progress of the reader,
-- and a reference picture that changes only with a frame that is decoded whole.
use rav1e.Prelude.{
  ℕ, ◌+◌, ◌-◌, ◌≤◌, ◌≡◌, refl, sym, ◌∙◌, ◌⊎◌, List, length, ltb, ◌==◌, arith, not_ltb→le, ==→≡,
  false≢true, Bool, true, false, inl, inr, if◌then◌else◌, Option, none, some, subst,
}
use rav1e.Prelude.{
  ok, ok-bind, zoom, Ensures, Ensures-seq, Ensures-zoom, Ensures-choice, refuse_if-false, returned,
  failed,
}
use rav1e.O3yv.Format.{frame_header_size}
use rav1e.O3yv.Bytes.{byte_at, word32}
use rav1e.O3yv.Bytes.Loads.{load_byte_at, load_u32_le_at, ok-Ensures}
use rav1e.O3yv.Frame.{DecoderState}
use rav1e.O3yv.Reader
use rav1e.O3yv.Reader.{Reader}
use rav1e.O3yv.Stream
use rav1e.O3yv.Stream.{StreamDecoder, DecodedFrame, FrameHeader}
use rav1e.O3yv.Stream.Safe.{IsValid, Continues, decode_picture-Continues}

-- What an error leaves of a decoder: it still answers with the picture it answered with before.
pub record Holds (s0 s : StreamDecoder) : Type 0 where
  pub valid : IsValid s
  pub bytes : s.r.bytes ≡ s0.r.bytes
  pub reference : s.state.reference ≡ s0.state.reference
  pub has_reference : s.state.has_reference ≡ s0.state.has_reference

-- What a frame leaves: a decoder that has a reference, the frame's picture, further on in the
-- same stream.
pub record Advances (s0 s : StreamDecoder) (f : DecodedFrame) : Type 0 where
  pub valid : IsValid s
  pub bytes : s.r.bytes ≡ s0.r.bytes
  pub further : s0.r.pos + frame_header_size ≤ s.r.pos
  pub has_reference : s.state.has_reference ≡ true
  pub frame : f.frame ≡ s.state.reference
  -- Only a key frame can be the first.
  pub started : s0.state.has_reference ≡ true ⊎ (f.frame_type ≡ 0)

abbrev pub AfterNext : StreamDecoder → StreamDecoder → Option DecodedFrame → Type 0
AfterNext s0 s none = (s ≡ s0) × (s.r.pos ≡ length s.r.bytes)
AfterNext s0 s (some f) = Advances s0 s f

-- The header of a frame, where it is inside the bytes.
pub load_frame_header_at :
    {S : Type 0} (bytes : List ℕ) (h : ℕ) (s : S)
    → h + frame_header_size ≤ length bytes
    → Stream.load_frame_header bytes h s
      ≡ ok s (record {
        frame_size = word32 bytes (h + 4);
        frame_no = word32 bytes (h + 8);
        frame_type = byte_at bytes (h + 16);
        tile_count = byte_at bytes (h + 17);
        flags = byte_at bytes (h + 18);
        reserved = byte_at bytes (h + 19);
      })
unfolding Stream.load_frame_header
load_frame_header_at bytes h s room = ok-bind _ (load_u32_le_at bytes (h + 4) s (omega arith)) (
    ok-bind _ (load_u32_le_at bytes (h + 8) s (omega arith)) (
      ok-bind _ (load_byte_at bytes (h + 16) s (omega arith)) (
        ok-bind _ (load_byte_at bytes (h + 17) s (omega arith)) (
          ok-bind _ (load_byte_at bytes (h + 18) s (omega arith))
            (ok-bind _ (load_byte_at bytes (h + 19) s (omega arith)) refl)))))

module _ (s0 : StreamDecoder) (v : IsValid s0) where
  publish-Advances :
      (s : StreamDecoder) (reused : Bool) (end frame_no frame_type : ℕ)
      → Holds s0 s
      → s0.r.pos + frame_header_size ≤ end
      → end ≤ length s0.r.bytes
      → (s0.state.has_reference ≡ true ⊎ ((frame_type ≡ 0) × (reused ≡ false)))
      → Advances s0
          (record {
            r = record (s.r) { pos = end };
            state = if reused then s.state else Stream.publish s.state;
          })
          (record {
            frame_no = frame_no;
            frame_type = frame_type;
            frame = (if reused then s.state else Stream.publish s.state).reference;
          })
  publish-Advances s true end frame_no frame_type h le fits starts = record {
    valid = record {
      reader = record {
        in_range = subst (λ l. end ≤ length l) (sym h.bytes) fits;
        bytes = h.valid.reader.bytes;
      };
      decoder = h.valid.decoder;
    };
    bytes = h.bytes;
    further = le;
    has_reference = elim starts [
      | inl has ↦ h.has_reference ∙ has
      | inr k ↦ absurd (false≢true (sym k.1))
    ];
    frame = refl;
    started = elim starts [ inl has ↦ inl has | inr k ↦ inr k.0 ];
  }
  publish-Advances s false end frame_no frame_type h le fits starts = record {
    valid = record {
      reader = record {
        in_range = subst (λ l. end ≤ length l) (sym h.bytes) fits;
        bytes = h.valid.reader.bytes;
      };
      decoder = record { reference = h.valid.decoder.current; current = h.valid.decoder.reference };
    };
    bytes = h.bytes;
    further = le;
    has_reference = refl;
    frame = refl;
    started = elim starts [ inl has ↦ inl has | inr k ↦ inr k.0 ];
  }

  on_state :
      {s : StreamDecoder} {d : DecoderState}
      → Holds s0 s
      → Continues s.state d
      → Holds s0 (record s { state = d })
  on_state h c = record {
    valid = record { reader = h.valid.reader; decoder = c.decoder };
    bytes = h.bytes;
    reference = c.reference ∙ h.reference;
    has_reference = c.has_reference ∙ h.has_reference;
  }

  load_frame_header-Ensures :
      (s : StreamDecoder)
      → s0.r.pos + frame_header_size ≤ length s0.r.bytes
      → Holds s0 s
      → Ensures (Holds s0) (λ t _. Holds s0 t) (Stream.load_frame_header s0.r.bytes s0.r.pos s)
  load_frame_header-Ensures s room h =
      ok-Ensures (load_frame_header_at s0.r.bytes s0.r.pos s room) h

  picture :
      (header : FrameHeader) (s : StreamDecoder)
      → Holds s0 s
      → s0.r.pos + frame_header_size + header.frame_size ≤ length s0.r.bytes
      → Ensures
          (Holds s0)
          (λ t reused.
            Holds s0 t
            × (s0.state.has_reference ≡ true ⊎ ((header.frame_type ≡ 0) × (reused ≡ false))))
          (zoom
            (λ t. t.state)
            (λ d t. record t { state = d })
            (Stream.decode_picture header.frame_type header.tile_count header.frame_size s0.r.bytes
              (s0.r.pos + frame_header_size))
            s)
  picture header s h fits =
      Ensures-zoom (λ d. record s { state = d })
        (decode_picture-Continues s0.r.bytes v.reader.bytes _ _ _ _ s.state h.valid.decoder fits)
        (λ d c. on_state h c)
        λ d reused c.
          (on_state h c.0, elim c.1 [ inl has ↦ inl (sym h.has_reference ∙ has) | inr k ↦ inr k ])

  decode_frame_at-Advances :
      (s : StreamDecoder)
      → s0.r.pos + frame_header_size ≤ length s0.r.bytes
      → Holds s0 s
      → Ensures (Holds s0) (λ t f. Advances s0 t f) (Stream.decode_frame_at s0.r.pos s0.r.bytes s)
  unfolding Stream.decode_frame_at
  decode_frame_at-Advances s room h =
      Ensures-seq (ok-Ensures (load_u32_le_at s0.r.bytes s0.r.pos s (omega arith)) h) λ t0 _ k0.
        Ensures-seq (refuse_if-false _ _ t0 k0) λ t1 _ k1.
          Ensures-seq (load_frame_header-Ensures t1 room k1.0) λ s1 header h1.
            Ensures-seq (refuse_if-false _ _ s1 h1) λ s2 _ h2.
              Ensures-seq (refuse_if-false _ _ s2 h2.0) λ s3 _ h3.
                Ensures-seq
                  (refuse_if-false
                    (ltb (length s0.r.bytes) (s0.r.pos + frame_header_size + header.frame_size)) _
                    s3 h3.0)
                  λ s4 _ h4.
                    let fits = not_ltb→le _ _ h4.1 in
                    Ensures-seq (picture header s4 h4.0 fits) λ s5 reused h5.
                      returned (publish-Advances s5 reused _ _ _ h5.0 (omega arith) fits h5.1)

pub decode_next_frame-AfterNext :
    (s : StreamDecoder) → IsValid s → Ensures (Holds s) (AfterNext s) (Stream.decode_next_frame s)
unfolding Stream.decode_next_frame Reader.remaining
decode_next_frame-AfterNext s v =
    Ensures-choice (length s.r.bytes - s.r.pos == 0)
      (λ e. returned (refl, omega (arith, v.reader.in_range, ==→≡ _ _ e)))
      λ _.
        Ensures-choice (ltb (length s.r.bytes - s.r.pos) 28)
          (λ _. failed (record { valid = v; bytes = refl; reference = refl; has_reference = refl }))
          λ e.
            Ensures-seq
              (decode_frame_at-Advances s v _ (omega (arith, v.reader.in_range, not_ltb→le _ _ e))
                (record {
                  valid = record {
                    reader = record {
                      in_range = omega (arith, not_ltb→le _ _ e);
                      bytes = v.reader.bytes;
                    };
                    decoder = v.decoder;
                  };
                  bytes = refl;
                  reference = refl;
                  has_reference = refl;
                }))
              λ t f h. returned h
