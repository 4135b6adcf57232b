-- ===== src/O3yv/Stream/Total.antt =====
-- Whole streams: `decode_stream_with_metadata` ends on every byte string, without a fault.
use rav1e.Prelude.{
  ℕ, zero, suc, ◌+◌, ◌-◌, ◌*◌, ◌<◌, ◌≡◌, refl, sym, ap, ◌∙◌, ◌⊎◌, List, [], ◌∷◌, length, ltb, arith,
  Bool, true, false, Option, none, some, subst, length-replicate, get_or, replicate,
}
use rav1e.Prelude.{
  M, ◌>>=◌, done, Outcome, ok, err, fault, Ensures, Ensures-seq, Ensures-if, returned, failed,
}
use rav1e.O3yv.Format.{frame_header_size, file_header_size}
use rav1e.O3yv.Frame
use rav1e.O3yv.Frame.{EyeFrame, SbsFrame}
use rav1e.O3yv.Pixels.Safe.{IsPlane}
use rav1e.O3yv.Eye.{IsEye, IsSbs}
use rav1e.O3yv.Reader
use rav1e.O3yv.Reader.{Reader}
use rav1e.O3yv.Reader.Advance.{
  IsPast, u8-IsPast, u16-IsPast, u32-IsPast, u64-IsPast, refuse_if-IsPast, skip-IsPast,
}
use rav1e.O3yv.Stream
use rav1e.O3yv.Stream.{StreamDecoder, DecodedFrame}
use rav1e.O3yv.Stream.Safe.{IsDecoder, IsValid}
use rav1e.O3yv.Stream.Frames.{Holds, Advances, AfterNext, decode_next_frame-AfterNext}

-- The header takes 60 bytes at least, and is read in place.
pub parse_file_header-IsPast :
    (bytes : List ℕ)
    → Ensures
        (IsPast bytes 0)
        (λ r _. IsPast bytes file_header_size r)
        (Stream.parse_file_header (Reader.new bytes))
unfolding Stream.parse_file_header Reader.new
parse_file_header-IsPast bytes = Ensures-seq (u32-IsPast bytes _ _ new-IsPast) λ r0 _ p0.
    Ensures-seq (refuse_if-IsPast bytes _ _ p0 _ _) λ r1 _ p1.
      Ensures-seq (u16-IsPast bytes _ _ p1) λ r2 _ p2.
        Ensures-seq (u16-IsPast bytes _ _ p2) λ r3 _ p3.
          Ensures-seq (u16-IsPast bytes _ _ p3) λ r4 header_size p4.
            Ensures-seq (u16-IsPast bytes _ _ p4) λ r5 _ p5.
              Ensures-seq (u16-IsPast bytes _ _ p5) λ r6 _ p6.
                Ensures-seq (u16-IsPast bytes _ _ p6) λ r7 _ p7.
                  Ensures-seq (u16-IsPast bytes _ _ p7) λ r8 _ p8.
                    Ensures-seq (u16-IsPast bytes _ _ p8) λ r9 _ p9.
                      Ensures-seq (u16-IsPast bytes _ _ p9) λ r10 _ p10.
                        Ensures-seq (u16-IsPast bytes _ _ p10) λ r11 _ p11.
                          Ensures-seq (u8-IsPast bytes _ _ p11) λ r12 _ p12.
                            Ensures-seq (u8-IsPast bytes _ _ p12) λ r13 _ p13.
                              Ensures-seq (u8-IsPast bytes _ _ p13) λ r14 _ p14.
                                Ensures-seq (u8-IsPast bytes _ _ p14) λ r15 _ p15.
                                  Ensures-seq (u32-IsPast bytes _ _ p15) λ r16 _ p16.
                                    Ensures-seq (u32-IsPast bytes _ _ p16) λ r17 _ p17.
                                      Ensures-seq (u32-IsPast bytes _ _ p17) λ r18 _ p18.
                                        Ensures-seq (u32-IsPast bytes _ _ p18) λ r19 _ p19.
                                          Ensures-seq (u16-IsPast bytes _ _ p19) λ r20 _ p20.
                                            Ensures-seq (u16-IsPast bytes _ _ p20) λ r21 _ p21.
                                              Ensures-seq (u32-IsPast bytes _ _ p21) λ r22 _ p22.
                                                Ensures-seq (u64-IsPast bytes _ _ p22) λ r23 _ p23.
                                                  Ensures-seq (refuse_if-IsPast bytes _ _ p23 _ _)
                                                    λ r24 _ p24.
                                                      Ensures-seq
                                                        (refuse_if-IsPast bytes _ _ p24 _ _)
                                                        λ r25 _ p25.
                                                          Ensures-seq
                                                            (refuse_if-IsPast bytes _ _ p25 _ _)
                                                            λ r26 _ p26.
                                                            Ensures-seq
                                                            (refuse_if-IsPast bytes _ _ p26 _ _)
                                                            λ r27 _ p27.
                                                            Ensures-seq
                                                            (refuse_if-IsPast bytes _ _ p27 _ _)
                                                            λ r28 _ p28.
                                                            Ensures-if
                                                            (Reader.skip
                                                            (header_size - file_header_size))
                                                            (done tt) r28
                                                            (ltb file_header_size header_size)
                                                            (λ _. skip-IsPast bytes _ _ p28 _)
                                                            (λ _. returned p28)
  where
    new-IsPast : IsPast bytes 0 (Reader.new bytes)
    new-IsPast = record { same = refl; past = omega arith; in_range = omega arith }

-- The pictures of a list of frames, all of them whole.
abbrev pub Pictures : List DecodedFrame → Type 0
Pictures [] = Unit
Pictures (f ∷ fs) = IsSbs f.frame × Pictures fs

-- A frame that shows a P frame comes after another.
abbrev pub StartsWithKey : Bool → List DecodedFrame → Type 0
StartsWithKey has [] = Unit
StartsWithKey has (f ∷ fs) = has ≡ true ⊎ (f.frame_type ≡ 0)

-- The last picture of a list, or one from before.
abbrev pub last_picture : SbsFrame → List DecodedFrame → SbsFrame
last_picture start [] = start
last_picture start (f ∷ fs) = last_picture f.frame fs

pub record Finished (s0 s : StreamDecoder) (fs : List DecodedFrame) : Type 0 where
  pub valid : IsValid s
  pub at_end : s.r.pos ≡ length s0.r.bytes
  pub pictures : Pictures fs
  pub starts : StartsWithKey s0.state.has_reference fs
  pub shows : s.state.reference ≡ last_picture s0.state.reference fs

-- The frames from the next one on.
module _ (s : StreamDecoder) (v : IsValid s) (rest : M StreamDecoder (List DecodedFrame)) where
  first-Finished :
      (t : StreamDecoder) (f : DecodedFrame)
      → Advances s t f
      → Ensures IsValid (Finished t) (rest t)
      → Ensures IsValid (Finished s) ((rest >>= λ fs. done (f ∷ fs)) t)
  first-Finished t f a e = Ensures-seq e λ u fs h. returned (record {
    valid = h.valid;
    at_end = h.at_end ∙ ap length a.bytes;
    pictures = (subst IsSbs (sym a.frame) a.valid.decoder.reference, h.pictures);
    starts = a.started;
    shows = h.shows ∙ ap (λ p. last_picture p fs) (sym a.frame);
  })

  next-Finished :
      (r : Outcome StreamDecoder (Option DecodedFrame))
      → Ensures (Holds s) (AfterNext s) r
      → ((t : StreamDecoder) (f : DecodedFrame)
          → Advances s t f
          → Ensures IsValid (Finished t) (rest t))
      → Ensures IsValid (Finished s) (elim r [
        | ok s' next ↦ elim next [ none ↦ ok s' [] | some f ↦ (rest >>= λ fs. done (f ∷ fs)) s' ]
        | err s' e ↦ err s' e
        | fault ↦ fault
      ])
  next-Finished r (returned {s = t} {a = none} h) k = returned (record {
    valid = subst IsValid (sym h.0) v;
    at_end = h.1 ∙ ap (λ z. length z.r.bytes) h.0;
    pictures = tt;
    starts = tt;
    shows = ap (λ z. z.state.reference) h.0;
  })
  next-Finished r (returned {s = t} {a = some f} h) k = first-Finished t f h (k t f h)
  next-Finished r (failed {s = t} h) k = failed h.valid

-- With fuel for one more frame than fits, the loop returns the frames to the end of the stream,
-- or one of the program's errors.
pub decode_frames-Finished :
    (fuel : ℕ) (s : StreamDecoder)
    → IsValid s
    → length s.r.bytes < s.r.pos + fuel * frame_header_size
    → Ensures IsValid (Finished s) (Stream.decode_frames fuel s)
unfolding Stream.decode_frames
decode_frames-Finished zero s v enough = absurd (omega (arith, v.reader.in_range))
decode_frames-Finished (suc fuel) s v enough =
    next-Finished s v _ (Stream.decode_next_frame s) (decode_next_frame-AfterNext s v)
      λ t f a. decode_frames-Finished fuel t a.valid (omega (arith, a.further, ap length a.bytes))

get_or-replicate : (n v i : ℕ) → v < 256 → get_or (replicate n v) i 0 < 256
get_or-replicate zero v i h = omega arith
get_or-replicate (suc n) v zero h = h
get_or-replicate (suc n) v (suc i) h = get_or-replicate n v i h

pub replicate-IsPlane : (n v : ℕ) → v < 256 → IsPlane n (replicate n v)
replicate-IsPlane n v h = record {
  size = length-replicate n v;
  bytes = λ i. get_or-replicate n v i h;
}

pub new_eye-IsEye : IsEye Frame.new_eye
unfolding Frame.new_eye
new_eye-IsEye = record {
  luma = replicate-IsPlane _ _ (omega arith);
  blue = replicate-IsPlane _ _ (omega arith);
  red = replicate-IsPlane _ _ (omega arith);
}

pub new_state-IsDecoder : IsDecoder Frame.new_state
unfolding Frame.new_state Frame.new_sbs
new_state-IsDecoder = record {
  reference = record { left = new_eye-IsEye; right = new_eye-IsEye };
  current = record { left = new_eye-IsEye; right = new_eye-IsEye };
}

-- Decoding a byte string ends: it faults on no input, and on success it has read to the end of
-- the string, every picture it reported is whole, and the first one is a key frame.
pub record Decoded (bytes : List ℕ) (s : StreamDecoder) (fs : List DecodedFrame) : Type 0 where
  pub valid : IsValid s
  pub at_end : s.r.pos ≡ length bytes
  pub pictures : Pictures fs
  pub starts : StartsWithKey false fs
