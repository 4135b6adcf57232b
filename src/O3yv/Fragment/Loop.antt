-- ===== src/O3yv/Fragment/Loop.antt =====
-- The loop over the modes of a fragment ends, stays in the picture, and its fuel lasts.
use Prim.Native.Nat.{bit_and}
use rav1e.Prelude.{
  ℕ, zero, suc, refl, ◌+◌, ◌-◌, ◌≤◌, ◌<◌, ◌≢◌, List, length, ltb, leb, ◌==◌, arith, ltb→lt,
  not_ltb→le,
}
use rav1e.Prelude.{
  ok-bind, Keeps, Keeps-if, Keeps-bind, Keeps-seq, Keeps-zoom, Keeps-choice, Ensures, Ensures-bind,
  Ensures-seq, Ensures-zoom, Ensures-if, refuse_if-false, refuse_if-Keeps, kept, stopped, returned,
  failed,
}
use rav1e.Prelude.Loops.{for_each-Keeps}
use rav1e.O3yv.Format.{mb_count}
use rav1e.O3yv.Bytes.Loads.{load_byte_at, load_u16_le_at, load_u32_le_at, ok-Ensures}
use rav1e.O3yv.Frame.{EyeFrame}
use rav1e.O3yv.Eye.{IsEye}
use rav1e.O3yv.Pixels.Safe.{IsBytes}
use rav1e.O3yv.Reader
use rav1e.O3yv.Reader.{Reader}
use rav1e.O3yv.Reader.Safe.{
  IsReader, new-IsReader, u8-IsReader, take_bytes-IsReader, consume_optional_trailing_zero-IsReader,
}
use rav1e.O3yv.Blocks.Safe.{copy_mb_run_from_reference-IsEye}
use rav1e.O3yv.Coeffs.Safe.{ne_of_test}
use rav1e.O3yv.Modes.Safe.{validate_fragment_header-Ensures, validate_segment_map-Keeps}
use rav1e.O3yv.Fragment
use rav1e.O3yv.Fragment.{Work, BaseCopyMode, TileState}
use rav1e.O3yv.Fragment.Safe.{
  IsWork, on_modes-IsWork, on_modes-Ensures, if_lazy-IsWork, decode_one_mb-IsWork,
}

module _ {ref : EyeFrame} (valid : IsEye ref) (base : BaseCopyMode) (end_mb : ℕ)
    (inside : end_mb ≤ mb_count) where
  -- An opcode other than 0 moves on, and not past the end of the fragment.
  decode_op-IsWork :
      (n op : ℕ) (w : Work)
      → n < end_mb
      → op ≢ 0
      → IsWork w
      → Ensures IsWork
          (λ t i. IsWork t × (n < i) × (i ≤ end_mb))
          (Fragment.decode_op end_mb base ref n op w)
  unfolding Fragment.decode_op
  decode_op-IsWork n op w h ne v =
      Ensures-if _ _ _ (leb op 0x7f)
        (λ _. Ensures-seq (refuse_if-false (ltb end_mb (n + op)) _ w v) λ w1 _ h1.
          let le = not_ltb→le end_mb (n + op) h1.1 in
          Keeps-seq
            (if_lazy-IsWork base _
              (λ mv e i. copy_mb_run_from_reference-IsEye valid n op mv i (omega arith)) w1 h1.0)
            λ w2 _ v2. returned (v2, omega arith, le))
        λ _.
          Ensures-if _ _ _ (bit_and op 0xf0 == 0x80)
            (λ _.
              Keeps-seq (decode_one_mb-IsWork valid n (omega arith) _ base w v)
                λ w1 _ v1. returned (v1, omega arith, omega arith))
            λ _.
              Ensures-if _ _ _ (bit_and op 0xf0 == 0x90)
                (λ _.
                  Ensures-seq (on_modes-Ensures v (λ k. k < 256) (u8-IsReader w.modes v.modes))
                    λ w1 k h1.
                      Ensures-seq (refuse_if-false (ltb end_mb (n + (k + 1))) _ w1 h1.0) λ w2 _ h2.
                        let le = not_ltb→le end_mb (n + (k + 1)) h2.1 in
                        Keeps-seq
                          (for_each-Keeps IsWork (k + 1) n end_mb _ le
                            (λ i s hi u. decode_one_mb-IsWork valid i (omega arith) _ base s u) w2
                            h2.0)
                          λ w3 _ v3. returned (v3, omega arith, le))
                (λ _. failed v)

  decode_modes-IsWork :
      (fuel n : ℕ) (w : Work)
      → n ≤ end_mb
      → end_mb ≤ n + fuel
      → IsWork w
      → Keeps IsWork (Fragment.decode_modes fuel end_mb base ref n w)
  unfolding Fragment.decode_modes
  decode_modes-IsWork zero n w h f v =
      Keeps-if _ _ _ (ltb n end_mb) (λ t. absurd (omega (arith, ltb→lt n end_mb t))) (λ _. kept v)
  decode_modes-IsWork (suc fuel) n w h f v =
      Keeps-if _ _ _ (ltb n end_mb)
        (λ t.
          Ensures-bind (on_modes-Ensures v (λ k. k < 256) (u8-IsReader w.modes v.modes)) λ w1 op h1.
            Keeps-if _ _ _ (op == 0) (λ _. kept h1.0)
              λ z.
                Ensures-bind (decode_op-IsWork n op w1 (ltb→lt n end_mb t) (ne_of_test op z) h1.0)
                  λ w2 i h2. decode_modes-IsWork fuel i w2 h2.2 (omega (arith, h2.1)) h2.0)
        (λ _. kept v)

finish_fragment-IsWork :
    (end_mb n : ℕ) (w : Work) → IsWork w → Keeps IsWork (Fragment.finish_fragment end_mb n w)
unfolding Fragment.finish_fragment
finish_fragment-IsWork end_mb n w v = Ensures-bind (refuse_if-false _ _ w v) λ w1 _ h1.
    Keeps-bind (on_modes-IsWork h1.0 (consume_optional_trailing_zero-IsReader w1.modes h1.0.modes))
      λ w2 _ v2. refuse_if-Keeps _ _ w2 v2

pub record IsTileState (s : TileState) : Type 0 where
  pub reader : IsReader s.reader
  pub current : IsEye s.current

module _ {s : TileState} (v : IsTileState s) where
  on_reader-IsTileState :
      (n : ℕ)
      → Ensures IsTileState
          (λ t bytes. IsTileState t × IsBytes bytes)
          (Fragment.on_reader (Fragment.take_bytes n) s)
  on_reader-IsTileState n =
      Ensures-zoom (λ r. record s { reader = r }) (take_bytes-IsReader n s.reader v.reader)
        (λ r k. record { reader = k; current = v.current })
        (λ r bytes k. (record { reader = k.0; current = v.current }, k.1))

module _ {S : Type 0} {I : S → Type 0} (bytes : List ℕ) (h : ℕ) (s : S) where
  load_fragment_header-Ensures :
      h + 28 ≤ length bytes → I s → Ensures I (λ t _. I t) (Fragment.load_fragment_header bytes h s)
  unfolding Fragment.load_fragment_header
  load_fragment_header-Ensures room i =
      ok-Ensures
        (ok-bind _ (load_byte_at bytes h s (omega arith)) (
          ok-bind _ (load_byte_at bytes (h + 1) s (omega arith)) (
            ok-bind _ (load_byte_at bytes (h + 2) s (omega arith)) (
              ok-bind _ (load_byte_at bytes (h + 3) s (omega arith)) (
                ok-bind _ (load_u16_le_at bytes (h + 4) s (omega arith)) (
                  ok-bind _ (load_u16_le_at bytes (h + 6) s (omega arith)) (
                    ok-bind _ (load_u32_le_at bytes (h + 8) s (omega arith)) (
                      ok-bind _ (load_u32_le_at bytes (h + 12) s (omega arith)) (
                        ok-bind _ (load_u32_le_at bytes (h + 16) s (omega arith)) (
                          ok-bind _ (load_u32_le_at bytes (h + 20) s (omega arith)) (
                            ok-bind _ (load_u32_le_at bytes (h + 24) s (omega arith))
                              refl)))))))))))
        i

module _ {ref : EyeFrame} (valid : IsEye ref) (tile_id segment_count : ℕ)
    (base : BaseCopyMode) where
  streams-IsWork :
      (start count : ℕ) (modes residual raw : List ℕ) (t : TileState)
      → start + count ≤ mb_count
      → IsBytes modes
      → IsBytes residual
      → IsBytes raw
      → IsTileState t
      → Keeps IsWork (
          Fragment.decode_streams start count base ref (record {
            modes = Fragment.Reader.new modes;
            residual = Fragment.Reader.new residual;
            raw = Fragment.Reader.new raw;
            current = t.current;
          }))
  unfolding Fragment.decode_streams
  streams-IsWork start count modes residual raw t band bm br bw k =
      Keeps-bind
        (decode_modes-IsWork valid base (start + count) band count start _ (omega arith)
          (omega arith)
          (record {
            modes = new-IsReader modes bm;
            residual = new-IsReader residual br;
            raw = new-IsReader raw bw;
            current = k.current;
          }))
        λ w n vw. finish_fragment-IsWork (start + count) n w vw

  decode_fragment_at-IsTileState :
      (h : ℕ) (bytes : List ℕ) (s : TileState)
      → h + 28 ≤ length bytes
      → IsTileState s
      → Keeps IsTileState (Fragment.decode_fragment_at h tile_id segment_count base ref bytes s)
  decode_fragment_at-IsTileState h bytes s room v =
      Ensures-bind (load_fragment_header-Ensures bytes h s room v) λ s0 header v0.
        Ensures-bind
          (validate_fragment_header-Ensures _ _ _ _ _ _ header.start_mb header.count s0 v0)
          λ s1 _ h1. Ensures-bind (on_reader-IsTileState h1.0 _) λ s2 map h2.
            let band = h1.1 in
            Keeps-bind
              (validate_segment_map-Keeps map segment_count header.count s2 (omega arith) h2.0)
              λ s3 _ v3. Ensures-bind (on_reader-IsTileState v3 _) λ s4 modes h4.
                Ensures-bind (on_reader-IsTileState h4.0 _) λ s5 residual h5.
                  Ensures-bind (on_reader-IsTileState h5.0 _) λ s6 raw h6.
                    Keeps-zoom (λ (w : Work). record s6 { current = w.current })
                      (streams-IsWork _ _ modes residual raw s6 band h4.1 h5.1 h6.1 h6.0)
                      λ t k. record { reader = h6.0.reader; current = k.current }

  -- With a whole reference eye, a whole current eye and any bytes, `decode_fragment` neither
  -- faults nor runs out of fuel, and by a result or an error leaves a whole eye and a reader
  -- within its slice, for either base copy mode.
  pub decode_fragment-IsTileState :
      (s : TileState)
      → IsTileState s
      → Keeps IsTileState (Fragment.decode_fragment tile_id segment_count base ref s)
  unfolding Fragment.decode_fragment Reader.remaining
  decode_fragment-IsTileState s v =
      Keeps-choice (ltb (length s.reader.bytes - s.reader.pos) 28) (λ _. stopped v)
        λ t.
          let room = not_ltb→le (length s.reader.bytes - s.reader.pos) 28 t in
          let fits = v.reader.in_range in
          decode_fragment_at-IsTileState s.reader.pos s.reader.bytes _ (omega arith) (record {
            reader = record { in_range = omega arith; bytes = v.reader.bytes };
            current = v.current;
          })
