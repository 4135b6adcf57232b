-- ===== src/O3yv/Tile/Safe.antt =====
-- Decoding a tile keeps the pictures and the reader valid.
use Prim.Native.Nat.{bit_and}
use rav1e.Prelude.{
  ℕ, ◌+◌, ◌-◌, ◌≤◌, refl, List, length, ltb, ◌==◌, not, arith, not_ltb→le, Bool-cases, inl, inr,
}
use rav1e.Prelude.{
  Ensures, ok-bind, Keeps, Keeps-if, Keeps-bind, Keeps-zoom, Keeps-choice, Ensures-bind,
  Ensures-zoom, refuse_if-false, refuse_if-Keeps, kept, stopped,
}
use rav1e.Prelude.Loops.{for_each-Keeps}
use rav1e.O3yv.Bytes.Loads.{load_byte_at, load_u16_le_at, load_u32_le_at, ok-Ensures}
use rav1e.O3yv.Frame.{EyeFrame, SbsFrame, Mv}
use rav1e.O3yv.Eye.{IsEye, IsSbs}
use rav1e.O3yv.Pixels.Safe.{IsBytes}
use rav1e.O3yv.Reader
use rav1e.O3yv.Reader.{Reader}
use rav1e.O3yv.Reader.Safe.{IsReader, new-IsReader, take_bytes-IsReader}
use rav1e.O3yv.Blocks.Safe.{prefill_eye-IsEye}
use rav1e.O3yv.Fragment.{TileState, BaseCopyMode}
use rav1e.O3yv.Fragment.Loop.{IsTileState, decode_fragment-IsTileState}
use rav1e.O3yv.Tile
use rav1e.O3yv.Tile.{PState}

pub record IsPState (s : PState) : Type 0 where
  pub reader : IsReader s.reader
  pub current : IsSbs s.current

eye_of-IsEye : (t : ℕ) (f : SbsFrame) → IsSbs f → IsEye (Tile.eye_of t f)
eye_of-IsEye t f v = elim (Bool-cases (t == 0)) [ inl e ↦ rw e (v.left) | inr e ↦ rw e (v.right) ]

set_eye-IsSbs :
    (t : ℕ) (e : EyeFrame) (f : SbsFrame) → IsEye e → IsSbs f → IsSbs (Tile.set_eye t e f)
set_eye-IsSbs t e f i v = elim (Bool-cases (t == 0)) [
  | inl z ↦ rw z (record { left = i; right = v.right })
  | inr z ↦ rw z (record { left = v.left; right = i })
]

module _ {S : Type 0} {I : S → Type 0} (bytes : List ℕ) (h : ℕ) (s : S) where
  load_tile_header-Ensures :
      h + 17 ≤ length bytes → I s → Ensures I (λ t _. I t) (Tile.load_tile_header bytes h s)
  unfolding Tile.load_tile_header
  load_tile_header-Ensures room i =
      ok-Ensures
        (ok-bind _ (load_byte_at bytes h s (omega arith)) (
          ok-bind _ (load_byte_at bytes (h + 1) s (omega arith)) (
            ok-bind _ (load_byte_at bytes (h + 2) s (omega arith)) (
              ok-bind _ (load_byte_at bytes (h + 3) s (omega arith)) (
                ok-bind _ (load_byte_at bytes (h + 4) s (omega arith)) (
                  ok-bind _ (load_byte_at bytes (h + 5) s (omega arith)) (
                    ok-bind _ (load_byte_at bytes (h + 6) s (omega arith)) (
                      ok-bind _ (load_byte_at bytes (h + 7) s (omega arith)) (
                        ok-bind _ (load_byte_at bytes (h + 8) s (omega arith)) (
                          ok-bind _ (load_byte_at bytes (h + 9) s (omega arith)) (
                            ok-bind _ (load_byte_at bytes (h + 10) s (omega arith)) (
                              ok-bind _ (load_u16_le_at bytes (h + 11) s (omega arith)) (
                                ok-bind _ (load_u32_le_at bytes (h + 13) s (omega arith))
                                  refl)))))))))))))
        i

module _ {reference : SbsFrame} (valid : IsSbs reference) where
  base_copy-IsPState :
      (t flags : ℕ) (mv : Mv) (s : PState)
      → IsPState s
      → Keeps IsPState (Tile.base_copy t flags (Tile.eye_of t reference) mv s)
  unfolding Tile.base_copy
  base_copy-IsPState t flags mv s v =
      Keeps-if _ _ _ (not (bit_and flags 1 == 0)) (λ _. kept v)
        λ _.
          Keeps-bind
            (Keeps-zoom (λ e. record s { current = Tile.set_eye t e s.current })
              (prefill_eye-IsEye (eye_of-IsEye t reference valid) mv
                (eye_of-IsEye t s.current v.current))
              λ e k. record {
                reader = v.reader;
                current = set_eye-IsSbs t e s.current k v.current;
              })
            λ _ _ v'. kept v'

  decode_fragments-IsTileState :
      (n t segment_count : ℕ) (base : BaseCopyMode) (s : TileState)
      → IsTileState s
      → Keeps IsTileState (Tile.decode_fragments n t segment_count base (Tile.eye_of t reference) s)
  unfolding Tile.decode_fragments
  decode_fragments-IsTileState n t segment_count base s v =
      Keeps-bind
        (for_each-Keeps IsTileState n 0 n _ (omega arith)
          (λ _ s' _ v'.
            decode_fragment-IsTileState (eye_of-IsEye t reference valid) t segment_count base s' v')
          s v)
        λ s' _ v'. refuse_if-Keeps _ _ s' v'

  decode_tile_at-IsPState :
      (h : ℕ) (bytes : List ℕ) (s : PState)
      → h + 17 ≤ length bytes
      → IsPState s
      → Keeps IsPState (Tile.decode_tile_at h bytes reference s)
  unfolding Tile.decode_tile_at
  decode_tile_at-IsPState h bytes s room v =
      Ensures-bind (load_tile_header-Ensures bytes h s room v) λ s0 header v0.
        let t = header.tile_id in
        Ensures-bind (refuse_if-false _ _ s0 v0) λ s1 _ h1.
          Ensures-bind (refuse_if-false _ _ s1 h1.0) λ s2 _ h2.
            Ensures-bind (refuse_if-false _ _ s2 h2.0) λ s3 _ h3.
              Ensures-bind {Q = λ t payload. IsPState t × IsBytes payload}
                (Ensures-zoom (λ r. record s3 { reader = r })
                  (take_bytes-IsReader _ s3.reader h3.0.reader)
                  (λ r k. record { reader = k; current = h3.0.current })
                  (λ r payload k. (record { reader = k.0; current = h3.0.current }, k.1)))
                λ s4 payload h4. Keeps-bind (base_copy-IsPState t _ _ s4 h4.0) λ s5 base v5.
                  Keeps-zoom
                    (λ (u : TileState). record s5 { current = Tile.set_eye t u.current s5.current })
                    (decode_fragments-IsTileState _ t _ base _ (record {
                      reader = new-IsReader payload h4.1;
                      current = eye_of-IsEye t s5.current v5.current;
                    }))
                    λ u k. record {
                      reader = v5.reader;
                      current = set_eye-IsSbs t u.current s5.current k.current v5.current;
                    }

  pub decode_tile-IsPState :
      (s : PState) → IsPState s → Keeps IsPState (Tile.decode_tile reference s)
  unfolding Tile.decode_tile Reader.remaining
  decode_tile-IsPState s v =
      Keeps-choice (ltb (length s.reader.bytes - s.reader.pos) 17) (λ _. stopped v)
        λ t.
          let room = not_ltb→le (length s.reader.bytes - s.reader.pos) 17 t in
          let fits = v.reader.in_range in
          decode_tile_at-IsPState s.reader.pos s.reader.bytes _ (omega arith) (record {
            reader = record { in_range = omega arith; bytes = v.reader.bytes };
            current = v.current;
          })

  -- With whole reference and current pictures and any payload of bytes, `decode_tiles` does not
  -- fault, and whether it returns or stops with an error the current picture is whole and the
  -- reader within its slice.
  pub decode_tiles-IsPState :
      (s : PState) → IsPState s → Keeps IsPState (Tile.decode_tiles reference s)
  unfolding Tile.decode_tiles
  decode_tiles-IsPState s v =
      Keeps-bind
        (for_each-Keeps IsPState 2 0 2 _ (omega arith) (λ _ s' _ v'. decode_tile-IsPState s' v') s
          v)
        λ s' _ v'. refuse_if-Keeps _ _ s' v'
