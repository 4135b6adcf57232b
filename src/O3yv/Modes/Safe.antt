-- ===== src/O3yv/Modes/Safe.antt =====
-- What the checks of a fragment's header and segment map establish, and that they end.
use rav1e.Prelude.{
  ℕ, zero, suc, ◌+◌, ◌-◌, ◌*◌, ◌/◌, ◌⊎◌, inl, inr, subst, sym, refl, ◌≤◌, ◌<◌, ◌≡◌, List, ltb, leb,
  ◌==◌, ◌||◌, arith, ltb→lt, not_ltb→le, Bool, true, not, false, length,
}
use rav1e.Prelude.{
  M, ◌>>◌, Outcome, ok, err, fault, invalid, unsupported, refuse_if, returned, failed, Keeps,
  Keeps-if, Ensures, Ensures-bind, refuse_if-false, refuse_if-Keeps, require-Ensures,
}
use rav1e.O3yv.Format.{mb_count, mb_w, mb_h}
use rav1e.O3yv.Modes
use rav1e.O3yv.Bytes.Loads.{load_byte_at, ok-Ensures}

-- What a fragment's header must say for its tile: its macroblocks and its rows are in the picture.
pub record IsInPicture (frag_tile_id tile_id flags crc row_start row_count start_mb count : ℕ)
    : Type 0 where
  pub own : frag_tile_id ≡ tile_id
  pub no_flags : flags ≡ 0
  pub no_crc : crc ≡ 0
  pub inside : start_mb + count ≤ mb_count
  pub some_blocks : 0 < count
  pub rows_inside : row_start + row_count ≤ mb_h
  pub some_rows : 0 < row_count

-- The macroblocks of a fragment are those of its rows.
pub record IsBand (row_start row_count start_mb count : ℕ) : Type 0 where
  pub down :
      (mb : ℕ)
      → start_mb ≤ mb
      → mb < start_mb + count
      → (row_start ≤ mb / mb_w) × (mb / mb_w < row_start + row_count)
  pub up :
      (mb : ℕ)
      → row_start ≤ mb / mb_w
      → mb / mb_w < row_start + row_count
      → (start_mb ≤ mb) × (mb < start_mb + count)

-- A check that leaves the state: passed, refused as invalid, or refused as unsupported.
abbrev pub Judged : {S : Type 0} → S → Type 0 → Type 0 → Outcome S (Unit {0}) → Type 0
Judged s P Q (ok t a) = (t ≡ s) × P × Q
Judged s P Q (err t e) = (t ≡ s) × (((e ≡ invalid) × ¬ P) ⊎ ((e ≡ unsupported) × P × ¬ Q))
Judged s P Q fault = ⊥

module _ {S : Type 0} (s : S) (P Q : Type 0) where
  Judged-Ensures :
      {I : S → Type 0} {R : Type 0} (r : Outcome S (Unit {0}))
      → I s
      → Judged s P Q r
      → (P → R)
      → Ensures I (λ t _. I t × R) r
  Judged-Ensures {I} (ok t a) h (e, p, q) k = returned (subst I (sym e) h, k p)
  Judged-Ensures {I} (err t e) h (same, why) k = failed (subst I (sym same) h)
  Judged-Ensures fault h j k = absurd j

  refuse_if-Judged :
      (b : Bool) (k : M S (Unit {0}))
      → (b ≡ true → ¬ P)
      → (b ≡ false → Judged s P Q (k s))
      → Judged s P Q ((refuse_if b invalid >> k) s)
  unfolding refuse_if
  refuse_if-Judged true k h j = (refl, inl (refl, h refl))
  refuse_if-Judged false k h j = j refl

  rows_only-Judged :
      (b : Bool) → P → (b ≡ true → ¬ Q) → (b ≡ false → Q) → Judged s P Q (refuse_if b unsupported s)
  unfolding refuse_if
  rows_only-Judged true p h j = (refl, inr (refl, p, h refl))
  rows_only-Judged false p h j = (refl, p, j refl)

whole_rows-IsBand :
    (row_start row_count start_mb count : ℕ)
    → start_mb ≡ row_start * mb_w
    → count ≡ row_count * mb_w
    → IsBand row_start row_count start_mb count
whole_rows-IsBand row_start row_count start_mb count e f = record {
  down = λ mb h k. (omega arith, omega arith);
  up = λ mb h k. (omega arith, omega arith);
}

-- The first and the last macroblock of a band tell where its rows start and end.
IsBand-whole_rows :
    (row_start row_count start_mb count : ℕ)
    → 0 < row_count
    → 0 < count
    → IsBand row_start row_count start_mb count
    → (start_mb ≡ row_start * mb_w) × (count ≡ row_count * mb_w)
IsBand-whole_rows row_start row_count start_mb count some_rows some_blocks b =
    let first = b.down start_mb (omega arith) (omega arith) in
    let last = b.down (start_mb + count - 1) (omega arith) (omega arith) in
    let low = b.up (row_start * mb_w) (omega arith) (omega arith) in
    let high = b.up ((row_start + row_count) * mb_w - 1) (omega arith) (omega arith) in
    (omega (arith, first, last, low, high), omega (arith, first, last, low, high))

-- `validate_fragment_header` leaves the state. It passes exactly if the header names its tile, has
-- no flags and no checksum, its macroblocks and its rows, one of each at least, are in the picture,
-- and its macroblocks are those of its rows. If only the last fails the error is unsupported, and
-- else invalid.
pub validate_fragment_header-Judged :
    {S : Type 0}
    → (frag_tile_id tile_id flags crc row_start row_count start_mb count : ℕ) (s : S)
    → Judged s
        (IsInPicture frag_tile_id tile_id flags crc row_start row_count start_mb count)
        (IsBand row_start row_count start_mb count)
        (Modes.validate_fragment_header frag_tile_id tile_id flags crc row_start row_count start_mb
          count s)
unfolding Modes.validate_fragment_header
validate_fragment_header-Judged frag_tile_id tile_id flags crc row_start row_count start_mb count
      s =
    refuse_if-Judged s _ _ _ _ (λ t p. ground (arith, t, p.own, p.no_flags, p.no_crc))
      λ own.
        refuse_if-Judged s _ _ _ _ (λ t p. ground (arith, t, p.inside, p.some_blocks))
          λ blocks.
            refuse_if-Judged s _ _ _ _ (λ t p. ground (arith, t, p.rows_inside, p.some_rows))
              λ rows.
                let facts = picture own blocks rows in
                rows_only-Judged s _ _ _ facts
                  (λ t b.
                    let (e, f) = IsBand-whole_rows _ _ _ _ facts.some_rows facts.some_blocks b in
                    ground (arith, t, e, f))
                  λ t.
                    whole_rows-IsBand row_start row_count start_mb count (ground arith)
                      (ground arith)
  where
    picture :
        (not (frag_tile_id == tile_id) || not (flags == 0) || not (crc == 0)) ≡ false
        → (leb mb_count start_mb || count == 0 || ltb mb_count (start_mb + count)) ≡ false
        → (leb mb_h row_start || row_count == 0 || ltb mb_h (row_start + row_count)) ≡ false
        → IsInPicture frag_tile_id tile_id flags crc row_start row_count start_mb count
    picture own blocks rows = ground arith

-- What every caller of the check relies on.
module _ {S : Type 0} {I : S → Type 0} where
  pub validate_fragment_header-Ensures :
      (frag_tile_id tile_id flags crc row_start row_count start_mb count : ℕ) (s : S)
      → I s
      → Ensures I
          (λ t _. I t × (start_mb + count ≤ mb_count))
          (Modes.validate_fragment_header frag_tile_id tile_id flags crc row_start row_count
            start_mb count s)
  validate_fragment_header-Ensures frag_tile_id tile_id flags crc row_start row_count start_mb count
        s h =
      Judged-Ensures s _ _ _ h
        (validate_fragment_header-Judged frag_tile_id tile_id flags crc row_start row_count start_mb
          count s)
        λ p. p.inside

  segment_runs-Keeps :
      (bytes : List ℕ) (segment_count count fuel position described : ℕ) (s : S)
      → count ≤ described + fuel
      → I s
      → Keeps I (Modes.segment_runs bytes segment_count count fuel position described s)
  unfolding Modes.segment_runs
  segment_runs-Keeps bytes segment_count count zero position described s f h =
      Keeps-if _ _ _ (ltb described count) (λ t. absurd (omega (arith, ltb→lt described count t)))
        (λ _. refuse_if-Keeps _ _ s h)
  segment_runs-Keeps bytes segment_count count (suc fuel) position described s f h =
      Keeps-if _ _ _ (ltb described count)
        (λ _. Ensures-bind (refuse_if-false (ltb (length bytes) (position + 2)) _ s h) λ s0 _ h0.
          let room = not_ltb→le _ _ h0.1 in
          Ensures-bind (ok-Ensures (load_byte_at bytes position s0 (omega arith)) h0.0) λ s1 run h1.
            Ensures-bind (ok-Ensures (load_byte_at bytes (position + 1) s1 (omega arith)) h1)
              λ s2 segment_id h2. Ensures-bind (refuse_if-false _ _ s2 h2) λ s3 _ h3.
                Ensures-bind (refuse_if-false _ _ s3 h3.0) λ s4 _ h4.
                  segment_runs-Keeps bytes segment_count count fuel (position + 2)
                    (described + (run + 1)) s4 (omega arith) h4.0)
        (λ _. refuse_if-Keeps _ _ s h)

  pub validate_segment_map-Keeps :
      (bytes : List ℕ) (segment_count count : ℕ) (s : S)
      → count ≤ mb_count
      → I s
      → Keeps I (Modes.validate_segment_map bytes segment_count count s)
  unfolding Modes.validate_segment_map
  validate_segment_map-Keeps bytes segment_count count s c h =
      Keeps-if _ _ _ (segment_count == 1) (λ _. refuse_if-Keeps _ _ s h)
        λ _.
          Ensures-bind (require-Ensures (leb count mb_count) s (ground arith) h)
            λ s' _ h'. segment_runs-Keeps bytes segment_count count count 0 0 s' (omega arith) h'
