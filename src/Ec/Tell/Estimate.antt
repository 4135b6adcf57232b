-- ===== src/Ec/Tell/Estimate.antt =====
-- `symbol_bits` is what storing the symbol adds to `tell_frac`.
use rav1e.Prelude.{
  ℕ, zero, suc, ◌+◌, ◌-◌, ◌*◌, ◌/◌, ◌%◌, ◌^◌, ◌≤◌, ◌<◌, ◌≡◌, refl, sym, ap, ◌∙◌, List, length,
  get_elem?, Option, none, some, true, false, inl, inr, Bool-cases, ltb, lt→ltb, leb, arith,
}
use rav1e.Prelude.Int.{ℤ, pos, negsuc, ◌+ℤ◌, ◌-ℤ◌, int_laws, ltb_ℤ}
use rav1e.Prelude.Powers.{pow_mono}
use rav1e.Ec.Format.{leading_zeros, sub32}
use rav1e.Ec.Base.{WriterBase, lr_compute, frac_compute}
use rav1e.Ec.Base.Bounds.{
  IsToken, IsRange, lr_compute_lem, lower-le, upper-le, lr_compute_bounds, lr_compute-IsRange,
}
use rav1e.Ec.Recorder.{Token}
use rav1e.Ec.Encoder
use rav1e.Ec.Encoder.{WriterEncoder}
use rav1e.Ec.Encoder.Exact.{Exact, exact_store}
use rav1e.Ec.Encoder.Exact.Refinement.{Refines, store-Refines}
use rav1e.Ec.Symbol.{token_of, to_u32}
use rav1e.Ec.Cdf.Update.{IsCdf, IsSymbol, token_of-IsSymbol}
use rav1e.Ec.Tell.{tell, tell_frac, shifted, symbol_range, symbol_bits}
use rav1e.Ec.Tell.Frac.{loss, loss-le, frac_compute_lem}
use rav1e.Ec.Tell.Agreement.{tell_lem, encoder-Counts}

leading_zeros-small : (k w v : ℕ) → v < 2 ^ w → leading_zeros (k + w) v ≡ k + leading_zeros w v
unfolding leading_zeros
leading_zeros-small zero w v h =
    ap (λ (n : ℕ). leading_zeros n v) {x = 0 + w} {y = w} (omega arith) ∙ omega arith
leading_zeros-small (suc k) w v h =
    let no_bit : leb (2 ^ (k + w)) v ≡ false =
      not_le (omega (arith, pow_mono w (k + w) (omega arith))) in
    ap (λ (n : ℕ). leading_zeros n v) {x = suc k + w} {y = suc (k + w)} (omega arith)
    ∙ rw no_bit (omega (arith, leading_zeros-small k w v h))
  where
    not_le : {a b : ℕ} → b < a → leb a b ≡ false
    not_le e = ground arith

-- The bits put out and `cnt` sum to what they were, and the shift.
shifted_sum : (cnt : ℤ) (d : ℕ) → shifted cnt d ≡ cnt +ℤ pos d
unfolding shifted
shifted_sum cnt d =
    let one : pos 8 +ℤ (cnt +ℤ pos 16 +ℤ pos d -ℤ pos 24) ≡ cnt +ℤ pos d = omega int_laws in
    let two : pos 16 +ℤ (cnt +ℤ pos 16 -ℤ pos 8 +ℤ pos d -ℤ pos 24) ≡ cnt +ℤ pos d =
      omega int_laws in
    elim (Bool-cases (ltb_ℤ (cnt +ℤ pos d) (pos 0))) [
      | inl e ↦ rw e refl
      | inr e ↦ elim (Bool-cases (ltb_ℤ (cnt +ℤ pos d) (pos 8))) [
        | inl f ↦ rw (e, f) one
        | inr f ↦ rw (e, f) two
      ]
    ]

shifted_lem : (left d : ℕ) → left ≤ 8 → shifted (negsuc left) d +ℤ pos 9 ≡ pos (8 - left + d)
shifted_lem left d h = rw (shifted_sum (negsuc left) d) (omega int_laws)

module _ (rng fl fh nms : ℕ) (g : IsRange rng) (t : IsToken fl fh nms) where
  first_range :
      (len : ℕ)
      → fl ≡ 32768
      → nms ≡ len
      → symbol_range rng none fh len 0 ≡ (lr_compute rng fl fh nms).1
  unfolding symbol_range
  first_range len e f =
      rw (lr_compute_lem rng fl fh nms g t) (ground (arith, lower-le rng fl fh nms g t, t.most))

  later_range :
      (len s : ℕ) → fl ≤ 32767 → symbol_range rng (some fl) fh len s ≡ (lr_compute rng fl fh nms).1
  unfolding symbol_range
  later_range len s e =
      rw (lr_compute_lem rng fl fh nms g t)
        (ground (arith, lower-le rng fl fh nms g t, upper-le rng fl fh nms g t))

abbrev size : Token → ℕ → ℕ
size t rng = (lr_compute rng t.fl t.fh t.nms).1

-- The two costs differ by what the shift and the ranges are worth.
difference :
    (a d n p q fake : ℕ)
    → a ≤ 8
    → d < 16
    → n < 2 ^ 28
    → p ≤ 7
    → q ≤ 7
    → fake < 2 ^ 28
    → sub32 (sub32 ((a + d) * 8) q) (sub32 (a * 8) p)
      ≡ sub32
          ((sub32 ((n + d + 1) * 8) q + fake) % 2 ^ 32)
          ((sub32 ((n + 1) * 8) p + fake) % 2 ^ 32)
difference a d n p q fake ab db nb pb qb fb = omega arith

abbrev cost : ℕ → ℕ → ℕ → ℕ
cost bits fake rng = (sub32 ((bits + fake / 2 ^ 8 + 1) * 8) (loss rng) + fake) % 2 ^ 32

module _ (w : WriterBase WriterEncoder) (x : Exact) (h : Refines w x) (short : x.bits < 2 ^ 27)
    (few : w.fake_bits_frac < 2 ^ 27) where
  -- `tell_frac` of an encoder, without wrap of the whole bits.
  tell_frac_lem :
      tell_frac Encoder.backend w
      ≡ (sub32 ((x.bits + w.fake_bits_frac / 2 ^ 8 + 1) * 8) (loss w.rng) + w.fake_bits_frac)
        % 2 ^ 32
  unfolding tell_frac
  tell_frac_lem =
      let whole : tell Encoder.backend w ≡ x.bits + w.fake_bits_frac / 2 ^ 8 + 1 =
        tell_lem Encoder.backend w x w.fake_bits_frac (encoder-Counts w x h) ∙ omega arith in
      rw whole (
        ap (λ (n : ℕ). (n + w.fake_bits_frac) % 2 ^ 32)
          (frac_compute_lem (x.bits + w.fake_bits_frac / 2 ^ 8 + 1) w.rng (omega arith)))

  before_lem : frac_compute (to_u32 (w.cnt +ℤ pos 9)) w.rng ≡ sub32 ((8 - h.left) * 8) (loss w.rng)
  before_lem =
      let whole : w.cnt +ℤ pos 9 ≡ pos (8 - h.left) = rw h.cnt (omega (int_laws, h.left_le)) in
      rw whole (
        ap (λ (n : ℕ). frac_compute n w.rng) {x = (8 - h.left) % 2 ^ 32} {y = 8 - h.left}
          (omega arith)
        ∙ frac_compute_lem (8 - h.left) w.rng (omega arith))

module _ (w : WriterBase WriterEncoder) (x : Exact) (h : Refines w x) (t : Token)
    (u : IsToken t.fl t.fh t.nms) (short : x.bits < 2 ^ 26) (few : w.fake_bits_frac < 2 ^ 26) where
  abbrev r : ℕ
  r = (lr_compute w.rng t.fl t.fh t.nms).1

  abbrev d : ℕ
  d = leading_zeros 16 r

  normal : (IsRange (r * 2 ^ d)) × (d < 16)
  normal = lr_compute-IsRange w.rng t.fl t.fh t.nms h.normal u

  word_shift : leading_zeros 32 r - 16 ≡ d
  word_shift = omega (
    arith,
    leading_zeros-small 16 16 r
        (omega (arith, lr_compute_bounds w.rng t.fl t.fh t.nms h.normal u, h.normal.most)),
  )

  after_lem :
      frac_compute (to_u32 (shifted w.cnt d +ℤ pos 9)) (r * 2 ^ d % 2 ^ 32)
      ≡ sub32 ((8 - h.left + d) * 8) (loss (r * 2 ^ d))
  after_lem =
      let whole : shifted w.cnt d +ℤ pos 9 ≡ pos (8 - h.left + d) =
        ap (λ c. shifted c d +ℤ pos 9) h.cnt ∙ shifted_lem h.left d h.left_le in
      let range : r * 2 ^ d % 2 ^ 32 ≡ r * 2 ^ d = omega (arith, normal) in
      let small : (8 - h.left + d) % 2 ^ 32 ≡ 8 - h.left + d = omega (arith, normal) in
      rw (whole, range)
        (rw small (frac_compute_lem (8 - h.left + d) (r * 2 ^ d) (omega (arith, normal))))

  stored_rng : (Encoder.store t.fl t.fh t.nms w).rng ≡ r * 2 ^ d
  unfolding Encoder.store
  stored_rng = omega (arith, normal)

  stored_fake : (Encoder.store t.fl t.fh t.nms w).fake_bits_frac ≡ w.fake_bits_frac
  unfolding Encoder.store
  stored_fake = refl

  stored_bits : (exact_store t.fl t.fh t.nms x).bits ≡ x.bits + d
  unfolding exact_store
  stored_bits = rw h.same_rng refl

  stored_cost :
      tell_frac Encoder.backend (Encoder.store t.fl t.fh t.nms w)
      ≡ (sub32 ((x.bits + w.fake_bits_frac / 2 ^ 8 + d + 1) * 8) (loss (r * 2 ^ d))
          + w.fake_bits_frac)
        % 2 ^ 32
  stored_cost =
      let v = Encoder.store t.fl t.fh t.nms w in
      let y = exact_store t.fl t.fh t.nms x in
      tell_frac_lem v y (store-Refines t.fl t.fh t.nms u w x h) (omega (arith, stored_bits, normal))
        (omega (arith, stored_fake))
      ∙ ap (λ (n : ℕ). cost n v.fake_bits_frac v.rng) stored_bits
      ∙ ap (λ (n : ℕ). cost (x.bits + d) n v.rng) stored_fake
      ∙ ap (λ (n : ℕ). cost (x.bits + d) w.fake_bits_frac n) stored_rng
      ∙ ap (λ (n : ℕ). (sub32 (n * 8) (loss (r * 2 ^ d)) + w.fake_bits_frac) % 2 ^ 32)
          {x = x.bits + d + w.fake_bits_frac / 2 ^ 8 + 1}
          {y = x.bits + w.fake_bits_frac / 2 ^ 8 + d + 1} (omega arith)

  estimate :
      sub32
        (frac_compute
          (to_u32 (shifted w.cnt (leading_zeros 32 r - 16) +ℤ pos 9))
          (r * 2 ^ (leading_zeros 32 r - 16) % 2 ^ 32))
        (frac_compute (to_u32 (w.cnt +ℤ pos 9)) w.rng)
      ≡ sub32
          (tell_frac Encoder.backend (Encoder.store t.fl t.fh t.nms w))
          (tell_frac Encoder.backend w)
  estimate =
      rw
        (
          word_shift,
          after_lem,
          before_lem w x h (omega arith) (omega arith),
          stored_cost,
          tell_frac_lem w x h (omega arith) (omega arith),
        )
        (difference (8 - h.left) d (x.bits + w.fake_bits_frac / 2 ^ 8) (loss w.rng)
          (loss (r * 2 ^ d)) w.fake_bits_frac (omega arith) (normal.1) (omega arith)
          (loss-le w.rng h.normal) (loss-le (r * 2 ^ d) normal.0) (omega arith))

-- The code between the two words and the estimate.
bits_lem :
    (s : ℕ) (cdf : List ℕ) (w : WriterBase WriterEncoder) (made : IsSymbol s cdf)
    → s < length cdf
    → IsRange w.rng
    → symbol_bits s cdf w
      ≡ some (
          sub32
            (frac_compute
              (to_u32 (shifted w.cnt (leading_zeros 32 (size made.made w.rng) - 16) +ℤ pos 9))
              (size made.made w.rng * 2 ^ (leading_zeros 32 (size made.made w.rng) - 16) % 2 ^ 32))
            (frac_compute (to_u32 (w.cnt +ℤ pos 9)) w.rng))
unfolding symbol_bits
bits_lem zero cdf w made less g =
    let t = made.made in
    rw (symbol_bits, made.own_word)
      (rw
        (first_range w.rng t.fl t.fh t.nms g made.valid (length cdf) (made.first_bound refl)
          (omega (arith, made.rest)))
        refl)
bits_lem (suc s) cdf w made less g =
    let t = made.made in
    let test : ltb 0 (suc s) ≡ true = lt→ltb 0 (suc s) (omega arith) in
    let before : get_elem? cdf (suc s - 1) ≡ some t.fl =
      ap (get_elem? cdf) {x = suc s - 1} {y = s} (omega arith) ∙ made.word_before s (omega arith) in
    rw (symbol_bits, made.own_word, test, before)
      (rw
        (later_range w.rng t.fl t.fh t.nms g made.valid (length cdf) (suc s)
          (made.small_before (omega arith)))
        refl)

-- For an encoder that refines an exact coder of fewer than 2 ^ 26 bits, with less than 2 ^ 26 of
-- fake_bits_frac, and a symbol within a valid distribution of at most 16 words, `symbol_bits`
-- does not fail and is the difference, modulo 2 ^ 32, of `tell_frac` after and before storing the
-- token of the symbol.
pub symbol_bits-store :
    (s : ℕ) (cdf : List ℕ) (w : WriterBase WriterEncoder) (x : Exact) (t : Token)
    → Refines w x
    → IsCdf 32767 cdf
    → s < length cdf
    → length cdf ≤ 16
    → x.bits < 2 ^ 26
    → w.fake_bits_frac < 2 ^ 26
    → token_of s cdf ≡ some t
    → symbol_bits s cdf w
      ≡ some (
          sub32
            (tell_frac Encoder.backend (Encoder.store t.fl t.fh t.nms w))
            (tell_frac Encoder.backend w))
symbol_bits-store s cdf w x t h dist less len short few e =
    let made = token_of-IsSymbol s cdf dist less len in
    let m = made.made in
    let same : m ≡ t =
      ap (λ (o : Option Token). elim o [ some u ↦ u | none ↦ m ]) (sym made.is_some ∙ e) in
    bits_lem s cdf w made less h.normal
    ∙ ap some (estimate w x h m made.valid short few)
    ∙ ap
        (λ (u : Token). some (
          sub32 (tell_frac Encoder.backend (Encoder.store u.fl u.fh u.nms w))
            (tell_frac Encoder.backend w)))
        same
