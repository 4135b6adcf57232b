-- ===== src/Ec/Tell/Agreement.antt =====
-- All three writers report the same costs: they count the bits of the exact coder.
use native.Mathlib.Nat.{mod-eq_of_lt}
use rav1e.Prelude.{
  ℕ, ◌+◌, ◌*◌, ◌/◌, ◌%◌, ◌^◌, ◌≡◌, refl, sym, ap, ap₂, subst, ◌∙◌, List, [], ◌∷◌, arith,
}
use rav1e.Prelude.Int.{pos, ◌+ℤ◌, int_laws, pos_part, neg_part}
use rav1e.Ec.Format.{leading_zeros}
use rav1e.Ec.Base.{WriterBase, StorageBackend, lr_compute}
use rav1e.Ec.Base.Bounds.{IsToken, IsRange, lr_compute-IsRange}
use rav1e.Ec.Base
use rav1e.Ec.Counter
use rav1e.Ec.Recorder
use rav1e.Ec.Recorder.{Token, store_all}
use rav1e.Ec.Encoder
use rav1e.Ec.Encoder.{WriterEncoder}
use rav1e.Ec.Encoder.Exact.{Exact, start, exact_store}
use rav1e.Ec.Encoder.Exact.Refinement.{
  Refines, IsTokens, no_tokens, token, exact_all, new-Refines, store_all-Refines,
}
use rav1e.Ec.Tell.{tell, tell_frac}

-- The range and the count of bits that a writer has are those of the exact coder.
pub record Counts {S : Type 0} (b : StorageBackend S) (w : WriterBase S) (x : Exact) (fake : ℕ)
    : Type 0 where
  pub same_rng : w.rng ≡ x.rng
  pub same_bits : b.stream_bits w + pos_part w.cnt + 9 ≡ x.bits + neg_part w.cnt
  pub same_fake : w.fake_bits_frac ≡ fake

pub tell_lem :
    {S : Type 0} (b : StorageBackend S) (w : WriterBase S) (x : Exact) (fake : ℕ)
    → Counts b w x fake
    → (tell b w ≡ ((x.bits + 1) % 2 ^ 32 + fake / 2 ^ 8) % 2 ^ 32)
unfolding tell
tell_lem b w x fake h =
    let whole : pos (b.stream_bits w) +ℤ w.cnt +ℤ pos 10 ≡ pos (x.bits + 1) =
      omega (int_laws, h.same_bits) in
    rw (whole, h.same_fake) refl

-- Two writers that count the same tell the same.
pub tell-agree :
    {S T : Type 0} (b : StorageBackend S) (c : StorageBackend T) (w : WriterBase S)
    (v : WriterBase T) (x : Exact) (fake : ℕ)
    → Counts b w x fake
    → Counts c v x fake
    → (tell b w ≡ tell c v) × (tell_frac b w ≡ tell_frac c v)
unfolding tell_frac
tell-agree b c w v x fake h g =
    let same : tell b w ≡ tell c v = tell_lem b w x fake h ∙ sym (tell_lem c v x fake g) in
    (same, rw (same, h.same_rng, g.same_rng, h.same_fake, g.same_fake) refl)

-- A storage that counts bits without `cnt`.
pub record IsBitCounter {S : Type 0} (b : StorageBackend S) : Type 0 where
  pub rng_law :
      (fl fh nms : ℕ) (w : WriterBase S)
      → (b.store fl fh nms w).rng
        ≡ (lr_compute w.rng fl fh nms).1
          * 2 ^ leading_zeros 16 (lr_compute w.rng fl fh nms).1
          % 2 ^ 16
  pub bits_law :
      (fl fh nms : ℕ) (w : WriterBase S)
      → b.stream_bits (b.store fl fh nms w)
        ≡ b.stream_bits w + leading_zeros 16 (lr_compute w.rng fl fh nms).1
  pub cnt_law : (fl fh nms : ℕ) (w : WriterBase S) → (b.store fl fh nms w).cnt ≡ w.cnt
  pub fake_law :
      (fl fh nms : ℕ) (w : WriterBase S) → (b.store fl fh nms w).fake_bits_frac ≡ w.fake_bits_frac

recorder-IsBitCounter : IsBitCounter Recorder.backend
unfolding Recorder.store
recorder-IsBitCounter = record {
  rng_law = λ _ _ _ _. refl;
  bits_law = λ _ _ _ _. refl;
  cnt_law = λ _ _ _ _. refl;
  fake_law = λ _ _ _ _. refl;
}

counter-IsBitCounter : IsBitCounter Counter.backend
unfolding Counter.store
counter-IsBitCounter = record {
  rng_law = λ _ _ _ _. refl;
  bits_law = λ _ _ _ _. refl;
  cnt_law = λ _ _ _ _. refl;
  fake_law = λ _ _ _ _. refl;
}

exact_store-IsRange :
    (fl fh nms : ℕ) (x : Exact)
    → IsToken fl fh nms
    → IsRange x.rng
    → IsRange (exact_store fl fh nms x).rng
unfolding exact_store
exact_store-IsRange fl fh nms x t g = (lr_compute-IsRange x.rng fl fh nms g t).0

module _ {S : Type 0} (b : StorageBackend S) (laws : IsBitCounter b) (fake : ℕ) where
  store-Counts :
      (fl fh nms : ℕ) (w : WriterBase S) (x : Exact)
      → IsToken fl fh nms
      → IsRange x.rng
      → Counts b w x fake
      → Counts b (b.store fl fh nms w) (exact_store fl fh nms x) fake
  unfolding exact_store
  store-Counts fl fh nms w x t g h =
      let next = (lr_compute-IsRange x.rng fl fh nms g t).0 in
      let d = leading_zeros 16 (lr_compute x.rng fl fh nms).1 in
      let more : b.stream_bits (b.store fl fh nms w) ≡ b.stream_bits w + d =
        laws.bits_law fl fh nms w
        ∙ ap (λ (k : ℕ). b.stream_bits w + leading_zeros 16 (lr_compute k fl fh nms).1)
            h.same_rng in
      record {
        same_rng = laws.rng_law fl fh nms w ∙ rw h.same_rng (mod-eq_of_lt next.most);
        same_bits = rw (more, laws.cnt_law fl fh nms w) (omega (arith, h.same_bits));
        same_fake = laws.fake_law fl fh nms w ∙ h.same_fake;
      }

  store_all-Counts :
      (ts : List Token) (w : WriterBase S) (x : Exact)
      → IsTokens ts
      → IsRange x.rng
      → Counts b w x fake
      → Counts b (store_all b ts w) (exact_all ts x) fake
  unfolding store_all exact_all
  store_all-Counts [] w x no_tokens g h = h
  store_all-Counts (t ∷ ts) w x (token u us) g h =
      store_all-Counts ts (b.store t.fl t.fh t.nms w) (exact_store t.fl t.fh t.nms x) us
        (exact_store-IsRange t.fl t.fh t.nms x u g) (store-Counts t.fl t.fh t.nms w x u g h)

encoder_fake :
    (ts : List Token) (w : WriterBase WriterEncoder)
    → (store_all Encoder.backend ts w).fake_bits_frac ≡ w.fake_bits_frac
unfolding store_all Encoder.store
encoder_fake [] w = refl
encoder_fake (t ∷ ts) w = encoder_fake ts (Encoder.store t.fl t.fh t.nms w)

pub encoder-Counts :
    (w : WriterBase WriterEncoder) (x : Exact)
    → Refines w x
    → Counts Encoder.backend w x w.fake_bits_frac
unfolding Encoder.stream_bits
encoder-Counts w x h = record {
  same_rng = sym h.same_rng;
  same_bits = rw h.cnt (omega (arith, h.balance));
  same_fake = refl;
}

start_range : IsRange 0x8000
start_range = record { least = omega arith; most = omega arith }

no_fake : Encoder.new.fake_bits_frac ≡ 0
unfolding Encoder.new Base.new
no_fake = refl

module _ (ts : List Token) (valid : IsTokens ts) where
  encoder_run :
      Counts Encoder.backend (store_all Encoder.backend ts Encoder.new) (exact_all ts start) 0
  encoder_run =
      let w = store_all Encoder.backend ts Encoder.new in
      subst (Counts Encoder.backend w (exact_all ts start)) (encoder_fake ts Encoder.new ∙ no_fake)
        (encoder-Counts w (exact_all ts start)
          (store_all-Refines ts Encoder.new start valid new-Refines))

  recorder_run :
      Counts Recorder.backend (store_all Recorder.backend ts Recorder.new) (exact_all ts start) 0
  unfolding Recorder.new Base.new
  recorder_run =
      store_all-Counts Recorder.backend recorder-IsBitCounter 0 ts Recorder.new start valid
        start_range (record { same_rng = refl; same_bits = refl; same_fake = refl })

  counter_run :
      Counts Counter.backend (store_all Counter.backend ts Counter.new) (exact_all ts start) 0
  unfolding Counter.new Base.new
  counter_run =
      store_all-Counts Counter.backend counter-IsBitCounter 0 ts Counter.new start valid start_range
        (record { same_rng = refl; same_bits = refl; same_fake = refl })

-- The costs that a writer reports after it has stored tokens.
abbrev pub costs : {S : Type 0} → StorageBackend S → List Token → WriterBase S → ℕ × ℕ
costs b ts w = (tell b (store_all b ts w), tell_frac b (store_all b ts w))

-- After storing the same valid tokens into a new recorder, counter and encoder, `tell` and
-- `tell_frac` return the same for all three.
pub costs-agree :
    (ts : List Token)
    → IsTokens ts
    → (costs Recorder.backend ts Recorder.new ≡ costs Encoder.backend ts Encoder.new)
      × (costs Counter.backend ts Counter.new ≡ costs Encoder.backend ts Encoder.new)
costs-agree ts valid =
    let x = exact_all ts start in
    let e = store_all Encoder.backend ts Encoder.new in
    let r = store_all Recorder.backend ts Recorder.new in
    let c = store_all Counter.backend ts Counter.new in
    let (a, b) =
      tell-agree Recorder.backend Encoder.backend r e x 0 (recorder_run ts valid)
        (encoder_run ts valid) in
    let (f, g) =
      tell-agree Counter.backend Encoder.backend c e x 0 (counter_run ts valid)
        (encoder_run ts valid) in
    (ap₂ (λ (m n : ℕ). (m, n)) a b, ap₂ (λ (m n : ℕ). (m, n)) f g)
