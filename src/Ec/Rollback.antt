-- ===== src/Ec/Rollback.antt =====
-- Checkpoints of the three writers of src/ec.rs, and the replay of a recorder.
use rav1e.Prelude.{
  ℕ, ◌+◌, ◌%◌, ◌^◌, ◌<◌, ◌≡◌, refl, sym, ap, ap₂, ◌∙◌, List, [], ◌∷◌, ◌++◌, append-nil,
  append_assoc, take-length,
}
use native.Mathlib.Nat.{mod-eq_of_lt}
use rav1e.Prelude.Int.{negsuc}
use rav1e.Ec.Format.{leading_zeros}
use rav1e.Ec.Base.{WriterBase, StorageBackend, lr_compute}
use rav1e.Ec.Base
use rav1e.Ec.Counter
use rav1e.Ec.Counter.{WriterCounter}
use rav1e.Ec.Recorder
use rav1e.Ec.Recorder.{Token, WriterRecorder, store_all, replay}
use rav1e.Ec.Encoder
use rav1e.Ec.Encoder.{WriterEncoder, emit}

-- What no store takes back: what is stored stays, with more behind it.
record EncoderGrows (w v : WriterBase WriterEncoder) : Type 0 where
  more : List ℕ
  digits : v.s.precarry ≡ w.s.precarry ++ more
  fake : v.fake_bits_frac ≡ w.fake_bits_frac

encoder_grows :
    (ts : List Token) (w v : WriterBase WriterEncoder)
    → EncoderGrows w v
    → EncoderGrows w (store_all Encoder.backend ts v)
unfolding store_all Encoder.store
encoder_grows [] w v h = h
encoder_grows (t ∷ ts) w v h =
    let (l, r) = lr_compute v.rng t.fl t.fh t.nms in
    let e = emit ((l + v.s.low) % 2 ^ 32) v.cnt (leading_zeros 16 r) in
    encoder_grows ts w (Encoder.store t.fl t.fh t.nms v) (record {
      more = h.more ++ e.0;
      digits = ap (λ xs. xs ++ e.0) h.digits ∙ append_assoc w.s.precarry h.more e.0;
      fake = h.fake;
    })

pub rollback-encoder :
    (ts : List Token) (w : WriterBase WriterEncoder)
    → w.s.low < 2 ^ 32
    → Encoder.rollback (Encoder.checkpoint w) (store_all Encoder.backend ts w) ≡ w
unfolding Encoder.rollback Encoder.checkpoint
rollback-encoder ts w h =
    let grown =
      encoder_grows ts w w
        (record { more = []; digits = sym (append-nil w.s.precarry); fake = refl }) in
    rw (grown.digits, grown.fake, take-length w.s.precarry grown.more, mod-eq_of_lt h) refl

record RecorderGrows (w v : WriterBase WriterRecorder) : Type 0 where
  more : List Token
  tokens : v.s.storage ≡ w.s.storage ++ more
  cnt : v.cnt ≡ w.cnt
  fake : v.fake_bits_frac ≡ w.fake_bits_frac

-- The tokens that a recorder has gained are those that were stored.
recorder_grows :
    (ts : List Token) (w v : WriterBase WriterRecorder) (h : RecorderGrows w v)
    → (g : RecorderGrows w (store_all Recorder.backend ts v)) × (g.more ≡ h.more ++ ts)
unfolding store_all Recorder.store
recorder_grows [] w v h = (h, sym (append-nil h.more))
recorder_grows (t ∷ ts) w v h =
    let (g, e) = recorder_grows ts w (Recorder.store t.fl t.fh t.nms v) (record {
      more = h.more ++ (t ∷ []);
      tokens = ap (λ xs. xs ++ (t ∷ [])) h.tokens ∙ append_assoc w.s.storage h.more (t ∷ []);
      cnt = h.cnt;
      fake = h.fake;
    }) in
    (g, e ∙ append_assoc h.more (t ∷ []) ts)

grows_refl : (w : WriterBase WriterRecorder) → RecorderGrows w w
grows_refl w = record { more = []; tokens = sym (append-nil w.s.storage); cnt = refl; fake = refl }

pub rollback-recorder :
    (ts : List Token) (w : WriterBase WriterRecorder)
    → Recorder.rollback (Recorder.checkpoint w) (store_all Recorder.backend ts w) ≡ w
unfolding Recorder.rollback Recorder.checkpoint
rollback-recorder ts w =
    let grown = (recorder_grows ts w w (grows_refl w)).0 in
    rw (grown.tokens, grown.fake, take-length w.s.storage grown.more) refl

record CounterKeeps (w v : WriterBase WriterCounter) : Type 0 where
  cnt : v.cnt ≡ w.cnt
  fake : v.fake_bits_frac ≡ w.fake_bits_frac

counter_keeps :
    (ts : List Token) (w v : WriterBase WriterCounter)
    → CounterKeeps w v
    → CounterKeeps w (store_all Counter.backend ts v)
unfolding store_all Counter.store
counter_keeps [] w v h = h
counter_keeps (t ∷ ts) w v h =
    counter_keeps ts w (Counter.store t.fl t.fh t.nms v) (record { cnt = h.cnt; fake = h.fake })

pub rollback-counter :
    (ts : List Token) (w : WriterBase WriterCounter)
    → Counter.rollback (Counter.checkpoint w) (store_all Counter.backend ts w) ≡ w
unfolding Counter.rollback Counter.checkpoint
rollback-counter ts w =
    let kept = counter_keeps ts w w (record { cnt = refl; fake = refl }) in
    rw (kept.cnt, kept.fake) refl

-- For an encoder whose `low` is below 2 ^ 32, and any recorder and counter, a rollback to a
-- checkpoint gives back the very writer that was saved, whatever tokens were stored since.
pub rollback-store_all :
    (ts : List Token) (w : WriterBase WriterEncoder) (r : WriterBase WriterRecorder)
    (c : WriterBase WriterCounter)
    → w.s.low < 2 ^ 32
    → (Encoder.rollback (Encoder.checkpoint w) (store_all Encoder.backend ts w) ≡ w)
      × (Recorder.rollback (Recorder.checkpoint r) (store_all Recorder.backend ts r) ≡ r)
      × (Counter.rollback (Counter.checkpoint c) (store_all Counter.backend ts c) ≡ c)
rollback-store_all ts w r c h =
    (rollback-encoder ts w h, rollback-recorder ts r, rollback-counter ts c)

-- A replay of what storing tokens into a new recorder recorded, into any destination, leaves the
-- destination as if the tokens had been stored there directly, and gives back a new recorder.
pub replay-store_all :
    {S : Type 0} (b : StorageBackend S) (ts : List Token) (dest : WriterBase S)
    → replay b (store_all Recorder.backend ts Recorder.new) dest
      ≡ (Recorder.new, store_all b ts dest)
unfolding replay Recorder.new Base.new grows_refl
replay-store_all b ts dest =
    let (g, e) = recorder_grows ts Recorder.new Recorder.new (grows_refl Recorder.new) in
    ap₂
      (λ (fake : ℕ) (tokens : List Token). (
        record {
          rng = 0x8000;
          cnt = negsuc 8;
          fake_bits_frac = fake;
          s = record { storage = []; bits = 0 };
        },
        store_all b tokens dest,
      ))
      g.fake (g.tokens ∙ e)
