-- ===== src/Ec/Encoder/Exact/Refinement.antt =====
-- Every run of the encoder is a run of the exact coder.
use rav1e.Prelude.{
  ℕ, ◌+◌, ◌-◌, ◌*◌, ◌%◌, ◌^◌, ◌≤◌, ◌≡◌, refl, sym, ap, subst, List, [], ◌∷◌, ◌++◌, length,
  length-append, arith,
}
use rav1e.Prelude.Int.{ℤ, negsuc}
use rav1e.Prelude.Powers.{pow_split, pow_mono, mul_mono_left}
use rav1e.Ec.Format.{leading_zeros}
use rav1e.Ec.Base.{WriterBase, lr_compute}
use rav1e.Ec.Base.Bounds.{IsToken, IsRange, lr_compute_bounds, lr_compute-IsRange}
use rav1e.Ec.Recorder.{Token, store_all}
use rav1e.Ec.Encoder
use rav1e.Ec.Base
use rav1e.Ec.Encoder.{WriterEncoder, store, emit, backend}
use rav1e.Ec.Encoder.Exact.{
  Exact, start, exact_store, value_from, value-append, IsDigits, no_digits, IsDigits-append,
}
use rav1e.Ec.Encoder.Exact.Emit.{IsPut, emit-IsPut}

-- The digits and `low` make up the exact number, `cnt` says how many bits `low` has, and the
-- bits that both count are the same.
pub record Refines (w : WriterBase WriterEncoder) (x : Exact) : Type 0 where
  pub left : ℕ
  pub cnt : w.cnt ≡ negsuc left
  pub left_le : left ≤ 8
  pub same_rng : x.rng ≡ w.rng
  pub normal : IsRange w.rng
  pub digits : IsDigits w.s.precarry
  pub value : value_from 0 w.s.precarry * 2 ^ (23 - left) + w.s.low ≡ x.low
  pub fits : w.s.low + w.rng ≤ 2 ^ (24 - left)
  pub balance : x.bits + left ≡ 8 * length w.s.precarry + 8

pub data IsTokens : List Token → Type 0 where
  no_tokens : IsTokens []
  token : {t : Token} {ts : List Token} → IsToken t.fl t.fh t.nms → IsTokens ts → IsTokens (t ∷ ts)

-- The exact coder on a list of tokens.
unfoldable pub exact_all : List Token → Exact → Exact
exact_all [] x = x
exact_all (t ∷ ts) x = exact_all ts (exact_store t.fl t.fh t.nms x)

-- Of the bits that are counted the number has 15 more.
abbrev pub HasRoom : Exact → Type 0
HasRoom x = x.low + x.rng ≤ 2 ^ (x.bits + 15)

pub exact_store-HasRoom :
    (fl fh nms : ℕ) (x : Exact)
    → IsToken fl fh nms
    → IsRange x.rng
    → HasRoom x
    → HasRoom (exact_store fl fh nms x)
unfolding exact_store
exact_store-HasRoom fl fh nms x t g h =
    let (l, r) = lr_compute x.rng fl fh nms in
    let d = leading_zeros 16 r in
    let fit : x.low + l + r ≤ 2 ^ (x.bits + 15) =
      omega (arith, h, lr_compute_bounds x.rng fl fh nms g t) in
    omega (
      arith,
      mul_mono_left (x.low + l + r) (2 ^ (x.bits + 15)) (2 ^ d) fit,
      pow_split (x.bits + 15) d (x.bits + d + 15) (omega arith),
    )

pub new-Refines : Refines Encoder.new start
unfolding Encoder.new Base.new value_from
new-Refines = record {
  left = 8;
  cnt = refl;
  left_le = omega arith;
  same_rng = refl;
  normal = record { least = omega arith; most = omega arith };
  digits = no_digits;
  value = refl;
  fits = omega arith;
  balance = refl;
}

module _ (fl fh nms : ℕ) (t : IsToken fl fh nms) (w : WriterBase WriterEncoder) (x : Exact)
    (h : Refines w x) where
  open h use {left, left_le, normal, fits}

  abbrev l : ℕ
  l = (lr_compute w.rng fl fh nms).0

  abbrev r : ℕ
  r = (lr_compute w.rng fl fh nms).1

  abbrev d : ℕ
  d = leading_zeros 16 r

  next_normal : IsRange (r * 2 ^ d)
  next_normal = (lr_compute-IsRange w.rng fl fh nms normal t).0

  room : l + w.s.low + r ≤ 2 ^ (24 - left)
  room = omega (arith, lr_compute_bounds w.rng fl fh nms normal t, fits)

  -- 32 bits are enough.
  whole_low : (l + w.s.low) % 2 ^ 32 ≡ l + w.s.low
  whole_low = omega (arith, room, pow_mono (24 - left) 24 (omega arith))

  abbrev e : List ℕ × ℕ × ℤ
  e = emit ((l + w.s.low) % 2 ^ 32) w.cnt d

  put : IsPut left d (l + w.s.low) r e
  put =
      subst (λ L. IsPut left d (l + w.s.low) r (emit L w.cnt d)) (sym whole_low)
        (subst (λ c. IsPut left d (l + w.s.low) r (emit (l + w.s.low) c d)) (sym h.cnt)
          (emit-IsPut left d (l + w.s.low) r left_le next_normal.most room
            (omega (arith, lr_compute_bounds w.rng fl fh nms normal t))
            ((lr_compute-IsRange w.rng fl fh nms normal t).1)))

  whole_rng : r * 2 ^ d % 2 ^ 16 ≡ r * 2 ^ d
  whole_rng = omega (arith, next_normal.most)

  whole_next : e.1 * 2 ^ d % 2 ^ 32 ≡ e.1 * 2 ^ d
  whole_next = omega (arith, put.fits, pow_mono (24 - put.left) 24 (omega arith))

  next_value :
      value_from 0 (w.s.precarry ++ e.0) * 2 ^ (23 - put.left) + e.1 * 2 ^ d ≡ (x.low + l) * 2 ^ d
  next_value =
      let v = value_from 0 w.s.precarry in
      let split = pow_split (23 - (put.left + d)) d (23 - put.left) (omega (arith, put.low_bits)) in
      let a = value_from v e.0 in
      let p = 2 ^ (23 - (put.left + d)) in
      let scaled : (a * p + e.1) * 2 ^ d ≡ (v * 2 ^ (23 - left) + (l + w.s.low)) * 2 ^ d =
        ap (λ (n : ℕ). n * 2 ^ d) (put.value v) in
      let sum : v * 2 ^ (23 - left) + (l + w.s.low) ≡ x.low + l = omega (arith, h.value) in
      rw (value-append 0 w.s.precarry e.0, split, ← sum) (omega (arith, scaled))

  pub store-Refines : Refines (store fl fh nms w) (exact_store fl fh nms x)
  unfolding store exact_store
  store-Refines = record {
    left = put.left;
    cnt = put.cnt;
    left_le = put.left_le;
    same_rng = rw h.same_rng (sym whole_rng);
    normal = subst IsRange (sym whole_rng) next_normal;
    digits = IsDigits-append h.digits put.digits;
    value = rw (h.same_rng, whole_next) next_value;
    fits = rw (whole_next, whole_rng) put.fits;
    balance = rw h.same_rng (omega (arith, h.balance, put.balance, length-append w.s.precarry e.0));
  }

-- Storing a list of tokens of valid distributions keeps the encoder a refinement of the exact
-- coder, whose low end is one number without a bound: the digits and `low` make up that number,
-- `rng` is the same, `cnt` is between -9 and -1 and counts the bits that are kept, `low + rng`
-- fits in the bits that are left, and every digit is below 512.
pub store_all-Refines :
    (ts : List Token) (w : WriterBase WriterEncoder) (x : Exact)
    → IsTokens ts
    → Refines w x
    → Refines (store_all backend ts w) (exact_all ts x)
unfolding store_all exact_all
store_all-Refines [] w x no_tokens h = h
store_all-Refines (t ∷ ts) w x (token u us) h =
    store_all-Refines ts (store t.fl t.fh t.nms w) (exact_store t.fl t.fh t.nms x) us
      (store-Refines t.fl t.fh t.nms u w x h)

pub exact_all-HasRoom :
    (ts : List Token) (w : WriterBase WriterEncoder) (x : Exact)
    → IsTokens ts
    → Refines w x
    → HasRoom x
    → HasRoom (exact_all ts x)
unfolding exact_all
exact_all-HasRoom [] w x no_tokens h k = k
exact_all-HasRoom (t ∷ ts) w x (token u us) h k =
    exact_all-HasRoom ts (store t.fl t.fh t.nms w) (exact_store t.fl t.fh t.nms x) us
      (store-Refines t.fl t.fh t.nms u w x h)
      (exact_store-HasRoom t.fl t.fh t.nms x u (subst IsRange (sym h.same_rng) h.normal) k)
