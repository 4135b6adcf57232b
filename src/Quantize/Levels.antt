-- ===== src/Quantize/Levels.antt =====
-- What the levels of src/quantize/mod.rs stand for.
use native.Mathlib.Nat.{div-add-mod', mod-lt, div-lt_iff_lt-mul}
use rav1e.Prelude.{
  ℕ, ◌+◌, ◌-◌, ◌*◌, ◌/◌, ◌^◌, ◌≤◌, ◌<◌, ◌≡◌, refl, arith, inl, inr, Bool, true, false, Bool-cases,
  ltb, leb, leb→le, if◌then◌else◌,
}
use rav1e.Prelude.Int.{ℤ, pos}
use rav1e.Prelude.Powers.{pow-pos, mul_mono_left, lt_cancel}
use rav1e.Quantize.Division.{divu_gen}
use rav1e.Quantize.Exact.{divu_pair-divu_gen}
use rav1e.Quantize.Context.{TxSize, Lookup, QuantizationContext, lookup_q, update}
use rav1e.Quantize.Coefficients.{level, unsigned_abs}

-- What `update` makes of the alternating coefficients' quantiser.
pub record IsContext (q : QuantizationContext) : Type 0 where
  pub quant_pos : 0 < q.ac_quant
  pub quant_word : q.ac_quant < 2 ^ 16
  pub reciprocal : q.ac_mul_add ≡ divu_gen q.ac_quant
  pub low : q.ac_offset0 < q.ac_quant
  pub high : q.ac_offset1 < q.ac_quant

part_of : (q a : ℕ) → 0 < q → a < 256 → q * a / 256 < q
part_of q a p h =
    (div-lt_iff_lt-mul {k = 256} (omega arith)).1
      (omega (arith, p, mul_mono_left (a + 1) 256 q (omega (arith, h))))

part_lt : (b : Bool) (q x y : ℕ) → 0 < q → x < 256 → y < 256 → q * (if b then x else y) / 256 < q
part_lt true q x y p h k = part_of q x p h
part_lt false q x y p h k = part_of q y p k

pub update-IsContext :
    (dc_table ac_table : Lookup) (qindex : ℕ) (size : TxSize) (is_intra : Bool) (depth : ℕ)
    (dc_delta ac_delta : ℤ)
    → IsContext (update dc_table ac_table qindex size is_intra depth dc_delta ac_delta)
unfolding update lookup_q
update-IsContext dc_table ac_table qindex size is_intra depth dc_delta ac_delta = record {
  quant_pos = ac_table.entry_pos _ _;
  quant_word = ac_table.entry_word _ _;
  reciprocal = refl;
  low = part_lt is_intra _ 98 97 (ac_table.entry_pos _ _) (omega arith) (omega arith);
  high = part_lt is_intra _ 109 108 (ac_table.entry_pos _ _) (omega arith) (omega arith);
}

rounding_bounds :
    (q abs offset : ℕ)
    → 0 < q
    → offset < q
    → ((abs / q + (if leb ((abs / q + 1) * q) (abs + offset) then 1 else 0)) * q < abs + q)
      × (abs < (abs / q + (if leb ((abs / q + 1) * q) (abs + offset) then 1 else 0)) * q + q)
rounding_bounds q abs offset p h =
    let parts = div-add-mod' abs q in
    let small = mod-lt abs p in
    elim (Bool-cases (leb ((abs / q + 1) * q) (abs + offset))) [
      | inl e ↦
          let up = leb→le ((abs / q + 1) * q) (abs + offset) e in
          rw e (omega (arith, up, h), omega (arith, parts, small))
      | inr e ↦ rw e (omega (arith, parts, p), omega (arith, parts, small))
    ]

choose_lt : (b : Bool) (x y q : ℕ) → x < q → y < q → (if b then x else y) < q
choose_lt true x y q h k = h
choose_lt false x y q h k = k

-- The level stands for the coefficient, up to one quantiser.
pub level_bounds :
    (q : QuantizationContext) (mode abs : ℕ)
    → IsContext q
    → abs < 2 ^ 32
    → (level q mode abs * q.ac_quant < abs + q.ac_quant)
      × (abs < level q mode abs * q.ac_quant + q.ac_quant)
unfolding level
level_bounds q mode abs ctx h =
    let quotient =
      divu_pair-divu_gen q.ac_quant abs ctx.quant_pos (omega (arith, ctx.quant_word)) h in
    rw (ctx.reciprocal, quotient)
      (rounding_bounds q.ac_quant abs _ ctx.quant_pos (
        choose_lt (ltb (1 - mode) (abs / q.ac_quant)) q.ac_offset1 q.ac_offset0 q.ac_quant ctx.high
          ctx.low))

-- A coefficient that leaves room for a quantiser: `w + 1` are the bits of a coefficient.
pub record IsInside (q : QuantizationContext) (w : ℕ) (c : ℤ) : Type 0 where
  pub word : unsigned_abs c * 2 ^ q.log_tx_scale + q.ac_quant < 2 ^ 31
  pub fits : unsigned_abs c + q.ac_quant < 2 ^ w
  pub fine : 2 ^ q.log_tx_scale ≤ q.ac_quant

-- The level for a coefficient of size n, and the size that comes back.
abbrev pub level_of : QuantizationContext → ℕ → ℕ → ℕ
level_of q mode n = level q mode (n * 2 ^ q.log_tx_scale)

abbrev pub size_back : QuantizationContext → ℕ → ℕ → ℕ
size_back q mode n = level_of q mode n * q.ac_quant / 2 ^ q.log_tx_scale

module _ (q : QuantizationContext) (w mode n : ℕ) (ctx : IsContext q)
    (inside : IsInside q w (pos n)) where
  abbrev P : ℕ
  P = 2 ^ q.log_tx_scale

  abbrev l : ℕ
  l = level_of q mode n

  pub sizes :
      (l * q.ac_quant < n * P + q.ac_quant)
      × (n * P < l * q.ac_quant + q.ac_quant)
      × (l < 2 ^ w)
      × (l * q.ac_quant / P < 2 ^ w)
  unfolding unsigned_abs
  sizes =
      let quant = q.ac_quant in
      let (up, lo) = level_bounds q mode (n * P) ctx (omega (arith, inside.word)) in
      let fine = mul_mono_left P quant n inside.fine in
      let few = lt_cancel l (n + 1) quant (omega (arith, up, fine)) in
      let coarse = mul_mono_left 1 P quant (pow-pos q.log_tx_scale) in
      let room = mul_mono_left (n + quant) (2 ^ w) P (omega (arith, inside.fits)) in
      (
        up,
        lo,
        omega (arith, few, inside.fits, ctx.quant_pos),
        (div-lt_iff_lt-mul {k = P} (pow-pos q.log_tx_scale)).1 (omega (arith, up, coarse, room)),
      )

  abbrev v : ℕ
  v = size_back q mode n

  pub word : l * q.ac_quant < 2 ^ 31
  unfolding unsigned_abs
  word = omega (arith, sizes.0, inside.word)

  pub level_word : l < 2 ^ 31
  level_word = omega (arith, word, ctx.quant_pos, mul_mono_left 1 q.ac_quant l ctx.quant_pos)

  pub near : (v * P < n * P + q.ac_quant) × (n * P < v * P + P + q.ac_quant)
  near =
      let (up, lo, _, _) = sizes in
      let parts = div-add-mod' (l * q.ac_quant) P in
      let small = mod-lt (l * q.ac_quant) (pow-pos q.log_tx_scale) in
      (omega (arith, up, parts), omega (arith, lo, parts, small))
