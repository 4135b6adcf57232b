-- ===== src/O3yv/Motion/Shifted.antt =====
-- The optimised row copy writes each pixel from its clamped position, for every vector.
use rav1e.Prelude.{
  ℕ, zero, suc, ◌+◌, ◌-◌, ◌≤◌, ◌<◌, ◌≡◌, refl, subst, ap, List, length, get_or, arith, ltb, min,
  if◌then◌else◌,
}
use rav1e.Prelude.{M, ok, err, fault, Ensures, Ensures-seq, Ensures-weaken}
use rav1e.Prelude.Int.{ℤ, pos, negsuc, ◌+ℤ◌}
use rav1e.O3yv.Pixels.{load_from}
use rav1e.O3yv.Motion
use rav1e.O3yv.Motion.Rows.{
  Writes, Paints, Writes-same, Writes-right, copy_at_len-Paints, copy_at-Paints,
  some_columns-Paints, fill_at-Paints, store_at-Paints, load_from-value,
}

-- The value loaded goes on.
pub load_from-seq :
    {R : List ℕ → Unit {0} → Type 0} (src : List ℕ) (off : ℕ) (t : List ℕ)
    (f : ℕ → M (List ℕ) (Unit {0}))
    → off < length src
    → Ensures (λ _. ⊥) R (f (get_or src off 0) t)
    → Ensures
        (λ _. ⊥)
        R
        (elim (load_from src off t) [ ok s' a ↦ f a s' | err s' e ↦ err s' e | fault ↦ fault ])
load_from-seq src off t f h e = rw (load_from-value src off t h) e

-- The clamped positions of a row, by the sign of the shift.
pub clamped_pos : (w i n : ℕ) → i < w → Motion.clamped i (pos n) w ≡ min (i + n) (w - 1)
unfolding Motion.clamp_i32 ◌+ℤ◌
clamped_pos zero i n h = elim h [ ]
clamped_pos (suc v) i n h = ground arith

pub clamped_neg : (w i n : ℕ) → i < w → Motion.clamped i (negsuc n) w ≡ i - suc n
unfolding Motion.clamp_i32 ◌+ℤ◌
clamped_neg zero i n h = elim h [ ]
clamped_neg (suc v) i n h = ground arith

pick :
    (src : List ℕ) (i m k1 k2 k : ℕ)
    → (i < m → k1 ≡ k)
    → (m ≤ i → k2 ≡ k)
    → (if ltb i m then get_or src k1 0 else get_or src k2 0) ≡ get_or src k 0
pick src i m k1 k2 k f g =
    let left : i < m → get_or src k1 0 ≡ get_or src k 0 = λ l. ap (λ j. get_or src j 0) (f l) in
    let right : m ≤ i → get_or src k2 0 ≡ get_or src k 0 = λ l. ap (λ j. get_or src j 0) (g l) in
    ground (arith, left, right)

-- The sample that a shifted row has at `i`, of the row at `s`.
abbrev pub from : List ℕ → ℕ → ℕ → ℤ → ℕ → ℕ
from src w s mv_x i = get_or src (s + Motion.clamped i mv_x w) 0

module _ (src dst : List ℕ) (w d s : ℕ) (pw : 0 < w) (hd : d + w ≤ length dst)
    (hs : s + w ≤ length src) where
  -- For 0 < w and rows of w samples within both planes, `copy_shifted_row_fixed` with any shift
  -- returns without a fault, writes each sample of the row from its clamped position in the
  -- source row, and changes no other sample.
  pub copy_shifted_row_fixed-Paints :
      (mv_x : ℤ)
      → Paints d w (from src w s mv_x) dst (Motion.copy_shifted_row_fixed w d src s mv_x dst)
  unfolding Motion.copy_shifted_row_fixed
  copy_shifted_row_fixed-Paints (pos zero) =
      Ensures-weaken (copy_at-Paints src dst d s w hd hs) λ out _ p.
        Writes-same p refl λ i h. ap (λ k. get_or src k 0) (omega (arith, clamped_pos w i 0 h))
  copy_shifted_row_fixed-Paints (pos (suc zero)) =
      Ensures-seq (copy_at_len-Paints src dst d (s + 1) (w - 1) (omega arith) (omega arith))
        λ t _ p. load_from-seq src (s + w - 1) t _ (omega arith) (
          Ensures-weaken (store_at-Paints t (d + w - 1) _ (omega (arith, p.size))) λ out _ q.
            Writes-same
              (Writes-right p
                (subst (λ k. Writes k 1 (λ _. get_or src (s + w - 1) 0) t out) (omega arith) q))
              (omega arith)
              λ i h.
                pick src i (w - 1) _ _ _ (λ l. omega (arith, clamped_pos w i 1 (omega arith)))
                  (λ l. omega (arith, clamped_pos w i 1 (omega arith))))
  copy_shifted_row_fixed-Paints (negsuc zero) = load_from-seq src s dst _ (omega arith) (
      Ensures-seq (store_at-Paints dst d _ (omega arith)) λ t _ p.
        Ensures-weaken
          (copy_at_len-Paints src t (d + 1) s (w - 1) (omega (arith, p.size)) (omega arith))
          λ out _ q. Writes-same (Writes-right p q) (omega arith) λ i h.
            pick src i (1) _ _ _ (λ l. omega (arith, clamped_neg w i 0 (omega arith)))
              (λ l. omega (arith, clamped_neg w i 0 (omega arith))))
  copy_shifted_row_fixed-Paints (pos (suc (suc n))) =
      let shift = min (suc (suc n)) w in
      Ensures-seq
        (some_columns-Paints src dst d (s + shift) (w - shift) (omega arith) (omega arith))
        λ t _ p. load_from-seq src (s + w - 1) t _ (omega arith) (
          Ensures-weaken (fill_at-Paints t (d + (w - shift)) shift _ (omega (arith, p.size)))
            λ out _ q. Writes-same (Writes-right p q) (omega arith) λ i h.
              pick src i (w - shift) _ _ _
                (λ l. omega (arith, clamped_pos w i (suc (suc n)) (omega arith)))
                (λ l. omega (arith, clamped_pos w i (suc (suc n)) (omega arith))))
  copy_shifted_row_fixed-Paints (negsuc (suc n)) =
      let shift = min (suc (suc n)) w in
      load_from-seq src s dst _ (omega arith) (
        Ensures-seq (fill_at-Paints dst d shift _ (omega arith)) λ t _ p.
          Ensures-weaken
            (some_columns-Paints src t (d + shift) s (w - shift) (omega (arith, p.size))
              (omega arith))
            λ out _ q. Writes-same (Writes-right p q) (omega arith) λ i h.
              pick src i (shift) _ _ _ (λ l. omega (arith, clamped_neg w i (suc n) (omega arith)))
                (λ l. omega (arith, clamped_neg w i (suc n) (omega arith))))
