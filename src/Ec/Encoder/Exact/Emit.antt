-- ===== src/Ec/Encoder/Exact/Emit.antt =====
-- What the encoder puts out and what it keeps make up the value it had.
use rav1e.Prelude.{
  ℕ, ◌+◌, ◌-◌, ◌*◌, ◌/◌, ◌%◌, ◌^◌, ◌≤◌, ◌<◌, ◌≡◌, refl, sym, ap, subst, ◌∙◌, List, [], ◌∷◌, length,
  arith, inl, inr, Bool-cases, ltb, true, false, not_ltb→le, ltb→lt,
}
use rav1e.Prelude.Int.{ℤ, pos, negsuc, ◌+ℤ◌, ◌-ℤ◌, ltb_ℤ, int_laws}
use rav1e.Prelude.Powers.{pow_split, pow_mono, mul_mono_left, mod-pow-lt, div-pow-lt}
use native.Mathlib.Nat.{div-add-mod'}
use rav1e.Ec.Encoder.{put_out, emit}
use rav1e.Ec.Encoder.Exact.{value_from, IsDigits, no_digits, digit}

-- `k` stands for `-cnt - 1`, and `left` for what it becomes.
pub record IsPut (k d L r : ℕ) (e : List ℕ × ℕ × ℤ) : Type 0 where
  pub left : ℕ
  pub cnt : e.2 ≡ negsuc left
  pub left_le : left ≤ 8
  pub balance : left + d ≡ k + 8 * length e.0
  pub low_bits : left + d ≤ 23
  pub digits : IsDigits e.0
  pub value : (acc : ℕ) → value_from acc e.0 * 2 ^ (23 - (left + d)) + e.1 ≡ acc * 2 ^ (23 - k) + L
  pub fits : e.1 * 2 ^ d + r * 2 ^ d ≤ 2 ^ (24 - left)

-- A part below a power, shifted, and a range of 16 bits fit.
fits_lem :
    (m c d r left : ℕ)
    → m < 2 ^ c
    → r * 2 ^ d < 65536
    → c + d + left ≡ 23
    → left ≤ 7
    → m * 2 ^ d + r * 2 ^ d ≤ 2 ^ (24 - left)
fits_lem m c d r left h g e k =
    let whole : 2 ^ (24 - left) ≡ 2 ^ 1 * 2 ^ (c + d) =
      pow_split 1 (c + d) (24 - left) (omega arith) in
    let parts : 2 ^ (c + d) ≡ 2 ^ c * 2 ^ d = pow_split c d (c + d) refl in
    let wide : 2 ^ 16 ≤ 2 ^ (c + d) = pow_mono 16 (c + d) (omega arith) in
    let product : m * 2 ^ d ≤ 2 ^ c * 2 ^ d = mul_mono_left m (2 ^ c) (2 ^ d) (omega arith) in
    omega (arith, whole, parts, wide, product, g)

-- A digit `q` goes from the part that is kept to the digits.
move_digit :
    (p P acc q m L : ℕ) → P ≡ 256 * p → q * p + m ≡ L → (acc * 256 + q) * p + m ≡ acc * P + L
move_digit p P acc q m L h g = omega (arith, g, ap (λ (t : ℕ). acc * t) h)

module _ (k d L r : ℕ) (kb : k ≤ 8) (rb : r * 2 ^ d < 65536) (fit : L + r ≤ 2 ^ (24 - k))
    (rp : 0 < r) where
  pub none_lem : d ≤ k → IsPut k d L r ([], L, negsuc (k - d))
  unfolding value_from
  none_lem h = record {
    left = k - d;
    cnt = refl;
    left_le = omega (arith, kb);
    balance = omega arith;
    low_bits = omega (arith, kb);
    digits = no_digits;
    value = λ acc. ap (λ (n : ℕ). acc * 2 ^ (23 - n) + L) {x = k - d + d} {y = k} (omega arith);
    fits =
        let product : (L + r) * 2 ^ d ≤ 2 ^ (24 - k) * 2 ^ d =
          mul_mono_left (L + r) (2 ^ (24 - k)) (2 ^ d) fit in
        omega (arith, product, pow_split (24 - k) d (24 - (k - d)) (omega (arith, kb)));
  }

  top : L < 2 ^ (15 - k) * 512
  top = omega (arith, pow_split (15 - k) 9 (24 - k) (omega (arith, kb)))

  top_digit : L / 2 ^ (15 - k) < 512
  top_digit = div-pow-lt L (15 - k) 512 top

  top_value :
      (acc : ℕ)
      → (acc * 256 + L / 2 ^ (15 - k) % 2 ^ 16) * 2 ^ (15 - k) + L % 2 ^ (15 - k)
        ≡ acc * 2 ^ (23 - k) + L
  top_value acc =
      move_digit (2 ^ (15 - k)) (2 ^ (23 - k)) acc (L / 2 ^ (15 - k) % 2 ^ 16) (L % 2 ^ (15 - k)) L
        (omega (arith, pow_split 8 (15 - k) (23 - k) (omega (arith, kb))))
        (ap (λ (q : ℕ). q * 2 ^ (15 - k) + L % 2 ^ (15 - k)) (omega (arith, top_digit))
          ∙ div-add-mod' L (2 ^ (15 - k)))

  pub one_lem :
      k < d
      → d < k + 9
      → IsPut k d L r (L / 2 ^ (15 - k) % 2 ^ 16 ∷ [], L % 2 ^ (15 - k), negsuc (8 + k - d))
  unfolding value_from
  one_lem h g = record {
    left = 8 + k - d;
    cnt = refl;
    left_le = omega arith;
    balance = omega arith;
    low_bits = omega (arith, kb);
    digits = digit (omega (arith, top_digit)) no_digits;
    value = λ acc.
        ap (λ (n : ℕ). (acc * 256 + L / 2 ^ (15 - k) % 2 ^ 16) * 2 ^ n + L % 2 ^ (15 - k))
          {x = 23 - (8 + k - d + d)} {y = 15 - k} (omega arith)
        ∙ top_value acc;
    fits =
        fits_lem (L % 2 ^ (15 - k)) (15 - k) d r (8 + k - d) (mod-pow-lt L (15 - k)) rb
          (omega (arith, kb)) (omega arith);
  }

  rest_digit : k ≤ 7 → L % 2 ^ (15 - k) / 2 ^ (7 - k) < 256
  rest_digit h =
      div-pow-lt (L % 2 ^ (15 - k)) (7 - k) 256
        (omega (arith, mod-pow-lt L (15 - k), pow_split 8 (7 - k) (15 - k) (omega arith)))

  rest_value :
      k ≤ 7
      → (acc : ℕ)
      → (acc * 256 + L % 2 ^ (15 - k) / 2 ^ (7 - k) % 2 ^ 16) * 2 ^ (7 - k)
          + L % 2 ^ (15 - k) % 2 ^ (7 - k)
        ≡ acc * 2 ^ (15 - k) + L % 2 ^ (15 - k)
  rest_value h acc =
      let M = L % 2 ^ (15 - k) in
      move_digit (2 ^ (7 - k)) (2 ^ (15 - k)) acc (M / 2 ^ (7 - k) % 2 ^ 16) (M % 2 ^ (7 - k)) M
        (omega (arith, pow_split 8 (7 - k) (15 - k) (omega arith)))
        (ap (λ (q : ℕ). q * 2 ^ (7 - k) + M % 2 ^ (7 - k)) (omega (arith, rest_digit h))
          ∙ div-add-mod' M (2 ^ (7 - k)))

  pub two_lem :
      k + 9 ≤ d
      → d < 16
      → IsPut k d L r (
        L / 2 ^ (15 - k) % 2 ^ 16 ∷ L % 2 ^ (15 - k) / 2 ^ (7 - k) % 2 ^ 16 ∷ [],
        L % 2 ^ (15 - k) % 2 ^ (7 - k),
        negsuc (16 + k - d),
      )
  unfolding value_from
  two_lem h g = record {
    left = 16 + k - d;
    cnt = refl;
    left_le = omega arith;
    balance = omega arith;
    low_bits = omega arith;
    digits =
        digit (omega (arith, top_digit))
          (digit (omega (arith, rest_digit (omega arith))) no_digits);
    value = λ acc.
        ap
          (λ (n : ℕ).
            ((acc * 256 + L / 2 ^ (15 - k) % 2 ^ 16) * 256
                + L % 2 ^ (15 - k) / 2 ^ (7 - k) % 2 ^ 16)
              * 2 ^ n
            + L % 2 ^ (15 - k) % 2 ^ (7 - k))
          {x = 23 - (16 + k - d + d)} {y = 7 - k} (omega arith)
        ∙ rest_value (omega arith) (acc * 256 + L / 2 ^ (15 - k) % 2 ^ 16)
        ∙ top_value acc;
    fits =
        fits_lem (L % 2 ^ (15 - k) % 2 ^ (7 - k)) (7 - k) d r (16 + k - d)
          (mod-pow-lt (L % 2 ^ (15 - k)) (7 - k)) rb (omega arith) (omega arith);
  }

sum_low : (k d : ℕ) → d ≤ k → negsuc k +ℤ pos d ≡ negsuc (k - d)
sum_low k d h = omega int_laws

sum_high : (k d : ℕ) → k < d → negsuc k +ℤ pos d ≡ pos (d - k - 1)
sum_high k d h = omega int_laws

window : (k : ℕ) → k ≤ 8 → negsuc k +ℤ pos 16 ≡ pos (15 - k)
window k h = omega int_laws

below_0 : (n : ℕ) → ltb_ℤ (negsuc n) (pos 0) ≡ true
below_0 n = ground arith

not_below : (m n : ℕ) → m ≤ n → ltb_ℤ (pos n) (pos m) ≡ false
not_below m n h = ground arith

is_below : (m n : ℕ) → n < m → ltb_ℤ (pos n) (pos m) ≡ true
is_below m n h = ground arith

emit_none : (k d L : ℕ) → d ≤ k → emit L (negsuc k) d ≡ ([], L, negsuc (k - d))
unfolding emit
emit_none k d L h = rw (sum_low k d h, below_0 (k - d)) refl

emit_one :
    (k d L : ℕ)
    → k ≤ 8
    → k < d
    → d < k + 9
    → emit L (negsuc k) d ≡ (L / 2 ^ (15 - k) % 2 ^ 16 ∷ [], L % 2 ^ (15 - k), negsuc (8 + k - d))
unfolding emit put_out
emit_one k d L h g b =
    let less : ltb_ℤ (pos (d - k - 1)) (pos 8) ≡ true = is_below 8 (d - k - 1) (omega arith) in
    let back : pos (15 - k + d) -ℤ pos 24 ≡ negsuc (8 + k - d) = omega int_laws in
    rw (sum_high k d g, window k h, less, not_below 0 (d - k - 1) (omega arith), back) refl

emit_two :
    (k d L : ℕ)
    → k + 9 ≤ d
    → d < 16
    → emit L (negsuc k) d ≡ (
      L / 2 ^ (15 - k) % 2 ^ 16 ∷ L % 2 ^ (15 - k) / 2 ^ (7 - k) % 2 ^ 16 ∷ [],
      L % 2 ^ (15 - k) % 2 ^ (7 - k),
      negsuc (16 + k - d),
    )
unfolding emit put_out
emit_two k d L h g =
    let more : ltb_ℤ (pos (d - k - 1)) (pos 8) ≡ false = not_below 8 (d - k - 1) (omega arith) in
    let shift : 15 - k - 8 ≡ 7 - k = omega arith in
    let back : pos (7 - k + d) -ℤ pos 24 ≡ negsuc (16 + k - d) = omega int_laws in
    rw
      (
        sum_high k d (omega arith),
        window k (omega arith),
        more,
        not_below 0 (d - k - 1) (omega arith),
        shift,
        back,
      )
      refl

pub emit-IsPut :
    (k d L r : ℕ)
    → k ≤ 8
    → r * 2 ^ d < 65536
    → L + r ≤ 2 ^ (24 - k)
    → 0 < r
    → d < 16
    → IsPut k d L r (emit L (negsuc k) d)
emit-IsPut k d L r kb rb fit rp db = elim (Bool-cases (ltb k d)) [
  | inr e ↦
      let h = not_ltb→le k d e in
      subst (IsPut k d L r) (sym (emit_none k d L h)) (none_lem k d L r kb rb fit rp h)
  | inl e ↦ elim (Bool-cases (ltb d (k + 9))) [
    | inl g ↦
        let lo = ltb→lt k d e in
        let hi = ltb→lt d (k + 9) g in
        subst (IsPut k d L r) (sym (emit_one k d L kb lo hi)) (one_lem k d L r kb rb fit rp lo hi)
    | inr g ↦
        let lo = not_ltb→le d (k + 9) g in
        subst (IsPut k d L r) (sym (emit_two k d L lo db)) (two_lem k d L r kb rb fit rp lo db)
  ]
]
