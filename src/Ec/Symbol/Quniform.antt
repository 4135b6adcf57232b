-- ===== src/Ec/Symbol/Quniform.antt =====
-- The quasi-uniform code of a number below `n`.
use native.Mathlib.Nat.{pow-suc, mod-eq_of_lt}
use rav1e.Prelude.{
  ℕ, zero, suc, ◌+◌, ◌-◌, ◌*◌, ◌/◌, ◌%◌, ◌^◌, ◌≤◌, ◌<◌, ◌≡◌, refl, ap, subst, ◌∙◌, List, [], ◌++◌,
  length-append, append_assoc, Option, none, some, Bool, true, false, ltb, leb, arith, inl, inr,
  Bool-cases, leb→le, not_leb→lt, ltb→lt, not_ltb→le,
}
use rav1e.Prelude.Powers.{pow_mono}
use rav1e.Ec.Format.{leading_zeros, sub32}
use rav1e.Ec.Base.{StorageBackend}
use rav1e.Ec.Symbol.{write_quniform, count_quniform, literal}
use rav1e.Ec.Symbol.Bits.{
  literal_bits, read_literal, read-literal_bits, length-literal_bits, then-Puts, literal-Puts,
  IsWritten,
}

-- The reader of the format: `l - 1` bits, and one more unless they are below `m`.
unfoldable pub read_quniform : ℕ → List Bool → Option (ℕ × List Bool)
read_quniform n bs =
    let l = 32 - leading_zeros 32 n in
    let m = 2 ^ l - n in
    elim (ltb 1 n) [
      | false ↦ some (0, bs)
      | true ↦ elim (read_literal (l - 1) bs) [
        | none ↦ none
        | some (v, rest) ↦ elim (ltb v m) [
          | true ↦ some (v, rest)
          | false ↦ elim (read_literal 1 rest) [
            | none ↦ none
            | some (x, rest) ↦ some (v * 2 - m + x, rest)
          ]
        ]
      ]
    ]

pub record IsWidth (n l : ℕ) : Type 0 where
  pub least : 2 ^ (l - 1) ≤ n
  pub most : n < 2 ^ l
  pub positive : 1 ≤ l

-- A number has as many binary digits as `leading_zeros` leaves.
width_lem : (w v : ℕ) → 0 < v → v < 2 ^ w → (l : ℕ) × (IsWidth v l) × (l + leading_zeros w v ≡ w)
unfolding leading_zeros
width_lem zero v p h = absurd (omega arith)
width_lem (suc w) v p h = elim (Bool-cases (leb (2 ^ w) v)) [
  | inl e ↦
      let low : 2 ^ (suc w - 1) ≤ v =
        subst (λ k. 2 ^ k ≤ v) {x = w} (omega arith) (leb→le (2 ^ w) v e) in
      (suc w, record { least = low; most = h; positive = omega arith }, rw e (omega arith))
  | inr e ↦
      let (l, wide, sum) = width_lem w v p (not_leb→lt (2 ^ w) v e) in (l, wide, rw e (omega arith))
]

pub leading_zeros-IsWidth : (n : ℕ) → 0 < n → n < 2 ^ 32 → IsWidth n (32 - leading_zeros 32 n)
leading_zeros-IsWidth n p h =
    let (l, wide, sum) = width_lem 32 n p h in subst (IsWidth n) {x = l} (omega arith) wide

-- A word below 2 ^ 31 leaves a bit.
width_le : (n l : ℕ) → n < 2 ^ 31 → IsWidth n l → l ≤ 31
width_le n l h wide = elim (Bool-cases (leb l 31)) [
  | inl e ↦ leb→le l 31 e
  | inr e ↦
      absurd (omega (arith, wide.least, pow_mono 31 (l - 1) (omega (arith, not_leb→lt l 31 e))))
]

sub32_lem : (n l : ℕ) → l ≤ 31 → IsWidth n l → sub32 (2 ^ (l % 32)) n ≡ 2 ^ l - n
sub32_lem n l k h =
    ap (λ (k : ℕ). sub32 (2 ^ k) n) {x = l % 32} {y = l} (omega arith)
    ∙ omega (arith, h.most, pow_mono l 31 k)

-- The arithmetic of the code, for a width `l`, and `m = 2 ^ l - n`.
module _ (n v l : ℕ) (h : v < n) (wide : IsWidth n l) where
  open wide use {least, most, positive}

  double : 2 ^ l ≡ 2 * 2 ^ (l - 1)
  double =
      ap (λ (k : ℕ). 2 ^ k) {x = l} {y = suc (l - 1)} (omega arith)
      ∙ omega (arith, pow-suc 2 (l - 1))

  short_value : v < 2 ^ l - n → v % 2 ^ (l - 1) ≡ v
  short_value k = mod-eq_of_lt (omega (arith, double))

  long_value :
      2 ^ l - n ≤ v
      → (2 ^ l - n + (v - (2 ^ l - n)) / 2) % 2 ^ (l - 1) ≡ 2 ^ l - n + (v - (2 ^ l - n)) / 2
  long_value k = mod-eq_of_lt (omega (arith, double))

module _ {S : Type 0} (b : StorageBackend S) (n v : ℕ) (h : v < n) (g : n < 2 ^ 31) where
  abbrev l : ℕ
  l = 32 - leading_zeros 32 n

  abbrev m : ℕ
  m = 2 ^ l - n

  wide : IsWidth n l
  wide = leading_zeros-IsWidth n (omega arith) (omega arith)

  word : sub32 (2 ^ (l % 32)) n ≡ m
  word = sub32_lem n l (width_le n l g wide) wide

  none-IsWritten :
      ltb 1 n ≡ false
      → IsWritten b (write_quniform b n v) (read_quniform n) v (some (count_quniform n v))
  unfolding write_quniform count_quniform read_quniform
  none-IsWritten e =
      let zero_value : v ≡ 0 = omega (arith, not_ltb→le 1 n e) in
      record {
        bits = [];
        puts = λ w. rw e refl;
        reads = λ rest. rw (read_quniform, e, zero_value) refl;
        counts = rw e refl;
      }

  short-IsWritten :
      ltb 1 n ≡ true
      → ltb v m ≡ true
      → IsWritten b (write_quniform b n v) (read_quniform n) v (some (count_quniform n v))
  unfolding write_quniform count_quniform read_quniform
  short-IsWritten e f =
      let not_less : leb m v ≡ false = ground arith in
      record {
        bits = literal_bits (l - 1) v;
        puts = λ w. rw (e, word, f) (literal-Puts b (l - 1) v w);
        reads = λ rest.
            rw
              (
                read_quniform,
                e,
                read-literal_bits (l - 1) v rest,
                short_value n v l h wide (ltb→lt v m f),
                f,
              )
              (ap (λ (k : ℕ). some (k, rest)) (short_value n v l h wide (ltb→lt v m f)));
        counts = rw (e, word, not_less, length-literal_bits (l - 1) v) (ap some (omega arith));
      }

  long-IsWritten :
      ltb 1 n ≡ true
      → ltb v m ≡ false
      → IsWritten b (write_quniform b n v) (read_quniform n) v (some (count_quniform n v))
  unfolding write_quniform count_quniform read_quniform
  long-IsWritten e f =
      let less : leb m v ≡ true = ground arith in
      let V = m + (v - m) / 2 in
      let x = (v - m) % 2 in
      let whole = long_value n v l h wide (not_ltb→le v m f) in
      let long : ltb V m ≡ false = ground arith in
      let value : V % 2 ^ (l - 1) * 2 - m + x % 2 ^ 1 ≡ v =
        omega (arith, whole, not_ltb→le v m f) in
      record {
        bits = literal_bits (l - 1) V ++ literal_bits 1 x;
        puts = λ w.
            rw (e, word, f)
              (then-Puts b (literal b (l - 1) V) (literal b 1 x) (literal_bits (l - 1) V)
                (literal_bits 1 x) (literal-Puts b (l - 1) V) (literal-Puts b 1 x) w);
        reads = λ rest. rw (append_assoc (literal_bits (l - 1) V) (literal_bits 1 x) rest) (
            rw
              (
                read_quniform,
                e,
                read-literal_bits (l - 1) V (literal_bits 1 x ++ rest),
                whole,
                long,
                read-literal_bits 1 x rest,
              )
              (ap (λ (k : ℕ). some (k, rest)) value));
        counts =
            rw
              (
                e,
                word,
                less,
                length-append (literal_bits (l - 1) V) (literal_bits 1 x),
                length-literal_bits (l - 1) V,
              )
              (ap some (omega arith));
      }

  -- For v < n < 2 ^ 31 `write_quniform` does not fault, the reader of the code gets v back from
  -- the bits written and leaves what follows, and `count_quniform` is the number of the bits in
  -- eighths.
  pub write_quniform-IsWritten :
      IsWritten b (write_quniform b n v) (read_quniform n) v (some (count_quniform n v))
  write_quniform-IsWritten = elim (Bool-cases (ltb 1 n)) [
    | inr e ↦ none-IsWritten e
    | inl e ↦ elim (Bool-cases (ltb v m)) [
      | inl f ↦ short-IsWritten e f
      | inr f ↦ long-IsWritten e f
    ]
  ]
