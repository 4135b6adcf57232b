-- ===== src/Ec/Symbol/Golomb.antt =====
-- The exponential Golomb code.
use rav1e.Prelude.{
  ℕ, zero, suc, ◌+◌, ◌-◌, ◌*◌, ◌/◌, ◌%◌, ◌^◌, ◌≤◌, ◌<◌, ◌≡◌, refl, sym, ap, subst, ◌∙◌, List, [],
  ◌∷◌, ◌++◌, append_assoc, length-append, length-replicate, replicate, Option, none, some, Bool,
  true, false, arith,
}
use rav1e.Prelude.Powers.{mod-pow-suc, mod-pow-lt}
use native.Mathlib.Nat.{mod-eq_of_lt}
use rav1e.Ec.Format.{leading_zeros}
use rav1e.Ec.Base.{StorageBackend}
use rav1e.Ec.Symbol.{write_golomb, zeros, literal}
use rav1e.Ec.Symbol.Bits.{
  literal_bits, read_literal, read-literal_bits, length-literal_bits, then-Puts, literal-Puts,
  zeros-Puts, IsWritten,
}
use rav1e.Ec.Symbol.Quniform.{IsWidth, leading_zeros-IsWidth}

-- The reader counts zeros up to the first one, which is the highest bit.
unfoldable pub read_golomb : ℕ → List Bool → Option (ℕ × List Bool)
read_golomb z [] = none
read_golomb z (false ∷ bs) = read_golomb (suc z) bs
read_golomb z (true ∷ bs) = elim (read_literal z bs) [
  | some (v, rest) ↦ some (2 ^ z + v - 1, rest)
  | none ↦ none
]

skip_zeros :
    (n z : ℕ) (bs : List Bool) → read_golomb z (replicate n false ++ bs) ≡ read_golomb (z + n) bs
unfolding read_golomb
skip_zeros zero z bs = ap (λ (k : ℕ). read_golomb k bs) (omega arith)
skip_zeros (suc n) z bs =
    skip_zeros n (suc z) bs
    ∙ ap (λ (k : ℕ). read_golomb k bs) {x = suc z + n} {y = z + suc n} (omega arith)

-- A number of `z + 1` digits starts with a one.
top_one : (x z : ℕ) → IsWidth x (suc z) → x / 2 ^ z % 2 ≡ 1
top_one x z h =
    let whole : x % 2 ^ suc z ≡ x = mod-eq_of_lt h.most in
    let least : 2 ^ z ≤ x = subst (λ (k : ℕ). 2 ^ k ≤ x) {x = suc z - 1} (omega arith) h.least in
    one (x / 2 ^ z % 2) (2 ^ z) (x % 2 ^ z) x (omega arith) (sym whole ∙ mod-pow-suc z x) least
      (mod-pow-lt x z)
  where
    one : (q P m x : ℕ) → q < 2 → x ≡ q * P + m → P ≤ x → m < P → q ≡ 1
    one zero P m x b e l h = absurd (omega arith)
    one (suc q) P m x b e l h = omega arith

rest_bits : (x z : ℕ) → IsWidth x (suc z) → 2 ^ z + x % 2 ^ z ≡ x
rest_bits x z h =
    omega (arith, mod-eq_of_lt h.most, mod-pow-suc z x, ap (λ (q : ℕ). q * 2 ^ z) (top_one x z h))

read_number :
    (x z : ℕ) (rest : List Bool)
    → IsWidth x (suc z)
    → read_golomb z (literal_bits (suc z) x ++ rest) ≡ some (x - 1, rest)
unfolding read_golomb
read_number x z rest h =
    rw (top_one x z h) (rw (read_golomb, read-literal_bits z x rest, rest_bits x z h) refl)

read_all :
    (x l : ℕ) (rest : List Bool)
    → IsWidth x l
    → read_golomb 0 (replicate (l - 1) false ++ literal_bits l x ++ rest) ≡ some (x - 1, rest)
read_all x zero rest h = absurd (omega (arith, h.positive))
read_all x (suc z) rest h =
    let less : suc z - 1 ≡ z = omega arith in
    ap (λ (k : ℕ). read_golomb 0 (replicate k false ++ literal_bits (suc z) x ++ rest)) less
    ∙ ap (read_golomb 0) (append_assoc (replicate z false) (literal_bits (suc z) x) rest)
    ∙ skip_zeros z 0 (literal_bits (suc z) x ++ rest)
    ∙ ap (λ (k : ℕ). read_golomb k (literal_bits (suc z) x ++ rest)) {x = 0 + z} {y = z}
        (omega arith)
    ∙ read_number x z rest h

module _ {S : Type 0} (b : StorageBackend S) (level : ℕ) (h : level < 2 ^ 32 - 1) where
  abbrev len : ℕ
  len = 32 - leading_zeros 32 (level + 1)

  word : (level + 1) % 2 ^ 32 ≡ level + 1
  word = omega arith

  wide : IsWidth (level + 1) len
  wide = leading_zeros-IsWidth (level + 1) (omega arith) (omega arith)

  -- For a level below 2 ^ 32 - 1 `write_golomb` does not fault, the reader of the code gets the
  -- level back and leaves what follows, and the bits are twice the binary digits of level + 1,
  -- less one.
  pub write_golomb-IsWritten :
      IsWritten b
        (write_golomb b level)
        (read_golomb 0)
        level
        (some ((32 - leading_zeros 32 (level + 1) - 1 + (32 - leading_zeros 32 (level + 1))) * 8))
  unfolding write_golomb
  write_golomb-IsWritten = record {
    bits = replicate (len - 1) false ++ literal_bits len (level + 1);
    puts = λ w. rw word (
        then-Puts b (zeros b (len - 1)) (literal b len (level + 1)) (replicate (len - 1) false)
          (literal_bits len (level + 1)) (zeros-Puts b (len - 1)) (literal-Puts b len (level + 1))
          w);
    reads =
        λ rest. read_all (level + 1) len rest wide ∙ ap (λ (v : ℕ). some (v, rest)) (omega arith);
    counts = ap some (
        omega (
          arith,
          length-append (replicate (len - 1) false) (literal_bits len (level + 1)),
          length-replicate (len - 1) false,
          length-literal_bits len (level + 1),
        ));
  }
