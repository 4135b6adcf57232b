-- ===== src/Ec/Symbol/Bits.antt =====
-- What is written as bits of even probability, and a reader of such bits.
use rav1e.Prelude.{
  ℕ, zero, suc, ◌+◌, ◌*◌, ◌/◌, ◌%◌, ◌^◌, ◌≡◌, refl, sym, ap, replicate, ◌∙◌, List, [], ◌∷◌, ◌++◌,
  length, Option, none, some, Bool, true, false, if◌then◌else◌, ◌==◌, M, ok, ◌>>◌, ok-bind, arith,
}
use rav1e.Prelude.Powers.{mod-pow-suc}
use rav1e.Ec.Base.{WriterBase, StorageBackend}
use rav1e.Ec.Symbol.{token_of, symbol, bool, bit, literal, zeros}

module _ {S : Type 0} (b : StorageBackend S) where
  -- The stores of a bit.
  abbrev pub put_bit : Bool → WriterBase S → WriterBase S
  put_bit x w = if x then b.store 16384 0 1 w else b.store 32768 16384 2 w

  abbrev pub put_bits : List Bool → WriterBase S → WriterBase S
  put_bits [] w = w
  put_bits (x ∷ xs) w = put_bits xs (put_bit x w)

  pub put_bits-append :
      (xs ys : List Bool) (w : WriterBase S) → put_bits (xs ++ ys) w ≡ put_bits ys (put_bits xs w)
  put_bits-append [] ys w = refl
  put_bits-append (x ∷ xs) ys w = put_bits-append xs ys (put_bit x w)

  pub bool_lem : (x : Bool) (w : WriterBase S) → bool b x 16384 w ≡ ok (put_bit x w) tt
  unfolding bool symbol token_of
  bool_lem true w = refl
  bool_lem false w = refl

  pub bit_lem : (x : ℕ) (w : WriterBase S) → bit b x w ≡ ok (put_bit (x == 1) w) tt
  unfolding bit
  bit_lem x w = bool_lem (x == 1) w

-- The bits of `literal`, and what is read of them.
abbrev pub literal_bits : ℕ → ℕ → List Bool
literal_bits zero s = []
literal_bits (suc i) s = (s / 2 ^ i % 2 == 1) ∷ literal_bits i s

unfoldable pub read_literal : ℕ → List Bool → Option (ℕ × List Bool)
read_literal zero bs = some (0, bs)
read_literal (suc i) [] = none
read_literal (suc i) (x ∷ bs) = elim (read_literal i bs) [
  | some (v, rest) ↦ some ((if x then 2 ^ i else 0) + v, rest)
  | none ↦ none
]

pub read-literal_bits :
    (n s : ℕ) (rest : List Bool)
    → read_literal n (literal_bits n s ++ rest) ≡ some (s % 2 ^ n, rest)
unfolding read_literal
read-literal_bits zero s rest = ap (λ (v : ℕ). some (v, rest)) (omega arith)
read-literal_bits (suc i) s rest =
    rw (read-literal_bits i s rest) (ap (λ (v : ℕ). some (v, rest)) (top_bit i s))
  where
    top_bit : (i s : ℕ) → (if s / 2 ^ i % 2 == 1 then 2 ^ i else 0) + s % 2 ^ i ≡ s % 2 ^ suc i
    top_bit i s = ground (arith, mod-pow-suc i s)

pub length-literal_bits : (n s : ℕ) → length (literal_bits n s) ≡ n
length-literal_bits zero s = refl
length-literal_bits (suc n) s = ap suc (length-literal_bits n s)

-- An action that writes the bits of a list.
module _ {S : Type 0} (b : StorageBackend S) where
  abbrev pub Puts : M (WriterBase S) (Unit {0}) → List Bool → Type 0
  Puts act bits = (w : WriterBase S) → act w ≡ ok (put_bits b bits w) tt

  pub then-Puts :
      (m k : M (WriterBase S) (Unit {0})) (xs ys : List Bool)
      → Puts m xs
      → Puts k ys
      → Puts (m >> k) (xs ++ ys)
  then-Puts m k xs ys h g w =
      ok-bind (λ _. k) (h w)
        (g (put_bits b xs w) ∙ ap (λ v. ok v tt) (sym (put_bits-append b xs ys w)))

  pub literal-Puts : (n s : ℕ) → Puts (literal b n s) (literal_bits n s)
  unfolding literal
  literal-Puts zero s w = refl
  literal-Puts (suc i) s w =
      ok-bind (λ _. literal b i s) (bit_lem b (s / 2 ^ i % 2) w)
        (literal-Puts i s (put_bit b (s / 2 ^ i % 2 == 1) w))

  pub zeros-Puts : (n : ℕ) → Puts (zeros b n) (replicate n false)
  unfolding zeros
  zeros-Puts zero w = refl
  zeros-Puts (suc n) w = ok-bind (λ _. zeros b n) (bit_lem b 0 w) (zeros-Puts n (put_bit b false w))

-- What the codes promise: the action writes bits, of which a reader gets the value back, whatever
-- follows, and the count says how many there are, in eighths.
pub record IsWritten {S : Type 0} (b : StorageBackend S) (act : M (WriterBase S) (Unit {0}))
    (read : List Bool → Option (ℕ × List Bool)) (v : ℕ) (cost : Option ℕ) : Type 0 where
  pub bits : List Bool
  pub puts : Puts b act bits
  pub reads : (rest : List Bool) → read (bits ++ rest) ≡ some (v, rest)
  pub counts : cost ≡ some (length bits * 8)
