-- ===== src/Ec/Symbol/Subexp.antt =====
-- The finite subexponential code: the loop ends, and its reader gets the number back.
use native.Mathlib.Nat.{mod-eq_of_lt}
use rav1e.Prelude.{
  ℕ, zero, suc, ◌+◌, ◌-◌, ◌*◌, ◌^◌, ◌%◌, ◌≤◌, ◌<◌, ◌≡◌, refl, ap, subst, ◌∙◌, List, [], ◌∷◌, ◌++◌,
  length, Option, none, some, Bool, true, false, if◌then◌else◌, ltb, leb, ok-bind, arith, inl, inr,
  Bool-cases, leb→le, not_leb→lt,
}
use rav1e.Prelude.Powers.{pow_mono, pow_split}
use rav1e.Ec.Base.{StorageBackend}
use rav1e.Ec.Symbol.{subexp_loop, count_loop, write_subexp, count_subexp, literal}
use rav1e.Ec.Symbol.Bits.{
  literal_bits, read_literal, read-literal_bits, length-literal_bits, literal-Puts, bool_lem,
  put_bit, IsWritten, Puts,
}
use rav1e.Ec.Symbol.Quniform.{read_quniform, write_quniform-IsWritten}

abbrev add_to : ℕ → Option (ℕ × List Bool) → Option (ℕ × List Bool)
add_to mk none = none
add_to mk (some (v, rest)) = some (v + mk, rest)

abbrev plus : ℕ → Option ℕ → Option ℕ
plus c none = none
plus c (some x) = some (c + x)

-- The reader of the format.
unfoldable pub read_loop : ℕ → ℕ → ℕ → ℕ → ℕ → List Bool → Option (ℕ × List Bool)
read_loop zero n k i mk bs = none
read_loop (suc fuel) n k i mk bs =
    let b = if ltb 0 i then k + i - 1 else k in
    elim (leb n (mk + 3 * 2 ^ b)) [
      | true ↦ add_to mk (read_quniform (n - mk) bs)
      | false ↦ elim bs [
        | [] ↦ none
        | t ∷ bs ↦ elim t [
          | true ↦ read_loop fuel n k (i + 1) (mk + 2 ^ b) bs
          | false ↦ add_to mk (read_literal b bs)
        ]
      ]
    ]

unfoldable pub read_subexp : ℕ → ℕ → List Bool → Option (ℕ × List Bool)
read_subexp n k bs = read_loop 32 n k 0 0 bs

module _ {S : Type 0} (back : StorageBackend S) (n k v : ℕ) (vn : v < n) (nb : n < 2 ^ 30) where
  -- What a run of the loop does.
  record IsRun (fuel i mk : ℕ) : Type 0 where
    bits : List Bool
    puts : Puts back (subexp_loop back fuel n k v i mk) bits
    reads : (rest : List Bool) → read_loop fuel n k i mk (bits ++ rest) ≡ some (v, rest)
    counts : (c : ℕ) → count_loop fuel n k v i mk c ≡ some (c + length bits * 8)

  -- One round, for the exponent `b`.
  module _ (fuel i mk b : ℕ) (e : (if ltb 0 i then k + i - 1 else k) ≡ b) (word : b ≤ 28)
      (le : mk ≤ v) where
    whole : b % 32 ≡ b
    whole = omega arith

    last_round : leb n (mk + 3 * 2 ^ b) ≡ true → IsRun (suc fuel) i mk
    unfolding subexp_loop count_loop read_loop
    last_round f =
        let code = write_quniform-IsWritten back (n - mk) (v - mk) (omega arith) (omega arith) in
        record {
          bits = code.bits;
          puts = λ w. rw (e, whole, f) (code.puts w);
          reads = λ rest.
              rw (read_loop, e, f, code.reads rest) (ap (λ (x : ℕ). some (x, rest)) (omega arith));
          counts = λ c. rw (e, whole, f) (ap (plus c) code.counts);
        }

    value : leb (mk + 2 ^ b) v ≡ false → (v - mk) % 2 ^ b + mk ≡ v
    value g =
        let small : (v - mk) % 2 ^ b ≡ v - mk =
          mod-eq_of_lt (omega (arith, not_leb→lt (mk + 2 ^ b) v g)) in
        omega arith

    short_round :
        leb n (mk + 3 * 2 ^ b) ≡ false → leb (mk + 2 ^ b) v ≡ false → IsRun (suc fuel) i mk
    unfolding subexp_loop count_loop read_loop
    short_round f g = record {
      bits = false ∷ literal_bits b (v - mk);
      puts = λ w.
          rw (e, whole, f, g)
            (ok-bind (λ _. literal back b (v - mk)) (bool_lem back false w)
              (literal-Puts back b (v - mk) (put_bit back false w)));
      reads = λ rest.
          rw (read_loop, e, f)
            (rw (e, read-literal_bits b (v - mk) rest) (ap (λ (x : ℕ). some (x, rest)) (value g)));
      counts = λ c. rw (e, whole, f, g, length-literal_bits b (v - mk)) (ap some (omega arith));
    }

    long_round :
        leb n (mk + 3 * 2 ^ b) ≡ false
        → leb (mk + 2 ^ b) v ≡ true
        → IsRun fuel (i + 1) (mk + 2 ^ b)
        → IsRun (suc fuel) i mk
    unfolding subexp_loop count_loop read_loop
    long_round f g h = record {
      bits = true ∷ h.bits;
      puts = λ w.
          rw (e, whole, f, g)
            (ok-bind (λ _. subexp_loop back fuel n k v (i + 1) (mk + 2 ^ b)) (bool_lem back true w)
              (h.puts (put_bit back true w)));
      reads = λ rest. rw (read_loop, e, f) (rw e (h.reads rest));
      counts = λ c. rw (e, whole, f, g) (h.counts (c + 8) ∙ ap some (omega arith));
    }

  twice : (j : ℕ) → 2 ^ (k + suc j) ≡ 2 ^ (k + j) + 2 ^ (k + j)
  twice j = pow_split 1 (k + j) (k + suc j) (omega arith) ∙ omega arith

  again :
      (fuel j : ℕ)
      → IsRun fuel (suc (suc j)) (2 ^ (k + suc j))
      → IsRun fuel (suc j + 1) (2 ^ (k + j) + 2 ^ (k + j))
  again fuel j h =
      subst (λ i. IsRun fuel i (2 ^ (k + j) + 2 ^ (k + j))) {x = suc (suc j)} (omega arith)
        (subst (IsRun fuel (suc (suc j))) (twice j) h)

  next_word : (j : ℕ) → k + j ≤ 28 → 2 ^ (k + j) + 3 * 2 ^ (k + j) < n → k + suc j ≤ 28
  next_word j word h = elim (Bool-cases (leb (k + suc j) 28)) [
    | inl e ↦ leb→le (k + suc j) 28 e
    | inr e ↦
        absurd
          (omega (arith, vn, nb, pow_mono 28 (k + j) (omega (arith, not_leb→lt (k + suc j) 28 e))))
  ]

  run :
      (fuel j : ℕ)
      → 30 ≤ k + suc j + fuel
      → k + j ≤ 28
      → 2 ^ (k + j) ≤ v
      → IsRun fuel (suc j) (2 ^ (k + j))
  run zero j enough word le = absurd (omega arith)
  run (suc fuel) j enough word le =
      let b = k + j in
      let mk = 2 ^ b in
      let exponent : (if ltb 0 (suc j) then k + suc j - 1 else k) ≡ b = ground arith in
      elim (Bool-cases (leb n (mk + 3 * mk))) [
        | inl f ↦ last_round fuel (suc j) mk b exponent word le f
        | inr f ↦ elim (Bool-cases (leb (mk + mk) v)) [
          | inr g ↦ short_round fuel (suc j) mk b exponent word le f g
          | inl g ↦ long_round fuel (suc j) mk b exponent word le f g (
              again fuel j (
                run fuel (suc j) (omega arith) (next_word j word (not_leb→lt n (mk + 3 * mk) f))
                  (omega (arith, twice j, leb→le (mk + mk) v g))))
        ]
      ]

  -- From the start.
  subexp_loop-IsRun : k ≤ 28 → IsRun 32 0 0
  subexp_loop-IsRun word = elim (Bool-cases (leb n (0 + 3 * 2 ^ k))) [
    | inl f ↦ last_round 31 0 0 k refl word (omega arith) f
    | inr f ↦ elim (Bool-cases (leb (0 + 2 ^ k) v)) [
      | inr g ↦ short_round 31 0 0 k refl word (omega arith) f g
      | inl g ↦ long_round 31 0 0 k refl word (omega arith) f g (
          subst (IsRun 31 1) (ap (λ (b : ℕ). 2 ^ b) {x = k + 0} {y = k} (omega arith) ∙ omega arith)
            (run 31 0 (omega arith) (omega arith) (
              omega (
                arith,
                leb→le (0 + 2 ^ k) v g,
                ap (λ (b : ℕ). 2 ^ b) {x = k + 0} {y = k} (omega arith),
              ))))
    ]
  ]

-- For v < n < 2 ^ 30 and k at most 28 the loops of `write_subexp` and `count_subexp` end within
-- 32 rounds, the reader of the code gets v back from the bits written, and the count is their
-- number in eighths.
pub write_subexp-IsWritten :
    {S : Type 0} (back : StorageBackend S) (n k v : ℕ)
    → v < n
    → n < 2 ^ 30
    → k ≤ 28
    → IsWritten back (write_subexp back n k v) (read_subexp n k) v (count_subexp n k v)
unfolding write_subexp read_subexp count_subexp
write_subexp-IsWritten back n k v vn nb word =
    let run = subexp_loop-IsRun back n k v vn nb word in
    record {
      bits = run.bits;
      puts = run.puts;
      reads = run.reads;
      counts = run.counts 0 ∙ ap some (omega arith);
    }
