-- ===== src/Ec/Decode/RoundTrip.antt =====
-- The bytes of the encoder decode to the symbols that were written.
use rav1e.Prelude.{
  ℕ, ◌+◌, ◌-◌, ◌*◌, ◌^◌, ◌≤◌, ◌<◌, ◌≡◌, refl, sym, ap, subst, ◌∙◌, List, [], ◌∷◌, length, map,
  Option, some, M, ok, ◌>>◌, ok-bind, arith,
}
use rav1e.Prelude.Powers.{pow_split, pow-pos, mul_mono_left}
use rav1e.Ec.Format.{leading_zeros}
use rav1e.Ec.Base.{WriterBase, StorageBackend}
use rav1e.Ec.Base.Bounds.{IsToken, IsRange, lr_compute_bounds, lr_compute-IsRange}
use rav1e.Ec.Recorder.{Token, store_all}
use rav1e.Ec.Encoder
use rav1e.Ec.Encoder.{WriterEncoder, done}
use rav1e.Ec.Encoder.Exact.{Exact, start, exact_store, value_from}
use rav1e.Ec.Encoder.Exact.Refinement.{
  IsTokens, no_tokens, token, exact_all, new-Refines, store_all-Refines, exact_all-HasRoom,
}
use rav1e.Ec.Encoder.Exact.Finish.{IsCode, done-IsCode}
use rav1e.Ec.Symbol.{symbol, token_of}
use rav1e.Ec.Cdf.Update.{IsCdf, IsSymbol, token_of-IsSymbol}
use rav1e.Ec.Decode.{Decoder, start_of, advance, find, decode_all}
use rav1e.Ec.Decode.Search.{lower_of, size_of, find_lem, low_end, high_end}

-- A symbol and its distribution.
pub record Choice : Type 0 where
  pub s : ℕ
  pub cdf : List ℕ

pub data IsChoices : List Choice → Type 0 where
  no_choices : IsChoices []
  choice :
      {c : Choice} {cs : List Choice}
      → IsCdf 32767 c.cdf
      → c.s < length c.cdf
      → length c.cdf ≤ 16
      → IsChoices cs
      → IsChoices (c ∷ cs)

-- Writes them one after the other.
unfoldable pub write_all :
    {S : Type 0} → StorageBackend S → List Choice → M (WriterBase S) (Unit {0})
write_all b [] = λ w. ok w tt
write_all b (c ∷ cs) = symbol b c.s c.cdf >> write_all b cs

-- The number `C`, of `p` bits more than those of `x`, is in the interval of `x`.
record Holds (x : Exact) (C p : ℕ) : Type 0 where
  above : x.low * 2 ^ p ≤ C
  below : C < (x.low + x.rng) * 2 ^ p

abbrev shift_of : Token → Exact → ℕ
shift_of t x = leading_zeros 16 (size_of x.rng t)

abbrev step : Token → Exact → Exact
step t x = exact_store t.fl t.fh t.nms x

-- The interval behind a token, in the numbers of the one before it.
record InPart (t : Token) (x : Exact) (C q : ℕ) : Type 0 where
  above : (x.low + lower_of x.rng t) * 2 ^ q ≤ C
  below : C < (x.low + lower_of x.rng t + size_of x.rng t) * 2 ^ q

in_part : (t : Token) (x : Exact) (C p : ℕ) → Holds (step t x) C p → InPart t x C (p + shift_of t x)
unfolding exact_store
in_part t x C p h =
    let split : 2 ^ (p + shift_of t x) ≡ 2 ^ shift_of t x * 2 ^ p =
      pow_split (shift_of t x) p (p + shift_of t x) (omega arith) in
    record { above = rw split (omega (arith, h.above)); below = rw split (omega (arith, h.below)) }

outside :
    (t : Token) (x : Exact) (C q : ℕ)
    → IsToken t.fl t.fh t.nms
    → IsRange x.rng
    → InPart t x C q
    → Holds x C q
outside t x C q u g h =
    let fit = lr_compute_bounds x.rng t.fl t.fh t.nms g u in
    record {
      above = omega (arith, h.above);
      below = omega (
        arith,
        h.below,
        mul_mono_left (x.low + lower_of x.rng t + size_of x.rng t) (x.low + x.rng) (2 ^ q)
            (omega (arith, fit)),
      );
    }

step-IsRange :
    (t : Token) (x : Exact) → IsToken t.fl t.fh t.nms → IsRange x.rng → IsRange (step t x).rng
unfolding exact_store
step-IsRange t x u g = (lr_compute-IsRange x.rng t.fl t.fh t.nms g u).0

step_bits : (t : Token) (x : Exact) → (step t x).bits ≡ x.bits + shift_of t x
unfolding exact_store
step_bits t x = refl

more_bits : (ts : List Token) (x : Exact) → x.bits ≤ (exact_all ts x).bits
unfolding exact_all
more_bits [] x = omega arith
more_bits (t ∷ ts) x = omega (arith, step_bits t x, more_bits ts (step t x))

-- The intervals of a run lie in one another.
nested :
    (ts : List Token) (x : Exact) (C p q : ℕ)
    → IsTokens ts
    → IsRange x.rng
    → q + x.bits ≡ p + (exact_all ts x).bits
    → Holds (exact_all ts x) C p
    → Holds x C q
unfolding exact_all
nested [] x C p q no_tokens g e h = subst (Holds x C) (omega arith) h
nested (t ∷ ts) x C p q (token u us) g e h =
    let z = shift_of t x in
    let fits : z ≤ q = omega (arith, e, step_bits t x, more_bits ts (step t x)) in
    let inner : Holds (step t x) C (q - z) =
      nested ts (step t x) C p (q - z) us (step-IsRange t x u g) (omega (arith, e, step_bits t x))
        h in
    subst (Holds x C) {x = q - z + z} (omega arith)
      (outside t x C (q - z + z) u g (in_part t x C (q - z) inner))

-- The decoder is where the exact coder is.
record Follows (d : Decoder) (x : Exact) (C : ℕ) : Type 0 where
  same_rng : d.rng ≡ x.rng
  number : x.low * 2 ^ d.left + d.dif ≡ C

advance-Follows :
    (t : Token) (d : Decoder) (x : Exact) (C : ℕ)
    → Follows d x C
    → shift_of t x ≤ d.left
    → InPart t x C d.left
    → Follows (advance t d) (step t x) C
unfolding exact_store
advance-Follows t d x C h e part =
    let split : 2 ^ d.left ≡ 2 ^ shift_of t x * 2 ^ (d.left - shift_of t x) =
      pow_split (shift_of t x) (d.left - shift_of t x) d.left (omega arith) in
    record {
      same_rng = rw h.same_rng refl;
      number = rw h.same_rng (
          omega
            (arith, h.number, part.above, ap (λ (n : ℕ). (x.low + lower_of x.rng t) * n) split));
    }

-- What a run of the encoder leaves to show.
record IsRun (cs : List Choice) (w : WriterBase WriterEncoder) (x : Exact) : Type 0 where
  tokens : List Token
  valid : IsTokens tokens
  wrote : write_all Encoder.backend cs w ≡ ok (store_all Encoder.backend tokens w) tt
  decodes :
      (d : Decoder) (C p : ℕ)
      → Follows d x C
      → Holds (exact_all tokens x) C p
      → d.left + x.bits ≡ p + (exact_all tokens x).bits
      → decode_all (map (λ c. c.cdf) cs) d ≡ some (map (λ c. c.s) cs)

symbol_lem :
    (s : ℕ) (cdf : List ℕ) (t : Token) (w : WriterBase WriterEncoder)
    → token_of s cdf ≡ some t
    → symbol Encoder.backend s cdf w ≡ ok (Encoder.store t.fl t.fh t.nms w) tt
unfolding symbol
symbol_lem s cdf t w e = rw (symbol, e) refl

decode_lem :
    (cdf : List ℕ) (cdfs : List (List ℕ)) (d d' : Decoder) (s : ℕ) (ss : List ℕ)
    → find (length cdf) 0 cdf d ≡ some (s, d')
    → decode_all cdfs d' ≡ some ss
    → decode_all (cdf ∷ cdfs) d ≡ some (s ∷ ss)
unfolding decode_all
decode_lem cdf cdfs d d' s ss e f = rw (decode_all, e, f) refl

-- The search finds the token whose part the number is in.
found_lem :
    (s : ℕ) (cdf : List ℕ) (d : Decoder) (x : Exact) (C : ℕ)
    → IsCdf 32767 cdf
    → s < length cdf
    → length cdf ≤ 16
    → IsRange x.rng
    → Follows d x C
    → (made : IsSymbol s cdf) → InPart made.made x C d.left
    → find (length cdf) 0 cdf d ≡ some (s, advance made.made d)
found_lem s cdf d x C dist less len g f made part =
    let t = made.made in
    let low : low_end d.rng (token_of s cdf) ≡ lower_of x.rng t =
      ap (low_end d.rng) made.is_some ∙ ap (λ (r : ℕ). lower_of r t) f.same_rng in
    let high : high_end d.rng (token_of s cdf) ≡ lower_of x.rng t + size_of x.rng t =
      ap (high_end d.rng) made.is_some ∙ ap (λ (r : ℕ). lower_of r t + size_of r t) f.same_rng in
    find_lem cdf dist len d (subst IsRange (sym f.same_rng) g) (length cdf) 0 s t less (omega arith)
      (omega arith) made.is_some (rw low (omega (arith, part.above, f.number)))
      (rw high (omega (arith, part.below, f.number)))

run :
    (cs : List Choice) (w : WriterBase WriterEncoder) (x : Exact)
    → IsChoices cs
    → IsRange x.rng
    → IsRun cs w x
unfolding write_all store_all exact_all decode_all
run [] w x no_choices g = record {
  tokens = [];
  valid = no_tokens;
  wrote = refl;
  decodes = λ d C p f h e. refl;
}
run (c ∷ cs) w x (choice dist less len valid) g =
    let made = token_of-IsSymbol c.s c.cdf dist less len in
    let t = made.made in
    let rest =
      run cs (Encoder.store t.fl t.fh t.nms w) (step t x) valid (step-IsRange t x made.valid g) in
    record {
      tokens = t ∷ rest.tokens;
      valid = token made.valid rest.valid;
      wrote =
          ok-bind (λ _. write_all Encoder.backend cs) (symbol_lem c.s c.cdf t w made.is_some)
            rest.wrote;
      decodes = λ d C p f h e.
          let z = shift_of t x in
          let fits : z ≤ d.left =
            omega (arith, e, step_bits t x, more_bits rest.tokens (step t x)) in
          let inner : Holds (step t x) C (d.left - z) =
            nested rest.tokens (step t x) C p (d.left - z) rest.valid
              (step-IsRange t x made.valid g) (omega (arith, e, step_bits t x)) h in
          let part : InPart t x C d.left =
            subst (InPart t x C) {x = d.left - z + z} (omega arith)
              (in_part t x C (d.left - z) inner) in
          decode_lem c.cdf (map (λ c. c.cdf) cs) d (advance t d) c.s (map (λ c. c.s) cs)
            (found_lem c.s c.cdf d x C dist less len g f made part)
            (rest.decodes (advance t d) C p (advance-Follows t d x C f fits part) h (
              omega (
                arith,
                e,
                fits,
                step_bits t x,
                ap (λ (r : ℕ). leading_zeros 16 (size_of r t)) f.same_rng,
              )));
    }

-- The bytes of a run, and that they decode to its symbols.
pub record IsDecoded (cs : List Choice) : Type 0 where
  pub coded : WriterBase WriterEncoder
  pub wrote : write_all Encoder.backend cs Encoder.new ≡ ok coded tt
  pub bytes : List ℕ
  pub returned : done coded ≡ some bytes
  pub decoded : decode_all (map (λ c. c.cdf) cs) (start_of bytes) ≡ some (map (λ c. c.s) cs)

code-Holds :
    (x : Exact) (r : Option (List ℕ)) (c : IsCode x r)
    → Holds x (value_from 0 c.bytes * 2 ^ 15) (8 * length c.bytes - x.bits)
code-Holds x r c =
    let a = x.bits + 15 - 8 * length c.bytes in
    let p = 8 * length c.bytes - x.bits in
    let v = value_from 0 c.bytes in
    let split : v * 2 ^ 15 ≡ v * 2 ^ a * 2 ^ p =
      ap (λ (n : ℕ). v * n) (pow_split a p 15 (omega (arith, c.size, c.least_size)))
      ∙ omega arith in
    record {
      above = omega (arith, split, mul_mono_left x.low (v * 2 ^ a) (2 ^ p) c.above);
      below = omega (
        arith,
        split,
        pow-pos p,
        mul_mono_left (v * 2 ^ a + 1) (x.low + x.rng) (2 ^ p) (omega (arith, c.below)),
      );
    }

-- For any list of symbols with their distributions, each symbol within its distribution of at
-- most 16 words, writing them with `symbol` into a new encoder does not fault, `done` returns
-- bytes, and the decoder of the format reads exactly these symbols from the bytes with the same
-- distributions.
pub decode_all-write_all : (cs : List Choice) → IsChoices cs → IsDecoded cs
decode_all-write_all cs valid =
    let g : IsRange 0x8000 = record { least = omega arith; most = omega arith } in
    let all = run cs Encoder.new start valid g in
    let x = exact_all all.tokens start in
    let code =
      done-IsCode (store_all Encoder.backend all.tokens Encoder.new) x
        (store_all-Refines all.tokens Encoder.new start all.valid new-Refines)
        (exact_all-HasRoom all.tokens Encoder.new start all.valid new-Refines (omega arith)) in
    let C = value_from 0 code.bytes * 2 ^ 15 in
    let p = 8 * length code.bytes - x.bits in
    record {
      coded = store_all Encoder.backend all.tokens Encoder.new;
      wrote = all.wrote;
      bytes = code.bytes;
      returned = code.returned;
      decoded =
          all.decodes (start_of code.bytes) C p (record { same_rng = refl; number = omega arith })
            (code-Holds x (done (store_all Encoder.backend all.tokens Encoder.new)) code)
            (omega (arith, code.least_size));
    }
