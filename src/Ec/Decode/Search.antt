-- ===== src/Ec/Decode/Search.antt =====
-- The search finds the symbol whose range the number is in.
use rav1e.Prelude.{
  ℕ, zero, suc, ◌+◌, ◌*◌, ◌^◌, ◌≤◌, ◌<◌, ◌≡◌, refl, sym, ap, subst, ◌∙◌, List, length, Option, none,
  some, true, false, ltb, lt→ltb, ltb→lt, not_ltb→le, inl, inr, Bool-cases, arith,
}
use rav1e.Prelude.Powers.{mul_mono_left}
use rav1e.Ec.Base.{lr_compute}
use rav1e.Ec.Base.Bounds.{IsToken, IsRange, lr_compute-touch}
use rav1e.Ec.Recorder.{Token}
use rav1e.Ec.Symbol.{token_of}
use rav1e.Ec.Cdf.Update.{IsCdf, IsSymbol, token_of-IsSymbol}
use rav1e.Ec.Decode.{Decoder, advance, is_below, find}

abbrev pub lower_of : ℕ → Token → ℕ
lower_of rng t = (lr_compute rng t.fl t.fh t.nms).0

abbrev pub size_of : ℕ → Token → ℕ
size_of rng t = (lr_compute rng t.fl t.fh t.nms).1

-- The two ends of the range of a symbol; 0 where there is none.
abbrev pub low_end : ℕ → Option Token → ℕ
low_end rng none = 0
low_end rng (some t) = lower_of rng t

abbrev pub high_end : ℕ → Option Token → ℕ
high_end rng none = 0
high_end rng (some t) = lower_of rng t + size_of rng t

-- Tokens of neighbours share a bound.
record AreNeighbours (t u : Token) : Type 0 where
  bound : u.fl ≡ t.fh
  count : t.nms ≡ u.nms + 1

not_lt : {a b : ℕ} → b ≤ a → ltb a b ≡ false
not_lt h = ground arith

touching :
    (rng : ℕ) (t u : Token)
    → IsRange rng
    → AreNeighbours t u
    → IsToken t.fl t.fh t.nms
    → IsToken u.fl u.fh u.nms
    → lower_of rng u ≡ lower_of rng t + size_of rng t
touching rng t u g near a b =
    let moved : IsToken t.fh u.fh u.nms = subst (λ f. IsToken f u.fh u.nms) near.bound b in
    let grown : IsToken t.fl t.fh (u.nms + 1) = subst (IsToken t.fl t.fh) near.count a in
    rw (near.bound, near.count) (lr_compute-touch rng t.fl t.fh u.fh u.nms g grown moved)

module _ (cdf : List ℕ) (h : IsCdf 32767 cdf) (len : length cdf ≤ 16) (d : Decoder)
    (g : IsRange d.rng) where
  abbrev symbol_at : (s : ℕ) → s < length cdf → IsSymbol s cdf
  symbol_at s e = token_of-IsSymbol s cdf h e len

  neighbours :
      (s : ℕ) (e : s < length cdf) (f : s + 1 < length cdf)
      → AreNeighbours (symbol_at s e).made (symbol_at (s + 1) f).made
  neighbours s e f =
      let t = symbol_at s e in
      let u = symbol_at (s + 1) f in
      record {
        bound =
            ap (λ (o : Option ℕ). elim o [ some x ↦ x | none ↦ 0 ])
              (sym (u.word_before s refl) ∙ t.own_word);
        count = omega (arith, t.rest, u.rest);
      }

  abbrev pub low_at : ℕ → ℕ
  low_at s = low_end d.rng (token_of s cdf)

  abbrev pub high_at : ℕ → ℕ
  high_at s = high_end d.rng (token_of s cdf)

  touch : (s : ℕ) → s + 1 < length cdf → low_at (s + 1) ≡ high_at s
  touch s f =
      let e : s < length cdf = omega arith in
      let t = symbol_at s e in
      let u = symbol_at (s + 1) f in
      ap (low_end d.rng) u.is_some
      ∙ touching d.rng t.made u.made g (neighbours s e f) t.valid u.valid
      ∙ sym (ap (high_end d.rng) t.is_some)

  ends : (s : ℕ) → s < length cdf → low_at s ≤ high_at s
  ends s e =
      let t = symbol_at s e in
      omega (arith, ap (low_end d.rng) t.is_some, ap (high_end d.rng) t.is_some)

  -- The symbols before `s` lie below it.
  passed : (s k : ℕ) → s < length cdf → k < s → high_at k ≤ low_at s
  passed zero k e h = absurd (omega arith)
  passed (suc s) k e h =
      let next : low_at (suc s) ≡ high_at s =
        ap low_at {x = suc s} {y = s + 1} (omega arith) ∙ touch s (omega arith) in
      elim (Bool-cases (ltb k s)) [
        | inl f ↦ omega (arith, next, ends s (omega arith), passed s k (omega arith) (ltb→lt k s f))
        | inr f ↦
            let same : high_at k ≡ high_at s = ap high_at (omega (arith, not_ltb→le k s f)) in
            omega (arith, next, same)
      ]

  below_lem :
      (k : ℕ) (t : Token)
      → token_of k cdf ≡ some t
      → is_below t d ≡ ltb d.dif (high_at k * 2 ^ d.left)
  below_lem k t e = ap (λ (h : ℕ). ltb d.dif (h * 2 ^ d.left)) (sym (ap (high_end d.rng) e))

  pub find_lem :
      (n j s : ℕ) (t : Token)
      → s < length cdf
      → j ≤ s
      → s < j + n
      → token_of s cdf ≡ some t
      → low_at s * 2 ^ d.left ≤ d.dif
      → d.dif < high_at s * 2 ^ d.left
      → find n j cdf d ≡ some (s, advance t d)
  unfolding find
  find_lem zero j s t e le more made low high = absurd (omega arith)
  find_lem (suc n) j s t e le more made low high = elim (Bool-cases (ltb j s)) [
    | inl f ↦
        let u = symbol_at j (omega arith) in
        let above : is_below u.made d ≡ false =
          below_lem j u.made u.is_some
          ∙ not_lt (
              omega (
                arith,
                low,
                mul_mono_left (high_at j) (low_at s) (2 ^ d.left) (passed s j e (ltb→lt j s f)),
              )) in
        rw (find, u.is_some, above)
          (find_lem n (j + 1) s t e (omega (arith, ltb→lt j s f)) (omega arith) made low high)
    | inr f ↦
        let same : j ≡ s = omega (arith, not_ltb→le j s f) in
        let under : is_below t d ≡ true = below_lem s t made ∙ lt→ltb _ _ high in
        rw (same) (rw (find, made, under) refl)
  ]
