-- ===== src/Ec/Cdf/Update.antt =====
-- An update keeps a distribution a distribution, and every symbol of one makes a token.
use native.Mathlib.Nat.{div-add-mod', mod-lt, div-lt_iff_lt-mul, mod-eq_of_lt}
use rav1e.Prelude.{
  ℕ, zero, suc, ◌+◌, ◌-◌, ◌*◌, ◌/◌, ◌^◌, ◌≤◌, ◌<◌, min, ◌≡◌, refl, ap, subst, ◌∙◌, List, [], ◌∷◌,
  length, get_elem?, Option, some, true, false, leb, ltb, arith, inl, inr, Bool-cases, leb→le,
  not_leb→lt,
}
use rav1e.Prelude.Powers.{pow-pos, pow_mono}
use rav1e.Ec.Format.{sub16}
use rav1e.Ec.Base.Bounds.{IsToken}
use rav1e.Ec.Recorder.{Token}
use rav1e.Ec.Symbol.{token_of}
use rav1e.Ec.Cdf.{pdf_from, cdf_to_pdf, move, move_all, count_of, count_up, update_cdf}

-- Words that do not grow, the first of them at most `top`, and a count of at most 32 behind them.
pub data IsCdf : ℕ → List ℕ → Type 0 where
  counted : {top c : ℕ} → c ≤ 32 → IsCdf top (c ∷ [])
  next : {top v : ℕ} {cdf : List ℕ} → v ≤ top → IsCdf v cdf → IsCdf top (v ∷ cdf)

-- A division by `p` moves numbers no further apart.
div-sum : (x t p : ℕ) → 0 < p → (x + t) / p ≤ x / p + t
div-sum x t p h =
    let q = x / p in
    let product : t ≤ t * p = grind arith in
    let less : x + t < (q + t + 1) * p = omega (arith, div-add-mod' x p, mod-lt x h, product) in
    omega (arith, (div-lt_iff_lt-mul {k = p} {x = x + t} {y = q + t + 1} h).1 less)

module _ (rate val : ℕ) (h : 1 ≤ rate) where
  abbrev p : ℕ
  p = 2 ^ rate

  half : (x : ℕ) → x / p * 2 ≤ x
  half x =
      let q = x / p in
      let product : q * 2 ≤ q * p = grind (arith, pow_mono 1 rate h) in
      omega (arith, product, div-add-mod' x p)

  -- The two cases of `move` on a word below 32768, without wrap.
  up : (i v : ℕ) → i < val → v < 32768 → move rate val i v ≡ v + (32768 - v) / p
  unfolding move
  up i v e b =
      let whole : sub16 32768 v ≡ 32768 - v = omega arith in
      let test : leb val i ≡ false = ground arith in
      rw (test, whole) (mod-eq_of_lt (omega (arith, half (32768 - v))))

  down : (i v : ℕ) → val ≤ i → v < 32768 → move rate val i v ≡ v - v / p
  unfolding move
  down i v e b = let test : leb val i ≡ true = ground arith in rw test (omega (arith, half v))

  move-lt : (i v : ℕ) → v < 32768 → move rate val i v < 32768
  move-lt i v b = elim (Bool-cases (leb val i)) [
    | inl e ↦ omega (arith, down i v (leb→le val i e) b)
    | inr e ↦ omega (arith, up i v (not_leb→lt val i e) b, half (32768 - v))
  ]

  closer : (x y : ℕ) → x ≤ y → y / p ≤ x / p + (y - x)
  closer x y le =
      subst (λ k. k / p ≤ x / p + (y - x)) {x = x + (y - x)} (omega arith)
        (div-sum x (y - x) p (pow-pos rate))

  move_mono : (i u v : ℕ) → u < 32768 → v ≤ u → move rate val (i + 1) v ≤ move rate val i u
  move_mono i u v b le = elim (Bool-cases (leb val i)) [
    | inl e ↦ omega (
      arith,
      down i u (leb→le val i e) b,
      down (i + 1) v (omega (arith, leb→le val i e)) (omega arith),
      closer v u le,
      half u,
      half v,
    )
    | inr e ↦ elim (Bool-cases (leb val (i + 1))) [
      | inl f ↦ omega (
        arith,
        up i u (not_leb→lt val i e) b,
        down (i + 1) v (leb→le val (i + 1) f) (omega arith),
      )
      | inr f ↦ omega (
        arith,
        up i u (not_leb→lt val i e) b,
        up (i + 1) v (not_leb→lt val (i + 1) f) (omega arith),
        closer (32768 - u) (32768 - v) (omega arith),
      )
    ]
  ]

  -- Where `T` bounds what becomes of a word up to `top`.
  move_all-IsCdf :
      (n i top T : ℕ) (cdf : List ℕ)
      → top < 32768
      → length cdf ≤ n + 1
      → ((v : ℕ) → v ≤ top → move rate val i v ≤ T)
      → IsCdf top cdf
      → IsCdf T (move_all n rate val i cdf)
  unfolding move_all
  move_all-IsCdf zero i top T [] b len bound h = elim h [ ]
  move_all-IsCdf (suc n) i top T [] b len bound h = elim h [ ]
  move_all-IsCdf zero i top T (c ∷ []) b len bound (counted h) = counted h
  move_all-IsCdf (suc n) i top T (c ∷ []) b len bound (counted h) = counted h
  move_all-IsCdf zero i top T (v ∷ []) b len bound (next h t) = elim t [ ]
  move_all-IsCdf (suc n) i top T (v ∷ []) b len bound (next h t) = elim t [ ]
  move_all-IsCdf zero i top T (v ∷ w ∷ cdf) b len bound (next h t) = absurd (omega arith)
  move_all-IsCdf (suc n) i top T (v ∷ w ∷ cdf) b len bound (next h t) = next (bound v h) (
      move_all-IsCdf n (i + 1) v (move rate val i v) (w ∷ cdf) (omega arith) (omega arith)
        (λ x k. move_mono i v x (omega arith) k) t)

count_up-IsCdf : (top : ℕ) (cdf : List ℕ) → IsCdf top cdf → IsCdf top (count_up cdf)
unfolding count_up
count_up-IsCdf top [] h = elim h [ ]
count_up-IsCdf top (c ∷ []) (counted h) = counted (omega arith)
count_up-IsCdf top (c ∷ []) (next h t) = elim t [ ]
count_up-IsCdf top (v ∷ w ∷ cdf) (next h t) = next h (count_up-IsCdf v (w ∷ cdf) t)

pub length-count_up : (cdf : List ℕ) → length (count_up cdf) ≡ length cdf
unfolding count_up
length-count_up [] = refl
length-count_up (v ∷ []) = refl
length-count_up (v ∷ w ∷ cdf) = ap suc (length-count_up (w ∷ cdf))

pub length-move_all :
    (n rate val i : ℕ) (cdf : List ℕ) → length (move_all n rate val i cdf) ≡ length cdf
unfolding move_all
length-move_all zero rate val i cdf = refl
length-move_all (suc n) rate val i [] = refl
length-move_all (suc n) rate val i (v ∷ []) = refl
length-move_all (suc n) rate val i (v ∷ w ∷ cdf) =
    ap suc (length-move_all n rate val (i + 1) (w ∷ cdf))

-- For a distribution of at most 16 words, which do not grow and are at most 32767, with a count
-- of at most 32 behind them, `update_cdf` with any symbol returns such a distribution of the same
-- length.
pub update_cdf-IsCdf :
    (cdf : List ℕ) (val : ℕ)
    → IsCdf 32767 cdf
    → length cdf ≤ 16
    → (IsCdf 32767 (update_cdf cdf val)) × (length (update_cdf cdf val) ≡ length cdf)
unfolding update_cdf
update_cdf-IsCdf [] val h len = elim h [ ]
update_cdf-IsCdf (v ∷ cdf) val h len =
    let rate = 3 + min (length (v ∷ cdf) / 2) 2 + count_of (v ∷ cdf) / 2 ^ 4 in
    let counted = count_up (v ∷ cdf) in
    (
      move_all-IsCdf rate val (omega arith) 15 0 32767 32767 counted (omega arith)
          (omega (arith, length-count_up (v ∷ cdf)))
          (λ x k. omega (arith, move-lt rate val (omega arith) 0 x (omega arith)))
          (count_up-IsCdf 32767 (v ∷ cdf) h),
      length-move_all 15 rate val 0 counted ∙ length-count_up (v ∷ cdf),
    )

-- What a symbol of a distribution becomes.
pub record IsSymbol (s : ℕ) (cdf : List ℕ) : Type 0 where
  pub made : Token
  pub is_some : token_of s cdf ≡ some made
  pub own_word : get_elem? cdf s ≡ some made.fh
  pub word_before : (k : ℕ) → s ≡ k + 1 → get_elem? cdf k ≡ some made.fl
  pub first_bound : s ≡ 0 → made.fl ≡ 32768
  pub small_before : 0 < s → made.fl ≤ 32767
  pub rest : made.nms ≡ length cdf - s
  pub valid : IsToken made.fl made.fh made.nms

-- The word at an index, below the one before it.
pub record IsWord (above : ℕ) (o : Option ℕ) : Type 0 where
  pub word : ℕ
  pub found : o ≡ some word
  pub ordered : word / 64 ≤ above / 64
  pub small : word ≤ 32767

first-IsWord : (top : ℕ) (cdf : List ℕ) → top ≤ 32767 → IsCdf top cdf → IsWord top (get_elem? cdf 0)
first-IsWord top [] b h = elim h [ ]
first-IsWord top (c ∷ []) b (counted h) = record {
  word = c;
  found = refl;
  ordered = omega arith;
  small = omega arith;
}
first-IsWord top (v ∷ cdf) b (next h t) = record {
  word = v;
  found = refl;
  ordered = omega arith;
  small = omega arith;
}

-- A word and the one behind it.
two_words :
    (s top : ℕ) (cdf : List ℕ)
    → top ≤ 32767
    → IsCdf top cdf
    → suc s < length cdf
    → (a : ℕ) × (get_elem? cdf s ≡ some a) × (a ≤ 32767) × (IsWord a (get_elem? cdf (suc s)))
two_words s top [] b h e = absurd (omega arith)
two_words s top (c ∷ []) b h e = absurd (omega arith)
two_words zero top (v ∷ w ∷ cdf) b (next h t) e =
    (v, refl, omega arith, first-IsWord v (w ∷ cdf) (omega arith) t)
two_words (suc s) top (v ∷ w ∷ cdf) b (next h t) e =
    two_words s v (w ∷ cdf) (omega arith) t (omega arith)

-- For a symbol within a valid distribution of at most 16 words, `symbol` reads no word outside of
-- the distribution, and the token that it stores is its own word, the word before, and the number
-- of words left, which meet the conditions of `lr_compute`.
pub token_of-IsSymbol :
    (s : ℕ) (cdf : List ℕ) → IsCdf 32767 cdf → s < length cdf → length cdf ≤ 16 → IsSymbol s cdf
unfolding token_of
token_of-IsSymbol zero cdf h e len =
    let first = first-IsWord 32767 cdf (omega arith) h in
    record {
      made = record { fl = 32768; fh = first.word; nms = length cdf - 0 };
      is_some = rw (token_of, first.found) refl;
      own_word = first.found;
      word_before = λ k e. absurd (omega arith);
      first_bound = λ e. refl;
      small_before = λ e. absurd (omega arith);
      rest = refl;
      valid = record {
        ordered = omega (arith, first.ordered);
        top = omega arith;
        below = omega (arith, first.small);
        least = omega arith;
        most = omega arith;
      };
    }
token_of-IsSymbol (suc s) cdf h e len =
    let (a, found, small, behind) = two_words s 32767 cdf (omega arith) h e in
    let index : suc s - 1 ≡ s = omega arith in
    let test : ltb 0 (suc s) ≡ true = ground arith in
    record {
      made = record { fl = a; fh = behind.word; nms = length cdf - suc s };
      is_some = rw (token_of, test, index, found, behind.found) refl;
      own_word = behind.found;
      word_before = λ k e. subst (λ j. get_elem? cdf j ≡ some a) {x = s} (omega arith) found;
      first_bound = λ e. absurd (omega arith);
      small_before = λ e. small;
      rest = refl;
      valid = record {
        ordered = behind.ordered;
        top = omega arith;
        below = omega (arith, behind.small);
        least = omega arith;
        most = omega arith;
      };
    }

-- The sum of the parts.
pub sum : List ℕ → ℕ
sum [] = 0
sum (x ∷ xs) = x + sum xs

pdf_sum :
    (z top : ℕ) (cdf : List ℕ)
    → top < 32768
    → top / 64 ≤ z
    → z ≤ 512
    → IsCdf top cdf
    → sum (pdf_from z cdf) ≡ z
unfolding pdf_from sum
pdf_sum z top [] b h k d = elim d [ ]
pdf_sum z top (c ∷ []) b h k (counted d) = omega arith
pdf_sum z top (c ∷ []) b h k (next d t) = elim t [ ]
pdf_sum z top (v ∷ w ∷ cdf) b h k (next d t) =
    omega (arith, pdf_sum (v / 64) v (w ∷ cdf) (omega arith) (omega arith) (omega arith) t)

-- The probabilities that `cdf_to_pdf` makes of a valid distribution sum to 512.
pub cdf_to_pdf-sum : (cdf : List ℕ) → IsCdf 32767 cdf → sum (cdf_to_pdf cdf) ≡ 512
unfolding cdf_to_pdf
cdf_to_pdf-sum cdf h = pdf_sum 512 32767 cdf (omega arith) (omega arith) (omega arith) h
