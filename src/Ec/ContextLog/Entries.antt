-- ===== src/Ec/ContextLog/Entries.antt =====
-- What the entries of a partition of the log say of a word.
use rav1e.Prelude.{
  ℕ, zero, suc, ◌+◌, ◌-◌, ◌/◌, ◌%◌, ◌^◌, ◌≤◌, ◌<◌, ◌≡◌, ◌⊎◌, refl, sym, ap, ◌∙◌, List, [], ◌∷◌,
  ◌++◌, get_elem?, leb, Option, none, some, true, false, Bool-cases, inl, inr, arith, ltb, ltb→lt,
  not_ltb→le,
}
use rav1e.Ec.ContextLog.{CdfContext, Saved, copy_words, saved_word, paste, paste_all}

get-copy_words :
    (n i : ℕ) (fc : CdfContext) (j : ℕ)
    → j < n
    → get_elem? (copy_words n fc i) j ≡ some (fc (i + j))
unfolding copy_words
get-copy_words zero i fc j h = absurd (omega arith)
get-copy_words (suc n) i fc zero h = ap (λ (k : ℕ). some (fc k)) (omega arith)
get-copy_words (suc n) i fc (suc j) h =
    get-copy_words n (i + 1) fc j (omega arith) ∙ ap (λ (k : ℕ). some (fc k)) (omega arith)

get-copy_words_out :
    (n i : ℕ) (fc : CdfContext) (j : ℕ) → n ≤ j → get_elem? (copy_words n fc i) j ≡ none
unfolding copy_words
get-copy_words_out zero i fc j h = refl
get-copy_words_out (suc n) i fc zero h = absurd (omega arith)
get-copy_words_out (suc n) i fc (suc j) h = get-copy_words_out n (i + 1) fc j (omega arith)

-- The first of two words that there is.
abbrev first_of : Option ℕ → Option ℕ → Option ℕ
first_of none r = r
first_of (some v) r = some v

abbrev pub or_else : Option ℕ → ℕ → ℕ
or_else none v = v
or_else (some v) w = v

first-or_else : (o r : Option ℕ) (v : ℕ) → or_else (first_of o r) v ≡ or_else o (or_else r v)
first-or_else none r v = refl
first-or_else (some u) r v = refl

first_assoc : (o p r : Option ℕ) → first_of o (first_of p r) ≡ first_of (first_of o p) r
first_assoc none p r = refl
first_assoc (some u) p r = refl

first_none : (o : Option ℕ) → first_of o none ≡ o
first_none none = refl
first_none (some u) = refl

first_some : (o : Option ℕ) (v : ℕ) → first_of o (some v) ≡ some (or_else o v)
first_some none v = refl
first_some (some u) v = refl

paste_lem : (e : Saved) (fc : CdfContext) (a : ℕ) → paste e fc a ≡ or_else (saved_word e a) (fc a)
unfolding paste
paste_lem e fc a = split (saved_word e a)
  where
    split : (o : Option ℕ) → (elim o [ some v ↦ v | none ↦ fc a ]) ≡ or_else o (fc a)
    split none = refl
    split (some v) = refl

-- The word of the oldest entry that has one.
abbrev pub oldest : List Saved → ℕ → Option ℕ
oldest [] a = none
oldest (e ∷ es) a = first_of (saved_word e a) (oldest es a)

pub paste_all-oldest :
    (es : List Saved) (fc : CdfContext) (a : ℕ) → paste_all es fc a ≡ or_else (oldest es a) (fc a)
unfolding paste_all
paste_all-oldest [] fc a = refl
paste_all-oldest (e ∷ es) fc a =
    paste_lem e (paste_all es fc) a
    ∙ ap (or_else (saved_word e a)) (paste_all-oldest es fc a)
    ∙ sym (first-or_else (saved_word e a) (oldest es a) (fc a))

oldest-append :
    (es : List Saved) (e : Saved) (a : ℕ)
    → oldest (es ++ (e ∷ [])) a ≡ first_of (oldest es a) (saved_word e a)
oldest-append [] e a = first_none (saved_word e a)
oldest-append (f ∷ es) e a =
    ap (first_of (saved_word f a)) (oldest-append es e a)
    ∙ first_assoc (saved_word f a) (oldest es a) (saved_word e a)

-- The entry that a push of `n` words adds.
abbrev pub entry : ℕ → ℕ → CdfContext → Saved
entry n offset fc = record { words = copy_words n fc (offset / 2); offset = offset % 2 ^ 16 }

module _ (n offset : ℕ) (fc : CdfContext) (word : offset < 2 ^ 16) (a : ℕ) where
  start : offset % 2 ^ 16 / 2 ≡ offset / 2
  start = omega arith

  saved_in : offset / 2 ≤ a → a < offset / 2 + n → saved_word (entry n offset fc) a ≡ some (fc a)
  saved_in h g =
      let test : leb (offset / 2) a ≡ true = ground arith in
      rw (start, test)
        (get-copy_words n (offset / 2) fc (a - offset / 2) (omega arith)
          ∙ ap (λ (k : ℕ). some (fc k)) (omega arith))

  saved_out : (a < offset / 2) ⊎ (offset / 2 + n ≤ a) → saved_word (entry n offset fc) a ≡ none
  saved_out (inl h) = let test : leb (offset / 2) a ≡ false = ground arith in rw (start, test) refl
  saved_out (inr h) =
      let test : leb (offset / 2) a ≡ true = ground arith in
      rw (start, test) (get-copy_words_out n (offset / 2) fc (a - offset / 2) (omega arith))

  -- What a push does to the oldest word, inside of its window and outside.
  pub oldest_in :
      (es : List Saved)
      → offset / 2 ≤ a
      → a < offset / 2 + n
      → oldest (es ++ (entry n offset fc ∷ [])) a ≡ some (or_else (oldest es a) (fc a))
  oldest_in es h g =
      oldest-append es (entry n offset fc) a
      ∙ ap (first_of (oldest es a)) (saved_in h g)
      ∙ first_some (oldest es a) (fc a)

  pub oldest_out :
      (es : List Saved)
      → (a < offset / 2) ⊎ (offset / 2 + n ≤ a)
      → oldest (es ++ (entry n offset fc ∷ [])) a ≡ oldest es a
  oldest_out es h =
      oldest-append es (entry n offset fc) a
      ∙ ap (first_of (oldest es a)) (saved_out h)
      ∙ first_none (oldest es a)

abbrev pub Outside : ℕ → ℕ → ℕ → Type 0
Outside lo n a = (a < lo) ⊎ (lo + n ≤ a)

pub within : (lo n a : ℕ) → Outside lo n a ⊎ ((lo ≤ a) × (a < lo + n))
within lo n a = elim (Bool-cases (ltb a lo)) [
  | inl e ↦ inl (inl (ltb→lt a lo e))
  | inr e ↦ elim (Bool-cases (ltb a (lo + n))) [
    | inl f ↦ inr (not_ltb→le a lo e, ltb→lt a (lo + n) f)
    | inr f ↦ inl (inr (not_ltb→le a (lo + n) f))
  ]
]

-- A push and a change within it keep what the entries and the words make up.
pub push_keeps :
    (n len offset : ℕ) (before after : CdfContext) (es : List Saved) (a : ℕ)
    → offset < 2 ^ 16
    → len ≤ n
    → ((a : ℕ) → Outside (offset / 2) len a → after a ≡ before a)
    → or_else (oldest (es ++ (entry n offset before ∷ [])) a) (after a)
      ≡ or_else (oldest es a) (before a)
push_keeps n len offset before after es a word le same = elim (within (offset / 2) n a) [
  | inl out ↦
      ap (λ o. or_else o (after a)) (oldest_out n offset before word a es out)
      ∙ ap (or_else (oldest es a)) (same a (wider out))
  | inr (h, g) ↦ ap (λ o. or_else o (after a)) (oldest_in n offset before word a es h g)
]
  where
    wider : Outside (offset / 2) n a → Outside (offset / 2) len a
    wider (inl h) = inl h
    wider (inr h) = inr (omega arith)
