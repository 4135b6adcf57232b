-- ===== src/Ec/ContextLog/Undo.antt =====
-- A rollback takes back every update since the checkpoint.
use rav1e.Prelude.{
  ℕ, ◌+◌, ◌/◌, ◌^◌, ◌≤◌, ◌<◌, ◌≡◌, refl, sym, ap, ◌∙◌, List, [], ◌∷◌, ◌++◌, append-nil,
  append_assoc, take-length, drop-length, leb, Option, none, Bool, true, false, false≢true,
  Bool-cases, inl, inr, leb→le, not_leb→lt, arith,
}
use rav1e.Ec.ContextLog.{
  CdfContext, Saved, CdfContextLog, push_part, paste_all, rollback_part, checkpoint, push, rollback,
}
use rav1e.Ec.ContextLog.Entries.{
  or_else, oldest, paste_all-oldest, entry, oldest_in, oldest_out, Outside, within, push_keeps,
}

-- A distribution of `len` words at an offset. A small one consists of small words, and the 16
-- words that are saved for a large one have none of these.
pub record IsPlaced (is_small : ℕ → Bool) (len offset : ℕ) : Type 0 where
  pub word : offset < 2 ^ 16
  pub room : len ≤ 16
  pub small_words : len ≤ 4 → (a : ℕ) → offset / 2 ≤ a → a < offset / 2 + len → is_small a ≡ true
  pub large_words : 4 < len → (a : ℕ) → offset / 2 ≤ a → a < offset / 2 + 16 → is_small a ≡ false

-- Updates: the distribution is pushed, and then its words change.
pub data Reaches (is_small : ℕ → Bool) (fc : CdfContext) (log : CdfContextLog)
    : CdfContext → CdfContextLog → Type 0 where
  no_update : Reaches is_small fc log fc log
  update :
      {before : CdfContext} {saved : CdfContextLog}
      → Reaches is_small fc log before saved
      → (len offset : ℕ) → IsPlaced is_small len offset
      → (after : CdfContext) → ((a : ℕ) → Outside (offset / 2) len a → after a ≡ before a)
      → Reaches is_small fc log after (push len offset before saved)

-- What the entries know of a word, small or not.
abbrev Knows : Bool → Option ℕ → Option ℕ → ℕ → ℕ → Type 0
Knows true large small now v = (large ≡ none) × (or_else small now ≡ v)
Knows false large small now v = (or_else large now ≡ v) × (or_else large (or_else small now) ≡ v)

Knows-all :
    (b : Bool) (large small : Option ℕ) (now v : ℕ)
    → Knows b large small now v
    → or_else large (or_else small now) ≡ v
Knows-all true large small now v (e, h) = ap (λ o. or_else o (or_else small now)) e ∙ h
Knows-all false large small now v (e, h) = h

record Undoes (is_small : ℕ → Bool) (fc : CdfContext) (log : CdfContextLog) (now : CdfContext)
    (saved : CdfContextLog) : Type 0 where
  small : List Saved
  large : List Saved
  small_entries : saved.small ≡ log.small ++ small
  large_entries : saved.large ≡ log.large ++ large
  knows : (a : ℕ) → Knows (is_small a) (oldest large a) (oldest small a) (now a) (fc a)

module _ (len offset : ℕ) (before after : CdfContext) (large small : List Saved) (a v : ℕ)
    (b : Bool) (word : offset < 2 ^ 16)
    (same : (a : ℕ) → Outside (offset / 2) len a → after a ≡ before a) where
  -- A push of a small distribution.
  small_push :
      len ≤ 4
      → (offset / 2 ≤ a → a < offset / 2 + len → b ≡ true)
      → Knows b (oldest large a) (oldest small a) (before a) v
      → Knows b (oldest large a) (oldest (small ++ (entry 4 offset before ∷ [])) a) (after a) v
  small_push le place = go b place
    where
      kept :
          or_else (oldest (small ++ (entry 4 offset before ∷ [])) a) (after a)
          ≡ or_else (oldest small a) (before a)
      kept = push_keeps 4 len offset before after small a word le same

      go :
          (b : Bool)
          → (offset / 2 ≤ a → a < offset / 2 + len → b ≡ true)
          → Knows b (oldest large a) (oldest small a) (before a) v
          → Knows b (oldest large a) (oldest (small ++ (entry 4 offset before ∷ [])) a) (after a) v
      go true place (e, h) = (e, kept ∙ h)
      go false place (e, h) = elim (within (offset / 2) len a) [
        | inl out ↦
            (ap (or_else (oldest large a)) (same a out) ∙ e, ap (or_else (oldest large a)) kept ∙ h)
        | inr (f, g) ↦ absurd (false≢true (place f g))
      ]

  -- A push of a large one.
  large_push :
      len ≤ 16
      → (offset / 2 ≤ a → a < offset / 2 + 16 → b ≡ false)
      → Knows b (oldest large a) (oldest small a) (before a) v
      → Knows b (oldest (large ++ (entry 16 offset before ∷ [])) a) (oldest small a) (after a) v
  large_push le place = go b place
    where
      kept :
          or_else (oldest (large ++ (entry 16 offset before ∷ [])) a) (after a)
          ≡ or_else (oldest large a) (before a)
      kept = push_keeps 16 len offset before after large a word le same

      unmoved : Outside (offset / 2) 16 a → after a ≡ before a
      unmoved (inl h) = same a (inl h)
      unmoved (inr h) = same a (inr (omega arith))

      go :
          (b : Bool)
          → (offset / 2 ≤ a → a < offset / 2 + 16 → b ≡ false)
          → Knows b (oldest large a) (oldest small a) (before a) v
          → Knows b (oldest (large ++ (entry 16 offset before ∷ [])) a) (oldest small a) (after a) v
      go true place (e, h) = elim (within (offset / 2) 16 a) [
        | inl out ↦ (
          oldest_out 16 offset before word a large out ∙ e,
          ap (or_else (oldest small a)) (unmoved out) ∙ h,
        )
        | inr (f, g) ↦ absurd (false≢true (sym (place f g)))
      ]
      go false place (e, h) = elim (within (offset / 2) 16 a) [
        | inl out ↦ (
          kept ∙ e,
          ap (λ o. or_else o (or_else (oldest small a) (after a)))
                (oldest_out 16 offset before word a large out)
              ∙ ap (λ n. or_else (oldest large a) (or_else (oldest small a) n)) (unmoved out)
              ∙ h,
        )
        | inr (f, g) ↦ (
          kept ∙ e,
          ap (λ o. or_else o (or_else (oldest small a) (after a)))
                (oldest_in 16 offset before word a large f g)
              ∙ e,
        )
      ]

Reaches-Undoes :
    (is_small : ℕ → Bool) (fc : CdfContext) (log : CdfContextLog) (now : CdfContext)
    (saved : CdfContextLog)
    → Reaches is_small fc log now saved
    → Undoes is_small fc log now saved
unfolding push push_part
Reaches-Undoes is_small fc log now saved no_update = record {
  small = [];
  large = [];
  small_entries = sym (append-nil log.small);
  large_entries = sym (append-nil log.large);
  knows = λ a. nothing (is_small a) (fc a);
}
  where
    nothing : (b : Bool) (v : ℕ) → Knows b none none v v
    nothing true v = (refl, refl)
    nothing false v = (refl, refl)
Reaches-Undoes is_small fc log now saved
      (update {before = before} {saved = older} r len offset place after same) =
    let h = Reaches-Undoes is_small fc log before older r in
    elim (Bool-cases (leb len 4)) [
      | inl e ↦
          let le : len ≤ 4 = leb→le len 4 e in
          rw e (record {
            small = h.small ++ (entry 4 offset before ∷ []);
            large = h.large;
            small_entries =
                ap (λ es. es ++ (entry 4 offset before ∷ [])) h.small_entries
                ∙ append_assoc log.small h.small (entry 4 offset before ∷ []);
            large_entries = h.large_entries;
            knows = λ a.
                small_push len offset before after h.large h.small a (fc a) (is_small a) place.word
                  same le (place.small_words le a) (h.knows a);
          })
      | inr e ↦
          let more : 4 < len = not_leb→lt len 4 e in
          rw e (record {
            small = h.small;
            large = h.large ++ (entry 16 offset before ∷ []);
            small_entries = h.small_entries;
            large_entries =
                ap (λ es. es ++ (entry 16 offset before ∷ [])) h.large_entries
                ∙ append_assoc log.large h.large (entry 16 offset before ∷ []);
            knows = λ a.
                large_push len offset before after h.large h.small a (fc a) (is_small a) place.word
                  same place.room (place.large_words more a) (h.knows a);
          })
    ]

-- After any updates, each a push of a distribution and then a change of its words, where a small
-- distribution consists of small words and the 16 words saved for a large one have none of these,
-- a rollback to the checkpoint before gives back the log and each word of the context.
pub rollback-Reaches :
    (is_small : ℕ → Bool) (fc : CdfContext) (log : CdfContextLog) (now : CdfContext)
    (saved : CdfContextLog)
    → Reaches is_small fc log now saved
    → ((rollback (checkpoint log) saved now).0 ≡ log)
      × ((a : ℕ) → (rollback (checkpoint log) saved now).1 a ≡ fc a)
unfolding rollback rollback_part checkpoint
rollback-Reaches is_small fc log now saved r =
    let h = Reaches-Undoes is_small fc log now saved r in
    rw
      (
        h.small_entries,
        h.large_entries,
        take-length log.small h.small,
        take-length log.large h.large,
        drop-length log.small h.small,
        drop-length log.large h.large,
      )
      (
        refl,
        λ a.
            paste_all-oldest h.large (paste_all h.small now) a
            ∙ ap (or_else (oldest h.large a)) (paste_all-oldest h.small now a)
            ∙ Knows-all (is_small a) (oldest h.large a) (oldest h.small a) (now a) (fc a)
                (h.knows a),
      )
