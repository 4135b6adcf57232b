-- ===== src/Prelude/Loops.antt =====
-- Counted loops.
use rav1e.Prelude.{
  ℕ, zero, suc, ◌+◌, ◌<◌, ◌≤◌, ok, err, fault, M, Keeps, kept, Keeps-bind, Ensures, Ensures-seq,
  returned, ◌≡◌, subst, arith,
}

-- `for i in lo..lo + n { s = body(i, s) }`
unfoldable pub for_range {ℓ} : {S : Type ℓ} → ℕ → ℕ → (ℕ → S → S) → S → S
for_range zero lo body s = s
for_range (suc n) lo body s = for_range n (lo + 1) body (body lo s)

-- `for i in lo..lo + n { body(i)?; }`
unfoldable pub for_each : {S : Type 0} → ℕ → ℕ → (ℕ → M S (Unit {0})) → M S (Unit {0})
for_each zero lo body s = ok s tt
for_each (suc n) lo body s = elim (body lo s) [
  | ok s' _ ↦ for_each n (lo + 1) body s'
  | err s' e ↦ err s' e
  | fault ↦ fault
]

-- The rule of the invariant, for rounds below `hi`.
pub for_each-Keeps :
    {S : Type 0} (I : S → Type 0) (n lo hi : ℕ) (body : ℕ → M S (Unit {0}))
    → lo + n ≤ hi
    → ((i : ℕ) (s : S) → i < hi → I s → Keeps I (body i s))
    → (s : S) → I s
    → Keeps I (for_each n lo body s)
unfolding for_each
for_each-Keeps I zero lo hi body e step s h = kept h
for_each-Keeps I (suc n) lo hi body e step s h =
    Keeps-bind (step lo s (omega arith) h)
      (λ s' _ k. for_each-Keeps I n (lo + 1) hi body (omega arith) step s' k)

-- The rule of an invariant that counts the rounds, for a body without errors.
pub for_each-Ensures :
    {S : Type 0} (I : ℕ → S → Type 0) (n lo hi : ℕ) (body : ℕ → M S (Unit {0}))
    → lo + n ≡ hi
    → ((i : ℕ) (s : S) → i < hi → I i s → Ensures (λ _. ⊥) (λ t _. I (i + 1) t) (body i s))
    → (s : S) → I lo s
    → Ensures (λ _. ⊥) (λ t _. I hi t) (for_each n lo body s)
unfolding for_each
for_each-Ensures I zero lo hi body e step s h = returned (subst (λ k. I k s) (omega arith) h)
for_each-Ensures I (suc n) lo hi body e step s h =
    Ensures-seq (step lo s (omega arith) h)
      (λ s' _ k. for_each-Ensures I n (lo + 1) hi body (omega arith) step s' k)
