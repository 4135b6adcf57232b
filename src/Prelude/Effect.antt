-- ===== src/Prelude/Effect.antt =====
-- Code that reads and writes a state and may stop: with one of the program's errors, or with a
-- fault. A fault is what a checked build panics on and an unchecked one leaves undefined: an
-- access outside a slice, or a failed assertion. After an error the state is the one reached.
use rav1e.Prelude.Tests.{if◌then◌else◌}
use mathlib.Core.Path.{◌≡◌, refl, ap, ◌∙◌}
use mathlib.Core.Bool.{Bool, true, false, false≢true}

pub data Error : Type 0 where
  eof invalid unsupported : Error

pub data Outcome (S A : Type 0) : Type 0 where
  ok : S → A → Outcome S A
  err : S → Error → Outcome S A
  fault : Outcome S A

abbrev pub M : Type 0 → Type 0 → Type 0
M S A = S → Outcome S A

infixl 5 ◌>>=◌ ◌>>◌
abbrev pub ◌>>=◌ : {S A B : Type 0} → M S A → (A → M S B) → M S B
◌>>=◌ m f s = elim (m s) [ ok s' a ↦ f a s' | err s' e ↦ err s' e | fault ↦ fault ]

abbrev pub ◌>>◌ : {S B : Type 0} → M S (Unit {0}) → M S B → M S B
m >> k = m >>= λ _. k

abbrev pub done : {S A : Type 0} → A → M S A
done a s = ok s a

abbrev pub fail : {S A : Type 0} → Error → M S A
fail e s = err s e

-- `if test { return Err(e) }`
unfoldable pub refuse_if : {S : Type 0} → Bool → Error → M S (Unit {0})
refuse_if true e s = err s e
refuse_if false e s = ok s tt

-- What a checked access or an assertion demands.
unfoldable pub require : {S : Type 0} → Bool → M S (Unit {0})
require true s = ok s tt
require false s = fault

abbrev pub get_state : {S : Type 0} → M S S
get_state s = ok s s

abbrev pub modify : {S : Type 0} → (S → S) → M S (Unit {0})
modify f s = ok (f s) tt

-- Runs on a part of the state.
abbrev pub zoom : {S T A : Type 0} → (S → T) → (T → S → S) → M T A → M S A
zoom view update m s = elim (m (view s)) [
  | ok t a ↦ ok (update t s) a
  | err t e ↦ err (update t s) e
  | fault ↦ fault
]

-- No fault, and a property of the state reached, whether by a result or by an error.
pub data Keeps {S A : Type 0} (I : S → Type 0) : Outcome S A → Type 0 where
  kept : {s : S} {a : A} → I s → Keeps I (ok s a)
  stopped : {s : S} {e : Error} → I s → Keeps I (err s e)

-- The same, with a postcondition of a result.
pub data Ensures {S A : Type 0} (I : S → Type 0) (Q : S → A → Type 0) : Outcome S A → Type 0 where
  returned : {s : S} {a : A} → Q s a → Ensures I Q (ok s a)
  failed : {s : S} {e : Error} → I s → Ensures I Q (err s e)

-- Both as tuples, for code without a call.
abbrev pub Stays : {S A : Type 0} → (S → Type 0) → (S → A → Type 0) → Outcome S A → Type 0
Stays I Q (ok s a) = Q s a
Stays I Q (err s e) = I s
Stays I Q fault = ⊥

module _ {S A : Type 0} (I : S → Type 0) where
  pub Keeps-intro : (r : Outcome S A) → Stays I (λ s _. I s) r → Keeps I r
  Keeps-intro (ok s a) h = kept h
  Keeps-intro (err s e) h = stopped h
  Keeps-intro fault h = absurd h

  pub Ensures-intro : (Q : S → A → Type 0) (r : Outcome S A) → Stays I Q r → Ensures I Q r
  Ensures-intro Q (ok s a) h = returned h
  Ensures-intro Q (err s e) h = failed h
  Ensures-intro Q fault h = absurd h

  pub Keeps-elim : (r : Outcome S A) → Keeps I r → Stays I (λ s _. I s) r
  Keeps-elim r (kept h) = h
  Keeps-elim r (stopped h) = h

  pub Ensures-elim : (Q : S → A → Type 0) (r : Outcome S A) → Ensures I Q r → Stays I Q r
  Ensures-elim Q r (returned h) = h
  Ensures-elim Q r (failed h) = h

module _ {S A B : Type 0} {I : S → Type 0} where
  pub Keeps-bind :
      {r : Outcome S A} {f : A → M S B}
      → Keeps I r
      → ((s : S) (a : A) → I s → Keeps I (f a s))
      → Keeps I (elim r [ ok s' a ↦ f a s' | err s' e ↦ err s' e | fault ↦ fault ])
  Keeps-bind (kept {s} {a} h) k = k s a h
  Keeps-bind (stopped h) k = stopped h

  pub Ensures-bind :
      {Q : S → A → Type 0} {r : Outcome S A} {f : A → M S B}
      → Ensures I Q r
      → ((s : S) (a : A) → Q s a → Keeps I (f a s))
      → Keeps I (elim r [ ok s' a ↦ f a s' | err s' e ↦ err s' e | fault ↦ fault ])
  Ensures-bind (returned {s} {a} h) k = k s a h
  Ensures-bind (failed h) k = stopped h

  pub Ensures-seq :
      {Q : S → A → Type 0} {R : S → B → Type 0} {r : Outcome S A} {f : A → M S B}
      → Ensures I Q r
      → ((s : S) (a : A) → Q s a → Ensures I R (f a s))
      → Ensures I R (elim r [ ok s' a ↦ f a s' | err s' e ↦ err s' e | fault ↦ fault ])
  Ensures-seq (returned {s} {a} h) k = k s a h
  Ensures-seq (failed h) k = failed h

  pub Keeps-seq :
      {R : S → B → Type 0} {r : Outcome S A} {f : A → M S B}
      → Keeps I r
      → ((s : S) (a : A) → I s → Ensures I R (f a s))
      → Ensures I R (elim r [ ok s' a ↦ f a s' | err s' e ↦ err s' e | fault ↦ fault ])
  Keeps-seq (kept {s} {a} h) k = k s a h
  Keeps-seq (stopped h) k = failed h

module _ {S T A : Type 0} {I : S → Type 0} {J : T → Type 0} (put : T → S) where
  pub Keeps-zoom :
      {r : Outcome T A}
      → Keeps J r
      → ((t : T) → J t → I (put t))
      → Keeps I (elim r [ ok t a ↦ ok (put t) a | err t e ↦ err (put t) e | fault ↦ fault ])
  Keeps-zoom (kept {s = t} h) k = kept (k t h)
  Keeps-zoom (stopped {s = t} h) k = stopped (k t h)

  pub Ensures-zoom :
      {Q : T → A → Type 0} {R : S → A → Type 0} {r : Outcome T A}
      → Ensures J Q r
      → ((t : T) → J t → I (put t))
      → ((t : T) (a : A) → Q t a → R (put t) a)
      → Ensures I R (elim r [ ok t a ↦ ok (put t) a | err t e ↦ err (put t) e | fault ↦ fault ])
  Ensures-zoom (returned {s = t} {a} h) k l = returned (l t a h)
  Ensures-zoom (failed {s = t} h) k l = failed (k t h)

pub refuse_if-false :
    {S : Type 0} {I : S → Type 0} (b : Bool) (e : Error) (s : S)
    → I s
    → Ensures I (λ t _. I t × (b ≡ false)) (refuse_if b e s)
unfolding refuse_if
refuse_if-false true e s h = failed h
refuse_if-false false e s h = returned (h, refl)

module _ {S A : Type 0} {I : S → Type 0} where
  pub Keeps-if :
      (f g : M S A) (s : S) (b : Bool)
      → (b ≡ true → Keeps I (f s))
      → (b ≡ false → Keeps I (g s))
      → Keeps I ((if b then f else g) s)
  Keeps-if f g s true h k = h refl
  Keeps-if f g s false h k = k refl

  -- The test chooses between outcomes.
  pub Keeps-choice :
      (b : Bool) {f g : Outcome S A}
      → (b ≡ true → Keeps I f)
      → (b ≡ false → Keeps I g)
      → Keeps I (if b then f else g)
  Keeps-choice true h k = h refl
  Keeps-choice false h k = k refl

  pub Ensures-if :
      {Q : S → A → Type 0} (f g : M S A) (s : S) (b : Bool)
      → (b ≡ true → Ensures I Q (f s))
      → (b ≡ false → Ensures I Q (g s))
      → Ensures I Q ((if b then f else g) s)
  Ensures-if f g s true h k = h refl
  Ensures-if f g s false h k = k refl

  pub Ensures-choice :
      {Q : S → A → Type 0} (b : Bool) {f g : Outcome S A}
      → (b ≡ true → Ensures I Q f)
      → (b ≡ false → Ensures I Q g)
      → Ensures I Q (if b then f else g)
  Ensures-choice true h k = h refl
  Ensures-choice false h k = k refl

  -- A last step whose result is passed on.
  pub Ensures-weaken :
      {Q R : S → A → Type 0} {r : Outcome S A}
      → Ensures I Q r
      → ((s : S) (a : A) → Q s a → R s a)
      → Ensures I R r
  Ensures-weaken (returned {s} {a} h) k = returned (k s a h)
  Ensures-weaken (failed h) k = failed h

pub Ensures-map :
    {S A : Type 0} {I J : S → Type 0} {Q R : S → A → Type 0} {r : Outcome S A}
    → Ensures I Q r
    → ((s : S) → I s → J s)
    → ((s : S) (a : A) → Q s a → R s a)
    → Ensures J R r
Ensures-map (returned {s} {a} h) j k = returned (k s a h)
Ensures-map (failed {s} h) j k = failed (j s h)

module _ {S : Type 0} {I : S → Type 0} where
  pub refuse_if-Keeps : (b : Bool) (e : Error) (s : S) → I s → Keeps I (refuse_if b e s)
  unfolding refuse_if
  refuse_if-Keeps true e s h = stopped h
  refuse_if-Keeps false e s h = kept h

  pub require-Ensures : (b : Bool) (s : S) → b ≡ true → I s → Ensures I (λ t _. I t) (require b s)
  unfolding require
  require-Ensures true s e h = returned h
  require-Ensures false s e h = absurd (false≢true e)

-- Equations of runs, step by step.
pub ok-bind :
    {S A B : Type 0} {r : Outcome S A} (f : A → M S B) {s : S} {a : A} {out : Outcome S B}
    → r ≡ ok s a
    → f a s ≡ out
    → elim r [ ok s' a ↦ f a s' | err s' e ↦ err s' e | fault ↦ fault ] ≡ out
ok-bind f e h = ap (λ o. elim o [ ok s' a ↦ f a s' | err s' e ↦ err s' e | fault ↦ fault ]) e ∙ h

pub ok-zoom :
    {S T A : Type 0} {r : Outcome T A} (put : T → S) {t : T} {a : A}
    → r ≡ ok t a
    → elim r [ ok t a ↦ ok (put t) a | err t e ↦ err (put t) e | fault ↦ fault ] ≡ ok (put t) a
ok-zoom put e =
    ap (λ o. elim o [ ok t a ↦ ok (put t) a | err t e ↦ err (put t) e | fault ↦ fault ]) e

pub choose :
    {S A : Type 0} (f g : M S A) (s : S) (b : Bool) {out : Outcome S A}
    → (b ≡ true → f s ≡ out)
    → (b ≡ false → g s ≡ out)
    → (if b then f else g) s ≡ out
choose f g s true h k = h refl
choose f g s false h k = k refl
