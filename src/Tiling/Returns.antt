-- ===== src/Tiling/Returns.antt =====
-- What the computations of src/tiling/tiler.rs that may panic return.
use rav1e.Prelude.{◌≡◌, refl, subst, Option, none, some}
use rav1e.Tiling.Info.{◌>>=◌}

-- What a computation returns, if it returns.
pub data Returns {ℓ κ} {A : Type ℓ} (P : A → Type κ) : Option A → Type (ℓ ⊔ κ) where
  absent : Returns P none
  present : {a : A} → P a → Returns P (some a)

pub Returns-bind {ℓ κ} :
    {A B : Type ℓ} {P : B → Type κ} {o : Option A} {f : A → Option B}
    → ((a : A) → o ≡ some a → Returns P (f a))
    → Returns P (o >>= f)
unfolding ◌>>=◌
Returns-bind {o = none} k = absent
Returns-bind {o = some a} k = k a refl

pub Returns-some {ℓ κ} :
    {A : Type ℓ} {P : A → Type κ} {o : Option A} {a : A} → Returns P o → o ≡ some a → P a
Returns-some {P} {o} {a} r e = elim (subst (λ o. Returns P o) e r) [ present h ↦ h ]
