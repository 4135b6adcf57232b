-- ===== src/Gop/Slots.antt =====
-- The slots of the buffer of references, and what a refresh leaves in them: src/encoder.rs.
use rav1e.Prelude.{
  ℕ, zero, suc, ◌+◌, ◌^◌, ◌<◌, bit_and, ◌≡◌, refl, ap, ◌∙◌, inl, inr, arith, Bool, true, false, not,
  ◌&&◌, ◌==◌, if◌then◌else◌, Bool-cases, List, [], ◌∷◌, length, Option, none, some,
}
use native.Mathlib.Nat.{add-zero, zero-add}
use rav1e.Gop.Inter.{
  ReferenceFrame, FrameInvariants, is_show_existing_frame, all_ref_frames_mask, refresh,
  update_rec_buffer, passed_on,
}

-- The order hint of the frame in a slot.
abbrev hint_of : Option ReferenceFrame → Option ℕ
hint_of none = none
hint_of (some f) = some f.order_hint

abbrev pub hint_in : List (Option ReferenceFrame) → ℕ → Option ℕ
hint_in [] s = none
hint_in (f ∷ fs) zero = hint_of f
hint_in (f ∷ fs) (suc s) = hint_in fs s

pub length-refresh :
    (flags i : ℕ) (rfs : ReferenceFrame) (fs : List (Option ReferenceFrame))
    → length (refresh flags i rfs fs) ≡ length fs
unfolding refresh
length-refresh flags i rfs [] = refl
length-refresh flags i rfs (f ∷ fs) = ap suc (length-refresh flags (i + 1) rfs fs)

hint_in-refresh :
    (flags i : ℕ) (rfs : ReferenceFrame) (fs : List (Option ReferenceFrame)) (s : ℕ)
    → s < length fs
    → hint_in (refresh flags i rfs fs) s
      ≡ (if bit_and flags (2 ^ (i + s)) == 0 then hint_in fs s else some rfs.order_hint)
unfolding refresh
hint_in-refresh flags i rfs [] s h = absurd (omega arith)
hint_in-refresh flags i rfs (f ∷ fs) zero h =
    rw (add-zero i)
      (elim (Bool-cases (bit_and flags (2 ^ i) == 0)) [ inl e ↦ rw e refl | inr e ↦ rw e refl ])
hint_in-refresh flags i rfs (f ∷ fs) (suc s) h =
    let place : i + suc s ≡ i + 1 + s = omega arith in
    rw place (hint_in-refresh flags (i + 1) rfs fs s (omega (arith, h)))

-- A test of all numbers below a bound.
abbrev all_below : ℕ → (ℕ → Bool) → Bool
all_below zero p = true
all_below (suc n) p = let rest = all_below n p in p n && rest

and-left : (a b : Bool) → (a && b) ≡ true → a ≡ true
and-left a b h = ground arith

and-right : (a b : Bool) → (a && b) ≡ true → b ≡ true
and-right a b h = ground arith

all_below-at : (n : ℕ) (p : ℕ → Bool) → all_below n p ≡ true → (i : ℕ) → i < n → p i ≡ true
all_below-at zero p h i lt = absurd (omega arith)
all_below-at (suc n) p h i lt = elim (Bool-cases (i == n)) [
  | inl e ↦ ap p (ground (arith, e)) ∙ and-left (p n) (all_below n p) h
  | inr e ↦ all_below-at n p (and-right (p n) (all_below n p) h) i (ground (arith, e))
]

agree : Bool → Bool → Bool
agree a b = if a then b else not b

agree-≡ : (a b : Bool) → agree a b ≡ true → a ≡ b
unfolding agree
agree-≡ a b h = ground arith

pub bit_of_slot : (s j : ℕ) → s < 8 → j < 8 → (bit_and (2 ^ s) (2 ^ j) == 0) ≡ not (s == j)
unfolding agree
bit_of_slot s j hs hj = agree-≡ _ _ (
    all_below-at 8 (λ j. agree (bit_and (2 ^ s) (2 ^ j) == 0) (not (s == j)))
      (all_below-at 8 (λ s. all_below 8 (λ j. agree (bit_and (2 ^ s) (2 ^ j) == 0) (not (s == j))))
        refl s hs)
      j hj)

pub bit_of_all : (j : ℕ) → j < 8 → (bit_and all_ref_frames_mask (2 ^ j) == 0) ≡ false
unfolding agree
bit_of_all j h =
    agree-≡ _ _
      (all_below-at 8 (λ j. agree (bit_and all_ref_frames_mask (2 ^ j) == 0) false) refl j h)

choose_not {ℓ} : {A : Type ℓ} (b : Bool) (x y : A) → (if not b then x else y) ≡ (if b then y else x)
choose_not true x y = refl
choose_not false x y = refl

-- A frame that is coded into slot `s`.
module _ (n s : ℕ) (fi : FrameInvariants) (small : s < 8) where
  pub length-passed_on :
      length fi.rec_buffer ≡ 8
      → is_show_existing_frame fi ≡ false
      → length (passed_on n (some fi) fi.rec_buffer) ≡ 8
  unfolding passed_on update_rec_buffer
  length-passed_on size coded =
      rw coded (length-refresh fi.refresh_frame_flags 0 _ fi.rec_buffer ∙ size)

  pub hint_in-passed_on :
      (j : ℕ)
      → j < 8
      → length fi.rec_buffer ≡ 8
      → is_show_existing_frame fi ≡ false
      → fi.refresh_frame_flags ≡ 2 ^ s
      → hint_in (passed_on n (some fi) fi.rec_buffer) j
        ≡ (if s == j then some fi.order_hint else hint_in fi.rec_buffer j)
  unfolding passed_on update_rec_buffer
  hint_in-passed_on j h size coded flags = rw coded (
      hint_in-refresh fi.refresh_frame_flags 0 _ fi.rec_buffer j (omega (arith, h, size))
      ∙ rw (flags, zero-add j, bit_of_slot s j small h) (choose_not (s == j) _ _))

  -- A switch frame takes all the slots.
  pub hint_in-passed_on_all :
      (j : ℕ)
      → j < 8
      → length fi.rec_buffer ≡ 8
      → is_show_existing_frame fi ≡ false
      → fi.refresh_frame_flags ≡ all_ref_frames_mask
      → hint_in (passed_on n (some fi) fi.rec_buffer) j ≡ some fi.order_hint
  unfolding passed_on update_rec_buffer
  hint_in-passed_on_all j h size coded flags = rw coded (
      hint_in-refresh fi.refresh_frame_flags 0 _ fi.rec_buffer j (omega (arith, h, size))
      ∙ rw (flags, zero-add j, bit_of_all j h) refl)
