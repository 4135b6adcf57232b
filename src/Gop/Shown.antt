-- ===== src/Gop/Shown.antt =====
-- Which input frames the output frames of a group of pictures show: src/api/internal.rs.
use rav1e.Prelude.{
  ℕ, zero, suc, ◌+◌, ◌-◌, ◌*◌, ◌^◌, ◌<◌, min, ◌≡◌, refl, ap, ap₂, sym, subst, ◌∙◌, inl, inr, arith,
  Bool, true, false, leb, if◌then◌else◌, Bool-cases, List, [], ◌∷◌, ◌++◌, append_assoc, Option,
  none, some,
}
use native.Mathlib.Nat.{add-zero, zero-add, suc-add}
use rav1e.Gop.Config.{
  EncoderConfig, InterConfig, new, is_switch_valid, get_idx_in_group_output, get_order_hint,
  get_show_frame,
}
use rav1e.Gop.Inter.{FrameInvariants, inter_frame, new_inter_frame, buffer_after}
use rav1e.Gop.Levels.{
  pyramid, flat, new_cases, new_inter_frame_at, hint_at, pyramid_idx, pyramid_hint, flat_idx,
  flat_hint,
}

-- The input frame that a packet shows, if it shows one.
unfoldable pub shown_by : Option FrameInvariants → List ℕ
shown_by none = []
shown_by (some fi) = if fi.show_frame then fi.input_frameno ∷ [] else []

-- `(lo..lo + n).flat_map(f)`
unfoldable pub gather {ℓ} : {A : Type ℓ} → (ℕ → List A) → ℕ → ℕ → List A
gather f lo zero = []
gather f lo (suc n) = f lo ++ gather f (lo + 1) n

gather-add {ℓ} :
    {A : Type ℓ} (f : ℕ → List A) (lo n m : ℕ)
    → gather f lo (n + m) ≡ gather f lo n ++ gather f (lo + n) m
unfolding gather
gather-add f lo zero m = rw (zero-add, add-zero) refl
gather-add f lo (suc n) m =
    let step : lo + 1 + n ≡ lo + suc n = omega arith in
    rw (suc-add, gather-add f (lo + 1) n m, step) (sym (append_assoc (f lo) _ _))

abbrev pub count_from : ℕ → ℕ → List ℕ
count_from lo zero = []
count_from lo (suc n) = lo ∷ count_from (lo + 1) n

-- A number, if it is below the limit.
abbrev below : ℕ → ℕ → List ℕ
below limit x = if leb limit x then [] else x ∷ []

gather-below : (limit lo n : ℕ) → gather (below limit) lo n ≡ count_from lo (min n (limit - lo))
unfolding gather
gather-below limit lo zero =
    let none_left : min 0 (limit - lo) ≡ 0 = omega arith in rw none_left refl
gather-below limit lo (suc n) = elim (Bool-cases (leb limit lo)) [
  | inl out ↦
      let none_left : min (suc n) (limit - lo) ≡ 0 = ground arith in
      let later : min n (limit - (lo + 1)) ≡ 0 = ground arith in
      rw (out, gather-below limit (lo + 1) n, none_left, later) refl
  | inr in_range ↦
      let left : min (suc n) (limit - lo) ≡ suc (min n (limit - (lo + 1))) = ground arith in
      rw (in_range, gather-below limit (lo + 1) n, left) refl
]

module _ (c : InterConfig) (resilient : Bool) (first start limit : ℕ) where
  -- What output frame `i + 1` of the group shows.
  unfoldable pub shown_at : ℕ → List ℕ
  shown_at i = shown_by (
      new_inter_frame c start (i + 1) limit resilient
        (buffer_after c resilient first start limit i))

  -- What the first `n` inter frames of the group show, in the order of the stream.
  unfoldable pub displayed : ℕ → List ℕ
  displayed n = gather shown_at 0 n

shown_by_choose :
    (out : Bool) (fi : FrameInvariants)
    → shown_by (if out then none else some fi)
      ≡ (if fi.show_frame then if out then [] else fi.input_frameno ∷ [] else [])
unfolding shown_by
shown_by_choose true fi = elim (Bool-cases fi.show_frame) [ inl e ↦ rw e refl | inr e ↦ rw e refl ]
shown_by_choose false fi = refl

module _ (resilient : Bool) (first start limit : ℕ) where
  shown_at_place :
      (c : InterConfig) (i idx hint : ℕ)
      → get_idx_in_group_output c (i + 1) ≡ idx
      → get_order_hint c (i + 1) idx ≡ hint
      → shown_at c resilient first start limit i
        ≡ (if get_show_frame c idx then below limit (start + hint) else [])
  unfolding shown_at inter_frame
  shown_at_place c i idx hint p o =
      let frames = buffer_after c resilient first start limit i in
      ap shown_by
        (new_inter_frame_at c start (i + 1) limit resilient frames idx hint (omega arith) p o)
      ∙ shown_by_choose (leb limit (start + hint))
          (inter_frame c resilient (start + hint) (i + 1) idx hint frames)

  pyramid_shown :
      (k r i : ℕ)
      → i ≡ 6 * k + r
      → r < 6
      → hint_at k r < 2 ^ 32
      → shown_at pyramid resilient first start limit i
        ≡ (if get_show_frame pyramid r then below limit (start + hint_at k r) else [])
  pyramid_shown k r i at h b =
      let place : i + 1 ≡ 6 * k + r + 1 = omega (arith, at) in
      shown_at_place pyramid i r (hint_at k r) (pyramid_idx (i + 1) k r place h)
        (pyramid_hint (i + 1) k r place h b)

  visible :
      (k j i x : ℕ)
      → j < 4
      → 4 * k + 4 < 2 ^ 32
      → i ≡ 6 * k + 2 + j
      → x ≡ start + 1 + 4 * k + j
      → shown_at pyramid resilient first start limit i ≡ below limit x
  unfolding get_show_frame
  visible k j i x h b at e =
      let shows : leb 2 (2 + j) ≡ true = ground arith in
      let hint : start + hint_at k (2 + j) ≡ x = ground (arith, e) in
      pyramid_shown k (2 + j) i (omega (arith, at)) (omega (arith, h)) (ground (arith, b, h))
      ∙ rw (shows, hint) refl

  group_shown :
      (k : ℕ)
      → 4 * k + 4 < 2 ^ 32
      → gather (shown_at pyramid resilient first start limit) (6 * k) 6
        ≡ gather (below limit) (start + 1 + 4 * k) 4
  unfolding gather get_show_frame
  group_shown k b =
      let x = start + 1 + 4 * k in
      rw
        (
          pyramid_shown k 0 (6 * k) (omega arith) (omega arith) (omega (arith, b)),
          pyramid_shown k 1 (6 * k + 1) (omega arith) (omega arith) (omega (arith, b)),
        )
        (rw
          (
            visible k 0 (6 * k + 1 + 1) x (omega arith) b (omega arith) (omega arith),
            visible k 1 (6 * k + 1 + 1 + 1) (x + 1) (omega arith) b (omega arith) (omega arith),
            visible k 2 (6 * k + 1 + 1 + 1 + 1) (x + 1 + 1) (omega arith) b (omega arith)
                (omega arith),
            visible k 3 (6 * k + 1 + 1 + 1 + 1 + 1) (x + 1 + 1 + 1) (omega arith) b (omega arith)
                (omega arith),
          )
          refl)

  whole_groups_shown :
      (k : ℕ)
      → 4 * k < 2 ^ 32
      → displayed pyramid resilient first start limit (6 * k)
        ≡ gather (below limit) (start + 1) (4 * k)
  unfolding displayed gather
  whole_groups_shown zero b = refl
  whole_groups_shown (suc k) b =
      let frames = shown_at pyramid resilient first start limit in
      let outputs : 6 * suc k ≡ 6 * k + 6 = omega arith in
      let inputs : 4 * suc k ≡ 4 * k + 4 = omega arith in
      rw
        (
          outputs,
          inputs,
          gather-add frames 0 (6 * k) 6,
          gather-add (below limit) (start + 1) (4 * k) 4,
          zero-add,
        )
        (ap₂ (λ xs ys. xs ++ ys) (whole_groups_shown k (omega (arith, b)))
          (group_shown k (omega (arith, b))))

  flat_shown :
      (m : Bool) (interval k i x : ℕ)
      → i + k < 2 ^ 32
      → x ≡ start + 1 + i
      → gather (shown_at (flat m interval) resilient first start limit) i k
        ≡ gather (below limit) x k
  unfolding gather get_show_frame
  flat_shown m interval zero i x b e = refl
  flat_shown m interval (suc k) i x b e =
      let number : start + (i + 1) ≡ x = omega (arith, e) in
      ap₂ (λ xs ys. xs ++ ys)
        (shown_at_place (flat m interval) i 0 (i + 1) (flat_idx m interval i)
            (flat_hint m interval i (omega (arith, b)))
          ∙ rw number refl)
        (flat_shown m interval k (i + 1) (x + 1) (omega (arith, b)) (omega (arith, e)))

-- For an encoder whose switch frame interval is valid and of which `InterConfig::new` makes a
-- configuration, the output frames of the first k whole groups behind a key frame show the
-- input frames that follow it, each once and in their order, as far as these come before the
-- next key frame. The input frames of the groups number less than 2 ^ 32.
pub displayed_in_order :
    (e : EncoderConfig) (c : InterConfig) (first start limit k : ℕ)
    → is_switch_valid e ≡ true
    → new e ≡ some c
    → c.group_input_len * k < 2 ^ 32
    → displayed c e.error_resilient first start limit (c.group_output_len * k)
      ≡ count_from (start + 1) (min (c.group_input_len * k) (limit - (start + 1)))
unfolding displayed
displayed_in_order e c first start limit k v n b =
    let Goal = λ (c : InterConfig).
      c.group_input_len * k < 2 ^ 32
      → displayed c e.error_resilient first start limit (c.group_output_len * k)
        ≡ count_from (start + 1) (min (c.group_input_len * k) (limit - (start + 1))) in
    elim (new_cases e c v n) [
      | inl is ↦
          subst Goal (sym is)
            (λ b.
              whole_groups_shown e.error_resilient first start limit k b
              ∙ gather-below limit (start + 1) (4 * k))
            b
      | inr is ↦
          subst Goal (sym is)
            (λ b.
              flat_shown e.error_resilient first start limit e.multiref e.switch_frame_interval
                (1 * k) 0 (start + 1) (omega (arith, b)) (omega arith)
              ∙ gather-below limit (start + 1) (1 * k))
            b
    ]
