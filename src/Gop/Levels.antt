-- ===== src/Gop/Levels.antt =====
-- The frames of the two configurations that `InterConfig::new` makes, one by one: with and without
-- re-ordering.
use rav1e.Prelude.{
  ℕ, zero, suc, ◌+◌, ◌-◌, ◌*◌, ◌/◌, ◌^◌, ◌<◌, ◌≡◌, refl, ◌⊎◌, arith, Bool, true, false, ltb, leb,
  ◌==◌, if◌then◌else◌, List, Option, none, some,
}
use rav1e.Gop.Config.{
  EncoderConfig, InterConfig, new, is_switch_valid, get_idx_in_group_output, get_order_hint,
  get_input_frameno,
}
use rav1e.Gop.Inter.{ReferenceFrame, inter_frame, new_inter_frame}

-- With re-ordering: groups of four input frames in six output frames.
abbrev pub pyramid : InterConfig
pyramid = record {
  reorder = true;
  multiref = true;
  pyramid_depth = 2;
  group_input_len = 4;
  group_output_len = 6;
  switch_frame_interval = 0;
}

abbrev pub flat : Bool → ℕ → InterConfig
flat m interval = record {
  reorder = false;
  multiref = m;
  pyramid_depth = 0;
  group_input_len = 1;
  group_output_len = 1;
  switch_frame_interval = interval;
}

-- The configurations of a valid encoder.
pub new_cases :
    (e : EncoderConfig) (c : InterConfig)
    → is_switch_valid e ≡ true
    → new e ≡ some c
    → (c ≡ pyramid) ⊎ (c ≡ flat e.multiref e.switch_frame_interval)
unfolding new is_switch_valid
new_cases e c v h = ground arith

-- A frame of which the place in its group and the order hint are known.
pub new_inter_frame_at :
    (c : InterConfig) (start n limit : ℕ) (resilient : Bool) (frames : List (Option ReferenceFrame))
    (idx hint : ℕ)
    → 0 < n
    → get_idx_in_group_output c n ≡ idx
    → get_order_hint c n idx ≡ hint
    → new_inter_frame c start n limit resilient frames ≡ (
        if leb limit (start + hint)
        then none
        else some (inter_frame c resilient (start + hint) n idx hint frames))
unfolding new_inter_frame get_input_frameno
new_inter_frame_at c start zero limit resilient frames idx hint p i o = absurd (omega arith)
new_inter_frame_at c start (suc n) limit resilient frames idx hint p i o =
    let later : (suc n == 0) ≡ false = ground arith in rw (later, i, o) refl

-- The order hint of the frame at place `r` of group `k`.
abbrev pub hint_at : ℕ → ℕ → ℕ
hint_at k r = 4 * k + (if ltb r 2 then 4 / 2 ^ r else r - 2 + 1)

module _ (n k r : ℕ) (at : n ≡ 6 * k + r + 1) (h : r < 6) where
  pub pyramid_idx : get_idx_in_group_output pyramid n ≡ r
  unfolding get_idx_in_group_output
  pyramid_idx = omega (arith, at)

  pub pyramid_hint : hint_at k r < 2 ^ 32 → get_order_hint pyramid n r ≡ hint_at k r
  unfolding get_order_hint
  pyramid_hint b = let group : (n - 1) / 6 ≡ k = omega (arith, at) in rw group (omega (arith, b))

module _ (m : Bool) (interval n : ℕ) where
  pub flat_idx : get_idx_in_group_output (flat m interval) (n + 1) ≡ 0
  unfolding get_idx_in_group_output
  flat_idx = omega arith

  pub flat_hint : n + 1 < 2 ^ 32 → get_order_hint (flat m interval) (n + 1) 0 ≡ n + 1
  unfolding get_order_hint
  flat_hint b = omega arith
