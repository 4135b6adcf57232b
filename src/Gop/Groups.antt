-- ===== src/Gop/Groups.antt =====
-- What the slots hold within a group of re-ordered frames: src/api/internal.rs, src/encoder.rs.
use rav1e.Prelude.{
  ℕ, zero, suc, ◌+◌, ◌*◌, ◌/◌, ◌%◌, ◌^◌, ◌≤◌, ◌<◌, ◌≡◌, ◌≢◌, refl, ap, ◌∙◌, arith, Bool, true,
  false, ◌==◌, List, length, Option, some,
}
use rav1e.Prelude.Bits.{and_three}
use rav1e.Gop.Config.{
  get_slot_idx, count_ones, pos_to_lvl, trailing_zeros, get_level, get_show_frame,
  get_show_existing_frame,
}
use rav1e.Gop.Inter.{
  ReferenceFrame, FrameInvariants, is_show_existing_frame, inter_frame, passed_on, frame_type_of,
  is_switch,
}
use rav1e.Gop.Levels.{pyramid, hint_at}
use rav1e.Gop.Slots.{hint_in, length-passed_on, hint_in-passed_on}

pub level_zero_slot : (k : ℕ) → get_slot_idx pyramid 0 (4 * k + 4) ≡ (k + 1) % 4
unfolding get_slot_idx
level_zero_slot k = and_three ((4 * k + 4) / 2 ^ 2) ∙ omega arith

module _ (start limit : ℕ) where
  -- Before frame `r` of group `k`: the frame that ends the group before, the one that ends this
  -- group, and the one in its middle.
  pub record Within (k r : ℕ) (frames : List (Option ReferenceFrame)) : Type 0 where
    pub size : length frames ≡ 8
    pub base : hint_in frames (k % 4) ≡ some (4 * k)
    pub top : 0 < r → start + 4 * k + 4 < limit → hint_in frames ((k + 1) % 4) ≡ some (4 * k + 4)
    pub mid : 1 < r → start + 4 * k + 2 < limit → hint_in frames 4 ≡ some (4 * k + 2)

  Within-later :
      (k r : ℕ) (frames : List (Option ReferenceFrame))
      → 1 < r
      → Within k r frames
      → Within k (r + 1) frames
  Within-later k r frames h w = record {
    size = w.size;
    base = w.base;
    top = λ _. w.top (omega (arith, h));
    mid = λ _. w.mid h;
  }

  -- A frame at or behind the limit is left out.
  pub Within-skipped :
      (k r : ℕ) (frames : List (Option ReferenceFrame))
      → limit ≤ start + hint_at k r
      → Within k r frames
      → Within k (r + 1) frames
  Within-skipped k zero frames h w = record {
    size = w.size;
    base = w.base;
    top = λ _ l. absurd (omega (arith, h, l));
    mid = λ l. absurd (omega (arith, l));
  }
  Within-skipped k (suc zero) frames h w = record {
    size = w.size;
    base = w.base;
    top = λ _. w.top (omega arith);
    mid = λ _ l. absurd (omega (arith, h, l));
  }
  Within-skipped k (suc (suc r)) frames h w = Within-later k (suc (suc r)) frames (omega arith) w

  -- A slot after a frame was coded into slot `s`.
  module _ (n s : ℕ) (fi : FrameInvariants) (small : s < 8) (size : length fi.rec_buffer ≡ 8)
      (coded : is_show_existing_frame fi ≡ false) (flags : fi.refresh_frame_flags ≡ 2 ^ s) where
    kept_slot :
        (j : ℕ)
        → j < 8
        → s ≢ j
        → hint_in (passed_on n (some fi) fi.rec_buffer) j ≡ hint_in fi.rec_buffer j
    kept_slot j h ne =
        let other : (s == j) ≡ false = ground (arith, ne) in
        hint_in-passed_on n s fi small j h size coded flags ∙ rw other refl

    pub new_slot :
        (j : ℕ) → s ≡ j → hint_in (passed_on n (some fi) fi.rec_buffer) j ≡ some fi.order_hint
    new_slot j e =
        let same : (s == j) ≡ true = ground (arith, e) in
        hint_in-passed_on n s fi small j (omega (arith, e, small)) size coded flags ∙ rw same refl

  module _ (resilient : Bool) (k n out : ℕ) (frames : List (Option ReferenceFrame)) where
    abbrev frame_at : ℕ → FrameInvariants
    frame_at r = inter_frame pyramid resilient (start + hint_at k r) n r (hint_at k r) frames

    last_frame_coded : Within k 0 frames → Within k 1 (passed_on out (some (frame_at 0)) frames)
    unfolding inter_frame get_level get_show_existing_frame get_show_frame frame_type_of is_switch
        is_show_existing_frame
    last_frame_coded w =
        let fi = frame_at 0 in
        let s = (k + 1) % 4 in
        let flags : fi.refresh_frame_flags ≡ 2 ^ s = ap (λ (t : ℕ). 2 ^ t) (level_zero_slot k) in
        let kept = kept_slot out s fi (omega arith) w.size refl flags in
        record {
          size = length-passed_on out s fi (omega arith) w.size refl;
          base = kept (k % 4) (omega arith) (omega arith) ∙ w.base;
          top = λ _ _. new_slot out s fi (omega arith) w.size refl flags s refl;
          mid = λ l. absurd (omega (arith, l));
        }

    middle_frame_coded : Within k 1 frames → Within k 2 (passed_on out (some (frame_at 1)) frames)
    unfolding inter_frame get_level get_show_existing_frame get_show_frame frame_type_of is_switch
        is_show_existing_frame get_slot_idx
    middle_frame_coded w =
        let fi = frame_at 1 in
        let kept = kept_slot out 4 fi (omega arith) w.size refl refl in
        record {
          size = length-passed_on out 4 fi (omega arith) w.size refl;
          base = kept (k % 4) (omega arith) (omega arith) ∙ w.base;
          top = λ _ l. kept ((k + 1) % 4) (omega arith) (omega arith) ∙ w.top (omega arith) l;
          mid = λ _ _. new_slot out 4 fi (omega arith) w.size refl refl 4 refl;
        }

    -- A frame of the highest level has a slot that holds none of the three.
    top_level_coded :
        (r : ℕ)
        → 1 < r
        → is_show_existing_frame (frame_at r) ≡ false
        → (frame_at r).refresh_frame_flags ≡ 2 ^ 5
        → Within k r frames
        → Within k (r + 1) (passed_on out (some (frame_at r)) frames)
    unfolding inter_frame
    top_level_coded r h coded flags w =
        let fi = frame_at r in
        let kept = kept_slot out 5 fi (omega arith) w.size coded flags in
        record {
          size = length-passed_on out 5 fi (omega arith) w.size coded;
          base = kept (k % 4) (omega arith) (omega arith) ∙ w.base;
          top = λ _ l. kept ((k + 1) % 4) (omega arith) (omega arith) ∙ w.top (omega (arith, h)) l;
          mid = λ _ l. kept 4 (omega arith) (omega arith) ∙ w.mid h l;
        }

    pub Within-coded :
        (r : ℕ)
        → r < 6
        → Within k r frames
        → Within k (r + 1) (passed_on out (some (frame_at r)) frames)
    unfolding inter_frame get_level get_show_existing_frame get_show_frame frame_type_of is_switch
        is_show_existing_frame get_slot_idx passed_on count_ones pos_to_lvl trailing_zeros
    Within-coded zero h w = last_frame_coded w
    Within-coded (suc zero) h w = middle_frame_coded w
    Within-coded (suc (suc zero)) h w = top_level_coded 2 (omega arith) refl refl w
    Within-coded (suc (suc (suc zero))) h w = Within-later k 3 frames (omega arith) w
    Within-coded (suc (suc (suc (suc zero)))) h w = top_level_coded 4 (omega arith) refl refl w
    Within-coded (suc (suc (suc (suc (suc zero))))) h w = Within-later k 5 frames (omega arith) w
    Within-coded (suc (suc (suc (suc (suc (suc r)))))) h w = absurd (omega (arith, h))
