-- ===== src/Gop/Places.antt =====
-- The frames that a frame at a known place of its group shows or refers to: src/encoder.rs.
use rav1e.Prelude.{
  ℕ, zero, suc, ◌+◌, ◌-◌, ◌*◌, ◌/◌, ◌%◌, ◌^◌, ◌<◌, ◌≡◌, ap, sym, ◌∙◌, arith, Bool, true, false,
  false≢true, leb, if◌then◌else◌, List, Option, none, some, get_elem?,
}
use rav1e.Gop.Config.{
  get_slot_idx, count_ones, pos_to_lvl, trailing_zeros, get_level, get_show_frame,
  get_show_existing_frame, to_index,
}
use rav1e.Gop.Inter.{
  ReferenceFrame, FrameInvariants, is_show_existing_frame, inter_frame, set_ref, ref_frames_of,
}
use rav1e.Gop.Levels.{pyramid, hint_at}
use rav1e.Gop.Slots.{hint_in}
use rav1e.Gop.Pyramid.{lower_slot-zero, lower_slot-one}
use rav1e.Gop.Groups.{Within, level_zero_slot}

-- The order hint of the frame that a frame refers to by an index of its references.
abbrev pub reference : FrameInvariants → ℕ → Option ℕ
reference fi i = elim (get_elem? fi.ref_frames i) [ none ↦ none | some s ↦ hint_in fi.rec_buffer s ]

pub frame_is :
    (limit x : ℕ) (fi frame : FrameInvariants)
    → (if leb limit x then none else some frame) ≡ some fi
    → (x < limit) × (frame ≡ fi)
frame_is limit x fi frame h = ground arith

module _ (limit start : ℕ) (resilient : Bool) (k n : ℕ) (frames : List (Option ReferenceFrame))
    (b : 4 * k + 4 < 2 ^ 32) where
  abbrev pub frame_at : ℕ → FrameInvariants
  frame_at r = inter_frame pyramid resilient (start + hint_at k r) n r (hint_at k r) frames

  pub existing :
      (r : ℕ)
      → r < 6
      → Within start limit k r frames
      → start + hint_at k r < limit
      → is_show_existing_frame (frame_at r) ≡ true
      → hint_in frames (frame_at r).frame_to_show_map_idx ≡ some (hint_at k r)
  unfolding inter_frame get_level get_show_existing_frame get_show_frame is_show_existing_frame
      get_slot_idx count_ones pos_to_lvl trailing_zeros
  existing zero h w l s = absurd (false≢true s)
  existing (suc zero) h w l s = absurd (false≢true s)
  existing (suc (suc zero)) h w l s = absurd (false≢true s)
  existing (suc (suc (suc zero))) h w l s = w.mid (omega arith) (omega (arith, l))
  existing (suc (suc (suc (suc zero)))) h w l s = absurd (false≢true s)
  existing (suc (suc (suc (suc (suc zero))))) h w l s =
      ap (hint_in frames) (level_zero_slot k) ∙ w.top (omega arith) (omega (arith, l))
  existing (suc (suc (suc (suc (suc (suc r)))))) h w l s = absurd (omega (arith, h))

  -- The slot that holds an order hint.
  found :
      (slot s hint hint' : ℕ)
      → slot ≡ s
      → hint ≡ hint'
      → hint_in frames s ≡ some hint
      → hint_in frames slot ≡ some hint'
  found slot s hint hint' e e' h = rw (e, sym e') h

  pub backward :
      (r : ℕ)
      → r < 6
      → Within start limit k r frames
      → start + hint_at k r < limit
      → is_show_existing_frame (frame_at r) ≡ false
      → reference (frame_at r) 0 ≡ some (hint_at k r - 4 / 2 ^ (frame_at r).pyramid_level)
  unfolding inter_frame get_level get_show_existing_frame get_show_frame is_show_existing_frame
      count_ones pos_to_lvl trailing_zeros ref_frames_of set_ref to_index
  backward zero h w l s =
      found _ (k % 4) (4 * k) _
        (ap (λ (t : ℕ). (t + 4 - 1) % 256 % 4) (level_zero_slot k) ∙ omega arith) (omega arith)
        w.base
  backward (suc zero) h w l s =
      found _ (k % 4) (4 * k) _ (lower_slot-zero k _ (omega (arith, b))) (omega arith) w.base
  backward (suc (suc zero)) h w l s =
      found _ (k % 4) (4 * k) _ (lower_slot-zero k _ (omega (arith, b))) (omega arith) w.base
  backward (suc (suc (suc zero))) h w l s = absurd (false≢true (sym s))
  backward (suc (suc (suc (suc zero)))) h w l s =
      found _ 4 (4 * k + 2) _ (lower_slot-one k _ (omega (arith, b))) (omega arith)
        (w.mid (omega arith) (omega (arith, l)))
  backward (suc (suc (suc (suc (suc zero))))) h w l s = absurd (false≢true (sym s))
  backward (suc (suc (suc (suc (suc (suc r)))))) h w l s = absurd (omega (arith, h))

  pub forward :
      (r : ℕ)
      → r < 6
      → Within start limit k r frames
      → is_show_existing_frame (frame_at r) ≡ false
      → 0 < (frame_at r).pyramid_level
      → start + (hint_at k r + 4 / 2 ^ (frame_at r).pyramid_level) < limit
      → reference (frame_at r) 6 ≡ some (hint_at k r + 4 / 2 ^ (frame_at r).pyramid_level)
  unfolding inter_frame get_level get_show_existing_frame get_show_frame is_show_existing_frame
      count_ones pos_to_lvl trailing_zeros ref_frames_of set_ref to_index
  forward zero h w s p l = absurd (omega (arith, p))
  forward (suc zero) h w s p l =
      found _ ((k + 1) % 4) (4 * k + 4) _ (lower_slot-zero (k + 1) _ (omega (arith, b)))
        (omega arith) (w.top (omega arith) (omega (arith, l)))
  forward (suc (suc zero)) h w s p l =
      found _ 4 (4 * k + 2) _ (lower_slot-one k _ (omega (arith, b))) (omega arith)
        (w.mid (omega arith) (omega (arith, l)))
  forward (suc (suc (suc zero))) h w s p l = absurd (false≢true (sym s))
  forward (suc (suc (suc (suc zero)))) h w s p l =
      found _ ((k + 1) % 4) (4 * k + 4) _ (lower_slot-zero (k + 1) _ (omega (arith, b)))
        (omega arith) (w.top (omega arith) (omega (arith, l)))
  forward (suc (suc (suc (suc (suc zero))))) h w s p l = absurd (false≢true (sym s))
  forward (suc (suc (suc (suc (suc (suc r)))))) h w s p l = absurd (omega (arith, h))
