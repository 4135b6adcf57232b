-- ===== src/Gop/Examples.antt =====
-- The theorems on groups of pictures at concrete inputs.
use rav1e.Prelude.{ℕ, suc, ◌+◌, ◌-◌, ◌*◌, ◌≡◌, refl, arith, true, false, none, some, [], ◌∷◌}
use rav1e.Gop.Config
use rav1e.Gop.Config.{
  EncoderConfig, is_switch_valid, count_ones, trailing_zeros, pos_to_lvl, get_idx_in_group_output,
  get_order_hint, get_level, get_slot_idx, get_show_frame, get_show_existing_frame,
  get_input_frameno, to_index, keyframe_lookahead_distance, max_reordering_latency,
  allowed_ref_frames, last_frame,
}
use rav1e.Gop.Inter.{
  FrameInvariants, is_show_existing_frame, new_key_frame, inter_frame, new_inter_frame,
  buffer_after,
}
use rav1e.Gop.Levels.{pyramid}
use rav1e.Gop.Shown.{shown_by, gather, shown_at, displayed, displayed_in_order}
use rav1e.Gop.Slots.{hint_in}
use rav1e.Gop.Places.{reference}
use rav1e.Gop.References.{
  hint_in-frame_to_show_map_idx, reference-last_frame, reference-altref_frame,
}

abbrev reordering : EncoderConfig
reordering = record {
  low_latency = false;
  multiref = true;
  switch_frame_interval = 0;
  error_resilient = false;
}

abbrev frame : ℕ → FrameInvariants
frame n =
    elim (new_inter_frame pyramid 0 (suc n) 100 false (buffer_after pyramid false 0 0 100 n)) [
      | none ↦ new_key_frame 0
      | some fi ↦ fi
    ]

-- The order of the comment of `InterConfig::new`.
two_groups : displayed pyramid false 0 0 8 12 ≡ 1 ∷ 2 ∷ 3 ∷ 4 ∷ 5 ∷ 6 ∷ 7 ∷ []
unfolding displayed gather shown_at shown_by new_inter_frame get_input_frameno
    get_idx_in_group_output get_order_hint inter_frame get_show_frame
two_groups = refl

lookahead : keyframe_lookahead_distance pyramid ≡ 5
unfolding keyframe_lookahead_distance max_reordering_latency
lookahead = refl

displayed_in_order_example : displayed pyramid false 0 0 8 (6 * 2) ≡ 1 ∷ 2 ∷ 3 ∷ 4 ∷ 5 ∷ 6 ∷ 7 ∷ []
unfolding is_switch_valid Config.new
displayed_in_order_example = displayed_in_order reordering pyramid 0 0 8 2 refl refl (omega arith)

hint_in-frame_to_show_map_idx_example :
    hint_in (frame 11).rec_buffer (frame 11).frame_to_show_map_idx ≡ some (frame 11).order_hint
unfolding is_switch_valid Config.new new_inter_frame get_input_frameno get_idx_in_group_output
    get_order_hint inter_frame is_show_existing_frame get_show_existing_frame get_show_frame
    count_ones
hint_in-frame_to_show_map_idx_example =
    hint_in-frame_to_show_map_idx reordering pyramid 0 0 100 11 (frame 11) refl refl (omega arith)
      refl refl

reference-last_frame_example : reference (frame 10) 0 ≡ some ((frame 10).order_hint - 1)
unfolding is_switch_valid Config.new new_inter_frame get_input_frameno get_idx_in_group_output
    get_order_hint inter_frame is_show_existing_frame get_show_existing_frame get_show_frame
    count_ones get_level pos_to_lvl trailing_zeros
reference-last_frame_example =
    reference-last_frame reordering pyramid 0 0 100 10 (frame 10) refl refl (omega arith) refl refl

reference-altref_frame_example : reference (frame 10) 6 ≡ some ((frame 10).order_hint + 1)
unfolding is_switch_valid Config.new new_inter_frame get_input_frameno get_idx_in_group_output
    get_order_hint inter_frame is_show_existing_frame get_show_existing_frame get_show_frame
    count_ones get_level pos_to_lvl trailing_zeros
reference-altref_frame_example =
    reference-altref_frame reordering pyramid 0 0 100 10 (frame 10) refl refl (omega arith) refl
      refl (omega arith) (omega arith)
