-- ===== src/Gop/Config.antt =====
-- InterConfig of src/api/internal.rs, pos_to_lvl of src/encoder.rs, and what they use of RefType.
-- An `Option` is `none` where the source panics.
use package.rav1e.Prelude.{
  ℕ, zero, suc, ◌+◌, ◌-◌, ◌*◌, ◌/◌, ◌%◌, ◌^◌, bit_and, bit_or, Bool, not, ◌&&◌, ◌||◌, ltb, leb,
  ◌==◌, if◌then◌else◌, List, [], ◌∷◌, Option, none, some,
}

-- What `InterConfig::new` reads of EncoderConfig.
pub record EncoderConfig : Type 0 where
  pub low_latency : Bool
  pub multiref : Bool  -- speed_settings.multiref
  pub switch_frame_interval : ℕ
  pub error_resilient : Bool

pub record InterConfig : Type 0 where
  pub reorder : Bool
  pub multiref : Bool
  pub pyramid_depth : ℕ
  pub group_input_len : ℕ
  pub group_output_len : ℕ
  pub switch_frame_interval : ℕ

-- The test of `Config::validate` on the interval.
unfoldable pub is_switch_valid : EncoderConfig → Bool
is_switch_valid c = not (ltb 0 c.switch_frame_interval && not c.low_latency)

unfoldable pub new : EncoderConfig → Option InterConfig
new c =
    let reorder = not c.low_latency in
    let pyramid_depth = if reorder then 2 else 0 in
    let group_input_len = 2 ^ pyramid_depth in
    let group_output_len = group_input_len + pyramid_depth in
    if c.switch_frame_interval % group_input_len == 0
    then some (record {
      reorder = reorder;
      multiref = reorder || c.multiref;
      pyramid_depth = pyramid_depth;
      group_input_len = group_input_len;
      group_output_len = group_output_len;
      switch_frame_interval = c.switch_frame_interval;
    })
    else none

-- `v.count_ones()` and `v.trailing_zeros()` of a word of `w` bits.
unfoldable pub count_ones : ℕ → ℕ → ℕ
count_ones zero v = 0
count_ones (suc w) v = v % 2 + count_ones w (v / 2)

unfoldable pub trailing_zeros : ℕ → ℕ → ℕ
trailing_zeros zero v = 0
trailing_zeros (suc w) v = let rest = trailing_zeros w (v / 2) in if v % 2 == 1 then 0 else suc rest

unfoldable pub pos_to_lvl : ℕ → ℕ → ℕ
pos_to_lvl p pyramid_depth = pyramid_depth - trailing_zeros 64 (bit_or p (2 ^ pyramid_depth))

unfoldable pub get_idx_in_group_output : InterConfig → ℕ → ℕ
get_idx_in_group_output c output_frameno_in_gop = (output_frameno_in_gop - 1) % c.group_output_len

unfoldable pub get_order_hint : InterConfig → ℕ → ℕ → ℕ
get_order_hint c output_frameno_in_gop idx_in_group_output =
    let group_idx = (output_frameno_in_gop - 1) / c.group_output_len in
    let offset =
      if ltb idx_in_group_output c.pyramid_depth
      then c.group_input_len / 2 ^ idx_in_group_output
      else idx_in_group_output - c.pyramid_depth + 1 in
    (c.group_input_len * group_idx + offset) % 2 ^ 32

unfoldable pub get_level : InterConfig → ℕ → ℕ
get_level c idx_in_group_output =
    if not c.reorder
    then 0
    else if ltb idx_in_group_output c.pyramid_depth
    then idx_in_group_output
    else pos_to_lvl (idx_in_group_output - c.pyramid_depth + 1) c.pyramid_depth

unfoldable pub get_slot_idx : InterConfig → ℕ → ℕ → ℕ
get_slot_idx c level order_hint =
    if level == 0 then bit_and (order_hint / 2 ^ c.pyramid_depth) 3 else 3 + level % 2 ^ 32

unfoldable pub get_show_frame : InterConfig → ℕ → Bool
get_show_frame c idx_in_group_output = leb c.pyramid_depth idx_in_group_output

unfoldable pub get_show_existing_frame : InterConfig → ℕ → Bool
get_show_existing_frame c idx_in_group_output =
    c.reorder
    && get_show_frame c idx_in_group_output
    && (count_ones 64 (idx_in_group_output - c.pyramid_depth + 1) == 1)
    && not (idx_in_group_output == c.pyramid_depth)

unfoldable pub get_input_frameno : InterConfig → ℕ → ℕ → ℕ
get_input_frameno c output_frameno_in_gop gop_input_frameno_start =
    if output_frameno_in_gop == 0
    then gop_input_frameno_start
    else let idx_in_group_output = get_idx_in_group_output c output_frameno_in_gop in
      gop_input_frameno_start + get_order_hint c output_frameno_in_gop idx_in_group_output

unfoldable pub max_reordering_latency : InterConfig → ℕ
max_reordering_latency c = c.group_input_len

unfoldable pub keyframe_lookahead_distance : InterConfig → ℕ
keyframe_lookahead_distance c = max_reordering_latency c + 1

pub data RefType : Type 0 where
  intra_frame last_frame last2_frame last3_frame golden_frame bwdref_frame : RefType
  altref2_frame altref_frame none_frame : RefType

unfoldable pub to_index : RefType → Option ℕ
to_index intra_frame = none
to_index last_frame = some 0
to_index last2_frame = some 1
to_index last3_frame = some 2
to_index golden_frame = some 3
to_index bwdref_frame = some 4
to_index altref2_frame = some 5
to_index altref_frame = some 6
to_index none_frame = none

unfoldable pub allowed_ref_frames : InterConfig → List RefType
allowed_ref_frames c =
    if c.reorder
    then last_frame ∷ last2_frame ∷ last3_frame ∷ golden_frame ∷ bwdref_frame ∷ altref2_frame
      ∷ altref_frame ∷ []
    else if c.multiref
    then last_frame ∷ last2_frame ∷ last3_frame ∷ golden_frame ∷ []
    else last_frame ∷ []
