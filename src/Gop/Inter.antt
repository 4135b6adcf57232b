-- ===== src/Gop/Inter.antt =====
-- FrameInvariants of src/encoder.rs, the fields that order frames: new_key_frame, new_inter_frame
-- and update_rec_buffer, and the passing of the buffer to later frames in src/api/internal.rs.
use rav1e.Prelude.{
  ℕ, zero, suc, ◌+◌, ◌-◌, ◌/◌, ◌%◌, ◌^◌, bit_and, Bool, true, false, not, ◌&&◌, ◌||◌, ltb, leb,
  ◌==◌, if◌then◌else◌, List, [], ◌∷◌, Option, none, some, replicate, set,
}
use rav1e.Gop.Config.{
  InterConfig, RefType, last2_frame, last3_frame, altref_frame, to_index, pos_to_lvl,
  get_idx_in_group_output, get_order_hint, get_level, get_slot_idx, get_show_frame,
  get_show_existing_frame, get_input_frameno,
}

abbrev pub ref_frames_count : ℕ  -- REF_FRAMES
ref_frames_count = 8

abbrev pub inter_refs_per_frame : ℕ
inter_refs_per_frame = 7

abbrev pub all_ref_frames_mask : ℕ
all_ref_frames_mask = 2 ^ ref_frames_count - 1

abbrev pub primary_ref_none : ℕ
primary_ref_none = 7

pub data FrameType : Type 0 where
  key inter intra_only switch : FrameType

pub data ReferenceMode : Type 0 where
  single compound select : ReferenceMode

pub record ReferenceFrame : Type 0 where
  pub order_hint : ℕ
  pub output_frameno : ℕ

pub record FrameInvariants : Type 0 where
  pub idx_in_group_output : ℕ
  pub order_hint : ℕ
  pub pyramid_level : ℕ
  pub frame_type : FrameType
  pub error_resilient : Bool
  pub show_frame : Bool
  pub has_coded_data : Bool  -- coded_frame_data.is_some()
  pub frame_to_show_map_idx : ℕ
  pub refresh_frame_flags : ℕ
  pub primary_ref_frame : ℕ
  pub ref_frames : List ℕ
  pub reference_mode : ReferenceMode
  pub input_frameno : ℕ
  pub me_range_scale : ℕ
  pub rec_buffer : List (Option ReferenceFrame)

unfoldable pub is_show_existing_frame : FrameInvariants → Bool
is_show_existing_frame fi = not fi.has_coded_data

unfoldable pub new_key_frame : ℕ → FrameInvariants
new_key_frame gop_input_frameno_start = record {
  idx_in_group_output = 0;
  order_hint = 0;
  pyramid_level = 0;
  frame_type = key;
  error_resilient = false;
  show_frame = true;
  has_coded_data = true;
  frame_to_show_map_idx = 0;
  refresh_frame_flags = all_ref_frames_mask;
  primary_ref_frame = primary_ref_none;
  ref_frames = replicate inter_refs_per_frame 0;
  reference_mode = single;
  input_frameno = gop_input_frameno_start;
  me_range_scale = 1;
  rec_buffer = replicate ref_frames_count none;
}

-- The slot of the frame with an order hint at a lower level of the pyramid.
unfoldable pub lower_slot : InterConfig → ℕ → ℕ
lower_slot c oh =
    let lvl = pos_to_lvl oh c.pyramid_depth in
    if lvl == 0 then oh / 2 ^ c.pyramid_depth % 4 % 256 else 3 + lvl % 256

-- `ref_frames[r.to_index()] = slot`
unfoldable pub set_ref : RefType → ℕ → List ℕ → List ℕ
set_ref r slot refs = elim (to_index r) [ none ↦ refs | some i ↦ set refs i slot ]

unfoldable pub ref_frames_of : InterConfig → ℕ → ℕ → ℕ → ℕ → List ℕ
ref_frames_of c idx level order_hint slot_idx =
    let second_ref_frame = if idx == 0 then last2_frame else altref_frame in
    let span = c.group_input_len / 2 ^ level in
    if level == 0
    then (let refs = replicate inter_refs_per_frame ((slot_idx + 4 - 1) % 256 % 4) in
        if c.multiref then set_ref second_ref_frame ((slot_idx + 4 - 2) % 256 % 4) refs else refs)
    else let refs =
        replicate inter_refs_per_frame (lower_slot c ((order_hint + 2 ^ 32 - span) % 2 ^ 32)) in
      let refs = set_ref second_ref_frame (lower_slot c ((order_hint + span) % 2 ^ 32)) refs in
      set_ref last3_frame (slot_idx % 256) refs

unfoldable pub frame_type_of : InterConfig → ℕ → ℕ → FrameType
frame_type_of c output_frameno_in_gop level =
    if ltb 0 c.switch_frame_interval
      && (output_frameno_in_gop % c.switch_frame_interval == 0)
      && (level == 0)
    then switch
    else inter

unfoldable pub is_switch : FrameType → Bool
is_switch switch = true
is_switch t = false

-- `new_inter_frame` behind the test of the input frame number, at an index and an order hint.
unfoldable pub inter_frame :
    InterConfig → Bool → ℕ → ℕ → ℕ → ℕ → List (Option ReferenceFrame) → FrameInvariants
inter_frame c resilient input_frameno output_frameno_in_gop idx order_hint frames =
    let show_existing_frame = get_show_existing_frame c idx in
    let level = get_level c idx in
    let frame_type = frame_type_of c output_frameno_in_gop level in
    let resilient = is_switch frame_type || resilient in
    let slot_idx = get_slot_idx c level order_hint in
    record {
      idx_in_group_output = idx;
      order_hint = order_hint;
      pyramid_level = level;
      frame_type = frame_type;
      error_resilient = resilient;
      show_frame = get_show_frame c idx;
      has_coded_data = not show_existing_frame;
      frame_to_show_map_idx = slot_idx;
      refresh_frame_flags =
          if is_switch frame_type
          then all_ref_frames_mask
          else if show_existing_frame
          then 0
          else 2 ^ slot_idx;
      primary_ref_frame = if resilient || ltb 2 level then primary_ref_none else 2;
      ref_frames = ref_frames_of c idx level order_hint slot_idx;
      reference_mode = if c.multiref && not (idx == 0) then select else single;
      input_frameno = input_frameno;
      me_range_scale = c.group_input_len / 2 ^ level % 256;
      rec_buffer = frames;
    }

-- The buffer is that of the previous coded frame.
unfoldable pub new_inter_frame :
    InterConfig → ℕ → ℕ → ℕ → Bool → List (Option ReferenceFrame) → Option FrameInvariants
new_inter_frame c gop_input_frameno_start output_frameno_in_gop next_keyframe_input_frameno
      resilient frames =
    let input_frameno = get_input_frameno c output_frameno_in_gop gop_input_frameno_start in
    if leb next_keyframe_input_frameno input_frameno
    then none
    else let idx = get_idx_in_group_output c output_frameno_in_gop in
      let order_hint = get_order_hint c output_frameno_in_gop idx in
      some (inter_frame c resilient input_frameno output_frameno_in_gop idx order_hint frames)

-- `for i in 0..REF_FRAMES { if flags & (1 << i) != 0 { frames[i] = rfs } }`, from slot `i` on.
unfoldable pub refresh :
    ℕ → ℕ → ReferenceFrame → List (Option ReferenceFrame) → List (Option ReferenceFrame)
refresh flags i rfs [] = []
refresh flags i rfs (f ∷ fs) =
    (if bit_and flags (2 ^ i) == 0 then f else some rfs) ∷ refresh flags (i + 1) rfs fs

unfoldable pub update_rec_buffer : ℕ → FrameInvariants → List (Option ReferenceFrame)
update_rec_buffer output_frameno fi =
    refresh fi.refresh_frame_flags 0
      (record { order_hint = fi.order_hint; output_frameno = output_frameno }) fi.rec_buffer

-- The buffer that later frames get once this one, if there is one, is encoded: a shown existing
-- frame passes on what it got.
unfoldable pub passed_on :
    ℕ → Option FrameInvariants → List (Option ReferenceFrame) → List (Option ReferenceFrame)
passed_on output_frameno none frames = frames
passed_on output_frameno (some fi) frames =
    if is_show_existing_frame fi then frames else update_rec_buffer output_frameno fi

-- The frames of a group of pictures: its key frame, at output frame `first` and input frame
-- `start`, and inter frames up to the next key frame, at input frame `limit`.
module _ (c : InterConfig) (resilient : Bool) (first start limit : ℕ) where
  -- The buffer that output frame `n + 1` of the group gets.
  unfoldable pub buffer_after : ℕ → List (Option ReferenceFrame)
  buffer_after zero = update_rec_buffer first (new_key_frame start)
  buffer_after (suc n) =
      let frames = buffer_after n in
      passed_on (first + suc n) (new_inter_frame c start (suc n) limit resilient frames) frames
