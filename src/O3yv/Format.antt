-- ===== src/O3yv/Format.antt =====
-- The constants of minidecoder/src/lib.rs (lines 13 to 64).
use rav1e.Prelude.{ℕ, ◌*◌, ◌+◌, ◌/◌, ◌^◌, List, [], ◌∷◌}
use rav1e.Prelude.Int.{ℤ, pos, negsuc}

abbrev pub visible_w : ℕ
visible_w = 800

abbrev pub visible_h : ℕ
visible_h = 240

abbrev pub eye_w : ℕ
eye_w = 400

abbrev pub eye_h : ℕ
eye_h = 240

abbrev pub chroma_w : ℕ
chroma_w = 200

abbrev pub chroma_h : ℕ
chroma_h = 120

abbrev pub eye_y_bytes : ℕ
eye_y_bytes = eye_w * eye_h

abbrev pub eye_chroma_bytes : ℕ
eye_chroma_bytes = chroma_w * chroma_h

abbrev pub mb_w : ℕ
mb_w = 25

abbrev pub mb_h : ℕ
mb_h = 15

abbrev pub mb_count : ℕ
mb_count = mb_w * mb_h

abbrev pub raw_mb_bytes : ℕ
raw_mb_bytes = 384

abbrev pub sbs_frame_bytes : ℕ
sbs_frame_bytes = visible_w * visible_h + visible_w / 2 * (visible_h / 2) * 2

abbrev pub eye_frame_bytes : ℕ
eye_frame_bytes = eye_w * eye_h + chroma_w * chroma_h * 2

-- `u32::from_le_bytes(*b"O3YV")`
abbrev pub file_magic : ℕ
file_magic = b'O' + b'3' * 2 ^ 8 + b'Y' * 2 ^ 16 + b'V' * 2 ^ 24

-- `u32::from_le_bytes(*b"FRM1")`
abbrev pub frame_magic : ℕ
frame_magic = b'F' + b'R' * 2 ^ 8 + b'M' * 2 ^ 16 + b'1' * 2 ^ 24

abbrev pub file_header_size : ℕ
file_header_size = 60

abbrev pub frame_header_size : ℕ
frame_header_size = 28

abbrev pub tile_header_size : ℕ
tile_header_size = 17

abbrev pub fragment_header_size : ℕ
fragment_header_size = 28

abbrev pub lazy_base_copy_max_mb_per_tile : ℕ
lazy_base_copy_max_mb_per_tile = 288

abbrev pub tile_flag_lazy_base_copy : ℕ
tile_flag_lazy_base_copy = 0x0001

abbrev pub reference_reuse_frame_payload_max : ℕ
reference_reuse_frame_payload_max = 512

abbrev pub dc_clip_delta_min : ℤ
dc_clip_delta_min = negsuc 15

abbrev pub dc_clip_delta_max : ℤ
dc_clip_delta_max = pos 16

abbrev pub frame_type_key_raw : ℕ
frame_type_key_raw = 0

abbrev pub frame_type_p : ℕ
frame_type_p = 2

abbrev pub mode_base_res : ℕ
mode_base_res = 0

abbrev pub mode_copy16 : ℕ
mode_copy16 = 1

abbrev pub mode_copy16_res : ℕ
mode_copy16_res = 2

abbrev pub mode_copy16x8 : ℕ
mode_copy16x8 = 3

abbrev pub mode_copy16x8_res : ℕ
mode_copy16x8_res = 4

abbrev pub mode_copy8x16 : ℕ
mode_copy8x16 = 5

abbrev pub mode_copy8x16_res : ℕ
mode_copy8x16_res = 6

abbrev pub mode_copy8x8 : ℕ
mode_copy8x8 = 7

abbrev pub mode_copy8x8_res : ℕ
mode_copy8x8_res = 8

abbrev pub mode_raw_mb : ℕ
mode_raw_mb = 10

abbrev pub tag_dc_only_s8 : ℕ
tag_dc_only_s8 = 0x00

abbrev pub tag_dc_only_s16 : ℕ
tag_dc_only_s16 = 0x40

abbrev pub tag_ac_mask_s8 : ℕ
tag_ac_mask_s8 = 0x80

abbrev pub tag_ac_mask_s16 : ℕ
tag_ac_mask_s16 = 0xC0

abbrev pub tag_raw_4x4 : ℕ
tag_raw_4x4 = 0xE0

abbrev pub zigzag : List ℕ
zigzag = 0 ∷ 1 ∷ 4 ∷ 8 ∷ 5 ∷ 2 ∷ 3 ∷ 6 ∷ 9 ∷ 12 ∷ 13 ∷ 10 ∷ 7 ∷ 11 ∷ 14 ∷ 15 ∷ []
