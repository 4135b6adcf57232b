-- ===== src/O3yv/Frame.antt =====
-- The pictures, motion vectors and decoder state of minidecoder/src/lib.rs. A `u8` is a number
-- below 256, and a `Vec<u8>` a list.
use rav1e.Prelude.{ℕ, ◌*◌, List, ◌++◌, Bool, false, ◌==◌, ◌&&◌, replicate, length, if◌then◌else◌}
use rav1e.Prelude.{M, ok, err, invalid, zoom}
use rav1e.Prelude.Int.{ℤ, pos, negsuc}
use rav1e.O3yv.Format.{eye_w, eye_h, chroma_w, chroma_h, eye_frame_bytes}

pub record EyeFrame : Type 0 where
  pub y : List ℕ
  pub cb : List ℕ
  pub cr : List ℕ

unfoldable pub new_eye : EyeFrame
new_eye = record {
  y = replicate (eye_w * eye_h) 0;
  cb = replicate (chroma_w * chroma_h) 128;
  cr = replicate (chroma_w * chroma_h) 128;
}

pub record SbsFrame : Type 0 where
  pub left : EyeFrame
  pub right : EyeFrame

unfoldable pub new_sbs : SbsFrame
new_sbs = record { left = new_eye; right = new_eye }

-- `core::mem::swap` exchanges the two pictures.
pub record DecoderState : Type 0 where
  pub reference : SbsFrame
  pub current : SbsFrame
  pub has_reference : Bool

unfoldable pub new_state : DecoderState
new_state = record { reference = new_sbs; current = new_sbs; has_reference = false }

unfoldable pub reset : DecoderState → DecoderState
reset s = record s { has_reference = false }

pub record Mv : Type 0 where
  pub x : ℤ
  pub y : ℤ

abbrev pub is_zero : ℤ → Bool
is_zero (pos n) = n == 0
is_zero (negsuc n) = false

-- `mv == Mv::ZERO`
abbrev pub is_zero_mv : Mv → Bool
is_zero_mv mv = is_zero mv.x && is_zero mv.y

-- Work on one plane of a picture.
abbrev pub on_y : {A : Type 0} → M (List ℕ) A → M EyeFrame A
on_y = zoom (λ e. e.y) (λ p e. record e { y = p })

abbrev pub on_cb : {A : Type 0} → M (List ℕ) A → M EyeFrame A
on_cb = zoom (λ e. e.cb) (λ p e. record e { cb = p })

abbrev pub on_cr : {A : Type 0} → M (List ℕ) A → M EyeFrame A
on_cr = zoom (λ e. e.cr) (λ p e. record e { cr = p })

-- What a public entry point reports of a bad size, or returns.
unfoldable pub write_yuv420p_into : EyeFrame → M (List ℕ) (Unit {0})
write_yuv420p_into e out =
    if length out == eye_frame_bytes then ok (e.y ++ (e.cb ++ e.cr)) tt else err out invalid
