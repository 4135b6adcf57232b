-- ===== src/O3yv/Eye.antt =====
-- The invariants of pictures and readers.
use rav1e.Prelude.{ℕ, List}
use rav1e.Prelude.{Outcome, ok, err, fault, Keeps, Keeps-zoom}
use rav1e.O3yv.Format.{eye_y_bytes, eye_chroma_bytes}
use rav1e.O3yv.Frame.{EyeFrame, SbsFrame}
use rav1e.O3yv.Pixels.Safe.{IsPlane}

-- The three planes have their sizes, and hold bytes.
pub record IsEye (e : EyeFrame) : Type 0 where
  pub luma : IsPlane eye_y_bytes e.y
  pub blue : IsPlane eye_chroma_bytes e.cb
  pub red : IsPlane eye_chroma_bytes e.cr

pub record IsSbs (f : SbsFrame) : Type 0 where
  pub left : IsEye f.left
  pub right : IsEye f.right

-- Work on one plane keeps the picture.
module _ {A : Type 0} {e : EyeFrame} (i : IsEye e) where
  pub on_y-IsEye :
      {r : Outcome (List ℕ) A}
      → Keeps (IsPlane eye_y_bytes) r
      → Keeps IsEye (elim r [
        | ok p a ↦ ok (record e { y = p }) a
        | err p x ↦ err (record e { y = p }) x
        | fault ↦ fault
      ])
  on_y-IsEye h =
      Keeps-zoom (λ p. record e { y = p }) h
        (λ p k. record { luma = k; blue = i.blue; red = i.red })

  pub on_cb-IsEye :
      {r : Outcome (List ℕ) A}
      → Keeps (IsPlane eye_chroma_bytes) r
      → Keeps IsEye (elim r [
        | ok p a ↦ ok (record e { cb = p }) a
        | err p x ↦ err (record e { cb = p }) x
        | fault ↦ fault
      ])
  on_cb-IsEye h =
      Keeps-zoom (λ p. record e { cb = p }) h
        (λ p k. record { luma = i.luma; blue = k; red = i.red })

  pub on_cr-IsEye :
      {r : Outcome (List ℕ) A}
      → Keeps (IsPlane eye_chroma_bytes) r
      → Keeps IsEye (elim r [
        | ok p a ↦ ok (record e { cr = p }) a
        | err p x ↦ err (record e { cr = p }) x
        | fault ↦ fault
      ])
  on_cr-IsEye h =
      Keeps-zoom (λ p. record e { cr = p }) h
        (λ p k. record { luma = i.luma; blue = i.blue; red = k })
