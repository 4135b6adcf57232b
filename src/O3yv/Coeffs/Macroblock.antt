-- ===== src/O3yv/Coeffs/Macroblock.antt =====
-- The coded blocks of a macroblock lie on the planes of the picture.
use Prim.Native.Nat.{bit_and}
use rav1e.Prelude.{
  ℕ, zero, suc, ◌+◌, ◌*◌, ◌/◌, ◌%◌, ◌≤◌, ◌<◌, ◌^◌, ltb, ◌==◌, not, arith, ltb→lt, not_ltb→le, ==→≡,
  not-true,
}
use rav1e.Prelude.{
  Outcome, ok, err, fault, Keeps, Keeps-if, Keeps-bind, Keeps-zoom, Ensures-bind, Ensures-zoom,
  refuse_if-false, kept,
}
use rav1e.Prelude.Bits.{clear_lowest-lt, no_high_bits}
use rav1e.O3yv.Format.{eye_w, chroma_w, mb_w, mb_count, eye_y_bytes, eye_chroma_bytes}
use rav1e.O3yv.Eye.{IsEye}
use rav1e.O3yv.Reader.Safe.{IsReader, u32-IsReader}
use rav1e.O3yv.Coeffs
use rav1e.O3yv.Coeffs.{BlockState, EyeState, trailing_zeros}
use rav1e.O3yv.Coeffs.Safe.{IsBlock, apply_block-IsBlock, trailing_zeros-lt, ne_of_test}

pub record IsEyeState (s : EyeState) : Type 0 where
  pub current : IsEye s.current
  pub residual : IsReader s.residual

module _ {s : EyeState} (v : IsEyeState s) where
  open v use {current as c}

  on_luma-IsEyeState :
      {A : Type 0} {r : Outcome BlockState A}
      → Keeps (IsBlock eye_y_bytes) r
      → Keeps IsEyeState (elim r [
        | ok b a ↦
            ok (record { current = record (s.current) { y = b.plane }; residual = b.residual }) a
        | err b x ↦
            err (record { current = record (s.current) { y = b.plane }; residual = b.residual }) x
        | fault ↦ fault
      ])
  on_luma-IsEyeState h = Keeps-zoom _ h λ b k. record {
    current = record { luma = k.plane; blue = c.blue; red = c.red };
    residual = k.residual;
  }

  on_blue-IsEyeState :
      {A : Type 0} {r : Outcome BlockState A}
      → Keeps (IsBlock eye_chroma_bytes) r
      → Keeps IsEyeState (elim r [
        | ok b a ↦
            ok (record { current = record (s.current) { cb = b.plane }; residual = b.residual }) a
        | err b x ↦
            err (record { current = record (s.current) { cb = b.plane }; residual = b.residual }) x
        | fault ↦ fault
      ])
  on_blue-IsEyeState h = Keeps-zoom _ h λ b k. record {
    current = record { luma = c.luma; blue = k.plane; red = c.red };
    residual = k.residual;
  }

  on_red-IsEyeState :
      {A : Type 0} {r : Outcome BlockState A}
      → Keeps (IsBlock eye_chroma_bytes) r
      → Keeps IsEyeState (elim r [
        | ok b a ↦
            ok (record { current = record (s.current) { cr = b.plane }; residual = b.residual }) a
        | err b x ↦
            err (record { current = record (s.current) { cr = b.plane }; residual = b.residual }) x
        | fault ↦ fault
      ])
  on_red-IsEyeState h = Keeps-zoom _ h λ b k. record {
    current = record { luma = c.luma; blue = c.blue; red = k.plane };
    residual = k.residual;
  }

-- The first luma sample of macroblock `n`, and its first chroma sample.
module _ (n : ℕ) (h : n < mb_count) where
  abbrev y_base : ℕ
  y_base = n / mb_w * 16 * eye_w + n % mb_w * 16

  abbrev c_base : ℕ
  c_base = n / mb_w * 8 * chroma_w + n % mb_w * 8

  apply_coded-IsEyeState :
      (block : ℕ) (s : EyeState)
      → block < 24
      → IsEyeState s
      → Keeps IsEyeState (Coeffs.apply_coded y_base c_base block s)
  unfolding Coeffs.apply_coded
  apply_coded-IsEyeState block s hb v =
      Keeps-if _ _ _ (ltb block 16)
        (λ t.
          let lt = ltb→lt block 16 t in
          on_luma-IsEyeState v (
            apply_block-IsBlock eye_w _ (omega arith) _
              (record { plane = v.current.luma; residual = v.residual })))
        λ t.
          let ge = not_ltb→le block 16 t in
          Keeps-if _ _ _ (ltb block 20)
            (λ u.
              let lt = ltb→lt block 20 u in
              on_blue-IsEyeState v (
                apply_block-IsBlock chroma_w _ (omega arith) _
                  (record { plane = v.current.blue; residual = v.residual })))
            (λ u.
              let le = not_ltb→le block 20 u in
              on_red-IsEyeState v (
                apply_block-IsBlock chroma_w _ (omega arith) _
                  (record { plane = v.current.red; residual = v.residual })))

  -- The fuel of the loop over the mask lasts.
  apply_coded_blocks-IsEyeState :
      (fuel coded : ℕ) (s : EyeState)
      → coded ≤ fuel
      → coded < 2 ^ 24
      → IsEyeState s
      → Keeps IsEyeState (Coeffs.apply_coded_blocks y_base c_base fuel coded s)
  unfolding Coeffs.apply_coded_blocks
  apply_coded_blocks-IsEyeState zero coded s f lt v =
      Keeps-if _ _ _ (coded == 0) (λ _. kept v) (λ t. absurd (omega (arith, ne_of_test coded t)))
  apply_coded_blocks-IsEyeState (suc fuel) coded s f lt v =
      Keeps-if _ _ _ (coded == 0) (λ _. kept v)
        λ t.
          let ne = ne_of_test coded t in
          Keeps-bind
            (apply_coded-IsEyeState _ s (trailing_zeros-lt 32 24 coded (omega arith) lt ne) v)
            λ s' _ v'.
              apply_coded_blocks-IsEyeState fuel (Coeffs.clear_lowest coded) s'
                (omega (arith, clear_lowest-lt coded ne)) (omega (arith, clear_lowest-lt coded ne))
                v'

  -- For a macroblock index below 375 and any residual bytes, `apply_mb_residual` neither faults
  -- nor runs out of fuel, and by a result or an error keeps the eye whole and the reader within
  -- its slice.
  pub apply_mb_residual-IsEyeState :
      (s : EyeState) → IsEyeState s → Keeps IsEyeState (Coeffs.apply_mb_residual n s)
  unfolding Coeffs.apply_mb_residual
  apply_mb_residual-IsEyeState s v =
      Ensures-bind {Q = λ t m. IsEyeState t × (m < 2 ^ 32)}
        (Ensures-zoom (λ r. record s { residual = r }) (u32-IsReader s.residual v.residual)
          (λ r k. record { current = v.current; residual = k })
          (λ r m k. (record { current = v.current; residual = k.0 }, k.1)))
        λ t mask k.
          Keeps-if _ _ _ (mask == 0) (λ _. kept k.0)
            λ _.
              Ensures-bind (refuse_if-false (not (bit_and mask 0xff00_0000 == 0)) _ t k.0) λ t' _ j.
                apply_coded_blocks-IsEyeState mask mask t' (omega arith)
                  (no_high_bits mask k.1 (==→≡ _ 0 (not-true _ j.1))) j.0
