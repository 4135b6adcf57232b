-- ===== src/O3yv/Fragment/Safe.antt =====
-- Decoding a fragment keeps the picture a picture and ends, whatever its streams hold.
use rav1e.Prelude.{ℕ, ◌≤◌, ◌<◌, ◌≡◌, [], ◌∷◌, length, ◌==◌, arith}
use rav1e.Prelude.{
  Outcome, ok, err, fault, M, Keeps, Keeps-if, Keeps-bind, Keeps-zoom, Ensures, Ensures-bind,
  Ensures-zoom, kept, stopped,
}
use rav1e.O3yv.Format.{mb_count}
use rav1e.O3yv.Frame.{EyeFrame, Mv}
use rav1e.O3yv.Eye.{IsEye}
use rav1e.O3yv.Pixels.Safe.{IsBytes}
use rav1e.O3yv.Reader.{Reader}
use rav1e.O3yv.Reader.Safe.{IsReader, i8-IsReader, take_bytes-IsReader}
use rav1e.O3yv.Blocks.Safe.{copy_mb_from_reference-IsEye}
use rav1e.O3yv.Parts.{VbsShape, split16x8, split8x16, split8x8}
use rav1e.O3yv.Parts.Safe.{parts, copy_vbs_from_reference-IsEye, write_raw_mb-IsEye}
use rav1e.O3yv.Coeffs.{EyeState}
use rav1e.O3yv.Coeffs.Macroblock.{apply_mb_residual-IsEyeState}
use rav1e.O3yv.Fragment
use rav1e.O3yv.Fragment.{Work, BaseCopyMode, prefilled, lazy}

pub record IsWork (w : Work) : Type 0 where
  pub modes : IsReader w.modes
  pub residual : IsReader w.residual
  pub raw : IsReader w.raw
  pub current : IsEye w.current

read_mv-IsReader : (r : Reader) → IsReader r → Keeps IsReader (Fragment.read_mv r)
unfolding Fragment.read_mv
read_mv-IsReader r v =
    Keeps-bind (i8-IsReader r v) λ s _ k. Keeps-bind (i8-IsReader s k) λ _ _ k'. kept k'

module _ {A : Type 0} {w : Work} (v : IsWork w) where
  open v use {modes as m, residual as d, raw as b, current as c}

  pub on_modes-IsWork :
      {r : Outcome Reader A}
      → Keeps IsReader r
      → Keeps IsWork (elim r [
        | ok t a ↦ ok (record w { modes = t }) a
        | err t x ↦ err (record w { modes = t }) x
        | fault ↦ fault
      ])
  on_modes-IsWork h =
      Keeps-zoom (λ t. record w { modes = t }) h
        λ t k. record { modes = k; residual = d; raw = b; current = c }

  pub on_modes-Ensures :
      (Q : A → Type 0) {r : Outcome Reader A}
      → Ensures IsReader (λ t a. IsReader t × Q a) r
      → Ensures IsWork
          (λ t a. IsWork t × Q a)
          (elim r [
            | ok t a ↦ ok (record w { modes = t }) a
            | err t x ↦ err (record w { modes = t }) x
            | fault ↦ fault
          ])
  on_modes-Ensures Q h =
      Ensures-zoom (λ t. record w { modes = t }) h
        (λ t k. record { modes = k; residual = d; raw = b; current = c })
        (λ t a k. (record { modes = k.0; residual = d; raw = b; current = c }, k.1))

  on_current-IsWork :
      {r : Outcome EyeFrame A}
      → Keeps IsEye r
      → Keeps IsWork (elim r [
        | ok t a ↦ ok (record w { current = t }) a
        | err t x ↦ err (record w { current = t }) x
        | fault ↦ fault
      ])
  on_current-IsWork h =
      Keeps-zoom (λ t. record w { current = t }) h
        λ t k. record { modes = m; residual = d; raw = b; current = k }

pub if_lazy-IsWork :
    (mode : BaseCopyMode) (copy : Mv → M EyeFrame (Unit {0}))
    → ((mv : Mv) (e : EyeFrame) → IsEye e → Keeps IsEye (copy mv e))
    → (w : Work) → IsWork w
    → Keeps IsWork (Fragment.if_lazy mode copy w)
if_lazy-IsWork prefilled copy c w v = kept v
if_lazy-IsWork (lazy mv) copy c w v = on_current-IsWork v (c mv w.current v.current)

module _ {ref : EyeFrame} (valid : IsEye ref) (n : ℕ) (h : n < mb_count) where
  residual-IsWork :
      (w : Work) → IsWork w → Keeps IsWork (Fragment.on_eye (Fragment.apply_mb_residual n) w)
  residual-IsWork w v =
      Keeps-zoom (λ (s : EyeState). record w { current = s.current; residual = s.residual })
        (apply_mb_residual-IsEyeState n h _ (record { current = v.current; residual = v.residual }))
        λ t k. record { modes = v.modes; residual = k.residual; raw = v.raw; current = k.current }

  copy16-IsWork : (w : Work) → IsWork w → Keeps IsWork (Fragment.copy16 ref n w)
  copy16-IsWork w v =
      Keeps-bind (on_modes-IsWork v (read_mv-IsReader w.modes v.modes))
        λ w1 mv v1. on_current-IsWork v1 (copy_mb_from_reference-IsEye valid n mv v1.current h)

  copy_halves-IsWork :
      (shape : VbsShape)
      → parts shape ≤ 2
      → (w : Work) → IsWork w
      → Keeps IsWork (Fragment.copy_halves ref n shape w)
  copy_halves-IsWork shape p w v =
      Keeps-bind (on_modes-IsWork v (read_mv-IsReader w.modes v.modes)) λ w1 mv0 v1.
        Keeps-bind (on_modes-IsWork v1 (read_mv-IsReader w1.modes v1.modes)) λ w2 mv1 v2.
          on_current-IsWork v2
            (copy_vbs_from_reference-IsEye valid n shape (mv0 ∷ mv1 ∷ []) v2.current h p)

  copy_quarters-IsWork : (w : Work) → IsWork w → Keeps IsWork (Fragment.copy_quarters ref n w)
  copy_quarters-IsWork w v =
      Keeps-bind (on_modes-IsWork v (read_mv-IsReader w.modes v.modes)) λ w1 mv0 v1.
        Keeps-bind (on_modes-IsWork v1 (read_mv-IsReader w1.modes v1.modes)) λ w2 mv1 v2.
          Keeps-bind (on_modes-IsWork v2 (read_mv-IsReader w2.modes v2.modes)) λ w3 mv2 v3.
            Keeps-bind (on_modes-IsWork v3 (read_mv-IsReader w3.modes v3.modes)) λ w4 mv3 v4.
              on_current-IsWork v4 (
                copy_vbs_from_reference-IsEye valid n split8x8 (mv0 ∷ mv1 ∷ mv2 ∷ mv3 ∷ [])
                  v4.current h (omega arith))

  raw_block-IsWork : (w : Work) → IsWork w → Keeps IsWork (Fragment.raw_block n w)
  raw_block-IsWork w v =
      Ensures-bind {Q = λ t bytes. IsWork t × IsBytes bytes × (length bytes ≡ 384)}
        (Ensures-zoom (λ r. record w { raw = r }) (take_bytes-IsReader 384 w.raw v.raw)
          (λ r k. record { modes = v.modes; residual = v.residual; raw = k; current = v.current })
          (λ r bytes k. (
            record { modes = v.modes; residual = v.residual; raw = k.0; current = v.current },
            k.1,
            k.2,
          )))
        λ w1 bytes k.
          on_current-IsWork k.0 (write_raw_mb-IsEye n bytes w1.current k.0.current h k.1 k.2)

  -- For a macroblock index below 375, a whole reference eye and any mode, `decode_one_mb` does
  -- not fault, and by a result or an error keeps the eye whole and its three readers within their
  -- slices.
  pub decode_one_mb-IsWork :
      (mode : ℕ) (base : BaseCopyMode) (w : Work)
      → IsWork w
      → Keeps IsWork (Fragment.decode_one_mb mode n base ref w)
  unfolding Fragment.decode_one_mb
  decode_one_mb-IsWork mode base w v =
      Keeps-if _ _ _ (mode == 0)
        (λ _.
          Keeps-bind
            (if_lazy-IsWork base _ (λ mv e i. copy_mb_from_reference-IsEye valid n mv i h) w v)
            λ w' _ v'. residual-IsWork w' v')
        λ _.
          Keeps-if _ _ _ (mode == 1) (λ _. copy16-IsWork w v)
            λ _.
              Keeps-if _ _ _ (mode == 2) (λ _. then_residual (copy16-IsWork w v))
                λ _.
                  Keeps-if _ _ _ (mode == 3) (λ _. copy_halves-IsWork split16x8 (omega arith) w v)
                    λ _.
                      Keeps-if _ _ _ (mode == 4)
                        (λ _. then_residual (copy_halves-IsWork split16x8 (omega arith) w v))
                        λ _.
                          Keeps-if _ _ _ (mode == 5)
                            (λ _. copy_halves-IsWork split8x16 (omega arith) w v)
                            λ _.
                              Keeps-if _ _ _ (mode == 6)
                                (λ _.
                                  then_residual (copy_halves-IsWork split8x16 (omega arith) w v))
                                λ _.
                                  Keeps-if _ _ _ (mode == 7) (λ _. copy_quarters-IsWork w v)
                                    λ _.
                                      Keeps-if _ _ _ (mode == 8)
                                        (λ _. then_residual (copy_quarters-IsWork w v))
                                        λ _.
                                          Keeps-if _ _ _ (mode == 10) (λ _. raw_block-IsWork w v)
                                            λ _. stopped v
    where
      then_residual :
          {r : Outcome Work (Unit {0})}
          → Keeps IsWork r
          → Keeps IsWork (elim r [
            | ok s' a ↦ Fragment.on_eye (Fragment.apply_mb_residual n) s'
            | err s' e ↦ err s' e
            | fault ↦ fault
          ])
      then_residual k = Keeps-bind k λ w' _ v'. residual-IsWork w' v'
