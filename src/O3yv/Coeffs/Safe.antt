-- ===== src/O3yv/Coeffs/Safe.antt =====
-- Residuals of a macroblock of the picture keep the picture and the reader valid.
use native.Mathlib.Nat.{pow-suc}
use rav1e.Prelude.{
  ℕ, zero, suc, ◌+◌, ◌*◌, ◌/◌, ◌≤◌, ◌<◌, ◌^◌, ◌≡◌, ◌≢◌, List, [], ◌∷◌, length, length-set,
  length-replicate, get_or, ltb, ◌==◌, arith, not_ltb→le, false,
}
use rav1e.Prelude.{
  M, Keeps, Keeps-if, Keeps-bind, Keeps-choice, Keeps-zoom, Ensures, Ensures-bind, Ensures-choice,
  Ensures-zoom, returned, kept, stopped,
}
use rav1e.Prelude.Int.{ℤ, pos}
use rav1e.Prelude.Bits.{clear_lowest-lt}
use rav1e.O3yv.Format.{zigzag}
use rav1e.O3yv.Pixels.Safe.{IsPlane, copy_at_4-IsPlane}
use rav1e.O3yv.Reader.{Reader, i8, i16}
use rav1e.O3yv.Reader.Safe.{IsReader, u8-IsReader, i8-IsReader, u16-IsReader, i16-IsReader}
use rav1e.O3yv.Residual.Safe.{add_dc_block-IsPlane, add_idct_block-IsPlane}
use rav1e.Prelude.{Outcome, ok, err, fault}
use rav1e.O3yv.Coeffs
use rav1e.O3yv.Coeffs.{BlockState, EyeState, trailing_zeros}

-- The lowest set bit of a word below 2 ^ k is one of its k low bits.
pub trailing_zeros-lt : (w k v : ℕ) → k ≤ w → v < 2 ^ k → v ≢ 0 → trailing_zeros w v < k
unfolding trailing_zeros
trailing_zeros-lt w zero v h lt ne = absurd (omega arith)
trailing_zeros-lt zero (suc k) v h lt ne = absurd (omega arith)
trailing_zeros-lt (suc w) (suc k) v h lt ne =
    ground (arith, pow-suc 2 k, trailing_zeros-lt w k (v / 2))

pub ne_of_test : (v : ℕ) → (v == 0) ≡ false → v ≢ 0
ne_of_test v h = ground arith

abbrev AllLt : ℕ → List ℕ → Type 0
AllLt n [] = Unit
AllLt n (x ∷ xs) = (x < n) × AllLt n xs

get_or-lt : (n : ℕ) (xs : List ℕ) (i : ℕ) → 0 < n → AllLt n xs → get_or xs i 0 < n
get_or-lt n [] i p h = p
get_or-lt n (x ∷ xs) zero p h = h.0
get_or-lt n (x ∷ xs) (suc i) p h = get_or-lt n xs i p h.1

-- The zigzag order leads to one of the 16 coefficients.
zigzag-lt : (i : ℕ) → get_or zigzag i 0 < 16
zigzag-lt i = get_or-lt 16 zigzag i (omega arith) (omega arith)

-- The loop over the bits of the mask: its fuel lasts, and no access leaves the 16 coefficients.
pub read_coeffs-IsReader :
    (read : M Reader ℤ)
    → ((r : Reader) → IsReader r → Keeps IsReader (read r))
    → (fuel nz : ℕ) (coeffs : List ℤ) (r : Reader) → nz ≤ fuel
    → nz < 2 ^ 16
    → length coeffs ≡ 16
    → IsReader r
    → Keeps IsReader (Coeffs.read_coeffs read fuel nz coeffs r)
unfolding Coeffs.read_coeffs
read_coeffs-IsReader read reads zero nz coeffs r f lt l v =
    Keeps-if _ _ _ (nz == 0) (λ _. kept v) (λ t. absurd (omega (arith, ne_of_test nz t)))
read_coeffs-IsReader read reads (suc fuel) nz coeffs r f lt l v =
    Keeps-if _ _ _ (nz == 0) (λ _. kept v)
      λ t.
        let ne = ne_of_test nz t in
        Ensures-bind (index ne) λ r1 i h1. Keeps-bind (reads r1 h1.0) λ r2 value v2.
          Ensures-bind (stored i value h1.1 r2 v2) λ r3 coeffs' h3.
            read_coeffs-IsReader read reads fuel (Coeffs.clear_lowest nz) coeffs' r3
              (omega (arith, clear_lowest-lt nz ne)) (omega (arith, clear_lowest-lt nz ne)) h3.1
              h3.0
  where
    index :
        nz ≢ 0
        → Ensures IsReader
            (λ s i. IsReader s × (i < 16))
            (Coeffs.zigzag_at (trailing_zeros 16 nz) r)
    index ne =
        let small = trailing_zeros-lt 16 16 nz (omega arith) lt ne in
        unfold Coeffs.zigzag_at in
        Ensures-choice (ltb (trailing_zeros 16 nz) 16) (λ _. returned (v, zigzag-lt _))
          (λ t. absurd (omega (arith, not_ltb→le (trailing_zeros 16 nz) 16 t)))

    stored :
        (i : ℕ) (value : ℤ)
        → i < 16
        → (s : Reader) → IsReader s
        → Ensures IsReader
            (λ s c. IsReader s × (length c ≡ 16))
            (Coeffs.store_coeff coeffs i value s)
    stored i value hi s vs =
        unfold Coeffs.store_coeff in
        Ensures-choice (ltb i (length coeffs))
          (λ _. returned (vs, omega (arith, length-set coeffs i value)))
          (λ t. absurd (omega (arith, not_ltb→le i (length coeffs) t)))

-- A plane and its residuals.
pub record IsBlock (m : ℕ) (s : BlockState) : Type 0 where
  pub plane : IsPlane m s.plane
  pub residual : IsReader s.residual

module _ {m : ℕ} where
  on_plane-IsBlock :
      {A : Type 0} {s : BlockState} {r : Outcome (List ℕ) A}
      → IsBlock m s
      → Keeps (IsPlane m) r
      → Keeps (IsBlock m) (elim r [
        | ok p a ↦ ok (record s { plane = p }) a
        | err p x ↦ err (record s { plane = p }) x
        | fault ↦ fault
      ])
  on_plane-IsBlock {s = s} v h =
      Keeps-zoom (λ p. record s { plane = p }) h
        (λ p k. record { plane = k; residual = v.residual })

  on_residual-IsBlock :
      {A : Type 0} {s : BlockState} {r : Outcome Reader A} (Q : A → Type 0)
      → IsBlock m s
      → Ensures IsReader (λ t a. IsReader t × Q a) r
      → Ensures
          (IsBlock m)
          (λ t a. IsBlock m t × Q a)
          (elim r [
            | ok p a ↦ ok (record s { residual = p }) a
            | err p x ↦ err (record s { residual = p }) x
            | fault ↦ fault
          ])
  on_residual-IsBlock {s = s} Q v h =
      Ensures-zoom (λ p. record s { residual = p }) h
        (λ p k. record { plane = v.plane; residual = k })
        (λ p a k. (record { plane = v.plane; residual = k.0 }, k.1))

  on_residual-Keeps :
      {A : Type 0} {s : BlockState} {r : Outcome Reader A}
      → IsBlock m s
      → Keeps IsReader r
      → Keeps (IsBlock m) (elim r [
        | ok p a ↦ ok (record s { residual = p }) a
        | err p x ↦ err (record s { residual = p }) x
        | fault ↦ fault
      ])
  on_residual-Keeps {s = s} v h =
      Keeps-zoom (λ p. record s { residual = p }) h
        (λ p k. record { plane = v.plane; residual = k })

  module _ (stride base : ℕ) (inside : base + stride * 3 + 4 ≤ m) where
    copy_raw_4x4_from_reader-IsBlock :
        (s : BlockState)
        → IsBlock m s
        → Keeps (IsBlock m) (Coeffs.copy_raw_4x4_from_reader stride base s)
    unfolding Coeffs.copy_raw_4x4_from_reader
    copy_raw_4x4_from_reader-IsBlock s v =
        let b = v.residual.bytes in
        Keeps-choice (ltb (length s.residual.bytes) (s.residual.pos + 16)) (λ _. stopped v)
          λ t.
            let room = not_ltb→le (length s.residual.bytes) (s.residual.pos + 16) t in
            let v0 : IsBlock m
                (record s { residual = record (s.residual) { pos = s.residual.pos + 16 } }) =
              record { plane = v.plane; residual = record { in_range = room; bytes = b } } in
            Keeps-bind
              (on_plane-IsBlock v0 (copy_at_4-IsPlane v.plane _ b _ _ (omega arith) (omega arith)))
              λ _ _ v1.
                Keeps-bind
                  (on_plane-IsBlock v1
                    (copy_at_4-IsPlane v1.plane _ b _ _ (omega arith) (omega arith)))
                  λ _ _ v2.
                    Keeps-bind
                      (on_plane-IsBlock v2
                        (copy_at_4-IsPlane v2.plane _ b _ _ (omega arith) (omega arith)))
                      λ _ _ v3.
                        on_plane-IsBlock v3
                          (copy_at_4-IsPlane v3.plane _ b _ _ (omega arith) (omega arith))

    module _ (read : M Reader ℤ) (reads : (r : Reader) → IsReader r → Keeps IsReader (read r)) where
      apply_dc_block-IsBlock :
          (s : BlockState)
          → IsBlock m s
          → Keeps (IsBlock m) (Coeffs.apply_dc_block read stride base s)
      apply_dc_block-IsBlock s v =
          Keeps-bind (on_residual-Keeps v (reads s.residual v.residual))
            λ _ coeff w. on_plane-IsBlock w (add_dc_block-IsPlane stride base coeff w.plane inside)

      apply_ac_block-IsBlock :
          (s : BlockState)
          → IsBlock m s
          → Keeps (IsBlock m) (Coeffs.apply_ac_block read stride base s)
      apply_ac_block-IsBlock s v =
          Ensures-bind
            (on_residual-IsBlock (λ n. n < 2 ^ 16) v (u16-IsReader s.residual v.residual))
            λ s1 nz h.
              Keeps-bind
                (on_residual-Keeps h.0 (
                  read_coeffs-IsReader read reads nz nz Coeffs.no_coeffs s1.residual (omega arith)
                    h.1 (length-replicate 16 (pos 0)) h.0.residual))
                λ _ coeffs w.
                  on_plane-IsBlock w (add_idct_block-IsPlane stride base coeffs w.plane inside)

    pub apply_block-IsBlock :
        (s : BlockState) → IsBlock m s → Keeps (IsBlock m) (Coeffs.apply_block stride base s)
    unfolding Coeffs.apply_block
    apply_block-IsBlock s v =
        Ensures-bind (on_residual-IsBlock (λ n. n < 256) v (u8-IsReader s.residual v.residual))
          λ t tag h.
            Keeps-if _ _ _ (tag == 0xE0) (λ _. copy_raw_4x4_from_reader-IsBlock t h.0)
              λ _.
                Keeps-if _ _ _ (tag == 0) (λ _. apply_dc_block-IsBlock i8 i8-IsReader t h.0)
                  λ _.
                    Keeps-if _ _ _ (tag == 0x40)
                      (λ _. apply_dc_block-IsBlock i16 i16-IsReader t h.0)
                      λ _.
                        Keeps-if _ _ _ (tag == 0x80)
                          (λ _. apply_ac_block-IsBlock i8 i8-IsReader t h.0)
                          λ _.
                            Keeps-if _ _ _ (tag == 0xC0)
                              (λ _. apply_ac_block-IsBlock i16 i16-IsReader t h.0) λ _. stopped h.0
