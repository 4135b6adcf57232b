-- ===== src/O3yv/Reader/Advance.antt =====
-- How far the reads of `Reader` move in an unchanged slice.
use rav1e.Prelude.{ℕ, ◌+◌, ◌*◌, ◌≤◌, ◌^◌, ◌≡◌, ap, List, length, arith, Bool, true, false}
use rav1e.Prelude.{Error, ok, refuse_if, Ensures, Ensures-intro, returned, failed}
use rav1e.O3yv.Bytes.{byte_at}
use rav1e.O3yv.Reader
use rav1e.O3yv.Reader.{Reader}

-- A reader of `bytes` that stands at `least` or further, and not past the end.
pub record IsPast (bytes : List ℕ) (least : ℕ) (r : Reader) : Type 0 where
  pub same : r.bytes ≡ bytes
  pub past : least ≤ r.pos
  pub in_range : r.pos ≤ length bytes

module _ (bytes : List ℕ) (least : ℕ) (r : Reader) (p : IsPast bytes least r) where
  pub weaken : IsPast bytes 0 r
  weaken = record { same = p.same; past = omega arith; in_range = p.in_range }

  pub refuse_if-IsPast :
      (b : Bool) (e : Error)
      → Ensures (IsPast bytes 0) (λ s _. IsPast bytes least s) (refuse_if b e r)
  unfolding refuse_if
  refuse_if-IsPast true e = failed weaken
  refuse_if-IsPast false e = returned p

  pub u8-IsPast : Ensures (IsPast bytes 0) (λ s _. IsPast bytes (least + 1) s) (Reader.u8 r)
  unfolding Reader.u8
  u8-IsPast = Ensures-intro _ _ _ (ground (arith, p.same, p.past, p.in_range, ap length p.same))

  pub u16-IsPast : Ensures (IsPast bytes 0) (λ s _. IsPast bytes (least + 2) s) (Reader.u16 r)
  unfolding Reader.u16
  u16-IsPast = Ensures-intro _ _ _ (ground (arith, p.same, p.past, p.in_range, ap length p.same))

  pub u32-IsPast : Ensures (IsPast bytes 0) (λ s _. IsPast bytes (least + 4) s) (Reader.u32 r)
  unfolding Reader.u32
  u32-IsPast = Ensures-intro _ _ _ (ground (arith, p.same, p.past, p.in_range, ap length p.same))

  pub u64-IsPast : Ensures (IsPast bytes 0) (λ s _. IsPast bytes (least + 8) s) (Reader.u64 r)
  unfolding Reader.u64
  u64-IsPast = Ensures-intro _ _ _ (ground (arith, p.same, p.past, p.in_range, ap length p.same))

  pub skip-IsPast :
      (n : ℕ) → Ensures (IsPast bytes 0) (λ s _. IsPast bytes least s) (Reader.skip n r)
  unfolding Reader.skip Reader.take_bytes Reader.remaining
  skip-IsPast n = Ensures-intro _ _ _ (ground (arith, p.same, p.past, p.in_range, ap length p.same))

-- What a read returns when it fits.
module _ (bytes : List ℕ) (pos : ℕ) where
  pub u8_at :
      pos + 1 ≤ length bytes
      → Reader.u8 (record { bytes = bytes; pos = pos })
        ≡ ok (record { bytes = bytes; pos = pos + 1 }) (byte_at bytes pos)
  unfolding Reader.u8
  u8_at h = ground arith

  pub u16_at :
      pos + 2 ≤ length bytes
      → Reader.u16 (record { bytes = bytes; pos = pos })
        ≡ ok
            (record { bytes = bytes; pos = pos + 2 })
            (byte_at bytes pos + byte_at bytes (pos + 1) * 2 ^ 8)
  unfolding Reader.u16
  u16_at h = ground arith

  pub u32_at :
      pos + 4 ≤ length bytes
      → Reader.u32 (record { bytes = bytes; pos = pos })
        ≡ ok
            (record { bytes = bytes; pos = pos + 4 })
            (byte_at bytes pos
              + byte_at bytes (pos + 1) * 2 ^ 8
              + byte_at bytes (pos + 2) * 2 ^ 16
              + byte_at bytes (pos + 3) * 2 ^ 24)
  unfolding Reader.u32
  u32_at h = ground arith

  pub u64_at :
      pos + 8 ≤ length bytes
      → Reader.u64 (record { bytes = bytes; pos = pos })
        ≡ ok
            (record { bytes = bytes; pos = pos + 8 })
            (byte_at bytes pos
              + byte_at bytes (pos + 1) * 2 ^ 8
              + byte_at bytes (pos + 2) * 2 ^ 16
              + byte_at bytes (pos + 3) * 2 ^ 24
              + byte_at bytes (pos + 4) * 2 ^ 32
              + byte_at bytes (pos + 5) * 2 ^ 40
              + byte_at bytes (pos + 6) * 2 ^ 48
              + byte_at bytes (pos + 7) * 2 ^ 56)
  unfolding Reader.u64
  u64_at h = ground arith
