-- ===== src/O3yv/Bytes/Loads.antt =====
-- The loads through a pointer, where they are inside the slice.
use rav1e.Prelude.{ℕ, ◌+◌, ◌≤◌, ◌≡◌, List, length, arith}
use rav1e.Prelude.{ok, Outcome, Ensures, returned, subst, sym}
use rav1e.O3yv.Bytes.{byte_at, word16, word32, load_byte, load_u16_le, load_u32_le}

module _ {S : Type 0} (bytes : List ℕ) (i : ℕ) (s : S) where
  pub load_byte_at : i + 1 ≤ length bytes → load_byte bytes i s ≡ ok s (byte_at bytes i)
  unfolding load_byte
  load_byte_at h = ground arith

  pub load_u16_le_at : i + 2 ≤ length bytes → load_u16_le bytes i s ≡ ok s (word16 bytes i)
  unfolding load_u16_le
  load_u16_le_at h = ground arith

  pub load_u32_le_at : i + 4 ≤ length bytes → load_u32_le bytes i s ≡ ok s (word32 bytes i)
  unfolding load_u32_le
  load_u32_le_at h = ground arith

-- A run that is known keeps what holds of its state.
pub ok-Ensures :
    {S A : Type 0} {I : S → Type 0} {r : Outcome S A} {s : S} {a : A}
    → r ≡ ok s a
    → I s
    → Ensures I (λ t _. I t) r
ok-Ensures {I} e h = subst (λ r. Ensures I (λ t _. I t) r) (sym e) (returned h)
