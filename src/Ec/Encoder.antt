-- ===== src/Ec/Encoder.antt =====
-- `WriterEncoder` of src/ec.rs: it writes bytes, with carries that the end resolves.
pub mod Exact
use package.rav1e.Prelude.{
  ℕ, zero, suc, ◌+◌, ◌-◌, ◌*◌, ◌/◌, ◌%◌, ◌^◌, List, [], ◌∷◌, ◌++◌, length, take, ltb, leb, ◌==◌,
  if◌then◌else◌, Option, none, some,
}
use package.rav1e.Prelude.Int.{ℤ, pos, negsuc, ◌+ℤ◌, ◌-ℤ◌, pos_part, ltb_ℤ}
use package.rav1e.Ec.Format.{leading_zeros}
use package.rav1e.Ec.Base.{WriterBase, WriterCheckpoint, StorageBackend, lr_compute}
use package.rav1e.Ec.Base

-- `precarry` holds `u16`, and `low` is an `ec_window` of 32 bits.
pub record WriterEncoder : Type 0 where
  pub precarry : List ℕ
  pub low : ℕ

unfoldable pub new : WriterBase WriterEncoder
new = Base.new (record { precarry = []; low = 0 })

-- The branch that puts out one byte, or two: the bytes, what is left of `low`, and `cnt`.
-- `c` is `cnt + 16`, and `x & m` for the masks `(1 << c) - 1` is written `x % 2 ^ c`.
unfoldable pub put_out : ℕ → ℕ → ℕ → ℤ → List ℕ × ℕ × ℤ
put_out low c d s =
    let one : List ℕ × ℕ × ℤ = (low / 2 ^ c % 2 ^ 16 ∷ [], low % 2 ^ c, pos (c + d) -ℤ pos 24) in
    let rest = low % 2 ^ c in
    let c' = c - 8 in
    let two : List ℕ × ℕ × ℤ =
      (low / 2 ^ c % 2 ^ 16 ∷ rest / 2 ^ c' % 2 ^ 16 ∷ [], rest % 2 ^ c', pos (c' + d) -ℤ pos 24) in
    if ltb_ℤ s (pos 8) then one else two

-- The whole `if s >= 0`, for `low`, `cnt` and `d`.
unfoldable pub emit : ℕ → ℤ → ℕ → List ℕ × ℕ × ℤ
emit low cnt d =
    let s = cnt +ℤ pos d in
    let put = put_out low (pos_part (cnt +ℤ pos 16)) d s in
    if ltb_ℤ s (pos 0) then ([], low, s) else put

unfoldable pub store : ℕ → ℕ → ℕ → WriterBase WriterEncoder → WriterBase WriterEncoder
store fl fh nms w =
    let (l, r) = lr_compute w.rng fl fh nms in
    let d = leading_zeros 16 r in
    let (bytes, low, s) = emit ((l + w.s.low) % 2 ^ 32) w.cnt d in
    record w {
      s = record { precarry = w.s.precarry ++ bytes; low = low * 2 ^ d % 2 ^ 32 };
      rng = r * 2 ^ d % 2 ^ 16;
      cnt = s;
    }

unfoldable pub stream_bits : WriterBase WriterEncoder → ℕ
stream_bits w = length w.s.precarry * 8

unfoldable pub checkpoint : WriterBase WriterEncoder → WriterCheckpoint
checkpoint w = record {
  stream_size = length w.s.precarry;
  backend_var = w.s.low;
  rng = w.rng;
  cnt = w.cnt;
}

unfoldable pub rollback : WriterCheckpoint → WriterBase WriterEncoder → WriterBase WriterEncoder
rollback c w = record w {
  rng = c.rng;
  cnt = c.cnt;
  s = record { precarry = take c.stream_size w.s.precarry; low = c.backend_var % 2 ^ 32 };
}

abbrev pub backend : StorageBackend WriterEncoder
backend = record {
  store = store;
  stream_bits = stream_bits;
  checkpoint = checkpoint;
  rollback = rollback;
}

-- The loop that puts out what is left in `e`, with `c16` for `c + 16`; `none` is out of fuel.
unfoldable pub flush : ℕ → ℤ → ℕ → ℕ → Option (List ℕ)
flush zero s c16 e = none
flush (suc fuel) s c16 e =
    let byte = e / 2 ^ c16 % 2 ^ 16 in
    let rest = flush fuel (s -ℤ pos 8) (c16 - 8) (e % 2 ^ c16) in
    if ltb_ℤ (pos 0) (s -ℤ pos 8)
    then elim rest [ some bytes ↦ some (byte ∷ bytes) | none ↦ none ]
    else some (byte ∷ [])

-- `((l + m) & !m) | (m + 1)` for `m = 0x3FFF`.
unfoldable pub end_point : ℕ → ℕ
end_point l = let x = (l + 0x3FFF) % 2 ^ 32 / 2 ^ 14 in (if x % 2 == 0 then x + 1 else x) * 2 ^ 14

-- The loop from the last byte to the first: the bytes, and the carry out of the first.
unfoldable pub propagate : List ℕ → List ℕ × ℕ
propagate [] = ([], 0)
propagate (x ∷ xs) =
    let (out, carry) = propagate xs in let c = (carry + x) % 2 ^ 16 in (c % 2 ^ 8 ∷ out, c / 2 ^ 8)

-- What `low` still holds, of which `s = 10 + cnt` bits are put out. Two rounds are enough.
unfoldable pub last_digits : ℕ → ℤ → Option (List ℕ)
last_digits low cnt =
    let s = cnt +ℤ pos 10 in
    let put = flush 2 s (pos_part (cnt +ℤ pos 16)) (end_point low) in
    if ltb_ℤ (pos 0) s then put else some []

unfoldable pub done : WriterBase WriterEncoder → Option (List ℕ)
done w = elim (last_digits w.s.low w.cnt) [
  | some bytes ↦ some ((propagate (w.s.precarry ++ bytes)).0)
  | none ↦ none
]
