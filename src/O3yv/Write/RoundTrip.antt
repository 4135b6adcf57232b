-- ===== src/O3yv/Write/RoundTrip.antt =====
-- What the writers write, the decoder reads back.
use rav1e.Prelude.{
  ℕ, zero, suc, ◌+◌, ◌*◌, ◌<◌, ◌^◌, ◌≡◌, refl, ap, ◌∙◌, List, [], ◌∷◌, ◌++◌, append_assoc, length,
  arith, get_or,
}
use rav1e.Prelude.{ok, refuse_if, ok-bind}
use rav1e.O3yv.Bytes
use rav1e.O3yv.Bytes.{byte_at, le_byte, word16, word32}
use rav1e.O3yv.Reader
use rav1e.O3yv.Reader.{Reader}
use rav1e.O3yv.Reader.Advance.{u8_at, u16_at, u32_at, u64_at}
use rav1e.O3yv.Stream
use rav1e.O3yv.Write

pub le_bytes_32 :
    (v : ℕ)
    → v < 2 ^ 32
    → le_byte 0 v + le_byte 1 v * 2 ^ 8 + le_byte 2 v * 2 ^ 16 + le_byte 3 v * 2 ^ 24 ≡ v
le_bytes_32 v h = omega arith

pub get_or-append :
    (xs ys : List ℕ) (k i : ℕ) → k ≡ length xs + i → get_or (xs ++ ys) k 0 ≡ get_or ys i 0
get_or-append [] ys k i h = ap (λ k. get_or ys k 0) (omega arith)
get_or-append (x ∷ xs) ys zero i h = absurd (omega arith)
get_or-append (x ∷ xs) ys (suc k) i h = get_or-append xs ys k i (omega arith)

-- For v below 2 ^ 32, `word32` at the length of the buffer reads v from what `put_u32` wrote
-- behind it, whatever follows.
pub word32-put_u32 :
    (out rest : List ℕ) (v : ℕ) → v < 2 ^ 32 → word32 (Bytes.put_u32 out v ++ rest) (length out) ≡ v
unfolding Bytes.put_u32 word32
word32-put_u32 out rest v h =
    let bytes = le_byte 0 v ∷ le_byte 1 v ∷ le_byte 2 v ∷ le_byte 3 v ∷ [] in
    let at : (i : ℕ)
        → byte_at (Bytes.put_u32 out v ++ rest) (length out + i) ≡ byte_at (bytes ++ rest) i =
      λ i.
        ap (λ xs. get_or xs (length out + i) 0) (append_assoc out bytes rest)
        ∙ get_or-append out (bytes ++ rest) (length out + i) i refl in
    let first : byte_at (Bytes.put_u32 out v ++ rest) (length out) ≡ le_byte 0 v =
      ap (λ xs. get_or xs (length out) 0) (append_assoc out bytes rest)
      ∙ get_or-append out (bytes ++ rest) (length out) 0 (omega arith) in
    omega (arith, first, at 1, at 2, at 3, le_bytes_32 v h)

-- For any frame count and any bytes behind it, `parse_file_header` accepts what
-- `write_file_header` writes and then stands at byte 60.
pub parse_file_header-write_file_header :
    (frame_count : ℕ) (rest : List ℕ)
    → Stream.parse_file_header (Reader.new (Write.write_file_header [] frame_count ++ rest))
      ≡ ok (record { bytes = Write.write_file_header [] frame_count ++ rest; pos = 60 }) tt
unfolding Stream.parse_file_header Reader.new Write.write_file_header Bytes.put_u16 Bytes.put_u32
    Bytes.put_u64 refuse_if
parse_file_header-write_file_header frame_count rest =
    let bytes = Write.write_file_header [] frame_count ++ rest in
    ok-bind _ (u32_at bytes 0 (omega arith)) (
      ok-bind _ (u16_at bytes 4 (omega arith)) (
        ok-bind _ (u16_at bytes 6 (omega arith)) (
          ok-bind _ (u16_at bytes 8 (omega arith)) (
            ok-bind _ (u16_at bytes 10 (omega arith)) (
              ok-bind _ (u16_at bytes 12 (omega arith)) (
                ok-bind _ (u16_at bytes 14 (omega arith)) (
                  ok-bind _ (u16_at bytes 16 (omega arith)) (
                    ok-bind _ (u16_at bytes 18 (omega arith)) (
                      ok-bind _ (u16_at bytes 20 (omega arith)) (
                        ok-bind _ (u16_at bytes 22 (omega arith)) (
                          ok-bind _ (u8_at bytes 24 (omega arith)) (
                            ok-bind _ (u8_at bytes 25 (omega arith)) (
                              ok-bind _ (u8_at bytes 26 (omega arith)) (
                                ok-bind _ (u8_at bytes 27 (omega arith)) (
                                  ok-bind _ (u32_at bytes 28 (omega arith)) (
                                    ok-bind _ (u32_at bytes 32 (omega arith)) (
                                      ok-bind _ (u32_at bytes 36 (omega arith)) (
                                        ok-bind _ (u32_at bytes 40 (omega arith)) (
                                          ok-bind _ (u16_at bytes 44 (omega arith)) (
                                            ok-bind _ (u16_at bytes 46 (omega arith)) (
                                              ok-bind _ (u32_at bytes 48 (omega arith)) (
                                                ok-bind _ (u64_at bytes 52 (omega arith))
                                                  (refl)))))))))))))))))))))))
