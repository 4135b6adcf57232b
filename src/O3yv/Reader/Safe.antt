-- ===== src/O3yv/Reader/Safe.antt =====
-- A reader's position never passes the end of its slice, and what it reads are bytes.
use rav1e.Prelude.{
  ℕ, zero, suc, ◌+◌, ◌≤◌, ◌<◌, ◌^◌, ◌≡◌, refl, ap, ◌∙◌, List, [], ◌∷◌, length, take, drop, get_or,
  ltb, arith, length-take, length-drop, if◌then◌else◌,
}
use rav1e.Prelude.{Keeps, Keeps-intro, Ensures-bind, Ensures, Ensures-intro, kept}
use rav1e.O3yv.Pixels.Safe.{IsBytes}
use rav1e.O3yv.Reader
use rav1e.O3yv.Reader.{Reader}

pub record IsReader (r : Reader) : Type 0 where
  pub in_range : r.pos ≤ length r.bytes
  pub bytes : IsBytes r.bytes

pub new-IsReader : (bytes : List ℕ) → IsBytes bytes → IsReader (Reader.new bytes)
unfolding Reader.new
new-IsReader bytes b = record { in_range = omega arith; bytes = b }

get_or-take :
    (n : ℕ) (xs : List ℕ) (i : ℕ) → get_or (take n xs) i 0 ≡ (if ltb i n then get_or xs i 0 else 0)
get_or-take zero xs i = ground arith
get_or-take (suc n) [] i = ground arith
get_or-take (suc n) (x ∷ xs) zero = ground arith
get_or-take (suc n) (x ∷ xs) (suc i) = get_or-take n xs i ∙ ground arith

get_or-drop : (n : ℕ) (xs : List ℕ) (i : ℕ) → get_or (drop n xs) i 0 ≡ get_or xs (n + i) 0
get_or-drop zero xs i = ap (λ k. get_or xs k 0) (omega arith)
get_or-drop (suc n) [] i = refl
get_or-drop (suc n) (x ∷ xs) i =
    get_or-drop n xs i ∙ ap (λ k. get_or (x ∷ xs) k 0) {x = suc (n + i)} (omega arith)

-- What a slice holds at each index, and its length.
pub get_or-slice :
    (xs : List ℕ) (start n i : ℕ)
    → get_or (Reader.slice xs start n) i 0 ≡ (if ltb i n then get_or xs (start + i) 0 else 0)
get_or-slice xs start n i =
    get_or-take n (drop start xs) i ∙ ap (λ v. if ltb i n then v else 0) (get_or-drop start xs i)

pub length-slice :
    (xs : List ℕ) (start n : ℕ) → start + n ≤ length xs → length (Reader.slice xs start n) ≡ n
length-slice xs start n h = omega (arith, length-take n (drop start xs), length-drop start xs)

pub slice-IsBytes : (xs : List ℕ) (start n : ℕ) → IsBytes xs → IsBytes (Reader.slice xs start n)
slice-IsBytes xs start n b i = ground (arith, get_or-slice xs start n i, b (start + i))

pub take_bytes-IsReader :
    (n : ℕ) (r : Reader)
    → IsReader r
    → Ensures IsReader (λ s xs. IsReader s × IsBytes xs × (length xs ≡ n)) (Reader.take_bytes n r)
unfolding Reader.take_bytes Reader.remaining
take_bytes-IsReader n r v = Ensures-intro _ _ _ (
    ground (
      arith,
      v.in_range,
      v.bytes,
      slice-IsBytes r.bytes r.pos n v.bytes,
      length-slice r.bytes r.pos n,
    ))

pub skip-IsReader : (n : ℕ) (r : Reader) → IsReader r → Keeps IsReader (Reader.skip n r)
unfolding Reader.skip
skip-IsReader n r v = Ensures-bind (take_bytes-IsReader n r v) λ s _ h. kept h.0

pub consume_optional_trailing_zero-IsReader :
    (r : Reader) → IsReader r → Keeps IsReader (Reader.consume_optional_trailing_zero r)
unfolding Reader.consume_optional_trailing_zero Reader.remaining
consume_optional_trailing_zero-IsReader r v = Keeps-intro _ _ (ground (arith, v.in_range, v.bytes))

pub u8-IsReader :
    (r : Reader) → IsReader r → Ensures IsReader (λ s v. IsReader s × (v < 256)) (Reader.u8 r)
unfolding Reader.u8
u8-IsReader r v = Ensures-intro _ _ _ (ground (arith, v.in_range, v.bytes, v.bytes r.pos))

pub i8-IsReader : (r : Reader) → IsReader r → Keeps IsReader (Reader.i8 r)
unfolding Reader.i8
i8-IsReader r v = Ensures-bind (u8-IsReader r v) λ s _ h. kept h.0

pub u16-IsReader :
    (r : Reader) → IsReader r → Ensures IsReader (λ s v. IsReader s × (v < 2 ^ 16)) (Reader.u16 r)
unfolding Reader.u16
u16-IsReader r v =
    Ensures-intro _ _ _ (ground (arith, v.in_range, v.bytes, v.bytes r.pos, v.bytes (r.pos + 1)))

pub i16-IsReader : (r : Reader) → IsReader r → Keeps IsReader (Reader.i16 r)
unfolding Reader.i16
i16-IsReader r v = Keeps-intro _ _ (ground (arith, v.in_range, v.bytes))

pub u32-IsReader :
    (r : Reader) → IsReader r → Ensures IsReader (λ s v. IsReader s × (v < 2 ^ 32)) (Reader.u32 r)
unfolding Reader.u32
u32-IsReader r v = Ensures-intro _ _ _ (
    ground (
      arith,
      v.in_range,
      v.bytes,
      v.bytes r.pos,
      v.bytes (r.pos + 1),
      v.bytes (r.pos + 2),
      v.bytes (r.pos + 3),
    ))

pub u64-IsReader : (r : Reader) → IsReader r → Keeps IsReader (Reader.u64 r)
unfolding Reader.u64
u64-IsReader r v = Keeps-intro _ _ (ground (arith, v.in_range, v.bytes))
