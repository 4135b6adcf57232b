-- ===== src/O3yv/Write/Places.antt =====
-- Where a list stands in a list of bytes, and what is read there.
use rav1e.Prelude.{
  ℕ, zero, suc, ◌+◌, ◌≤◌, ◌<◌, ◌≡◌, refl, sym, ap, ap₂, ◌∙◌, List, [], ◌∷◌, ◌++◌, append_assoc,
  length, arith, get_or,
}
use rav1e.Prelude.{ok, ok-bind, ok-zoom}
use rav1e.O3yv.Format.{eye_y_bytes, eye_chroma_bytes, eye_frame_bytes}
use rav1e.O3yv.Bytes
use rav1e.O3yv.Bytes.{byte_at, le_byte, word16, word32}
use rav1e.O3yv.Frame.{EyeFrame}
use rav1e.O3yv.Pixels
use rav1e.O3yv.Pixels.Safe.{get_or-copy_range, length-copy_range}
use rav1e.O3yv.Eye.{IsEye}
use rav1e.O3yv.Stream
use rav1e.O3yv.Stream.{StreamDecoder, DecodedFrame}
use rav1e.O3yv.Write
use rav1e.O3yv.Write.RoundTrip.{get_or-append}

-- Lists of one length that agree at each index are equal.
pub list_ext :
    (xs ys : List ℕ)
    → length xs ≡ length ys
    → ((i : ℕ) → i < length ys → get_or xs i 0 ≡ get_or ys i 0)
    → xs ≡ ys
list_ext [] [] h k = refl
list_ext [] (y ∷ ys) h k = absurd (omega arith)
list_ext (x ∷ xs) [] h k = absurd (omega arith)
list_ext (x ∷ xs) (y ∷ ys) h k =
    ap₂ (λ z zs. z ∷ zs) (k 0 (omega arith))
      (list_ext xs ys (omega arith) λ i l. k (suc i) (omega arith))

-- The bytes of `bytes` from `off` on are those of `plane`.
abbrev pub StandsAt : List ℕ → ℕ → List ℕ → Type 0
StandsAt bytes off plane = (i : ℕ) → i < length plane → get_or bytes (off + i) 0 ≡ get_or plane i 0

pub copy_at-StandsAt :
    (n : ℕ) (dst bytes plane : List ℕ) (off : ℕ)
    → length dst ≡ n
    → length plane ≡ n
    → off + n ≤ length bytes
    → StandsAt bytes off plane
    → Pixels.copy_at n 0 bytes off dst ≡ ok plane tt
unfolding Pixels.copy_at
copy_at-StandsAt n dst bytes plane off hd hp fits at =
    let same : Pixels.copy_range n 0 bytes off dst ≡ plane =
      list_ext _ _ (length-copy_range n 0 bytes off dst ∙ (hd ∙ sym hp))
        λ i l. ground (arith, get_or-copy_range n 0 bytes off dst i (omega arith), at i l) in
    ground (arith, same)

pub read_eye_raw_from_stream-StandsAt :
    (bytes : List ℕ) (off : ℕ) (e e' : EyeFrame)
    → IsEye e
    → IsEye e'
    → off + eye_frame_bytes ≤ length bytes
    → StandsAt bytes off e'.y
    → StandsAt bytes (off + eye_y_bytes) e'.cb
    → StandsAt bytes (off + eye_y_bytes + eye_chroma_bytes) e'.cr
    → Stream.read_eye_raw_from_stream bytes off e ≡ ok e' tt
unfolding Stream.read_eye_raw_from_stream
read_eye_raw_from_stream-StandsAt bytes off e e' v v' fits y cb cr =
    ok-bind _
      (ok-zoom _
        (copy_at-StandsAt eye_y_bytes e.y bytes e'.y off v.luma.size v'.luma.size (omega arith) y))
      (ok-bind _
        (ok-zoom _ (
          copy_at-StandsAt eye_chroma_bytes e.cb bytes e'.cb _ v.blue.size v'.blue.size
            (omega arith) cb))
        (ok-zoom _ (
          copy_at-StandsAt eye_chroma_bytes e.cr bytes e'.cr _ v.red.size v'.red.size (omega arith)
            cr)))

pub write_frame_header-append :
    (out : List ℕ) (len number kind cost : ℕ)
    → Write.write_frame_header out len number kind cost
      ≡ out ++ Write.write_frame_header [] len number kind cost
unfolding Write.write_frame_header Bytes.put_u32 Bytes.push
write_frame_header-append out len number kind cost = simp append_assoc

pub get_or-prefix : (xs ys : List ℕ) (i : ℕ) → i < length xs → get_or (xs ++ ys) i 0 ≡ get_or xs i 0
get_or-prefix [] ys i h = elim h [ ]
get_or-prefix (x ∷ xs) ys zero h = refl
get_or-prefix (x ∷ xs) ys (suc i) h = get_or-prefix xs ys i (omega arith)

pub part-StandsAt :
    (before plane behind bytes : List ℕ) (off : ℕ)
    → bytes ≡ before ++ (plane ++ behind)
    → off ≡ length before
    → StandsAt bytes off plane
part-StandsAt before plane behind bytes off e h i l =
    ap (λ xs. get_or xs (off + i) 0) e
    ∙ (get_or-append before (plane ++ behind) (off + i) i (omega arith)
        ∙ get_or-prefix plane behind i l)

pub load-StandsAt :
    (bytes xs : List ℕ) (off k m : ℕ)
    → StandsAt bytes off xs
    → k + 4 ≤ length xs
    → m ≡ off + k
    → word32 bytes m ≡ word32 xs k
unfolding word32
load-StandsAt bytes xs off k m at h e =
    let byte : (j : ℕ) → j < 4 → get_or bytes (m + j) 0 ≡ get_or xs (k + j) 0 =
      λ j l. ap (λ i. get_or bytes i 0) (omega arith) ∙ at (k + j) (omega arith) in
    let first : get_or bytes m 0 ≡ get_or xs k 0 =
      ap (λ i. get_or bytes i 0) e ∙ at k (omega arith) in
    omega (arith, first, byte 1 (omega arith), byte 2 (omega arith), byte 3 (omega arith))
