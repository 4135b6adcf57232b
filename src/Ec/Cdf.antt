-- ===== src/Ec/Cdf.antt =====
-- The distributions of src/ec.rs, as 16-bit words, of which the last counts the updates.
pub mod Update
use package.rav1e.Prelude.{
  ℕ, zero, suc, ◌+◌, ◌-◌, ◌*◌, ◌/◌, ◌%◌, ◌^◌, min, List, [], ◌∷◌, length, leb, if◌then◌else◌,
}
use package.rav1e.Ec.Format.{ec_prob_shift, sub16}

abbrev pub cdf_len_max : ℕ
cdf_len_max = 16

-- The loop of `cdf_to_pdf`, with `z`.
unfoldable pub pdf_from : ℕ → List ℕ → List ℕ
pdf_from z [] = []
pdf_from z (a ∷ cdf) = sub16 z (a / 2 ^ ec_prob_shift) ∷ pdf_from (a / 2 ^ ec_prob_shift) cdf

unfoldable pub cdf_to_pdf : List ℕ → List ℕ
cdf_to_pdf cdf = pdf_from (32768 / 2 ^ ec_prob_shift) cdf

-- One probability, at the index `i`.
unfoldable pub move : ℕ → ℕ → ℕ → ℕ → ℕ
move rate val i v =
    if leb val i then sub16 v (v / 2 ^ rate) else (v + sub16 32768 v / 2 ^ rate) % 2 ^ 16

-- The loop over all words but the last, from the index `i`, of `n` rounds at most.
unfoldable pub move_all : ℕ → ℕ → ℕ → ℕ → List ℕ → List ℕ
move_all zero rate val i cdf = cdf
move_all (suc n) rate val i [] = []
move_all (suc n) rate val i (v ∷ []) = v ∷ []
move_all (suc n) rate val i (v ∷ w ∷ cdf) =
    move rate val i v ∷ move_all n rate val (i + 1) (w ∷ cdf)

-- `cdf.last()`.
unfoldable pub count_of : List ℕ → ℕ
count_of [] = 0
count_of (v ∷ []) = v
count_of (v ∷ w ∷ cdf) = count_of (w ∷ cdf)

-- `*count += 1 - (*count >> 5)`.
unfoldable pub count_up : List ℕ → List ℕ
count_up [] = []
count_up (v ∷ []) = (v + sub16 1 (v / 2 ^ 5)) % 2 ^ 16 ∷ []
count_up (v ∷ w ∷ cdf) = v ∷ count_up (w ∷ cdf)

unfoldable pub update_cdf : List ℕ → ℕ → List ℕ
update_cdf [] val = []
update_cdf (v ∷ cdf) val =
    let rate = 3 + min (length (v ∷ cdf) / 2) 2 + count_of (v ∷ cdf) / 2 ^ 4 in
    move_all (cdf_len_max - 1) rate val 0 (count_up (v ∷ cdf))
