-- ===== src/Ec/Decode.antt =====
-- A decoder of the format for whole numbers: it searches the symbols as the `Reader` of the tests
-- of src/ec.rs does, and reads zeros behind the last byte.
pub mod Search
pub mod RoundTrip
use package.rav1e.Prelude.{
  ℕ, zero, suc, ◌+◌, ◌-◌, ◌*◌, ◌^◌, List, [], ◌∷◌, length, ltb, if◌then◌else◌, Option, none, some,
  Bool,
}
use package.rav1e.Ec.Format.{leading_zeros}
use package.rav1e.Ec.Base.{lr_compute}
use package.rav1e.Ec.Recorder.{Token}
use package.rav1e.Ec.Symbol.{token_of}
use package.rav1e.Ec.Encoder.Exact.{value_from}

-- The number less the lower end of the range, with `left` bits behind those of the range.
pub record Decoder : Type 0 where
  pub dif : ℕ
  pub rng : ℕ
  pub left : ℕ

abbrev pub start_of : List ℕ → Decoder
start_of bytes = record { dif = value_from 0 bytes * 2 ^ 15; rng = 0x8000; left = 8 * length bytes }

-- The decoder behind a token.
abbrev pub advance : Token → Decoder → Decoder
advance t d =
    let (l, r) = lr_compute d.rng t.fl t.fh t.nms in
    let z = leading_zeros 16 r in
    record { dif = d.dif - l * 2 ^ d.left; rng = r * 2 ^ z; left = d.left - z }

-- Whether the number lies below the upper end of the token's range.
abbrev pub is_below : Token → Decoder → Bool
is_below t d = let (l, r) = lr_compute d.rng t.fl t.fh t.nms in ltb d.dif ((l + r) * 2 ^ d.left)

-- The first symbol from `s` on, of `n` at most, whose range holds the number.
unfoldable pub find : ℕ → ℕ → List ℕ → Decoder → Option (ℕ × Decoder)
find zero s cdf d = none
find (suc n) s cdf d =
    let rest = find n (s + 1) cdf d in
    elim (token_of s cdf) [
      | none ↦ none
      | some t ↦ if is_below t d then some (s, advance t d) else rest
    ]

-- One symbol of each distribution.
unfoldable pub decode_all : List (List ℕ) → Decoder → Option (List ℕ)
decode_all [] d = some []
decode_all (cdf ∷ cdfs) d = elim (find (length cdf) 0 cdf d) [
  | none ↦ none
  | some (s, d) ↦ elim (decode_all cdfs d) [ none ↦ none | some ss ↦ some (s ∷ ss) ]
]
