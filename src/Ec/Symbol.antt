-- ===== src/Ec/Symbol.antt =====
-- The `Writer` of src/ec.rs, which all storages share: symbols, bits and the codes made of them.
-- The shifts of 32-bit words by an amount that is not a constant take it modulo 32, as a release
-- build does, and a read outside of a distribution is a fault.
pub mod Bits
pub mod Quniform
pub mod Subexp
pub mod Recentred
pub mod Golomb
use package.rav1e.Prelude.{
  ℕ, zero, suc, ◌+◌, ◌-◌, ◌*◌, ◌/◌, ◌%◌, ◌^◌, List, [], ◌∷◌, length, get_elem?, ltb, leb, ◌==◌,
  if◌then◌else◌, Option, none, some, Bool, true, false, M, ok, fault, ◌>>◌,
}
use package.rav1e.Prelude.Int.{ℤ, pos, negsuc, ◌-ℤ◌}
use package.rav1e.Ec.Format.{od_bitres, leading_zeros, sub32}
use package.rav1e.Ec.Base.{WriterBase, StorageBackend, recenter}
use package.rav1e.Ec.Recorder.{Token}

-- `symbol` up to its call of `store`.
unfoldable pub token_of : ℕ → List ℕ → Option Token
token_of s cdf =
    let fl : Option ℕ = if ltb 0 s then get_elem? cdf (s - 1) else some 32768 in
    elim fl [
      | none ↦ none
      | some fl ↦ elim (get_elem? cdf s) [
        | none ↦ none
        | some fh ↦ some (record { fl = fl; fh = fh; nms = length cdf - s })
      ]
    ]

module _ {S : Type 0} (b : StorageBackend S) where
  unfoldable pub symbol : ℕ → List ℕ → M (WriterBase S) (Unit {0})
  symbol s cdf w = elim (token_of s cdf) [
    | some t ↦ ok (b.store t.fl t.fh t.nms w) tt
    | none ↦ fault
  ]

  unfoldable pub bool : Bool → ℕ → M (WriterBase S) (Unit {0})
  bool val f = symbol (if val then 1 else 0) (f ∷ 0 ∷ [])

  unfoldable pub bit : ℕ → M (WriterBase S) (Unit {0})
  bit x = bool (x == 1) 16384

  -- `for i in (0..bits).rev()`, from the highest bit to the lowest.
  unfoldable pub literal : ℕ → ℕ → M (WriterBase S) (Unit {0})
  literal zero s = λ w. ok w tt
  literal (suc i) s = bit (s / 2 ^ i % 2) >> literal i s

  unfoldable pub zeros : ℕ → M (WriterBase S) (Unit {0})
  zeros zero = λ w. ok w tt
  zeros (suc n) = bit 0 >> zeros n

  -- The second loop is that of `literal`.
  unfoldable pub write_golomb : ℕ → M (WriterBase S) (Unit {0})
  write_golomb level =
      let x = (level + 1) % 2 ^ 32 in
      let len = 32 - leading_zeros 32 x in zeros (len - 1) >> literal len x

  unfoldable pub write_quniform : ℕ → ℕ → M (WriterBase S) (Unit {0})
  write_quniform n v =
      let l = 32 - leading_zeros 32 n in
      let m = sub32 (2 ^ (l % 32)) n in
      if ltb 1 n
      then (if ltb v m
          then literal (l - 1) v
          else literal (l - 1) (m + (v - m) / 2) >> literal 1 ((v - m) % 2))
      else λ w. ok w tt

  -- One round of the loop for each unit of fuel, and a fault where it is out of fuel.
  unfoldable pub subexp_loop : ℕ → ℕ → ℕ → ℕ → ℕ → ℕ → M (WriterBase S) (Unit {0})
  subexp_loop zero n k v i mk = λ w. fault
  subexp_loop (suc fuel) n k v i mk =
      let b = if ltb 0 i then k + i - 1 else k in
      let a = 2 ^ (b % 32) in
      let rest = subexp_loop fuel n k v (i + 1) (mk + a) in
      let t = leb (mk + a) v in
      if leb n (mk + 3 * a)
      then write_quniform (n - mk) (v - mk)
      else bool t 16384 >> (if t then rest else literal b (v - mk))

  unfoldable pub write_subexp : ℕ → ℕ → ℕ → M (WriterBase S) (Unit {0})
  write_subexp n k v = subexp_loop 32 n k v 0 0

  unfoldable pub write_unsigned_subexp_with_ref : ℕ → ℕ → ℕ → ℕ → M (WriterBase S) (Unit {0})
  write_unsigned_subexp_with_ref v n k r =
      if leb (r * 2) n
      then write_subexp n k (recenter r v)
      else write_subexp n k (recenter (n - 1 - r) (n - 1 - v))

unfoldable pub count_quniform : ℕ → ℕ → ℕ
count_quniform n v =
    let l = 32 - leading_zeros 32 n in
    let m = sub32 (2 ^ (l % 32)) n in
    if ltb 1 n then (l - 1) * 2 ^ od_bitres + (if leb m v then 2 ^ od_bitres else 0) else 0

-- With the bits counted so far; `none` is out of fuel.
unfoldable pub count_loop : ℕ → ℕ → ℕ → ℕ → ℕ → ℕ → ℕ → Option ℕ
count_loop zero n k v i mk bits = none
count_loop (suc fuel) n k v i mk bits =
    let b = if ltb 0 i then k + i - 1 else k in
    let a = 2 ^ (b % 32) in
    let rest = count_loop fuel n k v (i + 1) (mk + a) (bits + 2 ^ od_bitres) in
    if leb n (mk + 3 * a)
    then some (bits + count_quniform (n - mk) (v - mk))
    else if leb (mk + a) v
    then rest
    else some (bits + 2 ^ od_bitres + b * 2 ^ od_bitres)

unfoldable pub count_subexp : ℕ → ℕ → ℕ → Option ℕ
count_subexp n k v = count_loop 32 n k v 0 0 0

unfoldable pub count_unsigned_subexp_with_ref : ℕ → ℕ → ℕ → ℕ → Option ℕ
count_unsigned_subexp_with_ref v n k r =
    if leb (r * 2) n
    then count_subexp n k (recenter r v)
    else count_subexp n k (recenter (n - 1 - r) (n - 1 - v))

-- `z as u32`.
abbrev pub to_u32 : ℤ → ℕ
to_u32 (pos n) = n % 2 ^ 32
to_u32 (negsuc n) = 2 ^ 32 - 1 - n % 2 ^ 32

unfoldable pub write_signed_subexp_with_ref :
    {S : Type 0} → StorageBackend S → ℤ → ℤ → ℤ → ℕ → ℤ → M (WriterBase S) (Unit {0})
write_signed_subexp_with_ref b v low high k r =
    write_unsigned_subexp_with_ref b (to_u32 (v -ℤ low)) (to_u32 (high -ℤ low)) k
      (to_u32 (r -ℤ low))

unfoldable pub count_signed_subexp_with_ref : ℤ → ℤ → ℤ → ℕ → ℤ → Option ℕ
count_signed_subexp_with_ref v low high k r =
    count_unsigned_subexp_with_ref (to_u32 (v -ℤ low)) (to_u32 (high -ℤ low)) k (to_u32 (r -ℤ low))
