-- ===== src/Ec/Symbol/Recentred.antt =====
-- The codes that recentre a number around a reference first.
use rav1e.Prelude.{
  ℕ, ◌+◌, ◌-◌, ◌*◌, ◌/◌, ◌%◌, ◌^◌, ◌≤◌, ◌<◌, ◌≡◌, ap, List, Option, none, some, Bool, if◌then◌else◌,
  ltb, leb, ◌==◌, arith, inl, inr, Bool-cases, leb→le, not_leb→lt,
}
use rav1e.Prelude.Int.{ℤ, pos, ◌+ℤ◌, ◌-ℤ◌, int_laws}
use rav1e.Ec.Base.{StorageBackend, recenter}
use rav1e.Ec.Symbol.{
  write_unsigned_subexp_with_ref, count_unsigned_subexp_with_ref, write_signed_subexp_with_ref,
  count_signed_subexp_with_ref, to_u32,
}
use rav1e.Ec.Symbol.Bits.{IsWritten}
use rav1e.Ec.Symbol.Subexp.{read_subexp, write_subexp-IsWritten}

-- The inverse of `recenter` for the reference `r`.
unfoldable pub uncenter : ℕ → ℕ → ℕ
uncenter r x = if ltb (r * 2) x then x else if x % 2 == 0 then r + x / 2 else r - (x + 1) / 2

pub uncenter-recenter : (r v : ℕ) → uncenter r (recenter r v) ≡ v
unfolding uncenter recenter
uncenter-recenter r v = ground arith

pub recenter-lt : (n r v : ℕ) → v < n → r * 2 ≤ n → recenter r v < n
unfolding recenter
recenter-lt n r v h g = ground arith

abbrev undo : (ℕ → ℕ) → Option (ℕ × List Bool) → Option (ℕ × List Bool)
undo f none = none
undo f (some (x, rest)) = some (f x, rest)

unfoldable pub read_with_ref : ℕ → ℕ → ℕ → List Bool → Option (ℕ × List Bool)
read_with_ref n k r bs =
    if leb (r * 2) n
    then undo (uncenter r) (read_subexp n k bs)
    else undo (λ x. n - 1 - uncenter (n - 1 - r) x) (read_subexp n k bs)

module _ {S : Type 0} (b : StorageBackend S) (n k v r : ℕ) (vn : v < n) (rn : r < n)
    (nb : n < 2 ^ 30) (kb : k ≤ 28) where
  pub write_unsigned-IsWritten :
      IsWritten b
        (write_unsigned_subexp_with_ref b v n k r)
        (read_with_ref n k r)
        v
        (count_unsigned_subexp_with_ref v n k r)
  unfolding write_unsigned_subexp_with_ref count_unsigned_subexp_with_ref read_with_ref
  write_unsigned-IsWritten = elim (Bool-cases (leb (r * 2) n)) [
    | inl e ↦
        let code =
          write_subexp-IsWritten b n k (recenter r v) (recenter-lt n r v vn (leb→le (r * 2) n e)) nb
            kb in
        record {
          bits = code.bits;
          puts = λ w. rw e (code.puts w);
          reads = λ rest.
              rw (read_with_ref, e, code.reads rest)
                (ap (λ x. some (x, rest)) (uncenter-recenter r v));
          counts = rw e code.counts;
        }
    | inr e ↦
        let code =
          write_subexp-IsWritten b n k (recenter (n - 1 - r) (n - 1 - v))
            (recenter-lt n (n - 1 - r) (n - 1 - v) (omega arith)
              (omega (arith, not_leb→lt (r * 2) n e)))
            nb kb in
        record {
          bits = code.bits;
          puts = λ w. rw e (code.puts w);
          reads = λ rest.
              rw (read_with_ref, e, code.reads rest)
                (ap (λ x. some (x, rest))
                  (omega (arith, uncenter-recenter (n - 1 - r) (n - 1 - v))));
          counts = rw e code.counts;
        }
  ]

offset : (low : ℤ) (x : ℕ) → x < 2 ^ 32 → to_u32 (low +ℤ pos x -ℤ low) ≡ x
offset low x h = let same : low +ℤ pos x -ℤ low ≡ pos x = omega int_laws in rw same (omega arith)

-- For a number and a reference that are less than n above any low end, n below 2 ^ 30 and k at
-- most 28, `write_signed_subexp_with_ref` neither faults nor runs out of fuel, its reader gets
-- the distance from the low end back and leaves what follows, and `count_signed_subexp_with_ref`
-- is the number of bits written in eighths.
pub write_signed-IsWritten :
    {S : Type 0} (b : StorageBackend S) (low : ℤ) (n k x y : ℕ)
    → x < n
    → y < n
    → n < 2 ^ 30
    → k ≤ 28
    → IsWritten b
        (write_signed_subexp_with_ref b (low +ℤ pos x) low (low +ℤ pos n) k (low +ℤ pos y))
        (read_with_ref n k y)
        x
        (count_signed_subexp_with_ref (low +ℤ pos x) low (low +ℤ pos n) k (low +ℤ pos y))
unfolding write_signed_subexp_with_ref count_signed_subexp_with_ref
write_signed-IsWritten b low n k x y xn yn nb kb =
    rw (offset low x (omega arith), offset low n (omega arith), offset low y (omega arith))
      (write_unsigned-IsWritten b n k x y xn yn nb kb)
