-- ===== src/Ec/Encoder/Exact/Finish.antt =====
-- The end of the stream: the bits that are left name a number of the interval, and the carries
-- are resolved.
use rav1e.Prelude.{
  ℕ, zero, suc, ◌+◌, ◌-◌, ◌*◌, ◌/◌, ◌%◌, ◌^◌, ◌≤◌, ◌<◌, ◌≡◌, refl, ap, ◌∙◌, List, [], ◌∷◌, ◌++◌,
  length, length-append, arith, Option, some, false, true,
}
use rav1e.Prelude.Int.{pos, negsuc, ◌+ℤ◌, ◌-ℤ◌, int_laws, ltb_ℤ}
use rav1e.Prelude.Powers.{pow_split, pow_mono, lt_cancel, div-pow-lt}
use native.Mathlib.Nat.{div-add-mod', mul-mod_left}
use rav1e.Ec.Base.{WriterBase}
use rav1e.Ec.Encoder.{WriterEncoder, done, end_point, propagate, flush, last_digits}
use rav1e.Ec.Encoder.Exact.{
  Exact, value_from, value-append, IsDigits, no_digits, digit, IsDigits-append,
}
use rav1e.Ec.Encoder.Exact.Refinement.{Refines, HasRoom}

-- The number that the last bits name: it is in any interval of 2 ^ 15 numbers, and an odd multiple
-- of 2 ^ 14.
pub end_point_lem :
    (low : ℕ)
    → low < 2 ^ 25
    → (low ≤ end_point low) × (end_point low < low + 32768) × (end_point low % 2 ^ 15 ≡ 2 ^ 14)
unfolding end_point
end_point_lem low h = ground arith

-- Bytes.
pub data IsBytes : List ℕ → Type 0 where
  no_bytes : IsBytes []
  byte : {x : ℕ} {xs : List ℕ} → x < 256 → IsBytes xs → IsBytes (x ∷ xs)

value-acc :
    (acc : ℕ) (xs : List ℕ) → value_from acc xs ≡ acc * 2 ^ (8 * length xs) + value_from 0 xs
unfolding value_from
value-acc acc [] = omega arith
value-acc acc (x ∷ xs) =
    let p = 2 ^ (8 * length xs) in
    let split : 2 ^ (8 * suc (length xs)) ≡ 2 ^ 8 * p =
      pow_split 8 (8 * length xs) (8 * suc (length xs)) (omega arith) in
    rw (split, value-acc (acc * 256 + x) xs, value-acc (0 * 256 + x) xs) (omega arith)

-- Resolving the carries keeps the number.
pub record IsPropagated (xs : List ℕ) (out : List ℕ × ℕ) : Type 0 where
  pub bytes : IsBytes out.0
  pub carry_le : out.1 ≤ 2
  pub same_length : length out.0 ≡ length xs
  pub same_value : out.1 * 2 ^ (8 * length xs) + value_from 0 out.0 ≡ value_from 0 xs

pub propagate_lem : (xs : List ℕ) → IsDigits xs → IsPropagated xs (propagate xs)
unfolding propagate value_from
propagate_lem [] h = record {
  bytes = no_bytes;
  carry_le = omega arith;
  same_length = refl;
  same_value = refl;
}
propagate_lem (x ∷ xs) (digit b h) =
    let rest = propagate_lem xs h in
    let out = (propagate xs).0 in
    let carry = (propagate xs).1 in
    let c = (carry + x) % 2 ^ 16 in
    let whole : c ≡ carry + x = omega (arith, rest.carry_le) in
    record {
      bytes = byte (omega arith) rest.bytes;
      carry_le = omega (arith, whole, rest.carry_le);
      same_length = ap suc rest.same_length;
      same_value =
          let p = 2 ^ (8 * length xs) in
          let split : 2 ^ (8 * suc (length xs)) ≡ 2 ^ 8 * p =
            pow_split 8 (8 * length xs) (8 * suc (length xs)) (omega arith) in
          let parts : c / 2 ^ 8 * 2 ^ 8 + c % 2 ^ 8 ≡ carry + x = omega (arith, whole) in
          let scaled : (c / 2 ^ 8 * 2 ^ 8 + c % 2 ^ 8) * p ≡ (carry + x) * p =
            ap (λ (n : ℕ). n * p) parts in
          let left : value_from (0 + c % 2 ^ 8) out ≡ (0 + c % 2 ^ 8) * p + value_from 0 out =
            value-acc (0 + c % 2 ^ 8) out
            ∙ ap (λ (n : ℕ). (0 + c % 2 ^ 8) * 2 ^ (8 * n) + value_from 0 out) rest.same_length in
          rw (left, value-acc (0 + x) xs, split) (omega (arith, scaled, rest.same_value));
    }

-- Two rounds put all of it out: the last 14 bits are 0.
pub record IsFlushed (k E : ℕ) (r : Option (List ℕ)) : Type 0 where
  pub bytes : List ℕ
  pub returned : r ≡ some bytes
  pub digits : IsDigits bytes
  pub low_bits : 8 * length bytes ≤ 23 - k
  pub some_bits : 1 ≤ length bytes
  pub value :
      (acc : ℕ) → value_from acc bytes * 2 ^ (23 - k - 8 * length bytes) ≡ acc * 2 ^ (23 - k) + E

nothing_left : (k E : ℕ) → 1 ≤ k → k ≤ 8 → E % 2 ^ 14 ≡ 0 → E % 2 ^ (15 - k) ≡ 0
nothing_left k E h g z =
    let m = E / 2 ^ 14 in
    let multiple : E ≡ m * 2 ^ (k - 1) * 2 ^ (15 - k) =
      omega (arith, z, ap (λ (t : ℕ). m * t) (pow_split (k - 1) (15 - k) 14 (omega arith))) in
    ap (λ (n : ℕ). n % 2 ^ (15 - k)) multiple ∙ mul-mod_left (m * 2 ^ (k - 1)) (2 ^ (15 - k))

last_round : (k : ℕ) → 1 ≤ k → k ≤ 8 → ltb_ℤ (pos 0) (pos (9 - k) -ℤ pos 8) ≡ false
unfolding ◌-ℤ◌
last_round k h g = ground arith

flush_once :
    (k E : ℕ)
    → 1 ≤ k
    → k ≤ 8
    → E < 2 ^ (24 - k)
    → E % 2 ^ 14 ≡ 0
    → IsFlushed k E (flush 2 (pos (9 - k)) (15 - k) E)
unfolding flush value_from
flush_once k E h g b z =
    let q = E / 2 ^ (15 - k) in
    let small : q < 512 =
      div-pow-lt E (15 - k) 512 (omega (arith, b, pow_split (15 - k) 9 (24 - k) (omega arith))) in
    let divides : q * 2 ^ (15 - k) ≡ E =
      omega (arith, div-add-mod' E (2 ^ (15 - k)), nothing_left k E h g z) in
    record {
      bytes = q % 2 ^ 16 ∷ [];
      returned = rw (last_round k h g) refl;
      digits = digit (omega arith) no_digits;
      low_bits = omega arith;
      some_bits = omega arith;
      value = λ acc.
          let whole : q % 2 ^ 16 ≡ q = omega arith in
          let shift : 23 - k - 8 * 1 ≡ 15 - k = omega arith in
          rw (whole, shift, pow_split 8 (15 - k) (23 - k) (omega arith)) (omega (arith, divides));
    }

flush_twice : (E : ℕ) → E < 2 ^ 24 → E % 2 ^ 14 ≡ 0 → IsFlushed 0 E (flush 2 (pos 9) 15 E)
unfolding flush value_from ◌-ℤ◌
flush_twice E b z = record {
  bytes = E / 2 ^ 15 % 2 ^ 16 ∷ E % 2 ^ 15 / 2 ^ 7 % 2 ^ 16 ∷ [];
  returned = refl;
  digits = digit (omega arith) (digit (omega arith) no_digits);
  low_bits = omega arith;
  some_bits = omega arith;
  value = λ acc. omega arith;
}

-- The bytes stand for a number of the exact coder's interval: followed by zeros, and as a fraction.
pub record IsCode (x : Exact) (r : Option (List ℕ)) : Type 0 where
  pub bytes : List ℕ
  pub returned : r ≡ some bytes
  pub are_bytes : IsBytes bytes
  pub size : 8 * length bytes ≤ x.bits + 15
  pub least_size : x.bits ≤ 8 * length bytes
  pub above : x.low ≤ value_from 0 bytes * 2 ^ (x.bits + 15 - 8 * length bytes)
  pub below : value_from 0 bytes * 2 ^ (x.bits + 15 - 8 * length bytes) < x.low + x.rng

sum_10 : (k : ℕ) → k ≤ 8 → negsuc k +ℤ pos 10 ≡ pos (9 - k)
sum_10 k h = omega int_laws

sum_16 : (k : ℕ) → k ≤ 8 → negsuc k +ℤ pos 16 ≡ pos (15 - k)
sum_16 k h = omega int_laws

positive : (k : ℕ) → k ≤ 8 → ltb_ℤ (pos 0) (pos (9 - k)) ≡ true
positive k h = ground arith

flush_lem :
    (k E : ℕ)
    → k ≤ 8
    → E < 2 ^ (24 - k)
    → E % 2 ^ 14 ≡ 0
    → IsFlushed k E (flush 2 (pos (9 - k)) (15 - k) E)
flush_lem zero E h b z = flush_twice E b z
flush_lem (suc k) E h b z = flush_once (suc k) E (omega arith) h b z

no_multiple : (c P o v : ℕ) → c * P + o ≡ v → v < P → c ≡ 0
no_multiple zero P o v h b = refl
no_multiple (suc c) P o v h b = absurd (omega arith)

module _ (w : WriterBase WriterEncoder) (x : Exact) (h : Refines w x) (room : HasRoom x) where
  open h use {left, left_le, normal, fits}

  abbrev low : ℕ
  low = w.s.low

  power : 2 ^ (24 - left) ≤ 2 ^ 24
  power = pow_mono (24 - left) 24 (omega arith)

  end_facts :
      (low ≤ end_point low) × (end_point low < low + 32768) × (end_point low % 2 ^ 15 ≡ 2 ^ 14)
  end_facts = end_point_lem low (omega (arith, power, fits))

  flushed : IsFlushed left (end_point low) (flush 2 (pos (9 - left)) (15 - left) (end_point low))
  flushed =
      flush_lem left (end_point low) left_le (omega (arith, end_facts, fits, normal.least))
        (omega (arith, end_facts))

  abbrev all : List ℕ
  all = w.s.precarry ++ flushed.bytes

  propagated : IsPropagated all (propagate all)
  propagated = propagate_lem all (IsDigits-append h.digits flushed.digits)

  returned : last_digits low w.cnt ≡ some flushed.bytes
  unfolding last_digits
  returned =
      rw (h.cnt)
        (rw (sum_10 left left_le, sum_16 left left_le, positive left left_le) flushed.returned)

  -- The bits of the exact number beyond those of the bytes.
  beyond : x.bits + 15 - 8 * length all ≡ 23 - left - 8 * length flushed.bytes
  beyond = omega (arith, h.balance, length-append w.s.precarry flushed.bytes, flushed.low_bits)

  size : 8 * length all ≤ x.bits + 15
  size = omega (arith, h.balance, length-append w.s.precarry flushed.bytes, flushed.low_bits)

  least_size : x.bits ≤ 8 * length all
  least_size = omega (arith, h.balance, length-append w.s.precarry flushed.bytes, flushed.some_bits)

  all_value : value_from 0 all * 2 ^ (x.bits + 15 - 8 * length all) + low ≡ x.low + end_point low
  all_value =
      let v = value_from 0 w.s.precarry in
      rw (value-append 0 w.s.precarry flushed.bytes, beyond)
        (omega (arith, flushed.value v, h.value))

  no_carry : (propagate all).1 ≡ 0
  no_carry =
      let B = x.bits + 15 - 8 * length all in
      let whole : 2 ^ (x.bits + 15) ≡ 2 ^ (8 * length all) * 2 ^ B =
        pow_split (8 * length all) B (x.bits + 15) (omega (arith, size)) in
      let small : value_from 0 all * 2 ^ B < 2 ^ (8 * length all) * 2 ^ B =
        omega (arith, all_value, end_facts, room, h.same_rng, normal.least, whole) in
      no_multiple (propagate all).1 (2 ^ (8 * length all)) (value_from 0 (propagate all).0)
        (value_from 0 all) propagated.same_value
        (lt_cancel (value_from 0 all) (2 ^ (8 * length all)) (2 ^ B) small)

  same_value : value_from 0 (propagate all).0 ≡ value_from 0 all
  same_value =
      omega (arith, propagated.same_value, ap (λ (c : ℕ). c * 2 ^ (8 * length all)) no_carry)

  -- For an encoder that refines an exact coder with `low + rng` at most 2 ^ (bits + 15), `done`
  -- is not out of fuel: it returns bytes below 256, no carry is lost, and as a fraction followed
  -- by zeros they lie within the interval of the exact coder, in at least its bits and at most 15
  -- more.
  pub done-IsCode : IsCode x (done w)
  unfolding done
  done-IsCode = record {
    bytes = (propagate all).0;
    returned = rw (returned, done) refl;
    are_bytes = propagated.bytes;
    size = rw propagated.same_length size;
    least_size = rw propagated.same_length least_size;
    above = rw (propagated.same_length, same_value) (omega (arith, all_value, end_facts));
    below =
        rw (propagated.same_length, same_value)
          (omega (arith, all_value, end_facts, h.same_rng, normal.least));
  }
