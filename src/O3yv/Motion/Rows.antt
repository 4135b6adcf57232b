-- ===== src/O3yv/Motion/Rows.antt =====
-- What a motion copy writes: each pixel of a row comes from its clamped position.
use rav1e.Prelude.{
  ℕ, ◌+◌, ◌-◌, ◌≤◌, ◌<◌, ◌≡◌, refl, ap, ◌∙◌, List, length, get_or, set, arith, ltb, leb, ◌&&◌,
  length-set, if◌then◌else◌,
}
use rav1e.Prelude.{Outcome, ok, Ensures, Ensures-intro, Ensures-if, returned, done}
use rav1e.O3yv.Pixels
use rav1e.O3yv.Pixels.{load_from, store_at}
use rav1e.O3yv.Pixels.Safe.{
  get_or-set, get_or-copy_range, length-copy_range, get_or-fill_range, length-fill_range,
}

-- `out` is `dst` with `n` samples from `d` on replaced by those of `f`.
pub record Writes (d n : ℕ) (f : ℕ → ℕ) (dst out : List ℕ) : Type 0 where
  pub size : length out ≡ length dst
  pub sample :
      (j : ℕ) → get_or out j 0 ≡ (if leb d j && ltb j (d + n) then f (j - d) else get_or dst j 0)

-- No error and no fault, and the samples written.
abbrev pub Paints : ℕ → ℕ → (ℕ → ℕ) → List ℕ → Outcome (List ℕ) (Unit {0}) → Type 0
Paints d n f dst = Ensures (λ _. ⊥) (λ out _. Writes d n f dst out)

pub Writes-same :
    {d n m : ℕ} {f g : ℕ → ℕ} {dst out : List ℕ}
    → Writes d n f dst out
    → n ≡ m
    → ((i : ℕ) → i < n → f i ≡ g i)
    → Writes d m g dst out
Writes-same {d} {n} {m} {f} {g} {dst} {out} w e h = record {
  size = w.size;
  sample = λ j. ground (arith, w.sample j, e, h (j - d));
}

-- Two spans side by side, the left one written first or second.
pub Writes-right :
    {d n k : ℕ} {f g : ℕ → ℕ} {dst mid out : List ℕ}
    → Writes d n f dst mid
    → Writes (d + n) k g mid out
    → Writes d (n + k) (λ i. if ltb i n then f i else g (i - n)) dst out
Writes-right {d} {n} {k} {f} {g} {dst} {mid} {out} v w = record {
  size = w.size ∙ v.size;
  sample = λ j.
      let at : d + n ≤ j → g (j - (d + n)) ≡ g (j - d - n) = λ _. ap g (omega arith) in
      ground (arith, w.sample j, v.sample j, at);
}

pub Writes-left :
    {d n k : ℕ} {f g : ℕ → ℕ} {dst mid out : List ℕ}
    → Writes (d + n) k g dst mid
    → Writes d n f mid out
    → Writes d (n + k) (λ i. if ltb i n then f i else g (i - n)) dst out
Writes-left {d} {n} {k} {f} {g} {dst} {mid} {out} v w = record {
  size = w.size ∙ v.size;
  sample = λ j.
      let at : d + n ≤ j → g (j - (d + n)) ≡ g (j - d - n) = λ _. ap g (omega arith) in
      ground (arith, w.sample j, v.sample j, at);
}

module _ (src dst : List ℕ) (d s n : ℕ) (hd : d + n ≤ length dst) (hs : s + n ≤ length src) where
  pub copy_range-Writes :
      Writes d n (λ i. get_or src (s + i) 0) dst (Pixels.copy_range n d src s dst)
  copy_range-Writes = record {
    size = length-copy_range n d src s dst;
    sample = λ j. get_or-copy_range n d src s dst j hd;
  }

  pub copy_at_len-Paints :
      Paints d n (λ i. get_or src (s + i) 0) dst (Pixels.copy_at_len d src s n dst)
  unfolding Pixels.copy_at_len
  copy_at_len-Paints = Ensures-intro _ _ _ (ground (arith, copy_range-Writes))

  pub copy_at-Paints : Paints d n (λ i. get_or src (s + i) 0) dst (Pixels.copy_at n d src s dst)
  unfolding Pixels.copy_at
  copy_at-Paints = Ensures-intro _ _ _ (ground (arith, copy_range-Writes))

  pub some_columns-Paints :
      Paints d n
        (λ i. get_or src (s + i) 0)
        dst
        ((if ltb 0 n then Pixels.copy_at_len d src s n else done tt) dst)
  some_columns-Paints =
      Ensures-if _ _ _ (ltb 0 n) (λ _. copy_at_len-Paints)
        λ e. returned (record { size = refl; sample = λ j. ground arith })

pub fill_at-Paints :
    (dst : List ℕ) (d n v : ℕ)
    → d + n ≤ length dst
    → Paints d n (λ _. v) dst (Pixels.fill_at d n v dst)
unfolding Pixels.fill_at
fill_at-Paints dst d n v h =
    let w : Writes d n (λ _. v) dst (Pixels.fill_range n d v dst) = record {
      size = length-fill_range n d v dst;
      sample = λ j. get_or-fill_range n d v dst j h;
    } in
    Ensures-intro _ _ _ (ground (arith, w))

pub store_at-Paints :
    (dst : List ℕ) (d v : ℕ) → d < length dst → Paints d 1 (λ _. v) dst (store_at d v dst)
unfolding store_at
store_at-Paints dst d v h =
    let w : Writes d 1 (λ _. v) dst (set dst d v) = record {
      size = length-set dst d v;
      sample = λ j. ground (arith, get_or-set dst d v j h);
    } in
    Ensures-intro _ _ _ (ground (arith, w))

pub load_from-value :
    (src : List ℕ) (off : ℕ) (s : List ℕ)
    → off < length src
    → load_from src off s ≡ ok s (get_or src off 0)
unfolding load_from
load_from-value src off s h = ground arith
