-- ===== src/O3yv/Pixels/Safe.antt =====
-- Accesses in range keep a plane a plane.
use rav1e.Prelude.{
  ℕ, zero, suc, ◌+◌, ◌-◌, ◌≤◌, ◌<◌, ◌≡◌, refl, ◌∙◌, ap, List, [], ◌∷◌, length, get_or, set, arith,
  ◌==◌, leb, ltb, ◌&&◌, if◌then◌else◌,
}
use rav1e.Prelude.{length-set, Keeps, Keeps-bind, Keeps-intro}
use rav1e.O3yv.Pixels

-- A plane of `n` bytes.
pub record IsPlane (n : ℕ) (xs : List ℕ) : Type 0 where
  pub size : length xs ≡ n
  pub bytes : (i : ℕ) → get_or xs i 0 < 256

abbrev pub IsBytes : List ℕ → Type 0
IsBytes xs = (i : ℕ) → get_or xs i 0 < 256

pub get_or-set :
    (xs : List ℕ) (i v j : ℕ)
    → i < length xs
    → get_or (set xs i v) j 0 ≡ (if i == j then v else get_or xs j 0)
get_or-set [] i v j h = elim h [ ]
get_or-set (x ∷ xs) zero v zero h = refl
get_or-set (x ∷ xs) zero v (suc j) h = ground arith
get_or-set (x ∷ xs) (suc i) v zero h = ground arith
get_or-set (x ∷ xs) (suc i) v (suc j) h = get_or-set xs i v j (omega arith) ∙ ground arith

pub length-copy_range :
    (n dst_off : ℕ) (src : List ℕ) (src_off : ℕ) (dst : List ℕ)
    → length (Pixels.copy_range n dst_off src src_off dst) ≡ length dst
unfolding Pixels.copy_range
length-copy_range zero dst_off src src_off dst = refl
length-copy_range (suc n) dst_off src src_off dst =
    length-copy_range n (dst_off + 1) src (src_off + 1) _ ∙ length-set dst dst_off _

pub length-fill_range :
    (n off v : ℕ) (dst : List ℕ) → length (Pixels.fill_range n off v dst) ≡ length dst
unfolding Pixels.fill_range
length-fill_range zero off v dst = refl
length-fill_range (suc n) off v dst = length-fill_range n (off + 1) v _ ∙ length-set dst off v

at_shift :
    (src : List ℕ) (s d j : ℕ)
    → d < j
    → get_or src (s + 1 + (j - (d + 1))) 0 ≡ get_or src (s + (j - d)) 0
at_shift src s d j h = ap (λ k. get_or src k 0) (omega arith)

at_start : (src : List ℕ) (s d j : ℕ) → d ≡ j → get_or src (s + (j - d)) 0 ≡ get_or src s 0
at_start src s d j h = ap (λ k. get_or src k 0) (omega arith)

-- What a copy in range leaves at each index.
pub get_or-copy_range :
    (n dst_off : ℕ) (src : List ℕ) (src_off : ℕ) (dst : List ℕ) (j : ℕ)
    → dst_off + n ≤ length dst
    → get_or (Pixels.copy_range n dst_off src src_off dst) j 0 ≡ (
        if leb dst_off j && ltb j (dst_off + n)
        then get_or src (src_off + (j - dst_off)) 0
        else get_or dst j 0)
unfolding Pixels.copy_range
get_or-copy_range zero dst_off src src_off dst j h = ground arith
get_or-copy_range (suc n) dst_off src src_off dst j h =
    let v = get_or src src_off 0 in
    ground (
      arith,
      get_or-copy_range n (dst_off + 1) src (src_off + 1) (set dst dst_off v) j,
      length-set dst dst_off v,
      get_or-set dst dst_off v j,
      at_shift src src_off dst_off j,
      at_start src src_off dst_off j,
    )

pub get_or-fill_range :
    (n off v : ℕ) (dst : List ℕ) (j : ℕ)
    → off + n ≤ length dst
    → get_or (Pixels.fill_range n off v dst) j 0
      ≡ (if leb off j && ltb j (off + n) then v else get_or dst j 0)
unfolding Pixels.fill_range
get_or-fill_range zero off v dst j h = ground arith
get_or-fill_range (suc n) off v dst j h = ground (
  arith,
  get_or-fill_range n (off + 1) v (set dst off v) j,
  length-set dst off v,
  get_or-set dst off v j,
)

module _ {m : ℕ} {dst : List ℕ} (p : IsPlane m dst) where
  pub set-IsPlane : (i v : ℕ) → v < 256 → i < m → IsPlane m (set dst i v)
  set-IsPlane i v hv hi = record {
    size = length-set dst i v ∙ p.size;
    bytes = λ j. ground (arith, p.bytes j, p.size, get_or-set dst i v j);
  }

  pub fill_range-IsPlane :
      (n off v : ℕ) → v < 256 → off + n ≤ m → IsPlane m (Pixels.fill_range n off v dst)
  fill_range-IsPlane n off v hv h = record {
    size = length-fill_range n off v dst ∙ p.size;
    bytes = λ j. ground (arith, p.bytes j, p.size, get_or-fill_range n off v dst j);
  }

  pub copy_range-IsPlane :
      (src : List ℕ) (n dst_off src_off : ℕ)
      → IsBytes src
      → dst_off + n ≤ m
      → IsPlane m (Pixels.copy_range n dst_off src src_off dst)
  copy_range-IsPlane src n dst_off src_off b h = record {
    size = length-copy_range n dst_off src src_off dst ∙ p.size;
    bytes = λ j. ground (
      arith,
      p.bytes j,
      p.size,
      b (src_off + (j - dst_off)),
      get_or-copy_range n dst_off src src_off dst j,
    );
  }

-- Each access in range is no fault, and keeps a plane of `m` bytes one.
module _ {m : ℕ} {dst : List ℕ} (p : IsPlane m dst) where
  module _ (src : List ℕ) (b : IsBytes src) (d s : ℕ) where
    pub copy_at_len-IsPlane :
        (n : ℕ)
        → d + n ≤ m
        → s + n ≤ length src
        → Keeps (IsPlane m) (Pixels.copy_at_len d src s n dst)
    unfolding Pixels.copy_at_len
    copy_at_len-IsPlane n h k =
        Keeps-intro _ _ (ground (arith, p.size, copy_range-IsPlane p src n d s b h))

    pub copy_at-IsPlane :
        (n : ℕ) → d + n ≤ m → s + n ≤ length src → Keeps (IsPlane m) (Pixels.copy_at n d src s dst)
    unfolding Pixels.copy_at
    copy_at-IsPlane n h k =
        Keeps-intro _ _ (ground (arith, p.size, copy_range-IsPlane p src n d s b h))

    pub copy_at_4-IsPlane :
        d + 4 ≤ m → s + 4 ≤ length src → Keeps (IsPlane m) (Pixels.copy_at_4 d src s dst)
    unfolding Pixels.copy_at_4
    copy_at_4-IsPlane h k =
        Keeps-intro _ _ (ground (arith, p.size, copy_range-IsPlane p src 4 d s b h))

    pub copy_at_8-IsPlane :
        d + 8 ≤ m → s + 8 ≤ length src → Keeps (IsPlane m) (Pixels.copy_at_8 d src s dst)
    unfolding Pixels.copy_at_8
    copy_at_8-IsPlane h k =
        Keeps-intro _ _ (ground (arith, p.size, copy_range-IsPlane p src 8 d s b h))

    pub copy_at_16-IsPlane :
        d + 16 ≤ m → s + 16 ≤ length src → Keeps (IsPlane m) (Pixels.copy_at_16 d src s dst)
    unfolding Pixels.copy_at_16
    copy_at_16-IsPlane h k =
        let q = copy_range-IsPlane p src 8 d s b (omega arith) in
        Keeps-intro _ _
          (ground (arith, p.size, copy_range-IsPlane q src 8 (d + 8) (s + 8) b (omega arith)))

  pub copy_exact-IsPlane :
      (src : List ℕ) (n : ℕ)
      → IsBytes src
      → n ≤ m
      → n ≤ length src
      → Keeps (IsPlane m) (Pixels.copy_exact n src dst)
  unfolding Pixels.copy_exact
  copy_exact-IsPlane src n b h k =
      Keeps-intro _ _ (ground (arith, p.size, copy_range-IsPlane p src n 0 0 b (omega arith)))

  pub fill_at-IsPlane :
      (off n v : ℕ) → v < 256 → off + n ≤ m → Keeps (IsPlane m) (Pixels.fill_at off n v dst)
  unfolding Pixels.fill_at
  fill_at-IsPlane off n v hv h =
      Keeps-intro _ _ (ground (arith, p.size, fill_range-IsPlane p n off v hv h))

  pub store_at-IsPlane :
      (off v : ℕ) → v < 256 → off < m → Keeps (IsPlane m) (Pixels.store_at off v dst)
  unfolding Pixels.store_at
  store_at-IsPlane off v hv h = Keeps-intro _ _ (ground (arith, p.size, set-IsPlane p off v hv h))

-- Two copies of four bytes, and four of them.
module _ {m : ℕ} (src : List ℕ) (b : IsBytes src) (d s : ℕ) where
  pub copy_at_8_by_4-IsPlane :
      {dst : List ℕ}
      → IsPlane m dst
      → d + 8 ≤ m
      → s + 8 ≤ length src
      → Keeps (IsPlane m) (Pixels.copy_at_8_by_4 d src s dst)
  unfolding Pixels.copy_at_8_by_4
  copy_at_8_by_4-IsPlane p h k =
      Keeps-bind (copy_at_4-IsPlane p src b d s (omega arith) (omega arith))
        λ _ _ q. copy_at_4-IsPlane q src b (d + 4) (s + 4) (omega arith) (omega arith)

  pub copy_at_16_by_4-IsPlane :
      {dst : List ℕ}
      → IsPlane m dst
      → d + 16 ≤ m
      → s + 16 ≤ length src
      → Keeps (IsPlane m) (Pixels.copy_at_16_by_4 d src s dst)
  unfolding Pixels.copy_at_16_by_4
  copy_at_16_by_4-IsPlane p h k =
      Keeps-bind (copy_at_4-IsPlane p src b d s (omega arith) (omega arith)) λ _ _ q.
        Keeps-bind (copy_at_4-IsPlane q src b (d + 4) (s + 4) (omega arith) (omega arith)) λ _ _ q'.
          Keeps-bind (copy_at_4-IsPlane q' src b (d + 8) (s + 8) (omega arith) (omega arith))
            λ _ _ q''. copy_at_4-IsPlane q'' src b (d + 12) (s + 12) (omega arith) (omega arith)
