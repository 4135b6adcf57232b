-- ===== src/O3yv/Residual/Safe.antt =====
-- Residuals added to a block on the plane keep it a plane of bytes.
use rav1e.Prelude.{
  ℕ, zero, suc, ◌+◌, ◌*◌, ◌≤◌, ◌<◌, ◌≡◌, refl, ◌∙◌, ap, true, List, [], length, get_or, arith, kept,
}
use rav1e.Prelude.{
  M, Keeps, Keeps-if, ok, Keeps-bind, Ensures, Ensures-bind, Ensures-intro, returned,
}
use rav1e.Prelude.Int.{ℤ, pos, ◌+ℤ◌, ◌-ℤ◌, int_laws}
use rav1e.O3yv.Frame.{is_zero}
use rav1e.O3yv.Pixels.{load_at}
use rav1e.O3yv.Pixels.Safe.{IsPlane, store_at-IsPlane}
use rav1e.O3yv.Residual
use rav1e.O3yv.Residual.{clip_u8, dc_clip_row, dc_clip_rows}
use rav1e.O3yv.Transform.{add_idct_row, add_idct_block}

pub clip_u8-lt : (v : ℤ) → clip_u8 v < 256
unfolding clip_u8
clip_u8-lt v = ground arith

-- Each row of the table lists the clipped sums of its delta.
pub length-dc_clip_row : (d : ℤ) (n s : ℕ) → length (dc_clip_row d n s) ≡ n
unfolding dc_clip_row
length-dc_clip_row d zero s = refl
length-dc_clip_row d (suc n) s = ap suc (length-dc_clip_row d n (s + 1))

pub get_or-dc_clip_row :
    (d : ℤ) (n s i : ℕ) → i < n → get_or (dc_clip_row d n s) i 0 ≡ clip_u8 (pos (s + i) +ℤ d)
unfolding dc_clip_row clip_u8
get_or-dc_clip_row d zero s i h = elim h [ ]
get_or-dc_clip_row d (suc n) s zero h =
    ap (λ k. unfold clip_u8 in clip_u8 (pos k +ℤ d)) (omega arith)
get_or-dc_clip_row d (suc n) s (suc i) h =
    get_or-dc_clip_row d n (s + 1) i (omega arith) ∙ ap (λ k. clip_u8 (pos k +ℤ d)) (omega arith)

pub length-dc_clip_rows : (n : ℕ) (d : ℤ) → length (dc_clip_rows n d) ≡ n
unfolding dc_clip_rows
length-dc_clip_rows zero d = refl
length-dc_clip_rows (suc n) d = ap suc (length-dc_clip_rows n (d +ℤ pos 1))

pub get_or-dc_clip_rows :
    (n : ℕ) (d : ℤ) (i : ℕ)
    → i < n
    → get_or (dc_clip_rows n d) i [] ≡ dc_clip_row (d +ℤ pos i) 256 0
unfolding dc_clip_rows
get_or-dc_clip_rows zero d i h = elim h [ ]
get_or-dc_clip_rows (suc n) d zero h = ap (λ z. dc_clip_row z 256 0) (omega int_laws)
get_or-dc_clip_rows (suc n) d (suc i) h =
    get_or-dc_clip_rows n (d +ℤ pos 1) i (omega arith)
    ∙ ap (λ z. dc_clip_row z 256 0) (omega int_laws)

-- A row of the table: the clipped sums of a delta within its range.
pub record IsClipRow (d : ℤ) (table : List ℕ) : Type 0 where
  pub size : length table ≡ 256
  pub entry : (s : ℕ) → s < 256 → get_or table s 0 ≡ clip_u8 (pos s +ℤ d)

-- The index of a delta in the table is in range, and finds the row of the delta.
abbrev pub index_of : ℤ → ℕ
index_of d = Residual.to_usize (Residual.sub_i32 d Residual.dc_clip_delta_min)

small : (d : ℤ) → Residual.in_clip_range d ≡ true → index_of d < 33
unfolding Residual.sub_i32 Residual.wrap32 ◌-ℤ◌
small d h = ground arith

back :
    (d : ℤ) → Residual.in_clip_range d ≡ true → Residual.dc_clip_delta_min +ℤ pos (index_of d) ≡ d
unfolding Residual.sub_i32 Residual.wrap32 ◌-ℤ◌ ◌+ℤ◌
back d h = ground arith

found :
    (d : ℤ)
    → Residual.in_clip_range d ≡ true
    → IsClipRow d (get_or (dc_clip_rows 33 Residual.dc_clip_delta_min) (index_of d) [])
found d h =
    rw (get_or-dc_clip_rows 33 Residual.dc_clip_delta_min (index_of d) (small d h), back d h)
      (record {
        size = length-dc_clip_row d 256 0;
        entry =
            λ k hk. get_or-dc_clip_row d 256 0 k hk ∙ ap (λ n. clip_u8 (pos n +ℤ d)) (omega arith);
      })

pub clip_row : ℤ → List ℕ
clip_row d = get_or (dc_clip_rows 33 Residual.dc_clip_delta_min) (index_of d) []

pub clip_row-IsClipRow : (d : ℤ) → Residual.in_clip_range d ≡ true → IsClipRow d (clip_row d)
unfolding clip_row
clip_row-IsClipRow d h = found d h

pub dc_clip_table_at_lem :
    {S : Type 0} (d : ℤ) (s : S)
    → Residual.in_clip_range d ≡ true
    → Residual.dc_clip_table_at (index_of d) s ≡ ok s (clip_row d)
unfolding Residual.dc_clip_table_at Residual.build_dc_clip_table clip_row
dc_clip_table_at_lem d s h =
    ground (arith, small d h, length-dc_clip_rows 33 Residual.dc_clip_delta_min)

dc_clip_table_at-IsClipRow :
    {S : Type 0} (I : S → Type 0) (d : ℤ) (s : S)
    → Residual.in_clip_range d ≡ true
    → I s
    → Ensures I (λ t table. I t × IsClipRow d table) (Residual.dc_clip_table_at (index_of d) s)
dc_clip_table_at-IsClipRow I d s h i =
    rw (dc_clip_table_at_lem d s h) (returned (i, clip_row-IsClipRow d h))

module _ {m : ℕ} where
  load_at-IsByte :
      (off : ℕ) {plane : List ℕ}
      → IsPlane m plane
      → off < m
      → Ensures (IsPlane m) (λ t v. IsPlane m t × (v < 256)) (load_at off plane)
  unfolding load_at
  load_at-IsByte off p h = Ensures-intro _ _ _ (ground (arith, p.size, p.bytes off))

  pub update_at-IsPlane :
      (off : ℕ) (f : ℕ → M (List ℕ) ℕ) {plane : List ℕ}
      → IsPlane m plane
      → off < m
      → ((v : ℕ) (t : List ℕ)
          → v < 256
          → IsPlane m t
          → Ensures (IsPlane m) (λ u w. IsPlane m u × (w < 256)) (f v t))
      → Keeps (IsPlane m) (Residual.update_at off f plane)
  update_at-IsPlane off f p h g =
      Ensures-bind (load_at-IsByte off p h)
        λ t v q. Ensures-bind (g v t q.1 q.0) λ u w r. store_at-IsPlane r.0 off w r.1 h

  -- Four updates in a row of the block.
  pub update_row-IsPlane :
      (idx : ℕ) (f0 f1 f2 f3 : ℕ → M (List ℕ) ℕ) {plane : List ℕ}
      → IsPlane m plane
      → idx + 4 ≤ m
      → ((v : ℕ) (t : List ℕ)
          → v < 256
          → IsPlane m t
          → Ensures (IsPlane m) (λ u w. IsPlane m u × (w < 256)) (f0 v t))
      → ((v : ℕ) (t : List ℕ)
          → v < 256
          → IsPlane m t
          → Ensures (IsPlane m) (λ u w. IsPlane m u × (w < 256)) (f1 v t))
      → ((v : ℕ) (t : List ℕ)
          → v < 256
          → IsPlane m t
          → Ensures (IsPlane m) (λ u w. IsPlane m u × (w < 256)) (f2 v t))
      → ((v : ℕ) (t : List ℕ)
          → v < 256
          → IsPlane m t
          → Ensures (IsPlane m) (λ u w. IsPlane m u × (w < 256)) (f3 v t))
      → Keeps (IsPlane m) (
          Residual.◌>>◌
            (Residual.update_at idx f0)
            (Residual.◌>>◌
              (Residual.update_at (idx + 1) f1)
              (Residual.◌>>◌ (Residual.update_at (idx + 2) f2) (Residual.update_at (idx + 3) f3)))
            plane)
  update_row-IsPlane idx f0 f1 f2 f3 p h g0 g1 g2 g3 =
      Keeps-bind (update_at-IsPlane idx f0 p (omega arith) g0) λ _ _ p1.
        Keeps-bind (update_at-IsPlane (idx + 1) f1 p1 (omega arith) g1) λ _ _ p2.
          Keeps-bind (update_at-IsPlane (idx + 2) f2 p2 (omega arith) g2)
            λ _ _ p3. update_at-IsPlane (idx + 3) f3 p3 (omega arith) g3

  add_clip-IsByte :
      (d : ℤ) (v : ℕ) (t : List ℕ)
      → v < 256
      → IsPlane m t
      → Ensures (IsPlane m) (λ u w. IsPlane m u × (w < 256)) (Residual.add_clip d v t)
  add_clip-IsByte d v t hv p = returned (p, clip_u8-lt _)

  pub table_at-IsByte :
      {d : ℤ} {table : List ℕ} (c : IsClipRow d table) (v : ℕ) (t : List ℕ)
      → v < 256
      → IsPlane m t
      → Ensures (IsPlane m) (λ u w. IsPlane m u × (w < 256)) (Residual.table_at table v t)
  unfolding Residual.table_at
  table_at-IsByte {d} c v t hv p =
      Ensures-intro _ _ _ (ground (arith, c.size, c.entry v hv, clip_u8-lt (pos v +ℤ d)))

  -- A block of four rows of four, `stride` apart.
  add_dc_row4-IsPlane :
      (idx : ℕ) (d : ℤ) {plane : List ℕ}
      → IsPlane m plane
      → idx + 4 ≤ m
      → Keeps (IsPlane m) (Residual.add_dc_row4 idx d plane)
  unfolding Residual.add_dc_row4
  add_dc_row4-IsPlane idx d p h =
      let g = add_clip-IsByte d in update_row-IsPlane idx _ _ _ _ p h g g g g

  pub add_dc_row4_table-IsPlane :
      (idx : ℕ) {d : ℤ} {table : List ℕ} (c : IsClipRow d table) {plane : List ℕ}
      → IsPlane m plane
      → idx + 4 ≤ m
      → Keeps (IsPlane m) (Residual.add_dc_row4_table idx table plane)
  unfolding Residual.add_dc_row4_table
  add_dc_row4_table-IsPlane idx c p h =
      let g = table_at-IsByte c in update_row-IsPlane idx _ _ _ _ p h g g g g

  pub add_dc_block-IsPlane :
      (stride base : ℕ) (coeff : ℤ) {plane : List ℕ}
      → IsPlane m plane
      → base + stride * 3 + 4 ≤ m
      → Keeps (IsPlane m) (Residual.add_dc_block stride base coeff plane)
  unfolding Residual.add_dc_block
  add_dc_block-IsPlane stride base coeff {plane} p h =
      Keeps-if _ _ _ (is_zero delta) (λ _. kept p)
        λ _.
          Keeps-if _ _ _ (Residual.in_clip_range delta)
            (λ t. Ensures-bind (dc_clip_table_at-IsClipRow (IsPlane m) delta plane t p) λ _ _ q.
              Keeps-bind (add_dc_row4_table-IsPlane base q.1 q.0 (omega arith)) λ _ _ p1.
                Keeps-bind (add_dc_row4_table-IsPlane (base + stride) q.1 p1 (omega arith))
                  λ _ _ p2.
                    Keeps-bind (add_dc_row4_table-IsPlane (base + stride * 2) q.1 p2 (omega arith))
                      λ _ _ p3. add_dc_row4_table-IsPlane (base + stride * 3) q.1 p3 h)
            (λ _. Keeps-bind (add_dc_row4-IsPlane base delta p (omega arith)) λ _ _ p1.
              Keeps-bind (add_dc_row4-IsPlane (base + stride) delta p1 (omega arith)) λ _ _ p2.
                Keeps-bind (add_dc_row4-IsPlane (base + stride * 2) delta p2 (omega arith))
                  λ _ _ p3. add_dc_row4-IsPlane (base + stride * 3) delta p3 h)
    where
      delta : ℤ
      delta = Residual.shr (Residual.add_i32 coeff (pos 4)) 3

  add_idct_row-IsPlane :
      (idx : ℕ) (v0 v1 v2 v3 : ℤ) {plane : List ℕ}
      → IsPlane m plane
      → idx + 4 ≤ m
      → Keeps (IsPlane m) (add_idct_row idx v0 v1 v2 v3 plane)
  unfolding add_idct_row
  add_idct_row-IsPlane idx v0 v1 v2 v3 p h =
      update_row-IsPlane idx _ _ _ _ p h (add_clip-IsByte _) (add_clip-IsByte _) (add_clip-IsByte _)
        (add_clip-IsByte _)

  pub add_idct_block-IsPlane :
      (stride base : ℕ) (coeffs : List ℤ) {plane : List ℕ}
      → IsPlane m plane
      → base + stride * 3 + 4 ≤ m
      → Keeps (IsPlane m) (add_idct_block stride base coeffs plane)
  unfolding add_idct_block
  add_idct_block-IsPlane stride base coeffs p h =
      Keeps-bind (add_idct_row-IsPlane base _ _ _ _ p (omega arith)) λ _ _ p1.
        Keeps-bind (add_idct_row-IsPlane (base + stride) _ _ _ _ p1 (omega arith)) λ _ _ p2.
          Keeps-bind (add_idct_row-IsPlane (base + stride * 2) _ _ _ _ p2 (omega arith))
            λ _ _ p3. add_idct_row-IsPlane (base + stride * 3) _ _ _ _ p3 h
