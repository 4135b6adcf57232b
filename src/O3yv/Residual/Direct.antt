-- ===== src/O3yv/Residual/Direct.antt =====
-- The table of clipped sums and the early return of `add_dc_block` change nothing: a DC block is
-- the clipped sum of each of its 16 samples and one delta.
use rav1e.Prelude.{
  ℕ, zero, suc, ◌+◌, ◌*◌, ◌≤◌, ◌<◌, ◌≡◌, refl, sym, subst, ap, ◌∙◌, List, [], ◌∷◌, length, get_or,
  set, arith, true,
}
use rav1e.Prelude.{M, Outcome, ok, err, fault, Keeps, kept, stopped, ◌>>◌, ok-bind, choose}
use rav1e.Prelude.Int.{ℤ, pos, ◌+ℤ◌}
use rav1e.O3yv.Frame.{is_zero}
use rav1e.O3yv.Motion.{shr}
use rav1e.O3yv.Motion.Plane.{is_zero-pos}
use rav1e.O3yv.Pixels.{load_at, store_at}
use rav1e.O3yv.Pixels.Safe.{IsPlane}
use rav1e.O3yv.Residual
use rav1e.O3yv.Residual.{clip_u8, add_i32, table_at, update_at, add_clip, in_clip_range}
use rav1e.O3yv.Residual.Safe.{
  IsClipRow, clip_row-IsClipRow, dc_clip_table_at_lem, update_at-IsPlane, table_at-IsByte,
  add_dc_row4_table-IsPlane,
}

-- Equal first steps and equal rests.
bind-same :
    {S A B : Type 0} {I : S → Type 0} {r r' : Outcome S A} {f g : A → M S B}
    → r ≡ r'
    → Keeps I r
    → ((s : S) (a : A) → I s → f a s ≡ g a s)
    → elim r [ ok s a ↦ f a s | err s e ↦ err s e | fault ↦ fault ]
      ≡ elim r' [ ok s a ↦ g a s | err s e ↦ err s e | fault ↦ fault ]
bind-same {f} {g} e (kept {s} {a} h) k =
    k s a h ∙ ap (λ r. elim r [ ok s a ↦ g a s | err s e ↦ err s e | fault ↦ fault ]) e
bind-same {f} {g} e (stopped {s} {e = x} h) k =
    ap (λ r. elim r [ ok s a ↦ g a s | err s e ↦ err s e | fault ↦ fault ]) e

-- Without a table and without an early return.
unfoldable pub add_dc_block_direct : ℕ → ℕ → ℤ → M (List ℕ) (Unit {0})
add_dc_block_direct stride base coeff =
    let delta = shr (add_i32 coeff (pos 4)) 3 in
    Residual.add_dc_row4 base delta
    >> (Residual.add_dc_row4 (base + stride) delta
        >> (Residual.add_dc_row4 (base + stride * 2) delta
            >> Residual.add_dc_row4 (base + stride * 3) delta))

set_self : (xs : List ℕ) (i : ℕ) → set xs i (get_or xs i 0) ≡ xs
set_self [] i = refl
set_self (x ∷ xs) zero = refl
set_self (x ∷ xs) (suc i) = ap (λ ys. x ∷ ys) (set_self xs i)

load-value :
    (off : ℕ) (plane : List ℕ)
    → off < length plane
    → load_at off plane ≡ ok plane (get_or plane off 0)
unfolding load_at
load-value off plane h = ground arith

store-value :
    (off v : ℕ) (plane : List ℕ)
    → off < length plane
    → store_at off v plane ≡ ok (set plane off v) tt
unfolding store_at
store-value off v plane h = ground arith

table-value :
    (table : List ℕ) (v : ℕ) (plane : List ℕ)
    → v < length table
    → table_at table v plane ≡ ok plane (get_or table v 0)
unfolding table_at
table-value table v plane h = ground arith

-- No sum wraps.
sum-exact : (v : ℕ) (d : ℤ) → v < 256 → in_clip_range d ≡ true → add_i32 (pos v) d ≡ pos v +ℤ d
unfolding add_i32 Residual.wrap32 ◌+ℤ◌
sum-exact v d h r = ground arith

sum-zero : (v : ℕ) → v < 256 → clip_u8 (add_i32 (pos v) (pos 0)) ≡ v
unfolding clip_u8 add_i32 Residual.wrap32 ◌+ℤ◌
sum-zero v h = ground arith

module _ {m : ℕ} where
  -- One sample by the table, and one with a delta of zero.
  update-table :
      (off : ℕ) (d : ℤ) (table : List ℕ) (plane : List ℕ)
      → IsPlane m plane
      → off < m
      → in_clip_range d ≡ true
      → IsClipRow d table
      → update_at off (table_at table) plane ≡ update_at off (add_clip d) plane
  update-table off d table plane p h r c =
      let v = get_or plane off 0 in
      let b : v < 256 = p.bytes off in
      let here = load-value off plane (omega (arith, p.size)) in
      ok-bind _ here (
        ok-bind _ (table-value table v plane (omega (arith, c.size)))
          (ap (λ x. store_at off x plane) (c.entry v b ∙ ap clip_u8 (sym (sum-exact v d b r)))))
      ∙ sym (ok-bind _ here refl)

  update-zero :
      (off : ℕ) (plane : List ℕ)
      → IsPlane m plane
      → off < m
      → update_at off (add_clip (pos 0)) plane ≡ ok plane tt
  update-zero off plane p h =
      let v = get_or plane off 0 in
      let inside : off < length plane = omega (arith, p.size) in
      ok-bind _ (load-value off plane inside) (
        ap (λ x. store_at off x plane) (sum-zero v (p.bytes off))
        ∙ (store-value off v plane inside ∙ ap (λ xs. ok xs tt) (set_self plane off)))

  row-table :
      (idx : ℕ) (d : ℤ) (table : List ℕ) (plane : List ℕ)
      → IsPlane m plane
      → idx + 4 ≤ m
      → in_clip_range d ≡ true
      → IsClipRow d table
      → Residual.add_dc_row4_table idx table plane ≡ Residual.add_dc_row4 idx d plane
  unfolding Residual.add_dc_row4_table Residual.add_dc_row4
  row-table idx d table plane p h r c =
      let one = λ (off : ℕ) (t : List ℕ) (q : IsPlane m t) (l : off < m).
        update-table off d table t q l r c in
      let keeps = λ (off : ℕ) (t : List ℕ) (q : IsPlane m t) (l : off < m).
        update_at-IsPlane off (table_at table) q l (table_at-IsByte c) in
      bind-same (one idx plane p (omega arith)) (keeps idx plane p (omega arith)) λ t1 _ p1.
        bind-same (one (idx + 1) t1 p1 (omega arith)) (keeps (idx + 1) t1 p1 (omega arith))
          λ t2 _ p2.
            bind-same (one (idx + 2) t2 p2 (omega arith)) (keeps (idx + 2) t2 p2 (omega arith))
              λ t3 _ p3. one (idx + 3) t3 p3 (omega arith)

  row-zero :
      (idx : ℕ) (plane : List ℕ)
      → IsPlane m plane
      → idx + 4 ≤ m
      → Residual.add_dc_row4 idx (pos 0) plane ≡ ok plane tt
  unfolding Residual.add_dc_row4
  row-zero idx plane p h = ok-bind _ (update-zero idx plane p (omega arith)) (
      ok-bind _ (update-zero (idx + 1) plane p (omega arith)) (
        ok-bind _ (update-zero (idx + 2) plane p (omega arith))
          (update-zero (idx + 3) plane p (omega arith))))

  -- On a plane of bytes that holds the whole block, `add_dc_block` with any coefficient gives the
  -- same plane as four calls of `add_dc_row4` with the delta, without the table and without the
  -- early return.
  pub add_dc_block-direct :
      (stride base : ℕ) (coeff : ℤ) (plane : List ℕ)
      → IsPlane m plane
      → base + stride * 3 + 4 ≤ m
      → Residual.add_dc_block stride base coeff plane ≡ add_dc_block_direct stride base coeff plane
  unfolding Residual.add_dc_block add_dc_block_direct
  add_dc_block-direct stride base coeff plane p h =
      choose _ _ plane (is_zero delta)
        (λ z.
          subst
            (λ d.
              ok plane tt
              ≡ (Residual.add_dc_row4 base d
                    >> (Residual.add_dc_row4 (base + stride) d
                        >> (Residual.add_dc_row4 (base + stride * 2) d
                            >> Residual.add_dc_row4 (base + stride * 3) d)))
                  plane)
            (sym (is_zero-pos delta z)) (sym still))
        λ _.
          choose _ _ plane (in_clip_range delta)
            (λ r.
              let c = clip_row-IsClipRow delta r in
              ok-bind _ (dc_clip_table_at_lem delta plane r) (
                bind-same (row-table base delta _ plane p (omega arith) r c)
                  (add_dc_row4_table-IsPlane base c p (omega arith))
                  λ t1 _ p1.
                    bind-same (row-table (base + stride) delta _ t1 p1 (omega arith) r c)
                      (add_dc_row4_table-IsPlane (base + stride) c p1 (omega arith))
                      λ t2 _ p2.
                        bind-same (row-table (base + stride * 2) delta _ t2 p2 (omega arith) r c)
                          (add_dc_row4_table-IsPlane (base + stride * 2) c p2 (omega arith))
                          λ t3 _ p3. row-table (base + stride * 3) delta _ t3 p3 (omega arith) r c))
            (λ _. refl)
    where
      delta : ℤ
      delta = shr (add_i32 coeff (pos 4)) 3

      still :
          (Residual.add_dc_row4 base (pos 0)
              >> (Residual.add_dc_row4 (base + stride) (pos 0)
                  >> (Residual.add_dc_row4 (base + stride * 2) (pos 0)
                      >> Residual.add_dc_row4 (base + stride * 3) (pos 0))))
            plane
          ≡ ok plane tt
      still = ok-bind _ (row-zero base plane p (omega arith)) (
          ok-bind _ (row-zero (base + stride) plane p (omega arith)) (
            ok-bind _ (row-zero (base + stride * 2) plane p (omega arith))
              (row-zero (base + stride * 3) plane p (omega arith))))
