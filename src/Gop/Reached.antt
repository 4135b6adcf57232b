-- ===== src/Gop/Reached.antt =====
-- The slots before each frame of a re-ordered group of pictures: src/api/internal.rs.
use rav1e.Prelude.{
  ℕ, zero, suc, ◌+◌, ◌*◌, ◌%◌, ◌^◌, ◌≤◌, ◌<◌, ◌≡◌, refl, ap, sym, subst, inl, inr, arith, Bool, leb,
  if◌then◌else◌, Bool-cases, List, Option, none, some, leb→le,
}
use native.Mathlib.Nat.{add-zero}
use rav1e.Gop.Inter.{
  ReferenceFrame, FrameInvariants, inter_frame, new_inter_frame, new_key_frame, update_rec_buffer,
  refresh, passed_on, buffer_after,
}
use rav1e.Gop.Levels.{pyramid, new_inter_frame_at, hint_at, pyramid_idx, pyramid_hint}
use rav1e.Gop.Groups.{Within, Within-skipped, Within-coded}

module _ (start limit : ℕ) where
  module _ (resilient : Bool) (first : ℕ) where
    abbrev buffer : ℕ → List (Option ReferenceFrame)
    buffer = buffer_after pyramid resilient first start limit

    -- The next frame of a group, if it is not left out.
    pub next_frame :
        (k r i : ℕ)
        → i ≡ 6 * k + r
        → r < 6
        → 4 * k + 4 < 2 ^ 32
        → new_inter_frame pyramid start (suc i) limit resilient (buffer i) ≡ (
            if leb limit (start + hint_at k r)
            then none
            else some (
                inter_frame pyramid resilient
                  (start + hint_at k r)
                  (suc i)
                  r
                  (hint_at k r)
                  (buffer i)))
    next_frame k r i at h b =
        let place : suc i ≡ 6 * k + r + 1 = omega (arith, at) in
        new_inter_frame_at pyramid start (suc i) limit resilient (buffer i) r (hint_at k r)
          (omega arith) (pyramid_idx (suc i) k r place h)
          (pyramid_hint (suc i) k r place h (ground (arith, b, h)))

    Within-next :
        (k r i : ℕ)
        → i ≡ 6 * k + r
        → r < 6
        → 4 * k + 4 < 2 ^ 32
        → Within start limit k r (buffer i)
        → Within start limit k (r + 1) (buffer (suc i))
    unfolding buffer_after passed_on
    Within-next k r i at h b w =
        let n = first + suc i in
        let Goal =
          λ (o : Option FrameInvariants). Within start limit k (r + 1) (passed_on n o (buffer i)) in
        subst Goal (sym (next_frame k r i at h b))
          (elim (Bool-cases (leb limit (start + hint_at k r))) [
            | inl e ↦
                rw e (
                  Within-skipped start limit k r (buffer i) (leb→le limit (start + hint_at k r) e)
                    w)
            | inr e ↦ rw e (Within-coded start limit resilient k (suc i) n (buffer i) r h w)
          ])

    Within-first : Within start limit 0 0 (buffer 0)
    unfolding buffer_after update_rec_buffer new_key_frame refresh
    Within-first = record {
      size = refl;
      base = refl;
      top = λ l. absurd (omega (arith, l));
      mid = λ l. absurd (omega (arith, l));
    }

    Within-group :
        (k : ℕ)
        → start + 4 * k < limit
        → 4 * k + 4 < 2 ^ 32
        → Within start limit k 0 (buffer (6 * k))
        → (r : ℕ) → r ≤ 6
        → Within start limit k r (buffer (6 * k + r))
    Within-group k l b w zero h = rw (add-zero (6 * k)) w
    Within-group k l b w (suc r) h =
        let next : suc r ≡ r + 1 = omega arith in
        let place : 6 * k + suc r ≡ suc (6 * k + r) = omega arith in
        rw (place, next)
          (Within-next k r (6 * k + r) refl (omega (arith, h)) b
            (Within-group k l b w r (omega (arith, h))))

    -- At each place of each group whose start is before the limit.
    pub Within-reached :
        (k r : ℕ)
        → start + 4 * k < limit
        → 4 * k + 4 < 2 ^ 32
        → r ≤ 6
        → Within start limit k r (buffer (6 * k + r))
    Within-reached zero r l b h = Within-group 0 l b Within-first r h
    Within-reached (suc k) r l b h =
        let w = Within-reached k 6 (omega (arith, l)) (omega (arith, b)) (omega arith) in
        let same : (k + 1) % 4 ≡ suc k % 4 = ap (λ (t : ℕ). t % 4) (omega arith) in
        let hint : 4 * suc k ≡ 4 * k + 4 = omega arith in
        let place : 6 * suc k ≡ 6 * k + 6 = omega arith in
        Within-group (suc k) l b
          (rw place (record {
            size = w.size;
            base = rw (sym same, hint) (w.top (omega arith) (omega (arith, l)));
            top = λ l. absurd (omega (arith, l));
            mid = λ l. absurd (omega (arith, l));
          }))
          r h
