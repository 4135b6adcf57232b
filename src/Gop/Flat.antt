-- ===== src/Gop/Flat.antt =====
-- The slots without re-ordering: src/api/internal.rs and src/encoder.rs.
use rav1e.Prelude.{
  ℕ, zero, suc, ◌+◌, ◌/◌, ◌%◌, ◌^◌, ◌<◌, ◌≡◌, refl, sym, subst, ◌∙◌, inl, inr, arith, Bool, false,
  leb, if◌then◌else◌, Bool-cases, List, length, Option, none, some,
}
use rav1e.Prelude.Bits.{and_three}
use rav1e.Gop.Config.{get_idx_in_group_output, get_order_hint}
use rav1e.Gop.Config.{InterConfig, get_slot_idx, get_level, get_show_existing_frame}
use rav1e.Gop.Inter.{
  ReferenceFrame, FrameInvariants, is_show_existing_frame, inter_frame, new_inter_frame,
  new_key_frame, update_rec_buffer, refresh, passed_on, buffer_after, frame_type_of, is_switch,
}
use rav1e.Gop.Levels.{flat, new_inter_frame_at, flat_idx, flat_hint}
use rav1e.Gop.Slots.{hint_in, length-passed_on, hint_in-passed_on_all}
use rav1e.Gop.Groups.{new_slot}

module _ (m resilient : Bool) (interval first start limit : ℕ) where
  abbrev config : InterConfig
  config = flat m interval

  abbrev buffer : ℕ → List (Option ReferenceFrame)
  buffer = buffer_after config resilient first start limit

  abbrev pub frame_after : ℕ → FrameInvariants
  frame_after i = inter_frame config resilient (start + (i + 1)) (suc i) 0 (i + 1) (buffer i)

  pub slot : (i : ℕ) → get_slot_idx config 0 (i + 1) ≡ (i + 1) % 4
  unfolding get_slot_idx
  slot i = and_three ((i + 1) / 2 ^ 0) ∙ omega arith

  pub next_frame :
      (i : ℕ)
      → i + 1 < 2 ^ 32
      → new_inter_frame config start (suc i) limit resilient (buffer i)
        ≡ (if leb limit (start + (i + 1)) then none else some (frame_after i))
  next_frame i b =
      let place : i + 1 ≡ suc i = omega arith in
      new_inter_frame_at config start (suc i) limit resilient (buffer i) 0 (i + 1) (omega arith)
        (subst (λ (t : ℕ). get_idx_in_group_output config t ≡ 0) place (flat_idx m interval i))
        (subst (λ (t : ℕ). get_order_hint config t 0 ≡ i + 1) place (flat_hint m interval i b))

  -- The last frame is in its slot.
  abbrev pub Holds : ℕ → List (Option ReferenceFrame) → Type 0
  Holds i frames = (length frames ≡ 8) × (hint_in frames (i % 4) ≡ some i)

  Holds-coded :
      (i : ℕ)
      → Holds i (buffer i)
      → Holds (i + 1) (passed_on (first + suc i) (some (frame_after i)) (buffer i))
  unfolding inter_frame get_level get_show_existing_frame is_show_existing_frame is_switch
  Holds-coded i (size, last) =
      let fi = frame_after i in
      let s = (i + 1) % 4 in
      let out = first + suc i in
      (
        length-passed_on out s fi (omega arith) size refl,
        elim (Bool-cases (is_switch (frame_type_of config (suc i) 0))) [
          | inl e ↦
              hint_in-passed_on_all out s fi (omega arith) s (omega arith) size refl (rw e refl)
          | inr e ↦
              new_slot start limit out s fi (omega arith) size refl (rw (e, slot i) refl) s refl
        ],
      )

  Holds-first : Holds 0 (buffer 0)
  unfolding buffer_after update_rec_buffer new_key_frame refresh
  Holds-first = (refl, refl)

  pub Holds-reached : (i : ℕ) → start + i < limit → i < 2 ^ 32 → Holds i (buffer i)
  unfolding buffer_after
  Holds-reached zero l b = Holds-first
  Holds-reached (suc i) l b =
      let Goal =
        λ (o : Option FrameInvariants). Holds (i + 1) (passed_on (first + suc i) o (buffer i)) in
      let in_range : leb limit (start + (i + 1)) ≡ false = ground (arith, l) in
      let place : i + 1 ≡ suc i = omega arith in
      subst (λ (t : ℕ). Holds t (buffer (suc i))) place
        (subst Goal (sym (next_frame i (omega (arith, b)) ∙ rw in_range refl))
          (Holds-coded i (Holds-reached i (omega (arith, l)) (omega (arith, b)))))
