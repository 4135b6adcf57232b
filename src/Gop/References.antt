-- ===== src/Gop/References.antt =====
-- The frames that an inter frame shows or refers to: new_inter_frame of src/encoder.rs.
use rav1e.Prelude.{
  ℕ, suc, ◌+◌, ◌-◌, ◌*◌, ◌/◌, ◌%◌, ◌^◌, ◌<◌, ◌≡◌, ap, sym, subst, ◌∙◌, inl, inr, arith, Bool, true,
  false, false≢true, List, Option, some,
}
use rav1e.Gop.Config.{
  EncoderConfig, InterConfig, new, is_switch_valid, get_slot_idx, get_level,
  get_show_existing_frame, to_index,
}
use rav1e.Gop.Inter.{
  ReferenceFrame, FrameInvariants, is_show_existing_frame, inter_frame, new_inter_frame,
  buffer_after, set_ref, ref_frames_of,
}
use rav1e.Gop.Levels.{pyramid, flat, new_cases, hint_at}
use rav1e.Gop.Slots.{hint_in}
use rav1e.Gop.Groups.{Within}
use rav1e.Gop.Reached.{next_frame, Within-reached}
use rav1e.Gop.Places.{reference, frame_is, existing, backward, forward}
use rav1e.Gop.Places
use rav1e.Gop.Flat

-- A frame with re-ordering, at its place.
record Place (resilient : Bool) (start limit n : ℕ) (frames : List (Option ReferenceFrame))
    (fi : FrameInvariants) : Type 0 where
  k : ℕ
  r : ℕ
  small : r < 6
  fits : 4 * k + 4 < 2 ^ 32
  within : Within start limit k r frames
  in_range : start + hint_at k r < limit
  is_frame : Places.frame_at limit start resilient k n frames fits r ≡ fi

place :
    (resilient : Bool) (first start limit n : ℕ) (fi : FrameInvariants)
    → n + 4 < 2 ^ 32
    → new_inter_frame pyramid start
        (suc n)
        limit
        resilient
        (buffer_after pyramid resilient first start limit n)
      ≡ some fi
    → Place resilient start limit (suc n) (buffer_after pyramid resilient first start limit n) fi
place resilient first start limit n fi b e =
    let k = n / 6 in
    let r = n % 6 in
    let fits : 4 * k + 4 < 2 ^ 32 = omega (arith, b) in
    let (l, same) =
      frame_is limit (start + hint_at k r) fi _
        (sym (next_frame start limit resilient first k r n (omega arith) (omega arith) fits) ∙ e) in
    let start_in : start + 4 * k < limit = omega (arith, l) in
    let whole : 6 * k + r ≡ n = omega arith in
    record {
      k = k;
      r = r;
      small = omega arith;
      fits = fits;
      within =
          subst (λ t. Within start limit k r (buffer_after pyramid resilient first start limit t))
            whole (Within-reached start limit resilient first k r start_in fits (omega arith));
      in_range = l;
      is_frame = same;
    }

-- The frame without re-ordering refers to the one before it.
flat_backward :
    (m resilient : Bool) (interval first start limit n : ℕ)
    → Flat.Holds m resilient interval first start limit n
        (buffer_after (flat m interval) resilient first start limit n)
    → reference (Flat.frame_after m resilient interval first start limit n) 0
      ≡ some (n + 1 - 1 / 2 ^ 0)
unfolding inter_frame get_level ref_frames_of set_ref to_index
flat_backward true resilient interval first start limit n (size, last) =
    let s : (get_slot_idx (flat true interval) 0 (n + 1) + 4 - 1) % 256 % 4 ≡ n % 4 =
      ap (λ (t : ℕ). (t + 4 - 1) % 256 % 4) (Flat.slot true resilient interval first start limit n)
      ∙ omega arith in
    let hint : n + 1 - 1 / 2 ^ 0 ≡ n = omega arith in rw (s, hint) last
flat_backward false resilient interval first start limit n (size, last) =
    let s : (get_slot_idx (flat false interval) 0 (n + 1) + 4 - 1) % 256 % 4 ≡ n % 4 =
      ap (λ (t : ℕ). (t + 4 - 1) % 256 % 4) (Flat.slot false resilient interval first start limit n)
      ∙ omega arith in
    let hint : n + 1 - 1 / 2 ^ 0 ≡ n = omega arith in rw (s, hint) last

-- What holds of a frame at its place and of one without re-ordering holds of every frame.
module _ (P : InterConfig → FrameInvariants → Type 0) (e : EncoderConfig) (first start limit n : ℕ)
    (placed : (k r : ℕ) (frames : List (Option ReferenceFrame)) (fits : 4 * k + 4 < 2 ^ 32)
      → r < 6
      → Within start limit k r frames
      → start + hint_at k r < limit
      → P pyramid (Places.frame_at limit start e.error_resilient k (suc n) frames fits r))
    (unordered : Flat.Holds e.multiref e.error_resilient e.switch_frame_interval first start limit n
        (buffer_after
          (flat e.multiref e.switch_frame_interval)
          e.error_resilient
          first
          start
          limit
          n)
      → P (flat e.multiref e.switch_frame_interval) (
          Flat.frame_after e.multiref e.error_resilient e.switch_frame_interval first start limit
            n)) where
  every_frame :
      (c : InterConfig) (fi : FrameInvariants)
      → is_switch_valid e ≡ true
      → new e ≡ some c
      → n + 4 < 2 ^ 32
      → new_inter_frame c start
          (suc n)
          limit
          e.error_resilient
          (buffer_after c e.error_resilient first start limit n)
        ≡ some fi
      → P c fi
  every_frame c fi v isnew b is =
      let res = e.error_resilient in
      let frames = λ (c : InterConfig). buffer_after c res first start limit n in
      let Goal = λ (c : InterConfig).
        new_inter_frame c start (suc n) limit res (frames c) ≡ some fi → P c fi in
      elim (new_cases e c v isnew) [
        | inl pyramid_is ↦
            subst Goal (sym pyramid_is)
              (λ is.
                let p = place res first start limit n fi b is in
                subst (P pyramid) p.is_frame
                  (placed p.k p.r (frames pyramid) p.fits p.small p.within p.in_range))
              is
        | inr flat_is ↦
            subst Goal (sym flat_is)
              (λ is.
                let m = e.multiref in
                let interval = e.switch_frame_interval in
                let (l, same) = frame_is limit (start + (n + 1)) fi _ (
                  sym (Flat.next_frame m res interval first start limit n (omega (arith, b)))
                  ∙ is) in
                subst (P (flat m interval)) same (
                  unordered (
                    Flat.Holds-reached m res interval first start limit n (omega (arith, l))
                      (omega (arith, b)))))
              is
      ]

module _ (e : EncoderConfig) (c : InterConfig) (first start limit n : ℕ) (fi : FrameInvariants)
    (valid : is_switch_valid e ≡ true) (is_new : new e ≡ some c) (few : n + 4 < 2 ^ 32)
    (is_frame : new_inter_frame c start
        (suc n)
        limit
        e.error_resilient
        (buffer_after c e.error_resilient first start limit n)
      ≡ some fi) where
  -- For a configuration that `InterConfig::new` makes of an encoder whose switch frame
  -- interval is valid, each frame that `new_inter_frame` makes to show an existing one
  -- finds, in the slot that its header names, the frame with its own order hint. The slots
  -- are those that the key frame and the inter frames before it leave; the latter are fewer
  -- than 2 ^ 32 - 4.
  pub hint_in-frame_to_show_map_idx :
      is_show_existing_frame fi ≡ true
      → hint_in fi.rec_buffer fi.frame_to_show_map_idx ≡ some fi.order_hint
  unfolding inter_frame is_show_existing_frame get_show_existing_frame
  hint_in-frame_to_show_map_idx =
      every_frame
        (λ c fi.
          is_show_existing_frame fi ≡ true
          → hint_in fi.rec_buffer fi.frame_to_show_map_idx ≡ some fi.order_hint)
        e first start limit n
        (λ k r frames fits small w l.
          existing limit start e.error_resilient k (suc n) frames fits r small w l)
        (λ holds shows. absurd (false≢true shows)) c fi valid is_new few is_frame

  -- For a configuration that `InterConfig::new` makes of an encoder whose switch frame
  -- interval is valid, each inter frame that shows no existing one, the slots being those
  -- that the key frame and fewer than 2 ^ 32 - 4 inter frames before it leave, finds in the
  -- slot of its first reference the frame whose order hint is less by the length of a group
  -- halved once for each level of the frame.
  pub reference-last_frame :
      is_show_existing_frame fi ≡ false
      → reference fi 0 ≡ some (fi.order_hint - c.group_input_len / 2 ^ fi.pyramid_level)
  unfolding inter_frame get_level
  reference-last_frame =
      every_frame
        (λ c fi.
          is_show_existing_frame fi ≡ false
          → reference fi 0 ≡ some (fi.order_hint - c.group_input_len / 2 ^ fi.pyramid_level))
        e first start limit n
        (λ k r frames fits small w l.
          backward limit start e.error_resilient k (suc n) frames fits r small w l)
        (λ holds _.
          flat_backward e.multiref e.error_resilient e.switch_frame_interval first start limit n
            holds)
        c fi valid is_new few is_frame

  -- For a configuration that `InterConfig::new` makes of an encoder whose switch frame
  -- interval is valid, each inter frame of a level above 0 that shows no existing one, the
  -- slots being those that the key frame and fewer than 2 ^ 32 - 4 inter frames before it
  -- leave, finds in the slot of its last reference the frame whose order hint is greater by
  -- the length of a group halved once for each level of the frame, if that frame comes
  -- before the next key frame.
  pub reference-altref_frame :
      is_show_existing_frame fi ≡ false
      → 0 < fi.pyramid_level
      → start + (fi.order_hint + c.group_input_len / 2 ^ fi.pyramid_level) < limit
      → reference fi 6 ≡ some (fi.order_hint + c.group_input_len / 2 ^ fi.pyramid_level)
  unfolding inter_frame get_level
  reference-altref_frame =
      every_frame
        (λ c fi.
          is_show_existing_frame fi ≡ false
          → 0 < fi.pyramid_level
          → start + (fi.order_hint + c.group_input_len / 2 ^ fi.pyramid_level) < limit
          → reference fi 6 ≡ some (fi.order_hint + c.group_input_len / 2 ^ fi.pyramid_level))
        e first start limit n
        (λ k r frames fits small w l.
          forward limit start e.error_resilient k (suc n) frames fits r small w)
        (λ holds _ p. absurd (omega (arith, p))) c fi valid is_new few is_frame
