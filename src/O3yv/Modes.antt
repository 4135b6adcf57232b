-- ===== src/O3yv/Modes.antt =====
-- The mode stream, the segment map and the fragment header of minidecoder/src/lib.rs, as far as
-- they are checked or measured without a picture (lines 924 to 942 and 1060 to 1201).
pub mod Safe
use package.rav1e.Prelude.{
  ℕ, zero, suc, ◌+◌, ◌*◌, List, ltb, leb, ◌==◌, not, ◌||◌, if◌then◌else◌, length, bit_and, Bool,
  true, false,
}
use package.rav1e.Prelude.{
  M, ok, err, fault, ◌>>=◌, ◌>>◌, done, fail, eof, invalid, unsupported, refuse_if, require,
}
use package.rav1e.Prelude.Loops.{for_each}
use package.rav1e.O3yv.Format.{
  mb_w, mb_h, mb_count, mode_base_res, mode_copy16, mode_copy16_res, mode_copy16x8,
  mode_copy16x8_res, mode_copy8x16, mode_copy8x16_res, mode_copy8x8, mode_copy8x8_res, mode_raw_mb,
}
use package.rav1e.O3yv.Bytes.{load_byte}
use package.rav1e.O3yv.Reader
use package.rav1e.O3yv.Reader.{Reader, u8, skip, remaining, consume_optional_trailing_zero}

unfoldable pub validate_fragment_header :
    {S : Type 0} → ℕ → ℕ → ℕ → ℕ → ℕ → ℕ → ℕ → ℕ → M S (Unit {0})
validate_fragment_header frag_tile_id tile_id flags crc row_start row_count start_mb count = do
  refuse_if (not (frag_tile_id == tile_id) || not (flags == 0) || not (crc == 0)) invalid
  refuse_if (leb mb_count start_mb || count == 0 || ltb mb_count (start_mb + count)) invalid
  refuse_if (leb mb_h row_start || row_count == 0 || ltb mb_h (row_start + row_count)) invalid
  refuse_if (not (start_mb == row_start * mb_w) || not (count == row_count * mb_w)) unsupported

-- The loop from `position` with `described` blocks done. Each round describes a block at least.
unfoldable pub segment_runs : {S : Type 0} → List ℕ → ℕ → ℕ → ℕ → ℕ → ℕ → M S (Unit {0})
segment_runs bytes segment_count count zero position described =
    if ltb described count then (λ _. fault) else refuse_if (not (position == length bytes)) invalid
segment_runs bytes segment_count count (suc fuel) position described =
    let round = (do
      refuse_if (ltb (length bytes) (position + 2)) eof
      run_minus_1 ← load_byte bytes position
      segment_id ← load_byte bytes (position + 1)
      let run = run_minus_1 + 1
      refuse_if (leb segment_count segment_id) invalid
      refuse_if (ltb count (described + run)) invalid
      segment_runs bytes segment_count count fuel (position + 2) (described + run)) in
    if ltb described count then round else refuse_if (not (position == length bytes)) invalid

unfoldable pub validate_segment_map : {S : Type 0} → List ℕ → ℕ → ℕ → M S (Unit {0})
validate_segment_map bytes segment_count count =
    if segment_count == 1
    then refuse_if (not (length bytes == 0)) invalid
    else (require (leb count mb_count) >> segment_runs bytes segment_count count count 0 0)

unfoldable pub skip_mode_payload : ℕ → M Reader (Unit {0})
skip_mode_payload mode =
    if mode == mode_base_res || mode == mode_raw_mb
    then done tt
    else if mode == mode_copy16 || mode == mode_copy16_res
    then skip 2
    else if mode == mode_copy16x8
        || mode == mode_copy16x8_res
        || mode == mode_copy8x16
        || mode == mode_copy8x16_res
    then skip 4
    else if mode == mode_copy8x8 || mode == mode_copy8x8_res
    then skip 8
    else fail unsupported

-- What follows the loops over a mode stream.
unfoldable pub finish_modes : ℕ → ℕ → M Reader (Unit {0})
finish_modes end_mb mb_index = do
  refuse_if (not (mb_index == end_mb)) invalid
  consume_optional_trailing_zero
  λ r. refuse_if (not (remaining r == 0)) invalid r

-- The loop of `count_base_predictor_mbs_in_modes`: its four kinds of opcode.
unfoldable pub count_modes : ℕ → ℕ → ℕ → ℕ → ℕ → M Reader ℕ
count_modes end_mb limit zero mb_index base_mbs =
    if ltb mb_index end_mb then (λ _. fault) else (finish_modes end_mb mb_index >> done base_mbs)
count_modes end_mb limit (suc fuel) mb_index base_mbs =
    let next = λ (run base : ℕ). count_modes end_mb limit fuel (mb_index + run) base in
    let finish = finish_modes end_mb mb_index >> done base_mbs in
    -- `base_mbs += n; if base_mbs > limit { return Ok(base_mbs) }`
    let counted = λ (run : ℕ).
      if ltb limit (base_mbs + run) then done (base_mbs + run) else next run (base_mbs + run) in
    let skip_run = λ (op : ℕ). refuse_if (ltb end_mb (mb_index + op)) invalid >> counted op in
    let one = λ (mode : ℕ).
      skip_mode_payload mode >> (if mode == mode_base_res then counted 1 else next 1 base_mbs) in
    let many = λ (mode : ℕ). u8 >>= λ n.
    refuse_if (ltb end_mb (mb_index + (n + 1))) invalid
    >> (for_each (n + 1) 0 (λ _. skip_mode_payload mode)
        >> (if mode == mode_base_res then counted (n + 1) else next (n + 1) base_mbs)) in
    let round = u8 >>= λ op.
    if op == 0
    then finish
    else if leb op 0x7f
    then skip_run op
    else if bit_and op 0xf0 == 0x80
    then one (bit_and op 0x0f)
    else if bit_and op 0xf0 == 0x90
    then many (bit_and op 0x0f)
    else fail invalid in
    if ltb mb_index end_mb then round else finish

unfoldable pub count_base_predictor_mbs_in_modes : List ℕ → ℕ → ℕ → ℕ → M Reader ℕ
count_base_predictor_mbs_in_modes mode_stream start_mb count limit _ =
    count_modes (start_mb + count) limit count start_mb 0 (Reader.new mode_stream)

-- The loop of `mode_stream_is_all_skip`, with `described` blocks done.
unfoldable pub all_skip : ℕ → ℕ → ℕ → Reader → Bool
all_skip count zero described r = false
all_skip count (suc fuel) described r =
    let rest = all_skip count fuel in
    if ltb described count
    then elim (u8 r) [
      | ok r' op ↦
          if op == 0 || ltb 0x7f op || ltb count (described + op)
          then false
          else rest (described + op) r'
      | err r' e ↦ false
      | fault ↦ false
    ]
    else elim (consume_optional_trailing_zero r) [
      | ok r' _ ↦ remaining r' == 0
      | err r' e ↦ false
      | fault ↦ false
    ]

unfoldable pub mode_stream_is_all_skip : List ℕ → ℕ → Bool
mode_stream_is_all_skip mode_stream count = all_skip count (suc count) 0 (Reader.new mode_stream)
