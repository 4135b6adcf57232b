-- ===== src/Ec/Examples.antt =====
-- The theorems of the range coder at concrete inputs: the distribution of the tests of src/ec.rs.
use rav1e.Prelude.{ℕ, ◌+◌, ◌-◌, ◌*◌, ◌^◌, ◌≤◌, ◌<◌, ◌≡◌, refl, List, [], ◌∷◌, length, some, arith}
use rav1e.Prelude.{Bool, false, ltb, lt→ltb, inl, inr, if◌then◌else◌}
use rav1e.Prelude.Int.{pos, negsuc, ◌+ℤ◌}
use rav1e.Ec.Format.{leading_zeros, sub32}
use rav1e.Ec.Base
use rav1e.Ec.Base.{lr_compute, frac_compute}
use rav1e.Ec.Base.Bounds.{IsRange, lr_compute_bounds}
use rav1e.Ec.Recorder
use rav1e.Ec.Recorder.{Token, store_all, replay}
use rav1e.Ec.Counter
use rav1e.Ec.Encoder
use rav1e.Ec.Encoder.Exact.{start}
use rav1e.Ec.Encoder.Exact.Refinement.{
  Refines, IsTokens, no_tokens, token, exact_all, new-Refines, store_all-Refines, exact_all-HasRoom,
}
use rav1e.Ec.Encoder.Exact.Finish.{IsCode, done-IsCode}
use rav1e.Ec.Symbol.{
  write_quniform, count_quniform, write_subexp, count_subexp, write_golomb,
  write_signed_subexp_with_ref, count_signed_subexp_with_ref, token_of,
}
use rav1e.Ec.Symbol.Bits.{IsWritten}
use rav1e.Ec.Symbol.Quniform.{read_quniform, write_quniform-IsWritten}
use rav1e.Ec.Symbol.Subexp.{read_subexp, write_subexp-IsWritten}
use rav1e.Ec.Symbol.Golomb.{read_golomb, write_golomb-IsWritten}
use rav1e.Ec.Symbol.Recentred.{read_with_ref, write_signed-IsWritten}
use rav1e.Ec.Tell.{symbol_bits, tell_frac}
use rav1e.Ec.Tell.Agreement.{costs, costs-agree}
use rav1e.Ec.Tell.Estimate.{symbol_bits-store}
use rav1e.Ec.Rollback.{rollback-store_all, replay-store_all}
use rav1e.Ec.Cdf.{update_cdf}
use rav1e.Ec.Cdf.Update.{IsCdf, counted, next, update_cdf-IsCdf}
use rav1e.Ec.ContextLog
use rav1e.Ec.ContextLog.{CdfContext, CdfContextLog, Coding, push}
use rav1e.Ec.ContextLog.Entries.{Outside}
use rav1e.Ec.ContextLog.Undo.{IsPlaced, no_update, update, rollback-Reaches}
use rav1e.Ec.ContextLog.Adaptive.{Coded, no_symbols, placed, IsTakenBack, rollback-code_all}
use rav1e.Ec.Decode.RoundTrip.{
  Choice, IsChoices, no_choices, choice, IsDecoded, decode_all-write_all,
}

abbrev cdf : List ℕ
cdf = 7296 ∷ 3819 ∷ 1716 ∷ 0 ∷ []

cdf-IsCdf : IsCdf 32767 cdf
cdf-IsCdf = next (omega arith) (next (omega arith) (next (omega arith) (counted (omega arith))))

-- A symbol, a bool of probability 2 / 32768, and another symbol.
abbrev choices : List Choice
choices =
    record { s = 2; cdf = cdf }
    ∷ record { s = 1; cdf = 2 ∷ 0 ∷ [] }
    ∷ record { s = 0; cdf = cdf }
    ∷ []

choices-IsChoices : IsChoices choices
choices-IsChoices = choice cdf-IsCdf (omega arith) (omega arith) (
    choice (next (omega arith) (counted (omega arith))) (omega arith) (omega arith)
      (choice cdf-IsCdf (omega arith) (omega arith) no_choices))

decode_all-write_all_example : IsDecoded choices
decode_all-write_all_example = decode_all-write_all choices choices-IsChoices

abbrev tokens : List Token
tokens = record { fl = 3819; fh = 1716; nms = 2 } ∷ record { fl = 2; fh = 0; nms = 1 } ∷ []

tokens-IsTokens : IsTokens tokens
tokens-IsTokens =
    token
      (record {
        ordered = omega arith;
        top = omega arith;
        below = omega arith;
        least = omega arith;
        most = omega arith;
      })
      (token
        (record {
          ordered = omega arith;
          top = omega arith;
          below = omega arith;
          least = omega arith;
          most = omega arith;
        })
        no_tokens)

store_all-Refines_example :
    Refines (store_all Encoder.backend tokens Encoder.new) (exact_all tokens start)
store_all-Refines_example = store_all-Refines tokens Encoder.new start tokens-IsTokens new-Refines

done-IsCode_example :
    IsCode (exact_all tokens start) (Encoder.done (store_all Encoder.backend tokens Encoder.new))
done-IsCode_example =
    done-IsCode (store_all Encoder.backend tokens Encoder.new) (exact_all tokens start)
      (store_all-Refines tokens Encoder.new start tokens-IsTokens new-Refines)
      (exact_all-HasRoom tokens Encoder.new start tokens-IsTokens new-Refines (omega arith))

costs-agree_example :
    (costs Recorder.backend tokens Recorder.new ≡ costs Encoder.backend tokens Encoder.new)
    × (costs Counter.backend tokens Counter.new ≡ costs Encoder.backend tokens Encoder.new)
costs-agree_example = costs-agree tokens tokens-IsTokens

new_low : Encoder.new.s.low < 2 ^ 32
unfolding Encoder.new Base.new
new_low = omega arith

rollback-store_all_example :
    (Encoder.rollback
        (Encoder.checkpoint Encoder.new)
        (store_all Encoder.backend tokens Encoder.new)
      ≡ Encoder.new)
    × (Recorder.rollback
          (Recorder.checkpoint Recorder.new)
          (store_all Recorder.backend tokens Recorder.new)
        ≡ Recorder.new)
    × (Counter.rollback
          (Counter.checkpoint Counter.new)
          (store_all Counter.backend tokens Counter.new)
        ≡ Counter.new)
rollback-store_all_example = rollback-store_all tokens Encoder.new Recorder.new Counter.new new_low

replay-store_all_example :
    replay Encoder.backend (store_all Recorder.backend tokens Recorder.new) Encoder.new
    ≡ (Recorder.new, store_all Encoder.backend tokens Encoder.new)
replay-store_all_example = replay-store_all Encoder.backend tokens Encoder.new

abbrev full : IsRange 0xFFFF
full = record { least = omega arith; most = omega arith }

lr_compute_bounds_example :
    (4 ≤ (lr_compute 0xFFFF 3819 1716 2).1)
    × ((lr_compute 0xFFFF 3819 1716 2).0 + (lr_compute 0xFFFF 3819 1716 2).1 ≤ 0xFFFF)
lr_compute_bounds_example = lr_compute_bounds 0xFFFF 3819 1716 2 full (record {
  ordered = omega arith;
  top = omega arith;
  below = omega arith;
  least = omega arith;
  most = omega arith;
})

update_cdf-IsCdf_example :
    (IsCdf 32767 (update_cdf cdf 1)) × (length (update_cdf cdf 1) ≡ length cdf)
update_cdf-IsCdf_example = update_cdf-IsCdf cdf 1 cdf-IsCdf (omega arith)

write_quniform-IsWritten_example :
    IsWritten Encoder.backend
      (write_quniform Encoder.backend 5 4)
      (read_quniform 5)
      4
      (some (count_quniform 5 4))
write_quniform-IsWritten_example =
    write_quniform-IsWritten Encoder.backend 5 4 (omega arith) (omega arith)

write_subexp-IsWritten_example :
    IsWritten Encoder.backend
      (write_subexp Encoder.backend 100 3 77)
      (read_subexp 100 3)
      77
      (count_subexp 100 3 77)
write_subexp-IsWritten_example =
    write_subexp-IsWritten Encoder.backend 100 3 77 (omega arith) (omega arith) (omega arith)

-- The number 20 - 50, of the 100 numbers from -50 on, for the reference 0.
write_signed-IsWritten_example :
    IsWritten Encoder.backend
      (write_signed_subexp_with_ref Encoder.backend
        (negsuc 49 +ℤ pos 20)
        (negsuc 49)
        (negsuc 49 +ℤ pos 100)
        3
        (negsuc 49 +ℤ pos 50))
      (read_with_ref 100 3 50)
      20
      (count_signed_subexp_with_ref
        (negsuc 49 +ℤ pos 20)
        (negsuc 49)
        (negsuc 49 +ℤ pos 100)
        3
        (negsuc 49 +ℤ pos 50))
write_signed-IsWritten_example =
    write_signed-IsWritten Encoder.backend (negsuc 49) 100 3 20 50 (omega arith) (omega arith)
      (omega arith) (omega arith)

write_golomb-IsWritten_example :
    IsWritten Encoder.backend
      (write_golomb Encoder.backend 9)
      (read_golomb 0)
      9
      (some ((32 - leading_zeros 32 (9 + 1) - 1 + (32 - leading_zeros 32 (9 + 1))) * 8))
write_golomb-IsWritten_example = write_golomb-IsWritten Encoder.backend 9 (omega arith)

abbrev second : Token
second = record { fl = 7296; fh = 3819; nms = 3 }

second_lem : token_of 1 cdf ≡ some second
unfolding token_of
second_lem = refl

new_fake : Encoder.new.fake_bits_frac < 2 ^ 26
unfolding Encoder.new Base.new
new_fake = omega arith

symbol_bits-store_example :
    symbol_bits 1 cdf Encoder.new
    ≡ some (
        sub32
          (tell_frac Encoder.backend (Encoder.store 7296 3819 3 Encoder.new))
          (tell_frac Encoder.backend Encoder.new))
symbol_bits-store_example =
    symbol_bits-store 1 cdf Encoder.new start second new-Refines cdf-IsCdf (omega arith)
      (omega arith) (omega arith) new_fake second_lem

-- Small distributions below the word 100, and large ones from there on.
abbrev is_small : ℕ → Bool
is_small a = ltb a 100

abbrev words : CdfContext
words a = 512

abbrev no_log : CdfContextLog
no_log = record { small = []; large = [] }

small-IsPlaced : IsPlaced is_small 4 0
small-IsPlaced = record {
  word = omega arith;
  room = omega arith;
  small_words = λ h a lo hi. lt→ltb a 100 (omega arith);
  large_words = λ h a lo hi. absurd (omega arith);
}

not_small : (a : ℕ) → 100 ≤ a → is_small a ≡ false
not_small a h = ground arith

large-IsPlaced : IsPlaced is_small 8 200
large-IsPlaced = record {
  word = omega arith;
  room = omega arith;
  small_words = λ h a lo hi. absurd (omega arith);
  large_words = λ h a lo hi. not_small a (omega arith);
}

abbrev coded : List Coded
coded = record { s = 1; len = 4; offset = 0 } ∷ record { s = 2; len = 8; offset = 200 } ∷ []

abbrev coding : Coding Recorder.WriterRecorder
coding = record { w = Recorder.new; log = no_log; fc = words }

rollback-code_all_example : IsTakenBack Recorder.backend coded coding
rollback-code_all_example =
    rollback-code_all Recorder.backend is_small coded coding
      (placed (omega arith) small-IsPlaced (placed (omega arith) large-IsPlaced no_symbols))

-- The four words of a small distribution, changed.
abbrev changed : CdfContext
changed a = if ltb a 4 then 7 else 512

changed-Outside : (a : ℕ) → Outside 0 4 a → changed a ≡ words a
changed-Outside a (inl h) = absurd (omega arith)
changed-Outside a (inr h) = let test : ltb a 4 ≡ false = ground arith in rw test refl

rollback-Reaches_example :
    ((ContextLog.rollback (ContextLog.checkpoint no_log) (push 4 0 words no_log) changed).0
      ≡ no_log)
    × ((a : ℕ)
        → (ContextLog.rollback (ContextLog.checkpoint no_log) (push 4 0 words no_log) changed).1 a
          ≡ words a)
rollback-Reaches_example =
    rollback-Reaches is_small words no_log changed (push 4 0 words no_log)
      (update no_update 4 0 small-IsPlaced changed changed-Outside)
