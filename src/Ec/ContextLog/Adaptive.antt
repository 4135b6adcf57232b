-- ===== src/Ec/ContextLog/Adaptive.antt =====
-- Symbols whose distributions adapt, and that a rollback takes both back.
use rav1e.Prelude.{
  ℕ, zero, suc, ◌+◌, ◌-◌, ◌/◌, ◌≤◌, ◌<◌, ◌≡◌, refl, sym, ap, ◌∙◌, List, [], ◌∷◌, length, get_elem?,
  leb, none, some, Bool, true, false, inl, inr, arith, M, ok, ◌>>◌, ok-bind, subst, ltb, lt→ltb,
}
use rav1e.Ec.Base.{WriterBase, StorageBackend}
use rav1e.Ec.Recorder.{Token, store_all}
use rav1e.Ec.Symbol.{symbol, token_of}
use rav1e.Ec.Cdf.{update_cdf}
use rav1e.Ec.Cdf.Update.{length-move_all, length-count_up}
use rav1e.Ec.ContextLog.{
  CdfContext, CdfContextLog, Coding, copy_words, write_words, push, checkpoint, rollback,
  symbol_with_update,
}
use rav1e.Ec.ContextLog.Entries.{Outside}
use rav1e.Ec.ContextLog.Undo.{IsPlaced, Reaches, no_update, update, rollback-Reaches}

length-copy_words : (n i : ℕ) (fc : CdfContext) → length (copy_words n fc i) ≡ n
unfolding copy_words
length-copy_words zero i fc = refl
length-copy_words (suc n) i fc = ap suc (length-copy_words n (i + 1) fc)

length-update_cdf : (cdf : List ℕ) (val : ℕ) → length (update_cdf cdf val) ≡ length cdf
unfolding update_cdf
length-update_cdf [] val = refl
length-update_cdf (v ∷ cdf) val = length-move_all 15 _ val 0 _ ∙ length-count_up (v ∷ cdf)

get-out : (ws : List ℕ) (j : ℕ) → length ws ≤ j → get_elem? ws j ≡ none
get-out [] j h = refl
get-out (x ∷ ws) zero h = absurd (omega arith)
get-out (x ∷ ws) (suc j) h = get-out ws j (omega arith)

write_words-Outside :
    (ws : List ℕ) (i : ℕ) (fc : CdfContext) (a : ℕ)
    → Outside i (length ws) a
    → write_words ws i fc a ≡ fc a
unfolding write_words
write_words-Outside ws i fc a (inl h) =
    let test : leb i a ≡ false = ground arith in rw (write_words, test) refl
write_words-Outside ws i fc a (inr h) =
    let test : leb i a ≡ true = ground arith in
    rw (write_words, test) (rw (get-out ws (a - i) (omega arith)) refl)

some_word : (ws : List ℕ) (j : ℕ) → j < length ws → (v : ℕ) × (get_elem? ws j ≡ some v)
some_word [] j h = absurd (omega arith)
some_word (x ∷ ws) zero h = (x, refl)
some_word (x ∷ ws) (suc j) h = some_word ws j (omega arith)

some_token : (s : ℕ) (cdf : List ℕ) → s < length cdf → (t : Token) × (token_of s cdf ≡ some t)
unfolding token_of
some_token zero cdf h =
    let (v, e) = some_word cdf zero h in
    (record { fl = 32768; fh = v; nms = length cdf - 0 }, rw (token_of, e) refl)
some_token (suc s) cdf h =
    let (v, e) = some_word cdf (suc s) h in
    let (u, f) = some_word cdf (suc s - 1) (omega arith) in
    let test : ltb 0 (suc s) ≡ true = lt→ltb 0 (suc s) (omega arith) in
    (record { fl = u; fh = v; nms = length cdf - suc s }, rw (token_of, test, f, e) refl)

-- A symbol, and where its distribution is.
pub record Coded : Type 0 where
  pub s : ℕ
  pub len : ℕ
  pub offset : ℕ

pub data ArePlaced (is_small : ℕ → Bool) : List Coded → Type 0 where
  no_symbols : ArePlaced is_small []
  placed :
      {c : Coded} {cs : List Coded}
      → c.s < c.len
      → IsPlaced is_small c.len c.offset
      → ArePlaced is_small cs
      → ArePlaced is_small (c ∷ cs)

unfoldable pub code_all : {S : Type 0} → StorageBackend S → List Coded → M (Coding S) (Unit {0})
code_all b [] = λ c. ok c tt
code_all b (x ∷ xs) = symbol_with_update b x.s x.len x.offset >> code_all b xs

-- Stores of the writer, and updates of the context.
pub record IsCoded {S : Type 0} (b : StorageBackend S) (is_small : ℕ → Bool) (w : WriterBase S)
    (fc : CdfContext) (log : CdfContextLog) (now : Coding S) : Type 0 where
  pub tokens : List Token
  pub stored : now.w ≡ store_all b tokens w
  pub reached : Reaches is_small fc log now.fc now.log

-- One symbol.
step_lem :
    {S : Type 0} (b : StorageBackend S) (s len offset : ℕ) (c : Coding S)
    → s < len
    → (t : Token) × (symbol_with_update b s len offset c
        ≡ ok
            (record {
              w = b.store t.fl t.fh t.nms c.w;
              log = push len offset c.fc c.log;
              fc = write_words (update_cdf (copy_words len c.fc (offset / 2)) s) (offset / 2) c.fc;
            })
            tt)
unfolding symbol_with_update symbol
step_lem b s len offset c h =
    let cdf = copy_words len c.fc (offset / 2) in
    let (t, e) = some_token s cdf (omega (arith, length-copy_words len (offset / 2) c.fc)) in
    (t, rw (symbol_with_update, symbol, e) refl)

run :
    {S : Type 0} (b : StorageBackend S) (is_small : ℕ → Bool) (xs : List Coded) (c : Coding S)
    (fc : CdfContext) (log : CdfContextLog)
    → ArePlaced is_small xs
    → Reaches is_small fc log c.fc c.log
    → (now : Coding S) × (code_all b xs c ≡ ok now tt) × (IsCoded b is_small c.w fc log now)
unfolding code_all store_all
run b is_small [] c fc log no_symbols r =
    (c, refl, record { tokens = []; stored = refl; reached = r })
run b is_small (x ∷ xs) c fc log (placed h place rest) r =
    let (t, e) = step_lem b x.s x.len x.offset c h in
    let cdf = copy_words x.len c.fc (x.offset / 2) in
    let words = update_cdf cdf x.s in
    let mid : Coding _ = record {
      w = b.store t.fl t.fh t.nms c.w;
      log = push x.len x.offset c.fc c.log;
      fc = write_words words (x.offset / 2) c.fc;
    } in
    let long : length words ≡ x.len =
      length-update_cdf cdf x.s ∙ length-copy_words x.len (x.offset / 2) c.fc in
    let moved = update r x.len x.offset place mid.fc (λ a out.
      write_words-Outside words (x.offset / 2) c.fc a
        (subst (λ n. Outside (x.offset / 2) n a) (sym long) out)) in
    let (now, f, coded) = run b is_small xs mid fc log rest moved in
    (
      now,
      ok-bind (λ _. code_all b xs) e f,
      record { tokens = t ∷ coded.tokens; stored = coded.stored; reached = coded.reached },
    )

-- Coding from a state, and what a rollback of the log and the context then gives.
pub record IsTakenBack {S : Type 0} (b : StorageBackend S) (xs : List Coded) (c : Coding S)
    : Type 0 where
  pub now : Coding S
  pub coded : code_all b xs c ≡ ok now tt
  pub tokens : List Token
  pub stored : now.w ≡ store_all b tokens c.w
  pub log_back : (rollback (checkpoint c.log) now.log now.fc).0 ≡ c.log
  pub context_back : (a : ℕ) → (rollback (checkpoint c.log) now.log now.fc).1 a ≡ c.fc a

-- For any writer, log and context and any list of symbols, each within its distribution, where a
-- small distribution consists of small words and the 16 words saved for a large one have none of
-- these: coding them all with `symbol_with_update` does not fault, the writer has stored tokens,
-- and a rollback to the checkpoint before gives back the log and each word of the context.
pub rollback-code_all :
    {S : Type 0} (b : StorageBackend S) (is_small : ℕ → Bool) (xs : List Coded) (c : Coding S)
    → ArePlaced is_small xs
    → IsTakenBack b xs c
rollback-code_all b is_small xs c h =
    let (now, e, coded) = run b is_small xs c c.fc c.log h no_update in
    let (same, words) = rollback-Reaches is_small c.fc c.log now.fc now.log coded.reached in
    record {
      now = now;
      coded = e;
      tokens = coded.tokens;
      stored = coded.stored;
      log_back = same;
      context_back = words;
    }
