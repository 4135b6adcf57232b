-- ===== src/Ec/ContextLog.antt =====
-- The log of distributions of src/context/cdf_context.rs, which takes back their updates.
-- A `CDFContext` is a C struct of 16-bit words, and is modelled as the words at each index; a
-- `CDFOffset` counts bytes. The spare capacity of the vectors is not modelled.
pub mod Entries
pub mod Undo
pub mod Adaptive
use package.rav1e.Prelude.{
  ℕ, zero, suc, ◌+◌, ◌-◌, ◌/◌, ◌%◌, ◌^◌, List, [], ◌∷◌, ◌++◌, length, take, drop, get_elem?, leb,
  if◌then◌else◌, Option, none, some, M, ok, err, fault,
}
use package.rav1e.Ec.Base.{WriterBase, StorageBackend}
use package.rav1e.Ec.Symbol.{symbol}
use package.rav1e.Ec.Cdf.{update_cdf}

abbrev pub cdf_len_small : ℕ
cdf_len_small = 4

abbrev pub CdfContext : Type 0
CdfContext = ℕ → ℕ

-- The words from an offset on, and the offset.
pub record Saved : Type 0 where
  pub words : List ℕ
  pub offset : ℕ

pub record CdfContextLog : Type 0 where
  pub small : List Saved
  pub large : List Saved

pub record CdfContextCheckpoint : Type 0 where
  pub small : ℕ
  pub large : ℕ

-- `n` words from the index `i` on.
unfoldable pub copy_words : ℕ → CdfContext → ℕ → List ℕ
copy_words zero fc i = []
copy_words (suc n) fc i = fc i ∷ copy_words n fc (i + 1)

-- The word that an entry has for an index.
abbrev pub saved_word : Saved → ℕ → Option ℕ
saved_word e a = if leb (e.offset / 2) a then get_elem? e.words (a - e.offset / 2) else none

unfoldable pub paste : Saved → CdfContext → CdfContext
paste e fc a = elim (saved_word e a) [ some v ↦ v | none ↦ fc a ]

-- `push` of a partition of `n` words, which is `CDF_LEN_MAX_PLUS_1 - 1`.
unfoldable pub push_part : ℕ → ℕ → CdfContext → List Saved → List Saved
push_part n offset fc entries =
    entries ++ (record { words = copy_words n fc (offset / 2); offset = offset % 2 ^ 16 } ∷ [])

-- The loop of `rollback`, from the last entry down.
unfoldable pub paste_all : List Saved → CdfContext → CdfContext
paste_all [] fc = fc
paste_all (e ∷ es) fc = paste e (paste_all es fc)

unfoldable pub rollback_part : ℕ → List Saved → CdfContext → List Saved × CdfContext
rollback_part checkpoint entries fc =
    (take checkpoint entries, paste_all (drop checkpoint entries) fc)

unfoldable pub checkpoint : CdfContextLog → CdfContextCheckpoint
checkpoint log = record { small = length log.small; large = length log.large }

-- `len` is `CDF_LEN`; what the caller then writes is not part of it.
unfoldable pub push : ℕ → ℕ → CdfContext → CdfContextLog → CdfContextLog
push len offset fc log =
    if leb len cdf_len_small
    then record log { small = push_part cdf_len_small offset fc log.small }
    else record log { large = push_part 16 offset fc log.large }

unfoldable pub rollback :
    CdfContextCheckpoint → CdfContextLog → CdfContext → CdfContextLog × CdfContext
rollback c log fc =
    let (small, fc) = rollback_part c.small log.small fc in
    let (large, fc) = rollback_part c.large log.large fc in
    (record { small = small; large = large }, fc)

abbrev pub clear : CdfContextLog → CdfContextLog
clear log = record { small = []; large = [] }

-- A writer, the log and the context, as `symbol_with_update` borrows them.
pub record Coding (S : Type 0) : Type 0 where
  pub w : WriterBase S
  pub log : CdfContextLog
  pub fc : CdfContext

-- The context with a list of words from the index `i` on.
unfoldable pub write_words : List ℕ → ℕ → CdfContext → CdfContext
write_words ws i fc a = elim (if leb i a then get_elem? ws (a - i) else none) [
  | some v ↦ v
  | none ↦ fc a
]

-- Of src/ec.rs, for a distribution of `len` words at an offset.
unfoldable pub symbol_with_update :
    {S : Type 0} → StorageBackend S → ℕ → ℕ → ℕ → M (Coding S) (Unit {0})
symbol_with_update b s len offset c =
    let cdf = copy_words len c.fc (offset / 2) in
    let log = push len offset c.fc c.log in
    elim (symbol b s cdf c.w) [
      | ok w _ ↦
          ok (record { w = w; log = log; fc = write_words (update_cdf cdf s) (offset / 2) c.fc }) tt
      | err w e ↦ err (record { w = w; log = log; fc = c.fc }) e
      | fault ↦ fault
    ]
