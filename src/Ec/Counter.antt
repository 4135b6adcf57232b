-- ===== src/Ec/Counter.antt =====
-- `WriterCounter` of src/ec.rs: it only counts the bits.
use rav1e.Prelude.{ℕ, ◌+◌, ◌*◌, ◌%◌, ◌^◌}
use rav1e.Ec.Format.{leading_zeros}
use rav1e.Ec.Base.{WriterBase, WriterCheckpoint, StorageBackend, lr_compute}
use rav1e.Ec.Base

pub record WriterCounter : Type 0 where
  pub bits : ℕ

unfoldable pub new : WriterBase WriterCounter
new = Base.new (record { bits = 0 })

unfoldable pub store : ℕ → ℕ → ℕ → WriterBase WriterCounter → WriterBase WriterCounter
store fl fh nms w =
    let (_, r) = lr_compute w.rng fl fh nms in
    let d = leading_zeros 16 r in
    record w { s = record { bits = w.s.bits + d }; rng = r * 2 ^ d % 2 ^ 16 }

unfoldable pub checkpoint : WriterBase WriterCounter → WriterCheckpoint
checkpoint w = record { stream_size = w.s.bits; backend_var = 0; rng = w.rng; cnt = w.cnt }

-- `cnt` is not used, and not restored.
unfoldable pub rollback : WriterCheckpoint → WriterBase WriterCounter → WriterBase WriterCounter
rollback c w = record w { rng = c.rng; s = record { bits = c.stream_size } }

abbrev pub backend : StorageBackend WriterCounter
backend = record {
  store = store;
  stream_bits = λ w. w.s.bits;
  checkpoint = checkpoint;
  rollback = rollback;
}
