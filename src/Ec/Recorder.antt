-- ===== src/Ec/Recorder.antt =====
-- `WriterRecorder` of src/ec.rs: it keeps the tokens for a later replay.
use rav1e.Prelude.{ℕ, ◌+◌, ◌*◌, ◌%◌, ◌^◌, List, [], ◌∷◌, ◌++◌, length, take}
use rav1e.Prelude.Int.{negsuc}
use rav1e.Ec.Format.{leading_zeros}
use rav1e.Ec.Base.{WriterBase, WriterCheckpoint, StorageBackend, lr_compute}
use rav1e.Ec.Base

-- The arguments of a `store`.
pub record Token : Type 0 where
  pub fl : ℕ
  pub fh : ℕ
  pub nms : ℕ

pub record WriterRecorder : Type 0 where
  pub storage : List Token
  pub bits : ℕ

unfoldable pub new : WriterBase WriterRecorder
new = Base.new (record { storage = []; bits = 0 })

unfoldable pub store : ℕ → ℕ → ℕ → WriterBase WriterRecorder → WriterBase WriterRecorder
store fl fh nms w =
    let (_, r) = lr_compute w.rng fl fh nms in
    let d = leading_zeros 16 r in
    record w {
      s = record {
        storage = w.s.storage ++ (record { fl = fl; fh = fh; nms = nms } ∷ []);
        bits = w.s.bits + d;
      };
      rng = r * 2 ^ d % 2 ^ 16;
    }

unfoldable pub checkpoint : WriterBase WriterRecorder → WriterCheckpoint
checkpoint w = record {
  stream_size = w.s.bits;
  backend_var = length w.s.storage;
  rng = w.rng;
  cnt = w.cnt;
}

unfoldable pub rollback : WriterCheckpoint → WriterBase WriterRecorder → WriterBase WriterRecorder
rollback c w = record w {
  rng = c.rng;
  cnt = c.cnt;
  s = record { storage = take c.backend_var w.s.storage; bits = c.stream_size };
}

abbrev pub backend : StorageBackend WriterRecorder
backend = record {
  store = store;
  stream_bits = λ w. w.s.bits;
  checkpoint = checkpoint;
  rollback = rollback;
}

-- `for &(fl, fh, nms) in &self.s.storage { dest.store(fl, fh, nms) }`
unfoldable pub store_all :
    {S : Type 0} → StorageBackend S → List Token → WriterBase S → WriterBase S
store_all b [] w = w
store_all b (t ∷ ts) w = store_all b ts (b.store t.fl t.fh t.nms w)

-- The recorder and the destination after the replay.
unfoldable pub replay :
    {S : Type 0}
    → StorageBackend S
    → WriterBase WriterRecorder
    → WriterBase S
    → WriterBase WriterRecorder × WriterBase S
replay b w dest = (
  record w { rng = 0x8000; cnt = negsuc 8; s = record { storage = []; bits = 0 } },
  store_all b w.s.storage dest,
)
