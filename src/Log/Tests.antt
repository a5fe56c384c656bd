-- ===== src/Log/Tests.antt =====
-- The log on concrete disks.
use kernel_tracing.Prelude.{
  ◌+◌, ◌≡◌, refl, fun_ext, ◌≢◌, inr, true, false, [], ◌∷◌, arith, ◌==◌, if◌then◌else◌, ok,
}
use kernel_tracing.Log.{Log, Machine, commit, initlog, begin_op, log_write}
use kernel_tracing.Log.Commit.{CanCommit}
use kernel_tracing.Log.Crash.{restarts, commit-atomic}
use kernel_tracing.Log.Reserve.{Absorbed}
use kernel_tracing.Log.Transaction.{Reaches, boots, begins, log_write-promised}

-- A log of 40 blocks from block 2 with the entries 100 and 101, and one more disk write than those
-- of the log's copies.
abbrev two_entries : Log
two_entries = record {
  lock = false;
  start = 2;
  size = 40;
  outstanding = 0;
  committing = true;
  n = 2;
  block = λ i. 100 + i;
}

abbrev machine : Machine
machine = record {
  log = two_entries;
  mem = λ b i. if b == 100 then 7 else if b == 101 then 8 else 0;
  disk = λ b i. 0;
  power = 4;
}

machine-CanCommit : CanCommit machine
machine-CanCommit = record {
  room = omega arith;
  home = λ i h. inr (omega arith);
  empty = refl;
  clean = λ b hb none_of.
      let a : 100 ≢ b = none_of 0 (omega arith) in
      let c : 101 ≢ b = none_of 1 (omega arith) in fun_ext (λ i. ground (arith, a, c));
}

commit-atomic_example :
    (initlog 2 40 9 two_entries (restarts 2 40 two_entries (1 ∷ 2 ∷ []) (commit machine).disk)).disk
      101
    ≡ machine.mem 101
commit-atomic_example =
    commit-atomic machine machine-CanCommit two_entries (1 ∷ 2 ∷ []) 9 (omega arith) 101
      (inr (omega arith))

abbrev idle : Machine
idle = record machine { log = record two_entries { n = 0; committing = false } }

abbrev running : Machine
running = record idle { log = record (idle.log) { outstanding = 1; lock = false } }

running-Reaches : Reaches running 10
unfolding begin_op
running-Reaches = begins idle 0 (running.log) (boots idle (omega arith) refl refl refl refl) refl

log_write-promised_example :
    (l : Log) × ((log_write 100 (running.log) ≡ ok l) × Absorbed 100 (running.log) l)
log_write-promised_example = log_write-promised running 9 100 running-Reaches
