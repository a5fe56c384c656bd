-- ===== src/Log.antt =====
-- log.c: the write-ahead log of the file system. A block is its array of 128 words, as the code
-- reads the header block. Of the buffer cache (bio.c) the log uses this: `bread` hands out the
-- cached contents `mem b` of block b, and `bwrite` puts these on the disk. So that crashes can be
-- spoken of, a machine has `power`, the number of disk writes after which the disk stops changing.
pub mod Head
pub mod Copies
pub mod Install
pub mod Recover
pub mod Commit
pub mod Crash
pub mod Reserve
pub mod Transaction
pub mod Tests
use kernel_tracing.Prelude.{
  ℕ, zero, suc, ◌+◌, ◌-◌, ◌*◌, Bool, true, false, ◌||◌, ltb, leb, ◌==◌, if◌then◌else◌, update,
  Outcome, ok, panic, ◌>>=◌,
}
use kernel_tracing.Spin.{acquire, release}

abbrev pub Block : Type 0
Block = ℕ → ℕ

abbrev pub logsize : ℕ
logsize = 30

abbrev pub max_op_blocks : ℕ
max_op_blocks = 10

-- `struct log`, its header `lh` as the fields `n` and `block`.
pub record Log : Type 0 where
  pub lock : Bool
  pub start : ℕ
  pub size : ℕ
  pub outstanding : ℕ
  pub committing : Bool
  pub n : ℕ
  pub block : ℕ → ℕ

pub record Machine : Type 0 where
  pub log : Log
  pub mem : ℕ → Block
  pub disk : ℕ → Block
  pub power : ℕ

-- `bwrite` on the buffer of block b
pub bwrite : ℕ → Machine → Machine
bwrite b m =
    if m.power == 0 then m else record m { disk = update m.disk b (m.mem b); power = m.power - 1 }

-- `memmove(to->data, from->data, BSIZE)`
abbrev pub copy_block : (to from : ℕ) → Machine → Machine
copy_block to from m = record m { mem = update m.mem to (m.mem from) }

-- The loop of install_trans, with `left` rounds to go.
pub install_loop : (left tail : ℕ) → Machine → Machine
install_loop zero tail m = m
install_loop (suc left) tail m =
    let home = m.log.block tail in
    install_loop left (tail + 1) (bwrite home (copy_block home (m.log.start + tail + 1) m))

pub install_trans : Machine → Machine
install_trans m = install_loop m.log.n 0 m

-- The loop of write_log.
pub write_loop : (left tail : ℕ) → Machine → Machine
write_loop zero tail m = m
write_loop (suc left) tail m =
    let to = m.log.start + tail + 1 in
    write_loop left (tail + 1) (bwrite to (copy_block to (m.log.block tail) m))

pub write_log : Machine → Machine
write_log m = write_loop m.log.n 0 m

-- `for (i = 0; i < log.lh.n; i++) log.lh.block[i] = lh->block[i];`
pub read_blocks : (left i : ℕ) → Block → (ℕ → ℕ) → ℕ → ℕ
read_blocks zero i b block = block
read_blocks (suc left) i b block = read_blocks left (i + 1) b (update block i (b (i + 1)))

pub read_head : Machine → Machine
read_head m =
    let b = m.mem m.log.start in
    record m { log = record (m.log) { n = b 0; block = read_blocks (b 0) 0 b m.log.block } }

-- `for (i = 0; i < log.lh.n; i++) hb->block[i] = log.lh.block[i];`
pub store_blocks : (left i : ℕ) → (ℕ → ℕ) → Block → Block
store_blocks zero i block b = b
store_blocks (suc left) i block b = store_blocks left (i + 1) block (update b (i + 1) (block i))

pub write_head : Machine → Machine
write_head m =
    let b = store_blocks m.log.n 0 m.log.block (update (m.mem m.log.start) 0 m.log.n) in
    bwrite m.log.start (record m { mem = update m.mem m.log.start b })

-- `log.lh.n = 0;`
abbrev pub clear_n : Machine → Machine
clear_n m = record m { log = record (m.log) { n = 0 } }

pub recover_from_log : Machine → Machine
recover_from_log m = write_head (clear_n (install_trans (read_head m)))

pub commit : Machine → Machine
commit m =
    if ltb 0 m.log.n then write_head (clear_n (install_trans (write_head (write_log m)))) else m

-- A start of the machine on what the disk holds: nothing is cached, and the log is recovered.
-- `initlog` takes `start` and `size` from the superblock.
pub initlog : (start size power : ℕ) → Log → (ℕ → Block) → Machine
initlog start size power log disk = recover_from_log (record {
  log = record log { start = start; size = size };
  mem = disk;
  disk = disk;
  power = power;
})

-- What begin_op comes to: it goes on, or sleeps on the log and tries again when it is woken.
pub data Begun : Type 0 where
  begun : Log → Begun
  asleep : Log → Begun

-- One round of begin_op's loop. `sleep` lets go of the lock and takes it again.
pub begin_op : Log → Outcome Begun
begin_op l = do
  locked ← acquire l.lock
  unlocked ← release locked
  ok (
      if l.committing
      then asleep (record l { lock = unlocked })
      else if ltb logsize (l.n + (l.outstanding + 1) * max_op_blocks)
      then asleep (record l { lock = unlocked })
      else begun (record l { outstanding = l.outstanding + 1; lock = unlocked }))

-- The end of end_op for the last operation: the commit, without the lock, and `committing` cleared.
pub commit_op : Machine → Outcome Machine
commit_op m = do
  unlocked ← release m.log.lock
  let done = commit (record m { log = record (m.log) { committing = true; lock = unlocked } })
  again ← acquire done.log.lock
  free ← release again
  ok (record done { log = record (done.log) { committing = false; lock = free } })

-- The end of end_op while other operations go on.
pub leave_op : Machine → Outcome Machine
leave_op m = do
  unlocked ← release m.log.lock
  ok (record m { log = record (m.log) { lock = unlocked } })

-- end_op once it has the lock and has counted itself out
pub finish_op : Machine → Outcome Machine
finish_op m =
    if m.log.committing
    then panic "log.committing"
    else if m.log.outstanding == 0
    then commit_op m
    else leave_op m

-- end_op with the commit in it. Both branches wake the sleepers.
pub end_op : Machine → Outcome Machine
end_op m = do
  locked ← acquire m.log.lock
  finish_op
      (record m { log = record (m.log) { outstanding = m.log.outstanding - 1; lock = locked } })

-- `for (i = 0; i < log.lh.n; i++) if (log.lh.block[i] == b->blockno) break;`
pub find_block : (left i : ℕ) → (ℕ → ℕ) → ℕ → ℕ
find_block zero i block b = i
find_block (suc left) i block b =
    let rest = find_block left (i + 1) block b in if block i == b then i else rest

-- log_write for block `b`. The buffer's B_DIRTY keeps it in the cache, which `mem` takes for granted.
pub log_write : ℕ → Log → Outcome Log
log_write b l =
    if leb logsize l.n || leb (l.size - 1) l.n
    then panic "too big a transaction"
    else if ltb l.outstanding 1
    then panic "log_write outside of trans"
    else do
      locked ← acquire l.lock
      let i = find_block l.n 0 l.block b
      unlocked ← release locked
      ok (record l {
        lock = unlocked;
        block = update l.block i b;
        n = if i == l.n then l.n + 1 else l.n;
      })
