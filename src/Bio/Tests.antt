-- ===== src/Bio/Tests.antt =====
-- Runs of the buffer cache on a disk of eight blocks.
use kernel_tracing.Prelude.{
  ℕ, ◌+◌, ◌*◌, ◌≤◌, ◌<◌, ◌≡◌, refl, true, false, Option, none, some, [], arith, Outcome, ok, panic,
}
use kernel_tracing.SleepLock.{initsleeplock, acquiresleep, holdingsleep, releasesleep}
use kernel_tracing.Bio.{
  Buf, Cache, find_cached, binit, binit_loop, bread, bwrite, brelse, bget, check_held, iderw,
  check_request, move_data, drop_buf, remove, one_less, is_free, lock_buf, fill, bread_locked,
  choose, recycle, find_clean,
}
use kernel_tracing.Bio.View.{has, IsFlushed, IsCoherent}
use kernel_tracing.Bio.Read.{IsRead, bread-IsRead}
use kernel_tracing.Bio.Write.{IsWritten, edited, edited-IsCoherent}
use kernel_tracing.Bio.Returns.{ReadsOrSleeps, bread-ReadsOrSleeps}
use kernel_tracing.Bio.Held.{IsHeld, bwrite-writes}
use kernel_tracing.Bio.Boot.{binit-IsCoherent, binit-unlocked}

abbrev blank : Buf
blank = record {
  valid = false;
  dirty = false;
  dev = 0;
  blockno = 0;
  lock = initsleeplock;
  refcnt = 0;
  bytes = λ _. 0;
}

-- Byte j of block n is 100 n + j.
abbrev memory : Cache
memory = record {
  lock = false;
  buf = λ _. blank;
  order = [];
  disk = λ n j. n * 100 + j;
  disksize = 8;
}

abbrev booted : Cache
booted = binit memory

booted-IsCoherent : IsCoherent booted
booted-IsCoherent = (binit-IsCoherent memory (λ i. (refl, refl, refl))).0

-- The value of a run, and one that is looked at where there is none.
abbrev value : Outcome (Option ℕ × Cache) → Cache
value (ok r) = r.1
value (panic s) = memory

abbrev got : Outcome (Option ℕ × Cache) → Option ℕ
got (ok r) = r.0
got (panic s) = none

read_run : got (bread 5 1 3 booted) ≡ some 0
unfolding binit binit_loop bread bget choose recycle find_cached find_clean lock_buf fill
    bread_locked iderw check_held check_request move_data acquiresleep initsleeplock holdingsleep
read_run = refl

abbrev read : Cache
read = value (bread 5 1 3 booted)

read_ok : bread 5 1 3 booted ≡ ok (some 0, read)
unfolding binit binit_loop bread bget choose recycle find_cached find_clean lock_buf fill
    bread_locked iderw check_held check_request move_data acquiresleep initsleeplock holdingsleep
read_ok = refl

read-IsRead : IsRead 3 0 booted read
read-IsRead = bread-IsRead 5 3 0 booted read booted-IsCoherent read_ok

-- The process fills the buffer with sevens and writes it.
abbrev changed : Cache
changed = edited 0 (λ _. 7) read

abbrev after : Outcome Cache → Cache
after (ok c) = c
after (panic s) = memory

abbrev saved : Cache
saved = after (bwrite 0 changed)

saved_ok : bwrite 0 changed ≡ ok saved
unfolding binit binit_loop bread bget choose recycle find_cached find_clean lock_buf fill
    bread_locked bwrite iderw check_held check_request move_data acquiresleep initsleeplock
    holdingsleep
saved_ok = refl

read_in_use : 1 ≤ (read.buf 0).refcnt
unfolding binit binit_loop bread bget choose recycle find_cached find_clean lock_buf fill
    bread_locked iderw check_held check_request move_data acquiresleep initsleeplock holdingsleep
read_in_use = omega arith

changed-IsCoherent : IsCoherent changed
changed-IsCoherent = edited-IsCoherent 0 (λ _. 7) read read-IsRead.coherent read_in_use

changed-IsHeld : IsHeld changed 0
unfolding binit binit_loop bread bget choose recycle find_cached find_clean lock_buf fill
    bread_locked bwrite iderw check_held check_request move_data acquiresleep initsleeplock
    holdingsleep
changed-IsHeld = (refl, refl)

changed_block : ((changed.buf 0).dev ≡ 1) × ((changed.buf 0).blockno < changed.disksize)
unfolding binit binit_loop bread bget choose recycle find_cached find_clean lock_buf fill
    bread_locked bwrite iderw check_held check_request move_data acquiresleep initsleeplock
    holdingsleep
changed_block = (refl, omega arith)

bwrite-writes_example : (c' : Cache) × (bwrite 0 changed ≡ ok c') × IsWritten 0 changed c'
bwrite-writes_example =
    bwrite-writes 0 changed changed-IsCoherent read-IsRead.listed changed-IsHeld changed_block.0
      changed_block.1

abbrev closed : Cache
closed = after (brelse 0 read)

closed_ok : brelse 0 read ≡ ok closed
unfolding binit binit_loop bread bget choose recycle find_cached find_clean lock_buf fill
    bread_locked iderw check_held check_request move_data acquiresleep initsleeplock holdingsleep
    brelse drop_buf remove one_less releasesleep
closed_ok = refl

read-IsFlushed : IsFlushed read 0
unfolding binit binit_loop bread bget choose recycle find_cached find_clean lock_buf fill
    bread_locked iderw check_held check_request move_data acquiresleep initsleeplock holdingsleep
read-IsFlushed dev valid dirty = refl

read-IsHeld : IsHeld read 0
unfolding binit binit_loop bread bget choose recycle find_cached find_clean lock_buf fill
    bread_locked bwrite iderw check_held check_request move_data acquiresleep initsleeplock
    holdingsleep
read-IsHeld = (refl, refl)

read_unlocked : read.lock ≡ false
unfolding binit binit_loop bread bget choose recycle find_cached find_clean lock_buf fill
    bread_locked bwrite iderw check_held check_request move_data acquiresleep initsleeplock
    holdingsleep
read_unlocked = refl

booted_unlocked : booted.lock ≡ false
unfolding binit binit_loop
booted_unlocked = refl

booted_free : (has 7 booted.order ≡ true) × (is_free (booted.buf 7) ≡ true)
unfolding binit binit_loop has
booted_free = (refl, refl)

booted_size : 3 < booted.disksize
unfolding binit binit_loop
booted_size = omega arith

blank_lock : blank.lock.lk ≡ false
unfolding initsleeplock
blank_lock = refl

bread-ReadsOrSleeps_example : ReadsOrSleeps 5 3 booted
bread-ReadsOrSleeps_example =
    bread-ReadsOrSleeps 5 3 7 booted booted-IsCoherent booted_unlocked
      (λ j. binit-unlocked j memory blank_lock) booted_size booted_free.0 booted_free.1

-- All thirty buffers in use
abbrev busy : Cache
busy = record booted { buf = λ i. record blank { dev = 1; blockno = 100 + i; refcnt = 1 } }

busy_panic : bget 1 3 busy ≡ panic "bget: no buffers"
unfolding binit binit_loop bget choose recycle find_cached find_clean
busy_panic = refl

busy_has : has 4 busy.order ≡ true
unfolding binit binit_loop has
busy_has = refl

busy_unlocked : busy.lock ≡ false
unfolding binit binit_loop
busy_unlocked = refl
