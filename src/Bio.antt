-- ===== src/Bio.antt =====
-- bio.c, the buffer cache, with the disk in memory of memide.c. The list through the prev and next
-- pointers is `order`, the most recently used buffer first; `brelse` and `bget` are the code under
-- the cache's lock and the buffer's sleep lock.
pub mod View
pub mod Found
pub mod Coherent
pub mod Recycle
pub mod Get
pub mod Transfer
pub mod Read
pub mod Returns
pub mod Held
pub mod Write
pub mod Release
pub mod Boot
pub mod Tests
use mathlib.Core.List.{reverse}
use kernel_tracing.Prelude.{
  ℕ, zero, suc, ◌+◌, ◌-◌, ◌^◌, String, Bool, true, false, ◌&&◌, not, Option, none, some, List, ◌∷◌,
  leb, ◌==◌, if◌then◌else◌, update, Outcome, ok, panic, [], ◌>>=◌,
}
use kernel_tracing.Spin.{acquire, release}
use kernel_tracing.SleepLock.{SleepLock, initsleeplock, acquiresleep, releasesleep, holdingsleep}

abbrev pub nbuf : ℕ
nbuf = 30

-- The data of a block.
abbrev pub Data : Type 0
Data = ℕ → ℕ

-- `struct buf`, B_VALID and B_DIRTY as Booleans
pub record Buf : Type 0 where
  pub valid : Bool
  pub dirty : Bool
  pub dev : ℕ
  pub blockno : ℕ
  pub lock : SleepLock
  pub refcnt : ℕ
  pub bytes : Data

-- `bcache`, and the disk with its number of blocks
pub record Cache : Type 0 where
  pub lock : Bool
  pub buf : ℕ → Buf
  pub order : List ℕ
  pub disk : ℕ → Data
  pub disksize : ℕ

abbrev pub set_buf : ℕ → Buf → Cache → Cache
set_buf i b c = record c { buf = update c.buf i b }

-- The loop of binit, which puts each buffer in front.
pub binit_loop : (left b : ℕ) → Cache → Cache
binit_loop zero b c = c
binit_loop (suc left) b c =
    binit_loop left (b + 1)
      (record (set_buf b (record (c.buf b) { lock = initsleeplock }) c) { order = b ∷ c.order })

pub binit : Cache → Cache
unfolding binit_loop
binit c = binit_loop nbuf 0 (record c { lock = false; order = [] })

-- `b->dev == dev && b->blockno == blockno`
abbrev pub holds : (dev blockno : ℕ) → Buf → Bool
holds dev blockno b = b.dev == dev && b.blockno == blockno

pub find_cached : List ℕ → (dev blockno : ℕ) → (ℕ → Buf) → Option ℕ
find_cached [] dev blockno buf = none
find_cached (i ∷ l) dev blockno buf =
    if holds dev blockno (buf i) then some i else find_cached l dev blockno buf

-- `b->refcnt == 0 && (b->flags & B_DIRTY) == 0`
abbrev pub is_free : Buf → Bool
is_free b = b.refcnt == 0 && not b.dirty

pub find_clean : List ℕ → (ℕ → Buf) → Option ℕ
find_clean [] buf = none
find_clean (i ∷ l) buf = if is_free (buf i) then some i else find_clean l buf

abbrev pub shared : Buf → Buf
shared b = record b { refcnt = b.refcnt + 1 }

abbrev pub recycled : (dev blockno : ℕ) → Buf → Buf
recycled dev blockno b = record b {
  dev = dev;
  blockno = blockno;
  valid = false;
  dirty = false;
  refcnt = 1;
}

-- What the two searches of bget come to.
recycle : (dev blockno : ℕ) → Option ℕ → Cache → Outcome (ℕ × Cache)
recycle dev blockno none c = panic "bget: no buffers"
recycle dev blockno (some i) c = ok (i, set_buf i (recycled dev blockno (c.buf i)) c)

choose : (dev blockno : ℕ) → Option ℕ → Cache → Outcome (ℕ × Cache)
choose dev blockno none c = recycle dev blockno (find_clean (reverse c.order) c.buf) c
choose dev blockno (some i) c = ok (i, set_buf i (shared (c.buf i)) c)

-- bget up to its call of acquiresleep.
pub bget : (dev blockno : ℕ) → Cache → Outcome (ℕ × Cache)
unfolding choose recycle
bget dev blockno c = do
  held ← acquire c.lock
  r ← choose dev blockno (find_cached c.order dev blockno c.buf) (record c { lock = held })
  let c' = r.1
  free ← release c'.lock
  ok (r.0, record c' { lock = free })

-- iderw of memide.c, after its check of the lock
pub move_data : ℕ → Cache → Cache
move_data i c =
    let b = c.buf i in
    if b.dirty
    then record (set_buf i (record b { dirty = false; valid = true }) c) {
      disk = update c.disk b.blockno b.bytes;
    }
    else set_buf i (record b { bytes = c.disk b.blockno; valid = true }) c

pub check_request : ℕ → Cache → Outcome Cache
unfolding move_data
check_request i c =
    let b = c.buf i in
    if b.valid && not b.dirty
    then panic "iderw: nothing to do"
    else if not (b.dev == 1)
    then panic "iderw: request not for disk 1"
    else if leb c.disksize b.blockno
    then panic "iderw: block out of range"
    else ok (move_data i c)

-- `if(!holdingsleep(&b->lock)) panic(...)`
pub check_held : String → ℕ → Cache → Outcome Cache
check_held message i c = do
  r ← holdingsleep (c.buf i).lock
  if r.0 then ok (set_buf i (record (c.buf i) { lock = r.1 }) c) else panic message

pub iderw : ℕ → Cache → Outcome Cache
unfolding check_request
iderw i c = do c' ← check_held "iderw: buf not locked" i c; check_request i c'

-- bread once bget has returned buffer i locked.
pub bread_locked : ℕ → Cache → Outcome Cache
bread_locked i c = if (c.buf i).valid then ok c else iderw i c

pub bwrite : ℕ → Cache → Outcome Cache
bwrite i c = do
  c' ← check_held "bwrite" i c
  iderw i (set_buf i (record (c'.buf i) { dirty = true }) c')

pub remove : ℕ → List ℕ → List ℕ
remove i [] = []
remove i (j ∷ l) = if i == j then l else j ∷ remove i l

-- `b->refcnt--` on a uint
pub one_less : ℕ → ℕ
one_less zero = 2 ^ 32 - 1
one_less (suc n) = n

-- `b->refcnt--; if (b->refcnt == 0) ...`
pub drop_buf : ℕ → Cache → Cache
unfolding remove one_less
drop_buf i c =
    let n = one_less (c.buf i).refcnt in
    let c' = set_buf i (record (c.buf i) { refcnt = n }) c in
    if n == 0 then record c' { order = i ∷ remove i c.order } else c'

pub brelse : ℕ → Cache → Outcome Cache
unfolding drop_buf
brelse i c = do
  c1 ← check_held "brelse" i c
  l ← releasesleep (c1.buf i).lock
  let c2 = set_buf i (record (c1.buf i) { lock = l }) c1
  held ← acquire c2.lock
  let c3 = drop_buf i (record c2 { lock = held })
  free ← release c3.lock
  ok (record c3 { lock = free })

-- `acquiresleep(&b->lock)` of bget, by the process pid: false where it goes to sleep.
pub lock_buf : (pid i : ℕ) → Cache → Outcome (Bool × Cache)
lock_buf pid i c = do
  r ← acquiresleep pid (c.buf i).lock
  ok (r.0, set_buf i (record (c.buf i) { lock = r.1 }) c)

-- `if(!(b->flags & B_VALID)) iderw(b)`, or nothing as long as the process sleeps
pub fill : Bool → ℕ → Cache → Outcome (Option ℕ × Cache)
unfolding bread_locked
fill false i c = ok (none, c)
fill true i c = do c' ← bread_locked i c; ok (some i, c')

-- bread up to its return, or up to where it sleeps in bget.
pub bread : (pid dev blockno : ℕ) → Cache → Outcome (Option ℕ × Cache)
unfolding fill
bread pid dev blockno c = do r ← bget dev blockno c; s ← lock_buf pid r.0 r.1; fill s.0 r.0 s.1
