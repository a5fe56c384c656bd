-- ===== src/Kalloc.antt =====
-- kalloc.c: the allocator of physical pages. Of a page's contents the model keeps the first word,
-- where `struct run` has its `next`; memset writes the whole page, that word with it. Addresses
-- are numbers below 2 ^ 64, and 0 is the null pointer.
pub mod Pages
pub mod Boot
pub mod Tests
use kernel_tracing.Prelude.{
  ℕ, zero, suc, ◌+◌, ◌-◌, ◌*◌, ◌/◌, ◌%◌, ◌^◌, Bool, true, false, ◌||◌, not, Option, none, some, ltb,
  leb, ◌==◌, if◌then◌else◌, update, Outcome, ok, panic, ◌>>=◌,
}
use kernel_tracing.Prelude.Int.{ℤ, pos, to_int}
use kernel_tracing.Spin.{acquire, release}
use kernel_tracing.Str.{Bytes, c_string}
use kernel_tracing.Ktrace.{TraceBuffer, Call, Running, traceevent}
use kernel_tracing.Ktrace.TraceType

abbrev pub pgsize : ℕ
pgsize = 4096

abbrev pub phystop : ℕ
phystop = 234881024

-- KERNBASE, 2 ^ 64 - 2 ^ 47
abbrev pub kernbase : ℕ
kernbase = 18446603336221196288

-- The word that memset leaves: eight bytes of value 1.
abbrev pub junk : ℕ
junk = 72340172838076673

-- `kmem`, the first words of all pages, and the trace buffer that the allocator reports to.
pub record Memory : Type 0 where
  pub lock : Bool
  pub use_lock : Bool
  pub freelist : ℕ
  pub next : ℕ → ℕ
  pub trace : TraceBuffer

-- What the allocator reads besides: `end`, the clock and the current process.
pub record Context : Type 0 where
  pub kernel_end : ℕ
  pub ticks : ℕ
  pub proc : Option Running

abbrev pub v2p : ℕ → ℕ
v2p a = (a + 2 ^ 64 - kernbase) % 2 ^ 64

-- `(addr_t)v % PGSIZE || v < end || V2P(v) >= PHYSTOP`
pub bad_page : ℕ → Context → Bool
bad_page v c = not (v % pgsize == 0) || ltb v c.kernel_end || leb phystop (v2p v)

pid_of : Option Running → ℤ
pid_of none = pos 0
pid_of (some p) = p.pid

-- The call of traceevent for page v.
pub page_event : Bytes → ℕ → Context → Call
unfolding pid_of
page_event name v c = record {
  ticks = c.ticks;
  proc = c.proc;
  type = TraceType.mem;
  pid = pid_of c.proc;
  arg0 = to_int (v2p v % 2 ^ 32);
  arg1 = pos 0;
  arg2 = pos 0;
  name = some name;
}

-- `if(kmem.use_lock) acquire(&kmem.lock);` and its counterpart
pub lock_memory : Memory → Outcome Bool
lock_memory m = if m.use_lock then acquire m.lock else ok m.lock

pub unlock_memory : Memory → Outcome Bool
unlock_memory m = if m.use_lock then release m.lock else ok m.lock

pub report : Bytes → ℕ → Context → Memory → Outcome TraceBuffer
report name v c m = if m.use_lock then traceevent (page_event name v c) m.trace else ok m.trace

-- kfree after its check.
pub free_page : ℕ → Context → Memory → Outcome Memory
free_page v c m = do
  let filled = record m { next = update m.next v junk }
  locked ← lock_memory filled
  let linked = record filled {
    lock = locked;
    next = update (filled.next) v filled.freelist;
    freelist = v;
  }
  unlocked ← unlock_memory linked
  trace ← report (c_string "kfree") v c linked
  ok (record linked { lock = unlocked; trace = trace })

pub kfree : ℕ → Context → Memory → Outcome Memory
kfree v c m = if bad_page v c then panic "kfree" else free_page v c m

-- kalloc from the release of the lock on, with the page `r` taken off the list.
pub finish_kalloc : ℕ → Context → Memory → Outcome (ℕ × Memory)
finish_kalloc r c m = do
  unlocked ← unlock_memory m
  trace ← report (c_string "kalloc") r c m
  ok (r, record m { lock = unlocked; trace = trace })

-- kalloc once it has the lock.
pub take_page : Context → Memory → Outcome (ℕ × Memory)
take_page c m =
    if m.freelist == 0
    then panic "Out of memory!"
    else finish_kalloc m.freelist c (record m { freelist = m.next m.freelist })

pub kalloc : Context → Memory → Outcome (ℕ × Memory)
kalloc c m = do locked ← lock_memory m; take_page c (record m { lock = locked })

abbrev pub pgroundup : ℕ → ℕ
pgroundup a = (a + (pgsize - 1)) % 2 ^ 64 / pgsize * pgsize

-- `for(; p + PGSIZE <= (char*)vend; p += PGSIZE) kfree(p);`, on fuel.
pub free_loop : (fuel p vend : ℕ) → Context → Memory → Outcome Memory
free_loop zero p vend c m = ok m
free_loop (suc fuel) p vend c m =
    if leb (p + pgsize) vend then kfree p c m >>= free_loop fuel (p + pgsize) vend c else ok m

-- The fuel counts the pages below vend.
pub freerange : (vstart vend : ℕ) → Context → Memory → Outcome Memory
freerange vstart vend c m = free_loop (vend / pgsize) (pgroundup vstart) vend c m

pub kinit1 : (vstart vend : ℕ) → Context → Memory → Outcome Memory
kinit1 vstart vend c m =
    freerange vstart vend c (record m { lock = false; use_lock = false; freelist = 0 })

pub kinit2 : Memory → Memory
kinit2 m = record m { use_lock = true }
