-- ===== src/Syscall.antt =====
-- syscall.c: how a system call fetches its arguments from the registers and the memory of the
-- process, and what it checks; sysproc.c: sys_traceread, which hands them to traceread.
pub mod Check
pub mod Strings
pub mod Tests
use kernel_tracing.Prelude.{
  ℕ, zero, suc, ◌+◌, ◌-◌, ◌*◌, ◌%◌, ◌^◌, Bool, ◌||◌, not, Option, none, some, List, ltb, leb, ◌==◌,
  if◌then◌else◌, Outcome, ok, panic, [], ◌>>=◌,
}
use kernel_tracing.Prelude.Int.{ℤ, pos, negsuc, is_neg, is_pos, to_nat, to_int, to_uint}
use kernel_tracing.Ktrace.{TraceEvent, TraceBuffer, traceread}

abbrev pub pgsize : ℕ
pgsize = 4096

-- What the routines read of `proc`: its size, the bytes of its memory, and the argument registers
-- of its trap frame.
pub record Caller : Type 0 where
  pub sz : ℕ
  pub mem : ℕ → ℕ
  pub rdi : ℕ
  pub rsi : ℕ
  pub rdx : ℕ
  pub r10 : ℕ
  pub r8 : ℕ
  pub r9 : ℕ

-- The `n` bytes at addr as one little-endian number.
pub load : (n addr : ℕ) → (ℕ → ℕ) → ℕ
load zero addr mem = 0
load (suc n) addr mem = mem addr + 256 * load n (addr + 1) mem

-- The guard of fetchint and fetchaddr, for a value of `n` bytes.
pub outside : (n addr : ℕ) → Caller → Bool
outside n addr p = ltb addr pgsize || leb p.sz addr || ltb p.sz ((addr + n) % 2 ^ 64)

-- -1 is `none`, 0 with `*ip` set is `some`, here and below.
pub fetchint : ℕ → Caller → Option ℤ
fetchint addr p = if outside 4 addr p then none else some (to_int (load 4 addr p.mem))

pub fetchaddr : ℕ → Caller → Option ℕ
fetchaddr addr p = if outside 8 addr p then none else some (load 8 addr p.mem)

-- `for(s = *pp; s < ep; s++) if(*s == 0) return s - *pp;` with `left` = ep - s
pub scan : (left s : ℕ) → (ℕ → ℕ) → Option ℕ
scan zero s mem = none
scan (suc left) s mem = let rest = scan left (s + 1) mem in if mem s == 0 then some s else rest

-- The string's address and length. The length is returned as an int.
-- `return s - *pp`, with `*pp = addr` set
found : ℕ → Option ℕ → Option (ℕ × ℤ)
found addr none = none
found addr (some s) = some (addr, to_int ((s - addr) % 2 ^ 32))

pub fetchstr : ℕ → Caller → Option (ℕ × ℤ)
unfolding found
fetchstr addr p =
    if ltb addr pgsize || leb p.sz addr then none else found addr (scan (p.sz - addr) addr p.mem)

pub fetcharg : ℕ → Caller → Outcome ℕ
fetcharg n p =
    if n == 0
    then ok p.rdi
    else if n == 1
    then ok p.rsi
    else if n == 2
    then ok p.rdx
    else if n == 3
    then ok p.r10
    else if n == 4
    then ok p.r8
    else if n == 5
    then ok p.r9
    else panic "failed fetch"

pub argint : ℕ → Caller → Outcome ℤ
argint n p = do w ← fetcharg n p; ok (to_int (w % 2 ^ 32))

pub argaddr : ℕ → Caller → Outcome ℕ
argaddr n p = fetcharg n p

-- `size < 0 || (uint)i >= proc->sz || (uint)i+size > proc->sz`
pub bad_block : (i : ℕ) (size : ℤ) → Caller → Bool
bad_block i size p =
    is_neg size || leb p.sz (i % 2 ^ 32) || ltb p.sz ((i % 2 ^ 32 + to_uint size) % 2 ^ 32)

pub argptr : ℕ → (size : ℤ) → Caller → Outcome (Option ℕ)
argptr n size p = do i ← argaddr n p; ok (if bad_block i size p then none else some i)

-- An int as an addr_t, its sign extended.
pub to_addr : ℤ → ℕ
to_addr (pos n) = n
to_addr (negsuc n) = 2 ^ 64 - 1 - n

pub argstr : ℕ → Caller → Outcome (Option (ℕ × ℤ))
argstr n p = do addr ← argint n p; ok (fetchstr (to_addr addr) p)

-- `sizeof(struct trace_event)`: seven words, two names of 16 bytes and one more word.
abbrev pub event_size : ℕ
event_size = 64

-- Where sys_traceread goes on with traceread: at the buffer's address and with max_events.
pub data Checked : Type 0 where
  returns : ℤ → Checked
  reads : (event : ℕ) (max_events : ℤ) → Checked

checked_block : ℤ → Option ℕ → Checked
checked_block max_events none = returns (negsuc 0)
checked_block max_events (some event) = reads event max_events

pub check_buffer : ℤ → Caller → Outcome Checked
unfolding checked_block
check_buffer max_events p = do
  block ← argptr 0 (to_int (to_nat max_events * event_size % 2 ^ 32)) p
  ok (checked_block max_events block)

pub traceread_args : Caller → Outcome Checked
traceread_args p = do
  max_events ← argint 1 p
  if not (is_pos max_events) then ok (returns (pos 0)) else check_buffer max_events p

-- `fits event i` says that copyout to &event[i] succeeds.
pub read_checked :
    (ℕ → ℕ → Bool) → Checked → TraceBuffer → Outcome (ℤ × List TraceEvent × TraceBuffer)
read_checked fits (returns r) b = ok (r, [], b)
read_checked fits (reads event max_events) b = traceread (fits event) max_events b

pub sys_traceread :
    (ℕ → ℕ → Bool) → Caller → TraceBuffer → Outcome (ℤ × List TraceEvent × TraceBuffer)
sys_traceread fits p b = do checked ← traceread_args p; read_checked fits checked b
