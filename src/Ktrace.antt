-- ===== src/Ktrace.antt =====
-- ktrace.c and trace.h: the kernel's ring of trace events. Counters are `uint`s with their
-- wrap-around written out; `copyout` of vm.c, by which traceread delivers, is the parameter `fits`.
pub mod Names
pub mod Queue
pub mod Reader
pub mod Tests
pub mod TraceType
use kernel_tracing.Prelude.{
  ℕ, zero, suc, ◌+◌, ◌-◌, ◌%◌, ◌^◌, Bool, true, false, Option, none, some, List, [], ◌∷◌, Outcome,
  ok, panic, ◌>>=◌, ltb, ◌==◌, if◌then◌else◌, update, not,
}
use kernel_tracing.Prelude.Int.{ℤ, pos, negsuc, is_pos, to_nat}
use kernel_tracing.Spin.{acquire, release}
use kernel_tracing.Str.{Bytes, c_string, memset, safestrcpy}

abbrev pub trace_buf_size : ℕ
trace_buf_size = 128

abbrev pub trace_name_len : ℕ
trace_name_len = 16

-- `struct trace_event`
pub record TraceEvent : Type 0 where
  pub seq : ℕ
  pub ticks : ℕ
  pub type : ℤ
  pub pid : ℤ
  pub arg0 : ℤ
  pub arg1 : ℤ
  pub arg2 : ℤ
  pub comm : Bytes
  pub event : Bytes
  pub overwritten : ℕ

-- `traceBuffer`
pub record TraceBuffer : Type 0 where
  pub lock : Bool
  pub enabled : ℕ
  pub seq : ℕ
  pub readseq : ℕ
  pub overwritten : ℕ
  pub events : ℕ → TraceEvent

-- What traceevent reads of the current process.
pub record Running : Type 0 where
  pub pid : ℤ
  pub name : Bytes

-- The arguments of a call of traceevent, the global `ticks` and `proc` among them.
pub record Call : Type 0 where
  pub ticks : ℕ
  pub proc : Option Running
  pub type : ℤ
  pub pid : ℤ
  pub arg0 : ℤ
  pub arg1 : ℤ
  pub arg2 : ℤ
  pub name : Option Bytes

pub traceinit : TraceBuffer → TraceBuffer
traceinit b = record b { lock = false; enabled = 1; seq = 0; readseq = 0; overwritten = 0 }

-- `if(proc && proc->pid > 0) ... else ...`: whose name is recorded.
comm_source : Option Running → Bytes
comm_source none = c_string "kernel"
comm_source (some p) = if is_pos p.pid then p.name else c_string "kernel"

-- `if(name) safestrcpy(event->event, name, sizeof(event->event));`
copy_name : Bytes → Option Bytes → Bytes
copy_name dst none = dst
copy_name dst (some name) = safestrcpy dst name (pos trace_name_len)

-- The event that is left in the slot, `old` being what stood there.
pub stamp : Call → TraceBuffer → TraceEvent → TraceEvent
unfolding comm_source copy_name
stamp c b old = record {
  seq = b.seq;
  ticks = c.ticks;
  type = c.type;
  pid = c.pid;
  arg0 = c.arg0;
  arg1 = c.arg1;
  arg2 = c.arg2;
  comm = safestrcpy (memset old.comm 0 0 trace_name_len) (comm_source c.proc) (pos trace_name_len);
  event = copy_name (memset old.event 0 0 trace_name_len) c.name;
  overwritten = b.overwritten;
}

-- `seq - readseq`, a `uint`
abbrev pub unread : TraceBuffer → ℕ
unread b = (b.seq + 2 ^ 32 - b.readseq) % 2 ^ 32

-- The critical section of traceevent: the store, `seq++`, and the move of `readseq`.
store_event : Call → TraceBuffer → TraceBuffer
store_event c b =
    let slot = b.seq % trace_buf_size in
    record b {
      events = update b.events slot (stamp c b (b.events slot));
      seq = (b.seq + 1) % 2 ^ 32;
    }

skip_overwritten : TraceBuffer → TraceBuffer
skip_overwritten b =
    if ltb trace_buf_size (unread b)
    then record b {
      readseq = (b.seq + 2 ^ 32 - trace_buf_size) % 2 ^ 32;
      overwritten = (b.overwritten + 1) % 2 ^ 32;
    }
    else b

-- All that traceevent does between `acquire` and `release`.
pub record_event : Call → TraceBuffer → TraceBuffer
unfolding store_event skip_overwritten
record_event c b = skip_overwritten (store_event c b)

pub traceevent : Call → TraceBuffer → Outcome TraceBuffer
unfolding record_event
traceevent c b = if b.enabled == 0 then ok b else do
  locked ← acquire b.lock
  let b' = record_event c (record b { lock = locked })
  unlocked ← release b'.lock
  ok (record b' { lock = unlocked })

-- How the loop of traceread ends: with its buffer, the events delivered to dst[count], dst[count+1]
-- and so on, their number, and whether a copyout failed.
pub record Reading : Type 0 where
  pub buffer : TraceBuffer
  pub out : List TraceEvent
  pub count : ℕ
  pub faulted : Bool

abbrev pub deliver : TraceEvent → Reading → Reading
deliver e r = record r { out = e ∷ r.out }

-- `left` is `max_events - count`; `fits i` says that copyout to dst[i] succeeds.
pub read_loop : (left count : ℕ) → (ℕ → Bool) → TraceBuffer → Reading
read_loop zero count fits b = record { buffer = b; out = []; count = count; faulted = false }
read_loop (suc left) count fits b =
    let event = b.events (b.readseq % trace_buf_size) in
    let b' = record b { readseq = (b.readseq + 1) % 2 ^ 32 } in
    let rest = deliver event (read_loop left (count + 1) fits b') in
    if b.readseq == b.seq
    then record { buffer = b; out = []; count = count; faulted = false }
    else if fits count
    then rest
    else record { buffer = b'; out = []; count = count; faulted = true }

-- The value returned: `count > 0 ? count : -1` after a fault, `count` otherwise.
pub read_result : Reading → ℤ
read_result r = if r.faulted then (if ltb 0 r.count then pos r.count else negsuc 0) else pos r.count

pub traceread :
    (ℕ → Bool) → (max_events : ℤ) → TraceBuffer → Outcome (ℤ × List TraceEvent × TraceBuffer)
unfolding read_loop read_result
traceread fits max_events b = if not (is_pos max_events) then ok (pos 0, [], b) else do
  locked ← acquire b.lock
  let r = read_loop (to_nat max_events) 0 fits (record b { lock = locked })
  unlocked ← release r.buffer.lock
  ok (read_result r, r.out, record (r.buffer) { lock = unlocked })
