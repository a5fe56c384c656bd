-- ===== src/Proc/Reached.antt =====
-- The tables that the operations lead to, in any order and by any processes, while nextpid is an int
-- that has not overflowed. The parts of fork and allocproc that run without the lock of the table are
-- steps of their own.
use kernel_tracing.Prelude.{ℕ, ◌+◌, ◌^◌, ◌<◌, ◌≡◌, ◌≢◌, Bool, Option, none, some, List, ok}
use kernel_tracing.Prelude.Int.{ℤ}
use kernel_tracing.Proc.{
  Outside, unused, embryo, runnable, running, Chan, Ptable, nproc, claim_slot, stack_slot,
  fill_child, start_child, drop_child,
}
use kernel_tracing.Proc.Sleep.{Cpu, Guard, yield, sleep, tidy_up, wakeup, kill}
use kernel_tracing.Proc.Exit.{exit, Waited, returns, sleeps, wait}
use kernel_tracing.Proc.Scheduler.{switches, pick_loop}

-- The table that userinit leaves: init alone.
pub record IsBooted (t : Ptable) : Type 0 where
  pub init_slot : t.initproc < nproc
  pub init_state : (t.proc t.initproc).state ≡ runnable
  pub init_pid : (t.proc t.initproc).pid < t.nextpid
  pub init_parent : (t.proc t.initproc).parent ≡ none
  pub rest : (i : ℕ) → i ≢ t.initproc → ((t.proc i).state ≡ unused) × ((t.proc i).parent ≡ none)

abbrev pub table_of : Waited → Ptable
table_of (returns r calls t) = t
table_of (sleeps t) = t

-- Process cur is the one that a CPU runs.
abbrev pub Runs : ℕ → Ptable → Type 0
Runs cur t = (cur < nproc) × ((t.proc cur).state ≡ running)

-- The slot is claimed, and its process has no parent yet: allocproc and fork up to `np->parent = proc`.
abbrev pub IsClaimed : ℕ → Ptable → Type 0
IsClaimed p t = ((t.proc p).state ≡ embryo) × ((t.proc p).parent ≡ none)

pub data Reached : Ptable → Type 0 where
  boots : (t : Ptable) → IsBooted t → Reached t
  locks : (t : Ptable) (b : Bool) → Reached t → Reached (record t { lock = b })
  claims :
      (t t' : Ptable) (slot : Option ℕ)
      → Reached t
      → t.nextpid + 1 < 2 ^ 31
      → claim_slot t ≡ ok (slot, t')
      → Reached t'
  stacks :
      (t : Ptable) (kstack p : ℕ)
      → Reached t
      → IsClaimed p t
      → Reached (stack_slot kstack (some p) t).1
  drops : (t : Ptable) (np : ℕ) → Reached t → IsClaimed np t → Reached (drop_child np t)
  fills :
      (t : Ptable) (cur pgdir : ℕ) (name : ℕ → ℕ) (np : ℕ)
      → Reached t
      → Runs cur t
      → IsClaimed np t
      → Reached (fill_child cur pgdir name np t)
  starts :
      (t : Ptable) (cur np : ℕ)
      → Reached t
      → Runs cur t
      → (t.proc np).state ≡ embryo
      → (t.proc np).parent ≡ some cur
      → Reached (start_child np t)
  picks :
      (t t' : Ptable) (left p skipped q : ℕ)
      → Reached t
      → pick_loop left p skipped t ≡ switches q t'
      → Reached t'
  yields :
      (t t' : Ptable) (c : Cpu) (cur : ℕ)
      → Reached t
      → Runs cur t
      → yield c cur t ≡ ok t'
      → Reached t'
  dozes :
      (t t' : Ptable) (c : Cpu) (cur : ℕ) (chan : Chan) (lk lk' : Guard)
      → Reached t
      → Runs cur t
      → sleep c cur chan lk t ≡ ok (lk', t')
      → Reached t'
  tidies :
      (t t' : Ptable) (cur : ℕ) (lk lk' : Guard)
      → Reached t
      → tidy_up cur lk t ≡ ok (lk', t')
      → Reached t'
  wakes : (t t' : Ptable) (chan : Chan) → Reached t → wakeup chan t ≡ ok t' → Reached t'
  kills : (t t' : Ptable) (pid : ℕ) (r : ℤ) → Reached t → kill pid t ≡ ok (r, t') → Reached t'
  exits :
      (t t' : Ptable) (c : Cpu) (cur : ℕ) (calls : List Outside)
      → Reached t
      → Runs cur t
      → exit c cur t ≡ ok (calls, t')
      → Reached t'
  waits :
      (t : Ptable) (c : Cpu) (cur : ℕ) (w : Waited)
      → Reached t
      → Runs cur t
      → wait c cur t ≡ ok w
      → Reached (table_of w)
