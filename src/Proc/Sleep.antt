-- ===== src/Proc/Sleep.antt =====
-- proc.c: sched, yield, sleep, wakeup and kill.
use kernel_tracing.Prelude.{
  ℕ, zero, suc, ◌+◌, Bool, true, ◌&&◌, not, Option, none, some, ◌==◌, if◌then◌else◌, Outcome, ok,
  panic, ◌>>=◌,
}
use kernel_tracing.Prelude.Int.{ℤ, pos, negsuc}
use kernel_tracing.Spin.{acquire, release}
use kernel_tracing.Proc.{
  sleeping, runnable, is_sleeping, is_running, Chan, no_chan, same_chan, Process, Ptable, nproc,
  set_proc, set_state,
}

-- What sched reads of the CPU: the depth of its pushcli calls, and FL_IF.
pub record Cpu : Type 0 where
  pub ncli : ℕ
  pub interrupts : Bool

-- sched up to the switch: the table that the scheduler goes on with.
unfoldable pub sched : Cpu → ℕ → Ptable → Outcome Ptable
sched c cur t =
    if not t.lock
    then panic "sched ptable.lock"
    else if not (c.ncli == 1)
    then panic "sched locks"
    else if is_running (t.proc cur).state
    then panic "sched running"
    else if c.interrupts
    then panic "sched interruptible"
    else ok t

-- yield up to the switch. When the process runs again it lets go of the lock.
unfoldable pub yield : Cpu → ℕ → Ptable → Outcome Ptable
yield c cur t = do
  locked ← acquire t.lock
  sched c cur (set_state cur runnable (record t { lock = locked }))

-- The lock given to sleep: ptable.lock, or another one with what it is.
pub data Guard : Type 0 where
  no_lock : Guard
  table_lock : Guard
  other_lock : Bool → Guard

-- `if(lk != &ptable.lock){ acquire(&ptable.lock); release(lk); }`
unfoldable pub swap_locks : Guard → Ptable → Outcome (Guard × Ptable)
swap_locks no_lock t = panic "sleep without lk"
swap_locks table_lock t = ok (table_lock, t)
swap_locks (other_lock lk) t = do
  locked ← acquire t.lock
  unlocked ← release lk
  ok (other_lock unlocked, record t { lock = locked })

abbrev pub doze : ℕ → Chan → Ptable → Ptable
doze cur chan t = set_proc cur (record (t.proc cur) { chan = chan; state = sleeping }) t

-- sleep up to the switch.
unfoldable pub sleep : Cpu → ℕ → Chan → Guard → Ptable → Outcome (Guard × Ptable)
sleep c cur chan lk t = do r ← swap_locks lk t; t' ← sched c cur (doze cur chan r.1); ok (r.0, t')

-- sleep from the switch back on.
unfoldable pub tidy_up : ℕ → Guard → Ptable → Outcome (Guard × Ptable)
tidy_up cur no_lock t = panic "sleep without lk"
tidy_up cur table_lock t = ok (table_lock, set_proc cur (record (t.proc cur) { chan = no_chan }) t)
tidy_up cur (other_lock lk) t = do
  unlocked ← release t.lock
  locked ← acquire lk
  ok (
    other_lock locked,
    set_proc cur (record (t.proc cur) { chan = no_chan }) (record t { lock = unlocked }),
  )

-- `if(p->state == SLEEPING && p->chan == chan) p->state = RUNNABLE;`
abbrev pub woken : Chan → Process → Process
woken chan p =
    if is_sleeping p.state && same_chan p.chan chan then record p { state = runnable } else p

-- The loop of wakeup1.
unfoldable pub wakeup_loop : (left p : ℕ) → Chan → Ptable → Ptable
wakeup_loop zero p chan t = t
wakeup_loop (suc left) p chan t =
    wakeup_loop left (p + 1) chan (set_proc p (woken chan (t.proc p)) t)

unfoldable pub wakeup1 : Chan → Ptable → Ptable
unfolding wakeup_loop
wakeup1 chan t = wakeup_loop nproc 0 chan t

unfoldable pub wakeup : Chan → Ptable → Outcome Ptable
wakeup chan t = do
  locked ← acquire t.lock
  let t' = wakeup1 chan (record t { lock = locked })
  unlocked ← release t'.lock
  ok (record t' { lock = unlocked })

-- `for(...) if(p->pid == pid)`
unfoldable pub find_pid : (left p pid : ℕ) → Ptable → Option ℕ
find_pid zero p pid t = none
find_pid (suc left) p pid t =
    let rest = find_pid left (p + 1) pid t in if (t.proc p).pid == pid then some p else rest

abbrev pub killed_proc : Process → Process
killed_proc p = record p {
  killed = true;
  state = if is_sleeping p.state then runnable else p.state;
}

unfoldable pub kill_slot : Option ℕ → Ptable → ℤ × Ptable
kill_slot none t = (negsuc 0, t)
kill_slot (some p) t = (pos 0, set_proc p (killed_proc (t.proc p)) t)

unfoldable pub kill : ℕ → Ptable → Outcome (ℤ × Ptable)
unfolding find_pid kill_slot
kill pid t = do
  locked ← acquire t.lock
  let r = kill_slot (find_pid nproc 0 pid t) (record t { lock = locked })
  let t' = r.1
  unlocked ← release t'.lock
  ok (r.0, record t' { lock = unlocked })
