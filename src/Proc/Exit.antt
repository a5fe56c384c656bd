-- ===== src/Proc/Exit.antt =====
-- proc.c: exit and wait.
use kernel_tracing.Prelude.{
  ℕ, zero, suc, ◌+◌, Bool, false, ◌&&◌, ◌||◌, not, Option, none, some, List, [], ◌∷◌, ◌++◌, map,
  ◌==◌, if◌then◌else◌, update, Outcome, ok, panic, ◌>>=◌,
}
use kernel_tracing.Prelude.Int.{ℤ, to_int, negsuc}
use kernel_tracing.Spin.{acquire, release}
use kernel_tracing.Proc.{
  Outside, traces, closes_file, begins_op, puts_dir, ends_op, frees_page, frees_space, unused,
  zombie, is_zombie, Chan, process, Process, Ptable, nproc, nofile, is_parent, set_proc, set_state,
}
use kernel_tracing.Proc.Sleep.{Cpu, table_lock, sched, wakeup1, sleep}

-- The files that exit closes, and the table of open files after that.
unfoldable pub close_files : (left fd : ℕ) → (ℕ → Option ℕ) → List ℕ × (ℕ → Option ℕ)
close_files zero fd ofile = ([], ofile)
close_files (suc left) fd ofile = elim (ofile fd) [
  | none ↦ close_files left (fd + 1) ofile
  | some f ↦ let rest = close_files left (fd + 1) (update ofile fd none) in (f ∷ rest.0, rest.1)
]

-- `if(p->parent == proc){ p->parent = initproc; if(p->state == ZOMBIE) wakeup1(initproc); }`
unfoldable pub adopt : (cur p : ℕ) → Ptable → Ptable
adopt cur p t =
    let t' = set_proc p (record (t.proc p) { parent = some t.initproc }) t in
    if not (is_parent cur (t.proc p).parent)
    then t
    else if is_zombie (t.proc p).state
    then wakeup1 (process t.initproc) t'
    else t'

-- The loop of exit over the children.
unfoldable pub adopt_loop : (left p cur : ℕ) → Ptable → Ptable
adopt_loop zero p cur t = t
adopt_loop (suc left) p cur t = adopt_loop left (p + 1) cur (adopt cur p t)

abbrev pub parent_chan : Option ℕ → Chan
parent_chan none = Chan.no_chan
parent_chan (some q) = process q

-- exit from `acquire(&ptable.lock)` on, up to the state in which sched is called.
unfoldable pub bury : ℕ → Ptable → Ptable
bury cur t =
    let t' = wakeup1 (parent_chan (t.proc cur).parent) t in
    set_state cur zombie (adopt_loop nproc 0 cur t')

-- The calls of exit before it takes the lock.
abbrev pub exit_calls : Process → List ℕ → List Outside
exit_calls p closed =
    (traces p.pid 0 "exit" ∷ map closes_file closed) ++ begins_op ∷ puts_dir p.cwd ∷ ends_op ∷ []

-- exit up to the switch, with the calls it has made; after the switch it would panic.
unfoldable pub exit : Cpu → ℕ → Ptable → Outcome (List Outside × Ptable)
exit c cur t = if cur == t.initproc then panic "init exiting" else do
  let closed = close_files nofile 0 (t.proc cur).ofile
  let t' = set_proc cur (record (t.proc cur) { ofile = closed.1; cwd = 0 }) t
  locked ← acquire t'.lock
  t'' ← sched c cur (bury cur (record t' { lock = locked }))
  ok (exit_calls (t.proc cur) closed.0, t'')

-- What a scan of the table for children comes to: an exited child, whether there are children.
pub data Kids : Type 0 where
  exited : ℕ → Kids
  kids : Bool → Kids

-- The loop of wait, `havekids` being what is known so far.
unfoldable pub scan_kids : (left p cur : ℕ) (havekids : Bool) → Ptable → Kids
scan_kids zero p cur havekids t = kids havekids
scan_kids (suc left) p cur havekids t =
    let mine = is_parent cur (t.proc p).parent in
    let rest = scan_kids left (p + 1) cur (havekids || mine) t in
    if mine && is_zombie (t.proc p).state then exited p else rest

-- The slot of a child that is waited for; `name[0]` is cleared as well.
abbrev pub reaped : Process → Process
reaped p = record p {
  kstack = 0;
  pid = 0;
  parent = none;
  name = update p.name 0 0;
  killed = false;
  state = unused;
}

abbrev pub reap_calls : Process → List Outside
reap_calls p = frees_page p.kstack ∷ frees_space p.pgdir ∷ []

-- One round of wait's loop: it returns, or sleeps on its own process.
pub data Waited : Type 0 where
  returns : ℤ → List Outside → Ptable → Waited
  sleeps : Ptable → Waited

unfoldable pub wait_round : Cpu → ℕ → Kids → Ptable → Outcome Waited
wait_round c cur (exited p) t = do
  unlocked ← release t.lock
  ok (
      returns (to_int (t.proc p).pid) (reap_calls (t.proc p))
        (record (set_proc p (reaped (t.proc p)) t) { lock = unlocked }))
wait_round c cur (kids havekids) t =
    if not havekids || (t.proc cur).killed
    then (release t.lock >>= λ unlocked. ok (returns (negsuc 0) [] (record t { lock = unlocked })))
    else (sleep c cur (process cur) table_lock t >>= λ r. ok (sleeps r.1))

-- wait up to its first sleep; woken, it goes on with the next round.
unfoldable pub wait : Cpu → ℕ → Ptable → Outcome Waited
wait c cur t = do
  locked ← acquire t.lock
  let t' = record t { lock = locked }
  wait_round c cur (scan_kids nproc 0 cur false t') t'
