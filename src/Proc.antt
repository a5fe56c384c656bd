-- ===== src/Proc.antt =====
-- proc.c: the process table and what is done to it under its lock. A process is known by its index
-- in the table. A pid and `nextpid` are the 32 bits of an int. What vm.c and kalloc.c hand
-- over (page tables, kernel stacks) are addresses that the operations take, 0 where they failed.
pub mod Sleep
pub mod Exit
pub mod Scheduler
pub mod Soundness
pub mod Sections
pub mod Births
pub mod Adoption
pub mod Deaths
pub mod Searches
pub mod Reached
pub mod Steps
pub mod Invariant
pub mod Scheduling
pub mod Waiting
pub mod Tests
use kernel_tracing.Prelude.{
  ℕ, zero, suc, ◌+◌, ◌%◌, ◌^◌, String, Bool, true, false, Option, none, some, List, ◌∷◌, ◌++◌, ◌==◌,
  if◌then◌else◌, update, Outcome, ok, [], ◌>>=◌,
}
use kernel_tracing.Prelude.Int.{to_int, ℤ, pos, negsuc}
use kernel_tracing.Spin.{acquire, release}

abbrev pub nproc : ℕ
nproc = 64

-- `enum procstate`
pub data ProcState : Type 0 where
  unused embryo sleeping runnable running zombie : ProcState

abbrev pub is_unused : ProcState → Bool
is_unused unused = true
is_unused _ = false

abbrev pub is_sleeping : ProcState → Bool
is_sleeping sleeping = true
is_sleeping _ = false

abbrev pub is_runnable : ProcState → Bool
is_runnable runnable = true
is_runnable _ = false

abbrev pub is_running : ProcState → Bool
is_running running = true
is_running _ = false

abbrev pub is_zombie : ProcState → Bool
is_zombie zombie = true
is_zombie _ = false

-- The addresses that processes sleep on: 0, a process of the table, or another object.
pub data Chan : Type 0 where
  no_chan : Chan
  process : ℕ → Chan
  object : ℕ → Chan

abbrev pub same_chan : Chan → Chan → Bool
same_chan no_chan no_chan = true
same_chan (process i) (process j) = i == j
same_chan (object i) (object j) = i == j
same_chan _ _ = false

-- `struct proc`, without the saved registers
pub record Process : Type 0 where
  pub sz : ℕ
  pub pgdir : ℕ
  pub kstack : ℕ
  pub state : ProcState
  pub pid : ℕ
  pub parent : Option ℕ
  pub chan : Chan
  pub killed : Bool
  pub ofile : ℕ → Option ℕ
  pub cwd : ℕ
  pub name : ℕ → ℕ

-- `ptable`, `nextpid` and `initproc`
pub record Ptable : Type 0 where
  pub lock : Bool
  pub proc : ℕ → Process
  pub nextpid : ℕ
  pub initproc : ℕ

abbrev pub is_parent : ℕ → Option ℕ → Bool
is_parent cur none = false
is_parent cur (some q) = q == cur

-- `p->... = ...` for process p
abbrev pub set_proc : ℕ → Process → Ptable → Ptable
set_proc i p t = record t { proc = update t.proc i p }

abbrev pub set_state : ℕ → ProcState → Ptable → Ptable
set_state i s t = set_proc i (record (t.proc i) { state = s }) t

-- `for(p = ptable.proc; ...) if(p->state == UNUSED) goto found;`
pub find_unused : (left p : ℕ) → Ptable → Option ℕ
find_unused zero p t = none
find_unused (suc left) p t =
    let rest = find_unused left (p + 1) t in if is_unused (t.proc p).state then some p else rest

-- allocproc under the lock, with the slot that the search came to
pub take_slot : Option ℕ → Ptable → Ptable
take_slot none t = t
take_slot (some p) t =
    record (set_proc p (record (t.proc p) { state = embryo; pid = t.nextpid }) t) {
      nextpid = (t.nextpid + 1) % 2 ^ 32;
    }

-- The first part of allocproc.
pub claim_slot : Ptable → Outcome (Option ℕ × Ptable)
claim_slot t = do
  locked ← acquire t.lock
  let slot = find_unused nproc 0 t
  unlocked ← release locked
  ok (slot, record (take_slot slot t) { lock = unlocked })

-- The second part, with what kalloc returned.
pub stack_slot : (kstack : ℕ) → Option ℕ → Ptable → Option ℕ × Ptable
stack_slot kstack none t = (none, t)
stack_slot kstack (some p) t =
    if kstack == 0
    then (none, set_proc p (record (t.proc p) { kstack = 0; state = unused }) t)
    else (some p, set_proc p (record (t.proc p) { kstack = kstack }) t)

pub allocproc : (kstack : ℕ) → Ptable → Outcome (Option ℕ × Ptable)
allocproc kstack t = do r ← claim_slot t; ok (stack_slot kstack r.0 r.1)

-- The calls that proc.c makes to the other parts of the kernel, in their order.
pub data Outside : Type 0 where
  frees_page : (stack : ℕ) → Outside
  frees_space : (pgdir : ℕ) → Outside
  dups_file : (file : ℕ) → Outside
  dups_dir : (inode : ℕ) → Outside
  closes_file : (file : ℕ) → Outside
  begins_op : Outside
  puts_dir : (inode : ℕ) → Outside
  ends_op : Outside
  traces : (pid arg0 : ℕ) (name : String) → Outside

-- fork where copyuvm has failed
abbrev pub drop_child : ℕ → Ptable → Ptable
drop_child np t = set_proc np (record (t.proc np) { pgdir = 0; kstack = 0; state = unused }) t

-- `for(i = 0; i < NOFILE; i++) if(proc->ofile[i]) np->ofile[i] = ...`, filedup returning its file
pub copy_files : (left i : ℕ) → (from to : ℕ → Option ℕ) → ℕ → Option ℕ
copy_files zero i from to = to
copy_files (suc left) i from to =
    copy_files left (i + 1) from (elim (from i) [ none ↦ to | some f ↦ update to i (some f) ])

pub file_calls : (left i : ℕ) → (from : ℕ → Option ℕ) → List Outside
file_calls zero i from = []
file_calls (suc left) i from = elim (from i) [
  | none ↦ file_calls left (i + 1) from
  | some f ↦ dups_file f ∷ file_calls left (i + 1) from
]

abbrev pub nofile : ℕ
nofile = 16

-- The calls of a fork that succeeds.
abbrev pub fork_calls : (cur np : ℕ) → Ptable → List Outside
fork_calls cur np t =
    file_calls nofile 0 (t.proc cur).ofile
    ++ dups_dir (t.proc cur).cwd ∷ traces (t.proc np).pid (t.proc cur).pid "fork" ∷ []

-- fork's child once it is filled in, and not runnable yet. idup returns the directory that it
-- counts up.
abbrev pub child : (cur : ℕ) (pgdir : ℕ) (name : ℕ → ℕ) (np : ℕ) → Ptable → Process
child cur pgdir name np t =
    let p = t.proc cur in
    record (t.proc np) {
      pgdir = pgdir;
      sz = p.sz;
      parent = some cur;
      ofile = copy_files nofile 0 p.ofile (t.proc np).ofile;
      cwd = p.cwd;
      name = name;
    }

-- The part of fork that fills in the child, without the lock of the table; `name` is what
-- safestrcpy left.
pub fill_child : (cur pgdir : ℕ) (name : ℕ → ℕ) → ℕ → Ptable → Ptable
unfolding copy_files
fill_child cur pgdir name np t = set_proc np (child cur pgdir name np t) t

-- `np->state = RUNNABLE`
pub start_child : ℕ → Ptable → Ptable
start_child np t = set_state np runnable t

-- fork behind allocproc; `pgdir` is what copyuvm returned.
pub fork_from : (cur pgdir : ℕ) (name : ℕ → ℕ) → Option ℕ → Ptable → ℤ × List Outside × Ptable
unfolding file_calls
fork_from cur pgdir name none t = (negsuc 0, [], t)
fork_from cur pgdir name (some np) t =
    if pgdir == 0 then (negsuc 0, frees_page (t.proc np).kstack ∷ [], drop_child np t) else (
      to_int (t.proc np).pid,
      fork_calls cur np t,
      start_child np (fill_child cur pgdir name np t),
    )

pub fork : (cur kstack pgdir : ℕ) (name : ℕ → ℕ) → Ptable → Outcome (ℤ × List Outside × Ptable)
fork cur kstack pgdir name t = do r ← allocproc kstack t; ok (fork_from cur pgdir name r.0 r.1)
