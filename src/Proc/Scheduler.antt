-- ===== src/Proc/Scheduler.antt =====
-- proc.c: the scheduler's loop over the table, growproc and the first process.
use kernel_tracing.Prelude.{
  ℕ, zero, suc, ◌+◌, ◌*◌, Bool, true, false, ◌&&◌, ◌||◌, Option, none, some, ltb, ◌==◌,
  if◌then◌else◌, Outcome, ok, panic, ◌>>=◌,
}
use kernel_tracing.Prelude.Int.{ℤ, pos, negsuc, is_neg, is_pos}
use kernel_tracing.Proc.{
  runnable, running, is_runnable, Ptable, nproc, set_proc, set_state, allocproc,
}

-- Where the scheduler leaves its loop over the table: it switches to a process, or has seen all.
pub data Picked : Type 0 where
  switches : (p : ℕ) → Ptable → Picked
  passed : (skipped : ℕ) → Picked

-- The loop from process p on, with `left` to go. It goes on at p + 1 with skipped = 0 when the
-- process that it switches to comes back.
unfoldable pub pick_loop : (left p skipped : ℕ) → Ptable → Picked
pick_loop zero p skipped t = passed skipped
pick_loop (suc left) p skipped t =
    let rest = pick_loop left (p + 1) (skipped + 1) t in
    if is_runnable (t.proc p).state then switches p (set_state p running t) else rest

-- After the loop: `if (skipped > NPROC) { hlt(); skipped = 0; }`
unfoldable pub end_pass : ℕ → Bool × ℕ
end_pass skipped = if ltb nproc skipped then (true, 0) else (false, skipped)

-- growproc, with what allocuvm or deallocuvm would return for the new size.
unfoldable pub growproc : (cur : ℕ) (n : ℤ) (resized : ℕ) → Ptable → ℤ × Ptable
growproc cur n resized t =
    let sz = if is_pos n || is_neg n then resized else (t.proc cur).sz in
    if (is_pos n || is_neg n) && resized == 0
    then (negsuc 0, t)
    else (pos 0, set_proc cur (record (t.proc cur) { sz = sz }) t)

-- userinit from its first process on; the page table and the directory are those it was given.
unfoldable pub first_proc : (pgdir cwd : ℕ) (name : ℕ → ℕ) → Option ℕ → Ptable → Outcome Ptable
first_proc pgdir cwd name none t = panic "null pointer"
first_proc pgdir cwd name (some p) t =
    if pgdir == 0
    then panic "userinit: out of memory?"
    else ok
        (record (set_proc p
          (record (t.proc p) {
            pgdir = pgdir;
            sz = 4096 * 2;
            name = name;
            cwd = cwd;
            state = runnable;
          })
          t) { initproc = p })

unfoldable pub userinit : (kstack pgdir cwd : ℕ) (name : ℕ → ℕ) → Ptable → Outcome Ptable
userinit kstack pgdir cwd name t = do r ← allocproc kstack t; first_proc pgdir cwd name r.0 r.1
