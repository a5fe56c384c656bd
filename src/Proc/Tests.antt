-- ===== src/Proc/Tests.antt =====
-- The process table from boot to a fork, an exit and a wait.
use kernel_tracing.Prelude.{
  ℕ, ◌≤◌, ◌<◌, ◌≡◌, refl, ◌≢◌, true, false, ◌&&◌, none, some, arith, ◌==◌, if◌then◌else◌, ok, [],
}
use kernel_tracing.Prelude.Int.{pos, to_int, negsuc}
use kernel_tracing.Proc.{
  unused, embryo, sleeping, runnable, running, zombie, is_zombie, is_runnable, no_chan, process,
  Process, Ptable, nproc, is_parent, set_proc, set_state, find_unused, claim_slot, take_slot,
  fill_child, start_child,
}
use kernel_tracing.Proc.Sleep.{Cpu, kill, kill_slot, find_pid}
use kernel_tracing.Proc.Exit.{reap_calls, returns, wait}
use kernel_tracing.Proc.Scheduler.{pick_loop, switches}
use kernel_tracing.Proc.Soundness.{IsSound}
use kernel_tracing.Proc.Reached.{IsBooted, Reached, boots, claims, fills, starts, picks}
use kernel_tracing.Proc.Invariant.{Reached-IsSound}
use kernel_tracing.Proc.Scheduling.{pick_loop_first}
use kernel_tracing.Proc.Waiting.{wait-reaps, wait-childless}

abbrev blank : Process
blank = record {
  sz = 0;
  pgdir = 0;
  kstack = 0;
  state = unused;
  pid = 0;
  parent = none;
  chan = no_chan;
  killed = false;
  ofile = λ _. none;
  cwd = 0;
  name = λ _. 0;
}

abbrev init_proc : Process
init_proc = record blank { sz = 8192; pgdir = 5; state = runnable; pid = 1 }

abbrev booted : Ptable
booted = record {
  lock = false;
  proc = λ i. if i == 0 then init_proc else blank;
  nextpid = 2;
  initproc = 0;
}

booted-IsBooted : IsBooted booted
booted-IsBooted = record {
  init_slot = omega arith;
  init_state = refl;
  init_pid = omega arith;
  init_parent = refl;
  rest = λ i ne. let later : (i == 0) ≡ false = ground arith in (rw (later) refl, rw (later) refl);
}

abbrev picked : Ptable
picked = set_state 0 running booted

abbrev claimed : Ptable
claimed = record (set_proc 1 (record (picked.proc 1) { state = embryo; pid = 2 }) picked) {
  nextpid = 3;
}

picked-Reached : Reached picked
unfolding pick_loop
picked-Reached = picks booted picked 64 0 0 0 (boots booted booted-IsBooted) refl

claimed-Reached : Reached claimed
unfolding claim_slot find_unused take_slot
claimed-Reached = claims picked claimed (some 1) picked-Reached (omega arith) refl

abbrev filled : Ptable
filled = fill_child 0 9 (λ _. 0) 1 claimed

forked-Reached : Reached (start_child 1 filled)
unfolding fill_child
forked-Reached =
    starts filled 0 1
      (fills claimed 0 9 (λ _. 0) 1 claimed-Reached (omega arith, refl) (refl, refl))
      (omega arith, refl) refl refl

Reached-IsSound_example : IsSound (start_child 1 filled)
Reached-IsSound_example = Reached-IsSound (start_child 1 filled) forked-Reached

pick_loop_first_example :
    (r : ℕ) × (pick_loop 64 0 0 booted ≡ switches r (set_state r running booted))
    × (0 ≤ r)
    × (r ≤ 0)
    × (is_runnable (booted.proc r).state ≡ true)
    × ((i : ℕ) → 0 ≤ i → i < r → is_runnable (booted.proc i).state ≡ false)
pick_loop_first_example = pick_loop_first 64 0 0 0 booted (omega arith) (omega arith) refl

-- Init sleeps in wait, and its child has exited.
abbrev orphaned : Ptable
orphaned = record booted {
  proc = λ i.
      if i == 0
      then record init_proc { state = sleeping; chan = process 0 }
      else if i == 3
      then record blank { state = zombie; pid = 7; parent = some 0 }
      else blank;
  nextpid = 8;
}

abbrev cpu : Cpu
cpu = record { ncli = 1; interrupts = false }

wait-reaps_example :
    (r : ℕ) × (t' : Ptable) × (wait cpu 0 orphaned
      ≡ ok (returns (to_int (orphaned.proc r).pid) (reap_calls (orphaned.proc r)) t'))
    × (r < nproc)
    × (is_parent 0 (orphaned.proc r).parent && is_zombie (orphaned.proc r).state ≡ true)
    × (t'.lock ≡ false)
    × ((t'.proc r).state ≡ unused)
    × ((t'.proc r).parent ≡ none)
    × ((i : ℕ) → i ≢ r → t'.proc i ≡ orphaned.proc i)
wait-reaps_example = wait-reaps cpu 0 3 orphaned refl (omega arith) refl

wait-childless_example :
    wait cpu 5 orphaned ≡ ok (returns (negsuc 0) [] (record orphaned { lock = false }))
wait-childless_example = wait-childless cpu 5 orphaned refl (λ i h. ground arith)

-- kill(0) finds a free slot, and leaves it marked for the next process there.
kill_free : kill 0 booted ≡ ok (pos 0, set_proc 1 (record blank { killed = true }) booted)
unfolding kill find_pid kill_slot
kill_free = refl
