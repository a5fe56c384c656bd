-- ===== src/Proc/Invariant.antt =====
-- Every table that is reached is sound.
use kernel_tracing.Prelude.{
  ℕ, ◌+◌, ◌^◌, ◌<◌, ◌≡◌, refl, sym, subst, ap, ◌∙◌, inl, inr, true, false, ◌||◌, not, Option, none,
  List, arith, ◌==◌, Bool-cases, Option-cases, ok, panic, chain_ok, ok_injective,
}
use kernel_tracing.Spin.{acquire, release}
use kernel_tracing.Proc.{
  Outside, nofile, running, is_zombie, process, Process, Ptable, nproc, set_proc, find_unused,
  take_slot, claim_slot,
}
use kernel_tracing.Proc.Sleep.{Cpu, table_lock, sched, sleep}
use kernel_tracing.Proc.Exit.{
  close_files, exit, bury, Kids, exited, kids, scan_kids, wait_round, reaped, Waited, wait,
}
use kernel_tracing.Proc.Soundness.{
  alive, IsSound, SameTable, SameTable-trans, SameTable-IsSound, set_proc-SameTable,
}
use kernel_tracing.Proc.Sections.{set_state-SameTable, drop_child-SameTable, stack_slot-SameTable}
use kernel_tracing.Proc.Births.{
  find_unused_lem, take_slot-IsSound, fill_child-IsSound, start_child-IsSound,
}
use kernel_tracing.Proc.Deaths.{bury-IsSound, reaped-IsSound}
use kernel_tracing.Proc.Searches.{pick_loop_lem, scan_kids_lem}
use kernel_tracing.Proc.Reached.{
  table_of, Runs, Reached, boots, locks, claims, stacks, drops, fills, starts, picks, yields, dozes,
  tidies, wakes, kills, exits, waits,
}
use kernel_tracing.Proc.Steps.{
  sched_lem, IsBooted-IsSound, relock-SameTable, yield-SameTable, sleep-SameTable,
  tidy_up-SameTable, wakeup-SameTable, kill-SameTable,
}

claim_slot-IsSound :
    (t t' : Ptable) (slot : Option ℕ)
    → t.nextpid + 1 < 2 ^ 31
    → claim_slot t ≡ ok (slot, t')
    → IsSound t
    → IsSound t'
unfolding claim_slot take_slot
claim_slot-IsSound t t' slot small h v =
    let a = chain_ok (acquire t.lock) _ h in
    let r : Option ℕ = find_unused nproc 0 t in
    let s = chain_ok (release a.0) _ a.2 in
    let e : record (take_slot r t) { lock = s.0 } ≡ t' =
      ap (λ (z : Option ℕ × Ptable). z.1) (ok_injective s.2) in
    subst IsSound e (
      SameTable-IsSound (take_slot r t) _ (relock-SameTable _ s.0) (elim (Option-cases r) [
        | inl none_free ↦ subst (λ o. IsSound (take_slot o t)) (sym none_free) (nothing t v)
        | inr found ↦
            let f = find_unused_lem nproc 0 found.0 t found.1 in
            let low = f.1 in
            subst (λ o. IsSound (take_slot o t)) (sym found.1)
              (take_slot-IsSound found.0 t (omega arith) small f.0 v)
      ]))
  where
    nothing : (t : Ptable) → IsSound t → IsSound (take_slot none t)
    nothing t v = v

exit-IsSound :
    (c : Cpu) (cur : ℕ) (calls : List Outside) (t t' : Ptable)
    → Runs cur t
    → exit c cur t ≡ ok (calls, t')
    → IsSound t
    → IsSound t'
unfolding exit
exit-IsSound c cur calls t t' runs h v = elim (Bool-cases (cur == t.initproc)) [
  | inl e ↦
      let w : List Outside × Ptable = (calls, t') in
      let q : panic "init exiting" ≡ ok w = rw (← h, e) refl in absurd (ground (arith, q))
  | inr e ↦
      let done : List ℕ × (ℕ → Option ℕ) = close_files nofile 0 (t.proc cur).ofile in
      let x : Process = record (t.proc cur) { ofile = done.1; cwd = 0 } in
      let u : Ptable = set_proc cur x t in
      let h' = rw (e) at h in
      let a = chain_ok (acquire t.lock) _ h' in
      let held : Ptable = record u { lock = a.0 } in
      let s = chain_ok (sched c cur (bury cur held)) _ a.2 in
      let end : bury cur held ≡ t' =
        sched_lem c cur _ s.0 s.1 ∙ ap (λ (z : List Outside × Ptable). z.1) (ok_injective s.2) in
      let same : SameTable t u = set_proc-SameTable cur x t (record {
        same_alive = refl;
        same_born = refl;
        same_used = λ h. h;
        same_freed = λ h. inl h;
        same_pid = refl;
        same_parent = refl;
      }) in
      let to_held = SameTable-trans t u held same (relock-SameTable u a.0) in
      subst IsSound end (
        bury-IsSound cur held runs.0 ((to_held.procs cur).same_alive ∙ ap alive runs.1)
          (λ q. ground (arith, e, q)) (SameTable-IsSound t held to_held v))
]

wait_round-IsSound :
    (c : Cpu) (cur : ℕ) (k : Kids) (w : Waited) (t : Ptable)
    → alive (t.proc cur).state ≡ true
    → ((p : ℕ) → k ≡ exited p → is_zombie (t.proc p).state ≡ true)
    → wait_round c cur k t ≡ ok w
    → IsSound t
    → IsSound (table_of w)
unfolding wait_round
wait_round-IsSound c cur (exited p) w t a z h v =
    let s = chain_ok (release t.lock) _ h in
    let u : Ptable = set_proc p (reaped (t.proc p)) t in
    subst (λ (w : Waited). IsSound (table_of w)) (ok_injective s.2)
      (SameTable-IsSound u _ (relock-SameTable u s.0) (reaped-IsSound p t (z p refl) v))
wait_round-IsSound c cur (kids some_kids) w t a z h v =
    elim (Bool-cases (not some_kids || (t.proc cur).killed)) [
      | inl e ↦
          let h' = rw (e) at h in
          let s = chain_ok (release t.lock) _ h' in
          subst (λ (w : Waited). IsSound (table_of w)) (ok_injective s.2)
            (SameTable-IsSound t _ (relock-SameTable t s.0) v)
      | inr e ↦
          let h' = rw (e) at h in
          let s = chain_ok (sleep c cur (process cur) table_lock t) _ h' in
          subst (λ (w : Waited). IsSound (table_of w)) (ok_injective s.2)
            (SameTable-IsSound t _
              (sleep-SameTable c cur (process cur) table_lock s.0.0 t s.0.1 a s.1) v)
    ]

wait-IsSound :
    (c : Cpu) (cur : ℕ) (w : Waited) (t : Ptable)
    → Runs cur t
    → wait c cur t ≡ ok w
    → IsSound t
    → IsSound (table_of w)
unfolding wait
wait-IsSound c cur w t runs h v =
    let s = chain_ok (acquire t.lock) _ h in
    let held : Ptable = record t { lock = s.0 } in
    wait_round-IsSound c cur (scan_kids nproc 0 cur false held) w held (ap alive runs.1)
      (λ p e. (scan_kids_lem nproc 0 cur p false held e).0) s.2
      (SameTable-IsSound t held (relock-SameTable t s.0) v)

-- In every table that the operations lead to, whatever their order, as long as allocproc is called
-- with nextpid below 2 ^ 31 - 1: init is alive; the parent of every process that is alive or a
-- zombie, init aside, is alive; a slot that is free has no parent; and no two slots in use have one
-- pid. fork gives the child its parent and makes it runnable in separate steps, between which other
-- processes may run.
pub Reached-IsSound : (t : Ptable) → Reached t → IsSound t
Reached-IsSound t (boots _ b) = IsBooted-IsSound t b
Reached-IsSound t (locks k b r) = SameTable-IsSound k t (relock-SameTable k b) (Reached-IsSound k r)
Reached-IsSound t (claims k _ slot r small h) =
    claim_slot-IsSound k t slot small h (Reached-IsSound k r)
Reached-IsSound t (stacks k kstack p r s) =
    SameTable-IsSound k t (stack_slot-SameTable kstack p k s.0 s.1) (Reached-IsSound k r)
Reached-IsSound t (fills k cur pgdir name np r runs s) =
    fill_child-IsSound cur pgdir name np k s.0 (Reached-IsSound k r)
Reached-IsSound t (drops k np r s) =
    SameTable-IsSound k t (drop_child-SameTable np k s.0 s.1) (Reached-IsSound k r)
Reached-IsSound t (starts k cur np r runs s mine) =
    start_child-IsSound cur np k runs.0 (ap alive runs.1) s mine (Reached-IsSound k r)
Reached-IsSound t (picks k _ left p skipped q r h) =
    let l = pick_loop_lem left p skipped q k t h in
    subst IsSound l.1 (
      SameTable-IsSound k _ (set_state-SameTable q running k (ap alive l.0) refl)
        (Reached-IsSound k r))
Reached-IsSound t (yields k _ c cur r runs h) =
    SameTable-IsSound k t (yield-SameTable c cur k t (ap alive runs.1) h) (Reached-IsSound k r)
Reached-IsSound t (dozes k _ c cur chan lk lk' r runs h) =
    SameTable-IsSound k t (sleep-SameTable c cur chan lk lk' k t (ap alive runs.1) h)
      (Reached-IsSound k r)
Reached-IsSound t (tidies k _ cur lk lk' r h) =
    SameTable-IsSound k t (tidy_up-SameTable cur lk lk' k t h) (Reached-IsSound k r)
Reached-IsSound t (wakes k _ chan r h) =
    SameTable-IsSound k t (wakeup-SameTable chan k t h) (Reached-IsSound k r)
Reached-IsSound t (kills k _ pid x r h) =
    SameTable-IsSound k t (kill-SameTable pid x k t h) (Reached-IsSound k r)
Reached-IsSound t (exits k _ c cur calls r runs h) =
    exit-IsSound c cur calls k t runs h (Reached-IsSound k r)
Reached-IsSound t (waits k c cur w r runs h) = wait-IsSound c cur w k runs h (Reached-IsSound k r)
