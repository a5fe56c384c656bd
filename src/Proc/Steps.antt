-- ===== src/Proc/Steps.antt =====
-- The calls that leave every process of the table what it is.
use kernel_tracing.Prelude.{
  ℕ, ◌<◌, ◌≡◌, refl, sym, subst, ap, ◌∙◌, inl, inr, Bool, true, Option, arith, ◌==◌, ==_iff,
  Bool-cases, ok, chain_ok, ok_injective,
}
use kernel_tracing.Prelude.Int.{ℤ}
use kernel_tracing.Spin.{acquire, release}
use kernel_tracing.Proc.{runnable, Chan, Ptable, nproc, set_proc, set_state}
use kernel_tracing.Proc.Sleep.{
  Cpu, Guard, no_lock, table_lock, other_lock, swap_locks, sched, yield, sleep, doze, tidy_up,
  wakeup, wakeup1, kill, kill_slot, find_pid,
}
use kernel_tracing.Proc.Soundness.{
  alive, IsSound, SameTable, SameTable-refl, SameTable-trans, SameProc-refl, set_proc-SameTable,
}
use kernel_tracing.Proc.Sections.{
  wakeup1-SameTable, kill_slot-SameTable, doze-SameTable, set_state-SameTable,
}
use kernel_tracing.Proc.Reached.{IsBooted}

pub sched_lem : (c : Cpu) (cur : ℕ) (t t' : Ptable) → sched c cur t ≡ ok t' → t ≡ t'
unfolding sched
sched_lem c cur t t' h = ground arith

pub IsBooted-IsSound : (t : Ptable) → IsBooted t → IsSound t
IsBooted-IsSound t b = record {
  init_slot = b.init_slot;
  init_alive = ap alive b.init_state;
  parented = λ i h ne x. let free = (b.rest i ne).0 in absurd (ground (arith, free, x));
  fresh = λ i h x. elim (Bool-cases (i == t.initproc)) [
    | inl e ↦ ap (λ k. (t.proc k).parent) ((==_iff _ _).0 e) ∙ b.init_parent
    | inr e ↦ (b.rest i (λ q. ground (arith, e, q))).1
  ];
  distinct = λ i j h g ne x y. elim (Bool-cases (i == t.initproc)) [
    | inl e ↦
        let free = (b.rest j (λ q. ground (arith, e, q, ne))).0 in absurd (ground (arith, free, y))
    | inr e ↦
        let free = (b.rest i (λ q. ground (arith, e, q))).0 in absurd (ground (arith, free, x))
  ];
  counted = λ i h x. elim (Bool-cases (i == t.initproc)) [
    | inl e ↦ subst (λ k. (t.proc k).pid < t.nextpid) (sym ((==_iff _ _).0 e)) b.init_pid
    | inr e ↦
        let free = (b.rest i (λ q. ground (arith, e, q))).0 in absurd (ground (arith, free, x))
  ];
}

pub relock-SameTable : (t : Ptable) (b : Bool) → SameTable t (record t { lock = b })
relock-SameTable t b = record { procs = λ i. SameProc-refl (t.proc i); init = refl; next = refl }

pub locked-SameTable :
    (f : Ptable → Ptable) (t : Ptable) (b : Bool)
    → SameTable (record t { lock = b }) (f (record t { lock = b }))
    → SameTable t (f (record t { lock = b }))
locked-SameTable f t b s = SameTable-trans t (record t { lock = b }) _ (relock-SameTable t b) s

pub yield-SameTable :
    (c : Cpu) (cur : ℕ) (t t' : Ptable)
    → alive (t.proc cur).state ≡ true
    → yield c cur t ≡ ok t'
    → SameTable t t'
unfolding yield
yield-SameTable c cur t t' a h =
    let r = chain_ok (acquire t.lock) _ h in
    subst (SameTable t) (sched_lem c cur _ t' r.2)
      (locked-SameTable (set_state cur runnable) t r.0 (set_state-SameTable cur runnable _ a refl))

swap_locks-SameTable :
    (lk lk' : Guard) (t t' : Ptable) → swap_locks lk t ≡ ok (lk', t') → SameTable t t'
unfolding swap_locks
swap_locks-SameTable no_lock lk' t t' h = absurd (ground (arith, h))
swap_locks-SameTable table_lock lk' t t' h =
    let u : Guard × Ptable = (table_lock, t) in
    let w : Guard × Ptable = (lk', t') in
    let q : ok u ≡ ok w = h in
    subst (SameTable t) (ap (λ (z : Guard × Ptable). z.1) (ok_injective q)) (SameTable-refl t)
swap_locks-SameTable (other_lock b) lk' t t' h =
    let r = chain_ok (acquire t.lock) _ h in
    let s = chain_ok (release b) _ r.2 in
    subst (SameTable t) (ap (λ (z : Guard × Ptable). z.1) (ok_injective s.2))
      (relock-SameTable t r.0)

pub sleep-SameTable :
    (c : Cpu) (cur : ℕ) (chan : Chan) (lk lk' : Guard) (t t' : Ptable)
    → alive (t.proc cur).state ≡ true
    → sleep c cur chan lk t ≡ ok (lk', t')
    → SameTable t t'
unfolding sleep
sleep-SameTable c cur chan lk lk' t t' a h =
    let r = chain_ok (swap_locks lk t) _ h in
    let u : Ptable = r.0.1 in
    let s = chain_ok (sched c cur (doze cur chan u)) _ r.2 in
    let first = swap_locks-SameTable lk r.0.0 t u r.1 in
    let e : doze cur chan u ≡ t' =
      sched_lem c cur _ s.0 s.1 ∙ ap (λ (z : Guard × Ptable). z.1) (ok_injective s.2) in
    subst (SameTable t) e (
      SameTable-trans t u (doze cur chan u) first
        (doze-SameTable cur chan u ((first.procs cur).same_alive ∙ a)))

pub rechan-SameTable :
    (cur : ℕ) (t : Ptable)
    → SameTable t (set_proc cur (record (t.proc cur) { chan = Chan.no_chan }) t)
rechan-SameTable cur t = set_proc-SameTable cur _ t (record {
  same_alive = refl;
  same_born = refl;
  same_used = λ h. h;
  same_freed = λ h. inl h;
  same_pid = refl;
  same_parent = refl;
})

pub tidy_up-SameTable :
    (cur : ℕ) (lk lk' : Guard) (t t' : Ptable) → tidy_up cur lk t ≡ ok (lk', t') → SameTable t t'
unfolding tidy_up
tidy_up-SameTable cur no_lock lk' t t' h = absurd (ground (arith, h))
tidy_up-SameTable cur table_lock lk' t t' h =
    let u : Guard × Ptable =
      (table_lock, set_proc cur (record (t.proc cur) { chan = Chan.no_chan }) t) in
    let w : Guard × Ptable = (lk', t') in
    let q : ok u ≡ ok w = h in
    subst (SameTable t) (ap (λ (z : Guard × Ptable). z.1) (ok_injective q)) (rechan-SameTable cur t)
tidy_up-SameTable cur (other_lock b) lk' t t' h =
    let r = chain_ok (release t.lock) _ h in
    let s = chain_ok (acquire b) _ r.2 in
    subst (SameTable t) (ap (λ (z : Guard × Ptable). z.1) (ok_injective s.2)) (
      locked-SameTable (λ u. set_proc cur (record (u.proc cur) { chan = Chan.no_chan }) u) t r.0
        (rechan-SameTable cur _))

pub wakeup-SameTable : (chan : Chan) (t t' : Ptable) → wakeup chan t ≡ ok t' → SameTable t t'
unfolding wakeup
wakeup-SameTable chan t t' h =
    let r = chain_ok (acquire t.lock) _ h in
    let u : Ptable = wakeup1 chan (record t { lock = r.0 }) in
    let s = chain_ok (release u.lock) _ r.2 in
    let first = locked-SameTable (wakeup1 chan) t r.0 (wakeup1-SameTable chan _) in
    subst (SameTable t) (ok_injective s.2) (SameTable-trans t u _ first (relock-SameTable u s.0))

pub kill-SameTable : (pid : ℕ) (r : ℤ) (t t' : Ptable) → kill pid t ≡ ok (r, t') → SameTable t t'
unfolding kill
kill-SameTable pid r t t' h =
    let a = chain_ok (acquire t.lock) _ h in
    let held : Ptable = record t { lock = a.0 } in
    let slot : Option ℕ = find_pid nproc 0 pid t in
    let u : Ptable = (kill_slot slot held).1 in
    let s = chain_ok (release u.lock) _ a.2 in
    let first = locked-SameTable (λ k. (kill_slot slot k).1) t a.0 (kill_slot-SameTable slot _) in
    subst (SameTable t) (ap (λ (z : ℤ × Ptable). z.1) (ok_injective s.2))
      (SameTable-trans t u _ first (relock-SameTable u s.0))
