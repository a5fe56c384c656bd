-- ===== src/Proc/Scheduling.antt =====
-- Whom the scheduler picks, and whom wakeup wakes.
use kernel_tracing.Prelude.{
  ℕ, zero, suc, ◌+◌, ◌≤◌, ◌<◌, ◌≡◌, refl, sym, subst, ap, ◌∙◌, ◌≢◌, inl, inr, true, false, ◌&&◌,
  arith, ltb, leb, ◌==◌, if◌then◌else◌, ==_iff, Bool-cases, ok,
}
use kernel_tracing.Proc.{
  running, is_runnable, is_sleeping, Chan, same_chan, Process, Ptable, nproc, set_proc, set_state,
}
use kernel_tracing.Proc.Sleep.{woken, wakeup_loop, wakeup1, wakeup}
use kernel_tracing.Proc.Scheduler.{switches, pick_loop}

-- The scheduler's loop from process p on, over `left` processes of which q is runnable: it switches
-- to a process between p and q, the first one that is runnable, and only makes that one running.
pub pick_loop_first :
    (left p skipped q : ℕ) (t : Ptable)
    → p ≤ q
    → q < p + left
    → is_runnable (t.proc q).state ≡ true
    → (r : ℕ) × (pick_loop left p skipped t ≡ switches r (set_state r running t))
      × (p ≤ r)
      × (r ≤ q)
      × (is_runnable (t.proc r).state ≡ true)
      × ((i : ℕ) → p ≤ i → i < r → is_runnable (t.proc i).state ≡ false)
unfolding pick_loop
pick_loop_first zero p skipped q t lo hi h = absurd (omega arith)
pick_loop_first (suc left) p skipped q t lo hi h =
    elim (Bool-cases (is_runnable (t.proc p).state)) [
      | inl e ↦ (p, rw (e) refl, omega arith, lo, e, λ i a b. absurd (omega arith))
      | inr e ↦
          let later : p ≢ q =
            λ at. ground (arith, e, subst (λ k. is_runnable (t.proc k).state ≡ true) (sym at) h) in
          let ih = pick_loop_first left (p + 1) (skipped + 1) q t (omega arith) (omega arith) h in
          let lo' = ih.2 in
          (
            ih.0,
            rw (e) ih.1,
            omega arith,
            ih.3,
            ih.4,
            λ i a b. elim (Bool-cases (p == i)) [
              | inl at ↦ subst (λ k. is_runnable (t.proc k).state ≡ false) ((==_iff p i).0 at) e
              | inr ne ↦ ih.5 i (ground (arith, ne)) b
            ],
          )
    ]

wakeup_loop_lem :
    (left p : ℕ) (chan : Chan) (t : Ptable) (i : ℕ)
    → (wakeup_loop left p chan t).proc i
      ≡ (if leb p i && ltb i (p + left) then woken chan (t.proc i) else t.proc i)
unfolding wakeup_loop
wakeup_loop_lem zero p chan t i =
    let out : leb p i && ltb i (p + 0) ≡ false = ground arith in rw (out) refl
wakeup_loop_lem (suc left) p chan t i =
    let t' : Ptable = set_proc p (woken chan (t.proc p)) t in
    wakeup_loop_lem left (p + 1) chan t' i ∙ elim (Bool-cases (p == i)) [
      | inl e ↦
          let at : p ≡ i = (==_iff p i).0 e in
          let a : leb (p + 1) i && ltb i (p + 1 + left) ≡ false = ground arith in
          let b : leb p i && ltb i (p + suc left) ≡ true = ground arith in
          rw (a, b, e) (ap (λ k. woken chan (t.proc k)) at)
      | inr ne ↦
          let c : (leb (p + 1) i && ltb i (p + 1 + left)) ≡ (leb p i && ltb i (p + suc left)) =
            ground (arith, ne) in
          rw (c, ne) refl
    ]

wakeup_loop-lock :
    (left p : ℕ) (chan : Chan) (t : Ptable) → (wakeup_loop left p chan t).lock ≡ t.lock
unfolding wakeup_loop
wakeup_loop-lock zero p chan t = refl
wakeup_loop-lock (suc left) p chan t = wakeup_loop-lock left (p + 1) chan _

awake :
    (chan : Chan) (p : Process)
    → is_sleeping (woken chan p).state && same_chan (woken chan p).chan chan ≡ false
awake chan p = elim (Bool-cases (is_sleeping p.state && same_chan p.chan chan)) [
  | inl e ↦ rw (e) refl
  | inr e ↦ rw (e) e
]

wakeup1-lock : (chan : Chan) (t : Ptable) → (wakeup1 chan t).lock ≡ t.lock
unfolding wakeup1
wakeup1-lock chan t = wakeup_loop-lock nproc 0 chan t

wakeup1_lem :
    (chan : Chan) (t : Ptable) (i : ℕ) → i < nproc → (wakeup1 chan t).proc i ≡ woken chan (t.proc i)
unfolding wakeup1
wakeup1_lem chan t i h =
    let inside : leb 0 i && ltb i (0 + nproc) ≡ true = ground arith in
    wakeup_loop_lem nproc 0 chan t i ∙ rw (inside) refl

-- With the table's lock free, wakeup returns with it free. Of the processes of the table, those
-- that slept on the channel are runnable and none sleeps on it any more; the others are unchanged.
wakeup-woken :
    (chan : Chan) (t : Ptable)
    → t.lock ≡ false
    → (t' : Ptable) × (wakeup chan t ≡ ok t')
      × (t'.lock ≡ false)
      × ((i : ℕ) → i < nproc → t'.proc i ≡ woken chan (t.proc i))
      × ((i : ℕ)
          → i < nproc
          → is_sleeping (t'.proc i).state && same_chan (t'.proc i).chan chan ≡ false)
unfolding wakeup
wakeup-woken chan t free =
    let held : Ptable = record t { lock = true } in
    let done : Ptable = wakeup1 chan held in
    let locked : done.lock ≡ true = wakeup1-lock chan held in
    let procs : (i : ℕ) → i < nproc → done.proc i ≡ woken chan (t.proc i) = wakeup1_lem chan held in
    (
      record done { lock = false },
      rw (free, locked) refl,
      refl,
      procs,
      λ i h.
          subst (λ (p : Process). is_sleeping p.state && same_chan p.chan chan ≡ false)
            (sym (procs i h)) (awake chan (t.proc i)),
    )
