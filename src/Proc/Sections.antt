-- ===== src/Proc/Sections.antt =====
-- What wakes, sleeps, kills or gives up a slot leaves every process what it is.
use kernel_tracing.Prelude.{
  ℕ, zero, suc, ◌+◌, ◌≡◌, refl, sym, ap, ◌∙◌, inl, inr, true, false, ◌&&◌, Option, none, some,
  arith, ◌==◌, Bool-cases,
}
use kernel_tracing.Proc.{
  ProcState, unused, embryo, sleeping, runnable, running, zombie, is_sleeping, Chan, same_chan,
  Process, Ptable, nproc, set_proc, set_state, stack_slot, drop_child,
}
use kernel_tracing.Proc.Sleep.{woken, wakeup_loop, wakeup1, killed_proc, kill_slot, doze}
use kernel_tracing.Proc.Soundness.{
  alive, born, used, SameProc, SameTable, SameProc-refl, SameTable-refl, SameTable-trans,
  set_proc-SameTable,
}

pub is_sleeping_eq : (s : ProcState) → is_sleeping s ≡ true → s ≡ sleeping
is_sleeping_eq sleeping h = refl
is_sleeping_eq unused h = cc
is_sleeping_eq embryo h = cc
is_sleeping_eq runnable h = cc
is_sleeping_eq running h = cc
is_sleeping_eq zombie h = cc

pub alive-born : (s : ProcState) → alive s ≡ true → born s ≡ true
alive-born sleeping h = refl
alive-born runnable h = refl
alive-born running h = refl
alive-born unused h = cc
alive-born embryo h = cc
alive-born zombie h = cc

pub alive-used : (s : ProcState) → alive s ≡ true → used s ≡ true
alive-used sleeping h = refl
alive-used runnable h = refl
alive-used running h = refl
alive-used unused h = cc
alive-used embryo h = cc
alive-used zombie h = cc

-- A process that is alive and has its state changed to one in which it is alive.
pub alive-SameProc :
    (p p' : Process)
    → alive p.state ≡ true
    → alive p'.state ≡ true
    → p'.pid ≡ p.pid
    → p'.parent ≡ p.parent
    → SameProc p p'
alive-SameProc p p' a a' e q = record {
  same_alive = a' ∙ sym a;
  same_born = alive-born p'.state a' ∙ sym (alive-born p.state a);
  same_used = λ _. alive-used p.state a;
  same_freed = λ h. let u = alive-used p'.state a' in absurd (ground (arith, h, u));
  same_pid = e;
  same_parent = q;
}

-- A slot that is given up before its process is born.
pub embryo-SameProc :
    (p p' : Process)
    → p.state ≡ embryo
    → alive p'.state ≡ false
    → born p'.state ≡ false
    → p'.pid ≡ p.pid
    → p'.parent ≡ p.parent
    → (used p'.state ≡ false → p.parent ≡ none)
    → SameProc p p'
embryo-SameProc p p' s a b e q alone = record {
  same_alive = a ∙ sym (ap alive s);
  same_born = b ∙ sym (ap born s);
  same_used = λ _. ap used s;
  same_freed = λ h. inr (alone h);
  same_pid = e;
  same_parent = q;
}

pub woken-SameProc : (chan : Chan) (p : Process) → SameProc p (woken chan p)
woken-SameProc chan p = elim (Bool-cases (is_sleeping p.state && same_chan p.chan chan)) [
  | inl e ↦
      let s : p.state ≡ sleeping = is_sleeping_eq p.state (ground (arith, e)) in
      rw (e) (alive-SameProc p (record p { state = runnable }) (ap alive s) refl refl refl)
  | inr e ↦ rw (e) (SameProc-refl p)
]

wakeup_loop-SameTable :
    (left p : ℕ) (chan : Chan) (t : Ptable) → SameTable t (wakeup_loop left p chan t)
unfolding wakeup_loop
wakeup_loop-SameTable zero p chan t = SameTable-refl t
wakeup_loop-SameTable (suc left) p chan t =
    let t' : Ptable = set_proc p (woken chan (t.proc p)) t in
    SameTable-trans t t' (wakeup_loop left (p + 1) chan t')
      (set_proc-SameTable p _ t (woken-SameProc chan (t.proc p)))
      (wakeup_loop-SameTable left (p + 1) chan t')

pub wakeup1-SameTable : (chan : Chan) (t : Ptable) → SameTable t (wakeup1 chan t)
unfolding wakeup1
wakeup1-SameTable chan t = wakeup_loop-SameTable nproc 0 chan t

killed_proc-SameProc : (p : Process) → SameProc p (killed_proc p)
killed_proc-SameProc p = elim (Bool-cases (is_sleeping p.state)) [
  | inl e ↦
      let s : p.state ≡ sleeping = is_sleeping_eq p.state e in
      rw (e) (
        alive-SameProc p (record p { killed = true; state = runnable }) (ap alive s) refl refl refl)
  | inr e ↦ rw (e) (record {
    same_alive = refl;
    same_born = refl;
    same_used = λ h. h;
    same_freed = λ h. inl h;
    same_pid = refl;
    same_parent = refl;
  })
]

pub kill_slot-SameTable : (r : Option ℕ) (t : Ptable) → SameTable t (kill_slot r t).1
unfolding kill_slot
kill_slot-SameTable none t = SameTable-refl t
kill_slot-SameTable (some p) t = set_proc-SameTable p _ t (killed_proc-SameProc (t.proc p))

pub doze-SameTable :
    (cur : ℕ) (chan : Chan) (t : Ptable)
    → alive (t.proc cur).state ≡ true
    → SameTable t (doze cur chan t)
doze-SameTable cur chan t a =
    set_proc-SameTable cur _ t (alive-SameProc (t.proc cur) _ a refl refl refl)

pub set_state-SameTable :
    (cur : ℕ) (s : ProcState) (t : Ptable)
    → alive (t.proc cur).state ≡ true
    → alive s ≡ true
    → SameTable t (set_state cur s t)
set_state-SameTable cur s t a b =
    set_proc-SameTable cur _ t (alive-SameProc (t.proc cur) _ a b refl refl)

pub drop_child-SameTable :
    (np : ℕ) (t : Ptable)
    → (t.proc np).state ≡ embryo
    → (t.proc np).parent ≡ none
    → SameTable t (drop_child np t)
drop_child-SameTable np t s alone =
    set_proc-SameTable np _ t (embryo-SameProc (t.proc np) _ s refl refl refl refl (λ _. alone))

-- allocproc's second part on a slot that its first part has claimed.
pub stack_slot-SameTable :
    (kstack p : ℕ) (t : Ptable)
    → (t.proc p).state ≡ embryo
    → (t.proc p).parent ≡ none
    → SameTable t (stack_slot kstack (some p) t).1
unfolding stack_slot
stack_slot-SameTable kstack p t s alone = elim (Bool-cases (kstack == 0)) [
  | inl e ↦
      rw (e)
        (set_proc-SameTable p _ t (embryo-SameProc (t.proc p) _ s refl refl refl refl (λ _. alone)))
  | inr e ↦ rw (e) (
      set_proc-SameTable p _ t
        (embryo-SameProc (t.proc p) _ s (ap alive s) (ap born s) refl refl (λ _. alone)))
]
