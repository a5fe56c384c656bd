-- ===== src/Proc/Soundness.antt =====
-- What is true of the process table whenever its lock is free: no process is an orphan, and no two
-- have one pid.
use kernel_tracing.Prelude.{
  ℕ, ◌<◌, ◌≡◌, refl, sym, subst, ap, ◌∙◌, ◌≢◌, ◌⊎◌, inl, inr, Bool, true, false, ◌&&◌, Option, none,
  some, ltb, ◌==◌, ==_iff, Bool-cases,
}
use kernel_tracing.Proc.{
  ProcState, unused, embryo, sleeping, runnable, running, Process, Ptable, nproc, set_proc,
}

-- Alive: it can still run. Born: alive, or exited and not waited for. Used: its slot is taken.
abbrev pub alive : ProcState → Bool
alive sleeping = true
alive runnable = true
alive running = true
alive _ = false

abbrev pub born : ProcState → Bool
born unused = false
born embryo = false
born _ = true

abbrev pub used : ProcState → Bool
used unused = false
used _ = true

-- The parent is a process of the table that is alive.
abbrev pub has_parent : Ptable → Option ℕ → Bool
has_parent t none = false
has_parent t (some q) = ltb q nproc && alive (t.proc q).state

pub record IsSound (t : Ptable) : Type 0 where
  pub init_slot : t.initproc < nproc
  pub init_alive : alive (t.proc t.initproc).state ≡ true
  pub parented :
      (i : ℕ)
      → i < nproc
      → i ≢ t.initproc
      → born (t.proc i).state ≡ true
      → has_parent t (t.proc i).parent ≡ true
  pub fresh : (i : ℕ) → i < nproc → used (t.proc i).state ≡ false → (t.proc i).parent ≡ none
  pub distinct :
      (i j : ℕ)
      → i < nproc
      → j < nproc
      → i ≢ j
      → used (t.proc i).state ≡ true
      → used (t.proc j).state ≡ true
      → (t.proc i).pid ≢ (t.proc j).pid
  pub counted : (i : ℕ) → i < nproc → used (t.proc i).state ≡ true → (t.proc i).pid < t.nextpid

-- A change that leaves a process what it is: it stays alive if it was, and so on, but for a slot
-- that becomes free without having got a parent.
pub record SameProc (p p' : Process) : Type 0 where
  pub same_alive : alive p'.state ≡ alive p.state
  pub same_born : born p'.state ≡ born p.state
  pub same_used : used p'.state ≡ true → used p.state ≡ true
  pub same_freed : used p'.state ≡ false → (used p.state ≡ false) ⊎ (p.parent ≡ none)
  pub same_pid : p'.pid ≡ p.pid
  pub same_parent : p'.parent ≡ p.parent

pub record SameTable (t t' : Ptable) : Type 0 where
  pub procs : (i : ℕ) → SameProc (t.proc i) (t'.proc i)
  pub init : t'.initproc ≡ t.initproc
  pub next : t'.nextpid ≡ t.nextpid

pub SameProc-refl : (p : Process) → SameProc p p
SameProc-refl p = record {
  same_alive = refl;
  same_born = refl;
  same_used = λ h. h;
  same_freed = λ h. inl h;
  same_pid = refl;
  same_parent = refl;
}

pub SameProc-trans : (p q r : Process) → SameProc p q → SameProc q r → SameProc p r
SameProc-trans p q r a b = record {
  same_alive = b.same_alive ∙ a.same_alive;
  same_born = b.same_born ∙ a.same_born;
  same_used = λ h. a.same_used (b.same_used h);
  same_freed =
      λ h. elim (b.same_freed h) [ inl u ↦ a.same_freed u | inr e ↦ inr (sym a.same_parent ∙ e) ];
  same_pid = b.same_pid ∙ a.same_pid;
  same_parent = b.same_parent ∙ a.same_parent;
}

pub SameTable-refl : (t : Ptable) → SameTable t t
SameTable-refl t = record { procs = λ i. SameProc-refl (t.proc i); init = refl; next = refl }

pub SameTable-trans : (t u v : Ptable) → SameTable t u → SameTable u v → SameTable t v
SameTable-trans t u v a b = record {
  procs = λ i. SameProc-trans (t.proc i) (u.proc i) (v.proc i) (a.procs i) (b.procs i);
  init = b.init ∙ a.init;
  next = b.next ∙ a.next;
}

pub set_proc-SameTable :
    (i : ℕ) (p : Process) (t : Ptable) → SameProc (t.proc i) p → SameTable t (set_proc i p t)
set_proc-SameTable i p t s = record {
  procs = λ j. elim (Bool-cases (i == j)) [
    | inl e ↦ rw (e) (subst (λ k. SameProc (t.proc k) p) ((==_iff i j).0 e) s)
    | inr e ↦ rw (e) (SameProc-refl (t.proc j))
  ];
  init = refl;
  next = refl;
}

has_parent-SameTable :
    (t t' : Ptable) (q : Option ℕ) → SameTable t t' → has_parent t' q ≡ has_parent t q
has_parent-SameTable t t' none s = refl
has_parent-SameTable t t' (some q) s = ap (λ b. ltb q nproc && b) (s.procs q).same_alive

pub SameTable-IsSound : (t t' : Ptable) → SameTable t t' → IsSound t → IsSound t'
SameTable-IsSound t t' s v = record {
  init_slot = subst (λ k. k < nproc) (sym s.init) v.init_slot;
  init_alive =
      ap (λ k. alive (t'.proc k).state) s.init ∙ (s.procs t.initproc).same_alive ∙ v.init_alive;
  parented = λ i h ne b.
      has_parent-SameTable t t' (t'.proc i).parent s
      ∙ ap (has_parent t) (s.procs i).same_parent
      ∙ v.parented i h (λ e. ne (e ∙ sym s.init)) (sym (s.procs i).same_born ∙ b);
  fresh = λ i h b.
      (s.procs i).same_parent
      ∙ elim ((s.procs i).same_freed b) [ inl u ↦ v.fresh i h u | inr e ↦ e ];
  distinct = λ i j h g ne a b e.
      v.distinct i j h g ne ((s.procs i).same_used a) ((s.procs j).same_used b)
        (sym (s.procs i).same_pid ∙ e ∙ (s.procs j).same_pid);
  counted = λ i h a.
      let low = v.counted i h ((s.procs i).same_used a) in
      subst (λ k. k < t'.nextpid) (sym (s.procs i).same_pid)
        (subst (λ k. (t.proc i).pid < k) (sym s.next) low);
}
