-- ===== src/Proc/Births.antt =====
-- allocproc and fork keep the table sound.
use kernel_tracing.Prelude.{
  ℕ, zero, suc, ◌+◌, ◌%◌, ◌^◌, ◌<◌, ◌≡◌, refl, sym, subst, ap, ◌∙◌, ◌≢◌, inl, inr, true, false,
  Option, none, some, arith, ◌==◌, ==_iff, Bool-cases,
}
use kernel_tracing.Proc.{
  ProcState, unused, embryo, runnable, is_unused, Process, Ptable, nproc, set_proc, find_unused,
  take_slot, child, fill_child, start_child,
}
use kernel_tracing.Proc.Soundness.{alive, born, used, has_parent, IsSound}

is_unused_eq : (s : ProcState) → is_unused s ≡ true → s ≡ unused
is_unused_eq unused h = refl
is_unused_eq embryo h = cc
is_unused_eq ProcState.sleeping h = cc
is_unused_eq runnable h = cc
is_unused_eq ProcState.running h = cc
is_unused_eq ProcState.zombie h = cc

pub find_unused_lem :
    (left p r : ℕ) (t : Ptable)
    → find_unused left p t ≡ some r
    → ((t.proc r).state ≡ unused) × (r < p + left)
unfolding find_unused
find_unused_lem zero p r t h = absurd (ground (arith, h))
find_unused_lem (suc left) p r t h = elim (Bool-cases (is_unused (t.proc p).state)) [
  | inl e ↦
      let q : some p ≡ some r = rw (← h, e) refl in
      let at : p ≡ r = cc in
      (ap (λ k. (t.proc k).state) (sym at) ∙ is_unused_eq (t.proc p).state e, omega arith)
  | inr e ↦
      let q : find_unused left (p + 1) t ≡ some r = rw (← h, e) refl in
      let ih = find_unused_lem left (p + 1) r t q in let low = ih.1 in (ih.0, omega arith)
]

-- A process whose slot gets another process keeps its parent, if aliveness of the slot is kept.
pub set_proc-has_parent :
    (i : ℕ) (p : Process) (t : Ptable) (q : Option ℕ)
    → (alive (t.proc i).state ≡ true → alive p.state ≡ true)
    → has_parent t q ≡ true
    → has_parent (set_proc i p t) q ≡ true
set_proc-has_parent i p t none keep h = absurd (ground (arith, h))
set_proc-has_parent i p t (some q) keep h = elim (Bool-cases (i == q)) [
  | inl e ↦
      let at : i ≡ q = (==_iff i q).0 e in
      let was : alive (t.proc i).state ≡ true =
        subst (λ k. alive (t.proc k).state ≡ true) (sym at) (ground (arith, h)) in
      rw (e) (ground (arith, h, keep was))
  | inr e ↦ rw (e) h
]

pub take_slot-IsSound :
    (p : ℕ) (t : Ptable)
    → p < nproc
    → t.nextpid + 1 < 2 ^ 31
    → (t.proc p).state ≡ unused
    → IsSound t
    → IsSound (take_slot (some p) t)
unfolding take_slot
take_slot-IsSound p t low small free v =
    let next : (t.nextpid + 1) % 2 ^ 32 ≡ t.nextpid + 1 = omega (arith, small) in
    let x : Process = record (t.proc p) { state = embryo; pid = t.nextpid } in
    let dead : alive (t.proc p).state ≡ false = ap alive free in
    let keep : alive (t.proc p).state ≡ true → alive x.state ≡ true =
      λ a. absurd (ground (arith, a, dead)) in
    let not_init : p ≢ t.initproc = λ e.
      let a = v.init_alive in
      absurd (ground (arith, subst (λ k. alive (t.proc k).state ≡ true) (sym e) a, dead)) in
    record {
      init_slot = v.init_slot;
      init_alive = let a = v.init_alive in ground (arith, not_init);
      parented = λ i h ne b. elim (Bool-cases (p == i)) [
        | inl e ↦ let b' : born embryo ≡ true = rw (e) at b in absurd (ground (arith, b'))
        | inr e ↦
            let b' : born (t.proc i).state ≡ true = rw (e) at b in
            rw (e) (set_proc-has_parent p x t (t.proc i).parent keep (v.parented i h ne b'))
      ];
      fresh = λ i h b. elim (Bool-cases (p == i)) [
        | inl e ↦ let b' : used embryo ≡ false = rw (e) at b in absurd (ground (arith, b'))
        | inr e ↦ let b' : used (t.proc i).state ≡ false = rw (e) at b in rw (e) (v.fresh i h b')
      ];
      distinct = λ i j h g ne a b.
          let ci = v.counted i h in
          let cj = v.counted j g in ground (arith, v.distinct i j h g ne, ci, cj);
      counted = λ i h a. rw (next) (ground (arith, v.counted i h));
    }

pub fill_child-IsSound :
    (cur pgdir : ℕ) (name : ℕ → ℕ) (np : ℕ) (t : Ptable)
    → (t.proc np).state ≡ embryo
    → IsSound t
    → IsSound (fill_child cur pgdir name np t)
unfolding fill_child
fill_child-IsSound cur pgdir name np t s v =
    let x : Process = child cur pgdir name np t in
    let dead : alive (t.proc np).state ≡ false = ap alive s in
    let unborn : born (t.proc np).state ≡ false = ap born s in
    let was : used (t.proc np).state ≡ true = ap used s in
    let not_init : np ≢ t.initproc = λ e.
      let a = v.init_alive in
      absurd (ground (arith, subst (λ k. alive (t.proc k).state ≡ true) (sym e) a, dead)) in
    record {
      init_slot = v.init_slot;
      init_alive = let a = v.init_alive in ground (arith, not_init);
      parented = λ i h ne b. elim (Bool-cases (np == i)) [
        | inl e ↦
            let b' : born (t.proc np).state ≡ true = rw (e) at b in
            absurd (ground (arith, b', unborn))
        | inr e ↦
            let b' : born (t.proc i).state ≡ true = rw (e) at b in
            rw (e) (set_proc-has_parent np x t (t.proc i).parent (λ a. a) (v.parented i h ne b'))
      ];
      fresh = λ i h b. elim (Bool-cases (np == i)) [
        | inl e ↦
            let b' : used (t.proc np).state ≡ false = rw (e) at b in
            absurd (ground (arith, b', was))
        | inr e ↦ let b' : used (t.proc i).state ≡ false = rw (e) at b in rw (e) (v.fresh i h b')
      ];
      distinct = λ i j h g ne a b. ground (arith, v.distinct i j h g ne, was);
      counted = λ i h a. ground (arith, v.counted i h, was);
    }

pub start_child-IsSound :
    (cur np : ℕ) (t : Ptable)
    → cur < nproc
    → alive (t.proc cur).state ≡ true
    → (t.proc np).state ≡ embryo
    → (t.proc np).parent ≡ some cur
    → IsSound t
    → IsSound (start_child np t)
unfolding start_child
start_child-IsSound cur np t low live s mine v =
    let x : Process = record (t.proc np) { state = runnable } in
    let dead : alive (t.proc np).state ≡ false = ap alive s in
    let keep : alive (t.proc np).state ≡ true → alive x.state ≡ true = λ a. refl in
    let other : np ≢ cur =
      λ e. absurd (ground (arith, live, subst (λ k. alive (t.proc k).state ≡ false) e dead)) in
    let not_init : np ≢ t.initproc = λ e.
      let a = v.init_alive in
      absurd (ground (arith, subst (λ k. alive (t.proc k).state ≡ true) (sym e) a, dead)) in
    let was : used (t.proc np).state ≡ true = ap used s in
    record {
      init_slot = v.init_slot;
      init_alive = let a = v.init_alive in ground (arith, not_init);
      parented = λ i h ne b. elim (Bool-cases (np == i)) [
        | inl e ↦ rw (e, mine) (ground (arith, other, live, low))
        | inr e ↦
            let b' : born (t.proc i).state ≡ true = rw (e) at b in
            rw (e) (set_proc-has_parent np x t (t.proc i).parent keep (v.parented i h ne b'))
      ];
      fresh = λ i h b. elim (Bool-cases (np == i)) [
        | inl e ↦ let b' : used runnable ≡ false = rw (e) at b in absurd (ground (arith, b'))
        | inr e ↦ let b' : used (t.proc i).state ≡ false = rw (e) at b in rw (e) (v.fresh i h b')
      ];
      distinct = λ i j h g ne a b. ground (arith, v.distinct i j h g ne, was);
      counted = λ i h a. ground (arith, v.counted i h, was);
    }
