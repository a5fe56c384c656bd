-- ===== src/Proc/Searches.antt =====
-- The processes that the scheduler and wait come to.
use kernel_tracing.Prelude.{
  ℕ, zero, suc, ◌+◌, ◌≤◌, ◌<◌, ◌≡◌, refl, sym, subst, ap, ◌∙◌, inl, inr, Bool, true, ◌&&◌, ◌||◌,
  arith, Bool-cases,
}
use kernel_tracing.Proc.{
  is_runnable, ProcState, unused, embryo, runnable, running, zombie, is_zombie, Ptable, is_parent,
  set_state,
}
use kernel_tracing.Proc.Exit.{exited, scan_kids}
use kernel_tracing.Proc.Scheduler.{switches, pick_loop}

is_runnable_eq : (s : ProcState) → is_runnable s ≡ true → s ≡ runnable
is_runnable_eq runnable h = refl
is_runnable_eq unused h = cc
is_runnable_eq embryo h = cc
is_runnable_eq ProcState.sleeping h = cc
is_runnable_eq running h = cc
is_runnable_eq zombie h = cc

pub pick_loop_lem :
    (left p skipped q : ℕ) (t t' : Ptable)
    → pick_loop left p skipped t ≡ switches q t'
    → ((t.proc q).state ≡ runnable) × (set_state q running t ≡ t') × (p ≤ q) × (q < p + left)
unfolding pick_loop
pick_loop_lem zero p skipped q t t' h = absurd (ground (arith, h))
pick_loop_lem (suc left) p skipped q t t' h = elim (Bool-cases (is_runnable (t.proc p).state)) [
  | inl e ↦
      let r : switches p (set_state p running t) ≡ switches q t' = rw (← h, e) refl in
      let at : p ≡ q = cc in
      let to : set_state p running t ≡ t' = cc in
      (
        ap (λ k. (t.proc k).state) (sym at) ∙ is_runnable_eq (t.proc p).state e,
        ap (λ k. set_state k running t) (sym at) ∙ to,
        omega arith,
        omega arith,
      )
  | inr e ↦
      let r : pick_loop left (p + 1) (skipped + 1) t ≡ switches q t' = rw (← h, e) refl in
      let ih = pick_loop_lem left (p + 1) (skipped + 1) q t t' r in
      let lo = ih.2 in let hi = ih.3 in (ih.0, ih.1, omega arith, omega arith)
]

pub scan_kids_lem :
    (left p cur q : ℕ) (some_kids : Bool) (t : Ptable)
    → scan_kids left p cur some_kids t ≡ exited q
    → (is_zombie (t.proc q).state ≡ true) × (is_parent cur (t.proc q).parent ≡ true)
unfolding scan_kids
scan_kids_lem zero p cur q some_kids t h = absurd (ground (arith, h))
scan_kids_lem (suc left) p cur q some_kids t h =
    let mine : Bool = is_parent cur (t.proc p).parent in
    elim (Bool-cases (mine && is_zombie (t.proc p).state)) [
      | inl e ↦
          let r : exited p ≡ exited q = rw (← h, e) refl in
          let at : p ≡ q = cc in
          (
            subst (λ k. is_zombie (t.proc k).state ≡ true) at (ground (arith, e)),
            subst (λ k. is_parent cur (t.proc k).parent ≡ true) at (ground (arith, e)),
          )
      | inr e ↦
          let r : scan_kids left (p + 1) cur (some_kids || mine) t ≡ exited q = rw (← h, e) refl in
          scan_kids_lem left (p + 1) cur q (some_kids || mine) t r
    ]
