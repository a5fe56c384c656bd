-- ===== src/Proc/Adoption.antt =====
-- The loop in which exit gives its children to init: what it does to the table.
use kernel_tracing.Prelude.{
  ℕ, zero, suc, ◌+◌, ◌≤◌, ◌≡◌, refl, sym, subst, ◌∙◌, inl, inr, true, false, ◌&&◌, Option, none,
  some, arith, ltb, leb, ◌==◌, if◌then◌else◌, ==_iff, Bool-cases,
}
use kernel_tracing.Proc.{is_zombie, Ptable, is_parent, set_proc}
use kernel_tracing.Proc.Exit.{adopt, adopt_loop}
use kernel_tracing.Proc.Soundness.{SameProc, SameTable, SameProc-refl}
use kernel_tracing.Proc.Sections.{wakeup1-SameTable}

-- The parent after the children of cur with an index from lo to below hi were given to init.
abbrev pub given : (cur lo hi i : ℕ) → Ptable → Option ℕ
given cur lo hi i t =
    if leb lo i && ltb i hi && is_parent cur (t.proc i).parent
    then some t.initproc
    else (t.proc i).parent

-- The table after that: apart from the parents, processes are what they were.
pub record Adopted (cur lo hi : ℕ) (t t' : Ptable) : Type 0 where
  pub procs : (i : ℕ) → SameProc (t.proc i) (record (t'.proc i) { parent = (t.proc i).parent })
  pub parents : (i : ℕ) → (t'.proc i).parent ≡ given cur lo hi i t
  pub init : t'.initproc ≡ t.initproc
  pub next : t'.nextpid ≡ t.nextpid

given_none : (cur lo hi i : ℕ) (t : Ptable) → given cur lo hi i t ≡ none → (t.proc i).parent ≡ none
given_none cur lo hi i t h =
    elim (Bool-cases (leb lo i && ltb i hi && is_parent cur (t.proc i).parent)) [
      | inl e ↦ let h' = rw (e) at h in absurd (ground (arith, h'))
      | inr e ↦ rw (e) at h
    ]

Adopted-refl : (cur lo : ℕ) (t : Ptable) → Adopted cur lo lo t t
Adopted-refl cur lo t = record {
  procs = λ i. SameProc-refl (t.proc i);
  parents = λ i. ground arith;
  init = refl;
  next = refl;
}

Adopted-trans :
    (cur lo mid hi : ℕ) (t u v : Ptable)
    → lo ≤ mid
    → mid ≤ hi
    → Adopted cur lo mid t u
    → Adopted cur mid hi u v
    → Adopted cur lo hi t v
Adopted-trans cur lo mid hi t u v h g a b = record {
  procs = λ i.
      let p = a.procs i in
      let q = b.procs i in
      record {
        same_alive = q.same_alive ∙ p.same_alive;
        same_born = q.same_born ∙ p.same_born;
        same_used = λ x. p.same_used (q.same_used x);
        same_freed = λ x. elim (q.same_freed x) [
          | inl u ↦ p.same_freed u
          | inr e ↦ inr (given_none cur lo mid i t (sym (a.parents i) ∙ e))
        ];
        same_pid = q.same_pid ∙ p.same_pid;
        same_parent = refl;
      };
  parents = λ i. let p = a.parents i in let init = a.init in b.parents i ∙ ground (arith, p, init);
  init = b.init ∙ a.init;
  next = b.next ∙ a.next;
}

SameTable-Adopted :
    (cur lo : ℕ) (t u v : Ptable)
    → Adopted cur lo (lo + 1) t u
    → SameTable u v
    → Adopted cur lo (lo + 1) t v
SameTable-Adopted cur lo t u v a s = record {
  procs = λ i.
      let p = a.procs i in
      let q = s.procs i in
      record {
        same_alive = q.same_alive ∙ p.same_alive;
        same_born = q.same_born ∙ p.same_born;
        same_used = λ x. p.same_used (q.same_used x);
        same_freed = λ x. elim (q.same_freed x) [
          | inl u ↦ p.same_freed u
          | inr e ↦ inr (given_none cur lo (lo + 1) i t (sym (a.parents i) ∙ e))
        ];
        same_pid = q.same_pid ∙ p.same_pid;
        same_parent = refl;
      };
  parents = λ i. (s.procs i).same_parent ∙ a.parents i;
  init = s.init ∙ a.init;
  next = s.next ∙ a.next;
}

reparented :
    (cur p : ℕ) (t : Ptable)
    → is_parent cur (t.proc p).parent ≡ true
    → Adopted cur p (p + 1) t (set_proc p (record (t.proc p) { parent = some t.initproc }) t)
reparented cur p t h = record {
  procs = λ i. elim (Bool-cases (p == i)) [
    | inl e ↦ rw (e) (
        subst (λ k. SameProc (t.proc k) (record (t.proc p) { parent = (t.proc k).parent }))
          ((==_iff p i).0 e) (SameProc-refl (t.proc p)))
    | inr e ↦ rw (e) (SameProc-refl (t.proc i))
  ];
  parents = λ i. elim (Bool-cases (p == i)) [
    | inl e ↦
        let at : p ≡ i = (==_iff p i).0 e in
        let h' : is_parent cur (t.proc i).parent ≡ true =
          subst (λ k. is_parent cur (t.proc k).parent ≡ true) at h in
        rw (e) (ground (arith, at, h'))
    | inr e ↦ rw (e) (ground (arith, e))
  ];
  init = refl;
  next = refl;
}

adopt-Adopted : (cur p : ℕ) (t : Ptable) → Adopted cur p (p + 1) t (adopt cur p t)
unfolding adopt
adopt-Adopted cur p t = elim (Bool-cases (is_parent cur (t.proc p).parent)) [
  | inl mine ↦ elim (Bool-cases (is_zombie (t.proc p).state)) [
    | inl z ↦
        rw (mine, z)
          (SameTable-Adopted cur p t _ _ (reparented cur p t mine) (wakeup1-SameTable _ _))
    | inr nz ↦ rw (mine, nz) (reparented cur p t mine)
  ]
  | inr not_mine ↦ rw (not_mine) (record {
    procs = λ i. SameProc-refl (t.proc i);
    parents = λ i. elim (Bool-cases (p == i)) [
      | inl e ↦
          let at : p ≡ i = (==_iff p i).0 e in
          let h : is_parent cur (t.proc i).parent ≡ false =
            subst (λ k. is_parent cur (t.proc k).parent ≡ false) at not_mine in
          ground (arith, h)
      | inr e ↦ ground (arith, e)
    ];
    init = refl;
    next = refl;
  })
]

pub adopt_loop-Adopted :
    (left p cur : ℕ) (t : Ptable) → Adopted cur p (p + left) t (adopt_loop left p cur t)
unfolding adopt_loop
adopt_loop-Adopted zero p cur t =
    let e : p + 0 ≡ p = omega arith in
    subst (λ k. Adopted cur p k t t) (sym e) (Adopted-refl cur p t)
adopt_loop-Adopted (suc left) p cur t =
    let e : p + 1 + left ≡ p + suc left = omega arith in
    subst (λ k. Adopted cur p k t (adopt_loop left (p + 1) cur (adopt cur p t))) e
      (Adopted-trans cur p (p + 1) (p + 1 + left) t (adopt cur p t) _ (omega arith) (omega arith)
        (adopt-Adopted cur p t) (adopt_loop-Adopted left (p + 1) cur (adopt cur p t)))
