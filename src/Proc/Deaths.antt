-- ===== src/Proc/Deaths.antt =====
-- exit and wait keep the table sound.
use kernel_tracing.Prelude.{
  ℕ, ◌<◌, ◌≡◌, refl, sym, subst, ap, ◌∙◌, ◌≢◌, inl, inr, true, false, ◌&&◌, Option, none, some,
  arith, ltb, leb, ◌==◌, if◌then◌else◌, ==_iff, Bool-cases,
}
use kernel_tracing.Proc.{
  ProcState, unused, zombie, is_zombie, Process, Ptable, nproc, is_parent, set_proc, set_state,
}
use kernel_tracing.Proc.Sleep.{wakeup1}
use kernel_tracing.Proc.Exit.{adopt_loop, parent_chan, bury, reaped}
use kernel_tracing.Proc.Soundness.{alive, born, used, has_parent, IsSound, SameTable-IsSound}
use kernel_tracing.Proc.Sections.{wakeup1-SameTable, alive-born, alive-used}
use kernel_tracing.Proc.Births.{set_proc-has_parent}
use kernel_tracing.Proc.Adoption.{given, Adopted, adopt_loop-Adopted}

-- The parent after the adoption is alive still: init, or one that is not cur.
given_alive :
    (cur i : ℕ) (t u : Ptable)
    → i < nproc
    → Adopted cur 0 nproc t u
    → IsSound t
    → cur ≢ t.initproc
    → has_parent t (t.proc i).parent ≡ true
    → has_parent (set_state cur zombie u) (given cur 0 nproc i t) ≡ true
given_alive cur i t u h a v mortal p = from_parent (t.proc i).parent p
  where
    from_parent :
        (q : Option ℕ)
        → has_parent t q ≡ true
        → has_parent
            (set_state cur zombie u)
            (if leb 0 i && ltb i nproc && is_parent cur q then some t.initproc else q)
          ≡ true
    from_parent none x = absurd (ground (arith, x))
    from_parent (some q) x =
        let low = v.init_slot in
        let live = (a.procs t.initproc).same_alive ∙ v.init_alive in
        let same = (a.procs q).same_alive in
        elim (Bool-cases (q == cur)) [
          | inl e ↦ rw (e) (ground (arith, h, low, live, mortal))
          | inr e ↦ ground (arith, e, same, x)
        ]

-- Once its children are given away a process can become a zombie.
zombie-IsSound :
    (cur : ℕ) (t u : Ptable)
    → cur < nproc
    → alive (t.proc cur).state ≡ true
    → cur ≢ t.initproc
    → Adopted cur 0 nproc t u
    → IsSound t
    → IsSound (set_state cur zombie u)
zombie-IsSound cur t u low live mortal a v =
    let z : Ptable = set_state cur zombie u in
    let init_live : (cur == t.initproc) ≡ false = ground arith in
    let root : alive (z.proc t.initproc).state ≡ true =
      rw (init_live) ((a.procs t.initproc).same_alive ∙ v.init_alive) in
    let cur_born : born (t.proc cur).state ≡ true = alive-born (t.proc cur).state live in
    let cur_used : used (t.proc cur).state ≡ true = alive-used (t.proc cur).state live in
    let born_back : (i : ℕ) → born (z.proc i).state ≡ true → born (t.proc i).state ≡ true = λ i b.
      elim (Bool-cases (cur == i)) [
        | inl e ↦ subst (λ k. born (t.proc k).state ≡ true) ((==_iff cur i).0 e) cur_born
        | inr e ↦
            let b' : born (u.proc i).state ≡ true = rw (e) at b in sym (a.procs i).same_born ∙ b'
      ] in
    let used_back : (i : ℕ) → used (z.proc i).state ≡ true → used (t.proc i).state ≡ true = λ i b.
      elim (Bool-cases (cur == i)) [
        | inl e ↦ subst (λ k. used (t.proc k).state ≡ true) ((==_iff cur i).0 e) cur_used
        | inr e ↦ let b' : used (u.proc i).state ≡ true = rw (e) at b in (a.procs i).same_used b'
      ] in
    let parent : (i : ℕ) → i < nproc → (z.proc i).parent ≡ given cur 0 nproc i t = λ i h.
      elim (Bool-cases (cur == i)) [
        | inl e ↦ rw (e) (ap (λ k. (u.proc k).parent) ((==_iff cur i).0 e) ∙ a.parents i)
        | inr e ↦ rw (e) (a.parents i)
      ] in
    let pid : (i : ℕ) → (z.proc i).pid ≡ (t.proc i).pid = λ i. elim (Bool-cases (cur == i)) [
      | inl e ↦ rw (e) (ap (λ k. (u.proc k).pid) ((==_iff cur i).0 e) ∙ (a.procs i).same_pid)
      | inr e ↦ rw (e) (a.procs i).same_pid
    ] in
    record {
      init_slot = subst (λ k. k < nproc) (sym a.init) v.init_slot;
      init_alive = ap (λ k. alive (z.proc k).state) a.init ∙ root;
      parented = λ i h ne b.
          ap (has_parent z) (parent i h)
          ∙ given_alive cur i t u h a v mortal
              (v.parented i h (λ e. ne (e ∙ sym a.init)) (born_back i b));
      fresh = λ i h b.
          let alone : (t.proc i).parent ≡ none = elim (Bool-cases (cur == i)) [
            | inl e ↦ let z' : used zombie ≡ false = rw (e) at b in absurd (ground (arith, z'))
            | inr e ↦
                let u' : used (u.proc i).state ≡ false = rw (e) at b in
                elim ((a.procs i).same_freed u') [ inl w ↦ v.fresh i h w | inr p ↦ p ]
          ] in
          parent i h ∙ ground (arith, alone);
      distinct = λ i j h g ne x y e.
          v.distinct i j h g ne (used_back i x) (used_back j y) (sym (pid i) ∙ e ∙ pid j);
      counted = λ i h x.
          subst (λ k. k < z.nextpid) (sym (pid i))
            (subst (λ k. (t.proc i).pid < k) (sym a.next) (v.counted i h (used_back i x)));
    }

-- Every process that exits and is not init leaves a sound table.
pub bury-IsSound :
    (cur : ℕ) (t : Ptable)
    → cur < nproc
    → alive (t.proc cur).state ≡ true
    → cur ≢ t.initproc
    → IsSound t
    → IsSound (bury cur t)
unfolding bury
bury-IsSound cur t low live mortal v =
    let woke : Ptable = wakeup1 (parent_chan (t.proc cur).parent) t in
    let s = wakeup1-SameTable (parent_chan (t.proc cur).parent) t in
    zombie-IsSound cur woke (adopt_loop nproc 0 cur woke) low ((s.procs cur).same_alive ∙ live)
      (λ e. mortal (e ∙ s.init)) (adopt_loop-Adopted nproc 0 cur woke)
      (SameTable-IsSound t woke s v)

is_zombie_dead : (s : ProcState) → is_zombie s ≡ true → alive s ≡ false
is_zombie_dead zombie h = refl
is_zombie_dead unused h = refl
is_zombie_dead ProcState.embryo h = refl
is_zombie_dead ProcState.sleeping h = cc
is_zombie_dead ProcState.runnable h = cc
is_zombie_dead ProcState.running h = cc

-- A zombie that is waited for is nobody's parent.
pub reaped-IsSound :
    (p : ℕ) (t : Ptable)
    → is_zombie (t.proc p).state ≡ true
    → IsSound t
    → IsSound (set_proc p (reaped (t.proc p)) t)
reaped-IsSound p t z v =
    let dead : alive (t.proc p).state ≡ false = is_zombie_dead (t.proc p).state z in
    let x : Process = reaped (t.proc p) in
    let keep : alive (t.proc p).state ≡ true → alive x.state ≡ true =
      λ a. absurd (ground (arith, a, dead)) in
    let not_init : p ≢ t.initproc = λ e.
      let a = v.init_alive in
      absurd (ground (arith, subst (λ k. alive (t.proc k).state ≡ true) (sym e) a, dead)) in
    record {
      init_slot = v.init_slot;
      init_alive = let a = v.init_alive in ground (arith, not_init);
      parented = λ i h ne b. elim (Bool-cases (p == i)) [
        | inl e ↦ let b' : born unused ≡ true = rw (e) at b in absurd (ground (arith, b'))
        | inr e ↦
            let b' : born (t.proc i).state ≡ true = rw (e) at b in
            rw (e) (set_proc-has_parent p x t (t.proc i).parent keep (v.parented i h ne b'))
      ];
      fresh = λ i h b. elim (Bool-cases (p == i)) [
        | inl e ↦ rw (e) refl
        | inr e ↦ let b' : used (t.proc i).state ≡ false = rw (e) at b in rw (e) (v.fresh i h b')
      ];
      distinct = λ i j h g ne a b. ground (arith, v.distinct i j h g ne);
      counted = λ i h a. ground (arith, v.counted i h);
    }
