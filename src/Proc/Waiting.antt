-- ===== src/Proc/Waiting.antt =====
-- wait on each of its branches.
use kernel_tracing.Prelude.{
  ℕ, zero, suc, ◌+◌, ◌≤◌, ◌<◌, ◌≡◌, refl, sym, subst, ◌≢◌, inl, inr, Bool, true, false, ◌&&◌, ◌||◌,
  none, [], arith, ◌==◌, Bool-cases, ok,
}
use kernel_tracing.Prelude.Int.{to_int, negsuc}
use kernel_tracing.Proc.{unused, is_zombie, Ptable, nproc, is_parent, set_proc}
use kernel_tracing.Proc.Sleep.{Cpu}
use kernel_tracing.Proc.Exit.{
  reap_calls, exited, kids, scan_kids, wait_round, reaped, returns, wait,
}

-- A scan over an exited child comes to one.
scan_kids_found :
    (left p cur q : ℕ) (some_kids : Bool) (t : Ptable)
    → p ≤ q
    → q < p + left
    → is_parent cur (t.proc q).parent && is_zombie (t.proc q).state ≡ true
    → (r : ℕ) × (scan_kids left p cur some_kids t ≡ exited r)
      × (r < p + left)
      × (is_parent cur (t.proc r).parent && is_zombie (t.proc r).state ≡ true)
unfolding scan_kids
scan_kids_found zero p cur q some_kids t lo hi h = absurd (omega arith)
scan_kids_found (suc left) p cur q some_kids t lo hi h =
    let mine : Bool = is_parent cur (t.proc p).parent in
    elim (Bool-cases (mine && is_zombie (t.proc p).state)) [
      | inl e ↦ (p, rw (e) refl, omega arith, e)
      | inr e ↦
          let later : p ≢ q = λ at. ground (
            arith,
            e,
            subst (λ k. is_parent cur (t.proc k).parent && is_zombie (t.proc k).state ≡ true)
                (sym at) h,
          ) in
          let ih =
            scan_kids_found left (p + 1) cur q (some_kids || mine) t (omega arith) (omega arith)
              h in
          let low = ih.2 in (ih.0, rw (e) ih.1, omega arith, ih.3)
    ]

-- A scan that meets no child knows of none.
scan_kids_none :
    (left p cur : ℕ) (t : Ptable)
    → ((i : ℕ) → i < p + left → is_parent cur (t.proc i).parent ≡ false)
    → scan_kids left p cur false t ≡ kids false
unfolding scan_kids
scan_kids_none zero p cur t h = refl
scan_kids_none (suc left) p cur t h =
    let alone : is_parent cur (t.proc p).parent ≡ false = h p (omega arith) in
    rw (alone) (scan_kids_none left (p + 1) cur t (λ i g. h i (omega arith)))

-- With the table's lock free and a child of cur in the table that has exited: wait returns with the
-- lock free and the pid of such a child, whose slot is then free, with no parent; all other slots
-- are unchanged.
pub wait-reaps :
    (c : Cpu) (cur q : ℕ) (t : Ptable)
    → t.lock ≡ false
    → q < nproc
    → is_parent cur (t.proc q).parent && is_zombie (t.proc q).state ≡ true
    → (r : ℕ) × (t' : Ptable) × (wait c cur t
        ≡ ok (returns (to_int (t.proc r).pid) (reap_calls (t.proc r)) t'))
      × (r < nproc)
      × (is_parent cur (t.proc r).parent && is_zombie (t.proc r).state ≡ true)
      × (t'.lock ≡ false)
      × ((t'.proc r).state ≡ unused)
      × ((t'.proc r).parent ≡ none)
      × ((i : ℕ) → i ≢ r → t'.proc i ≡ t.proc i)
unfolding wait wait_round
wait-reaps c cur q t free low h =
    let held : Ptable = record t { lock = true } in
    let s = scan_kids_found nproc 0 cur q false held (omega arith) (omega arith) h in
    let r : ℕ = s.0 in
    let bound = s.2 in
    (
      r,
      record (set_proc r (reaped (t.proc r)) t) { lock = false },
      rw (free, s.1) refl,
      omega arith,
      s.3,
      refl,
      ground arith,
      ground arith,
      λ i ne. let differ : (r == i) ≡ false = ground arith in rw (differ) refl,
    )

-- With the table's lock free and no child of cur in the table, wait returns -1 and changes nothing.
pub wait-childless :
    (c : Cpu) (cur : ℕ) (t : Ptable)
    → t.lock ≡ false
    → ((i : ℕ) → i < nproc → is_parent cur (t.proc i).parent ≡ false)
    → wait c cur t ≡ ok (returns (negsuc 0) [] (record t { lock = false }))
unfolding wait wait_round
wait-childless c cur t free h =
    let held : Ptable = record t { lock = true } in
    let s : scan_kids nproc 0 cur false held ≡ kids false = scan_kids_none nproc 0 cur held h in
    rw (free, s) refl
