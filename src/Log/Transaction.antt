-- ===== src/Log/Transaction.antt =====
-- Operations that begin, write blocks and end: in every state that is reached this way the log has
-- the room that the running operations were promised.
use kernel_tracing.Prelude.{
  ℕ, suc, ◌+◌, ◌-◌, ◌*◌, ◌≤◌, ◌<◌, ◌≡◌, refl, sym, subst, ap, ◌∙◌, ◌⊎◌, inl, inr, true, false,
  arith, ltb, ◌==◌, lt→ltb, Bool-cases, ok,
}
use kernel_tracing.Prelude.{ok_injective}
use native.Mathlib.Decide.{dec_lt}
use kernel_tracing.Log.{
  Block, Log, Machine, logsize, max_op_blocks, write_head, install_trans, write_log, commit, begun,
  asleep, begin_op, commit_op, leave_op, finish_op, end_op, log_write,
}
use kernel_tracing.Log.Copies.{bwrite-log, copies-log, install_loop-copies, write_loop-copies}
use kernel_tracing.Log.Reserve.{Distinct, Absorbed, log_write-Absorbed}

install_trans-log : (m : Machine) → (install_trans m).log ≡ m.log
unfolding install_trans
install_trans-log m =
    ap (λ k. k.log) (install_loop-copies m.log.n 0 m m.log refl) ∙ copies-log _ _ m.log.n 0 m

write_log-log : (m : Machine) → (write_log m).log ≡ m.log
unfolding write_log
write_log-log m =
    ap (λ k. k.log) (write_loop-copies m.log.n 0 m m.log refl) ∙ copies-log _ _ m.log.n 0 m

write_head-log : (m : Machine) → (write_head m).log ≡ m.log
unfolding write_head
write_head-log m = bwrite-log _ _

abbrev cleared : Log → Log
cleared l = record l { n = 0 }

-- A commit empties the log.
commit-log : (m : Machine) → (commit m).log ≡ cleared m.log
unfolding commit
commit-log m =
    let headed = write_head (write_log m) in
    let into : (install_trans headed).log ≡ m.log =
      install_trans-log headed ∙ write_head-log (write_log m) ∙ write_log-log m in
    elim (dec_lt 0 m.log.n) [
      | yes busy ↦ rw (lt→ltb 0 m.log.n busy) (write_head-log _ ∙ ap cleared into)
      | no idle ↦
          let e : m.log.n ≡ 0 = omega arith in
          let t : ltb 0 m.log.n ≡ false = ground arith in rw (t) (λ i. record (m.log) { n = e i })
    ]

-- The states of the log between the operations' calls. `left` is the number of calls of log_write
-- that the running operations may still make, each at most max_op_blocks in all.
pub data Reaches : Machine → ℕ → Type 0 where
  boots :
      (m : Machine)
      → logsize < m.log.size
      → m.log.lock ≡ false
      → m.log.committing ≡ false
      → m.log.outstanding ≡ 0
      → m.log.n ≡ 0
      → Reaches m 0
  begins :
      (m : Machine) (left : ℕ) (l : Log)
      → Reaches m left
      → begin_op m.log ≡ ok (begun l)
      → Reaches (record m { log = l }) (left + max_op_blocks)
  writes :
      (m : Machine) (left b : ℕ) (l : Log) (mem : ℕ → Block)
      → Reaches m (suc left)
      → log_write b m.log ≡ ok l
      → Reaches (record m { log = l; mem = mem }) left
  leaves :
      (m m' : Machine) (left rest : ℕ)
      → Reaches m left
      → end_op m ≡ ok m'
      → rest ≤ left
      → rest ≤ m'.log.outstanding * max_op_blocks
      → Reaches m' rest

pub record Promised (m : Machine) (left : ℕ) : Type 0 where
  pub unlocked : m.log.lock ≡ false
  pub between : m.log.committing ≡ false
  pub fits : m.log.n + left ≤ logsize
  pub shares : left ≤ m.log.outstanding * max_op_blocks
  pub apart : Distinct m.log
  pub space : logsize < m.log.size

abbrev more : Log → Log
more l = record l { outstanding = l.outstanding + 1; lock = false }

begin_op-more :
    (l l' : Log)
    → l.lock ≡ false
    → l.committing ≡ false
    → begin_op l ≡ ok (begun l')
    → (more l ≡ l') × (l.n + (l.outstanding + 1) * max_op_blocks ≤ logsize)
unfolding begin_op
begin_op-more l l' free open_ h =
    elim (Bool-cases (ltb logsize (l.n + (l.outstanding + 1) * max_op_blocks))) [
      | inl full ↦
          let q : ok (asleep (record l { lock = false })) ≡ ok (begun l') =
            rw (← h, free, open_, full) refl in
          absurd (ground (arith, q))
      | inr room ↦
          let q : ok (begun (more l)) ≡ ok (begun l') = rw (← h, free, open_, room) refl in
          (cc, ground arith)
    ]

abbrev ended : Log → Log
ended l = record l { outstanding = l.outstanding - 1; lock = false }

abbrev emptied : Log → Log
emptied l = record (ended l) { n = 0; committing = false }

commit_op-log :
    (k m' : Machine)
    → k.log.lock ≡ true
    → commit_op k ≡ ok m'
    → m'.log ≡ record (cleared k.log) { committing = false; lock = false }
unfolding commit_op
commit_op-log k m' held h =
    let k' : Machine = record k { log = record (k.log) { committing = true; lock = false } } in
    let done : Machine = commit k' in
    let end : Machine = record done {
      log = record (done.log) { committing = false; lock = false };
    } in
    let e : done.log ≡ cleared k'.log = commit-log k' in
    let open_ : done.log.lock ≡ false = ap (λ l. l.lock) e in
    let q : commit_op k ≡ ok end = rw (held, open_) refl in
    let r : m' ≡ end = ok_injective (sym h ∙ q) in
    let close : Log → Log = λ l. record l { committing = false; lock = false } in
    ap (λ k. k.log) r ∙ ap close e

end_op-log :
    (m m' : Machine)
    → m.log.lock ≡ false
    → m.log.committing ≡ false
    → end_op m ≡ ok m'
    → (m'.log ≡ emptied m.log) ⊎ (m'.log ≡ ended m.log)
unfolding end_op finish_op leave_op
end_op-log m m' free open_ h =
    let k : Machine = record m {
      log = record (m.log) { outstanding = m.log.outstanding - 1; lock = true };
    } in
    elim (Bool-cases ((m.log.outstanding - 1) == 0)) [
      | inl last ↦
          let q : commit_op k ≡ ok m' = rw (← h, free, open_, last) refl in
          inl (commit_op-log k m' refl q)
      | inr others ↦
          let q : ok (record m { log = ended m.log }) ≡ ok m' =
            rw (← h, free, open_, others) refl in
          inr (ap (λ k. k.log) (sym (ok_injective q)))
    ]

pub Reaches-Promised : (m : Machine) (left : ℕ) → Reaches m left → Promised m left
Reaches-Promised m left (boots _ space free open_ none_left e) = record {
  unlocked = free;
  between = open_;
  fits = omega arith;
  shares = omega arith;
  apart = λ i j h g. ground arith;
  space = space;
}
Reaches-Promised m left (begins k was l r h) =
    let p = Reaches-Promised k was r in
    let q = begin_op-more k.log l p.unlocked p.between h in
    let Holds : Log → Type 0 = λ l. Promised (record k { log = l }) left in
    let fits = p.fits in
    let shares = p.shares in
    subst Holds (q.0) (record {
      unlocked = refl;
      between = p.between;
      fits = let room = q.1 in omega arith;
      shares = omega arith;
      apart = p.apart;
      space = p.space;
    })
Reaches-Promised m left (writes k _ b l mem r h) =
    let p = Reaches-Promised k (suc left) r in
    let fits = p.fits in
    let shares = p.shares in
    let space = p.space in
    let w =
      log_write-Absorbed b k.log p.unlocked (omega arith) (omega arith) (omega arith) p.apart in
    let q : w.0 ≡ l = ok_injective (sym (w.1.0) ∙ h) in
    let a = w.1.1 in
    subst (λ l. Promised (record k { log = l; mem = mem }) left) q
      (record {
        unlocked = a.same.2;
        between = a.same.3 ∙ p.between;
        fits = elim a.grown [ inl e ↦ omega arith | inr e ↦ let e' = e.0 in omega arith ];
        shares = let e = a.same.0 in omega arith;
        apart = a.distinct;
        space = let e = a.same.1 in omega arith;
      })
Reaches-Promised m left (leaves k _ was rest r h le share) =
    let p = Reaches-Promised k was r in
    let fits = p.fits in
    elim (end_op-log k m p.unlocked p.between h) [
      | inl e ↦ record {
        unlocked = ap (λ l. l.lock) e;
        between = ap (λ l. l.committing) e;
        fits = let n = ap (λ l. l.n) e in let out = ap (λ l. l.outstanding) e in omega arith;
        shares = share;
        apart = let n : m.log.n ≡ 0 = ap (λ l. l.n) e in λ i j h g. ground arith;
        space = subst (λ k. logsize < k) (sym (ap (λ l. l.size) e)) p.space;
      }
      | inr e ↦ record {
        unlocked = ap (λ l. l.lock) e;
        between = ap (λ l. l.committing) e ∙ p.between;
        fits = let n : m.log.n ≡ k.log.n = ap (λ l. l.n) e in omega arith;
        shares = share;
        apart = subst Distinct (sym e) p.apart;
        space = subst (λ k. logsize < k) (sym (ap (λ l. l.size) e)) p.space;
      }
    ]

-- In every state that begin_op, log_write and end_op lead to from an empty log of more than
-- logsize blocks: if the running operations have calls of log_write left of the max_op_blocks each,
-- then log_write of any block returns, with that block an entry and the entries distinct.
pub log_write-promised :
    (m : Machine) (left b : ℕ)
    → Reaches m (suc left)
    → (l : Log) × ((log_write b m.log ≡ ok l) × Absorbed b m.log l)
log_write-promised m left b r =
    let p = Reaches-Promised m (suc left) r in
    let fits = p.fits in
    let shares = p.shares in
    let space = p.space in
    log_write-Absorbed b m.log p.unlocked (omega arith) (omega arith) (omega arith) p.apart
