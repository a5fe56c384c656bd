-- ===== src/Log/Reserve.antt =====
-- The entries of a transaction: log_write keeps them distinct, and begin_op sees to it that they fit.
use kernel_tracing.Prelude.{
  ℕ, zero, suc, ◌+◌, ◌-◌, ◌≤◌, ◌<◌, ◌≡◌, refl, ◌≢◌, ◌⊎◌, inl, inr, true, false, arith, ltb, leb,
  ◌==◌, if◌then◌else◌, ==_iff, Bool-cases, update, ok,
}
use native.Mathlib.Decide.{dec_lt}
use kernel_tracing.Log.{Log, logsize, find_block, log_write}

-- Where find_block ends: no entry before it is b, and it is b's entry unless it is the end.
record Found (left i : ℕ) (block : ℕ → ℕ) (b : ℕ) (at : ℕ) : Type 0 where
  from_start : i ≤ at
  to_end : at ≤ i + left
  fresh : (k : ℕ) → i ≤ k → k < at → block k ≢ b
  entry : at < i + left → block at ≡ b

find_block-Found :
    (left i : ℕ) (block : ℕ → ℕ) (b : ℕ) → Found left i block b (find_block left i block b)
unfolding find_block
find_block-Found zero i block b = record {
  from_start = omega arith;
  to_end = omega arith;
  fresh = λ k h g. ground arith;
  entry = λ h. ground arith;
}
find_block-Found (suc left) i block b =
    let rest = find_block-Found left (i + 1) block b in
    elim (Bool-cases (block i == b)) [
      | inl e ↦ rw (e) (record {
        from_start = omega arith;
        to_end = omega arith;
        fresh = λ k h g. ground arith;
        entry = λ h. (==_iff _ _).0 e;
      })
      | inr e ↦ rw (e) (record {
        from_start = let h = rest.from_start in omega arith;
        to_end = let h = rest.to_end in omega arith;
        fresh = λ k h g. elim (dec_lt i k) [
          | yes lt ↦ rest.fresh k (omega arith) g
          | no ge ↦ λ q. let same : k ≡ i = omega arith in ground (arith, e, q, same)
        ];
        entry = λ h. rest.entry (omega arith);
      })
    ]

abbrev pub Distinct : Log → Type 0
Distinct l = (i j : ℕ) → i < j → j < l.n → l.block i ≢ l.block j

-- What a successful log_write of b makes of the log.
pub record Absorbed (b : ℕ) (l l' : Log) : Type 0 where
  pub distinct : Distinct l'
  pub kept : (i : ℕ) → i < l.n → l'.block i ≡ l.block i
  pub present : (i : ℕ) × ((i < l'.n) × (l'.block i ≡ b))
  pub grown : l'.n ≡ l.n ⊎ ((l'.n ≡ l.n + 1) × ((i : ℕ) → i < l.n → l.block i ≢ b))
  pub same :
      (l'.outstanding ≡ l.outstanding)
      × (l'.size ≡ l.size)
      × (l'.lock ≡ false)
      × (l'.committing ≡ l.committing)

written : ℕ → Log → Log
written b l =
    let i = find_block l.n 0 l.block b in
    record l { lock = false; block = update l.block i b; n = if i == l.n then l.n + 1 else l.n }

log_write-written :
    (b : ℕ) (l : Log)
    → l.lock ≡ false
    → l.n < logsize
    → l.n + 1 < l.size
    → 0 < l.outstanding
    → log_write b l ≡ ok (written b l)
unfolding log_write written
log_write-written b l free room space busy =
    let a : leb logsize l.n ≡ false = ground arith in
    let c : leb (l.size - 1) l.n ≡ false = ground arith in
    let d : ltb l.outstanding 1 ≡ false = ground arith in rw (a, c, d, free) refl

written-Absorbed : (b : ℕ) (l : Log) → Distinct l → Absorbed b l (written b l)
unfolding written
written-Absorbed b l apart =
    let f = find_block-Found l.n 0 l.block b in
    let at : ℕ = find_block l.n 0 l.block b in
    let reach = f.to_end in
    let end : at ≤ l.n = omega arith in
    elim (dec_lt at l.n) [
      | yes lt ↦
          let e : (at == l.n) ≡ false = ground arith in
          let it : l.block at ≡ b = f.entry (omega arith) in
          rw (e) (record {
            distinct = λ i j h g. ground (arith, it, apart i j h g);
            kept = λ i h. ground (arith, it);
            present = (at, (lt, ground arith));
            grown = inl refl;
            same = (refl, refl, refl, refl);
          })
      | no ge ↦
          let last : at ≡ l.n = omega arith in
          let e : (at == l.n) ≡ true = ground arith in
          rw (e) (record {
            distinct = λ i j h g. elim (dec_lt j l.n) [
              | yes lt ↦ ground (arith, apart i j h lt, last)
              | no top ↦ ground (arith, last, f.fresh i)
            ];
            kept = λ i h. ground (arith, last);
            present = (at, (omega arith, ground arith));
            grown = inr (refl, λ i h. f.fresh i (omega arith) (omega arith));
            same = (refl, refl, refl, refl);
          })
    ]

-- Inside a transaction, with room in the log for one more block and all entries distinct:
-- log_write of block b returns, b is one of the entries, the entries that were there stay where
-- they were, all are distinct again, and n grows by one if b was no entry and stays if it was.
pub log_write-Absorbed :
    (b : ℕ) (l : Log)
    → l.lock ≡ false
    → l.n < logsize
    → l.n + 1 < l.size
    → 0 < l.outstanding
    → Distinct l
    → (l' : Log) × ((log_write b l ≡ ok l') × Absorbed b l l')
log_write-Absorbed b l free room space busy apart =
    (written b l, (log_write-written b l free room space busy, written-Absorbed b l apart))
