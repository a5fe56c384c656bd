-- ===== src/Syscall/Check.antt =====
-- What the checks of system call arguments guarantee.
use kernel_tracing.Prelude.{
  ℕ, ◌+◌, ◌*◌, ◌%◌, ◌^◌, ◌≤◌, ◌<◌, ◌≡◌, refl, sym, subst, ap, ◌∙◌, inl, inr, true, false, ◌||◌,
  Option, none, some, arith, ltb, leb, if◌then◌else◌, Bool-cases, Option-cases, ok,
}
use kernel_tracing.Prelude.Int.{ℤ, pos, negsuc, is_neg, is_pos, to_nat, to_int}
use kernel_tracing.Syscall.{
  Caller, pgsize, load, outside, fetchint, fetcharg, argint, argaddr, bad_block, argptr, event_size,
  returns, reads, checked_block, check_buffer, traceread_args,
}

-- A value of n bytes that lies in the process above its first page.
abbrev pub Inside : (n addr : ℕ) → Caller → Type 0
Inside n addr p = (pgsize ≤ addr) × (addr + n ≤ p.sz)

outside_lem :
    (n addr : ℕ) (p : Caller)
    → p.sz < 2 ^ 63
    → n < 2 ^ 63
    → outside n addr p ≡ false
    → Inside n addr p
unfolding outside
outside_lem n addr p small few h =
    let wrap : addr < p.sz → (addr + n) % 2 ^ 64 ≡ addr + n = λ lt. omega arith in
    ground (arith, wrap)

-- For a process size below 2 ^ 63: an int that fetchint returns is the one of the four bytes at
-- addr, all of them inside the process.
fetchint-Inside :
    (addr : ℕ) (p : Caller) (v : ℤ)
    → p.sz < 2 ^ 63
    → fetchint addr p ≡ some v
    → Inside 4 addr p × (v ≡ to_int (load 4 addr p.mem))
unfolding fetchint
fetchint-Inside addr p v small h = elim (Bool-cases (outside 4 addr p)) [
  | inl out ↦ absurd (ground (arith, out, h))
  | inr fine ↦
      let q : some (to_int (load 4 addr p.mem)) ≡ some v = rw (← h, fine) refl in
      (outside_lem 4 addr p small (omega arith) fine, cc)
]

-- For a process size up to 2 ^ 31, an argument below 2 ^ 32 and an int size: an address that argptr
-- hands out is the argument, and the block there of that size lies inside the process.
pub argptr-inside :
    (n i a : ℕ) (size : ℤ) (p : Caller)
    → p.sz ≤ 2 ^ 31
    → fetcharg n p ≡ ok i
    → i < 2 ^ 32
    → to_nat size < 2 ^ 31
    → argptr n size p ≡ ok (some a)
    → (a ≡ i) × (a < p.sz) × (a + to_nat size ≤ p.sz) × (is_neg size ≡ false)
unfolding argptr argaddr bad_block
argptr-inside n i a (negsuc k) p small at low few h =
    let q : ok none ≡ ok (some a) = rw (← h, at) refl in absurd (ground (arith, q))
argptr-inside n i a (pos k) p small at low few h =
    let word : i % 2 ^ 32 ≡ i = omega arith in
    elim (Bool-cases (bad_block i (pos k) p)) [
      | inl bad ↦
          let q : ok none ≡ ok (some a) = rw (← h, at, bad) refl in absurd (ground (arith, q))
      | inr fine ↦
          let q : ok (some i) ≡ ok (some a) = rw (← h, at, fine) refl in
          let e : i ≡ a = cc in
          let test : leb p.sz i || ltb p.sz ((i + k) % 2 ^ 32) ≡ false = rw (← word) fine in
          let sum : i < p.sz → (i + k) % 2 ^ 32 ≡ i + k = λ lt. omega arith in
          (sym e, ground (arith, e, test), ground (arith, e, test, sum), refl)
    ]

-- For a process size up to 2 ^ 31, a buffer address below 2 ^ 32 and a max_events whose buffer has
-- a size below 2 ^ 31: where sys_traceread goes on to traceread, the whole buffer of max_events
-- events lies inside the process.
pub traceread_args-inside :
    (p : Caller) (event : ℕ) (max_events : ℤ)
    → p.sz ≤ 2 ^ 31
    → p.rdi < 2 ^ 32
    → to_nat max_events * event_size < 2 ^ 31
    → traceread_args p ≡ ok (reads event max_events)
    → (event ≡ p.rdi) × (event + to_nat max_events * event_size ≤ p.sz)
unfolding traceread_args check_buffer argint fetcharg argptr argaddr
traceread_args-inside p event max_events small low few h =
    let asked : ℤ = to_int (p.rsi % 2 ^ 32) in
    let size : ℤ = to_int (to_nat asked * event_size % 2 ^ 32) in
    let block : Option ℕ = if bad_block p.rdi size p then none else some p.rdi in
    elim (Bool-cases (is_pos asked)) [
      | inl more ↦
          let q : ok (checked_block asked block) ≡ ok (reads event max_events) =
            rw (← h, more) refl in
          elim (Option-cases block) [
            | inl e ↦
                let q' : ok (checked_block asked none) ≡ ok (reads event max_events) =
                  subst (λ o. ok (checked_block asked o) ≡ ok (reads event max_events)) e q in
                absurd (ground (arith, q'))
            | inr there ↦
                let a : ℕ = there.0 in
                let q' : ok (checked_block asked (some a)) ≡ ok (reads event max_events) =
                  subst (λ o. ok (checked_block asked o) ≡ ok (reads event max_events)) (there.1)
                    q in
                let same : a ≡ event = cc in
                let all : asked ≡ max_events = cc in
                let few' : to_nat asked * event_size < 2 ^ 31 =
                  subst (λ k. to_nat k * event_size < 2 ^ 31) (sym all) few in
                let keep : to_nat asked * event_size % 2 ^ 32 ≡ to_nat asked * event_size =
                  omega arith in
                let short : ltb (to_nat asked * event_size) (2 ^ 31) ≡ true = ground arith in
                let bytes : to_nat size ≡ to_nat asked * event_size = rw (keep, short) refl in
                let r =
                  argptr-inside 0 p.rdi a size p small refl low
                    (subst (λ k. k < 2 ^ 31) (sym bytes) few') (ap ok (there.1)) in
                let fits : a + to_nat asked * event_size ≤ p.sz =
                  subst (λ k. a + k ≤ p.sz) bytes (r.2) in
                (
                  sym same ∙ r.0,
                  subst (λ k. k + to_nat max_events * event_size ≤ p.sz) same
                      (subst (λ k. a + to_nat k * event_size ≤ p.sz) all fits),
                )
          ]
      | inr none_left ↦
          let q : ok (returns (pos 0)) ≡ ok (reads event max_events) = rw (← h, none_left) refl in
          absurd (ground (arith, q))
    ]
