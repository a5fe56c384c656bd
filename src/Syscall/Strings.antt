-- ===== src/Syscall/Strings.antt =====
-- fetchstr returns the strings that lie inside the process, and no others.
use kernel_tracing.Prelude.{
  ℕ, zero, suc, ◌+◌, ◌-◌, ◌%◌, ◌^◌, ◌≤◌, ◌<◌, ◌≡◌, refl, sym, subst, ap, ◌∙◌, ◌≢◌, ◌↔◌, inl, inr,
  true, false, ◌||◌, some, arith, ltb, leb, ◌==◌, Bool-cases, Option-cases,
}
use native.Mathlib.Decide.{dec_lt}
use kernel_tracing.Prelude.Int.{ℤ, pos, to_int}
use kernel_tracing.Syscall.{Caller, pgsize, scan, found, fetchstr}

-- The string that starts at addr: it has k bytes that are not NUL, then a NUL, all before `end`.
pub record IsString (mem : ℕ → ℕ) (addr end k : ℕ) : Type 0 where
  pub within : addr + k < end
  pub terminated : mem (addr + k) ≡ 0
  pub solid : (j : ℕ) → addr ≤ j → j < addr + k → mem j ≢ 0

scan_sound :
    (left s : ℕ) (mem : ℕ → ℕ) (r : ℕ)
    → scan left s mem ≡ some r
    → (s ≤ r) × (r < s + left) × (mem r ≡ 0) × ((j : ℕ) → s ≤ j → j < r → mem j ≢ 0)
unfolding scan
scan_sound zero s mem r h = absurd (ground (arith, h))
scan_sound (suc left) s mem r h = elim (Bool-cases (mem s == 0)) [
  | inl z ↦
      let q : some s ≡ some r = rw (← h, z) refl in
      let e : s ≡ r = cc in
      (omega arith, omega arith, ground (arith, z, e), λ j a b. ground (arith, e))
  | inr nz ↦
      let q : scan left (s + 1) mem ≡ some r = rw (← h, nz) refl in
      let t = scan_sound left (s + 1) mem r q in
      let a = t.0 in
      let b = t.1 in
      (
        omega arith,
        omega arith,
        t.2,
        λ j lo hi. elim (dec_lt s j) [
          | yes lt ↦ t.3 j (omega arith) hi
          | no ge ↦ let e : j ≡ s = omega arith in ground (arith, nz, e)
        ],
      )
]

scan_complete :
    (left s : ℕ) (mem : ℕ → ℕ) (k : ℕ)
    → IsString mem s (s + left) k
    → scan left s mem ≡ some (s + k)
unfolding scan
scan_complete zero s mem k t = let h = t.within in absurd (omega arith)
scan_complete (suc left) s mem zero t =
    let e : s + 0 ≡ s = omega arith in
    let z : mem s ≡ 0 = ap mem (sym e) ∙ t.terminated in ground (arith, z, e)
scan_complete (suc left) s mem (suc k) t =
    let h = t.within in
    let nz : mem s ≢ 0 = t.solid s (omega arith) (omega arith) in
    let test : (mem s == 0) ≡ false = ground arith in
    let shift : (s + 1) + k ≡ s + suc k = omega arith in
    rw (test) (
      scan_complete left (s + 1) mem k (record {
        within = omega arith;
        terminated = ap mem shift ∙ t.terminated;
        solid = λ j a b. t.solid j (omega arith) (omega arith);
      })
      ∙ ap some shift)

fetchstr_complete :
    (addr k : ℕ) (p : Caller)
    → p.sz < 2 ^ 31
    → pgsize ≤ addr
    → IsString p.mem addr p.sz k
    → fetchstr addr p ≡ some (addr, pos k)
unfolding fetchstr found
fetchstr_complete addr k p small low t =
    let lt = t.within in
    let room : addr + (p.sz - addr) ≡ p.sz = omega arith in
    let e =
      scan_complete (p.sz - addr) addr p.mem k
        (subst (λ z. IsString p.mem addr z k) (sym room) t) in
    let fine : ltb addr pgsize || leb p.sz addr ≡ false = ground arith in
    let len : (addr + k - addr) % 2 ^ 32 ≡ k = omega arith in
    let short : ltb k (2 ^ 31) ≡ true = ground arith in rw (fine, e, len, short) refl

-- What the string at addr makes fetchstr return.
abbrev pub Fetches : (addr : ℕ) → Caller → ℕ × ℤ → Type 0
Fetches addr p r = (k : ℕ) × (r ≡ (addr, pos k)) × (pgsize ≤ addr) × IsString p.mem addr p.sz k

fetchstr_sound :
    (addr : ℕ) (p : Caller) (r : ℕ × ℤ)
    → p.sz < 2 ^ 31
    → fetchstr addr p ≡ some r
    → Fetches addr p r
unfolding fetchstr found
fetchstr_sound addr p r small h = elim (Bool-cases (ltb addr pgsize || leb p.sz addr)) [
  | inl out ↦ absurd (ground (arith, out, h))
  | inr fine ↦ elim (Option-cases (scan (p.sz - addr) addr p.mem)) [
    | inl e ↦ absurd (ground (arith, fine, e, h))
    | inr there ↦
        let s : ℕ = there.0 in
        let t = scan_sound _ _ _ s (there.1) in
        let v : ℕ × ℤ = (addr, to_int ((s - addr) % 2 ^ 32)) in
        let e : scan (p.sz - addr) addr p.mem ≡ some s = there.1 in
        let q : some v ≡ some r = rw (← h, fine, e) refl in
        let is_v : v ≡ r = cc in
        let a = t.0 in
        let b = t.1 in
        let low : pgsize ≤ addr = ground (arith, fine) in
        let keep : (s - addr) % 2 ^ 32 ≡ s - addr = omega arith in
        let short : ltb (s - addr) (2 ^ 31) ≡ true = ground arith in
        let len : to_int ((s - addr) % 2 ^ 32) ≡ pos (s - addr) = rw (keep, short) refl in
        let at : addr + (s - addr) ≡ s = omega arith in
        (
          s - addr,
          sym is_v ∙ ap (λ x. (addr, x)) len,
          low,
          record {
            within = omega arith;
            terminated = ap p.mem at ∙ t.2;
            solid = λ j lo hi. t.3 j lo (omega arith);
          },
        )
  ]
]

-- For a process size below 2 ^ 31: fetchstr returns an address and a length, and not -1, just when
-- the address is the one given and past the first page, and the bytes from there to the first NUL
-- lie inside the process, the length being their number.
pub fetchstr-IsString :
    (addr : ℕ) (p : Caller) (r : ℕ × ℤ)
    → p.sz < 2 ^ 31
    → (fetchstr addr p ≡ some r) ↔ Fetches addr p r
fetchstr-IsString addr p r small = (
  fetchstr_sound addr p r small,
  λ t. fetchstr_complete addr t.0 p small t.2 t.3 ∙ ap some (sym t.1),
)
