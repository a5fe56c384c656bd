-- ===== src/Kalloc/Boot.antt =====
-- The free list that kinit1 builds: the whole pages of the range, the last one in front.
use kernel_tracing.Prelude.{
  ℕ, zero, suc, ◌+◌, ◌-◌, ◌*◌, ◌/◌, ◌%◌, ◌^◌, ◌≤◌, ◌<◌, ◌≡◌, refl, sym, subst, ◌≢◌, true, false,
  List, [], ◌∷◌, arith, leb, update, ok,
}
use kernel_tracing.Kalloc.{
  Memory, Context, pgsize, phystop, kernbase, junk, bad_page, lock_memory, unlock_memory, report,
  free_page, kfree, pgroundup, free_loop, freerange, kinit1,
}
use kernel_tracing.Kalloc.Pages.{Chain, Without, Chain-update}

-- The n pages from p on, pushed one after the other.
abbrev pub onto : (n p : ℕ) → List ℕ → List ℕ
onto zero p pages = pages
onto (suc n) p pages = onto n (p + pgsize) (p ∷ pages)

-- The state after kfree while locks are not in use.
abbrev freed : ℕ → Memory → Memory
freed v m = record m { next = update (update m.next v junk) v m.freelist; freelist = v }

kfree-freed :
    (v : ℕ) (c : Context) (m : Memory)
    → bad_page v c ≡ false
    → m.use_lock ≡ false
    → kfree v c m ≡ ok (freed v m)
unfolding kfree free_page lock_memory unlock_memory report
kfree-freed v c m fine early = rw (fine, early) refl

abbrev Below : ℕ → List ℕ → Type 0
Below v [] = v ≡ v
Below v (p ∷ rest) = (p < v) × Below v rest

Below-Without : (v : ℕ) (pages : List ℕ) → Below v pages → Without v pages
Below-Without v [] b = refl
Below-Without v (p ∷ rest) b = let lt = b.0 in (omega arith, Below-Without v rest b.1)

Below-next : (v : ℕ) (pages : List ℕ) → Below v pages → Below (v + pgsize) pages
Below-next v [] b = refl
Below-next v (p ∷ rest) b = let lt = b.0 in (omega arith, Below-next v rest b.1)

freed-Chain :
    (v : ℕ) (m : Memory) (pages : List ℕ)
    → v ≢ 0
    → Below v pages
    → Chain m.next m.freelist pages
    → Chain (freed v m).next v (v ∷ pages)
freed-Chain v m pages real low chain =
    let fresh = Below-Without v pages low in
    let head : (freed v m).next v ≡ m.freelist = ground arith in
    let left : Chain (freed v m).next m.freelist pages =
      Chain-update (update m.next v junk) v m.freelist m.freelist pages fresh
        (Chain-update m.next v junk m.freelist pages fresh chain) in
    (refl, real, subst (λ h. Chain (freed v m).next h pages) (sym head) left)

-- A page between the kernel's end and PHYSTOP passes kfree's check.
good_page :
    (v : ℕ) (c : Context)
    → v % pgsize ≡ 0
    → c.kernel_end ≤ v
    → kernbase ≤ v
    → v < kernbase + phystop
    → bad_page v c ≡ false
unfolding bad_page
good_page v c whole above high low =
    let a : (v + 2 ^ 64 - kernbase) % 2 ^ 64 < phystop = omega arith in ground arith

free_loop-Chain :
    (fuel n p vend : ℕ) (c : Context) (m : Memory) (pages : List ℕ)
    → n ≤ fuel
    → n * pgsize ≤ vend - p
    → vend < p + (n + 1) * pgsize
    → p % pgsize ≡ 0
    → c.kernel_end ≤ p
    → kernbase ≤ p
    → vend ≤ kernbase + phystop
    → m.use_lock ≡ false
    → Below p pages
    → Chain m.next m.freelist pages
    → (m' : Memory) × (free_loop fuel p vend c m ≡ ok m')
      × Chain m'.next m'.freelist (onto n p pages)
      × (m'.use_lock ≡ false)
unfolding free_loop
free_loop-Chain zero zero p vend c m pages enough lo hi whole above high low early b chain =
    (m, refl, chain, early)
free_loop-Chain zero (suc n) p vend c m pages enough lo hi whole above high low early b chain =
    absurd (omega arith)
free_loop-Chain (suc fuel) zero p vend c m pages enough lo hi whole above high low early b chain =
    let stop : leb (p + pgsize) vend ≡ false = ground arith in (m, rw (stop) refl, chain, early)
free_loop-Chain (suc fuel) (suc n) p vend c m pages enough lo hi whole above high low early b
      chain =
    let go : leb (p + pgsize) vend ≡ true = ground arith in
    let run = kfree-freed p c m (good_page p c whole above high (omega arith)) early in
    let rest =
      free_loop-Chain fuel n (p + pgsize) vend c (freed p m) (p ∷ pages) (omega arith) (omega arith)
        (omega arith) (omega arith) (omega arith) (omega arith) low early
        (omega arith, Below-next p pages b) (freed-Chain p m pages (omega arith) b chain) in
    (rest.0, rw (go, run) rest.1, rest.2, rest.3)

-- For a range from the kernel's end or above up to PHYSTOP at most: kinit1 returns, without a
-- panic, with the whole pages of the range on the free list, and locks not in use.
pub kinit1-Chain :
    (vstart vend : ℕ) (c : Context) (m : Memory)
    → c.kernel_end ≤ vstart
    → kernbase ≤ vstart
    → vstart ≤ vend
    → vend ≤ kernbase + phystop
    → (m' : Memory) × (kinit1 vstart vend c m ≡ ok m')
      × Chain m'.next m'.freelist (onto ((vend - pgroundup vstart) / pgsize) (pgroundup vstart) [])
      × (m'.use_lock ≡ false)
unfolding kinit1 freerange
kinit1-Chain vstart vend c m above high order low =
    let base : ℕ = pgroundup vstart in
    let n : ℕ = (vend - base) / pgsize in
    let up : vstart ≤ base = omega arith in
    free_loop-Chain (vend / pgsize) n base vend c
      (record m { lock = false; use_lock = false; freelist = 0 }) [] (omega arith) (omega arith)
      (omega arith) (omega arith) (omega arith) (omega arith) low refl refl refl
