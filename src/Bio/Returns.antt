-- ===== src/Bio/Returns.antt =====
-- bio.c: where bread returns.
use kernel_tracing.Prelude.{
  ℕ, ◌<◌, String, ◌≡◌, refl, sym, subst, ap, ◌∙◌, ◌⊎◌, inl, inr, Bool, true, false, Option, none,
  some, arith, ◌==◌, ==_iff, Bool-cases, Option-cases, Outcome, ok, panic, chain_ok, ok_injective,
}
use mathlib.Core.List.{reverse}
use kernel_tracing.Spin.{acquire, release}
use kernel_tracing.SleepLock.{SleepLock, acquiresleep, holdingsleep}
use kernel_tracing.Bio.{
  Buf, Cache, holds, find_cached, find_clean, shared, recycled, set_buf, move_data, check_request,
  check_held, iderw, bread_locked, lock_buf, fill, bread, bget, choose, recycle, is_free,
}
use kernel_tracing.Bio.View.{has, IsCoherent}
use kernel_tracing.Bio.Get.{bget-Got, bget-panic}
use kernel_tracing.Bio.Transfer.{set_lock}
use kernel_tracing.Bio.Read.{IsRead, bread-IsRead}

Outcome-cases {ℓ} :
    {A : Type ℓ} (o : Outcome A) → ((a : A) × (o ≡ ok a)) ⊎ ((s : String) × (o ≡ panic s))
Outcome-cases (ok a) = inl (a, refl)
Outcome-cases (panic s) = inr (s, refl)

-- The locks and the size of the disk, which bget leaves alone.
record SameLocks (c c' : Cache) : Type 0 where
  locks : (j : ℕ) → (c'.buf j).lock ≡ (c.buf j).lock
  size : c'.disksize ≡ c.disksize

set_buf-SameLocks :
    (i : ℕ) (b : Buf) (c : Cache) → b.lock ≡ (c.buf i).lock → SameLocks c (set_buf i b c)
set_buf-SameLocks i b c e = record {
  locks = λ j. elim (Bool-cases (i == j)) [
    | inl f ↦ rw (f) (e ∙ ap (λ n. (c.buf n).lock) ((==_iff i j).0 f))
    | inr f ↦ rw (f) refl
  ];
  size = refl;
}

choose-SameLocks :
    (dev blockno i : ℕ) (o : Option ℕ) (c c' : Cache)
    → choose dev blockno o c ≡ ok (i, c')
    → SameLocks c c'
unfolding choose recycle
choose-SameLocks dev blockno i (some j) c c' h =
    let q : (j, set_buf j (shared (c.buf j)) c) ≡ (i, c') = ok_injective h in
    subst (λ p. SameLocks c p.1) q (set_buf-SameLocks j (shared (c.buf j)) c refl)
choose-SameLocks dev blockno i none c c' h =
    elim (Option-cases (find_clean (reverse c.order) c.buf)) [
      | inl f ↦ let h' = rw (f) at h in cc
      | inr (j, f) ↦
          let h' = rw (f) at h in
          let q : (j, set_buf j (recycled dev blockno (c.buf j)) c) ≡ (i, c') = ok_injective h' in
          subst (λ p. SameLocks c p.1) q
            (set_buf-SameLocks j (recycled dev blockno (c.buf j)) c refl)
    ]

bget-SameLocks :
    (dev blockno i : ℕ) (c c' : Cache) → bget dev blockno c ≡ ok (i, c') → SameLocks c c'
unfolding bget
bget-SameLocks dev blockno i c c' h =
    let (held, a, s) = chain_ok (acquire c.lock) _ h in
    let (r, b, t) =
      chain_ok
        (choose dev blockno (find_cached c.order dev blockno c.buf) (record c { lock = held })) _
        s in
    let (free, d, u) = chain_ok (release r.1.lock) _ t in
    let q : (r.0, record r.1 { lock = free }) ≡ (i, c') = ok_injective u in
    let k = choose-SameLocks dev blockno r.0 _ (record c { lock = held }) r.1 b in
    subst (λ p. SameLocks c p.1) q (record { locks = k.locks; size = k.size })

acquiresleep-returns :
    (pid : ℕ) (l : SleepLock)
    → l.lk ≡ false
    → (z : Bool × SleepLock) × (acquiresleep pid l ≡ ok z)
      × (z.1.lk ≡ false)
      × (z.0 ≡ true → z.1.locked ≡ true)
      × (z.0 ≡ false → l.locked ≡ true)
unfolding acquiresleep
acquiresleep-returns pid l h = elim (Bool-cases l.locked) [
  | inl e ↦ rw (h, e) ((false, _), refl, refl, λ x. cc, λ x. refl)
  | inr e ↦ rw (h, e) ((true, _), refl, refl, λ x. refl, λ x. cc)
]

pub set_buf-fields :
    (i : ℕ) (l : SleepLock) (c : Cache)
    → (((set_lock i l c).buf i).valid ≡ (c.buf i).valid)
      × (((set_lock i l c).buf i).dev ≡ (c.buf i).dev)
      × (((set_lock i l c).buf i).blockno ≡ (c.buf i).blockno)
      × (((set_lock i l c).buf i).lock ≡ l)
set_buf-fields i l c = rw ((==_iff i i).1 refl) (refl, refl, refl, refl)

pub check_held-returns :
    (message : String) (i : ℕ) (c : Cache)
    → (c.buf i).lock.lk ≡ false
    → (c.buf i).lock.locked ≡ true
    → (l : SleepLock) × (check_held message i c ≡ ok (set_lock i l c))
unfolding check_held holdingsleep
check_held-returns message i c h g = rw (h, g) (_, refl)

check_request-returns :
    (i : ℕ) (c : Cache)
    → (c.buf i).valid ≡ false
    → (c.buf i).dev ≡ 1
    → (c.buf i).blockno < c.disksize
    → check_request i c ≡ ok (move_data i c)
unfolding check_request
check_request-returns i c v d s = ground (arith, v, d, s)

bread_locked-returns :
    (i : ℕ) (c : Cache)
    → (c.buf i).lock.lk ≡ false
    → (c.buf i).lock.locked ≡ true
    → (c.buf i).dev ≡ 1
    → (c.buf i).blockno < c.disksize
    → (c' : Cache) × (bread_locked i c ≡ ok c')
unfolding bread_locked iderw
bread_locked-returns i c h g d s = elim (Bool-cases (c.buf i).valid) [
  | inl e ↦ rw (e) (c, refl)
  | inr e ↦
      let (l, q) = check_held-returns "iderw: buf not locked" i c h g in
      let o = set_buf-fields i l c in
      rw (e, q)
        (
          move_data i (set_lock i l c),
          check_request-returns i (set_lock i l c) (o.0 ∙ e) (o.1 ∙ d)
              (subst (λ n. n < c.disksize) (sym o.2) s),
        )
]

bread_step :
    (pid blockno j : ℕ) (c c1 : Cache) (z : Bool × SleepLock)
    → bget 1 blockno c ≡ ok (j, c1)
    → acquiresleep pid (c1.buf j).lock ≡ ok z
    → bread pid 1 blockno c ≡ fill z.0 j (set_lock j z.1 c1)
unfolding bread lock_buf
bread_step pid blockno j c c1 z e a = rw (e, a) refl

-- What bread comes to: the buffer with what the cache shows of the block, or a sleep.
abbrev pub ReadsOrSleeps : (pid blockno : ℕ) → Cache → Type 0
ReadsOrSleeps pid blockno c =
    ((i : ℕ) × (c' : Cache) × (bread pid 1 blockno c ≡ ok (some i, c')) × IsRead blockno i c c')
    ⊎ ((i : ℕ) × (c' : Cache) × (bread pid 1 blockno c ≡ ok (none, c'))
        × (holds 1 blockno (c'.buf i) ≡ true)
        × ((c.buf i).lock.locked ≡ true))

awake :
    (pid blockno j : ℕ) (c c1 : Cache) (l : SleepLock)
    → IsCoherent c
    → bread pid 1 blockno c ≡ fill true j (set_lock j l c1)
    → holds 1 blockno (c1.buf j) ≡ true
    → blockno < c1.disksize
    → l.lk ≡ false
    → l.locked ≡ true
    → ReadsOrSleeps pid blockno c
unfolding fill
awake pid blockno j c c1 l k step h size lk locked =
    let o = set_buf-fields j l c1 in
    let d : (c1.buf j).dev ≡ 1 = ground (arith, h) in
    let b : (c1.buf j).blockno ≡ blockno = ground (arith, h) in
    let (c2, q) =
      bread_locked-returns j (set_lock j l c1) (ap (λ x. x.lk) o.3 ∙ lk)
        (ap (λ x. x.locked) o.3 ∙ locked) (o.1 ∙ d)
        (subst (λ n. n < c1.disksize) (sym (o.2 ∙ b)) size) in
    let r : bread pid 1 blockno c ≡ ok (some j, c2) = step ∙ rw (q) refl in
    inl (j, c2, r, bread-IsRead pid blockno j c c2 k r)

asleep :
    (pid blockno j : ℕ) (c c1 : Cache) (l : SleepLock)
    → bread pid 1 blockno c ≡ fill false j (set_lock j l c1)
    → holds 1 blockno (c1.buf j) ≡ true
    → (c.buf j).lock.locked ≡ true
    → ReadsOrSleeps pid blockno c
unfolding fill
asleep pid blockno j c c1 l step h locked =
    let o = set_buf-fields j l c1 in inr (j, set_lock j l c1, step, rw (o.1, o.2) h, locked)

-- bread of a block of disk 1 returns, where the cache is coherent, no lock of it is held inside a
-- critical section and some buffer is free: with the data that the cache shows of the block, while
-- every block is shown as before; or it goes to sleep, with a buffer for the block whose sleep lock
-- is held already, by whichever process.
pub bread-ReadsOrSleeps :
    (pid blockno i : ℕ) (c : Cache)
    → IsCoherent c
    → c.lock ≡ false
    → ((j : ℕ) → (c.buf j).lock.lk ≡ false)
    → blockno < c.disksize
    → has i c.order ≡ true
    → is_free (c.buf i) ≡ true
    → ReadsOrSleeps pid blockno c
bread-ReadsOrSleeps pid blockno i c k free quiet size m f =
    elim (Outcome-cases (bget 1 blockno c)) [
      | inr (s, e) ↦ let w = (bget-panic 1 blockno i c free e m).1 in ground (arith, f, w)
      | inl ((j, c1), e) ↦
          let g = bget-Got 1 blockno j c c1 k e in
          let t = bget-SameLocks 1 blockno j c c1 e in
          let (z, a, lk, won, lost) =
            acquiresleep-returns pid (c1.buf j).lock (ap (λ x. x.lk) (t.locks j) ∙ quiet j) in
          let step = bread_step pid blockno j c c1 z e a in
          elim (Bool-cases z.0) [
            | inr p ↦
                asleep pid blockno j c c1 z.1 (step ∙ ap (λ x. fill x j (set_lock j z.1 c1)) p)
                  g.key (sym (ap (λ x. x.locked) (t.locks j)) ∙ lost p)
            | inl p ↦
                awake pid blockno j c c1 z.1 k (step ∙ ap (λ x. fill x j (set_lock j z.1 c1)) p)
                  g.key (subst (λ n. blockno < n) (sym t.size) size) lk (won p)
          ]
    ]
