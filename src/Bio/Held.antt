-- ===== src/Bio/Held.antt =====
-- bio.c: bwrite and brelse of a buffer whose lock is held.
use kernel_tracing.Prelude.{
  ℕ, ◌<◌, String, ◌≡◌, refl, sym, subst, ap, ◌∙◌, true, false, arith, ==_iff, Outcome, ok, ◌>>=◌,
}
use kernel_tracing.Spin.{acquire, release}
use kernel_tracing.SleepLock.{SleepLock, releasesleep, holdingsleep}
use kernel_tracing.Bio.{
  Buf, Cache, set_buf, move_data, check_request, check_held, iderw, bwrite, brelse, drop_buf,
}
use kernel_tracing.Bio.View.{has, IsCoherent, IsFlushed}
use kernel_tracing.Bio.Transfer.{set_lock}
use kernel_tracing.Bio.Write.{IsWritten, bwrite-IsWritten}
use kernel_tracing.Bio.Release.{IsReleased, brelse-IsReleased}
use kernel_tracing.Bio.Returns.{set_buf-fields}

-- Both locks of the buffer as its holder leaves them.
abbrev pub IsHeld : Cache → ℕ → Type 0
IsHeld c i = ((c.buf i).lock.lk ≡ false) × ((c.buf i).lock.locked ≡ true)

still_held :
    (message : String) (i : ℕ) (c : Cache)
    → IsHeld c i
    → (l : SleepLock) × (check_held message i c ≡ ok (set_lock i l c))
      × (l.lk ≡ false)
      × (l.locked ≡ true)
unfolding check_held holdingsleep
still_held message i c (h, g) = rw (h, g) (_, refl, refl, refl)

dirty_request :
    (i : ℕ) (c : Cache)
    → (c.buf i).dirty ≡ true
    → (c.buf i).dev ≡ 1
    → (c.buf i).blockno < c.disksize
    → check_request i c ≡ ok (move_data i c)
unfolding check_request
dirty_request i c v d s = ground (arith, v, d, s)

at_self : (i : ℕ) (b : Buf) (c : Cache) → (set_buf i b c).buf i ≡ b
at_self i b c = rw ((==_iff i i).1 refl) refl

-- bwrite marks the buffer, and its data then go to the disk.
bwrite-returns :
    (i : ℕ) (c : Cache)
    → IsHeld c i
    → (c.buf i).dev ≡ 1
    → (c.buf i).blockno < c.disksize
    → (c' : Cache) × (bwrite i c ≡ ok c')
unfolding bwrite iderw
bwrite-returns i c h d s =
    let (l, q, lk, locked) = still_held "bwrite" i c h in
    let c1 : Cache = set_lock i l c in
    let o = set_buf-fields i l c in
    let b : Buf = record (c1.buf i) { dirty = true } in
    let c2 : Cache = set_buf i b c1 in
    let e = at_self i b c1 in
    let (l', q', _, _) = still_held "iderw: buf not locked" i c2 (
      ap (λ x. x.lock.lk) e ∙ ap (λ x. x.lk) o.3 ∙ lk,
      ap (λ x. x.lock.locked) e ∙ ap (λ x. x.locked) o.3 ∙ locked,
    ) in
    let e' = at_self i (record (c2.buf i) { lock = l' }) c2 in
    (
      move_data i (set_lock i l' c2),
      rw (q, q')
          (dirty_request i (set_lock i l' c2) (ap (λ x. x.dirty) e' ∙ ap (λ x. x.dirty) e)
            (ap (λ x. x.dev) e' ∙ ap (λ x. x.dev) e ∙ o.1 ∙ d)
            (subst (λ n. n < c.disksize)
              (sym (ap (λ x. x.blockno) e' ∙ ap (λ x. x.blockno) e ∙ o.2)) s)),
    )

-- bwrite of a held buffer of a coherent cache, for a block on disk 1, returns, with the data of the
-- buffer on the disk in its block; the cache stays coherent, and shows these data for the block and
-- every other block as before.
pub bwrite-writes :
    (i : ℕ) (c : Cache)
    → IsCoherent c
    → has i c.order ≡ true
    → IsHeld c i
    → (c.buf i).dev ≡ 1
    → (c.buf i).blockno < c.disksize
    → (c' : Cache) × (bwrite i c ≡ ok c') × IsWritten i c c'
bwrite-writes i c k m h d s =
    let (c', q) = bwrite-returns i c h d s in (c', q, bwrite-IsWritten i c c' k m q)

releasesleep-returns : (l : SleepLock) → l.lk ≡ false → (l' : SleepLock) × (releasesleep l ≡ ok l')
unfolding releasesleep
releasesleep-returns l h = rw (h) (_, refl)

drop_buf-lock : (i : ℕ) (c : Cache) → (drop_buf i c).lock ≡ c.lock
unfolding drop_buf
drop_buf-lock i c = ground arith

-- The critical section at the end of brelse.
abbrev put_back : ℕ → Cache → Outcome Cache
put_back i c = do
  held ← acquire c.lock
  let c' = drop_buf i (record c { lock = held })
  free ← release c'.lock
  ok (record c' { lock = free })

put_back-returns : (i : ℕ) (c : Cache) → c.lock ≡ false → (c' : Cache) × (put_back i c ≡ ok c')
put_back-returns i c h =
    let c1 : Cache = drop_buf i (record c { lock = true }) in
    (
      record c1 { lock = false },
      rw (h) (
          ap (λ x. release x >>= λ y. ok (record c1 { lock = y }))
            (drop_buf-lock i (record c { lock = true }))),
    )

brelse_eq :
    (i : ℕ) (c : Cache) (l l' : SleepLock)
    → check_held "brelse" i c ≡ ok (set_lock i l c)
    → releasesleep ((set_lock i l c).buf i).lock ≡ ok l'
    → brelse i c ≡ put_back i (set_lock i l' (set_lock i l c))
unfolding brelse
brelse_eq i c l l' q r = rw (q, r) refl

brelse-returns :
    (i : ℕ) (c : Cache) → c.lock ≡ false → IsHeld c i → (c' : Cache) × (brelse i c ≡ ok c')
brelse-returns i c free h =
    let (l, q, lk, locked) = still_held "brelse" i c h in
    let (l', r) =
      releasesleep-returns ((set_lock i l c).buf i).lock
        (ap (λ x. x.lk) (set_buf-fields i l c).3 ∙ lk) in
    let (c', u) = put_back-returns i (set_lock i l' (set_lock i l c)) free in
    (c', brelse_eq i c l l' q r ∙ u)

-- brelse of a held buffer of a coherent cache whose lock is free, with data that are on the disk or
-- marked dirty, returns: with one reference less, the buffer in front of the list where that was
-- the last one, and no data lost, since the cache stays coherent and shows of every block what it
-- showed before.
brelse-releases :
    (i : ℕ) (c : Cache)
    → IsCoherent c
    → has i c.order ≡ true
    → c.lock ≡ false
    → IsHeld c i
    → IsFlushed c i
    → (c' : Cache) × (brelse i c ≡ ok c') × IsReleased i c c'
brelse-releases i c k m free h f =
    let (c', q) = brelse-returns i c free h in (c', q, brelse-IsReleased i c c' k m f q)
