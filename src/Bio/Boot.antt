-- ===== src/Bio/Boot.antt =====
-- bio.c: the cache that binit builds.
use kernel_tracing.Prelude.{
  ℕ, zero, suc, ◌+◌, ◌≡◌, refl, sym, ◌∙◌, inl, inr, true, false, ◌&&◌, ◌||◌, List, [], ◌∷◌, arith,
  ltb, leb, ◌==◌, Bool-cases,
}
use kernel_tracing.SleepLock.{SleepLock, initsleeplock}
use kernel_tracing.Bio.{Buf, Cache, nbuf, holds, set_buf, binit, binit_loop}
use kernel_tracing.Bio.View.{has, content, IsCoherent}
use kernel_tracing.Bio.Coherent.{content_uncached}

-- Memory as it is before binit: no buffer was ever used.
abbrev pub IsBlank : Cache → Type 0
IsBlank c = (i : ℕ) → ((c.buf i).dev ≡ 0) × ((c.buf i).valid ≡ false) × ((c.buf i).dirty ≡ false)

set_buf-IsBlank :
    (i : ℕ) (l : SleepLock) (o : List ℕ) (c : Cache)
    → IsBlank c
    → IsBlank (record (set_buf i (record (c.buf i) { lock = l }) c) { order = o })
set_buf-IsBlank i l o c z j = elim (Bool-cases (i == j)) [
  | inl e ↦ rw (e) (z i)
  | inr e ↦ rw (e) (z j)
]

binit_loop-IsBlank : (left b : ℕ) (c : Cache) → IsBlank c → IsBlank (binit_loop left b c)
unfolding binit_loop
binit_loop-IsBlank zero b c z = z
binit_loop-IsBlank (suc left) b c z =
    binit_loop-IsBlank left (b + 1) _ (set_buf-IsBlank b initsleeplock (b ∷ c.order) c z)

binit_loop-disk : (left b n : ℕ) (c : Cache) → (binit_loop left b c).disk n ≡ c.disk n
unfolding binit_loop
binit_loop-disk zero b n c = refl
binit_loop-disk (suc left) b n c = binit_loop-disk left (b + 1) n _

has-binit_loop :
    (left b j : ℕ) (c : Cache)
    → has j (binit_loop left b c).order ≡ ((leb b j && ltb j (b + left)) || has j c.order)
unfolding binit_loop has
has-binit_loop zero b j c = ground arith
has-binit_loop (suc left) b j c = has-binit_loop left (b + 1) j _ ∙ ground arith

holds-dev : (dev blockno : ℕ) (b : Buf) → holds dev blockno b ≡ true → b.dev ≡ dev
holds-dev dev blockno b h = ground (arith, h)

-- binit builds a coherent cache that shows what is on the disk.
pub binit-IsCoherent :
    (c : Cache) → IsBlank c → IsCoherent (binit c) × ((n : ℕ) → content (binit c) n ≡ c.disk n)
unfolding binit has
binit-IsCoherent c z =
    let c0 : Cache = record c { lock = false; order = [] } in
    let blank = binit_loop-IsBlank nbuf 0 c0 z in
    (
      record {
        whole = λ j. has-binit_loop nbuf 0 j c0 ∙ ground arith;
        unique = λ i j dev n mi mj nz hi hj.
            elim (nz (sym (holds-dev dev n ((binit_loop nbuf 0 c0).buf i) hi) ∙ (blank i).0)) [ ];
        filled = λ i h. let d = (blank i).2 in cc;
        flushed = λ i m r dev v. let d = (blank i).1 in cc;
      },
      λ n.
          content_uncached (binit_loop nbuf 0 c0) n
            (λ i m. let d = (blank i).0 in ground (arith, d))
          ∙ binit_loop-disk nbuf 0 n c0,
    )

set_buf-unlocked :
    (i j : ℕ) (o : List ℕ) (c : Cache)
    → (c.buf j).lock.lk ≡ false
    → ((record (set_buf i (record (c.buf i) { lock = initsleeplock }) c) { order = o }).buf
        j).lock.lk
      ≡ false
unfolding initsleeplock
set_buf-unlocked i j o c h = elim (Bool-cases (i == j)) [ inl e ↦ rw (e) refl | inr e ↦ rw (e) h ]

binit_loop-unlocked :
    (left b j : ℕ) (c : Cache)
    → (c.buf j).lock.lk ≡ false
    → ((binit_loop left b c).buf j).lock.lk ≡ false
unfolding binit_loop
binit_loop-unlocked zero b j c h = h
binit_loop-unlocked (suc left) b j c h =
    binit_loop-unlocked left (b + 1) j _ (set_buf-unlocked b j (b ∷ c.order) c h)

-- No buffer is inside the critical section of its lock after binit.
pub binit-unlocked :
    (j : ℕ) (c : Cache) → (c.buf j).lock.lk ≡ false → ((binit c).buf j).lock.lk ≡ false
unfolding binit
binit-unlocked j c h = binit_loop-unlocked nbuf 0 j (record c { lock = false; order = [] }) h
