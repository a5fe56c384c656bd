-- ===== src/Fs/Allocation.antt =====
-- fs.c: balloc and bfree against the set of blocks in use.
use kernel_tracing.Prelude.{
  ℕ, ◌%◌, ◌≤◌, ◌<◌, ◌≡◌, refl, sym, subst, ap, ◌∙◌, ◌⊎◌, inl, inr, true, false, ◌&&◌, ◌||◌, not,
  arith, ◌==◌, ==_iff, Bool-cases, ok, panic, ok_injective,
}
use kernel_tracing.Fs.{Blocks, Superblock, bpb, bblock, readsb, mark_free, balloc, bfree}
use kernel_tracing.Fs.Bits.{used, used-mark_used, used-mark_free}
use kernel_tracing.Fs.Scan.{IsFound, balloc_loop-decides}

-- The superblock on the disk is sb, and the bitmap says that it and the bitmap itself are in use.
pub record IsReserved (sb : Superblock) (m : Blocks) : Type 0 where
  pub on_disk : readsb m ≡ sb
  pub after : 2 ≤ sb.bmapstart
  pub super : used sb m 1 ≡ true
  pub bitmap : (j : ℕ) → j < sb.size → used sb m (bblock j sb) ≡ true

-- Block n, the first one free, is taken: it is full of 0, and all but it and its place in the
-- bitmap is as before.
pub record IsTaken (sb : Superblock) (m : Blocks) (n : ℕ) (m' : Blocks) : Type 0 where
  pub below : n < sb.size
  pub free : used sb m n ≡ false
  pub first : (j : ℕ) → j < n → used sb m j ≡ true
  pub zeroed : (i : ℕ) → m' n i ≡ 0
  pub marked : (j : ℕ) → j < sb.size → used sb m' j ≡ (n == j || used sb m j)
  pub others : (k : ℕ) → (n == k) ≡ false → (bblock n sb == k) ≡ false → m' k ≡ m k

-- A block in use is not one that is free.
apart :
    (sb : Superblock) (m : Blocks) (n k : ℕ)
    → used sb m n ≡ false
    → used sb m k ≡ true
    → (n == k) ≡ false
apart sb m n k f u = elim (Bool-cases (n == k)) [
  | inr e ↦ e
  | inl e ↦ let q = subst (λ x. used sb m x ≡ true) (sym ((==_iff n k).0 e)) u in cc
]

IsFound-IsTaken :
    (sb : Superblock) (m m' : Blocks) (n : ℕ)
    → IsReserved sb m
    → IsFound sb m n m'
    → IsTaken sb m n m'
IsFound-IsTaken sb m m' n k a = record {
  below = a.below;
  free = a.free;
  first = a.first;
  zeroed = λ i. ap (λ x. x n i) a.result ∙ rw ((==_iff n n).1 refl) refl;
  marked = λ j l.
      let other = apart sb m n (bblock j sb) a.free (k.bitmap j l) in
      ap (λ x. used sb x j) a.result ∙ rw (other) (used-mark_used sb m n j);
  others = λ j e f. ap (λ x. x j) a.result ∙ rw (e, f) refl;
}

-- Where the superblock sb is the one on the disk, before the bitmap, and the bitmap says that it
-- and the bitmap itself are in use: balloc takes the first block that the bitmap says is free,
-- below the size of the file system, marks it alone and fills it with 0, and changes nothing else;
-- it panics only where every block is in use.
pub balloc-IsTaken :
    (sb : Superblock) (m : Blocks)
    → IsReserved sb m
    → ((n : ℕ) × (m' : Blocks) × (balloc sb m ≡ ok (n, m')) × IsTaken sb m n m')
      ⊎ ((balloc sb m ≡ panic "balloc: out of blocks")
          × ((j : ℕ) → j < sb.size → used sb m j ≡ true))
unfolding balloc
balloc-IsTaken sb m k =
    elim (balloc_loop-decides sb.size 0 sb m (omega arith) (omega arith)
      (λ j g s. ground (arith, g))) [
        | inl (n, m', e, a) ↦ inl (n, m', e, IsFound-IsTaken sb m m' n k a)
        | inr h ↦ inr h
      ]

-- bfree clears the bit of a block in use and no other.
pub bfree-used :
    (b : ℕ) (sb : Superblock) (m : Blocks)
    → readsb m ≡ sb
    → used sb m b ≡ true
    → bfree b m ≡ ok (mark_free (bblock b sb) (b % bpb) m)
unfolding bfree
bfree-used b sb m q u =
    subst (λ x. used x m b ≡ true → bfree b m ≡ ok (mark_free (bblock b x) (b % bpb) m)) q
      (λ u'. rw (u') refl) u

pub readsb_same : (m m' : Blocks) → m' 1 ≡ m 1 → readsb m' ≡ readsb m
unfolding readsb
readsb_same m m' e = rw (e) refl

-- On such a disk, bfree of a block that balloc took does not panic, and gives the bitmap back as it
-- was before balloc.
bfree-balloc :
    (sb : Superblock) (m m' : Blocks) (n : ℕ)
    → IsReserved sb m
    → balloc sb m ≡ ok (n, m')
    → (m'' : Blocks) × (bfree n m' ≡ ok m'') × ((j : ℕ) → j < sb.size → used sb m'' j ≡ used sb m j)
bfree-balloc sb m m' n k h = elim (balloc-IsTaken sb m k) [
  | inr (e, _) ↦ cc
  | inl (i, t, e, a) ↦
      let p : ◌≡◌ {A = ℕ × Blocks} (i, t) (n, m') = ok_injective (sym e ∙ h) in
      subst
        (λ x.
          (m'' : Blocks) × (bfree x.0 x.1 ≡ ok m'')
          × ((j : ℕ) → j < sb.size → used sb m'' j ≡ used sb m j))
        p
        (let one : t 1 ≡ m 1 =
            a.others 1 (apart sb m i 1 a.free k.super) (let w = k.after in ground (arith, w)) in
          let same = readsb_same m t one ∙ k.on_disk in
          let u : used sb t i ≡ true = a.marked i a.below ∙ ground arith in
          (
            mark_free (bblock i sb) (i % bpb) t,
            bfree-used i sb t same u,
            λ j l.
                let f = a.free in
                used-mark_free sb t i j
                ∙ ap (λ x. not (i == j) && x) (a.marked j l)
                ∙ elim (Bool-cases (i == j)) [
                  | inl g ↦ rw (g) (sym (subst (λ x. used sb m x ≡ false) ((==_iff i j).0 g) f))
                  | inr g ↦ rw (g) refl
                ],
          ))
]

-- A block that is free cannot be freed.
pub bfree_free :
    (b : ℕ) (m : Blocks) → used (readsb m) m b ≡ false → bfree b m ≡ panic "freeing free block"
unfolding bfree
bfree_free b m u = rw (u) refl
