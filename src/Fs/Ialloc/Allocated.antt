-- ===== src/Fs/Ialloc/Allocated.antt =====
-- What ialloc leaves on the disk and in the inode cache.
use kernel_tracing.Prelude.{
  ℕ, ◌+◌, ◌-◌, ◌*◌, ◌^◌, ◌≤◌, ◌<◌, ◌≡◌, refl, sym, subst, ap, ap₂, ◌∙◌, fun_ext, ◌⊎◌, inl, inr,
  Bool, true, false, ◌&&◌, arith, ltb, leb, ◌==◌, if◌then◌else◌, ltb→lt, ==_iff, Bool-cases, update,
  Outcome, ok, panic,
}
use kernel_tracing.Fs.{Data, Blocks, Superblock, uint_at}
use kernel_tracing.Fs.Inode.{Inode, iblock, place, short_at, load_inode}
use kernel_tracing.Fs.Inode.Words.{short_at-put_word}
use kernel_tracing.Fs.Icache.{Icache, ninode}
use kernel_tracing.Fs.Icache.Get.{Got, iget-Gets}
use kernel_tracing.Fs.Ialloc.Seek.{first_unused-Seeks}
use kernel_tracing.Fs.Ialloc.{is_unallocated, new_dinode, ialloc}

-- The bytes of a new dinode behind its type.
new_dinode_zero : (i type j : ℕ) (d : Data) → i + 2 ≤ j → j < i + 64 → new_dinode i type d j ≡ 0
new_dinode_zero i type j d h g =
    let e : (leb i j && ltb j (i + 2)) ≡ false = ground (arith, h) in
    let z : (leb i j && ltb j (i + 64)) ≡ true = ground (arith, h, g) in rw (e, z) refl

new_dinode-short :
    (i type j : ℕ) (d : Data) → i + 2 ≤ j → j + 1 < i + 64 → short_at (new_dinode i type d) j ≡ 0
new_dinode-short i type j d h g =
    ap₂ (λ x y. x + y * 2 ^ 8) (new_dinode_zero i type j d h (omega (arith, g)))
      (new_dinode_zero i type (j + 1) d (omega (arith, h)) g)

new_dinode-uint :
    (i type j : ℕ) (d : Data) → i + 2 ≤ j → j + 3 < i + 64 → uint_at (new_dinode i type d) j ≡ 0
new_dinode-uint i type j d h g =
    let z = λ (k : ℕ) (l : k < 4).
      new_dinode_zero i type (j + k) d (omega (arith, h)) (omega (arith, g, l)) in
    let s : j + 0 ≡ j = omega arith in
    ap₂ (λ x y. x + y)
      (ap₂ (λ x y. x + y * 2 ^ 16)
        (ap₂ (λ x y. x + y * 2 ^ 8) (sym (ap (new_dinode i type d) s) ∙ z 0 (omega arith))
          (z 1 (omega arith)))
        (z 2 (omega arith)))
      (ap (λ x. x * 2 ^ 24) (z 3 (omega arith)))

-- An inode of the given type with no links and no content.
abbrev pub new_inode : (type : ℕ) → Inode → Inode
new_inode type ip = record ip {
  type = type;
  major = 0;
  minor = 0;
  nlink = 0;
  size = 0;
  addrs = λ k. if ltb k 13 then 0 else ip.addrs k;
  valid = true;
}

-- Whether byte j of block b belongs to the dinode.
abbrev pub in_dinode : Superblock → (inum b j : ℕ) → Bool
in_dinode sb inum b j = iblock inum sb == b && leb (place inum) j && ltb j (place inum + 64)

-- An inode whose fields are read from a new dinode.
zero_fields :
    (ip : Inode) (type major minor nlink size : ℕ) (addrs : ℕ → ℕ)
    → major ≡ 0
    → minor ≡ 0
    → nlink ≡ 0
    → size ≡ 0
    → ((k : ℕ) → k < 13 → addrs k ≡ 0)
    → record ip {
      type = type;
      major = major;
      minor = minor;
      nlink = nlink;
      size = size;
      addrs = λ k. if ltb k 13 then addrs k else ip.addrs k;
      valid = true;
    }
      ≡ new_inode type ip
zero_fields ip type major minor nlink size addrs a b c d e =
    let same : (λ k. if ltb k 13 then addrs k else ip.addrs k) ≡ (new_inode type ip).addrs =
      fun_ext (λ k. elim (Bool-cases (ltb k 13)) [
        | inl h ↦ rw (h) (e k (ltb→lt k 13 h))
        | inr h ↦ rw (h) refl
      ]) in
    rw (a, b, c, d) (ap (λ x. record (new_inode type ip) { addrs = x }) same)

load_new :
    (sb : Superblock) (type : ℕ) (m : Blocks) (ip : Inode)
    → type < 2 ^ 16
    → (type == 0) ≡ false
    → ip.valid ≡ false
    → load_inode sb ip
        (update m (iblock ip.inum sb) (new_dinode (place ip.inum) type (m (iblock ip.inum sb))))
      ≡ ok (new_inode type ip)
unfolding load_inode
load_new sb type m ip h t v =
    let i = place ip.inum in
    let d = m (iblock ip.inum sb) in
    let here = (==_iff (iblock ip.inum sb) (iblock ip.inum sb)).1 refl in
    let typed : short_at (new_dinode i type d) i ≡ type =
      short_at-put_word i type (λ j. if leb i j && ltb j (i + 64) then 0 else d j) h in
    let some_type = ap (λ x. x == 0) typed ∙ t in
    rw (v, here, some_type, typed)
      (ap ok (
        zero_fields ip type _ _ _ _ _
          (new_dinode-short i type (i + 2) d (omega arith) (omega arith))
          (new_dinode-short i type (i + 4) d (omega arith) (omega arith))
          (new_dinode-short i type (i + 6) d (omega arith) (omega arith))
          (new_dinode-uint i type (i + 8) d (omega arith) (omega arith))
          (λ k g. new_dinode-uint i type (i + 12 + 4 * k) d (omega arith) (omega (arith, g)))))

-- Inode inum of the disk was the first free one and is now a new one of the given type: ilock
-- loads it so, and all other bytes of the disk are as they were.
pub record Taken (sb : Superblock) (type inum : ℕ) (m m' : Blocks) : Type 0 where
  pub low : 1 ≤ inum
  pub inside : inum < sb.ninodes
  pub unused : is_unallocated sb inum m ≡ true
  pub first : (k : ℕ) → 1 ≤ k → k < inum → is_unallocated sb k m ≡ false
  pub loads :
      (ip : Inode)
      → ip.inum ≡ inum
      → ip.valid ≡ false
      → load_inode sb ip m' ≡ ok (new_inode type ip)
  pub others : (b j : ℕ) → in_dinode sb inum b j ≡ false → m' b j ≡ m b j

take-Taken :
    (sb : Superblock) (type inum : ℕ) (m : Blocks)
    → type < 2 ^ 16
    → (type == 0) ≡ false
    → 1 ≤ inum
    → inum < sb.ninodes
    → is_unallocated sb inum m ≡ true
    → ((k : ℕ) → 1 ≤ k → k < inum → is_unallocated sb k m ≡ false)
    → Taken sb type inum m
        (update m (iblock inum sb) (new_dinode (place inum) type (m (iblock inum sb))))
take-Taken sb type inum m h t low inside u f = record {
  low = low;
  inside = inside;
  unused = u;
  first = f;
  loads = λ ip q v.
      subst
        (λ x.
          load_inode sb ip (update m (iblock x sb) (new_dinode (place x) type (m (iblock x sb))))
          ≡ ok (new_inode type ip))
        q (load_new sb type m ip h t v);
  others = λ b j e. elim (Bool-cases (iblock inum sb == b)) [
    | inr z ↦ rw (z) refl
    | inl z ↦
        let q = (==_iff (iblock inum sb) b).0 z in
        let e' : (leb (place inum) j && ltb j (place inum + 2)) ≡ false = ground (arith, e, z) in
        let e2 : (leb (place inum) j && ltb j (place inum + 64)) ≡ false = ground (arith, e, z) in
        rw (z, e', e2) (ap (λ x. m x j) q)
  ];
}

-- No inode is free.
abbrev pub Allocates :
    (dev type : ℕ) (sb : Superblock) (c : Icache) (m : Blocks)
    → Outcome (ℕ × Icache × Blocks)
    → Type 0
Allocates dev type sb c m o =
    ((inum i : ℕ) × (c' : Icache) × (m' : Blocks) × (o ≡ ok (i, c', m'))
      × Taken sb type inum m m'
      × Got dev inum c i c')
    ⊎ ((o ≡ panic "ialloc: no inodes")
        × ((k : ℕ) → 1 ≤ k → k < sb.ninodes → is_unallocated sb k m ≡ false))
    ⊎ (o ≡ panic "iget: no inodes") × ((j : ℕ) → j < ninode → 0 < (c.inode j).ref)

-- ialloc with the lock of the inode cache free, for a type other than 0 that fits in 16 bits:
-- the first inode from 1 on whose type on the disk is 0 becomes one of the given type with all else
-- 0, which is what ilock loads of it, and no other byte of the disk changes; an entry for it is got
-- as by iget. It panics only if no inode is free on the disk, or all entries of the cache are in
-- use.
pub ialloc-Allocates :
    (dev type : ℕ) (sb : Superblock) (c : Icache) (m : Blocks)
    → c.lock ≡ false
    → type < 2 ^ 16
    → (type == 0) ≡ false
    → Allocates dev type sb c m (ialloc dev type sb c m)
unfolding ialloc
ialloc-Allocates dev type sb c m l h t = elim (first_unused-Seeks (sb.ninodes - 1) 1 sb m) [
  | inl (q, f) ↦ rw (ialloc, q) (inr (inl (refl, λ k g g'. f k g (omega (arith, g, g')))))
  | inr (n, q, g, g', u, f) ↦ elim (iget-Gets dev n c l) [
    | inl (i, c', e, got) ↦
        rw (ialloc, q, e)
          (inl (n, i, c', _, refl, take-Taken sb type n m h t g (omega (arith, g, g')) u f, got))
    | inr (e, full) ↦ rw (ialloc, q, e) (inr (inr (refl, λ j b. (full j b).1)))
  ]
]
