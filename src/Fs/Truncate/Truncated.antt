-- ===== src/Fs/Truncate/Truncated.antt =====
-- fs.c: itrunc frees the blocks of the inode, and leaves it without any.
use kernel_tracing.Prelude.{
  ℕ, ◌≤◌, ◌<◌, ◌≡◌, refl, sym, subst, ap, ◌∙◌, inl, inr, true, false, ◌||◌, arith, ltb, ◌==◌,
  ltb→lt, ==_iff, Bool-cases, update, ok,
}
use mathlib.Core.Bool.{true≢false}
use kernel_tracing.Fs.{Blocks, Superblock, bblock}
use kernel_tracing.Fs.Bits.{used}
use kernel_tracing.Fs.Allocation.{readsb_same}
use kernel_tracing.Fs.Inode.{Inode, ndirect, iblock, iupdate, put_dinode, place}
use kernel_tracing.Fs.Inode.Address.{indirect, slot, is_meta, IsFile}
use kernel_tracing.Fs.Inode.Update.{updated-IsFile, updated-used, updated-slot, updated_other}
use kernel_tracing.Fs.Truncate.{free_indirect, itrunc}
use kernel_tracing.Fs.Truncate.Freeing.{
  IsAway, Freed, Freed-none, Freed-next, IsCleared, IsCleared-next, free_direct-Freed,
  free_entries-Freed,
}

-- An inode without an indirect block has no more blocks behind the direct ones.
no_slot :
    (ip : Inode) (m : Blocks) (k : ℕ)
    → (ip.addrs ndirect == 0) ≡ true
    → ltb k 12 ≡ false
    → (slot ip m k == 0) ≡ true
no_slot ip m k z p = elim (Bool-cases (k == indirect)) [
  | inl q ↦ rw (p, q) z
  | inr q ↦ rw (p, q, z) refl
]

Freed-direct :
    (sb : Superblock) (ip : Inode) (m m' : Blocks)
    → (ip.addrs ndirect == 0) ≡ true
    → Freed sb ip m 12 m'
    → Freed sb ip m 141 m'
Freed-direct sb ip m m' z f = record {
  freed = λ k h g e. elim (Bool-cases (ltb k 12)) [
    | inl p ↦ f.freed k (ltb→lt _ _ p) g e
    | inr p ↦ absurd (true≢false (sym (no_slot ip m k z p) ∙ e))
  ];
  kept = λ x a. f.kept x (λ k h. a k (omega (arith, h)));
  others = f.others;
}

free_indirect-Freed :
    (sb : Superblock) (ip : Inode) (m : Blocks) (ip1 : Inode) (m1 : Blocks)
    → IsFile sb ip m
    → Freed sb ip m 12 m1
    → IsCleared ip 12 ip1
    → (ip2 : Inode) × (m2 : Blocks) × (free_indirect ip1 m1 ≡ ok (ip2, m2))
      × Freed sb ip m 141 m2
      × IsCleared ip 13 ip2
unfolding free_indirect
free_indirect-Freed sb ip m ip1 m1 w f c =
    let same : ip1.addrs ndirect ≡ ip.addrs ndirect = c.addrs 12 in
    elim (Bool-cases (ip.addrs ndirect == 0)) [
      | inl z ↦
          rw (same, z)
            (
              ip1,
              m1,
              refl,
              Freed-direct sb ip m m1 z f,
              IsCleared-next ip 12 ip1 ip1.addrs c (λ k. ground (arith, z, same)),
            )
      | inr z ↦
          let r = free_entries-Freed 128 0 sb ip m m1 w z refl f in
          let t = Freed-next sb ip m indirect r.0 w (omega arith) z r.2 in
          rw (same, z, r.1, t.1)
            (
              record ip1 { addrs = update ip1.addrs ndirect 0 },
              t.0,
              refl,
              t.2,
              IsCleared-next ip 12 ip1 (update ip1.addrs ndirect 0) c (λ k. refl),
            )
    ]

-- A block with a fixed purpose is none of the inode's.
meta-IsAway :
    (sb : Superblock) (ip : Inode) (m : Blocks) (j n : ℕ)
    → IsFile sb ip m
    → j < sb.size
    → is_meta sb ip.inum j n ≡ true
    → IsAway ip m 141 n
meta-IsAway sb ip m j n w h t k l g e = elim (Bool-cases (slot ip m k == n)) [
  | inr q ↦ q
  | inl q ↦
      let p = (w.owned k g e).plain j h in
      absurd (
        true≢false
          (sym t ∙ subst (λ x. is_meta sb ip.inum j x ≡ false) ((==_iff (slot ip m k) n).0 q) p))
]

cleared-slot :
    (ip ip' : Inode) (m' : Blocks) (k : ℕ) → IsCleared ip 13 ip' → k ≤ indirect → slot ip' m' k ≡ 0
cleared-slot ip ip' m' k c h =
    let a = c.addrs k in
    let b : ip'.addrs ndirect ≡ 0 = c.addrs 12 in
    elim (Bool-cases (ltb k 12)) [
      | inl p ↦ rw (p) (ground (arith, a, p))
      | inr p ↦ elim (Bool-cases (k == indirect)) [
        | inl q ↦ rw (p, q) b
        | inr q ↦ rw (p, q, b) refl
      ]
    ]

-- The inode without its blocks is in order.
cleared-IsFile :
    (sb : Superblock) (ip ip' : Inode) (m m' : Blocks)
    → IsFile sb ip m
    → 1 < sb.size
    → Freed sb ip m 141 m'
    → IsCleared ip 13 ip'
    → IsFile sb ip' m'
cleared-IsFile sb ip ip' m m' w l f c =
    let none_left : (k : ℕ) → k ≤ indirect → (slot ip' m' k == 0) ≡ true =
      λ k h. ap (λ x. x == 0) (cleared-slot ip ip' m' k c h) in
    let one : m' 1 ≡ m 1 = f.others 1 (λ j h. let q = w.reserved.after in ground (arith, q)) in
    record {
      reserved = record {
        on_disk = readsb_same m m' one ∙ w.reserved.on_disk;
        after = w.reserved.after;
        super = f.kept 1 (meta-IsAway sb ip m 1 1 w l refl) ∙ w.reserved.super;
        bitmap = λ j h.
            f.kept (bblock j sb) (meta-IsAway sb ip m j (bblock j sb) w h (ground arith))
            ∙ w.reserved.bitmap j h;
      };
      small = w.small;
      inside = w.inside;
      meta = λ j n h g e.
          let e' = subst (λ i. is_meta sb i j n ≡ true) c.inum e in
          f.kept n (meta-IsAway sb ip m j n w h e') ∙ w.meta j n h g e';
      node = λ j h.
          subst (λ i. (iblock i sb == 1 || iblock i sb == bblock j sb) ≡ false) (sym c.inum)
            (w.node j h);
      owned = λ k h e. absurd (true≢false (sym (none_left k h) ∙ e));
      apart = λ k i h g e q. absurd (true≢false (sym (none_left k h) ∙ e));
    }

-- The inode has no blocks and no bytes, the blocks that it had are free, and no other block has
-- become free or changed but those of the bitmap and that of the inode.
pub record IsTruncated (sb : Superblock) (ip : Inode) (m : Blocks) (ip' : Inode) (m' : Blocks)
    : Type 0 where
  pub file : IsFile sb ip' m'
  pub inum : ip'.inum ≡ ip.inum
  pub type : ip'.type ≡ ip.type
  pub size : ip'.size ≡ 0
  pub empty : (k : ℕ) → k ≤ indirect → slot ip' m' k ≡ 0
  pub freed : (k : ℕ) → k ≤ indirect → (slot ip m k == 0) ≡ false → used sb m' (slot ip m k) ≡ false
  pub kept : (x : ℕ) → x < sb.size → IsAway ip m 141 x → used sb m' x ≡ used sb m x
  pub others :
      (x : ℕ)
      → (iblock ip.inum sb == x) ≡ false
      → ((j : ℕ) → j < sb.size → (bblock j sb == x) ≡ false)
      → m' x ≡ m x

-- itrunc of an inode in order, on a disk of more than one block, does not panic. It leaves an
-- inode in order with no block and no byte; the blocks of data and the indirect block that it had
-- are free in the bitmap, all other blocks are in use or free as they were, and only blocks of the
-- bitmap and the block of the inode have changed.
pub itrunc-IsTruncated :
    (sb : Superblock) (ip : Inode) (m : Blocks)
    → IsFile sb ip m
    → 1 < sb.size
    → (ip' : Inode) × (m' : Blocks) × (itrunc sb ip m ≡ ok (ip', m')) × IsTruncated sb ip m ip' m'
unfolding itrunc iupdate
itrunc-IsTruncated sb ip m w l =
    let a =
      free_direct-Freed 12 0 sb ip m ip m w refl (Freed-none sb ip m)
        (record { inum = refl; type = refl; addrs = λ k. ground arith }) in
    let b = free_indirect-Freed sb ip m a.0 a.1 w a.3 a.4 in
    let ip2 = b.0 in
    let m2 = b.1 in
    let f = b.3 in
    let c = b.4 in
    let file = cleared-IsFile sb ip ip2 m m2 w l f c in
    let d = put_dinode (place ip2.inum) (record ip2 { size = 0 }) (m2 (iblock ip2.inum sb)) in
    rw (a.2, b.2)
      (
        record ip2 { size = 0 },
        iupdate sb (record ip2 { size = 0 }) m2,
        refl,
        record {
          file = updated-IsFile sb ip2 m2 file d 0 l;
          inum = c.inum;
          type = c.type;
          size = refl;
          empty = λ k h. updated-slot sb ip2 m2 file d 0 k ∙ cleared-slot ip ip2 m2 k c h;
          freed = λ k h e.
              updated-used sb ip2 m2 file d 0 (slot ip m k) (w.owned k h e).below
              ∙ f.freed k (omega (arith, h)) h e;
          kept = λ x h g. updated-used sb ip2 m2 file d 0 x h ∙ f.kept x g;
          others = λ x h g.
              updated_other sb ip2 m2 file d 0 x
                (subst (λ i. (iblock i sb == x) ≡ false) (sym c.inum) h)
              ∙ f.others x g;
        },
      )
