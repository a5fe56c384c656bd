-- ===== src/Fs/Inode/Content.antt =====
-- fs.c: bmap finds the block of a place of the content, or makes one, and keeps the content.
use kernel_tracing.Prelude.{
  ℕ, ◌+◌, ◌-◌, ◌*◌, ◌<◌, ◌≡◌, refl, sym, subst, ap, ◌∙◌, inl, inr, true, false, arith, ltb, ◌==◌,
  ltb→lt, ==_iff, Bool-cases, Outcome,
}
use mathlib.Core.Bool.{true≢false}
use kernel_tracing.Fs.Bits.{used}
use kernel_tracing.Fs.{Blocks, Superblock, uint_at}
use kernel_tracing.Fs.Allocation.{balloc-IsTaken}
use kernel_tracing.Fs.Inode.{Inode, ndirect, map_entry, bmap}
use kernel_tracing.Fs.Inode.Address.{indirect, slot, IsOwned, IsFile, IsMapped-IsFile}
use kernel_tracing.Fs.Inode.Mapped.{entered, entered_same, entry-IsMapped, entered_super}
use kernel_tracing.Fs.Inode.Found.{IsBlock, Finds, there, made, map_slot-Finds, map_indirect-Finds}

-- The indirect block is none of the blocks of data, and not a block that is free.
pub indirect_apart :
    (sb : Superblock) (ip : Inode) (m : Blocks) (l : ℕ)
    → IsFile sb ip m
    → l < indirect
    → (slot ip m l == 0) ≡ false
    → (ip.addrs ndirect == slot ip m l) ≡ false
indirect_apart sb ip m l f h z = elim (Bool-cases (ip.addrs ndirect == slot ip m l)) [
  | inr e ↦ e
  | inl e ↦
      let q =
        f.apart l indirect (omega (arith, h)) (omega arith) z
          (sym ((==_iff (ip.addrs ndirect) _).0 e)) in
      absurd (omega (arith, q, h))
]

free_apart :
    (sb : Superblock) (inum b n : ℕ) (m : Blocks)
    → IsOwned sb inum m b
    → used sb m n ≡ false
    → (b == n) ≡ false
free_apart sb inum b n m o u = elim (Bool-cases (b == n)) [
  | inr e ↦ e
  | inl e ↦
      absurd (true≢false (sym (subst (λ x. used sb m x ≡ true) ((==_iff b n).0 e) o.in_use) ∙ u))
]

map_entry-Finds :
    (sb : Superblock) (ip : Inode) (m : Blocks) (bn : ℕ)
    → IsFile sb ip m
    → bn < 128
    → (ip.addrs ndirect == 0) ≡ false
    → Finds sb ip m (12 + bn) (map_entry sb ip (ip.addrs ndirect) bn m)
unfolding map_entry
map_entry-Finds sb ip m bn f h z =
    let b = ip.addrs ndirect in
    let s : slot ip m (12 + bn) ≡ uint_at (m b) (4 * bn) =
      (let p : ltb (12 + bn) ndirect ≡ false = ground arith in
        let q : (12 + bn == indirect) ≡ false = ground (arith, h) in
        let w : 12 + bn - 12 ≡ bn = omega arith in rw (p, q, z, w) refl) in
    elim (Bool-cases (uint_at (m b) (4 * bn) == 0)) [
      | inr e ↦ rw (e) (inl (uint_at (m b) (4 * bn), ip, m, refl, there sb ip m (12 + bn) _ f s e))
      | inl e ↦ rw (e) (elim (balloc-IsTaken sb m f.reserved) [
        | inr (q, _) ↦ rw (q) (inr refl)
        | inl (n, m1, q, t) ↦
            let g = entry-IsMapped sb ip m m1 n f t bn h z in
            rw (q) (
              inl (
                n,
                ip,
                entered sb ip m m1 n f t bn,
                refl,
                made sb ip ip m m1 (entered sb ip m m1 n f t bn) (12 + bn) n f t g
                    (IsMapped-IsFile sb ip ip m (entered sb ip m m1 n f t bn) (12 + bn) n f g
                      (entered_super sb ip m m1 n f t bn h z))
                    refl refl (λ _. ap (λ x. x == 0) s ∙ e)
                    (λ l u v w.
                      entered_same sb ip m m1 n f t bn h z (slot ip m l)
                        (indirect_apart sb ip m l f (w (omega (arith, h))) v))
                    (entered_same sb ip m m1 n f t bn h z n
                      (free_apart sb ip.inum b n m (f.owned indirect (omega arith) z) t.free)),
              ))
      ])
    ]

IsBlock-trans :
    (sb : Superblock) (ip ip1 ip2 : Inode) (m m1 m2 : Blocks) (k k' a a' : ℕ)
    → IsBlock sb ip m k a ip1 m1
    → IsBlock sb ip1 m1 k' a' ip2 m2
    → IsBlock sb ip m k' a' ip2 m2
IsBlock-trans sb ip ip1 ip2 m m1 m2 k k' a a' p q = record {
  file = q.file;
  dev = q.dev ∙ p.dev;
  inum = q.inum ∙ p.inum;
  size = q.size ∙ p.size;
  type = q.type ∙ p.type;
  here = q.here;
  found = q.found;
  shows_same = λ l i h. q.shows_same l i h ∙ p.shows_same l i h;
}

Finds-trans :
    (sb : Superblock) (ip ip1 : Inode) (m m1 : Blocks) (k k' a : ℕ)
    (o : Outcome (ℕ × Inode × Blocks))
    → IsBlock sb ip m k a ip1 m1
    → Finds sb ip1 m1 k' o
    → Finds sb ip m k' o
Finds-trans sb ip ip1 m m1 k k' a o p (inr e) = inr e
Finds-trans sb ip ip1 m m1 k k' a o p (inl (a', ip2, m2, e, q)) =
    inl (a', ip2, m2, e, IsBlock-trans sb ip ip1 ip2 m m1 m2 k k' a a' p q)

-- bmap gives the block of place bn of the content, which it may have to make, and keeps the content
-- of every place, or the disk is full.
pub bmap-Finds :
    (sb : Superblock) (ip : Inode) (m : Blocks) (bn : ℕ)
    → IsFile sb ip m
    → bn < indirect
    → Finds sb ip m bn (bmap sb ip bn m)
unfolding bmap
bmap-Finds sb ip m bn f h = elim (Bool-cases (ltb bn ndirect)) [
  | inl e ↦ rw (e) (map_slot-Finds sb ip m bn f (ltb→lt _ _ e))
  | inr e ↦
      let low : ltb (bn - ndirect) 128 ≡ true = ground (arith, e, h) in
      rw (e, low)
        (elim (map_indirect-Finds sb ip m f) [
          | inr q ↦ rw (q) (inr refl)
          | inl (a, ip1, m1, q, k) ↦
              let z : (ip1.addrs ndirect == 0) ≡ false = ap (λ x. x == 0) k.here ∙ k.found in
              let w : 12 + (bn - ndirect) ≡ bn = ground (arith, e) in
              let r = map_entry-Finds sb ip1 m1 (bn - ndirect) k.file (ltb→lt _ _ low) z in
              let r' =
                subst
                  (λ x. Finds sb ip1 m1 x (map_entry sb ip1 (ip1.addrs ndirect) (bn - ndirect) m1))
                  w r in
              let r2 =
                subst (λ x. Finds sb ip1 m1 bn (map_entry sb ip1 x (bn - ndirect) m1)) k.here r' in
              rw (q) (Finds-trans sb ip ip1 m m1 indirect bn a _ k r2)
        ])
]
