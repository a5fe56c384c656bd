-- ===== src/Fs/Inode/Address.antt =====
-- fs.c: the blocks that an inode has, and when they are in order.
use kernel_tracing.Prelude.{
  ℕ, ◌-◌, ◌*◌, ◌^◌, ◌≤◌, ◌<◌, ◌≡◌, sym, subst, ◌∙◌, inl, inr, Bool, true, false, ◌||◌, arith, ltb,
  ◌==◌, if◌then◌else◌, ==_iff, Bool-cases,
}
use mathlib.Core.Bool.{true≢false}
use kernel_tracing.Fs.{Blocks, Superblock, uint_at, bblock, readsb}
use kernel_tracing.Fs.Bits.{used}
use kernel_tracing.Fs.Allocation.{IsReserved, IsTaken}
use kernel_tracing.Fs.Inode.{Inode, ndirect, iblock}

-- The key of the indirect block, behind those of the blocks of data.
abbrev pub indirect : ℕ
indirect = 140

-- The address of block k of the content; 0 where there is none.
abbrev pub slot : Inode → Blocks → ℕ → ℕ
slot ip m k =
    if ltb k ndirect
    then ip.addrs k
    else if k == indirect
    then ip.addrs ndirect
    else if ip.addrs ndirect == 0
    then 0
    else uint_at (m (ip.addrs ndirect)) (4 * (k - ndirect))

-- Block n is block 0, the superblock, the block of the inode or the bitmap block of j.
abbrev pub is_meta : Superblock → (inum j n : ℕ) → Bool
is_meta sb inum j n = n == 0 || n == 1 || n == iblock inum sb || n == bblock j sb

-- A block in use for content.
pub record IsOwned (sb : Superblock) (inum : ℕ) (m : Blocks) (n : ℕ) : Type 0 where
  pub below : n < sb.size
  pub in_use : used sb m n ≡ true
  pub plain : (j : ℕ) → j < sb.size → is_meta sb inum j n ≡ false

-- The bitmap and the blocks with a fixed purpose are marked as in use, and each block of the inode
-- is one in use that serves nothing else.
pub record IsFile (sb : Superblock) (ip : Inode) (m : Blocks) : Type 0 where
  pub reserved : IsReserved sb m
  pub small : sb.size ≤ 2 ^ 32
  pub inside : (j : ℕ) → j < sb.size → bblock j sb < sb.size
  pub meta :
      (j n : ℕ) → j < sb.size → n < sb.size → is_meta sb ip.inum j n ≡ true → used sb m n ≡ true
  pub node :
      (j : ℕ) → j < sb.size → (iblock ip.inum sb == 1 || iblock ip.inum sb == bblock j sb) ≡ false
  pub owned :
      (k : ℕ) → k ≤ indirect → (slot ip m k == 0) ≡ false → IsOwned sb ip.inum m (slot ip m k)
  pub apart :
      (k l : ℕ)
      → k ≤ indirect
      → l ≤ indirect
      → (slot ip m k == 0) ≡ false
      → slot ip m k ≡ slot ip m l
      → k ≡ l

-- A block that is free serves nothing.
pub free-plain :
    (sb : Superblock) (ip : Inode) (m : Blocks) (n j : ℕ)
    → IsFile sb ip m
    → n < sb.size
    → used sb m n ≡ false
    → j < sb.size
    → is_meta sb ip.inum j n ≡ false
free-plain sb ip m n j f l u h = elim (Bool-cases (is_meta sb ip.inum j n)) [
  | inr e ↦ e
  | inl e ↦ let w = f.meta j n h l e in absurd (true≢false (sym w ∙ u))
]

-- What allocation of block n does to a block in use that is not part of the bitmap.
pub taken_keeps :
    (sb : Superblock) (inum n x : ℕ) (m m' : Blocks)
    → IsTaken sb m n m'
    → IsOwned sb inum m x
    → m' x ≡ m x
taken_keeps sb inum n x m m' t o =
    t.others x
      (elim (Bool-cases (n == x)) [
        | inr e ↦ e
        | inl e ↦
            let u = t.free in
            let v = o.in_use in
            let w = subst (λ y. used sb m y ≡ true) (sym ((==_iff n x).0 e)) v in
            absurd (true≢false (sym w ∙ u))
      ])
      (let p = o.plain n t.below in ground (arith, p))

-- The inode after block n was found for key k, which had none.
pub record IsMapped (sb : Superblock) (ip : Inode) (m : Blocks) (k n : ℕ) (ip' : Inode)
    (m' : Blocks) : Type 0 where
  pub dev : ip'.dev ≡ ip.dev
  pub inum : ip'.inum ≡ ip.inum
  pub key : k ≤ indirect
  pub fresh : used sb m n ≡ false
  pub below : n < sb.size
  pub here : slot ip' m' k ≡ n
  pub elsewhere : (l : ℕ) → l ≤ indirect → (k == l) ≡ false → slot ip' m' l ≡ slot ip m l
  pub marked : (j : ℕ) → j < sb.size → used sb m' j ≡ (n == j || used sb m j)

module _ (sb : Superblock) (ip ip' : Inode) (m m' : Blocks) (k n : ℕ) (f : IsFile sb ip m)
    (g : IsMapped sb ip m k n ip' m') where
  still : (x : ℕ) → x < sb.size → used sb m x ≡ true → used sb m' x ≡ true
  still x l u = g.marked x l ∙ ground (arith, u)

  keep : (x : ℕ) → IsOwned sb ip.inum m x → IsOwned sb ip'.inum m' x
  keep x o = record {
    below = o.below;
    in_use = still x o.below o.in_use;
    plain = subst (λ i. (j : ℕ) → j < sb.size → is_meta sb i j x ≡ false) (sym g.inum) o.plain;
  }

  fresh_plain : (j : ℕ) → j < sb.size → is_meta sb ip.inum j n ≡ false
  fresh_plain j h = free-plain sb ip m n j f g.below g.fresh h

  fresh_owned : IsOwned sb ip'.inum m' n
  fresh_owned = record {
    below = g.below;
    in_use = g.marked n g.below ∙ ground arith;
    plain = subst (λ i. (j : ℕ) → j < sb.size → is_meta sb i j n ≡ false) (sym g.inum) fresh_plain;
  }

  -- The other keys have other blocks.
  fresh_apart : (l : ℕ) → l ≤ indirect → (k == l) ≡ false → (slot ip' m' l == n) ≡ false
  fresh_apart l h e = elim (Bool-cases (slot ip' m' l == n)) [
    | inr q ↦ q
    | inl q ↦
        let s = sym (g.elsewhere l h e) ∙ (==_iff (slot ip' m' l) n).0 q in
        let z : (slot ip m l == 0) ≡ false =
          subst (λ x. (x == 0) ≡ false) (sym s)
            (let p = fresh_plain n g.below in ground (arith, p)) in
        let u = subst (λ x. used sb m x ≡ true) s (f.owned l h z).in_use in
        absurd (true≢false (sym u ∙ g.fresh))
  ]

  mapped_apart :
      (i l : ℕ)
      → i ≤ indirect
      → l ≤ indirect
      → (slot ip' m' i == 0) ≡ false
      → slot ip' m' i ≡ slot ip' m' l
      → i ≡ l
  mapped_apart i l h h' z e = elim (Bool-cases (k == i)) [
    | inl a ↦ elim (Bool-cases (k == l)) [
      | inl b ↦ ground (arith, a, b)
      | inr b ↦
          let s : slot ip' m' i ≡ n = subst (λ x. slot ip' m' x ≡ n) ((==_iff k i).0 a) g.here in
          absurd (true≢false (sym ((==_iff _ n).1 (sym e ∙ s)) ∙ fresh_apart l h' b))
    ]
    | inr a ↦ elim (Bool-cases (k == l)) [
      | inl b ↦
          let s : slot ip' m' l ≡ n = subst (λ x. slot ip' m' x ≡ n) ((==_iff k l).0 b) g.here in
          absurd (true≢false (sym ((==_iff _ n).1 (e ∙ s)) ∙ fresh_apart i h a))
      | inr b ↦
          let p = g.elsewhere i h a in
          f.apart i l h h' (subst (λ x. (x == 0) ≡ false) p z) (sym p ∙ e ∙ g.elsewhere l h' b)
    ]
  ]

  pub IsMapped-IsFile : readsb m' ≡ readsb m → IsFile sb ip' m'
  IsMapped-IsFile q = record {
    reserved = record {
      on_disk = q ∙ f.reserved.on_disk;
      after = f.reserved.after;
      super =
          still 1 (let p = fresh_plain n g.below in let b = g.below in ground (arith, p, b))
            f.reserved.super;
      bitmap = λ j l. still (bblock j sb) (f.inside j l) (f.reserved.bitmap j l);
    };
    small = f.small;
    inside = f.inside;
    meta = λ j x h l e. still x l (f.meta j x h l (subst (λ i. is_meta sb i j x ≡ true) g.inum e));
    node =
        subst
          (λ i. (j : ℕ) → j < sb.size → (iblock i sb == 1 || iblock i sb == bblock j sb) ≡ false)
          (sym g.inum) f.node;
    owned = λ l h z. elim (Bool-cases (k == l)) [
      | inl e ↦
          subst (IsOwned sb ip'.inum m')
            (sym (subst (λ x. slot ip' m' x ≡ n) ((==_iff k l).0 e) g.here)) fresh_owned
      | inr e ↦
          let s = g.elsewhere l h e in
          subst (IsOwned sb ip'.inum m') (sym s)
            (keep (slot ip m l) (f.owned l h (subst (λ y. (y == 0) ≡ false) s z)))
    ];
    apart = mapped_apart;
  }
