-- ===== src/Fs/Inode/Update.antt =====
-- fs.c: iupdate and the loading of an inode in ilock.
use kernel_tracing.Prelude.{
  ℕ, ◌+◌, ◌*◌, ◌^◌, ◌≤◌, ◌<◌, ◌≡◌, refl, sym, subst, ap, ◌∙◌, ◌⊎◌, inl, inr, Bool, true, false,
  arith, ◌==◌, if◌then◌else◌, lt→ltb, ==_iff, Bool-cases, update, Outcome, ok, panic,
}
use kernel_tracing.Fs.{Data, Blocks, Superblock, uint_at, bblock}
use kernel_tracing.Fs.Bits.{used}
use kernel_tracing.Fs.Allocation.{readsb_same}
use kernel_tracing.Fs.Inode.{
  Inode, ndirect, put_word, put_addrs, put_dinode, iblock, place, iupdate, load_inode, short_at,
}
use kernel_tracing.Fs.Inode.Words.{
  uint_at-put_word, short_at-put_word, short_at-put_word_other, short_at-put_addrs,
  uint_at-put_addrs_before, uint_at-put_addrs,
}
use kernel_tracing.Fs.Inode.Address.{indirect, slot, IsOwned, IsFile}
use kernel_tracing.Fs.Inode.Mapped.{shows}

module _ (sb : Superblock) (ip : Inode) (m : Blocks) (f : IsFile sb ip m) (d : Data)
    (size : ℕ) where
  abbrev resized : Inode
  resized = record ip { size = size }

  abbrev updated : Blocks
  updated = update m (iblock ip.inum sb) d

  pub updated_other : (x : ℕ) → (iblock ip.inum sb == x) ≡ false → updated x ≡ m x
  updated_other x e = rw (e) refl

  owned_other :
      (k : ℕ) → k ≤ indirect → (slot ip m k == 0) ≡ false → updated (slot ip m k) ≡ m (slot ip m k)
  owned_other k h z =
      let o = f.owned k h z in
      updated_other (slot ip m k) (let p = o.plain (slot ip m k) o.below in ground (arith, p))

  pub updated-slot : (k : ℕ) → slot resized updated k ≡ slot ip m k
  updated-slot k = elim (Bool-cases (ip.addrs ndirect == 0)) [
    | inl e ↦ rw (e) refl
    | inr e ↦ rw (e, owned_other indirect (omega arith) e) refl
  ]

  pub updated-used : (j : ℕ) → j < sb.size → used sb updated j ≡ used sb m j
  updated-used j h =
      let e : (iblock ip.inum sb == bblock j sb) ≡ false =
        (let w = f.node j h in ground (arith, w)) in
      rw (e) refl

  pub updated-IsFile : 1 < sb.size → IsFile sb resized updated
  updated-IsFile l = record {
    reserved = record {
      on_disk =
          readsb_same m updated (updated_other 1 (let w = f.node 1 l in ground (arith, w)))
          ∙ f.reserved.on_disk;
      after = f.reserved.after;
      super = updated-used 1 l ∙ f.reserved.super;
      bitmap = λ j g. updated-used (bblock j sb) (f.inside j g) ∙ f.reserved.bitmap j g;
    };
    small = f.small;
    inside = f.inside;
    meta = λ j n g g' e. updated-used n g' ∙ f.meta j n g g' e;
    node = f.node;
    owned = λ k g e.
        let s = updated-slot k in
        let o = f.owned k g (subst (λ x. (x == 0) ≡ false) s e) in
        subst (IsOwned sb ip.inum updated) (sym s) (record {
          below = o.below;
          in_use = updated-used (slot ip m k) o.below ∙ o.in_use;
          plain = o.plain;
        });
    apart = λ i k g g' e q.
        f.apart i k g g' (subst (λ x. (x == 0) ≡ false) (updated-slot i) e)
          (sym (updated-slot i) ∙ q ∙ updated-slot k);
  }

  pub updated-shows : (k i : ℕ) → k < indirect → shows resized updated k i ≡ shows ip m k i
  updated-shows k i h =
      subst (λ x. (if x == 0 then 0 else updated x i) ≡ shows ip m k i) (sym (updated-slot k))
        (elim (Bool-cases (slot ip m k == 0)) [
          | inl z ↦ rw (z) refl
          | inr z ↦ rw (z) (ap (λ g. g i) (owned_other k (omega (arith, h)) z))
        ])

-- The values that fit in the fields of a `struct dinode`.
pub record Fits (ip : Inode) : Type 0 where
  pub type : ip.type < 2 ^ 16
  pub major : ip.major < 2 ^ 16
  pub minor : ip.minor < 2 ^ 16
  pub nlink : ip.nlink < 2 ^ 16
  pub size : ip.size < 2 ^ 32
  pub addrs : (k : ℕ) → k < 13 → ip.addrs k < 2 ^ 32

-- The fields of an inode at byte i of a block.
pub record IsCopy (i : ℕ) (ip : Inode) (d : Data) : Type 0 where
  pub type : short_at d i ≡ ip.type
  pub major : short_at d (i + 2) ≡ ip.major
  pub minor : short_at d (i + 4) ≡ ip.minor
  pub nlink : short_at d (i + 6) ≡ ip.nlink
  pub size : uint_at d (i + 8) ≡ ip.size
  pub addrs : (k : ℕ) → k < 13 → uint_at d (i + 12 + 4 * k) ≡ ip.addrs k

-- The shorts of a copy, whatever stands behind them.
pub put_dinode-IsCopy : (i : ℕ) (ip : Inode) (d : Data) → Fits ip → IsCopy i ip (put_dinode i ip d)
put_dinode-IsCopy i ip d f =
    let d1 = put_word 2 i ip.type d in
    let d2 = put_word 2 (i + 2) ip.major d1 in
    let d3 = put_word 2 (i + 4) ip.minor d2 in
    let d4 = put_word 2 (i + 6) ip.nlink d3 in
    let d5 = put_word 4 (i + 8) ip.size d4 in
    let outer : (j : ℕ)
        → j + 2 ≤ i + 8
        → short_at (put_addrs (i + 12) ip.addrs d5) j ≡ short_at d4 j =
      λ j h.
        short_at-put_addrs (i + 12) j ip.addrs d5 (omega (arith, h))
        ∙ short_at-put_word_other 4 (i + 8) ip.size j d4 (ground (arith, h)) in
    record {
      type =
          outer i (omega arith)
          ∙ short_at-put_word_other 2 (i + 6) ip.nlink i d3 (ground arith)
          ∙ short_at-put_word_other 2 (i + 4) ip.minor i d2 (ground arith)
          ∙ short_at-put_word_other 2 (i + 2) ip.major i d1 (ground arith)
          ∙ short_at-put_word i ip.type d f.type;
      major =
          outer (i + 2) (omega arith)
          ∙ short_at-put_word_other 2 (i + 6) ip.nlink (i + 2) d3 (ground arith)
          ∙ short_at-put_word_other 2 (i + 4) ip.minor (i + 2) d2 (ground arith)
          ∙ short_at-put_word (i + 2) ip.major d1 f.major;
      minor =
          outer (i + 4) (omega arith)
          ∙ short_at-put_word_other 2 (i + 6) ip.nlink (i + 4) d3 (ground arith)
          ∙ short_at-put_word (i + 4) ip.minor d2 f.minor;
      nlink = outer (i + 6) (omega arith) ∙ short_at-put_word (i + 6) ip.nlink d3 f.nlink;
      size =
          uint_at-put_addrs_before (i + 12) (i + 8) ip.addrs d5 (omega arith)
          ∙ uint_at-put_word (i + 8) ip.size d4 f.size;
      addrs = λ k h. uint_at-put_addrs (i + 12) k ip.addrs d5 h (f.addrs k h);
    }

abbrev pub Reloads : Inode → Outcome Inode → Type 0
Reloads ip o =
    ((ip.type ≡ 0) × (o ≡ panic "ilock: no type"))
    ⊎ (jp' : Inode) × (o ≡ ok jp')
      × (0 < ip.type)
      × (jp'.type ≡ ip.type)
      × (jp'.major ≡ ip.major)
      × (jp'.minor ≡ ip.minor)
      × (jp'.nlink ≡ ip.nlink)
      × (jp'.size ≡ ip.size)
      × ((k : ℕ) → k < 13 → jp'.addrs k ≡ ip.addrs k)
      × (jp'.valid ≡ true)

-- What ilock reads after iupdate of an inode whose fields fit those of a struct dinode: an inode of
-- the same number that is not valid takes over the type, the numbers, the size and the addresses of
-- the one that was written; but where the type is 0, as after iput has freed the inode, it panics.
pub load_inode-iupdate :
    (sb : Superblock) (ip jp : Inode) (m : Blocks)
    → Fits ip
    → jp.inum ≡ ip.inum
    → jp.valid ≡ false
    → Reloads ip (load_inode sb jp (iupdate sb ip m))
unfolding load_inode iupdate
load_inode-iupdate sb ip jp m f e v =
    let c = put_dinode-IsCopy (place ip.inum) ip (m (iblock ip.inum sb)) f in
    let here = (==_iff (iblock ip.inum sb) (iblock ip.inum sb)).1 refl in
    let type_at = λ (b : Bool) (t : (ip.type == 0) ≡ b). ap (λ x. x == 0) c.type ∙ t in
    elim (Bool-cases (ip.type == 0)) [
      | inl t ↦ rw (v, e, here, type_at true t) (inl ((==_iff ip.type 0).0 t, refl))
      | inr t ↦
          rw (v, e, here, type_at false t)
            (inr (
              _,
              refl,
              ground (arith, t),
              c.type,
              c.major,
              c.minor,
              c.nlink,
              c.size,
              (λ k h. rw (lt→ltb _ _ h) (c.addrs k h)),
              refl,
            ))
    ]
