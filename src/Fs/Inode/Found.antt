-- ===== src/Fs/Inode/Found.antt =====
-- fs.c: a place of an inode that has a block, or is given one.
use kernel_tracing.Prelude.{
  ℕ, ◌≤◌, ◌<◌, ◌≡◌, refl, ap, ◌∙◌, ◌⊎◌, inl, inr, true, false, arith, ◌==◌, lt→ltb, Bool-cases,
  Outcome, ok, panic,
}
use kernel_tracing.Fs.{Blocks, Superblock}
use kernel_tracing.Fs.Allocation.{IsTaken, balloc-IsTaken}
use kernel_tracing.Fs.Inode.{Inode, ndirect, map_slot}
use kernel_tracing.Fs.Inode.Address.{indirect, slot, IsFile, taken_keeps, IsMapped, IsMapped-IsFile}
use kernel_tracing.Fs.Inode.Mapped.{
  with_addr, shows, nonzero, super_kept, direct-IsMapped, indirect-IsMapped, mapped-shows,
}

-- Key k of the inode has block a, and the content is what it was.
pub record IsBlock (sb : Superblock) (ip : Inode) (m : Blocks) (k a : ℕ) (ip' : Inode) (m' : Blocks)
    : Type 0 where
  pub file : IsFile sb ip' m'
  pub dev : ip'.dev ≡ ip.dev
  pub inum : ip'.inum ≡ ip.inum
  pub size : ip'.size ≡ ip.size
  pub type : ip'.type ≡ ip.type
  pub here : slot ip' m' k ≡ a
  pub found : (a == 0) ≡ false
  pub shows_same : (l i : ℕ) → l < indirect → shows ip' m' l i ≡ shows ip m l i

-- A call that finds such a block, or panics since the disk is full.
abbrev pub Finds :
    (sb : Superblock) (ip : Inode) (m : Blocks) (k : ℕ) → Outcome (ℕ × Inode × Blocks) → Type 0
Finds sb ip m k o =
    ((a : ℕ) × (ip' : Inode) × (m' : Blocks) × (o ≡ ok (a, ip', m')) × IsBlock sb ip m k a ip' m')
    ⊎ (o ≡ panic "balloc: out of blocks")

pub there :
    (sb : Superblock) (ip : Inode) (m : Blocks) (k a : ℕ)
    → IsFile sb ip m
    → slot ip m k ≡ a
    → (a == 0) ≡ false
    → IsBlock sb ip m k a ip m
there sb ip m k a f h z = record {
  file = f;
  dev = refl;
  inum = refl;
  size = refl;
  type = refl;
  here = h;
  found = z;
  shows_same = λ l i _. refl;
}

pub made :
    (sb : Superblock) (ip ip' : Inode) (m m1 m' : Blocks) (k n : ℕ)
    → IsFile sb ip m
    → IsTaken sb m n m1
    → IsMapped sb ip m k n ip' m'
    → IsFile sb ip' m'
    → ip'.size ≡ ip.size
    → ip'.type ≡ ip.type
    → (k < indirect → (slot ip m k == 0) ≡ true)
    → ((l : ℕ)
        → l ≤ indirect
        → (slot ip m l == 0) ≡ false
        → (k < indirect → l < indirect)
        → m' (slot ip m l) ≡ m1 (slot ip m l))
    → m' n ≡ m1 n
    → IsBlock sb ip m k n ip' m'
made sb ip ip' m m1 m' k n f t g file size type none_there kept own = record {
  file = file;
  dev = g.dev;
  inum = g.inum;
  size = size;
  type = type;
  here = g.here;
  found = nonzero sb ip m m1 n f t;
  shows_same =
      mapped-shows sb ip ip' m m' k n g none_there (λ i. ap (λ d. d i) own ∙ t.zeroed i)
        (λ l h z.
          kept l (omega (arith, h)) z (λ _. h)
          ∙ taken_keeps sb ip.inum n (slot ip m l) m m1 t (f.owned l (omega (arith, h)) z));
}

pub map_slot-Finds :
    (sb : Superblock) (ip : Inode) (m : Blocks) (i : ℕ)
    → IsFile sb ip m
    → i < ndirect
    → Finds sb ip m i (map_slot sb ip i m)
unfolding map_slot
map_slot-Finds sb ip m i f h =
    let s : slot ip m i ≡ ip.addrs i = rw (lt→ltb _ _ h) refl in
    elim (Bool-cases (ip.addrs i == 0)) [
      | inr e ↦ rw (e) (inl (ip.addrs i, ip, m, refl, there sb ip m i _ f s e))
      | inl e ↦ rw (e) (elim (balloc-IsTaken sb m f.reserved) [
        | inr (q, _) ↦ rw (q) (inr refl)
        | inl (n, m1, q, t) ↦
            let g = direct-IsMapped sb ip m m1 n f t i h in
            rw (q) (
              inl (
                n,
                with_addr i n ip,
                m1,
                refl,
                made sb ip (with_addr i n ip) m m1 m1 i n f t g
                    (IsMapped-IsFile sb ip (with_addr i n ip) m m1 i n f g
                      (super_kept sb ip m m1 n f t))
                    refl refl (λ _. ap (λ x. x == 0) s ∙ e) (λ l _ _ _. refl) refl,
              ))
      ])
    ]

pub map_indirect-Finds :
    (sb : Superblock) (ip : Inode) (m : Blocks)
    → IsFile sb ip m
    → Finds sb ip m indirect (map_slot sb ip ndirect m)
unfolding map_slot
map_indirect-Finds sb ip m f = elim (Bool-cases (ip.addrs ndirect == 0)) [
  | inr e ↦ rw (e) (inl (ip.addrs ndirect, ip, m, refl, there sb ip m indirect _ f refl e))
  | inl e ↦ rw (e) (elim (balloc-IsTaken sb m f.reserved) [
    | inr (q, _) ↦ rw (q) (inr refl)
    | inl (n, m1, q, t) ↦
        let g = indirect-IsMapped sb ip m m1 n f t e in
        rw (q) (
          inl (
            n,
            with_addr ndirect n ip,
            m1,
            refl,
            made sb ip (with_addr ndirect n ip) m m1 m1 indirect n f t g
                (IsMapped-IsFile sb ip (with_addr ndirect n ip) m m1 indirect n f g
                  (super_kept sb ip m m1 n f t))
                refl refl (λ l. absurd (omega (arith, l))) (λ l _ _ _. refl) refl,
          ))
  ])
]
