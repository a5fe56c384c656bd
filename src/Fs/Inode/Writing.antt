-- ===== src/Fs/Inode/Writing.antt =====
-- fs.c: the loop of writei changes the bytes of the content that it is given, and no others.
use kernel_tracing.Prelude.{
  ℕ, zero, suc, ◌+◌, ◌-◌, ◌/◌, ◌%◌, ◌≤◌, ◌<◌, min, ◌≡◌, refl, sym, subst, ap, ◌∙◌, ◌⊎◌, inl, inr,
  true, false, ◌&&◌, arith, ltb, leb, ◌==◌, if◌then◌else◌, ==_iff, Bool-cases, update, Outcome, ok,
  panic,
}
use kernel_tracing.Fs.{Data, Blocks, Superblock}
use kernel_tracing.Fs.Inode.{Inode, bsize, bytes_into, write_loop}
use kernel_tracing.Fs.Inode.Address.{indirect, slot, IsFile}
use kernel_tracing.Fs.Inode.Mapped.{shows}
use kernel_tracing.Fs.Inode.Found.{IsBlock}
use kernel_tracing.Fs.Inode.Content.{bmap-Finds}
use kernel_tracing.Fs.Inode.Reading.{max_size, byte_at}
use kernel_tracing.Fs.Inode.Stored.{stored-IsFile, stored-shows}

-- Byte p after `len` bytes of src from `pos` on were written at `off`.
abbrev pub overwritten : (ip : Inode) (m : Blocks) (off len : ℕ) (src : Data) (pos p : ℕ) → ℕ
overwritten ip m off len src pos p =
    if leb off p && ltb p (off + len) then src (pos + (p - off)) else byte_at ip m p

pub record Writes (sb : Superblock) (ip : Inode) (m : Blocks) (off len : ℕ) (src : Data) (pos : ℕ)
    (ip' : Inode) (m' : Blocks) : Type 0 where
  pub file : IsFile sb ip' m'
  pub dev : ip'.dev ≡ ip.dev
  pub inum : ip'.inum ≡ ip.inum
  pub size : ip'.size ≡ ip.size
  pub type : ip'.type ≡ ip.type
  pub bytes : (p : ℕ) → p < max_size → byte_at ip' m' p ≡ overwritten ip m off len src pos p

abbrev pub WritesOrFull :
    (sb : Superblock) (ip : Inode) (m : Blocks) (off len : ℕ) (src : Data) (pos : ℕ)
    → Outcome (Inode × Blocks)
    → Type 0
WritesOrFull sb ip m off len src pos o =
    ((ip' : Inode) × (m' : Blocks) × (o ≡ ok (ip', m')) × Writes sb ip m off len src pos ip' m')
    ⊎ (o ≡ panic "balloc: out of blocks")

-- Byte p after one round.
round_at :
    (sb : Superblock) (ip ip1 : Inode) (m m1 : Blocks) (off len : ℕ) (src : Data) (pos a p : ℕ)
    → IsBlock sb ip m (off / bsize) a ip1 m1
    → off % bsize + len ≤ bsize
    → p < max_size
    → (if off / bsize == p / bsize
        then bytes_into len (off % bsize) src pos (m1 a) (p % bsize)
        else shows ip1 m1 (p / bsize) (p % bsize))
      ≡ overwritten ip m off len src pos p
round_at sb ip ip1 m m1 off len src pos a p b r g =
    let same = b.shows_same (p / bsize) (p % bsize) (omega (arith, g)) in
    elim (Bool-cases (off / bsize == p / bsize)) [
      | inr e ↦
          let t : (leb off p && ltb p (off + len)) ≡ false = ground (arith, e, r) in rw (e, t) same
      | inl e ↦
          let q : off / bsize ≡ p / bsize = (==_iff (off / bsize) (p / bsize)).0 e in
          let t : (leb (off % bsize) (p % bsize) && ltb (p % bsize) (off % bsize + len))
              ≡ (leb off p && ltb p (off + len)) =
            ground (arith, q) in
          let here : slot ip1 m1 (p / bsize) ≡ a = subst (λ x. slot ip1 m1 x ≡ a) q b.here in
          let old : m1 a (p % bsize) ≡ byte_at ip m p =
            sym (
              subst (λ x. (if x == 0 then 0 else m1 x (p % bsize)) ≡ m1 a (p % bsize)) (sym here)
                (rw (b.found) refl))
            ∙ same in
          rw (e, t)
            (elim (Bool-cases (leb off p && ltb p (off + len))) [
              | inr u ↦ rw (u) old
              | inl u ↦ rw (u) (ap (λ x. src (pos + x)) (ground (arith, u, q)))
            ])
    ]

-- One round: the part of a block.
write_round :
    (sb : Superblock) (ip ip1 : Inode) (m m1 : Blocks) (off len : ℕ) (src : Data) (pos a : ℕ)
    → IsBlock sb ip m (off / bsize) a ip1 m1
    → off < max_size
    → off % bsize + len ≤ bsize
    → Writes sb ip m off len src pos ip1 (update m1 a (bytes_into len (off % bsize) src pos (m1 a)))
write_round sb ip ip1 m m1 off len src pos a b h r =
    let low : off / bsize < indirect = omega (arith, h) in
    let d = bytes_into len (off % bsize) src pos (m1 a) in
    record {
      file = stored-IsFile sb ip1 m1 (off / bsize) a d b.file low b.here b.found;
      dev = b.dev;
      inum = b.inum;
      size = b.size;
      type = b.type;
      bytes = λ p g.
          stored-shows sb ip1 m1 (off / bsize) a d b.file low b.here b.found (p / bsize) (p % bsize)
            (omega (arith, g))
          ∙ round_at sb ip ip1 m m1 off len src pos a p b r g;
    }

two_rounds :
    (ip ip1 : Inode) (m m1 : Blocks) (off left len : ℕ) (src : Data) (pos p : ℕ)
    → len ≤ left
    → byte_at ip1 m1 p ≡ overwritten ip m off len src pos p
    → overwritten ip1 m1 (off + len) (left - len) src (pos + len) p
      ≡ overwritten ip m off left src pos p
two_rounds ip ip1 m m1 off left len src pos p l e =
    elim (Bool-cases (leb (off + len) p && ltb p (off + len + (left - len)))) [
      | inl t ↦
          let u : (leb off p && ltb p (off + left)) ≡ true = ground (arith, t, l) in
          rw (t, u) (ap src (ground (arith, t)))
      | inr t ↦ rw (t) (
          e ∙ elim (Bool-cases (leb off p && ltb p (off + len))) [
            | inl u ↦
                let v : (leb off p && ltb p (off + left)) ≡ true = ground (arith, u, l) in
                rw (u, v) refl
            | inr u ↦
                let v : (leb off p && ltb p (off + left)) ≡ false = ground (arith, t, u, l) in
                rw (u, v) refl
          ])
    ]

Writes-trans :
    (sb : Superblock) (ip ip1 ip2 : Inode) (m m1 m2 : Blocks) (off left len : ℕ) (src : Data)
    (pos : ℕ)
    → len ≤ left
    → Writes sb ip m off len src pos ip1 m1
    → Writes sb ip1 m1 (off + len) (left - len) src (pos + len) ip2 m2
    → Writes sb ip m off left src pos ip2 m2
Writes-trans sb ip ip1 ip2 m m1 m2 off left len src pos l a b = record {
  file = b.file;
  dev = b.dev ∙ a.dev;
  inum = b.inum ∙ a.inum;
  size = b.size ∙ a.size;
  type = b.type ∙ a.type;
  bytes = λ p g. b.bytes p g ∙ two_rounds ip ip1 m m1 off left len src pos p l (a.bytes p g);
}

write_step :
    (sb : Superblock) (ip ip1 : Inode) (m m1 : Blocks) (off left len : ℕ) (src : Data) (pos : ℕ)
    (o : Outcome (Inode × Blocks))
    → len ≤ left
    → Writes sb ip m off len src pos ip1 m1
    → WritesOrFull sb ip1 m1 (off + len) (left - len) src (pos + len) o
    → WritesOrFull sb ip m off left src pos o
write_step sb ip ip1 m m1 off left len src pos o l a (inr e) = inr e
write_step sb ip ip1 m m1 off left len src pos o l a (inl (ip2, m2, e, b)) =
    inl (ip2, m2, e, Writes-trans sb ip ip1 ip2 m m1 m2 off left len src pos l a b)

no_bytes :
    (sb : Superblock) (ip : Inode) (m : Blocks) (off left : ℕ) (src : Data) (pos : ℕ)
    → IsFile sb ip m
    → left ≡ 0
    → WritesOrFull sb ip m off left src pos (ok (ip, m))
no_bytes sb ip m off left src pos f e = inl (
  ip,
  m,
  refl,
  record {
    file = f;
    dev = refl;
    inum = refl;
    size = refl;
    type = refl;
    bytes =
        λ p g. let t : (leb off p && ltb p (off + left)) ≡ false = ground (arith, e) in rw (t) refl;
  },
)

pub write_loop-WritesOrFull :
    (fuel : ℕ) (sb : Superblock) (ip : Inode) (m : Blocks) (src : Data) (pos off left : ℕ)
    → IsFile sb ip m
    → off + left ≤ max_size
    → left ≤ fuel
    → WritesOrFull sb ip m off left src pos (write_loop fuel sb ip src pos off left m)
unfolding write_loop
write_loop-WritesOrFull zero sb ip m src pos off left f h e =
    no_bytes sb ip m off left src pos f (omega (arith, e))
write_loop-WritesOrFull (suc fuel) sb ip m src pos off left f h e = elim (Bool-cases (left == 0)) [
  | inl z ↦ rw (z) (no_bytes sb ip m off left src pos f ((==_iff left 0).0 z))
  | inr z ↦ rw (z) (elim (bmap-Finds sb ip m (off / bsize) f (ground (arith, h, z))) [
    | inr q ↦ rw (q) (inr refl)
    | inl (a, ip1, m1, q, b) ↦
        let w =
          write_round sb ip ip1 m m1 off (min left (bsize - off % bsize)) src pos a b
            (ground (arith, h, z)) (omega arith) in
        rw (q) (
          write_step sb ip ip1 m _ off left (min left (bsize - off % bsize)) src pos _ (omega arith)
            w
            (write_loop-WritesOrFull fuel sb ip1 _ src (pos + min left (bsize - off % bsize))
              (off + min left (bsize - off % bsize)) (left - min left (bsize - off % bsize)) w.file
              (omega (arith, h)) (ground (arith, e, z))))
  ])
]
