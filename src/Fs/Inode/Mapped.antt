-- ===== src/Fs/Inode/Mapped.antt =====
-- fs.c: a block found for a place of an inode that had none.
use kernel_tracing.Prelude.{
  ℕ, ◌+◌, ◌-◌, ◌*◌, ◌/◌, ◌%◌, ◌≤◌, ◌<◌, ◌≡◌, refl, sym, subst, ap, ◌∙◌, inl, inr, true, false,
  arith, ltb, ◌==◌, if◌then◌else◌, lt→ltb, ==_iff, Bool-cases, update,
}
use kernel_tracing.Fs.{Blocks, Superblock, uint_at, bblock, readsb, has_bit, bpb}
use kernel_tracing.Fs.Allocation.{IsTaken, readsb_same}
use kernel_tracing.Fs.Inode.{Inode, ndirect, put_word}
use kernel_tracing.Fs.Inode.Words.{uint_at-put_word, uint_at-put_word_other}
use kernel_tracing.Fs.Inode.Address.{
  indirect, slot, IsOwned, IsFile, free-plain, taken_keeps, IsMapped,
}

-- The inode with address n in place i.
abbrev pub with_addr : ℕ → ℕ → Inode → Inode
with_addr i n ip = record ip { addrs = update ip.addrs i n }

-- What the content of block k is: 0 where there is no block.
abbrev pub shows : Inode → Blocks → (k i : ℕ) → ℕ
shows ip m k i = if slot ip m k == 0 then 0 else m (slot ip m k) i

module _ (sb : Superblock) (ip : Inode) (m m' : Blocks) (n : ℕ) (f : IsFile sb ip m)
    (t : IsTaken sb m n m') where
  pub nonzero : (n == 0) ≡ false
  nonzero = let p = free-plain sb ip m n n f t.below t.free t.below in ground (arith, p)

  -- The indirect block is not touched.
  indirect_kept : (ip.addrs ndirect == 0) ≡ false → m' (ip.addrs ndirect) ≡ m (ip.addrs ndirect)
  indirect_kept z =
      taken_keeps sb ip.inum n (ip.addrs ndirect) m m' t (f.owned indirect (omega arith) z)

  pub super_kept : readsb m' ≡ readsb m
  super_kept = readsb_same m m' (
      t.others 1 (let p = free-plain sb ip m n n f t.below t.free t.below in ground (arith, p))
        (let w = f.reserved.after in ground (arith, w)))

  direct_elsewhere :
      (i : ℕ)
      → i < ndirect
      → (l : ℕ) → l ≤ indirect
      → (i == l) ≡ false
      → slot (with_addr i n ip) m' l ≡ slot ip m l
  direct_elsewhere i h l g e = elim (Bool-cases (ltb l ndirect)) [
    | inl a ↦ rw (a, e) refl
    | inr a ↦
        let no : (i == ndirect) ≡ false = ground (arith, h) in
        rw (a, no)
          (elim (Bool-cases (l == indirect)) [
            | inl b ↦ rw (b) refl
            | inr b ↦ rw (b) (elim (Bool-cases (ip.addrs ndirect == 0)) [
              | inl c ↦ rw (c) refl
              | inr c ↦ rw (c, indirect_kept c) refl
            ])
          ])
  ]

  pub direct-IsMapped : (i : ℕ) → i < ndirect → IsMapped sb ip m i n (with_addr i n ip) m'
  direct-IsMapped i h = record {
    dev = refl;
    inum = refl;
    key = omega (arith, h);
    fresh = t.free;
    below = t.below;
    here = rw (lt→ltb _ _ h, (==_iff i i).1 refl) refl;
    elsewhere = direct_elsewhere i h;
    marked = t.marked;
  }

  pub indirect-IsMapped :
      (ip.addrs ndirect == 0) ≡ true → IsMapped sb ip m indirect n (with_addr ndirect n ip) m'
  indirect-IsMapped z = record {
    dev = refl;
    inum = refl;
    key = omega arith;
    fresh = t.free;
    below = t.below;
    here = refl;
    elsewhere = λ l h e. elim (Bool-cases (ltb l ndirect)) [
      | inl a ↦ let no : (ndirect == l) ≡ false = ground (arith, a) in rw (a, no) refl
      | inr a ↦
          let no : (l == indirect) ≡ false = ground (arith, e) in
          rw (a, no, nonzero, z)
            (let zero_at = t.zeroed in
              ground (
                arith,
                zero_at (4 * (l - 12)),
                zero_at (4 * (l - 12) + 1),
                zero_at (4 * (l - 12) + 2),
                zero_at (4 * (l - 12) + 3),
              ))
    ];
    marked = t.marked;
  }

  -- Entry bn of the indirect block, which is block b.
  abbrev pub entered : ℕ → Blocks
  entered bn = update m' (ip.addrs ndirect) (put_word 4 (4 * bn) n (m' (ip.addrs ndirect)))

  module _ (bn : ℕ) (low : bn < 128) (z : (ip.addrs ndirect == 0) ≡ false) where
    own : IsOwned sb ip.inum m (ip.addrs ndirect)
    own = f.owned indirect (omega arith) z

    pub entered_same : (x : ℕ) → (ip.addrs ndirect == x) ≡ false → entered bn x ≡ m' x
    entered_same x e = rw (e) refl

    not_bitmap : (j : ℕ) → j < sb.size → (ip.addrs ndirect == bblock j sb) ≡ false
    not_bitmap j h = let p = own.plain j h in ground (arith, p)

    pub entry-IsMapped : IsMapped sb ip m (12 + bn) n ip (entered bn)
    entry-IsMapped = record {
      dev = refl;
      inum = refl;
      key = omega (arith, low);
      fresh = t.free;
      below = t.below;
      here =
          let a : ltb (12 + bn) ndirect ≡ false = ground arith in
          let b : (12 + bn == indirect) ≡ false = ground (arith, low) in
          let w : 12 + bn - 12 ≡ bn = omega arith in
          rw (a, b, z, w, (==_iff (ip.addrs ndirect) _).1 refl)
            (uint_at-put_word (4 * bn) n (m' (ip.addrs ndirect))
              (let s = f.small in let l = t.below in omega (arith, s, l)));
      elsewhere = λ l h e. elim (Bool-cases (ltb l ndirect)) [
        | inl a ↦ rw (a) refl
        | inr a ↦ elim (Bool-cases (l == indirect)) [
          | inl b ↦ rw (a, b) refl
          | inr b ↦
              rw (a, b, z, (==_iff (ip.addrs ndirect) _).1 refl)
                (uint_at-put_word_other (4 * bn) n (4 * (l - 12)) (m' (ip.addrs ndirect))
                    (ground (arith, a, e))
                  ∙ ap (λ d. uint_at d (4 * (l - 12))) (indirect_kept z))
        ]
      ];
      marked = λ j h.
          ap (λ d. has_bit (j % bpb % 8) (d (j % bpb / 8)))
            (entered_same (bblock j sb) (not_bitmap j h))
          ∙ t.marked j h;
    }

    pub entered_super : readsb (entered bn) ≡ readsb m
    entered_super =
        readsb_same m' (entered bn)
          (entered_same 1 (let p = own.plain n t.below in ground (arith, p)))
        ∙ super_kept

-- A block found keeps the content, since it is full of 0.
pub mapped-shows :
    (sb : Superblock) (ip ip' : Inode) (m m' : Blocks) (k n : ℕ)
    → IsMapped sb ip m k n ip' m'
    → (k < indirect → (slot ip m k == 0) ≡ true)
    → ((i : ℕ) → m' n i ≡ 0)
    → ((l : ℕ) → l < indirect → (slot ip m l == 0) ≡ false → m' (slot ip m l) ≡ m (slot ip m l))
    → (l i : ℕ) → l < indirect
    → shows ip' m' l i ≡ shows ip m l i
mapped-shows sb ip ip' m m' k n g none_there zeros kept l i h = elim (Bool-cases (k == l)) [
  | inl e ↦
      let q = (==_iff k l).0 e in
      let old : (slot ip m l == 0) ≡ true =
        subst (λ x. (slot ip m x == 0) ≡ true) q
          (none_there (subst (λ x. x < indirect) (sym q) h)) in
      let here = subst (λ x. slot ip' m' x ≡ n) q g.here in
      subst (λ x. (if x == 0 then 0 else m' x i) ≡ shows ip m l i) (sym here)
        (rw (old) (let w = zeros i in ground (arith, w)))
  | inr e ↦
      let s = g.elsewhere l (omega (arith, h)) e in
      subst (λ x. (if x == 0 then 0 else m' x i) ≡ shows ip m l i) (sym s)
        (elim (Bool-cases (slot ip m l == 0)) [
          | inl z ↦ rw (z) refl
          | inr z ↦ rw (z) (ap (λ d. d i) (kept l h z))
        ])
]
