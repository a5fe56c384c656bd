-- ===== src/Fs/Inode/Reading.antt =====
-- fs.c: readi gives the bytes of the content.
use kernel_tracing.Prelude.{
  ℕ, zero, suc, ◌+◌, ◌-◌, ◌*◌, ◌/◌, ◌%◌, ◌^◌, ◌≤◌, ◌<◌, min, ◌≡◌, refl, sym, subst, ap, ap₂, ◌∙◌,
  ◌⊎◌, inl, inr, Bool, true, false, ◌||◌, List, [], ◌∷◌, ◌++◌, arith, ltb, ◌==◌, if◌then◌else◌,
  ==_iff, Bool-cases, Outcome, ok, panic, ◌>>=◌,
}
use kernel_tracing.Fs.{Blocks, Superblock}
use kernel_tracing.Fs.Inode.{
  Inode, bsize, bytes_from, read_loop, readi, refused, done, bad_range, clipped, t_dev,
}
use kernel_tracing.Fs.Inode.Address.{indirect, slot, IsFile}
use kernel_tracing.Fs.Inode.Mapped.{shows}
use kernel_tracing.Fs.Inode.Found.{IsBlock}
use kernel_tracing.Fs.Inode.Content.{bmap-Finds}

-- The bytes of the largest file.
abbrev pub max_size : ℕ
max_size = 71680

-- Byte p of the content, and `len` bytes from there on.
abbrev pub byte_at : Inode → Blocks → ℕ → ℕ
byte_at ip m p = shows ip m (p / bsize) (p % bsize)

unfoldable pub content_bytes : Inode → Blocks → (off len : ℕ) → List ℕ
content_bytes ip m off zero = []
content_bytes ip m off (suc len) = byte_at ip m off ∷ content_bytes ip m (off + 1) len

-- The inode is in order and has the content it had.
pub record Keeps (sb : Superblock) (ip : Inode) (m : Blocks) (ip' : Inode) (m' : Blocks)
    : Type 0 where
  pub file : IsFile sb ip' m'
  pub dev : ip'.dev ≡ ip.dev
  pub inum : ip'.inum ≡ ip.inum
  pub size : ip'.size ≡ ip.size
  pub type : ip'.type ≡ ip.type
  pub shows_same : (l i : ℕ) → l < indirect → shows ip' m' l i ≡ shows ip m l i

content_bytes-append :
    (ip : Inode) (m : Blocks) (off a b : ℕ)
    → content_bytes ip m off (a + b) ≡ content_bytes ip m off a ++ content_bytes ip m (off + a) b
unfolding content_bytes
content_bytes-append ip m off zero b =
    let p : off ≡ off + 0 = omega arith in
    let q : 0 + b ≡ b = omega arith in ap₂ (content_bytes ip m) p q
content_bytes-append ip m off (suc a) b =
    let w : suc a + b ≡ suc (a + b) = omega arith in
    ap (content_bytes ip m off) w
    ∙ ap (λ l. byte_at ip m off ∷ l)
        (content_bytes-append ip m (off + 1) a b
          ∙ ap (λ x. content_bytes ip m (off + 1) a ++ content_bytes ip m x b) (omega arith))

content_bytes_same :
    (ip ip' : Inode) (m m' : Blocks) (off len : ℕ)
    → ((l i : ℕ) → l < indirect → shows ip' m' l i ≡ shows ip m l i)
    → off + len ≤ max_size
    → content_bytes ip' m' off len ≡ content_bytes ip m off len
unfolding content_bytes
content_bytes_same ip ip' m m' off zero h l = refl
content_bytes_same ip ip' m m' off (suc len) h l =
    ap₂ (λ x y. x ∷ y) (h (off / bsize) (off % bsize) (omega (arith, l)))
      (content_bytes_same ip ip' m m' (off + 1) len h (omega (arith, l)))

bytes_from-content :
    (ip : Inode) (m : Blocks) (a k : ℕ)
    → slot ip m k ≡ a
    → (a == 0) ≡ false
    → (len start : ℕ) → start + len ≤ bsize
    → bytes_from len start (m a) ≡ content_bytes ip m (k * bsize + start) len
unfolding bytes_from content_bytes
bytes_from-content ip m a k h z zero start l = refl
bytes_from-content ip m a k h z (suc len) start l =
    let q : (k * bsize + start) / bsize ≡ k = omega (arith, l) in
    let r : (k * bsize + start) % bsize ≡ start = omega (arith, l) in
    let here : shows ip m k start ≡ m a start =
      subst (λ x. (if x == 0 then 0 else m x start) ≡ m a start) (sym h) (rw (z) refl) in
    ap₂ (λ x y. x ∷ y) (sym (ap₂ (shows ip m) q r ∙ here))
      (bytes_from-content ip m a k h z len (start + 1) (omega (arith, l))
        ∙ ap (λ x. content_bytes ip m x len) (omega arith))

abbrev pub Reads :
    (sb : Superblock) (ip : Inode) (m : Blocks) (off len : ℕ)
    → Outcome (List ℕ × Inode × Blocks)
    → Type 0
Reads sb ip m off len o =
    ((ip' : Inode) × (m' : Blocks) × (o ≡ ok (content_bytes ip m off len, ip', m'))
      × Keeps sb ip m ip' m')
    ⊎ (o ≡ panic "balloc: out of blocks")

Keeps-trans :
    (sb : Superblock) (ip ip1 ip2 : Inode) (m m1 m2 : Blocks)
    → Keeps sb ip m ip1 m1
    → Keeps sb ip1 m1 ip2 m2
    → Keeps sb ip m ip2 m2
Keeps-trans sb ip ip1 ip2 m m1 m2 p q = record {
  file = q.file;
  dev = q.dev ∙ p.dev;
  inum = q.inum ∙ p.inum;
  size = q.size ∙ p.size;
  type = q.type ∙ p.type;
  shows_same = λ l i h. q.shows_same l i h ∙ p.shows_same l i h;
}

pub IsBlock-Keeps :
    (sb : Superblock) (ip ip' : Inode) (m m' : Blocks) (k a : ℕ)
    → IsBlock sb ip m k a ip' m'
    → Keeps sb ip m ip' m'
IsBlock-Keeps sb ip ip' m m' k a b = record {
  file = b.file;
  dev = b.dev;
  inum = b.inum;
  size = b.size;
  type = b.type;
  shows_same = b.shows_same;
}

-- The bytes of one round, and those of the others behind them.
round_bytes :
    (sb : Superblock) (ip ip1 : Inode) (m m1 : Blocks) (off left len a : ℕ)
    → IsBlock sb ip m (off / bsize) a ip1 m1
    → off + left ≤ max_size
    → len ≤ left
    → off % bsize + len ≤ bsize
    → bytes_from len (off % bsize) (m1 a) ++ content_bytes ip1 m1 (off + len) (left - len)
      ≡ content_bytes ip m off left
round_bytes sb ip ip1 m m1 off left len a b h l r =
    ap₂ (λ x y. x ++ y)
      (bytes_from-content ip1 m1 a (off / bsize) b.here b.found len (off % bsize) r
        ∙ ap (λ x. content_bytes ip1 m1 x len) (omega arith)
        ∙ content_bytes_same ip ip1 m m1 off len b.shows_same (omega (arith, h, l)))
      (content_bytes_same ip ip1 m m1 (off + len) (left - len) b.shows_same (omega (arith, h, l)))
    ∙ sym (content_bytes-append ip m off len (left - len))
    ∙ ap (content_bytes ip m off) (omega (arith, l))

read_step :
    (sb : Superblock) (ip ip1 : Inode) (m m1 : Blocks) (off left len a : ℕ)
    (o : Outcome (List ℕ × Inode × Blocks))
    → IsBlock sb ip m (off / bsize) a ip1 m1
    → off + left ≤ max_size
    → len ≤ left
    → off % bsize + len ≤ bsize
    → Reads sb ip1 m1 (off + len) (left - len) o
    → Reads sb ip m off left
        (o >>= λ rest. ok (bytes_from len (off % bsize) (m1 a) ++ rest.0, rest.1, rest.2))
read_step sb ip ip1 m m1 off left len a o b h l r (inr e) = rw (e) (inr refl)
read_step sb ip ip1 m m1 off left len a o b h l r (inl (ip2, m2, e, k)) = rw (e) (
    inl (
      ip2,
      m2,
      ap (λ x. ok (x, ip2, m2)) (round_bytes sb ip ip1 m m1 off left len a b h l r),
      Keeps-trans sb ip ip1 ip2 m m1 m2 (IsBlock-Keeps sb ip ip1 m m1 (off / bsize) a b) k,
    ))

nothing_left :
    (sb : Superblock) (ip : Inode) (m : Blocks) (off left : ℕ)
    → IsFile sb ip m
    → left ≡ 0
    → Reads sb ip m off left (ok ([], ip, m))
unfolding content_bytes
nothing_left sb ip m off left f e = inl (
  ip,
  m,
  ap (λ x. ok (content_bytes ip m off x, ip, m)) (sym e),
  record {
    file = f;
    dev = refl;
    inum = refl;
    size = refl;
    type = refl;
    shows_same = λ l i _. refl;
  },
)

read_loop-Reads :
    (fuel : ℕ) (sb : Superblock) (ip : Inode) (m : Blocks) (off left : ℕ)
    → IsFile sb ip m
    → off + left ≤ max_size
    → left ≤ fuel
    → Reads sb ip m off left (read_loop fuel sb ip off left m)
unfolding read_loop
read_loop-Reads zero sb ip m off left f h e = nothing_left sb ip m off left f (omega (arith, e))
read_loop-Reads (suc fuel) sb ip m off left f h e = elim (Bool-cases (left == 0)) [
  | inl z ↦ rw (z) (nothing_left sb ip m off left f ((==_iff left 0).0 z))
  | inr z ↦ rw (z) (elim (bmap-Finds sb ip m (off / bsize) f (ground (arith, h, z))) [
    | inr q ↦ rw (q) (inr refl)
    | inl (a, ip1, m1, q, b) ↦ rw (q) (
        read_step sb ip ip1 m m1 off left (min left (bsize - off % bsize)) a _ b h (omega arith)
          (omega arith)
          (read_loop-Reads fuel sb ip1 m1 (off + min left (bsize - off % bsize))
            (left - min left (bsize - off % bsize)) b.file (omega (arith, h))
            (ground (arith, e, z))))
  ])
]

-- What readi comes to on a file that is not a device: -1 for a range that starts behind the end or
-- wraps around, else the bytes of the content from `off` up to the end of the file.
abbrev pub ReadsFile :
    (has : ℕ → Bool) (sb : Superblock) (ip : Inode) (m : Blocks) (off n : ℕ) → Type 0
ReadsFile has sb ip m off n =
    ((ltb ip.size off || ltb ((off + n) % 2 ^ 32) off) ≡ true)
      × (readi has sb ip off n m ≡ ok (refused, [], ip, m))
    ⊎ ((ip' : Inode) × (m' : Blocks) × (readi has sb ip off n m
          ≡ ok (
            done (min n (ip.size - off)),
            content_bytes ip m off (min n (ip.size - off)),
            ip',
            m',
          ))
        × Keeps sb ip m ip' m')
    ⊎ (readi has sb ip off n m ≡ panic "balloc: out of blocks")

-- On an inode in order, not of a device and no longer than the largest file, for n below 2 ^ 32:
-- readi refuses a range that starts behind the end of the
-- file or wraps around; else it gives the bytes of the content from `off` up to the end of the file,
-- n at most, and their number, and keeps the content; or a block it has to make finds the disk full.
pub readi-ReadsFile :
    (has : ℕ → Bool) (sb : Superblock) (ip : Inode) (m : Blocks) (off n : ℕ)
    → IsFile sb ip m
    → (ip.type == t_dev) ≡ false
    → ip.size ≤ max_size
    → n < 2 ^ 32
    → ReadsFile has sb ip m off n
unfolding readi
readi-ReadsFile has sb ip m off n f t s u = elim (Bool-cases (bad_range ip off n)) [
  | inl e ↦ rw (t, e) (inl (refl, refl))
  | inr e ↦
      let k : clipped ip off n ≡ min n (ip.size - off) = ground (arith, e) in
      elim (read_loop-Reads (clipped ip off n) sb ip m off (clipped ip off n) f
        (ground (arith, e, s)) (omega arith)) [
          | inr q ↦ rw (t, e, q) (inr (inr refl))
          | inl (ip', m', q, c) ↦
              rw (t, e, q)
                (inr (inl (ip', m', ap (λ x. ok (done x, content_bytes ip m off x, ip', m')) k, c)))
        ]
]
