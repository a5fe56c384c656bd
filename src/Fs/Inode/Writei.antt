-- ===== src/Fs/Inode/Writei.antt =====
-- fs.c: writei, and readi of what it wrote.
use kernel_tracing.Prelude.{
  ℕ, zero, suc, ◌+◌, ◌-◌, ◌*◌, ◌/◌, ◌%◌, ◌^◌, ◌≤◌, ◌<◌, min, ◌≡◌, refl, sym, subst, ap, ap₂, ◌∙◌,
  ◌⊎◌, inl, inr, Bool, true, false, ◌&&◌, ◌||◌, ◌∷◌, arith, ltb, leb, ◌==◌, if◌then◌else◌,
  Bool-cases, ok, panic, ok_injective,
}
use mathlib.Core.Bool.{false≢true}
use kernel_tracing.Fs.{Data, Blocks, Superblock}
use kernel_tracing.Fs.Inode.{
  Inode, bsize, maxfile, t_dev, IoResult, refused, done, bad_range, bytes_from, put_dinode, place,
  iblock, iupdate, grow, writei, readi,
}
use kernel_tracing.Fs.Inode.Address.{IsFile}
use kernel_tracing.Fs.Inode.Reading.{max_size, byte_at, content_bytes, Keeps, readi-ReadsFile}
use kernel_tracing.Fs.Inode.Writing.{overwritten, Writes, write_loop-WritesOrFull}
use kernel_tracing.Fs.Inode.Update.{updated-IsFile, updated-shows}

-- The inode is in order; its size has grown to the end of what was written, and its content is
-- what it was but for the bytes written.
pub record IsWritten (sb : Superblock) (ip : Inode) (m : Blocks) (src : Data) (off n : ℕ)
    (ip' : Inode) (m' : Blocks) : Type 0 where
  pub file : IsFile sb ip' m'
  pub type : ip'.type ≡ ip.type
  pub size : ip'.size ≡ (if ltb 0 n && ltb ip.size (off + n) then off + n else ip.size)
  pub bytes : (p : ℕ) → p < max_size → byte_at ip' m' p ≡ overwritten ip m off n src 0 p

grow-IsWritten :
    (sb : Superblock) (ip ip1 : Inode) (m m1 : Blocks) (src : Data) (off n : ℕ)
    → 1 < sb.size
    → Writes sb ip m off n src 0 ip1 m1
    → IsWritten sb ip m src off n
        (grow sb n (off + n) (ip1, m1)).0
        (grow sb n (off + n) (ip1, m1)).1
unfolding grow iupdate
grow-IsWritten sb ip ip1 m m1 src off n l w =
    let s = w.size in
    elim (Bool-cases (ltb 0 n && ltb ip1.size (off + n))) [
      | inr e ↦ rw (e) (record {
        file = w.file;
        type = w.type;
        size =
            (let e' : (ltb 0 n && ltb ip.size (off + n)) ≡ false = ground (arith, e, s) in
              rw (e') s);
        bytes = w.bytes;
      })
      | inl e ↦
          let d =
            put_dinode (place ip1.inum) (record ip1 { size = off + n }) (m1 (iblock ip1.inum sb)) in
          rw (e) (record {
            file = updated-IsFile sb ip1 m1 w.file d (off + n) l;
            type = w.type;
            size =
                (let e' : (ltb 0 n && ltb ip.size (off + n)) ≡ true = ground (arith, e, s) in
                  rw (e') refl);
            bytes = λ p g.
                updated-shows sb ip1 m1 w.file d (off + n) (p / bsize) (p % bsize)
                  (omega (arith, g))
                ∙ w.bytes p g;
          })
    ]

-- A range that starts behind the end, wraps around or ends behind the largest file.
abbrev pub out_of_range : Inode → (off n : ℕ) → Bool
out_of_range ip off n = ltb ip.size off || ltb ((off + n) % 2 ^ 32) off || ltb max_size (off + n)

-- What writei comes to on a file that is not a device.
abbrev pub WritesFile :
    (has : ℕ → Bool) (sb : Superblock) (ip : Inode) (m : Blocks) (src : Data) (off n : ℕ) → Type 0
WritesFile has sb ip m src off n =
    ((out_of_range ip off n ≡ true) × (writei has sb ip src off n m ≡ ok (refused, ip, m)))
    ⊎ ((ip' : Inode) × (m' : Blocks) × (writei has sb ip src off n m ≡ ok (done n, ip', m'))
        × (out_of_range ip off n ≡ false)
        × IsWritten sb ip m src off n ip' m')
    ⊎ (writei has sb ip src off n m ≡ panic "balloc: out of blocks")

-- On an inode in order, and not of a device, on a disk of more than one block: writei refuses, and
-- changes nothing, where `off` lies behind the end, the range wraps around or ends behind the largest file; else it changes the bytes
-- from `off` on to those of src and no others, makes the file as long as that, and keeps the inode
-- in order; or the disk is full.
pub writei-WritesFile :
    (has : ℕ → Bool) (sb : Superblock) (ip : Inode) (m : Blocks) (src : Data) (off n : ℕ)
    → IsFile sb ip m
    → 1 < sb.size
    → (ip.type == t_dev) ≡ false
    → WritesFile has sb ip m src off n
unfolding writei
writei-WritesFile has sb ip m src off n f l t = elim (Bool-cases (bad_range ip off n)) [
  | inl e ↦ rw (t, e) (inl (ground (arith, e), refl))
  | inr e ↦ elim (Bool-cases (ltb (maxfile * bsize) (off + n))) [
    | inl g ↦ rw (t, e, g) (inl (ground (arith, g), refl))
    | inr g ↦
        elim (write_loop-WritesOrFull n sb ip m src 0 off n f (ground (arith, g)) (omega arith)) [
          | inr q ↦ rw (t, e, g, q) (inr (inr refl))
          | inl (ip1, m1, q, w) ↦
              rw (t, e, g, q)
                (inr (
                  inl (
                    _,
                    _,
                    refl,
                    ground (arith, e, g),
                    grow-IsWritten sb ip ip1 m m1 src off n l w,
                  )))
        ]
  ]
]

-- The content in the range that was written.
written_bytes :
    (ip ip' : Inode) (m m' : Blocks) (src : Data) (off n : ℕ)
    → ((p : ℕ) → p < max_size → byte_at ip' m' p ≡ overwritten ip m off n src 0 p)
    → off + n ≤ max_size
    → (len start : ℕ) → start + len ≤ n
    → content_bytes ip' m' (off + start) len ≡ bytes_from len start src
unfolding content_bytes bytes_from
written_bytes ip ip' m m' src off n h l zero start g = refl
written_bytes ip ip' m m' src off n h l (suc len) start g =
    let t : (leb off (off + start) && ltb (off + start) (off + n)) ≡ true = ground (arith, g) in
    let q : 0 + (off + start - off) ≡ start = omega arith in
    let here : overwritten ip m off n src 0 (off + start) ≡ src start = rw (t) (ap src q) in
    ap₂ (λ x y. x ∷ y) (h (off + start) (omega (arith, l, g)) ∙ here)
      (ap (λ x. content_bytes ip' m' x len) (omega arith)
        ∙ written_bytes ip ip' m m' src off n h l len (start + 1) (omega (arith, g)))

abbrev is_done : IoResult → Bool
is_done (done _) = true
is_done _ = false

-- readi gives n bytes of src, or finds the disk full.
abbrev pub ReadsBack :
    (has : ℕ → Bool) (sb : Superblock) (n : ℕ) (src : Data) (off : ℕ) (ip : Inode) (m : Blocks)
    → Type 0
ReadsBack has sb n src off ip m =
    ((ip2 : Inode) × (m2 : Blocks) × (readi has sb ip off n m
        ≡ ok (done n, bytes_from n 0 src, ip2, m2))
      × Keeps sb ip m ip2 m2)
    ⊎ (readi has sb ip off n m ≡ panic "balloc: out of blocks")

pub reads_back :
    (has : ℕ → Bool) (sb : Superblock) (ip ip' : Inode) (m m' : Blocks) (src : Data) (off n : ℕ)
    → (ip.type == t_dev) ≡ false
    → ip.size ≤ max_size
    → out_of_range ip off n ≡ false
    → IsWritten sb ip m src off n ip' m'
    → ReadsBack has sb n src off ip' m'
reads_back has sb ip ip' m m' src off n t s r w =
    let size = w.size in
    let small : off + n ≤ max_size = ground (arith, r) in
    let all : min n (ip'.size - off) ≡ n = ground (arith, r, size) in
    let z : off ≡ off + 0 = omega arith in
    let back : content_bytes ip' m' off n ≡ bytes_from n 0 src =
      ap (λ x. content_bytes ip' m' x n) z
      ∙ written_bytes ip ip' m m' src off n w.bytes small n 0 (omega arith) in
    elim (readi-ReadsFile has sb ip' m' off n w.file (ap (λ x. x == t_dev) w.type ∙ t)
      (ground (arith, size, s, r)) (omega (arith, small))) [
        | inl (b, _) ↦ ground (arith, b, r, size)
        | inr (inr q) ↦ inr q
        | inr (inl (ip2, m2, q, k)) ↦ inl (
          ip2,
          m2,
          q ∙ ap₂ (λ x y. ok (done x, y, ip2, m2)) all (ap (content_bytes ip' m' off) all ∙ back),
          k,
        )
      ]

-- readi of what writei wrote gives the bytes that were given to writei, or finds the disk full.
readi-writei :
    (has : ℕ → Bool) (sb : Superblock) (ip ip' : Inode) (m m' : Blocks) (src : Data) (off n : ℕ)
    → IsFile sb ip m
    → 1 < sb.size
    → (ip.type == t_dev) ≡ false
    → ip.size ≤ max_size
    → writei has sb ip src off n m ≡ ok (done n, ip', m')
    → ReadsBack has sb n src off ip' m'
readi-writei has sb ip ip' m m' src off n f l t s h =
    elim (writei-WritesFile has sb ip m src off n f l t) [
      | inl (_, q) ↦ absurd (false≢true (ap (λ x. is_done x.0) (ok_injective (sym q ∙ h))))
      | inr (inr q) ↦ let c = sym q ∙ h in absurd (cc)
      | inr (inl (i, u, q, r, w)) ↦
          let p : (done n, i, u) ≡ (done n, ip', m') = ok_injective (sym q ∙ h) in
          subst (λ x. ReadsBack has sb n src off x.1 x.2) p
            (reads_back has sb ip i m u src off n t s r w)
    ]
