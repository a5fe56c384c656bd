-- ===== src/Fs/Directory/Entries.antt =====
-- A directory in order, and the reading of one of its entries.
use kernel_tracing.Prelude.{
  ℕ, zero, suc, ◌+◌, ◌-◌, ◌/◌, ◌%◌, ◌≤◌, ◌<◌, min, String, ◌≡◌, refl, ap, ◌∙◌, ◌⊎◌, inl, inr, Bool,
  false, arith, ◌==◌, ok, panic,
}
use kernel_tracing.Fs.{Data, Blocks, Superblock}
use kernel_tracing.Fs.Inode.{Inode, t_dir, readi, done}
use kernel_tracing.Fs.Inode.Address.{IsFile}
use kernel_tracing.Fs.Inode.Reading.{max_size, byte_at, content_bytes, Keeps, readi-ReadsFile}
use kernel_tracing.Fs.Directory.{stored, read_dirent}
use kernel_tracing.Fs.Directory.Listing.{entry_at, entries, listing, entry_at_same, entries_same}

-- A directory in order: its inode is, and its size is that of some entries.
pub record IsDirectory (sb : Superblock) (dp : Inode) (m : Blocks) : Type 0 where
  pub file : IsFile sb dp m
  pub type : dp.type ≡ t_dir
  pub whole : dp.size % 16 ≡ 0
  pub bounded : dp.size ≤ max_size

pub Keeps-byte_at :
    (sb : Superblock) (dp : Inode) (m : Blocks) (dp' : Inode) (m' : Blocks) (p : ℕ)
    → Keeps sb dp m dp' m'
    → p < max_size
    → byte_at dp' m' p ≡ byte_at dp m p
Keeps-byte_at sb dp m dp' m' p k h = k.shows_same (p / 512) (p % 512) (omega (arith, h))

pub Keeps-IsDirectory :
    (sb : Superblock) (dp : Inode) (m : Blocks) (dp' : Inode) (m' : Blocks)
    → Keeps sb dp m dp' m'
    → IsDirectory sb dp m
    → IsDirectory sb dp' m'
Keeps-IsDirectory sb dp m dp' m' k d = record {
  file = k.file;
  type = k.type ∙ d.type;
  whole = omega (arith, d.whole, k.size);
  bounded = omega (arith, d.bounded, k.size);
}

pub Keeps-listing :
    (sb : Superblock) (dp : Inode) (m : Blocks) (dp' : Inode) (m' : Blocks)
    → Keeps sb dp m dp' m'
    → IsDirectory sb dp m
    → listing dp' m' ≡ listing dp m
Keeps-listing sb dp m dp' m' k d =
    ap (λ s. entries (s / 16) 0 (byte_at dp' m')) k.size
    ∙ entries_same (dp.size / 16) 0 (byte_at dp' m') (byte_at dp m)
        (λ p a b. Keeps-byte_at sb dp m dp' m' p k (omega (arith, b, d.bounded)))

pub Keeps-trans :
    (sb : Superblock) (dp dp1 dp2 : Inode) (m m1 m2 : Blocks)
    → Keeps sb dp m dp1 m1
    → Keeps sb dp1 m1 dp2 m2
    → Keeps sb dp m dp2 m2
Keeps-trans sb dp dp1 dp2 m m1 m2 k l = record {
  file = l.file;
  dev = l.dev ∙ k.dev;
  inum = l.inum ∙ k.inum;
  size = l.size ∙ k.size;
  type = l.type ∙ k.type;
  shows_same = λ x i h. l.shows_same x i h ∙ k.shows_same x i h;
}

stored_lem :
    (len off j : ℕ) (dp : Inode) (m : Blocks) (de : Data)
    → j < len
    → stored (content_bytes dp m off len) de j ≡ byte_at dp m (off + j)
unfolding content_bytes
stored_lem zero off j dp m de h = absurd (omega (arith, h))
stored_lem (suc len) off zero dp m de h = let e : off + 0 ≡ off = omega arith in rw e refl
stored_lem (suc len) off (suc j) dp m de h =
    let e : off + suc j ≡ off + 1 + j = omega arith in
    rw e (stored_lem len (off + 1) j dp m (λ k. de (suc k)) (omega (arith, h)))

-- An entry inside of the directory is read, or a block that has to be made finds the disk full.
pub read_dirent-entry :
    (why : String) (has : ℕ → Bool) (sb : Superblock) (off : ℕ) (de : Data) (dp : Inode)
    (m : Blocks)
    → IsDirectory sb dp m
    → off + 16 ≤ dp.size
    → ((d : Data) × (dp' : Inode) × (m' : Blocks) × (read_dirent why has sb off de dp m
          ≡ ok (d, dp', m'))
        × (entry_at d 0 ≡ entry_at (byte_at dp m) off)
        × Keeps sb dp m dp' m')
      ⊎ (read_dirent why has sb off de dp m ≡ panic "balloc: out of blocks")
unfolding read_dirent
read_dirent-entry why has sb off de dp m d h =
    let dev : (dp.type == 3) ≡ false = ground (arith, d.type) in
    let b = d.bounded in
    elim (readi-ReadsFile has sb dp m off 16 d.file dev b (omega arith)) [
      | inl (z, _) ↦ absurd (ground (arith, z, h, b))
      | inr (inr q) ↦ inr (rw q refl)
      | inr (inl (dp', m', q, k)) ↦
          let n : min 16 (dp.size - off) ≡ 16 = omega (arith, h) in
          let q' : readi has sb dp off 16 m ≡ ok (done 16, content_bytes dp m off 16, dp', m') =
            q ∙ ap (λ x. ok (done x, content_bytes dp m off x, dp', m')) n in
          inl (
            stored (content_bytes dp m off 16) de,
            dp',
            m',
            rw q' refl,
            entry_at_same (stored (content_bytes dp m off 16) de) (byte_at dp m) 0 off (λ j l.
                stored_lem 16 off (0 + j) dp m de (omega (arith, l))
                ∙ ap (λ x. byte_at dp m (off + x)) (omega arith)),
            k,
          )
    ]

pub Keeps-refl : (sb : Superblock) (dp : Inode) (m : Blocks) → IsFile sb dp m → Keeps sb dp m dp m
Keeps-refl sb dp m f = record {
  file = f;
  dev = refl;
  inum = refl;
  size = refl;
  type = refl;
  shows_same = λ l i h. refl;
}
