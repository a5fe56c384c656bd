-- ===== src/Fs/Directory/Link.antt =====
-- The part of dirlink behind its lookup puts an entry in the first free place, or at the end.
use kernel_tracing.Prelude.{
  ℕ, zero, suc, ◌+◌, ◌-◌, ◌*◌, ◌/◌, ◌%◌, ◌^◌, ◌≤◌, ◌<◌, ◌≡◌, refl, ap, ◌∙◌, ◌⊎◌, inl, inr, Bool,
  true, false, ◌&&◌, arith, ltb, leb, ◌==◌, if◌then◌else◌, Bool-cases, Outcome, ok, panic,
}
use kernel_tracing.Prelude.Int.{ℤ, pos}
use kernel_tracing.Str.{Bytes}
use kernel_tracing.Str.Names.{name_at}
use kernel_tracing.Fs.{Data, Blocks, Superblock, dirsiz}
use kernel_tracing.Fs.Inode.{Inode, t_dev, short_at}
use kernel_tracing.Fs.Inode.Reading.{max_size, byte_at, Keeps}
use kernel_tracing.Fs.Inode.Writei.{IsWritten, writei-WritesFile}
use kernel_tracing.Fs.Directory.{fill_dirent, free_loop, add_entry}
use kernel_tracing.Fs.Directory.Listing.{
  Entry, entries, listing, link, free_place, free_place-length, entry_at_same, entries_same,
  entries-link, entry-fill_dirent, count_after,
}
use kernel_tracing.Fs.Directory.Entries.{
  IsDirectory, Keeps-byte_at, Keeps-IsDirectory, Keeps-listing, Keeps-trans, Keeps-refl,
  read_dirent-entry,
}

-- The loop ends at `place`, and the directory keeps its content; or the disk is full.
abbrev FreeAt :
    (sb : Superblock) (place : ℕ) (dp : Inode) (m : Blocks)
    → Outcome (ℕ × Data × Inode × Blocks)
    → Type 0
FreeAt sb place dp m o =
    ((d : Data) × (dp' : Inode) × (m' : Blocks) × (o ≡ ok (place, d, dp', m'))
      × Keeps sb dp m dp' m')
    ⊎ (o ≡ panic "balloc: out of blocks")

FreeAt-trans :
    (sb : Superblock) (place : ℕ) (dp dp1 : Inode) (m m1 : Blocks)
    (o : Outcome (ℕ × Data × Inode × Blocks))
    → Keeps sb dp m dp1 m1
    → FreeAt sb place dp1 m1 o
    → FreeAt sb place dp m o
FreeAt-trans sb place dp dp1 m m1 o k (inr q) = inr q
FreeAt-trans sb place dp dp1 m m1 o k (inl (d, dp2, m2, q, l)) =
    inl (d, dp2, m2, q, Keeps-trans sb dp dp1 dp2 m m1 m2 k l)

free_loop-free_place :
    (fuel n off : ℕ) (has : ℕ → Bool) (sb : Superblock) (de : Data) (dp : Inode) (m : Blocks)
    → n < fuel
    → off + 16 * n ≡ dp.size
    → IsDirectory sb dp m
    → FreeAt sb
        (free_place (entries n off (byte_at dp m)) off)
        dp
        m
        (free_loop fuel has sb off de dp m)
unfolding free_loop entries free_place
free_loop-free_place zero n off has sb de dp m h e d = absurd (omega (arith, h))
free_loop-free_place (suc fuel) zero off has sb de dp m h e d =
    let t : ltb off dp.size ≡ false = ground (arith, e) in
    rw t (inl (de, dp, m, refl, Keeps-refl sb dp m d.file))
free_loop-free_place (suc fuel) (suc n) off has sb de dp m h e d =
    let t : ltb off dp.size ≡ true = ground (arith, e) in
    elim (read_dirent-entry "dirlink read" has sb off de dp m d (omega (arith, e))) [
      | inr q ↦ rw (t, q) (inr refl)
      | inl (x, dp1, m1, q, s, k) ↦
          let b : (short_at x 0 == 0) ≡ (short_at (byte_at dp m) off == 0) = ap (λ z. z.0 == 0) s in
          elim (Bool-cases (short_at (byte_at dp m) off == 0)) [
            | inl y ↦ rw (t, q, b, y) (inl (x, dp1, m1, refl, k))
            | inr y ↦
                let z = k.size in
                let rest =
                  free_loop-free_place fuel n (off + 16) has sb x dp1 m1 (omega (arith, h))
                    (omega (arith, e, z)) (Keeps-IsDirectory sb dp m dp1 m1 k d) in
                let same_rest =
                  entries_same n (off + 16) (byte_at dp1 m1) (byte_at dp m)
                    (λ p a l. Keeps-byte_at sb dp m dp1 m1 p k (omega (arith, l, e, d.bounded))) in
                rw (t, q, b, y) (FreeAt-trans sb _ dp dp1 m m1 _ k (rw same_rest at rest))
          ]
    ]

-- The entries after a write of fill_dirent's bytes at the free place.
written-listing :
    (sb : Superblock) (name : Bytes) (inum f : ℕ) (de : Data) (dp dp' : Inode) (m m' : Blocks)
    → IsDirectory sb dp m
    → free_place (listing dp m) 0 ≡ f
    → f + 16 ≤ max_size
    → IsWritten sb dp m (fill_dirent name inum de) f 16 dp' m'
    → IsDirectory sb dp' m'
      × (listing dp' m' ≡ link (inum % 2 ^ 16, name_at dirsiz 0 name) (listing dp m))
written-listing sb name inum f de dp dp' m m' d e r w =
    let b = free_place-length (dp.size / 16) 0 (byte_at dp m) in
    let s = w.size in
    let n : dp'.size / 16 ≡ count_after (dp.size / 16) 0 f = ground (arith, s, b, e, d.whole) in
    let bytes : (p : ℕ)
        → p < max_size
        → byte_at dp' m' p ≡ (
            if leb f p && ltb p (f + 16)
            then fill_dirent name inum de (0 + (p - f))
            else byte_at dp m p) =
      w.bytes in
    (
      record {
        file = w.file;
        type = w.type ∙ d.type;
        whole = ground (arith, s, b, e, d.whole);
        bounded = ground (arith, s, r, d.bounded);
      },
      ap (λ k. entries k 0 (byte_at dp' m')) n
          ∙ entries-link (dp.size / 16) 0 f (byte_at dp m) (byte_at dp' m')
              (inum % 2 ^ 16, name_at dirsiz 0 name) e
              (entry_at_same (byte_at dp' m') (fill_dirent name inum de) f 0 (λ k l.
                  let z : (leb f (f + k) && ltb (f + k) (f + 16)) ≡ true = ground (arith, l) in
                  let y : 0 + (f + k - f) ≡ 0 + k = omega arith in
                  bytes (f + k) (omega (arith, l, r)) ∙ rw (z, y) refl)
                ∙ entry-fill_dirent name inum de)
              (λ p a c.
                let z : (leb f p && ltb p (f + 16)) ≡ false = ground (arith, a) in
                bytes p (omega (arith, c, d.bounded)) ∙ rw (z) refl),
    )

-- The entry is linked, or there is no place for it, or the disk is full.
abbrev pub Links :
    (sb : Superblock) (new : Entry) (dp : Inode) (m : Blocks)
    → Outcome (ℤ × Inode × Blocks)
    → Type 0
Links sb new dp m o =
    ((dp' : Inode) × (m' : Blocks) × (o ≡ ok (pos 0, dp', m'))
      × IsDirectory sb dp' m'
      × (listing dp' m' ≡ link new (listing dp m)))
    ⊎ (max_size < free_place (listing dp m) 0 + 16) × (o ≡ panic "dirlink")
    ⊎ (o ≡ panic "balloc: out of blocks")

pub add_entry-Links :
    (has : ℕ → Bool) (sb : Superblock) (name : Bytes) (inum : ℕ) (de : Data) (dp : Inode)
    (m : Blocks)
    → IsDirectory sb dp m
    → 1 < sb.size
    → Links sb (inum % 2 ^ 16, name_at dirsiz 0 name) dp m (add_entry has sb name inum de dp m)
unfolding add_entry
add_entry-Links has sb name inum de dp m d l =
    elim (free_loop-free_place (dp.size / 16 + 1) (dp.size / 16) 0 has sb de dp m (omega arith)
      (omega (arith, d.whole)) d) [
        | inr q ↦ rw (q) (inr (inr refl))
        | inl (x, dp1, m1, q, k) ↦
            let f = free_place (listing dp m) 0 in
            let d1 = Keeps-IsDirectory sb dp m dp1 m1 k d in
            let same_list = Keeps-listing sb dp m dp1 m1 k d in
            let dev : (dp1.type == t_dev) ≡ false = ground (arith, d1.type) in
            let b = free_place-length (dp.size / 16) 0 (byte_at dp m) in
            let s = k.size in
            elim (writei-WritesFile has sb dp1 m1 (fill_dirent name inum x) f 16 d1.file l dev) [
              | inl (z, w) ↦
                  rw (q, w) (inr (inl (ground (arith, z, b, s, d.bounded, d.whole), refl)))
              | inr (inr w) ↦ rw (q, w) (inr (inr refl))
              | inr (inl (dp2, m2, w, z, t)) ↦
                  let r =
                    written-listing sb name inum f x dp1 dp2 m1 m2 d1
                      (ap (λ y. free_place y 0) same_list) (ground (arith, z)) t in
                  rw (q, w)
                    (inl (
                      dp2,
                      m2,
                      refl,
                      r.0,
                      r.1 ∙ ap (link (inum % 2 ^ 16, name_at dirsiz 0 name)) same_list,
                    ))
            ]
      ]
