-- ===== src/Fs/Directory/Lookup.antt =====
-- dirlookup finds the first entry in use with the name.
use kernel_tracing.Prelude.{
  ℕ, zero, suc, ◌+◌, ◌*◌, ◌/◌, ◌<◌, ◌≡◌, refl, ap, ◌∙◌, ◌⊎◌, inl, inr, Bool, true, false, ◌&&◌, not,
  Option, none, some, arith, ltb, ◌==◌, Bool-cases, Option-cases, Outcome, ok, panic,
}
use kernel_tracing.Prelude.Int.{pos, eq_int}
use kernel_tracing.Str.{Bytes}
use kernel_tracing.Str.Names.{name_at, same, name_at_same, strncmp-same}
use kernel_tracing.Fs.{Data, Blocks, Superblock, dirsiz}
use kernel_tracing.Fs.Inode.{Inode, t_dir, short_at}
use kernel_tracing.Fs.Inode.Reading.{byte_at, Keeps}
use kernel_tracing.Fs.Icache.{Icache, ninode}
use kernel_tracing.Fs.Icache.Get.{Got, iget-Gets}
use kernel_tracing.Fs.Directory.{get_found, de_name, namecmp, look_loop, dirlookup}
use kernel_tracing.Fs.Directory.Listing.{
  Entry, entry_at, entries, listing, is_named, lookup, entries_same,
}
use kernel_tracing.Fs.Directory.Entries.{
  IsDirectory, Keeps-byte_at, Keeps-IsDirectory, Keeps-trans, Keeps-refl, read_dirent-entry,
}

test_lem :
    (name : Bytes) (d : Data) (e : Entry)
    → entry_at d 0 ≡ e
    → (not (short_at d 0 == 0) && eq_int (namecmp name (de_name d)) (pos 0))
      ≡ is_named (name_at dirsiz 0 name) e
test_lem name d e h =
    let a =
      strncmp-same 14 name (de_name d)
      ∙ ap (same (name_at 14 0 name))
          (name_at_same 14 0 2 (de_name d) d (λ k l. ap (λ x. d (2 + x)) (omega arith))) in
    ap (λ b. not (short_at d 0 == 0) && b) a ∙ ap (is_named (name_at dirsiz 0 name)) h

-- A lookup gives `found`, and the directory keeps its content; or the disk is full.
abbrev pub LooksUp :
    (sb : Superblock) (found : Option (ℕ × ℕ)) (dp : Inode) (m : Blocks)
    → Outcome (Option (ℕ × ℕ) × Inode × Blocks)
    → Type 0
LooksUp sb found dp m o =
    ((dp' : Inode) × (m' : Blocks) × (o ≡ ok (found, dp', m')) × Keeps sb dp m dp' m')
    ⊎ (o ≡ panic "balloc: out of blocks")

LooksUp-trans :
    (sb : Superblock) (found : Option (ℕ × ℕ)) (dp dp1 : Inode) (m m1 : Blocks)
    (o : Outcome (Option (ℕ × ℕ) × Inode × Blocks))
    → Keeps sb dp m dp1 m1
    → LooksUp sb found dp1 m1 o
    → LooksUp sb found dp m o
LooksUp-trans sb found dp dp1 m m1 o k (inr q) = inr q
LooksUp-trans sb found dp dp1 m m1 o k (inl (dp2, m2, q, l)) =
    inl (dp2, m2, q, Keeps-trans sb dp dp1 dp2 m m1 m2 k l)

look_loop-lookup :
    (fuel n off : ℕ) (has : ℕ → Bool) (sb : Superblock) (name : Bytes) (de : Data) (dp : Inode)
    (m : Blocks)
    → n < fuel
    → off + 16 * n ≡ dp.size
    → IsDirectory sb dp m
    → LooksUp sb
        (lookup (name_at dirsiz 0 name) (entries n off (byte_at dp m)) off)
        dp
        m
        (look_loop fuel has sb name off de dp m)
unfolding look_loop entries lookup
look_loop-lookup zero n off has sb name de dp m h e d = absurd (omega (arith, h))
look_loop-lookup (suc fuel) zero off has sb name de dp m h e d =
    let t : ltb off dp.size ≡ false = ground (arith, e) in
    rw t (inl (dp, m, refl, Keeps-refl sb dp m d.file))
look_loop-lookup (suc fuel) (suc n) off has sb name de dp m h e d =
    let t : ltb off dp.size ≡ true = ground (arith, e) in
    elim (read_dirent-entry "dirlookup read" has sb off de dp m d (omega (arith, e))) [
      | inr q ↦ rw (t, q) (inr refl)
      | inl (x, dp1, m1, q, s, k) ↦
          let b = test_lem name x (entry_at (byte_at dp m) off) s in
          let c = ap (λ z. z.0) s in
          elim (Bool-cases (is_named (name_at dirsiz 0 name) (entry_at (byte_at dp m) off))) [
            | inl y ↦ rw (t, q, b, y, c) (inl (dp1, m1, refl, k))
            | inr y ↦
                let z = k.size in
                let rest =
                  look_loop-lookup fuel n (off + 16) has sb name x dp1 m1 (omega (arith, h))
                    (omega (arith, e, z)) (Keeps-IsDirectory sb dp m dp1 m1 k d) in
                let same_rest =
                  entries_same n (off + 16) (byte_at dp1 m1) (byte_at dp m)
                    (λ p a l. Keeps-byte_at sb dp m dp1 m1 p k (omega (arith, l, e, d.bounded))) in
                rw (t, q, b, y) (LooksUp-trans sb _ dp dp1 m m1 _ k (rw same_rest at rest))
          ]
    ]

-- What is got for a number that was found: an entry of the cache, or all of them are in use.
abbrev pub Enters :
    {R : Type 0} → (dev inum : ℕ) (c : Icache) (result : ℕ → Icache → R) → Outcome R → Type 0
Enters dev inum c result o =
    ((i : ℕ) × (c' : Icache) × (o ≡ ok (result i c')) × Got dev inum c i c')
    ⊎ (o ≡ panic "iget: no inodes") × ((j : ℕ) → j < ninode → 0 < (c.inode j).ref)

-- dirlookup where `found` is the number and the offset of the entry with the name.
abbrev pub Dirlooks :
    (sb : Superblock) (found : Option (ℕ × ℕ)) (dp : Inode) (c : Icache) (m : Blocks)
    → Outcome (Option (ℕ × ℕ) × Inode × Icache × Blocks)
    → Type 0
Dirlooks sb found dp c m o =
    ((dp' : Inode) × (m' : Blocks) × Keeps sb dp m dp' m'
      × (((found ≡ none) × (o ≡ ok (none, dp', c, m')))
          ⊎ (inum : ℕ) × (off : ℕ) × (found ≡ some (inum, off))
            × Enters dp.dev inum c (λ i c'. (some (i, off), dp', c', m')) o))
    ⊎ (o ≡ panic "balloc: out of blocks")

get_found-Enters :
    (dev inum off : ℕ) (c : Icache)
    → c.lock ≡ false
    → Enters dev inum c (λ i c'. (some (i, off), c')) (get_found dev (some (inum, off)) c)
unfolding get_found
get_found-Enters dev inum off c l = elim (iget-Gets dev inum c l) [
  | inl (i, c', q, g) ↦ rw (q) (inl (i, c', refl, g))
  | inr (q, f) ↦ rw (q) (inr (refl, λ j h. (f j h).1))
]

get_found-none : (dev : ℕ) (c : Icache) → get_found dev none c ≡ ok (none, c)
unfolding get_found
get_found-none dev c = refl

-- dirlookup on a directory in order, with the lock of the inode cache free. If an entry in use has
-- the name, which is cut to 14 bytes, it gives the inode that iget gets for the number of the first
-- such entry, with its offset, or panics since all entries of the cache are in use. If there is
-- none, it gives nothing and gets nothing. The directory keeps its content; or a block of the
-- directory that has to be made finds the disk full.
pub dirlookup-lookup :
    (has : ℕ → Bool) (sb : Superblock) (name : Bytes) (de : Data) (dp : Inode) (c : Icache)
    (m : Blocks)
    → IsDirectory sb dp m
    → c.lock ≡ false
    → Dirlooks sb
        (lookup (name_at dirsiz 0 name) (listing dp m) 0)
        dp
        c
        m
        (dirlookup has sb name de dp c m)
unfolding dirlookup
dirlookup-lookup has sb name de dp c m d l =
    let t : (dp.type == t_dir) ≡ true = ground (arith, d.type) in
    elim (look_loop-lookup (dp.size / 16 + 1) (dp.size / 16) 0 has sb name de dp m (omega arith)
      (omega (arith, d.whole)) d) [
        | inr q ↦ rw (t, q) (inr refl)
        | inl (dp1, m1, q, k) ↦
            elim (Option-cases (lookup (name_at dirsiz 0 name) (listing dp m) 0)) [
              | inl n ↦ rw (t, q, n, get_found-none dp1.dev c) (inl (dp1, m1, k, inl (refl, refl)))
              | inr (e, n) ↦
                  let at = ap (λ x. get_found x (some e) c) k.dev in
                  elim (get_found-Enters dp.dev e.0 e.1 c l) [
                    | inl (i, c', z, g) ↦
                        rw (t, q, n, at ∙ z)
                          (inl (dp1, m1, k, inr (e.0, e.1, refl, inl (i, c', refl, g))))
                    | inr (z, full) ↦
                        rw (t, q, n, at ∙ z)
                          (inl (dp1, m1, k, inr (e.0, e.1, refl, inr (refl, full))))
                  ]
            ]
      ]
