-- ===== src/Fs/Directory/Linked.antt =====
-- dirlink, and dirlookup behind it.
use kernel_tracing.Prelude.{
  ℕ, ◌+◌, ◌%◌, ◌^◌, ◌<◌, ◌≡◌, refl, sym, subst, ap, ◌∙◌, ◌⊎◌, inl, inr, Bool, false, Option, none,
  some, List, if◌then◌else◌, Outcome, ok, panic, ok_injective, ◌>>=◌,
}
use kernel_tracing.Prelude.Int.{ℤ, pos, negsuc}
use kernel_tracing.Str.{Bytes}
use kernel_tracing.Str.Names.{name_at}
use kernel_tracing.Fs.{Data, Blocks, Superblock, dirsiz}
use kernel_tracing.Fs.Inode.{Inode}
use kernel_tracing.Fs.Icache.{Icache, ninode, iput}
use kernel_tracing.Fs.Icache.Undo.{SameRefs, iput-Got}
use kernel_tracing.Fs.Inode.Reading.{max_size, Keeps}
use kernel_tracing.Fs.Directory.{dirlookup, add_entry, put_or_add, dirlink}
use kernel_tracing.Fs.Directory.Listing.{listing, lookup, link, lookup-link, is_named, free_place}
use kernel_tracing.Fs.Directory.Entries.{IsDirectory, Keeps-IsDirectory, Keeps-listing}
use kernel_tracing.Fs.Directory.Lookup.{Dirlooks, dirlookup-lookup}
use kernel_tracing.Fs.Directory.Link.{add_entry-Links}

-- The name as it is stored.
abbrev pub stored_name : Bytes → List ℕ
stored_name name = name_at dirsiz 0 name

-- What dirlink comes to on a directory: if the name is in use, -1 and the references to inodes as
-- they were, or a panic since all entries of the inode cache are in use; else 0 and the entry linked,
-- or a panic if the largest directory is full; or a panic if the disk is.
abbrev pub Dirlinks :
    (sb : Superblock) (name : Bytes) (inum : ℕ) (dp : Inode) (c : Icache) (m : Blocks)
    → Outcome (ℤ × Inode × Icache × Blocks)
    → Type 0
Dirlinks sb name inum dp c m o =
    ((e : ℕ × ℕ) × (lookup (stored_name name) (listing dp m) 0 ≡ some e)
      × (((dp' : Inode) × (c' : Icache) × (m' : Blocks) × (o ≡ ok (negsuc 0, dp', c', m'))
            × Keeps sb dp m dp' m'
            × SameRefs c c')
          ⊎ (o ≡ panic "iget: no inodes") × ((j : ℕ) → j < ninode → 0 < (c.inode j).ref)))
    ⊎ (lookup (stored_name name) (listing dp m) 0 ≡ none)
      × (((dp' : Inode) × (m' : Blocks) × (o ≡ ok (pos 0, dp', c, m'))
            × IsDirectory sb dp' m'
            × (listing dp' m' ≡ link (inum % 2 ^ 16, stored_name name) (listing dp m)))
          ⊎ (max_size < free_place (listing dp m) 0 + 16) × (o ≡ panic "dirlink"))
    ⊎ (o ≡ panic "balloc: out of blocks")

put_or_add-none :
    (has : ℕ → Bool) (sb : Superblock) (name : Bytes) (inum : ℕ) (de : Data) (dp : Inode)
    (c : Icache) (m : Blocks)
    → put_or_add has sb name inum de none dp c m
      ≡ (do a ← add_entry has sb name inum de dp m; ok (a.0, a.1, c, a.2))
unfolding put_or_add
put_or_add-none has sb name inum de dp c m = refl

put_or_add-some :
    (has : ℕ → Bool) (sb : Superblock) (name : Bytes) (inum : ℕ) (de : Data) (i off : ℕ)
    (dp : Inode) (c : Icache) (m : Blocks)
    → put_or_add has sb name inum de (some (i, off)) dp c m
      ≡ (do p ← iput sb i c m; ok (negsuc 0, dp, p.0, p.1))
unfolding put_or_add
put_or_add-some has sb name inum de i off dp c m = refl

-- dirlink on a directory in order, on a disk of more than one block, with the lock of the inode
-- cache free. If the name, cut to 14 bytes, is that of an entry in use, it returns -1, the directory
-- keeps its content and each inode in the cache its number of references; or it panics since all
-- entries of the cache are in use. Else it puts the number, cut to 16 bits, with the name into the
-- first free entry, or at the end of the directory if there is none, changes no other entry, keeps
-- the directory in order and returns 0; or it panics since the largest directory has no free entry.
-- In both cases a block that has to be made may find the disk full.
pub dirlink-Dirlinks :
    (has : ℕ → Bool) (sb : Superblock) (name : Bytes) (inum : ℕ) (de : Data) (dp : Inode)
    (c : Icache) (m : Blocks)
    → IsDirectory sb dp m
    → 1 < sb.size
    → c.lock ≡ false
    → Dirlinks sb name inum dp c m (dirlink has sb name inum de dp c m)
unfolding dirlink
dirlink-Dirlinks has sb name inum de dp c m d l free =
    elim (dirlookup-lookup has sb name de dp c m d free) [
      | inr q ↦ rw (q) (inr (inr refl))
      | inl (dp1, m1, k, inl (n, q)) ↦
          let d1 = Keeps-IsDirectory sb dp m dp1 m1 k d in
          let s = Keeps-listing sb dp m dp1 m1 k d in
          rw (q, put_or_add-none has sb name inum de dp1 c m1)
            (elim (add_entry-Links has sb name inum de dp1 m1 d1 l) [
              | inl (dp2, m2, w, o, t) ↦ rw (w) (
                  inr (
                    inl (
                      n,
                      inl (dp2, m2, refl, o, t ∙ ap (link (inum % 2 ^ 16, stored_name name)) s),
                    )))
              | inr (inl (z, w)) ↦
                  rw (w)
                    (inr (inl (n, inr (subst (λ x. max_size < free_place x 0 + 16) s z, refl))))
              | inr (inr w) ↦ rw (w) (inr (inr refl))
            ])
      | inl (dp1, m1, k, inr (n, off, e, inr (q, full))) ↦
          rw (q) (inl ((n, off), e, inr (refl, full)))
      | inl (dp1, m1, k, inr (n, off, e, inl (i, c1, q, g))) ↦
          let (c2, p, r) = iput-Got sb dp.dev n i c c1 m1 g in
          rw (q, put_or_add-some has sb name inum de i off dp1 c1 m1, p)
            (inl ((n, off), e, inl (dp1, c2, m1, refl, k, r)))
    ]

-- What a lookup finds after a link: the new entry under its name, what was there under others.
abbrev pub after_link : (name other : Bytes) (inum : ℕ) → Inode → Blocks → Option (ℕ × ℕ)
after_link name other inum dp m =
    if is_named (stored_name other) (inum % 2 ^ 16, stored_name name)
    then some (inum % 2 ^ 16, free_place (listing dp m) 0)
    else lookup (stored_name other) (listing dp m) 0

-- After dirlink has linked a name to a number, with a directory in order, a disk of more than one
-- block and the lock of the inode cache free, dirlookup, with the cache in any state in which its
-- lock is free, finds under each name that is stored as this one the number, cut to 16 bits, if it
-- is not 0; and under every other name what the directory had before. It gets the inode of the
-- number that it finds, or panics since all entries of the cache are in use; or it finds the disk
-- full.
pub dirlookup-dirlink :
    (has : ℕ → Bool) (sb : Superblock) (name other : Bytes) (inum : ℕ) (de de' : Data)
    (dp dp' : Inode) (c c' later : Icache) (m m' : Blocks)
    → IsDirectory sb dp m
    → 1 < sb.size
    → c.lock ≡ false
    → dirlink has sb name inum de dp c m ≡ ok (pos 0, dp', c', m')
    → later.lock ≡ false
    → Dirlooks sb
        (after_link name other inum dp m)
        dp'
        later
        m'
        (dirlookup has sb other de' dp' later m')
dirlookup-dirlink has sb name other inum de de' dp dp' c c' later m m' d l free h quiet =
    elim (dirlink-Dirlinks has sb name inum de dp c m d l free) [
      | inr (inr q) ↦ let c = sym q ∙ h in absurd (cc)
      | inr (inl (n, inr (_, q))) ↦ let c = sym q ∙ h in absurd (cc)
      | inl (e, _, inr (q, _)) ↦ let c = sym q ∙ h in absurd (cc)
      | inl (e, _, inl (dp1, c1, m1, q, _, _)) ↦
          let c = ap (λ x. x.0) (ok_injective (sym q ∙ h)) in absurd (cc)
      | inr (inl (n, inl (dp1, m1, q, d1, s))) ↦
          let found = dirlookup-lookup has sb other de' dp1 later m1 d1 quiet in
          let r =
            subst (λ t. Dirlooks sb t dp1 later m1 (dirlookup has sb other de' dp1 later m1))
              (ap (λ t. lookup (stored_name other) t 0) s
                ∙ lookup-link (stored_name name) (stored_name other) (inum % 2 ^ 16) (listing dp m)
                    0 n)
              found in
          let p : (pos 0, dp1, c, m1) ≡ (pos 0, dp', c', m') = ok_injective (sym q ∙ h) in
          subst
            (λ x.
              Dirlooks sb (after_link name other inum dp m) x.1 later x.3
                (dirlookup has sb other de' x.1 later x.3))
            p r
    ]
