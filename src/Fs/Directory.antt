-- ===== src/Fs/Directory.antt =====
-- fs.c, directories: dirlookup and dirlink over readi and writei, with the entries that they get and
-- put in the inode cache. An inode is its index there. The content of the directory itself is `dp`,
-- which its holder has locked; its references are those of the cache.
pub mod Listing
pub mod Entries
pub mod Lookup
pub mod Link
pub mod Linked
pub mod Tests
use kernel_tracing.Prelude.{
  ℕ, zero, suc, ◌+◌, ◌-◌, ◌/◌, String, Bool, false, ◌&&◌, not, Option, none, some, List, ◌∷◌, ltb,
  ◌==◌, if◌then◌else◌, Outcome, ok, panic, [], ◌>>=◌,
}
use kernel_tracing.Prelude.Int.{ℤ, pos, negsuc, eq_int}
use kernel_tracing.Str.{Bytes, strncmp, strncpy}
use kernel_tracing.Fs.{Data, Blocks, Superblock, dirsiz}
use kernel_tracing.Fs.Icache.{Icache, iget, iput}
use kernel_tracing.Fs.Inode.{
  Inode, t_dir, IoResult, refused, device, done, readi, writei, put_word, short_at,
}

-- sizeof(struct dirent); the name is at byte 2 of it.
abbrev pub dirent_size : ℕ
dirent_size = 16

abbrev pub de_name : Data → Bytes
de_name de j = de (2 + j)

-- What the bytes stored at &de make of de.
abbrev pub stored : List ℕ → Data → Data
stored [] de j = de j
stored (x ∷ l) de zero = x
stored (x ∷ l) de (suc j) = stored l (λ k. de (suc k)) j

-- `== sizeof(de)`; a directory is no device.
abbrev pub is_whole : IoResult → Bool
is_whole refused = false
is_whole (device major) = false
is_whole (done count) = count == dirent_size

abbrev pub namecmp : Bytes → Bytes → ℤ
namecmp s t = strncmp s t dirsiz

-- `readi(dp, (char*)&de, off, sizeof(de)) != sizeof(de)`
pub read_dirent :
    (why : String)
    → (has : ℕ → Bool) → Superblock
    → (off : ℕ) (de : Data) → Inode
    → Blocks
    → Outcome (Data × Inode × Blocks)
read_dirent why has sb off de dp m = do
  r ← readi has sb dp off dirent_size m
  if is_whole r.0 then ok (stored r.1 de, r.2, r.3) else panic why

-- The loop of dirlookup: the inode number and the offset of the entry.
pub look_loop :
    (fuel : ℕ)
    → (has : ℕ → Bool) → Superblock
    → (name : Bytes) (off : ℕ) (de : Data) → Inode
    → Blocks
    → Outcome (Option (ℕ × ℕ) × Inode × Blocks)
look_loop zero has sb name off de dp m = ok (none, dp, m)
look_loop (suc fuel) has sb name off de dp m =
    if not (ltb off dp.size) then ok (none, dp, m) else (do
      r ← read_dirent "dirlookup read" has sb off de dp m
      if not (short_at r.0 0 == 0) && eq_int (namecmp name (de_name r.0)) (pos 0)
          then ok (some (short_at r.0 0, off), r.1, r.2)
          else look_loop fuel has sb name (off + dirent_size) r.0 r.1 r.2)

-- `return iget(dp->dev, inum)` where the loop has found an entry: the inode and the offset
pub get_found : (dev : ℕ) → Option (ℕ × ℕ) → Icache → Outcome (Option (ℕ × ℕ) × Icache)
get_found dev none c = ok (none, c)
get_found dev (some e) c = do r ← iget dev e.0 c; ok (some (r.0, e.1), r.1)

-- `de` is what the stack holds.
pub dirlookup :
    (has : ℕ → Bool)
    → Superblock
    → (name : Bytes) (de : Data) → Inode
    → Icache
    → Blocks
    → Outcome (Option (ℕ × ℕ) × Inode × Icache × Blocks)
dirlookup has sb name de dp c m = if not (dp.type == t_dir) then panic "dirlookup not DIR" else (do
  r ← look_loop (dp.size / dirent_size + 1) has sb name 0 de dp m
  g ← get_found r.1.dev r.0 c
  ok (g.0, r.1, g.1, r.2))

-- `Look for an empty dirent.`: the offset where the loop ends, and de.
pub free_loop :
    (fuel : ℕ)
    → (has : ℕ → Bool) → Superblock
    → (off : ℕ) (de : Data) → Inode
    → Blocks
    → Outcome (ℕ × Data × Inode × Blocks)
free_loop zero has sb off de dp m = ok (off, de, dp, m)
free_loop (suc fuel) has sb off de dp m = if not (ltb off dp.size) then ok (off, de, dp, m) else (do
  r ← read_dirent "dirlink read" has sb off de dp m
  if short_at r.0 0 == 0
      then ok (off, r.0, r.1, r.2)
      else free_loop fuel has sb (off + dirent_size) r.0 r.1 r.2)

-- `strncpy(de.name, name, DIRSIZ); de.inum = inum;`
abbrev pub fill_dirent : Bytes → (inum : ℕ) → Data → Data
fill_dirent name inum de =
    put_word 2 0 inum
      (λ j. if ltb j 2 then de j else strncpy (de_name de) name (pos dirsiz) (j - 2))

-- dirlink where the name is not in use: it returns 0.
pub add_entry :
    (has : ℕ → Bool)
    → Superblock
    → (name : Bytes) (inum : ℕ) (de : Data) → Inode
    → Blocks
    → Outcome (ℤ × Inode × Blocks)
add_entry has sb name inum de dp m = do
  f ← free_loop (dp.size / dirent_size + 1) has sb 0 de dp m
  w ← writei has sb f.2 (fill_dirent name inum f.1) f.0 dirent_size f.3
  if is_whole w.0 then ok (pos 0, w.1, w.2) else panic "dirlink"

-- dirlink behind its call of dirlookup: an inode that was found is put back, and -1 returned.
pub put_or_add :
    (has : ℕ → Bool)
    → Superblock
    → (name : Bytes) (inum : ℕ) (de : Data) → Option (ℕ × ℕ)
    → Inode
    → Icache
    → Blocks
    → Outcome (ℤ × Inode × Icache × Blocks)
put_or_add has sb name inum de (some e) dp c m = do p ← iput sb e.0 c m; ok (negsuc 0, dp, p.0, p.1)
put_or_add has sb name inum de none dp c m = do
  a ← add_entry has sb name inum de dp m
  ok (a.0, a.1, c, a.2)

pub dirlink :
    (has : ℕ → Bool)
    → Superblock
    → (name : Bytes) (inum : ℕ) (de : Data) → Inode
    → Icache
    → Blocks
    → Outcome (ℤ × Inode × Icache × Blocks)
dirlink has sb name inum de dp c m = do
  r ← dirlookup has sb name de dp c m
  put_or_add has sb name inum de r.0 r.1 r.2 r.3
