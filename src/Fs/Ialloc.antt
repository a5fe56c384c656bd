-- ===== src/Fs/Ialloc.antt =====
-- fs.c, ialloc: the first free inode on the disk is taken.
pub mod Seek
pub mod Allocated
pub mod Tests
use kernel_tracing.Prelude.{
  ℕ, zero, suc, ◌+◌, ◌-◌, Bool, ◌&&◌, Option, none, some, leb, ltb, ◌==◌, if◌then◌else◌, update,
  Outcome, ok, panic, ◌>>=◌,
}
use kernel_tracing.Fs.{Data, Blocks, Superblock}
use kernel_tracing.Fs.Inode.{iblock, place, put_word, short_at}
use kernel_tracing.Fs.Icache.{Icache, iget}

-- `dip->type == 0`
abbrev pub is_unallocated : Superblock → (inum : ℕ) → Blocks → Bool
is_unallocated sb inum m = short_at (m (iblock inum sb)) (place inum) == 0

-- The loop of ialloc from inode inum on, with `left` inodes to go.
pub first_unused : (left inum : ℕ) → Superblock → Blocks → Option ℕ
first_unused zero inum sb m = none
first_unused (suc left) inum sb m =
    let rest = first_unused left (inum + 1) sb m in
    if is_unallocated sb inum m then some inum else rest

-- `memset(dip, 0, sizeof(*dip)); dip->type = type`, for the dinode at byte i of a block
abbrev pub new_dinode : (i type : ℕ) → Data → Data
new_dinode i type d = put_word 2 i type (λ j. if leb i j && ltb j (i + 64) then 0 else d j)

pub ialloc : (dev type : ℕ) → Superblock → Icache → Blocks → Outcome (ℕ × Icache × Blocks)
ialloc dev type sb c m = elim (first_unused (sb.ninodes - 1) 1 sb m) [
  | none ↦ panic "ialloc: no inodes"
  | some inum ↦ do
    let b = iblock inum sb
    r ← iget dev inum c
    ok (r.0, r.1, update m b (new_dinode (place inum) type (m b)))
]
