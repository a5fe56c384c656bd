-- ===== src/Fs.antt =====
-- fs.c, the allocator of disk blocks and the elements of paths. A block is what the buffer cache
-- shows of it inside a transaction: bread reads it there, and log_write with brelse puts it back.
pub mod Bits
pub mod Scan
pub mod Allocation
pub mod Path
pub mod Inode
pub mod Directory
pub mod Truncate
pub mod Icache
pub mod Ialloc
pub mod Tests
use kernel_tracing.Prelude.{
  ℕ, zero, suc, ◌+◌, ◌*◌, ◌/◌, ◌%◌, ◌^◌, Bool, not, Option, none, some, List, ◌∷◌, ltb, ◌==◌,
  if◌then◌else◌, take, update, Outcome, ok, panic, [],
}

abbrev pub Data : Type 0
Data = ℕ → ℕ

-- The blocks of the disk.
abbrev pub Blocks : Type 0
Blocks = ℕ → Data

-- Bits of a bitmap block, BSIZE * 8
abbrev pub bpb : ℕ
bpb = 4096

abbrev pub dirsiz : ℕ
dirsiz = 14

-- `struct superblock`
pub record Superblock : Type 0 where
  pub size : ℕ
  pub nblocks : ℕ
  pub ninodes : ℕ
  pub nlog : ℕ
  pub logstart : ℕ
  pub inodestart : ℕ
  pub bmapstart : ℕ

-- The uint at byte i of a block, on a little-endian machine.
abbrev pub uint_at : Data → ℕ → ℕ
uint_at d i = d i + d (i + 1) * 2 ^ 8 + d (i + 2) * 2 ^ 16 + d (i + 3) * 2 ^ 24

pub readsb : Blocks → Superblock
readsb m =
    let d = m 1 in
    record {
      size = uint_at d 0;
      nblocks = uint_at d 4;
      ninodes = uint_at d 8;
      nlog = uint_at d 12;
      logstart = uint_at d 16;
      inodestart = uint_at d 20;
      bmapstart = uint_at d 24;
    }

abbrev pub bzero : ℕ → Blocks → Blocks
bzero bno m = update m bno (λ _. 0)

-- `(x & (1 << k)) != 0`
unfoldable pub has_bit : (k x : ℕ) → Bool
has_bit zero x = x % 2 == 1
has_bit (suc k) x = has_bit k (x / 2)

-- `x | (1 << k)`
unfoldable pub set_bit : (k x : ℕ) → ℕ
set_bit zero x = x / 2 * 2 + 1
set_bit (suc k) x = let r = set_bit k (x / 2) in r * 2 + x % 2

-- `x & ~(1 << k)`
unfoldable pub clear_bit : (k x : ℕ) → ℕ
clear_bit zero x = x / 2 * 2
clear_bit (suc k) x = let r = clear_bit k (x / 2) in r * 2 + x % 2

-- `BBLOCK(b, sb)`
abbrev pub bblock : ℕ → Superblock → ℕ
bblock b sb = b / bpb + sb.bmapstart

-- The inner loop of balloc, which looks for a free block from b + bi on.
pub scan_block : (left bi b : ℕ) → Superblock → Data → Option ℕ
scan_block zero bi b sb d = none
scan_block (suc left) bi b sb d =
    if not (ltb (b + bi) sb.size)
    then none
    else if has_bit (bi % 8) (d (bi / 8))
    then scan_block left (bi + 1) b sb d
    else some bi

-- Bit bi of bitmap block n set, and cleared.
abbrev pub mark_used : (n bi : ℕ) → Blocks → Blocks
mark_used n bi m = update m n (update (m n) (bi / 8) (set_bit (bi % 8) (m n (bi / 8))))

abbrev pub mark_free : (n bi : ℕ) → Blocks → Blocks
mark_free n bi m = update m n (update (m n) (bi / 8) (clear_bit (bi % 8) (m n (bi / 8))))

-- balloc from block b on; fuel is the number of rounds left.
pub balloc_loop : (fuel b : ℕ) → Superblock → Blocks → Outcome (ℕ × Blocks)
balloc_loop zero b sb m = panic "balloc: out of blocks"
balloc_loop (suc fuel) b sb m =
    let rest = balloc_loop fuel (b + bpb) sb m in
    if ltb b sb.size
    then elim (scan_block bpb 0 b sb (m (bblock b sb))) [
      | none ↦ rest
      | some bi ↦ ok (b + bi, bzero (b + bi) (mark_used (bblock b sb) bi m))
    ]
    else panic "balloc: out of blocks"

-- The loop makes less than one round for each block.
pub balloc : Superblock → Blocks → Outcome (ℕ × Blocks)
balloc sb m = balloc_loop sb.size 0 sb m

-- bfree, which reads the superblock again.
pub bfree : ℕ → Blocks → Outcome Blocks
bfree b m =
    let sb = readsb m in
    let bi = b % bpb in
    if not (has_bit (bi % 8) (m (bblock b sb) (bi / 8)))
    then panic "freeing free block"
    else ok (mark_free (bblock b sb) bi m)

-- `while(*path == '/') path++`
pub skip_slashes : List ℕ → List ℕ
skip_slashes [] = []
skip_slashes (c ∷ l) = if c == b'/' then skip_slashes l else c ∷ l

-- `while(*path != '/' && *path != 0) path++`: what it passes and where it stops.
pub element : List ℕ → List ℕ × List ℕ
element [] = ([], [])
element (c ∷ l) = let rest = element l in if c == b'/' then ([], c ∷ l) else (c ∷ rest.0, rest.1)

-- skipelem on the bytes of a path: the path that is left, and the bytes of the name.
pub skipelem : List ℕ → Option (List ℕ × List ℕ)
unfolding skip_slashes element
skipelem path = elim (skip_slashes path) [
  | [] ↦ none
  | c ∷ l ↦ let r = element (c ∷ l) in some (skip_slashes r.1, take dirsiz r.0)
]
