-- ===== src/Fs/Tests.antt =====
-- Runs of fs.c on a disk of twenty blocks whose bitmap is block 6.
use kernel_tracing.Prelude.{
  ℕ, ◌<◌, ◌≡◌, refl, subst, ◌⊎◌, true, some, List, ◌∷◌, arith, ◌==◌, if◌then◌else◌, Outcome, ok,
  panic, [],
}
use kernel_tracing.Fs.{
  Data, Blocks, Superblock, bblock, has_bit, readsb, scan_block, balloc_loop, balloc, skip_slashes,
  element, skipelem,
}
use kernel_tracing.Fs.Bits.{used}
use kernel_tracing.Fs.Allocation.{IsReserved, IsTaken, balloc-IsTaken}
use kernel_tracing.Fs.Path.{Skips, skipelem-words}

abbrev super_block : Data
super_block i = if i == 0 then 20 else if i == 24 then 6 else 0

-- Blocks 0 to 7, 8 and 10 are in use.
abbrev map_block : Data
map_block i = if i == 0 then 255 else if i == 1 then 5 else 0

abbrev disk : Blocks
disk n = if n == 1 then super_block else if n == 6 then map_block else λ _. 7

abbrev layout : Superblock
layout = record {
  size = 20;
  nblocks = 0;
  ninodes = 0;
  nlog = 0;
  logstart = 0;
  inodestart = 0;
  bmapstart = 6;
}

disk-IsReserved : IsReserved layout disk
unfolding readsb has_bit
disk-IsReserved = record {
  on_disk = refl;
  after = omega arith;
  super = refl;
  bitmap = λ j l.
      let q : 6 ≡ bblock j layout = omega (arith, l) in
      subst (λ n. used layout disk n ≡ true) q refl;
}

abbrev blocks_of : Outcome (ℕ × Blocks) → ℕ × Blocks
blocks_of (ok r) = r
blocks_of (panic s) = (0, disk)

abbrev taken : Blocks
taken = (blocks_of (balloc layout disk)).1

-- Block 9 is the first one free.
balloc_run : balloc layout disk ≡ ok (9, taken)
unfolding balloc balloc_loop scan_block has_bit
balloc_run = refl

balloc-IsTaken_example :
    ((n : ℕ) × (m' : Blocks) × (balloc layout disk ≡ ok (n, m')) × IsTaken layout disk n m')
    ⊎ ((balloc layout disk ≡ panic "balloc: out of blocks")
        × ((j : ℕ) → j < 20 → used layout disk j ≡ true))
balloc-IsTaken_example = balloc-IsTaken layout disk disk-IsReserved

-- "//usr/a/"
abbrev path : List ℕ
path = b'/' ∷ b'/' ∷ b'u' ∷ b's' ∷ b'r' ∷ b'/' ∷ b'a' ∷ b'/' ∷ []

path_run : skipelem path ≡ some (b'a' ∷ b'/' ∷ [], b'u' ∷ b's' ∷ b'r' ∷ [])
unfolding skipelem skip_slashes element
path_run = refl

skipelem-words_example : Skips path (skipelem path)
skipelem-words_example = skipelem-words path
