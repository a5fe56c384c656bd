-- ===== src/Fs/Ialloc/Tests.antt =====
-- ialloc on a disk whose inode 1 is a directory and all others are free.
use kernel_tracing.Prelude.{◌-◌, ◌≡◌, refl, false, some, arith, ◌==◌, if◌then◌else◌}
use kernel_tracing.Fs.{Blocks, Superblock}
use kernel_tracing.Fs.Inode.{byte_of, put_word, t_dir, t_file}
use kernel_tracing.Fs.Inode.Tests.{layout, file}
use kernel_tracing.Fs.Icache.{Icache}
use kernel_tracing.Fs.Ialloc.{ialloc, first_unused}
use kernel_tracing.Fs.Ialloc.Allocated.{Allocates, ialloc-Allocates}

abbrev no_inodes : Icache
no_inodes = record { lock = false; inode = λ _. record file { ref = 0 } }

abbrev some_inodes : Superblock
some_inodes = record layout { ninodes = 8 }

abbrev with_root : Blocks
with_root b = if b == some_inodes.inodestart then put_word 2 64 t_dir (λ _. 0) else λ _. 0

second_inode_run : first_unused (some_inodes.ninodes - 1) 1 some_inodes with_root ≡ some 2
unfolding first_unused byte_of
second_inode_run = refl

ialloc-Allocates_example :
    Allocates 1 t_file some_inodes no_inodes with_root
      (ialloc 1 t_file some_inodes no_inodes with_root)
ialloc-Allocates_example =
    ialloc-Allocates 1 t_file some_inodes no_inodes with_root refl (omega arith) refl
