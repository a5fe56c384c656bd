-- ===== src/Fs/Directory/Tests.antt =====
-- Runs of dirlookup and dirlink in a directory of two entries, with names of 14 bytes.
use kernel_tracing.Prelude.{◌+◌, ◌≡◌, refl, false, arith, ◌==◌, if◌then◌else◌, Outcome, ok, panic}
use kernel_tracing.Prelude.Int.{ℤ, pos}
use kernel_tracing.Str.{Bytes, strncmp, strncmp_from}
use kernel_tracing.Fs.{Data, Blocks}
use kernel_tracing.Fs.Inode.{
  Inode, readi, read_loop, bmap, map_slot, bytes_from, writei, write_loop, grow,
}
use kernel_tracing.Fs.Inode.Tests.{disk, layout, file, no_devices, file-IsFile}
use kernel_tracing.Fs.Icache.{Icache}
use kernel_tracing.Fs.Directory.{
  dirlookup, dirlink, look_loop, get_found, read_dirent, put_or_add, add_entry, free_loop,
}
use kernel_tracing.Fs.Directory.Entries.{IsDirectory}
use kernel_tracing.Fs.Directory.Lookup.{Dirlooks}
use kernel_tracing.Fs.Directory.Linked.{Dirlinks, after_link, dirlink-Dirlinks, dirlookup-dirlink}

abbrev folder : Inode
folder = record file { type = 1; size = 32 }

folder-IsDirectory : IsDirectory layout folder disk
folder-IsDirectory = record {
  file = record {
    reserved = file-IsFile.reserved;
    small = file-IsFile.small;
    inside = file-IsFile.inside;
    meta = file-IsFile.meta;
    node = file-IsFile.node;
    owned = file-IsFile.owned;
    apart = file-IsFile.apart;
  };
  type = refl;
  whole = refl;
  bounded = omega arith;
}

-- "STUV...", the second name, and "ls"
abbrev second : Bytes
second j = 83 + j

abbrev program : Bytes
program j = if j == 0 then b'l' else if j == 1 then b's' else 0

abbrev junk : Data
junk _ = 7

-- A cache with no references.
abbrev no_references : Icache
no_references = record { lock = false; inode = λ _. record folder { ref = 0 } }

dirlink-Dirlinks_example :
    Dirlinks layout program 5 folder no_references disk
      (dirlink no_devices layout program 5 junk folder no_references disk)
dirlink-Dirlinks_example =
    dirlink-Dirlinks no_devices layout program 5 junk folder no_references disk folder-IsDirectory
      (omega arith) refl

-- The directory and the blocks after dirlink.
abbrev after : Outcome (ℤ × Inode × Icache × Blocks) → Inode × Blocks
after (ok r) = (r.1, r.3)
after (panic why) = (folder, disk)

abbrev linked : Inode × Blocks
linked = after (dirlink no_devices layout program 5 junk folder no_references disk)

link_run :
    dirlink no_devices layout program 5 junk folder no_references disk
    ≡ ok (pos 0, linked.0, no_references, linked.1)
unfolding dirlink dirlookup look_loop get_found read_dirent put_or_add add_entry free_loop readi
    read_loop bmap map_slot bytes_from writei write_loop grow strncmp strncmp_from
link_run = refl

-- The directory has grown by one entry.
size_run : linked.0.size ≡ 48
unfolding dirlink dirlookup look_loop get_found read_dirent put_or_add add_entry free_loop readi
    read_loop bmap map_slot bytes_from writei write_loop grow strncmp strncmp_from
size_run = refl

dirlookup-dirlink_example :
    Dirlooks layout
      (after_link program program 5 folder disk)
      linked.0
      no_references
      linked.1
      (dirlookup no_devices layout program junk linked.0 no_references linked.1)
dirlookup-dirlink_example =
    dirlookup-dirlink no_devices layout program program 5 junk junk folder linked.0 no_references
      no_references no_references disk linked.1 folder-IsDirectory (omega arith) refl link_run refl
