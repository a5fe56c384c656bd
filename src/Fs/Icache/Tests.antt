-- ===== src/Fs/Icache/Tests.antt =====
-- Two calls of iget on a cache with no references.
use kernel_tracing.Prelude.{◌≡◌, refl, false, update, ok}
use kernel_tracing.Fs.Inode.{Inode}
use kernel_tracing.Fs.Inode.Tests.{file}
use kernel_tracing.Fs.Icache.{Icache, iget, find_entry}
use kernel_tracing.Fs.Icache.Get.{Gets, iget-Gets}
use kernel_tracing.Fs.Icache.Held.{boots, gets, IsSound, Holds-IsSound}

abbrev unused_entry : Inode
unused_entry = record file { ref = 0 }

abbrev unused : Icache
unused = record { lock = false; inode = λ _. unused_entry }

abbrev one_used : Icache
one_used = record {
  lock = false;
  inode = update unused.inode 0 (record unused_entry { dev = 1; inum = 7; ref = 1; valid = false });
}

iget_run : iget 1 7 unused ≡ ok (0, one_used)
unfolding iget find_entry
iget_run = refl

abbrev twice_used : Icache
twice_used = record {
  lock = false;
  inode = update one_used.inode 0 (record (one_used.inode 0) { ref = 2 });
}

hit_run : iget 1 7 one_used ≡ ok (0, twice_used)
unfolding iget find_entry
hit_run = refl

iget-Gets_example : Gets 1 7 one_used (iget 1 7 one_used)
iget-Gets_example = iget-Gets 1 7 one_used refl

Holds-IsSound_example : IsSound twice_used (update (update (λ _. 0) 0 1) 0 2)
Holds-IsSound_example = Holds-IsSound twice_used (update (update (λ _. 0) 0 1) 0 2) (
    gets one_used twice_used (update (λ _. 0) 0 1) 1 7 0
      (gets unused one_used (λ _. 0) 1 7 0 (boots unused refl (λ _. refl)) iget_run) hit_run)
