-- ===== src/Fs/Inode/Tests.antt =====
-- Runs of bmap, readi and writei on a disk of twenty blocks with a file of ten bytes in block 7. Inode
-- 1 is in block 3 and the bitmap in block 6.
use kernel_tracing.Prelude.{
  ℕ, ◌+◌, ◌≤◌, ◌≡◌, refl, sym, subst, ap, ◌∙◌, inl, inr, Bool, true, false, ◌||◌, List, ◌∷◌, arith,
  ◌==◌, if◌then◌else◌, ==_iff, Bool-cases, Outcome, ok, panic, [],
}
use kernel_tracing.Fs.{Data, Blocks, Superblock, bblock, readsb, has_bit}
use kernel_tracing.Fs.Bits.{used}
use kernel_tracing.Fs.Allocation.{IsReserved}
use kernel_tracing.Fs.Inode.{
  Inode, IoResult, done, bytes_from, map_slot, bmap, read_loop, write_loop, readi, writei, grow,
  iupdate, load_inode,
}
use kernel_tracing.Fs.Inode.Address.{indirect, slot, IsOwned, IsFile}
use kernel_tracing.Fs.Inode.Reading.{ReadsFile, readi-ReadsFile}
use kernel_tracing.Fs.Inode.Update.{Reloads, Fits, load_inode-iupdate}
use kernel_tracing.Fs.Inode.Writei.{WritesFile, writei-WritesFile}

abbrev super_block : Data
super_block i = if i == 0 then 20 else if i == 20 then 3 else if i == 24 then 6 else 0

-- Blocks 0 to 7 are in use.
abbrev map_block : Data
map_block i = if i == 0 then 255 else 0

abbrev pub disk : Blocks
disk n =
    if n == 1
    then super_block
    else if n == 6
    then map_block
    else if n == 7
    then (λ i. i + 65)
    else λ _. 0

abbrev pub layout : Superblock
layout = record {
  size = 20;
  nblocks = 0;
  ninodes = 0;
  nlog = 0;
  logstart = 0;
  inodestart = 3;
  bmapstart = 6;
}

abbrev pub file : Inode
file = record {
  dev = 1;
  inum = 1;
  ref = 1;
  lock = record { lk = false; locked = true; pid = 5 };
  valid = true;
  type = 2;
  major = 0;
  minor = 0;
  nlink = 1;
  size = 10;
  addrs = λ k. if k == 0 then 7 else 0;
}

used_number : (n k : ℕ) → (n == k) ≡ true → used layout disk k ≡ true → used layout disk n ≡ true
used_number n k e u = subst (λ x. used layout disk x ≡ true) (sym ((==_iff n k).0 e)) u

meta_used : (n : ℕ) → (n == 0 || n == 1 || n == 3 || n == 6) ≡ true → used layout disk n ≡ true
unfolding has_bit
meta_used n h = elim (Bool-cases (n == 0)) [
  | inl e ↦ used_number n 0 e refl
  | inr e0 ↦ elim (Bool-cases (n == 1)) [
    | inl e ↦ used_number n 1 e refl
    | inr e1 ↦ elim (Bool-cases (n == 3)) [
      | inl e ↦ used_number n 3 e refl
      | inr e3 ↦ used_number n 6 (ground (arith, h, e0, e1, e3)) refl
    ]
  ]
]

disk-IsReserved : IsReserved layout disk
unfolding readsb has_bit
disk-IsReserved = record {
  on_disk = refl;
  after = omega arith;
  super = refl;
  bitmap = λ j l.
      let q : 6 ≡ bblock j layout = omega (arith, l) in
      subst (λ n. used layout disk n ≡ true) q refl;
}

file-slot : (k : ℕ) → k ≤ indirect → (slot file disk k == 0) ≡ false → k ≡ 0
file-slot k h e = ground (arith, e)

seven-IsOwned : IsOwned layout 1 disk 7
unfolding has_bit
seven-IsOwned = record { below = omega arith; in_use = refl; plain = λ j h. ground (arith, h) }

pub file-IsFile : IsFile layout file disk
file-IsFile = record {
  reserved = disk-IsReserved;
  small = omega arith;
  inside = λ j h. omega (arith, h);
  meta = λ j n h l e. meta_used n (ground (arith, e, h));
  node = λ j h. ground (arith, h);
  owned = λ k h e.
      subst (λ x. IsOwned layout 1 disk (slot file disk x)) (sym (file-slot k h e)) seven-IsOwned;
  apart = λ k l h g e q. file-slot k h e ∙ sym (file-slot l g (ap (λ x. x == 0) (sym q) ∙ e));
}

abbrev pub no_devices : ℕ → Bool
no_devices _ = false

abbrev bytes_read : Outcome (IoResult × List ℕ × Inode × Blocks) → List ℕ
bytes_read (ok r) = r.1
bytes_read (panic s) = []

-- The last two bytes of the file.
read_run : bytes_read (readi no_devices layout file 8 5 disk) ≡ 73 ∷ 74 ∷ []
unfolding readi read_loop bmap map_slot bytes_from
read_run = refl

readi-ReadsFile_example : ReadsFile no_devices layout file disk 8 5
readi-ReadsFile_example =
    readi-ReadsFile no_devices layout file disk 8 5 file-IsFile refl (omega arith) (omega arith)

-- Six hundred bytes of the number 1, behind the second one.
abbrev ones : Data
ones _ = 1

writei-WritesFile_example : WritesFile no_devices layout file disk ones 2 600
writei-WritesFile_example =
    writei-WritesFile no_devices layout file disk ones 2 600 file-IsFile (omega arith) refl

abbrev written : Outcome (IoResult × Inode × Blocks) → Inode × Blocks
written (ok r) = (r.1, r.2)
written (panic s) = (file, disk)

-- Three ones at byte 5.
abbrev after : Inode × Blocks
after = written (writei no_devices layout file ones 5 3 disk)

write_run : writei no_devices layout file ones 5 3 disk ≡ ok (done 3, after.0, after.1)
unfolding writei write_loop bmap map_slot grow
write_run = refl

file-Fits : Fits file
file-Fits = record {
  type = omega arith;
  major = omega arith;
  minor = omega arith;
  nlink = omega arith;
  size = omega arith;
  addrs = λ k h. ground arith;
}

load_inode-iupdate_example :
    Reloads file
      (load_inode layout (record file { valid = false; size = 0 }) (iupdate layout file disk))
load_inode-iupdate_example =
    load_inode-iupdate layout file (record file { valid = false; size = 0 }) disk file-Fits refl
      refl
