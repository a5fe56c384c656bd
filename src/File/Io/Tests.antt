-- ===== src/File/Io/Tests.antt =====
-- filewrite and fileread on a file of ten bytes.
use kernel_tracing.Prelude.{ℕ, ◌+◌, ◌≡◌, refl, inr, true, arith, Outcome, ok}
use kernel_tracing.Prelude.Int.{ℤ, pos}
use kernel_tracing.Fs.{Data, Blocks}
use kernel_tracing.Fs.Inode.{Inode, bmap, map_slot, writei, write_loop, grow}
use kernel_tracing.Fs.Inode.Tests.{disk, layout, file, no_devices, file-IsFile}
use kernel_tracing.File.{File, fd_inode}
use kernel_tracing.File.Io.{WriteRun, one_round, filewrite, write_rounds}
use kernel_tracing.File.Io.Whole.{FileWrites, filewrite-FileWrites, Rereads, fileread-filewrite}

abbrev no_answer : ℕ → ℤ
no_answer _ = pos 0

-- An open file at its byte 8.
abbrev opened : File
opened = record { kind = fd_inode 0; ref = 1; readable = true; writable = true; off = 8 }

abbrev letters : Data
letters j = j + 97

filewrite-FileWrites_example :
    FileWrites layout opened letters 4 file disk
      (filewrite no_devices no_answer layout opened letters (pos 4) file disk)
filewrite-FileWrites_example =
    filewrite-FileWrites no_devices no_answer layout opened 0 letters 4 file disk refl refl
      file-IsFile (omega arith) refl

-- The open file, the inode and the blocks after the write.
abbrev after : Outcome WriteRun → File × Inode × Blocks
after (ok (inr r)) = (r.1, r.2, r.3)
after _ = (opened, file, disk)

abbrev wrote : File × Inode × Blocks
wrote = after (filewrite no_devices no_answer layout opened letters (pos 4) file disk)

write_run :
    filewrite no_devices no_answer layout opened letters (pos 4) file disk
    ≡ ok (inr (pos 4, wrote.0, wrote.1, wrote.2, one_round))
unfolding filewrite write_rounds writei write_loop bmap map_slot grow
write_run = refl

offset_run : wrote.0.off ≡ 12
unfolding filewrite write_rounds writei write_loop bmap map_slot grow
offset_run = refl

fileread-filewrite_example : Rereads no_devices no_answer layout opened letters 4 wrote.1 wrote.2
fileread-filewrite_example =
    fileread-filewrite no_devices no_answer layout opened wrote.0 opened 0 0 letters 4 file wrote.1
      disk wrote.2 one_round refl refl file-IsFile (omega arith) refl (omega arith) (omega arith)
      write_run refl refl refl
