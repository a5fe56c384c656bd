-- ===== src/Fs/Truncate/Tests.antt =====
-- A run of itrunc on a file with one block.
use kernel_tracing.Prelude.{ℕ, ◌≡◌, refl, Bool, true, false, arith, Outcome, ok, panic}
use kernel_tracing.Fs.{Blocks, bfree, readsb, has_bit, clear_bit}
use kernel_tracing.Fs.Bits.{used}
use kernel_tracing.Fs.Inode.{Inode, iupdate}
use kernel_tracing.Fs.Inode.Tests.{disk, layout, file, file-IsFile}
use kernel_tracing.Fs.Truncate.{itrunc, free_direct, free_indirect}
use kernel_tracing.Fs.Truncate.Truncated.{IsTruncated, itrunc-IsTruncated}

itrunc-IsTruncated_example :
    (ip' : Inode) × (m' : Blocks) × (itrunc layout file disk ≡ ok (ip', m'))
    × IsTruncated layout file disk ip' m'
itrunc-IsTruncated_example = itrunc-IsTruncated layout file disk file-IsFile (omega arith)

-- Whether block n is in use after the run.
abbrev used_after : Outcome (Inode × Blocks) → ℕ → Bool
used_after (ok r) n = used layout r.1 n
used_after (panic why) n = false

-- Block 7 was that of the file, and block 6 is that of the bitmap.
seven_free : used_after (itrunc layout file disk) 7 ≡ false
unfolding itrunc free_direct free_indirect bfree readsb has_bit clear_bit iupdate
seven_free = refl

six_used : used_after (itrunc layout file disk) 6 ≡ true
unfolding itrunc free_direct free_indirect bfree readsb has_bit clear_bit iupdate
six_used = refl
