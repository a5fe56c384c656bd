-- ===== src/File/Io.antt =====
-- file.c: fileread and filewrite, over readi and writei. The calls of begin_op, ilock, iunlock and
-- end_op are listed with the result: the inode is the one that ilock gives, and no other process
-- changes it between two rounds of filewrite.
pub mod Append
pub mod Writes
pub mod Whole
pub mod Tests
use kernel_tracing.Prelude.{
  ℕ, zero, suc, ◌+◌, ◌-◌, ◌%◌, ◌^◌, ◌⊎◌, inl, inr, Bool, not, List, ◌∷◌, ◌++◌, ltb, if◌then◌else◌,
  Outcome, ok, panic, [], ◌>>=◌,
}
use kernel_tracing.Prelude.Int.{ℤ, pos, negsuc, eq_int, is_neg, is_pos, to_nat, to_int, to_uint}
use kernel_tracing.Fs.{Data, Blocks, Superblock}
use kernel_tracing.Fs.Inode.{Inode, IoResult, refused, device, done, readi, writei}
use kernel_tracing.File.{File, FileKind, fd_none, fd_pipe, fd_inode}

-- `((LOGSIZE-1-1-2) / 2) * 512`
abbrev pub max_write : ℕ
max_write = 6656

-- The int that readi and writei return; `answer` is what the routine of a device returns.
abbrev pub io_count : (answer : ℕ → ℤ) → IoResult → ℤ
io_count answer refused = negsuc 0
io_count answer (device major) = answer major
io_count answer (done count) = to_int count

-- `if(r > 0) f->off += r`
abbrev pub move_offset : ℤ → File → File
move_offset r f = if is_pos r then record f { off = (f.off + to_nat r) % 2 ^ 32 } else f

-- The calls around readi and writei, in their order.
pub data IoCall : Type 0 where
  call_begin_op : IoCall
  call_ilock : IoCall
  call_iunlock : IoCall
  call_end_op : IoCall

-- The calls of one round of filewrite.
abbrev pub one_round : List IoCall
one_round = call_begin_op ∷ call_ilock ∷ call_iunlock ∷ call_end_op ∷ []

-- A call that goes on to piperead or pipewrite of a pipe, or the count returned with the bytes
-- stored, the file, the inode, the blocks and the calls made.
abbrev pub ReadRun : Type 0
ReadRun = ℕ ⊎ (ℤ × List ℕ × File × Inode × Blocks × List IoCall)

abbrev pub WriteRun : Type 0
WriteRun = ℕ ⊎ (ℤ × File × Inode × Blocks × List IoCall)

pub fileread :
    (has : ℕ → Bool) (answer : ℕ → ℤ)
    → Superblock
    → File
    → (n : ℤ) → Inode
    → Blocks
    → Outcome ReadRun
fileread has answer sb f n ip m =
    if not f.readable then ok (inr (negsuc 0, [], f, ip, m, [])) else elim f.kind [
      | fd_pipe pipe ↦ ok (inl pipe)
      | fd_none ↦ panic "fileread"
      | fd_inode _ ↦ do
        r ← readi has sb ip f.off (to_uint n) m
        let c = io_count answer r.0
        ok (inr (c, r.1, move_offset c f, r.2, r.3, call_ilock ∷ call_iunlock ∷ []))
    ]

-- The loop of filewrite from byte i of src on: where it ends, and the calls it makes.
pub write_rounds :
    (fuel : ℕ) (has : ℕ → Bool) (answer : ℕ → ℤ)
    → Superblock
    → (src : Data) (n i : ℕ) → File
    → Inode
    → Blocks
    → Outcome (ℕ × File × Inode × Blocks × List IoCall)
write_rounds zero has answer sb src n i f ip m = ok (i, f, ip, m, [])
write_rounds (suc fuel) has answer sb src n i f ip m =
    if not (ltb i n) then ok (i, f, ip, m, []) else (do
      let n1 = if ltb max_write (n - i) then max_write else n - i
      r ← writei has sb ip (λ j. src (i + j)) f.off n1 m
      let c = io_count answer r.0
      if is_neg c
          then ok (i, move_offset c f, r.1, r.2, one_round)
          else if not (eq_int c (pos n1))
          then panic "short filewrite"
          else (do
            rest ← write_rounds fuel has answer sb src n (i + n1) (move_offset c f) r.1 r.2
            ok (rest.0, rest.1, rest.2, rest.3, one_round ++ rest.4)))

pub filewrite :
    (has : ℕ → Bool) (answer : ℕ → ℤ)
    → Superblock
    → File
    → (src : Data) (n : ℤ) → Inode
    → Blocks
    → Outcome WriteRun
filewrite has answer sb f src n ip m =
    if not f.writable then ok (inr (negsuc 0, f, ip, m, [])) else elim f.kind [
      | fd_pipe pipe ↦ ok (inl pipe)
      | fd_none ↦ panic "filewrite"
      | fd_inode _ ↦ do
        w ← write_rounds (to_nat n) has answer sb src (to_nat n) 0 f ip m
        ok (inr (if eq_int (pos w.0) n then n else negsuc 0, w.1, w.2, w.3, w.4))
    ]
