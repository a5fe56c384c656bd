-- ===== src/Lib.antt =====
-- A verification library for the live kernel tracing kernel: an xv6 for x86-64 whose kernel
-- records events in a ring, and the dashboard program that reads and draws them.
--
-- The parts and how they meet:
-- - Ktrace (ktrace.c, trace.h): the ring of TRACE_BUF_SIZE events. The kernel calls `traceevent`
--   on system calls, process events, traps and page allocations; `traceread`, through the system
--   call of that name, hands unread events to a process. `traceevent` uses `memset` and
--   `safestrcpy`.
-- - Dashboard (trace.c): the program `trace`. Its loop calls traceread for one event at a time,
--   filters and counts events, keeps the last MAX_TRACE_ROWS of them and draws the board.
-- - Ring: a ring of slots with a start and a length, and the window of values it holds. Both
--   rings above, the pipe and the input of the console are read through it.
-- - Str (string.c, with `stosb` and `stosl` of x86.h) and Ulib (ulib.c): C strings and blocks.
-- - Pipe (pipe.c): the pipe's ring of PIPESIZE bytes under its lock.
-- - Log (log.c, over a cached block for each block): the write-ahead log of the file system, its
--   transactions and its recovery.
-- - Bio (bio.c, memide.c): the buffer cache over the disk in memory, one buffer for a block. Log
--   uses of it the cached contents of a block and bwrite, which Log models again with a crash.
-- - Fs (fs.c): the allocator of disk blocks over the bitmap, and the elements of a path (skipelem). Its blocks
--   are what the buffer cache shows of them inside a transaction. Fs.Inode maps the blocks of an
--   inode with bmap, which uses the allocator, and reads and writes a sequence of bytes in them
--   (readi, writei, iupdate); Fs.Inode.Mapped says which sequence that is.
--   Fs.Icache counts the references to the entries of the inode cache (iget, idup, iput),
--   and Fs.Ialloc takes a free inode of the disk and an entry for it (ialloc).
--   Fs.Directory looks a name up and links one (dirlookup, dirlink) in the entries of such a
--   sequence, with iget and iput on the inode cache; an inode is its index there. Fs.Truncate
--   gives the blocks of an inode back (itrunc).
-- - Console (console.c): consoleintr edits a line in the ring of input bytes, and consoleread
--   takes the lines that are complete. Console.Editor is the editor that it stands for.
-- - SleepLock (sleeplock.c): the lock of a buffer, held while a process sleeps.
-- - Proc (proc.c): the table of processes; fork, exit, wait, sleep, wakeup, kill and the scheduler.
-- - Grep (grep.c): the matcher of regular expressions and the loop over the lines of a file.
-- - Kalloc (kalloc.c): the free list of physical pages, which records its events in the ring.
-- - File (file.c): the table of open files and its reference counts. fileclose goes on to the
--   pipe or to the file system. File.Io reads and writes an open file at its offset (fileread,
--   filewrite) through readi and writei, with the calls of the log and of the inode's lock listed;
--   between the rounds of filewrite no other process changes the file or the inode.
-- - Syscall (syscall.c, and sys_traceread of sysproc.c): the fetching and checking of system call
--   arguments.
-- - Spin (spinlock.c): `acquire` and `release` as the CPU inside a critical section sees them.
-- - Prelude: shared names, tests and lists over the native numbers, C's int as the integers ℤ,
--   and `Outcome`, which is a value or a `panic`.
--
-- Conventions. A uint or addr_t is a natural number below 2 ^ 32 or 2 ^ 64, its wrap-around
-- written out with `%`; where a counter cannot wrap the lemma says so. An int is an integer of ℤ.
-- An array is a function on ℕ, a C string an array with a 0 in it or the list of its bytes before
-- the 0. A lock is a Boolean: whether this CPU holds it. Calls that change state return the new
-- state; a call that may panic returns an `Outcome`, and sleeping is a result of its own, after
-- which the code tries again.
--
-- Parameters. `fits` stands for copyout: whether the copy of the i-th event to the process
-- succeeds, and `answer` for what the read and write routines of devices return. The dashboard's
-- inputs are the results of its calls of traceread and uptime, one after the other; what it draws
-- is the list of its calls of vidputs. A machine with a disk has `power`, the number of disk
-- writes after which it changes no more, so that a crash at any point is a value of `power`. `has`
-- says for which device numbers devsw has a routine, and `de` is what the stack holds where
-- dirlookup and dirlink have their entry.
--
-- Loops. A loop with a counter is a recursion on the rounds left; the loops over strings carry a
-- bound as fuel, and their lemmas give a bound that is enough (the position of the 0, or n). The
-- digits of a number have the number itself as fuel, since it shrinks with every digit. The loop
-- of the dashboard runs once for each input. freerange has the number of pages below its end as
-- fuel, which is more than it frees; balloc has the number of blocks, more than its rounds. The loops of readi and writei have
-- the bytes wanted as rounds, each of which moves at least one; the loop of ^U has 128, the size
-- of its buffer; the loops over a directory have one round for each entry and one more. The loop of
-- filewrite has the bytes to write as rounds, each of which moves at least one, and that of iget the
-- entries of the cache.
--
-- Other parts of the kernel. What vm.c, kalloc.c and fs.c return to proc.c is an argument of the
-- model of proc.c, and the calls to them are listed with its result. nextpid wraps
-- around at 2 ^ 32; the reference counts of buffers and inodes are natural numbers that are added
-- to without a bound.
--
-- Not modelled: the hardware (drivers, boot, traps, context switch), other CPUs inside a critical
-- section, virtual memory, the walk along a path, the system calls on files, the output side of
-- the console, the shell and the user programs other than trace and grep. Fs has one
-- device. The interleavings of pipes, logs and processes are sequences of their calls.
pub mod Prelude
pub mod Spin
pub mod Str
pub mod Ring
pub mod Ktrace
pub mod Ulib
pub mod Dashboard
pub mod Pipe
pub mod Kalloc
pub mod Log
pub mod File
pub mod Syscall
pub mod Proc
pub mod Bio
pub mod Console
pub mod Fs
pub mod Grep
pub mod SleepLock
