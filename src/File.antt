-- ===== src/File.antt =====
-- file.c: the table of open files, its allocation and its reference counts. What a closed file
-- refers to is given back by pipeclose or iput, which `fileclose` names as what is left to do.
pub mod Table
pub mod Io
pub mod Tests
use kernel_tracing.Prelude.{
  ℕ, zero, suc, ◌+◌, ◌-◌, Bool, Option, none, some, ltb, ◌==◌, if◌then◌else◌, update, Outcome, ok,
  panic, ◌>>=◌,
}
use kernel_tracing.Spin.{acquire, release}

abbrev pub nfile : ℕ
nfile = 100

-- `type`, with the object of each kind of file
pub data FileKind : Type 0 where
  fd_none : FileKind
  fd_pipe : (pipe : ℕ) → FileKind
  fd_inode : (ip : ℕ) → FileKind

-- `struct file`, its pipe and inode with its type
pub record File : Type 0 where
  pub kind : FileKind
  pub ref : ℕ
  pub readable : Bool
  pub writable : Bool
  pub off : ℕ

-- `ftable`
pub record Ftable : Type 0 where
  pub lock : Bool
  pub file : ℕ → File

-- `for(f = ftable.file; f < ftable.file + NFILE; f++) if(f->ref == 0)`, with `left` files to go
pub find_free : (left f : ℕ) → (ℕ → File) → Option ℕ
find_free zero f file = none
find_free (suc left) f file =
    let rest = find_free left (f + 1) file in if (file f).ref == 0 then some f else rest

taken : Option ℕ → (ℕ → File) → ℕ → File
taken none file = file
taken (some f) file = update file f (record (file f) { ref = 1 })

pub filealloc : Ftable → Outcome (Option ℕ × Ftable)
unfolding taken
filealloc t = do
  locked ← acquire t.lock
  let f = find_free nfile 0 t.file
  unlocked ← release locked
  ok (f, record t { lock = unlocked; file = taken f t.file })

-- filedup and fileclose under the lock
pub dup_locked : ℕ → Ftable → Outcome Ftable
dup_locked f t =
    if ltb ((t.file f).ref) 1
    then panic "filedup"
    else ok (record t { file = update t.file f (record (t.file f) { ref = (t.file f).ref + 1 }) })

pub filedup : ℕ → Ftable → Outcome Ftable
filedup f t = do
  locked ← acquire t.lock
  t' ← dup_locked f (record t { lock = locked })
  unlocked ← release t'.lock
  ok (record t' { lock = unlocked })

-- What fileclose goes on to: nothing, `pipeclose(ff.pipe, ff.writable)`, or iput in a transaction.
pub data Then : Type 0 where
  nothing : Then
  closes_pipe : (pipe : ℕ) (writable : Bool) → Then
  puts_inode : (ip : ℕ) → Then

pub dispose : File → Then
dispose f = elim f.kind [
  | fd_none ↦ nothing
  | fd_pipe pipe ↦ closes_pipe pipe f.writable
  | fd_inode ip ↦ puts_inode ip
]

-- `if(--f->ref > 0) ...`, and the release of the file if not
pub drop_ref : ℕ → Ftable → Then × Ftable
unfolding dispose
drop_ref f t =
    let ff = t.file f in
    if ltb 0 (ff.ref - 1)
    then (nothing, record t { file = update t.file f (record ff { ref = ff.ref - 1 }) })
    else (dispose ff, record t { file = update t.file f (record ff { ref = 0; kind = fd_none }) })

pub close_locked : ℕ → Ftable → Outcome (Then × Ftable)
close_locked f t = if ltb ((t.file f).ref) 1 then panic "fileclose" else ok (drop_ref f t)

pub fileclose : ℕ → Ftable → Outcome (Then × Ftable)
fileclose f t = do
  locked ← acquire t.lock
  r ← close_locked f (record t { lock = locked })
  let t' = r.1
  unlocked ← release t'.lock
  ok (r.0, record t' { lock = unlocked })
