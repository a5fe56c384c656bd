-- ===== src/File/Tests.antt =====
-- The file table just after boot, and with one pipe open.
use kernel_tracing.Prelude.{ℕ, ◌≡◌, refl, true, false, some, arith, update, ok, ◌==◌}
use kernel_tracing.File.{Then, fd_none, fd_pipe, File, Ftable, find_free, filealloc, fileclose}
use kernel_tracing.File.Table.{
  Holds, boots, allocs, sets, Counts, Holds-Counts, Closes, fileclose-held,
}

abbrev unused : File
unused = record { kind = fd_none; ref = 0; readable = false; writable = false; off = 0 }

abbrev booted : Ftable
booted = record { lock = false; file = λ _. unused }

abbrev first_taken : Ftable
first_taken = record booted { file = update (λ _. unused) 0 (record unused { ref = 1 }) }

abbrev pipe_end : File
pipe_end = record { kind = fd_pipe 7; ref = 1; readable = false; writable = true; off = 0 }

abbrev piped : Ftable
piped = record booted { file = update (λ _. unused) 0 pipe_end }

booted-Holds : Holds booted (λ _. 0)
booted-Holds = boots booted refl (λ _. refl)

filealloc-booted : filealloc booted ≡ ok (some 0, first_taken)
unfolding filealloc find_free
filealloc-booted = refl

abbrev no_handles : ℕ → ℕ
no_handles _ = 0

abbrev handles : ℕ → ℕ
handles = update (λ _. 0) 0 1

first_taken-Holds : Holds first_taken handles
first_taken-Holds = allocs booted first_taken (λ _. 0) 0 booted-Holds filealloc-booted

piped-Holds : Holds piped handles
piped-Holds = sets first_taken piped handles first_taken-Holds refl (λ f. ground arith)

Holds-Counts_example : Counts piped handles
Holds-Counts_example = Holds-Counts piped handles piped-Holds

fileclose-held_example :
    (left : Then) × (t' : Ftable) × (fileclose 0 piped ≡ ok (left, t'))
    × (t'.lock ≡ false)
    × Closes 1 (piped.file 0) left (t'.file 0)
    × ((i : ℕ) → (0 == i) ≡ false → t'.file i ≡ piped.file i)
fileclose-held_example = fileclose-held piped handles 0 piped-Holds (omega arith)
