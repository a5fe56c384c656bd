-- ===== src/Syscall/Tests.antt =====
-- System call arguments on a process of two pages.
use kernel_tracing.Prelude.{
  ◌+◌, ◌*◌, ◌^◌, ◌≤◌, ◌≡◌, refl, ◌↔◌, some, arith, ◌==◌, if◌then◌else◌, ok,
}
use kernel_tracing.Prelude.Int.{pos}
use kernel_tracing.Syscall.{
  Caller, load, fetchint, fetchstr, argptr, reads, traceread_args, event_size, fetcharg, outside,
  bad_block, argaddr, argint, check_buffer,
}
use kernel_tracing.Syscall.Check.{traceread_args-inside}
use kernel_tracing.Syscall.Strings.{Fetches, fetchstr-IsString}

-- The string "ab" stands at 5000, and the registers ask for 3 events at 6000.
abbrev two_pages : Caller
two_pages = record {
  sz = 8192;
  mem = λ i. if i == 5000 then 97 else if i == 5001 then 98 else 0;
  rdi = 6000;
  rsi = 3;
  rdx = 0;
  r10 = 0;
  r8 = 0;
  r9 = 0;
}

-- The upper half of an address is not looked at.
argptr_high :
    argptr 0 (pos 8) (record two_pages { rdi = 2 ^ 32 + 6000 }) ≡ ok (some (2 ^ 32 + 6000))
unfolding argptr argaddr fetcharg bad_block
argptr_high = refl

fetched : fetchint 5000 two_pages ≡ some (pos (97 + 256 * 98))
unfolding fetchint load outside
fetched = refl

traceread_args_two : traceread_args two_pages ≡ ok (reads 6000 (pos 3))
unfolding traceread_args argint check_buffer argptr argaddr fetcharg bad_block
traceread_args_two = refl

-- 2 ^ 26 events, whose size in bytes is 0 as an int, pass the check.
traceread_args_many :
    traceread_args (record two_pages { rsi = 2 ^ 26 }) ≡ ok (reads 6000 (pos (2 ^ 26)))
unfolding traceread_args argint check_buffer argptr argaddr fetcharg bad_block
traceread_args_many = refl

traceread_args-inside_example : (6000 ≡ two_pages.rdi) × (6000 + 3 * event_size ≤ 8192)
traceread_args-inside_example =
    traceread_args-inside two_pages 6000 (pos 3) (omega arith) (omega arith) (omega arith)
      traceread_args_two

fetchstr-IsString_example :
    (fetchstr 5000 two_pages ≡ some (5000, pos 2)) ↔ Fetches 5000 two_pages (5000, pos 2)
fetchstr-IsString_example = fetchstr-IsString 5000 two_pages (5000, pos 2) (omega arith)
