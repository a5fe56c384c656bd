-- ===== src/Ktrace/TraceType.antt =====
-- The TRACE_TYPE_ constants of trace.h.
use kernel_tracing.Prelude.Int.{ℤ, pos}

abbrev pub syscall : ℤ
syscall = pos 1

abbrev pub proc : ℤ
proc = pos 2

abbrev pub trap : ℤ
trap = pos 3

abbrev pub mem : ℤ
mem = pos 4
