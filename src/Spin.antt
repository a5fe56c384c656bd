-- ===== src/Spin.antt =====
-- spinlock.c as the CPU that runs a critical section sees it. `true` says that this CPU holds the
-- lock: taking it twice, and letting go of a lock that is not held, are panics. The wait for
-- another CPU (the xchg loop) lies before the section, whose accesses are then this CPU's alone.
use kernel_tracing.Prelude.{Bool, true, false, Outcome, ok, panic}

abbrev pub acquire : Bool → Outcome Bool
acquire true = panic "acquire"
acquire false = ok true

abbrev pub release : Bool → Outcome Bool
release true = ok false
release false = panic "release"
