-- ===== src/Ktrace/Names.antt =====
-- The two name fields of a recorded event hold the names that were given, and nothing else.
use kernel_tracing.Prelude.{ℕ, ◌-◌, ◌<◌, ◌≡◌, some, true, arith, ltb, if◌then◌else◌, min}
use kernel_tracing.Prelude.Int.{is_pos}
use kernel_tracing.Str.{Bytes, memset}
use kernel_tracing.Str.Block.{memset-within}
use kernel_tracing.Str.Copy.{IsLength, safestrcpy-zeros}
use kernel_tracing.Ktrace.{
  TraceEvent, TraceBuffer, Running, Call, stamp, comm_source, copy_name, trace_name_len,
}

-- Sixteen bytes: the first 15 at most of the string `t` of length `k`, and zeros.
abbrev pub Holds : (field t : Bytes) (k : ℕ) → Type 0
Holds field t k =
    (j : ℕ) → j < trace_name_len → field j ≡ (if ltb j (min k (trace_name_len - 1)) then t j else 0)

cleared : (m : Bytes) (i : ℕ) → i < trace_name_len → memset m 0 0 trace_name_len i ≡ 0
cleared m i h = ground (arith, memset-within m 0 0 trace_name_len i)

-- An event recorded for process `p` (pid > 0) under the name `e` holds the two names, each cut to 15
-- bytes and padded with zeros: nothing of the event that was in the slot before shows through.
pub stamp-Holds :
    (c : Call) (b : TraceBuffer) (old : TraceEvent) (p : Running) (e : Bytes) (k l : ℕ)
    → c.proc ≡ some p
    → is_pos p.pid ≡ true
    → c.name ≡ some e
    → IsLength p.name 0 k
    → IsLength e 0 l
    → Holds (stamp c b old).comm p.name k × Holds (stamp c b old).event e l
unfolding stamp
stamp-Holds c b old p e k l running positive named hp he = (
  λ j lt.
      rw (running, comm_source, positive)
        (safestrcpy-zeros 16 k _ p.name j lt hp (cleared old.comm)),
  λ j lt. rw (named, copy_name) (safestrcpy-zeros 16 l _ e j lt he (cleared old.event)),
)
