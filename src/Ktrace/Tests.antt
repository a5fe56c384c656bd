-- ===== src/Ktrace/Tests.antt =====
-- Runs of the trace ring, and its theorems at these runs.
use kernel_tracing.Prelude.{
  ℕ, zero, suc, ◌+◌, ◌-◌, ◌%◌, ◌^◌, ◌<◌, ◌≡◌, ◌≢◌, refl, Bool, false, Option, none, some, [], ◌∷◌,
  ◌++◌, Outcome, ok, ◌>>=◌, arith, ◌==◌, if◌then◌else◌, newest,
}
use kernel_tracing.Prelude.Int.{pos}
use kernel_tracing.Str.{c_string}
use kernel_tracing.Str.Copy.{IsLength}
use kernel_tracing.Ktrace.{
  TraceEvent, TraceBuffer, Running, Call, traceevent, traceread, unread, stamp,
}
use kernel_tracing.Ktrace.Names.{Holds, stamp-Holds}
use kernel_tracing.Ktrace.Queue.{IsSound, pending, added, traceevent-newest}
use kernel_tracing.Ktrace.Reader.{traceread-take}

abbrev blank : TraceEvent
blank = record {
  seq = 0;
  ticks = 0;
  type = pos 0;
  pid = pos 0;
  arg0 = pos 0;
  arg1 = pos 0;
  arg2 = pos 0;
  comm = λ _. 0;
  event = λ _. 0;
  overwritten = 0;
}

-- The ring just before its counters wrap, with nothing to read.
abbrev near_wrap : TraceBuffer
near_wrap = record {
  lock = false;
  enabled = 1;
  seq = 2 ^ 32 - 1;
  readseq = 2 ^ 32 - 1;
  overwritten = 0;
  events = λ _. blank;
}

abbrev shell : Running
shell = record { pid = pos 2; name = c_string "sh" }

abbrev fork_call : Call
fork_call = record {
  ticks = 7;
  proc = some shell;
  type = pos 2;
  pid = pos 3;
  arg0 = pos 2;
  arg1 = pos 0;
  arg2 = pos 0;
  name = some (c_string "fork");
}

near_wrap-IsSound : IsSound near_wrap
near_wrap-IsSound = record {
  seq_fits = omega arith;
  readseq_fits = omega arith;
  bounded = omega arith;
  stamped = refl;
}

traceevent-newest_example :
    (b' : TraceBuffer) × (traceevent fork_call near_wrap ≡ ok b')
    × IsSound b'
    × (b'.lock ≡ false)
    × (pending b' ≡ newest 128 (pending near_wrap ++ added fork_call near_wrap ∷ []))
    × (b'.overwritten ≡ (
        if unread near_wrap == 128
        then (near_wrap.overwritten + 1) % 2 ^ 32
        else near_wrap.overwritten))
traceevent-newest_example =
    traceevent-newest fork_call near_wrap near_wrap-IsSound refl (omega arith)

-- Three events recorded, and a fourth in room for 200: the counters have wrapped.
abbrev burst : ℕ → Outcome TraceBuffer → Outcome TraceBuffer
burst zero m = m
burst (suc n) m = burst n (m >>= traceevent fork_call)

counts : Outcome TraceBuffer → Option (ℕ × ℕ × ℕ × ℕ)
counts (ok b) = some (b.seq, b.readseq, b.overwritten, unread b)
counts _ = none

wrapped : counts (burst 3 (ok near_wrap)) ≡ some (2, 2 ^ 32 - 1, 0, 3)
unfolding counts traceevent
wrapped = refl

full : counts (burst 130 (ok near_wrap)) ≡ some (129, 1, 2, 128)
unfolding counts traceevent
full = refl

-- Two unread events, numbered 10 and 11.
abbrev two_unread : TraceBuffer
two_unread = record near_wrap { seq = 12; readseq = 10; events = λ i. record blank { seq = i } }

two_unread-IsSound : IsSound two_unread
two_unread-IsSound = record {
  seq_fits = omega arith;
  readseq_fits = omega arith;
  bounded = omega arith;
  stamped = refl;
}

-- Only the copy to dst[0] succeeds: event 11 is lost.
abbrev one_fits : ℕ → Bool
one_fits i = i == 0

traceread-take_example :
    (b' : TraceBuffer) × (traceread one_fits (pos 5) two_unread
      ≡ ok (pos 1, record blank { seq = 10 } ∷ [], b'))
    × IsSound b'
    × (b'.lock ≡ false)
    × (pending b' ≡ [])
    × (b'.overwritten ≡ 0)
traceread-take_example = traceread-take one_fits 5 two_unread two_unread-IsSound refl (omega arith)

sh-IsLength : IsLength (c_string "sh") 0 2
sh-IsLength = record { stops = refl; before = before }
  where
    before : (j : ℕ) → j < 2 → c_string "sh" (0 + j) ≢ 0
    before zero h = omega arith
    before (suc zero) h = omega arith
    before (suc (suc j)) h = absurd (omega arith)

fork-IsLength : IsLength (c_string "fork") 0 4
fork-IsLength = record { stops = refl; before = before }
  where
    before : (j : ℕ) → j < 4 → c_string "fork" (0 + j) ≢ 0
    before zero h = omega arith
    before (suc zero) h = omega arith
    before (suc (suc zero)) h = omega arith
    before (suc (suc (suc zero))) h = omega arith
    before (suc (suc (suc (suc j)))) h = absurd (omega arith)

stamp-Holds_example :
    Holds (stamp fork_call near_wrap blank).comm (c_string "sh") 2
    × Holds (stamp fork_call near_wrap blank).event (c_string "fork") 4
stamp-Holds_example =
    stamp-Holds fork_call near_wrap blank shell (c_string "fork") 2 4 refl refl refl sh-IsLength
      fork-IsLength
