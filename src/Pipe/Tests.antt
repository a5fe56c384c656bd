-- ===== src/Pipe/Tests.antt =====
-- Runs of a pipe, and its theorems at these runs.
use kernel_tracing.Prelude.{
  ℕ, ◌-◌, ◌^◌, ◌≡◌, refl, true, false, List, [], ◌∷◌, arith, Outcome, ok, ◌>>=◌,
}
use kernel_tracing.Prelude.Int.{pos}
use kernel_tracing.Str.{c_string}
use kernel_tracing.Pipe.{Pipe, Ran, pipewrite, piperead, write_loop, read_section, read_loop}
use kernel_tracing.Pipe.Queue.{IsSound}
use kernel_tracing.Pipe.Fifo.{Wrote, ReadEnds, pipewrite-appends, piperead-takes}

-- Counters that are about to wrap, with two bytes in the queue.
abbrev pipe : Pipe
pipe = record {
  lock = false;
  bytes = λ i. i;
  nread = 2 ^ 32 - 2;
  nwrite = 0;
  readopen = true;
  writeopen = true;
}

pipe-IsSound : IsSound pipe
pipe-IsSound = record { nread_fits = omega arith; nwrite_fits = omega arith; bounded = omega arith }

pipewrite-appends_example :
    (r : Ran) × (pipewrite (pos 2) false (c_string "ok") 0 pipe ≡ ok r)
    × Wrote (pos 2) false (c_string "ok") (2 - 0) 0 pipe r.pipe r.result
    × (r.pipe.lock ≡ false)
pipewrite-appends_example = pipewrite-appends (pos 2) false (c_string "ok") 0 pipe pipe-IsSound refl

piperead-takes_example :
    (r : Ran) × (piperead (pos 9) false pipe ≡ ok r)
    × ReadEnds (pos 9) false pipe r
    × IsSound r.pipe
    × (r.pipe.lock ≡ false)
piperead-takes_example = piperead-takes (pos 9) false pipe pipe-IsSound refl

-- Two bytes written and three asked for: the four of the queue come out in order.
bytes_out : Outcome Ran → List ℕ
bytes_out (ok r) = r.out
bytes_out _ = []

write_then_read :
    bytes_out
      (pipewrite (pos 2) false (c_string "ok") 0 pipe >>= λ r. piperead (pos 3) false r.pipe)
    ≡ 510 ∷ 511 ∷ b'o' ∷ []
unfolding bytes_out pipewrite piperead write_loop read_section read_loop
write_then_read = refl
