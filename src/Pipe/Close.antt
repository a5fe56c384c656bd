-- ===== src/Pipe/Close.antt =====
-- The page of a pipe is given back once, by the second of the two pipecloses.
use kernel_tracing.Prelude.{◌≡◌, refl, Bool, true, false, not, arith, if◌then◌else◌, ok}
use kernel_tracing.Pipe.{Pipe, on_nread, on_nwrite, Closed, pipeclose}

-- A pipe whose ends are both open, closed at one end and then at the other, in either order: the
-- first call keeps the page and wakes the other end, the second frees it.
pipeclose-freed :
    (p : Pipe) (first : Bool)
    → p.lock ≡ false
    → p.readopen ≡ true
    → p.writeopen ≡ true
    → (c d : Closed) × (pipeclose first p ≡ ok c)
      × (c.freed ≡ false)
      × (c.woken ≡ (if first then on_nread else on_nwrite))
      × (pipeclose (not first) c.pipe ≡ ok d)
      × (d.freed ≡ true)
unfolding pipeclose
pipeclose-freed p true l r w =
    let q = record p { lock = false; writeopen = false } in
    (
      record { pipe = q; woken = on_nread; freed = false },
      record { pipe = record q { readopen = false }; woken = on_nwrite; freed = true },
      ground arith,
      refl,
      refl,
      ground arith,
      refl,
    )
pipeclose-freed p false l r w =
    let q = record p { lock = false; readopen = false } in
    (
      record { pipe = q; woken = on_nwrite; freed = false },
      record { pipe = record q { writeopen = false }; woken = on_nread; freed = true },
      ground arith,
      refl,
      refl,
      ground arith,
      refl,
    )
