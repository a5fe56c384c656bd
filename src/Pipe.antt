-- ===== src/Pipe.antt =====
-- pipe.c: a bounded byte queue between processes. A call runs until it returns or sleeps; sleep()
-- lets go of the pipe's lock, and a call that is woken takes the lock again and goes on where it
-- slept, which is the same loop at the index that it had reached.
pub mod Fifo
pub mod Queue
pub mod Close
pub mod Tests
use kernel_tracing.Prelude.{
  ℕ, zero, suc, ◌+◌, ◌-◌, ◌%◌, ◌^◌, Bool, true, false, ◌&&◌, ◌||◌, not, List, ◌∷◌, ◌==◌,
  if◌then◌else◌, update, Outcome, ok, [], ◌>>=◌,
}
use kernel_tracing.Prelude.Int.{ℤ, pos, negsuc, to_nat}
use kernel_tracing.Spin.{acquire, release}
use kernel_tracing.Str.{Bytes}

abbrev pub pipesize : ℕ
pipesize = 512

-- `struct pipe`; its `data` is the array, the flags are tested for 0 only.
pub record Pipe : Type 0 where
  pub lock : Bool
  pub bytes : Bytes
  pub nread : ℕ
  pub nwrite : ℕ
  pub readopen : Bool
  pub writeopen : Bool

-- The channels `&p->nread` and `&p->nwrite`.
pub data Channel : Type 0 where
  on_nread : Channel
  on_nwrite : Channel

-- A call's run: it returns a value or goes to sleep, with the channels that it has woken and, for
-- a read, the bytes stored at addr[0] on.
pub data Result : Type 0 where
  returned : ℤ → Result
  asleep : (on : Channel) → (at : ℕ) → Result

pub record Ran : Type 0 where
  pub result : Result
  pub pipe : Pipe
  pub woken : List Channel
  pub out : List ℕ

-- The fields of a page that pipealloc has got from kalloc.
pub fresh : Pipe → Pipe
fresh p = record p { lock = false; readopen = true; writeopen = true; nwrite = 0; nread = 0 }

-- `p->data[p->nwrite++ % PIPESIZE] = c`
abbrev pub put : ℕ → Pipe → Pipe
put c p = record p {
  bytes = update p.bytes (p.nwrite % pipesize) c;
  nwrite = (p.nwrite + 1) % 2 ^ 32;
}

-- `p->nwrite == p->nread + PIPESIZE`
abbrev pub is_full : Pipe → Bool
is_full p = p.nwrite == (p.nread + pipesize) % 2 ^ 32

-- The loops of pipewrite, `i` bytes written and `left` to go; `n` is the value to return.
pub write_loop : (n : ℤ) → (killed : Bool) → (addr : Bytes) → (left i : ℕ) → Pipe → Ran
write_loop n killed addr zero i p = record {
  result = returned n;
  pipe = p;
  woken = on_nread ∷ [];
  out = [];
}
write_loop n killed addr (suc left) i p =
    let rest = write_loop n killed addr left (i + 1) (put (addr i) p) in
    if is_full p
    then if not p.readopen || killed
      then record { result = returned (negsuc 0); pipe = p; woken = []; out = [] }
      else record { result = asleep on_nwrite i; pipe = p; woken = on_nread ∷ []; out = [] }
    else rest

-- Every way out of a call lets go of the lock: `release` or, asleep, `sleep`.
leave : Ran → Outcome Ran
leave r = do
  unlocked ← release r.pipe.lock
  ok (record r { pipe = record (r.pipe) { lock = unlocked } })

-- pipewrite from byte `i` on: `i` is 0 at the call, and the index slept at after a wakeup.
pub pipewrite : (n : ℤ) → (killed : Bool) → (addr : Bytes) → (i : ℕ) → Pipe → Outcome Ran
unfolding leave
pipewrite n killed addr i p = do
  locked ← acquire p.lock
  leave (write_loop n killed addr (to_nat n - i) i (record p { lock = locked }))

-- `for(i = 0; i < n; i++)` of piperead, `i` bytes read
pub read_loop : (left i : ℕ) → Pipe → Ran
read_loop zero i p = record {
  result = returned (pos i);
  pipe = p;
  woken = on_nwrite ∷ [];
  out = [];
}
read_loop (suc left) i p =
    let c = p.bytes (p.nread % pipesize) in
    let rest = read_loop left (i + 1) (record p { nread = (p.nread + 1) % 2 ^ 32 }) in
    if p.nread == p.nwrite
    then record { result = returned (pos i); pipe = p; woken = on_nwrite ∷ []; out = [] }
    else record rest { out = c ∷ rest.out }

pub read_section : (n : ℤ) → (killed : Bool) → Pipe → Ran
read_section n killed p =
    if (p.nread == p.nwrite) && p.writeopen
    then if killed
      then record { result = returned (negsuc 0); pipe = p; woken = []; out = [] }
      else record { result = asleep on_nread 0; pipe = p; woken = []; out = [] }
    else read_loop (to_nat n) 0 p

pub piperead : (n : ℤ) → (killed : Bool) → Pipe → Outcome Ran
unfolding leave
piperead n killed p = do
  locked ← acquire p.lock
  leave (read_section n killed (record p { lock = locked }))

-- What pipeclose leaves: the pipe, the channel woken, and whether the page was given to kfree.
pub record Closed : Type 0 where
  pub pipe : Pipe
  pub woken : Channel
  pub freed : Bool

pub pipeclose : (writable : Bool) → Pipe → Outcome Closed
pipeclose writable p = do
  locked ← acquire p.lock
  let shut = if writable then record p { writeopen = false } else record p { readopen = false }
  unlocked ← release locked
  ok (record {
    pipe = record shut { lock = unlocked };
    woken = if writable then on_nread else on_nwrite;
    freed = not shut.readopen && not shut.writeopen;
  })
