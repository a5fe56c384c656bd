-- ===== src/Pipe/Fifo.antt =====
-- pipewrite appends to the queue, and piperead takes from its front: what is read is what was
-- written, in order.
use kernel_tracing.Prelude.{
  ℕ, zero, suc, ◌+◌, ◌-◌, ◌%◌, ◌^◌, ◌≤◌, ◌<◌, ◌≡◌, refl, sym, ap, ◌∙◌, ◌⊎◌, inl, inr, Bool, true,
  false, ◌&&◌, ◌||◌, not, [], ◌∷◌, ◌++◌, arith, ◌==◌, if◌then◌else◌, Bool-cases, length, take, drop,
  ok,
}
use kernel_tracing.Ring
use mathlib.Core.List.{append-nil, append_assoc}
use native.Mathlib.Decide.{dec_lt}
use kernel_tracing.Ring.{window, IsRing}
use kernel_tracing.Str.{Bytes}
use kernel_tracing.Prelude.Int.{ℤ, pos, negsuc, to_nat}
use kernel_tracing.Pipe.{
  Pipe, on_nread, on_nwrite, Result, returned, asleep, Ran, put, is_full, write_loop, pipewrite,
  read_loop, read_section, piperead,
}
use kernel_tracing.Pipe.Queue.{
  slot, slot-IsRing, used, content, IsSound, bytes_at, is_full-used, put-content, relock,
}

-- How a write ends that has put `k` of the `left` bytes from addr[i] on into the pipe, `q` being
-- the pipe then. It returns `n` when all are in. Otherwise the pipe is full: it sleeps with the
-- index of the next byte, or fails if the reading end is shut or the process was killed.
abbrev pub WriteEnds : ℤ → Bool → (left i k : ℕ) → Pipe → Result → Type 0
WriteEnds n killed left i k q r =
    ((r ≡ returned n) × (k ≡ left))
    ⊎ (used q ≡ 512)
      × (k < left)
      × (((r ≡ asleep on_nwrite (i + k)) × (killed ≡ false) × (q.readopen ≡ true))
          ⊎ (r ≡ returned (negsuc 0)) × ((killed ≡ true) ⊎ (q.readopen ≡ false)))

pub record Wrote (n : ℤ) (killed : Bool) (addr : Bytes) (left i : ℕ) (p q : Pipe) (r : Result)
    : Type 0 where
  pub stored : ℕ
  pub few : stored ≤ left
  pub sound : IsSound q
  pub queue : content q ≡ content p ++ bytes_at addr i stored
  pub ends : WriteEnds n killed left i stored q r

Wrote-none :
    (n : ℤ) (killed : Bool) (addr : Bytes) (left i : ℕ) (p : Pipe) (r : Result)
    → IsSound p
    → WriteEnds n killed left i 0 p r
    → Wrote n killed addr left i p p r
Wrote-none n killed addr left i p r s e = record {
  stored = 0;
  few = omega arith;
  sound = s;
  queue = sym (append-nil (content p));
  ends = e;
}

Wrote-one :
    (n : ℤ) (killed : Bool) (addr : Bytes) (left i : ℕ) (p q : Pipe) (r : Result)
    → content (put (addr i) p) ≡ content p ++ addr i ∷ []
    → Wrote n killed addr left (i + 1) (put (addr i) p) q r
    → Wrote n killed addr (suc left) i p q r
Wrote-one n killed addr left i p q r e w = record {
  stored = suc w.stored;
  few = omega (arith, w.few);
  sound = w.sound;
  queue =
      w.queue
      ∙ ap (λ l. l ++ bytes_at addr (i + 1) w.stored) e
      ∙ append_assoc (content p) (addr i ∷ []) (bytes_at addr (i + 1) w.stored);
  ends =
      let next : i + suc w.stored ≡ i + 1 + w.stored = omega arith in ground (arith, w.ends, next);
}

write_loop-Wrote :
    (n : ℤ) (killed : Bool) (addr : Bytes) (left i : ℕ) (p : Pipe)
    → IsSound p
    → let r = write_loop n killed addr left i p in Wrote n killed addr left i p r.pipe r.result
unfolding write_loop
write_loop-Wrote n killed addr zero i p s = Wrote-none n killed addr zero i p _ s (inl (refl, refl))
write_loop-Wrote n killed addr (suc left) i p s = elim (dec_lt (used p) 512) [
  | yes room ↦
      let (s', e) = put-content (addr i) p s room in
      let open_ : is_full p ≡ false = ground (arith, is_full-used p s) in
      rw open_ (
        Wrote-one n killed addr left i p _ _ e
          (write_loop-Wrote n killed addr left (i + 1) (put (addr i) p) s'))
  | no full ↦
      let all : used p ≡ 512 = omega (arith, s.bounded) in
      let shut : is_full p ≡ true = ground (arith, is_full-used p s) in
      let same : i + 0 ≡ i = omega arith in
      elim (Bool-cases (not p.readopen || killed)) [
        | inl dead ↦ rw (shut, dead) (Wrote-none n killed addr (suc left) i p _ s (ground arith))
        | inr alive ↦
            rw (shut, alive) (Wrote-none n killed addr (suc left) i p _ s (ground (arith, same)))
      ]
]

write_loop-lock :
    (n : ℤ) (killed : Bool) (addr : Bytes) (left i : ℕ) (p : Pipe)
    → (write_loop n killed addr left i p).pipe.lock ≡ p.lock
unfolding write_loop
write_loop-lock n killed addr zero i p = refl
write_loop-lock n killed addr (suc left) i p =
    ground (arith, write_loop-lock n killed addr left (i + 1) (put (addr i) p))

-- pipewrite on a sound pipe with a free lock, from byte `i` on: it comes back with the lock free
-- and a sound pipe, whose queue is the old one followed by the bytes stored from addr[i] on. All
-- bytes are stored and `n` is returned; or the queue is full, and the call sleeps with the next
-- index or fails with -1, which happens only if the reading end is shut or the process was killed.
pub pipewrite-appends :
    (n : ℤ) (killed : Bool) (addr : Bytes) (i : ℕ) (p : Pipe)
    → IsSound p
    → p.lock ≡ false
    → (r : Ran) × (pipewrite n killed addr i p ≡ ok r)
      × Wrote n killed addr (to_nat n - i) i p r.pipe r.result
      × (r.pipe.lock ≡ false)
unfolding pipewrite
pipewrite-appends n killed addr i p s free =
    let held = record p { lock = true } in
    let left = to_nat n - i in
    let r = write_loop n killed addr left i held in
    let w = write_loop-Wrote n killed addr left i held (relock p true s) in
    (
      record r { pipe = record (r.pipe) { lock = false } },
      ground (arith, write_loop-lock n killed addr left i held),
      record {
        stored = w.stored;
        few = w.few;
        sound = relock r.pipe false w.sound;
        queue = w.queue;
        ends = w.ends;
      },
      refl,
    )

-- One round of piperead's loop.
take_one :
    (p : Pipe) (u : ℕ)
    → IsSound p
    → used p ≡ suc u
    → let q = record p { nread = (p.nread + 1) % 2 ^ 32 } in
      (used q ≡ u) × IsSound q × (content p ≡ p.bytes (slot p.nread) ∷ content q)
take_one p u s e =
    let q = record p { nread = (p.nread + 1) % 2 ^ 32 } in
    let n : used q ≡ u = omega (arith, s.nread_fits, s.nwrite_fits) in
    (
      n,
      record {
        nread_fits = omega arith;
        nwrite_fits = s.nwrite_fits;
        bounded = omega (arith, n, s.bounded);
      },
      ap (window slot p.bytes p.nread) e
          ∙ ap (λ l. p.bytes (slot p.nread) ∷ l)
              (Ring.window-wraps 512 slot slot-IsRing p.bytes (p.nread + 1) _ u (omega arith)
                ∙ ap (window slot p.bytes ((p.nread + 1) % 2 ^ 32)) (sym n)),
    )

-- What the loop of piperead hands out and leaves.
pub record Took (left i : ℕ) (p : Pipe) (r : Ran) : Type 0 where
  pub out : r.out ≡ take left (content p)
  pub rest : content r.pipe ≡ drop left (content p)
  pub value : r.result ≡ returned (pos (i + length r.out))
  pub sound : IsSound r.pipe
  pub lock : r.pipe.lock ≡ p.lock

read_loop-Took :
    (left i u : ℕ) (p : Pipe) → IsSound p → used p ≡ u → Took left i p (read_loop left i p)
unfolding read_loop
read_loop-Took zero i u p s e =
    let none_read : i + 0 ≡ i = omega arith in
    record { out = refl; rest = refl; value = rw none_read; sound = s; lock = refl }
read_loop-Took (suc left) i zero p s e =
    let nothing : content p ≡ [] = ap (window slot p.bytes p.nread) e in
    let empty : (p.nread == p.nwrite) ≡ true = ground (arith, s.nread_fits, s.nwrite_fits) in
    let none_read : i + 0 ≡ i = omega arith in
    rw empty (record {
      out = sym (ap (take (suc left)) nothing);
      rest = nothing ∙ sym (ap (drop (suc left)) nothing);
      value = rw none_read;
      sound = s;
      lock = refl;
    })
read_loop-Took (suc left) i (suc u) p s e =
    let q = record p { nread = (p.nread + 1) % 2 ^ 32 } in
    let (n, s', front) = take_one p u s e in
    let more : (p.nread == p.nwrite) ≡ false = ground arith in
    let t = read_loop-Took left (i + 1) u q s' n in
    let r = read_loop left (i + 1) q in
    let count : i + 1 + length r.out ≡ i + suc (length r.out) = omega arith in
    rw more (record {
      out = ap (λ l. p.bytes (slot p.nread) ∷ l) t.out ∙ sym (ap (take (suc left)) front);
      rest = t.rest ∙ sym (ap (drop (suc left)) front);
      value = t.value ∙ ap (λ k. returned (pos k)) count;
      sound = t.sound;
      lock = t.lock;
    })

-- How a read of `n` bytes ends.
abbrev pub ReadEnds : ℤ → Bool → Pipe → Ran → Type 0
ReadEnds n killed p r =
    if (used p == 0) && p.writeopen
    then (content r.pipe ≡ [])
      × (r.out ≡ [])
      × (r.result ≡ (if killed then returned (negsuc 0) else asleep on_nread 0))
    else (content r.pipe ≡ drop (to_nat n) (content p))
      × (r.out ≡ take (to_nat n) (content p))
      × (r.result ≡ returned (pos (length r.out)))

read_section-ReadEnds :
    (n : ℤ) (killed : Bool) (p : Pipe)
    → IsSound p
    → ReadEnds n killed p (read_section n killed p)
      × IsSound (read_section n killed p).pipe
      × ((read_section n killed p).pipe.lock ≡ p.lock)
unfolding read_section
read_section-ReadEnds n killed p s =
    let same : (p.nread == p.nwrite) ≡ (used p == 0) =
      ground (arith, s.nread_fits, s.nwrite_fits) in
    rw same (elim (Bool-cases ((used p == 0) && p.writeopen)) [
      | inl wait ↦
          let none_used : used p ≡ 0 = ground arith in
          let nothing : content p ≡ [] = ap (window slot p.bytes p.nread) none_used in
          rw wait (elim (Bool-cases killed) [
            | inl k ↦ rw k ((nothing, refl, refl), s, refl)
            | inr k ↦ rw k ((nothing, refl, refl), s, refl)
          ])
      | inr go ↦
          let t = read_loop-Took (to_nat n) 0 (used p) p s refl in
          let count : 0 + length (read_loop (to_nat n) 0 p).out
              ≡ length (read_loop (to_nat n) 0 p).out =
            omega arith in
          rw go ((t.rest, t.out, t.value ∙ ap (λ k. returned (pos k)) count), t.sound, t.lock)
    ])

-- piperead on a sound pipe with a free lock comes back with the lock free and a sound pipe. On an
-- empty pipe whose writing end is open it sleeps, or fails with -1 if the process was killed, and
-- the queue stays empty. Otherwise it returns the first `n` bytes of the queue, or all if there are
-- fewer (0 at end of file), in order, and their number, and the queue is left with the others.
pub piperead-takes :
    (n : ℤ) (killed : Bool) (p : Pipe)
    → IsSound p
    → p.lock ≡ false
    → (r : Ran) × (piperead n killed p ≡ ok r)
      × ReadEnds n killed p r
      × IsSound r.pipe
      × (r.pipe.lock ≡ false)
unfolding piperead
piperead-takes n killed p s free =
    let held = record p { lock = true } in
    let r = read_section n killed held in
    let (e, s', l) = read_section-ReadEnds n killed held (relock p true s) in
    (
      record r { pipe = record (r.pipe) { lock = false } },
      ground arith,
      e,
      relock r.pipe false s',
      refl,
    )
