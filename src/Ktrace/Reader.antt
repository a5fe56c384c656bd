-- ===== src/Ktrace/Reader.antt =====
-- traceread delivers the oldest unread events in order, up to the first copyout that fails; the
-- event of a copyout that fails is not delivered and is gone.
use kernel_tracing.Prelude.{
  ℕ, zero, suc, ◌+◌, ◌%◌, ◌^◌, ◌≤◌, ◌<◌, ◌≡◌, refl, ap, Bool, true, false, ◌∷◌, ok, arith, ◌==◌,
  if◌then◌else◌, min, take, drop, ◌&&◌,
}
use kernel_tracing.Prelude.Int.{pos, negsuc}
use kernel_tracing.Ring
use kernel_tracing.Ring.{window}
use kernel_tracing.Ktrace.{TraceBuffer, Reading, unread, deliver, read_loop, traceread}
use kernel_tracing.Ktrace.Queue.{
  slot, slot-IsRing, pending, IsSound, advance, advance-IsSound, pending-advance, relock,
}

-- With room for `left` events, the first at dst[count], and `u` events unread: how many are
-- delivered, and whether a copyout fails.
abbrev pub accepted : (left u count : ℕ) → (ℕ → Bool) → ℕ
accepted zero u count fits = 0
accepted (suc left) zero count fits = 0
accepted (suc left) (suc u) count fits =
    if fits count then suc (accepted left u (count + 1) fits) else 0

abbrev pub faults : (left u count : ℕ) → (ℕ → Bool) → Bool
faults zero u count fits = false
faults (suc left) zero count fits = false
faults (suc left) (suc u) count fits = if fits count then faults left u (count + 1) fits else true

-- The number of events taken out of the buffer: those delivered, and the one whose copyout failed.
abbrev pub consumed : (left u count : ℕ) → (ℕ → Bool) → ℕ
consumed left u count fits =
    if faults left u count fits
    then suc (accepted left u count fits)
    else accepted left u count fits

abbrev expected : (left u count : ℕ) → (ℕ → Bool) → TraceBuffer → Reading
expected left u count fits b = record {
  buffer = record b { readseq = (b.readseq + consumed left u count fits) % 2 ^ 32 };
  out = take (accepted left u count fits) (window slot b.events b.readseq u);
  count = count + accepted left u count fits;
  faulted = faults left u count fits;
}

-- Without a fault all that is asked for and there is gets delivered.
pub accepted_all :
    (left u count : ℕ) (fits : ℕ → Bool)
    → faults left u count fits ≡ false
    → accepted left u count fits ≡ min left u
accepted_all zero u count fits h = omega arith
accepted_all (suc left) zero count fits h = omega arith
accepted_all (suc left) (suc u) count fits h = ground (arith, accepted_all left u (count + 1) fits)

consumed-le : (left u count : ℕ) (fits : ℕ → Bool) → consumed left u count fits ≤ u
consumed-le zero u count fits = omega arith
consumed-le (suc left) zero count fits = omega arith
consumed-le (suc left) (suc u) count fits = ground (arith, consumed-le left u (count + 1) fits)

-- One event delivered, and the rest of the loop from the next one on.
deliver-expected :
    (left u count : ℕ) (fits : ℕ → Bool) (b : TraceBuffer)
    → fits count ≡ true
    → deliver
        (b.events (slot b.readseq))
        (expected left u (count + 1) fits (record b { readseq = (b.readseq + 1) % 2 ^ 32 }))
      ≡ expected (suc left) (suc u) count fits b
deliver-expected left u count fits b h =
    let k = accepted left u (count + 1) fits in
    let moved : window slot b.events ((b.readseq + 1) % 2 ^ 32) u
        ≡ window slot b.events (b.readseq + 1) u =
      Ring.window-wraps 128 slot slot-IsRing b.events _ (b.readseq + 1) u (omega arith) in
    let items = ap (λ l. b.events (slot b.readseq) ∷ take k l) moved in
    let counted : count + 1 + k ≡ count + suc k = omega arith in
    let seen : (n : ℕ) → ((b.readseq + 1) % 2 ^ 32 + n) % 2 ^ 32 ≡ (b.readseq + suc n) % 2 ^ 32 =
      λ n. omega arith in
    ground (arith, items, counted, seen k, seen (suc k))

read_loop-expected :
    (left u count : ℕ) (fits : ℕ → Bool) (b : TraceBuffer)
    → b.seq < 2 ^ 32
    → b.readseq < 2 ^ 32
    → unread b ≡ u
    → read_loop left count fits b ≡ expected left u count fits b
unfolding read_loop
read_loop-expected zero u count fits b hs hr e =
    let same : (b.readseq + 0) % 2 ^ 32 ≡ b.readseq = omega arith in ground arith
read_loop-expected (suc left) zero count fits b hs hr e =
    let same : (b.readseq + 0) % 2 ^ 32 ≡ b.readseq = omega arith in ground arith
read_loop-expected (suc left) (suc u) count fits b hs hr e =
    let more : (b.readseq == b.seq) ≡ false = ground arith in
    let b' = record b { readseq = (b.readseq + 1) % 2 ^ 32 } in
    let rest = read_loop-expected left u (count + 1) fits b' hs (omega arith) (omega arith) in
    ground (arith, rest, more, deliver-expected left u count fits b)

-- What traceread hands out of a sound, unlocked buffer that holds `u` unread events, when room for
-- `max` events is given and copyout behaves as `fits` says: the oldest `accepted` events in their
-- order. It returns their number, or -1 if the very first copyout fails. The buffer keeps the
-- events behind those consumed, comes back sound and unlocked, and counts no overwriting.
pub traceread-take :
    (fits : ℕ → Bool) (max : ℕ) (b : TraceBuffer)
    → IsSound b
    → b.lock ≡ false
    → 0 < max
    → let k = accepted max (unread b) 0 fits in
      (b' : TraceBuffer) × (traceread fits (pos max) b
        ≡ ok (
          (if faults max (unread b) 0 fits && (k == 0) then negsuc 0 else pos k),
          take k (pending b),
          b',
        ))
      × IsSound b'
      × (b'.lock ≡ false)
      × (pending b' ≡ drop (consumed max (unread b) 0 fits) (pending b))
      × (b'.overwritten ≡ b.overwritten)
unfolding traceread
traceread-take fits max b s free pos_max =
    let n = consumed max (unread b) 0 fits in
    let le = consumed-le max (unread b) 0 fits in
    let loop =
      read_loop-expected max (unread b) 0 fits (record b { lock = true }) s.seq_fits s.readseq_fits
        refl in
    (
      record (advance n b) { lock = false },
      ground (arith, loop),
      relock (advance n b) false (advance-IsSound n b s le),
      refl,
      pending-advance n b s le,
      refl,
    )
