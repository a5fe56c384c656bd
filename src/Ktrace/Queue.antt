-- ===== src/Ktrace/Queue.antt =====
-- traceevent keeps a sliding window: the newest 128 of the unread events, in order.
use kernel_tracing.Prelude.{
  ℕ, zero, suc, ◌+◌, ◌-◌, ◌%◌, ◌^◌, ◌≤◌, ◌<◌, ◌≡◌, ◌≢◌, refl, ap, ap₂, sym, ◌∙◌, Bool, true, false,
  List, [], ◌∷◌, ◌++◌, ok, arith, ◌==◌, if◌then◌else◌, update, length, drop, newest,
  newest-append_room, newest-append_full, map-drop, map, ◌≡◌,
}
use kernel_tracing.Ring
use kernel_tracing.Ring.{window, IsRing}
use mathlib.Core.List.{map-append}
use native.Mathlib.Decide.{dec_lt}
use kernel_tracing.Ktrace.{
  TraceEvent, TraceBuffer, Call, trace_buf_size, stamp, unread, record_event, traceevent,
}

-- The array index of an event.
abbrev pub slot : ℕ → ℕ
slot i = i % trace_buf_size

pub slot-IsRing : IsRing trace_buf_size slot
slot-IsRing = record {
  positive = omega arith;
  apart = λ i d lo hi. omega arith;
  follows = λ i j h. omega arith;
}

-- The events that a reader has not seen, the oldest first: what the buffer stands for.
abbrev pub pending : TraceBuffer → List TraceEvent
pending b = window slot b.events b.readseq (unread b)

-- The counter values from `r` on, as `uint`s.
abbrev pub numbers : (r n : ℕ) → List ℕ
numbers r zero = []
numbers r (suc n) = (r % 2 ^ 32) ∷ numbers (r + 1) n

pub record IsSound (b : TraceBuffer) : Type 0 where
  pub seq_fits : b.seq < 2 ^ 32
  pub readseq_fits : b.readseq < 2 ^ 32
  pub bounded : unread b ≤ trace_buf_size
  pub stamped : map (λ e. e.seq) (pending b) ≡ numbers b.readseq (unread b)

-- The event that traceevent adds.
abbrev pub added : Call → TraceBuffer → TraceEvent
added c b = stamp c b (b.events (slot b.seq))

numbers-suc : (r n : ℕ) → numbers r (suc n) ≡ numbers r n ++ ((r + n) % 2 ^ 32) ∷ []
numbers-suc r zero = let e : r + 0 ≡ r = omega arith in rw e
numbers-suc r (suc n) =
    let e : r + suc n ≡ r + 1 + n = omega arith in
    rw e (ap (λ l. (r % 2 ^ 32) ∷ l) (numbers-suc (r + 1) n))

numbers-wraps : (r s n : ℕ) → r % 2 ^ 32 ≡ s % 2 ^ 32 → numbers r n ≡ numbers s n
numbers-wraps r s zero h = refl
numbers-wraps r s (suc n) h = ap₂ ◌∷◌ h (numbers-wraps (r + 1) (s + 1) n (omega arith))

-- While there is room the read counter stays and the window grows.
record_event_room :
    (c : Call) (b : TraceBuffer)
    → IsSound b
    → unread b < 128
    → (unread (record_event c b) ≡ suc (unread b))
      × ((record_event c b).readseq ≡ b.readseq)
      × ((record_event c b).overwritten ≡ b.overwritten)
      × ((record_event c b).events ≡ update b.events (slot b.seq) (added c b))
unfolding record_event
record_event_room c b s h = ground arith

numbers-drop : (k r n : ℕ) → drop k (numbers r (k + n)) ≡ numbers (r + k) n
numbers-drop zero r n =
    let e : 0 + n ≡ n = omega arith in let d : r + 0 ≡ r = omega arith in rw (e, d)
numbers-drop (suc k) r n =
    let e : suc k + n ≡ suc (k + n) = omega arith in
    let d : r + suc k ≡ r + 1 + k = omega arith in rw (e, d) (numbers-drop k (r + 1) n)

-- Taking `n` unread events out of the buffer.
abbrev pub advance : ℕ → TraceBuffer → TraceBuffer
advance n b = record b { readseq = (b.readseq + n) % 2 ^ 32 }

module _ (n : ℕ) (b : TraceBuffer) (s : IsSound b) (h : n ≤ unread b) where
  unread-advance : unread (advance n b) ≡ unread b - n
  unread-advance = omega (arith, s.seq_fits, s.readseq_fits)

  pub pending-advance : pending (advance n b) ≡ drop n (pending b)
  pending-advance =
      let whole : n + (unread b - n) ≡ unread b = omega arith in
      ap (window slot b.events ((b.readseq + n) % 2 ^ 32)) unread-advance
      ∙ Ring.window-wraps 128 slot slot-IsRing b.events _ (b.readseq + n) _ (omega arith)
      ∙ sym (Ring.window-drop 128 slot slot-IsRing b.events n b.readseq (unread b - n))
      ∙ ap (λ k. drop n (window slot b.events b.readseq k)) whole

  pub advance-IsSound : IsSound (advance n b)
  advance-IsSound = record {
    seq_fits = s.seq_fits;
    readseq_fits = omega arith;
    bounded = omega (arith, unread-advance, s.bounded);
    stamped =
        let whole : n + (unread b - n) ≡ unread b = omega arith in
        ap (map (λ e. e.seq)) pending-advance
        ∙ map-drop (λ e. e.seq) n (pending b)
        ∙ ap (drop n) (s.stamped ∙ ap (numbers b.readseq) (sym whole))
        ∙ numbers-drop n b.readseq (unread b - n)
        ∙ numbers-wraps (b.readseq + n) _ _ (omega arith)
        ∙ ap (numbers ((b.readseq + n) % 2 ^ 32)) (sym unread-advance);
  }

module _ (c : Call) (b : TraceBuffer) (s : IsSound b) where
  record_event_full :
      unread b ≡ 128
      → (unread (record_event c b) ≡ 128)
        × ((record_event c b).readseq ≡ (b.readseq + 1) % 2 ^ 32)
        × ((record_event c b).overwritten ≡ (b.overwritten + 1) % 2 ^ 32)
        × ((record_event c b).events ≡ update b.events (slot b.seq) (added c b))
  unfolding record_event
  record_event_full h =
      let over : ((b.seq + 1) % 2 ^ 32 + 2 ^ 32 - b.readseq) % 2 ^ 32 ≡ 129 = omega arith in
      let next : ((b.seq + 1) % 2 ^ 32 + 2 ^ 32 - 128) % 2 ^ 32 ≡ (b.readseq + 1) % 2 ^ 32 =
        omega arith in
      rw over (omega arith, next, refl, refl)

  pending-room : unread b < 128 → pending (record_event c b) ≡ pending b ++ added c b ∷ []
  pending-room h =
      let (n, r, _, e) = record_event_room c b s h in
      (λ i. window slot (e i) (r i) (n i))
      ∙ Ring.window-push 128 slot slot-IsRing b.events (added c b) b.readseq (unread b) b.seq h
          (omega arith)

  pending-full : unread b ≡ 128 → pending (record_event c b) ≡ drop 1 (pending b) ++ added c b ∷ []
  pending-full h =
      let (n, r, _, e) = record_event_full h in
      (λ i. window slot (e i) (r i) (n i))
      ∙ Ring.window-wraps 128 slot slot-IsRing (update b.events (slot b.seq) (added c b)) _
          (b.readseq + 1) 128 (omega arith)
      ∙ Ring.window-push 128 slot slot-IsRing b.events (added c b) (b.readseq + 1) 127 b.seq
          (omega arith) (omega arith)
      ∙ ap (λ k. drop 1 (window slot b.events b.readseq k) ++ added c b ∷ []) (sym h)

  length-pending : length (pending b) ≡ unread b
  length-pending = Ring.length-window 128 slot slot-IsRing b.events b.readseq (unread b)

  -- Between `acquire` and `release` the newest 128 of the unread events and the new one are kept.
  pub pending-record_event : pending (record_event c b) ≡ newest 128 (pending b ++ added c b ∷ [])
  pending-record_event = elim (dec_lt (unread b) 128) [
    | yes room ↦
        pending-room room
        ∙ sym (newest-append_room 128 (pending b) _ (omega (arith, length-pending)))
    | no full ↦
        let all : unread b ≡ 128 = omega (arith, s.bounded) in
        pending-full all
        ∙ sym (newest-append_full 128 (pending b) _ (omega arith) (length-pending ∙ all))
  ]

  stamped-room :
      unread b < 128
      → map (λ e. e.seq) (pending (record_event c b))
        ≡ numbers (record_event c b).readseq (unread (record_event c b))
  unfolding stamp
  stamped-room h =
      let (n, r, _, e) = record_event_room c b s h in
      ap (map (λ e. e.seq)) (pending-room h)
      ∙ map-append (λ e. e.seq) (pending b) (added c b ∷ [])
      ∙ ap₂ (λ l k. l ++ k ∷ []) s.stamped (omega arith)
      ∙ sym (numbers-suc b.readseq (unread b))
      ∙ ap₂ numbers (sym r) (sym n)

  stamped-full :
      unread b ≡ 128
      → map (λ e. e.seq) (pending (record_event c b))
        ≡ numbers (record_event c b).readseq (unread (record_event c b))
  unfolding stamp
  stamped-full h =
      let (n, r, _, e) = record_event_full h in
      ap (map (λ e. e.seq)) (pending-full h)
      ∙ map-append (λ e. e.seq) (drop 1 (pending b)) (added c b ∷ [])
      ∙ ap₂ (λ l k. l ++ k ∷ [])
          (map-drop (λ e. e.seq) 1 (pending b) ∙ ap (drop 1) (s.stamped ∙ ap (numbers b.readseq) h))
          (omega arith)
      ∙ sym (numbers-suc (b.readseq + 1) 127)
      ∙ numbers-wraps (b.readseq + 1) ((b.readseq + 1) % 2 ^ 32) 128 (omega arith)
      ∙ ap₂ numbers (sym r) (sym n)

  -- Whatever it stores, a critical section leaves the window sound.
  record_event_counters :
      ((record_event c b).seq < 2 ^ 32)
      × ((record_event c b).readseq < 2 ^ 32)
      × ((record_event c b).lock ≡ b.lock)
  unfolding record_event
  record_event_counters = ground arith

  pub record_event-IsSound : IsSound (record_event c b)
  record_event-IsSound = elim (dec_lt (unread b) 128) [
    | yes room ↦ record {
      seq_fits = record_event_counters.0;
      readseq_fits = record_event_counters.1;
      bounded = omega (arith, (record_event_room c b s room).0);
      stamped = stamped-room room;
    }
    | no full ↦
        let all : unread b ≡ 128 = omega (arith, s.bounded) in
        record {
          seq_fits = record_event_counters.0;
          readseq_fits = record_event_counters.1;
          bounded = omega (arith, (record_event_full all).0);
          stamped = stamped-full all;
        }
  ]

  pub overwritten-record_event :
      (record_event c b).overwritten
      ≡ (if unread b == 128 then (b.overwritten + 1) % 2 ^ 32 else b.overwritten)
  overwritten-record_event = elim (dec_lt (unread b) 128) [
    | yes room ↦ (record_event_room c b s room).2 ∙ ground arith
    | no full ↦
        let all : unread b ≡ 128 = omega (arith, s.bounded) in
        (record_event_full all).2 ∙ ground arith
  ]

-- The lock is no part of what the window holds.
pub relock : (b : TraceBuffer) (l : Bool) → IsSound b → IsSound (record b { lock = l })
relock b l s = record {
  seq_fits = s.seq_fits;
  readseq_fits = s.readseq_fits;
  bounded = s.bounded;
  stamped = s.stamped;
}

-- With tracing enabled and the lock free, traceevent comes back with the lock free; the unread
-- events are then the newest 128 of those before the call followed by the new one; their sequence
-- numbers are consecutive; and `overwritten` has gone up exactly if an unread event was given up.
pub traceevent-newest :
    (c : Call) (b : TraceBuffer)
    → IsSound b
    → b.lock ≡ false
    → b.enabled ≢ 0
    → (b' : TraceBuffer) × (traceevent c b ≡ ok b')
      × IsSound b'
      × (b'.lock ≡ false)
      × (pending b' ≡ newest 128 (pending b ++ added c b ∷ []))
      × (b'.overwritten ≡ (if unread b == 128 then (b.overwritten + 1) % 2 ^ 32 else b.overwritten))
unfolding traceevent stamp
traceevent-newest c b s free on =
    let held = record b { lock = true } in
    let sound = relock b true s in
    (
      record (record_event c held) { lock = false },
      run,
      relock (record_event c held) false (record_event-IsSound c held sound),
      refl,
      pending-record_event c held sound,
      overwritten-record_event c held sound,
    )
  where
    run : traceevent c b ≡ ok (record (record_event c (record b { lock = true })) { lock = false })
    run = ground (arith, record_event_counters c (record b { lock = true }) (relock b true s))
