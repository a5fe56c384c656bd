-- ===== src/Dashboard/Loop/Captured.antt =====
-- A whole run of the main loop: the dashboard holds the newest 32 of the events that pass the filter.
use kernel_tracing.Prelude.{
  ℕ, zero, suc, ◌+◌, ◌-◌, ◌≡◌, refl, ap, ◌∙◌, ◌≢◌, inl, inr, true, false, ◌||◌, List, [], ◌∷◌, ◌++◌,
  arith, ltb, ◌==◌, if◌then◌else◌, Bool-cases, length, take, newest,
}
use kernel_tracing.Prelude.Int.{ℤ, to_uint, to_int, lt_int}
use mathlib.Core.List.{append-nil, append_assoc}
use kernel_tracing.Ktrace.{TraceEvent}
use kernel_tracing.Dashboard.{Options, want_event}
use kernel_tracing.Dashboard.Draw.{Draw}
use kernel_tracing.Dashboard.Loop.{
  Dash, start, set_tick, elapsed, Input, failed, empty, got, Next, continue, idle, on_empty, accept,
  count_total, on_event, round, more, run,
}
use kernel_tracing.Dashboard.Loop.Window.{
  visible, IsShape, SameWindow, Shows, clear_slots-SameWindow, visible-same, IsShape-same,
  accept-Shows,
}

-- The events of a run that pass the filter.
abbrev pub wanted : Options → (self_pid : ℤ) → List TraceEvent → List TraceEvent
wanted o self [] = []
wanted o self (e ∷ es) =
    if want_event e o.filter_type o.filter_pid self then e ∷ wanted o self es else wanted o self es

-- Those that are captured when `seen` were captured before: all without a limit.
abbrev pub captured : Options → (self_pid : ℤ) → (seen : ℕ) → List TraceEvent → List TraceEvent
captured o self seen es =
    if o.limit == 0 then wanted o self es else take (o.limit - seen) (wanted o self es)

-- The events among the inputs.
abbrev pub events_of : List Input → List TraceEvent
events_of [] = []
events_of (failed ∷ is) = events_of is
events_of (empty first now ∷ is) = events_of is
events_of (got e ∷ is) = e ∷ events_of is

-- No input ends the run: traceread never fails, and without a limit it always has an event.
abbrev pub NeverEnds : Options → List Input → Type 0
NeverEnds o [] = Unit
NeverEnds o (failed ∷ is) = ⊥
NeverEnds o (empty first now ∷ is) = (o.limit ≢ 0) × NeverEnds o is
NeverEnds o (got e ∷ is) = NeverEnds o is

-- A round that goes on, to a state with property `P`.
abbrev GoesOn : Next → (Dash → Type 0) → Type 0
GoesOn next P = (d : Dash) × (out : List Draw) × (next ≡ continue d out) × P d

module _ (o : Options) (self : ℤ) where
  idle-GoesOn : (now : ℕ) (d : Dash) → GoesOn (idle o now d) (SameWindow d)
  unfolding idle
  idle-GoesOn now d =
      let d' = set_tick now d in
      let moved = clear_slots-SameWindow (elapsed (to_uint d'.last_tick) now) d' in
      elim (Bool-cases (lt_int d'.last_tick (to_int now))) [
        | inl h ↦ rw h (_, _, refl, ground (arith, moved))
        | inr h ↦ rw h (_, _, refl, ground arith)
      ]

  Shows-same :
      (d d' : Dash) (l : List TraceEvent) (n : ℕ) → SameWindow d d' → Shows d l n → Shows d' l n
  Shows-same d d' l n same (v, k, s) =
      (visible-same d d' same ∙ v, same.3 ∙ k, IsShape-same d d' same s)

  empty-GoesOn :
      (first now : ℕ) (d : Dash) (l : List TraceEvent) (n : ℕ)
      → o.limit ≢ 0
      → Shows d l n
      → GoesOn (on_empty o first now d) (λ d'. Shows d' l n)
  unfolding on_empty
  empty-GoesOn first now d l n live h =
      let off : (o.limit == 0) ≡ false = ground arith in
      let (d', out, e, same) = idle-GoesOn now d in rw off (d', out, e, Shows-same d d' l n same h)

  count_total-SameWindow : (e : TraceEvent) (d : Dash) → SameWindow d (count_total e d)
  unfolding count_total
  count_total-SameWindow e d = (refl, refl, refl, refl)

  event-GoesOn :
      (e : TraceEvent) (d : Dash) (l : List TraceEvent) (n : ℕ)
      → Shows d l n
      → GoesOn (on_event o self e d) (λ d'.
        if want_event e o.filter_type o.filter_pid self
        then Shows d' (l ++ e ∷ []) (n + 1)
        else Shows d' l n)
  unfolding on_event
  event-GoesOn e d l n h =
      let d1 = count_total e d in
      let h1 = Shows-same d d1 l n (count_total-SameWindow e d) h in
      elim (Bool-cases (want_event e o.filter_type o.filter_pid self)) [
        | inl w ↦
            let d2 = accept e d1 in
            let (v, k, s) = accept-Shows e d1 l n h1 in
            let kept : IsShape (record d2 { seen = d2.seen + 1 }) = record {
              count = s.count;
              start = s.start;
              room = s.room;
            } in
            rw w (record d2 { seen = d2.seen + 1 }, _, refl, (v, ap (λ m. m + 1) k, kept))
        | inr w ↦ rw w (_, _, refl, h1)
      ]

  -- Once the limit is met nothing more is captured.
  captured_none :
      (n : ℕ) (es : List TraceEvent)
      → ((o.limit == 0) || ltb n o.limit) ≡ false
      → captured o self n es ≡ []
  captured_none n es h =
      let set : (o.limit == 0) ≡ false = ground arith in
      let none_left : o.limit - n ≡ 0 = ground arith in rw (set, none_left)

  captured-wanted :
      (n : ℕ) (e : TraceEvent) (es : List TraceEvent)
      → ((o.limit == 0) || ltb n o.limit) ≡ true
      → want_event e o.filter_type o.filter_pid self ≡ true
      → captured o self n (e ∷ es) ≡ e ∷ captured o self (n + 1) es
  captured-wanted n e es h w = elim (Bool-cases (o.limit == 0)) [
    | inl z ↦ rw (z, w)
    | inr z ↦ let left : o.limit - n ≡ suc (o.limit - (n + 1)) = ground arith in rw (z, w, left)
  ]

  captured-unwanted :
      (n : ℕ) (e : TraceEvent) (es : List TraceEvent)
      → want_event e o.filter_type o.filter_pid self ≡ false
      → captured o self n (e ∷ es) ≡ captured o self n es
  captured-unwanted n e es w = rw w

  -- The state once the captured events `c` have come in.
  abbrev Arrived : Dash → List TraceEvent → ℕ → List TraceEvent → Type 0
  Arrived d l n c = Shows d (l ++ c) (n + length c)

  Arrived-none :
      (d : Dash) (l : List TraceEvent) (n : ℕ) (c : List TraceEvent)
      → c ≡ []
      → Shows d l n
      → Arrived d l n c
  Arrived-none d l n c e h = let z : n + 0 ≡ n = omega arith in rw (e, append-nil, z) h

  Arrived-one :
      (d : Dash) (l : List TraceEvent) (n : ℕ) (e : TraceEvent) (c : List TraceEvent)
      → Arrived d (l ++ e ∷ []) (n + 1) c
      → Arrived d l n (e ∷ c)
  Arrived-one d l n e c (v, k, s) =
      (v ∙ ap (newest 32) (append_assoc l (e ∷ []) c), k ∙ omega arith, s)

  run_stops :
      (i : Input) (is : List Input) (d : Dash) → more o d ≡ false → run o self (i ∷ is) d ≡ d
  unfolding run
  run_stops i is d h = ground arith

  run_goes_on :
      (i : Input) (is : List Input) (d d' : Dash) (out : List Draw)
      → more o d ≡ true
      → round o self i d ≡ continue d' out
      → run o self (i ∷ is) d ≡ run o self is d'
  unfolding run
  run_goes_on i is d d' out h e = ground arith

  captured-nil : (n : ℕ) → captured o self n [] ≡ []
  captured-nil n = elim (Bool-cases (o.limit == 0)) [
    | inl z ↦ rw z
    | inr z ↦ rw z (take-nil (o.limit - n))
  ]
    where
      take-nil : (k : ℕ) → take k (wanted o self []) ≡ []
      take-nil zero = refl
      take-nil (suc k) = refl

  run-Arrived :
      (is : List Input) (d : Dash) (l : List TraceEvent) (n : ℕ)
      → NeverEnds o is
      → Shows d l n
      → Arrived (run o self is d) l n (captured o self n (events_of is))
  unfolding round run
  run-Arrived [] d l n ne h = Arrived-none d l n _ (captured-nil n) h
  run-Arrived (failed ∷ is) d l n ne h = absurd ne
  run-Arrived (empty first now ∷ is) d l n ne h = elim (Bool-cases (more o d)) [
    | inl on ↦
        let (d', out, e, h') = empty-GoesOn first now d l n ne.0 h in
        rw (run_goes_on (empty first now) is d d' out on e) (run-Arrived is d' l n ne.1 h')
    | inr off ↦
        let spent : ((o.limit == 0) || ltb n o.limit) ≡ false = rw h.1 at off in
        rw (run_stops (empty first now) is d off)
          (Arrived-none d l n _ (captured_none n (events_of is) spent) h)
  ]
  run-Arrived (got e ∷ is) d l n ne h = elim (Bool-cases (more o d)) [
    | inl on ↦
        let room : ((o.limit == 0) || ltb n o.limit) ≡ true = rw h.1 at on in
        let (d', out, next, h') = event-GoesOn e d l n h in
        rw (run_goes_on (got e) is d d' out on next)
          (elim (Bool-cases (want_event e o.filter_type o.filter_pid self)) [
            | inl w ↦ rw (captured-wanted n e (events_of is) room w) (
                Arrived-one (run o self is d') l n e _
                  (run-Arrived is d' (l ++ e ∷ []) (n + 1) ne (rw w at h')))
            | inr w ↦
                rw (captured-unwanted n e (events_of is) w) (run-Arrived is d' l n ne (rw w at h'))
          ])
    | inr off ↦
        let spent : ((o.limit == 0) || ltb n o.limit) ≡ false = rw h.1 at off in
        rw (run_stops (got e) is d off)
          (Arrived-none d l n _ (captured_none n (e ∷ events_of is) spent) h)
  ]

-- A run of the main loop whose inputs never end it: the array holds, in order, the newest 32 of the
-- events that pass the filter, of which only the first `limit` count if there is a limit; and `seen`
-- is their number. The empty rounds of a run with a limit change nothing of this.
pub run-newest :
    (o : Options) (self : ℤ) (is : List Input) (old : ℕ → TraceEvent)
    → NeverEnds o is
    → (visible (run o self is (start old)) ≡ newest 32 (captured o self 0 (events_of is)))
      × ((run o self is (start old)).seen ≡ length (captured o self 0 (events_of is)))
unfolding start
run-newest o self is old ne =
    let begin : Shows (start old) [] 0 =
      (refl, refl, record { count = omega arith; start = omega arith; room = λ h. refl }) in
    let (v, k, _) = run-Arrived o self is (start old) [] 0 ne begin in (v, k ∙ omega arith)
