-- ===== src/Dashboard/Loop/Window.antt =====
-- The dashboard shows the newest 32 of the events that pass the filter, in order.
use kernel_tracing.Prelude.{
  ℕ, zero, suc, ◌+◌, ◌%◌, ◌≤◌, ◌<◌, ◌≡◌, refl, sym, ap, ◌∙◌, false, List, ◌∷◌, ◌++◌, arith, ltb,
  lt→ltb, length, drop, update, newest, newest-append_room, newest-append_full,
  newest-newest_append, [],
}
use kernel_tracing.Prelude.Int.{to_uint}
use native.Mathlib.Decide.{dec_lt}
use kernel_tracing.Ring
use kernel_tracing.Ring.{window, IsRing}
use kernel_tracing.Ktrace.{TraceEvent}
use kernel_tracing.Dashboard.{update_counts, max_trace_rows, graph_width}
use kernel_tracing.Dashboard.Loop.{
  Dash, set_tick, elapsed, clear_slots, mark_activity, remember, accept,
}

abbrev pub slot : ℕ → ℕ
slot i = i % max_trace_rows

slot-IsRing : IsRing max_trace_rows slot
slot-IsRing = record {
  positive = omega arith;
  apart = λ i d lo hi. omega arith;
  follows = λ i j h. omega arith;
}

-- The events that the array `recent` holds, the oldest first.
abbrev pub visible : Dash → List TraceEvent
visible d = window slot d.recent d.recent_start d.recent_count

pub record IsShape (d : Dash) : Type 0 where
  pub count : d.recent_count ≤ max_trace_rows
  pub start : d.recent_start < max_trace_rows
  pub room : d.recent_count < max_trace_rows → d.recent_start ≡ 0

length-visible : (d : Dash) → length (visible d) ≡ d.recent_count
length-visible d = Ring.length-window 32 slot slot-IsRing d.recent d.recent_start d.recent_count

module _ (e : TraceEvent) (d : Dash) (s : IsShape d) where
  visible-room :
      d.recent_count < 32
      → visible (record d {
        recent = update d.recent d.recent_count e;
        recent_count = d.recent_count + 1;
      })
        ≡ visible d ++ e ∷ []
  visible-room h =
      let first : d.recent_start ≡ 0 = s.room h in
      let at : slot d.recent_count ≡ d.recent_count = omega arith in
      let one : d.recent_count + 1 ≡ suc d.recent_count = omega arith in
      (λ i. window slot (update d.recent (sym at i) e) d.recent_start (one i))
      ∙ Ring.window-push 32 slot slot-IsRing d.recent e d.recent_start d.recent_count d.recent_count
          h (omega arith)

  visible-full :
      d.recent_count ≡ 32
      → visible (record d {
        recent = update d.recent d.recent_start e;
        recent_start = (d.recent_start + 1) % 32;
      })
        ≡ drop 1 (visible d) ++ e ∷ []
  visible-full h =
      let at : slot d.recent_start ≡ d.recent_start = omega (arith, s.start) in
      (λ i. window slot (update d.recent (sym at i) e) ((d.recent_start + 1) % 32) (h i))
      ∙ Ring.window-wraps 32 slot slot-IsRing (update d.recent (slot d.recent_start) e) _
          (d.recent_start + 1) 32 (omega arith)
      ∙ Ring.window-push 32 slot slot-IsRing d.recent e (d.recent_start + 1) 31 d.recent_start
          (omega arith) (omega arith)
      ∙ ap (λ k. drop 1 (window slot d.recent d.recent_start k) ++ e ∷ []) (sym h)

  -- The array keeps the newest 32 of what it held and the new event.
  remember-newest :
      (visible (remember e d) ≡ newest 32 (visible d ++ e ∷ [])) × IsShape (remember e d)
  unfolding remember
  remember-newest = elim (dec_lt d.recent_count 32) [
    | yes h ↦ rw (lt→ltb d.recent_count 32 h) (
      visible-room h ∙ sym (newest-append_room 32 (visible d) e (omega (arith, length-visible d))),
      record { count = omega arith; start = s.start; room = λ lt. s.room h },
    )
    | no h ↦
        let all : d.recent_count ≡ 32 = omega (arith, s.count) in
        let off : ltb d.recent_count 32 ≡ false = ground arith in
        rw off (
          visible-full all
              ∙ sym (newest-append_full 32 (visible d) e (omega arith) (length-visible d ∙ all)),
          record { count = s.count; start = omega arith; room = λ lt. absurd (omega arith) },
        )
  ]

-- What no step but `remember` changes.
abbrev pub SameWindow : Dash → Dash → Type 0
SameWindow d d' =
    (d'.recent ≡ d.recent)
    × (d'.recent_count ≡ d.recent_count)
    × (d'.recent_start ≡ d.recent_start)
    × (d'.seen ≡ d.seen)

pub clear_slots-SameWindow : (n : ℕ) (d : Dash) → SameWindow d (clear_slots n d)
unfolding clear_slots
clear_slots-SameWindow zero d = (refl, refl, refl, refl)
clear_slots-SameWindow (suc n) d =
    let p = (d.activity_pos + 1) % graph_width in
    clear_slots-SameWindow n (record d { activity_pos = p; activity = update d.activity p 0 })

mark_activity-SameWindow : (e : TraceEvent) (d : Dash) → SameWindow d (mark_activity e d)
unfolding mark_activity
mark_activity-SameWindow e d =
    let d' = set_tick e.ticks d in
    ground (arith, clear_slots-SameWindow (elapsed (to_uint d'.last_tick) e.ticks) d')

pub visible-same : (d d' : Dash) → SameWindow d d' → visible d' ≡ visible d
visible-same d d' (r, c, t, _) = λ i. window slot (r i) (t i) (c i)

pub IsShape-same : (d d' : Dash) → SameWindow d d' → IsShape d → IsShape d'
IsShape-same d d' (r, c, t, _) s = record {
  count = rw c s.count;
  start = rw t s.start;
  room = λ h. t ∙ s.room (rw c at h);
}

-- What a round does to the window and to `seen`, for a new list of visible events.
abbrev pub Shows : Dash → List TraceEvent → ℕ → Type 0
Shows d l n = (visible d ≡ newest 32 l) × (d.seen ≡ n) × IsShape d

remember-seen : (e : TraceEvent) (d : Dash) → (remember e d).seen ≡ d.seen
unfolding remember
remember-seen e d = ground arith

pub accept-Shows :
    (e : TraceEvent) (d : Dash) (l : List TraceEvent) (n : ℕ)
    → Shows d l n
    → Shows (accept e d) (l ++ e ∷ []) n
unfolding accept
accept-Shows e d l n (v, k, s) =
    let d1 = record d { shown = update_counts e d.shown } in
    let same = mark_activity-SameWindow e d1 in
    let d2 = mark_activity e d1 in
    let kept : IsShape d1 = record { count = s.count; start = s.start; room = s.room } in
    let (v', s') = remember-newest e d2 (IsShape-same d1 d2 same kept) in
    (
      v'
          ∙ ap (λ w. newest 32 (w ++ e ∷ [])) (visible-same d1 d2 same ∙ v)
          ∙ newest-newest_append 32 l (e ∷ []),
      remember-seen e d2 ∙ same.3 ∙ k,
      s',
    )
