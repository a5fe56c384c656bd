-- ===== src/Dashboard/Loop.antt =====
-- The main loop of trace.c. What traceread and uptime return is the list of inputs of the run, one
-- for each round; what is drawn is output of the round.
pub mod Captured
pub mod Window
use kernel_tracing.Prelude.{
  ℕ, zero, suc, ◌+◌, ◌-◌, ◌%◌, ◌^◌, min, Bool, true, false, ◌&&◌, ◌||◌, not, List, ◌∷◌, ◌++◌, ltb,
  ◌==◌, if◌then◌else◌, update, [],
}
use kernel_tracing.Prelude.Int.{to_nat, ℤ, pos, negsuc, eq_int, to_int, to_uint, lt_int, add_nat}
use kernel_tracing.Ktrace.{TraceEvent}
use kernel_tracing.Dashboard.{
  Options, Counts, want_event, update_counts, max_trace_rows, graph_width,
}
use kernel_tracing.Dashboard.Draw.{Draw, draw_board, draw_graph}

-- The variables of main and the counters; `recent` is the static array.
pub record Dash : Type 0 where
  pub recent : ℕ → TraceEvent
  pub recent_count : ℕ
  pub recent_start : ℕ
  pub seen : ℕ
  pub activity : ℕ → ℕ
  pub activity_pos : ℕ
  pub last_tick : ℤ
  pub overwritten : ℤ
  pub shown : Counts
  pub total : Counts

abbrev pub no_counts : Counts
no_counts = record { sys = 0; proc = 0; mem = 0; trap = 0 }

-- The variables when the loop is entered; `old` is what the array `recent` holds.
pub start : (ℕ → TraceEvent) → Dash
start old = record {
  recent = old;
  recent_count = 0;
  recent_start = 0;
  seen = 0;
  activity = λ _. 0;
  activity_pos = 0;
  last_tick = negsuc 0;
  overwritten = pos 0;
  shown = no_counts;
  total = no_counts;
}

-- What `traceread(&event, 1)` returns: less than 0, 0 with the values of the two calls of uptime
-- that may follow, or 1 and an event.
pub data Input : Type 0 where
  failed : Input
  empty : (first now : ℕ) → Input
  got : TraceEvent → Input

-- How a round ends.
pub data Next : Type 0 where
  failure : Next
  done : Next
  continue : Dash → List Draw → Next

-- `for(i = 0; i < diff; i++){ activity_pos = ...; activity[activity_pos] = 0; }`
pub clear_slots : ℕ → Dash → Dash
clear_slots zero d = d
clear_slots (suc n) d =
    let p = (d.activity_pos + 1) % graph_width in
    clear_slots n (record d { activity_pos = p; activity = update d.activity p 0 })

-- The rounds of the loop that clears slots: `diff`, an int and at most 50, for a clock that has gone
-- from `last` to `now`; none where diff is negative.
abbrev pub elapsed : (last now : ℕ) → ℕ
elapsed last now = min 50 (to_nat (to_int ((now + 2 ^ 32 - last) % 2 ^ 32)))

-- Both draw calls of a round.
abbrev pub draw_all : Options → Dash → List Draw
draw_all o d =
    draw_board (record {
      recent = d.recent;
      recent_count = d.recent_count;
      recent_start = d.recent_start;
      filter_type = o.filter_type;
      filter_pid = o.filter_pid;
      overwritten = d.overwritten;
      seen = d.seen;
      limit = o.limit;
      display_rows = o.display_rows;
      shown = d.shown;
      total = d.total;
    })
    ++ draw_graph 4 0 d.activity d.activity_pos

-- `if(last_tick == -1) last_tick = now;`
abbrev pub set_tick : ℕ → Dash → Dash
set_tick now d = if eq_int d.last_tick (negsuc 0) then record d { last_tick = to_int now } else d

-- The idle part of a round: the clock moves on and the graph with it.
pub idle : Options → ℕ → Dash → Next
idle o now d =
    let d' = set_tick now d in
    if lt_int d'.last_tick (to_int now)
    then (let moved = clear_slots (elapsed (to_uint d'.last_tick) now) d' in
        let d'' = record moved { last_tick = to_int now } in continue d'' (draw_all o d''))
    else continue d' []

-- `n == 0`
pub on_empty : Options → (first now : ℕ) → Dash → Next
on_empty o first now d =
    if (o.limit == 0) && ltb 0 d.recent_count
    then done
    else if (o.limit == 0) && (d.seen == 0) && lt_int (add_nat d.last_tick 10) (to_int first)
    then done
    else idle o now d

-- `if(event.ticks > last_tick)`, an unsigned comparison, and `activity[activity_pos]++`
pub mark_activity : TraceEvent → Dash → Dash
mark_activity e d =
    let d' = set_tick e.ticks d in
    let last = to_uint d'.last_tick in
    let d'' =
      if ltb last e.ticks
      then record (clear_slots (elapsed last e.ticks) d') { last_tick = to_int e.ticks }
      else d' in
    record d'' {
      activity = update d''.activity d''.activity_pos (d''.activity d''.activity_pos + 1);
    }

pub remember : TraceEvent → Dash → Dash
remember e d =
    if ltb d.recent_count max_trace_rows
    then record d { recent = update d.recent d.recent_count e; recent_count = d.recent_count + 1 }
    else record d {
      recent = update d.recent d.recent_start e;
      recent_start = (d.recent_start + 1) % max_trace_rows;
    }

-- An event that passes the filter: all but the drawing.
pub accept : TraceEvent → Dash → Dash
accept e d = remember e (mark_activity e (record d { shown = update_counts e d.shown }))

-- Every event that is read.
pub count_total : TraceEvent → Dash → Dash
count_total e d = record d { total = update_counts e d.total; overwritten = to_int e.overwritten }

pub on_event : Options → (self_pid : ℤ) → TraceEvent → Dash → Next
on_event o self_pid e d =
    let d' = count_total e d in
    if not (want_event e o.filter_type o.filter_pid self_pid)
    then continue d' []
    else let d'' = accept e d' in continue (record d'' { seen = d''.seen + 1 }) (draw_all o d'')

pub round : Options → (self_pid : ℤ) → Input → Dash → Next
round o self failed d = failure
round o self (empty first now) d = on_empty o first now d
round o self (got e) d = on_event o self e d

-- `while(limit == 0 || seen < limit)`
abbrev pub more : Options → Dash → Bool
more o d = (o.limit == 0) || ltb d.seen o.limit

-- The state when the loop ends or the inputs do, whatever was drawn.
pub run : Options → (self_pid : ℤ) → List Input → Dash → Dash
run o self [] d = d
run o self (i ∷ is) d = elim (more o d) [
  | false ↦ d
  | true ↦ elim (round o self i d) [ failure ↦ d | done ↦ d | continue d' out ↦ run o self is d' ]
]
