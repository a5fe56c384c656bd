-- ===== src/Dashboard/Draw/Rows.antt =====
-- Which events drawBoard puts on which rows of the screen.
use kernel_tracing.Prelude.{
  ℕ, zero, suc, ◌+◌, ◌-◌, ◌%◌, ◌≤◌, ◌<◌, ◌≡◌, ap, ap₂, ◌∙◌, inl, inr, true, false, List, [], ◌∷◌,
  ◌++◌, arith, ltb, Bool-cases, take, take-nil,
}
use kernel_tracing.Ring.{window}
use kernel_tracing.Ktrace.{TraceEvent}
use kernel_tracing.Dashboard.{max_trace_rows}
use kernel_tracing.Dashboard.Draw.{
  Draw, Board, draweventrow, rows_loop, draw_board, draw_head, clear,
}

-- The events of the board, the oldest first.
abbrev pub events_on : Board → List TraceEvent
events_on b = window (λ i. i % max_trace_rows) b.recent b.recent_start b.recent_count

-- One event to a row, from `row` down.
abbrev pub rows_of : (row : ℕ) → List TraceEvent → List Draw
rows_of row [] = []
rows_of row (e ∷ es) = draweventrow row e ++ rows_of (row + 1) es

rows_loop-rows_of :
    (left i n : ℕ) (b : Board)
    → i + n ≡ b.recent_count
    → b.recent_count ≤ 32
    → 32 < left + i
    → rows_loop left i b
      ≡ rows_of (8 + i) (
          take
            (b.display_rows - i)
            (window (λ i. i % max_trace_rows) b.recent (b.recent_start + i) n))
unfolding rows_loop
rows_loop-rows_of zero i n b e few fuel = absurd (omega arith)
rows_loop-rows_of (suc left) i zero b e few fuel =
    let past : ltb i b.recent_count ≡ false = ground arith in
    rw (past, take-nil {A = TraceEvent} (b.display_rows - i))
rows_loop-rows_of (suc left) i (suc n) b e few fuel =
    let present : ltb i b.recent_count ≡ true = ground arith in
    let in_array : ltb i 32 ≡ true = ground arith in
    elim (Bool-cases (ltb i b.display_rows)) [
      | inl h ↦
          let shown : b.display_rows - i ≡ suc (b.display_rows - (i + 1)) = ground arith in
          let rest = rows_loop-rows_of left (i + 1) n b (omega arith) few (omega arith) in
          rw (present, h, in_array, shown, rest)
            (let next : b.recent_start + (i + 1) ≡ b.recent_start + i + 1 = omega arith in
              let row : 8 + (i + 1) ≡ 8 + i + 1 = omega arith in rw (next, row))
      | inr h ↦ let cut : b.display_rows - i ≡ 0 = ground arith in rw (present, h, cut)
    ]

-- drawBoard puts the oldest `display_rows` events of its array on the rows from 8 down, one to a
-- row and in order; the newer ones are not drawn.
pub draw_board-oldest :
    (b : Board)
    → b.recent_count ≤ max_trace_rows
    → draw_board b ≡ clear ∷ draw_head b ++ rows_of 8 (take b.display_rows (events_on b))
unfolding draw_board
draw_board-oldest b few =
    let at : b.recent_start + 0 ≡ b.recent_start = omega arith in
    let all : b.display_rows - 0 ≡ b.display_rows = omega arith in
    ap (λ l. clear ∷ draw_head b ++ l)
      (rows_loop-rows_of 33 0 b.recent_count b (omega arith) few (omega arith)
        ∙ ap₂
            (λ s k. rows_of 8 (take k (window (λ i. i % max_trace_rows) b.recent s b.recent_count)))
            at all)
