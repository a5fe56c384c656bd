-- ===== src/Dashboard/Draw.antt =====
-- The drawing routines of trace.c, as the list of the calls of vidclear and vidputs that they make.
pub mod Rows
use kernel_tracing.Prelude.{
  ℕ, zero, suc, ◌+◌, ◌%◌, ◌&&◌, List, [], ◌∷◌, ◌++◌, ltb, ◌==◌, if◌then◌else◌,
}
use kernel_tracing.Prelude.Int.{ℤ, pos, negsuc, eq_int, is_pos, to_int, to_uint}
use kernel_tracing.Str.{Bytes}
use kernel_tracing.Ktrace.{TraceEvent}
use kernel_tracing.Ktrace.TraceType
use kernel_tracing.Dashboard.{
  text, typename, type_color, detail_color, max_trace_rows, graph_width, Counts,
}
use kernel_tracing.Dashboard.Color
use kernel_tracing.Dashboard.Number.{itoa, itox}

-- A system call that changes the screen.
pub data Draw : Type 0 where
  clear : Draw
  puts : (row col : ℕ) → List ℕ → (color : ℕ) → Draw

-- The string in an array of `n` bytes.
abbrev pub string_in : (n i : ℕ) → Bytes → List ℕ
string_in zero i b = []
string_in (suc n) i b = let rest = string_in n (i + 1) b in if b i == 0 then [] else b i ∷ rest

drawnum : (row col : ℕ) → ℤ → ℕ → List Draw
drawnum row col val color = puts row col (itoa val) color ∷ []

drawhex : (row col : ℕ) → ℕ → ℕ → List Draw
drawhex row col val color =
    puts row col (text "0x") color ∷ puts row (col + 2) (itox val) color ∷ []

abbrev pub blanks : ℕ → List ℕ
blanks zero = []
blanks (suc n) = b' ' ∷ blanks n

-- The columns from 54 on, which depend on the type of the event.
draw_details : ℕ → TraceEvent → List Draw
unfolding drawnum drawhex
draw_details row e =
    if eq_int e.type TraceType.syscall
    then puts row 54 (text "num = ") Color.normal ∷ drawnum row 60 e.arg0 Color.cyan
      ++ (puts row 64 (text "ret = ") Color.normal ∷ drawnum row 70 e.arg1 (detail_color e))
    else if eq_int e.type TraceType.proc
    then puts row 54 (text "child = ") Color.normal ∷ drawnum row 62 e.arg0 Color.green
    else if eq_int e.type TraceType.mem
    then puts row 54 (text "page = ") Color.normal ∷ drawhex row 61 (to_uint e.arg0) Color.yellow
    else if eq_int e.type TraceType.trap
    then puts row 54 (text "cause = ") Color.red ∷ drawnum row 62 e.arg0 Color.red
      ++ (puts row 66 (text "err = ") Color.red ∷ drawnum row 72 e.arg1 Color.red)
    else []

pub draweventrow : ℕ → TraceEvent → List Draw
unfolding draw_details
draweventrow row e =
    puts row 0 (blanks 80) Color.normal ∷ drawnum row 0 (to_int e.seq) Color.normal
    ++ (drawnum row 5 (to_int e.ticks) Color.normal
        ++ (drawnum row 12 e.pid (type_color e.type)
            ++ (puts row 17 (string_in 16 0 e.comm) (type_color e.type)
                ∷ puts row 34 (typename e.type) (type_color e.type)
                ∷ puts row 43 (string_in 16 0 e.event) (type_color e.type)
                ∷ draw_details row e)))

-- The bar and its colour for a slot with `count` events.
bar : ℕ → List ℕ × ℕ
bar count =
    if count == 0
    then (text ".", Color.normal)
    else if ltb count 3
    then (text "-", Color.green)
    else if ltb count 7
    then (text "=", Color.yellow)
    else (text "#", Color.red)

-- `for(i = 0; i < GRAPH_WIDTH; i++)`, with `left` rounds to go
graph_loop : (left i row col : ℕ) → (ℕ → ℕ) → ℕ → List Draw
unfolding bar
graph_loop zero i row col activity activity_pos = []
graph_loop (suc left) i row col activity activity_pos =
    let shown = bar (activity ((activity_pos + 1 + i) % graph_width)) in
    puts (row + 1) (col + i) shown.0 shown.1 ∷ graph_loop left (i + 1) row col activity activity_pos

pub draw_graph : (row col : ℕ) → (ℕ → ℕ) → ℕ → List Draw
unfolding graph_loop
draw_graph row col activity activity_pos =
    puts row col (text "event rate last 50 ticks: . none | - low | = medium | # high") Color.title
    ∷ graph_loop graph_width 0 row col activity activity_pos

-- What drawBoard is given, the counters and `display_rows` among it.
pub record Board : Type 0 where
  pub recent : ℕ → TraceEvent
  pub recent_count : ℕ
  pub recent_start : ℕ
  pub filter_type : ℤ
  pub filter_pid : ℤ
  pub overwritten : ℤ
  pub seen : ℕ
  pub limit : ℕ
  pub display_rows : ℕ
  pub shown : Counts
  pub total : Counts

draw_title : Board → List Draw
unfolding drawnum
draw_title b =
    puts 0 0 (text "XV6 LIVE KERNEL TRACE DASHBOARD") Color.title
      ∷ puts 0 36 (text "FILTER:") Color.normal
      ∷ puts 0 44 (typename b.filter_type) (type_color b.filter_type)
      ∷ puts 0 52 (text "pid = ") Color.normal
      ∷ (if eq_int b.filter_pid (negsuc 0)
          then puts 0 58 (text "all") Color.normal ∷ []
          else drawnum 0 58 b.filter_pid Color.normal)
    ++ (puts 0 64 (text "STATUS:") Color.normal
        ∷ (if b.limit == 0
            then puts 0 72 (text "ONESHOT") Color.yellow ∷ []
            else puts 0 72 (text "LIVE") Color.green ∷ []))

draw_captured : Board → List Draw
unfolding drawnum
draw_captured b =
    puts 1 0 (text "captured = ") Color.normal ∷ drawnum 1 11 (pos b.seen) Color.cyan
    ++ (puts 1 15 (text "/ ") Color.normal
        ∷ (if b.limit == 0
            then drawnum 1 17 (pos 128) Color.cyan
            else drawnum 1 17 (pos b.limit) Color.cyan))

-- A row of four counters: their titles and columns, and the colours of `drawnum`.
draw_shown : Counts → List Draw
unfolding drawnum
draw_shown c =
    puts 1 26 (text "showing: syscall = ") Color.normal ∷ drawnum 1 45 (pos c.sys) Color.cyan
    ++ (puts 1 48 (text " proc = ") Color.normal ∷ drawnum 1 56 (pos c.proc) Color.green
        ++ (puts 1 59 (text " mem = ") Color.normal ∷ drawnum 1 66 (pos c.mem) Color.yellow
            ++ (puts 1 69 (text " trap = ") Color.normal ∷ drawnum 1 77 (pos c.trap) Color.red)))

draw_total : Counts → List Draw
unfolding drawnum
draw_total c =
    puts 2 26 (text "total:   syscall = ") Color.normal ∷ drawnum 2 45 (pos c.sys) Color.cyan
    ++ (puts 2 48 (text " proc = ") Color.normal ∷ drawnum 2 56 (pos c.proc) Color.green
        ++ (puts 2 59 (text " mem = ") Color.normal ∷ drawnum 2 66 (pos c.mem) Color.yellow
            ++ (puts 2 69 (text " trap = ") Color.normal ∷ drawnum 2 77 (pos c.trap) Color.red)))

pub draw_head : Board → List Draw
unfolding draw_title draw_captured draw_shown draw_total drawnum
draw_head b =
    draw_title b
    ++ (draw_captured b
        ++ (draw_shown b.shown
            ++ (puts 2 0 (text "overwritten = ") Color.normal
                  ∷ drawnum 2 14 b.overwritten
                      (if is_pos b.overwritten then Color.red else Color.normal)
                ++ (draw_total b.total
                    ++ (puts 6 0
                          (text "SEQ  TICKS  PID  PROC             SUBSYS   EVENT      DETAILS")
                          Color.title
                        ∷ puts 7 0
                            (text
                              "---------------------------------------------------------------------------")
                            Color.normal
                        ∷ [])))))

-- `i < recent_count && i < display_rows && i < MAX_TRACE_ROWS`, with `left` rounds to go
pub rows_loop : (left i : ℕ) → Board → List Draw
rows_loop zero i b = []
rows_loop (suc left) i b =
    let rest =
      draweventrow (8 + i) (b.recent ((b.recent_start + i) % max_trace_rows))
      ++ rows_loop left (i + 1) b in
    if ltb i b.recent_count && ltb i b.display_rows && ltb i max_trace_rows then rest else []

pub draw_board : Board → List Draw
unfolding rows_loop
draw_board b = clear ∷ draw_head b ++ rows_loop (max_trace_rows + 1) 0 b
