-- ===== src/Dashboard/Tests.antt =====
-- Runs of the dashboard, and its theorems at these runs.
use kernel_tracing.Prelude.{ℕ, ◌≡◌, refl, true, List, [], ◌∷◌, ◌++◌, arith, length, take, newest}
use kernel_tracing.Prelude.Int.{ℤ, pos, negsuc}
use kernel_tracing.Ktrace.{TraceEvent}
use kernel_tracing.Ulib.{atoi, strcmp}
use kernel_tracing.Dashboard.{text, Options, default_options, parse_args}
use kernel_tracing.Dashboard.Draw.{Board, draw_board, draw_head, clear}
use kernel_tracing.Dashboard.Draw.Rows.{events_on, rows_of, draw_board-oldest}
use kernel_tracing.Dashboard.Loop.{Input, got, empty, start, run, no_counts}
use kernel_tracing.Dashboard.Loop.Window.{visible}
use kernel_tracing.Dashboard.Loop.Captured.{captured, events_of, run-newest}

options_run :
    parse_args (text "-n" ∷ text "10" ∷ text "mem" ∷ text "50" ∷ text "3" ∷ []) default_options
    ≡ record {
      display_rows = 10;
      filter_type = pos 4;
      filter_pid = pos 3;
      limit = 50;
      limit_set = true;
    }
unfolding parse_args default_options strcmp atoi
options_run = refl

abbrev event_of : ℤ → ℕ → TraceEvent
event_of pid seq = record {
  seq = seq;
  ticks = 3;
  type = pos 1;
  pid = pid;
  arg0 = pos 5;
  arg1 = pos 0;
  arg2 = pos 0;
  comm = λ _. 0;
  event = λ _. 0;
  overwritten = 0;
}

-- The dashboard itself is process 9, and the limit is two.
abbrev live : Options
live = record {
  display_rows = 15;
  filter_type = pos 0;
  filter_pid = negsuc 0;
  limit = 2;
  limit_set = true;
}

abbrev inputs : List Input
inputs =
    got (event_of (pos 2) 0)
    ∷ got (event_of (pos 9) 1)
    ∷ empty 4 4
    ∷ got (event_of (pos 2) 2)
    ∷ got (event_of (pos 2) 3)
    ∷ []

run-newest_example :
    (visible (run live (pos 9) inputs (start (λ i. event_of (pos 0) 0)))
      ≡ newest 32 (captured live (pos 9) 0 (events_of inputs)))
    × ((run live (pos 9) inputs (start (λ i. event_of (pos 0) 0))).seen
        ≡ length (captured live (pos 9) 0 (events_of inputs)))
run-newest_example = run-newest live (pos 9) inputs (λ i. event_of (pos 0) 0) (omega arith, tt)

abbrev board : Board
board = record {
  recent = event_of (pos 2);
  recent_count = 20;
  recent_start = 0;
  filter_type = pos 0;
  filter_pid = negsuc 0;
  overwritten = pos 0;
  seen = 20;
  limit = 0;
  display_rows = 15;
  shown = no_counts;
  total = no_counts;
}

draw_board-oldest_example :
    draw_board board ≡ clear ∷ draw_head board ++ rows_of 8 (take 15 (events_on board))
draw_board-oldest_example = draw_board-oldest board (omega arith)
