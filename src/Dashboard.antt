-- ===== src/Dashboard.antt =====
-- trace.c, the dashboard: colours, the filter, the counters, and the options of the command line.
-- The screen and the main loop are in the children Draw and Loop.
pub mod Color
pub mod Number
pub mod Draw
pub mod Loop
pub mod Tests
use kernel_tracing.Prelude.{
  ℕ, zero, suc, ◌+◌, ◌-◌, ◌*◌, ◌/◌, ◌%◌, ◌^◌, ◌≤◌, ◌<◌, min, String, ◌≡◌, refl, sym, subst, ap, ap₂,
  ◌∙◌, fun_ext, ◌≢◌, ◌↔◌, ◌⊎◌, inl, inr, Bool, true, false, ◌&&◌, ◌||◌, not, Option, none, some,
  List, [], ◌∷◌, ◌++◌, map, foldl, arith, ltb, leb, ◌==◌, if◌then◌else◌, ltb→lt, lt→ltb, ==_iff,
  Bool-cases, Option-cases, length, get_elem?, take, drop, update, length-append, length-drop,
  length-take, take-append-drop, newest, newest-append_room, newest-append_full, map-drop, Outcome,
  ok, panic, ◌>>=◌,
}
use kernel_tracing.Prelude.Int.{ℤ, pos, negsuc, eq_int, is_neg}
use kernel_tracing.Ktrace.{TraceEvent}
use kernel_tracing.Ktrace.TraceType
use kernel_tracing.Ulib.{strcmp, atoi}
use Prim.Native.Char.{code}

-- The bytes of a literal.
abbrev pub text : String → List ℕ
text String.[] = []
text (String.◌∷◌ c s) = code c ∷ text s

abbrev pub max_trace_rows : ℕ
max_trace_rows = 32

abbrev pub graph_width : ℕ
graph_width = 50

pub typename : ℤ → List ℕ
typename t =
    if eq_int t TraceType.syscall
    then text "syscall"
    else if eq_int t TraceType.proc
    then text "proc"
    else if eq_int t TraceType.trap
    then text "trap"
    else if eq_int t TraceType.mem
    then text "mem"
    else text "all"

pub type_color : ℤ → ℕ
type_color t =
    if eq_int t TraceType.syscall
    then Color.cyan
    else if eq_int t TraceType.proc
    then Color.green
    else if eq_int t TraceType.mem
    then Color.yellow
    else if eq_int t TraceType.trap
    then Color.red
    else Color.normal

pub detail_color : TraceEvent → ℕ
detail_color e =
    if eq_int e.type TraceType.trap
    then Color.red
    else if eq_int e.type TraceType.mem
    then Color.yellow
    else if eq_int e.type TraceType.proc
    then Color.green
    else if eq_int e.type TraceType.syscall
    then (if is_neg e.arg1 then Color.red else Color.cyan)
    else Color.normal

pub latency_color : ℤ → ℕ
latency_color (negsuc _) = Color.green
latency_color (pos n) = if leb 5 n then Color.red else if leb 2 n then Color.yellow else Color.green

pub want_event : TraceEvent → (type_filter pid_filter self_pid : ℤ) → Bool
want_event e type_filter pid_filter self_pid =
    if eq_int e.pid self_pid
    then false
    else if not (eq_int type_filter (pos 0)) && not (eq_int e.type type_filter)
    then false
    else if not (eq_int pid_filter (negsuc 0)) && not (eq_int e.pid pid_filter)
    then false
    else true

-- sys_count and its kin, or t_sys_count and its kin
pub record Counts : Type 0 where
  pub sys : ℕ
  pub proc : ℕ
  pub mem : ℕ
  pub trap : ℕ

-- update_window_counts and update_total_counts, which differ in the counters that they change.
pub update_counts : TraceEvent → Counts → Counts
update_counts e c =
    if eq_int e.type TraceType.syscall
    then record c { sys = c.sys + 1 }
    else if eq_int e.type TraceType.proc
    then record c { proc = c.proc + 1 }
    else if eq_int e.type TraceType.mem
    then record c { mem = c.mem + 1 }
    else if eq_int e.type TraceType.trap
    then record c { trap = c.trap + 1 }
    else c

-- What the command line sets.
pub record Options : Type 0 where
  pub display_rows : ℕ
  pub filter_type : ℤ
  pub filter_pid : ℤ
  pub limit : ℕ
  pub limit_set : Bool

pub default_options : Options
default_options = record {
  display_rows = 15;
  filter_type = pos 0;
  filter_pid = negsuc 0;
  limit = 0;
  limit_set = false;
}

-- `strcmp(arg, word) == 0`
abbrev pub is_word : List ℕ → String → Bool
is_word arg word = eq_int (strcmp arg (text word)) (pos 0)

set_rows : ℕ → Options → Options
set_rows n o = record o { display_rows = if ltb max_trace_rows n then max_trace_rows else n }

-- The last branch: a number, the limit first and then the pid.
set_number : List ℕ → Options → Options
set_number arg o =
    let val = atoi arg in
    if ltb 0 val || is_word arg "0"
    then (if not o.limit_set
        then record o { limit = val; limit_set = true }
        else if eq_int o.filter_pid (negsuc 0)
        then record o { filter_pid = pos val }
        else o)
    else o

set_word : List ℕ → Options → Options
unfolding set_number
set_word arg o =
    if is_word arg "syscall"
    then record o { filter_type = TraceType.syscall }
    else if is_word arg "proc"
    then record o { filter_type = TraceType.proc }
    else if is_word arg "mem"
    then record o { filter_type = TraceType.mem }
    else if is_word arg "trap"
    then record o { filter_type = TraceType.trap }
    else set_number arg o

-- The loop over argv[1] .. argv[argc - 1]; `-n` takes the argument behind it, if there is one.
pub parse_args : List (List ℕ) → Options → Options
unfolding set_rows set_word
parse_args [] o = o
parse_args (arg ∷ []) o = set_word arg o
parse_args (arg ∷ next ∷ args) o = elim (is_word arg "-n") [
  | true ↦ parse_args args (set_rows (atoi next) o)
  | false ↦ parse_args (next ∷ args) (set_word arg o)
]
