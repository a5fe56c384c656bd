-- ===== src/Console/Tests.antt =====
-- Runs of consoleintr and consoleread.
use kernel_tracing.Prelude.{ℕ, ◌≡◌, refl, false, List, [], ◌∷◌, arith, update, ok}
use kernel_tracing.Console.{Input, putc, wake, backspace, count, consoleintr, consoleread}
use kernel_tracing.Console.Editor.{Editor, type_all, backspaces, press, drop_last}
use kernel_tracing.Console.Editing.{Shows, consoleintr-type_all}
use kernel_tracing.Console.Lines.{consoleread-read_ready, plain}

-- The indices have wrapped around.
abbrev idle : Input
idle = record { lock = false; buf = λ i. 0; r = 4294967295; w = 4294967295; e = 4294967295 }

abbrev blank : Editor
blank = record { ready = []; line = [] }

idle-Shows : Shows false idle blank
idle-Shows = record {
  locked = refl;
  r_fits = omega arith;
  w_fits = omega arith;
  e_fits = omega arith;
  bounded = omega arith;
  bytes = refl;
  complete = refl;
  open_line = tt;
}

-- 'x', ^U, 'l', 't', ^H, 's', carriage return
abbrev typed : List ℕ
typed = 120 ∷ 21 ∷ b'l' ∷ b't' ∷ 8 ∷ b's' ∷ 13 ∷ []

consoleintr-type_all_example :
    (t : Input) × (consoleintr typed idle ≡ ok (t, (type_all typed blank).1))
    × Shows false t (type_all typed blank).0
consoleintr-type_all_example =
    consoleintr-type_all typed idle blank
      (
        omega arith,
        (
          omega arith,
          (omega arith, (omega arith, (omega arith, (omega arith, (omega arith, tt))))),
        ),
      )
      idle-Shows

typed_line : (type_all typed blank).0.ready ≡ b'l' ∷ b's' ∷ b'\n' ∷ []
unfolding type_all press backspaces drop_last
typed_line = refl

typed_echo :
    (type_all typed blank).1
    ≡ putc 120
      ∷ putc backspace
      ∷ putc b'l'
      ∷ putc b't'
      ∷ putc backspace
      ∷ putc b's'
      ∷ putc b'\n'
      ∷ wake
      ∷ []
unfolding type_all press backspaces drop_last
typed_echo = refl

-- "ok" and a newline are ready, and '4' is on the line.
abbrev full : Input
full = record {
  lock = false;
  buf = update (update (update (update (λ i. 0) 5 b'o') 6 b'k') 7 b'\n') 8 b'4';
  r = 5;
  w = 8;
  e = 9;
}

full-Shows : Shows false full (record { ready = b'o' ∷ b'k' ∷ b'\n' ∷ []; line = b'4' ∷ [] })
full-Shows = record {
  locked = refl;
  r_fits = omega arith;
  w_fits = omega arith;
  e_fits = omega arith;
  bounded = omega arith;
  bytes = refl;
  complete = refl;
  open_line = (omega arith, tt);
}

consoleread-read_ready_example :
    (t : Input) × (consoleread 100 100 false full ≡ ok (count 3, b'o' ∷ b'k' ∷ b'\n' ∷ [], t))
    × Shows false t (record { ready = []; line = b'4' ∷ [] })
unfolding plain
consoleread-read_ready_example =
    consoleread-read_ready 100 false full
      (record { ready = b'o' ∷ b'k' ∷ b'\n' ∷ []; line = b'4' ∷ [] }) full-Shows
