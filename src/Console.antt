-- ===== src/Console.antt =====
-- console.c, the input side: consoleintr edits a line in a ring of bytes, and consoleread gives away
-- the lines that are complete. A run of consoleread ends where it sleeps.
pub mod Editor
pub mod Editing
pub mod Lines
pub mod Tests
use kernel_tracing.Prelude.{
  ℕ, zero, suc, ◌+◌, ◌-◌, ◌%◌, ◌^◌, Bool, ◌&&◌, ◌||◌, not, List, ◌∷◌, ◌++◌, ltb, ◌==◌,
  if◌then◌else◌, update, Outcome, ok, [], ◌>>=◌,
}
use kernel_tracing.Spin.{acquire, release}

abbrev pub input_buf : ℕ
input_buf = 128

-- `input`; the indices are uints.
pub record Input : Type 0 where
  pub lock : Bool
  pub buf : ℕ → ℕ
  pub r : ℕ
  pub w : ℕ
  pub e : ℕ

-- BACKSPACE, and C('D')
abbrev pub backspace : ℕ
backspace = 256

abbrev pub ctrl_d : ℕ
ctrl_d = 4

-- What a key does apart from the buffer: a call of consputc, of lidt, of procdump or of wakeup.
pub data Effect : Type 0 where
  putc : ℕ → Effect
  reboot : Effect
  dump : Effect
  wake : Effect

-- `input.e--`
abbrev pub step_back : Input → Input
step_back s = record s { e = (s.e + (2 ^ 32 - 1)) % 2 ^ 32 }

-- The loop of C('U'), which goes on as long as the line has bytes.
pub kill_line : (fuel : ℕ) → Input → Input × List Effect
kill_line zero s = (s, [])
kill_line (suc fuel) s =
    let rest = kill_line fuel (step_back s) in
    if not (s.e == s.w) && not (s.buf ((s.e + (2 ^ 32 - 1)) % 2 ^ 32 % input_buf) == b'\n')
    then (rest.0, putc backspace ∷ rest.1)
    else (s, [])

abbrev pub erase : Input → Input × List Effect
erase s = if s.e == s.w then (s, []) else (step_back s, putc backspace ∷ [])

-- `c = (c == '\r') ? '\n' : c`
abbrev pub newline : ℕ → ℕ
newline c = if c == b'\r' then b'\n' else c

-- The array is one of chars.
abbrev pub store : ℕ → Input → Input
store c s = record s { buf = update s.buf (s.e % input_buf) (c % 256); e = (s.e + 1) % 2 ^ 32 }

-- `c == '\n' || c == C('D') || input.e == input.r+INPUT_BUF`
abbrev pub ends : ℕ → Input → Bool
ends c s = c == b'\n' || c == ctrl_d || s.e == (s.r + input_buf) % 2 ^ 32

pub enter : ℕ → Input → Input × List Effect
enter c s =
    if not (c == 0) && ltb ((s.e + 2 ^ 32 - s.r) % 2 ^ 32) input_buf
    then (let s' = store (newline c) s in
        if ends (newline c) s'
        then (record s' { w = s'.e }, putc (newline c) ∷ wake ∷ [])
        else (s', putc (newline c) ∷ []))
    else (s, [])

-- The switch of consoleintr
pub key : ℕ → Input → Input × List Effect
key c s =
    if c == 26
    then (s, reboot ∷ [])
    else if c == 16
    then (s, dump ∷ [])
    else if c == 21
    then kill_line input_buf s
    else if c == 8 || c == 127
    then erase s
    else enter c s

pub keys : List ℕ → Input → Input × List Effect
keys [] s = (s, [])
keys (c ∷ cs) s = let a = key c s in let b = keys cs a.0 in (b.0, a.1 ++ b.1)

-- consoleintr, with what getc gives until it is negative.
pub consoleintr : List ℕ → Input → Outcome (Input × List Effect)
consoleintr cs s = do
  held ← acquire s.lock
  let a = keys cs (record s { lock = held })
  free ← release a.0.lock
  ok (record a.0 { lock = free }, a.1)

-- How a run of consoleread ends: with a count, killed, or asleep with n bytes still wanted.
pub data ReadEnd : Type 0 where
  count : ℕ → ReadEnd
  killed : ReadEnd
  sleeps : ℕ → ReadEnd

-- The loop of consoleread, n of target bytes being wanted: the end, the bytes stored at dst, and
-- the input.
pub take_bytes : (n target : ℕ) → (dead : Bool) → Input → ReadEnd × List ℕ × Input
take_bytes zero target dead s = (count target, [], s)
take_bytes (suc n) target dead s =
    let c = s.buf (s.r % input_buf) in
    let s' = record s { r = (s.r + 1) % 2 ^ 32 } in
    let rest = take_bytes n target dead s' in
    if s.r == s.w
    then (if dead then killed else sleeps (suc n), [], s)
    else if c == ctrl_d
    then (count (target - suc n), [], if ltb (suc n) target then s else s')
    else if c == b'\n'
    then (count (target - n), c ∷ [], s')
    else (rest.0, c ∷ rest.1, rest.2)

-- consoleread between iunlock and ilock: `n` bytes of `target` are wanted, which is all of them at the call.
-- The lock is free when it ends, and when it sleeps.
pub consoleread : (n target : ℕ) → (dead : Bool) → Input → Outcome (ReadEnd × List ℕ × Input)
consoleread n target dead s = do
  held ← acquire s.lock
  let a = take_bytes n target dead (record s { lock = held })
  free ← release a.2.lock
  ok (a.0, a.1, record a.2 { lock = free })
