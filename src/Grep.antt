-- ===== src/Grep.antt =====
-- grep.c: the regular expression matcher and the loop that reads lines. A C string is the list of
-- its bytes before the NUL, so that the end of the list is where the code reads '\0'.
pub mod Language
pub mod Matcher
pub mod Reading
pub mod Tests
use kernel_tracing.Prelude.{
  ℕ, zero, suc, Bool, true, false, ◌||◌, Option, none, some, List, ◌∷◌, ◌++◌, ◌==◌, if◌then◌else◌,
  length, [],
}

-- `*text!='\0' && (re[0]=='.' || re[0]==*text)`, and then the rest of the expression
one_then : ℕ → (List ℕ → Bool) → List ℕ → Bool
one_then c next [] = false
one_then c next (t ∷ text) = if c == b'.' || c == t then next text else false

-- `here` is matchhere at the expression after the star.
pub matchstar : ℕ → (here : List ℕ → Bool) → List ℕ → Bool
matchstar c here [] = here []
matchstar c here (t ∷ text) =
    let rest = matchstar c here text in
    if here (t ∷ text) then true else if t == c || c == b'.' then rest else false

abbrev is_end : List ℕ → Bool
is_end [] = true
is_end (t ∷ text) = false

pub matchhere : List ℕ → List ℕ → Bool
unfolding one_then
matchhere [] text = true
matchhere (c ∷ []) text = if c == b'$' then is_end text else one_then c (λ _. true) text
matchhere (c ∷ d ∷ re) text =
    if d == b'*' then matchstar c (matchhere re) text else one_then c (matchhere (d ∷ re)) text

-- The do-while loop of match.
pub anywhere : List ℕ → List ℕ → Bool
anywhere re [] = matchhere re []
anywhere re (t ∷ text) =
    let rest = anywhere re text in if matchhere re (t ∷ text) then true else rest

pub match : List ℕ → List ℕ → Bool
match [] text = anywhere [] text
match (c ∷ re) text = if c == b'^' then matchhere re text else anywhere (c ∷ re) text

-- One more byte before the newline.
longer : ℕ → Option (List ℕ × List ℕ) → Option (List ℕ × List ℕ)
longer c none = none
longer c (some (line, after)) = some (c ∷ line, after)

-- `strchr(p, '\n')`: the bytes before the newline, and those after it.
pub next_line : List ℕ → Option (List ℕ × List ℕ)
unfolding longer
next_line [] = none
next_line (c ∷ l) =
    let rest = longer c (next_line l) in
    if c == 0 then none else if c == b'\n' then some ([], l) else rest

-- What is written to the output, and what is left in the buffer.
pub record Drained : Type 0 where
  pub written : List (List ℕ)
  pub rest : List ℕ
  pub any : Bool

-- The body of the inner loop at p; `next` is the loop from after the newline on.
drain_step : List ℕ → List ℕ → (next : List ℕ → Drained) → Option (List ℕ × List ℕ) → Drained
drain_step re p next none = record { written = []; rest = p; any = false }
drain_step re p next (some (line, after)) =
    let d = next after in
    record {
      written = if match re line then line ∷ d.written else d.written;
      rest = d.rest;
      any = true;
    }

-- The inner loop, from p on. `any` says that p has moved from buf.
pub drain : (fuel : ℕ) → List ℕ → List ℕ → Drained
unfolding drain_step
drain zero re p = record { written = []; rest = p; any = false }
drain (suc fuel) re p = drain_step re p (drain fuel re) (next_line p)

-- One round of grep's outer loop: `kept` are the m bytes from before, `chunk` those that read got.
pub round : List ℕ → (kept chunk : List ℕ) → Drained
round re kept chunk =
    let d = drain (suc (length (kept ++ chunk))) re (kept ++ chunk) in
    if d.any then d else record d { rest = [] }

-- grep, with what its calls of read return until the end.
pub grep : List ℕ → (kept : List ℕ) → (chunks : List (List ℕ)) → List (List ℕ)
grep re kept [] = []
grep re kept (chunk ∷ chunks) = let d = round re kept chunk in d.written ++ grep re d.rest chunks
