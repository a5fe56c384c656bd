-- ===== src/Console/Editor.antt =====
-- A line editor, which knows the bytes that are ready to be read and the line that is being typed.
use kernel_tracing.Prelude.{
  ℕ, zero, suc, ◌+◌, ◌≡◌, refl, ap, ◌&&◌, ◌||◌, not, List, [], ◌∷◌, ◌++◌, ltb, ◌==◌, if◌then◌else◌,
  length,
}
use kernel_tracing.Console.{Effect, putc, reboot, dump, wake, backspace, ctrl_d, newline}

pub record Editor : Type 0 where
  pub ready : List ℕ
  pub line : List ℕ

abbrev pub held : Editor → ℕ
held d = length d.ready + length d.line

-- The list without its last item, and a backspace for each item.
unfoldable pub drop_last : List ℕ → List ℕ
drop_last [] = []
drop_last (x ∷ []) = []
drop_last (x ∷ y ∷ l) = x ∷ drop_last (y ∷ l)

unfoldable pub backspaces : ℕ → List Effect
backspaces zero = []
backspaces (suc n) = putc backspace ∷ backspaces n

abbrev pub rub_out : Editor → Editor × List Effect
rub_out d =
    if length d.line == 0
    then (d, [])
    else (record d { line = drop_last d.line }, putc backspace ∷ [])

-- A byte at the end of the line, which is complete with a newline, with ^D, or if 128 bytes are held.
abbrev pub append : ℕ → Editor → Editor × List Effect
append c d =
    if not (c == 0) && ltb (held d) 128
    then (let l = d.line ++ (newline c ∷ []) in
        if newline c == b'\n' || newline c == ctrl_d || held d == 127
        then (record d { ready = d.ready ++ l; line = [] }, putc (newline c) ∷ wake ∷ [])
        else (record d { line = l }, putc (newline c) ∷ []))
    else (d, [])

-- What a key does: ^Z, ^P, ^U, ^H or DEL, and all others.
unfoldable pub press : ℕ → Editor → Editor × List Effect
press c d =
    if c == 26
    then (d, reboot ∷ [])
    else if c == 16
    then (d, dump ∷ [])
    else if c == 21
    then (record d { line = [] }, backspaces (length d.line))
    else if c == 8 || c == 127
    then rub_out d
    else append c d

unfoldable pub type_all : List ℕ → Editor → Editor × List Effect
type_all [] d = (d, [])
type_all (c ∷ cs) d = let a = press c d in let b = type_all cs a.0 in (b.0, a.1 ++ b.1)

-- The last item of a list, and that it can be split off.
pub last : List ℕ → ℕ
last [] = 0
last (x ∷ []) = x
last (x ∷ y ∷ l) = last (y ∷ l)

pub drop_last-snoc : (l : List ℕ) (x : ℕ) → drop_last (l ++ x ∷ []) ≡ l
unfolding drop_last
drop_last-snoc [] x = refl
drop_last-snoc (y ∷ []) x = refl
drop_last-snoc (y ∷ z ∷ l) x = ap (λ t. y ∷ t) (drop_last-snoc (z ∷ l) x)

pub last-snoc : (l : List ℕ) (x : ℕ) → last (l ++ x ∷ []) ≡ x
unfolding last
last-snoc [] x = refl
last-snoc (y ∷ []) x = refl
last-snoc (y ∷ z ∷ l) x = last-snoc (z ∷ l) x

pub drop_last-append :
    (l : List ℕ) (x : ℕ) (t : List ℕ) → drop_last (l ++ x ∷ t) ≡ l ++ drop_last (x ∷ t)
unfolding drop_last
drop_last-append [] x t = refl
drop_last-append (y ∷ []) x t = refl
drop_last-append (y ∷ z ∷ l) x t = ap (λ t. y ∷ t) (drop_last-append (z ∷ l) x t)

pub last-append : (l : List ℕ) (x : ℕ) (t : List ℕ) → last (l ++ x ∷ t) ≡ last (x ∷ t)
unfolding last
last-append [] x t = refl
last-append (y ∷ []) x t = refl
last-append (y ∷ z ∷ l) x t = last-append (z ∷ l) x t

pub length-drop_last : (x : ℕ) (l : List ℕ) → length (drop_last (x ∷ l)) ≡ length l
unfolding drop_last
length-drop_last x [] = refl
length-drop_last x (y ∷ l) = ap suc (length-drop_last y l)

-- Every item of the list has a property.
abbrev pub All : (ℕ → Type 0) → List ℕ → Type 0
All P [] = Unit
All P (x ∷ l) = P x × All P l

pub All-drop_last : (P : ℕ → Type 0) (l : List ℕ) → All P l → All P (drop_last l)
unfolding drop_last
All-drop_last P [] a = a
All-drop_last P (x ∷ []) a = tt
All-drop_last P (x ∷ y ∷ l) a = (a.0, All-drop_last P (y ∷ l) a.1)

pub All-last : (P : ℕ → Type 0) (x : ℕ) (l : List ℕ) → All P (x ∷ l) → P (last (x ∷ l))
unfolding last
All-last P x [] a = a.0
All-last P x (y ∷ l) a = All-last P y l a.1

pub All-snoc : (P : ℕ → Type 0) (l : List ℕ) (x : ℕ) → All P l → P x → All P (l ++ x ∷ [])
All-snoc P [] x a p = (p, tt)
All-snoc P (y ∷ l) x a p = (a.0, All-snoc P l x a.1 p)
