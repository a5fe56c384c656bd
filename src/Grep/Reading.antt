-- ===== src/Grep/Reading.antt =====
-- The lines that grep writes, for an input that comes in pieces.
use kernel_tracing.Prelude.{
  ℕ, zero, suc, ◌<◌, ◌≡◌, refl, sym, subst, ap, ap₂, ◌∙◌, ◌≢◌, inl, inr, Bool, true, false, Option,
  none, some, List, [], ◌∷◌, ◌++◌, arith, ◌==◌, if◌then◌else◌, Bool-cases, length,
}
use mathlib.Core.List.{append-nil, append_assoc}
use kernel_tracing.Grep.{match, longer, next_line, Drained, drain_step, drain, round, grep}

abbrev Cut : Type 0
Cut = List (List ℕ) × List ℕ

-- A byte in front of the first line.
abbrev push : ℕ → Cut → Cut
push c ([], rest) = ([], c ∷ rest)
push c (line ∷ lines, rest) = ((c ∷ line) ∷ lines, rest)

-- The complete lines of a text, without their newlines, and the bytes after the last of them.
abbrev pub cut : List ℕ → Cut
cut [] = ([], [])
cut (c ∷ l) = if c == b'\n' then ([] ∷ (cut l).0, (cut l).1) else push c (cut l)

abbrev pub concat : List (List ℕ) → List ℕ
concat [] = []
concat (l ∷ ls) = l ++ concat ls

abbrev pub keep : (List ℕ → Bool) → List (List ℕ) → List (List ℕ)
keep test [] = []
keep test (l ∷ ls) = if test l then l ∷ keep test ls else keep test ls

abbrev pub NoNul : List ℕ → Type 0
NoNul [] = Unit {0}
NoNul (c ∷ l) = (c ≢ 0) × NoNul l

-- Each piece has the end of a line in it.
abbrev pub Pieces : List (List ℕ) → Type 0
Pieces [] = Unit {0}
Pieces (l ∷ ls) = NoNul l × (0 < length (cut l).0) × Pieces ls

NoNul-append : (a b : List ℕ) → NoNul a → NoNul b → NoNul (a ++ b)
NoNul-append [] b ha hb = hb
NoNul-append (c ∷ a) b ha hb = (ha.0, NoNul-append a b ha.1 hb)

keep-append :
    (test : List ℕ → Bool) (a b : List (List ℕ)) → keep test (a ++ b) ≡ keep test a ++ keep test b
keep-append test [] b = refl
keep-append test (l ∷ a) b = elim (Bool-cases (test l)) [
  | inl e ↦ rw (e) (ap (λ k. l ∷ k) (keep-append test a b))
  | inr e ↦ rw (e) (keep-append test a b)
]

-- Cutting a text in two steps.
abbrev then_cut : Cut → List ℕ → Cut
then_cut r b = (r.0 ++ (cut (r.1 ++ b)).0, (cut (r.1 ++ b)).1)

push-then_cut :
    (c : ℕ) (r : Cut) (b : List ℕ)
    → (c == b'\n') ≡ false
    → push c (then_cut r b) ≡ then_cut (push c r) b
push-then_cut c ([], rest) b e = rw (e) refl
push-then_cut c (x ∷ ls, rest) b e = refl

cut-append : (a b : List ℕ) → cut (a ++ b) ≡ then_cut (cut a) b
cut-append [] b = refl
cut-append (c ∷ a) b = elim (Bool-cases (c == b'\n')) [
  | inl e ↦ rw (e) (ap (λ (r : Cut). let k : Cut = ([] ∷ r.0, r.1) in k) (cut-append a b))
  | inr e ↦ rw (e) (ap (push c) (cut-append a b) ∙ push-then_cut c (cut a) b e)
]

-- What the search for a newline comes to.
abbrev Finds : List ℕ → Option (List ℕ × List ℕ) → Type 0
Finds p none = cut p ≡ ([], p)
Finds p (some (line, after)) =
    (cut p ≡ (line ∷ (cut after).0, (cut after).1)) × (length after < length p) × NoNul after

Finds-longer :
    (c : ℕ) (p : List ℕ) (r : Option (List ℕ × List ℕ))
    → (c == b'\n') ≡ false
    → Finds p r
    → Finds (c ∷ p) (longer c r)
unfolding longer
Finds-longer c p none e f = rw (e) (ap (push c) f)
Finds-longer c p (some (line, after)) e f =
    let h = f.1 in (rw (e) (ap (push c) f.0), omega arith, f.2)

next_line-Finds : (p : List ℕ) → NoNul p → Finds p (next_line p)
unfolding next_line
next_line-Finds [] h = refl
next_line-Finds (c ∷ p) h =
    let real : (c == 0) ≡ false = let z = h.0 in ground arith in
    elim (Bool-cases (c == b'\n')) [
      | inl e ↦ rw (real, e) (rw (e) refl, omega arith, h.1)
      | inr e ↦ rw (real, e) (Finds-longer c p (next_line p) e (next_line-Finds p h.1))
    ]

-- With fuel for its bytes, the inner loop writes the matching lines and keeps what follows them.
record Drains (re p : List ℕ) (d : Drained) : Type 0 where
  written : d.written ≡ keep (match re) (cut p).0
  rest : d.rest ≡ (cut p).1
  moved : 0 < length (cut p).0 → d.any ≡ true

drain_step-Drains :
    (re p : List ℕ) (next : List ℕ → Drained) (r : Option (List ℕ × List ℕ))
    → ((after : List ℕ) → length after < length p → NoNul after → Drains re after (next after))
    → Finds p r
    → Drains re p (drain_step re p next r)
unfolding drain_step
drain_step-Drains re p next none ih f = record {
  written = ap (λ (r : Cut). keep (match re) r.0) (sym f);
  rest = ap (λ (r : Cut). r.1) (sym f);
  moved = λ h. absurd (let h' = subst (λ (r : Cut). 0 < length r.0) f h in omega arith);
}
drain_step-Drains re p next (some (line, after)) ih f =
    let i = ih after f.1 f.2 in
    record {
      written = elim (Bool-cases (match re line)) [
        | inl e ↦ rw (e) (ap (λ k. line ∷ k) i.written ∙ rw (f.0, e) refl)
        | inr e ↦ rw (e) (i.written ∙ rw (f.0, e) refl)
      ];
      rest = i.rest ∙ ap (λ (r : Cut). r.1) (sym f.0);
      moved = λ h. refl;
    }

drain-Drains :
    (fuel : ℕ) (re p : List ℕ) → length p < fuel → NoNul p → Drains re p (drain fuel re p)
unfolding drain
drain-Drains zero re p enough clean = absurd (omega arith)
drain-Drains (suc fuel) re p enough clean =
    drain_step-Drains re p (drain fuel re) (next_line p)
      (λ after shorter clean'. drain-Drains fuel re after (omega arith) clean')
      (next_line-Finds p clean)

NoNul-rest : (p : List ℕ) → NoNul p → NoNul (cut p).1
NoNul-rest [] h = tt
NoNul-rest (c ∷ p) h = elim (Bool-cases (c == b'\n')) [
  | inl e ↦ rw (e) (NoNul-rest p h.1)
  | inr e ↦ rw (e) (push_rest c (cut p) h.0 (NoNul-rest p h.1))
]
  where
    push_rest : (c : ℕ) (r : Cut) → c ≢ 0 → NoNul r.1 → NoNul (push c r).1
    push_rest c ([], rest) real h = (real, h)
    push_rest c (x ∷ ls, rest) real h = h

-- A piece with the end of a line has it behind other bytes too.
some_line : (a b : List ℕ) → 0 < length (cut b).0 → 0 < length (cut (a ++ b)).0
some_line [] b h = h
some_line (c ∷ a) b h = elim (Bool-cases (c == b'\n')) [
  | inl e ↦ rw (e) (omega arith)
  | inr e ↦ rw (e) (push_some c (cut (a ++ b)) (some_line a b h))
]
  where
    push_some : (c : ℕ) (r : Cut) → 0 < length r.0 → 0 < length (push c r).0
    push_some c ([], rest) h = h
    push_some c (x ∷ ls, rest) h = omega arith

cut_rest : (p : List ℕ) → cut ((cut p).1) ≡ ([], (cut p).1)
cut_rest [] = refl
cut_rest (c ∷ p) = elim (Bool-cases (c == b'\n')) [
  | inl e ↦ rw (e) (cut_rest p)
  | inr e ↦ rw (e) (push_rest c (cut p) e (cut_rest p))
]
  where
    push_rest :
        (c : ℕ) (r : Cut)
        → (c == b'\n') ≡ false
        → cut r.1 ≡ ([], r.1)
        → cut ((push c r).1) ≡ ([], (push c r).1)
    push_rest c ([], rest) e h = rw (e) (ap (push c) h)
    push_rest c (x ∷ ls, rest) e h = h

round-Drains :
    (re kept chunk : List ℕ)
    → NoNul kept
    → NoNul chunk
    → 0 < length (cut chunk).0
    → (((round re kept chunk).written) ≡ keep (match re) (cut (kept ++ chunk)).0)
      × ((round re kept chunk).rest ≡ (cut (kept ++ chunk)).1)
unfolding round
round-Drains re kept chunk clean pure some_end =
    let p = kept ++ chunk in
    let d = drain-Drains (suc (length p)) re p (omega arith) (NoNul-append kept chunk clean pure) in
    let moved = d.moved (some_line kept chunk some_end) in rw (moved) (d.written, d.rest)

grep_kept :
    (re kept : List ℕ) (chunks : List (List ℕ))
    → NoNul kept
    → Pieces chunks
    → cut kept ≡ ([], kept)
    → grep re kept chunks ≡ keep (match re) (cut (kept ++ concat chunks)).0
unfolding grep
grep_kept re kept [] clean ps short = rw (append-nil, short) refl
grep_kept re kept (chunk ∷ chunks) clean ps short =
    let p : List ℕ = kept ++ chunk in
    let r = round-Drains re kept chunk clean ps.0 ps.1 in
    let ih =
      grep_kept re (cut p).1 chunks (NoNul-rest p (NoNul-append kept chunk clean ps.0)) ps.2
        (cut_rest p) in
    let whole : cut (kept ++ (chunk ++ concat chunks)) ≡ then_cut (cut p) (concat chunks) =
      ap cut (sym (append_assoc kept chunk (concat chunks))) ∙ cut-append p (concat chunks) in
    ap₂ ◌++◌ r.0 (ap (λ k. grep re k chunks) r.1 ∙ ih)
    ∙ sym (keep-append (match re) (cut p).0 (cut ((cut p).1 ++ concat chunks)).0)
    ∙ ap (λ (r : Cut). keep (match re) r.0) (sym whole)

-- For an input without NUL bytes whose pieces, as read returns them, each hold a newline: grep
-- writes exactly the complete lines of the whole input that match, in their order, however lines
-- are split between the pieces.
pub grep-lines :
    (re : List ℕ) (chunks : List (List ℕ))
    → Pieces chunks
    → grep re [] chunks ≡ keep (match re) (cut (concat chunks)).0
grep-lines re chunks ps = grep_kept re [] chunks tt ps refl
