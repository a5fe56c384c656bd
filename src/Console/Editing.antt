-- ===== src/Console/Editing.antt =====
-- consoleintr edits the line as the line editor does.
use kernel_tracing.Prelude.{
  ℕ, zero, suc, ◌+◌, ◌-◌, ◌%◌, ◌^◌, ◌≤◌, ◌<◌, ◌≡◌, refl, sym, ap, ap₂, ◌∙◌, ◌≢◌, inl, inr, Bool,
  true, false, ◌&&◌, ◌||◌, not, List, [], ◌∷◌, ◌++◌, arith, ltb, ◌==◌, Bool-cases, length,
  length-append, ok,
}
use kernel_tracing.Ring
use mathlib.Core.List.{append-nil, append_assoc}
use kernel_tracing.Ring.{window, IsRing}
use kernel_tracing.Console.{
  Input, input_buf, putc, backspace, ctrl_d, step_back, kill_line, erase, newline, store, ends,
  enter, key, keys, consoleintr,
}
use kernel_tracing.Console.Editor.{
  Editor, held, drop_last, backspaces, rub_out, append, press, type_all, last, drop_last-snoc,
  last-snoc, drop_last-append, last-append, length-drop_last, All, All-drop_last, All-last,
  All-snoc,
}

abbrev pub slot : ℕ → ℕ
slot i = i % input_buf

pub slot-IsRing : IsRing input_buf slot
slot-IsRing = record {
  positive = omega arith;
  apart = λ i d lo hi. omega arith;
  follows = λ i j h. omega arith;
}

-- The number of bytes in the buffer, and these bytes, the oldest first.
abbrev pub used : Input → ℕ
used s = (s.e + 2 ^ 32 - s.r) % 2 ^ 32

abbrev pub content : Input → List ℕ
content s = window slot s.buf s.r (used s)

-- The input stands for the editor, its lock held or free: the buffer holds the bytes that are
-- ready and then the line, in which there is no newline.
pub record Shows (held : Bool) (s : Input) (d : Editor) : Type 0 where
  pub locked : s.lock ≡ held
  pub r_fits : s.r < 2 ^ 32
  pub w_fits : s.w < 2 ^ 32
  pub e_fits : s.e < 2 ^ 32
  pub bounded : used s ≤ 128
  pub bytes : content s ≡ d.ready ++ d.line
  pub complete : length d.ready ≡ (s.w + 2 ^ 32 - s.r) % 2 ^ 32
  pub open_line : All (λ x. x ≢ b'\n') d.line

pub used-held : (s : Input) (d : Editor) → Shows true s d → used s ≡ held d
used-held s d h =
    sym (Ring.length-window 128 slot slot-IsRing s.buf s.r (used s))
    ∙ ap length h.bytes
    ∙ length-append d.ready d.line

-- A line with bytes in it: there is something to rub out, the byte before `e` is its last one, and
-- the step back takes this byte away.
pub step_back-Shows :
    (s : Input) (a : List ℕ) (x : ℕ) (l : List ℕ)
    → Shows true s (record { ready = a; line = x ∷ l })
    → ((s.e == s.w) ≡ false)
      × ((s.buf ((s.e + (2 ^ 32 - 1)) % 2 ^ 32 % input_buf) == b'\n') ≡ false)
      × Shows true (step_back s) (record { ready = a; line = drop_last (x ∷ l) })
step_back-Shows s a x l h =
    let q = used-held s (record { ready = a; line = x ∷ l }) h in
    let c : used s ≡ suc (used (step_back s)) = omega (arith, h.r_fits, h.e_fits) in
    let grown =
      ap (window slot s.buf s.r) c
      ∙ Ring.window-suc 128 slot slot-IsRing s.buf s.r (used (step_back s)) in
    let whole = sym grown ∙ h.bytes in
    let at : (s.e + (2 ^ 32 - 1)) % 2 ^ 32 % 128 ≡ (s.r + used (step_back s)) % 128 =
      omega (arith, h.r_fits, h.e_fits) in
    let b =
      sym (
        last-snoc (window slot s.buf s.r (used (step_back s)))
          (s.buf (slot (s.r + used (step_back s)))))
      ∙ ap last whole
      ∙ last-append a x l in
    let n : s.buf ((s.e + (2 ^ 32 - 1)) % 2 ^ 32 % 128) ≢ b'\n' =
      λ z. All-last (λ x. x ≢ b'\n') x l h.open_line (sym b ∙ ap s.buf (sym at) ∙ z) in
    (
      ground (arith, h.r_fits, h.e_fits, h.w_fits, h.complete, q),
      ground (arith, n),
      record {
        locked = h.locked;
        r_fits = h.r_fits;
        w_fits = h.w_fits;
        e_fits = omega arith;
        bounded = omega (arith, c, h.bounded);
        bytes =
            sym (
              drop_last-snoc (window slot s.buf s.r (used (step_back s)))
                (s.buf (slot (s.r + used (step_back s)))))
            ∙ ap drop_last whole
            ∙ drop_last-append a x l;
        complete = h.complete;
        open_line = All-drop_last (λ x. x ≢ b'\n') (x ∷ l) h.open_line;
      },
    )

pub no_line :
    (s : Input) (a : List ℕ) → Shows true s (record { ready = a; line = [] }) → (s.e == s.w) ≡ true
no_line s a h =
    let q = used-held s (record { ready = a; line = [] }) h in
    ground (arith, h.r_fits, h.e_fits, h.w_fits, h.complete, q)

pub kill_line-Shows :
    (fuel : ℕ) (s : Input) (a l : List ℕ)
    → length l ≤ fuel
    → Shows true s (record { ready = a; line = l })
    → Shows true (kill_line fuel s).0 (record { ready = a; line = [] })
      × ((kill_line fuel s).1 ≡ backspaces (length l))
unfolding kill_line backspaces
kill_line-Shows zero s a [] f h = (h, refl)
kill_line-Shows zero s a (x ∷ l) f h = absurd (omega (arith, f))
kill_line-Shows (suc fuel) s a [] f h = rw (no_line s a h) (h, refl)
kill_line-Shows (suc fuel) s a (x ∷ l) f h =
    let back = step_back-Shows s a x l h in
    let n = length-drop_last x l in
    let rest =
      kill_line-Shows fuel (step_back s) a (drop_last (x ∷ l)) (omega (arith, n, f)) back.2 in
    rw (back.0, back.1) (rest.0, ap (λ t. putc backspace ∷ t) (rest.1 ∙ ap backspaces n))

-- A byte stored behind the others is at the end of the line.
store-Shows :
    (c : ℕ) (s : Input) (d : Editor)
    → c < 256
    → used s < 128
    → Shows true s d
    → (used (store c s) ≡ suc (used s)) × (content (store c s) ≡ d.ready ++ (d.line ++ c ∷ []))
store-Shows c s d f g h =
    let n : used (store c s) ≡ suc (used s) = omega (arith, h.r_fits, h.e_fits) in
    let b : c % 256 ≡ c = omega arith in
    (
      n,
      ap (window slot (store c s).buf s.r) n
          ∙ Ring.window-push 128 slot slot-IsRing s.buf (c % 256) s.r (used s) s.e g
              (omega (arith, h.r_fits, h.e_fits))
          ∙ ap₂ (λ l x. l ++ x ∷ []) h.bytes b
          ∙ append_assoc d.ready d.line (c ∷ []),
    )

longer_line :
    (c : ℕ) (s : Input) (d : Editor)
    → c < 256
    → c ≢ b'\n'
    → used s < 128
    → Shows true s d
    → Shows true (store c s) (record d { line = d.line ++ c ∷ [] })
longer_line c s d f o g h =
    let t = store-Shows c s d f g h in
    record {
      locked = h.locked;
      r_fits = h.r_fits;
      w_fits = h.w_fits;
      e_fits = omega arith;
      bounded = omega (arith, t.0);
      bytes = t.1;
      complete = h.complete;
      open_line = All-snoc (λ x. x ≢ b'\n') d.line c h.open_line o;
    }

complete_line :
    (c : ℕ) (s : Input) (d : Editor)
    → c < 256
    → used s < 128
    → Shows true s d
    → Shows true
        (record (store c s) { w = (store c s).e })
        (record { ready = d.ready ++ (d.line ++ c ∷ []); line = [] })
complete_line c s d f g h =
    let t = store-Shows c s d f g h in
    let n = length-append d.ready (d.line ++ c ∷ []) in
    let m = length-append d.line (c ∷ []) in
    let q = used-held s d h in
    record {
      locked = h.locked;
      r_fits = h.r_fits;
      w_fits = omega arith;
      e_fits = omega arith;
      bounded = omega (arith, t.0);
      bytes = t.1 ∙ sym (append-nil (d.ready ++ (d.line ++ c ∷ [])));
      complete = omega (arith, n, m, q, t.0);
      open_line = tt;
    }

enter-Shows :
    (c : ℕ) (s : Input) (d : Editor)
    → c < 256
    → Shows true s d
    → Shows true (enter c s).0 (append c d).0 × ((enter c s).1 ≡ (append c d).1)
unfolding enter
enter-Shows c s d f h =
    let q = used-held s d h in
    elim (Bool-cases (not (c == 0) && ltb (used s) 128)) [
      | inr e ↦
          let e' : (not (c == 0) && ltb (held d) 128) ≡ false = ground (arith, q) in
          rw (e, e') (h, refl)
      | inl e ↦
          let e' : (not (c == 0) && ltb (held d) 128) ≡ true = ground (arith, q) in
          let room : used s < 128 = ground arith in
          let b : newline c < 256 = ground arith in
          let t = store-Shows (newline c) s d b room h in
          let k : ends (newline c) (store (newline c) s)
              ≡ (newline c == b'\n' || newline c == ctrl_d || held d == 127) =
            ground (arith, q, h.r_fits, h.e_fits, t.0) in
          elim (Bool-cases (ends (newline c) (store (newline c) s))) [
            | inl z ↦
                let z' = sym k ∙ z in
                rw (e, e', z, z') (complete_line (newline c) s d b room h, refl)
            | inr z ↦
                let z' = sym k ∙ z in
                let o : newline c ≢ b'\n' = ground arith in
                rw (e, e', z, z') (longer_line (newline c) s d b o room h, refl)
          ]
    ]

erase-Shows :
    (s : Input) (a l : List ℕ)
    → Shows true s (record { ready = a; line = l })
    → Shows true (erase s).0 (rub_out (record { ready = a; line = l })).0
      × ((erase s).1 ≡ (rub_out (record { ready = a; line = l })).1)
erase-Shows s a [] h = rw (no_line s a h) (h, refl)
erase-Shows s a (x ∷ l) h =
    let back = step_back-Shows s a x l h in
    let n : (suc (length l) == 0) ≡ false = ground arith in rw (back.0, n) (back.2, refl)

pub key-Shows :
    (c : ℕ) (s : Input) (d : Editor)
    → c < 256
    → Shows true s d
    → Shows true (key c s).0 (press c d).0 × ((key c s).1 ≡ (press c d).1)
unfolding key press
key-Shows c s d f h = elim (Bool-cases (c == 26)) [
  | inl z ↦ rw (z) (h, refl)
  | inr z ↦ elim (Bool-cases (c == 16)) [
    | inl p ↦ rw (z, p) (h, refl)
    | inr p ↦ elim (Bool-cases (c == 21)) [
      | inl u ↦
          rw (z, p, u)
            (kill_line-Shows 128 s d.ready d.line (omega (arith, used-held s d h, h.bounded)) h)
      | inr u ↦ elim (Bool-cases (c == 8 || c == 127)) [
        | inl b ↦ rw (z, p, u, b) (erase-Shows s d.ready d.line h)
        | inr b ↦ rw (z, p, u, b) (enter-Shows c s d f h)
      ]
    ]
  ]
]

pub keys-Shows :
    (cs : List ℕ) (s : Input) (d : Editor)
    → All (λ c. c < 256) cs
    → Shows true s d
    → Shows true (keys cs s).0 (type_all cs d).0 × ((keys cs s).1 ≡ (type_all cs d).1)
unfolding keys type_all
keys-Shows [] s d f h = (h, refl)
keys-Shows (c ∷ cs) s d f h =
    let a = key-Shows c s d f.0 h in
    let b = keys-Shows cs (key c s).0 (press c d).0 f.1 a.0 in (b.0, ap₂ ◌++◌ a.1 b.1)

pub relock : (b c : Bool) (s : Input) (d : Editor) → Shows b s d → Shows c (record s { lock = c }) d
relock b c s d h = record {
  locked = refl;
  r_fits = h.r_fits;
  w_fits = h.w_fits;
  e_fits = h.e_fits;
  bounded = h.bounded;
  bytes = h.bytes;
  complete = h.complete;
  open_line = h.open_line;
}

-- consoleintr does what the line editor does. Let the input stand for the editor `d` with its
-- lock free, and let `cs` be bytes. Then consoleintr on the keys `cs` ends without a panic, with
-- the lock free, the input stands for the editor after the keys `cs`, and the characters echoed,
-- the backspaces for ^U and ^H, the wakeups of the reader, the reboots and the process listings
-- are those of the editor, in order.
pub consoleintr-type_all :
    (cs : List ℕ) (s : Input) (d : Editor)
    → All (λ c. c < 256) cs
    → Shows false s d
    → (t : Input) × (consoleintr cs s ≡ ok (t, (type_all cs d).1)) × Shows false t (type_all cs d).0
unfolding consoleintr
consoleintr-type_all cs s d f h =
    let k = keys-Shows cs (record s { lock = true }) d f (relock false true s d h) in
    (
      record (keys cs (record s { lock = true })).0 { lock = false },
      rw (h.locked, k.0.locked, k.1) refl,
      relock true false (keys cs (record s { lock = true })).0 (type_all cs d).0 k.0,
    )
