-- ===== src/Console/Lines.antt =====
-- consoleread takes the bytes that are ready, and ends with a line.
use kernel_tracing.Prelude.{
  ℕ, zero, suc, ◌+◌, ◌-◌, ◌%◌, ◌^◌, ◌≡◌, refl, sym, subst, ap, ap₂, ◌∙◌, inl, inr, Bool, true,
  false, ◌||◌, List, [], ◌∷◌, ◌++◌, arith, ltb, ◌==◌, if◌then◌else◌, Bool-cases, length, get_elem?,
  take, drop, ok,
}
use kernel_tracing.Ring
use mathlib.Core.Option.{some-injective}
use kernel_tracing.Ring.{window, IsRing}
use kernel_tracing.Console.{
  Input, input_buf, ctrl_d, ReadEnd, count, killed, sleeps, take_bytes, consoleread,
}
use kernel_tracing.Console.Editor.{Editor}
use kernel_tracing.Console.Editing.{slot, slot-IsRing, used, Shows, used-held, relock}

-- The bytes before the first newline or ^D.
unfoldable pub plain : List ℕ → List ℕ
plain [] = []
plain (x ∷ l) = if x == ctrl_d || x == b'\n' then [] else x ∷ plain l

-- What the byte behind the bytes read does, `got` bytes being read with them: it sleeps or is
-- killed if there is none, ^D ends the read and is left for the next one unless nothing was read,
-- and a newline is read too.
abbrev pub stop : (dead : Bool) → (left got : ℕ) → List ℕ → ReadEnd × List ℕ × List ℕ
stop dead left got [] = (if dead then killed else sleeps left, [], [])
stop dead left got (x ∷ l) =
    if x == ctrl_d
    then (count got, [], if got == 0 then l else x ∷ l)
    else (count (got + 1), x ∷ [], l)

-- A read of `n` bytes more, after `got` bytes: the end, the bytes read and those that stay ready.
abbrev pub read_ready : (n got : ℕ) → (dead : Bool) → List ℕ → ReadEnd × List ℕ × List ℕ
read_ready n got dead l =
    let p = take n (plain l) in
    let k = length p in
    if k == n
    then (count (got + n), p, drop n l)
    else (let z = stop dead (n - k) (got + k) (drop k l) in (z.0, p ++ z.1, z.2))

-- Where no plain byte is ready, the read stops.
read_ready-stop :
    (n got : ℕ) (dead : Bool) (l : List ℕ)
    → plain l ≡ []
    → read_ready (suc n) got dead l ≡ stop dead (suc n) got l
read_ready-stop n got dead l h =
    let e : (0 == suc n) ≡ false = ground arith in
    let b : got + 0 ≡ got = omega arith in
    let c : suc n - 0 ≡ suc n = omega arith in rw h (rw e (ap₂ (λ m k. stop dead m k l) c b))

read_ready-next :
    (n got : ℕ) (dead : Bool) (x : ℕ) (l : List ℕ)
    → (x == ctrl_d) ≡ false
    → (x == b'\n') ≡ false
    → read_ready (suc n) got dead (x ∷ l)
      ≡ (let z = read_ready n (got + 1) dead l in (z.0, x ∷ z.1, z.2))
unfolding plain
read_ready-next n got dead x l f g =
    let k = length (take n (plain l)) in
    let e : (suc k == suc n) ≡ (k == n) = ground arith in
    let a : got + suc n ≡ got + 1 + n = omega arith in
    let b : suc n - suc k ≡ n - k = omega arith in
    let c : got + suc k ≡ got + 1 + k = omega arith in
    rw (f, g, e, a, b, c) (elim (Bool-cases (k == n)) [ inl z ↦ rw (z) refl | inr z ↦ rw (z) refl ])

front :
    (s : Input) (x : ℕ) (a l : List ℕ)
    → Shows true s (record { ready = x ∷ a; line = l })
    → ((s.r == s.w) ≡ false)
      × (s.buf (s.r % input_buf) ≡ x)
      × Shows true (record s { r = (s.r + 1) % 2 ^ 32 }) (record { ready = a; line = l })
front s x a l h =
    let q = used-held s (record { ready = x ∷ a; line = l }) h in
    let s' = record s { r = (s.r + 1) % 2 ^ 32 } in
    let c : used s ≡ suc (used s') = omega (arith, h.r_fits, h.e_fits) in
    let grown = sym (ap (window slot s.buf s.r) c) ∙ h.bytes in
    let next = sym (
      Ring.window-wraps 128 slot slot-IsRing s.buf (s.r + 1) ((s.r + 1) % 2 ^ 32) (used s')
        (omega arith)) in
    (
      ground (arith, h.complete),
      some-injective (s.buf (s.r % input_buf)) x (ap (λ t. get_elem? t 0) grown),
      record {
        locked = h.locked;
        r_fits = omega arith;
        w_fits = h.w_fits;
        e_fits = h.e_fits;
        bounded = omega (arith, c, h.bounded);
        bytes = next ∙ ap (drop 1) grown;
        complete = omega (arith, h.complete, h.r_fits, h.w_fits);
        open_line = h.open_line;
      },
    )

none_ready :
    (s : Input) (l : List ℕ) → Shows true s (record { ready = []; line = l }) → (s.r == s.w) ≡ true
none_ready s l h = ground (arith, h.complete, h.r_fits, h.w_fits)

-- A read ends as `z` tells, and leaves the bytes of it.
record Reads (z : ReadEnd × List ℕ × List ℕ) (l : List ℕ) (o : ReadEnd × List ℕ × Input)
    : Type 0 where
  pub ended : o.0 ≡ z.0
  pub given : o.1 ≡ z.1
  pub kept : Shows true o.2 (record { ready = z.2; line = l })

Reads-none :
    (got : ℕ) (dead : Bool) (s : Input) (a l : List ℕ)
    → Shows true s (record { ready = a; line = l })
    → Reads (read_ready 0 got dead a) l (take_bytes 0 (got + 0) dead s)
unfolding take_bytes
Reads-none got dead s a l h = record { ended = refl; given = refl; kept = h }

Reads-empty :
    (n got : ℕ) (dead : Bool) (s : Input) (l : List ℕ)
    → Shows true s (record { ready = []; line = l })
    → Reads (stop dead (suc n) got []) l (take_bytes (suc n) (got + suc n) dead s)
unfolding take_bytes
Reads-empty n got dead s l h = rw (none_ready s l h) record { ended = refl; given = refl; kept = h }

Reads-stop :
    (n got : ℕ) (dead : Bool) (s : Input) (x : ℕ) (a l : List ℕ)
    → (x == ctrl_d || x == b'\n') ≡ true
    → Shows true s (record { ready = x ∷ a; line = l })
    → Reads (stop dead (suc n) got (x ∷ a)) l (take_bytes (suc n) (got + suc n) dead s)
unfolding take_bytes
Reads-stop n got dead s x a l f h =
    let t = front s x a l h in
    let c : got + suc n - suc n ≡ got = omega arith in
    let d : got + suc n - n ≡ got + 1 = omega arith in
    elim (Bool-cases (x == ctrl_d)) [
      | inl e ↦ elim (Bool-cases (got == 0)) [
        | inl z ↦
            let z' : ltb (suc n) (got + suc n) ≡ false = ground arith in
            rw (t.0, t.1, e, c, z, z') record { ended = refl; given = refl; kept = t.2 }
        | inr z ↦
            let z' : ltb (suc n) (got + suc n) ≡ true = ground arith in
            rw (t.0, t.1, e, c, z, z') record { ended = refl; given = refl; kept = h }
      ]
      | inr e ↦
          let g : (x == b'\n') ≡ true = ground arith in
          rw (t.0, t.1, e, g, d) record { ended = refl; given = refl; kept = t.2 }
    ]

take_bytes-Reads :
    (n got : ℕ) (dead : Bool) (s : Input) (a l : List ℕ)
    → Shows true s (record { ready = a; line = l })
    → Reads (read_ready n got dead a) l (take_bytes n (got + n) dead s)
unfolding take_bytes plain
take_bytes-Reads zero got dead s a l h = Reads-none got dead s a l h
take_bytes-Reads (suc n) got dead s [] l h =
    rw (read_ready-stop n got dead [] refl) (Reads-empty n got dead s l h)
take_bytes-Reads (suc n) got dead s (x ∷ a) l h = elim (Bool-cases (x == ctrl_d || x == b'\n')) [
  | inl f ↦ rw (read_ready-stop n got dead (x ∷ a) (rw f refl)) (Reads-stop n got dead s x a l f h)
  | inr f ↦
      let t = front s x a l h in
      let d : (x == ctrl_d) ≡ false = ground arith in
      let e : (x == b'\n') ≡ false = ground arith in
      let c : got + suc n ≡ got + 1 + n = omega arith in
      let r = take_bytes-Reads n (got + 1) dead (record s { r = (s.r + 1) % 2 ^ 32 }) a l t.2 in
      rw (read_ready-next n got dead x a d e, c, t.0, t.1, d, e)
        record { ended = r.ended; given = ap (λ z. x ∷ z) r.given; kept = r.kept }
]

-- consoleread takes lines from the bytes that are ready. Let the input stand for the editor `d`
-- with its lock free, and let `n` bytes be wanted. Then consoleread does not panic. If `n` bytes
-- are ready and the first `n` hold no newline and no ^D, it returns `n` and stores them. Otherwise
-- it stores the ready bytes before the first newline or ^D and ends there: with a newline, which is
-- stored and counted as well; with ^D, which is taken away only if no byte was stored; and if
-- neither is ready, it is killed, or asleep with the lock free for as many bytes as are still
-- wanted. The input then stands for the editor with the other ready bytes and the same line.
pub consoleread-read_ready :
    (n : ℕ) (dead : Bool) (s : Input) (d : Editor)
    → Shows false s d
    → (t : Input) × (consoleread n n dead s
        ≡ ok ((read_ready n 0 dead d.ready).0, (read_ready n 0 dead d.ready).1, t))
      × Shows false t (record d { ready = (read_ready n 0 dead d.ready).2 })
unfolding consoleread
consoleread-read_ready n dead s d h =
    let k =
      take_bytes-Reads n 0 dead (record s { lock = true }) d.ready d.line
        (relock false true s d h) in
    let z : 0 + n ≡ n = omega arith in
    let k' =
      subst
        (λ t.
          Reads (read_ready n 0 dead d.ready) d.line
            (take_bytes n t dead (record s { lock = true })))
        z k in
    (
      record (take_bytes n n dead (record s { lock = true })).2 { lock = false },
      rw (h.locked, k'.kept.locked, k'.ended, k'.given) refl,
      relock true false (take_bytes n n dead (record s { lock = true })).2
          (record d { ready = (read_ready n 0 dead d.ready).2 }) k'.kept,
    )
