-- ===== src/File/Table.antt =====
-- Reference counts: in every state that the operations lead to, the count of a file is the number
-- of handles on it.
use kernel_tracing.Prelude.{
  ℕ, zero, suc, ◌+◌, ◌-◌, ◌≤◌, ◌<◌, ◌≡◌, refl, sym, subst, ap, ◌∙◌, ◌⊎◌, inl, inr, true, false,
  Option, some, arith, ltb, ◌==◌, ==_iff, Bool-cases, update, ok, panic, ok_injective,
}
use kernel_tracing.Prelude.{ok_injective}
use native.Mathlib.Decide.{dec_lt}
use kernel_tracing.File.{
  FileKind, fd_pipe, fd_inode, closes_pipe, puts_inode, fd_none, File, Ftable, nfile, find_free,
  taken, filealloc, dup_locked, filedup, Then, nothing, dispose, drop_ref, close_locked, fileclose,
}

-- The states of the table between the calls, with the number of handles on each file. A holder
-- may write the other fields of a file at any time.
pub data Holds : Ftable → (ℕ → ℕ) → Type 0 where
  boots : (t : Ftable) → t.lock ≡ false → ((f : ℕ) → (t.file f).ref ≡ 0) → Holds t (λ _. 0)
  allocs :
      (t t' : Ftable) (held : ℕ → ℕ) (f : ℕ)
      → Holds t held
      → filealloc t ≡ ok (some f, t')
      → Holds t' (update held f (held f + 1))
  dups :
      (t t' : Ftable) (held : ℕ → ℕ) (f : ℕ)
      → Holds t held
      → filedup f t ≡ ok t'
      → Holds t' (update held f (held f + 1))
  closes :
      (t t' : Ftable) (held : ℕ → ℕ) (f : ℕ) (left : Then)
      → Holds t held
      → fileclose f t ≡ ok (left, t')
      → Holds t' (update held f (held f - 1))
  sets :
      (t t' : Ftable) (held : ℕ → ℕ)
      → Holds t held
      → t'.lock ≡ t.lock
      → ((f : ℕ) → (t'.file f).ref ≡ (t.file f).ref)
      → Holds t' held

-- What one of the calls leaves of the counts.
abbrev pub Counts : Ftable → (ℕ → ℕ) → Type 0
Counts t held = (t.lock ≡ false) × ((f : ℕ) → (t.file f).ref ≡ held f)

find_free_lem :
    (left f r : ℕ) (file : ℕ → File)
    → find_free left f file ≡ some r
    → ((file r).ref ≡ 0) × (f ≤ r) × (r < f + left)
unfolding find_free
find_free_lem zero f r file h = absurd (ground (arith, h))
find_free_lem (suc left) f r file h = elim (Bool-cases ((file f).ref == 0)) [
  | inl z ↦
      let q : some f ≡ some r = rw (← h, z) refl in
      let e : f ≡ r = cc in (ground (arith, z, e), omega arith, omega arith)
  | inr nz ↦
      let q : find_free left (f + 1) file ≡ some r = rw (← h, nz) refl in
      let t = find_free_lem left (f + 1) r file q in
      let a = t.1 in let b = t.2 in (t.0, omega arith, omega arith)
]

update-Counts :
    (t : Ftable) (held : ℕ → ℕ) (f n : ℕ) (x : File)
    → Counts t held
    → x.ref ≡ n
    → Counts (record t { lock = false; file = update t.file f x }) (update held f n)
update-Counts t held f n x c e = (refl, λ g. ground (arith, c.1 g, e))

filealloc-Counts :
    (t t' : Ftable) (held : ℕ → ℕ) (f : ℕ)
    → Counts t held
    → filealloc t ≡ ok (some f, t')
    → (held f ≡ 0) × (f < nfile) × Counts t' (update held f (held f + 1))
unfolding filealloc taken
filealloc-Counts t t' held f c h =
    let r : Option ℕ = find_free nfile 0 t.file in
    let got : Ftable = record t { lock = false; file = taken r t.file } in
    let u : Option ℕ × Ftable = (r, got) in
    let w : Option ℕ × Ftable = (some f, t') in
    let free = c.0 in
    let q : ok u ≡ ok w = rw (← h, free) refl in
    let e : r ≡ some f = ap (λ z. z.0) (ok_injective q) in
    let e' : got ≡ t' = ap (λ z. z.1) (ok_injective q) in
    let found = find_free_lem nfile 0 f t.file e in
    let none_held : held f ≡ 0 = sym (c.1 f) ∙ found.0 in
    let bound = found.2 in
    let one : Counts (record t { lock = false; file = taken (some f) t.file })
        (update held f (held f + 1)) =
      update-Counts t held f (held f + 1) (record (t.file f) { ref = 1 }) c (omega arith) in
    (
      none_held,
      omega arith,
      subst (λ k. Counts k (update held f (held f + 1))) e'
          (subst
            (λ o.
              Counts (record t { lock = false; file = taken o t.file })
                (update held f (held f + 1)))
            (sym e) one),
    )

filedup-Counts :
    (t t' : Ftable) (held : ℕ → ℕ) (f : ℕ)
    → Counts t held
    → filedup f t ≡ ok t'
    → Counts t' (update held f (held f + 1))
unfolding filedup dup_locked
filedup-Counts t t' held f c h = elim (Bool-cases (ltb ((t.file f).ref) 1)) [
  | inl bad ↦
      let free = c.0 in
      let q : panic "filedup" ≡ ok t' = rw (← h, free, bad) refl in absurd (ground (arith, q))
  | inr good ↦
      let free = c.0 in
      let x : File = record (t.file f) { ref = (t.file f).ref + 1 } in
      let got : Ftable = record t { lock = false; file = update t.file f x } in
      let q : ok got ≡ ok t' = rw (← h, free, good) refl in
      subst (λ k. Counts k (update held f (held f + 1))) (ok_injective q)
        (update-Counts t held f (held f + 1) x c (ap (λ n. n + 1) (c.1 f)))
]

abbrev dropped : ℕ → Ftable → File
dropped f t = record (t.file f) { ref = (t.file f).ref - 1 }

abbrev released : ℕ → Ftable → File
released f t = record (t.file f) { ref = 0; kind = fd_none }

abbrev result : Then → ℕ → File → Ftable → Then × Ftable
result left f x t = (left, record t { lock = false; file = update t.file f x })

fileclose-dropped :
    (t : Ftable) (f : ℕ)
    → t.lock ≡ false
    → 1 < (t.file f).ref
    → fileclose f t ≡ ok (result nothing f (dropped f t) t)
unfolding fileclose close_locked drop_ref
fileclose-dropped t f free shared =
    let good : ltb ((t.file f).ref) 1 ≡ false = ground arith in
    let more : ltb 0 ((t.file f).ref - 1) ≡ true = ground arith in rw (free, good, more) refl

fileclose-released :
    (t : Ftable) (f : ℕ)
    → t.lock ≡ false
    → (t.file f).ref ≡ 1
    → fileclose f t ≡ ok (result (dispose (t.file f)) f (released f t) t)
unfolding fileclose close_locked drop_ref
fileclose-released t f free last =
    let good : ltb ((t.file f).ref) 1 ≡ false = ground arith in
    let done : ltb 0 ((t.file f).ref - 1) ≡ false = ground arith in rw (free, good, done) refl

fileclose-panics :
    (t : Ftable) (f : ℕ) → t.lock ≡ false → (t.file f).ref ≡ 0 → fileclose f t ≡ panic "fileclose"
unfolding fileclose close_locked
fileclose-panics t f free zero_ref = rw (free, zero_ref) refl

fileclose-Counts :
    (t t' : Ftable) (held : ℕ → ℕ) (f : ℕ) (left : Then)
    → Counts t held
    → fileclose f t ≡ ok (left, t')
    → Counts t' (update held f (held f - 1))
fileclose-Counts t t' held f left c h =
    let same = c.1 f in
    let Good : Then × Ftable → Type 0 = λ z. Counts (z.1) (update held f (held f - 1)) in
    elim (dec_lt 1 ((t.file f).ref)) [
      | yes shared ↦
          subst Good (ok_injective (sym (fileclose-dropped t f c.0 shared) ∙ h))
            (update-Counts t held f (held f - 1) (dropped f t) c (omega arith))
      | no single ↦ elim (dec_lt 0 ((t.file f).ref)) [
        | yes last ↦
            subst Good (ok_injective (sym (fileclose-released t f c.0 (omega arith)) ∙ h))
              (update-Counts t held f (held f - 1) (released f t) c (omega arith))
        | no unused ↦
            let q = sym (fileclose-panics t f c.0 (omega arith)) ∙ h in absurd (ground (arith, q))
      ]
    ]

-- In every state that the calls lead to, the lock is free and the reference count of each file is
-- the number of handles on it.
pub Holds-Counts : (t : Ftable) (held : ℕ → ℕ) → Holds t held → Counts t held
Holds-Counts t held (boots _ free empty) = (free, empty)
Holds-Counts t held (allocs k _ was f r h) = (filealloc-Counts k t was f (Holds-Counts k was r) h).2
Holds-Counts t held (dups k _ was f r h) = filedup-Counts k t was f (Holds-Counts k was r) h
Holds-Counts t held (closes k _ was f left r h) =
    fileclose-Counts k t was f left (Holds-Counts k was r) h
Holds-Counts t held (sets k _ _ r free same) =
    let c = Holds-Counts k held r in (free ∙ c.0, λ f. same f ∙ c.1 f)

-- A file that filealloc hands out, in a state the calls lead to, is one of the table's and had no
-- handle on it.
filealloc-unheld :
    (t t' : Ftable) (held : ℕ → ℕ) (f : ℕ)
    → Holds t held
    → filealloc t ≡ ok (some f, t')
    → (held f ≡ 0) × (f < nfile)
filealloc-unheld t t' held f r h =
    let c = filealloc-Counts t t' held f (Holds-Counts t held r) h in (c.0, c.1)

-- What is left to do for a file of each kind that nobody holds any more.
abbrev pub GivesBack : File → Then → Type 0
GivesBack ff left =
    ((ff.kind ≡ fd_none) × (left ≡ nothing))
    ⊎ ((pipe : ℕ) × (ff.kind ≡ fd_pipe pipe) × (left ≡ closes_pipe pipe ff.writable))
    ⊎ (ip : ℕ) × (ff.kind ≡ fd_inode ip) × (left ≡ puts_inode ip)

-- What fileclose comes to with a handle on the file: another handle, or the last.
abbrev pub Closes : (handles : ℕ) → (ff : File) → Then → (ff' : File) → Type 0
Closes handles ff left ff' =
    ((1 < handles) × (left ≡ nothing) × (ff' ≡ record ff { ref = handles - 1 }))
    ⊎ (handles ≡ 1) × GivesBack ff left × (ff' ≡ record ff { ref = 0; kind = fd_none })

dispose-GivesBack : (ff : File) (kind : FileKind) → ff.kind ≡ kind → GivesBack ff (dispose ff)
unfolding dispose
dispose-GivesBack ff fd_none e = inl (e, rw (e) refl)
dispose-GivesBack ff (fd_pipe pipe) e = inr (inl (pipe, e, rw (e) refl))
dispose-GivesBack ff (fd_inode ip) e = inr (inr (ip, e, rw (e) refl))

-- In a state the calls lead to, fileclose on a file with a handle never panics and leaves the lock
-- free and the other files as they were. With other handles on it the file loses a reference and
-- keeps all else, and nothing is left to do. With the last handle its slot becomes FD_NONE with no
-- reference, and what is left to do is pipeclose of its pipe and its `writable`, or iput of its
-- inode in a transaction, or nothing for a file that was FD_NONE.
pub fileclose-held :
    (t : Ftable) (held : ℕ → ℕ) (f : ℕ)
    → Holds t held
    → 0 < held f
    → (left : Then) × (t' : Ftable) × (fileclose f t ≡ ok (left, t'))
      × (t'.lock ≡ false)
      × Closes (held f) (t.file f) left (t'.file f)
      × ((i : ℕ) → (f == i) ≡ false → t'.file i ≡ t.file i)
fileclose-held t held f r some_held =
    let c = Holds-Counts t held r in
    let same = c.1 f in
    let here = (==_iff f f).1 refl in
    elim (dec_lt 1 (held f)) [
      | yes shared ↦ (
        nothing,
        (result nothing f (dropped f t) t).1,
        fileclose-dropped t f c.0 (omega arith),
        refl,
        inl (shared, refl, rw (here) (ap (λ n. record (t.file f) { ref = n - 1 }) same)),
        λ i e. rw (e) refl,
      )
      | no single ↦ (
        dispose (t.file f),
        (result (dispose (t.file f)) f (released f t) t).1,
        fileclose-released t f c.0 (omega arith),
        refl,
        inr (omega arith, dispose-GivesBack (t.file f) (t.file f).kind refl, rw (here) refl),
        λ i e. rw (e) refl,
      )
    ]
