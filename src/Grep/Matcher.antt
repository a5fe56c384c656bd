-- ===== src/Grep/Matcher.antt =====
-- match decides what the expression means.
use kernel_tracing.Prelude.{
  ℕ, ◌≡◌, refl, sym, subst, ap, ◌∙◌, ◌↔◌, inl, inr, Bool, true, ◌||◌, List, [], ◌∷◌, ◌++◌, arith,
  ◌==◌, Bool-cases,
}
use kernel_tracing.Grep.{one_then, matchstar, is_end, matchhere, anywhere, match}
use kernel_tracing.Grep.Language.{
  Item, one, star, last, items, Fits, AllFit, Takes, done, byte, run, stop, Starts, Occurs, Matches,
}

-- What it is for a test to decide whether `is` takes a piece at the start.
abbrev Decides : List Item → (List ℕ → Bool) → Type 0
Decides is here = (text : List ℕ) → (here text ≡ true) ↔ Starts is text

fit_iff : (c t : ℕ) → ((c == b'.' || c == t) ≡ true) ↔ Fits c t
fit_iff c t = (λ h. ground arith, λ h. elim h [ inl e ↦ ground arith | inr e ↦ ground arith ])

Starts-byte_inv :
    (c t : ℕ) (is : List Item) (text : List ℕ)
    → Starts (one c ∷ is) (t ∷ text)
    → Fits c t × Starts is text
Starts-byte_inv c t is text (_, after, e, byte _ u _ taken _ f s) =
    let head : t ≡ u = cc in
    let tail : text ≡ taken ++ after = cc in (subst (Fits c) (sym head) f, (taken, after, tail, s))

Starts-byte_nil : (c : ℕ) (is : List Item) → ¬ Starts (one c ∷ is) []
Starts-byte_nil c is (_, after, e, byte _ u _ taken _ f s) = ground (arith, e)

one_then-Decides :
    (c : ℕ) (is : List Item) (next : List ℕ → Bool)
    → Decides is next
    → Decides (one c ∷ is) (one_then c next)
unfolding one_then
one_then-Decides c is next d [] =
    (λ h. absurd (ground (arith, h)), λ s. absurd (Starts-byte_nil c is s))
one_then-Decides c is next d (t ∷ text) =
    let fit = fit_iff c t in
    elim (Bool-cases (c == b'.' || c == t)) [
      | inl yes_ ↦ rw (yes_) (
        λ h.
            let s = (d text).0 h in
            (t ∷ s.0, s.1, ap (λ l. t ∷ l) s.2, byte c t is s.0 s.1 (fit.0 yes_) s.3),
        λ s. (d text).1 (Starts-byte_inv c t is text s).1,
      )
      | inr no_ ↦ rw (no_) (
        λ h. absurd (ground (arith, h)),
        λ s. let b = fit.1 (Starts-byte_inv c t is text s).0 in absurd (ground (arith, b, no_)),
      )
    ]

star_longer :
    (c t : ℕ) (is : List Item) (text : List ℕ)
    → Fits c t
    → Starts (star c ∷ is) text
    → Starts (star c ∷ is) (t ∷ text)
star_longer c t is text f (whole, after, e, run _ _ many taken _ _ all w s) = (
  t ∷ whole,
  after,
  ap (λ l. t ∷ l) e,
  run c is (t ∷ many) taken after (t ∷ whole) (f, all) (ap (λ l. t ∷ l) w) s,
)

module _ (c : ℕ) (is : List Item) (here : List ℕ → Bool) (d : Decides is here) where
  star_here : (text : List ℕ) → here text ≡ true → matchstar c here text ≡ true
  unfolding matchstar
  star_here [] h = h
  star_here (t ∷ text) h = rw (h) refl

  star_sound : (text : List ℕ) → matchstar c here text ≡ true → Starts (star c ∷ is) text
  unfolding matchstar
  star_sound [] h = let s = (d []).0 h in (s.0, s.1, s.2, run c is [] s.0 s.1 s.0 tt refl s.3)
  star_sound (t ∷ text) h = elim (Bool-cases (here (t ∷ text))) [
    | inl now ↦ let s = (d (t ∷ text)).0 now in (s.0, s.1, s.2, run c is [] s.0 s.1 s.0 tt refl s.3)
    | inr later ↦ elim (Bool-cases (t == c || c == b'.')) [
      | inl more ↦
          let q : matchstar c here text ≡ true = rw (later, more) at h in
          star_longer c t is text (ground arith) (star_sound text q)
      | inr stuck ↦ absurd (ground (arith, later, stuck, h))
    ]
  ]

  star_complete :
      (many : List ℕ) (taken after text : List ℕ)
      → AllFit c many
      → text ≡ (many ++ taken) ++ after
      → Takes is taken after
      → matchstar c here text ≡ true
  unfolding matchstar
  star_complete [] taken after text all e s = star_here text ((d text).1 (taken, after, e, s))
  star_complete (u ∷ many) taken after [] all e s = absurd (ground (arith, e))
  star_complete (u ∷ many) taken after (t ∷ text) all e s =
      let head : t ≡ u = cc in
      let tail : text ≡ (many ++ taken) ++ after = cc in
      let more : (t == c || c == b'.') ≡ true = elim all.0 [
        | inl e1 ↦ ground arith
        | inr e2 ↦ ground arith
      ] in
      let rest = star_complete many taken after text all.1 tail s in
      elim (Bool-cases (here (t ∷ text))) [
        | inl now ↦ rw (now) refl
        | inr later ↦ rw (later, more) rest
      ]

  star_inv : (text : List ℕ) → Starts (star c ∷ is) text → matchstar c here text ≡ true
  star_inv text (whole, after, e, run _ _ many taken _ _ all w s) =
      star_complete many taken after text all (e ∙ ap (λ l. l ++ after) w) s

  star-Decides : Decides (star c ∷ is) (matchstar c here)
  star-Decides text = (star_sound text, star_inv text)

nothing-Decides : (f : List ℕ → Bool) → ((text : List ℕ) → f text ≡ true) → Decides [] f
nothing-Decides f all text = (λ _. ([], text, refl, done text), λ _. all text)

last-Decides : Decides (last ∷ []) is_end
last-Decides [] = (λ _. ([], [], refl, stop), λ _. refl)
last-Decides (t ∷ text) = (λ h. absurd (ground (arith, h)), end_inv t text)
  where
    end_inv : (t : ℕ) (text : List ℕ) → Starts (last ∷ []) (t ∷ text) → is_end (t ∷ text) ≡ true
    end_inv t text (_, _, e, stop) = absurd (ground (arith, e))

matchhere-Decides : (re : List ℕ) → Decides (items re) (matchhere re)
unfolding matchhere
matchhere-Decides [] text = nothing-Decides (matchhere []) (λ _. refl) text
matchhere-Decides (c ∷ []) text = elim (Bool-cases (c == b'$')) [
  | inl e ↦ rw (e) (last-Decides text)
  | inr e ↦
      rw (e) (one_then-Decides c [] (λ _. true) (nothing-Decides (λ _. true) (λ _. refl)) text)
]
matchhere-Decides (c ∷ d ∷ re) text = elim (Bool-cases (d == b'*')) [
  | inl e ↦ rw (e) (star-Decides c (items re) (matchhere re) (matchhere-Decides re) text)
  | inr e ↦
      rw (e)
        (one_then-Decides c (items (d ∷ re)) (matchhere (d ∷ re)) (matchhere-Decides (d ∷ re)) text)
]

anywhere_sound : (re text : List ℕ) → anywhere re text ≡ true → Occurs (items re) text
unfolding anywhere
anywhere_sound re [] h = ([], [], refl, (matchhere-Decides re []).0 h)
anywhere_sound re (t ∷ text) h = elim (Bool-cases (matchhere re (t ∷ text))) [
  | inl now ↦ ([], t ∷ text, refl, (matchhere-Decides re (t ∷ text)).0 now)
  | inr later ↦
      let q : anywhere re text ≡ true = rw (later) at h in
      let o = anywhere_sound re text q in (t ∷ o.0, o.1, ap (λ l. t ∷ l) o.2, o.3)
]

anywhere_complete :
    (re before rest text : List ℕ)
    → text ≡ before ++ rest
    → Starts (items re) rest
    → anywhere re text ≡ true
unfolding anywhere
anywhere_complete re [] rest [] e s =
    (matchhere-Decides re []).1 (subst (Starts (items re)) (sym e) s)
anywhere_complete re [] rest (t ∷ text) e s =
    let now = (matchhere-Decides re (t ∷ text)).1 (subst (Starts (items re)) (sym e) s) in
    rw (now) refl
anywhere_complete re (b ∷ before) rest [] e s = absurd (ground (arith, e))
anywhere_complete re (b ∷ before) rest (t ∷ text) e s =
    let tail : text ≡ before ++ rest = cc in
    let found = anywhere_complete re before rest text tail s in
    elim (Bool-cases (matchhere re (t ∷ text))) [
      | inl now ↦ rw (now) refl
      | inr later ↦ rw (later) found
    ]

anywhere_iff : (re text : List ℕ) → (anywhere re text ≡ true) ↔ Occurs (items re) text
anywhere_iff re text = (anywhere_sound re text, λ o. anywhere_complete re o.0 o.1 text o.2 o.3)

-- match returns true exactly if the text has a piece that the expression takes: somewhere, or at
-- the start where the expression begins with ^. A byte takes itself, a dot any byte, a byte and a
-- star any number of them, and a $ at the end of the expression the end of the text.
pub match-Matches : (re text : List ℕ) → (match re text ≡ true) ↔ Matches re text
unfolding match
match-Matches [] text = anywhere_iff [] text
match-Matches (c ∷ re) text = elim (Bool-cases (c == b'^')) [
  | inl e ↦ rw (e) (matchhere-Decides re text)
  | inr e ↦ rw (e) (anywhere_iff (c ∷ re) text)
]
