-- ===== src/Fs/Path.antt =====
-- fs.c: the names in a path.
use kernel_tracing.Prelude.{
  ℕ, suc, ◌≤◌, ◌<◌, ◌≡◌, refl, sym, subst, ap, ◌∙◌, ◌⊎◌, inl, inr, false, Option, none, some, List,
  ◌∷◌, ◌++◌, arith, ◌==◌, if◌then◌else◌, Bool-cases, length, take, [],
}
use mathlib.Core.List.{append-nil, append_assoc}
use kernel_tracing.Fs.{dirsiz, skip_slashes, element, skipelem}

-- A word in front, if there is one.
abbrev pub emit : List ℕ → List (List ℕ) → List (List ℕ)
emit [] l = l
emit (c ∷ w) l = (c ∷ w) ∷ l

-- The words between slashes, `word` being the start of the first.
pub words : (word path : List ℕ) → List (List ℕ)
words word [] = emit word []
words word (c ∷ l) = if c == b'/' then emit word (words [] l) else words (word ++ (c ∷ [])) l

words-skip_slashes : (l : List ℕ) → words [] (skip_slashes l) ≡ words [] l
unfolding skip_slashes words
words-skip_slashes [] = refl
words-skip_slashes (c ∷ l) = elim (Bool-cases (c == b'/')) [
  | inl e ↦ rw (e) (words-skip_slashes l)
  | inr e ↦ rw (e) (rw (e) refl)
]

words-element :
    (word l : List ℕ) → words word l ≡ emit (word ++ (element l).0) (words [] (element l).1)
unfolding element words
words-element word [] = rw (append-nil word) refl
words-element word (c ∷ l) = elim (Bool-cases (c == b'/')) [
  | inl e ↦ rw (e, append-nil word) (rw (e) refl)
  | inr e ↦ rw (e) (
      words-element (word ++ (c ∷ [])) l
      ∙ ap (λ w. emit w (words [] (element l).1)) (append_assoc word (c ∷ []) (element l).0))
]

length-skip_slashes : (l : List ℕ) → length (skip_slashes l) ≤ length l
unfolding skip_slashes
length-skip_slashes [] = omega arith
length-skip_slashes (c ∷ l) =
    let rest = length-skip_slashes l in
    elim (Bool-cases (c == b'/')) [
      | inl e ↦ rw (e) (omega (arith, rest))
      | inr e ↦ rw (e) (omega arith)
    ]

length-element : (l : List ℕ) → length (element l).1 ≤ length l
unfolding element
length-element [] = omega arith
length-element (c ∷ l) =
    let rest = length-element l in
    elim (Bool-cases (c == b'/')) [
      | inl e ↦ rw (e) (omega arith)
      | inr e ↦ rw (e) (omega (arith, rest))
    ]

skip_slashes_head :
    (l : List ℕ) {c : ℕ} {r : List ℕ} → skip_slashes l ≡ (c ∷ r) → (c == b'/') ≡ false
unfolding skip_slashes
skip_slashes_head [] h = cc
skip_slashes_head (x ∷ l) {c} {r} h = elim (Bool-cases (x == b'/')) [
  | inl e ↦ let h' = rw (e) at h in skip_slashes_head l h'
  | inr e ↦ let h' = rw (e) at h in let q : x ≡ c = cc in subst (λ y. (y == b'/') ≡ false) q e
]

List-cases : (l : List ℕ) → (l ≡ []) ⊎ ((c : ℕ) × (r : List ℕ) × (l ≡ c ∷ r))
List-cases [] = inl refl
List-cases (c ∷ r) = inr (c, r, refl)

skipelem-none : (path : List ℕ) → skip_slashes path ≡ [] → skipelem path ≡ none
unfolding skipelem
skipelem-none path e = rw (skipelem, e) refl

skipelem-some :
    (path r : List ℕ) (c : ℕ)
    → skip_slashes path ≡ (c ∷ r)
    → (c == b'/') ≡ false
    → skipelem path ≡ some (skip_slashes (element r).1, take dirsiz (c ∷ (element r).0))
unfolding skipelem element
skipelem-some path r c e n = rw (skipelem, e) (rw (n) refl)

words_first :
    (path r : List ℕ) (c : ℕ)
    → skip_slashes path ≡ (c ∷ r)
    → (c == b'/') ≡ false
    → words [] path ≡ (c ∷ (element r).0) ∷ words [] (skip_slashes (element r).1)
unfolding words
words_first path r c e n =
    sym (words-skip_slashes path)
    ∙ ap (words []) e
    ∙ rw (n) (words-element (c ∷ []) r)
    ∙ ap (λ l. (c ∷ (element r).0) ∷ l) (sym (words-skip_slashes (element r).1))

-- What skipelem comes to: the path has no word; or its first word, cut, and the path that is left,
-- which is shorter and has the other words.
abbrev pub Skips : List ℕ → Option (List ℕ × List ℕ) → Type 0
Skips path o =
    ((words [] path ≡ []) × (o ≡ none))
    ⊎ (word : List ℕ) × (rest : List ℕ) × (words [] path ≡ word ∷ words [] rest)
      × (o ≡ some (rest, take dirsiz word))
      × (length rest < length path)
      × (skip_slashes rest ≡ rest)

skip_slashes_twice : (l : List ℕ) → skip_slashes (skip_slashes l) ≡ skip_slashes l
unfolding skip_slashes
skip_slashes_twice [] = refl
skip_slashes_twice (c ∷ l) = elim (Bool-cases (c == b'/')) [
  | inl e ↦ rw (e) (skip_slashes_twice l)
  | inr e ↦ rw (e) (rw (e) refl)
]

-- skipelem returns nothing for a path without a word between its slashes; else the first word, cut
-- at DIRSIZ bytes, and a path that has the words behind it. That path is shorter, so that a loop
-- that goes on with it ends, and it has no slash in front.
pub skipelem-words : (path : List ℕ) → Skips path (skipelem path)
unfolding words
skipelem-words path = elim (List-cases (skip_slashes path)) [
  | inl e ↦ inl (sym (words-skip_slashes path) ∙ ap (words []) e, skipelem-none path e)
  | inr (c, r, e) ↦
      let n = skip_slashes_head path e in
      let a = length-skip_slashes path in
      let a' : suc (length r) ≤ length path = subst (λ l. length l ≤ length path) e a in
      let b = length-element r in
      let d = length-skip_slashes (element r).1 in
      inr (
        c ∷ (element r).0,
        skip_slashes (element r).1,
        words_first path r c e n,
        skipelem-some path r c e n,
        omega (arith, a', b, d),
        skip_slashes_twice (element r).1,
      )
]
