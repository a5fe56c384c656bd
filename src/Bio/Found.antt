-- ===== src/Bio/Found.antt =====
-- bio.c: what the two searches of bget find.
use kernel_tracing.Prelude.{
  ℕ, ◌≡◌, refl, subst, ap, ◌∙◌, ◌≢◌, inl, inr, true, false, ◌||◌, none, some, List, [], ◌∷◌, ◌++◌,
  arith, ◌==◌, ==_iff, Bool-cases, Option-cases,
}
use kernel_tracing.Bio.{Buf, Cache, holds, find_cached, is_free, find_clean}
use mathlib.Core.List.{reverse, reverse-cons}
use kernel_tracing.Bio.View.{has, IsCoherent}

pub find_cached-some :
    (l : List ℕ) (dev blockno : ℕ) (buf : ℕ → Buf) {i : ℕ}
    → find_cached l dev blockno buf ≡ some i
    → (has i l ≡ true) × (holds dev blockno (buf i) ≡ true)
unfolding find_cached has
find_cached-some [] dev blockno buf h = cc
find_cached-some (j ∷ l) dev blockno buf {i} h = elim (Bool-cases (holds dev blockno (buf j))) [
  | inl e ↦
      let h' = rw (e) at h in
      let q : j ≡ i = cc in (ground (arith, q), subst (λ k. holds dev blockno (buf k) ≡ true) q e)
  | inr e ↦
      let h' = rw (e) at h in
      let r = find_cached-some l dev blockno buf h' in (ground (arith, r.0), r.1)
]

pub find_cached-none :
    (l : List ℕ) (dev blockno : ℕ) (buf : ℕ → Buf)
    → find_cached l dev blockno buf ≡ none
    → (i : ℕ) → has i l ≡ true
    → holds dev blockno (buf i) ≡ false
unfolding find_cached has
find_cached-none [] dev blockno buf h i m = cc
find_cached-none (j ∷ l) dev blockno buf h i m = elim (Bool-cases (holds dev blockno (buf j))) [
  | inl e ↦ let h' = rw (e) at h in cc
  | inr e ↦
      let h' = rw (e) at h in
      elim (Bool-cases (j == i)) [
        | inl q ↦ subst (λ k. holds dev blockno (buf k) ≡ false) ((==_iff j i).0 q) e
        | inr q ↦ let m' = rw (q) at m in find_cached-none l dev blockno buf h' i m'
      ]
]

pub find_cached_missing :
    (l : List ℕ) (dev blockno : ℕ) (buf : ℕ → Buf)
    → ((i : ℕ) → has i l ≡ true → holds dev blockno (buf i) ≡ false)
    → find_cached l dev blockno buf ≡ none
find_cached_missing l dev blockno buf h = elim (Option-cases (find_cached l dev blockno buf)) [
  | inl e ↦ e
  | inr (i, e) ↦ let r = find_cached-some l dev blockno buf e in let q = h i r.0 in cc
]

-- In a coherent cache the search finds the buffer that holds the block.
pub find_cached_unique :
    (c : Cache) (dev blockno i : ℕ)
    → IsCoherent c
    → dev ≢ 0
    → has i c.order ≡ true
    → holds dev blockno (c.buf i) ≡ true
    → find_cached c.order dev blockno c.buf ≡ some i
find_cached_unique c dev blockno i s d m h =
    elim (Option-cases (find_cached c.order dev blockno c.buf)) [
      | inl e ↦ let q = find_cached-none c.order dev blockno c.buf e i m in cc
      | inr (j, e) ↦
          let r = find_cached-some c.order dev blockno c.buf e in
          e ∙ ap some (s.unique j i dev blockno r.0 m d r.1 h)
    ]

pub find_clean-some :
    (l : List ℕ) (buf : ℕ → Buf) {i : ℕ}
    → find_clean l buf ≡ some i
    → (has i l ≡ true) × (is_free (buf i) ≡ true)
unfolding find_clean has
find_clean-some [] buf h = cc
find_clean-some (j ∷ l) buf {i} h = elim (Bool-cases (is_free (buf j))) [
  | inl e ↦
      let h' = rw (e) at h in
      let q : j ≡ i = cc in (ground (arith, q), subst (λ k. is_free (buf k) ≡ true) q e)
  | inr e ↦ let h' = rw (e) at h in let r = find_clean-some l buf h' in (ground (arith, r.0), r.1)
]

pub find_clean-none :
    (l : List ℕ) (buf : ℕ → Buf)
    → find_clean l buf ≡ none
    → (i : ℕ) → has i l ≡ true
    → is_free (buf i) ≡ false
unfolding find_clean has
find_clean-none [] buf h i m = cc
find_clean-none (j ∷ l) buf h i m = elim (Bool-cases (is_free (buf j))) [
  | inl e ↦ let h' = rw (e) at h in cc
  | inr e ↦
      let h' = rw (e) at h in
      elim (Bool-cases (j == i)) [
        | inl q ↦ subst (λ k. is_free (buf k) ≡ false) ((==_iff j i).0 q) e
        | inr q ↦ let m' = rw (q) at m in find_clean-none l buf h' i m'
      ]
]

has-append : (i : ℕ) (l r : List ℕ) → has i (l ++ r) ≡ (has i l || has i r)
unfolding has
has-append i [] r = refl
has-append i (j ∷ l) r = let rest = has-append i l r in ground arith

pub has-reverse : (i : ℕ) (l : List ℕ) → has i (reverse l) ≡ has i l
unfolding has
has-reverse i [] = refl
has-reverse i (j ∷ l) =
    let rest = has-reverse i l in
    ap (has i) (reverse-cons j l) ∙ has-append i (reverse l) (j ∷ []) ∙ ground arith
