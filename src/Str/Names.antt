-- ===== src/Str/Names.antt =====
-- strncmp and strncpy on names: strings of at most n bytes, with a NUL only where they are shorter.
use kernel_tracing.Prelude.{
  ℕ, zero, suc, ◌+◌, ◌<◌, ◌≡◌, refl, ap, ap₂, ◌∙◌, inl, inr, Bool, true, false, ◌&&◌, List, [], ◌∷◌,
  arith, ◌==◌, if◌then◌else◌, ==_iff, Bool-cases, update,
}
use mathlib.Core.Bool.{false≢true}
use kernel_tracing.Prelude.Int.{pos, eq_int, diff}
use kernel_tracing.Str.{Bytes, strncmp, strncmp_from, strncpy, strncpy_from, zero_fill}
use kernel_tracing.Str.Copy.{zero_fill_lem}

-- The name of at most n bytes at index i.
unfoldable pub name_at : (n i : ℕ) → Bytes → List ℕ
name_at zero i p = []
name_at (suc n) i p = if p i == 0 then [] else p i ∷ name_at n (i + 1) p

-- Whether two names are the same.
unfoldable pub same : List ℕ → List ℕ → Bool
same [] [] = true
same [] (y ∷ l) = false
same (x ∷ k) [] = false
same (x ∷ k) (y ∷ l) = x == y && same k l

pub same-equal : (k l : List ℕ) → same k l ≡ true → k ≡ l
unfolding same
same-equal [] [] h = refl
same-equal [] (y ∷ l) h = absurd (false≢true h)
same-equal (x ∷ k) [] h = absurd (false≢true h)
same-equal (x ∷ k) (y ∷ l) h = elim (Bool-cases (x == y)) [
  | inl e ↦ ap₂ ◌∷◌ ((==_iff x y).0 e) (same-equal k l (rw (e) at h))
  | inr e ↦ absurd (false≢true (rw (e) at h))
]

pub name_at_same :
    (n i j : ℕ) (p q : Bytes)
    → ((k : ℕ) → k < n → p (i + k) ≡ q (j + k))
    → name_at n i p ≡ name_at n j q
unfolding name_at
name_at_same zero i j p q h = refl
name_at_same (suc n) i j p q h =
    let a : i + 0 ≡ i = omega arith in
    let b : j + 0 ≡ j = omega arith in
    let e : p i ≡ q j = rw (a, b) at (h 0 (omega arith)) in
    let r = name_at_same n (i + 1) (j + 1) p q (λ k l.
      let a : i + 1 + k ≡ i + suc k = omega arith in
      let b : j + 1 + k ≡ j + suc k = omega arith in rw (a, b) (h (suc k) (omega (arith, l)))) in
    ap₂ (λ x l. if x == 0 then [] else x ∷ l) e r

diff_zero : (a b : ℕ) → eq_int (diff a b) (pos 0) ≡ (a == b)
diff_zero a b = ground arith

strncmp_from-same :
    (n i : ℕ) (p q : Bytes)
    → eq_int (strncmp_from n i p q) (pos 0) ≡ same (name_at n i p) (name_at n i q)
unfolding strncmp_from name_at same
strncmp_from-same zero i p q = refl
strncmp_from-same (suc n) i p q =
    let r = strncmp_from-same n (i + 1) p q in
    let d = diff_zero (p i) (q i) in
    elim (Bool-cases (p i == 0)) [
      | inl e ↦ elim (Bool-cases (q i == 0)) [
        | inl f ↦ let g : (p i == q i) ≡ true = ground arith in rw (e, f) (d ∙ g)
        | inr f ↦ let g : (p i == q i) ≡ false = ground arith in rw (e, f) (d ∙ g)
      ]
      | inr e ↦ elim (Bool-cases (q i == 0)) [
        | inl f ↦ let g : (p i == q i) ≡ false = ground arith in rw (e, f, g) (d ∙ g)
        | inr f ↦ elim (Bool-cases (p i == q i)) [
          | inl g ↦ rw (e, f, g) r
          | inr g ↦ rw (e, f, g) (d ∙ g)
        ]
      ]
    ]

-- strncmp gives 0 for the same names, and only for these.
pub strncmp-same :
    (n : ℕ) (p q : Bytes) → eq_int (strncmp p q n) (pos 0) ≡ same (name_at n 0 p) (name_at n 0 q)
unfolding strncmp
strncmp-same n p q = strncmp_from-same n 0 p q

strncpy_from_before : (n i : ℕ) (s t : Bytes) (j : ℕ) → j < i → strncpy_from n i s t j ≡ s j
unfolding strncpy_from
strncpy_from_before zero i s t j h = refl
strncpy_from_before (suc n) i s t j h =
    let r = strncpy_from_before n (i + 1) (update s i (t i)) t j (omega arith) in
    let z = zero_fill_lem n (i + 1) (update s i (t i)) j in ground (arith, r, z)

name_at-strncpy_from : (n i : ℕ) (s t : Bytes) → name_at n i (strncpy_from n i s t) ≡ name_at n i t
unfolding strncpy_from name_at
name_at-strncpy_from zero i s t = refl
name_at-strncpy_from (suc n) i s t =
    let s' = update s i (t i) in
    elim (Bool-cases (t i == 0)) [
      | inl e ↦
          let z : zero_fill n (i + 1) s' i ≡ 0 = ground (arith, zero_fill_lem n (i + 1) s' i) in
          rw (e, z) refl
      | inr e ↦
          let z : strncpy_from n (i + 1) s' t i ≡ t i =
            ground (arith, strncpy_from_before n (i + 1) s' t i (omega arith)) in
          rw (e, z, e) (ap (λ l. t i ∷ l) (name_at-strncpy_from n (i + 1) s' t))
    ]

-- strncpy stores the name, whatever was there.
pub name_at-strncpy : (n : ℕ) (s t : Bytes) → name_at n 0 (strncpy s t (pos n)) ≡ name_at n 0 t
unfolding strncpy
name_at-strncpy n s t = name_at-strncpy_from n 0 s t
