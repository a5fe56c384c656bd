-- ===== src/Ulib.antt =====
-- ulib.c: the string routines that the user programs call. A string is the list of its bytes up to
-- its NUL.
use kernel_tracing.Prelude.{
  ℕ, suc, ◌+◌, ◌-◌, ◌*◌, ◌≡◌, refl, subst, ◌≢◌, ◌↔◌, Bool, ◌&&◌, Option, none, some, List, [], ◌∷◌,
  arith, leb, ◌==◌, if◌then◌else◌,
}
use kernel_tracing.Prelude.Int.{ℤ, pos, diff}

-- `*s`: the first byte, or the NUL.
abbrev first : List ℕ → ℕ
first [] = 0
first (c ∷ s) = c

unfoldable pub strcmp : List ℕ → List ℕ → ℤ
strcmp [] q = diff 0 (first q)
strcmp (c ∷ p) [] = diff c 0
strcmp (c ∷ p) (d ∷ q) = let rest = strcmp p q in if c == d then rest else diff c d

pub strlen : List ℕ → ℕ
strlen [] = 0
strlen (c ∷ s) = suc (strlen s)

pub strchr : List ℕ → ℕ → Option (List ℕ)
strchr [] c = none
strchr (d ∷ s) c = let rest = strchr s c in if d == c then some (d ∷ s) else rest

abbrev pub is_digit : ℕ → Bool
is_digit c = leb b'0' c && leb c b'9'

-- The loop of atoi, `n` being what is read so far.
unfoldable pub atoi_from : ℕ → List ℕ → ℕ
atoi_from n [] = n
atoi_from n (c ∷ s) = let rest = atoi_from (n * 10 + c - b'0') s in if is_digit c then rest else n

unfoldable pub atoi : List ℕ → ℕ
unfolding atoi_from
atoi s = atoi_from 0 s

-- Every byte of the string is one: not a NUL.
abbrev pub IsText : List ℕ → Type 0
IsText [] = Unit
IsText (c ∷ s) = (c ≢ 0) × IsText s

strcmp_sound : (p q : List ℕ) → IsText p → IsText q → strcmp p q ≡ pos 0 → p ≡ q
unfolding strcmp
strcmp_sound [] [] tp tq h = refl
strcmp_sound [] (d ∷ q) tp tq h = absurd (ground arith)
strcmp_sound (c ∷ p) [] tp tq h = absurd (ground arith)
strcmp_sound (c ∷ p) (d ∷ q) tp tq h = ground (arith, strcmp_sound p q tp.1 tq.1)

pub strcmp_self : (p : List ℕ) → strcmp p p ≡ pos 0
unfolding strcmp
strcmp_self [] = refl
strcmp_self (c ∷ p) = ground (arith, strcmp_self p)

-- strcmp returns 0 exactly for equal strings.
strcmp-zero : (p q : List ℕ) → IsText p → IsText q → (strcmp p q ≡ pos 0) ↔ (p ≡ q)
strcmp-zero p q tp tq =
    (strcmp_sound p q tp tq, λ e. subst (λ r. strcmp p r ≡ pos 0) e (strcmp_self p))
