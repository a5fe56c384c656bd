-- ===== src/Fs/Icache/Scan.antt =====
-- What the loop of iget finds.
use kernel_tracing.Prelude.{
  ℕ, zero, suc, ◌+◌, ◌≤◌, ◌<◌, ◌≡◌, refl, subst, ap, ◌∙◌, ◌⊎◌, inl, inr, true, false, Option, none,
  some, arith, ◌==◌, ==_iff, Bool-cases,
}
use kernel_tracing.Fs.Inode.{Inode}
use kernel_tracing.Fs.Icache.{is_for, Place, hit, miss, first_empty, find_entry}

-- The place of a free entry: the one known before, or one of those from i on, if there is any.
abbrev Empties : (left i : ℕ) → (ℕ → Inode) → (known found : Option ℕ) → Type 0
Empties left i inode known found =
    ((found ≡ known)
      × ((known ≡ none) → (j : ℕ) → i ≤ j → j < i + left → ((inode j).ref == 0) ≡ false))
    ⊎ ((e : ℕ) × (found ≡ some e) × (i ≤ e) × (e < i + left) × (((inode e).ref == 0) ≡ true))

abbrev Scanned : (left i : ℕ) → Option ℕ → (dev inum : ℕ) → (ℕ → Inode) → Place → Type 0
Scanned left i empty dev inum inode place =
    ((k : ℕ) × (place ≡ hit k) × (k < i + left) × (is_for dev inum (inode k) ≡ true))
    ⊎ ((o : Option ℕ) × (place ≡ miss o)
        × ((j : ℕ) → i ≤ j → j < i + left → is_for dev inum (inode j) ≡ false)
        × Empties left i inode empty o)

-- What holds of i and of all from i + 1 on holds of all from i on.
from_next :
    (P : ℕ → Type 0) (left i : ℕ)
    → P i
    → ((j : ℕ) → i + 1 ≤ j → j < i + 1 + left → P j)
    → (j : ℕ) → i ≤ j
    → j < i + suc left
    → P j
from_next P left i p f j h g = elim (Bool-cases (i == j)) [
  | inl e ↦ subst P ((==_iff i j).0 e) p
  | inr e ↦ f j (ground (arith, e, h)) (omega (arith, g))
]

Empties-next :
    (left i : ℕ) (inode : ℕ → Inode) (known found : Option ℕ)
    → Empties left (i + 1) inode (first_empty i (inode i) known) found
    → Empties (suc left) i inode known found
Empties-next left i inode known found (inr (e, q, a, b, z)) =
    inr (e, q, omega (arith, a), omega (arith, b), z)
Empties-next left i inode (some k) found (inl (q, f)) = inl (q, λ h. absurd (cc))
Empties-next left i inode none found (inl (q, f)) = elim (Bool-cases ((inode i).ref == 0)) [
  | inl z ↦ inr (i, rw (z) at q, omega arith, omega arith, z)
  | inr z ↦
      let q' = rw (z) at q in
      inl (q', λ h. from_next (λ j. ((inode j).ref == 0) ≡ false) left i z (f (rw (z) refl)))
]

find_entry-Scanned :
    (left i : ℕ) (empty : Option ℕ) (dev inum : ℕ) (inode : ℕ → Inode)
    → Scanned left i empty dev inum inode (find_entry left i empty dev inum inode)
unfolding find_entry
find_entry-Scanned zero i empty dev inum inode = inr (
  empty,
  refl,
  λ j h g. absurd (omega (arith, h, g)),
  inl (refl, λ _ j h g. absurd (omega (arith, h, g))),
)
find_entry-Scanned (suc left) i empty dev inum inode =
    elim (Bool-cases (is_for dev inum (inode i))) [
      | inl e ↦ rw (e) (inl (i, refl, omega arith, e))
      | inr e ↦
          elim (find_entry-Scanned left (i + 1) (first_empty i (inode i) empty) dev inum inode) [
            | inl (k, q, h, g) ↦ rw (e) (inl (k, q, omega (arith, h), g))
            | inr (o, q, f, x) ↦ rw (e) (
                inr (
                  o,
                  q,
                  from_next (λ j. is_for dev inum (inode j) ≡ false) left i e f,
                  Empties-next left i inode empty o x,
                ))
          ]
    ]

-- The entries from 0 on, searched with no free entry known.
abbrev pub Finds : (n : ℕ) → (dev inum : ℕ) → (ℕ → Inode) → Place → Type 0
Finds n dev inum inode place =
    ((k : ℕ) × (place ≡ hit k) × (k < n) × (is_for dev inum (inode k) ≡ true))
    ⊎ ((e : ℕ) × (place ≡ miss (some e))
        × (e < n)
        × ((inode e).ref ≡ 0)
        × ((j : ℕ) → j < n → is_for dev inum (inode j) ≡ false))
    ⊎ (place ≡ miss none)
      × ((j : ℕ) → j < n → (is_for dev inum (inode j) ≡ false) × (0 < (inode j).ref))

pub find_entry-Finds :
    (n dev inum : ℕ) (inode : ℕ → Inode)
    → Finds n dev inum inode (find_entry n 0 none dev inum inode)
find_entry-Finds n dev inum inode = elim (find_entry-Scanned n 0 none dev inum inode) [
  | inl (k, q, h, e) ↦ inl (k, q, omega (arith, h), e)
  | inr (o, q, f, inr (e, s, _, h, z)) ↦ inr (
      inl (
        e,
        q ∙ ap miss s,
        omega (arith, h),
        (==_iff _ _).0 z,
        λ j l. f j (omega arith) (omega (arith, l)),
      ))
  | inr (o, q, f, inl (s, g)) ↦ inr (
      inr (
        q ∙ ap miss s,
        λ j l. (
          f j (omega arith) (omega (arith, l)),
          (let z = g refl j (omega arith) (omega (arith, l)) in ground (arith, z)),
        ),
      ))
]
