-- ===== src/Fs/Bits.antt =====
-- fs.c: single bits of a byte, and of the bitmap of used blocks.
use kernel_tracing.Prelude.{
  ℕ, zero, suc, ◌+◌, ◌*◌, ◌/◌, ◌%◌, ◌≡◌, refl, subst, ap, ap₂, ◌∙◌, inl, inr, Bool, true, false,
  ◌&&◌, ◌||◌, not, arith, ◌==◌, ==_iff, Bool-cases, update,
}
use kernel_tracing.Fs.{
  Blocks, Superblock, bpb, bblock, has_bit, set_bit, clear_bit, mark_used, mark_free,
}

has_bit-set_bit : (j k x : ℕ) → has_bit j (set_bit k x) ≡ (j == k || has_bit j x)
unfolding has_bit set_bit
has_bit-set_bit zero zero x = ground arith
has_bit-set_bit zero (suc k) x = ground arith
has_bit-set_bit (suc j) zero x =
    let q : (x / 2 * 2 + 1) / 2 ≡ x / 2 = omega arith in ap (has_bit j) q ∙ ground arith
has_bit-set_bit (suc j) (suc k) x =
    let rest = has_bit-set_bit j k (x / 2) in
    let q : (set_bit k (x / 2) * 2 + x % 2) / 2 ≡ set_bit k (x / 2) = omega arith in
    ap (has_bit j) q ∙ rest ∙ ground arith

has_bit-clear_bit : (j k x : ℕ) → has_bit j (clear_bit k x) ≡ (not (j == k) && has_bit j x)
unfolding has_bit clear_bit
has_bit-clear_bit zero zero x = ground arith
has_bit-clear_bit zero (suc k) x = ground arith
has_bit-clear_bit (suc j) zero x =
    let q : x / 2 * 2 / 2 ≡ x / 2 = omega arith in ap (has_bit j) q ∙ ground arith
has_bit-clear_bit (suc j) (suc k) x =
    let rest = has_bit-clear_bit j k (x / 2) in
    let q : (clear_bit k (x / 2) * 2 + x % 2) / 2 ≡ clear_bit k (x / 2) = omega arith in
    ap (has_bit j) q ∙ rest ∙ ground arith

-- Whether the bitmap says that block n is in use.
abbrev pub used : Superblock → Blocks → ℕ → Bool
used sb m n = has_bit (n % bpb % 8) (m (bblock n sb) (n % bpb / 8))

-- Two blocks with the same place in the bitmap are the same.
same_place :
    (sb : Superblock) (i j : ℕ)
    → (bblock i sb == bblock j sb) ≡ true
    → (i % bpb / 8 == j % bpb / 8) ≡ true
    → (i % bpb % 8 == j % bpb % 8) ≡ true
    → i ≡ j
same_place sb i j h g e =
    let h' = (==_iff (bblock i sb) (bblock j sb)).0 h in
    let g' = (==_iff (i % bpb / 8) (j % bpb / 8)).0 g in
    let e' = (==_iff (i % bpb % 8) (j % bpb % 8)).0 e in omega (arith, h', g', e')

-- The byte with the bit of block n changed by f.
module _ (sb : Superblock) (m : Blocks) (n : ℕ) (f : ℕ → ℕ) where
  abbrev byte : ℕ
  byte = n % bpb / 8

  abbrev changed : Blocks
  changed = update m (bblock n sb) (update (m (bblock n sb)) byte (f (m (bblock n sb) byte)))

  changed_same : used sb changed n ≡ has_bit (n % bpb % 8) (f (m (bblock n sb) byte))
  changed_same = rw ((==_iff (bblock n sb) (bblock n sb)).1 refl, (==_iff byte byte).1 refl) refl

  changed_other :
      (j : ℕ)
      → (n == j) ≡ false
      → ((i x : ℕ) → (i == n % bpb % 8) ≡ false → has_bit i (f x) ≡ has_bit i x)
      → used sb changed j ≡ used sb m j
  changed_other j e h = elim (Bool-cases (bblock n sb == bblock j sb)) [
    | inr p ↦ rw (p) refl
    | inl p ↦
        let p' = (==_iff (bblock n sb) (bblock j sb)).0 p in
        elim (Bool-cases (byte == j % bpb / 8)) [
          | inr q ↦ rw (p, q) (ap (λ x. has_bit (j % bpb % 8) (m x (j % bpb / 8))) p')
          | inl q ↦
              let q' = (==_iff byte (j % bpb / 8)).0 q in
              elim (Bool-cases (n % bpb % 8 == j % bpb % 8)) [
                | inl r ↦ let w = same_place sb n j p q r in ground (arith, e, w)
                | inr r ↦
                    rw (p, q)
                      (h (j % bpb % 8) _ (ground (arith, r))
                        ∙ ap₂ (λ x y. has_bit (j % bpb % 8) (m x y)) p' q')
              ]
        ]
  ]

pub used-mark_used :
    (sb : Superblock) (m : Blocks) (n j : ℕ)
    → used sb (mark_used (bblock n sb) (n % bpb) m) j ≡ (n == j || used sb m j)
used-mark_used sb m n j = elim (Bool-cases (n == j)) [
  | inl e ↦
      let q = (==_iff n j).0 e in
      rw (e) (
        subst (λ x. used sb (mark_used (bblock n sb) (n % bpb) m) x ≡ true) q
          (changed_same sb m n (set_bit (n % bpb % 8))
            ∙ has_bit-set_bit (n % bpb % 8) (n % bpb % 8) _
            ∙ ground arith))
  | inr e ↦
      changed_other sb m n (set_bit (n % bpb % 8)) j e
        (λ i x h. has_bit-set_bit i (n % bpb % 8) x ∙ ground (arith, h))
      ∙ ground (arith, e)
]

pub used-mark_free :
    (sb : Superblock) (m : Blocks) (n j : ℕ)
    → used sb (mark_free (bblock n sb) (n % bpb) m) j ≡ (not (n == j) && used sb m j)
used-mark_free sb m n j = elim (Bool-cases (n == j)) [
  | inl e ↦
      let q = (==_iff n j).0 e in
      rw (e) (
        subst (λ x. used sb (mark_free (bblock n sb) (n % bpb) m) x ≡ false) q
          (changed_same sb m n (clear_bit (n % bpb % 8))
            ∙ has_bit-clear_bit (n % bpb % 8) (n % bpb % 8) _
            ∙ ground arith))
  | inr e ↦
      changed_other sb m n (clear_bit (n % bpb % 8)) j e
        (λ i x h. has_bit-clear_bit i (n % bpb % 8) x ∙ ground (arith, h))
      ∙ ground (arith, e)
]
