-- ===== src/Fs/Ialloc/Seek.antt =====
-- The first free inode on the disk.
use kernel_tracing.Prelude.{
  ℕ, zero, suc, ◌+◌, ◌≤◌, ◌<◌, ◌≡◌, refl, subst, ◌⊎◌, inl, inr, true, false, Option, none, some,
  arith, ◌==◌, ==_iff, Bool-cases,
}
use kernel_tracing.Fs.{Blocks, Superblock}
use kernel_tracing.Fs.Ialloc.{is_unallocated, first_unused}

-- What the loop of ialloc finds among the `left` inodes from inum on.
abbrev pub Seeks : (left inum : ℕ) → Superblock → Blocks → Option ℕ → Type 0
Seeks left inum sb m o =
    ((o ≡ none) × ((k : ℕ) → inum ≤ k → k < inum + left → is_unallocated sb k m ≡ false))
    ⊎ ((n : ℕ) × (o ≡ some n)
        × (inum ≤ n)
        × (n < inum + left)
        × (is_unallocated sb n m ≡ true)
        × ((k : ℕ) → inum ≤ k → k < n → is_unallocated sb k m ≡ false))

unused_from :
    (inum last : ℕ) (sb : Superblock) (m : Blocks)
    → is_unallocated sb inum m ≡ false
    → ((k : ℕ) → inum + 1 ≤ k → k < last → is_unallocated sb k m ≡ false)
    → (k : ℕ) → inum ≤ k
    → k < last
    → is_unallocated sb k m ≡ false
unused_from inum last sb m e f k h g = elim (Bool-cases (inum == k)) [
  | inl z ↦ subst (λ x. is_unallocated sb x m ≡ false) ((==_iff inum k).0 z) e
  | inr z ↦ f k (ground (arith, z, h)) g
]

pub first_unused-Seeks :
    (left inum : ℕ) (sb : Superblock) (m : Blocks)
    → Seeks left inum sb m (first_unused left inum sb m)
unfolding first_unused
first_unused-Seeks zero inum sb m = inl (refl, λ k h g. absurd (omega (arith, h, g)))
first_unused-Seeks (suc left) inum sb m = elim (Bool-cases (is_unallocated sb inum m)) [
  | inl e ↦
      rw (e) (inr (inum, refl, omega arith, omega arith, e, λ k h g. absurd (omega (arith, h, g))))
  | inr e ↦ elim (first_unused-Seeks left (inum + 1) sb m) [
    | inl (q, f) ↦
        rw (e)
          (inl (q, unused_from inum (inum + suc left) sb m e (λ k h g. f k h (omega (arith, g)))))
    | inr (n, q, h, g, u, f) ↦
        rw (e) (inr (n, q, omega (arith, h), omega (arith, g), u, unused_from inum n sb m e f))
  ]
]
