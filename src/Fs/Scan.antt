-- ===== src/Fs/Scan.antt =====
-- fs.c: the search of balloc for a free block.
use kernel_tracing.Prelude.{
  ℕ, zero, suc, ◌+◌, ◌-◌, ◌*◌, ◌/◌, ◌%◌, ◌≤◌, ◌<◌, ◌≡◌, refl, subst, ap₂, ◌∙◌, ◌⊎◌, inl, inr, true,
  false, none, some, arith, ltb, ◌==◌, ltb→lt, ==_iff, Bool-cases, Option-cases, ok, panic,
}
use kernel_tracing.Fs.{
  Data, Blocks, Superblock, bpb, bblock, bzero, has_bit, scan_block, mark_used, balloc_loop,
}
use kernel_tracing.Fs.Bits.{used}

-- What the inner loop finds: the first clear bit.
scan_block-some :
    (left bi b : ℕ) (sb : Superblock) (d : Data) {r : ℕ}
    → scan_block left bi b sb d ≡ some r
    → (r < bi + left)
      × (b + r < sb.size)
      × (has_bit (r % 8) (d (r / 8)) ≡ false)
      × ((i : ℕ) → bi ≤ i → i < r → has_bit (i % 8) (d (i / 8)) ≡ true)
unfolding scan_block
scan_block-some zero bi b sb d h = cc
scan_block-some (suc left) bi b sb d {r} h = elim (Bool-cases (ltb (b + bi) sb.size)) [
  | inr e ↦ let h' = rw (e) at h in cc
  | inl e ↦
      let h' = rw (e) at h in
      elim (Bool-cases (has_bit (bi % 8) (d (bi / 8)))) [
        | inr f ↦
            let h2 = rw (f) at h' in
            let q : bi ≡ r = cc in
            subst
              (λ x.
                (x < bi + suc left)
                × (b + x < sb.size)
                × (has_bit (x % 8) (d (x / 8)) ≡ false)
                × ((i : ℕ) → bi ≤ i → i < x → has_bit (i % 8) (d (i / 8)) ≡ true))
              q (omega arith, ltb→lt _ _ e, f, λ i l g. ground (arith, l, g))
        | inl f ↦
            let h2 = rw (f) at h' in
            let (x, y, z, w) = scan_block-some left (bi + 1) b sb d h2 in
            (
              omega (arith, x),
              y,
              z,
              λ i l g. elim (Bool-cases (bi == i)) [
                | inl p ↦ subst (λ n. has_bit (n % 8) (d (n / 8)) ≡ true) ((==_iff bi i).0 p) f
                | inr p ↦ w i (ground (arith, l, p)) g
              ],
            )
      ]
]

scan_block-none :
    (left bi b : ℕ) (sb : Superblock) (d : Data)
    → scan_block left bi b sb d ≡ none
    → (i : ℕ) → bi ≤ i
    → i < bi + left
    → b + i < sb.size
    → has_bit (i % 8) (d (i / 8)) ≡ true
unfolding scan_block
scan_block-none zero bi b sb d h i l g s = ground (arith, l, g)
scan_block-none (suc left) bi b sb d h i l g s = elim (Bool-cases (ltb (b + bi) sb.size)) [
  | inr e ↦ ground (arith, e, l, s)
  | inl e ↦
      let h' = rw (e) at h in
      elim (Bool-cases (has_bit (bi % 8) (d (bi / 8)))) [
        | inr f ↦ let h2 = rw (f) at h' in cc
        | inl f ↦
            let h2 = rw (f) at h' in
            elim (Bool-cases (bi == i)) [
              | inl p ↦ subst (λ n. has_bit (n % 8) (d (n / 8)) ≡ true) ((==_iff bi i).0 p) f
              | inr p ↦
                  scan_block-none left (bi + 1) b sb d h2 i (ground (arith, l, p))
                    (omega (arith, g)) s
            ]
      ]
]

-- Bit i of the bitmap block of b, where b is the first block it speaks of.
used_at :
    (sb : Superblock) (m : Blocks) (b i : ℕ)
    → b % bpb ≡ 0
    → i < bpb
    → used sb m (b + i) ≡ has_bit (i % 8) (m (bblock b sb) (i / 8))
used_at sb m b i z l =
    let p : (b + i) % bpb ≡ i = omega (arith, z, l) in
    let q : (b + i) / bpb ≡ b / bpb = omega (arith, z, l) in
    ap₂ (λ x y. has_bit (x % 8) (m (y + sb.bmapstart) (x / 8))) p q

-- Block n was free, and the blocks below it were not; it is marked as used and filled with 0.
pub record IsFound (sb : Superblock) (m : Blocks) (n : ℕ) (m' : Blocks) : Type 0 where
  pub below : n < sb.size
  pub free : used sb m n ≡ false
  pub first : (j : ℕ) → j < n → used sb m j ≡ true
  pub result : m' ≡ bzero n (mark_used (bblock n sb) (n % bpb) m)

-- A block of the bitmap of b, by what the loop has seen of it.
from_scan :
    (sb : Superblock) (m : Blocks) (b r j : ℕ)
    → b % bpb ≡ 0
    → b ≤ j
    → j < b + r
    → r ≤ bpb
    → ((i : ℕ) → i < r → b + i < sb.size → has_bit (i % 8) (m (bblock b sb) (i / 8)) ≡ true)
    → j < sb.size
    → used sb m j ≡ true
from_scan sb m b r j z l g k h s =
    let q : b + (j - b) ≡ j = omega (arith, l) in
    subst (λ x. used sb m x ≡ true) q
      (used_at sb m b (j - b) z (omega (arith, l, g, k))
        ∙ h (j - b) (omega (arith, l, g)) (omega (arith, q, s)))

found :
    (sb : Superblock) (m : Blocks) (b r : ℕ)
    → b % bpb ≡ 0
    → r < bpb
    → b + r < sb.size
    → has_bit (r % 8) (m (bblock b sb) (r / 8)) ≡ false
    → ((j : ℕ) → j < b + r → used sb m j ≡ true)
    → IsFound sb m (b + r) (bzero (b + r) (mark_used (bblock b sb) r m))
found sb m b r z l s f h = record {
  below = s;
  free = used_at sb m b r z l ∙ f;
  first = h;
  result =
      let p : r ≡ (b + r) % bpb = omega (arith, z, l) in
      let q : b / bpb ≡ (b + r) / bpb = omega (arith, z, l) in
      ap₂ (λ x y. bzero (b + r) (mark_used (x + sb.bmapstart) y m)) q p;
}

pub balloc_loop-decides :
    (fuel b : ℕ) (sb : Superblock) (m : Blocks)
    → b % bpb ≡ 0
    → sb.size ≤ b + fuel * bpb
    → ((j : ℕ) → j < b → j < sb.size → used sb m j ≡ true)
    → ((n : ℕ) × (m' : Blocks) × (balloc_loop fuel b sb m ≡ ok (n, m')) × IsFound sb m n m')
      ⊎ ((balloc_loop fuel b sb m ≡ panic "balloc: out of blocks")
          × ((j : ℕ) → j < sb.size → used sb m j ≡ true))
unfolding balloc_loop
balloc_loop-decides zero b sb m z l h = inr (refl, λ j g. h j (omega (arith, l, g)) g)
balloc_loop-decides (suc fuel) b sb m z l h = elim (Bool-cases (ltb b sb.size)) [
  | inr e ↦ rw (e) (inr (refl, λ j g. h j (ground (arith, e, g)) g))
  | inl e ↦ elim (Option-cases (scan_block bpb 0 b sb (m (bblock b sb)))) [
    | inl f ↦
        let full = scan_block-none bpb 0 b sb (m (bblock b sb)) f in
        rw (e, f)
          (balloc_loop-decides fuel (b + bpb) sb m (omega (arith, z)) (omega (arith, l)) (λ j g s.
            elim (Bool-cases (ltb j b)) [
              | inl p ↦ h j (ltb→lt _ _ p) s
              | inr p ↦
                  from_scan sb m b bpb j z (ground (arith, p)) g (omega arith)
                    (λ i u v. full i (omega arith) u v) s
            ]))
    | inr (r, f) ↦
        let (x, y, w, v) = scan_block-some bpb 0 b sb (m (bblock b sb)) f in
        rw (e, f)
          (inl (
            b + r,
            bzero (b + r) (mark_used (bblock b sb) r m),
            refl,
            found sb m b r z x y w (λ j g. elim (Bool-cases (ltb j b)) [
              | inl p ↦ h j (ltb→lt _ _ p) (omega (arith, g, y))
              | inr p ↦
                  from_scan sb m b r j z (ground (arith, p)) g (omega (arith, x))
                    (λ i u _. v i (omega arith) u) (omega (arith, g, y))
            ]),
          ))
  ]
]
