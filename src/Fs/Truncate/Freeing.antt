-- ===== src/Fs/Truncate/Freeing.antt =====
-- fs.c: the loops of itrunc free the blocks of an inode one by one.
use kernel_tracing.Prelude.{
  ℕ, zero, suc, ◌+◌, ◌-◌, ◌*◌, ◌%◌, ◌≤◌, ◌<◌, ◌≡◌, refl, sym, subst, ap, ◌∙◌, inl, inr, true, false,
  ◌&&◌, not, arith, ltb, ◌==◌, if◌then◌else◌, ==_iff, Bool-cases, update, ok,
}
use mathlib.Core.Bool.{true≢false}
use kernel_tracing.Fs.{Blocks, Superblock, uint_at, bblock, bpb, bfree, mark_free}
use kernel_tracing.Fs.Bits.{used, used-mark_free}
use kernel_tracing.Fs.Allocation.{bfree-used, readsb_same}
use kernel_tracing.Fs.Inode.{Inode, ndirect}
use kernel_tracing.Fs.Inode.Address.{indirect, slot, IsFile}
use kernel_tracing.Fs.Truncate.{free_slot, free_direct, free_entries}

-- None of the blocks of the first n places of the inode is x.
abbrev pub IsAway : Inode → Blocks → (n x : ℕ) → Type 0
IsAway ip m n x =
    (k : ℕ) → k < n → k ≤ indirect → (slot ip m k == 0) ≡ false → (slot ip m k == x) ≡ false

-- The blocks of the first n places are free, and nothing else has changed.
pub record Freed (sb : Superblock) (ip : Inode) (m : Blocks) (n : ℕ) (m' : Blocks) : Type 0 where
  pub freed :
      (k : ℕ) → k < n → k ≤ indirect → (slot ip m k == 0) ≡ false → used sb m' (slot ip m k) ≡ false
  pub kept : (x : ℕ) → IsAway ip m n x → used sb m' x ≡ used sb m x
  pub others : (x : ℕ) → ((j : ℕ) → j < sb.size → (bblock j sb == x) ≡ false) → m' x ≡ m x

pub Freed-none : (sb : Superblock) (ip : Inode) (m : Blocks) → Freed sb ip m 0 m
Freed-none sb ip m = record {
  freed = λ k h. absurd (omega (arith, h));
  kept = λ x h. refl;
  others = λ x h. refl;
}

-- What holds of the places below n and of place n holds of those below n + 1.
below_next : (P : ℕ → Type 0) (n : ℕ) → ((k : ℕ) → k < n → P k) → P n → (k : ℕ) → k < n + 1 → P k
below_next P n f p k h = elim (Bool-cases (k == n)) [
  | inl e ↦ subst P (sym ((==_iff k n).0 e)) p
  | inr e ↦ f k (ground (arith, e, h))
]

Freed-skip :
    (sb : Superblock) (ip : Inode) (m : Blocks) (n : ℕ) (m' : Blocks)
    → (slot ip m n == 0) ≡ true
    → Freed sb ip m n m'
    → Freed sb ip m (n + 1) m'
Freed-skip sb ip m n m' z f = record {
  freed =
      below_next (λ k. k ≤ indirect → (slot ip m k == 0) ≡ false → used sb m' (slot ip m k) ≡ false)
        n f.freed (λ l e. absurd (true≢false (sym z ∙ e)));
  kept = λ x a. f.kept x (λ k h. a k (omega (arith, h)));
  others = f.others;
}

-- bfree of the block of place n.
pub Freed-next :
    (sb : Superblock) (ip : Inode) (m : Blocks) (n : ℕ) (m' : Blocks)
    → IsFile sb ip m
    → n ≤ indirect
    → (slot ip m n == 0) ≡ false
    → Freed sb ip m n m'
    → (m'' : Blocks) × (bfree (slot ip m n) m' ≡ ok m'') × Freed sb ip m (n + 1) m''
Freed-next sb ip m n m' w l z f =
    let b = slot ip m n in
    let o = w.owned n l z in
    let one : m' 1 ≡ m 1 = f.others 1 (λ j h. let q = w.reserved.after in ground (arith, q)) in
    let on_disk = readsb_same m m' one ∙ w.reserved.on_disk in
    let away : IsAway ip m n b = λ k h g e. elim (Bool-cases (slot ip m k == b)) [
      | inr q ↦ q
      | inl q ↦
          let p = w.apart k n g l e ((==_iff (slot ip m k) b).0 q) in absurd (omega (arith, p, h))
    ] in
    let u : used sb m' b ≡ true = f.kept b away ∙ o.in_use in
    let marks = used-mark_free sb m' b in
    (
      mark_free (bblock b sb) (b % bpb) m',
      bfree-used b sb m' on_disk u,
      record {
        freed =
            below_next
              (λ k.
                k ≤ indirect
                → (slot ip m k == 0) ≡ false
                → used sb (mark_free (bblock b sb) (b % bpb) m') (slot ip m k) ≡ false)
              n (λ k h g e. marks (slot ip m k) ∙ (let q = f.freed k h g e in ground (arith, q)))
              (λ g e. marks b ∙ ground arith);
        kept = λ x a.
            let q = a n (omega arith) l z in
            marks x ∙ ap (λ t. not t && used sb m' x) q ∙ f.kept x (λ k h. a k (omega (arith, h)));
        others = λ x h. let q = h b o.below in rw (q) (f.others x h);
      },
    )

-- The inode with the first n addresses cleared.
pub record IsCleared (ip : Inode) (n : ℕ) (ip' : Inode) : Type 0 where
  pub inum : ip'.inum ≡ ip.inum
  pub type : ip'.type ≡ ip.type
  pub addrs : (k : ℕ) → ip'.addrs k ≡ (if ltb k n then 0 else ip.addrs k)

pub IsCleared-next :
    (ip : Inode) (n : ℕ) (ip' : Inode) (a : ℕ → ℕ)
    → IsCleared ip n ip'
    → ((k : ℕ) → a k ≡ (if n == k then 0 else ip'.addrs k))
    → IsCleared ip (n + 1) (record ip' { addrs = a })
IsCleared-next ip n ip' a c h = record {
  inum = c.inum;
  type = c.type;
  addrs = λ k. h k ∙ (let q = c.addrs k in ground (arith, q));
}

-- One round of the loop over the direct addresses.
free_slot-Freed :
    (n : ℕ) (sb : Superblock) (ip : Inode) (m : Blocks) (ip1 : Inode) (m1 : Blocks)
    → IsFile sb ip m
    → n < 12
    → Freed sb ip m n m1
    → IsCleared ip n ip1
    → (ip2 : Inode) × (m2 : Blocks) × (free_slot n ip1 m1 ≡ ok (ip2, m2))
      × Freed sb ip m (n + 1) m2
      × IsCleared ip (n + 1) ip2
free_slot-Freed n sb ip m ip1 m1 w e f c =
    let low : ltb n 12 ≡ true = ground (arith, e) in
    let same : slot ip m n ≡ ip1.addrs n = rw (low) (let q = c.addrs n in ground (arith, q)) in
    elim (Bool-cases (ip1.addrs n == 0)) [
      | inl z ↦ rw (z) (
        ip1,
        m1,
        refl,
        Freed-skip sb ip m n m1 (ap (λ x. x == 0) same ∙ z) f,
        IsCleared-next ip n ip1 ip1.addrs c (λ k. ground (arith, z)),
      )
      | inr z ↦
          let r = Freed-next sb ip m n m1 w (omega (arith, e)) (ap (λ x. x == 0) same ∙ z) f in
          rw (z, ap (λ x. bfree x m1) (sym same) ∙ r.1)
            (
              record ip1 { addrs = update ip1.addrs n 0 },
              r.0,
              refl,
              r.2,
              IsCleared-next ip n ip1 (update ip1.addrs n 0) c (λ k. refl),
            )
    ]

-- The loop over the direct addresses.
pub free_direct-Freed :
    (left n : ℕ) (sb : Superblock) (ip : Inode) (m : Blocks) (ip1 : Inode) (m1 : Blocks)
    → IsFile sb ip m
    → n + left ≡ 12
    → Freed sb ip m n m1
    → IsCleared ip n ip1
    → (ip2 : Inode) × (m2 : Blocks) × (free_direct left n ip1 m1 ≡ ok (ip2, m2))
      × Freed sb ip m 12 m2
      × IsCleared ip 12 ip2
unfolding free_direct
free_direct-Freed zero n sb ip m ip1 m1 w e f c =
    let q : n ≡ 12 = omega (arith, e) in
    (ip1, m1, refl, subst (λ k. Freed sb ip m k m1) q f, subst (λ k. IsCleared ip k ip1) q c)
free_direct-Freed (suc left) n sb ip m ip1 m1 w e f c =
    let r = free_slot-Freed n sb ip m ip1 m1 w (omega (arith, e)) f c in
    rw (r.2) (free_direct-Freed left (n + 1) sb ip m r.0 r.1 w (omega (arith, e)) r.3 r.4)

-- The loop over the addresses in the indirect block.
pub free_entries-Freed :
    (left j : ℕ) (sb : Superblock) (ip : Inode) (m m1 : Blocks)
    → IsFile sb ip m
    → (ip.addrs ndirect == 0) ≡ false
    → j + left ≡ 128
    → Freed sb ip m (12 + j) m1
    → (m2 : Blocks) × (free_entries left (ip.addrs ndirect) j m1 ≡ ok m2) × Freed sb ip m 140 m2
unfolding free_entries
free_entries-Freed zero j sb ip m m1 w z e f =
    let q : 12 + j ≡ 140 = omega (arith, e) in (m1, refl, subst (λ k. Freed sb ip m k m1) q f)
free_entries-Freed (suc left) j sb ip m m1 w z e f =
    let b = ip.addrs ndirect in
    let o = w.owned indirect (omega arith) z in
    let here : m1 b ≡ m b = f.others b (λ i h. let q = o.plain i h in ground (arith, q)) in
    let same : slot ip m (12 + j) ≡ uint_at (m1 b) (4 * j) =
      (let p : ltb (12 + j) ndirect ≡ false = ground arith in
        let q : (12 + j == indirect) ≡ false = ground (arith, e) in
        let x : 12 + j - 12 ≡ j = omega arith in rw (p, q, z, x, here) refl) in
    elim (Bool-cases (uint_at (m1 b) (4 * j) == 0)) [
      | inl y ↦
          let g = Freed-skip sb ip m (12 + j) m1 (ap (λ x. x == 0) same ∙ y) f in
          rw (y) (
            free_entries-Freed left (j + 1) sb ip m m1 w z (omega (arith, e))
              (subst (λ k. Freed sb ip m k m1) (omega arith) g))
      | inr y ↦
          let r =
            Freed-next sb ip m (12 + j) m1 w (omega (arith, e)) (ap (λ x. x == 0) same ∙ y) f in
          rw (y, ap (λ x. bfree x m1) (sym same) ∙ r.1)
            (free_entries-Freed left (j + 1) sb ip m r.0 w z (omega (arith, e))
              (subst (λ k. Freed sb ip m k r.0) (omega arith) r.2))
    ]
