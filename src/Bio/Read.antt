-- ===== src/Bio/Read.antt =====
-- bio.c and memide.c: bread gives what the cache shows of a block.
use kernel_tracing.Prelude.{
  ℕ, ◌≡◌, refl, sym, subst, ap, ◌∙◌, inl, inr, true, false, some, arith, Bool-cases, ok, chain_ok,
  ok_injective,
}
use mathlib.Core.Option.{some-injective}
use kernel_tracing.SleepLock.{SleepLock, acquiresleep}
use kernel_tracing.Bio.{
  Cache, holds, move_data, check_request, check_held, iderw, bread_locked, lock_buf, fill, bread,
  bget,
}
use kernel_tracing.Bio.View.{has, content, IsCoherent}
use kernel_tracing.Bio.Coherent.{SameCache-content, holds-SameData, content_cached}
use kernel_tracing.Bio.Get.{bget-Got}
use kernel_tracing.Bio.Transfer.{
  set_lock, set_lock-SameCache, set_lock-IsCoherent, check_held_eq, loaded, loaded-IsCoherent,
  loaded-content,
}

-- Buffer i of c' holds the block with the data that c shows of it, and every block is as in c.
pub record IsRead (blockno i : ℕ) (c c' : Cache) : Type 0 where
  pub coherent : IsCoherent c'
  pub listed : has i c'.order ≡ true
  pub key : holds 1 blockno (c'.buf i) ≡ true
  pub valid : (c'.buf i).valid ≡ true
  pub bytes : (c'.buf i).bytes ≡ content c blockno
  pub keeps : (n : ℕ) → content c' n ≡ content c n

-- iderw of a buffer without valid data.
iderw_eq :
    (i : ℕ) (c c' : Cache)
    → (c.buf i).valid ≡ false
    → (c.buf i).dirty ≡ false
    → iderw i c ≡ ok c'
    → (l : SleepLock) × (loaded i (set_lock i l c) ≡ c')
unfolding iderw check_request move_data
iderw_eq i c c' v d h =
    let (c1, a, b) = chain_ok (check_held "iderw: buf not locked" i c) _ h in
    let (l, q) = check_held_eq _ i c c1 a in
    let b' : check_request i (set_lock i l c) ≡ ok c' =
      subst (λ x. check_request i x ≡ ok c') (sym q) b in
    (l, ground (arith, b', v, d))

shown_valid :
    (c : Cache) (blockno i : ℕ)
    → IsCoherent c
    → has i c.order ≡ true
    → holds 1 blockno (c.buf i) ≡ true
    → (c.buf i).valid ≡ true
    → (c.buf i).bytes ≡ content c blockno
shown_valid c blockno i k m h v = rw (content_cached c blockno i k m h, v) refl

bread_locked-IsRead :
    (blockno i : ℕ) (c c' : Cache)
    → IsCoherent c
    → has i c.order ≡ true
    → holds 1 blockno (c.buf i) ≡ true
    → bread_locked i c ≡ ok c'
    → IsRead blockno i c c'
unfolding bread_locked
bread_locked-IsRead blockno i c c' k m h r = elim (Bool-cases (c.buf i).valid) [
  | inl e ↦
      let r' = rw (e) at r in
      subst (IsRead blockno i c) (ok_injective r') (record {
        coherent = k;
        listed = m;
        key = h;
        valid = e;
        bytes = shown_valid c blockno i k m h e;
        keeps = λ n. refl;
      })
  | inr e ↦
      let r' = rw (e) at r in
      let d : (c.buf i).dirty ≡ false = elim (Bool-cases (c.buf i).dirty) [
        | inl f ↦ let w = k.filled i f in cc
        | inr f ↦ f
      ] in
      let (l, q) = iderw_eq i c c' e d r' in
      let s = set_lock-SameCache i l c in
      let k1 = set_lock-IsCoherent i l c k in
      let v1 : ((set_lock i l c).buf i).valid ≡ false = ground (arith, e) in
      let k2 = loaded-IsCoherent i (set_lock i l c) k1 m v1 in
      let keeps : (n : ℕ) → content (loaded i (set_lock i l c)) n ≡ content c n = λ n.
        loaded-content i (set_lock i l c) k1 m v1 n
        ∙ SameCache-content c (set_lock i l c) n s k k1 in
      let h2 : holds 1 blockno ((loaded i (set_lock i l c)).buf i) ≡ true = ground (arith, h) in
      subst (IsRead blockno i c) q (record {
        coherent = k2;
        listed = m;
        key = h2;
        valid = ground arith;
        bytes =
            shown_valid (loaded i (set_lock i l c)) blockno i k2 m h2 (ground arith)
            ∙ keeps blockno;
        keeps = keeps;
      })
]

-- The buffer that bread returns holds the block with valid data, and these are what the cache
-- showed of the block before; every other block is shown as before, and the cache stays coherent.
pub bread-IsRead :
    (pid blockno i : ℕ) (c c' : Cache)
    → IsCoherent c
    → bread pid 1 blockno c ≡ ok (some i, c')
    → IsRead blockno i c c'
unfolding bread lock_buf fill
bread-IsRead pid blockno i c c' k h =
    let (r, a, s) = chain_ok (bget 1 blockno c) _ h in
    let g = bget-Got 1 blockno r.0 c r.1 k a in
    let (t, b, u) = chain_ok (lock_buf pid r.0 r.1) _ s in
    let (z, d, e) = chain_ok (acquiresleep pid (r.1.buf r.0).lock) _ b in
    let q : (z.0, set_lock r.0 z.1 r.1) ≡ t = ok_injective e in
    let c1 : Cache = set_lock r.0 z.1 r.1 in
    let u' : fill z.0 r.0 c1 ≡ ok (some i, c') =
      subst (λ p. fill p.0 r.0 p.1 ≡ ok (some i, c')) (sym q) u in
    elim (Bool-cases z.0) [
      | inr f ↦ let u2 = rw (f) at u' in cc
      | inl f ↦
          let u2 = rw (f) at u' in
          let (c2, v, w) = chain_ok (bread_locked r.0 c1) _ u2 in
          let p : (some r.0, c2) ≡ (some i, c') = ok_injective w in
          let p1 : r.0 ≡ i = some-injective r.0 i (ap (λ x. x.0) p) in
          let p2 : c2 ≡ c' = ap (λ x. x.1) p in
          let s1 = set_lock-SameCache r.0 z.1 r.1 in
          let k1 = set_lock-IsCoherent r.0 z.1 r.1 g.coherent in
          let h1 = holds-SameData 1 blockno (r.1.buf r.0) (c1.buf r.0) (s1.data_of r.0) ∙ g.key in
          let o = bread_locked-IsRead blockno r.0 c1 c2 k1 g.listed h1 v in
          let back : (n : ℕ) → content c1 n ≡ content c n =
            λ n. SameCache-content r.1 c1 n s1 g.coherent k1 ∙ g.keeps n in
          subst (λ x. IsRead blockno x c c') p1
            (subst (IsRead blockno r.0 c) p2 (record {
              coherent = o.coherent;
              listed = o.listed;
              key = o.key;
              valid = o.valid;
              bytes = o.bytes ∙ back blockno;
              keeps = λ n. o.keeps n ∙ back n;
            }))
    ]
