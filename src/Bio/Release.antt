-- ===== src/Bio/Release.antt =====
-- bio.c: brelse, and the cache that binit builds.
use kernel_tracing.Prelude.{
  ℕ, ◌≡◌, refl, sym, subst, ap, ◌∙◌, inl, inr, Bool, true, false, List, [], ◌∷◌, arith, ◌==◌,
  if◌then◌else◌, ==_iff, Bool-cases, ok, chain_ok, ok_injective,
}
use kernel_tracing.SleepLock.{SleepLock, releasesleep}
use kernel_tracing.Spin.{acquire, release}
use kernel_tracing.Bio.{Cache, check_held, brelse, drop_buf, one_less, remove}
use kernel_tracing.Bio.View.{has, content, IsFlushed, IsCoherent}
use kernel_tracing.Bio.Coherent.{
  SameCache, set_buf-SameCache, SameCache-IsCoherent, SameCache-content,
}
use kernel_tracing.Bio.Get.{relock-IsCoherent, relock-content}
use kernel_tracing.Bio.Transfer.{
  set_lock, set_lock-SameCache, set_lock-refcnt, set_lock-IsCoherent, check_held_eq,
}

has-remove : (i j : ℕ) (l : List ℕ) → (i == j) ≡ false → has j (remove i l) ≡ has j l
unfolding remove has
has-remove i j [] e = refl
has-remove i j (x ∷ l) e =
    let rest = has-remove i j l e in
    elim (Bool-cases (i == x)) [
      | inl f ↦ rw (f) (let q = (==_iff i x).0 f in ground (arith, e, q))
      | inr f ↦ rw (f) (ground (arith, rest))
    ]

has-front : (i j : ℕ) (l : List ℕ) → has i l ≡ true → has j (i ∷ remove i l) ≡ has j l
unfolding has
has-front i j l m = elim (Bool-cases (i == j)) [
  | inl e ↦ rw (e) (sym (subst (λ x. has x l ≡ true) ((==_iff i j).0 e) m))
  | inr e ↦ rw (e) (has-remove i j l e)
]

drop_buf-SameCache : (i : ℕ) (c : Cache) → has i c.order ≡ true → SameCache c (drop_buf i c)
unfolding drop_buf
drop_buf-SameCache i c m =
    let n = one_less (c.buf i).refcnt in
    let s =
      set_buf-SameCache i (record (c.buf i) { refcnt = n }) c
        (record { dev = refl; blockno = refl; valid = refl; dirty = refl; bytes = refl }) in
    elim (Bool-cases (n == 0)) [
      | inl e ↦
          rw (e)
            (record { list = λ j. has-front i j c.order m; data_of = s.data_of; disk = s.disk })
      | inr e ↦ rw (e) s
    ]

drop_buf-refcnt :
    (i j : ℕ) (c : Cache)
    → ((drop_buf i c).buf j).refcnt
      ≡ (if i == j then one_less (c.buf i).refcnt else (c.buf j).refcnt)
unfolding drop_buf
drop_buf-refcnt i j c = elim (Bool-cases (one_less (c.buf i).refcnt == 0)) [
  | inl e ↦ rw (e) (elim (Bool-cases (i == j)) [ inl f ↦ rw (f) refl | inr f ↦ rw (f) refl ])
  | inr e ↦ rw (e) (elim (Bool-cases (i == j)) [ inl f ↦ rw (f) refl | inr f ↦ rw (f) refl ])
]

drop_buf-order :
    (i : ℕ) (c : Cache)
    → (drop_buf i c).order
      ≡ (if one_less (c.buf i).refcnt == 0 then i ∷ remove i c.order else c.order)
unfolding drop_buf
drop_buf-order i c = elim (Bool-cases (one_less (c.buf i).refcnt == 0)) [
  | inl e ↦ rw (e) refl
  | inr e ↦ rw (e) refl
]

-- What brelse leaves: one reference less, the buffer in front if it was the last, the same data.
pub record IsReleased (i : ℕ) (c c' : Cache) : Type 0 where
  pub coherent : IsCoherent c'
  pub refcnt : (c'.buf i).refcnt ≡ one_less (c.buf i).refcnt
  pub order : c'.order ≡ (if one_less (c.buf i).refcnt == 0 then i ∷ remove i c.order else c.order)
  pub keeps : (n : ℕ) → content c' n ≡ content c n

drop_buf-IsReleased :
    (i : ℕ) (c : Cache)
    → IsCoherent c
    → has i c.order ≡ true
    → IsFlushed c i
    → IsReleased i c (drop_buf i c)
drop_buf-IsReleased i c k m f =
    let s = drop_buf-SameCache i c m in
    let k' =
      SameCache-IsCoherent c (drop_buf i c) s
        (λ j mj z.
          let z' = sym (drop_buf-refcnt i j c) ∙ z in
          elim (Bool-cases (i == j)) [
            | inl e ↦ subst (IsFlushed c) ((==_iff i j).0 e) f
            | inr e ↦ let z2 = rw (e) at z' in k.flushed j mj z2
          ])
        k in
    record {
      coherent = k';
      refcnt = drop_buf-refcnt i i c ∙ rw ((==_iff i i).1 refl) refl;
      order = drop_buf-order i c;
      keeps = λ n. SameCache-content c (drop_buf i c) n s k k';
    }

-- brelse without its locks
abbrev released : ℕ → (x y : Bool) → SleepLock → SleepLock → Cache → Cache
released i x y l l' c = record (drop_buf i (record (set_lock i l' (set_lock i l c)) { lock = x })) {
  lock = y;
}

brelse_eq :
    (i : ℕ) (c c' : Cache)
    → brelse i c ≡ ok c'
    → (x : Bool) × (y : Bool) × (l : SleepLock) × (l' : SleepLock) × (released i x y l l' c ≡ c')
unfolding brelse
brelse_eq i c c' h =
    let (c1, a, b) = chain_ok (check_held "brelse" i c) _ h in
    let (l, q) = check_held_eq _ i c c1 a in
    let (l', d, e) = chain_ok (releasesleep (c1.buf i).lock) _ b in
    let (x, f, g) = chain_ok (acquire c1.lock) _ e in
    let (y, u, v) =
      chain_ok (release (drop_buf i (record (set_lock i l' c1) { lock = x })).lock) _ g in
    (
      x,
      y,
      l,
      l',
      subst (λ z. record (drop_buf i (record (set_lock i l' z) { lock = x })) { lock = y } ≡ c')
          (sym q) (ok_injective v),
    )

-- brelse of a buffer whose data are on the disk, or marked dirty, takes one reference off, puts
-- the buffer in front of the list where that was the last one, and loses no data: the cache stays
-- coherent and shows of every block what it showed before.
pub brelse-IsReleased :
    (i : ℕ) (c c' : Cache)
    → IsCoherent c
    → has i c.order ≡ true
    → IsFlushed c i
    → brelse i c ≡ ok c'
    → IsReleased i c c'
brelse-IsReleased i c c' k m f h =
    let (x, y, l, l', q) = brelse_eq i c c' h in
    let c1 : Cache = set_lock i l c in
    let c2 : Cache = set_lock i l' c1 in
    let c3 : Cache = record c2 { lock = x } in
    let s1 = set_lock-SameCache i l c in
    let s2 = set_lock-SameCache i l' c1 in
    let k1 = set_lock-IsCoherent i l c k in
    let k2 = set_lock-IsCoherent i l' c1 k1 in
    let k3 = relock-IsCoherent x c2 k2 in
    let d : IsFlushed c3 i = ground (arith, f) in
    let g = drop_buf-IsReleased i c3 k3 m d in
    let n : (c3.buf i).refcnt ≡ (c.buf i).refcnt =
      set_lock-refcnt i i l' c1 ∙ set_lock-refcnt i i l c in
    subst (IsReleased i c) q (record {
      coherent = relock-IsCoherent y (drop_buf i c3) g.coherent;
      refcnt = g.refcnt ∙ ap one_less n;
      order = g.order ∙ ap (λ z. if one_less z == 0 then i ∷ remove i c.order else c.order) n;
      keeps = λ j.
          relock-content y (drop_buf i c3) j g.coherent
          ∙ g.keeps j
          ∙ relock-content x c2 j k2
          ∙ SameCache-content c1 c2 j s2 k1 k2
          ∙ SameCache-content c c1 j s1 k k1;
    })
