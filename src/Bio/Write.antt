-- ===== src/Bio/Write.antt =====
-- bio.c and memide.c: bwrite puts the data of a buffer on the disk.
use kernel_tracing.Prelude.{
  ℕ, ◌≤◌, ◌≡◌, refl, sym, subst, ap, ◌∙◌, inl, inr, true, false, arith, ◌==◌, ==_iff, Bool-cases,
  Option-cases, update, ok, chain_ok,
}
use kernel_tracing.SleepLock.{SleepLock}
use kernel_tracing.Bio.{
  Cache, Data, holds, find_cached, set_buf, move_data, check_request, check_held, iderw, bwrite,
}
use kernel_tracing.Bio.View.{has, content, IsCoherent}
use kernel_tracing.Bio.Found.{find_cached-some, find_cached-none}
use kernel_tracing.Bio.Coherent.{
  SameCache, SameData-refl, SameCache-IsCoherent, SameCache-content, content_cached,
  content_uncached,
}
use kernel_tracing.Bio.Transfer.{set_lock, check_held_eq}

same : (n : ℕ) → (n == n) ≡ true
same n = (==_iff n n).1 refl

-- What a process writes to the data of buffer i.
abbrev pub edited : ℕ → Data → Cache → Cache
edited i d c = set_buf i (record (c.buf i) { bytes = d }) c

edited-holds :
    (i j dev blockno : ℕ) (d : Data) (c : Cache)
    → holds dev blockno ((edited i d c).buf j) ≡ holds dev blockno (c.buf j)
edited-holds i j dev blockno d c = elim (Bool-cases (i == j)) [
  | inl e ↦ rw (e) (ap (λ n. holds dev blockno (c.buf n)) ((==_iff i j).0 e))
  | inr e ↦ rw (e) refl
]

pub edited-IsCoherent :
    (i : ℕ) (d : Data) (c : Cache) → IsCoherent c → 1 ≤ (c.buf i).refcnt → IsCoherent (edited i d c)
edited-IsCoherent i d c k u = record {
  whole = k.whole;
  unique = λ j l dev n mj ml nz hj hl.
      k.unique j l dev n mj ml nz (sym (edited-holds i j dev n d c) ∙ hj)
        (sym (edited-holds i l dev n d c) ∙ hl);
  filled = λ j h. elim (Bool-cases (i == j)) [
    | inl e ↦ let h' = rw (e) at h in rw (e) (k.filled i h')
    | inr e ↦ let h' = rw (e) at h in rw (e) (k.filled j h')
  ];
  flushed = λ j mj z. elim (Bool-cases (i == j)) [
    | inl e ↦ let z' = rw (e) at z in ground (arith, u)
    | inr e ↦ let z' = rw (e) at z in rw (e) (k.flushed j mj z')
  ];
}

-- The data of buffer i stored in its block.
abbrev pub stored : ℕ → Cache → Cache
stored i c = record (set_buf i (record (c.buf i) { dirty = false; valid = true }) c) {
  disk = update c.disk (c.buf i).blockno (c.buf i).bytes;
}

module _ (i : ℕ) (c : Cache) (k : IsCoherent c) (m : has i c.order ≡ true)
    (one : (c.buf i).dev ≡ 1) where
  stored-holds :
      (j dev blockno : ℕ) → holds dev blockno ((stored i c).buf j) ≡ holds dev blockno (c.buf j)
  stored-holds j dev blockno = elim (Bool-cases (i == j)) [
    | inl e ↦ rw (e) (ap (λ n. holds dev blockno (c.buf n)) ((==_iff i j).0 e))
    | inr e ↦ rw (e) refl
  ]

  -- No other buffer has the block.
  alone :
      (j : ℕ)
      → has j c.order ≡ true
      → (i == j) ≡ false
      → (c.buf j).dev ≡ 1
      → ((c.buf i).blockno == (c.buf j).blockno) ≡ false
  alone j mj e dev = elim (Bool-cases ((c.buf i).blockno == (c.buf j).blockno)) [
    | inr f ↦ f
    | inl f ↦
        let q =
          k.unique i j 1 (c.buf i).blockno m mj (λ z. ground arith) (ground (arith, one))
            (ground (arith, dev, f)) in
        ground (arith, q, e)
  ]

  pub stored-IsCoherent : IsCoherent (stored i c)
  stored-IsCoherent = record {
    whole = k.whole;
    unique = λ j l d n mj ml nz hj hl.
        k.unique j l d n mj ml nz (sym (stored-holds j d n) ∙ hj) (sym (stored-holds l d n) ∙ hl);
    filled = λ j h. elim (Bool-cases (i == j)) [
      | inl e ↦ rw (e) refl
      | inr e ↦ let h' = rw (e) at h in rw (e) (k.filled j h')
    ];
    flushed = λ j mj z dev v w. elim (Bool-cases (i == j)) [
      | inl e ↦ rw (e, same (c.buf i).blockno) refl
      | inr e ↦
          let z' = rw (e) at z in
          let dev' = rw (e) at dev in
          let v' = rw (e) at v in
          let w' = rw (e) at w in rw (e, alone j mj e dev') (k.flushed j mj z' dev' v' w')
    ];
  }

  pub stored-content :
      (n : ℕ) → content (stored i c) n ≡ update (content c) (c.buf i).blockno (c.buf i).bytes n
  stored-content n = elim (Bool-cases ((c.buf i).blockno == n)) [
    | inl e ↦
        content_cached (stored i c) n i stored-IsCoherent m
          (stored-holds i 1 n ∙ ground (arith, one, e))
        ∙ rw (same i, e) refl
    | inr e ↦ elim (Option-cases (find_cached c.order 1 n c.buf)) [
      | inl f ↦
          let none_c = find_cached-none c.order 1 n c.buf f in
          content_uncached (stored i c) n (λ j mj. stored-holds j 1 n ∙ none_c j mj)
          ∙ rw (e) (sym (content_uncached c n none_c))
      | inr (j, f) ↦
          let r = find_cached-some c.order 1 n c.buf f in
          content_cached (stored i c) n j stored-IsCoherent r.0 (stored-holds j 1 n ∙ r.1)
          ∙ elim (Bool-cases (i == j)) [
            | inl g ↦
                let q : i ≡ j = (==_iff i j).0 g in
                let h : holds 1 n (c.buf i) ≡ true =
                  subst (λ x. holds 1 n (c.buf x) ≡ true) (sym q) r.1 in
                ground (arith, e, h)
            | inr g ↦ rw (g, e) (sym (content_cached c n j k r.0 r.1))
          ]
    ]
  ]

-- The disk holds the data of the buffer in its block, which is all that the cache shows otherwise.
pub record IsWritten (i : ℕ) (c c' : Cache) : Type 0 where
  pub coherent : IsCoherent c'
  pub on_disk : c'.disk (c.buf i).blockno ≡ (c.buf i).bytes
  pub clean : (c'.buf i).dirty ≡ false
  pub shows : (n : ℕ) → content c' n ≡ update (content c) (c.buf i).blockno (c.buf i).bytes n

-- B_DIRTY set
abbrev marked : ℕ → Cache → Cache
marked i c = set_buf i (record (c.buf i) { dirty = true }) c

-- What bwrite does, its locks included.
abbrev written : ℕ → SleepLock → SleepLock → Cache → Cache
written i l l' c = stored i (set_lock i l' (marked i (set_lock i l c)))

bwrite_eq :
    (i : ℕ) (c c' : Cache)
    → bwrite i c ≡ ok c'
    → ((c.buf i).dev ≡ 1) × (l : SleepLock) × (l' : SleepLock) × (written i l l' c ≡ c')
unfolding bwrite iderw check_request move_data
bwrite_eq i c c' h =
    let (c1, a, b) = chain_ok (check_held "bwrite" i c) _ h in
    let (l, q) = check_held_eq _ i c c1 a in
    let b' : iderw i (marked i (set_lock i l c)) ≡ ok c' =
      subst (λ x. iderw i (marked i x) ≡ ok c') (sym q) b in
    let (c2, d, e) =
      chain_ok (check_held "iderw: buf not locked" i (marked i (set_lock i l c))) _ b' in
    let (l', r) = check_held_eq _ i (marked i (set_lock i l c)) c2 d in
    let e' : check_request i (set_lock i l' (marked i (set_lock i l c))) ≡ ok c' =
      subst (λ x. check_request i x ≡ ok c') (sym r) e in
    (ground (arith, e'), l, l', ground (arith, e'))

written-SameCache :
    (i : ℕ) (l l' : SleepLock) (c : Cache) → SameCache (stored i c) (written i l l' c)
written-SameCache i l l' c = record {
  list = λ j. refl;
  data_of = λ j. elim (Bool-cases (i == j)) [
    | inl e ↦
        rw (e, same i)
          (record { dev = refl; blockno = refl; valid = refl; dirty = refl; bytes = refl })
    | inr e ↦ rw (e) (SameData-refl (c.buf j))
  ];
  disk = λ n. rw (same i) refl;
}

written-refcnt :
    (i j : ℕ) (l l' : SleepLock) (c : Cache)
    → ((written i l l' c).buf j).refcnt ≡ ((stored i c).buf j).refcnt
written-refcnt i j l l' c = elim (Bool-cases (i == j)) [
  | inl e ↦ rw (e, same i) refl
  | inr e ↦ rw (e) refl
]

-- bwrite puts the data of a buffer on the disk in the buffer's block and in no other, and leaves
-- the buffer clean; the cache then shows these data for the block and every other block as before.
pub bwrite-IsWritten :
    (i : ℕ) (c c' : Cache)
    → IsCoherent c
    → has i c.order ≡ true
    → bwrite i c ≡ ok c'
    → IsWritten i c c'
bwrite-IsWritten i c c' k m h =
    let (one, l, l', q) = bwrite_eq i c c' h in
    let s = written-SameCache i l l' c in
    let k1 = stored-IsCoherent i c k m one in
    let k2 =
      SameCache-IsCoherent (stored i c) (written i l l' c) s
        (λ j mj z. k1.flushed j mj (sym (written-refcnt i j l l' c) ∙ z)) k1 in
    subst (IsWritten i c) q (record {
      coherent = k2;
      on_disk = rw (same i, same (c.buf i).blockno) refl;
      clean = rw (same i) refl;
      shows = λ n.
          SameCache-content (stored i c) (written i l l' c) n s k1 k2
          ∙ stored-content i c k m one n;
    })
