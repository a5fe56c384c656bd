-- ===== src/Bio/Recycle.antt =====
-- bio.c: a buffer shared, and a buffer given another block.
use kernel_tracing.Prelude.{
  ℕ, ◌≤◌, ◌≡◌, refl, sym, subst, ap, ◌∙◌, inl, inr, true, false, some, arith, ◌==◌, ==_iff,
  Bool-cases, Option-cases,
}
use kernel_tracing.Bio.{Cache, holds, find_cached, is_free, shared, recycled, set_buf}
use kernel_tracing.Bio.View.{has, shown, content, IsCoherent}
use kernel_tracing.Bio.Found.{find_cached-some, find_cached-none}
use kernel_tracing.Bio.Coherent.{
  set_buf-SameCache, SameCache-IsCoherent, SameCache-content, content_cached, content_uncached,
}

-- Buffer i of c' is that of the block and in use, and the cache shows what c shows.
pub record Got (dev blockno i : ℕ) (c c' : Cache) : Type 0 where
  pub coherent : IsCoherent c'
  pub listed : has i c'.order ≡ true
  pub key : holds dev blockno (c'.buf i) ≡ true
  pub in_use : 1 ≤ (c'.buf i).refcnt
  pub keeps : (n : ℕ) → content c' n ≡ content c n

module _ (dev blockno i : ℕ) (c : Cache) (k : IsCoherent c) (m : has i c.order ≡ true) where
  pub shared-Got :
      holds dev blockno (c.buf i) ≡ true → Got dev blockno i c (set_buf i (shared (c.buf i)) c)
  shared-Got h =
      let c' : Cache = set_buf i (shared (c.buf i)) c in
      let s =
        set_buf-SameCache i (shared (c.buf i)) c
          (record { dev = refl; blockno = refl; valid = refl; dirty = refl; bytes = refl }) in
      let k' =
        SameCache-IsCoherent c c' s
          (λ j mj z. elim (Bool-cases (i == j)) [
            | inl e ↦ let z' = rw (e) at z in ground arith
            | inr e ↦ let z' = rw (e) at z in k.flushed j mj z'
          ])
          k in
      record {
        coherent = k';
        listed = m;
        key = ground (arith, h);
        in_use = ground arith;
        keeps = λ n. SameCache-content c c' n s k k';
      }

  module _ (free : is_free (c.buf i) ≡ true)
      (missing : (j : ℕ) → has j c.order ≡ true → holds dev blockno (c.buf j) ≡ false) where
    abbrev fresh : Cache
    fresh = set_buf i (recycled dev blockno (c.buf i)) c

    recycled-IsCoherent : IsCoherent fresh
    recycled-IsCoherent = record {
      whole = k.whole;
      unique = λ j l d n mj ml nz hj hl. elim (Bool-cases (i == j)) [
        | inl e ↦ elim (Bool-cases (i == l)) [
          | inl f ↦ ground (arith, e, f)
          | inr f ↦
              let hj' = rw (e) at hj in
              let hl' = rw (f) at hl in let no = missing l ml in ground (arith, hj', hl', no)
        ]
        | inr e ↦ elim (Bool-cases (i == l)) [
          | inl f ↦
              let hj' = rw (e) at hj in
              let hl' = rw (f) at hl in let no = missing j mj in ground (arith, hj', hl', no)
          | inr f ↦
              let hj' = rw (e) at hj in let hl' = rw (f) at hl in k.unique j l d n mj ml nz hj' hl'
        ]
      ];
      filled = λ j h. elim (Bool-cases (i == j)) [
        | inl e ↦ let h' = rw (e) at h in cc
        | inr e ↦ let h' = rw (e) at h in rw (e) (k.filled j h')
      ];
      flushed = λ j mj z. elim (Bool-cases (i == j)) [
        | inl e ↦ let z' = rw (e) at z in ground arith
        | inr e ↦ let z' = rw (e) at z in rw (e) (k.flushed j mj z')
      ];
    }

    -- The buffer that is taken shows nothing that the disk does not.
    evicted : (n : ℕ) → holds 1 n (c.buf i) ≡ true → shown (some i) c.buf (c.disk n) ≡ c.disk n
    evicted n h = elim (Bool-cases (c.buf i).valid) [
      | inl e ↦
          let q : (c.buf i).blockno ≡ n = ground (arith, h) in
          let f =
            k.flushed i m (ground (arith, free)) (ground (arith, h)) e (ground (arith, free)) in
          rw (e) (f ∙ ap c.disk q)
      | inr e ↦ rw (e) refl
    ]

    recycled-content : (n : ℕ) → content fresh n ≡ content c n
    recycled-content n =
        elim (Bool-cases (holds dev blockno (record (c.buf i) { dev = 1; blockno = n }))) [
          | inl e ↦
              content_cached fresh n i recycled-IsCoherent m (ground (arith, e))
              ∙ ground arith
              ∙ sym (content_uncached c n (λ j mj. let no = missing j mj in ground (arith, e, no)))
          | inr e ↦ elim (Option-cases (find_cached c.order 1 n c.buf)) [
            | inl f ↦
                let none_c = find_cached-none c.order 1 n c.buf f in
                content_uncached fresh n (λ j mj. elim (Bool-cases (i == j)) [
                  | inl g ↦ rw (g) (ground (arith, e))
                  | inr g ↦ rw (g) (none_c j mj)
                ])
                ∙ sym (content_uncached c n none_c)
            | inr (j, f) ↦
                let r = find_cached-some c.order 1 n c.buf f in
                elim (Bool-cases (i == j)) [
                  | inl g ↦
                      let q = (==_iff i j).0 g in
                      let h : holds 1 n (c.buf i) ≡ true =
                        subst (λ l. holds 1 n (c.buf l) ≡ true) (sym q) r.1 in
                      content_uncached fresh n (λ l ml. elim (Bool-cases (i == l)) [
                        | inl p ↦ rw (p) (ground (arith, e))
                        | inr p ↦ elim (Bool-cases (holds 1 n (c.buf l))) [
                          | inl t ↦
                              let w = k.unique i l 1 n m ml (λ z. ground arith) h t in
                              ground (arith, p, w)
                          | inr t ↦ rw (p) t
                        ]
                      ])
                      ∙ sym (evicted n h)
                      ∙ sym (content_cached c n i k m h)
                  | inr g ↦
                      content_cached fresh n j recycled-IsCoherent r.0 (rw (g) r.1)
                      ∙ rw (g) refl
                      ∙ sym (content_cached c n j k r.0 r.1)
                ]
          ]
        ]

    pub recycled-Got : Got dev blockno i c fresh
    recycled-Got = record {
      coherent = recycled-IsCoherent;
      listed = m;
      key = ground arith;
      in_use = ground arith;
      keeps = recycled-content;
    }
