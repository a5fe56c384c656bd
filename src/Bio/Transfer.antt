-- ===== src/Bio/Transfer.antt =====
-- bio.c and memide.c: the buffer's lock, and a buffer filled from the disk.
use kernel_tracing.Prelude.{
  ℕ, String, ◌≡◌, refl, sym, subst, ap, ◌∙◌, inl, inr, true, false, arith, ◌==◌, ==_iff, Bool-cases,
  Option-cases, ok,
}
use kernel_tracing.Prelude.{ok_injective, chain_ok}
use kernel_tracing.SleepLock.{SleepLock, holdingsleep}
use kernel_tracing.Bio.{Cache, holds, find_cached, set_buf, check_held}
use kernel_tracing.Bio.View.{has, content, IsCoherent}
use kernel_tracing.Bio.Found.{find_cached-some, find_cached-none}
use kernel_tracing.Bio.Coherent.{
  SameCache, set_buf-SameCache, SameCache-IsCoherent, content_cached, content_uncached,
}

abbrev pub set_lock : ℕ → SleepLock → Cache → Cache
set_lock i l c = set_buf i (record (c.buf i) { lock = l }) c

pub set_lock-SameCache : (i : ℕ) (l : SleepLock) (c : Cache) → SameCache c (set_lock i l c)
set_lock-SameCache i l c =
    set_buf-SameCache i (record (c.buf i) { lock = l }) c
      (record { dev = refl; blockno = refl; valid = refl; dirty = refl; bytes = refl })

pub set_lock-refcnt :
    (i j : ℕ) (l : SleepLock) (c : Cache) → ((set_lock i l c).buf j).refcnt ≡ (c.buf j).refcnt
set_lock-refcnt i j l c = elim (Bool-cases (i == j)) [
  | inl e ↦ rw (e) (ap (λ n. (c.buf n).refcnt) ((==_iff i j).0 e))
  | inr e ↦ rw (e) refl
]

pub set_lock-IsCoherent :
    (i : ℕ) (l : SleepLock) (c : Cache) → IsCoherent c → IsCoherent (set_lock i l c)
set_lock-IsCoherent i l c k =
    SameCache-IsCoherent c (set_lock i l c) (set_lock-SameCache i l c)
      (λ j m z. k.flushed j m (sym (set_lock-refcnt i j l c) ∙ z)) k

pub check_held_eq :
    (message : String) (i : ℕ) (c c' : Cache)
    → check_held message i c ≡ ok c'
    → (l : SleepLock) × (set_lock i l c ≡ c')
unfolding check_held
check_held_eq message i c c' h =
    let (r, a, b) = chain_ok (holdingsleep (c.buf i).lock) _ h in
    elim (Bool-cases r.0) [
      | inl e ↦ let b' = rw (e) at b in (r.1, ok_injective b')
      | inr e ↦ let b' = rw (e) at b in cc
    ]

-- Buffer i filled from the disk.
abbrev pub loaded : ℕ → Cache → Cache
loaded i c = set_buf i (record (c.buf i) { bytes = c.disk (c.buf i).blockno; valid = true }) c

module _ (i : ℕ) (c : Cache) (k : IsCoherent c) (m : has i c.order ≡ true)
    (v : (c.buf i).valid ≡ false) where
  pub loaded-holds :
      (j dev blockno : ℕ) → holds dev blockno ((loaded i c).buf j) ≡ holds dev blockno (c.buf j)
  loaded-holds j dev blockno = elim (Bool-cases (i == j)) [
    | inl e ↦ rw (e) (ap (λ n. holds dev blockno (c.buf n)) ((==_iff i j).0 e))
    | inr e ↦ rw (e) refl
  ]

  pub loaded-IsCoherent : IsCoherent (loaded i c)
  loaded-IsCoherent = record {
    whole = k.whole;
    unique = λ j l d n mj ml nz hj hl.
        k.unique j l d n mj ml nz (sym (loaded-holds j d n) ∙ hj) (sym (loaded-holds l d n) ∙ hl);
    filled = λ j h. elim (Bool-cases (i == j)) [
      | inl e ↦ rw (e) refl
      | inr e ↦ let h' = rw (e) at h in rw (e) (k.filled j h')
    ];
    flushed = λ j mj z. elim (Bool-cases (i == j)) [
      | inl e ↦ rw (e) (λ _ _ _. refl)
      | inr e ↦ let z' = rw (e) at z in rw (e) (k.flushed j mj z')
    ];
  }

  pub loaded-content : (n : ℕ) → content (loaded i c) n ≡ content c n
  loaded-content n = elim (Option-cases (find_cached c.order 1 n c.buf)) [
    | inl f ↦
        let none_c = find_cached-none c.order 1 n c.buf f in
        content_uncached (loaded i c) n (λ j mj. loaded-holds j 1 n ∙ none_c j mj)
        ∙ sym (content_uncached c n none_c)
    | inr (j, f) ↦
        let r = find_cached-some c.order 1 n c.buf f in
        content_cached (loaded i c) n j loaded-IsCoherent r.0 (loaded-holds j 1 n ∙ r.1)
        ∙ elim (Bool-cases (i == j)) [
          | inl e ↦
              let q : i ≡ j = (==_iff i j).0 e in
              let b : (c.buf j).blockno ≡ n = ground (arith, r.1) in
              let w : (c.buf j).valid ≡ false = subst (λ x. (c.buf x).valid ≡ false) q v in
              rw (e, q, w, b) refl
          | inr e ↦ rw (e) refl
        ]
        ∙ sym (content_cached c n j k r.0 r.1)
  ]
