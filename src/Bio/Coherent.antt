-- ===== src/Bio/Coherent.antt =====
-- bio.c: changes of the cache that leave the data, the blocks and the disk what they are.
use kernel_tracing.Prelude.{
  ℕ, ◌≡◌, refl, sym, subst, ap, ◌∙◌, inl, inr, true, false, some, arith, ◌==◌, ==_iff, Bool-cases,
  Option-cases,
}
use kernel_tracing.Bio.{Buf, Cache, holds, find_cached, set_buf}
use kernel_tracing.Bio.View.{has, shown, content, IsFlushed, IsCoherent}
use kernel_tracing.Bio.Found.{
  find_cached-some, find_cached-none, find_cached_missing, find_cached_unique,
}

pub record SameData (b b' : Buf) : Type 0 where
  pub dev : b'.dev ≡ b.dev
  pub blockno : b'.blockno ≡ b.blockno
  pub valid : b'.valid ≡ b.valid
  pub dirty : b'.dirty ≡ b.dirty
  pub bytes : b'.bytes ≡ b.bytes

-- Up to the locks, the counts and the place of a buffer in the list.
pub record SameCache (c c' : Cache) : Type 0 where
  pub list : (i : ℕ) → has i c'.order ≡ has i c.order
  pub data_of : (i : ℕ) → SameData (c.buf i) (c'.buf i)
  pub disk : (n : ℕ) → c'.disk n ≡ c.disk n

pub SameData-refl : (b : Buf) → SameData b b
SameData-refl b = record { dev = refl; blockno = refl; valid = refl; dirty = refl; bytes = refl }

pub SameCache-trans : (c d e : Cache) → SameCache c d → SameCache d e → SameCache c e
SameCache-trans c d e s t = record {
  list = λ i. t.list i ∙ s.list i;
  data_of = λ i.
      let p = s.data_of i in
      let q = t.data_of i in
      record {
        dev = q.dev ∙ p.dev;
        blockno = q.blockno ∙ p.blockno;
        valid = q.valid ∙ p.valid;
        dirty = q.dirty ∙ p.dirty;
        bytes = q.bytes ∙ p.bytes;
      };
  disk = λ n. t.disk n ∙ s.disk n;
}

pub set_buf-SameCache :
    (i : ℕ) (b : Buf) (c : Cache) → SameData (c.buf i) b → SameCache c (set_buf i b c)
set_buf-SameCache i b c s = record {
  list = λ j. refl;
  data_of = λ j. elim (Bool-cases (i == j)) [
    | inl e ↦ rw (e) (subst (λ k. SameData (c.buf k) b) ((==_iff i j).0 e) s)
    | inr e ↦ rw (e) (SameData-refl (c.buf j))
  ];
  disk = λ n. refl;
}

pub holds-SameData :
    (dev blockno : ℕ) (b b' : Buf) → SameData b b' → holds dev blockno b' ≡ holds dev blockno b
holds-SameData dev blockno b b' s = rw (s.dev, s.blockno) refl

-- The content of a block that has a buffer, and of one that has none.
pub content_cached :
    (c : Cache) (blockno i : ℕ)
    → IsCoherent c
    → has i c.order ≡ true
    → holds 1 blockno (c.buf i) ≡ true
    → content c blockno ≡ shown (some i) c.buf (c.disk blockno)
content_cached c blockno i s m h =
    rw (find_cached_unique c 1 blockno i s (λ e. ground arith) m h) refl

pub content_uncached :
    (c : Cache) (blockno : ℕ)
    → ((i : ℕ) → has i c.order ≡ true → holds 1 blockno (c.buf i) ≡ false)
    → content c blockno ≡ c.disk blockno
content_uncached c blockno h = rw (find_cached_missing c.order 1 blockno c.buf h) refl

-- A change that keeps the data is coherent if the buffers then unused may be.
pub SameCache-IsCoherent :
    (c c' : Cache)
    → SameCache c c'
    → ((i : ℕ) → has i c.order ≡ true → (c'.buf i).refcnt ≡ 0 → IsFlushed c i)
    → IsCoherent c
    → IsCoherent c'
SameCache-IsCoherent c c' s free k = record {
  whole = λ i. s.list i ∙ k.whole i;
  unique = λ i j dev blockno m n d h g.
      k.unique i j dev blockno (sym (s.list i) ∙ m) (sym (s.list j) ∙ n) d
        (sym (holds-SameData dev blockno (c.buf i) (c'.buf i) (s.data_of i)) ∙ h)
        (sym (holds-SameData dev blockno (c.buf j) (c'.buf j) (s.data_of j)) ∙ g);
  filled = λ i h. let d = s.data_of i in d.valid ∙ k.filled i (sym d.dirty ∙ h);
  flushed = λ i m z dev v w.
      let d = s.data_of i in
      d.bytes
      ∙ free i (sym (s.list i) ∙ m) z (sym d.dev ∙ dev) (sym d.valid ∙ v) (sym d.dirty ∙ w)
      ∙ sym (ap c.disk d.blockno)
      ∙ sym (s.disk (c'.buf i).blockno);
}

pub SameCache-content :
    (c c' : Cache) (blockno : ℕ)
    → SameCache c c'
    → IsCoherent c
    → IsCoherent c'
    → content c' blockno ≡ content c blockno
SameCache-content c c' blockno s k k' = elim (Option-cases (find_cached c.order 1 blockno c.buf)) [
  | inl e ↦
      content_uncached c' blockno (λ i m.
        holds-SameData 1 blockno (c.buf i) (c'.buf i) (s.data_of i)
        ∙ find_cached-none c.order 1 blockno c.buf e i (sym (s.list i) ∙ m))
      ∙ s.disk blockno
      ∙ sym (content_uncached c blockno (find_cached-none c.order 1 blockno c.buf e))
  | inr (i, e) ↦
      let r = find_cached-some c.order 1 blockno c.buf e in
      let d = s.data_of i in
      content_cached c' blockno i k' (s.list i ∙ r.0)
        (holds-SameData 1 blockno (c.buf i) (c'.buf i) d ∙ r.1)
      ∙ rw (d.valid, d.bytes, s.disk blockno) refl
      ∙ sym (content_cached c blockno i k r.0 r.1)
]
