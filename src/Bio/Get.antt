-- ===== src/Bio/Get.antt =====
-- bio.c: bget gives the one buffer of a block and loses no data.
use kernel_tracing.Prelude.{
  ℕ, String, ◌≡◌, refl, sym, subst, ◌∙◌, inl, inr, Bool, true, false, Option-cases, ok, panic,
}
use kernel_tracing.Prelude.{ok_injective, chain_ok}
use mathlib.Core.List.{reverse}
use kernel_tracing.Spin.{acquire, release}
use kernel_tracing.Bio.{
  Cache, holds, find_cached, find_clean, is_free, shared, recycled, recycle, choose, bget, set_buf,
}
use kernel_tracing.Bio.View.{has, content, IsCoherent}
use kernel_tracing.Bio.Recycle.{Got, shared-Got, recycled-Got}
use kernel_tracing.Bio.Found.{
  find_cached-some, find_cached-none, find_clean-some, find_clean-none, has-reverse,
}
use kernel_tracing.Bio.Coherent.{SameCache, SameData-refl, SameCache-IsCoherent, SameCache-content}

-- The cache's own lock plays no part in that.
pub relock-SameCache : (x : Bool) (c : Cache) → SameCache c (record c { lock = x })
relock-SameCache x c = record {
  list = λ i. refl;
  data_of = λ i. SameData-refl (c.buf i);
  disk = λ n. refl;
}

pub relock-IsCoherent : (x : Bool) (c : Cache) → IsCoherent c → IsCoherent (record c { lock = x })
relock-IsCoherent x c k =
    SameCache-IsCoherent c (record c { lock = x }) (relock-SameCache x c) k.flushed k

pub relock-content :
    (x : Bool) (c : Cache) (n : ℕ) → IsCoherent c → content (record c { lock = x }) n ≡ content c n
relock-content x c n k =
    SameCache-content c (record c { lock = x }) n (relock-SameCache x c) k (relock-IsCoherent x c k)

relock-Got :
    (x y : Bool) (dev blockno i : ℕ) (c c' : Cache)
    → IsCoherent c
    → Got dev blockno i (record c { lock = x }) c'
    → Got dev blockno i c (record c' { lock = y })
relock-Got x y dev blockno i c c' k g = record {
  coherent = relock-IsCoherent y c' g.coherent;
  listed = g.listed;
  key = g.key;
  in_use = g.in_use;
  keeps = λ n. relock-content y c' n g.coherent ∙ g.keeps n ∙ relock-content x c n k;
}

choose-Got :
    (dev blockno i : ℕ) (c c' : Cache)
    → IsCoherent c
    → choose dev blockno (find_cached c.order dev blockno c.buf) c ≡ ok (i, c')
    → Got dev blockno i c c'
unfolding choose recycle
choose-Got dev blockno i c c' k h = elim (Option-cases (find_cached c.order dev blockno c.buf)) [
  | inr (j, e) ↦
      let h' = rw (e) at h in
      let r = find_cached-some c.order dev blockno c.buf e in
      let q : (j, set_buf j (shared (c.buf j)) c) ≡ (i, c') = ok_injective h' in
      subst (λ p. Got dev blockno p.0 c p.1) q (shared-Got dev blockno j c k r.0 r.1)
  | inl e ↦
      let h' = rw (e) at h in
      elim (Option-cases (find_clean (reverse c.order) c.buf)) [
        | inl f ↦ let h'' = rw (f) at h' in cc
        | inr (j, f) ↦
            let h'' = rw (f) at h' in
            let r = find_clean-some (reverse c.order) c.buf f in
            let q : (j, set_buf j (recycled dev blockno (c.buf j)) c) ≡ (i, c') =
              ok_injective h'' in
            subst (λ p. Got dev blockno p.0 c p.1) q
              (recycled-Got dev blockno j c k (sym (has-reverse j c.order) ∙ r.0) r.1
                (find_cached-none c.order dev blockno c.buf e))
      ]
]

-- The buffer that bget returns is in use and holds the block; what the cache shows of every block
-- is what it showed before, also where a buffer changed its block; the cache stays coherent.
pub bget-Got :
    (dev blockno i : ℕ) (c c' : Cache)
    → IsCoherent c
    → bget dev blockno c ≡ ok (i, c')
    → Got dev blockno i c c'
unfolding bget
bget-Got dev blockno i c c' k h =
    let (held, a, s) = chain_ok (acquire c.lock) _ h in
    let (r, b, t) =
      chain_ok
        (choose dev blockno (find_cached c.order dev blockno c.buf) (record c { lock = held })) _
        s in
    let (free, d, u) = chain_ok (release r.1.lock) _ t in
    let q : (r.0, record r.1 { lock = free }) ≡ (i, c') = ok_injective u in
    subst (λ p. Got dev blockno p.0 c p.1) q
      (relock-Got held free dev blockno r.0 c r.1 k
        (choose-Got dev blockno r.0 (record c { lock = held }) r.1 (relock-IsCoherent held c k) b))

-- bget, called without the lock of the cache, panics only where no buffer holds the block and each
-- is in use or has data that are not yet on the disk.
pub bget-panic :
    (dev blockno i : ℕ) (c : Cache) {message : String}
    → c.lock ≡ false
    → bget dev blockno c ≡ panic message
    → has i c.order ≡ true
    → (holds dev blockno (c.buf i) ≡ false) × (is_free (c.buf i) ≡ false)
unfolding bget choose recycle
bget-panic dev blockno i c l h m =
    let h' = rw (l) at h in
    elim (Option-cases (find_cached c.order dev blockno c.buf)) [
      | inr (j, e) ↦ let h'' = rw (e) at h' in cc
      | inl e ↦
          let h'' = rw (e) at h' in
          elim (Option-cases (find_clean (reverse c.order) c.buf)) [
            | inr (j, f) ↦ let h3 = rw (f) at h'' in cc
            | inl f ↦ (
              find_cached-none c.order dev blockno c.buf e i m,
              find_clean-none (reverse c.order) c.buf f i (has-reverse i c.order ∙ m),
            )
          ]
    ]
