-- ===== src/Fs/Icache/Held.antt =====
-- In every state that iget, idup and iput lead to, the count of an entry is the number of references
-- to it, and no two entries have the same inode.
use kernel_tracing.Prelude.{
  ℕ, ◌+◌, ◌-◌, ◌<◌, ◌≡◌, refl, sym, subst, ap, ◌∙◌, inl, inr, Bool, true, false, ◌&&◌, arith, ◌==◌,
  if◌then◌else◌, ==_iff, Bool-cases, update, Outcome, ok, chain_ok, ok_injective,
}
use kernel_tracing.Fs.{Blocks, Superblock}
use kernel_tracing.Fs.Inode.{Inode}
use kernel_tracing.Fs.Truncate.{itrunc}
use kernel_tracing.Fs.Truncate.Named.{SameName, SameName-refl, itrunc-SameName}
use kernel_tracing.Fs.Icache.{Icache, iget, idup, free_inode, iput}
use kernel_tracing.Fs.Icache.Unique.{IsUnique, IsUnique-weaker, renamed, counted, new_entry}
use kernel_tracing.Fs.Icache.Get.{Got, iget-Gets}

-- The states of the cache between the calls, with the number of references to each entry. The
-- holder of an entry may write its other fields at any time, as ilock, writei and the rest do.
pub data Holds : Icache → (ℕ → ℕ) → Type 0 where
  boots : (c : Icache) → c.lock ≡ false → ((i : ℕ) → (c.inode i).ref ≡ 0) → Holds c (λ _. 0)
  gets :
      (c c' : Icache) (held : ℕ → ℕ) (dev inum i : ℕ)
      → Holds c held
      → iget dev inum c ≡ ok (i, c')
      → Holds c' (update held i (held i + 1))
  dups :
      (c c' : Icache) (held : ℕ → ℕ) (i : ℕ)
      → Holds c held
      → 0 < held i
      → idup i c ≡ ok c'
      → Holds c' (update held i (held i + 1))
  puts :
      (c c' : Icache) (held : ℕ → ℕ) (sb : Superblock) (i : ℕ) (m m' : Blocks)
      → Holds c held
      → 0 < held i
      → iput sb i c m ≡ ok (c', m')
      → Holds c' (update held i (held i - 1))
  sets :
      (c c' : Icache) (held : ℕ → ℕ)
      → Holds c held
      → c'.lock ≡ c.lock
      → ((i : ℕ) → SameName (c.inode i) (c'.inode i))
      → Holds c' held

pub record IsSound (c : Icache) (held : ℕ → ℕ) : Type 0 where
  pub lock : c.lock ≡ false
  pub counts : (i : ℕ) → (c.inode i).ref ≡ held i
  pub unique : IsUnique c.inode

Got-IsSound :
    (c c' : Icache) (held : ℕ → ℕ) (dev inum i : ℕ)
    → IsSound c held
    → Got dev inum c i c'
    → IsSound c' (update held i (held i + 1))
Got-IsSound c c' held dev inum i s g =
    let n = s.counts i in
    let before = λ (j : ℕ) (e : (i == j) ≡ false). ap (λ x. x.ref) (g.others j e) ∙ s.counts j in
    elim g.entry [
      | inl (e, q) ↦ record {
        lock = g.lock;
        counts =
            counted c'.inode held i (held i + 1) (ap (λ x. x.ref) q ∙ ap (λ x. x + 1) n) before;
        unique =
            IsUnique-weaker c.inode c'.inode
              (renamed c.inode c'.inode i (ground (arith, e)) (ap (λ x. x.dev) q)
                (ap (λ x. x.inum) q) g.others)
              s.unique;
      }
      | inr (f, z, q) ↦ record {
        lock = g.lock;
        counts =
            counted c'.inode held i (held i + 1) (ap (λ x. x.ref) q ∙ omega (arith, n, z)) before;
        unique =
            new_entry c.inode c'.inode i dev inum f (ap (λ x. x.dev) q) (ap (λ x. x.inum) q)
              g.others s.unique;
      }
    ]

-- A call that changes entry i alone, whose name and references it keeps but for their number n.
one_entry-IsSound :
    (c : Icache) (held : ℕ → ℕ) (i n : ℕ) (ip : Inode)
    → IsSound c held
    → 0 < held i
    → SameName (c.inode i) (record ip { ref = (c.inode i).ref })
    → ip.ref ≡ n
    → IsSound (record c { lock = false; inode = update c.inode i ip }) (update held i n)
one_entry-IsSound c held i n ip s h t q =
    let b = update c.inode i ip in
    let at : b i ≡ ip = rw ((==_iff i i).1 refl) refl in
    let k = s.counts i in
    record {
      lock = refl;
      counts = counted b held i n (ap (λ x. x.ref) at ∙ q) (λ j e. rw (e) (s.counts j));
      unique =
          IsUnique-weaker c.inode b
            (renamed c.inode b i (omega (arith, k, h)) (ap (λ x. x.dev) at ∙ t.dev)
              (ap (λ x. x.inum) at ∙ t.inum) (λ j e. rw (e) refl))
            s.unique;
    }

idup-IsSound :
    (c c' : Icache) (held : ℕ → ℕ) (i : ℕ)
    → IsSound c held
    → 0 < held i
    → idup i c ≡ ok c'
    → IsSound c' (update held i (held i + 1))
unfolding idup
idup-IsSound c c' held i s h q =
    let free = s.lock in
    let n = s.counts i in
    let q' = rw (free) at q in
    subst (λ x. IsSound x (update held i (held i + 1))) (ok_injective q')
      (one_entry-IsSound c held i (held i + 1) (record (c.inode i) { ref = (c.inode i).ref + 1 }) s
        h (SameName-refl (c.inode i)) (ap (λ x. x + 1) n))

-- iput before it counts the reference, with the lock held.
abbrev last_put : Superblock → Inode → Blocks → Outcome (Bool × Inode × Blocks)
last_put sb ip m =
    if ip.ref == 1 && ip.valid && ip.nlink == 0 then free_inode sb true ip m else ok (true, ip, m)

last_put-SameName :
    (sb : Superblock) (ip : Inode) (m : Blocks) (r : Bool × Inode × Blocks)
    → last_put sb ip m ≡ ok r
    → (r.0 ≡ true) × SameName ip r.1
unfolding free_inode
last_put-SameName sb ip m r h = elim (Bool-cases (ip.ref == 1 && ip.valid && ip.nlink == 0)) [
  | inr e ↦
      let h' = rw (e) at h in
      subst (λ x. (x.0 ≡ true) × SameName ip x.1) (ok_injective h') (refl, SameName-refl ip)
  | inl e ↦
      let h' = rw (e) at h in
      let (x, p, q) = chain_ok (itrunc sb ip m) _ h' in
      let t = itrunc-SameName sb ip m x p in
      subst (λ x. (x.0 ≡ true) × SameName ip x.1) (ok_injective q)
        (refl, record { dev = t.dev; inum = t.inum; ref = t.ref })
]

iput-IsSound :
    (c c' : Icache) (held : ℕ → ℕ) (sb : Superblock) (i : ℕ) (m m' : Blocks)
    → IsSound c held
    → 0 < held i
    → iput sb i c m ≡ ok (c', m')
    → IsSound c' (update held i (held i - 1))
unfolding iput
iput-IsSound c c' held sb i m m' s h q =
    let free = s.lock in
    let n = s.counts i in
    let q' = rw (free) at q in
    let (r, e, p) = chain_ok (last_put sb (c.inode i) m) _ q' in
    let (l, t) = last_put-SameName sb (c.inode i) m r e in
    let p' = rw (l) at p in
    subst (λ x. IsSound x.0 (update held i (held i - 1))) (ok_injective p')
      (one_entry-IsSound c held i (held i - 1) (record r.1 { ref = r.1.ref - 1 }) s h
        (record { dev = t.dev; inum = t.inum; ref = refl }) (let w = t.ref in omega (arith, w, n)))

-- In every state of the inode cache that iget, idup and iput lead to from one with no references:
-- the lock is free, the count of each entry is the number of references to it that were got and
-- not put back, and no two entries in use are for the same inode. idup and iput are called with a
-- reference, and between the calls the holders of an entry change none of its device, its number
-- and its count.
pub Holds-IsSound : (c : Icache) (held : ℕ → ℕ) → Holds c held → IsSound c held
Holds-IsSound c held (boots _ l z) = record {
  lock = l;
  counts = z;
  unique = λ i j dev inum h g p q. let r = z i in absurd (ground (arith, r, p));
}
Holds-IsSound c' held (gets c _ h dev inum i r q) =
    let s = Holds-IsSound c h r in
    elim (iget-Gets dev inum c s.lock) [
      | inr (e, _) ↦ let w = sym e ∙ q in absurd (cc)
      | inl (k, d, e, g) ↦
          subst (λ x. IsSound x.1 (update h x.0 (h x.0 + 1))) (ok_injective (sym e ∙ q))
            (Got-IsSound c d h dev inum k s g)
    ]
Holds-IsSound c' held (dups c _ h i r g q) = idup-IsSound c c' h i (Holds-IsSound c h r) g q
Holds-IsSound c' held (puts c _ h sb i m m' r g q) =
    iput-IsSound c c' h sb i m m' (Holds-IsSound c h r) g q
Holds-IsSound c' held (sets c _ _ r l f) =
    let s = Holds-IsSound c held r in
    record {
      lock = l ∙ s.lock;
      counts = λ i. (f i).ref ∙ s.counts i;
      unique =
          IsUnique-weaker c.inode c'.inode
            (λ i dev inum h.
              let x = (f i).dev in
              let y = (f i).inum in let z = (f i).ref in ground (arith, h, x, y, z))
            s.unique;
    }
