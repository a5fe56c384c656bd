-- ===== src/Fs/Icache/Undo.antt =====
-- iput of the entry that iget has just got.
use kernel_tracing.Prelude.{
  ℕ, ◌-◌, ◌≡◌, refl, ap, ◌∙◌, inl, inr, false, ◌&&◌, arith, ◌==◌, ==_iff, Bool-cases, ok,
}
use kernel_tracing.Fs.{Blocks, Superblock}
use kernel_tracing.Fs.Icache.{Icache, iput}
use kernel_tracing.Fs.Icache.Get.{Got, Entered}

-- The lock is free and the references are what they were.
pub record SameRefs (c c' : Icache) : Type 0 where
  pub lock : c'.lock ≡ false
  pub refs : (j : ℕ) → (c'.inode j).ref ≡ (c.inode j).ref

not_last :
    (dev inum i : ℕ) (c c' : Icache)
    → Entered dev inum c.inode i (c'.inode i)
    → ((c'.inode i).ref == 1 && (c'.inode i).valid && (c'.inode i).nlink == 0) ≡ false
not_last dev inum i c c' (inl (e, q)) = let r = ap (λ x. x.ref) q in ground (arith, e, r)
not_last dev inum i c c' (inr (_, _, q)) = let v = ap (λ x. x.valid) q in ground (arith, v)

put_ref :
    (dev inum i : ℕ) (c c' : Icache)
    → Entered dev inum c.inode i (c'.inode i)
    → (c'.inode i).ref - 1 ≡ (c.inode i).ref
put_ref dev inum i c c' (inl (e, q)) = let r = ap (λ x. x.ref) q in omega (arith, r)
put_ref dev inum i c c' (inr (_, z, q)) = let r = ap (λ x. x.ref) q in omega (arith, r, z)

pub iput-Got :
    (sb : Superblock) (dev inum i : ℕ) (c c' : Icache) (m : Blocks)
    → Got dev inum c i c'
    → (c2 : Icache) × (iput sb i c' m ≡ ok (c2, m)) × SameRefs c c2
unfolding iput
iput-Got sb dev inum i c c' m g =
    let l = g.lock in
    let n = not_last dev inum i c c' g.entry in
    rw (l, n)
      (
        _,
        refl,
        record {
          lock = refl;
          refs = λ j. elim (Bool-cases (i == j)) [
            | inl e ↦
                rw (e)
                  (put_ref dev inum i c c' g.entry ∙ ap (λ k. (c.inode k).ref) ((==_iff i j).0 e))
            | inr e ↦ rw (e) (ap (λ x. x.ref) (g.others j e))
          ];
        },
      )
