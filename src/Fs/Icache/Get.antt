-- ===== src/Fs/Icache/Get.antt =====
-- iget finds the entry of an inode, or takes one that is free.
use kernel_tracing.Prelude.{
  ℕ, ◌+◌, ◌<◌, ◌≡◌, refl, ◌⊎◌, inl, inr, true, false, ◌==◌, ==_iff, Outcome, ok, panic,
}
use kernel_tracing.Fs.Inode.{Inode}
use kernel_tracing.Fs.Icache.{Icache, ninode, is_for, iget}
use kernel_tracing.Fs.Icache.Scan.{find_entry-Finds}

-- Entry i before and after the call: one that had the inode, with a reference more; or one that was
-- free, while no entry had the inode, with the only reference and nothing read yet.
abbrev pub Entered : (dev inum : ℕ) → (ℕ → Inode) → (i : ℕ) → Inode → Type 0
Entered dev inum inode i ip =
    ((is_for dev inum (inode i) ≡ true) × (ip ≡ record (inode i) { ref = (inode i).ref + 1 }))
    ⊎ ((j : ℕ) → j < ninode → is_for dev inum (inode j) ≡ false)
      × ((inode i).ref ≡ 0)
      × (ip ≡ record (inode i) { dev = dev; inum = inum; ref = 1; valid = false })

pub record Got (dev inum : ℕ) (c : Icache) (i : ℕ) (c' : Icache) : Type 0 where
  pub inside : i < ninode
  pub lock : c'.lock ≡ false
  pub entry : Entered dev inum c.inode i (c'.inode i)
  pub others : (j : ℕ) → (i == j) ≡ false → c'.inode j ≡ c.inode j

-- No entry is free, and none has the inode.
abbrev pub Gets : (dev inum : ℕ) → Icache → Outcome (ℕ × Icache) → Type 0
Gets dev inum c o =
    ((i : ℕ) × (c' : Icache) × (o ≡ ok (i, c')) × Got dev inum c i c')
    ⊎ (o ≡ panic "iget: no inodes")
      × ((j : ℕ) → j < ninode → (is_for dev inum (c.inode j) ≡ false) × (0 < (c.inode j).ref))

-- iget with the lock free gives an entry for the inode and leaves the lock free and all other
-- entries as they were: the entry that has the inode, with one reference more; or if there is
-- none, an entry that was free, with the device and the number of the inode, one reference and
-- its content still to be read. It panics only if all 50 entries are in use and none has the inode.
pub iget-Gets : (dev inum : ℕ) (c : Icache) → c.lock ≡ false → Gets dev inum c (iget dev inum c)
unfolding iget
iget-Gets dev inum c free = elim (find_entry-Finds ninode dev inum c.inode) [
  | inl (k, q, h, e) ↦
      rw (free, q)
        (inl (
          k,
          _,
          refl,
          record {
            inside = h;
            lock = refl;
            entry = inl (e, rw ((==_iff k k).1 refl) refl);
            others = λ j n. rw (n) refl;
          },
        ))
  | inr (inl (e, q, h, z, f)) ↦
      rw (free, q)
        (inl (
          e,
          _,
          refl,
          record {
            inside = h;
            lock = refl;
            entry = inr (f, z, rw ((==_iff e e).1 refl) refl);
            others = λ j n. rw (n) refl;
          },
        ))
  | inr (inr (q, f)) ↦ rw (free, q) (inr (refl, f))
]
