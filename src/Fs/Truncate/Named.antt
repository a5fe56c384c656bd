-- ===== src/Fs/Truncate/Named.antt =====
-- itrunc keeps the name and the reference count of an inode.
use kernel_tracing.Prelude.{
  ℕ, zero, suc, ◌+◌, ◌≡◌, refl, subst, ◌∙◌, inl, inr, ◌==◌, Bool-cases, ok, chain_ok, ok_injective,
}
use kernel_tracing.Fs.{Blocks, Superblock, bfree}
use kernel_tracing.Fs.Inode.{Inode, ndirect, nindirect}
use kernel_tracing.Fs.Truncate.{free_slot, free_direct, free_entries, free_indirect, itrunc}

pub record SameName (ip ip' : Inode) : Type 0 where
  pub dev : ip'.dev ≡ ip.dev
  pub inum : ip'.inum ≡ ip.inum
  pub ref : ip'.ref ≡ ip.ref

pub SameName-refl : (ip : Inode) → SameName ip ip
SameName-refl ip = record { dev = refl; inum = refl; ref = refl }

SameName-trans : (ip ip1 ip2 : Inode) → SameName ip ip1 → SameName ip1 ip2 → SameName ip ip2
SameName-trans ip ip1 ip2 a b = record {
  dev = b.dev ∙ a.dev;
  inum = b.inum ∙ a.inum;
  ref = b.ref ∙ a.ref;
}

free_slot-SameName :
    (i : ℕ) (ip : Inode) (m : Blocks) (r : Inode × Blocks)
    → free_slot i ip m ≡ ok r
    → SameName ip r.0
free_slot-SameName i ip m r h = elim (Bool-cases (ip.addrs i == 0)) [
  | inl e ↦
      let h' = rw (e) at h in subst (λ x. SameName ip x.0) (ok_injective h') (SameName-refl ip)
  | inr e ↦
      let h' = rw (e) at h in
      let (m', _, q) = chain_ok (bfree (ip.addrs i) m) _ h' in
      subst (λ x. SameName ip x.0) (ok_injective q) (record { dev = refl; inum = refl; ref = refl })
]

free_direct-SameName :
    (left i : ℕ) (ip : Inode) (m : Blocks) (r : Inode × Blocks)
    → free_direct left i ip m ≡ ok r
    → SameName ip r.0
unfolding free_direct
free_direct-SameName zero i ip m r h =
    subst (λ x. SameName ip x.0) (ok_injective h) (SameName-refl ip)
free_direct-SameName (suc left) i ip m r h =
    let (x, p, q) = chain_ok (free_slot i ip m) _ h in
    SameName-trans ip x.0 r.0 (free_slot-SameName i ip m x p)
      (free_direct-SameName left (i + 1) x.0 x.1 r q)

free_indirect-SameName :
    (ip : Inode) (m : Blocks) (r : Inode × Blocks) → free_indirect ip m ≡ ok r → SameName ip r.0
unfolding free_indirect
free_indirect-SameName ip m r h = elim (Bool-cases (ip.addrs ndirect == 0)) [
  | inl e ↦
      let h' = rw (e) at h in subst (λ x. SameName ip x.0) (ok_injective h') (SameName-refl ip)
  | inr e ↦
      let h' = rw (e) at h in
      let (m1, _, q) = chain_ok (free_entries nindirect (ip.addrs ndirect) 0 m) _ h' in
      let (m2, _, t) = chain_ok (bfree (ip.addrs ndirect) m1) _ q in
      subst (λ x. SameName ip x.0) (ok_injective t) (record { dev = refl; inum = refl; ref = refl })
]

pub itrunc-SameName :
    (sb : Superblock) (ip : Inode) (m : Blocks) (r : Inode × Blocks)
    → itrunc sb ip m ≡ ok r
    → SameName ip r.0
unfolding itrunc
itrunc-SameName sb ip m r h =
    let (d, a, p) = chain_ok (free_direct ndirect 0 ip m) _ h in
    let (e, b, q) = chain_ok (free_indirect d.0 d.1) _ p in
    let s =
      SameName-trans ip d.0 e.0 (free_direct-SameName ndirect 0 ip m d a)
        (free_indirect-SameName d.0 d.1 e b) in
    subst (λ y. SameName ip y.0) (ok_injective q)
      (record { dev = s.dev; inum = s.inum; ref = s.ref })
