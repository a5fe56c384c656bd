-- ===== src/Fs/Inode/Stored.antt =====
-- fs.c: a block of the content with new data.
use kernel_tracing.Prelude.{
  ℕ, ◌<◌, ◌≡◌, refl, sym, subst, ◌∙◌, inl, inr, false, arith, ◌==◌, if◌then◌else◌, ==_iff,
  Bool-cases, update,
}
use kernel_tracing.Fs.{Data, Blocks, Superblock, bblock, readsb}
use kernel_tracing.Fs.Bits.{used}
use kernel_tracing.Fs.Allocation.{readsb_same}
use kernel_tracing.Fs.Inode.{Inode, ndirect}
use kernel_tracing.Fs.Inode.Address.{indirect, slot, IsOwned, IsFile}
use kernel_tracing.Fs.Inode.Mapped.{shows}
use kernel_tracing.Fs.Inode.Content.{indirect_apart}

-- Block `a` of the content, which is block k of the file, with new data.
module _ (sb : Superblock) (ip : Inode) (m : Blocks) (k a : ℕ) (d : Data) (f : IsFile sb ip m)
    (low : k < indirect) (h : slot ip m k ≡ a) (z : (a == 0) ≡ false) where
  abbrev stored : Blocks
  stored = update m a d

  own : IsOwned sb ip.inum m a
  own =
      subst (IsOwned sb ip.inum m) h
        (f.owned k (omega (arith, low)) (subst (λ x. (x == 0) ≡ false) (sym h) z))

  stored-slot : (l : ℕ) → slot ip stored l ≡ slot ip m l
  stored-slot l =
      let e : (a == ip.addrs ndirect) ≡ false =
        (let w = indirect_apart sb ip m k f low (subst (λ x. (x == 0) ≡ false) (sym h) z) in
          ground (arith, w, h)) in
      rw (e) refl

  stored-used : (j : ℕ) → j < sb.size → used sb stored j ≡ used sb m j
  stored-used j g =
      let e : (a == bblock j sb) ≡ false = (let p = own.plain j g in ground (arith, p)) in
      rw (e) refl

  stored_super : 0 < sb.size → readsb stored ≡ readsb m
  stored_super g =
      readsb_same m stored
        (let e : (a == 1) ≡ false = (let p = own.plain 0 g in ground (arith, p)) in rw (e) refl)

  pub stored-IsFile : IsFile sb ip stored
  stored-IsFile =
      let some_block : 0 < sb.size = (let l = own.below in omega (arith, l)) in
      let one : 1 < sb.size =
        (let p = own.plain a own.below in let l = own.below in ground (arith, p, l)) in
      record {
        reserved = record {
          on_disk = stored_super some_block ∙ f.reserved.on_disk;
          after = f.reserved.after;
          super = stored-used 1 one ∙ f.reserved.super;
          bitmap = λ j g. stored-used (bblock j sb) (f.inside j g) ∙ f.reserved.bitmap j g;
        };
        small = f.small;
        inside = f.inside;
        meta = λ j n g g' e. stored-used n g' ∙ f.meta j n g g' e;
        node = f.node;
        owned = λ l g e.
            let s = stored-slot l in
            let o = f.owned l g (subst (λ x. (x == 0) ≡ false) s e) in
            subst (IsOwned sb ip.inum stored) (sym s) (record {
              below = o.below;
              in_use = stored-used (slot ip m l) o.below ∙ o.in_use;
              plain = o.plain;
            });
        apart = λ i l g g' e q.
            f.apart i l g g' (subst (λ x. (x == 0) ≡ false) (stored-slot i) e)
              (sym (stored-slot i) ∙ q ∙ stored-slot l);
      }

  pub stored-shows :
      (l i : ℕ) → l < indirect → shows ip stored l i ≡ (if k == l then d i else shows ip m l i)
  stored-shows l i g =
      let s = stored-slot l in
      subst (λ x. (if x == 0 then 0 else stored x i) ≡ (if k == l then d i else shows ip m l i))
        (sym s)
        (elim (Bool-cases (k == l)) [
          | inl e ↦
              let q : slot ip m l ≡ a = subst (λ x. slot ip m x ≡ a) ((==_iff k l).0 e) h in
              rw (e) (
                subst (λ x. (if x == 0 then 0 else stored x i) ≡ d i) (sym q)
                  (rw (z, (==_iff a a).1 refl) refl))
          | inr e ↦ rw (e) (elim (Bool-cases (slot ip m l == 0)) [
            | inl y ↦ rw (y) refl
            | inr y ↦
                let w : (a == slot ip m l) ≡ false = (elim (Bool-cases (a == slot ip m l)) [
                  | inr t ↦ t
                  | inl t ↦
                      let q =
                        f.apart l k (omega (arith, g)) (omega (arith, low)) y
                          (sym ((==_iff a _).0 t) ∙ sym h) in
                      ground (arith, q, e)
                ]) in
                rw (y, w) refl
          ])
        ])
