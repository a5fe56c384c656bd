-- ===== src/Fs/Icache/Unique.antt =====
-- The entries of the inode cache that are for an inode, and a change of one entry.
use kernel_tracing.Prelude.{
  ℕ, ◌<◌, ◌≡◌, sym, subst, ap, ◌∙◌, inl, inr, true, false, arith, ◌==◌, ==_iff, Bool-cases, update,
}
use mathlib.Core.Bool.{false≢true}
use kernel_tracing.Fs.Inode.{Inode}
use kernel_tracing.Fs.Icache.{ninode, is_for}

abbrev pub IsUnique : (ℕ → Inode) → Type 0
IsUnique inode =
    (i j dev inum : ℕ)
    → i < ninode
    → j < ninode
    → is_for dev inum (inode i) ≡ true
    → is_for dev inum (inode j) ≡ true
    → i ≡ j

-- A change after which no entry is for an inode that it was not for.
pub IsUnique-weaker :
    (a b : ℕ → Inode)
    → ((i dev inum : ℕ) → is_for dev inum (b i) ≡ true → is_for dev inum (a i) ≡ true)
    → IsUnique a
    → IsUnique b
IsUnique-weaker a b f u i j dev inum h g p q = u i j dev inum h g (f i dev inum p) (f j dev inum q)

-- A change of entry i alone, which keeps its name and was in use, so that it had a reference.
pub renamed :
    (a b : ℕ → Inode) (i : ℕ)
    → 0 < (a i).ref
    → ((b i).dev ≡ (a i).dev)
    → ((b i).inum ≡ (a i).inum)
    → ((j : ℕ) → (i == j) ≡ false → b j ≡ a j)
    → (j dev inum : ℕ) → is_for dev inum (b j) ≡ true
    → is_for dev inum (a j) ≡ true
renamed a b i r d n o j dev inum h = elim (Bool-cases (i == j)) [
  | inr e ↦ subst (λ x. is_for dev inum x ≡ true) (o j e) h
  | inl e ↦
      let q = (==_iff i j).0 e in
      subst (λ k. is_for dev inum (b k) ≡ true → is_for dev inum (a k) ≡ true) q
        (λ h. ground (arith, h, r, d, n)) h
]

clash :
    (a b : ℕ → Inode) (i dev inum dev' inum' k : ℕ)
    → is_for dev inum (a k) ≡ false
    → (b i).dev ≡ dev
    → (b i).inum ≡ inum
    → is_for dev' inum' (b i) ≡ true
    → is_for dev' inum' (a k) ≡ true
    → false ≡ true
clash a b i dev inum dev' inum' k f d n p q = ground (arith, f, d, n, p, q)

pub counted :
    (b : ℕ → Inode) (held : ℕ → ℕ) (i n : ℕ)
    → (b i).ref ≡ n
    → ((j : ℕ) → (i == j) ≡ false → (b j).ref ≡ held j)
    → (j : ℕ) → (b j).ref ≡ update held i n j
counted b held i n h f j = elim (Bool-cases (i == j)) [
  | inl e ↦ rw (e) (ap (λ x. (b x).ref) (sym ((==_iff i j).0 e)) ∙ h)
  | inr e ↦ rw (e) (f j e)
]

-- An entry that alone becomes one for an inode that no entry was for.
pub new_entry :
    (a b : ℕ → Inode) (i dev inum : ℕ)
    → ((j : ℕ) → j < ninode → is_for dev inum (a j) ≡ false)
    → ((b i).dev ≡ dev)
    → ((b i).inum ≡ inum)
    → ((j : ℕ) → (i == j) ≡ false → b j ≡ a j)
    → IsUnique a
    → IsUnique b
new_entry a b i dev inum f d n o u j k dev' inum' h g p q =
    let back = λ (l : ℕ) (e : (i == l) ≡ false) (t : is_for dev' inum' (b l) ≡ true).
      subst (λ x. is_for dev' inum' x ≡ true) (o l e) t in
    let here = λ (l : ℕ) (e : (i == l) ≡ true) (t : is_for dev' inum' (b l) ≡ true).
      subst (λ x. is_for dev' inum' (b x) ≡ true) (sym ((==_iff i l).0 e)) t in
    elim (Bool-cases (i == j)) [
      | inl e ↦ elim (Bool-cases (i == k)) [
        | inl z ↦ sym ((==_iff i j).0 e) ∙ (==_iff i k).0 z
        | inr z ↦
            absurd
              (false≢true (clash a b i dev inum dev' inum' k (f k g) d n (here j e p) (back k z q)))
      ]
      | inr e ↦ elim (Bool-cases (i == k)) [
        | inl z ↦
            absurd
              (false≢true (clash a b i dev inum dev' inum' j (f j h) d n (here k z q) (back j e p)))
        | inr z ↦ u j k dev' inum' h g (back j e p) (back k z q)
      ]
    ]
