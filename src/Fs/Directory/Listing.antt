-- ===== src/Fs/Directory/Listing.antt =====
-- The entries of a directory as a list, what a lookup and a link are on it, and that the bytes of
-- the directory hold such a list.
use kernel_tracing.Prelude.{
  ℕ, zero, suc, ◌+◌, ◌-◌, ◌*◌, ◌/◌, ◌%◌, ◌^◌, ◌≤◌, ◌<◌, ◌≡◌, refl, sym, ap, ap₂, ◌∙◌, ◌⊎◌, inl, inr,
  Bool, true, false, ◌&&◌, not, Option, none, some, List, [], ◌∷◌, arith, ltb, leb, ◌==◌,
  if◌then◌else◌, Bool-cases,
}
use mathlib.Core.Bool.{true≢false}
use kernel_tracing.Prelude.Int.{pos}
use kernel_tracing.Str.{strncpy}
use kernel_tracing.Str.Names.{name_at, same, same-equal, name_at_same, name_at-strncpy}
use kernel_tracing.Fs.{Data, Blocks, dirsiz}
use kernel_tracing.Fs.Inode.{Inode, byte_of, short_at}
use kernel_tracing.Fs.Inode.Reading.{byte_at}
use kernel_tracing.Fs.Directory.{fill_dirent, de_name}

-- An inode number, which is 0 where the entry is free, and a name.
abbrev pub Entry : Type 0
Entry = ℕ × List ℕ

abbrev pub entry_at : Data → ℕ → Entry
entry_at d off = (short_at d off, name_at dirsiz (off + 2) d)

-- The n entries from byte `off` on, and all entries of a directory.
unfoldable pub entries : (n off : ℕ) → Data → List Entry
entries zero off d = []
entries (suc n) off d = entry_at d off ∷ entries n (off + 16) d

abbrev pub listing : Inode → Blocks → List Entry
listing dp m = entries (dp.size / 16) 0 (byte_at dp m)

abbrev pub is_named : List ℕ → Entry → Bool
is_named name e = not (e.0 == 0) && same name e.1

-- The first entry in use with the name: its number and its offset, `off` being that of the list.
unfoldable pub lookup : List ℕ → List Entry → (off : ℕ) → Option (ℕ × ℕ)
lookup name [] off = none
lookup name (e ∷ es) off = if is_named name e then some (e.0, off) else lookup name es (off + 16)

-- The offset of the first free entry, or of the end.
unfoldable pub free_place : List Entry → (off : ℕ) → ℕ
free_place [] off = off
free_place (e ∷ es) off = if e.0 == 0 then off else free_place es (off + 16)

-- A new entry in the first free place, or at the end.
unfoldable pub link : Entry → List Entry → List Entry
link new [] = new ∷ []
link new (e ∷ es) = if e.0 == 0 then new ∷ es else e ∷ link new es

pub entry_at_same :
    (d d' : Data) (off off' : ℕ)
    → ((k : ℕ) → k < 16 → d (off + k) ≡ d' (off' + k))
    → entry_at d off ≡ entry_at d' off'
entry_at_same d d' off off' h =
    let a : off + 0 ≡ off = omega arith in
    let b : off' + 0 ≡ off' = omega arith in
    let x : d off ≡ d' off' = rw (a, b) at (h 0 (omega arith)) in
    ap₂ (λ u v. (u, v)) (ap₂ (λ u v. u + v * 2 ^ 8) x (h 1 (omega arith)))
      (name_at_same 14 (off + 2) (off' + 2) d d' (λ k l.
        let a : off + 2 + k ≡ off + (2 + k) = omega arith in
        let b : off' + 2 + k ≡ off' + (2 + k) = omega arith in
        rw (a, b) (h (2 + k) (omega (arith, l)))))

pub entries_same :
    (n off : ℕ) (d d' : Data)
    → ((p : ℕ) → off ≤ p → p < off + 16 * n → d p ≡ d' p)
    → entries n off d ≡ entries n off d'
unfolding entries
entries_same zero off d d' h = refl
entries_same (suc n) off d d' h =
    ap₂ ◌∷◌ (entry_at_same d d' off off (λ k l. h (off + k) (omega arith) (omega (arith, l))))
      (entries_same n (off + 16) d d' (λ p a b. h p (omega (arith, a)) (omega (arith, b))))

pub free_place-length :
    (n off : ℕ) (d : Data)
    → off ≤ free_place (entries n off d) off
      × free_place (entries n off d) off ≤ off + 16 * n
      × free_place (entries n off d) off % 16 ≡ off % 16
unfolding entries free_place
free_place-length zero off d = (omega arith, omega arith, refl)
free_place-length (suc n) off d = let r = free_place-length n (off + 16) d in ground (arith, r)

-- The entry that fill_dirent makes.
pub entry-fill_dirent :
    (name : ℕ → ℕ) (inum : ℕ) (de : Data)
    → entry_at (fill_dirent name inum de) 0 ≡ (inum % 2 ^ 16, name_at dirsiz 0 name)
unfolding byte_of
entry-fill_dirent name inum de =
    ap₂ (λ u v. (u, v)) (omega arith)
      (name_at_same 14 2 0 (fill_dirent name inum de) (strncpy (de_name de) name (pos 14)) (λ k l.
          let p : (leb 0 (2 + k) && ltb (2 + k) 2) ≡ false = ground arith in
          let q : ltb (2 + k) 2 ≡ false = ground arith in
          let r : 2 + k - 2 ≡ 0 + k = omega arith in rw (p, q, r) refl)
        ∙ name_at-strncpy 14 (de_name de) name)

-- The number of entries after a store at byte f.
abbrev pub count_after : (n off f : ℕ) → ℕ
count_after n off f = if f == off + 16 * n then suc n else n

-- Entry `new` stored at the free place f: the list with the entry linked, which is longer by one
-- entry if the place was the end.
pub entries-link :
    (n off f : ℕ) (d d' : Data) (new : Entry)
    → free_place (entries n off d) off ≡ f
    → entry_at d' f ≡ new
    → ((p : ℕ) → (p < f) ⊎ (f + 16 ≤ p) → p < off + 16 * n → d' p ≡ d p)
    → entries (count_after n off f) off d' ≡ link new (entries n off d)
unfolding entries free_place link
entries-link zero off f d d' new e g h =
    let t : (f == off + 16 * 0) ≡ true = ground (arith, e) in rw (t, e) (ap (λ x. x ∷ []) g)
entries-link (suc n) off f d d' new e g h = elim (Bool-cases (short_at d off == 0)) [
  | inl z ↦
      let e' : off ≡ f = rw (z) at e in
      let t : (f == off + 16 * suc n) ≡ false = ground (arith, e') in
      rw (z, t)
        (ap₂ ◌∷◌ (ap (entry_at d') e' ∙ g) (
          entries_same n (off + 16) d' d
            (λ p a b. h p (inr (omega (arith, a, e'))) (omega (arith, b)))))
  | inr z ↦
      let e' : free_place (entries n (off + 16) d) (off + 16) ≡ f = rw (z) at e in
      let b = free_place-length n (off + 16) d in
      let t : count_after (suc n) off f ≡ suc (count_after n (off + 16) f) = ground arith in
      rw (z, t)
        (ap₂ ◌∷◌
          (entry_at_same d' d off off
            (λ k l. h (off + k) (inl (omega (arith, b, e', l))) (omega (arith, l))))
          (entries-link n (off + 16) f d d' new e' g (λ p a c. h p a (omega (arith, c)))))
]

-- The list with an entry linked, whose name it did not have: a lookup finds the new entry under
-- its name, and what it found before under any other name.
pub lookup-link :
    (name other : List ℕ) (inum : ℕ) (es : List Entry) (off : ℕ)
    → lookup name es off ≡ none
    → lookup other (link (inum, name) es) off ≡ (
        if is_named other (inum, name) then some (inum, free_place es off) else lookup other es off)
unfolding lookup link free_place
lookup-link name other inum [] off h = refl
lookup-link name other inum (e ∷ es) off h = elim (Bool-cases (e.0 == 0)) [
  | inl z ↦ rw (z) refl
  | inr z ↦ elim (Bool-cases (is_named name e)) [
    | inl y ↦ let h' = rw (y) at h in absurd (cc)
    | inr y ↦
        let r = lookup-link name other inum es (off + 16) (rw (y) at h) in
        elim (Bool-cases (is_named other e)) [
          | inr x ↦ let x' : same other e.1 ≡ false = rw (z) at x in rw (z, x', z) r
          | inl x ↦
              let n : is_named other (inum, name) ≡ false =
                elim (Bool-cases (is_named other (inum, name))) [
                  | inr w ↦ w
                  | inl w ↦ absurd (
                      true≢false
                        (sym x ∙ ap (λ k. is_named k e) (same-equal other name (ground arith)) ∙ y))
                ] in
              let x' : same other e.1 ≡ true = rw (z) at x in rw (z, x', n, z) refl
        ]
  ]
]
