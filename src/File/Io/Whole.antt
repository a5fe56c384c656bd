-- ===== src/File/Io/Whole.antt =====
-- filewrite writes all of its bytes or some whole rounds of them, and fileread reads them back.
use kernel_tracing.Prelude.{
  ℕ, ◌+◌, ◌-◌, ◌/◌, ◌%◌, ◌≤◌, ◌<◌, ◌≡◌, refl, sym, subst, ap, ◌∙◌, fun_ext, ◌⊎◌, inl, inr, Bool,
  true, false, List, ◌∷◌, arith, ◌==◌, if◌then◌else◌, Outcome, ok, panic, ok_injective, [], ◌>>=◌,
}
use mathlib.Core.Sum.{inr-injective}
use kernel_tracing.Prelude.Int.{ℤ, pos, negsuc, eq_int, to_nat, to_uint}
use kernel_tracing.Fs.{Data, Blocks, Superblock}
use kernel_tracing.Fs.Inode.{Inode, readi, t_dev, bytes_from}
use kernel_tracing.Fs.Inode.Address.{IsFile}
use kernel_tracing.Fs.Inode.Reading.{max_size, Keeps}
use kernel_tracing.Fs.Inode.Writei.{IsWritten, out_of_range, reads_back}
use kernel_tracing.File.{File, fd_inode}
use kernel_tracing.File.Io.{
  IoCall, call_ilock, call_iunlock, max_write, io_count, move_offset, WriteRun, fileread,
  write_rounds, filewrite,
}
use kernel_tracing.File.Io.Append.{Advanced}
use kernel_tracing.File.Io.Writes.{rounds, chunk, write_rounds-Loops, count_small, move_offset_done}

-- All n bytes are written, or i of them, k in whole rounds, and the next and last of r rounds is
-- refused.
abbrev pub IsWhole : (n k r : ℕ) → File → Inode → (i : ℕ) → Type 0
IsWhole n k r f' ip' i =
    (i ≡ n) × (r ≡ (k + 6655) / max_write)
    ⊎ (i < n)
      × (k % max_write ≡ 0)
      × (r ≡ k / max_write + 1)
      × (out_of_range ip' f'.off (chunk (n - i)) ≡ true)

filewrite_inode :
    (has : ℕ → Bool) (answer : ℕ → ℤ) (sb : Superblock) (f : File) (x : ℕ) (src : Data) (n : ℤ)
    (ip : Inode) (m : Blocks)
    → f.writable ≡ true
    → f.kind ≡ fd_inode x
    → filewrite has answer sb f src n ip m ≡ (do
      w ← write_rounds (to_nat n) has answer sb src (to_nat n) 0 f ip m
      ok (inr (if eq_int (pos w.0) n then n else negsuc 0, w.1, w.2, w.3, w.4)))
unfolding filewrite
filewrite_inode has answer sb f x src n ip m v q = simp (v, q)

fileread_inode :
    (has : ℕ → Bool) (answer : ℕ → ℤ) (sb : Superblock) (f : File) (x : ℕ) (n : ℤ) (ip : Inode)
    (m : Blocks)
    → f.readable ≡ true
    → f.kind ≡ fd_inode x
    → fileread has answer sb f n ip m ≡ (do
      r ← readi has sb ip f.off (to_uint n) m
      let c = io_count answer r.0
      ok (inr (c, r.1, move_offset c f, r.2, r.3, call_ilock ∷ call_iunlock ∷ [])))
unfolding fileread
fileread_inode has answer sb f x n ip m v q = simp (v, q)

-- What filewrite comes to: k bytes are written, which are all, or those of the rounds before one
-- whose range is refused; or the disk is full.
abbrev pub FileWrites :
    (sb : Superblock) (f : File) (src : Data) (n : ℕ) (ip : Inode) (m : Blocks)
    → Outcome WriteRun
    → Type 0
FileWrites sb f src n ip m o =
    ((k r : ℕ) × (f' : File) × (ip' : Inode) × (m' : Blocks) × (o
        ≡ ok (inr (if k == n then pos n else negsuc 0, f', ip', m', rounds r)))
      × Advanced sb f ip m src k f' ip' m'
      × IsWhole n k r f' ip' k)
    ⊎ (o ≡ panic "balloc: out of blocks")

-- filewrite of n bytes on a writable file of an inode that is in order and no device, on a disk of
-- more than one block: either it writes all n bytes at the offset of the file and returns n; or it
-- writes whole rounds of 6656 bytes up to one whose range starts behind the end of the file or ends
-- behind the largest file, and returns -1. In both cases the bytes written are in the file, all
-- other bytes are as they were, the size has grown to their end, and the offset has moved by their
-- number. The calls are those of the rounds, of at most 6656 bytes each and the refused one
-- included: begin_op, ilock, iunlock and end_op. Or it finds the disk full.
pub filewrite-FileWrites :
    (has : ℕ → Bool) (answer : ℕ → ℤ) (sb : Superblock) (f : File) (x : ℕ) (src : Data) (n : ℕ)
    (ip : Inode) (m : Blocks)
    → f.writable ≡ true
    → f.kind ≡ fd_inode x
    → IsFile sb ip m
    → 1 < sb.size
    → (ip.type == t_dev) ≡ false
    → FileWrites sb f src n ip m (filewrite has answer sb f src (pos n) ip m)
filewrite-FileWrites has answer sb f x src n ip m v q w l t =
    subst (FileWrites sb f src n ip m)
      (sym (filewrite_inode has answer sb f x src (pos n) ip m v q))
      (elim (write_rounds-Loops n has answer sb src n 0 f ip m (omega arith) (omega arith) w l t) [
        | inr e ↦ rw (e) (inr refl)
        | inl (k, r, f', ip', m', e, a, d) ↦
            let z : 0 + k ≡ k = omega arith in
            let s : (λ j. src (0 + j)) ≡ src = fun_ext (λ j. ap src (omega arith)) in
            rw (e, z)
              (inl (
                k,
                r,
                f',
                ip',
                m',
                refl,
                subst (λ s. Advanced sb f ip m s k f' ip' m') s a,
                subst (IsWhole n k r f' ip') z d,
              ))
      ])

-- fileread gives n bytes of src and moves behind them; or the disk is full.
abbrev pub Rereads :
    (has : ℕ → Bool) (answer : ℕ → ℤ) (sb : Superblock) (g : File) (src : Data) (n : ℕ) (ip : Inode)
    (m : Blocks)
    → Type 0
Rereads has answer sb g src n ip m =
    ((ip2 : Inode) × (m2 : Blocks) × (fileread has answer sb g (pos n) ip m
        ≡ ok (
            inr (
              pos n,
              bytes_from n 0 src,
              record g { off = g.off + n },
              ip2,
              m2,
              call_ilock ∷ call_iunlock ∷ [],
            )))
      × Keeps sb ip m ip2 m2)
    ⊎ (fileread has answer sb g (pos n) ip m ≡ panic "balloc: out of blocks")

rereads :
    (has : ℕ → Bool) (answer : ℕ → ℤ) (sb : Superblock) (g f f' : File) (y : ℕ) (src : Data) (n : ℕ)
    (ip ip' : Inode) (m m' : Blocks)
    → (ip.type == t_dev) ≡ false
    → ip.size ≤ max_size
    → 0 < n
    → Advanced sb f ip m src n f' ip' m'
    → g.readable ≡ true
    → g.kind ≡ fd_inode y
    → g.off ≡ f.off
    → Rereads has answer sb g src n ip' m'
rereads has answer sb g f f' y src n ip ip' m m' t s h a r kind at =
    let open_g = fileread_inode has answer sb g y (pos n) ip' m' r kind in
    let b = a.within h in
    let st = a.start h in
    let p = count_small n (omega (arith, b)) in
    let adv = move_offset_done n g h (omega (arith, b, at)) in
    elim (reads_back has sb ip ip' m m' src g.off n t s (ground (arith, b, st, at))
      (subst (λ o. IsWritten sb ip m src o n ip' m') (sym at) a.written)) [
        | inr q ↦ inr (open_g ∙ rw (q) refl)
        | inl (ip2, m2, q, k) ↦ inl (ip2, m2, open_g ∙ rw (q, p, adv) refl, k)
      ]

-- What filewrite wrote is read back: let filewrite have returned n > 0, on a writable file of an
-- inode that is in order, no device and no longer than the largest file, on a disk of more than one
-- block. Then fileread of n bytes on a readable file of the inode, at the offset where they were
-- written, returns n and these bytes, moves its offset behind them, keeps the content and calls ilock
-- and iunlock; or a
-- block that has to be made finds the disk full.
pub fileread-filewrite :
    (has : ℕ → Bool) (answer : ℕ → ℤ) (sb : Superblock) (f f' g : File) (x y : ℕ) (src : Data)
    (n : ℕ) (ip ip' : Inode) (m m' : Blocks) (calls : List IoCall)
    → f.writable ≡ true
    → f.kind ≡ fd_inode x
    → IsFile sb ip m
    → 1 < sb.size
    → (ip.type == t_dev) ≡ false
    → ip.size ≤ max_size
    → 0 < n
    → filewrite has answer sb f src (pos n) ip m ≡ ok (inr (pos n, f', ip', m', calls))
    → g.readable ≡ true
    → g.kind ≡ fd_inode y
    → g.off ≡ f.off
    → Rereads has answer sb g src n ip' m'
fileread-filewrite has answer sb f f' g x y src n ip ip' m m' calls v q w l t s h run r kind at =
    elim (filewrite-FileWrites has answer sb f x src n ip m v q w l t) [
      | inr e ↦ let c = sym e ∙ run in absurd (cc)
      | inl (k, rs, f1, ip1, m1, e, a, d) ↦
          let p = inr-injective _ _ (ok_injective (sym e ∙ run)) in
          elim d [
            | inr (z, _, _, _) ↦
                let u : (k == n) ≡ false = ground (arith, z) in
                let c = sym (ap (λ b. if b then pos n else negsuc 0) u) ∙ ap (λ z. z.0) p in
                absurd (cc)
            | inl (z, _) ↦
                subst (λ z. Rereads has answer sb g src n z.2 z.3) p
                  (rereads has answer sb g f f1 y src n ip ip1 m m1 t s h
                    (subst (λ k. Advanced sb f ip m src k f1 ip1 m1) z a) r kind at)
          ]
    ]
