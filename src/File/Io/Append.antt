-- ===== src/File/Io/Append.antt =====
-- A write to an inode behind another is one write, and what it leaves of the open file.
use kernel_tracing.Prelude.{
  ℕ, ◌+◌, ◌-◌, ◌≤◌, ◌<◌, ◌≡◌, refl, ap, ◌∙◌, inl, inr, true, false, ◌&&◌, arith, ltb, leb, ◌==◌,
  Bool-cases,
}
use kernel_tracing.Fs.{Data, Blocks, Superblock}
use kernel_tracing.Fs.Inode.{Inode}
use kernel_tracing.Fs.Inode.Address.{IsFile}
use kernel_tracing.Fs.Inode.Reading.{max_size}
use kernel_tracing.Fs.Inode.Writei.{IsWritten, out_of_range}
use kernel_tracing.File.{File}

pub IsWritten-none :
    (sb : Superblock) (ip : Inode) (m : Blocks) (src : Data) (off : ℕ)
    → IsFile sb ip m
    → IsWritten sb ip m src off 0 ip m
IsWritten-none sb ip m src off f = record {
  file = f;
  type = refl;
  size = refl;
  bytes = λ p h. let e : (leb off p && ltb p (off + 0)) ≡ false = ground arith in rw (e) refl;
}

-- A write behind a write is one write.
IsWritten-append :
    (sb : Superblock) (ip ip1 ip2 : Inode) (m m1 m2 : Blocks) (src rest : Data) (off a b : ℕ)
    → 0 < a
    → ((j : ℕ) → rest j ≡ src (a + j))
    → IsWritten sb ip m src off a ip1 m1
    → IsWritten sb ip1 m1 rest (off + a) b ip2 m2
    → IsWritten sb ip m src off (a + b) ip2 m2
IsWritten-append sb ip ip1 ip2 m m1 m2 src rest off a b g r u v =
    let s = u.size in
    let t = v.size in
    record {
      file = v.file;
      type = v.type ∙ u.type;
      size = ground (arith, s, t, g);
      bytes = λ p h. v.bytes p h ∙ elim (Bool-cases (leb (off + a) p && ltb p (off + a + b))) [
        | inl e ↦
            let q : (leb off p && ltb p (off + (a + b))) ≡ true = ground (arith, e) in
            let i : a + (0 + (p - (off + a))) ≡ 0 + (p - off) = ground (arith, e) in
            rw (e, q) (r (0 + (p - (off + a))) ∙ ap src i)
        | inr e ↦ rw (e) (
            u.bytes p h ∙ elim (Bool-cases (leb off p && ltb p (off + a))) [
              | inl d ↦
                  let q : (leb off p && ltb p (off + (a + b))) ≡ true = ground (arith, d) in
                  rw (d, q) refl
              | inr d ↦
                  let q : (leb off p && ltb p (off + (a + b))) ≡ false = ground (arith, d, e) in
                  rw (d, q) refl
            ])
      ];
    }

-- What k bytes written from the offset on leave of the file, the inode and the blocks.
pub record Advanced (sb : Superblock) (f : File) (ip : Inode) (m : Blocks) (src : Data) (k : ℕ)
    (f' : File) (ip' : Inode) (m' : Blocks) : Type 0 where
  pub written : IsWritten sb ip m src f.off k ip' m'
  pub moved : f' ≡ record f { off = f.off + k }
  pub start : (0 < k) → f.off ≤ ip.size
  pub within : (0 < k) → f.off + k ≤ max_size

pub Advanced-append :
    (sb : Superblock) (f f' : File) (ip ip1 ip2 : Inode) (m m1 m2 : Blocks) (src rest : Data)
    (a b : ℕ)
    → 0 < a
    → ((j : ℕ) → rest j ≡ src (a + j))
    → out_of_range ip f.off a ≡ false
    → IsWritten sb ip m src f.off a ip1 m1
    → Advanced sb (record f { off = f.off + a }) ip1 m1 rest b f' ip2 m2
    → Advanced sb f ip m src (a + b) f' ip2 m2
Advanced-append sb f f' ip ip1 ip2 m m1 m2 src rest a b g r h u v = record {
  written = IsWritten-append sb ip ip1 ip2 m m1 m2 src rest f.off a b g r u v.written;
  moved = v.moved ∙ ap (λ x. record f { off = x }) (omega arith);
  start = λ _. ground (arith, h);
  within = λ _. elim (Bool-cases (b == 0)) [
    | inl z ↦ ground (arith, h, z)
    | inr z ↦ let w = v.within (ground (arith, z)) in omega (arith, w)
  ];
}
