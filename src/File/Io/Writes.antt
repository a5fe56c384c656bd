-- ===== src/File/Io/Writes.antt =====
-- The rounds of filewrite write their bytes one behind the other.
use kernel_tracing.Prelude.{
  ℕ, zero, suc, ◌+◌, ◌-◌, ◌/◌, ◌%◌, ◌^◌, ◌≤◌, ◌<◌, ◌≡◌, refl, subst, ap, ◌∙◌, ◌⊎◌, inl, inr, Bool,
  true, false, List, ◌++◌, arith, ltb, ◌==◌, if◌then◌else◌, ltb→lt, Bool-cases, Outcome, ok, panic,
  [], ◌>>=◌,
}
use kernel_tracing.Prelude.Int.{ℤ, pos, to_int}
use kernel_tracing.Fs.{Data, Blocks, Superblock}
use kernel_tracing.Fs.Inode.{Inode, t_dev}
use kernel_tracing.Fs.Inode.Address.{IsFile}
use kernel_tracing.Fs.Inode.Writei.{IsWritten, out_of_range, writei-WritesFile}
use kernel_tracing.File.{File}
use kernel_tracing.File.Io.{max_write, move_offset, write_rounds, IoCall, one_round}
use kernel_tracing.File.Io.Append.{IsWritten-none, Advanced, Advanced-append}

-- The bytes of the next round, where n - i are to go.
abbrev pub chunk : ℕ → ℕ
chunk left = if ltb max_write left then max_write else left

-- The calls of r rounds.
abbrev pub rounds : (r : ℕ) → List IoCall
rounds zero = []
rounds (suc r) = one_round ++ rounds r

-- How the loop ends that has i of the n bytes behind it and has written k more: all are written,
-- or the range of the last of its r rounds is refused.
abbrev pub LoopEnds : (n i k r : ℕ) → File → Inode → Type 0
LoopEnds n i k r f' ip' =
    (i + k ≡ n) × (r ≡ (k + 6655) / max_write)
    ⊎ (i + k < n)
      × (k % max_write ≡ 0)
      × (r ≡ k / max_write + 1)
      × (out_of_range ip' f'.off (chunk (n - (i + k))) ≡ true)

abbrev pub Loops :
    (sb : Superblock) (src : Data) (n i : ℕ) (f : File) (ip : Inode) (m : Blocks)
    → Outcome (ℕ × File × Inode × Blocks × List IoCall)
    → Type 0
Loops sb src n i f ip m o =
    ((k r : ℕ) × (f' : File) × (ip' : Inode) × (m' : Blocks) × (o
        ≡ ok (i + k, f', ip', m', rounds r))
      × Advanced sb f ip m (λ j. src (i + j)) k f' ip' m'
      × LoopEnds n i k r f' ip')
    ⊎ (o ≡ panic "balloc: out of blocks")

Loops-stop :
    (sb : Superblock) (src : Data) (n i r : ℕ) (f : File) (ip : Inode) (m : Blocks)
    → IsFile sb ip m
    → LoopEnds n i 0 r f ip
    → Loops sb src n i f ip m (ok (i, f, ip, m, rounds r))
Loops-stop sb src n i r f ip m w e = inl (
  0,
  r,
  f,
  ip,
  m,
  ap (λ x. ok (x, f, ip, m, rounds r)) (omega arith),
  record {
    written = IsWritten-none sb ip m (λ j. src (i + j)) f.off w;
    moved = ap (λ x. record f { off = x }) (omega arith);
    start = λ h. absurd (omega (arith, h));
    within = λ h. absurd (omega (arith, h));
  },
  e,
)

Loops-append :
    (sb : Superblock) (src : Data) (n i : ℕ) (f : File) (ip ip1 : Inode) (m m1 : Blocks)
    (o : Outcome (ℕ × File × Inode × Blocks × List IoCall))
    → i < n
    → out_of_range ip f.off (chunk (n - i)) ≡ false
    → IsWritten sb ip m (λ j. src (i + j)) f.off (chunk (n - i)) ip1 m1
    → Loops sb src n (i + chunk (n - i)) (record f { off = f.off + chunk (n - i) }) ip1 m1 o
    → Loops sb src n i f ip m
        (do rest ← o; ok (rest.0, rest.1, rest.2, rest.3, one_round ++ rest.4))
Loops-append sb src n i f ip ip1 m m1 o g h u (inr q) = rw (q) (inr refl)
Loops-append sb src n i f ip ip1 m m1 o g h u (inl (k, r, f', ip', m', q, a, e)) =
    let c = chunk (n - i) in
    let assoc : i + c + k ≡ i + (c + k) = omega arith in
    inl (
      c + k,
      suc r,
      f',
      ip',
      m',
      rw (q) (ap (λ x. ok (x, f', ip', m', rounds (suc r))) assoc),
      Advanced-append sb f f' ip ip1 ip' m m1 m' (λ j. src (i + j)) (λ j. src (i + c + j)) c k
          (ground (arith, g)) (λ j. ap src (omega arith)) h u a,
      elim e [
        | inl (t, z) ↦ inl (omega (arith, t), ground (arith, t, z, g))
        | inr (l, d, z, b) ↦ inr (
          omega (arith, l),
          ground (arith, l, d),
          ground (arith, l, d, z),
          subst (λ x. out_of_range ip' f'.off (chunk (n - x)) ≡ true) assoc b,
        )
      ],
    )

pub count_small : (c : ℕ) → c < 2 ^ 31 → to_int c ≡ pos c
count_small c h = let e : ltb c (2 ^ 31) ≡ true = ground (arith, h) in rw (e) refl

pub move_offset_done :
    (c : ℕ) (f : File)
    → 0 < c
    → f.off + c < 2 ^ 32
    → move_offset (pos c) f ≡ record f { off = f.off + c }
move_offset_done c f g h =
    let e : ltb 0 c ≡ true = ground (arith, g) in
    let q : (f.off + c) % 2 ^ 32 ≡ f.off + c = omega (arith, h) in rw (e, q) refl

pub write_rounds-Loops :
    (fuel : ℕ) (has : ℕ → Bool) (answer : ℕ → ℤ) (sb : Superblock) (src : Data) (n i : ℕ) (f : File)
    (ip : Inode) (m : Blocks)
    → n ≤ i + fuel
    → i ≤ n
    → IsFile sb ip m
    → 1 < sb.size
    → (ip.type == t_dev) ≡ false
    → Loops sb src n i f ip m (write_rounds fuel has answer sb src n i f ip m)
unfolding write_rounds
write_rounds-Loops zero has answer sb src n i f ip m h g w l t =
    Loops-stop sb src n i 0 f ip m w (inl (omega (arith, h, g), refl))
write_rounds-Loops (suc fuel) has answer sb src n i f ip m h g w l t = elim (Bool-cases (ltb i n)) [
  | inr e ↦ rw (e) (Loops-stop sb src n i 0 f ip m w (inl (ground (arith, g, e), refl)))
  | inl e ↦
      let c = chunk (n - i) in
      let low : i < n = ltb→lt _ _ e in
      elim (writei-WritesFile has sb ip m (λ j. src (i + j)) f.off c w l t) [
        | inr (inr q) ↦ rw (e, q) (inr refl)
        | inl (r, q) ↦
            rw (e, q)
              (Loops-stop sb src n i 1 f ip m w (
                inr (
                  omega (arith, low),
                  refl,
                  refl,
                  subst (λ x. out_of_range ip f.off (chunk (n - x)) ≡ true) (omega arith) r,
                )))
        | inr (inl (ip1, m1, q, r, u)) ↦
            let some_bytes : 0 < c = ground (arith, low) in
            let p = count_small c (ground arith) in
            let a = move_offset_done c f some_bytes (ground (arith, r)) in
            let z : (c == c) ≡ true = ground arith in
            rw (e, q, p, z, a)
              (Loops-append sb src n i f ip ip1 m m1 _ low r u (
                write_rounds-Loops fuel has answer sb src n (i + c) (record f { off = f.off + c })
                  ip1 m1 (omega (arith, h, some_bytes)) (ground (arith, low)) u.file l
                  (ap (λ x. x == t_dev) u.type ∙ t)))
      ]
]
