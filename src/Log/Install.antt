-- ===== src/Log/Install.antt =====
-- What the disk holds between the write of the header block, which commits the transaction, and
-- the write that clears it.
use kernel_tracing.Prelude.{
  ℕ, zero, suc, ◌+◌, ◌-◌, ◌≤◌, ◌<◌, ◌≡◌, refl, sym, subst, ap, ap₂, ◌∙◌, ◌≢◌, ◌⊎◌, inl, inr, arith,
  ◌==◌, ==_iff, Bool-cases, update,
}
use native.Mathlib.Decide.{dec_lt}
use kernel_tracing.Log.{Block, Machine, store_blocks, install_trans, write_head, clear_n}
use kernel_tracing.Log.Copies.{
  bwrite-off, bwrite-on, copies, install_loop-copies, copies-log, copies-power, copies_disk,
  copies_done, copies-off,
}

-- The block is not one of the log's.
abbrev pub IsHome : (start size b : ℕ) → Type 0
IsHome start size b = (b < start) ⊎ (start + size ≤ b)

-- An empty log on the disk, and the contents `f` in all home blocks.
abbrev pub Clear : (start size : ℕ) → (ℕ → Block) → (ℕ → Block) → Type 0
Clear start size f disk =
    (b : ℕ) → (b ≡ start → disk b 0 ≡ 0) × (IsHome start size b → disk b ≡ f b)

-- Among the first n entries, one is b or none is.
pub listed :
    (n : ℕ) (block : ℕ → ℕ) (b : ℕ)
    → ((i : ℕ) × ((i < n) × (block i ≡ b))) ⊎ ((i : ℕ) → i < n → block i ≢ b)
listed zero block b = inr (λ i h. ground arith)
listed (suc n) block b = elim (Bool-cases (block n == b)) [
  | inl e ↦ inl (n, (omega arith, (==_iff _ _).0 e))
  | inr e ↦ elim (listed n block b) [
    | inl found ↦ inl (found.0, (omega arith, found.1.1))
    | inr none_of ↦
        inr (λ i h. elim (dec_lt i n) [ yes lt ↦ none_of i lt | no ge ↦ λ q. ground (arith, e, q) ])
  ]
]

module _ (start size n : ℕ) (block : ℕ → ℕ) (new : ℕ → Block) (room : n < size)
    (home : (i : ℕ) → i < n → IsHome start size (block i)) where
  -- What block b may hold while the transaction is in the log: the header block counts and names
  -- the n entries, the copies are there, and every home block that is no entry is as it is to be.
  abbrev pub Logs : ℕ → Block → Type 0
  Logs b x =
      (b ≡ start → (x 0 ≡ n) × ((i : ℕ) → i < n → x (suc i) ≡ block i))
      × ((i : ℕ) → i < n → b ≡ start + i + 1 → x ≡ new (block i))
      × (IsHome start size b → ((i : ℕ) → i < n → block i ≢ b) → x ≡ new b)

  abbrev pub Logged : (ℕ → Block) → Type 0
  Logged disk = (b : ℕ) → Logs b (disk b)

  -- A machine whose log in memory is the one on the disk.
  pub record Ready (m : Machine) : Type 0 where
    pub at_start : m.log.start ≡ start
    pub count : m.log.n ≡ n
    pub entries : (i : ℕ) → i < n → m.log.block i ≡ block i
    pub cached : (i : ℕ) → i < n → m.mem (start + i + 1) ≡ new (block i)

  home-apart : (i k : ℕ) → i < n → k < size → block i ≢ start + k
  home-apart i k h g e = elim (home i h) [ inl lt ↦ omega arith | inr ge ↦ omega arith ]

  Logs-home : (i : ℕ) → i < n → Logs (block i) (new (block i))
  Logs-home i h = (
    λ e. absurd (home-apart i 0 h (omega arith) (omega arith)),
    λ j g e. absurd (home-apart i (j + 1) h (omega arith) (omega arith)),
    λ _ none_of. absurd (none_of i h refl),
  )

  install_copies :
      (m : Machine) → Ready m → install_trans m ≡ copies m.log.block (λ i. start + i + 1) n 0 m
  unfolding install_trans
  install_copies m r =
      install_loop-copies m.log.n 0 m m.log refl
      ∙ ap₂ (λ s k. copies m.log.block (λ i. s + i + 1) k 0 m) r.at_start r.count

  log-apart : (b : ℕ) → IsHome start size b → (i : ℕ) → i < n → start + i + 1 ≢ b
  log-apart b hb i h e = elim hb [ inl lt ↦ omega arith | inr ge ↦ omega arith ]

  apart : (m : Machine) → Ready m → (i j : ℕ) → i < n → j < n → start + i + 1 ≢ m.log.block j
  apart m r i j h g e = log-apart (block j) (home j g) i h (e ∙ r.entries j g)

  sources :
      (m : Machine) (r : Ready m) (i : ℕ) → i < n → m.mem (start + i + 1) ≡ new (m.log.block i)
  sources m r i h = r.cached i h ∙ ap new (sym (r.entries i h))

  pub install-Logged : (m : Machine) → Ready m → Logged m.disk → Logged (install_trans m).disk
  install-Logged m r d b =
      let put : (i : ℕ) → i < n → Logs (m.log.block i) (new (m.log.block i)) =
        λ i h. subst (λ k. Logs k (new k)) (sym (r.entries i h)) (Logs-home i h) in
      subst (λ k. Logs b (k.disk b)) (sym (install_copies m r))
        (copies_disk m.log.block (λ i. start + i + 1) n new (apart m r) Logs put n 0 (omega arith) m
          (sources m r) d b)

  pub install-done :
      (m : Machine)
      → Ready m
      → n ≤ m.power
      → (i : ℕ) → i < n
      → (install_trans m).disk (block i) ≡ new (block i)
  install-done m r on i h =
      let done : (i : ℕ)
          → i < n
          → (copies m.log.block (λ i. start + i + 1) n 0 m).disk (m.log.block i)
            ≡ new (m.log.block i) =
        copies_done m.log.block (λ i. start + i + 1) n new (apart m r) n 0 (omega arith) m on
          (sources m r) (λ i h. ground arith) in
      ap (λ k. k.disk (block i)) (install_copies m r)
      ∙ subst (λ k. (copies m.log.block (λ i. start + i + 1) n 0 m).disk k ≡ new k) (r.entries i h)
          (done i h)

  -- install_trans and the write of the empty header.
  abbrev pub finish : Machine → Machine
  finish m = write_head (clear_n (install_trans m))

  install-power : (m : Machine) → Ready m → (install_trans m).power ≡ m.power - n
  install-power m r =
      ap (λ k. k.power) (install_copies m r) ∙ copies-power m.log.block (λ i. start + i + 1) n 0 m

  install-start : (m : Machine) → Ready m → (install_trans m).log.start ≡ start
  install-start m r =
      ap (λ k. k.log.start) (install_copies m r)
      ∙ ap (λ k. k.start) (copies-log m.log.block (λ i. start + i + 1) n 0 m)
      ∙ r.at_start

  pub finish-off : (m : Machine) → Ready m → m.power ≤ n → Logged m.disk → Logged (finish m).disk
  unfolding write_head
  finish-off m r off d =
      subst Logged (sym (bwrite-off _ _ (install-power m r ∙ omega arith))) (install-Logged m r d)

  pub finish-on :
      (m : Machine) → Ready m → n < m.power → Logged m.disk → Clear start size new (finish m).disk
  unfolding write_head store_blocks
  finish-on m r on d b =
      let m' = clear_n (install_trans m) in
      let hb : Block = update (m'.mem m'.log.start) 0 0 in
      let on' : 0 < m'.power = subst (λ k. 0 < k) (sym (install-power m r)) (omega arith) in
      let out : (finish m).disk b ≡ update m'.disk m'.log.start hb b =
        ap (λ f. f b) (bwrite-on _ _ on') ∙ ground arith in
      let at : m'.log.start ≡ start = install-start m r in
      let done : IsHome start size b → m'.disk b ≡ new b = λ hb. elim (listed n block b) [
        | inl found ↦
            subst (λ k. m'.disk k ≡ new k) found.1.1
              (install-done m r (omega arith) found.0 found.1.0)
        | inr none_of ↦ (install-Logged m r d b).2 hb none_of
      ] in
      (
        λ e. ap (λ f. f 0) out ∙ ground (arith, at, e),
        λ hb.
            let ne : start ≢ b = λ e. elim hb [ inl lt ↦ omega arith | inr ge ↦ omega arith ] in
            out ∙ ground (arith, at, ne, done hb),
      )

  pub finish-dead : (m : Machine) → Ready m → m.power ≡ 0 → (finish m).disk ≡ m.disk
  unfolding write_head
  finish-dead m r dead =
      bwrite-off _ _ (install-power m r ∙ omega arith)
      ∙ ap (λ k. k.disk) (install_copies m r)
      ∙ copies-off m.log.block (λ i. start + i + 1) n 0 m dead
