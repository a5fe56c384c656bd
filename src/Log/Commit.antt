-- ===== src/Log/Commit.antt =====
-- The commit of a transaction up to the write of the header block, and what a power failure leaves.
use kernel_tracing.Prelude.{
  ℕ, suc, ◌+◌, ◌-◌, ◌≤◌, ◌<◌, ◌≡◌, refl, sym, subst, ap, ◌∙◌, fun_ext, ◌≢◌, inl, inr, arith, update,
}
use kernel_tracing.Log.{Block, Log, Machine, store_blocks, write_log, write_head}
use kernel_tracing.Log.Copies.{
  bwrite-log, bwrite-mem, bwrite-power, bwrite-off, bwrite-on, copies, write_loop-copies,
  copies-log, copies-power, copies_mem, copies_disk, copies_done,
}
use kernel_tracing.Log.Head.{store_blocks-head}
use kernel_tracing.Log.Install.{IsHome, Clear, Logged, Ready}

-- What begin_op, end_op and log_write keep true of the log when a commit starts: there is room
-- for its entries, these are home blocks, the log on the disk is empty, and the cache differs from the
-- disk only in blocks that are entries.
pub record CanCommit (m : Machine) : Type 0 where
  pub room : m.log.n < m.log.size
  pub home : (i : ℕ) → i < m.log.n → IsHome m.log.start m.log.size (m.log.block i)
  pub empty : m.disk m.log.start 0 ≡ 0
  pub clean :
      (b : ℕ)
      → IsHome m.log.start m.log.size b
      → ((i : ℕ) → i < m.log.n → m.log.block i ≢ b)
      → m.mem b ≡ m.disk b

pub write_head-on :
    (m : Machine) (l : Log)
    → m.log ≡ l
    → 0 < m.power
    → (write_head m).disk
      ≡ update m.disk l.start (store_blocks l.n 0 l.block (update (m.mem l.start) 0 l.n))
unfolding write_head
write_head-on m l e on =
    bwrite-on _ _ on
    ∙ fun_ext (λ b. ground arith)
    ∙ ap (λ l. update m.disk l.start (store_blocks l.n 0 l.block (update (m.mem l.start) 0 l.n))) e

write_head-mem :
    (m : Machine) (l : Log)
    → m.log ≡ l
    → (write_head m).mem
      ≡ update m.mem l.start (store_blocks l.n 0 l.block (update (m.mem l.start) 0 l.n))
unfolding write_head
write_head-mem m l e =
    bwrite-mem _ _
    ∙ ap (λ l. update m.mem l.start (store_blocks l.n 0 l.block (update (m.mem l.start) 0 l.n))) e

module _ (m : Machine) (can : CanCommit m) where
  abbrev pub start : ℕ
  start = m.log.start

  -- The block a log block is a copy of.
  abbrev copy_of : ℕ → Block
  copy_of b = m.mem (m.log.block (b - start - 1))

  log_copies : write_log m ≡ copies (λ i. start + i + 1) m.log.block m.log.n 0 m
  unfolding write_log
  log_copies = write_loop-copies m.log.n 0 m m.log refl

  home-apart : (i j : ℕ) → i < m.log.n → j < m.log.n → m.log.block i ≢ start + j + 1
  home-apart i j h g e =
      let room = can.room in elim (can.home i h) [ inl lt ↦ omega arith | inr ge ↦ omega arith ]

  sources : (i : ℕ) → i < m.log.n → m.mem (m.log.block i) ≡ copy_of (start + i + 1)
  sources i h = ap (λ k. m.mem (m.log.block k)) (omega arith)

  copy_of_lem : (i : ℕ) → copy_of (start + i + 1) ≡ m.mem (m.log.block i)
  copy_of_lem i = ap (λ k. m.mem (m.log.block k)) (omega arith)

  log-power : (write_log m).power ≡ m.power - m.log.n
  log-power =
      ap (λ k. k.power) log_copies ∙ copies-power (λ i. start + i + 1) m.log.block m.log.n 0 m

  log-log : (write_log m).log ≡ m.log
  log-log = ap (λ k. k.log) log_copies ∙ copies-log (λ i. start + i + 1) m.log.block m.log.n 0 m

  log-Clear : Clear start m.log.size m.disk (write_log m).disk
  log-Clear =
      let P : ℕ → Block → Type 0 =
        λ b x. (b ≡ start → x 0 ≡ 0) × (IsHome start m.log.size b → x ≡ m.disk b) in
      let put : (i : ℕ) → i < m.log.n → P (start + i + 1) (copy_of (start + i + 1)) = λ i h. (
        λ e. ground arith,
        λ hb. let room = can.room in elim hb [ inl lt ↦ ground arith | inr ge ↦ ground arith ],
      ) in
      let was : (b : ℕ) → P b (m.disk b) =
        λ b. (λ e. ap (λ k. m.disk k 0) e ∙ can.empty, λ _. refl) in
      subst (λ k. (b : ℕ) → P b (k.disk b)) (sym log_copies)
        (copies_disk (λ i. start + i + 1) m.log.block m.log.n copy_of home-apart P put m.log.n 0
          (omega arith) m sources was)

  log-done :
      m.log.n ≤ m.power
      → (i : ℕ) → i < m.log.n
      → (write_log m).disk (start + i + 1) ≡ m.mem (m.log.block i)
  log-done on i h =
      ap (λ k. k.disk (start + i + 1)) log_copies
      ∙ copies_done (λ i. start + i + 1) m.log.block m.log.n copy_of home-apart m.log.n 0
          (omega arith) m on sources (λ i h. ground arith) i h
      ∙ copy_of_lem i

  log-cached : (i : ℕ) → i < m.log.n → (write_log m).mem (start + i + 1) ≡ m.mem (m.log.block i)
  log-cached i h =
      ap (λ k. k.mem (start + i + 1)) log_copies
      ∙ copies_mem (λ i. start + i + 1) m.log.block m.log.n copy_of home-apart m.log.n 0
          (omega arith) m sources (λ i h. ground arith) i h
      ∙ copy_of_lem i

  abbrev pub headed : Machine
  headed = write_head (write_log m)

  headed-log : headed.log ≡ m.log
  unfolding write_head
  headed-log = bwrite-log _ _ ∙ log-log

  pub headed-power : headed.power ≡ m.power - m.log.n - 1
  unfolding write_head
  headed-power = bwrite-power _ _ ∙ ap (λ k. k - 1) log-power

  pub headed-Logged :
      m.log.n < m.power
      → Logged start m.log.size m.log.n m.log.block m.mem can.room can.home headed.disk
  headed-Logged on b =
      let on' : 0 < (write_log m).power = subst (λ k. 0 < k) (sym log-power) (omega arith) in
      let head = store_blocks-head m.log.n m.log.block ((write_log m).mem start) in
      let hb : Block =
        store_blocks m.log.n 0 m.log.block (update ((write_log m).mem start) 0 m.log.n) in
      let out : headed.disk b ≡ update (write_log m).disk start hb b =
        ap (λ d. d b) (write_head-on (write_log m) m.log log-log on') in
      let here : b ≡ start → headed.disk b ≡ hb = λ e. out ∙ ground (arith, e) in
      let there : b ≢ start → headed.disk b ≡ (write_log m).disk b =
        λ ne. out ∙ ground (arith, ne) in
      (
        λ e. (ap (λ x. x 0) (here e) ∙ head.0, λ i h. ap (λ x. x (suc i)) (here e) ∙ head.1 i h),
        λ i h e. there (λ q. omega arith) ∙ ap (write_log m).disk e ∙ log-done (omega arith) i h,
        λ hb none_of.
            let room = can.room in
            let ne : b ≢ start = λ e. elim hb [ inl lt ↦ omega arith | inr ge ↦ omega arith ] in
            there ne ∙ (log-Clear b).1 hb ∙ sym (can.clean b hb none_of),
      )

  pub headed-Ready : Ready start m.log.size m.log.n m.log.block m.mem can.room can.home headed
  headed-Ready = record {
    at_start = ap (λ l. l.start) headed-log;
    count = ap (λ l. l.n) headed-log;
    entries = λ i h. ap (λ l. l.block i) headed-log;
    cached = λ i h.
        ap (λ f. f (start + i + 1)) (write_head-mem (write_log m) m.log log-log)
        ∙ ground (arith, log-cached i h);
  }

  pub headed-off : m.power ≤ m.log.n → Clear start m.log.size m.disk headed.disk
  unfolding write_head
  headed-off off =
      let dead : (write_log m).power ≡ 0 = log-power ∙ omega arith in
      subst (Clear start m.log.size m.disk) (sym (bwrite-off _ _ dead)) log-Clear
