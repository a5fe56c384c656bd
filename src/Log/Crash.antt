-- ===== src/Log/Crash.antt =====
-- A commit is all or nothing: what the disk comes to after a power failure inside commit, any
-- number of restarts that themselves lose power, and a recovery that is left to finish.
use kernel_tracing.Prelude.{
  ℕ, ◌≤◌, ◌<◌, ◌≡◌, sym, subst, ◌∙◌, ◌⊎◌, inl, inr, List, [], ◌∷◌, arith, ltb, if◌then◌else◌,
  lt→ltb,
}
use native.Mathlib.Decide.{dec_lt}
use kernel_tracing.Log.{Block, Log, Machine, commit, initlog}
use kernel_tracing.Log.Install.{IsHome, Clear, Logged, finish-dead, finish-off, finish-on}
use kernel_tracing.Log.Recover.{recover-Clear, recover-off, recover-on}
use kernel_tracing.Log.Commit.{
  CanCommit, headed, headed-power, headed-Logged, headed-Ready, headed-off,
}

-- Restarts one after the other, each with the disk writes it makes before the power fails.
unfoldable pub restarts : (start size : ℕ) → Log → List ℕ → (ℕ → Block) → ℕ → Block
restarts start size log [] disk = disk
restarts start size log (power ∷ rest) disk =
    restarts start size log rest (initlog start size power log disk).disk

restarts-Clear :
    (start size : ℕ) (f : ℕ → Block) (log : Log) (powers : List ℕ) (disk : ℕ → Block)
    → 0 < size
    → Clear start size f disk
    → Clear start size f (restarts start size log powers disk)
unfolding restarts
restarts-Clear start size f log [] disk room c = c
restarts-Clear start size f log (power ∷ rest) disk room c =
    restarts-Clear start size f log rest _ room (recover-Clear start size f power log disk room c)

module _ (m : Machine) (can : CanCommit m) where
  abbrev InLog : (ℕ → Block) → Type 0
  InLog = Logged m.log.start m.log.size m.log.n m.log.block m.mem can.room can.home

  abbrev IsClear : (ℕ → Block) → (ℕ → Block) → Type 0
  IsClear = Clear m.log.start m.log.size

  some_room : 0 < m.log.size
  some_room = let room = can.room in omega arith

  -- Once the transaction is in the log, a restart leaves it there or ends it.
  recover-InLog :
      (power : ℕ) (log : Log) (disk : ℕ → Block)
      → InLog disk ⊎ IsClear m.mem disk
      → InLog (initlog m.log.start m.log.size power log disk).disk
        ⊎ IsClear m.mem (initlog m.log.start m.log.size power log disk).disk
  recover-InLog power log disk (inr c) = inr (recover-Clear _ _ m.mem power log disk some_room c)
  recover-InLog power log disk (inl d) = elim (dec_lt m.log.n power) [
    | yes on ↦ inr (recover-on _ _ _ _ _ can.room can.home power log disk on d)
    | no off ↦ inl (recover-off _ _ _ _ _ can.room can.home power log disk (omega arith) d)
  ]

  restarts-InLog :
      (log : Log) (powers : List ℕ) (disk : ℕ → Block)
      → InLog disk ⊎ IsClear m.mem disk
      → InLog (restarts m.log.start m.log.size log powers disk)
        ⊎ IsClear m.mem (restarts m.log.start m.log.size log powers disk)
  unfolding restarts
  restarts-InLog log [] disk d = d
  restarts-InLog log (power ∷ rest) disk d =
      restarts-InLog log rest _ (recover-InLog power log disk d)

  commit-on :
      0 < m.log.n → m.log.n < m.power → InLog (commit m).disk ⊎ IsClear m.mem (commit m).disk
  unfolding commit
  commit-on busy on =
      let ready = headed-Ready m can in
      rw (lt→ltb 0 m.log.n busy) (elim (dec_lt m.log.n (headed m can).power) [
        | yes done ↦ inr (
            finish-on _ _ _ _ _ can.room can.home (headed m can) ready done
              (headed-Logged m can on))
        | no cut ↦ inl (
            finish-off _ _ _ _ _ can.room can.home (headed m can) ready (omega arith)
              (headed-Logged m can on))
      ])

  commit-off : 0 < m.log.n → m.power ≤ m.log.n → IsClear m.disk (commit m).disk
  unfolding commit
  commit-off busy off =
      let dead : (headed m can).power ≡ 0 = headed-power m can ∙ omega arith in
      rw (lt→ltb 0 m.log.n busy) (
        subst (IsClear m.disk)
          (sym (finish-dead _ _ _ _ _ can.room can.home (headed m can) (headed-Ready m can) dead))
          (headed-off m can off))

  commit-none : m.log.n ≡ 0 → IsClear m.disk (commit m).disk
  unfolding commit
  commit-none e b = (λ q. ground (arith, can.empty, q), λ hb. ground (arith, e))

  -- A restart with enough power ends the transaction.
  settled :
      (log : Log) (power : ℕ) (disk : ℕ → Block)
      → m.log.n < power
      → InLog disk ⊎ IsClear m.mem disk
      → IsClear m.mem (initlog m.log.start m.log.size power log disk).disk
  settled log power disk on (inl d) = recover-on _ _ _ _ _ can.room can.home power log disk on d
  settled log power disk on (inr c) = recover-Clear _ _ m.mem power log disk some_room c

  undone :
      (log : Log) (powers : List ℕ) (power : ℕ)
      → IsClear m.disk (commit m).disk
      → IsClear m.disk
          (initlog m.log.start m.log.size power log
            (restarts m.log.start m.log.size log powers (commit m).disk)).disk
  undone log powers power c =
      recover-Clear _ _ m.disk power log _ some_room
        (restarts-Clear _ _ m.disk log powers _ some_room c)

  -- For a transaction that can commit: after a commit cut off by a power failure anywhere, any
  -- number of restarts each cut off anywhere in the recovery, and one restart whose recovery is
  -- left enough disk writes, every home block holds its new contents if the commit had got past
  -- the write of the header block, and every home block holds its old contents if not.
  pub commit-atomic :
      (log : Log) (powers : List ℕ) (power : ℕ)
      → m.log.n < power
      → (b : ℕ) → IsHome m.log.start m.log.size b
      → (initlog m.log.start m.log.size power log
            (restarts m.log.start m.log.size log powers (commit m).disk)).disk
          b
        ≡ (if ltb m.log.n m.power then m.mem b else m.disk b)
  commit-atomic log powers power on b hb = elim (dec_lt 0 m.log.n) [
    | yes busy ↦ elim (dec_lt m.log.n m.power) [
      | yes past ↦
          rw (lt→ltb m.log.n m.power past)
            ((settled log power _ on (restarts-InLog log powers _ (commit-on busy past)) b).1 hb)
      | no short ↦ (undone log powers power (commit-off busy (omega arith)) b).1 hb ∙ ground arith
    ]
    | no idle ↦
        let same : m.mem b ≡ m.disk b = can.clean b hb (λ i h. absurd (idle (omega arith))) in
        (undone log powers power (commit-none (omega arith)) b).1 hb ∙ ground (arith, same)
  ]
