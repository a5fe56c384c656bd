-- ===== src/Log/Recover.antt =====
-- Recovery of the log, by a restart that may lose power itself: what it leaves on the disk.
use kernel_tracing.Prelude.{ℕ, ◌+◌, ◌≤◌, ◌<◌, ◌≡◌, refl, sym, subst, ap, ◌∙◌, inl, inr, arith}
use kernel_tracing.Log.{
  Block, Log, Machine, read_head, store_blocks, install_loop, install_trans, write_head, clear_n,
  recover_from_log, initlog,
}
use kernel_tracing.Log.Copies.{bwrite-disk}
use kernel_tracing.Log.Head.{read_blocks-head}
use kernel_tracing.Log.Install.{IsHome, Clear, Logged, Ready, finish-off, finish-on}

-- Recovery of an empty log leaves the home blocks alone, wherever it is cut off.
pub recover-Clear :
    (start size : ℕ) (f : ℕ → Block) (power : ℕ) (log : Log) (disk : ℕ → Block)
    → 0 < size
    → Clear start size f disk
    → Clear start size f (initlog start size power log disk).disk
unfolding initlog recover_from_log read_head install_trans install_loop write_head store_blocks
recover-Clear start size f power log disk room c =
    let head : disk start 0 ≡ 0 = (c start).0 refl in
    let m : Machine = record {
      log = record log { start = start; size = size };
      mem = disk;
      disk = disk;
      power = power;
    } in
    let last : Machine → Machine = λ k. write_head (clear_n k) in
    let same : install_trans (read_head m) ≡ read_head m =
      ap (λ k. install_loop k 0 (read_head m)) head in
    subst (λ k. Clear start size f (last k).disk) (sym same)
      (bwrite-disk (λ b x. (b ≡ start → x 0 ≡ 0) × (IsHome start size b → x ≡ f b)) _ _
        (λ _. ground arith, λ hb. elim hb [ inl lt ↦ ground arith | inr ge ↦ ground arith ]) c)

module _ (start size n : ℕ) (block : ℕ → ℕ) (new : ℕ → Block) (room : n < size)
    (home : (i : ℕ) → i < n → IsHome start size (block i)) where
  -- Recovery of a disk that holds the transaction.
  recover-Ready :
      (power : ℕ) (log : Log) (disk : ℕ → Block)
      → Logged start size n block new room home disk
      → Ready start size n block new room home (
          read_head (record {
            log = record log { start = start; size = size };
            mem = disk;
            disk = disk;
            power = power;
          }))
  unfolding read_head
  recover-Ready power log disk d =
      let head = (d start).0 refl in
      record {
        at_start = refl;
        count = head.0;
        entries =
            λ i h. read_blocks-head _ _ _ i (subst (λ k. i < k) (sym (head.0)) h) ∙ head.1 i h;
        cached = λ i h. (d (start + i + 1)).1 i h refl;
      }

  pub recover-off :
      (power : ℕ) (log : Log) (disk : ℕ → Block)
      → power ≤ n
      → Logged start size n block new room home disk
      → Logged start size n block new room home (initlog start size power log disk).disk
  unfolding initlog recover_from_log read_head
  recover-off power log disk off d =
      finish-off start size n block new room home _ (recover-Ready power log disk d) off d

  pub recover-on :
      (power : ℕ) (log : Log) (disk : ℕ → Block)
      → n < power
      → Logged start size n block new room home disk
      → Clear start size new (initlog start size power log disk).disk
  unfolding initlog recover_from_log read_head
  recover-on power log disk on d =
      finish-on start size n block new room home _ (recover-Ready power log disk d) on d
