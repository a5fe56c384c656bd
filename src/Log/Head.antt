-- ===== src/Log/Head.antt =====
-- What the header block holds once it is written, and what is read back from it.
use kernel_tracing.Prelude.{
  ℕ, zero, suc, ◌+◌, ◌-◌, ◌<◌, ◌≡◌, ◌&&◌, arith, ltb, leb, if◌then◌else◌, update,
}
use kernel_tracing.Log.{Block, read_blocks, store_blocks}

store_blocks_lem :
    (left i : ℕ) (block : ℕ → ℕ) (b : Block) (j : ℕ)
    → store_blocks left i block b j ≡ (if ltb i j && leb j (i + left) then block (j - 1) else b j)
unfolding store_blocks
store_blocks_lem zero i block b j = ground arith
store_blocks_lem (suc left) i block b j =
    let last : j ≡ i + 1 → j - 1 ≡ i = λ e. omega arith in
    ground (arith, store_blocks_lem left (i + 1) block (update b (i + 1) (block i)) j, last)

-- The header block for `n` entries.
pub store_blocks-head :
    (n : ℕ) (block : ℕ → ℕ) (old : Block)
    → (store_blocks n 0 block (update old 0 n) 0 ≡ n)
      × ((i : ℕ) → i < n → store_blocks n 0 block (update old 0 n) (suc i) ≡ block i)
store_blocks-head n block old = (
  ground (arith, store_blocks_lem n 0 block (update old 0 n) 0),
  λ i h.
      let e : suc i - 1 ≡ i = omega arith in
      ground (arith, e, store_blocks_lem n 0 block (update old 0 n) (suc i)),
)

read_blocks_lem :
    (left i : ℕ) (b : Block) (block : ℕ → ℕ) (j : ℕ)
    → read_blocks left i b block j ≡ (if leb i j && ltb j (i + left) then b (suc j) else block j)
unfolding read_blocks
read_blocks_lem zero i b block j = ground arith
read_blocks_lem (suc left) i b block j =
    let next : j ≡ i → suc j ≡ i + 1 = λ e. omega arith in
    ground (arith, read_blocks_lem left (i + 1) b (update block i (b (i + 1))) j, next)

pub read_blocks-head :
    (n : ℕ) (b : Block) (block : ℕ → ℕ) (i : ℕ) → i < n → read_blocks n 0 b block i ≡ b (suc i)
read_blocks-head n b block i h = ground (arith, read_blocks_lem n 0 b block i)
