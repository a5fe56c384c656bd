-- ===== src/Fs/Truncate.antt =====
-- fs.c, itrunc: an inode gives its blocks back. bfree is that of kernel_tracing.Fs.
pub mod Freeing
pub mod Truncated
pub mod Named
pub mod Tests
use kernel_tracing.Prelude.{ℕ, zero, suc, ◌+◌, ◌*◌, ◌==◌, if◌then◌else◌, update, Outcome, ok, ◌>>=◌}
use kernel_tracing.Fs.{Blocks, Superblock, uint_at, bfree}
use kernel_tracing.Fs.Inode.{Inode, ndirect, nindirect, iupdate}

-- `if(ip->addrs[i]) ...`
abbrev pub free_slot : ℕ → Inode → Blocks → Outcome (Inode × Blocks)
free_slot i ip m =
    if ip.addrs i == 0
    then ok (ip, m)
    else (do m' ← bfree (ip.addrs i) m; ok (record ip { addrs = update ip.addrs i 0 }, m'))

-- The loop over the direct addresses, `left` rounds to go.
pub free_direct : (left i : ℕ) → Inode → Blocks → Outcome (Inode × Blocks)
free_direct zero i ip m = ok (ip, m)
free_direct (suc left) i ip m = do r ← free_slot i ip m; free_direct left (i + 1) r.0 r.1

-- `if(a[j]) bfree(ip->dev, a[j]);`, with a in block b
abbrev pub free_entry : (b j : ℕ) → Blocks → Outcome Blocks
free_entry b j m = if uint_at (m b) (4 * j) == 0 then ok m else bfree (uint_at (m b) (4 * j)) m

pub free_entries : (left b j : ℕ) → Blocks → Outcome Blocks
free_entries zero b j m = ok m
free_entries (suc left) b j m = do m' ← free_entry b j m; free_entries left b (j + 1) m'

-- `if(ip->addrs[NDIRECT]) ...`
pub free_indirect : Inode → Blocks → Outcome (Inode × Blocks)
free_indirect ip m = if ip.addrs ndirect == 0 then ok (ip, m) else (do
  m1 ← free_entries nindirect (ip.addrs ndirect) 0 m
  m2 ← bfree (ip.addrs ndirect) m1
  ok (record ip { addrs = update ip.addrs ndirect 0 }, m2))

pub itrunc : Superblock → Inode → Blocks → Outcome (Inode × Blocks)
itrunc sb ip m = do
  d ← free_direct ndirect 0 ip m
  e ← free_indirect d.0 d.1
  let ip' = record e.0 { size = 0 }
  ok (ip', iupdate sb ip' e.1)
