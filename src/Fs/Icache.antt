-- ===== src/Fs/Icache.antt =====
-- fs.c, the inode cache: iget, idup and iput.
pub mod Scan
pub mod Get
pub mod Undo
pub mod Unique
pub mod Held
pub mod Tests
use kernel_tracing.Prelude.{
  ℕ, zero, suc, ◌+◌, ◌-◌, Bool, false, ◌&&◌, Option, none, some, ltb, ◌==◌, if◌then◌else◌, update,
  Outcome, ok, panic, ◌>>=◌,
}
use kernel_tracing.Spin.{acquire, release}
use kernel_tracing.Fs.{Blocks, Superblock}
use kernel_tracing.Fs.Inode.{Inode, iupdate}
use kernel_tracing.Fs.Truncate.{itrunc}

abbrev pub ninode : ℕ
ninode = 50

-- `icache`
pub record Icache : Type 0 where
  pub lock : Bool
  pub inode : ℕ → Inode

-- `ip->ref > 0 && ip->dev == dev && ip->inum == inum`
abbrev pub is_for : (dev inum : ℕ) → Inode → Bool
is_for dev inum ip = ltb 0 ip.ref && ip.dev == dev && ip.inum == inum

-- What the loop of iget finds: an entry for the inode, or else the first free entry, if any.
pub data Place : Type 0 where
  hit : ℕ → Place
  miss : Option ℕ → Place

-- `if(empty == 0 && ip->ref == 0) empty = ip`
abbrev pub first_empty : (i : ℕ) → Inode → Option ℕ → Option ℕ
first_empty i ip none = if ip.ref == 0 then some i else none
first_empty i ip (some e) = some e

pub find_entry : (left i : ℕ) → Option ℕ → (dev inum : ℕ) → (ℕ → Inode) → Place
find_entry zero i empty dev inum inode = miss empty
find_entry (suc left) i empty dev inum inode =
    let rest = find_entry left (i + 1) (first_empty i (inode i) empty) dev inum inode in
    if is_for dev inum (inode i) then hit i else rest

-- What iget makes of the entry that it finds.
abbrev pub occupy : (dev inum : ℕ) → Place → (ℕ → Inode) → Outcome (ℕ × (ℕ → Inode))
occupy dev inum (hit i) inode =
    ok (i, update inode i (record (inode i) { ref = (inode i).ref + 1 }))
occupy dev inum (miss none) inode = panic "iget: no inodes"
occupy dev inum (miss (some e)) inode =
    ok (e, update inode e (record (inode e) { dev = dev; inum = inum; ref = 1; valid = false }))

pub iget : (dev inum : ℕ) → Icache → Outcome (ℕ × Icache)
iget dev inum c = do
  locked ← acquire c.lock
  r ← occupy dev inum (find_entry ninode 0 none dev inum c.inode) c.inode
  free ← release locked
  ok (r.0, record c { lock = free; inode = r.1 })

pub idup : ℕ → Icache → Outcome Icache
idup i c = do
  locked ← acquire c.lock
  let inode = update c.inode i (record (c.inode i) { ref = (c.inode i).ref + 1 })
  free ← release locked
  ok (record c { lock = free; inode = inode })

-- The part of iput for an inode with no links and no other references; the lock is released
-- while the content is freed.
pub free_inode : Superblock → (locked : Bool) → Inode → Blocks → Outcome (Bool × Inode × Blocks)
free_inode sb locked ip m = do
  free ← release locked
  r ← itrunc sb ip m
  let ip' = record r.0 { type = 0 }
  let m' = iupdate sb ip' r.1
  locked' ← acquire free
  ok (locked', record ip' { valid = false }, m')

-- Called with a reference, so that `ip->ref--` does not go below 0.
pub iput : Superblock → ℕ → Icache → Blocks → Outcome (Icache × Blocks)
iput sb i c m = do
  locked ← acquire c.lock
  let ip = c.inode i
  r ←
      if ip.ref == 1 && ip.valid && ip.nlink == 0
      then free_inode sb locked ip m
      else ok (locked, ip, m)
  let inode = update c.inode i (record r.1 { ref = r.1.ref - 1 })
  free ← release r.0
  ok (record c { lock = free; inode = inode }, r.2)
