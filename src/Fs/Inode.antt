-- ===== src/Fs/Inode.antt =====
-- fs.c, the content of inodes: bmap, readi and writei, and the copy of an inode on the disk. There
-- is one device; the blocks are those of kernel_tracing.Fs, and a short is its 16 bits.
pub mod Words
pub mod Address
pub mod Mapped
pub mod Found
pub mod Content
pub mod Reading
pub mod Stored
pub mod Writing
pub mod Update
pub mod Writei
pub mod Tests
use kernel_tracing.Prelude.{
  ℕ, zero, suc, ◌+◌, ◌-◌, ◌*◌, ◌/◌, ◌%◌, ◌^◌, min, Bool, true, ◌&&◌, ◌||◌, not, List, ◌∷◌, ◌++◌,
  ltb, leb, ◌==◌, if◌then◌else◌, update, Outcome, ok, panic, [], ◌>>=◌,
}
use kernel_tracing.SleepLock.{SleepLock}
use kernel_tracing.Fs.{Data, Blocks, Superblock, uint_at, balloc}

abbrev pub bsize : ℕ
bsize = 512

abbrev pub ndirect : ℕ
ndirect = 12

abbrev pub nindirect : ℕ
nindirect = 128

abbrev pub maxfile : ℕ
maxfile = 140

abbrev pub ipb : ℕ
ipb = 8

abbrev pub ndev : ℕ
ndev = 10

-- T_DIR, T_FILE and T_DEV
abbrev pub t_dir : ℕ
t_dir = 1

abbrev pub t_file : ℕ
t_file = 2

abbrev pub t_dev : ℕ
t_dev = 3

-- `struct inode`, its flag I_VALID as a Boolean
pub record Inode : Type 0 where
  pub dev : ℕ
  pub inum : ℕ
  pub ref : ℕ
  pub lock : SleepLock
  pub valid : Bool
  pub type : ℕ
  pub major : ℕ
  pub minor : ℕ
  pub nlink : ℕ
  pub size : ℕ
  pub addrs : ℕ → ℕ

-- Byte k of a word, and a word of two or four bytes stored at byte i.
unfoldable pub byte_of : (k v : ℕ) → ℕ
byte_of zero v = v % 256
byte_of (suc k) v = byte_of k (v / 256)

abbrev pub put_word : (len i v : ℕ) → Data → Data
put_word len i v d j = if leb i j && ltb j (i + len) then byte_of (j - i) v else d j

-- `if((addr = ip->addrs[i]) == 0) ip->addrs[i] = addr = balloc(ip->dev)`
unfoldable pub map_slot : Superblock → Inode → ℕ → Blocks → Outcome (ℕ × Inode × Blocks)
map_slot sb ip i m =
    if ip.addrs i == 0
    then (do r ← balloc sb m; ok (r.0, record ip { addrs = update ip.addrs i r.0 }, r.1))
    else ok (ip.addrs i, ip, m)

-- `if((addr = a[bn]) == 0) ...` in the indirect block
pub map_entry : Superblock → Inode → (block bn : ℕ) → Blocks → Outcome (ℕ × Inode × Blocks)
map_entry sb ip block bn m =
    if uint_at (m block) (4 * bn) == 0
    then (do r ← balloc sb m; ok (r.0, ip, update r.1 block (put_word 4 (4 * bn) r.0 (r.1 block))))
    else ok (uint_at (m block) (4 * bn), ip, m)

unfoldable pub bmap : Superblock → Inode → ℕ → Blocks → Outcome (ℕ × Inode × Blocks)
unfolding map_slot map_entry
bmap sb ip bn m =
    if ltb bn ndirect
    then map_slot sb ip bn m
    else if ltb (bn - ndirect) nindirect
    then (do r ← map_slot sb ip ndirect m; map_entry sb r.1 r.0 (bn - ndirect) r.2)
    else panic "bmap: out of range"

-- The bytes that a memmove takes from d.
unfoldable pub bytes_from : (len start : ℕ) → Data → List ℕ
bytes_from zero start d = []
bytes_from (suc len) start d = d start ∷ bytes_from len (start + 1) d

-- What a memmove to byte `start` of d leaves there.
abbrev pub bytes_into : (len start : ℕ) (src : Data) (pos : ℕ) → Data → Data
bytes_into len start src pos d j =
    if leb start j && ltb j (start + len) then src (pos + (j - start)) else d j

-- The loop of readi with `left` bytes to go: the bytes stored at dst.
unfoldable pub read_loop :
    (fuel : ℕ) → Superblock → Inode → (off left : ℕ) → Blocks → Outcome (List ℕ × Inode × Blocks)
read_loop zero sb ip off left m = ok ([], ip, m)
read_loop (suc fuel) sb ip off left m = if left == 0 then ok ([], ip, m) else (do
  r ← bmap sb ip (off / bsize) m
  let len = min left (bsize - off % bsize)
  rest ← read_loop fuel sb r.1 (off + len) (left - len) r.2
  ok (bytes_from len (off % bsize) (r.2 r.0) ++ rest.0, rest.1, rest.2))

-- What readi and writei return: -1, what a device returns, or a count.
pub data IoResult : Type 0 where
  refused : IoResult
  device : (major : ℕ) → IoResult
  done : (count : ℕ) → IoResult

-- `ip->major < 0 || ip->major >= NDEV || !devsw[ip->major].read`, with `has` for the last test.
abbrev pub bad_device : (has : ℕ → Bool) → Inode → Bool
bad_device has ip = leb (2 ^ 15) ip.major || leb ndev ip.major || not (has ip.major)

abbrev pub device_call : (has : ℕ → Bool) → Inode → IoResult
device_call has ip = if bad_device has ip then refused else device ip.major

-- `off > ip->size || off + n < off`
abbrev pub bad_range : Inode → (off n : ℕ) → Bool
bad_range ip off n = ltb ip.size off || ltb ((off + n) % 2 ^ 32) off

-- The bytes read before the end of the file.
abbrev pub clipped : Inode → (off n : ℕ) → ℕ
clipped ip off n = if ltb ip.size (off + n) then ip.size - off else n

unfoldable pub readi :
    (has : ℕ → Bool)
    → Superblock
    → Inode
    → (off n : ℕ) → Blocks
    → Outcome (IoResult × List ℕ × Inode × Blocks)
readi has sb ip off n m =
    if ip.type == t_dev
    then ok (device_call has ip, [], ip, m)
    else if bad_range ip off n
    then ok (refused, [], ip, m)
    else (do let k = clipped ip off n; r ← read_loop k sb ip off k m; ok (done k, r.0, r.1, r.2))

-- The loop of writei from byte `pos` of src, with `left` bytes to go.
unfoldable pub write_loop :
    (fuel : ℕ)
    → Superblock
    → Inode
    → (src : Data) (pos off left : ℕ) → Blocks
    → Outcome (Inode × Blocks)
write_loop zero sb ip src pos off left m = ok (ip, m)
write_loop (suc fuel) sb ip src pos off left m = if left == 0 then ok (ip, m) else (do
  r ← bmap sb ip (off / bsize) m
  let len = min left (bsize - off % bsize)
  write_loop fuel sb r.1 src (pos + len) (off + len) (left - len)
      (update r.2 r.0 (bytes_into len (off % bsize) src pos (r.2 r.0))))

-- `IBLOCK(i, sb)`, and the place of the inode in that block
abbrev pub iblock : ℕ → Superblock → ℕ
iblock i sb = i / ipb + sb.inodestart

abbrev pub place : ℕ → ℕ
place inum = inum % ipb * 64

-- `memmove(dip->addrs, ip->addrs, sizeof(ip->addrs))`
abbrev pub put_addrs : (i : ℕ) (addrs : ℕ → ℕ) → Data → Data
put_addrs i addrs d j =
    if leb i j && ltb j (i + 52) then byte_of ((j - i) % 4) (addrs ((j - i) / 4)) else d j

abbrev pub put_dinode : (i : ℕ) → Inode → Data → Data
put_dinode i ip d = put_addrs (i + 12) ip.addrs (
    put_word 4 (i + 8) ip.size (
      put_word 2 (i + 6) ip.nlink
        (put_word 2 (i + 4) ip.minor (put_word 2 (i + 2) ip.major (put_word 2 i ip.type d)))))

unfoldable pub iupdate : Superblock → Inode → Blocks → Blocks
iupdate sb ip m =
    update m (iblock ip.inum sb) (put_dinode (place ip.inum) ip (m (iblock ip.inum sb)))

-- `if(n > 0 && off > ip->size) ...` at the end of writei
unfoldable pub grow : Superblock → (n off : ℕ) → Inode × Blocks → Inode × Blocks
grow sb n off (ip, m) =
    if ltb 0 n && ltb ip.size off
    then (let ip' = record ip { size = off } in (ip', iupdate sb ip' m))
    else (ip, m)

unfoldable pub writei :
    (has : ℕ → Bool)
    → Superblock
    → Inode
    → (src : Data) (off n : ℕ) → Blocks
    → Outcome (IoResult × Inode × Blocks)
unfolding grow
writei has sb ip src off n m =
    if ip.type == t_dev
    then ok (device_call has ip, ip, m)
    else if bad_range ip off n
    then ok (refused, ip, m)
    else if ltb (maxfile * bsize) (off + n)
    then ok (refused, ip, m)
    else (do
      r ← write_loop n sb ip src 0 off n m
      let g = grow sb n (off + n) r
      ok (done n, g.0, g.1))

abbrev pub short_at : Data → ℕ → ℕ
short_at d i = d i + d (i + 1) * 2 ^ 8

-- `if(!(ip->flags & I_VALID)) ...` of ilock
unfoldable pub load_inode : Superblock → Inode → Blocks → Outcome Inode
load_inode sb ip m =
    if ip.valid
    then ok ip
    else (let d = m (iblock ip.inum sb) in
        let i = place ip.inum in
        if short_at d i == 0
        then panic "ilock: no type"
        else ok (record ip {
          type = short_at d i;
          major = short_at d (i + 2);
          minor = short_at d (i + 4);
          nlink = short_at d (i + 6);
          size = uint_at d (i + 8);
          addrs = λ k. if ltb k 13 then uint_at d (i + 12 + 4 * k) else ip.addrs k;
          valid = true;
        }))
