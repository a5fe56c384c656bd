-- ===== src/Bio/View.antt =====
-- bio.c: what the buffer cache shows of the disk, and when it is in order.
use kernel_tracing.Prelude.{
  ℕ, ◌≡◌, ◌≢◌, Bool, true, false, ◌||◌, Option, none, some, List, [], ◌∷◌, ltb, ◌==◌, if◌then◌else◌,
}
use kernel_tracing.Bio.{Buf, Cache, Data, nbuf, holds, find_cached}

unfoldable pub has : ℕ → List ℕ → Bool
has i [] = false
has i (j ∷ l) = j == i || has i l

-- The data of the buffer that was found, if they are valid; else what is on the disk.
abbrev pub shown : Option ℕ → (ℕ → Buf) → Data → Data
shown none buf on_disk = on_disk
shown (some i) buf on_disk = if (buf i).valid then (buf i).bytes else on_disk

-- What block blockno of disk 1 holds for those who use the cache.
abbrev pub content : Cache → (blockno : ℕ) → Data
content c blockno = shown (find_cached c.order 1 blockno c.buf) c.buf (c.disk blockno)

-- A buffer whose data, if valid, are those on the disk.
abbrev pub IsFlushed : Cache → ℕ → Type 0
IsFlushed c i =
    (c.buf i).dev ≡ 1
    → (c.buf i).valid ≡ true
    → (c.buf i).dirty ≡ false
    → (c.buf i).bytes ≡ c.disk (c.buf i).blockno

-- The list holds all buffers and nothing else; a block has one buffer (device 0 is that of buffers
-- never used); dirty data are valid; a buffer nobody uses has no data of its own but dirty ones.
pub record IsCoherent (c : Cache) : Type 0 where
  pub whole : (i : ℕ) → has i c.order ≡ ltb i nbuf
  pub unique :
      (i j dev blockno : ℕ)
      → has i c.order ≡ true
      → has j c.order ≡ true
      → dev ≢ 0
      → holds dev blockno (c.buf i) ≡ true
      → holds dev blockno (c.buf j) ≡ true
      → i ≡ j
  pub filled : (i : ℕ) → (c.buf i).dirty ≡ true → (c.buf i).valid ≡ true
  pub flushed : (i : ℕ) → has i c.order ≡ true → (c.buf i).refcnt ≡ 0 → IsFlushed c i
