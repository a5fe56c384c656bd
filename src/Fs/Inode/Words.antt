-- ===== src/Fs/Inode/Words.antt =====
-- fs.c: words of two and four bytes in a block.
use kernel_tracing.Prelude.{
  ℕ, ◌+◌, ◌-◌, ◌*◌, ◌/◌, ◌%◌, ◌^◌, ◌≤◌, ◌<◌, ◌≡◌, refl, sym, ap, ap₂, ◌∙◌, true, false, ◌&&◌, ◌||◌,
  arith, ltb, leb,
}
use kernel_tracing.Fs.{Data, uint_at}
use kernel_tracing.Fs.Inode.{byte_of, put_word, short_at, put_addrs}

-- A stored word is what is read at its place, and nothing else changes.
pub uint_at-put_word : (i v : ℕ) (d : Data) → v < 2 ^ 32 → uint_at (put_word 4 i v d) i ≡ v
unfolding byte_of
uint_at-put_word i v d h = ground arith

pub short_at-put_word : (i v : ℕ) (d : Data) → v < 2 ^ 16 → short_at (put_word 2 i v d) i ≡ v
unfolding byte_of
short_at-put_word i v d h = ground arith

pub put_word_other :
    (len i v j : ℕ) (d : Data) → (leb i j && ltb j (i + len)) ≡ false → put_word len i v d j ≡ d j
put_word_other len i v j d h = rw (h) refl

pub uint_at-put_word_other :
    (i v j : ℕ) (d : Data)
    → (leb (j + 4) i || leb (i + 4) j) ≡ true
    → uint_at (put_word 4 i v d) j ≡ uint_at d j
uint_at-put_word_other i v j d h = ground (arith, h)

-- The word at one place does not see what is stored at another.
apart_byte :
    (len i v j : ℕ) (d : Data)
    → (leb (j + 1) i || leb (i + len) j) ≡ true
    → put_word len i v d j ≡ d j
apart_byte len i v j d h = put_word_other len i v j d (ground (arith, h))

pub short_at-put_word_other :
    (len i v j : ℕ) (d : Data)
    → (leb (j + 2) i || leb (i + len) j) ≡ true
    → short_at (put_word len i v d) j ≡ short_at d j
short_at-put_word_other len i v j d h =
    ap₂ (λ x y. x + y * 2 ^ 8) (apart_byte len i v j d (ground (arith, h)))
      (apart_byte len i v (j + 1) d (ground (arith, h)))

before_addrs : (i j : ℕ) (addrs : ℕ → ℕ) (d : Data) → j < i → put_addrs i addrs d j ≡ d j
before_addrs i j addrs d h =
    let e : (leb i j && ltb j (i + 52)) ≡ false = ground (arith, h) in rw (e) refl

pub short_at-put_addrs :
    (i j : ℕ) (addrs : ℕ → ℕ) (d : Data)
    → j + 2 ≤ i
    → short_at (put_addrs i addrs d) j ≡ short_at d j
short_at-put_addrs i j addrs d h =
    ap₂ (λ x y. x + y * 2 ^ 8) (before_addrs i j addrs d (omega (arith, h)))
      (before_addrs i (j + 1) addrs d (omega (arith, h)))

pub uint_at-put_addrs_before :
    (i j : ℕ) (addrs : ℕ → ℕ) (d : Data) → j + 4 ≤ i → uint_at (put_addrs i addrs d) j ≡ uint_at d j
uint_at-put_addrs_before i j addrs d h =
    ap₂ (λ x y. x + y)
      (ap₂ (λ x y. x + y * 2 ^ 16)
        (ap₂ (λ x y. x + y * 2 ^ 8) (before_addrs i j addrs d (omega (arith, h)))
          (before_addrs i (j + 1) addrs d (omega (arith, h))))
        (before_addrs i (j + 2) addrs d (omega (arith, h))))
      (ap (λ x. x * 2 ^ 24) (before_addrs i (j + 3) addrs d (omega (arith, h))))

addrs_byte :
    (i k b : ℕ) (addrs : ℕ → ℕ) (d : Data)
    → k < 13
    → b < 4
    → put_addrs i addrs d (i + 4 * k + b) ≡ byte_of b (addrs k)
addrs_byte i k b addrs d h g =
    let e : (leb i (i + 4 * k + b) && ltb (i + 4 * k + b) (i + 52)) ≡ true = ground (arith, h, g) in
    let q : (i + 4 * k + b - i) % 4 ≡ b = omega (arith, g) in
    let r : (i + 4 * k + b - i) / 4 ≡ k = omega (arith, g) in
    rw (e) (ap₂ (λ x y. byte_of x (addrs y)) q r)

four_bytes :
    (v : ℕ)
    → v < 2 ^ 32
    → byte_of 0 v + byte_of 1 v * 2 ^ 8 + byte_of 2 v * 2 ^ 16 + byte_of 3 v * 2 ^ 24 ≡ v
unfolding byte_of
four_bytes v h = omega (arith, h)

pub uint_at-put_addrs :
    (i k : ℕ) (addrs : ℕ → ℕ) (d : Data)
    → k < 13
    → addrs k < 2 ^ 32
    → uint_at (put_addrs i addrs d) (i + 4 * k) ≡ addrs k
uint_at-put_addrs i k addrs d h g =
    let z : i + 4 * k + 0 ≡ i + 4 * k = omega arith in
    let b : (c : ℕ) → c < 4 → put_addrs i addrs d (i + 4 * k + c) ≡ byte_of c (addrs k) =
      λ c l. addrs_byte i k c addrs d h l in
    ap₂ (λ x y. x + y)
      (ap₂ (λ x y. x + y * 2 ^ 16)
        (ap₂ (λ x y. x + y * 2 ^ 8) (sym (ap (put_addrs i addrs d) z) ∙ b 0 (omega arith))
          (b 1 (omega arith)))
        (b 2 (omega arith)))
      (ap (λ x. x * 2 ^ 24) (b 3 (omega arith)))
    ∙ four_bytes (addrs k) g
