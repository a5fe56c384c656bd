-- ===== src/Str.antt =====
-- string.c: the kernel's byte-block and string routines. A block routine works on one memory,
-- where source and destination may overlap; a string routine works on two arrays, since the kernel
-- calls it on distinct objects only. A byte is a number below 256 (`uchar`).
pub mod Block
pub mod Copy
pub mod Names
pub mod Tests
use kernel_tracing.Prelude.{
  ℕ, zero, suc, ◌+◌, ◌-◌, ◌*◌, ◌/◌, ◌%◌, ◌^◌, Bool, true, false, ◌&&◌, ◌||◌, not, Option, none,
  some, String, ltb, leb, ◌==◌, if◌then◌else◌, update,
}
use kernel_tracing.Prelude.Int.{ℤ, pos, negsuc, diff}
use Prim.Native.Char.{code}

-- An array of bytes, or the whole memory.
abbrev pub Bytes : Type 0
Bytes = ℕ → ℕ

-- The bytes of a literal, and its NUL.
abbrev pub c_string : String → Bytes
c_string String.[] i = 0
c_string (String.◌∷◌ c s) zero = code c
c_string (String.◌∷◌ c s) (suc i) = c_string s i

-- `stosb` of x86.h: `cnt` bytes from `a` on.
pub stosb : (cnt a byte : ℕ) → Bytes → Bytes
stosb zero a byte m = m
stosb (suc cnt) a byte m = stosb cnt (a + 1) byte (update m a (byte % 256))

-- One 32-bit store, the low byte first.
store_word : ℕ → ℕ → Bytes → Bytes
store_word a w m =
    update
      (update (update (update m a (w % 256)) (a + 1) (w / 256 % 256)) (a + 2) (w / 2 ^ 16 % 256))
      (a + 3) (w / 2 ^ 24 % 256)

-- `stosl` of x86.h: `cnt` words from `a` on.
pub stosl : (cnt a word : ℕ) → Bytes → Bytes
stosl zero a word m = m
stosl (suc cnt) a word m = stosl cnt (a + 4) word (store_word a word m)

-- The four shifted copies of `c` share no bit, so that their `|` is their sum.
pub memset : Bytes → (dst c n : ℕ) → Bytes
unfolding stosb stosl store_word
memset m dst c n =
    let b = c % 256 in
    if (dst % 4 == 0) && (n % 4 == 0)
    then stosl (n / 4) dst (b * 2 ^ 24 + b * 2 ^ 16 + b * 2 ^ 8 + b) m
    else stosb n dst c m

pub memcmp : Bytes → (n v1 v2 : ℕ) → ℤ
memcmp m zero v1 v2 = pos 0
memcmp m (suc n) v1 v2 =
    let rest = memcmp m n (v1 + 1) (v2 + 1) in if m v1 == m v2 then rest else diff (m v1) (m v2)

-- `while(n-- > 0) *--d = *--s;`, from the ends `s` and `d` down.
copy_down : (n s d : ℕ) → Bytes → Bytes
copy_down zero s d m = m
copy_down (suc n) s d m = copy_down n (s - 1) (d - 1) (update m (d - 1) (m (s - 1)))

-- `while(n-- > 0) *d++ = *s++;`
copy_up : (n s d : ℕ) → Bytes → Bytes
copy_up zero s d m = m
copy_up (suc n) s d m = copy_up n (s + 1) (d + 1) (update m d (m s))

pub memmove : Bytes → (dst src n : ℕ) → Bytes
unfolding copy_down copy_up
memmove m dst src n =
    if ltb src dst && ltb dst (src + n)
    then copy_down n (src + n) (dst + n) m
    else copy_up n src dst m

pub memcpy : Bytes → (dst src n : ℕ) → Bytes
unfolding memmove
memcpy m dst src n = memmove m dst src n

-- `strncmp(p + i, q + i, n)`
unfoldable pub strncmp_from : (n i : ℕ) → Bytes → Bytes → ℤ
strncmp_from zero i p q = pos 0
strncmp_from (suc n) i p q =
    let rest = strncmp_from n (i + 1) p q in
    if not (p i == 0) && (p i == q i) then rest else diff (p i) (q i)

unfoldable pub strncmp : Bytes → Bytes → ℕ → ℤ
unfolding strncmp_from
strncmp p q n = strncmp_from n 0 p q

-- `while(n-- > 0) *s++ = 0;` from index `i` on
pub zero_fill : (n i : ℕ) → Bytes → Bytes
zero_fill zero i s = s
zero_fill (suc n) i s = zero_fill n (i + 1) (update s i 0)

-- `while(n-- > 0 && (*s++ = *t++) != 0);` and the filling loop. `n--` of the first loop's last test
-- leaves a negative count when the count has run out, and the second loop then does nothing.
pub strncpy_from : (n i : ℕ) → Bytes → Bytes → Bytes
unfolding zero_fill
strncpy_from zero i s t = s
strncpy_from (suc n) i s t =
    let s' = update s i (t i) in
    let rest = strncpy_from n (i + 1) s' t in if t i == 0 then zero_fill n (i + 1) s' else rest

pub strncpy : Bytes → Bytes → ℤ → Bytes
unfolding strncpy_from
strncpy s t (pos n) = strncpy_from n 0 s t
strncpy s t (negsuc _) = s

-- The loop of `safestrcpy` once `--n` is `n`, and the store `*s = 0` behind it.
safestrcpy_from : (n i : ℕ) → Bytes → Bytes → Bytes
safestrcpy_from zero i s t = update s i 0
safestrcpy_from (suc n) i s t =
    let s' = update s i (t i) in
    let rest = safestrcpy_from n (i + 1) s' t in if t i == 0 then update s' (i + 1) 0 else rest

pub safestrcpy : Bytes → Bytes → ℤ → Bytes
unfolding safestrcpy_from
safestrcpy s t (pos zero) = s
safestrcpy s t (pos (suc n)) = safestrcpy_from n 0 s t
safestrcpy s t (negsuc _) = s

-- `for(; s[n]; n++);` on fuel: `none` if the fuel is gone before a NUL is found.
pub strlen_from : (fuel n : ℕ) → Bytes → Option ℕ
strlen_from zero n s = none
strlen_from (suc fuel) n s =
    let rest = strlen_from fuel (n + 1) s in if s n == 0 then some n else rest

pub strlen : (fuel : ℕ) → Bytes → Option ℕ
unfolding strlen_from
strlen fuel s = strlen_from fuel 0 s
