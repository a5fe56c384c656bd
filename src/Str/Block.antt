-- ===== src/Str/Block.antt =====
-- What memset, memmove and memcmp do to a memory.
use kernel_tracing.Prelude.{
  ℕ, zero, suc, ◌+◌, ◌-◌, ◌*◌, ◌/◌, ◌%◌, ◌^◌, ◌≤◌, ◌<◌, ◌≡◌, ◌↔◌, ◌⊎◌, refl, Bool, ◌&&◌, arith, ltb,
  leb, if◌then◌else◌, update,
}
use kernel_tracing.Prelude.Int.{pos}
use native.Mathlib.Decide.{dec_lt}
use kernel_tracing.Str.{
  Bytes, stosb, stosl, store_word, memset, memcmp, copy_down, copy_up, memmove,
}

-- `a` is one of the `n` addresses from `p` on.
abbrev pub within : (p n a : ℕ) → Bool
within p n a = leb p a && ltb a (p + n)

stosb_lem :
    (n p b : ℕ) (m : Bytes) (a : ℕ) → stosb n p b m a ≡ (if within p n a then b % 256 else m a)
unfolding stosb
stosb_lem zero p b m a = ground arith
stosb_lem (suc n) p b m a = ground (arith, stosb_lem n (p + 1) b (update m p (b % 256)) a)

store_word_lem :
    (p b : ℕ) (m : Bytes) (a : ℕ)
    → b < 256
    → store_word p (b * 2 ^ 24 + b * 2 ^ 16 + b * 2 ^ 8 + b) m a ≡ (if within p 4 a then b else m a)
unfolding store_word
store_word_lem p b m a h = ground arith

stosl_lem :
    (n p b : ℕ) (m : Bytes) (a : ℕ)
    → b < 256
    → stosl n p (b * 2 ^ 24 + b * 2 ^ 16 + b * 2 ^ 8 + b) m a
      ≡ (if within p (4 * n) a then b else m a)
unfolding stosl
stosl_lem zero p b m a h = ground arith
stosl_lem (suc n) p b m a h = ground (
  arith,
  stosl_lem n (p + 4) b (store_word p (b * 2 ^ 24 + b * 2 ^ 16 + b * 2 ^ 8 + b) m) a h,
  store_word_lem p b m a h,
)

-- memset stores the low byte of `c` in each of the `n` bytes from `dst` on and changes no other,
-- whether it fills by words or by bytes.
pub memset-within :
    (m : Bytes) (dst c n a : ℕ) → memset m dst c n a ≡ (if within dst n a then c % 256 else m a)
unfolding memset
memset-within m dst c n a =
    ground (arith, stosl_lem (n / 4) dst (c % 256) m a (omega arith), stosb_lem n dst c m a)

copy_up_lem :
    (n s d : ℕ) (m : Bytes) (a : ℕ)
    → (d ≤ s) ⊎ (s + n ≤ d)
    → copy_up n s d m a ≡ (if within d n a then m (s + (a - d)) else m a)
unfolding copy_up
copy_up_lem zero s d m a h = ground arith
copy_up_lem (suc n) s d m a h = elim (dec_lt d a) [
  | yes later ↦
      let step : s + 1 + (a - (d + 1)) ≡ s + (a - d) = omega arith in
      ground (arith, step, copy_up_lem n (s + 1) (d + 1) (update m d (m s)) a)
  | no first ↦
      let start : s + (a - d) ≡ s = omega arith in
      ground (arith, start, copy_up_lem n (s + 1) (d + 1) (update m d (m s)) a)
]

copy_down_lem :
    (n s d : ℕ) (m : Bytes) (a : ℕ)
    → s ≤ d
    → copy_down n (s + n) (d + n) m a ≡ (if within d n a then m (s + (a - d)) else m a)
unfolding copy_down
copy_down_lem zero s d m a h = ground arith
copy_down_lem (suc n) s d m a h =
    let es : s + suc n - 1 ≡ s + n = omega arith in
    let ed : d + suc n - 1 ≡ d + n = omega arith in
    rw (es, ed)
      (elim (dec_lt a (d + n)) [
        | yes below ↦ ground (arith, copy_down_lem n s d (update m (d + n) (m (s + n))) a h)
        | no last ↦
            let end : a ≡ d + n → s + (a - d) ≡ s + n = λ e. omega arith in
            ground (arith, copy_down_lem n s d (update m (d + n) (m (s + n))) a h, end)
      ])

-- memmove copies `n` bytes as they stood before the call, also where source and destination
-- overlap in either direction, and changes no other byte.
memmove-within :
    (m : Bytes) (dst src n a : ℕ)
    → memmove m dst src n a ≡ (if within dst n a then m (src + (a - dst)) else m a)
unfolding memmove
memmove-within m dst src n a =
    ground (arith, copy_up_lem n src dst m a, copy_down_lem n src dst m a)

memcmp_sound :
    (m : Bytes) (n v1 v2 : ℕ) → memcmp m n v1 v2 ≡ pos 0 → (i : ℕ) → i < n → m (v1 + i) ≡ m (v2 + i)
unfolding memcmp
memcmp_sound m zero v1 v2 h i lt = absurd (omega arith)
memcmp_sound m (suc n) v1 v2 h zero lt =
    let e1 : v1 + 0 ≡ v1 = omega arith in
    let e2 : v2 + 0 ≡ v2 = omega arith in rw (e1, e2) (ground arith)
memcmp_sound m (suc n) v1 v2 h (suc i) lt =
    let e1 : v1 + suc i ≡ v1 + 1 + i = omega arith in
    let e2 : v2 + suc i ≡ v2 + 1 + i = omega arith in
    rw (e1, e2) (memcmp_sound m n (v1 + 1) (v2 + 1) (ground arith) i (omega arith))

memcmp_complete :
    (m : Bytes) (n v1 v2 : ℕ)
    → ((i : ℕ) → i < n → m (v1 + i) ≡ m (v2 + i))
    → memcmp m n v1 v2 ≡ pos 0
unfolding memcmp
memcmp_complete m zero v1 v2 h = refl
memcmp_complete m (suc n) v1 v2 h =
    let e1 : v1 + 0 ≡ v1 = omega arith in
    let e2 : v2 + 0 ≡ v2 = omega arith in
    let first : m v1 ≡ m v2 = rw (e1, e2) at (h 0 (omega arith)) in
    ground (arith, first, memcmp_complete m n (v1 + 1) (v2 + 1) later)
  where
    later : (i : ℕ) → i < n → m (v1 + 1 + i) ≡ m (v2 + 1 + i)
    later i lt =
        let e1 : v1 + suc i ≡ v1 + 1 + i = omega arith in
        let e2 : v2 + suc i ≡ v2 + 1 + i = omega arith in rw (e1, e2) at (h (suc i) (omega arith))

-- memcmp returns 0 exactly when the two blocks hold the same bytes.
memcmp-zero :
    (m : Bytes) (n v1 v2 : ℕ)
    → (memcmp m n v1 v2 ≡ pos 0) ↔ ((i : ℕ) → i < n → m (v1 + i) ≡ m (v2 + i))
memcmp-zero m n v1 v2 = (memcmp_sound m n v1 v2, memcmp_complete m n v1 v2)
