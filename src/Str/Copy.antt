-- ===== src/Str/Copy.antt =====
-- What safestrcpy and strlen promise of a NUL-terminated string, and the filling loop of strncpy.
use kernel_tracing.Prelude.{
  ℕ, zero, suc, ◌+◌, ◌-◌, ◌≤◌, ◌<◌, ◌≡◌, ◌≢◌, ◌⊎◌, inr, some, arith, ltb, if◌then◌else◌, update,
  min,
}
use kernel_tracing.Prelude.Int.{pos}
use native.Mathlib.Decide.{dec_lt}
use kernel_tracing.Str.{Bytes, zero_fill, safestrcpy, safestrcpy_from, strlen, strlen_from}

-- The string in `t` from index `i` on has its first NUL `k` bytes further on.
pub record IsLength (t : Bytes) (i k : ℕ) : Type 0 where
  pub stops : t (i + k) ≡ 0
  pub before : (j : ℕ) → j < k → t (i + j) ≢ 0

IsLength-suc : {t : Bytes} {i k : ℕ} → IsLength t i (suc k) → IsLength t (i + 1) k
IsLength-suc {t} {i} {k} l = record {
  stops = let e : i + suc k ≡ i + 1 + k = omega arith in rw e at l.stops;
  before = λ j lt.
      let e : i + suc j ≡ i + 1 + j = omega arith in rw e at (l.before (suc j) (omega arith));
}

-- The byte that a bounded copy leaves at `j`: the string's, a NUL at its end, and what was there.
abbrev copied : (s t : Bytes) (i k n j : ℕ) → ℕ
copied s t i k n j = if ltb j i then s j else if ltb j (i + min k n) then t j else 0

safestrcpy_from_lem :
    (n i k : ℕ) (s t : Bytes) (j : ℕ)
    → IsLength t i k
    → j ≤ i + min k n
    → safestrcpy_from n i s t j ≡ copied s t i k n j
unfolding safestrcpy_from
safestrcpy_from_lem zero i k s t j l h = ground arith
safestrcpy_from_lem (suc n) i zero s t j l h =
    let end : t i ≡ 0 = let e : i + 0 ≡ i = omega arith in rw e at l.stops in ground arith
safestrcpy_from_lem (suc n) i (suc k) s t j l h =
    let more : t i ≢ 0 = let e : i + 0 ≡ i = omega arith in rw e at (l.before 0 (omega arith)) in
    ground
      (arith, safestrcpy_from_lem n (i + 1) k (update s i (t i)) t j (IsLength-suc l) (omega arith))

safestrcpy_from_frame :
    (n i : ℕ) (s t : Bytes) (j : ℕ) → (j < i) ⊎ (i + n < j) → safestrcpy_from n i s t j ≡ s j
unfolding safestrcpy_from
safestrcpy_from_frame zero i s t j h = ground arith
safestrcpy_from_frame (suc n) i s t j h =
    ground (arith, safestrcpy_from_frame n (i + 1) (update s i (t i)) t j)

safestrcpy_from_zeros :
    (n i k : ℕ) (s t : Bytes) (j : ℕ)
    → IsLength t i k
    → i + min k n < j
    → s j ≡ 0
    → safestrcpy_from n i s t j ≡ 0
unfolding safestrcpy_from
safestrcpy_from_zeros zero i k s t j l lt h = ground arith
safestrcpy_from_zeros (suc n) i zero s t j l lt h =
    let end : t i ≡ 0 = let e : i + 0 ≡ i = omega arith in rw e at l.stops in ground arith
safestrcpy_from_zeros (suc n) i (suc k) s t j l lt h =
    let more : t i ≢ 0 = let e : i + 0 ≡ i = omega arith in rw e at (l.before 0 (omega arith)) in
    ground (
      arith,
      safestrcpy_from_zeros n (i + 1) k (update s i (t i)) t j (IsLength-suc l) (omega arith),
    )

-- Over an array of zeros, safestrcpy leaves the string, cut to n - 1 bytes, and zeros behind it.
pub safestrcpy-zeros :
    (n k : ℕ) (s t : Bytes) (j : ℕ)
    → j < n
    → IsLength t 0 k
    → ((i : ℕ) → i < n → s i ≡ 0)
    → safestrcpy s t (pos n) j ≡ (if ltb j (min k (n - 1)) then t j else 0)
unfolding safestrcpy
safestrcpy-zeros zero k s t j lt l h = absurd (omega arith)
safestrcpy-zeros (suc n) k s t j lt l h = elim (dec_lt (min k n) j) [
  | yes behind ↦
      ground (arith, safestrcpy_from_zeros n 0 k s t j l (omega arith) (h j (omega arith)))
  | no inside ↦ ground (arith, safestrcpy_from_lem n 0 k s t j l (omega arith))
]

-- safestrcpy into an array of `n` > 0 bytes: the string, cut to n - 1 bytes, then a NUL; nothing
-- at or beyond index `n` is written. `k` is the length of the source string.
pub safestrcpy-truncates :
    (n k : ℕ) (s t : Bytes)
    → 0 < n
    → IsLength t 0 k
    → ((j : ℕ) → j < min k (n - 1) → safestrcpy s t (pos n) j ≡ t j)
      × (safestrcpy s t (pos n) (min k (n - 1)) ≡ 0)
      × ((j : ℕ) → n ≤ j → safestrcpy s t (pos n) j ≡ s j)
unfolding safestrcpy
safestrcpy-truncates zero k s t h l = absurd (omega arith)
safestrcpy-truncates (suc n) k s t h l = (
  λ j lt. ground (arith, safestrcpy_from_lem n 0 k s t j l),
  ground (arith, safestrcpy_from_lem n 0 k s t (min k n) l),
  λ j lt. safestrcpy_from_frame n 0 s t j (inr (omega arith)),
)

pub zero_fill_lem :
    (n i : ℕ) (s : Bytes) (j : ℕ)
    → zero_fill n i s j ≡ (if ltb j i then s j else if ltb j (i + n) then 0 else s j)
unfolding zero_fill
zero_fill_lem zero i s j = ground arith
zero_fill_lem (suc n) i s j = ground (arith, zero_fill_lem n (i + 1) (update s i 0) j)

strlen_from_lem :
    (fuel i k : ℕ) (s : Bytes) → IsLength s i k → k < fuel → strlen_from fuel i s ≡ some (i + k)
unfolding strlen_from
strlen_from_lem zero i k s l h = absurd (omega arith)
strlen_from_lem (suc fuel) i zero s l h =
    let e : i + 0 ≡ i = omega arith in let end : s i ≡ 0 = rw e at l.stops in ground arith
strlen_from_lem (suc fuel) i (suc k) s l h =
    let more : s i ≢ 0 = let e : i + 0 ≡ i = omega arith in rw e at (l.before 0 (omega arith)) in
    ground (arith, strlen_from_lem fuel (i + 1) k s (IsLength-suc l))

-- strlen returns the index of the first NUL, if its fuel is more than that.
pub strlen-IsLength : (fuel k : ℕ) (s : Bytes) → IsLength s 0 k → k < fuel → strlen fuel s ≡ some k
unfolding strlen
strlen-IsLength fuel k s l h = ground (arith, strlen_from_lem fuel 0 k s l h)
