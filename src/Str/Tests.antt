-- ===== src/Str/Tests.antt =====
-- The theorems on string.c at concrete memories.
use kernel_tracing.Prelude.{ℕ, zero, suc, ◌+◌, ◌≤◌, ◌<◌, ◌≡◌, refl, ◌≢◌, some, arith}
use kernel_tracing.Prelude.Int.{pos}
use kernel_tracing.Str.{Bytes, c_string, safestrcpy, strlen}
use kernel_tracing.Str.Copy.{IsLength, safestrcpy-truncates, strlen-IsLength}

abbrev identity : Bytes
identity i = i

sh-IsLength : IsLength (c_string "sh") 0 2
sh-IsLength = record { stops = refl; before = before }
  where
    before : (j : ℕ) → j < 2 → c_string "sh" (0 + j) ≢ 0
    before zero h = omega arith
    before (suc zero) h = omega arith
    before (suc (suc j)) h = absurd (omega arith)

-- "sh" into an array of two bytes is cut to "s".
safestrcpy-truncates_example :
    ((j : ℕ) → j < 1 → safestrcpy identity (c_string "sh") (pos 2) j ≡ c_string "sh" j)
    × (safestrcpy identity (c_string "sh") (pos 2) 1 ≡ 0)
    × ((j : ℕ) → 2 ≤ j → safestrcpy identity (c_string "sh") (pos 2) j ≡ j)
safestrcpy-truncates_example =
    safestrcpy-truncates 2 2 identity (c_string "sh") (omega arith) sh-IsLength

-- The length of a string within its fuel.
strlen_sh : strlen 5 (c_string "sh") ≡ some 2
strlen_sh = strlen-IsLength 5 2 (c_string "sh") sh-IsLength (omega arith)
