-- ===== src/Dashboard/Number.antt =====
-- itoa and itox of trace.c: numbers as text. The string is the bytes that the routine leaves in
-- `buf` before the NUL. `temp` has room for 15 digits.
pub mod RoundTrip
use kernel_tracing.Prelude.{
  ℕ, zero, suc, ◌+◌, ◌-◌, ◌/◌, ◌%◌, List, [], ◌∷◌, ◌++◌, ltb, if◌then◌else◌, length,
}
use kernel_tracing.Prelude.Int.{ℤ, pos, negsuc}
use mathlib.Core.List.{reverse}

-- `while(val > 0 && i < sizeof(temp)-1)`: the digits that go to temp[i] on, `room` being what is left.
decimal_digits : (room val : ℕ) → List ℕ
decimal_digits zero val = []
decimal_digits (suc room) val =
    if ltb 0 val then (b'0' + val % 10) ∷ decimal_digits room (val / 10) else []

abbrev pub room : ℕ
room = 15

-- The magnitude is `-val` for a negative `val`; the sign is added only while there is room.
signed_digits : ℤ → List ℕ
unfolding decimal_digits
signed_digits (pos n) = decimal_digits room n
signed_digits (negsuc n) =
    let temp = decimal_digits room (suc n) in
    if ltb (length temp) room then temp ++ b'-' ∷ [] else temp

-- The last loop copies `temp` backwards.
pub itoa : ℤ → List ℕ
unfolding signed_digits
itoa (pos zero) = b'0' ∷ []
itoa (pos (suc n)) = reverse (signed_digits (pos (suc n)))
itoa (negsuc n) = reverse (signed_digits (negsuc n))

-- `hex[d]`, with `hex` the string "0123456789abcdef".
abbrev pub hex : ℕ → ℕ
hex d = if ltb d 10 then b'0' + d else b'a' + (d - 10)

hex_digits : (room val : ℕ) → List ℕ
hex_digits zero val = []
hex_digits (suc room) val = if ltb 0 val then hex (val % 16) ∷ hex_digits room (val / 16) else []

pub itox : ℕ → List ℕ
unfolding hex_digits
itox zero = b'0' ∷ []
itox (suc n) = reverse (hex_digits room (suc n))
