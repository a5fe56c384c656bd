-- ===== src/Dashboard/Number/RoundTrip.antt =====
-- The text that the dashboard prints for a number reads back as that number.
use kernel_tracing.Prelude.{
  ℕ, zero, suc, ◌+◌, ◌-◌, ◌*◌, ◌/◌, ◌%◌, ◌^◌, ◌≤◌, ◌<◌, ◌≡◌, refl, ◌∙◌, inl, inr, true, List, [],
  ◌∷◌, ◌++◌, arith, ltb, leb, if◌then◌else◌, lt→ltb, Bool-cases, length,
}
use kernel_tracing.Ulib.{atoi, atoi_from, is_digit}
use mathlib.Core.List.{reverse, reverse_aux, reverse-append}
use native.Mathlib.Nat.{pow-suc}
use kernel_tracing.Dashboard.Number.{decimal_digits, itoa, hex, hex_digits, itox}
use kernel_tracing.Prelude.Int.{pos, negsuc}

abbrev pub AllDigits : List ℕ → Type 0
AllDigits [] = Unit
AllDigits (c ∷ s) = (is_digit c ≡ true) × AllDigits s

AllDigits-append : (s t : List ℕ) → AllDigits s → AllDigits t → AllDigits (s ++ t)
AllDigits-append [] t hs ht = ht
AllDigits-append (c ∷ s) t hs ht = (hs.0, AllDigits-append s t hs.1 ht)

-- Behind a run of digits atoi goes on with what it has read.
atoi_from-append :
    (n : ℕ) (s t : List ℕ) → AllDigits s → atoi_from n (s ++ t) ≡ atoi_from (atoi_from n s) t
unfolding atoi_from
atoi_from-append n [] t h = refl
atoi_from-append n (c ∷ s) t h = ground (arith, atoi_from-append (n * 10 + c - b'0') s t h.1)

abbrev ReadsAs : List ℕ → ℕ → Type 0
ReadsAs s v = AllDigits s × (atoi_from 0 s ≡ v)

ReadsAs-digit : (s : List ℕ) (v : ℕ) → ReadsAs s (v / 10) → ReadsAs (s ++ (b'0' + v % 10) ∷ []) v
unfolding atoi_from
ReadsAs-digit s v (all, read) =
    let last : is_digit (b'0' + v % 10) ≡ true = ground arith in
    (
      AllDigits-append s _ all (last, tt),
      atoi_from-append 0 s _ all ∙ rw (read, last) (omega arith),
    )

decimal_digits-ReadsAs : (r v : ℕ) → v < 10 ^ r → ReadsAs (reverse (decimal_digits r v)) v
unfolding decimal_digits atoi_from
decimal_digits-ReadsAs zero v h = (tt, omega arith)
decimal_digits-ReadsAs (suc r) v h = elim (Bool-cases (ltb 0 v)) [
  | inl more ↦
      let rest = decimal_digits-ReadsAs r (v / 10) (omega (arith, pow-suc 10 r)) in
      rw (more, reverse-append ((b'0' + v % 10) ∷ []) (decimal_digits r (v / 10)))
        (ReadsAs-digit (reverse (decimal_digits r (v / 10))) v rest)
  | inr done ↦ rw done (tt, ground arith)
]

-- The text of every non-negative `int` is all digits, and atoi reads it back.
atoi-itoa : (n : ℕ) → n < 2 ^ 31 → AllDigits (itoa (pos n)) × (atoi (itoa (pos n)) ≡ n)
unfolding itoa atoi
atoi-itoa zero h = ((refl, tt), refl)
atoi-itoa (suc n) h = decimal_digits-ReadsAs 15 (suc n) (omega arith)

length-decimal_digits : (r k v : ℕ) → v < 10 ^ k → length (decimal_digits r v) ≤ k
unfolding decimal_digits
length-decimal_digits zero k v h = omega arith
length-decimal_digits (suc r) zero v h = let none_left : v ≡ 0 = omega arith in ground arith
length-decimal_digits (suc r) (suc k) v h =
    let rest = length-decimal_digits r k (v / 10) (omega (arith, pow-suc 10 k)) in ground arith

length-reverse_aux : (s t : List ℕ) → length (reverse_aux s t) ≡ length s + length t
length-reverse_aux [] t = omega arith
length-reverse_aux (c ∷ s) t = omega (arith, length-reverse_aux s (c ∷ t))

-- A negative `int` other than the least is printed as a minus sign and its magnitude.
pub itoa-neg : (n : ℕ) → suc n < 2 ^ 31 → itoa (negsuc n) ≡ b'-' ∷ itoa (pos (suc n))
unfolding itoa
itoa-neg n h =
    let small : length (decimal_digits 15 (suc n)) ≤ 10 =
      length-decimal_digits 15 10 (suc n) (omega arith) in
    rw (lt→ltb (length (decimal_digits 15 (suc n))) 15 (omega arith))
      (reverse-append (decimal_digits 15 (suc n)) (b'-' ∷ []))

length-itoa_pos : (n : ℕ) → n < 2 ^ 31 → length (itoa (pos n)) ≤ 10
unfolding itoa
length-itoa_pos zero h = omega arith
length-itoa_pos (suc n) h = omega (
  arith,
  length-decimal_digits 15 10 (suc n) (omega arith),
  length-reverse_aux (decimal_digits 15 (suc n)) [],
)

-- With its NUL, the text of an `int` other than the least fits the 16 bytes of drawnum's `buf`.
length-itoa :
    (n : ℕ) → suc n < 2 ^ 31 → (length (itoa (pos n)) < 16) × (length (itoa (negsuc n)) < 16)
length-itoa n h =
    let neg : length (itoa (negsuc n)) < 16 =
      rw (itoa-neg n h) (omega (arith, length-itoa_pos (suc n) h)) in
    (omega (arith, length-itoa_pos n (omega arith)), neg)

-- The value of a hexadecimal digit, and of a string of these.
abbrev unhex : ℕ → ℕ
unhex c = if leb c b'9' then c - b'0' else c - b'a' + 10

pub hex_value : ℕ → List ℕ → ℕ
hex_value n [] = n
hex_value n (c ∷ s) = hex_value (n * 16 + unhex c) s

hex_value-append : (n : ℕ) (s t : List ℕ) → hex_value n (s ++ t) ≡ hex_value (hex_value n s) t
unfolding hex_value
hex_value-append n [] t = refl
hex_value-append n (c ∷ s) t = hex_value-append (n * 16 + unhex c) s t

hex_digits-value : (r v : ℕ) → v < 16 ^ r → hex_value 0 (reverse (hex_digits r v)) ≡ v
unfolding hex_digits hex_value
hex_digits-value zero v h = omega arith
hex_digits-value (suc r) v h = elim (Bool-cases (ltb 0 v)) [
  | inl more ↦
      let rest = hex_digits-value r (v / 16) (omega (arith, pow-suc 16 r)) in
      let last : v / 16 * 16 + unhex (hex (v % 16)) ≡ v = ground arith in
      rw (more, reverse-append (hex (v % 16) ∷ []) (hex_digits r (v / 16)))
        (hex_value-append 0 (reverse (hex_digits r (v / 16))) _ ∙ rw rest last)
  | inr done ↦ rw done (ground arith)
]

-- The text that itox makes of a `uint` has the value of that number in base 16.
hex_value-itox : (v : ℕ) → v < 2 ^ 32 → hex_value 0 (itox v) ≡ v
unfolding itox hex_value
hex_value-itox zero h = refl
hex_value-itox (suc v) h = hex_digits-value 15 (suc v) (omega arith)
