-- ===== src/Prelude/Lists.antt =====
-- Lists over the native numbers, and C arrays as functions of the index.
use Prim.Native.Nat.{◌≤◌, ℕ, zero, suc, ◌+◌, ◌-◌, ◌<◌, min}
use mathlib.Core.Path.{◌≡◌, refl, ap, sym, ◌∙◌}
use mathlib.Core.List.{List, [], ◌∷◌, ◌++◌, map}
use mathlib.Core.Option.{Option, none, some}
use native.Mathlib.Omega.{arith}
use kernel_tracing.Prelude.Tests.{◌==◌, if◌then◌else◌}

module _ {ℓ} {A : Type ℓ} where
  abbrev pub length : List A → ℕ
  length [] = 0
  length (x ∷ xs) = suc (length xs)

  abbrev pub get_elem? : List A → ℕ → Option A
  get_elem? [] i = none
  get_elem? (x ∷ xs) zero = some x
  get_elem? (x ∷ xs) (suc i) = get_elem? xs i

  abbrev pub take : ℕ → List A → List A
  take zero xs = []
  take (suc n) [] = []
  take (suc n) (x ∷ xs) = x ∷ take n xs

  abbrev pub drop : ℕ → List A → List A
  drop zero xs = xs
  drop (suc n) [] = []
  drop (suc n) (x ∷ xs) = drop n xs

  -- A write to one element of an array.
  abbrev pub update : (ℕ → A) → ℕ → A → ℕ → A
  update f i v j = if i == j then v else f j

  pub length-append : (xs ys : List A) → length (xs ++ ys) ≡ length xs + length ys
  length-append [] ys = omega arith
  length-append (x ∷ xs) ys = omega (arith, length-append xs ys)

  pub length-drop : (n : ℕ) (xs : List A) → length (drop n xs) ≡ length xs - n
  length-drop zero xs = omega arith
  length-drop (suc n) [] = omega arith
  length-drop (suc n) (x ∷ xs) = omega (arith, length-drop n xs)

  pub length-take : (n : ℕ) (xs : List A) → length (take n xs) ≡ min n (length xs)
  length-take zero xs = omega arith
  length-take (suc n) [] = omega arith
  length-take (suc n) (x ∷ xs) = omega (arith, length-take n xs)

  pub take-append-drop : (n : ℕ) (xs : List A) → take n xs ++ drop n xs ≡ xs
  take-append-drop zero xs = refl
  take-append-drop (suc n) [] = refl
  take-append-drop (suc n) (x ∷ xs) = ap (λ l. x ∷ l) (take-append-drop n xs)

-- The last `n` items of a list.
abbrev pub newest {ℓ} : {A : Type ℓ} → ℕ → List A → List A
newest n l = drop (length l - n) l

module _ {ℓ} {A : Type ℓ} where
  pub newest-append_room :
      (n : ℕ) (l : List A) (x : A) → length l < n → newest n (l ++ x ∷ []) ≡ l ++ x ∷ []
  newest-append_room n l x h =
      let e : length (l ++ x ∷ []) - n ≡ 0 = omega (arith, length-append l (x ∷ [])) in
      ap (λ k. drop k (l ++ x ∷ [])) e

  drop-append_one : (l : List A) (x : A) → 0 < length l → drop 1 (l ++ x ∷ []) ≡ drop 1 l ++ x ∷ []
  drop-append_one [] x h = absurd (omega arith)
  drop-append_one (y ∷ l) x h = refl

  pub newest-append_full :
      (n : ℕ) (l : List A) (x : A)
      → 0 < n
      → length l ≡ n
      → newest n (l ++ x ∷ []) ≡ drop 1 l ++ x ∷ []
  newest-append_full n l x pos e =
      let k : length (l ++ x ∷ []) - n ≡ 1 = omega (arith, length-append l (x ∷ [])) in
      ap (λ k. drop k (l ++ x ∷ [])) k ∙ drop-append_one l x (omega arith)

  pub map-drop {κ} :
      {B : Type κ} (f : A → B) (n : ℕ) (l : List A) → map f (drop n l) ≡ drop n (map f l)
  map-drop f zero l = refl
  map-drop f (suc n) [] = refl
  map-drop f (suc n) (x ∷ l) = map-drop f n l

module _ {ℓ} {A : Type ℓ} where
  pub drop-drop : (j k : ℕ) (l : List A) → drop k (drop j l) ≡ drop (j + k) l
  drop-drop zero k l = let e : 0 + k ≡ k = omega arith in rw e
  drop-drop (suc j) zero [] = let e : suc j + 0 ≡ suc j = omega arith in rw e
  drop-drop (suc j) (suc k) [] = let e : suc j + suc k ≡ suc (j + suc k) = omega arith in rw e
  drop-drop (suc j) k (x ∷ l) =
      let e : suc j + k ≡ suc (j + k) = omega arith in rw e (drop-drop j k l)

  pub drop-append_le : (k : ℕ) (l m : List A) → k ≤ length l → drop k (l ++ m) ≡ drop k l ++ m
  drop-append_le zero l m h = refl
  drop-append_le (suc k) [] m h = absurd (omega arith)
  drop-append_le (suc k) (x ∷ l) m h = drop-append_le k l m (omega arith)

  -- What is cut off on the way is cut off in the end.
  pub newest-newest_append : (n : ℕ) (l m : List A) → newest n (newest n l ++ m) ≡ newest n (l ++ m)
  newest-newest_append n l m =
      let j = length l - n in
      let kept : length (drop j l ++ m) - n ≡ length m - (n - min n (length l)) =
        omega (arith, length-append (drop j l) m, length-drop j l) in
      let whole : j + (length m - (n - min n (length l))) ≡ length (l ++ m) - n =
        omega (arith, length-append l m) in
      ap (λ k. drop k (drop j l ++ m)) kept
      ∙ ap (drop (length m - (n - min n (length l)))) (sym (drop-append_le j l m (omega arith)))
      ∙ drop-drop j (length m - (n - min n (length l))) (l ++ m)
      ∙ ap (λ k. drop k (l ++ m)) whole

  pub take-nil : (n : ℕ) → take {A = A} n [] ≡ []
  take-nil zero = refl
  take-nil (suc n) = refl
