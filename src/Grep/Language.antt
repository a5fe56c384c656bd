-- ===== src/Grep/Language.antt =====
-- What a regular expression means: the texts that it takes, told without running the matcher.
use kernel_tracing.Prelude.{ℕ, ◌≡◌, ◌⊎◌, List, [], ◌∷◌, ◌++◌, ◌==◌, if◌then◌else◌}

-- The parts of an expression: a byte, any number of a byte, and the end of the text.
pub data Item : Type 0 where
  one : ℕ → Item
  star : ℕ → Item
  last : Item

abbrev pub items : List ℕ → List Item
items [] = []
items (c ∷ []) = if c == b'$' then last ∷ [] else one c ∷ []
items (c ∷ d ∷ re) = if d == b'*' then star c ∷ items re else one c ∷ items (d ∷ re)

-- The byte c of an expression stands for t.
abbrev pub Fits : ℕ → ℕ → Type 0
Fits c t = (c ≡ b'.') ⊎ (c ≡ t)

abbrev pub AllFit : ℕ → List ℕ → Type 0
AllFit c [] = Unit {0}
AllFit c (t ∷ run) = Fits c t × AllFit c run

-- The items take the bytes `taken`, with `after` behind them.
pub data Takes : List Item → (taken after : List ℕ) → Type 0 where
  done : (after : List ℕ) → Takes [] [] after
  byte :
      (c t : ℕ) (is : List Item) (taken after : List ℕ)
      → Fits c t
      → Takes is taken after
      → Takes (one c ∷ is) (t ∷ taken) after
  run :
      (c : ℕ) (is : List Item) (many taken after whole : List ℕ)
      → AllFit c many
      → whole ≡ many ++ taken
      → Takes is taken after
      → Takes (star c ∷ is) whole after
  stop : Takes (last ∷ []) [] []

-- The expression takes a piece at the start of the text.
abbrev pub Starts : List Item → List ℕ → Type 0
Starts is text =
    (taken : List ℕ) × (after : List ℕ) × (text ≡ taken ++ after) × Takes is taken after

-- The expression takes a piece somewhere in the text.
abbrev pub Occurs : List Item → List ℕ → Type 0
Occurs is text = (before : List ℕ) × (rest : List ℕ) × (text ≡ before ++ rest) × Starts is rest

-- With ^ in front, the piece has to be at the start.
abbrev pub Matches : (re text : List ℕ) → Type 0
Matches [] text = Occurs [] text
Matches (c ∷ re) text = if c == b'^' then Starts (items re) text else Occurs (items (c ∷ re)) text
