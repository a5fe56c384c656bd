-- ===== src/Grep/Tests.antt =====
-- The matcher and the line loop at concrete inputs.
use kernel_tracing.Prelude.{ℕ, ◌≡◌, refl, ◌↔◌, true, false, List, [], ◌∷◌, ◌++◌, arith}
use kernel_tracing.Grep.{match, anywhere, matchhere, matchstar, grep, round, drain, next_line}
use kernel_tracing.Grep.Language.{Matches}
use kernel_tracing.Grep.Matcher.{match-Matches}
use kernel_tracing.Grep.Reading.{keep, cut, concat, grep-lines}

-- a.*b$
abbrev dotted : List ℕ
dotted = b'a' ∷ b'.' ∷ b'*' ∷ b'b' ∷ b'$' ∷ []

abbrev caab : List ℕ
caab = b'c' ∷ b'a' ∷ b'a' ∷ b'b' ∷ []

match_runs : match dotted caab ≡ true
unfolding match anywhere matchhere matchstar
match_runs = refl

match_end : match dotted (caab ++ b'c' ∷ []) ≡ false
unfolding match anywhere matchhere matchstar
match_end = refl

match-Matches_example : (match dotted caab ≡ true) ↔ Matches dotted caab
match-Matches_example = match-Matches dotted caab

-- The second line comes in two pieces.
abbrev pieces : List (List ℕ)
pieces = (b'a' ∷ b'b' ∷ b'\n' ∷ b'c' ∷ []) ∷ (b'a' ∷ b'\n' ∷ []) ∷ []

grep-lines_example : grep (b'a' ∷ []) [] pieces ≡ keep (match (b'a' ∷ [])) (cut (concat pieces)).0
grep-lines_example = grep-lines (b'a' ∷ []) pieces (omega arith)

grep_runs : grep (b'a' ∷ []) [] pieces ≡ (b'a' ∷ b'b' ∷ []) ∷ (b'c' ∷ b'a' ∷ []) ∷ []
unfolding grep round drain next_line match anywhere matchhere matchstar
grep_runs = refl

-- The start of a line is lost if read returns it alone.
grep_split : grep (b'a' ∷ []) [] ((b'a' ∷ []) ∷ (b'b' ∷ b'\n' ∷ []) ∷ []) ≡ []
unfolding grep round drain next_line match anywhere matchhere matchstar
grep_split = refl
