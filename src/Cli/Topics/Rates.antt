-- ===== src/Cli/Topics/Rates.antt =====
-- topic_commands.cpp: the rate that `hz` gives.
use mini_middleware.Prelude.{
  ℕ, ◌+◌, ◌-◌, ◌≤◌, List, [], ◌∷◌, ◌++◌, Option, none, some, length, ltb, leb, if◌then◌else◌, ◌&&◌,
  subst, Bool-cases, subst, Bool-cases,
}
use mini_middleware.Cli.Topics.{HzState}

-- The times between neighbours, and their sum.
abbrev pub gaps : List ℕ → List ℕ
gaps [] = []
gaps (a ∷ []) = []
gaps (a ∷ b ∷ ts) = (b - a) ∷ gaps (b ∷ ts)

abbrev pub sum : List ℕ → ℕ
sum [] = 0
sum (g ∷ gs) = g + sum gs

-- Time does not go back.
abbrev pub IsRising : List ℕ → Type 0
IsRising [] = Unit
IsRising (a ∷ []) = Unit
IsRising (a ∷ b ∷ ts) = (a ≤ b) × IsRising (b ∷ ts)

-- The number of gaps and what they sum up to, none where no time passes.
abbrev pub mean_of : List ℕ → Option (ℕ × ℕ)
mean_of gs = if ltb 0 (sum gs) then some (length gs, sum gs) else none

module _ (count : ℕ) where
  -- The state after one more message.
  abbrev more : HzState → ℕ → HzState
  more s now = record {
    timestamps = s.timestamps ++ (now ∷ []);
    done = ltb 0 count && leb count (length (s.timestamps ++ (now ∷ [])));
  }
