-- ===== src/Xdr/Correlation/Ranking.antt =====
-- apps/xdr_rico/app/main.py, `correlate_endpoint_context`: the list that it gives.
use penguard.Prelude.{ℕ, ◌≤◌, String, List, [], ◌∷◌, ◌≡◌, Option, none, some, All, length, ◌⊎◌}
use penguard.Xdr.Correlation.{MatchedField, EndpointContextItem}

-- No later item has a higher score.
abbrev pub Ranked : List EndpointContextItem → Type 0
Ranked [] = Unit
Ranked (item ∷ items) =
    All (λ (other : EndpointContextItem). other.score ≤ item.score) items × Ranked items

-- An item names a field that matched, which gave 20 points at least.
abbrev pub IsMatch : EndpointContextItem → Type 0
IsMatch item = (1 ≤ length item.matched_fields) × (20 ≤ item.score)

-- A score of matched fields.
abbrev Scored : List MatchedField × ℕ → Type 0
Scored ([], score) = score ≡ 0
Scored (_ ∷ _, score) = 20 ≤ score

-- No match, or one with 20 points at least.
abbrev Points : Option (String × ℕ) → Type 0
Points m = (m ≡ none) ⊎ ((name : String) × (points : ℕ) × (m ≡ some (name, points)) × (20 ≤ points))
