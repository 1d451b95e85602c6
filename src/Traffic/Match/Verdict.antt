-- ===== src/Traffic/Match/Verdict.antt =====
-- What a match says of the filters of the query.
use charles_mcp.Prelude.{
  ◌≡◌, refl, ◌∙◌, Bool, true, false, List, [], ◌∷◌, ◌++◌, ◌⊎◌, inl, inr, append_assoc,
  if◌then◌else◌, All,
}
use charles_mcp.Prelude.Text.{Text}
use charles_mcp.Prelude.Outcome.{ok}
use charles_mcp.Traffic.Raw.{Result}
use charles_mcp.Traffic.Schema.{TrafficMatch, TrafficPreset}
use charles_mcp.Traffic.Match.{Check, unmatched}

-- The filters that are asked for pass.
abbrev pub Passes : Check → Type 0
Passes check = check.active ≡ true → check.passes ≡ ok true

abbrev pub noted_fields : List Check → List Text
noted_fields [] = []
noted_fields (check ∷ checks) =
    if check.noted then check.field ∷ noted_fields checks else noted_fields checks

-- A filter that is asked for and fails.
abbrev pub Fails : List Check → Type 0
Fails [] = ⊥
Fails (check ∷ checks) = ((check.active ≡ true) × (check.passes ≡ ok false)) ⊎ Fails checks

-- Matched by every filter, with their fields, or unmatched for one that fails.
abbrev pub IsVerdict : List Text → List Check → TrafficMatch → Type 0
IsVerdict fields checks m =
    (All Passes checks × (m.matched ≡ true) × (m.matched_fields ≡ fields ++ noted_fields checks))
    ⊎ ((m ≡ unmatched) × Fails checks)

-- The check before the others, after which the fields are these.
before :
    (check : Check) (fields : List Text) (checks : List Check) (m : TrafficMatch)
    → Passes check
    → IsVerdict (if check.noted then fields ++ check.field ∷ [] else fields) checks m
    → IsVerdict fields (check ∷ checks) m
before check fields checks m h (inl (all, yes', e)) = inl ((h, all), yes', e ∙ by_note check.noted)
  where
    by_note :
        (b : Bool)
        → (if b then fields ++ check.field ∷ [] else fields) ++ noted_fields checks
          ≡ fields ++ (if b then check.field ∷ noted_fields checks else noted_fields checks)
    by_note true = append_assoc fields (check.field ∷ []) (noted_fields checks)
    by_note false = refl
before check fields checks m h (inr (e, failing)) = inr (e, inr failing)

module _ (preset : TrafficPreset) (fields reasons : List Text) (checks : List Check) where
  abbrev check_of : Bool → Bool → Result Bool → Text → Text → Check
  check_of active noted passes field reason = record {
    active = active;
    noted = noted;
    passes = passes;
    field = field;
    reason = reason;
  }
