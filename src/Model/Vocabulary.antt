-- ===== src/Model/Vocabulary.antt =====
-- internal/model/report.go: the closed vocabularies and the damage rollup.
pub mod Membership
use beacon_backend.Prelude.{ℕ, String, List, [], ◌∷◌, Bool, false, ◌||◌, ◌==◌, if◌then◌else◌}

abbrev pub damage_tiers : List String
damage_tiers = "minimal" ∷ "partial" ∷ "complete" ∷ []

abbrev pub verifications : List String
verifications = "pending" ∷ "verified" ∷ "flagged" ∷ []

abbrev pub debris_states : List String
debris_states = "yes" ∷ "no" ∷ "unsure" ∷ []

abbrev pub infra_types_all : List String
infra_types_all =
    "residential" ∷ "commercial" ∷ "government" ∷ "utility" ∷ "transport" ∷ "community" ∷ "public"
    ∷ "other" ∷ []

abbrev pub crisis_natures : List String
crisis_natures =
    "earthquake" ∷ "flood" ∷ "tsunami" ∷ "hurricane" ∷ "wildfire" ∷ "explosion" ∷ "chemical"
    ∷ "conflict" ∷ "civil_unrest" ∷ []

abbrev pub cluster_names : List String
cluster_names =
    "slsc" ∷ "health" ∷ "wash" ∷ "education" ∷ "food_security" ∷ "protection" ∷ "logistics"
    ∷ "nutrition" ∷ "etc" ∷ "cccm" ∷ "early_recovery" ∷ []

-- `contains` of the service and `containsStr` of the handlers.
unfoldable pub contains : List String → String → Bool
contains [] v = false
contains (s ∷ set) v = s == v || contains set v

-- TierOrder; a missing key reads as 0.
unfoldable pub tier_order : String → ℕ
tier_order t =
    if t == "minimal" then 0 else if t == "partial" then 1 else if t == "complete" then 2 else 0

unfoldable pub rollup_tier : String → String
rollup_tier damage =
    if damage == "minimal" || damage == "partial" || damage == "complete" then damage else "minimal"

unfoldable pub tier_rank : String → ℕ
unfolding tier_order rollup_tier
tier_rank damage = tier_order (rollup_tier damage)
