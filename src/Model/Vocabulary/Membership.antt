-- ===== src/Model/Vocabulary/Membership.antt =====
-- `contains` decides membership; the damage rollup lands in the mandated tiers.
use beacon_backend.Prelude.{
  String, List, [], ◌∷◌, ◌≡◌, ◌↔◌, ◌⊎◌, inl, inr, refl, true, false, ◌==◌, eq_iff, arith,
}
use beacon_backend.Model.Vocabulary.{contains, damage_tiers, rollup_tier, tier_rank}

abbrev pub In : String → List String → Type 0
In v [] = ⊥
In v (s ∷ set) = (s ≡ v) ⊎ In v set

pub contains_iff : (set : List String) (v : String) → (contains set v ≡ true) ↔ In v set
unfolding contains
contains_iff [] v = (λ e. cc, λ h. absurd h)
contains_iff (s ∷ set) v = grind (arith, eq_iff s v, contains_iff set v)

-- A tier, or none of the three.
tier_cases :
    (d : String)
    → ((d ≡ "minimal") ⊎ ((d ≡ "partial") ⊎ (d ≡ "complete")))
      ⊎ (((d == "minimal") ≡ false) × ((d == "partial") ≡ false) × ((d == "complete") ≡ false))
tier_cases d = ground (arith, eq_iff d "minimal", eq_iff d "partial", eq_iff d "complete")

-- A rollup lands in the three mandated tiers, keeps the tiers as they are, and keeps the rank.
pub rollup_tier_lem :
    (d : String)
    → In (rollup_tier d) damage_tiers
      × (In d damage_tiers → rollup_tier d ≡ d)
      × (tier_rank (rollup_tier d) ≡ tier_rank d)
unfolding rollup_tier tier_rank
rollup_tier_lem d = elim (tier_cases d) [
  | inl (inl e) ↦ rw e (inl refl, λ _. refl, refl)
  | inl (inr (inl e)) ↦ rw e (inr (inl refl), λ _. refl, refl)
  | inl (inr (inr e)) ↦ rw e (inr (inr (inl refl)), λ _. refl, refl)
  | inr h ↦
      rw (h.0, h.1, h.2)
        (
          inl refl,
          λ i. absurd (ground (arith, eq_iff d "minimal", eq_iff d "partial", eq_iff d "complete")),
          refl,
        )
]
