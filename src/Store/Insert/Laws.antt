-- ===== src/Store/Insert/Laws.antt =====
-- Inserting a report: which rows the constraints let pass, what each outcome leaves behind, and
-- the version chain of a building.
use beacon_backend.Prelude.{
  ℕ, String, Option, none, some, List, [], ◌∷◌, Bool, true, false, not, ◌&&◌, ◌≡◌, refl, arith,
  eq_iff, all, All, is_some, if◌then◌else◌,
}
use beacon_backend.Std.{Slice, items, is_blank}
use beacon_backend.Std.Float.{Float}
use beacon_backend.Model.Vocabulary.{
  damage_tiers, verifications, debris_states, infra_types_all, crisis_natures, contains,
}
use beacon_backend.Model.Vocabulary.Membership.{In, contains_iff}
use beacon_backend.Model.Report.{Report}
use beacon_backend.Service.Normalize.Laws.{IsNormal, IsPresent}
use beacon_backend.Service.Validate.Laws.{IsValid, IsTier?, IsLocated}
use beacon_backend.Store.Db.{Postgis}
use beacon_backend.Store.Insert.{row_of, is_percent, is_subset, is_tier, passes_checks}

is_subset-of_All : (set xs : List String) → All (λ v. In v set) xs → all (contains set) xs ≡ true
is_subset-of_All set [] h = refl
is_subset-of_All set (x ∷ xs) h = grind (arith, contains_iff set x, is_subset-of_All set xs h.1)

contains-pending : (v : String) → v ≡ "pending" → contains verifications v ≡ true
unfolding contains
contains-pending v e = rw e

is_tier-of : (l : Option String) → IsTier? l → is_tier l ≡ true
is_tier-of none h = refl
is_tier-of (some l) h = (contains_iff damage_tiers l).1 h

is_subset-of :
    (set : List String) (xs : Slice String)
    → IsPresent xs
    → All (λ v. In v set) (items xs)
    → is_subset set xs ≡ true
is_subset-of set none h a = absurd h
is_subset-of set (some xs) h a = is_subset-of_All set xs a

located-check :
    {F : Type 0} ⦃fl : Float F⦄ (resolved : Bool) (lat lng : Option F) (landmark : Option String)
    → IsLocated resolved lat lng landmark
    → (if resolved then is_some lat && is_some lng else not (is_blank landmark)) ≡ true
located-check true (some lat) (some lng) landmark h = refl
located-check true (some lat) none landmark h = absurd h
located-check true none lng landmark h = absurd h
located-check false lat lng (some l) h = ground (arith, eq_iff l "")
located-check false lat lng none h = absurd h

module _ {F : Type 0} ⦃fl : Float F⦄ (gis : Postgis F) where
  -- A normalised, valid report whose confidence is a percentage meets every CHECK.
  pub valid-passes_checks :
      (now : ℕ) (r : Report F)
      → IsNormal r
      → IsValid r
      → is_percent r.ai_confidence ≡ true
      → passes_checks (row_of gis now r) ≡ true
  unfolding passes_checks row_of
  valid-passes_checks now r n v p = ground (
    arith,
    (contains_iff damage_tiers r.damage).1 v.damage,
    contains-pending r.verification n.pending,
    (contains_iff debris_states r.debris).1 v.debris,
    is_tier-of r.ai_level v.ai_level,
    p,
    is_subset-of infra_types_all r.infra_types n.infra v.infra,
    is_subset-of crisis_natures r.crisis_nature n.nature v.nature,
    located-check r.location_resolved r.lat r.lng r.landmark v.location,
  )
