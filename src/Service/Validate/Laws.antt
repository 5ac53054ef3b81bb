-- ===== src/Service/Validate/Laws.antt =====
-- What validate accepts, described without it.
use beacon_backend.Prelude.{
  String, Option, none, some, List, [], ◌∷◌, Bool, true, false, not, ◌==◌, ◌≡◌, ◌≢◌, ◌↔◌, refl,
  arith, eq_iff, All,
}
use beacon_backend.Std.{items, is_empty}
use beacon_backend.Std.Float.{Float, of_nat, of_neg}
use beacon_backend.Model.Vocabulary.{
  damage_tiers, debris_states, infra_types_all, crisis_natures, cluster_names, contains,
}
use beacon_backend.Model.Vocabulary.Membership.{In, contains_iff}
use beacon_backend.Model.Report.{Report}
use beacon_backend.Service.Errors.{
  Invalid, infra_unknown, nature_unknown, cluster_unknown, Result, ok, err, ◌>>◌,
}
use beacon_backend.Service.Validate.{
  reject_if, each_known, bad_ai_level, out_of_range, check_location, validate,
}

-- Every step of a chain passes exactly when the chain does.
passes_iff : (m k : Result (Unit {0})) → ((m >> k) ≡ ok tt) ↔ ((m ≡ ok tt) × (k ≡ ok tt))
passes_iff (ok tt) k = (λ h. (refl, h), λ h. h.1)
passes_iff (err e) k = (λ h. cc, λ h. cc)

reject_if_iff : (b : Bool) (e : Invalid) → (reject_if b e ≡ ok tt) ↔ (b ≡ false)
reject_if_iff true e = (λ h. cc, λ h. cc)
reject_if_iff false e = (λ h. refl, λ h. refl)

each_known_iff :
    (set : List String) (e : String → Invalid) (vs : List String)
    → (each_known set e vs ≡ ok tt) ↔ All (λ v. In v set) vs
unfolding each_known
each_known_iff set e [] = (λ h. tt, λ h. refl)
each_known_iff set e (v ∷ vs) = grind (arith, contains_iff set v, each_known_iff set e vs)

-- An optional damage tier.
abbrev pub IsTier? : Option String → Type 0
IsTier? none = Unit
IsTier? (some l) = In l damage_tiers

bad_ai_level_iff : (l : Option String) → (bad_ai_level l ≡ false) ↔ IsTier? l
bad_ai_level_iff none = (λ h. tt, λ h. refl)
bad_ai_level_iff (some l) = grind (arith, contains_iff damage_tiers l)

not_iff : (set : List String) (v : String) → (not (contains set v) ≡ false) ↔ In v set
not_iff set v = grind (arith, contains_iff set v)

ne_iff : (s t : String) → ((s == t) ≡ false) ↔ (s ≢ t)
ne_iff s t = ground (arith, eq_iff s t)

module _ {F : Type 0} ⦃fl : Float F⦄ where
  -- In range as the code tests it: neither bound is passed.
  pub record InRange (lat lng : F) : Type 0 where
    pub south : fl.lt lat (of_neg 89) ≡ false
    pub north : fl.lt (of_nat 90) lat ≡ false
    pub west : fl.lt lng (of_neg 179) ≡ false
    pub east : fl.lt (of_nat 180) lng ≡ false

  -- A resolved point in range, or an unresolved report with a landmark.
  abbrev pub IsLocated : Bool → Option F → Option F → Option String → Type 0
  IsLocated true (some lat) (some lng) landmark = InRange lat lng
  IsLocated true (some lat) none landmark = ⊥
  IsLocated true none lng landmark = ⊥
  IsLocated false lat lng (some l) = l ≢ ""
  IsLocated false lat lng none = ⊥

  check_location_iff :
      (resolved : Bool) (lat lng : Option F) (landmark : Option String)
      → (check_location resolved lat lng landmark ≡ ok tt) ↔ IsLocated resolved lat lng landmark
  unfolding check_location out_of_range
  check_location_iff true (some lat) (some lng) landmark = ground arith
  check_location_iff true (some lat) none landmark = (λ h. cc, λ h. absurd h)
  check_location_iff true none lng landmark = (λ h. cc, λ h. absurd h)
  check_location_iff false lat lng (some l) = ground (arith, eq_iff l "")
  check_location_iff false lat lng none = (λ h. cc, λ h. absurd h)

  -- What a submitted report must be, question by question.
  pub record IsValid (r : Report F) : Type 0 where
    pub has_id : r.id ≢ ""
    pub damage : In r.damage damage_tiers
    pub debris : In r.debris debris_states
    pub has_infra : is_empty r.infra_types ≡ false
    pub infra : All (λ v. In v infra_types_all) (items r.infra_types)
    pub has_nature : is_empty r.crisis_nature ≡ false
    pub nature : All (λ v. In v crisis_natures) (items r.crisis_nature)
    pub ai_level : IsTier? r.ai_level
    pub clusters : All (λ v. In v cluster_names) (items r.clusters)
    pub location : IsLocated r.location_resolved r.lat r.lng r.landmark

  -- validate accepts exactly the reports that answer every question as the contract demands.
  pub validate_iff : (r : Report F) → (validate r ≡ ok tt) ↔ IsValid r
  unfolding validate
  validate_iff r = ground (
    arith,
    ne_iff r.id "",
    not_iff damage_tiers r.damage,
    not_iff debris_states r.debris,
    each_known_iff infra_types_all infra_unknown (items r.infra_types),
    each_known_iff crisis_natures nature_unknown (items r.crisis_nature),
    bad_ai_level_iff r.ai_level,
    each_known_iff cluster_names cluster_unknown (items r.clusters),
    check_location_iff r.location_resolved r.lat r.lng r.landmark,
  )
