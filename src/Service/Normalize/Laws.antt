-- ===== src/Service/Normalize/Laws.antt =====
-- What normalize guarantees of every report, whatever the request.
use beacon_backend.Prelude.{
  ℕ, String, Option, none, some, Bool, true, false, ◌≡◌, ◌≢◌, ◌⊎◌, refl, arith, eq_iff, ◌==◌,
  Bool-cases, ne-of-str, if◌then◌else◌, inl, inr,
}
use beacon_backend.Std.{Slice}
use beacon_backend.Std.Float.{Float}
use beacon_backend.Model.Report.{Report, SubmitReportRequest}
use beacon_backend.Service.Normalize.{coalesce_list, pick, trusted_source, honest, normalize}

abbrev pub IsPresent {ℓ} : {A : Type ℓ} → Slice A → Type 0
IsPresent none = ⊥
IsPresent (some xs) = Unit

-- A point, or none at all; never half of one.
abbrev pub IsPoint {ℓ} : {F : Type ℓ} → Bool → Option F → Option F → Type 0
IsPoint true (some lat) (some lng) = Unit
IsPoint false none none = Unit
IsPoint _ _ _ = ⊥

module _ {F : Type 0} where
  pub record IsNormal (r : Report F) : Type 0 where
    pub pending : r.verification ≡ "pending"
    pub first : r.version ≡ 1
    pub no_auto : r.crisis_id ≢ "auto"
    pub debris : r.debris ≢ ""
    pub faces : r.anonymization.faces_blurred ≡ false
    pub plates : r.anonymization.plates_blurred ≡ false
    pub source : (r.building_source ≡ none) ⊎ (r.building_source ≡ some "footprint")
    pub point : IsPoint r.location_resolved r.lat r.lng
    pub alias : r.what3words ≡ r.plus_code
    pub infra : IsPresent r.infra_types
    pub nature : IsPresent r.crisis_nature
    pub photos : IsPresent r.photos
    pub clusters : IsPresent r.clusters

trusted_source-cases :
    (s : Option String) → (trusted_source s ≡ none) ⊎ (trusted_source s ≡ some "footprint")
unfolding trusted_source
trusted_source-cases none = ground arith
trusted_source-cases (some s) = ground (arith, eq_iff s "footprint")

-- A value that is replaced where it is the unwanted one is not that one.
replaced-ne : (s bad good : String) → good ≢ bad → (if s == bad then good else s) ≢ bad
replaced-ne s bad good h = elim (Bool-cases (s == bad)) [
  | inl e ↦ rw e h
  | inr e ↦ rw e (ne-of-str s bad e)
]

IsPresent-coalesce_list : (xs alias : Slice String) → IsPresent (coalesce_list xs alias)
unfolding coalesce_list
IsPresent-coalesce_list xs alias = ground arith

module _ {F : Type 0} ⦃fl : Float F⦄ (now : ℕ) (req : SubmitReportRequest F)
    (sid : Option String) where
  -- Whatever the request claims, the report is pending, unblurred, at version 1, with a trusted
  -- building source, whole coordinates and no nil list, and is not assigned to the word "auto".
  pub normalize-IsNormal : IsNormal (normalize now req sid)
  unfolding normalize honest
  normalize-IsNormal = record {
    pending = refl;
    first = refl;
    no_auto = replaced-ne req.crisis_id "auto" "" (ne-of-str "" "auto" refl);
    debris = replaced-ne req.debris "" "unsure" (ne-of-str "unsure" "" refl);
    faces = ground arith;
    plates = ground arith;
    source = trusted_source-cases (pick req.building_source req.location (λ l. l.building_source));
    point = ground arith;
    alias = refl;
    infra = IsPresent-coalesce_list req.infra_types req.infra;
    nature = IsPresent-coalesce_list req.crisis_nature req.crisis;
    photos = ground arith;
    clusters = ground arith;
  }
