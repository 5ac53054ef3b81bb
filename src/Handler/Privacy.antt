-- ===== src/Handler/Privacy.antt =====
-- What a low-trust caller can learn of a report.
use beacon_backend.Prelude.{
  ℕ, String, Option, none, some, true, false, ◌≡◌, ◌≢◌, ◌⊎◌, inl, inr, refl, arith, eq_iff,
  Bool-cases,
}
use beacon_backend.Prelude.Int.{ℤ}
use beacon_backend.Std.{Slice}
use beacon_backend.Std.Float.{Float}
use beacon_backend.Model.Report.{ReportDescription, Anonymization, Report, ReportLocation}
use beacon_backend.Model.User.{User, is_viewer_tier}
use beacon_backend.Store.Db.{Db}
use beacon_backend.Store.Scan.{get_by_id}
use beacon_backend.Handler.Reply.{refused}
use beacon_backend.Handler.Scope.{is_public_tier, is_in_scope}
use beacon_backend.Handler.Projection.{coarsened, public_projection}
use beacon_backend.Handler.Reports.{reply_to, get_report}
use beacon_backend.Handler.Photo.{may_serve}

-- What identifies a reporter or a place, and what is for analysts alone.
pub record Secrets (F : Type 0) : Type 0 where
  pub submitter_id : Option String
  pub lat : Option F
  pub lng : Option F
  pub what3words : Option String
  pub plus_code : Option String
  pub landmark : Option String
  pub building_id : Option String
  pub building_source : Option String
  pub gps_accuracy_meters : Option F
  pub location : ReportLocation F
  pub infra_name : Option String
  pub description : Option ReportDescription
  pub clusters : Slice String
  pub ai_level : Option String
  pub ai_confidence : Option ℤ
  pub modular : String
  pub anonymization : Anonymization
  pub idempotency_key : String
  pub supersedes_report_id : Option String

abbrev pub with_secrets : {F : Type 0} → Secrets F → Report F → Report F
with_secrets s rep = record rep {
  submitter_id = s.submitter_id;
  lat = s.lat;
  lng = s.lng;
  what3words = s.what3words;
  plus_code = s.plus_code;
  landmark = s.landmark;
  building_id = s.building_id;
  building_source = s.building_source;
  gps_accuracy_meters = s.gps_accuracy_meters;
  location = s.location;
  infra_name = s.infra_name;
  description = s.description;
  clusters = s.clusters;
  ai_level = s.ai_level;
  ai_confidence = s.ai_confidence;
  modular = s.modular;
  anonymization = s.anonymization;
  idempotency_key = s.idempotency_key;
  supersedes_report_id = s.supersedes_report_id;
}

module _ {F : Type 0} ⦃fl : Float F⦄ where
  -- The reply to an anonymous caller or an external viewer is the same whatever the report's
  -- secrets are, up to coordinates that coarsen alike.
  pub reply_to-secrets :
      (user : Option User) (rep : Report F) (s : Secrets F)
      → is_public_tier user ≡ true
      → coarsened s.lat ≡ coarsened rep.lat
      → coarsened s.lng ≡ coarsened rep.lng
      → reply_to user (with_secrets s rep) ≡ reply_to user rep
  unfolding reply_to is_public_tier public_projection
  reply_to-secrets none rep s t a b = ground (arith, a, b)
  reply_to-secrets (some u) rep s t a b = ground (arith, a, b)

  -- A report that is not verified is, for an anonymous caller or an external viewer, as one that
  -- does not exist; so is, for any user, one out of scope, or of no crisis where the scope is not
  -- org-wide.
  pub get_report-hidden :
      (now : ℕ) (user : Option User) (id : String) (db : Db F) (rep : Report F)
      → get_by_id now db id ≡ some rep
      → ((is_public_tier user ≡ true) × (rep.verification ≢ "verified"))
        ⊎ ((u : User) × (user ≡ some u) × (is_in_scope u rep.crisis_id ≡ false))
      → get_report now false user id db ≡ refused 404 "not_found"
  unfolding get_report is_public_tier is_in_scope
  get_report-hidden now none id db rep f (inl (t, v)) =
      ground (arith, f, eq_iff rep.verification "verified")
  get_report-hidden now (some u) id db rep f (inl (t, v)) =
      ground (arith, f, t, eq_iff rep.verification "verified")
  get_report-hidden now user id db rep f (inr (u, e, o)) = rw e (ground (arith, f, o))

-- A photo is served to nobody but: of a verified report, to the public, and to a viewer in scope;
-- of any report, to an analyst in scope.
pub may_serve-cases :
    (user : Option User) (verification crisis_id : String)
    → may_serve user verification crisis_id ≡ true
    → ((is_public_tier user ≡ true)
        × (verification ≡ "verified")
        × ((user ≡ none) ⊎ ((u : User) × (user ≡ some u) × (is_in_scope u crisis_id ≡ true))))
      ⊎ ((u : User) × (user ≡ some u)
          × (is_viewer_tier u ≡ false)
          × (is_in_scope u crisis_id ≡ true))
unfolding may_serve is_public_tier
may_serve-cases none v c h = inl (refl, ground (arith, eq_iff v "verified"), inl refl)
may_serve-cases (some u) v c h = elim (Bool-cases (is_viewer_tier u)) [
  | inl t ↦ inl (t, ground (arith, h, t, eq_iff v "verified"), inr (u, refl, ground (arith, h, t)))
  | inr t ↦ inr (u, refl, t, ground (arith, h, t))
]
