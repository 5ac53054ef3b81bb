-- ===== src/Service/Submission/Parts.antt =====
-- What enriching and versioning leave alone, and the statements of a transaction on known rows.
use beacon_backend.Prelude.{ℕ, String, Option, none, List, [], ◌∷◌, ◌≡◌, refl, arith, map}
use beacon_backend.Std.Float.{Float}
use beacon_backend.Model.Report.{Report}
use beacon_backend.Store.Db.{BuildingRow, Db, Postgis}
use beacon_backend.Store.Insert.{row_of, passes_checks, on_building, refreshed}
use beacon_backend.Service.Submit.Context.{Env}
use beacon_backend.Service.Submit.Enrich.{enrich}
use beacon_backend.Service.Submit.Transaction.{versioned}

module _ {F : Type 0} ⦃fl : Float F⦄ (env : Env F) (db : Db F) (r : Report F) where
  -- Enriching changes the admin chain, the crisis and the description alone.
  pub enrich-keeps :
      ((enrich env db r).id ≡ r.id)
      × ((enrich env db r).idempotency_key ≡ r.idempotency_key)
      × ((enrich env db r).building_id ≡ r.building_id)
      × ((enrich env db r).submitter_id ≡ r.submitter_id)
      × ((enrich env db r).verification ≡ r.verification)
      × ((enrich env db r).captured_at ≡ r.captured_at)
      × ((enrich env db r).created_at ≡ r.created_at)
  unfolding enrich
  enrich-keeps = ground arith

  pub passes_checks-enrich :
      (gis : Postgis F) (t : ℕ) (v : ℕ × Option String)
      → (passes_checks (row_of gis t (versioned env (enrich env db r) v))
          ≡ passes_checks (row_of gis t r))
        × (passes_checks (row_of gis t (enrich env db r)) ≡ passes_checks (row_of gis t r))
  unfolding enrich row_of passes_checks
  passes_checks-enrich gis t v = ground arith

-- A building that is stored already keeps its row.
pub refreshed-none :
    {F : Type 0} (id : String) (bs : List (BuildingRow F))
    → map (on_building id (refreshed none)) bs ≡ bs
unfolding refreshed
refreshed-none id [] = refl
refreshed-none id (b ∷ bs) = ground (arith, refreshed-none id bs)
