-- ===== src/Service/Submission/Created.antt =====
-- What a submit that creates a report has written.
use beacon_backend.Prelude.{
  ℕ, ◌+◌, String, Option, none, some, [], ◌∷◌, ◌++◌, true, false, ◌⊎◌, inl, inr, ◌≡◌, refl, sym, ap,
  ◌∙◌, arith, any, select, length, ◌==◌, eq_iff, Bool-cases,
}
use mathlib.Core.Path.{subst}
use beacon_backend.Std.Float.{Float}
use beacon_backend.Model.Report.{Report}
use beacon_backend.Model.Crisis.{Building}
use beacon_backend.Store.Db.{Row, Db, Postgis}
use beacon_backend.Store.Insert.{
  done, row_of, passes_checks, insert_report, upsert_report, upsert_building, next_version,
  of_building, refresh_building_current_damage,
}
use beacon_backend.Service.Errors.{ok}
use beacon_backend.Service.Submit.Context.{Env}
use beacon_backend.Service.Submit.Transaction.{building_for, versioned, submit_tx}

-- One row more at the end of the table, with an id and a key that no row had.
pub record Appended {F : Type 0} (row : Row F) (old new : Db F) : Type 0 where
  pub rows : new.reports ≡ old.reports ++ row ∷ []
  pub fresh_id : any (λ x. x.id == row.id) old.reports ≡ false
  pub fresh_key : any (λ x. x.idempotency_key == row.idempotency_key) old.reports ≡ false
  pub checked : passes_checks row ≡ true
  pub crises : new.crises ≡ old.crises
  pub submitters : new.submitters ≡ old.submitters
  pub audits : new.audits ≡ old.audits
  pub withdrawals : new.withdrawals ≡ old.withdrawals

-- The version and the link that a report gets: the first of its kind, or next in a building's chain.
abbrev pub IsVersioned :
    {F : Type 0} → Postgis F → Db F → Option String → ℕ → Option String → Type 0
IsVersioned gis db none v link = (v ≡ 1) × (link ≡ none)
IsVersioned gis db (some id) v link =
    ((id ≡ "") × (v ≡ 1) × (link ≡ none))
    ⊎ ((v ≡ length (select (of_building id) db.reports) + 1) × (link ≡ (next_version gis id db).1))

insert_report-Appended :
    {F : Type 0} (row : Row F) (db : Db F)
    → (insert_report row db).0 ≡ done true
    → Appended row db (insert_report row db).1
unfolding insert_report
insert_report-Appended row db h = ground arith

upsert_report-Appended :
    {F : Type 0} (gis : Postgis F) (t : ℕ) (r : Report F) (db : Db F)
    → (upsert_report gis t r db).0 ≡ done true
    → Appended (row_of gis t r) db (upsert_report gis t r db).1
unfolding upsert_report
upsert_report-Appended gis t r db h = insert_report-Appended (row_of gis t r) db h

upsert_building-reports :
    {F : Type 0} (b : Building F) (db : Db F)
    → let (_, new) = upsert_building b db in
      (new.reports ≡ db.reports)
      × (new.crises ≡ db.crises)
      × (new.submitters ≡ db.submitters)
      × (new.audits ≡ db.audits)
      × (new.withdrawals ≡ db.withdrawals)
unfolding upsert_building
upsert_building-reports b db = ground arith

next_version-reports :
    {F : Type 0} (gis : Postgis F) (id : String) (a b : Db F)
    → a.reports ≡ b.reports
    → next_version gis id a ≡ next_version gis id b
unfolding next_version
next_version-reports gis id a b e = rw e

-- The tables that the building statements leave alone.
abbrev pub SameButBuildings : {F : Type 0} → Db F → Db F → Type 0
SameButBuildings a b =
    (a.reports ≡ b.reports)
    × (a.crises ≡ b.crises)
    × (a.submitters ≡ b.submitters)
    × (a.audits ≡ b.audits)
    × (a.withdrawals ≡ b.withdrawals)

Appended-transfer :
    {F : Type 0} {row : Row F} {old new : Db F} (old' new' : Db F)
    → Appended row old new
    → SameButBuildings new' new
    → SameButBuildings old old'
    → Appended row old' new'
Appended-transfer {row} old' new' a n o = record {
  rows = n.0 ∙ a.rows ∙ ap (λ rows. rows ++ row ∷ []) o.0;
  fresh_id = rw o.0 at a.fresh_id;
  fresh_key = rw o.0 at a.fresh_key;
  checked = a.checked;
  crises = n.1 ∙ a.crises ∙ o.1;
  submitters = n.2 ∙ a.submitters ∙ o.2;
  audits = n.3 ∙ a.audits ∙ o.3;
  withdrawals = n.4 ∙ a.withdrawals ∙ o.4;
}

next_version-fst :
    {F : Type 0} (gis : Postgis F) (id : String) (db : Db F)
    → (next_version gis id db).0 ≡ length (select (of_building id) db.reports) + 1
unfolding next_version
next_version-fst gis id db = refl

module _ {F : Type 0} ⦃fl : Float F⦄ (env : Env F) (db : Db F) (r r' : Report F) where
  -- The transaction that created a report, seen from its two ends.
  pub record Created : Type 0 where
    pub shape : r' ≡ versioned env r (r'.version, r'.supersedes_report_id)
    pub appended : Appended (row_of env.gis env.inserted_at r') db (submit_tx env r db).1
    pub chain : IsVersioned env.gis db r.building_id r'.version r'.supersedes_report_id

  created_alone :
      (o : Option String)
      → r.building_id ≡ o
      → (o ≡ none) ⊎ (o ≡ some "")
      → (submit_tx env r db).0 ≡ ok (r', true)
      → (r' ≡ r)
        × ((upsert_report env.gis env.inserted_at r db).0 ≡ done true)
        × ((submit_tx env r db).1 ≡ (upsert_report env.gis env.inserted_at r db).1)
  unfolding submit_tx
  created_alone none e o h = ground arith
  created_alone (some id) e o h = ground (arith, eq_iff id "")

  abbrev with_building : String → Db F
  with_building id = (upsert_building (building_for env id r) db).1

  abbrev next : String → Report F
  next id = versioned env r (next_version env.gis id (with_building id))

  created_in_chain :
      (id : String)
      → r.building_id ≡ some id
      → (id == "") ≡ false
      → (submit_tx env r db).0 ≡ ok (r', true)
      → (r' ≡ next id)
        × ((upsert_report env.gis env.inserted_at (next id) (with_building id)).0 ≡ done true)
        × SameButBuildings
            (submit_tx env r db).1
            (upsert_report env.gis env.inserted_at (next id) (with_building id)).1
  unfolding submit_tx refresh_building_current_damage
  created_in_chain id e n h = ground arith

  Created-alone :
      (o : Option String)
      → r.building_id ≡ o
      → (o ≡ none) ⊎ (o ≡ some "")
      → r.version ≡ 1
      → r.supersedes_report_id ≡ none
      → (submit_tx env r db).0 ≡ ok (r', true)
      → Created
  Created-alone o e blank v s h =
      let (same, done_, db') = created_alone o e blank h in
      let a = upsert_report-Appended env.gis env.inserted_at r db done_ in
      record {
        shape = rw same (ground (arith, v, s));
        appended = rw (same, db') a;
        chain = rw same (alone o e blank);
      }
    where
      alone :
          (o : Option String)
          → r.building_id ≡ o
          → (o ≡ none) ⊎ (o ≡ some "")
          → IsVersioned env.gis db r.building_id r.version r.supersedes_report_id
      alone none e o = rw e (v, s)
      alone (some id) e o = rw e (inl (ground arith, v, s))

  Created-in_chain :
      (id : String)
      → r.building_id ≡ some id
      → (id == "") ≡ false
      → (submit_tx env r db).0 ≡ ok (r', true)
      → Created
  Created-in_chain id e n h =
      let (same, written, rows) = created_in_chain id e n h in
      let a = upsert_report-Appended env.gis env.inserted_at (next id) (with_building id) written in
      let b = upsert_building-reports (building_for env id r) db in
      let v = next_version-reports env.gis id (with_building id) db b.0 in
      record {
        shape = rw same refl;
        appended =
            subst (λ x. Appended (row_of env.gis env.inserted_at x) db (submit_tx env r db).1)
              (sym same) (Appended-transfer db (submit_tx env r db).1 a rows b);
        chain =
            rw (same, e) (inr (ap (λ w. w.0) v ∙ next_version-fst env.gis id db, ap (λ w. w.1) v));
      }

  -- The report that the transaction says it created is one new row, and nothing else but a
  -- building's row has changed; its version and link are those of the building's chain.
  pub submit_tx-Created :
      r.version ≡ 1
      → r.supersedes_report_id ≡ none
      → (submit_tx env r db).0 ≡ ok (r', true)
      → Created
  submit_tx-Created v s h = go r.building_id refl
    where
      go : (o : Option String) → r.building_id ≡ o → Created
      go none e = Created-alone none e (inl refl) v s h
      go (some id) e = elim (Bool-cases (id == "")) [
        | inl blank ↦ Created-alone (some id) e (inr (ap some ((eq_iff id "").0 blank))) v s h
        | inr named ↦ Created-in_chain id e named h
      ]
