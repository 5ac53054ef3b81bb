-- ===== src/Service/Submission/Outcome.antt =====
-- What any submit leaves in the tables: the rows of before and at most one new one.
use beacon_backend.Prelude.{
  String, Option, none, some, Bool, true, false, ◌⊎◌, inl, inr, ◌≡◌, refl, ap, ◌∙◌, arith, map,
  ◌==◌, ◌&&◌, not, Bool-cases,
}
use mathlib.Core.Path.{subst}
use beacon_backend.Std.Float.{Float}
use beacon_backend.Model.Report.{Report, SubmitReportRequest}
use beacon_backend.Store.Db.{Row, Db}
use beacon_backend.Store.Insert.{
  done, row_of, insert_report, upsert_report, upsert_building, refresh_building_current_damage,
}
use beacon_backend.Store.Scan.{get_by_id}
use beacon_backend.Store.Emergent.Laws.{frozen, detect_emergent_crisis-frozen}
use beacon_backend.Service.Errors.{Result, ok, err, ServiceError}
use beacon_backend.Service.Normalize.{normalize}
use beacon_backend.Service.Normalize.Laws.{normalize-IsNormal}
use beacon_backend.Service.Validate.{validate}
use beacon_backend.Service.Submit.Context.{Env, detect_emergent}
use beacon_backend.Service.Submit.Guards.{check_guards, admit}
use beacon_backend.Service.Submit.Enrich.{enrich}
use beacon_backend.Service.Submit.Transaction.{submit_tx}
use beacon_backend.Service.Submit.{
  detect_around, propose_around, propose_emergent, settle, store_report, submit,
}
use beacon_backend.Service.Submission.Parts.{enrich-keeps}
use beacon_backend.Service.Submission.Created.{Created, SameButBuildings, submit_tx-Created}

-- No row of a report, submitter, audit or withdrawal is added or removed, and of a report nothing
-- changes but its crisis and its update time.
pub record Kept {F : Type 0} (old new : Db F) : Type 0 where
  pub rows : map frozen new.reports ≡ map frozen old.reports
  pub submitters : new.submitters ≡ old.submitters
  pub audits : new.audits ≡ old.audits
  pub withdrawals : new.withdrawals ≡ old.withdrawals

pub Kept-refl : {F : Type 0} (db : Db F) → Kept db db
Kept-refl db = record { rows = refl; submitters = refl; audits = refl; withdrawals = refl }

pub Kept-trans : {F : Type 0} {a b c : Db F} → Kept a b → Kept b c → Kept a c
Kept-trans p q = record {
  rows = q.rows ∙ p.rows;
  submitters = q.submitters ∙ p.submitters;
  audits = q.audits ∙ p.audits;
  withdrawals = q.withdrawals ∙ p.withdrawals;
}

Kept-buildings : {F : Type 0} {old new : Db F} → SameButBuildings new old → Kept old new
Kept-buildings s = record {
  rows = ap (map frozen) s.0;
  submitters = s.2;
  audits = s.3;
  withdrawals = s.4;
}

insert_report-false :
    {F : Type 0} (row : Row F) (db : Db F)
    → (insert_report row db).0 ≡ done false
    → (insert_report row db).1 ≡ db
unfolding insert_report
insert_report-false row db h = ground arith

module _ {F : Type 0} ⦃fl : Float F⦄ (env : Env F) where
  submit_tx-false :
      (r r' : Report F) (db : Db F)
      → (submit_tx env r db).0 ≡ ok (r', false)
      → SameButBuildings (submit_tx env r db).1 db
  unfolding submit_tx upsert_report insert_report upsert_building refresh_building_current_damage
  submit_tx-false r r' db h = ground arith

  submit_tx-err :
      (r : Report F) (db : Db F) (e : ServiceError)
      → (submit_tx env r db).0 ≡ err e
      → (submit_tx env r db).1 ≡ db
  unfolding submit_tx
  submit_tx-err r db e h = ground arith

  detect_around-Kept :
      (r : Report F) (lat lng : F) (db : Db F) → Kept db (detect_around env r lat lng db)
  unfolding detect_around
  detect_around-Kept r lat lng db =
      let k = detect_emergent_crisis-frozen env.gis _ lat lng r.captured_at _ _ db in
      record { rows = k.0; submitters = k.1; audits = k.2; withdrawals = k.3 }

  propose_around-Kept :
      (r : Report F) (inserted : Bool) (lat lng : Option F) (db : Db F)
      → Kept db (propose_around env r inserted lat lng db)
  unfolding propose_around
  propose_around-Kept r inserted none lng db = Kept-refl db
  propose_around-Kept r inserted (some lat) none db = Kept-refl db
  propose_around-Kept r inserted (some lat) (some lng) db =
      elim (Bool-cases (inserted && r.crisis_id == "" && not (env.fails detect_emergent))) [
        | inl c ↦ rw c (detect_around-Kept r lat lng db)
        | inr c ↦ rw c (Kept-refl db)
      ]

  settle-true :
      (r : Report F) (out : Result (Report F × Bool)) (db : Db F) (stored : Option (Report F))
      → (settle env r out db).0 ≡ ok (stored, true)
      → (r' : Report F) × (out ≡ ok (r', true))
        × ((settle env r out db).1 ≡ propose_emergent env r' true db)
        × (stored ≡ get_by_id env.read_at (settle env r out db).1 r'.id)
  unfolding settle
  settle-true r (err e) db stored h = ground arith
  settle-true r (ok (r', true)) db stored h = (r', refl, refl, ground arith)
  settle-true r (ok (r', false)) db stored h = ground arith

  settle-Kept :
      (r : Report F) (out : Result (Report F × Bool)) (db : Db F) → Kept db (settle env r out db).1
  unfolding settle
  settle-Kept r (err e) db = Kept-refl db
  settle-Kept r (ok (r', b)) db = propose_around-Kept r' b r'.lat r'.lng db

module _ {F : Type 0} ⦃fl : Float F⦄ (env : Env F) (req : SubmitReportRequest F)
    (sid : Option String) (db : Db F) where
  abbrev pub asked : Report F
  asked = normalize env.received_at req sid

  abbrev pub made : Report F
  made = enrich env db asked

  submit-admitted :
      (stored : Option (Report F))
      → (submit env req sid db).0 ≡ ok (stored, true)
      → (admit env db req sid ≡ ok asked)
        × (submit env req sid db ≡ store_report env made db)
        × (validate asked ≡ ok tt)
        × (check_guards env db sid asked ≡ ok tt)
  unfolding submit admit
  submit-admitted stored h = ground arith

  made-first : (made.version ≡ 1) × (made.supersedes_report_id ≡ none)
  unfolding enrich normalize
  made-first = ground arith

  -- A submit that answers "created" was valid and past the guards; its transaction wrote one new
  -- row and a version in the building's chain; after it only crises were assigned; and the answer
  -- is the stored row as it then stands.
  pub submit-created :
      (stored : Option (Report F))
      → (submit env req sid db).0 ≡ ok (stored, true)
      → (validate asked ≡ ok tt)
        × (check_guards env db sid asked ≡ ok tt)
        × (r' : Report F) × Created env db made r'
        × (r'.id ≡ asked.id)
        × Kept (submit_tx env made db).1 (submit env req sid db).1
        × (stored ≡ get_by_id env.read_at (submit env req sid db).1 asked.id)
  unfolding store_report
  submit-created stored h =
      let (a, s, v, g) = submit-admitted stored h in
      let mid : Db F = (submit_tx env made db).1 in
      let (r', t, d, got) = settle-true env made _ mid stored (ground (arith, s, h)) in
      let first = made-first in
      let c = submit_tx-Created env db made r' first.0 first.1 t in
      let same : r'.id ≡ asked.id = ap (λ r. r.id) c.shape ∙ (enrich-keeps env db asked).0 in
      (
        v,
        g,
        r',
        c,
        same,
        rw s (settle-Kept env made _ mid),
        rw s (got ∙ ap (get_by_id env.read_at (store_report env made db).1) same),
      )

  settled :
      (out : Result (Report F × Bool))
      → (submit_tx env made db).0 ≡ out
      → (Kept db (store_report env made db).1)
        ⊎ ((r' : Report F) × Created env db made r'
            × Kept (submit_tx env made db).1 (store_report env made db).1)
  unfolding store_report
  settled (err e) h =
      let same = submit_tx-err env made db e h in
      inl (
        subst (λ x. Kept x (settle env made (submit_tx env made db).0 (submit_tx env made db).1).1)
          same (settle-Kept env made _ (submit_tx env made db).1))
  settled (ok (r', false)) h = inl (
      Kept-trans (Kept-buildings (submit_tx-false env made r' db h))
        (settle-Kept env made _ (submit_tx env made db).1))
  settled (ok (r', true)) h = inr (
    r',
    submit_tx-Created env db made r' made-first.0 made-first.1 h,
    settle-Kept env made _ (submit_tx env made db).1,
  )

  submit-either :
      ((submit env req sid db).1 ≡ db) ⊎ ((submit env req sid db).1 ≡ (store_report env made db).1)
  unfolding submit admit
  submit-either = ground arith

  -- Whatever a submit answers, the tables hold what they held, or one row more.
  pub submit-cases :
      (Kept db (submit env req sid db).1)
      ⊎ ((r' : Report F) × Created env db made r'
          × Kept (submit_tx env made db).1 (submit env req sid db).1)
  submit-cases = elim submit-either [
    | inl e ↦ inl (rw e (Kept-refl db))
    | inr e ↦ rw e (settled (submit_tx env made db).0 refl)
  ]

  -- The row that a submit adds is pending and has no photo yet.
  pub Created-pending :
      (r' : Report F)
      → Created env db made r'
      → let row = row_of env.gis env.inserted_at r' in
        (row.verification ≡ "pending") × (row.photo_url ≡ none)
  unfolding row_of
  Created-pending r' c =
      let n = normalize-IsNormal env.received_at req sid in
      (ap (λ r. r.verification) c.shape ∙ (enrich-keeps env db asked).4 ∙ n.pending, refl)
