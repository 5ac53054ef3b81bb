-- ===== src/Service/Submission/Versions.antt =====
-- The version chain of a building: its reports are numbered 1, 2, 3 and so on.
use beacon_backend.Prelude.{
  ℕ, suc, ◌+◌, String, Option, none, some, List, [], ◌∷◌, ◌++◌, true, false, ◌≡◌, inl, inr, refl,
  sym, ap, ◌∙◌, arith, map, select, select-append, length, ◌==◌, eq_iff, if◌then◌else◌, Bool-cases,
}
use beacon_backend.Std.Float.{Float}
use beacon_backend.Model.Report.{Report, SubmitReportRequest}
use beacon_backend.Store.Db.{Row, Db}
use beacon_backend.Store.Insert.{row_of, of_building}
use beacon_backend.Store.Emergent.Laws.{frozen}
use beacon_backend.Service.Submit.Context.{Env}
use beacon_backend.Service.Submit.Transaction.{submit_tx}
use beacon_backend.Service.Submit.{submit}
use beacon_backend.Service.Submission.Outcome.{Kept, made, submit-cases}
use beacon_backend.Service.Submission.Created.{IsVersioned}

-- The versions of a building's reports, in the order of their insertion.
abbrev pub versions : {F : Type 0} → String → List (Row F) → List ℕ
versions b rows = map (λ r. r.version) (select (of_building b) rows)

abbrev pub CountsFrom : ℕ → List ℕ → Type 0
CountsFrom k [] = Unit
CountsFrom k (v ∷ vs) = (v ≡ k) × CountsFrom (suc k) vs

abbrev pub IsDense : {F : Type 0} → String → Db F → Type 0
IsDense b db = CountsFrom 1 (versions b db.reports)

CountsFrom-append :
    (k v : ℕ) (vs : List ℕ) → CountsFrom k vs → v ≡ k + length vs → CountsFrom k (vs ++ v ∷ [])
CountsFrom-append k v [] c e = (omega (arith, e), tt)
CountsFrom-append k v (x ∷ vs) (h, c) e = (h, CountsFrom-append (suc k) v vs c (omega (arith, e)))

module _ {F : Type 0} where
  versions-frozen :
      (b : String) (rows : List (Row F)) → versions b (map frozen rows) ≡ versions b rows
  versions-frozen b [] = refl
  versions-frozen b (r ∷ rows) = ground (arith, versions-frozen b rows)

  versions-Kept :
      (b : String) (old new : Db F) → Kept old new → versions b new.reports ≡ versions b old.reports
  versions-Kept b old new k =
      sym (versions-frozen b new.reports) ∙ ap (versions b) k.rows ∙ versions-frozen b old.reports

  map-append_one :
      (xs : List (Row F)) (y : Row F)
      → map (λ r. r.version) (xs ++ y ∷ []) ≡ map (λ r. r.version) xs ++ y.version ∷ []
  map-append_one [] y = refl
  map-append_one (x ∷ xs) y = ap (λ t. x.version ∷ t) (map-append_one xs y)

  length-versions : (xs : List (Row F)) → length (map (λ r. r.version) xs) ≡ length xs
  length-versions [] = refl
  length-versions (x ∷ xs) = ap suc (length-versions xs)

  versions-append :
      (b : String) (rows : List (Row F)) (y : Row F)
      → versions b (rows ++ y ∷ [])
        ≡ (if of_building b y then versions b rows ++ y.version ∷ [] else versions b rows)
  versions-append b rows y =
      rw (select-append (of_building b) rows y)
        (ground (arith, map-append_one (select (of_building b) rows) y))

  IsDense-append :
      (b : String) (rows : List (Row F)) (y : Row F)
      → CountsFrom 1 (versions b rows)
      → (of_building b y ≡ true → y.version ≡ length (select (of_building b) rows) + 1)
      → CountsFrom 1 (versions b (rows ++ y ∷ []))
  IsDense-append b rows y c v = rw (versions-append b rows y) (elim (Bool-cases (of_building b y)) [
    | inl e ↦ rw e (
        CountsFrom-append 1 y.version (versions b rows) c
          (omega (arith, v e, length-versions (select (of_building b) rows))))
    | inr e ↦ rw e c
  ])

module _ {F : Type 0} ⦃fl : Float F⦄ (env : Env F) (req : SubmitReportRequest F)
    (sid : Option String) (db : Db F) where
  numbered :
      (b : String) (r' : Report F) (o : Option String)
      → (b == "") ≡ false
      → o ≡ r'.building_id
      → IsVersioned env.gis db o r'.version r'.supersedes_report_id
      → of_building b (row_of env.gis env.inserted_at r') ≡ true
      → r'.version ≡ length (select (of_building b) db.reports) + 1
  unfolding row_of
  numbered b r' none n e v h = ground arith
  numbered b r' (some id) n e (inl (i, v, l)) h = ground (arith, eq_iff id b)
  numbered b r' (some id) n e (inr (v, l)) h =
      let same : id ≡ b = ground (arith, eq_iff id b) in rw same at v

  -- If a building's reports are numbered 1 to n, they are numbered 1 to n or 1 to n + 1 after any
  -- submit, whichever building that is about.
  pub submit-IsDense :
      (b : String) → (b == "") ≡ false → IsDense b db → IsDense b (submit env req sid db).1
  unfolding row_of
  submit-IsDense b n d = elim (submit-cases env req sid db) [
    | inl k ↦ rw (versions-Kept b db (submit env req sid db).1 k) d
    | inr (r', c, k) ↦
        rw
          (
            versions-Kept b (submit_tx env (made env req sid db) db).1 (submit env req sid db).1 k,
            c.appended.rows,
          )
          (IsDense-append b db.reports (row_of env.gis env.inserted_at r') d (
            numbered b r' (made env req sid db).building_id n
              (sym (ap (λ r. r.building_id) c.shape)) c.chain))
  ]
