-- ===== src/Store/Withdraw/Laws.antt =====
-- What is left of a withdrawn report.
use beacon_backend.Prelude.{
  String, Option, none, some, List, [], ◌∷◌, ◌++◌, true, false, not, ◌≡◌, ◌⊎◌, inl, inr, refl,
  arith, ◌==◌, eq_iff, All, select, map, find_first, Bool-cases,
}
use beacon_backend.Std.{points_to}
use beacon_backend.Store.Db.{Row, Audit, Db}
use beacon_backend.Store.Withdraw.{withdraw_report, erase_owned, owns, device_of, cut_link}

audits-gone :
    (id : String) (audits : List Audit)
    → All (λ a. (a.report_id == id) ≡ false) (select (λ a. not (a.report_id == id)) audits)
audits-gone id [] = tt
audits-gone id (a ∷ audits) = elim (Bool-cases (a.report_id == id)) [
  | inl e ↦ rw e (audits-gone id audits)
  | inr e ↦ rw e (e, audits-gone id audits)
]

module _ {F : Type 0} where
  -- No row of the report is left, and no row that supersedes it.
  abbrev pub IsGone : String → Row F → Type 0
  IsGone id r = ((r.id == id) ≡ false) × (points_to r.supersedes_report_id id ≡ false)

  rows-IsGone :
      (id : String) (rows : List (Row F))
      → All (IsGone id) (select (λ r. not (r.id == id)) (map (cut_link id) rows))
  rows-IsGone id [] = tt
  rows-IsGone id (r ∷ rows) = elim (Bool-cases (points_to r.supersedes_report_id id)) [
    | inl p ↦ rw p (elim (Bool-cases (r.id == id)) [
      | inl e ↦ rw e (rows-IsGone id rows)
      | inr e ↦ rw e ((e, refl), rows-IsGone id rows)
    ])
    | inr p ↦ rw p (elim (Bool-cases (r.id == id)) [
      | inl e ↦ rw e (rows-IsGone id rows)
      | inr e ↦ rw e ((e, p), rows-IsGone id rows)
    ])
  ]

  abbrev pub unlinked : String → Option (Row F) → Option (Row F)
  unlinked id none = none
  unlinked id (some r) = some (cut_link id r)

  cut_link-id : (id : String) (r : Row F) → (cut_link id r).id ≡ r.id
  cut_link-id id r = ground arith

  others-kept :
      (id other : String) (rows : List (Row F))
      → (other == id) ≡ false
      → find_first (λ r. r.id == other) (select (λ r. not (r.id == id)) (map (cut_link id) rows))
        ≡ unlinked id (find_first (λ r. r.id == other) rows)
  others-kept id other [] n = refl
  others-kept id other (r ∷ rows) n = rw (cut_link-id id r) (elim (Bool-cases (r.id == id)) [
    | inl e ↦
        let o : (r.id == other) ≡ false =
          ground (arith, eq_iff r.id id, eq_iff r.id other, eq_iff other id) in
        rw (e, o) (others-kept id other rows n)
    | inr e ↦ elim (Bool-cases (r.id == other)) [
      | inl o ↦ rw (e, o) (rw (cut_link-id id r, o) refl)
      | inr o ↦ rw (e, o) (rw (cut_link-id id r, o) (others-kept id other rows n))
    ]
  ])

  -- The reporting device's withdrawal leaves no row of the report, no row that supersedes it and
  -- no audit of it, one record that it was withdrawn, and every other report as it was but for
  -- such a link. No other device's withdrawal changes anything.
  pub withdraw_report_lem :
      (id caller : String) (db : Db F) (row : Row F) (other : String)
      → (other == id) ≡ false
      → find_first (λ r. r.id == id) db.reports ≡ some row
      → let new = (withdraw_report id caller db).1 in
        ((owns (device_of db row) caller ≡ true)
          × All (IsGone id) new.reports
          × All (λ a. (a.report_id == id) ≡ false) new.audits
          × (new.withdrawals
              ≡ db.withdrawals
                ++ record {
                  report_id = id;
                  submitter_id = row.submitter_id;
                  crisis_id = row.crisis_id;
                }
                  ∷ [])
          × (find_first (λ r. r.id == other) new.reports
              ≡ unlinked id (find_first (λ r. r.id == other) db.reports)))
        ⊎ ((owns (device_of db row) caller ≡ false) × (new ≡ db))
  unfolding withdraw_report erase_owned
  withdraw_report_lem id caller db row other n h =
      elim (Bool-cases (owns (device_of db row) caller)) [
        | inl o ↦ inl (
          o,
          rw (h, o) (rows-IsGone id db.reports),
          rw (h, o) (audits-gone id db.audits),
          rw (h, o) refl,
          rw (h, o) (others-kept id other db.reports n),
        )
        | inr o ↦ inr (o, rw (h, o) refl)
      ]
