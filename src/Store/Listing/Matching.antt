-- ===== src/Store/Listing/Matching.antt =====
-- What the report list returns satisfies its filter.
use beacon_backend.Prelude.{
  ℕ, zero, suc, ◌+◌, List, [], ◌∷◌, Bool, true, ◌≡◌, inl, inr, Option, none, some, All, select,
  take, drop, ltb, length, Bool-cases,
}
use beacon_backend.Store.Db.{Row, Db, Postgis}
use beacon_backend.Store.Listing.{
  Cursor, ListFilter, Search, matches, ordered, is_past, page_size, page_of, from_cursor,
  list_reports,
}
use beacon_backend.Store.Listing.Order.{All-ordered}

module _ {F : Type 0} (P : Row F → Type 0) where
  pub All-take : (n : ℕ) (rows : List (Row F)) → All P rows → All P (take n rows)
  All-take zero rows a = tt
  All-take (suc n) [] a = tt
  All-take (suc n) (r ∷ rows) (p, a) = (p, All-take n rows a)

  All-drop : (n : ℕ) (rows : List (Row F)) → All P rows → All P (drop n rows)
  All-drop zero rows a = a
  All-drop (suc n) [] a = tt
  All-drop (suc n) (r ∷ rows) (p, a) = All-drop n rows a

  pub All-select : (t : Row F → Bool) (rows : List (Row F)) → All P rows → All P (select t rows)
  All-select t [] a = tt
  All-select t (r ∷ rows) (p, a) = elim (Bool-cases (t r)) [
    | inl e ↦ rw e (p, All-select t rows a)
    | inr e ↦ rw e (All-select t rows a)
  ]

  All-page_of :
      (gis : Postgis F) (limit : ℕ) (rows : List (Row F))
      → All P rows
      → All P (page_of gis limit rows).rows
  unfolding page_of
  All-page_of gis limit rows a =
      let fetched = All-take (limit + 1) rows a in
      elim (Bool-cases (ltb limit (length (take (limit + 1) rows)))) [
        | inl e ↦ rw e (All-take limit (take (limit + 1) rows) fetched)
        | inr e ↦ rw e fetched
      ]

  All-from_cursor :
      (gis : Postgis F) (c : Option Cursor) (offset : ℕ) (rows : List (Row F))
      → All P rows
      → All P (from_cursor gis c offset rows)
  unfolding from_cursor
  All-from_cursor gis none offset rows a = All-drop offset rows a
  All-from_cursor gis (some c) offset rows a = All-select (is_past gis c) rows a

module _ {F : Type 0} where
  pub selected : (t : Row F → Bool) (rows : List (Row F)) → All (λ r. t r ≡ true) (select t rows)
  selected t [] = tt
  selected t (r ∷ rows) = elim (Bool-cases (t r)) [
    | inl e ↦ rw e (e, selected t rows)
    | inr e ↦ rw e (selected t rows)
  ]

  pub list_reports-matches :
      (gis : Postgis F) (s : Search F) (f : ListFilter F) (db : Db F)
      → All (λ r. matches s f r ≡ true) (list_reports gis s f db).page.rows
  unfolding list_reports
  list_reports-matches gis s f db =
      let P = λ (r : Row F). matches s f r ≡ true in
      let sorted = ordered gis (select (matches s f) db.reports) in
      All-page_of P gis (page_size gis f.limit) (from_cursor gis f.cursor f.offset sorted) (
        All-from_cursor P gis f.cursor f.offset sorted
          (All-ordered gis P (select (matches s f) db.reports) (selected (matches s f) db.reports)))
