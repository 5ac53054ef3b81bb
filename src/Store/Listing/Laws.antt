-- ===== src/Store/Listing/Laws.antt =====
-- Paging through the report list by cursors.
use beacon_backend.Prelude.{
  ℕ, zero, suc, ◌+◌, ◌≤◌, ◌<◌, Option, none, some, List, [], ◌∷◌, ◌++◌, true, false, ◌≡◌, inl, inr,
  All, refl, sym, ap, ◌∙◌, arith, ltb, ltb→lt, map, select, length, length-select_le, take, drop,
  length-take, length-drop, take-drop, Bool-cases,
}
use mathlib.Core.List.{Perm, append_assoc, append-nil}
use beacon_backend.Store.Db.{Row, Db, Postgis}
use beacon_backend.Store.Cursors.{
  Cursor, InNanos, encode_cursor, decode_cursor, decode_cursor-encode_cursor,
}
use beacon_backend.Store.Listing.{
  ListFilter, Search, Page, matches, put, ordered, cursor_at, last_cursor, page_size, page_of,
  from_cursor, list_reports,
}
use beacon_backend.Store.Listing.Matching.{All-select}
use beacon_backend.System.Rows.{NoRepeat, NoRepeat-select}
use beacon_backend.Store.Listing.Order.{
  IsOrder, IsNewestFirst, ordered-Perm, ordered-IsNewestFirst, last_row, last_cursor-last_row,
  All-last_row, All-prefix, All-suffix, All-ordered, select-past_after,
}

module _ {F : Type 0} (gis : Postgis F) where
  page_size-suc : (k : ℕ) → (m : ℕ) × (page_size gis k ≡ suc m)
  page_size-suc zero = (49, refl)
  page_size-suc (suc k) = (k, refl)

  take-all : (n : ℕ) (rows : List (Row F)) → length rows ≤ n → take n rows ≡ rows
  take-all zero [] h = refl
  take-all zero (r ∷ rows) h = absurd (omega arith)
  take-all (suc n) [] h = refl
  take-all (suc n) (r ∷ rows) h = ap (λ t. r ∷ t) (take-all n rows (omega arith))

  take-take : (n : ℕ) (rows : List (Row F)) → take n (take (n + 1) rows) ≡ take n rows
  take-take zero rows = refl
  take-take (suc n) [] = ground arith
  take-take (suc n) (r ∷ rows) = ground (arith, take-take n rows)

  page_of-short :
      (limit : ℕ) (rows : List (Row F))
      → length rows ≤ limit
      → page_of gis limit rows ≡ record { rows = rows; next = none }
  unfolding page_of
  page_of-short limit rows h =
      let t = take-all (limit + 1) rows (omega arith) in
      let l : ltb limit (length rows) ≡ false = ground arith in rw (t, l) refl

  page_of-long :
      (limit : ℕ) (rows : List (Row F))
      → limit < length rows
      → page_of gis limit rows
        ≡ record { rows = take limit rows; next = last_cursor gis (take limit rows) }
  unfolding page_of
  page_of-long limit rows h =
      let n : ltb limit (length (take (limit + 1) rows)) ≡ true =
        ground (arith, length-take (limit + 1) rows) in
      rw (n, take-take limit rows) refl

  module _ (s : Search F) (f : ListFilter F) (db : Db F) where
    -- All reports that the filter matches, newest first.
    abbrev pub listing : List (Row F)
    listing = ordered gis (select (matches s f) db.reports)

    abbrev pub page_at : Option Cursor → Page F
    page_at c = (list_reports gis s (record f { offset = 0; cursor = c }) db).page

    -- A client that sends the cursor of each page back, through at most `n` pages.
    abbrev pub followed : ℕ → Option Cursor → List (Row F)
    followed zero c = []
    followed (suc n) c =
        (page_at c).rows
        ++ elim (page_at c).next [ none ↦ [] | some d ↦ followed n (some (decode_cursor d)) ]

    page_at-from :
        (c : Option Cursor)
        → page_at c ≡ page_of gis (page_size gis f.limit) (from_cursor gis c 0 listing)
    unfolding list_reports matches
    page_at-from c = refl

    short :
        (n m : ℕ) (c : Option Cursor) (seen rest : List (Row F))
        → page_size gis f.limit ≡ suc m
        → from_cursor gis c 0 listing ≡ rest
        → length rest ≤ suc m
        → followed (suc n) c ≡ rest
    short n m c seen rest e h b =
        let p : page_at c ≡ record { rows = rest; next = none } =
          page_at-from c ∙ rw (e, h) (page_of-short (suc m) rest b) in
        rw p (append-nil rest)

    long :
        (m : ℕ) (c : Option Cursor) (r : Row F) (rows : List (Row F))
        → page_size gis f.limit ≡ suc m
        → from_cursor gis c 0 listing ≡ r ∷ rows
        → suc m < length (r ∷ rows)
        → page_at c ≡ record {
          rows = r ∷ take m rows;
          next = some (encode_cursor (cursor_at gis (last_row gis r (take m rows))));
        }
    long m c r rows e h b =
        page_at-from c
        ∙ rw (e, h)
            (page_of-long (suc m) (r ∷ rows) b
              ∙ ap (λ o. record { rows = r ∷ take m rows; next = o })
                  (last_cursor-last_row gis r (take m rows)))

    past :
        IsOrder gis
        → IsNewestFirst gis listing
        → (seen : List (Row F)) (r : Row F) (rows rest : List (Row F))
        → listing ≡ seen ++ (r ∷ rows ++ rest)
        → from_cursor gis (some (cursor_at gis (last_row gis r rows))) 0 listing ≡ rest
    unfolding from_cursor
    past o nf seen r rows rest l = rw l (select-past_after gis o seen r rows rest (rw l at nf))

    in_nanos :
        (seen : List (Row F)) (r : Row F) (rows : List (Row F)) (m : ℕ)
        → All (λ s. InNanos s.captured_at) (seen ++ r ∷ rows)
        → InNanos (last_row gis r (take m rows)).captured_at
    in_nanos seen r rows m a =
        let P = λ (s : Row F). InNanos s.captured_at in
        let (p, q) = All-suffix gis P seen (r ∷ rows) a in
        let t = All-prefix gis P (take m rows) (drop m rows) (rw (take-drop m rows) q) in
        All-last_row gis P r (take m rows) p t

    followed-from :
        IsOrder gis
        → IsNewestFirst gis listing
        → All (λ r. InNanos r.captured_at) listing
        → (n m : ℕ) (c : Option Cursor) (seen rest : List (Row F)) → page_size gis f.limit ≡ suc m
        → listing ≡ seen ++ rest
        → from_cursor gis c 0 listing ≡ rest
        → length rest ≤ n
        → followed (suc n) c ≡ rest
    followed-from o nf ns n m c seen [] e l h b = short n m c seen [] e h (omega arith)
    followed-from o nf ns zero m c seen (r ∷ rows) e l h b = absurd (omega arith)
    followed-from o nf ns (suc n) m c seen (r ∷ rows) e l h b =
        elim (Bool-cases (ltb (suc m) (length (r ∷ rows)))) [
          | inr k ↦ short (suc n) m c seen (r ∷ rows) e h (ground (arith, k))
          | inl k ↦
              let w = last_row gis r (take m rows) in
              let d : Option Cursor = some (cursor_at gis w) in
              let text =
                decode_cursor-encode_cursor (cursor_at gis w)
                  (in_nanos seen r rows m (rw l at ns)) in
              let split = ap (λ t. r ∷ t) (take-drop m rows) in
              let whole : listing ≡ seen ++ (r ∷ take m rows ++ drop m rows) =
                l ∙ ap (λ t. seen ++ t) (sym split) in
              let ih =
                followed-from o nf ns n m d (seen ++ r ∷ take m rows) (drop m rows) e
                  (whole ∙ sym (append_assoc seen (r ∷ take m rows) (drop m rows)))
                  (past o nf seen r (take m rows) (drop m rows) whole)
                  (omega (arith, length-drop m rows)) in
              rw (long m c r rows e h (ltb→lt (suc m) (length (r ∷ rows)) k), text, ih) split
        ]

    length-put : (r : Row F) (rows : List (Row F)) → length (put gis r rows) ≡ suc (length rows)
    unfolding put
    length-put r [] = refl
    length-put r (t ∷ rows) = ground (arith, length-put r rows)

    length-ordered : (rows : List (Row F)) → length (ordered gis rows) ≡ length rows
    unfolding ordered
    length-ordered [] = refl
    length-ordered (r ∷ rows) = length-put r (ordered gis rows) ∙ ap suc (length-ordered rows)

    -- Under a strict linear order of texts, with ids that do not repeat and reports captured where
    -- the nanoseconds of a cursor fit an int64 (1678 to 2262): a client that sends the cursors back
    -- from the start gets the reports that the filter matches, each once and newest first, in at
    -- most as many pages as there are reports and one more.
    pub followed-listing :
        IsOrder gis
        → NoRepeat (map (λ r. r.id) db.reports)
        → All (λ r. InNanos r.captured_at) db.reports
        → (followed (suc (length db.reports)) none ≡ listing)
          × IsNewestFirst gis listing
          × Perm listing (select (matches s f) db.reports)
    unfolding from_cursor
    followed-listing o u ns =
        let chosen = select (matches s f) db.reports in
        let nf =
          ordered-IsNewestFirst gis o chosen
            (NoRepeat-select (λ r. r.id) (matches s f) db.reports u) in
        let (m, e) = page_size-suc f.limit in
        (
          followed-from o nf
              (All-ordered gis (λ r. InNanos r.captured_at) chosen
                (All-select (λ r. InNanos r.captured_at) (matches s f) db.reports ns))
              (length db.reports) m none [] listing e refl refl
              (omega (arith, length-ordered chosen, length-select_le (matches s f) db.reports)),
          nf,
          ordered-Perm gis chosen,
        )
