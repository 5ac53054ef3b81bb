-- ===== src/Export/Csv/Laws.antt =====
-- What is read back from the CSV export.
use mathlib.Core.List.{append_assoc, append-nil}
use mathlib.Core.Bool.{false≢true}
use beacon_backend.Prelude.{
  List, [], ◌∷◌, ◌++◌, true, false, ◌||◌, ◌≡◌, inl, inr, refl, ap, ◌∙◌, arith, eqb, all, any, map,
  Bool-cases,
}
use beacon_backend.Model.Report.{Report}
use beacon_backend.Store.Db.{Postgis}
use beacon_backend.Export.Text.{Text, Formats}
use beacon_backend.Export.Columns.{is_safe_column, is_column_code}
use beacon_backend.Export.Cells.{csv_row_cells}
use beacon_backend.Export.Csv.{needs_quote, doubled, csv_cell, csv_line, rows_after}
use beacon_backend.Export.Csv.Reader.{start, plain, quoted, closing, read}

-- What may follow a cell.
abbrev Ends : Text → Type 0
Ends [] = Unit
Ends (c ∷ s) = (eqb c b',' || eqb c 10) ≡ true

-- What may follow a row.
abbrev pub EndsRow : Text → Type 0
EndsRow [] = Unit
EndsRow (c ∷ s) = eqb c 10 ≡ true

EndsRow-Ends : (s : Text) → EndsRow s → Ends s
EndsRow-Ends [] h = tt
EndsRow-Ends (c ∷ s) h = ground (arith, h)

module _ (row : List Text) where
  start-plain : (rest : Text) → Ends rest → read start [] row rest ≡ read plain [] row rest
  unfolding read
  start-plain [] h = refl
  start-plain (c ∷ s) h = ground (arith, h)

  closing-plain :
      (cell rest : Text) → Ends rest → read closing cell row rest ≡ read plain cell row rest
  unfolding read
  closing-plain cell [] h = refl
  closing-plain cell (c ∷ s) h = ground (arith, h)

  read-plain :
      (s cell rest : Text)
      → needs_quote s ≡ false
      → read plain cell row (s ++ rest) ≡ read plain (cell ++ s) row rest
  unfolding read
  read-plain [] cell rest h = rw append-nil
  read-plain (c ∷ s) cell rest h =
      let next = read-plain s (cell ++ c ∷ []) rest (ground (arith, h)) in
      ground (arith, h, next, append_assoc cell (c ∷ []) s)

  read-quoted :
      (s cell rest : Text)
      → read quoted cell row (doubled s ++ (b'"' ∷ rest)) ≡ read closing (cell ++ s) row rest
  unfolding read doubled
  read-quoted [] cell rest = rw append-nil
  read-quoted (c ∷ s) cell rest = elim (Bool-cases (eqb c b'"')) [
    | inl e ↦
        let p : c ≡ b'"' = ground (arith, e) in
        rw p (read-quoted s (cell ++ b'"' ∷ []) rest ∙ rw (append_assoc cell (b'"' ∷ []) s) refl)
    | inr e ↦ ground (arith, e, read-quoted s (cell ++ c ∷ []) rest, append_assoc cell (c ∷ []) s)
  ]

  unquoted :
      (s rest : Text)
      → needs_quote s ≡ false
      → Ends rest
      → read start [] row (s ++ rest) ≡ read plain s row rest
  unfolding read
  unquoted [] rest e h = start-plain rest h
  unquoted (c ∷ s) rest e h = ground (arith, e, read-plain s (c ∷ []) rest (ground (arith, e)))

  -- A cell is read back as it was, whatever it holds.
  read-csv_cell :
      (s rest : Text) → Ends rest → read start [] row (csv_cell s ++ rest) ≡ read plain s row rest
  unfolding read csv_cell
  read-csv_cell s rest h = elim (Bool-cases (needs_quote s)) [
    | inl e ↦
        rw (e, append_assoc (doubled s) (b'"' ∷ []) rest)
          (read-quoted s [] rest ∙ closing-plain s rest h)
    | inr e ↦ rw e (unquoted s rest e h)
  ]

-- The rows from the end of one on.
abbrev pub finish : List Text → Text → List (List Text)
finish row [] = row ∷ []
finish row (c ∷ s) = row ∷ read start [] [] s

plain-finish :
    (cell : Text) (row : List Text) (rest : Text)
    → EndsRow rest
    → read plain cell row rest ≡ finish (row ++ cell ∷ []) rest
unfolding read
plain-finish cell row [] h = refl
plain-finish cell row (c ∷ s) h = ground (arith, h)

plain-comma :
    (cell : Text) (row : List Text) (rest : Text)
    → read plain cell row (b',' ∷ rest) ≡ read start [] (row ++ cell ∷ []) rest
unfolding read
plain-comma cell row rest = refl

pub read-csv_line :
    (cell : Text) (cells row : List Text) (rest : Text)
    → EndsRow rest
    → read start [] row (csv_line (cell ∷ cells) ++ rest) ≡ finish (row ++ (cell ∷ cells)) rest
read-csv_line cell [] row rest h =
    read-csv_cell row cell rest (EndsRow-Ends rest h) ∙ plain-finish cell row rest h
read-csv_line cell (next ∷ cells) row rest h =
    let more = csv_line (next ∷ cells) in
    ap (read start [] row) (append_assoc (csv_cell cell) (b',' ∷ more) rest)
    ∙ read-csv_cell row cell (b',' ∷ (more ++ rest)) refl
    ∙ plain-comma cell row (more ++ rest)
    ∙ read-csv_line next cells (row ++ cell ∷ []) rest h
    ∙ ap (λ r. finish r rest) (append_assoc row (cell ∷ []) (next ∷ cells))

-- Cells that need no quotes are written as they are.
pub map-csv_cell : (cells : List Text) → any needs_quote cells ≡ false → map csv_cell cells ≡ cells
unfolding csv_cell
map-csv_cell [] h = refl
map-csv_cell (c ∷ cells) h =
    let n : needs_quote c ≡ false = ground (arith, h) in
    rw (n, map-csv_cell cells (ground (arith, h))) refl

codes-needs_quote : (s : Text) → all is_column_code s ≡ true → needs_quote s ≡ false
codes-needs_quote [] h = refl
codes-needs_quote (c ∷ s) h = ground (arith, h, codes-needs_quote s)

pub safe-needs_quote : (col : Text) → is_safe_column col ≡ true → needs_quote col ≡ false
unfolding is_safe_column
safe-needs_quote [] h = absurd (false≢true h)
safe-needs_quote (c ∷ s) h = ground (arith, h, codes-needs_quote s)

module _ {F : Type 0} (fmt : Formats F) (gis : Postgis F) (extras : List Text) where
  pub rows_after-EndsRow : (reports : List (Report F)) → EndsRow (rows_after fmt gis extras reports)
  unfolding rows_after
  rows_after-EndsRow [] = tt
  rows_after-EndsRow (r ∷ reports) = refl

  pub finish-rows_after :
      (row : List Text) (reports : List (Report F))
      → finish row (rows_after fmt gis extras reports)
        ≡ row ∷ map (csv_row_cells fmt gis extras) reports
  unfolding rows_after csv_row_cells
  finish-rows_after row [] = refl
  finish-rows_after row (r ∷ reports) =
      ap (λ rs. row ∷ rs)
        (read-csv_line _ _ [] (rows_after fmt gis extras reports) (rows_after-EndsRow reports)
          ∙ finish-rows_after (csv_row_cells fmt gis extras r) reports)
