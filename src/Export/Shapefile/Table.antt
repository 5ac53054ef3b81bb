-- ===== src/Export/Shapefile/Table.antt =====
-- The table of the shapefile, read back.
use mathlib.Core.List.{append_assoc}
use beacon_backend.Prelude.{
  ℕ, zero, suc, ◌^◌, ◌≤◌, ◌<◌, List, [], ◌∷◌, ◌++◌, ◌≡◌, refl, sym, ap, ◌∙◌, arith, length,
  length-append, take, drop, map, All, take-append_exact, drop-append_exact,
}
use beacon_backend.Model.Report.{Report}
use beacon_backend.Store.Db.{Postgis}
use beacon_backend.Export.Text.{Text, Formats}
use beacon_backend.Export.Bytes.{little, of_little, of_little-little}
use beacon_backend.Export.Shapefile.{
  Bits, Day, ShpField, printable, ascii_fixed, shapefile_fields, cells_of, widths, table_record,
  dbf_header, add_reports, empty_layer, stream_shapefile,
}
use beacon_backend.Export.Shapefile.Reader.{read_widths, split_cells, read_rows, read_table}
use beacon_backend.Export.Shapefile.Points.{resolved, table_body, add_reports-IsWritten}

-- A byte of printable ASCII.
abbrev pub IsPrintable : ℕ → Type 0
IsPrintable b = (32 ≤ b) × (b ≤ 126)

printable-IsPrintable : (c : ℕ) → IsPrintable (printable c)
printable-IsPrintable c = ground arith

ascii_fixed-IsPrintable : (s : Text) (width : ℕ) → All IsPrintable (ascii_fixed s width)
unfolding ascii_fixed
ascii_fixed-IsPrintable s zero = tt
ascii_fixed-IsPrintable [] (suc n) = ((omega arith, omega arith), ascii_fixed-IsPrintable [] n)
ascii_fixed-IsPrintable (c ∷ s) (suc n) = (printable-IsPrintable c, ascii_fixed-IsPrintable s n)

length-ascii_fixed : (s : Text) (width : ℕ) → length (ascii_fixed s width) ≡ width
unfolding ascii_fixed
length-ascii_fixed s zero = refl
length-ascii_fixed [] (suc n) = ap suc (length-ascii_fixed [] n)
length-ascii_fixed (c ∷ s) (suc n) = ap suc (length-ascii_fixed s n)

module _ {F : Type 0} (fmt : Formats F) where
  -- A field of a report as it stands in the table.
  abbrev pub cell : Report F → ShpField F → List ℕ
  cell r f = ascii_fixed (f.value r) f.width

  length-cells_of :
      (fields : List (ShpField F)) (r : Report F)
      → length (cells_of fmt fields r) ≡ widths fmt fields
  length-cells_of [] r = refl
  length-cells_of (f ∷ fields) r =
      let a = length-append (cell r f) (cells_of fmt fields r) in
      let b = length-ascii_fixed (f.value r) f.width in
      let c = length-cells_of fields r in omega (arith, a, b, c)

  split_cells-cells_of :
      (fields : List (ShpField F)) (r : Report F) (rest : List ℕ)
      → split_cells (map (λ f. f.width) fields) (cells_of fmt fields r ++ rest)
        ≡ map (cell r) fields
  unfolding split_cells
  split_cells-cells_of [] r rest = refl
  split_cells-cells_of (f ∷ fields) r rest =
      let here = cell r f in
      let more = cells_of fmt fields r ++ rest in
      let l = length-ascii_fixed (f.value r) f.width in
      let first : take f.width (here ++ more) ≡ here =
        ap (λ n. take n (here ++ more)) (sym l) ∙ take-append_exact here more in
      let then_on : drop f.width (here ++ more) ≡ more =
        ap (λ n. drop n (here ++ more)) (sym l) ∙ drop-append_exact here more in
      rw
        (
          append_assoc here (cells_of fmt fields r) rest,
          first,
          then_on,
          split_cells-cells_of fields r rest,
        )
        refl

  -- The rows of the table.
  abbrev pub rows_of : List (Report F) → List (List (List ℕ))
  rows_of reports = map (λ r. map (cell r) (shapefile_fields fmt)) reports

  drop-table_record : (r : Report F) (more : List ℕ) → drop 203 (table_record fmt r ++ more) ≡ more
  unfolding table_record shapefile_fields
  drop-table_record r more =
      let l : length (table_record fmt r) ≡ 203 =
        ap suc (length-cells_of (shapefile_fields fmt) r) in
      ap (λ n. drop n (table_record fmt r ++ more)) (sym l)
      ∙ drop-append_exact (table_record fmt r) more

  split_cells-table_record :
      (r : Report F) (more : List ℕ)
      → split_cells
          (map (λ f. f.width) (shapefile_fields fmt))
          (drop 1 (table_record fmt r ++ more))
        ≡ map (cell r) (shapefile_fields fmt)
  unfolding table_record
  split_cells-table_record r more = split_cells-cells_of (shapefile_fields fmt) r more

  read_rows-table_body :
      (gis : Postgis F) (fl : Bits F) (reports : List (Report F)) (rest : List ℕ)
      → read_rows
          (length reports)
          203
          (map (λ f. f.width) (shapefile_fields fmt))
          (table_body fmt gis fl reports ++ rest)
        ≡ rows_of reports
  unfolding read_rows
  read_rows-table_body gis fl [] rest = refl
  read_rows-table_body gis fl (r ∷ reports) rest =
      let more = table_body fmt gis fl reports ++ rest in
      rw
        (
          append_assoc (table_record fmt r) (table_body fmt gis fl reports) rest,
          split_cells-table_record r more,
          drop-table_record r more,
        )
        (ap (λ rows. map (cell r) (shapefile_fields fmt) ∷ rows)
          (read_rows-table_body gis fl reports rest))

  read_table-dbf_header :
      (today : Day) (n : ℕ) (more : List ℕ)
      → n < 2 ^ 32
      → read_table (dbf_header fmt today n ++ more)
        ≡ read_rows n 203 (map (λ f. f.width) (shapefile_fields fmt)) more
  unfolding read_table read_widths dbf_header shapefile_fields little of_little
  read_table-dbf_header today n more h =
      ap (λ k. read_rows k 203 (map (λ f. f.width) (shapefile_fields fmt)) more)
        (of_little-little 4 n h)

  row_lengths :
      (fields : List (ShpField F)) (r : Report F)
      → map length (map (cell r) fields) ≡ map (λ f. f.width) fields
  row_lengths [] r = refl
  row_lengths (f ∷ fields) r =
      rw (length-ascii_fixed (f.value r) f.width, row_lengths fields r) refl

  row_cells :
      (fields : List (ShpField F)) (r : Report F) → All (All IsPrintable) (map (cell r) fields)
  row_cells [] r = tt
  row_cells (f ∷ fields) r = (ascii_fixed-IsPrintable (f.value r) f.width, row_cells fields r)

  -- The table of the shapefile is read back, by what its header says, as one row for each report with a
  -- usable point, in their order, of its fields as `ascii_fixed` writes them; the fields of a report
  -- have the eight stated widths and hold printable ASCII, whatever texts the report holds.
  pub read_table-stream_shapefile :
      (gis : Postgis F) (fl : Bits F) (today : Day) (reports : List (Report F)) (r : Report F)
      → length (resolved fmt gis fl reports) < 2 ^ 32
      → (read_table (stream_shapefile fmt gis fl today reports).dbf
          ≡ map (λ q. map (cell q) (shapefile_fields fmt)) (resolved fmt gis fl reports))
        × (map length (map (cell r) (shapefile_fields fmt))
            ≡ 24 ∷ 12 ∷ 40 ∷ 40 ∷ 10 ∷ 16 ∷ 40 ∷ 20 ∷ [])
        × All (All IsPrintable) (map (cell r) (shapefile_fields fmt))
  unfolding stream_shapefile shapefile_fields
  read_table-stream_shapefile gis fl today reports r small =
      let l = add_reports fmt gis fl (empty_layer fmt gis fl) reports in
      let w = add_reports-IsWritten fmt gis fl (empty_layer fmt gis fl) reports in
      let there = resolved fmt gis fl reports in
      let n : l.count ≡ length there = let c = w.count in omega (arith, c, w.rows) in
      (
        rw (w.dbf, n)
            (read_table-dbf_header today (length there) (table_body fmt gis fl there ++ 0x1A ∷ [])
                small
              ∙ read_rows-table_body gis fl there (0x1A ∷ [])),
        row_lengths (shapefile_fields fmt) r,
        row_cells (shapefile_fields fmt) r,
      )
