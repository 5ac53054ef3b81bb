-- ===== src/Export/Shapefile/Reader.antt =====
-- A reader of shapefiles, as their specification tells it: the .shx gives the offsets at which the
-- records of the .shp stand; the header of the .dbf gives the number of its rows, their size and
-- the widths of their fields.
use beacon_backend.Prelude.{ℕ, zero, suc, ◌-◌, ◌*◌, ◌/◌, List, [], ◌∷◌, take, drop}
use beacon_backend.Export.Bytes.{of_little, of_big}

-- A record: its number, the length of its content in words, its kind, and the bits of its point.
pub record Shape : Type 0 where
  pub number : ℕ
  pub words : ℕ
  pub kind : ℕ
  pub x : ℕ
  pub y : ℕ

unfoldable pub shape_in : List ℕ → Shape
shape_in bytes = record {
  number = of_big (take 4 bytes);
  words = of_big (take 4 (drop 4 bytes));
  kind = of_little (take 4 (drop 8 bytes));
  x = of_little (take 8 (drop 12 bytes));
  y = of_little (take 8 (drop 20 bytes));
}

-- The bytes 24 to 27 of the .shp and the .shx are the length of the file in words.
unfoldable pub words_of : List ℕ → ℕ
words_of file = of_big (take 4 (drop 24 file))

unfoldable pub read_entries : ℕ → List ℕ → List ℕ → List Shape
unfolding shape_in
read_entries zero shp index = []
read_entries (suc n) shp index =
    shape_in (drop (2 * of_big (take 4 index)) shp) ∷ read_entries n shp (drop 8 index)

unfoldable pub read_shapes : List ℕ → List ℕ → List Shape
unfolding words_of read_entries
read_shapes shp shx = read_entries ((2 * words_of shx - 100) / 8) shp (drop 100 shx)

unfoldable pub read_widths : ℕ → List ℕ → List ℕ
read_widths zero d = []
read_widths (suc n) d = of_little (take 1 (drop 16 d)) ∷ read_widths n (drop 32 d)

unfoldable pub split_cells : List ℕ → List ℕ → List (List ℕ)
split_cells [] d = []
split_cells (w ∷ ws) d = take w d ∷ split_cells ws (drop w d)

unfoldable pub read_rows : ℕ → ℕ → List ℕ → List ℕ → List (List (List ℕ))
unfolding split_cells
read_rows zero size ws d = []
read_rows (suc n) size ws d = split_cells ws (drop 1 d) ∷ read_rows n size ws (drop size d)

unfoldable pub read_table : List ℕ → List (List (List ℕ))
unfolding read_widths read_rows
read_table dbf =
    let header_size = of_little (take 2 (drop 8 dbf)) in
    read_rows (of_little (take 4 (drop 4 dbf))) (of_little (take 2 (drop 10 dbf)))
      (read_widths ((header_size - 33) / 32) (drop 32 dbf)) (drop header_size dbf)
