-- ===== src/Export/Csv/Reader.antt =====
-- A reader of CSV: commas part the cells, line feeds the rows; a cell that begins with a quote runs to
-- the next quote that is not doubled.
use beacon_backend.Prelude.{ℕ, List, [], ◌∷◌, ◌++◌, eqb, if◌then◌else◌}
use beacon_backend.Export.Text.{Text}

pub data Mode : Type 0 where
  start plain quoted closing : Mode

pub data Symbol : Type 0 where
  quote comma newline other : Symbol

abbrev pub symbol : ℕ → Symbol
symbol c =
    if eqb c b'"' then quote else if eqb c b',' then comma else if eqb c 10 then newline else other

unfoldable pub read : Mode → Text → List Text → Text → List (List Text)
read mode cell row [] = (row ++ cell ∷ []) ∷ []
read start cell row (c ∷ s) = elim (symbol c) [
  | quote ↦ read quoted [] row s
  | comma ↦ read start [] (row ++ [] ∷ []) s
  | newline ↦ (row ++ [] ∷ []) ∷ read start [] [] s
  | other ↦ read plain (c ∷ []) row s
]
read plain cell row (c ∷ s) = elim (symbol c) [
  | comma ↦ read start [] (row ++ cell ∷ []) s
  | newline ↦ (row ++ cell ∷ []) ∷ read start [] [] s
  | _ ↦ read plain (cell ++ c ∷ []) row s
]
read quoted cell row (c ∷ s) = elim (symbol c) [
  | quote ↦ read closing cell row s
  | _ ↦ read quoted (cell ++ c ∷ []) row s
]
read closing cell row (c ∷ s) = elim (symbol c) [
  | quote ↦ read quoted (cell ++ c ∷ []) row s
  | comma ↦ read start [] (row ++ cell ∷ []) s
  | newline ↦ (row ++ cell ∷ []) ∷ read start [] [] s
  | other ↦ read plain (cell ++ c ∷ []) row s
]

unfoldable pub read_csv : Text → List (List Text)
unfolding read
read_csv s = read start [] [] s
