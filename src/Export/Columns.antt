-- ===== src/Export/Columns.antt =====
-- The modular answers as columns: camelToSnake, flatValue, flattenModular and the dynamic columns.
pub mod Order
pub mod Laws
pub mod Unique
pub mod Agree
use beacon_backend.Prelude.{
  ℕ, String, Option, none, some, List, [], ◌∷◌, ◌++◌, Bool, true, false, not, ◌&&◌, ◌||◌, ◌==◌, eqb,
  leb, if◌then◌else◌, all, any, map,
}
use beacon_backend.Std.Text.{codes}
use beacon_backend.Photo.Jpeg.{same_bytes}
use beacon_backend.Model.Report.{Report}
use beacon_backend.Export.Text.{
  Text, Json, null, text, num, bool, arr, obj, Items, nil, cons, Formats, join_with, text_before,
  show_bool,
}

abbrev pub stable_modular_columns : List Text
stable_modular_columns = codes "electricity" ∷ codes "health_services" ∷ codes "pressing_needs" ∷ []

abbrev pub is_letter : ℕ → Bool
is_letter c = leb b'a' c && leb c b'z'

abbrev pub is_column_code : ℕ → Bool
is_column_code c = is_letter c || (leb b'0' c && leb c b'9') || eqb c b'_'

-- safeColumnRe
unfoldable pub is_safe_column : Text → Bool
is_safe_column [] = false
is_safe_column (c ∷ s) = is_letter c && all is_column_code s

-- reservedExportColumns
unfoldable pub is_reserved : Text → Bool
is_reserved col = same_bytes col (codes "fid") || same_bytes col (codes "geom")

module _ {F : Type 0} (fmt : Formats F) where
  unfoldable pub snake_from : Bool → Text → Text
  snake_from first [] = []
  snake_from first (c ∷ s) =
      let rest = snake_from false s in
      if fmt.is_upper c
      then (if first then fmt.to_lower c ∷ rest else b'_' ∷ fmt.to_lower c ∷ rest)
      else c ∷ rest

  unfoldable pub camel_to_snake : Text → Text
  unfolding snake_from
  camel_to_snake s = snake_from true s

  -- The column of a modular key, none for a key that is dropped.
  unfoldable pub column_of : Text → Option Text
  column_of key =
      let col = camel_to_snake key in
      if not (is_safe_column col)
      then none
      else if is_reserved col
      then some (codes "x_" ++ col)
      else some col

  unfoldable mutual
    pub flat_value : Json F → Text
    flat_value null = []
    flat_value (text t) = t
    flat_value (num f) = fmt.show_float f
    flat_value (bool b) = show_bool b
    flat_value (arr items) = join_with (codes ";") (flat_values items)
    flat_value (obj t) = t

    pub flat_values : Items F → List Text
    flat_values nil = []
    flat_values (cons v vs) = flat_value v ∷ flat_values vs

  -- A map from columns to cells; `assign` is `out[col] = v`.
  abbrev pub Cells : Type 0
  Cells = List (Text × Text)

  unfoldable pub assign : Text → Text → Cells → Cells
  assign col v [] = (col, v) ∷ []
  assign col v ((c, w) ∷ cells) =
      let rest = assign col v cells in if same_bytes c col then (c, v) ∷ cells else (c, w) ∷ rest

  -- `flat[col]`, "" for a missing column.
  unfoldable pub cell_at : Cells → Text → Text
  cell_at [] col = []
  cell_at ((c, v) ∷ cells) col =
      let rest = cell_at cells col in if same_bytes c col then v else rest

  abbrev pub unanswered : Cells
  unanswered = map (λ c. (c, [])) stable_modular_columns

  unfoldable pub assign_answers : List (Text × Json F) → Cells → Cells
  assign_answers [] cells = cells
  assign_answers ((key, v) ∷ answers) cells = elim (column_of key) [
    | none ↦ assign_answers answers cells
    | some col ↦ assign_answers answers (assign col (flat_value v) cells)
  ]

  unfoldable pub flatten_modular : String → Cells
  unfolding assign_answers
  flatten_modular raw =
      if raw == "" || raw == "null" then unanswered else elim (fmt.parse_object raw) [
        | none ↦ unanswered
        | some answers ↦ assign_answers answers unanswered
      ]

  abbrev pub keys_of : Cells → List Text
  keys_of cells = map (λ c. c.0) cells

abbrev pub has_text : List Text → Text → Bool
has_text texts t = any (λ u. same_bytes u t) texts

unfoldable pub is_taken : List Text → Text → Bool
is_taken fixed col = has_text fixed col || has_text stable_modular_columns col

-- The loops that collect new columns into `seen`.
unfoldable pub gather : List Text → List Text → List Text → List Text
gather fixed seen [] = seen
gather fixed seen (col ∷ cols) =
    gather fixed (if is_taken fixed col || has_text seen col then seen else seen ++ col ∷ []) cols

-- sort.Strings
unfoldable pub insert_text : Text → List Text → List Text
insert_text t [] = t ∷ []
insert_text t (u ∷ us) =
    let rest = insert_text t us in if text_before u t then u ∷ rest else t ∷ u ∷ us

unfoldable pub sort_texts : List Text → List Text
unfolding insert_text
sort_texts [] = []
sort_texts (t ∷ ts) = insert_text t (sort_texts ts)

module _ {F : Type 0} (fmt : Formats F) where
  unfoldable pub columns_of : List Text → List Text
  columns_of [] = []
  columns_of (key ∷ keys) =
      let rest = columns_of keys in elim (column_of fmt key) [ none ↦ rest | some col ↦ col ∷ rest ]

  -- extraModularColumnsFromKeys
  unfoldable pub extra_columns_from_keys : List Text → List Text → List Text
  unfolding columns_of gather sort_texts
  extra_columns_from_keys keys fixed = sort_texts (gather fixed [] (columns_of keys))

  unfoldable pub row_columns : List (Report F) → List Text
  unfolding flatten_modular
  row_columns [] = []
  row_columns (r ∷ reports) = keys_of fmt (flatten_modular fmt r.modular) ++ row_columns reports

  -- extraModularColumns
  unfoldable pub extra_modular_columns : List (Report F) → List Text → List Text
  unfolding row_columns gather sort_texts
  extra_modular_columns reports fixed = sort_texts (gather fixed [] (row_columns reports))

  -- The keys of the reports' modular objects.
  abbrev pub answers_of : String → List (Text × Json F)
  answers_of raw =
      if raw == "" || raw == "null"
      then []
      else elim (fmt.parse_object raw) [ none ↦ [] | some answers ↦ answers ]

  abbrev pub modular_keys : List (Report F) → List Text
  modular_keys [] = []
  modular_keys (r ∷ reports) = map (λ a. a.0) (answers_of r.modular) ++ modular_keys reports
