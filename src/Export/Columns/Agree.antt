-- ===== src/Export/Columns/Agree.antt =====
-- The columns found from the stored keys are those found from the rows.
use beacon_backend.Prelude.{
  String, none, some, List, [], ◌∷◌, ◌++◌, Bool, true, false, not, ◌&&◌, ◌||◌, ◌==◌, ◌≡◌, inl, inr,
  refl, sym, ap, ◌∙◌, arith, any, map, Bool-cases, Option-cases, any-append,
}
use beacon_backend.Photo.Jpeg.{same_bytes}
use beacon_backend.Photo.Jpeg.Laws.{same_bytes_iff}
use beacon_backend.Model.Report.{Report}
use beacon_backend.Export.Text.{Text, Json, Formats}
use beacon_backend.Export.Columns.{
  stable_modular_columns, column_of, flat_value, assign, assign_answers, flatten_modular,
  unanswered, Cells, keys_of, has_text, is_taken, gather, sort_texts, columns_of, row_columns,
  answers_of, modular_keys, extra_columns_from_keys, extra_modular_columns,
}
use beacon_backend.Export.Columns.Laws.{extras-IsSorted, has_text-extras}
use beacon_backend.Export.Columns.Unique.{
  or_assoc, or_false, or_again, SameTexts, sorted_unique, any-SameTexts,
}

-- Stable columns are taken anyway.
mixed :
    (stable mine rows keys fixed : Bool)
    → (rows && not (fixed || stable)) ≡ (keys && not (fixed || stable))
    → (((stable || mine) || rows) && not (fixed || stable))
      ≡ ((mine || keys) && not (fixed || stable))
mixed true mine rows keys true h = ground arith
mixed true mine rows keys false h = ground arith
mixed false mine rows keys true h = ground arith
mixed false true rows keys false h = refl
mixed false false rows keys false h = h

module _ {F : Type 0} (fmt : Formats F) where
  has_text-assign :
      (col v u : Text) (cells : Cells fmt)
      → has_text (keys_of fmt (assign fmt col v cells)) u
        ≡ (has_text (keys_of fmt cells) u || same_bytes col u)
  unfolding assign
  has_text-assign col v u [] = ground arith
  has_text-assign col v u ((c, w) ∷ cells) = elim (Bool-cases (same_bytes c col)) [
    | inl q ↦
        let e : same_bytes c u ≡ same_bytes col u =
          ap (λ t. same_bytes t u) ((same_bytes_iff c col).0 q) in
        rw (q, e) (or_again (same_bytes col u) (has_text (keys_of fmt cells) u))
    | inr q ↦
        rw (q, has_text-assign col v u cells)
          (sym (or_assoc (same_bytes c u) (has_text (keys_of fmt cells) u) (same_bytes col u)))
  ]

  has_text-assign_answers :
      (answers : List (Text × Json F)) (cells : Cells fmt) (u : Text)
      → has_text (keys_of fmt (assign_answers fmt answers cells)) u
        ≡ (has_text (keys_of fmt cells) u || has_text (columns_of fmt (map (λ a. a.0) answers)) u)
  unfolding assign_answers columns_of
  has_text-assign_answers [] cells u = ground arith
  has_text-assign_answers ((key, v) ∷ answers) cells u = elim (Option-cases (column_of fmt key)) [
    | inl e ↦ rw (e, assign_answers, columns_of) (has_text-assign_answers answers cells u)
    | inr (col, e) ↦
        rw (e, assign_answers, columns_of)
          (has_text-assign_answers answers (assign fmt col (flat_value fmt v) cells) u
            ∙ rw (has_text-assign col (flat_value fmt v) u cells) (
                or_assoc (has_text (keys_of fmt cells) u) (same_bytes col u)
                  (has_text (columns_of fmt (map (λ a. a.0) answers)) u)))
  ]

  has_text-flatten_modular :
      (raw : String) (u : Text)
      → has_text (keys_of fmt (flatten_modular fmt raw)) u ≡ (
          has_text stable_modular_columns u
          || has_text (columns_of fmt (map (λ a. a.0) (answers_of fmt raw))) u)
  unfolding flatten_modular columns_of
  has_text-flatten_modular raw u = elim (Bool-cases (raw == "" || raw == "null")) [
    | inl e ↦ rw e (or_false (has_text stable_modular_columns u))
    | inr e ↦ elim (Option-cases (fmt.parse_object raw)) [
      | inl n ↦ rw (e, n) (or_false (has_text stable_modular_columns u))
      | inr (answers, p) ↦ rw (e, p) (has_text-assign_answers answers (unanswered fmt) u)
    ]
  ]

  columns_of-append :
      (xs ys : List Text) → columns_of fmt (xs ++ ys) ≡ columns_of fmt xs ++ columns_of fmt ys
  unfolding columns_of
  columns_of-append [] ys = refl
  columns_of-append (x ∷ xs) ys = elim (Option-cases (column_of fmt x)) [
    | inl e ↦ rw (e, columns_of) (columns_of-append xs ys)
    | inr (col, e) ↦ rw (e, columns_of) (ap (λ l. col ∷ l) (columns_of-append xs ys))
  ]

  -- Among the columns that are not taken, the rows have those of their keys.
  row_columns-keys :
      (reports : List (Report F)) (fixed : List Text) (u : Text)
      → (has_text (row_columns fmt reports) u && not (is_taken fixed u))
        ≡ (has_text (columns_of fmt (modular_keys fmt reports)) u && not (is_taken fixed u))
  unfolding row_columns columns_of is_taken
  row_columns-keys [] fixed u = refl
  row_columns-keys (r ∷ reports) fixed u =
      let p = λ (t : Text). same_bytes t u in
      let cells = keys_of fmt (flatten_modular fmt r.modular) in
      let mine = columns_of fmt (map (λ a. a.0) (answers_of fmt r.modular)) in
      rw
        (
          any-append p cells (row_columns fmt reports),
          has_text-flatten_modular r.modular u,
          columns_of-append (map (λ a. a.0) (answers_of fmt r.modular)) (modular_keys fmt reports),
          any-append p mine (columns_of fmt (modular_keys fmt reports)),
        )
        (mixed (has_text stable_modular_columns u) (has_text mine u)
          (has_text (row_columns fmt reports) u)
          (has_text (columns_of fmt (modular_keys fmt reports)) u) (has_text fixed u)
          (row_columns-keys reports fixed u))

  hits : Text → Text → Bool
  hits u key = elim (column_of fmt key) [ none ↦ false | some col ↦ same_bytes col u ]

  has_text-columns_of :
      (keys : List Text) (u : Text) → has_text (columns_of fmt keys) u ≡ any (hits u) keys
  unfolding columns_of hits
  has_text-columns_of [] u = refl
  has_text-columns_of (key ∷ keys) u = elim (Option-cases (column_of fmt key)) [
    | inl e ↦ rw (e, columns_of, hits) (has_text-columns_of keys u)
    | inr (col, e) ↦
        rw (e, columns_of, hits) (ap (λ b. same_bytes col u || b) (has_text-columns_of keys u))
  ]

  -- The dynamic columns that the streaming export takes from the distinct keys of the stored objects
  -- are those that the export of the same reports finds in the rows, in the same order.
  pub extra_modular_columns-keys :
      (reports : List (Report F)) (keys fixed : List Text)
      → SameTexts keys (modular_keys fmt reports)
      → extra_columns_from_keys fmt keys fixed ≡ extra_modular_columns fmt reports fixed
  unfolding extra_columns_from_keys extra_modular_columns
  extra_modular_columns-keys reports keys fixed same =
      let rows = row_columns fmt reports in
      let cols = columns_of fmt keys in
      sorted_unique (sort_texts (gather fixed [] cols)) (sort_texts (gather fixed [] rows))
        (extras-IsSorted fixed cols) (extras-IsSorted fixed rows)
        (λ u.
          let k =
            has_text-columns_of keys u
            ∙ any-SameTexts (hits u) keys (modular_keys fmt reports) same
            ∙ sym (has_text-columns_of (modular_keys fmt reports) u) in
          has_text-extras fixed cols u
          ∙ ap (λ b. b && not (is_taken fixed u)) k
          ∙ sym (row_columns-keys reports fixed u)
          ∙ sym (has_text-extras fixed rows u))
