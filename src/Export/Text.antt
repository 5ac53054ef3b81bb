-- ===== src/Export/Text.antt =====
-- Texts as lists of code points, and what the exports use of Go's formatting: `show_float` is
-- strconv.FormatFloat(f, 'g', -1, 64), `show_time` time.RFC3339 in UTC, `is_upper` and `to_lower`
-- those of package unicode, and `parse_object` json.Unmarshal into a map, in the order in which the
-- program ranges over it; none for what is no object.
use beacon_backend.Prelude.{
  ℕ, String, Option, List, [], ◌∷◌, ◌++◌, Bool, true, false, ◌&&◌, ◌||◌, eqb, ltb,
}
use beacon_backend.Std.Text.{codes}

abbrev pub Text : Type 0
Text = List ℕ

-- A JSON value; an object inside one is its compact text, as json.Marshal writes it.
mutual
  pub data Json (F : Type 0) : Type 0 where
    null : Json F
    text : Text → Json F
    num : F → Json F
    bool : Bool → Json F
    arr : Items F → Json F
    obj : Text → Json F

  pub data Items (F : Type 0) : Type 0 where
    nil : Items F
    cons : Json F → Items F → Items F

pub record Formats (F : Type 0) : Type 0 where
  pub show_float : F → Text
  pub show_time : ℕ → Text
  pub is_upper : ℕ → Bool
  pub to_lower : ℕ → ℕ
  pub parse_object : String → Option (List (Text × Json F))

-- strings.Join
abbrev pub join_with : Text → List Text → Text
join_with sep [] = []
join_with sep (t ∷ []) = t
join_with sep (t ∷ u ∷ ts) = t ++ (sep ++ join_with sep (u ∷ ts))

-- Go's order of strings.
abbrev pub text_before : Text → Text → Bool
text_before [] [] = false
text_before [] (d ∷ t) = true
text_before (c ∷ s) [] = false
text_before (c ∷ s) (d ∷ t) = let rest = text_before s t in ltb c d || (eqb c d && rest)

-- strconv.FormatBool
abbrev pub show_bool : Bool → Text
show_bool true = codes "true"
show_bool false = codes "false"
