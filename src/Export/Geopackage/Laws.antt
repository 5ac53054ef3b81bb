-- ===== src/Export/Geopackage/Laws.antt =====
-- The columns of the GeoPackage's table of reports.
use beacon_backend.Prelude.{
  List, [], ◌∷◌, ◌++◌, Bool, true, false, ◌||◌, ◌≡◌, refl, ◌∙◌, arith, any-append, All, length,
  length-map,
}
use beacon_backend.Std.Text.{codes}
use beacon_backend.Photo.Jpeg.{same_bytes}
use beacon_backend.Photo.Jpeg.Laws.{same_bytes_iff}
use beacon_backend.Model.Report.{Report}
use beacon_backend.Store.Db.{Postgis}
use beacon_backend.System.Rows.{All-imp}
use beacon_backend.Export.Text.{Text, Formats}
use beacon_backend.Export.Columns.{
  stable_modular_columns, is_safe_column, is_reserved, is_taken, has_text, extra_columns_from_keys,
}
use beacon_backend.Export.Columns.Order.{IsSorted, IsDistinct, are_distinct-IsDistinct}
use beacon_backend.Export.Columns.Laws.{extra_columns_from_keys_lem}
use beacon_backend.Export.Columns.Unique.{not-has_text}
use beacon_backend.Export.Shapefile.{Bits}
use beacon_backend.Export.Geopackage.{gpkg_attr_cols, attr_cols, marks, gpkg_row_args}

IsSorted-IsDistinct : (ts : List Text) → IsSorted ts → IsDistinct ts
IsSorted-IsDistinct [] s = tt
IsSorted-IsDistinct (t ∷ ts) (a, s) = (not-has_text t ts a, IsSorted-IsDistinct ts s)

All-has_text :
    (P : Text → Type 0) (ts : List Text) → ((u : Text) → has_text ts u ≡ true → P u) → All P ts
All-has_text P [] h = tt
All-has_text P (t ∷ ts) h =
    let e : same_bytes t t ≡ true = (same_bytes_iff t t).1 refl in
    (h t (ground (arith, e)), All-has_text P ts (λ u k. h u (ground (arith, k))))

same_bytes_comm : (s t : Text) → same_bytes s t ≡ same_bytes t s
same_bytes_comm s t = ground (arith, same_bytes_iff s t, same_bytes_iff t s)

-- A text that none of the others is.
absent : (x : Text) (ys : List Text) → All (λ y. same_bytes x y ≡ false) ys → has_text ys x ≡ false
absent x [] a = refl
absent x (y ∷ ys) (n, a) = ground (arith, n, same_bytes_comm y x, absent x ys a)

IsDistinct-concat :
    (xs ys : List Text)
    → IsDistinct xs
    → IsDistinct ys
    → All (λ y. has_text xs y ≡ false) ys
    → IsDistinct (xs ++ ys)
IsDistinct-concat [] ys d e a = e
IsDistinct-concat (x ∷ xs) ys (n, d) e a =
    let here = absent x ys (
      All-imp (λ y. has_text (x ∷ xs) y ≡ false) (λ y. same_bytes x y ≡ false) ys
        (λ y h. ground (arith, h)) a) in
    (
      any-append (λ u. same_bytes u x) xs ys ∙ ground (arith, n, here),
      IsDistinct-concat xs ys d e (
          All-imp (λ y. has_text (x ∷ xs) y ≡ false) (λ y. has_text xs y ≡ false) ys
            (λ y h. ground (arith, h)) a),
    )

neither :
    (xs ys : List Text) (u : Text)
    → has_text xs u ≡ false
    → has_text ys u ≡ false
    → has_text (xs ++ ys) u ≡ false
neither xs ys u h k = any-append (λ v. same_bytes v u) xs ys ∙ ground (arith, h, k)

both_false : (a b : Bool) → (a || b) ≡ false → (a ≡ false) × (b ≡ false)
both_false a b h = (ground (arith, h), ground (arith, h))

abbrev reserved : List Text
reserved = codes "fid" ∷ codes "geom" ∷ []

-- The columns that every table has.
abbrev fixed_columns : List Text
fixed_columns = reserved ++ (gpkg_attr_cols ++ stable_modular_columns)

not_reserved : (u : Text) → is_reserved u ≡ false → has_text reserved u ≡ false
unfolding is_reserved
not_reserved u r =
    let (f, g) = both_false (same_bytes u (codes "fid")) (same_bytes u (codes "geom")) r in
    rw (same_bytes_comm (codes "fid") u, same_bytes_comm (codes "geom") u, f, g) refl

not_fixed :
    (u : Text)
    → is_reserved u ≡ false
    → is_taken gpkg_attr_cols u ≡ false
    → has_text fixed_columns u ≡ false
unfolding is_taken
not_fixed u r t =
    let (a, b) = both_false (has_text gpkg_attr_cols u) (has_text stable_modular_columns u) t in
    neither reserved (gpkg_attr_cols ++ stable_modular_columns) u (not_reserved u r)
      (neither gpkg_attr_cols stable_modular_columns u a b)

module _ {F : Type 0} (fmt : Formats F) (keys : List Text) where
  abbrev extras : List Text
  extras = extra_columns_from_keys fmt keys gpkg_attr_cols

  abbrev IsSafe : Text → Type 0
  IsSafe col = (is_safe_column col ≡ true) × (is_reserved col ≡ false)

  All-both : (P Q : Text → Type 0) (ts : List Text) → All P ts → All Q ts → All (λ t. P t × Q t) ts
  All-both P Q [] a b = tt
  All-both P Q (t ∷ ts) (p, a) (q, b) = ((p, q), All-both P Q ts a b)

  extras-not_fixed : All (λ u. has_text fixed_columns u ≡ false) extras
  extras-not_fixed =
      let (s, a, w) = extra_columns_from_keys_lem fmt keys gpkg_attr_cols [] in
      let new =
        All-has_text (λ u. is_taken gpkg_attr_cols u ≡ false) extras
          (λ u h.
            let (s2, a2, there) = extra_columns_from_keys_lem fmt keys gpkg_attr_cols u in
            (there.0 h).1) in
      All-imp (λ u. IsSafe u × (is_taken gpkg_attr_cols u ≡ false))
        (λ u. has_text fixed_columns u ≡ false) extras (λ u ((safe, free), t). not_fixed u free t)
        (All-both IsSafe (λ u. is_taken gpkg_attr_cols u ≡ false) extras a new)

  -- Whatever keys the clients have sent, the statement that makes the table of reports names every
  -- column once, "fid" and "geom" among them; the names that come from clients match
  -- [a-z][a-z0-9_]*; and a row binds a value for each mark of the INSERT.
  pub attr_cols-IsDistinct :
      (gis : Postgis F) (fl : Bits F) (r : Report F)
      → IsDistinct
          (codes "fid" ∷ codes "geom" ∷ attr_cols (extra_columns_from_keys fmt keys gpkg_attr_cols))
        × All (λ col. is_safe_column col ≡ true) (extra_columns_from_keys fmt keys gpkg_attr_cols)
        × (length (gpkg_row_args fmt gis fl (extra_columns_from_keys fmt keys gpkg_attr_cols) r)
            ≡ length (marks (extra_columns_from_keys fmt keys gpkg_attr_cols)))
  unfolding gpkg_row_args
  attr_cols-IsDistinct gis fl r =
      let (s, a, w) = extra_columns_from_keys_lem fmt keys gpkg_attr_cols [] in
      (
        IsDistinct-concat fixed_columns extras (are_distinct-IsDistinct fixed_columns refl)
            (IsSorted-IsDistinct extras s) extras-not_fixed,
        All-imp IsSafe (λ col. is_safe_column col ≡ true) extras (λ col p. p.0) a,
        rw (length-map, length-map) refl,
      )
