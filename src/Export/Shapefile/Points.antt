-- ===== src/Export/Shapefile/Points.antt =====
-- The points of the shapefile, read back through its index.
use mathlib.Core.List.{append_assoc, append-nil}
use beacon_backend.Prelude.{
  ℕ, suc, ◌+◌, ◌*◌, ◌^◌, ◌<◌, none, some, List, [], ◌∷◌, ◌++◌, ◌≡◌, inl, inr, refl, sym, ap, ◌∙◌,
  arith, length, Option-cases,
}
use beacon_backend.Model.Report.{Report}
use beacon_backend.Store.Db.{Postgis}
use beacon_backend.Export.Text.{Formats}
use beacon_backend.Export.Cells.{resolved_point}
use beacon_backend.Export.Shapefile.{
  Bits, Day, Layer, point_record, index_record, table_record, widen, add_report, add_reports,
  empty_layer, stream_shapefile,
}
use beacon_backend.Export.Shapefile.Reader.{words_of, read_shapes}
use beacon_backend.Export.Shapefile.Records.{
  shp_body, shx_body, numbered, read_shapes-members, stated_length,
}

module _ {F : Type 0} (fmt : Formats F) (gis : Postgis F) (fl : Bits F) where
  -- The reports with a usable point, and their points.
  unfoldable pub resolved : List (Report F) → List (Report F)
  resolved [] = []
  resolved (r ∷ reports) =
      let rest = resolved reports in
      elim (resolved_point fmt gis r) [ none ↦ rest | some p ↦ r ∷ rest ]

  unfoldable pub points_of : List (Report F) → List (F × F)
  points_of [] = []
  points_of (r ∷ reports) =
      let rest = points_of reports in
      elim (resolved_point fmt gis r) [ none ↦ rest | some p ↦ p ∷ rest ]

  abbrev pub table_body : List (Report F) → List ℕ
  table_body [] = []
  table_body (r ∷ reports) = table_record fmt r ++ table_body reports

  -- What a pass adds to a layer.
  pub record IsWritten (l : Layer F) (reports : List (Report F)) (m : Layer F) : Type 0 where
    pub shp : m.shp ≡ l.shp ++ shp_body fl (l.count + 1) (points_of reports)
    pub shx : m.shx ≡ l.shx ++ shx_body fl l.offset_words (points_of reports)
    pub dbf : m.dbf ≡ l.dbf ++ table_body (resolved reports)
    pub count : m.count ≡ l.count + length (points_of reports)
    pub rows : length (points_of reports) ≡ length (resolved reports)

  skipped :
      (l m : Layer F) (r : Report F) (reports : List (Report F))
      → resolved_point fmt gis r ≡ none
      → IsWritten l reports m
      → IsWritten l (r ∷ reports) m
  unfolding points_of resolved
  skipped l m r reports e w =
      let points : points_of reports ≡ points_of (r ∷ reports) = rw (e, points_of) refl in
      let rows : resolved reports ≡ resolved (r ∷ reports) = rw (e, resolved) refl in
      record {
        shp = w.shp ∙ ap (λ ps. l.shp ++ shp_body fl (l.count + 1) ps) points;
        shx = w.shx ∙ ap (λ ps. l.shx ++ shx_body fl l.offset_words ps) points;
        dbf = w.dbf ∙ ap (λ rs. l.dbf ++ table_body rs) rows;
        count = w.count ∙ ap (λ ps. l.count + length ps) points;
        rows = sym (ap length points) ∙ w.rows ∙ ap length rows;
      }

  -- A layer with one more point.
  abbrev more_by : Layer F → Report F → F → F → Layer F
  more_by l r x y = record {
    shp = l.shp ++ point_record fl (l.count + 1) x y;
    shx = l.shx ++ index_record fl l.offset_words;
    dbf = l.dbf ++ table_record fmt r;
    count = l.count + 1;
    offset_words = l.offset_words + 14;
    box = widen fl l.count l.box x y;
  }

  taken :
      (l m : Layer F) (r : Report F) (reports : List (Report F)) (x y : F)
      → resolved_point fmt gis r ≡ some (x, y)
      → IsWritten (more_by l r x y) reports m
      → IsWritten l (r ∷ reports) m
  unfolding points_of resolved
  taken l m r reports x y e w =
      let points : (x, y) ∷ points_of reports ≡ points_of (r ∷ reports) = rw (e, points_of) refl in
      let rows : r ∷ resolved reports ≡ resolved (r ∷ reports) = rw (e, resolved) refl in
      record {
        shp =
            w.shp
            ∙ append_assoc l.shp (point_record fl (l.count + 1) x y)
                (shp_body fl (l.count + 1 + 1) (points_of reports))
            ∙ ap (λ ps. l.shp ++ shp_body fl (l.count + 1) ps) points;
        shx =
            w.shx
            ∙ append_assoc l.shx (index_record fl l.offset_words)
                (shx_body fl (l.offset_words + 14) (points_of reports))
            ∙ ap (λ ps. l.shx ++ shx_body fl l.offset_words ps) points;
        dbf =
            w.dbf
            ∙ append_assoc l.dbf (table_record fmt r) (table_body (resolved reports))
            ∙ ap (λ rs. l.dbf ++ table_body rs) rows;
        count =
            let c = w.count in
            let step : m.count ≡ l.count + suc (length (points_of reports)) = omega (arith, c) in
            step ∙ ap (λ ps. l.count + length ps) points;
        rows = sym (ap length points) ∙ ap suc w.rows ∙ ap length rows;
      }

  pub add_reports-IsWritten :
      (l : Layer F) (reports : List (Report F))
      → IsWritten l reports (add_reports fmt gis fl l reports)
  unfolding add_reports add_report points_of resolved
  add_reports-IsWritten l [] = record {
    shp = sym (append-nil l.shp);
    shx = sym (append-nil l.shx);
    dbf = sym (append-nil l.dbf);
    count = omega arith;
    rows = refl;
  }
  add_reports-IsWritten l (r ∷ reports) = elim (Option-cases (resolved_point fmt gis r)) [
    | inl e ↦ skipped l _ r reports e (rw (e, add_report) (add_reports-IsWritten l reports))
    | inr ((x, y), e) ↦
        taken l _ r reports x y e
          (rw (e, add_report) (add_reports-IsWritten (more_by l r x y) reports))
  ]

  -- In range, the index of the shapefile leads to exactly the points of the reports that have a usable
  -- one, in their order and numbered from 1, with the coordinates bit for bit; and the length that the
  -- .shp states of itself is its length.
  pub read_shapes-stream_shapefile :
      (today : Day) (reports : List (Report F))
      → ((f : F) → fl.bits f < 2 ^ 64)
      → 50 + 14 * length (points_of reports) < 2 ^ 32
      → let members = stream_shapefile fmt gis fl today reports in
        (read_shapes members.shp members.shx ≡ numbered fl 1 (points_of reports))
        × (2 * words_of members.shp ≡ length members.shp)
  unfolding read_shapes stream_shapefile
  read_shapes-stream_shapefile today reports fits small =
      let l = add_reports fmt gis fl (empty_layer fmt gis fl) reports in
      let w = add_reports-IsWritten (empty_layer fmt gis fl) reports in
      let n : l.count ≡ length (points_of reports) = let c = w.count in omega (arith, c) in
      rw (w.shp, w.shx)
        (
          read_shapes-members fl fits l.count l.box (points_of reports) n small,
          stated_length fl fits l.count l.box (points_of reports) n small,
        )
