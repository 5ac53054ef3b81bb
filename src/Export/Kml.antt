-- ===== src/Export/Kml.antt =====
-- xmlEscape, writeKMLPlacemark and StreamKML.
use beacon_backend.Prelude.{
  ℕ, none, some, List, [], ◌∷◌, ◌++◌, Bool, not, ◌&&◌, ◌||◌, eqb, leb, if◌then◌else◌,
}
use beacon_backend.Std.Text.{codes}
use beacon_backend.Model.Report.{Report}
use beacon_backend.Store.Db.{Postgis}
use beacon_backend.Export.Text.{Text, Formats}
use beacon_backend.Export.Columns.{flatten_modular, cell_at, keys_of, sort_texts}
use beacon_backend.Export.Cells.{deref, joined, title_tier, export_description, resolved_point}

-- The characters that XML knows.
abbrev is_in_character_range : ℕ → Bool
is_in_character_range c =
    eqb c 0x09
    || eqb c 0x0A
    || eqb c 0x0D
    || (leb 0x20 c && leb c 0xD7FF)
    || (leb 0xE000 c && leb c 0xFFFD)
    || (leb 0x10000 c && leb c 0x10FFFF)

-- xml.EscapeText of one character.
unfoldable pub escaped : ℕ → Text
escaped c =
    if eqb c b'"'
    then codes "&#34;"
    else if eqb c b'\''
    then codes "&#39;"
    else if eqb c b'&'
    then codes "&amp;"
    else if eqb c b'<'
    then codes "&lt;"
    else if eqb c b'>'
    then codes "&gt;"
    else if eqb c 0x09
    then codes "&#x9;"
    else if eqb c 0x0A
    then codes "&#xA;"
    else if eqb c 0x0D
    then codes "&#xD;"
    else if not (is_in_character_range c)
    then 0xFFFD ∷ []
    else c ∷ []

unfoldable pub xml_escape : Text → Text
unfolding escaped
xml_escape [] = []
xml_escape (c ∷ s) = escaped c ++ xml_escape s

abbrev pub line_feed : Text
line_feed = 10 ∷ []

module _ {F : Type 0} (fmt : Formats F) where
  -- The lines of the modular answers, by the names of their columns.
  unfoldable pub impacts : List (Text × Text) → List Text → Text
  unfolding cell_at
  impacts flat [] = []
  impacts flat (k ∷ keys) =
      k ++ (codes ": " ++ (cell_at fmt flat k ++ (line_feed ++ impacts flat keys)))

  unfoldable pub kml_description : Report F → Text
  unfolding impacts sort_texts title_tier export_description
  kml_description r =
      let flat = flatten_modular fmt r.modular in
      codes "damage_classification: "
      ++ (title_tier r.damage_tier
          ++ (line_feed
              ++ (codes "infrastructure_type: "
                  ++ (joined r.infra_types
                      ++ (line_feed
                          ++ (codes "infrastructure_name: "
                              ++ (deref r.infra_name
                                  ++ (line_feed
                                      ++ (codes "infrastructure_other_detail: "
                                          ++ (deref r.infra_other_detail
                                              ++ (line_feed
                                                  ++ (codes "hazard_type: "
                                                      ++ (joined r.crisis_nature
                                                          ++ (line_feed
                                                            ++ (impacts flat
                                                            (sort_texts (keys_of fmt flat))
                                                            ++ (codes "description: "
                                                            ++ (export_description r.description
                                                            ++ (line_feed
                                                            ++ (codes "plus_code: "
                                                            ++ (deref r.plus_code
                                                            ++ (line_feed
                                                            ++ (codes "verification: "
                                                            ++ (codes r.verification
                                                            ++ (line_feed
                                                            ++ (codes "timestamp: "
                                                            ++ fmt.show_time
                                                            r.captured_at)))))))))))))))))))))))))

  unfoldable pub kml_placemark : Report F → F × F → Text
  unfolding kml_description xml_escape
  kml_placemark r (lng, lat) =
      codes "<Placemark>"
      ++ (codes "<name>"
          ++ (xml_escape (codes r.id)
              ++ (codes "</name>"
                  ++ (codes "<description>"
                      ++ (xml_escape (kml_description r)
                          ++ (codes "</description>"
                              ++ (codes "<Point><coordinates>"
                                  ++ (fmt.show_float lng
                                      ++ (codes ","
                                          ++ (fmt.show_float lat
                                              ++ (codes "</coordinates></Point>"
                                                  ++ (codes "</Placemark>" ++ line_feed))))))))))))

module _ {F : Type 0} (fmt : Formats F) (gis : Postgis F) where
  unfoldable pub placemarks : List (Report F) → Text
  unfolding kml_placemark
  placemarks [] = []
  placemarks (r ∷ reports) =
      let rest = placemarks reports in
      elim (resolved_point fmt gis r) [
        | none ↦ rest
        | some point ↦ kml_placemark fmt r point ++ rest
      ]

  -- StreamKML up to the end of `src`.
  unfoldable pub begun_kml : List (Report F) → Text
  unfolding placemarks
  begun_kml reports =
      codes "<?xml version=\"1.0\" encoding=\"UTF-8\"?>"
      ++ (line_feed
          ++ (codes "<kml xmlns=\"http://www.opengis.net/kml/2.2\"><Document>"
              ++ (line_feed
                  ++ (codes "<name>Beacon community damage reports</name>"
                      ++ (line_feed ++ placemarks reports)))))

  unfoldable pub stream_kml : List (Report F) → Text
  unfolding begun_kml
  stream_kml reports = begun_kml reports ++ codes "</Document></kml>"
