-- ===== src/Examples/Crises.antt =====
-- Crises at concrete inputs.
use beacon_backend.Prelude.{
  ◌<◌, ◌≤◌, String, none, some, List, [], ◌∷◌, ◌++◌, true, false, ◌≡◌, ◌⊎◌, refl, map, length,
  select, arith,
}
use beacon_backend.Prelude.Int.{ℤ, pos}
use beacon_backend.Store.Db.{CrisisRow, Db}
use beacon_backend.Store.Crises.{covers, nearest, assign_crisis, set_crisis_status}
use beacon_backend.Store.Crises.Laws.{Among, IsNearest, assign_crisis_lem}
use beacon_backend.Store.Emergent.{
  EmergentConfig, AdminScope, Surroundings, active, clustered, distinct, proposed_crisis, pulled_in,
  pulled_building, detect_emergent_crisis,
}
use beacon_backend.Store.Emergent.Laws.{detect_emergent_crisis_lem}
use beacon_backend.Model.Vocabulary.{contains}
use beacon_backend.Fixtures.{whole, flat, empty_db, pending_row, pending_db}

-- All that these runs compute with.
running : Unit {0}
unfolding covers nearest assign_crisis set_crisis_status active clustered distinct proposed_crisis
    pulled_in pulled_building detect_emergent_crisis contains
running = tt

abbrev around : Surroundings ℤ
around = record {
  now = 2000000000001;
  uuid = "u9";
  two_decimals = λ a b. "10.00, 10.00";
  area_name = λ a b. "";
}

abbrev nowhere : AdminScope
nowhere = record { level = 0; pcode = "" }

abbrev config : EmergentConfig ℤ
config = record { radius_km = pos 2; window_hrs = 24; min_reports = 3 }

abbrev formed : String × Db ℤ
formed =
    detect_emergent_crisis flat around (pos 10) (pos 10) 2000000000000 config nowhere pending_db

formed_test :
    (formed.0 ≡ "emergent-u9")
    × (map (λ r. r.crisis_id) formed.1.reports
        ≡ some "emergent-u9" ∷ some "emergent-u9" ∷ some "emergent-u9" ∷ [])
unfolding running
formed_test = (refl, refl)

abbrev reporters : List String
reporters = distinct (
    map (λ r. r.submitter_id)
      (select (clustered flat (pos 10) (pos 10) 2000000000000 config nowhere) pending_db.reports))

detect_emergent_crisis_lem_example :
    ((length reporters < 3) × (formed ≡ ("", pending_db)))
    ⊎ ((3 ≤ length reporters)
        × (c : CrisisRow ℤ) × (c.status ≡ "proposed")
        × (c.source ≡ "emergent")
        × (c.ended_at ≡ none)
        × (c.radius_km ≡ pos 2)
        × (formed.0 ≡ c.id)
        × (formed.1.crises ≡ pending_db.crises ++ c ∷ [])
        × (formed.1.reports
            ≡ map
                (pulled_in flat around.now c.id
                  (clustered flat (pos 10) (pos 10) 2000000000000 config nowhere))
                pending_db.reports))
detect_emergent_crisis_lem_example =
    detect_emergent_crisis_lem flat around (pos 10) (pos 10) 2000000000000 config nowhere pending_db

abbrev lone_db : Db ℤ
lone_db = record pending_db {
  reports =
      pending_row "p1" "s1"
      ∷ pending_row "p2" "s1"
      ∷ pending_row "p3" "s1"
      ∷ pending_row "p4" "s1"
      ∷ [];
}

ltb_ℤ-irrefl : (a : ℤ) → whole.lt a a ≡ false
ltb_ℤ-irrefl a = ground arith

ltb_ℤ-trans : (a b c : ℤ) → whole.lt b a ≡ false → whole.lt c b ≡ false → whole.lt c a ≡ false
ltb_ℤ-trans a b c h k = ground arith

ltb_ℤ-asym : (a b : ℤ) → whole.lt a b ≡ true → whole.lt b a ≡ false
ltb_ℤ-asym a b h = ground arith

abbrev covering : List (CrisisRow ℤ)
covering = select (covers flat (pos 36) (pos 37) 2000000000000) empty_db.crises

assign_crisis_lem_example :
    ((covering ≡ []) × (assign_crisis flat empty_db (pos 36) (pos 37) 2000000000000 ≡ ""))
    ⊎ ((c : CrisisRow ℤ) × (assign_crisis flat empty_db (pos 36) (pos 37) 2000000000000 ≡ c.id)
        × (covers flat (pos 36) (pos 37) 2000000000000 c ≡ true)
        × Among c empty_db.crises
        × IsNearest flat (pos 36) (pos 37) c covering)
assign_crisis_lem_example =
    assign_crisis_lem flat (pos 36) (pos 37) empty_db 2000000000000 ltb_ℤ-irrefl ltb_ℤ-trans
      ltb_ℤ-asym
