-- ===== src/Fixtures.antt =====
-- Concrete data for tests and examples: coordinates as whole micro-degrees, a flat earth, a small
-- database, requests and callers.
use beacon_backend.Prelude.{
  ℕ, ◌+◌, ◌-◌, ◌*◌, String, none, some, [], ◌∷◌, true, false, not, leb, if◌then◌else◌,
}
use beacon_backend.Prelude.Int.{ℤ, pos, negsuc, pos_part, neg_part, ltb_ℤ}
use beacon_backend.Std.Collation.{text_less}
use beacon_backend.Std.Float.{Float}
use beacon_backend.Model.Report.{SubmitReportRequest, default_anonymization}
use beacon_backend.Model.User.{User}
use beacon_backend.Store.Db.{Row, CrisisRow, Db, Postgis}
use beacon_backend.Service.Submit.Context.{Env}

abbrev pub Coord : Type 0
Coord = ℤ

abbrev less : ℕ → ℕ → ℤ
less a b = if leb b a then pos (a - b) else negsuc (b - a - 1)

abbrev plus : ℤ → ℤ → ℤ
plus a b = less (pos_part a + pos_part b) (neg_part a + neg_part b)

abbrev minus : ℤ → ℤ → ℤ
minus a b = less (pos_part a + neg_part b) (neg_part a + pos_part b)

abbrev times : ℤ → ℤ → ℤ
times a b =
    less (pos_part a * pos_part b + neg_part a * neg_part b)
      (pos_part a * neg_part b + neg_part a * pos_part b)

-- Whole numbers; division and the transcendental functions keep their first argument.
instance abbrev pub whole : Float ℤ
whole = record {
  of_int = λ n. n;
  lt = ltb_ℤ;
  le = λ a b. not (ltb_ℤ b a);
  add = plus;
  sub = minus;
  mul = times;
  div = λ a b. a;
  round = λ a. a;
  sin = λ a. a;
  cos = λ a. a;
  sqrt = λ a. a;
  atan2 = λ a b. a;
  pi = pos 3;
}

abbrev abs : ℤ → ℕ
abs a = pos_part a + neg_part a

-- Distances along the two axes, one unit to a degree.
abbrev pub flat : Postgis ℤ
flat = record {
  text_lt = text_less;
  dwithin = λ a b c d r. leb (abs (minus a c) + abs (minus b d)) (pos_part r);
  distance = λ a b c d. pos (abs (minus a c) + abs (minus b d));
  h3_cell = λ a b. "8a";
  average = λ xs. elim xs [ [] ↦ pos 0 | x ∷ _ ↦ x ];
  mode = λ xs. elim xs [ [] ↦ none | x ∷ _ ↦ some x ];
}

abbrev pub antakya : CrisisRow ℤ
antakya = record {
  id = "crisis-antakya";
  title = "Antakya";
  area = "Hatay";
  nature = "earthquake";
  center_lat = pos 36;
  center_lng = pos 36;
  source = "UNDP RAPIDA";
  started_at = 1000000000000;
  radius_km = pos 40;
  ended_at = none;
  status = "active";
  admin_pcode = none;
  emergent_radius_km = none;
  emergent_window_hrs = none;
  emergent_min_reports = none;
  form_overrides = none;
}

abbrev pub empty_db : Db ℤ
empty_db = record {
  reports = [];
  buildings = [];
  crises = antakya ∷ [];
  submitters = record { id = "s1"; anonymous_id = "device-1" } ∷ [];
  audits = [];
  withdrawals = [];
}

abbrev pub env_at : ℕ → Env ℤ
env_at now = record {
  gis = flat;
  received_at = now;
  guarded_at = now;
  inserted_at = now;
  read_at = now;
  fails = λ c. false;
  resolve_admin = λ a b. none;
  translator = record { enabled = false; target = "en"; translate = λ s. none };
  emergent = record { radius_km = pos 2; window_hrs = 24; min_reports = 3 };
  uuid = "u1";
  two_decimals = λ a b. "36.00, 36.00";
}

abbrev pub request : String → String → SubmitReportRequest ℤ
request id building = record {
  id = id;
  idempotency_key = "";
  crisis_id = "auto";
  damage = "partial";
  possibly_damaged = false;
  debris = "";
  infra_types = some ("residential" ∷ []);
  infra = none;
  infra_other_detail = none;
  infra_name = none;
  crisis_nature = none;
  crisis = some ("earthquake" ∷ []);
  lat = some (pos 36);
  lng = some (pos 36);
  location_resolved = none;
  accuracy_meters = none;
  location = none;
  building_id = some building;
  building_source = some "footprint";
  what3words = none;
  plus_code = none;
  landmark = none;
  gps_accuracy_meters = none;
  place = "Your Location ";
  description = none;
  ai_level = none;
  ai_confidence = none;
  photos = none;
  size_bytes = none;
  modular = "";
  anonymization = none;
  sync = "";
  captured_at = none;
  clusters = none;
}

abbrev pub pending_row : String → String → Row ℤ
pending_row id submitter = record {
  id = id;
  idempotency_key = id;
  crisis_id = none;
  submitter_id = some submitter;
  damage = "partial";
  possibly_damaged = false;
  verification = "pending";
  debris = "unsure";
  infra_types = some ("residential" ∷ []);
  infra_other_detail = none;
  infra_name = none;
  crisis_nature = some ("flood" ∷ []);
  lat = some (pos 10);
  lng = some (pos 10);
  gps_accuracy_m = none;
  building_id = none;
  building_source = none;
  version = 1;
  supersedes_report_id = none;
  plus_code = none;
  landmark = none;
  place = "";
  photo_url = none;
  desc_original = none;
  desc_original_lang = none;
  desc_translated = none;
  desc_translated_lang = none;
  ai_level = none;
  ai_confidence = none;
  photos = some [];
  size_bytes = pos 0;
  modular = none;
  anonymization = default_anonymization;
  is_mine = false;
  synced = true;
  sync_state = "";
  captured_at = 2000000000000;
  created_at = 2000000000000;
  updated_at = 2000000000000;
  admin = none;
  clusters = some [];
  location_resolved = true;
  h3_r8 = none;
}

-- Three pending reports at one place, of three devices.
abbrev pub pending_db : Db ℤ
pending_db = record empty_db {
  reports = pending_row "p1" "s1" ∷ pending_row "p2" "s2" ∷ pending_row "p3" "s3" ∷ [];
  submitters =
      record { id = "s1"; anonymous_id = "device-1" }
      ∷ record { id = "s2"; anonymous_id = "device-2" }
      ∷ record { id = "s3"; anonymous_id = "device-3" }
      ∷ [];
}

abbrev pub analyst : User
analyst = record {
  id = "u1";
  email = "analyst@example.org";
  name = "Analyst";
  role = "crisis_admin";
  region = none;
  crisis_scope = "*" ∷ [];
}

abbrev pub viewer : User
viewer = record analyst { role = "external_viewer" }
