-- ===== src/Service/Errors.antt =====
-- internal/service/report_service.go: the errors that a handler tells apart. The message of a
-- ValidationError is its constructor; SqlError is what the database driver reports.
use beacon_backend.Prelude.{String}

pub data Invalid : Type 0 where
  id_required damage_not_a_tier debris_not_a_state infra_required nature_required : Invalid
  infra_unknown nature_unknown cluster_unknown : String → Invalid
  ai_level_not_a_tier coords_required coords_out_of_range landmark_required : Invalid
  section_unknown section_required_and_disabled : String → Invalid

pub data SqlError : Type 0 where
  unavailable check_violation unique_violation foreign_key_violation : SqlError

pub data Window : Type 0 where
  burst sustained : Window

pub data ServiceError : Type 0 where
  validation : Invalid → ServiceError
  rate_limited : Window → ServiceError
  duplicate : String → ServiceError
  database : SqlError → ServiceError

pub data Result {ℓ} (Value : Type ℓ) : Type ℓ where
  err : ServiceError → Result Value
  ok : Value → Result Value

infixl 5 ◌>>=◌ ◌>>◌
-- `if err != nil { return err }` before the rest.
abbrev pub ◌>>=◌ {ℓ κ} :
    {Value : Type ℓ} {Next : Type κ} → Result Value → (Value → Result Next) → Result Next
err reason >>= rest = err reason
ok value >>= rest = rest value

-- The same for a check that returns nothing but its error.
abbrev pub ◌>>◌ {κ} : {Next : Type κ} → Result (Unit {0}) → Result Next → Result Next
check >> rest = check >>= λ done. rest
