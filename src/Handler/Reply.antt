-- ===== src/Handler/Reply.antt =====
-- internal/handler/errors.go: replies and the mapping of service errors to them.
use beacon_backend.Prelude.{ℕ, String}
use beacon_backend.Store.Db.{Db}
use beacon_backend.Service.Errors.{ServiceError, validation, rate_limited, duplicate, database}

-- writeJSON with its status, or writeErr with its status and code.
pub data Reply (A : Type 0) : Type 0 where
  sent : ℕ → A → Reply A
  refused : ℕ → String → Reply A

-- A handler: its reply and the tables after it.
abbrev pub Handler : Type 0 → Type 0 → Type 0
Handler F A = Db F → Reply A × Db F

-- mapServiceError; the id of a duplicate's body is left out of the reply.
unfoldable pub map_service_error : {A : Type 0} → ServiceError → Reply A
map_service_error (validation v) = refused 400 "validation"
map_service_error (rate_limited w) = refused 429 "rate_limited"
map_service_error (duplicate id) = refused 409 "duplicate"
map_service_error (database e) = refused 500 "internal"
