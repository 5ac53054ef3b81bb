-- ===== src/Handler/Middleware.antt =====
-- internal/api/middleware.go: requireAnalyst and requireMutator.
use beacon_backend.Prelude.{Option, none, some, not, if◌then◌else◌}
use beacon_backend.Model.User.{User, can_mutate}
use beacon_backend.Handler.Reply.{refused, Handler}

unfoldable pub require_analyst : {F A : Type 0} → Option User → Handler F A → Handler F A
require_analyst none next db = (refused 401 "unauthorized", db)
require_analyst (some u) next db = next db

unfoldable pub require_mutator : {F A : Type 0} → Option User → Handler F A → Handler F A
require_mutator none next db = (refused 401 "unauthorized", db)
require_mutator (some u) next db =
    if not (can_mutate u) then (refused 403 "forbidden", db) else next db
