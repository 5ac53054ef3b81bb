-- ===== src/Store/Tx.antt =====
-- internal/store/tx.go: statements in a row on one database, and RunInTx, which keeps what they
-- wrote only if all of them and the commit succeed.
use beacon_backend.Prelude.{Bool, if◌then◌else◌}
use beacon_backend.Service.Errors.{Result, ok, err, database, unavailable}
use beacon_backend.Store.Db.{Db}
use beacon_backend.Store.Insert.{Sql, done, failed}

abbrev pub Tx : Type 0 → Type 0 → Type 0
Tx F A = Db F → Result A × Db F

infixl 5 ◌>>=◌ ◌>>◌
abbrev pub ◌>>=◌ : {F A B : Type 0} → Tx F A → (A → Tx F B) → Tx F B
◌>>=◌ m f db = let (r, db') = m db in elim r [ ok a ↦ f a db' | err e ↦ (err e, db') ]

abbrev pub ◌>>◌ : {F A B : Type 0} → Tx F A → Tx F B → Tx F B
m >> k = m >>= λ _. k

abbrev pub pure : {F A : Type 0} → A → Tx F A
pure a db = (ok a, db)

abbrev pub of_sql : {A : Type 0} → Sql A → Result A
of_sql (done a) = ok a
of_sql (failed e) = err (database e)

-- A statement that does not reach the database where `lost`.
abbrev pub exec : {F A : Type 0} → Bool → (Db F → Sql A × Db F) → Tx F A
exec lost q db = if lost then (err (database unavailable), db) else (of_sql (q db).0, (q db).1)

unfoldable pub run_in_tx : {F A : Type 0} → Bool → Tx F A → Tx F A
run_in_tx lost body db = elim (body db).0 [
  | ok a ↦ if lost then (err (database unavailable), db) else (ok a, (body db).1)
  | err e ↦ (err e, db)
]
