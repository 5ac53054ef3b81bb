-- ===== src/Lib.antt =====
-- Beacon's server takes damage reports from anonymous phones, attaches them to crises, lets analysts
-- decide on them and shows a public map. This library models its core in Go, under internal/.
--
-- The parts, and the files that model them:
--   * internal/model (reports, users, crises, the capture form): Model and its children. Vocabulary
--     holds the closed lists of values.
--   * internal/store (PostgreSQL statements) and the constraints of internal/migrations: Store. Db
--     has one record to a table row and the tables as lists; Scan reads rows, Insert writes reports
--     and buildings, Guards counts and finds duplicates, Crises assigns and moves crises, Emergent
--     proposes them, Listing filters, orders and pages, with
--     Cursors, the int64 of a page's cursor, Pins finds the latest report of each
--     building, Verification and Withdraw change reports, Tx is RunInTx.
--   * internal/service/report_service.go: Service. Normalize, Validate and Geography are its pure
--     functions; Submit, with Context, Guards, Enrich and Transaction, is Submit, in the code's
--     order; internal/service/form_schema.go is FormSchema.
--   * internal/handler and internal/api/middleware.go: Handler. A handler takes the caller (the
--     user of the token, none for an anonymous request), the headers and the decoded body, and
--     gives its reply and the tables after it.
--   * internal/config/config.go, its validation: Config.
--   * internal/handler/photo.go (bytes) and internal/crypto/aesgcm.go: Photo.
--   * System has no file of its own in the code: its steps are the writing requests, one after
--     another, and its invariant speaks of every state that they reach.
--   * internal/auth/totp.go, and the text form and keys of internal/crypto/aesgcm.go: Auth. The accounts of
--     internal/store/users.go are Store/Users; internal/handler/auth.go and mfa.go are Handler/Mfa.
--   * internal/service/export_service.go, export_stream.go and export_shapefile.go: Export, with
--     Columns and Cells, which the formats share, and Csv, Feature (GeoJSON), Kml, Shapefile and
--     Geopackage. The queries of internal/store/stats.go behind them are Store/Exports, and
--     internal/handler/export.go is Handler/Export.
--   * The rest of internal/store/stats.go is Store/Stats, with internal/service/stats_service.go and
--     internal/handler/stats.go in Handler/Stats; the profiles of internal/store/crisis.go are
--     Store/Profile, and internal/handler/profile.go is Handler/Profile.
--   * Fixtures and Examples run the model on concrete data. Std and Prelude have what the program
--     uses of Go's library, and lemmas on lists and numbers.
--
-- How the code is read:
--   * A slice or pointer that may be nil is an Option. Raw JSON is its text in the form jsonb gives
--     it, "" where absent. Instants are microseconds from the earliest one that the database holds;
--     the zero time.Time of a report that is being built is none.
--   * float64 is a type with an interface of operations and no laws (Std/Float); what PostGIS, H3
--     and the aggregates of PostgreSQL answer are fields of a record (Store/Db, Postgis). A theorem
--     that needs a law has it as a hypothesis.
--   * A database call may fail: `fails` of the submit's environment says which, and the handlers
--     take the same as arguments. Each place that reads the clock has its own instant. The reverse
--     geocoder, the translator, the AEAD cipher and fresh uuids are arguments.
--   * The message of a ValidationError is a constructor; a reply has its status and code, not its
--     message. The row order of a query without ORDER BY is that of insertion.
--   * An INSERT meets CHECK constraints first, then the conflict on the id, then the unique key,
--     then the foreign keys. Requests are served one at a time: the row locks that serialise the
--     version chain are not modelled, nor are concurrent submits. A transaction whose COMMIT fails is
--     rolled back: that the server applied it and only its answer was lost is left out. An integer
--     that does not fit its column, which the driver refuses, counts as a CHECK that fails.
--   * An export reads the crisis and the keys from one state of the tables and the rows from another.
--     Where the rows break off, what is sent of a streamed format is cut; how much had left the buffer
--     is an argument. Withdrawing a report leaves buildings.current_damage, as the code does.
--
-- HMAC, base32, bcrypt, base64 and the signature of tokens are fields of records (Auth, Handler/Mfa),
-- as are Go's formats of numbers and times (Export/Text). A text of an export is its code points.
--
-- Loops: stripJPEGMetadata runs on fuel, the number of bytes of the whole file, two more than the loop
-- walks over; each round but the last removes at least four. A spent fuel is a result of its own, which
-- is excluded. All else recurs on lists.
--
-- Not modelled: the text of query parameters, the map's handlers, timelines, area
-- groups, vector tiles, parsing tokens, reading the environment, boundary downloads and importers; the
-- text of GeoJSON, the ZIP container, SQLite, writing files, logging and routing are I/O.
mod Prelude
pub mod Std
pub mod Model
pub mod Store
pub mod Service
pub mod Photo
pub mod Auth
pub mod Config
pub mod Export
pub mod Handler
pub mod System
mod Fixtures
mod Examples
