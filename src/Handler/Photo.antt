-- ===== src/Handler/Photo.antt =====
-- internal/handler/photo.go: who may upload a report's photo, what is written, and who is served
-- it. The volume is a function from file names to bytes.
pub mod Laws
use Prim.Native.String
use beacon_backend.Prelude.{
  ℕ, ◌+◌, ◌*◌, ◌-◌, String, Option, none, some, List, Bool, true, false, not, ◌&&◌, ◌||◌, ◌==◌, eqb,
  ltb, if◌then◌else◌, length, take, find_first,
}
use beacon_backend.Std.Text.{trim_space}
use beacon_backend.Model.User.{User, is_viewer_tier, scope_all, scope_allows}
use beacon_backend.Store.Db.{Db}
use beacon_backend.Store.Scan.{or_text}
use beacon_backend.Store.Withdraw.{PhotoUploadAuth, photo_upload_info, set_photo_url}
use beacon_backend.Photo.Jpeg.{sniff_image, strip_jpeg_metadata}
use beacon_backend.Photo.Crypto.{
  Aead, Outcome, success, failure, CryptoError, key_len, seal, open_blob, is_encrypted,
}
use beacon_backend.Handler.Reply.{Reply, sent, refused, Handler}
use beacon_backend.Handler.Scope.{is_in_scope}

abbrev pub max_photo_bytes : ℕ
max_photo_bytes = 12 * 1048576

-- Thirty minutes in microseconds.
abbrev pub first_upload_window : ℕ
first_upload_window = 1800000000

-- `auth.DeviceID != nil && *auth.DeviceID != ""`
abbrev pub has_device : Option String → Bool
has_device none = false
has_device (some d) = not (d == "")

-- The two gates of an upload: 200 where it may go on.
unfoldable pub authorize_upload : ℕ → PhotoUploadAuth → String → ℕ
authorize_upload now auth caller =
    if not auth.found
    then 404
    else if has_device auth.device_id
    then (if caller == "" || not (caller == or_text auth.device_id "") then 403 else 200)
    else if auth.has_photo
    then 403
    else if ltb first_upload_window (now - auth.captured_at)
    then 403
    else 200

-- What a request of a photo upload carries: the file part where the form could be read and has one.
pub record Upload : Type 0 where
  pub form_ok : Bool
  pub file : Option (List ℕ)

-- The key of the deployment, the nonce drawn, and the calls that fail.
pub record Volume : Type 0 where
  pub gcm : Aead
  pub key : List ℕ
  pub nonce : List ℕ
  pub lookup_fails : Bool
  pub write_fails : Bool
  pub record_fails : Bool

unfoldable pub photo_url : String → String
photo_url id = String.◌++◌ "/api/v1/reports/" (String.◌++◌ id "/photo")

-- The bytes written to the volume: sealed where a key is configured.
unfoldable pub at_rest : Volume → List ℕ → Outcome
at_rest v bytes =
    if eqb (length v.key) key_len then seal v.gcm v.key v.nonce bytes else success bytes

module _ {F : Type 0} where
  -- SetPhotoURL last; the file is what the volume holds afterwards.
  unfoldable pub record_photo :
      ℕ → Volume → String → Outcome → Db F → Reply String × Option (List ℕ) × Db F
  record_photo now v id (failure e) db = (refused 500 "store", none, db)
  record_photo now v id (success bytes) db =
      if v.write_fails
      then (refused 500 "store", none, db)
      else if v.record_fails
      then (refused 500 "db", some bytes, db)
      else if not (set_photo_url now id (photo_url id) db).0
      then (refused 404 "not_found", none, (set_photo_url now id (photo_url id) db).1)
      else (sent 200 (photo_url id), some bytes, (set_photo_url now id (photo_url id) db).1)

  unfoldable pub accept_file :
      ℕ → Volume → String → List ℕ → Db F → Reply String × Option (List ℕ) × Db F
  accept_file now v id file db =
      if not (sniff_image (take 512 file))
      then (refused 415 "unsupported_media", none, db)
      else if ltb max_photo_bytes (length file)
      then (refused 413 "too_large", none, db)
      else record_photo now v id (at_rest v (strip_jpeg_metadata file)) db

  unfoldable pub accept_form :
      ℕ → Volume → String → Bool → Option (List ℕ) → Db F → Reply String × Option (List ℕ) × Db F
  accept_form now v id false file db = (refused 400 "bad_upload", none, db)
  accept_form now v id true none db = (refused 400 "no_file", none, db)
  accept_form now v id true (some file) db = accept_file now v id file db

  -- The reply, the bytes that a write left at the report's file, and the tables.
  unfoldable pub upload_photo :
      ℕ → Volume → String → String → Upload → Db F → Reply String × Option (List ℕ) × Db F
  upload_photo now v id header up db =
      if id == ""
      then (refused 400 "bad_id", none, db)
      else if v.lookup_fails
      then (refused 500 "db", none, db)
      else let status = authorize_upload now (photo_upload_info db id) (trim_space header) in
        if eqb status 404
        then (refused 404 "not_found", none, db)
        else if eqb status 403
        then (refused 403 "forbidden", none, db)
        else accept_form now v id up.form_ok up.file db

-- The switch of GetPhoto over the caller.
unfoldable pub may_serve : Option User → String → String → Bool
may_serve none verification crisis_id = verification == "verified"
may_serve (some u) verification crisis_id =
    if is_viewer_tier u
    then verification == "verified" && is_in_scope u crisis_id
    else is_in_scope u crisis_id

abbrev opened_reply : Outcome → Reply (List ℕ)
opened_reply (success bytes) = sent 200 bytes
opened_reply (failure e) = refused 404 "not_found"

-- The file's bytes as they are served; none where the file is missing.
unfoldable pub serve_file : Aead → List ℕ → Option (List ℕ) → Reply (List ℕ)
serve_file gcm key none = refused 404 "not_found"
serve_file gcm key (some raw) =
    if is_encrypted raw
    then (if not (eqb (length key) key_len)
        then refused 404 "not_found"
        else opened_reply (open_blob gcm key raw))
    else sent 200 raw

module _ {F : Type 0} where
  -- GetPhoto, with PhotoServeInfo.
  unfoldable pub get_photo :
      Aead → List ℕ → Option (List ℕ) → Bool → Option User → String → Db F → Reply (List ℕ)
  unfolding may_serve serve_file
  get_photo gcm key file true user id db = refused 500 "internal"
  get_photo gcm key file false user id db = elim (find_first (λ r. r.id == id) db.reports) [
    | none ↦ refused 404 "not_found"
    | some row ↦
        if not (may_serve user row.verification (or_text row.crisis_id ""))
        then refused 404 "not_found"
        else serve_file gcm key file
  ]
