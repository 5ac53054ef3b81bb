-- ===== src/Handler/Photo/Laws.antt =====
-- Photos between upload and download.
use beacon_backend.Prelude.{
  ℕ, ◌-◌, ◌≤◌, String, Option, none, some, List, Bool, true, false, not, ◌≡◌, ◌⊎◌, ◌↔◌, refl, ◌∙◌,
  arith, ◌==◌, eq_iff, ltb, length, take, if◌then◌else◌, find_first,
}
use beacon_backend.Model.User.{User}
use beacon_backend.Store.Db.{Row, Db}
use beacon_backend.Store.Scan.{or_text}
use beacon_backend.Store.Withdraw.{PhotoUploadAuth}
use beacon_backend.Photo.Jpeg.{sniff_image, strip_jpeg_metadata}
use beacon_backend.Photo.Crypto.{Outcome, success, failure, seal, is_encrypted, key_len}
use beacon_backend.Photo.Crypto.Laws.{open_blob-seal}
use beacon_backend.Handler.Reply.{Reply, sent, refused}
use beacon_backend.Handler.Photo.{
  Volume, Upload, first_upload_window, max_photo_bytes, has_device, authorize_upload, at_rest,
  record_photo, accept_file, accept_form, upload_photo, may_serve, serve_file, get_photo,
}

-- An upload goes on exactly where the report exists and its device is the caller's or, where no
-- device is known, it has no photo and was captured within the last half hour.
pub authorize_upload_iff :
    (now : ℕ) (auth : PhotoUploadAuth) (caller : String)
    → (authorize_upload now auth caller ≡ 200) ↔ (
        (auth.found ≡ true)
        × (((has_device auth.device_id ≡ true) × (auth.device_id ≡ some caller))
            ⊎ ((has_device auth.device_id ≡ false)
                × (auth.has_photo ≡ false)
                × (now - auth.captured_at ≤ first_upload_window))))
unfolding authorize_upload
authorize_upload_iff now auth caller = (
  λ h. ground (arith, h, eq_iff caller (or_text auth.device_id "")),
  λ h. ground (arith, h, eq_iff caller (or_text auth.device_id ""), eq_iff caller ""),
)

-- What an accepted file has become.
abbrev pub Stored : Volume → List ℕ → List ℕ → Type 0
Stored v file stored =
    (sniff_image (take 512 file) ≡ true)
    × (length file ≤ max_photo_bytes)
    × (at_rest v (strip_jpeg_metadata file) ≡ success stored)

le-of-ltb : (m n : ℕ) → ltb m n ≡ false → n ≤ m
le-of-ltb m n h = ground arith

module _ {F : Type 0} where
  gated :
      (a b : Bool) (db : Db F) (out : Reply String × Option (List ℕ) × Db F) (url : String)
      (code : ℕ)
      → let all : Reply String × Option (List ℕ) × Db F =
          if not a
          then (refused 415 "unsupported_media", none, db)
          else if b
          then (refused 413 "too_large", none, db)
          else out in
        all.0 ≡ sent code url → (a ≡ true) × (b ≡ false) × (out.0 ≡ sent code url) × (all.1 ≡ out.1)
  gated a b db out url code h = ground arith

  record_photo-sent :
      (now : ℕ) (v : Volume) (id : String) (o : Outcome) (db : Db F) (url : String) (code : ℕ)
      → (record_photo now v id o db).0 ≡ sent code url
      → (stored : List ℕ) × (o ≡ success stored) × ((record_photo now v id o db).1 ≡ some stored)
  unfolding record_photo
  record_photo-sent now v id (failure e) db url code h = ground arith
  record_photo-sent now v id (success stored) db url code h = (stored, refl, ground arith)

  accept_file-sent :
      (now : ℕ) (v : Volume) (id : String) (file : List ℕ) (db : Db F) (url : String) (code : ℕ)
      → let out = record_photo now v id (at_rest v (strip_jpeg_metadata file)) db in
        (accept_file now v id file db).0 ≡ sent code url
        → (sniff_image (take 512 file) ≡ true)
          × (length file ≤ max_photo_bytes)
          × (out.0 ≡ sent code url)
          × ((accept_file now v id file db).1 ≡ out.1)
  unfolding accept_file
  accept_file-sent now v id file db url code h =
      let out = record_photo now v id (at_rest v (strip_jpeg_metadata file)) db in
      let (s, l, r, w) =
        gated (sniff_image (take 512 file)) (ltb max_photo_bytes (length file)) db out url code h in
      (s, le-of-ltb max_photo_bytes (length file) l, r, w)

  accept_form-sent :
      (now : ℕ) (v : Volume) (id : String) (ok : Bool) (f : Option (List ℕ)) (db : Db F)
      (url : String) (code : ℕ)
      → (accept_form now v id ok f db).0 ≡ sent code url
      → (file stored : List ℕ) × (f ≡ some file)
        × Stored v file stored
        × ((accept_form now v id ok f db).1 ≡ some stored)
  unfolding accept_form
  accept_form-sent now v id false f db url code h = ground arith
  accept_form-sent now v id true none db url code h = ground arith
  accept_form-sent now v id true (some file) db url code h =
      let (s, l, r, w) = accept_file-sent now v id file db url code h in
      let (stored, a, x) = record_photo-sent now v id _ db url code r in
      (file, stored, refl, (s, l, a), w ∙ x)

  upload_photo-sent :
      (now : ℕ) (v : Volume) (id header : String) (up : Upload) (db : Db F) (url : String)
      (code : ℕ)
      → (upload_photo now v id header up db).0 ≡ sent code url
      → upload_photo now v id header up db ≡ accept_form now v id up.form_ok up.file db
  unfolding upload_photo
  upload_photo-sent now v id header up db url code h = ground arith

  -- A photo that was accepted under a key comes back, to whoever may see it, as it was sent but
  -- for its metadata; what lies on the volume is the sealed blob.
  pub get_photo-upload_photo :
      (now : ℕ) (v : Volume) (id header : String) (up : Upload) (db later : Db F) (url : String)
      (code : ℕ) (user : Option User) (row : Row F)
      → ((k n p : List ℕ) → v.gcm.open_with k n (v.gcm.seal_with k n p) ≡ some p)
      → length v.nonce ≡ v.gcm.nonce_size
      → length v.key ≡ key_len
      → (upload_photo now v id header up db).0 ≡ sent code url
      → find_first (λ r. r.id == id) later.reports ≡ some row
      → may_serve user row.verification (or_text row.crisis_id "") ≡ true
      → (file stored : List ℕ) × (up.file ≡ some file)
        × ((upload_photo now v id header up db).1 ≡ some stored)
        × (is_encrypted stored ≡ true)
        × (get_photo v.gcm v.key (some stored) false user id later
            ≡ sent 200 (strip_jpeg_metadata file))
  unfolding get_photo serve_file at_rest
  get_photo-upload_photo now v id header up db later url code user row rt n k h found allowed =
      let e = upload_photo-sent now v id header up db url code h in
      let (file, stored, f, (s, l, a), w) =
        accept_form-sent now v id up.form_ok up.file db url code (rw e at h) in
      let sealed : seal v.gcm v.key v.nonce (strip_jpeg_metadata file) ≡ success stored =
        ground (arith, a, k) in
      let (m, o) =
        open_blob-seal v.gcm v.key v.nonce (strip_jpeg_metadata file) stored rt n sealed in
      (file, stored, f, rw e w, m, ground (arith, found, allowed, m, k, o))
