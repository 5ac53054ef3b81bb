-- ===== src/Examples/Photos.antt =====
-- Photos at concrete inputs.
use beacon_backend.Prelude.{
  length, suc, arith, ◌↔◌, none, ℕ, ◌-◌, ◌≤◌, String, Option, some, List, [], ◌∷◌, ◌++◌, true,
  false, ◌≡◌, ◌⊎◌, inr, refl, select, take,
}
use beacon_backend.Prelude.Int.{ℤ}
use beacon_backend.Std.Text.{is_space, trim_space}
use beacon_backend.Model.User.{is_viewer_tier, scope_all, scope_allows}
use beacon_backend.Store.Db.{Db}
use beacon_backend.Store.Withdraw.{PhotoUploadAuth, device_of, photo_upload_info, set_photo_url}
use beacon_backend.Photo.Jpeg.{sniff_image, strip_from, strip_jpeg_metadata}
use beacon_backend.Photo.Jpeg.Fuel.{strip_from_terminates}
use beacon_backend.Photo.Jpeg.Laws.{Segment, is_kept, encode_all, strip_jpeg_metadata_lem}
use beacon_backend.Photo.Crypto.{Aead, seal, open_blob, is_encrypted}
use beacon_backend.Handler.Reply.{Reply, sent}
use beacon_backend.Handler.Scope.{is_public_tier, is_in_scope}
use beacon_backend.Handler.Photo.{
  Volume, Upload, first_upload_window, has_device, authorize_upload, at_rest, record_photo,
  accept_file, accept_form, photo_url, upload_photo, may_serve, serve_file, get_photo,
}
use beacon_backend.Handler.Photo.Laws.{authorize_upload_iff, get_photo-upload_photo}
use beacon_backend.Fixtures.{whole, pending_row, pending_db, analyst}

running : Unit {0}
unfolding sniff_image strip_from strip_jpeg_metadata seal open_blob is_encrypted authorize_upload
    at_rest record_photo accept_file accept_form photo_url upload_photo may_serve serve_file
    get_photo device_of photo_upload_info set_photo_url is_space trim_space is_viewer_tier scope_all
    scope_allows is_public_tier is_in_scope
running = tt

-- A header, an EXIF segment and a comment, and the end of the image.
abbrev segments : List Segment
segments =
    record { marker = 0xE0; payload = 1 ∷ 2 ∷ [] }
    ∷ record { marker = 0xE1; payload = 9 ∷ 9 ∷ 9 ∷ [] }
    ∷ record { marker = 0xFE; payload = 7 ∷ [] }
    ∷ []

abbrev file : List ℕ
file = 0xFF ∷ 0xD8 ∷ encode_all segments ++ 0xFF ∷ 0xD9 ∷ []

strip_jpeg_metadata_lem_example :
    strip_jpeg_metadata file
    ≡ 0xFF ∷ 0xD8 ∷ encode_all (select is_kept segments) ++ 0xFF ∷ 0xD9 ∷ []
strip_jpeg_metadata_lem_example =
    strip_jpeg_metadata_lem segments (0xFF ∷ 0xD9 ∷ [])
      (omega arith, (omega arith, (omega arith, tt))) (refl, inr refl)

stripped_test :
    strip_jpeg_metadata file ≡ 0xFF ∷ 0xD8 ∷ 0xFF ∷ 0xE0 ∷ 0 ∷ 4 ∷ 1 ∷ 2 ∷ 0xFF ∷ 0xD9 ∷ []
unfolding running
stripped_test = refl

-- A cipher that changes nothing.
abbrev toy : Aead
toy = record { nonce_size = 2; seal_with = λ k n p. p; open_with = λ k n c. some c }

abbrev key : List ℕ
key = take 32 (encode_all segments ++ (encode_all segments ++ encode_all segments))

abbrev volume : Volume
volume = record {
  gcm = toy;
  key = key;
  nonce = 5 ∷ 6 ∷ [];
  lookup_fails = false;
  write_fails = false;
  record_fails = false;
}

abbrev upload : Upload
upload = record { form_ok = true; file = some file }

abbrev now : ℕ
now = 2000000000005

abbrev uploaded : Reply String × Option (List ℕ) × Db ℤ
uploaded = upload_photo now volume "p1" "device-1" upload pending_db

get_photo-upload_photo_example :
    (sent_file stored : List ℕ) × (some file ≡ some sent_file)
    × (uploaded.1 ≡ some stored)
    × (is_encrypted stored ≡ true)
    × (get_photo toy key (some stored) false (some analyst) "p1" pending_db
        ≡ sent 200 (strip_jpeg_metadata sent_file))
unfolding running
get_photo-upload_photo_example =
    get_photo-upload_photo now volume "p1" "device-1" upload pending_db pending_db
      "/api/v1/reports/p1/photo" 200 (some analyst) (pending_row "p1" "s1") (λ k n p. refl) refl
      refl refl refl refl

abbrev known : PhotoUploadAuth
known = record { found = true; device_id = some "device-1"; has_photo = true; captured_at = 7 }

authorize_upload_iff_example : (authorize_upload now known "device-1" ≡ 200) ↔ (
    (known.found ≡ true)
    × (((has_device known.device_id ≡ true) × (known.device_id ≡ some "device-1"))
        ⊎ ((has_device known.device_id ≡ false)
            × (known.has_photo ≡ false)
            × (now - 7 ≤ first_upload_window))))
authorize_upload_iff_example = authorize_upload_iff now known "device-1"

-- The device's own upload, another device's, and that of a caller without one.
uploads :
    (authorize_upload now known "device-1" ≡ 200)
    × (authorize_upload now known "device-2" ≡ 403)
    × (authorize_upload now (record known { device_id = none }) "device-1" ≡ 403)
unfolding authorize_upload
uploads = (refl, refl, refl)

strip_from_terminates_example :
    (out : List ℕ) × (strip_from 1000 file ≡ some out)
    × (strip_from (suc (length file)) file ≡ some out)
    × (length out ≤ length file)
strip_from_terminates_example = strip_from_terminates 1000 file (omega arith)
