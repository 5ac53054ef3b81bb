-- ===== src/Store/Cursors.antt =====
-- internal/store/reports.go: Cursor, EncodeCursor and DecodeCursor, over UnixNano and time.Unix of Go.
use beacon_backend.Prelude.{
  ℕ, suc, ◌+◌, ◌*◌, ◌-◌, ◌/◌, ◌%◌, ◌^◌, ◌≤◌, ◌<◌, String, ◌≡◌, refl, arith,
}
use beacon_backend.Prelude.Int.{ℤ, pos, negsuc, of_bits64}

pub record Cursor : Type 0 where
  pub captured_at : ℕ
  pub id : String

-- The text of a cursor, as its two parts: base64, the decimal digits of an int64 and the cut at the
-- first "|" give back just what was written. Texts that DecodeCursor refuses are no value here.
pub record CursorText : Type 0 where
  pub nanos : ℤ
  pub id : String

-- 1970 in microseconds from the earliest instant of the database, day 0 of the Julian calendar.
abbrev pub unix_epoch : ℕ
unix_epoch = 2440588 * 86400000000

-- UnixNano: nanoseconds from 1970 as an int64, which wraps around outside the years 1678 to 2262.
-- Multiples of 2 ^ 64 keep the subtraction on ℕ exact.
unfoldable pub unix_nano : ℕ → ℤ
unfolding of_bits64
unix_nano t = of_bits64 ((t * 1000 + 12 * 2 ^ 64 - unix_epoch * 1000) % 2 ^ 64)

-- time.Unix(0, ns), in whole microseconds as it is sent to the database.
unfoldable pub from_nano : ℤ → ℕ
from_nano (pos n) = unix_epoch + n / 1000
from_nano (negsuc n) = unix_epoch - suc (n / 1000)

unfoldable pub encode_cursor : Cursor → CursorText
unfolding unix_nano
encode_cursor c = record { nanos = unix_nano c.captured_at; id = c.id }

unfoldable pub decode_cursor : CursorText → Cursor
unfolding from_nano
decode_cursor t = record { captured_at = from_nano t.nanos; id = t.id }

-- An instant whose nanoseconds from 1970 fit an int64.
abbrev pub InNanos : ℕ → Type 0
InNanos t = (unix_epoch * 1000 ≤ t * 1000 + 2 ^ 63) × (t * 1000 < unix_epoch * 1000 + 2 ^ 63)

from_nano-unix_nano : (t : ℕ) → InNanos t → from_nano (unix_nano t) ≡ t
unfolding from_nano unix_nano of_bits64
from_nano-unix_nano t h = ground (arith, h)

pub decode_cursor-encode_cursor :
    (c : Cursor) → InNanos c.captured_at → decode_cursor (encode_cursor c) ≡ c
unfolding decode_cursor encode_cursor
decode_cursor-encode_cursor c h = rw (from_nano-unix_nano c.captured_at h) refl

-- The last microsecond of the int64's range, and the one after it, whose cursor means one of 1677.
wraps :
    (unix_nano (unix_epoch + 9223372036854775) ≡ pos 9223372036854775000)
    × (from_nano (unix_nano (unix_epoch + 9223372036854776)) ≡ unix_epoch - 9223372036854776)
unfolding unix_nano from_nano
wraps = (refl, refl)
