-- ===== src/Mock/Serve/Ranges.antt =====
-- tool/portal_mock_server.js, lines 192-206: which bytes a range request gets.
use vault_box.Base.{
  ℕ, ◌+◌, ◌-◌, ◌<◌, ◌≤◌, ◌≡◌, refl, ap, ◌∙◌, arith, Bool, true, false, ◌&&◌, Option, none, some,
  min, List, [], ◌∷◌, ◌++◌, length, drop, length-take, length-drop, Text, codes, decimal,
  number-decimal, non_empty, IsDigits, decimal-IsDigits, decimal-non_empty, starts_with, is_digit,
}
use vault_box.Base.Int.{negsuc, sub_ℕ}
use vault_box.Base.Uri.{encode}
use vault_box.Mock.Serve.{
  Range, partial, range_of, range_found, parse_range, after_dash, span_digits, checked, Served,
  served, serve_file, disposition, disposition_with, serve_shown, serve_range, mime_of,
  is_inline_type, slice,
}

found_bounds :
    (size : ℕ) (found : Option (Text × Text)) (start stop : ℕ)
    → range_found size found ≡ partial start stop
    → (start < size) × (stop ≤ size)
unfolding range_found
found_bounds size none start stop e = ground arith
found_bounds size (some (first, last)) start stop e = ground arith

-- Whatever header a client sends, if it is answered with a part of the file, the part starts inside
-- the file and does not end behind it.
pub range_of_bounds :
    (size : ℕ) (header : Text) (start stop : ℕ)
    → range_of size header ≡ partial start stop
    → (start < size) × (stop ≤ size)
unfolding range_of
range_of_bounds size header start stop e = found_bounds size (parse_range header) start stop e

span_digits-append :
    (ds rest : Text) (c : ℕ)
    → IsDigits ds
    → is_digit c ≡ false
    → span_digits (ds ++ c ∷ rest) ≡ (ds, c ∷ rest)
unfolding span_digits
span_digits-append [] rest c h p = rw p
span_digits-append (d ∷ ds) rest c (q, h) p = rw (span_digits-append ds rest c h p, q)

span_digits_all : (ds : Text) → IsDigits ds → span_digits ds ≡ (ds, [])
unfolding span_digits
span_digits_all [] h = refl
span_digits_all (d ∷ ds) (q, h) = rw (span_digits_all ds h, q)

abbrev header_of : Text → Text → Text
header_of first last = codes "bytes=" ++ (first ++ b'-' ∷ last)

-- `bytes=first-last` and `bytes=first-`
abbrev pub from_to : ℕ → ℕ → Text
from_to first last = header_of (decimal first) (decimal last)

abbrev pub from_on : ℕ → Text
from_on first = header_of (decimal first) []

parse_header :
    (first last : Text)
    → IsDigits first
    → IsDigits last
    → non_empty first ≡ true
    → parse_range (header_of first last) ≡ some (first, last)
unfolding parse_range after_dash starts_with
parse_header first last h k p =
    rw (span_digits-append first last b'-' h refl, span_digits_all last k, p)

range_of-from_to :
    (size first last : ℕ)
    → range_of size (from_to first last) ≡ checked size first (min size (last + 1))
unfolding range_of range_found
range_of-from_to size first last =
    rw
      (parse_header (decimal first) (decimal last) (decimal-IsDigits first) (decimal-IsDigits last)
        (decimal-non_empty first))
      (rw (
        decimal-non_empty first,
        decimal-non_empty last,
        number-decimal first,
        number-decimal last,
      ))

disposition_found :
    (name : Text) (inline : Bool) {e : Text}
    → encode name ≡ some e
    → (shown : Text) × (disposition name inline ≡ some shown)
unfolding disposition
disposition_found name inline {e} h = (_, ap (disposition_with name inline) h)

-- A file whose name can be encoded is served by its range.
module _ (name : Text) (bytes : List ℕ) (inline : Bool) {e : Text}
    (named : encode name ≡ some e) where
  serve_file-range :
      (header : Text) {r : Range}
      → range_of (length bytes) header ≡ r
      → (shown : Text) × (serve_file false header name bytes inline
          ≡ serve_range false bytes (mime_of name) shown r)
  unfolding serve_file
  serve_file-range header h =
      let (shown, d) = disposition_found name (inline && is_inline_type (mime_of name)) named in
      (
        shown,
        ap (serve_shown false header bytes (mime_of name)) d
            ∙ ap (serve_range false bytes (mime_of name) shown) h,
      )

  abbrev pub Sends : Text → List ℕ → Type 0
  Sends header part =
      (s : Served) × (serve_file false header name bytes inline ≡ served s)
      × (s.status ≡ 206)
      × (s.body ≡ part)
      × (s.content_length ≡ sub_ℕ (length part) 0)

  length-slice :
      (start stop : ℕ)
      → start ≤ stop
      → stop ≤ length bytes
      → length (slice start stop bytes) ≡ stop - start
  length-slice start stop h k =
      omega (arith, length-take (stop - start) (drop start bytes), length-drop start bytes)

  Sends-partial :
      (header : Text) (start stop : ℕ)
      → range_of (length bytes) header ≡ partial start stop
      → start ≤ stop
      → Sends header (slice start stop bytes)
  unfolding serve_range
  Sends-partial header start stop r h =
      let (shown, e) = serve_file-range header r in
      (
        _,
        e,
        refl,
        refl,
        ground (arith, length-slice start stop h (range_of_bounds _ header start stop r).1),
      )

  -- A range whose first byte is in the file, and whose last is not before it, is answered with
  -- 206, with exactly those of its bytes that the file has, and with their number as the length, for
  -- a file whose name can be encoded.
  pub serve_file-from_to :
      (first last : ℕ)
      → first ≤ last
      → first < length bytes
      → Sends (from_to first last) (slice first (min (length bytes) (last + 1)) bytes)
  serve_file-from_to first last h k =
      Sends-partial (from_to first last) first (min (length bytes) (last + 1))
        (range_of-from_to (length bytes) first last ∙ ground arith) (omega arith)

  -- A range that is written backwards, by two or more, with its first byte in the file, is answered
  -- with 206 and a negative length, for a file whose name can be encoded.
  pub serve_file_backwards :
      (first last : ℕ)
      → last + 1 < first
      → first < length bytes
      → (s : Served) × (serve_file false (from_to first last) name bytes inline ≡ served s)
        × (s.status ≡ 206)
        × (s.content_length ≡ negsuc (first - last - 2))
  unfolding serve_range
  serve_file_backwards first last h k =
      let (shown, e) =
        serve_file-range (from_to first last) {r = partial first (min (length bytes) (last + 1))}
          (range_of-from_to (length bytes) first last ∙ ground arith) in
      (_, e, refl, ground arith)
