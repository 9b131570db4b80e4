-- ===== src/Mock/Serve.antt =====
-- tool/portal_mock_server.js, lines 171-206: content types, dispositions, and file ranges.
pub mod Ranges
use vault_box.Base.{
  ℕ, ◌+◌, ◌-◌, Bool, true, false, not, ◌&&◌, ◌||◌, Option, none, some, if◌then◌else◌, min, leb,
  ◌==◌, List, [], ◌∷◌, ◌++◌, map, length, take, drop, any, String, Text, codes, same, starts_with,
  to_lower, split, one_of, is_digit, number, non_empty,
}
use vault_box.Base.Dict
use vault_box.Base.Dict.{Dict}
use vault_box.Base.Int.{ℤ, sub_ℕ}
use vault_box.Base.Uri.{encode}

-- What a plain object gives for a key: its own value, or what it inherits from `Object.prototype`.
pub data Property {ℓ} (V : Type ℓ) : Type ℓ where
  own : V → Property V
  inherited : Property V
  missing : Property V

abbrev pub prototype_keys : List Text
prototype_keys =
    codes "constructor"
    ∷ codes "__proto__"
    ∷ codes "hasOwnProperty"
    ∷ codes "isPrototypeOf"
    ∷ codes "propertyIsEnumerable"
    ∷ codes "toLocaleString"
    ∷ codes "toString"
    ∷ codes "valueOf"
    ∷ codes "__defineGetter__"
    ∷ codes "__defineSetter__"
    ∷ codes "__lookupGetter__"
    ∷ codes "__lookupSetter__"
    ∷ []

abbrev property_of {ℓ} : {V : Type ℓ} → Text → Option V → Property V
property_of k (some v) = own v
property_of k none = if one_of k prototype_keys then inherited else missing

-- `object[key]`
unfoldable pub property {ℓ} : {V : Type ℓ} → Text → Dict V → Property V
unfolding Dict.get
property k object = property_of k (Dict.get k object)

last_part : List Text → Text
last_part [] = []
last_part (p ∷ []) = p
last_part (p ∷ q ∷ ps) = last_part (q ∷ ps)

-- A content type, or the function that an extension such as "constructor" finds instead.
pub data Mime : Type 0 where
  mime : Text → Mime
  not_text : Mime

abbrev known_types : Dict Text
known_types =
    (codes "txt", codes "text/plain")
    ∷ (codes "md", codes "text/plain")
    ∷ (codes "png", codes "image/png")
    ∷ (codes "jpg", codes "image/jpeg")
    ∷ (codes "mp4", codes "video/mp4")
    ∷ (codes "mp3", codes "audio/mpeg")
    ∷ (codes "html", codes "text/html")
    ∷ []

abbrev mime_found : Property Text → Mime
mime_found (own t) = mime t
mime_found inherited = not_text
mime_found missing = mime (codes "application/octet-stream")

unfoldable pub mime_of : Text → Mime
unfolding property last_part split to_lower
mime_of name = mime_found (property (to_lower (last_part (split b'.' name))) known_types)

abbrev is_plain : ℕ → Bool
is_plain c =
    (leb b'A' c && leb c b'Z')
    || (leb b'a' c && leb c b'z')
    || (leb b'0' c && leb c b'9')
    || any (λ d. d == c) (codes "._ -")

-- `encodeURIComponent(name).replace(/'/g, "%27")`
quote_free : Text → Text
quote_free [] = []
quote_free (c ∷ s) = (if c == b'\'' then codes "%27" else c ∷ []) ++ quote_free s

disposition_with : Text → Bool → Option Text → Option Text
disposition_with name inline none = none
disposition_with name inline (some encoded) = some (
    (if inline then codes "inline" else codes "attachment")
    ++ (codes "; filename=\""
        ++ (map (λ c. if is_plain c then c else b'_') name
            ++ (codes "\"; filename*=UTF-8''" ++ quote_free encoded))))

-- `none` is the URIError that a name with half a surrogate pair causes.
unfoldable pub disposition : Text → Bool → Option Text
unfolding disposition_with quote_free encode
disposition name inline = disposition_with name inline (encode name)

abbrev is_inline_type : Mime → Bool
is_inline_type not_text = false
is_inline_type (mime t) =
    starts_with t (codes "image/")
    || starts_with t (codes "audio/")
    || starts_with t (codes "video/")
    || same t (codes "text/plain")

-- The digits that a text begins with, and what follows them.
span_digits : Text → Text × Text
span_digits [] = ([], [])
span_digits (c ∷ s) =
    let (ds, rest) = span_digits s in if is_digit c then (c ∷ ds, rest) else ([], c ∷ s)

abbrev is_nil : Text → Bool
is_nil s = not (non_empty s)

after_dash : Text → Text → Option (Text × Text)
after_dash first [] = none
after_dash first (c ∷ s) =
    let (last, rest) = span_digits s in
    if c == b'-' && is_nil rest && (non_empty first || non_empty last)
    then some (first, last)
    else none

-- `/^bytes=(\d*)-(\d*)$/` with at least one of its groups not empty.
parse_range : Text → Option (Text × Text)
parse_range header =
    let (first, rest) = span_digits (drop 6 header) in
    if starts_with header (codes "bytes=") then after_dash first rest else none

-- The bytes to send, from `start` up to but not including `stop`: the source's `end` is `stop - 1`.
pub data Range : Type 0 where
  whole : Range
  partial : (start stop : ℕ) → Range
  unsatisfiable : Range

abbrev checked : ℕ → ℕ → ℕ → Range
checked size start stop = if leb size start then unsatisfiable else partial start stop

range_found : ℕ → Option (Text × Text) → Range
range_found size none = whole
range_found size (some (first, last)) =
    if is_nil first
    then checked size (size - number last) size
    else checked size (number first) (if non_empty last then min size (number last + 1) else size)

unfoldable pub range_of : ℕ → Text → Range
unfolding range_found parse_range after_dash span_digits number starts_with
range_of size header = range_found size (parse_range header)

pub record Served : Type 0 where
  pub status : ℕ
  pub content_type : Mime
  pub content_disposition : Text
  -- `start`, `stop` and the size, from which Content-Range is written.
  pub content_range : Option (ℕ × ℕ × ℕ)
  pub content_length : ℤ
  pub body : List ℕ

-- What `serveFile` sends: a file, the 416 error with the size, or a throw.
pub data Outcome : Type 0 where
  served : Served → Outcome
  out_of_range : ℕ → Outcome
  thrown : Outcome

abbrev slice : ℕ → ℕ → List ℕ → List ℕ
slice start stop bytes = take (stop - start) (drop start bytes)

serve_range : Bool → List ℕ → Mime → Text → Range → Outcome
serve_range head bytes type shown whole = served (record {
  status = 200;
  content_type = type;
  content_disposition = shown;
  content_range = none;
  content_length = sub_ℕ (length bytes) 0;
  body = if head then [] else slice 0 (length bytes) bytes;
})
serve_range head bytes type shown (partial start stop) = served (record {
  status = 206;
  content_type = type;
  content_disposition = shown;
  content_range = some (start, stop, length bytes);
  content_length = sub_ℕ stop start;
  body = if head then [] else slice start stop bytes;
})
serve_range head bytes type shown unsatisfiable = out_of_range (length bytes)

serve_shown : Bool → Text → List ℕ → Mime → Option Text → Outcome
serve_shown head header bytes type none = thrown
serve_shown head header bytes type (some shown) =
    serve_range head bytes type shown (range_of (length bytes) header)

-- `head` says that the method is HEAD; `header` is the Range header, or "".
unfoldable pub serve_file :
    (head : Bool) (header name : Text) (bytes : List ℕ) (inline : Bool) → Outcome
unfolding serve_shown serve_range
serve_file head header name bytes inline =
    let type = mime_of name in
    serve_shown head header bytes type (disposition name (inline && is_inline_type type))
