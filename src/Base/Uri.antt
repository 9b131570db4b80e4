-- ===== src/Base/Uri.antt =====
-- `encodeURIComponent` and `decodeURIComponent` of the language, on UTF-16 code units.
mod Bytes
pub mod RoundTrip
pub mod Shape
use Prim.Native.Nat.{ℕ, zero, suc, ◌+◌, ◌-◌, ◌*◌, ◌/◌, ◌%◌}
use mathlib.Core.Bool.{Bool, true, false, not, ◌&&◌, ◌||◌}
use mathlib.Core.Option.{Option, none, some}
use mathlib.Core.List.{List, [], ◌∷◌, ◌++◌}
use vault_box.Base.Tests.{ltb, leb, ◌==◌, if◌then◌else◌}
use vault_box.Base.Lists.{any}
use vault_box.Base.Chars.{Text, codes}

abbrev between : ℕ → ℕ → ℕ → Bool
between lo hi c = leb lo c && leb c hi

-- The units that are written as they are.
pub is_unreserved : ℕ → Bool
is_unreserved c =
    between b'A' b'Z' c
    || between b'a' b'z' c
    || between b'0' b'9' c
    || any (λ d. d == c) (codes "-_.!~*'()")

abbrev is_high : ℕ → Bool
is_high = between 0xd800 0xdbff

abbrev is_low : ℕ → Bool
is_low = between 0xdc00 0xdfff

hex_digit : ℕ → ℕ
hex_digit n = if ltb n 10 then b'0' + n else b'A' + (n - 10)

pub percent : ℕ → Text
percent b = b'%' ∷ hex_digit (b / 16) ∷ hex_digit (b % 16) ∷ []

-- The UTF-8 bytes of a code point.
pub utf8 : ℕ → List ℕ
utf8 p =
    if ltb p 0x80
    then p ∷ []
    else if ltb p 0x800
    then (0xc0 + p / 64) ∷ (0x80 + p % 64) ∷ []
    else if ltb p 0x10000
    then (0xe0 + p / 4096) ∷ (0x80 + p / 64 % 64) ∷ (0x80 + p % 64) ∷ []
    else (0xf0 + p / 262144) ∷ (0x80 + p / 4096 % 64) ∷ (0x80 + p / 64 % 64) ∷ (0x80 + p % 64) ∷ []

pub percents : List ℕ → Text
percents [] = []
percents (b ∷ bs) = percent b ++ percents bs

pub pair_point : ℕ → ℕ → ℕ
pair_point c d = (c - 0xd800) * 1024 + (d - 0xdc00) + 0x10000

abbrev prepend : Text → Option Text → Option Text
prepend t none = none
prepend t (some s) = some (t ++ s)

-- `none` is the URIError for half of a surrogate pair.
unfoldable pub encode : Text → Option Text
unfolding is_unreserved percents percent hex_digit utf8 pair_point
encode [] = some []
encode (c ∷ []) =
    if is_unreserved c
    then some (c ∷ [])
    else if is_low c || is_high c
    then none
    else some (percents (utf8 c))
encode (c ∷ d ∷ s) =
    let single = encode (d ∷ s) in
    let double = encode s in
    if is_unreserved c
    then prepend (c ∷ []) single
    else if is_low c
    then none
    else if is_high c
    then (if is_low d then prepend (percents (utf8 (pair_point c d))) double else none)
    else prepend (percents (utf8 c)) single

-- A unit that stands for itself, or a byte that was written with a percent sign.
pub data Item : Type 0 where
  raw : ℕ → Item
  byte : ℕ → Item

hex_value : ℕ → Option ℕ
hex_value c =
    if between b'0' b'9' c
    then some (c - b'0')
    else if between b'A' b'F' c
    then some (c - b'A' + 10)
    else if between b'a' b'f' c
    then some (c - b'a' + 10)
    else none

-- Between two items, behind a percent sign, or behind that and one digit.
pub data Reading : Type 0 where
  plain : Reading
  escape : Reading
  half : ℕ → Reading

abbrev cons_item : Item → Option (List Item) → Option (List Item)
cons_item i none = none
cons_item i (some is) = some (i ∷ is)

pub items : Reading → Text → Option (List Item)
items plain [] = some []
items escape [] = none
items (half h) [] = none
items plain (c ∷ s) =
    let escaped = items escape s in
    let more = items plain s in if c == b'%' then escaped else cons_item (raw c) more
items escape (c ∷ s) = elim (hex_value c) [ none ↦ none | some v ↦ items (half v) s ]
items (half h) (c ∷ s) =
    let more = items plain s in
    elim (hex_value c) [ none ↦ none | some v ↦ cons_item (byte (h * 16 + v)) more ]

-- Between two code points, or inside one: the bytes that are missing, the value so far, and the
-- smallest code point that this length may write.
pub data Pending : Type 0 where
  idle : Pending
  within : (missing value least : ℕ) → Pending

-- The units of a code point; `none` for what UTF-8 does not write.
pub units : ℕ → ℕ → Option Text
units least p =
    if ltb p least || between 0xd800 0xdfff p || ltb 0x10ffff p
    then none
    else if ltb p 0x10000
    then some (p ∷ [])
    else some ((0xd800 + (p - 0x10000) / 1024) ∷ (0xdc00 + (p - 0x10000) % 1024) ∷ [])

abbrev emit : Option Text → Option (Text × Pending)
emit none = none
emit (some t) = some (t, idle)

-- What one item adds, and what is pending behind it; `none` is a URIError.
pub advance : Pending → Item → Option (Text × Pending)
advance idle (raw c) = some (c ∷ [], idle)
advance (within n v l) (raw c) = none
advance idle (byte b) =
    if ltb b 0x80
    then some (b ∷ [], idle)
    else if between 0xc0 0xdf b
    then some ([], within 1 (b - 0xc0) 0x80)
    else if between 0xe0 0xef b
    then some ([], within 2 (b - 0xe0) 0x800)
    else if between 0xf0 0xf7 b
    then some ([], within 3 (b - 0xf0) 0x10000)
    else none
advance (within n v l) (byte b) =
    if not (between 0x80 0xbf b)
    then none
    else if n == 1
    then emit (units l (v * 64 + (b - 0x80)))
    else some ([], within (n - 1) (v * 64 + (b - 0x80)) l)

abbrev at_end : Pending → Option Text
at_end idle = some []
at_end (within n v l) = none

pub points : Pending → List Item → Option Text
points st [] = at_end st
points st (i ∷ is) = elim (advance st i) [ none ↦ none | some (t, st') ↦ prepend t (points st' is) ]

points_of : Option (List Item) → Option Text
points_of none = none
points_of (some is) = points idle is

-- `none` is a URIError.
unfoldable pub decode : Text → Option Text
unfolding items hex_value points points_of advance units
decode s = points_of (items plain s)
