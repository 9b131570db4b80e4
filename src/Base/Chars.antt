-- ===== src/Base/Chars.antt =====
-- JavaScript strings as lists of UTF-16 code units, with the methods that the program calls.
pub mod Laws
pub mod Splitting
pub mod Decimals
use Prim.Native.Nat.{ℕ, zero, suc, ◌+◌, ◌-◌, ◌*◌, ◌/◌, ◌%◌}
use Prim.Native.Char.{code}
use Prim.Native.String.{String}
use mathlib.Core.Path.{◌≡◌, refl, ap, ap₂}
use mathlib.Core.Logic.{◌↔◌, ite, ◌≢◌}
use mathlib.Core.Bool.{Bool, true, false, not, ◌&&◌, ◌||◌}
use mathlib.Core.Option.{Option, none, some}
use mathlib.Core.List.{List, [], ◌∷◌, ◌++◌, map, reverse}
use native.Mathlib.Omega.{arith}
use native.Mathlib.Decide.{ℕ_discrete}
use vault_box.Base.Tests.{ltb, leb, ◌==◌, if◌then◌else◌}
use vault_box.Base.Lists.{take, drop, keep, any, All}

abbrev pub Text : Type 0
Text = List ℕ

-- The code units of a literal: its characters, which are ASCII in every literal of the program.
abbrev pub codes : String → Text
codes String.[] = []
codes (String.◌∷◌ c s) = code c ∷ codes s

abbrev head_or : Text → ℕ
head_or [] = 0
head_or (c ∷ s) = c

abbrev tail_of : Text → Text
tail_of [] = []
tail_of (c ∷ s) = s

unfoldable pub text_dec : Discrete Text
unfolding ℕ_discrete
text_dec [] [] = yes refl
text_dec [] (d ∷ t) = no (λ p. cc)
text_dec (c ∷ s) [] = no (λ p. cc)
text_dec (c ∷ s) (d ∷ t) = elim (ℕ_discrete c d) [
  | yes p ↦ elim (text_dec s t) [
    | yes q ↦ yes (ap₂ (λ x y. x ∷ y) p q)
    | no q ↦ no (λ r. q (ap tail_of r))
  ]
  | no p ↦ no (λ r. p (ap head_or r))
]

-- `s === t`
abbrev pub same : Text → Text → Bool
same s t = ite (text_dec s t) true false

pub same_iff : (s t : Text) → (same s t ≡ true) ↔ (s ≡ t)
same_iff s t = ground arith

-- `list.includes(s)` and `list.indexOf(s) !== -1`
abbrev pub one_of : Text → List Text → Bool
one_of s = any (same s)

abbrev pub non_empty : Text → Bool
non_empty [] = false
non_empty (c ∷ s) = true

-- `s.includes(c)`, or `s.indexOf(c) !== -1`, for one code unit
abbrev pub has_char : ℕ → Text → Bool
has_char c = any (λ d. d == c)

-- A text without the code unit `c`.
abbrev pub IsFree : ℕ → Text → Type 0
IsFree c = All (λ d. d ≢ c)

-- `s.startsWith(t)`, or `s.indexOf(t) === 0`
unfoldable pub starts_with : Text → Text → Bool
starts_with s [] = true
starts_with [] (d ∷ t) = false
starts_with (c ∷ s) (d ∷ t) = c == d && starts_with s t

push_head : ℕ → List Text → List Text
push_head d [] = (d ∷ []) ∷ []
push_head d (p ∷ ps) = (d ∷ p) ∷ ps

-- `s.split(c)`, for one code unit
unfoldable pub split : ℕ → Text → List Text
unfolding push_head
split c [] = [] ∷ []
split c (d ∷ s) = let rest = split c s in if d == c then [] ∷ rest else push_head d rest

-- `s.split("/").filter(Boolean)`
unfoldable pub segments : Text → List Text
unfolding split
segments s = keep non_empty (split b'/' s)

-- `parts.join("/")`
unfoldable pub join : List Text → Text
join [] = []
join (p ∷ []) = p
join (p ∷ q ∷ ps) = p ++ b'/' ∷ join (q ∷ ps)

after_first : ℕ → ℕ → Option ℕ → Option ℕ
after_first c d none = if d == c then some 0 else none
after_first c d (some i) = some (suc i)

-- `s.lastIndexOf(c)`, with `none` for -1
unfoldable pub last_index_of : ℕ → Text → Option ℕ
unfolding after_first
last_index_of c [] = none
last_index_of c (d ∷ s) = after_first c d (last_index_of c s)

-- `s.indexOf(c)`, with `none` for -1
unfoldable pub index_of : ℕ → Text → Option ℕ
index_of c [] = none
index_of c (d ∷ s) =
    let rest = index_of c s in
    if d == c then some 0 else elim rest [ none ↦ none | some i ↦ some (suc i) ]

-- `s.toLowerCase()` on ASCII. The program compares the result with ASCII texts only, and no other
-- code unit has a lower case that is a letter of those texts.
unfoldable pub to_lower : Text → Text
to_lower = map (λ c. if leb b'A' c && leb c b'Z' then c + 32 else c)

-- The white space and line ends that `trim` removes.
is_space : ℕ → Bool
is_space c =
    (leb 9 c && leb c 13)
    || c == 32
    || c == 160
    || c == 0x1680
    || (leb 0x2000 c && leb c 0x200a)
    || c == 0x2028
    || c == 0x2029
    || c == 0x202f
    || c == 0x205f
    || c == 0x3000
    || c == 0xfeff

trim_start : Text → Text
trim_start [] = []
trim_start (c ∷ s) = let rest = trim_start s in if is_space c then rest else c ∷ s

unfoldable pub trim : Text → Text
unfolding trim_start is_space
trim s = reverse (trim_start (reverse (trim_start s)))

decimal_fuel : ℕ → ℕ → Text
decimal_fuel zero n = []
decimal_fuel (suc f) n =
    let more = decimal_fuel f (n / 10) ++ (b'0' + n % 10) ∷ [] in
    if ltb n 10 then (b'0' + n) ∷ [] else more

-- `String(n)`
unfoldable pub decimal : ℕ → Text
unfolding decimal_fuel
decimal n = decimal_fuel (suc n) n

number_from : ℕ → Text → ℕ
number_from acc [] = acc
number_from acc (c ∷ s) = number_from (acc * 10 + (c - b'0')) s

abbrev pub is_digit : ℕ → Bool
is_digit c = leb b'0' c && leb c b'9'

-- `Number(s)` for a run of digits
unfoldable pub number : Text → ℕ
unfolding number_from
number s = number_from 0 s
