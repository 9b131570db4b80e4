-- ===== src/Base/Uri/Bytes.antt =====
-- Percent signs and UTF-8: one code point at a time.
use Prim.Native.Nat.{ℕ, ◌+◌, ◌-◌, ◌*◌, ◌/◌, ◌%◌, ◌<◌, ◌≤◌}
use mathlib.Core.Path.{◌≡◌, refl, ap, ◌∙◌}
use mathlib.Core.Bool.{false}
use mathlib.Core.Option.{Option, some, none}
use mathlib.Core.List.{List, [], ◌∷◌, ◌++◌, map, append_assoc}
use native.Mathlib.Omega.{arith}
use native.Mathlib.Decide.{dec_lt}
use vault_box.Base.Lists.{All}
use vault_box.Base.Chars.{Text}
use vault_box.Base.Uri.{
  between, hex_digit, hex_value, percent, percents, utf8, items, points, units, Item, byte, plain,
  escape, half, Pending, idle, within, cons_item, prepend, advance, emit,
}

hex_value-hex_digit : (n : ℕ) → n < 16 → hex_value (hex_digit n) ≡ some n
unfolding hex_value hex_digit
hex_value-hex_digit n h = ground arith

pub cons_bytes : List ℕ → Option (List Item) → Option (List Item)
cons_bytes [] r = r
cons_bytes (b ∷ bs) r = cons_item (byte b) (cons_bytes bs r)

escape_step : (c v : ℕ) (s : Text) → hex_value c ≡ some v → items escape (c ∷ s) ≡ items (half v) s
unfolding items
escape_step c v s e = ground arith

half_step :
    (h c v : ℕ) (s : Text)
    → hex_value c ≡ some v
    → items (half h) (c ∷ s) ≡ cons_item (byte (h * 16 + v)) (items plain s)
unfolding items
half_step h c v s e = ground arith

items-percent :
    (b : ℕ) (s : Text) → b < 256 → items plain (percent b ++ s) ≡ cons_item (byte b) (items plain s)
unfolding items percent
items-percent b s h =
    escape_step (hex_digit (b / 16)) (b / 16) (hex_digit (b % 16) ∷ s)
      (hex_value-hex_digit (b / 16) (omega arith))
    ∙ half_step (b / 16) (hex_digit (b % 16)) (b % 16) s
        (hex_value-hex_digit (b % 16) (omega arith))
    ∙ ap (λ n. cons_item (byte n) (items plain s)) (omega arith)

pub items-percents :
    (bs : List ℕ) (s : Text)
    → All (λ b. b < 256) bs
    → items plain (percents bs ++ s) ≡ cons_bytes bs (items plain s)
unfolding percents cons_bytes
items-percents [] s h = refl
items-percents (b ∷ bs) s (p, h) =
    ap (items plain) (append_assoc (percent b) (percents bs) s)
    ∙ items-percent b (percents bs ++ s) p
    ∙ ap (cons_item (byte b)) (items-percents bs s h)

abbrev pub IsScalar : ℕ → Type 0
IsScalar p = (p < 0x110000) × (between 0xd800 0xdfff p ≡ false)

pub utf8-lt : (p : ℕ) → p < 0x110000 → All (λ b. b < 256) (utf8 p)
unfolding utf8
utf8-lt p h = ground arith

pub cons_bytes-some :
    (bs : List ℕ) (is : List Item) → cons_bytes bs (some is) ≡ some (map byte bs ++ is)
unfolding cons_bytes
cons_bytes-some [] is = refl
cons_bytes-some (b ∷ bs) is = rw (cons_bytes-some bs is)

pub cons_bytes-none : (bs : List ℕ) → cons_bytes bs none ≡ none
unfolding cons_bytes
cons_bytes-none [] = refl
cons_bytes-none (b ∷ bs) = rw (cons_bytes-none bs)

-- One item, by what it adds and leaves pending.
pub point_step :
    (st : Pending) (i : Item) (is : List Item) {t : Text} {st' : Pending}
    → advance st i ≡ some (t, st')
    → points st (i ∷ is) ≡ prepend t (points st' is)
unfolding points
point_step st i is e = rw (e, points)

prepend-nil : (r : Option Text) → prepend [] r ≡ r
prepend-nil none = refl
prepend-nil (some t) = refl

silent_step :
    (st : Pending) (i : Item) (is : List Item) {st' : Pending}
    → advance st i ≡ some ([], st')
    → points st (i ∷ is) ≡ points st' is
silent_step st i is {st'} e = point_step st i is e ∙ prepend-nil (points st' is)

one_step : (b : ℕ) → b < 0x80 → advance idle (byte b) ≡ some (b ∷ [], idle)
unfolding advance
one_step b h = ground arith

two_step : (b : ℕ) → b < 32 → advance idle (byte (0xc0 + b)) ≡ some ([], within 1 b 0x80)
unfolding advance
two_step b h = ground arith

three_step : (b : ℕ) → b < 16 → advance idle (byte (0xe0 + b)) ≡ some ([], within 2 b 0x800)
unfolding advance
three_step b h = ground arith

four_step : (b : ℕ) → b < 8 → advance idle (byte (0xf0 + b)) ≡ some ([], within 3 b 0x10000)
unfolding advance
four_step b h = ground arith

more_step :
    (n v l b : ℕ)
    → b < 64
    → advance (within (n + 2) v l) (byte (0x80 + b)) ≡ some ([], within (n + 1) (v * 64 + b) l)
unfolding advance
more_step n v l b h = ground arith

abbrev pub prepend_units : Option Text → Option Text → Option Text
prepend_units none rest = none
prepend_units (some t) rest = prepend t rest

advance_last :
    (v l b p : ℕ)
    → b < 64
    → v * 64 + b ≡ p
    → advance (within 1 v l) (byte (0x80 + b)) ≡ emit (units l p)
unfolding advance
advance_last v l b p h e =
    let k : v * 64 + (0x80 + b - 0x80) ≡ p = omega arith in rw k (ground arith)

points-emit :
    (st : Pending) (i : Item) (is : List Item) (u : Option Text)
    → advance st i ≡ emit u
    → points st (i ∷ is) ≡ prepend_units u (points idle is)
unfolding points
points-emit st i is none e = rw (e, points)
points-emit st i is (some t) e = rw (e, points)

last_step :
    (v l b p : ℕ) (is : List Item)
    → b < 64
    → v * 64 + b ≡ p
    → points (within 1 v l) (byte (0x80 + b) ∷ is) ≡ prepend_units (units l p) (points idle is)
last_step v l b p is h e =
    points-emit (within 1 v l) (byte (0x80 + b)) is (units l p) (advance_last v l b p h e)

units-least : (l p : ℕ) → l ≤ p → units l p ≡ units 0 p
unfolding units
units-least l p h = ground arith

utf8_one : (p : ℕ) → p < 0x80 → utf8 p ≡ p ∷ []
unfolding utf8
utf8_one p h = ground arith

utf8_two : (p : ℕ) → 0x80 ≤ p → p < 0x800 → utf8 p ≡ (0xc0 + p / 64) ∷ (0x80 + p % 64) ∷ []
unfolding utf8
utf8_two p h k = ground arith

utf8_three :
    (p : ℕ)
    → 0x800 ≤ p
    → p < 0x10000
    → utf8 p ≡ (0xe0 + p / 4096) ∷ (0x80 + p / 64 % 64) ∷ (0x80 + p % 64) ∷ []
unfolding utf8
utf8_three p h k = ground arith

utf8_four :
    (p : ℕ)
    → 0x10000 ≤ p
    → utf8 p
      ≡ (0xf0 + p / 262144) ∷ (0x80 + p / 4096 % 64) ∷ (0x80 + p / 64 % 64) ∷ (0x80 + p % 64) ∷ []
unfolding utf8
utf8_four p h = ground arith

pub units_small :
    (p : ℕ) → p < 0x10000 → between 0xd800 0xdfff p ≡ false → units 0 p ≡ some (p ∷ [])
unfolding units
units_small p h k = ground arith

-- The reader of code points takes the bytes of a code point apart again.
pub points-utf8 :
    (p : ℕ) (is : List Item)
    → IsScalar p
    → points idle (map byte (utf8 p) ++ is) ≡ prepend_units (units 0 p) (points idle is)
points-utf8 p is h = elim (dec_lt p 0x80) [
  | yes a ↦
      rw (utf8_one p a, units_small p (omega arith) h.1)
        (point_step idle (byte p) is (one_step p a))
  | no a ↦ elim (dec_lt p 0x800) [
    | yes b ↦
        rw (utf8_two p (omega arith) b, ← units-least 0x80 p (omega arith))
          (silent_step idle _ _ (two_step (p / 64) (omega arith))
            ∙ last_step (p / 64) 0x80 (p % 64) p is (omega arith) (omega arith))
    | no b ↦ elim (dec_lt p 0x10000) [
      | yes c ↦
          rw (utf8_three p (omega arith) c, ← units-least 0x800 p (omega arith))
            (silent_step idle _ _ (three_step (p / 4096) (omega arith))
              ∙ silent_step _ _ _ (more_step 0 (p / 4096) 0x800 (p / 64 % 64) (omega arith))
              ∙ last_step (p / 4096 * 64 + p / 64 % 64) 0x800 (p % 64) p is (omega arith)
                  (omega arith))
      | no c ↦
          rw (utf8_four p (omega arith), ← units-least 0x10000 p (omega arith))
            (silent_step idle _ _ (four_step (p / 262144) (omega arith))
              ∙ silent_step _ _ _ (more_step 1 (p / 262144) 0x10000 (p / 4096 % 64) (omega arith))
              ∙ silent_step _ _ _ (
                  more_step 0 (p / 262144 * 64 + p / 4096 % 64) 0x10000 (p / 64 % 64) (omega arith))
              ∙ last_step ((p / 262144 * 64 + p / 4096 % 64) * 64 + p / 64 % 64) 0x10000 (p % 64) p
                  is (omega arith) (omega arith))
    ]
  ]
]
