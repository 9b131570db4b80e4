-- ===== src/Base/Uri/RoundTrip.antt =====
-- Decoding gives back what was encoded.
use Prim.Native.Nat.{ℕ, ◌<◌}
use mathlib.Core.Path.{◌≡◌, refl, ap, ◌∙◌, sym}
use mathlib.Core.Logic.{◌≢◌, inl, inr}
use mathlib.Core.Bool.{true, false, ◌||◌}
use mathlib.Core.Option.{Option, some, none}
use mathlib.Core.List.{[], ◌∷◌, ◌++◌, append-nil}
use native.Mathlib.Omega.{arith}
use vault_box.Base.Tests.{if◌then◌else◌, Bool-cases, Option-cases}
use vault_box.Base.Lists.{All}
use vault_box.Base.Chars.{Text}
use vault_box.Base.Uri.{
  encode, decode, is_unreserved, is_low, is_high, between, percents, utf8, pair_point, items,
  points_of, units, raw, plain, idle, cons_item, prepend, advance, points_of,
}
use vault_box.Base.Uri.Bytes.{
  utf8-lt, cons_bytes-some, cons_bytes-none, point_step, points-utf8, units_small, items-percents,
  IsScalar, prepend_units,
}

decode-percents :
    (p : ℕ) (e : Text)
    → IsScalar p
    → decode (percents (utf8 p) ++ e) ≡ prepend_units (units 0 p) (decode e)
unfolding decode
decode-percents p e h =
    ap points_of (items-percents (utf8 p) e (utf8-lt p h.0)) ∙ elim (Option-cases (items plain e)) [
      | inl bad ↦ rw (bad, cons_bytes-none (utf8 p)) (ground arith)
      | inr (is, good) ↦ rw (good, cons_bytes-some (utf8 p) is) (points-utf8 p is h)
    ]

percent_reserved : is_unreserved b'%' ≡ false
unfolding is_unreserved
percent_reserved = refl

items_raw : (c : ℕ) (e : Text) → c ≢ b'%' → items plain (c ∷ e) ≡ cons_item (raw c) (items plain e)
unfolding items
items_raw c e h = ground arith

advance_raw : (c : ℕ) → advance idle (raw c) ≡ some (c ∷ [], idle)
unfolding advance
advance_raw c = refl

decode-unreserved :
    (c : ℕ) (e : Text) → is_unreserved c ≡ true → decode (c ∷ e) ≡ prepend (c ∷ []) (decode e)
unfolding decode
decode-unreserved c e h =
    let other : c ≢ b'%' = λ q. cc (sym h ∙ ap is_unreserved q ∙ percent_reserved) in
    ap points_of (items_raw c e other) ∙ elim (Option-cases (items plain e)) [
      | inl bad ↦ rw bad refl
      | inr (is, good) ↦ rw good (point_step idle (raw c) is (advance_raw c))
    ]

units_pair :
    (c d : ℕ) → is_high c ≡ true → is_low d ≡ true → units 0 (pair_point c d) ≡ some (c ∷ d ∷ [])
unfolding units pair_point
units_pair c d h k = ground arith

pair_point-IsScalar : (c d : ℕ) → is_high c ≡ true → is_low d ≡ true → IsScalar (pair_point c d)
unfolding pair_point
pair_point-IsScalar c d h k = ground arith

-- One code unit in front of the rest of a text, or a pair of them.
decode_unit :
    (c : ℕ) (s e : Text)
    → c < 65536
    → between 0xd800 0xdfff c ≡ false
    → decode e ≡ some s
    → decode (percents (utf8 c) ++ e) ≡ some (c ∷ s)
decode_unit c s e h k ih = decode-percents c e (omega arith, k) ∙ rw (units_small c h k, ih)

decode_pair :
    (c d : ℕ) (s e : Text)
    → is_high c ≡ true
    → is_low d ≡ true
    → decode e ≡ some s
    → decode (percents (utf8 (pair_point c d)) ++ e) ≡ some (c ∷ d ∷ s)
decode_pair c d s e h k ih =
    decode-percents (pair_point c d) e (pair_point-IsScalar c d h k) ∙ rw (units_pair c d h k, ih)

decode_one :
    (c : ℕ) (s e : Text)
    → is_unreserved c ≡ true
    → decode e ≡ some s
    → decode (c ∷ e) ≡ some (c ∷ s)
decode_one c s e h ih = decode-unreserved c e h ∙ rw ih

decode_nil : decode [] ≡ some []
unfolding decode
decode_nil = refl

pub encode_single :
    (c : ℕ)
    → encode (c ∷ []) ≡ (
        if is_unreserved c
        then some (c ∷ [])
        else if is_low c || is_high c
        then none
        else some (percents (utf8 c)))
unfolding encode
encode_single c = refl

pub encode_more :
    (c d : ℕ) (s : Text)
    → encode (c ∷ d ∷ s) ≡ (
        if is_unreserved c
        then prepend (c ∷ []) (encode (d ∷ s))
        else if is_low c
        then none
        else if is_high c
        then (if is_low d then prepend (percents (utf8 (pair_point c d))) (encode s) else none)
        else prepend (percents (utf8 c)) (encode (d ∷ s)))
unfolding encode
encode_more c d s = refl

pub prepend-eq-some :
    (t : Text) (r : Option Text) {e : Text}
    → prepend t r ≡ some e
    → (u : Text) × (r ≡ some u) × (e ≡ t ++ u)
prepend-eq-some t none h = cc
prepend-eq-some t (some u) h = (u, refl, ground arith)

pub nil_only : {e : Text} → encode [] ≡ some e → [] ≡ e
unfolding encode
nil_only h = ground arith

decode-encode_one :
    (c : ℕ) {e : Text} → c < 65536 → encode (c ∷ []) ≡ some e → decode e ≡ some (c ∷ [])
decode-encode_one c {e} p h = elim (Bool-cases (is_unreserved c)) [
  | inl bare ↦
      let eq : c ∷ [] ≡ e = ground (arith, encode_single c) in
      rw (← eq) (decode_one c [] [] bare decode_nil)
  | inr coded ↦
      let eq : percents (utf8 c) ++ [] ≡ e =
        append-nil (percents (utf8 c)) ∙ ground (arith, encode_single c) in
      rw (← eq) (decode_unit c [] [] p (ground (arith, encode_single c)) decode_nil)
]

-- A text of UTF-16 units that can be encoded at all is decoded to itself.
pub decode-encode :
    (s : Text) {e : Text} → All (λ c. c < 65536) s → encode s ≡ some e → decode e ≡ some s
decode-encode [] h k = rw (← (nil_only k)) decode_nil
decode-encode (c ∷ []) (p, h) k = decode-encode_one c p k
decode-encode (c ∷ d ∷ s) {e} (p, (q, h)) k = elim (Bool-cases (is_unreserved c)) [
  | inl bare ↦
      let (u, inner, whole) =
        prepend-eq-some (c ∷ []) (encode (d ∷ s)) {e = e} (ground (arith, encode_more c d s)) in
      rw whole (decode_one c (d ∷ s) u bare (decode-encode (d ∷ s) (q, h) inner))
  | inr coded ↦ elim (Bool-cases (is_high c)) [
    | inl high ↦
        let low : is_low d ≡ true = ground (arith, encode_more c d s) in
        let (u, inner, whole) =
          prepend-eq-some (percents (utf8 (pair_point c d))) (encode s) {e = e}
            (ground (arith, encode_more c d s)) in
        rw whole (decode_pair c d s u high low (decode-encode s h inner))
    | inr single ↦
        let (u, inner, whole) =
          prepend-eq-some (percents (utf8 c)) (encode (d ∷ s)) {e = e}
            (ground (arith, encode_more c d s)) in
        rw whole (
          decode_unit c (d ∷ s) u p (ground (arith, encode_more c d s))
            (decode-encode (d ∷ s) (q, h) inner))
  ]
]
