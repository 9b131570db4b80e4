-- ===== src/Base/Uri/Shape.antt =====
-- What `encodeURIComponent` never writes.
use vault_box.Base.{
  ◌≡◌, ◌≢◌, refl, arith, ℕ, true, Option, some, List, [], ◌∷◌, ◌++◌, Text, IsFree, All-append,
  non_empty,
}
use vault_box.Base.Uri.{
  is_unreserved, hex_digit, percent, percents, utf8, pair_point, encode, prepend,
}
use vault_box.Base.Uri.RoundTrip.{encode_single, encode_more, prepend-eq-some, nil_only}

percents-IsFree : (bs : List ℕ) → IsFree b'/' (percents bs)
unfolding percents percent hex_digit
percents-IsFree [] = tt
percents-IsFree (b ∷ bs) = ground (arith, percents-IsFree bs)

unreserved_not_slash : (c : ℕ) → is_unreserved c ≡ true → c ≢ b'/'
unfolding is_unreserved
unreserved_not_slash c h = ground (arith, h)

prepend-IsFree :
    (t : Text) (r : Option Text) {e : Text}
    → IsFree b'/' t
    → ((u : Text) → r ≡ some u → IsFree b'/' u)
    → prepend t r ≡ some e
    → IsFree b'/' e
prepend-IsFree t r h k p =
    let (u, q, w) = prepend-eq-some t r p in rw w (All-append (λ d. d ≢ b'/') t u h (k u q))

encode_more-IsFree :
    (c d : ℕ) (s : Text) {e : Text}
    → ((u : Text) → encode (d ∷ s) ≡ some u → IsFree b'/' u)
    → ((u : Text) → encode s ≡ some u → IsFree b'/' u)
    → encode (c ∷ d ∷ s) ≡ some e
    → IsFree b'/' e
encode_more-IsFree c d s {e} single double h = ground (
  arith,
  h,
  encode_more c d s,
  λ (u : is_unreserved c ≡ true).
      prepend-IsFree (c ∷ []) (encode (d ∷ s)) {e = e} (unreserved_not_slash c u, tt) single,
  prepend-IsFree (percents (utf8 (pair_point c d))) (encode s) {e = e}
      (percents-IsFree (utf8 (pair_point c d))) double,
  prepend-IsFree (percents (utf8 c)) (encode (d ∷ s)) {e = e} (percents-IsFree (utf8 c)) single,
)

-- No separator is in an encoded text.
pub encode-IsFree : (s : Text) {e : Text} → encode s ≡ some e → IsFree b'/' e
encode-IsFree [] h = rw (← (nil_only h)) tt
encode-IsFree (c ∷ []) h =
    ground (arith, h, encode_single c, unreserved_not_slash c, percents-IsFree (utf8 c))
encode-IsFree (c ∷ d ∷ s) h =
    encode_more-IsFree c d s (λ u q. encode-IsFree (d ∷ s) q) (λ u q. encode-IsFree s q) h

append-non_empty : (t u : Text) → non_empty t ≡ true → non_empty (t ++ u) ≡ true
append-non_empty [] u h = ground (arith, h)
append-non_empty (c ∷ t) u h = refl

percents-non_empty : (p : ℕ) → non_empty (percents (utf8 p)) ≡ true
unfolding percents percent utf8
percents-non_empty p = ground arith

prepend-non_empty :
    (t : Text) (r : Option Text) {e : Text}
    → non_empty t ≡ true
    → prepend t r ≡ some e
    → non_empty e ≡ true
prepend-non_empty t r h p = let (u, q, w) = prepend-eq-some t r p in rw w (append-non_empty t u h)

-- A text that is not empty is not encoded as the empty one.
pub encode-non_empty :
    (s : Text) {e : Text} → non_empty s ≡ true → encode s ≡ some e → non_empty e ≡ true
encode-non_empty [] n h = ground (arith, n)
encode-non_empty (c ∷ []) n h = ground (arith, h, encode_single c, percents-non_empty c)
encode-non_empty (c ∷ d ∷ s) {e} n h = ground (
  arith,
  h,
  encode_more c d s,
  prepend-non_empty (c ∷ []) (encode (d ∷ s)) {e = e} refl,
  prepend-non_empty (percents (utf8 (pair_point c d))) (encode s) {e = e}
      (percents-non_empty (pair_point c d)),
  prepend-non_empty (percents (utf8 c)) (encode (d ∷ s)) {e = e} (percents-non_empty c),
)
