-- ===== src/Mock/Moves/Below.antt =====
-- tool/portal_mock_server.js, lines 321, 345 and 361: the keys that lie under a path.
use vault_box.Base.{
  ◌≡◌, refl, sym, ap, ◌∙◌, arith, inl, inr, Bool-cases, same_iff, Bool, true, ◌==◌, append-nil,
  append_assoc, [], ◌∷◌, ◌++◌, length, drop, drop-append, Text, same, starts_with-append,
  append-drop_of_starts_with,
}
use vault_box.Mock.Tree.{slash}
use vault_box.Mock.Moves.{under}

-- What may follow a path in the keys below it.
abbrev pub is_tail : Text → Bool
is_tail [] = true
is_tail (c ∷ r) = c == b'/'

unfoldable pub rest_of : Text → Text → Text
rest_of p k = drop (length p) k

pub append-rest_of : (p k : Text) → under p k ≡ true → k ≡ p ++ rest_of p k
unfolding rest_of
append-rest_of p k h = elim (Bool-cases (same k p)) [
  | inl e ↦
      let q : k ≡ p = (same_iff k p).0 e in
      q
      ∙ sym (append-nil p)
      ∙ ap (λ r. p ++ r) (sym (ap (drop (length p)) (q ∙ sym (append-nil p)) ∙ drop-append p []))
  | inr n ↦
      let s : k ≡ (p ++ slash) ++ drop (length (p ++ slash)) k =
        append-drop_of_starts_with k (p ++ slash) (ground arith) in
      let w = s ∙ append_assoc p slash (drop (length (p ++ slash)) k) in
      w ∙ ap (λ r. p ++ r) (sym (ap (drop (length p)) w ∙ drop-append p _))
]

pub under-append : (p r : Text) → is_tail r ≡ true → under p (p ++ r) ≡ true
under-append p [] h = rw append-nil (ground arith)
under-append p (c ∷ r) h =
    let e : c ≡ b'/' = ground arith in
    rw (e, ← append_assoc p slash r) (ground (arith, starts_with-append (p ++ slash) r))

pub rest_of-is_tail : (p k : Text) → under p k ≡ true → is_tail (rest_of p k) ≡ true
unfolding rest_of
rest_of-is_tail p k h = elim (Bool-cases (same k p)) [
  | inl e ↦
      let q : drop (length p) k ≡ [] =
        ap (drop (length p)) ((same_iff k p).0 e ∙ sym (append-nil p)) ∙ drop-append p [] in
      rw q refl
  | inr n ↦
      let s : k ≡ (p ++ slash) ++ drop (length (p ++ slash)) k =
        append-drop_of_starts_with k (p ++ slash) (ground arith) in
      let w = s ∙ append_assoc p slash (drop (length (p ++ slash)) k) in
      let q = ap (drop (length p)) w ∙ drop-append p _ in rw q refl
]

pub rest_of-append : (p r : Text) → rest_of p (p ++ r) ≡ r
unfolding rest_of
rest_of-append p r = drop-append p r
