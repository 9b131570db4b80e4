-- ===== src/Mock/Tree/Names.antt =====
-- tool/portal_mock_server.js, lines 157-158: parent and name of a key.
use vault_box.Base.{
  suc, ◌≡◌, refl, ◌≢◌, ap, arith, IsFree, Text, length, take, drop, ℕ, ◌∙◌, last_index_of, none,
  last_index_of-eq-none, Option-cases, some, inl, inr, subst, sym, [], ◌∷◌, ◌++◌,
  last_index_of-append,
}
use vault_box.Mock.Tree.{parent_of, name_of, slash}

drop_past : (d n : Text) → drop (suc (length d)) (d ++ b'/' ∷ n) ≡ n
drop_past [] n = refl
drop_past (c ∷ d) n = drop_past d n

take_before : (d r : Text) → take (length d) (d ++ r) ≡ d
take_before [] r = refl
take_before (c ∷ d) r = ap (λ l. c ∷ l) (take_before d r)

pub name_of-append : (d n : Text) → IsFree b'/' n → name_of (d ++ b'/' ∷ n) ≡ n
unfolding name_of
name_of-append d n h = rw (last_index_of-append b'/' d n h) (drop_past d n)

pub parent_of-append : (d n : Text) → IsFree b'/' n → d ≢ [] → parent_of (d ++ b'/' ∷ n) ≡ d
unfolding parent_of
parent_of-append [] n h p = absurd (p refl)
parent_of-append (c ∷ d) n h p =
    rw (last_index_of-append b'/' (c ∷ d) n h) (ground (arith, take_before (c ∷ d) (b'/' ∷ n)))

pub parent_of-top : (n : Text) → IsFree b'/' n → parent_of (b'/' ∷ n) ≡ slash
unfolding parent_of
parent_of-top n h = rw (last_index_of-append b'/' [] n h) refl

last_index_of-slash : (a r : Text) → last_index_of b'/' (a ++ b'/' ∷ r) ≢ none
unfolding last_index_of
last_index_of-slash [] r e = ground arith
last_index_of-slash (c ∷ a) r e = ground (arith, last_index_of-slash a r)

name_of-cons : (c : ℕ) (s : Text) → last_index_of b'/' s ≢ none → name_of (c ∷ s) ≡ name_of s
unfolding name_of
name_of-cons c s h = ground arith

-- The name of a key depends only on what follows a slash.
pub name_of-slash : (a r : Text) → name_of (a ++ b'/' ∷ r) ≡ name_of (b'/' ∷ r)
name_of-slash [] r = refl
name_of-slash (c ∷ a) r =
    name_of-cons c (a ++ b'/' ∷ r) (last_index_of-slash a r) ∙ name_of-slash a r

append-ne-nil : (a b : Text) → b ≢ [] → a ++ b ≢ []
append-ne-nil [] b h = h
append-ne-nil (c ∷ a) b h = λ e. cc

no_slash-IsFree : (s : Text) → last_index_of b'/' s ≡ none → IsFree b'/' s
unfolding last_index_of
no_slash-IsFree [] e = tt
no_slash-IsFree (c ∷ s) e = elim (Option-cases (last_index_of b'/' s)) [
  | inl q ↦ ((λ p. ground arith), no_slash-IsFree s q)
  | inr (i, q) ↦ ground arith
]

after_slash-IsFree :
    (s : Text) (i : ℕ) → last_index_of b'/' s ≡ some i → IsFree b'/' (drop (suc i) s)
unfolding last_index_of
after_slash-IsFree [] i e = ground arith
after_slash-IsFree (c ∷ s) i e = elim (Option-cases (last_index_of b'/' s)) [
  | inl q ↦
      let z : i ≡ 0 = ground arith in
      subst (λ k. IsFree b'/' (drop (suc k) (c ∷ s))) (sym z) (no_slash-IsFree s q)
  | inr (k, q) ↦
      let z : i ≡ suc k = ground arith in
      subst (λ k. IsFree b'/' (drop (suc k) (c ∷ s))) (sym z) (after_slash-IsFree s k q)
]

-- A name holds no slash.
pub name_of-IsFree : (p : Text) → IsFree b'/' (name_of p)
unfolding name_of
name_of-IsFree p = elim (Option-cases (last_index_of b'/' p)) [
  | inl q ↦ rw q (no_slash-IsFree p q)
  | inr (i, q) ↦ rw q (after_slash-IsFree p i q)
]

-- What ends in a text without a slash has a name.
pub name_of-append_free : (a b : Text) → IsFree b'/' b → b ≢ [] → name_of (a ++ b) ≢ []
unfolding name_of last_index_of
name_of-append_free [] b h n = rw (last_index_of-eq-none b'/' b h) n
name_of-append_free (c ∷ a) b h n = elim (Option-cases (last_index_of b'/' (a ++ b))) [
  | inl q ↦ ground (arith, append-ne-nil a b n)
  | inr (i, q) ↦ ground (arith, name_of-append_free a b h n)
]
