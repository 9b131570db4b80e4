-- ===== src/Mock/Listing/Paging.antt =====
-- tool/portal_mock_server.js, lines 243-259: a client that follows the cursors.
use vault_box.Base.{
  ℕ, zero, suc, ◌<◌, ◌==◌, ◌≡◌, refl, sym, ap, ◌∙◌, ◌≢◌, subst, arith, inl, inr, Bool, Option, none,
  some, if◌then◌else◌, Bool-cases, append_assoc, append-nil, List, [], ◌∷◌, ◌++◌, Text, keep, take,
  drop, length, All, take-append-drop, length-take, length-drop,
}
use vault_box.Mock.Tree.{Tree, Entry, name_of, children}
use vault_box.Mock.Listing.{
  entry_list, after_cursor, from_cursor, last_name, is_visible, page_names, list_dir,
}

-- No two of the keys have the same last part, and none has an empty one.
abbrev pub HasDistinctNames : List Text → Type 0
HasDistinctNames [] = Unit
HasDistinctNames (n ∷ ns) =
    (name_of n ≢ []) × All (λ m. name_of m ≢ name_of n) ns × HasDistinctNames ns

All-middle :
    (P : Text → Type 0) (xs : List Text) (x : Text) (ys : List Text) → All P (xs ++ x ∷ ys) → P x
All-middle P [] x ys h = h.0
All-middle P (y ∷ xs) x ys h = All-middle P xs x ys h.1

after_cursor-append :
    (xs : List Text) (x : Text) (ys : List Text)
    → HasDistinctNames (xs ++ x ∷ ys)
    → after_cursor (name_of x) (xs ++ x ∷ ys) ≡ ys
unfolding after_cursor
after_cursor-append [] x ys h = ground arith
after_cursor-append (z ∷ xs) x ys h =
    ground
      (arith, after_cursor-append xs x ys h.2, All-middle (λ m. name_of m ≢ name_of z) xs x ys h.1)

name-ne-nil :
    (xs : List Text) (x : Text) (ys : List Text) → HasDistinctNames (xs ++ x ∷ ys) → name_of x ≢ []
name-ne-nil [] x ys h = h.0
name-ne-nil (z ∷ xs) x ys h = name-ne-nil xs x ys h.2

from_cursor_of_name :
    (c : Text) (names : List Text) → c ≢ [] → from_cursor (some c) names ≡ after_cursor c names
from_cursor_of_name [] names h = absurd (h refl)
from_cursor_of_name (d ∷ c) names h = refl

-- The last key of a page that is not empty.
last_of :
    (page : List Text)
    → page ≢ []
    → (xs : List Text) × (x : Text) × (page ≡ xs ++ x ∷ []) × (last_name page ≡ name_of x)
unfolding last_name
last_of [] h = absurd (h refl)
last_of (n ∷ []) h = ([], n, refl, refl)
last_of (n ∷ m ∷ ns) h =
    let (xs, x, e, l) = last_of (m ∷ ns) (λ q. cc) in (n ∷ xs, x, ap (λ t. n ∷ t) e, l)

abbrev append_pages : Option (List Entry) → Option (List Entry) → Option (List Entry)
append_pages none rest = none
append_pages (some es) none = none
append_pages (some es) (some fs) = some (es ++ fs)

entry_list-append :
    (tree : Tree) (ms ns : List Text)
    → entry_list tree (ms ++ ns) ≡ append_pages (entry_list tree ms) (entry_list tree ns)
unfolding entry_list
entry_list-append tree [] ns = ground arith
entry_list-append tree (m ∷ ms) ns = ground (arith, entry_list-append tree ms ns)

keep-append : (p : Text → Bool) (ms ns : List Text) → keep p (ms ++ ns) ≡ keep p ms ++ keep p ns
keep-append p [] ns = refl
keep-append p (m ∷ ms) ns = ground (arith, keep-append p ms ns)

-- What a client collects that asks again with each cursor until there is none. `none` is a throw,
-- or that the fuel ran out.
unfoldable pub walk : ℕ → Tree → Text → ℕ → Option Text → Option (List Entry)
walk zero tree p limit cursor = none
walk (suc f) tree p limit cursor = elim (list_dir tree p limit cursor) [
  | none ↦ none
  | some page ↦ elim page.next [
    | none ↦ some page.entries
    | some c ↦ append_pages (some page.entries) (walk f tree p limit (some c))
  ]
]

abbrev pub listed : Tree → Text → List Text → Option (List Entry)
listed tree p names = entry_list tree (keep (is_visible p) names)

-- One page and the rest of the walk.
abbrev page_then : ℕ → Tree → Text → ℕ → List Text → Option (List Entry)
page_then f tree p limit page =
    if length page == limit
    then append_pages (listed tree p page) (walk f tree p limit (some (last_name page)))
    else listed tree p page

walk-page :
    (f : ℕ) (tree : Tree) (p : Text) (limit : ℕ) (cursor : Option Text)
    → walk (suc f) tree p limit cursor
      ≡ page_then f tree p limit (page_names limit cursor (children tree p))
unfolding walk list_dir
walk-page f tree p limit cursor = ground arith

drop-eq-nil : (n : ℕ) (xs : List Text) → length (take n xs) ≢ n → drop n xs ≡ []
drop-eq-nil zero xs h = absurd (h refl)
drop-eq-nil (suc n) [] h = refl
drop-eq-nil (suc n) (x ∷ xs) h = drop-eq-nil n xs (λ e. h (ap suc e))

take-ne-nil : (n : ℕ) (xs : List Text) → 0 < n → length (take n xs) ≡ n → take n xs ≢ []
take-ne-nil n xs h e q = let l : length (take n xs) ≡ 0 = ap length q in omega arith

-- Where the next page begins, if this one is full.
next-page :
    (limit : ℕ) (before rest : List Text)
    → 0 < limit
    → HasDistinctNames (before ++ rest)
    → length (take limit rest) ≡ limit
    → from_cursor (some (last_name (take limit rest))) (before ++ rest) ≡ drop limit rest
next-page limit before rest pos distinct full =
    let (xs, x, e, l) = last_of (take limit rest) (take-ne-nil limit rest pos full) in
    let whole : before ++ rest ≡ (before ++ xs) ++ x ∷ drop limit rest =
      ap (λ t. before ++ t) (sym (take-append-drop limit rest))
      ∙ ap (λ t. before ++ (t ++ drop limit rest)) e
      ∙ simp append_assoc in
    let distinct' = subst HasDistinctNames whole distinct in
    rw (l, whole)
      (from_cursor_of_name (name_of x) _ (name-ne-nil (before ++ xs) x (drop limit rest) distinct')
        ∙ after_cursor-append (before ++ xs) x (drop limit rest) distinct')

module _ (tree : Tree) (p : Text) (limit : ℕ) (pos : 0 < limit)
    (distinct : HasDistinctNames (children tree p)) where
  pub walk_from :
      (f : ℕ) (cursor : Option Text) (before rest : List Text)
      → children tree p ≡ before ++ rest
      → from_cursor cursor (children tree p) ≡ rest
      → length rest < f
      → walk f tree p limit cursor ≡ listed tree p rest
  walk_from zero cursor before rest whole here enough = absurd (omega arith)
  walk_from (suc f) cursor before rest whole here enough =
      walk-page f tree p limit cursor
      ∙ ap (λ t. page_then f tree p limit (take limit t)) here
      ∙ elim (Bool-cases (length (take limit rest) == limit)) [
        | inl full ↦
            let full' : length (take limit rest) ≡ limit = ground arith in
            let rest' = drop limit rest in
            let whole' : children tree p ≡ (before ++ take limit rest) ++ rest' =
              whole
              ∙ ap (λ t. before ++ t) (sym (take-append-drop limit rest))
              ∙ sym (append_assoc before (take limit rest) rest') in
            let ih =
              walk_from f (some (last_name (take limit rest))) (before ++ take limit rest) rest'
                whole'
                (ap (from_cursor (some (last_name (take limit rest)))) whole
                  ∙ next-page limit before rest pos (subst HasDistinctNames whole distinct) full')
                (omega (arith, length-drop limit rest, length-take limit rest)) in
            rw (full, ih)
              (sym (
                  entry_list-append tree (keep (is_visible p) (take limit rest))
                    (keep (is_visible p) rest'))
                ∙ ap (entry_list tree) (sym (keep-append (is_visible p) (take limit rest) rest'))
                ∙ ap (listed tree p) (take-append-drop limit rest))
        | inr short ↦
            let all : take limit rest ≡ rest =
              sym (append-nil (take limit rest))
              ∙ ap (λ t. take limit rest ++ t) (sym (drop-eq-nil limit rest (ground arith)))
              ∙ take-append-drop limit rest in
            rw short (ap (listed tree p) all)
      ]
