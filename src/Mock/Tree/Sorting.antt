-- ===== src/Mock/Tree/Sorting.antt =====
-- tool/portal_mock_server.js, lines 166-169: which keys a directory's listing holds.
use vault_box.Base.{
  ◌≡◌, refl, Bool, true, false, ◌&&◌, ◌||◌, arith, All, All-keep, keep, Bool-cases, inl, inr, ◌∙◌,
  List, [], ◌∷◌, Text, same, one_of,
}
use vault_box.Base.Dict
use vault_box.Base.Dict.{one_of-keys}
use vault_box.Mock.Tree.{Tree, insert, sort, children, is_child, text_leb}

one_of-insert : (k x : Text) (ys : List Text) → one_of k (insert x ys) ≡ (same k x || one_of k ys)
unfolding insert
one_of-insert k x [] = refl
one_of-insert k x (y ∷ ys) = ground (arith, one_of-insert k x ys)

one_of-sort : (k : Text) (xs : List Text) → one_of k (sort xs) ≡ one_of k xs
unfolding sort
one_of-sort k [] = refl
one_of-sort k (x ∷ xs) = ground (arith, one_of-insert k x (sort xs), one_of-sort k xs)

one_of-keep :
    (k : Text) (p : Text → Bool) (xs : List Text) → one_of k (keep p xs) ≡ (p k && one_of k xs)
one_of-keep k p [] = ground arith
one_of-keep k p (x ∷ xs) = ground (arith, one_of-keep k p xs)

All-insert : (P : Text → Type 0) (x : Text) (ys : List Text) → P x → All P ys → All P (insert x ys)
unfolding insert
All-insert P x [] p h = (p, tt)
All-insert P x (y ∷ ys) p (q, h) = ground (arith, All-insert P x ys p h)

All-sort : (P : Text → Type 0) (xs : List Text) → All P xs → All P (sort xs)
unfolding sort
All-sort P [] h = tt
All-sort P (x ∷ xs) (p, h) = All-insert P x (sort xs) p (All-sort P xs h)

-- No key stands twice.
abbrev pub IsNodup : List Text → Type 0
IsNodup [] = Unit
IsNodup (x ∷ xs) = (one_of x xs ≡ false) × IsNodup xs

pub keys-IsNodup : (tree : Tree) → Dict.NodupKeys tree → IsNodup (Dict.keys tree)
unfolding Dict.keys
keys-IsNodup [] h = tt
keys-IsNodup ((k, v) ∷ tree) (fresh, h) = (ground (arith, one_of-keys k tree), keys-IsNodup tree h)

keep-IsNodup : (p : Text → Bool) (xs : List Text) → IsNodup xs → IsNodup (keep p xs)
keep-IsNodup p [] h = tt
keep-IsNodup p (x ∷ xs) (fresh, h) = ground (arith, keep-IsNodup p xs h, one_of-keep x p xs)

insert-IsNodup :
    (x : Text) (ys : List Text) → one_of x ys ≡ false → IsNodup ys → IsNodup (insert x ys)
unfolding insert
insert-IsNodup x [] e h = (refl, tt)
insert-IsNodup x (y ∷ ys) e (fresh, h) =
    ground (arith, insert-IsNodup x ys (ground arith) h, one_of-insert y x ys)

sort-IsNodup : (xs : List Text) → IsNodup xs → IsNodup (sort xs)
unfolding sort
sort-IsNodup [] h = tt
sort-IsNodup (x ∷ xs) (fresh, h) =
    insert-IsNodup x (sort xs) (one_of-sort x xs ∙ fresh) (sort-IsNodup xs h)

All-kept :
    (P : Text → Type 0) (p : Text → Bool) (xs : List Text)
    → ((x : Text) → p x ≡ true → P x)
    → All P (keep p xs)
All-kept P p [] h = tt
All-kept P p (x ∷ xs) h = ground (arith, All-kept P p xs h, h x)

pub children-IsNodup : (tree : Tree) (d : Text) → Dict.NodupKeys tree → IsNodup (children tree d)
unfolding children
children-IsNodup tree d h =
    sort-IsNodup (keep (is_child d) (Dict.keys tree))
      (keep-IsNodup (is_child d) (Dict.keys tree) (keys-IsNodup tree h))

-- What follows from the test for children holds of every child.
pub children-All :
    (P : Text → Type 0) (tree : Tree) (d : Text)
    → ((k : Text) → is_child d k ≡ true → P k)
    → All P (children tree d)
unfolding children
children-All P tree d h =
    All-sort P (keep (is_child d) (Dict.keys tree)) (All-kept P (is_child d) (Dict.keys tree) h)

-- So does what holds of every key.
pub children-All-keys :
    (P : Text → Type 0) (tree : Tree) (d : Text) → All P (Dict.keys tree) → All P (children tree d)
unfolding children
children-All-keys P tree d h =
    All-sort P (keep (is_child d) (Dict.keys tree)) (All-keep P (is_child d) (Dict.keys tree) h)

-- The listing is in the order of the code units.
abbrev pub IsSorted : List Text → Type 0
IsSorted [] = Unit
IsSorted (x ∷ xs) = All (λ y. text_leb x y ≡ true) xs × IsSorted xs

text_leb_total : (s t : Text) → text_leb s t ≡ false → text_leb t s ≡ true
unfolding text_leb
text_leb_total [] t h = cc
text_leb_total (c ∷ s) [] h = refl
text_leb_total (c ∷ s) (d ∷ t) h = ground (arith, text_leb_total s t)

text_leb_trans : (s t u : Text) → text_leb s t ≡ true → text_leb t u ≡ true → text_leb s u ≡ true
unfolding text_leb
text_leb_trans [] t u h k = refl
text_leb_trans (c ∷ s) [] u h k = cc
text_leb_trans (c ∷ s) (d ∷ t) [] h k = cc
text_leb_trans (c ∷ s) (d ∷ t) (e ∷ u) h k = ground (arith, text_leb_trans s t u)

All-of_leb :
    (x y : Text) (ys : List Text)
    → text_leb x y ≡ true
    → All (λ z. text_leb y z ≡ true) ys
    → All (λ z. text_leb x z ≡ true) ys
All-of_leb x y [] h k = tt
All-of_leb x y (z ∷ ys) h (k, ks) = (text_leb_trans x y z h k, All-of_leb x y ys h ks)

insert-IsSorted : (x : Text) (ys : List Text) → IsSorted ys → IsSorted (insert x ys)
unfolding insert
insert-IsSorted x [] h = (tt, tt)
insert-IsSorted x (y ∷ ys) (b, h) = elim (Bool-cases (text_leb x y)) [
  | inl le ↦ rw le ((le, All-of_leb x y ys le b), (b, h))
  | inr gt ↦
      rw gt (
        All-insert (λ z. text_leb y z ≡ true) x ys (text_leb_total x y gt) b,
        insert-IsSorted x ys h,
      )
]

sort-IsSorted : (xs : List Text) → IsSorted (sort xs)
unfolding sort
sort-IsSorted [] = tt
sort-IsSorted (x ∷ xs) = insert-IsSorted x (sort xs) (sort-IsSorted xs)

-- A listing is in the order of the code units of its paths.
pub children-IsSorted : (tree : Tree) (d : Text) → IsSorted (children tree d)
unfolding children
children-IsSorted tree d = sort-IsSorted (keep (is_child d) (Dict.keys tree))
