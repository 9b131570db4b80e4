-- ===== src/Mock/Moves/Subtree.antt =====
-- tool/portal_mock_server.js, lines 320-322, 345 and 360-366: the tree behind the loop.
use vault_box.Base.{
  ◌≡◌, sym, ap, ◌∙◌, arith, subst, inl, inr, Bool-cases, Option-cases, Bool, true, false, ◌&&◌,
  Option, none, some, if◌then◌else◌, ◌++◌, Text,
}
use mathlib.Core.Option
use vault_box.Base.Dict
use vault_box.Base.Dict.{one_of-keys}
use vault_box.Mock.Tree.{Tree, Node}
use vault_box.Mock.Tree.Sorting.{keys-IsNodup}
use vault_box.Mock.Moves.{under, relocate}
use vault_box.Mock.Moves.Below.{
  rest_of, append-rest_of, under-append, rest_of-is_tail, rest_of-append,
}
use vault_box.Mock.Moves.Relocate.{IsApart, relocate_kept, relocate_moved, relocate_gone}

-- The key below `p` that stands where `j` stands below `target`.
abbrev pub source_of : Text → Text → Text → Text
source_of p target j = p ++ rest_of target j

-- What a key should hold behind the loop, read off the tree before it: the keys below the source
-- are gone if they are removed, those below the target hold the nodes of their sources, changed,
-- and all others, as well as keys below the target without a source, are as they were.
pub expected : (Node → Node) → Bool → Text → Text → Tree → Text → Option Node
expected change remove p target tree j =
    if remove && under p j
    then none
    else if under target j && Dict.has (source_of p target j) tree
    then Option.map change (Dict.get (source_of p target j) tree)
    else Dict.get j tree

module _ (change : Node → Node) (remove : Bool) (p target : Text) (tree : Tree)
    (distinct : Dict.NodupKeys tree) (apart : IsApart p target) where
  get_gone :
      (j : Text)
      → remove ≡ true
      → under p j ≡ true
      → Dict.get j (relocate change remove p target (Dict.keys tree) tree) ≡ none
  get_gone j r h =
      relocate_gone change remove p target apart j (Dict.keys tree) tree r h
        (elim (Option-cases (Dict.get j tree)) [
          | inl e ↦ inr e
          | inr (n, e) ↦ inl (ground (arith, one_of-keys j tree))
        ])

  get_moved :
      (j : Text) {n : Node}
      → under target j ≡ true
      → Dict.get (source_of p target j) tree ≡ some n
      → Dict.get j (relocate change remove p target (Dict.keys tree) tree) ≡ some (change n)
  get_moved j {n} h e =
      let k = source_of p target j in
      let whole : target ++ rest_of p k ≡ j =
        ap (λ r. target ++ r) (rest_of-append p (rest_of target j))
        ∙ sym (append-rest_of target j h) in
      subst
        (λ i. Dict.get i (relocate change remove p target (Dict.keys tree) tree) ≡ some (change n))
        whole
        (relocate_moved change remove p target apart k (Dict.keys tree) tree
          (keys-IsNodup tree distinct) (ground (arith, one_of-keys k tree))
          (under-append p (rest_of target j) (rest_of-is_tail target j h)) e)

  get_kept :
      (j : Text)
      → (remove && under p j) ≡ false
      → (under target j && Dict.has (source_of p target j) tree) ≡ false
      → Dict.get j (relocate change remove p target (Dict.keys tree) tree) ≡ Dict.get j tree
  get_kept j h f = relocate_kept change remove p target j (Dict.keys tree) tree h λ k m u e.
      let here : under target j ≡ true =
        subst (λ i. under target i ≡ true) (sym e)
          (under-append target (rest_of p k) (rest_of-is_tail p k u)) in
      let same_key : source_of p target j ≡ k =
        ap (λ i. p ++ rest_of target i) e
        ∙ ap (λ r. p ++ r) (rest_of-append target (rest_of p k))
        ∙ sym (append-rest_of p k u) in
      let found : Dict.has (source_of p target j) tree ≡ true =
        ap (λ i. Dict.has i tree) same_key ∙ sym (one_of-keys k tree) ∙ m in
      ground arith

  -- If no key lies under both paths and the keys are distinct, the loop moves or copies exactly the
  -- subtree: behind it each key holds what `expected` reads off the tree before it.
  pub get-relocate :
      (j : Text)
      → Dict.get j (relocate change remove p target (Dict.keys tree) tree)
        ≡ expected change remove p target tree j
  unfolding expected
  get-relocate j = elim (Bool-cases (remove && under p j)) [
    | inl gone ↦ rw gone (get_gone j (ground arith) (ground arith))
    | inr stays ↦ elim (Bool-cases (under target j && Dict.has (source_of p target j) tree)) [
      | inl moved ↦ elim (Option-cases (Dict.get (source_of p target j) tree)) [
        | inl e ↦ ground arith
        | inr (n, e) ↦ rw (stays, moved) (get_moved j (ground arith) e ∙ rw e)
      ]
      | inr kept ↦ rw (stays, kept) (get_kept j stays kept)
    ]
  ]
