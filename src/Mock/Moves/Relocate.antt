-- ===== src/Mock/Moves/Relocate.antt =====
-- tool/portal_mock_server.js, lines 320-322, 345 and 360-366: the loop that moves a subtree.
use vault_box.Base.{
  ◌≡◌, refl, sym, ap, ◌∙◌, ◌≢◌, ◌⊎◌, arith, inl, inr, Bool-cases, same_iff, Bool, true, false, ◌&&◌,
  Option, none, some, if◌then◌else◌, List, [], ◌∷◌, ◌++◌, length, drop, Text, same, one_of,
  append_cancel_left,
}
use vault_box.Base.Dict
use vault_box.Base.Dict.{get-set, get-delete, one_of-keys}
use vault_box.Mock.Tree.{Tree, Node}
use vault_box.Mock.Tree.Sorting.{IsNodup}
use vault_box.Mock.Moves.{under, relocate, relocate_key}
use vault_box.Mock.Moves.Below.{rest_of, append-rest_of, under-append, rest_of-is_tail}

-- No key lies under both paths.
abbrev pub IsApart : Text → Text → Type 0
IsApart p target = (k : Text) → under target k ≡ true → under p k ≡ false

module _ (change : Node → Node) (remove : Bool) (p target : Text) where
  -- Where the loop puts a key.
  abbrev pub placed : Text → Text
  placed k = target ++ rest_of p k

  under-placed : (k : Text) → under p k ≡ true → under target (placed k) ≡ true
  under-placed k h = under-append target (rest_of p k) (rest_of-is_tail p k h)

  placed_inj : (k l : Text) → under p k ≡ true → under p l ≡ true → placed k ≡ placed l → k ≡ l
  placed_inj k l h m e =
      append-rest_of p k h
      ∙ ap (λ r. p ++ r) (append_cancel_left target (rest_of p k) (rest_of p l) e)
      ∙ sym (append-rest_of p l m)

  -- One round, at any key.
  get-relocate_key :
      (j k : Text) (found : Option Node) (tree : Tree)
      → Dict.get j (relocate_key change remove p target k found tree) ≡ elim found [
        | none ↦ Dict.get j tree
        | some n ↦
            if remove && same j k
            then none
            else if same j (placed k)
            then some (change n)
            else Dict.get j tree
      ]
  unfolding relocate_key rest_of
  get-relocate_key j k none tree = refl
  get-relocate_key j k (some n) tree = ground (
    arith,
    get-set j (target ++ drop (length p) k) (change n) tree,
    get-delete j k (Dict.set (target ++ drop (length p) k) (change n) tree),
  )

  abbrev pub round : Text → Tree → Tree
  round k tree =
      if under p k then relocate_key change remove p target k (Dict.get k tree) tree else tree

  pub get-round :
      (j k : Text) (tree : Tree)
      → Dict.get j (round k tree) ≡ (
          if under p k
          then elim (Dict.get k tree) [
            | none ↦ Dict.get j tree
            | some n ↦
                if remove && same j k
                then none
                else if same j (placed k)
                then some (change n)
                else Dict.get j tree
          ]
          else Dict.get j tree)
  get-round j k tree = ground (arith, get-relocate_key j k (Dict.get k tree) tree)

  -- A key that no round writes or deletes keeps its node.
  pub relocate_kept :
      (j : Text) (ks : List Text) (tree : Tree)
      → (remove && under p j) ≡ false
      → ((k : Text) → one_of k ks ≡ true → under p k ≡ true → j ≢ placed k)
      → Dict.get j (relocate change remove p target ks tree) ≡ Dict.get j tree
  unfolding relocate
  relocate_kept j [] tree h f = refl
  relocate_kept j (k ∷ ks) tree h f =
      relocate_kept j ks (round k tree) h (λ l m. f l (ground arith))
      ∙ ground (arith, get-round j k tree, f k (ground arith))

  module _ (apart : IsApart p target) where
    -- A key that was placed is not touched again, as its source comes only once.
    relocate-placed :
        (k : Text) (ks : List Text) (tree : Tree)
        → under p k ≡ true
        → one_of k ks ≡ false
        → Dict.get (placed k) (relocate change remove p target ks tree) ≡ Dict.get (placed k) tree
    relocate-placed k ks tree h fresh =
        relocate_kept (placed k) ks tree (ground (arith, apart (placed k) (under-placed k h)))
          (λ l m u e. ground (arith, placed_inj k l h u e))

    -- Each key below the path is placed with its node.
    pub relocate_moved :
        (k : Text) (ks : List Text) (tree : Tree) {n : Node}
        → IsNodup ks
        → one_of k ks ≡ true
        → under p k ≡ true
        → Dict.get k tree ≡ some n
        → Dict.get (placed k) (relocate change remove p target ks tree) ≡ some (change n)
    unfolding relocate
    relocate_moved k [] tree d m h e = cc
    relocate_moved k (l ∷ ks) tree (fresh, d) m h e = elim (Bool-cases (same k l)) [
      | inl here ↦
          let q : k ≡ l = (same_iff k l).0 here in
          relocate-placed k ks (round l tree) h (rw q fresh)
          ∙ ground (
            arith,
            get-round (placed k) l tree,
            apart (placed k) (under-placed k h),
            under-placed k h,
          )
      | inr later ↦
          relocate_moved k ks (round l tree) d (ground arith) h
            (ground (arith, get-round k l tree, apart k, under-placed l))
    ]

    pub relocate_gone :
        (k : Text) (ks : List Text) (tree : Tree)
        → remove ≡ true
        → under p k ≡ true
        → (one_of k ks ≡ true) ⊎ (Dict.get k tree ≡ none)
        → Dict.get k (relocate change remove p target ks tree) ≡ none
    unfolding relocate
    relocate_gone k [] tree r h (inl m) = cc
    relocate_gone k [] tree r h (inr e) = e
    relocate_gone k (l ∷ ks) tree r h c =
        relocate_gone k ks (round l tree) r h (elim (Bool-cases (one_of k ks)) [
          | inl later ↦ inl later
          | inr last ↦ inr (ground (arith, get-round k l tree, apart k, under-placed l))
        ])
