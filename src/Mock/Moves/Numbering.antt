-- ===== src/Mock/Moves/Numbering.antt =====
-- tool/portal_mock_server.js, lines 103 and 354-357: the search for a free numbered name ends.
use vault_box.Base.{
  ℕ, zero, suc, ◌+◌, ◌<◌, ◌≤◌, ◌≡◌, refl, ◌≢◌, arith, inl, inr, Bool-cases, ℕ_discrete, true, false,
  [], ◌∷◌, length, Text, codes, decimal, decimal_inj, decimal-IsDigits, IsDigits-IsFree,
  append_cancel_left, append_inj_of_IsFree,
}
use vault_box.Base.Dict
use vault_box.Base.Dict.{get-delete}
use vault_box.Mock.Tree.{Tree}
use vault_box.Mock.Moves.{free_index, numbered}

abbrev pub IsInjective : (ℕ → Text) → Type 0
IsInjective name = (i j : ℕ) → name i ≡ name j → i ≡ j

-- Different numbers give different names.
pub numbered-IsInjective : (stem ext : Text) → IsInjective (numbered stem ext)
numbered-IsInjective stem ext i j e = decimal_inj i j (
    append_inj_of_IsFree b')' (decimal i) (decimal j) ext ext
      (IsDigits-IsFree b')' (decimal i) (λ h. cc) (decimal-IsDigits i))
      (IsDigits-IsFree b')' (decimal j) (λ h. cc) (decimal-IsDigits j))
      (append_cancel_left (codes " (") _ _ (append_cancel_left stem _ _ e)))

length-delete-le : (k : Text) (tree : Tree) → length (Dict.delete k tree) ≤ length tree
unfolding Dict.delete
length-delete-le k [] = omega arith
length-delete-le k ((j, n) ∷ tree) = ground (arith, length-delete-le k tree)

length-delete-lt :
    (k : Text) (tree : Tree) → Dict.has k tree ≡ true → length (Dict.delete k tree) < length tree
unfolding Dict.delete Dict.get
length-delete-lt k [] h = cc
length-delete-lt k ((j, n) ∷ tree) h =
    ground (arith, length-delete-lt k tree, length-delete-le k tree)

length-pos : (tree : Tree) (k : Text) → Dict.has k tree ≡ true → 0 < length tree
unfolding Dict.get
length-pos [] k m = absurd (cc)
length-pos (e ∷ tree) k m = omega arith

module _ (name : ℕ → Text) (inj : IsInjective name) where
  -- A key that the search is past does not matter to it.
  free_index-delete :
      (f i k : ℕ) (tree : Tree)
      → k < i
      → free_index f i name (Dict.delete (name k) tree) ≡ free_index f i name tree
  unfolding free_index
  free_index-delete zero i k tree h = refl
  free_index-delete (suc f) i k tree h =
      let ne : name i ≢ name k = λ e. let q = inj i k e in omega arith in
      ground (arith, free_index-delete f (i + 1) k tree, get-delete (name i) (name k) tree)

  free_index-ge : (f i : ℕ) (tree : Tree) → i ≤ free_index f i name tree
  unfolding free_index
  free_index-ge zero i tree = omega arith
  free_index-ge (suc f) i tree = ground (arith, free_index-ge f (i + 1) tree)

  -- If the search ends at a key of the tree, each of its rounds has met another one.
  free_index-has :
      (f i : ℕ) (tree : Tree)
      → Dict.has (name (free_index f i name tree)) tree ≡ true
      → f < length tree
  unfolding free_index
  free_index-has zero i tree h = length-pos tree (name i) h
  free_index-has (suc f) i tree h = elim (Bool-cases (Dict.has (name i) tree)) [
    | inl busy ↦
        let tree' = Dict.delete (name i) tree in
        let same_index = free_index-delete f (i + 1) i tree (omega arith) in
        let ne : name (free_index f (i + 1) name tree) ≢ name i =
          λ e. let q = inj _ i e in omega (arith, free_index-ge f (i + 1) tree) in
        let ih = free_index-has f (i + 1) tree' (
          rw same_index
            (ground (arith, get-delete (name (free_index f (i + 1) name tree)) (name i) tree))) in
        omega (arith, length-delete-lt (name i) tree busy)
    | inr free ↦ ground arith
  ]

  -- With one more than the number of keys for fuel, the search for a free name ends at one, from any
  -- number on, if different numbers give different names.
  pub free_index-free :
      (i : ℕ) (tree : Tree)
      → Dict.has (name (free_index (suc (length tree)) i name tree)) tree ≡ false
  free_index-free i tree =
      elim (Bool-cases (Dict.has (name (free_index (suc (length tree)) i name tree)) tree)) [
        | inl busy ↦ let h = free_index-has (suc (length tree)) i tree busy in absurd (omega arith)
        | inr free ↦ free
      ]

  -- The search, on any fuel, passes over no number whose name is free: all those from its start to
  -- its end are taken.
  pub free_index-least :
      (f i : ℕ) (tree : Tree) (j : ℕ)
      → i ≤ j
      → j < free_index f i name tree
      → Dict.has (name j) tree ≡ true
  unfolding free_index
  free_index-least zero i tree j h k = absurd (omega arith)
  free_index-least (suc f) i tree j h k = elim (Bool-cases (Dict.has (name i) tree)) [
    | inl busy ↦ elim (ℕ_discrete i j) [
      | yes e ↦ rw (← e) busy
      | no d ↦ free_index-least f (i + 1) tree j (omega arith) (ground arith)
    ]
    | inr free ↦ ground arith
  ]
