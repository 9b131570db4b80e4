-- ===== src/Mock/Moves/Onto.antt =====
-- tool/portal_mock_server.js, lines 318-322 and 349-367: an item that is moved onto itself.
use vault_box.Base.{
  ℕ, ◌≡◌, refl, ◌∙◌, arith, ◌⊎◌, inl, inr, Bool-cases, Option-cases, one_of, if◌then◌else◌, true,
  none, some, List, [], ◌∷◌, Text, same,
}
use vault_box.Base.Dict
use vault_box.Base.Dict.{one_of-keys}
use vault_box.Mock.Tree.{Tree, Node, name_of}
use vault_box.Mock.Moves.{
  under, relocate, placement, batch_item, place, to, touch, child_of, move, Policy,
}
use vault_box.Mock.Server.{Result, completed}
use vault_box.Mock.Moves.Below.{append-rest_of}
use vault_box.Mock.Moves.Relocate.{round, get-round}

module _ (change : Node → Node) (p : Text) where
  get-round_self :
      (j k : Text) (tree : Tree)
      → under p k ≡ true
      → Dict.get j (round change true p p k tree) ≡ (if same j k then none else Dict.get j tree)
  get-round_self j k tree h =
      get-round change true p p j k tree ∙ ground (arith, append-rest_of p k h)

  relocate_self :
      (j : Text) (ks : List Text) (tree : Tree)
      → under p j ≡ true
      → (one_of j ks ≡ true) ⊎ (Dict.get j tree ≡ none)
      → Dict.get j (relocate change true p p ks tree) ≡ none
  unfolding relocate
  relocate_self j [] tree h (inl m) = cc
  relocate_self j [] tree h (inr e) = e
  relocate_self j (k ∷ ks) tree h c =
      relocate_self j ks (round change true p p k tree) h (elim (Bool-cases (one_of j ks)) [
        | inl later ↦ inl later
        | inr last ↦ inr (ground (arith, get-round_self j k tree))
      ])

  -- Moved onto itself, a subtree is lost: each key is set to where it is, and then deleted.
  pub relocate_self_lost :
      (j : Text) (tree : Tree)
      → under p j ≡ true
      → Dict.get j (relocate change true p p (Dict.keys tree) tree) ≡ none
  relocate_self_lost j tree h =
      relocate_self j (Dict.keys tree) tree h (elim (Option-cases (Dict.get j tree)) [
        | inl e ↦ inr e
        | inr (n, e) ↦ inl (ground (arith, one_of-keys j tree))
      ])

-- An item that is moved to the directory that it is in is reported as completed, whatever the
-- conflict policy, and it and all below it are no longer in the tree.
pub batch_item-move_onto_self :
    (dest : Text) (policy : Policy) (now : ℕ) (uuid s : Text) (tree : Tree) (j : Text)
    → Dict.has s tree ≡ true
    → child_of dest (name_of s) ≡ s
    → under s j ≡ true
    → (r : Result) × ((batch_item move dest policy now uuid s tree).1 ≡ some r)
      × (r.status ≡ completed)
      × (Dict.get j (batch_item move dest policy now uuid s tree).0 ≡ none)
unfolding batch_item place placement
batch_item-move_onto_self dest policy now uuid s tree j h e u =
    let where_to : placement dest policy s tree ≡ to s = ground (arith, e) in
    (
      record { source = s; status = completed; target = some s; message = none },
      ground arith,
      refl,
      ground (arith, relocate_self_lost (touch now) s j tree u),
    )
