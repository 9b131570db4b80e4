-- ===== src/Mock/Tree/Wellformed.antt =====
-- tool/portal_mock_server.js, lines 26-34 and 161-169: the invariant of the tree, and its listings.
use vault_box.Base.{
  ◌≡◌, ◌≢◌, sym, ap, ◌∙◌, true, false, arith, All, same, subst, List, [], ◌∷◌, ◌++◌, append_assoc,
  Text, one_of, IsFree, has_char-eq-false, length, drop, append-drop_of_starts_with, inl, inr,
  Bool-cases, same_iff, join,
}
use vault_box.Base.Dict
use vault_box.Mock.Tree.{Tree, children, is_child, prefix_of, name_of, slash, Node}
use vault_box.Mock.Tree.Names.{name_of-append, name_of-slash}
use vault_box.Mock.Tree.Sorting.{IsNodup, children-IsNodup, children-All, children-All-keys}
use vault_box.Mock.Tree.Paths.{IsSafe, IsSafePath}
use vault_box.Base.Dict.{one_of-keys}
use vault_box.Mock.Listing.Paging.{HasDistinctNames}

-- Keys are distinct, and none ends in a slash.
pub record IsTree (tree : Tree) : Type 0 where
  pub distinct : Dict.NodupKeys tree
  pub named : (k : Text) → Dict.has k tree ≡ true → name_of k ≢ []

name_of-prefix : (d n : Text) → IsFree b'/' n → name_of (prefix_of d ++ n) ≡ n
name_of-prefix d n h =
    ground (arith, name_of-append [] n h, name_of-append d n h, append_assoc d slash n)

-- A child is its directory's prefix and its own name.
child-name : (d k : Text) → is_child d k ≡ true → k ≡ prefix_of d ++ name_of k
child-name d k h =
    let rest = drop (length (prefix_of d)) k in
    let whole : k ≡ prefix_of d ++ rest =
      append-drop_of_starts_with k (prefix_of d) (ground arith) in
    let name : name_of k ≡ rest =
      ap name_of whole ∙ name_of-prefix d rest (has_char-eq-false b'/' rest (ground arith)) in
    whole ∙ ap (λ n. prefix_of d ++ n) (sym name)

distinct_from :
    (q n : Text) (ns : List Text)
    → n ≡ q ++ name_of n
    → one_of n ns ≡ false
    → All (λ k. k ≡ q ++ name_of k) ns
    → All (λ m. name_of m ≢ name_of n) ns
distinct_from q n [] e f h = tt
distinct_from q n (m ∷ ns) e f (p, h) =
    ((λ s. ground (arith, p ∙ ap (λ t. q ++ t) s ∙ sym e)), distinct_from q n ns e (ground arith) h)

distinct_names :
    (q : Text) (ns : List Text)
    → IsNodup ns
    → All (λ k. k ≡ q ++ name_of k) ns
    → All (λ k. name_of k ≢ []) ns
    → HasDistinctNames ns
distinct_names q [] d h k = tt
distinct_names q (n ∷ ns) (fresh, d) (p, h) (e, k) =
    (e, distinct_from q n ns p fresh h, distinct_names q ns d h k)

All-of_one_of :
    (P : Text → Type 0) (xs : List Text) → ((x : Text) → one_of x xs ≡ true → P x) → All P xs
All-of_one_of P [] h = tt
All-of_one_of P (x ∷ xs) h = (h x (ground arith), All-of_one_of P xs (λ y m. h y (ground arith)))

-- What holds of every key of the tree holds of every child.
pub children-All-has :
    (P : Text → Type 0) (tree : Tree) (d : Text)
    → ((k : Text) → Dict.has k tree ≡ true → P k)
    → All P (children tree d)
children-All-has P tree d h =
    children-All-keys P tree d
      (All-of_one_of P (Dict.keys tree) (λ k m. h k (sym (one_of-keys k tree) ∙ m)))

pub children-HasDistinctNames :
    (tree : Tree) (d : Text) → IsTree tree → HasDistinctNames (children tree d)
children-HasDistinctNames tree d h =
    distinct_names (prefix_of d) (children tree d) (children-IsNodup tree d h.distinct)
      (children-All (λ k. k ≡ prefix_of d ++ name_of k) tree d (child-name d))
      (children-All-has (λ k. name_of k ≢ []) tree d h.named)

-- A key with a name may be set to any node.
pub set-IsTree :
    (k : Text) (n : Node) (tree : Tree) → name_of k ≢ [] → IsTree tree → IsTree (Dict.set k n tree)
set-IsTree k n tree h v = record {
  distinct = Dict.set-NodupKeys k n tree v.distinct;
  named = λ j m. elim (Bool-cases (same j k)) [
    | inl e ↦ subst (λ i. name_of i ≢ []) (sym ((same_iff j k).0 e)) h
    | inr d ↦ v.named j (ground (arith, Dict.get-set j k n tree))
  ];
}

pub delete-IsTree : (k : Text) (tree : Tree) → IsTree tree → IsTree (Dict.delete k tree)
delete-IsTree k tree v = record {
  distinct = Dict.delete-NodupKeys k tree v.distinct;
  named = λ j m. v.named j (ground (arith, Dict.get-delete j k tree));
}

join-name :
    (s : Text) (segs : List Text)
    → IsSafe s
    → All IsSafe segs
    → name_of (b'/' ∷ join (s ∷ segs)) ≢ []
unfolding join
join-name s [] p h e = p.0 (sym (name_of-append [] s p.2) ∙ e)
join-name s (t ∷ segs) p (q, h) e =
    join-name t segs q h (sym (name_of-slash (b'/' ∷ s) (join (t ∷ segs))) ∙ e)

-- A path that the parser gives out has a name, unless it is the root.
pub IsSafePath-named : (p : Text) → IsSafePath p → p ≢ slash → name_of p ≢ []
unfolding join
IsSafePath-named p s h = named s.segs s.path s.safe
  where
    named : (segs : List Text) → p ≡ b'/' ∷ join segs → All IsSafe segs → name_of p ≢ []
    named [] e _ = absurd (h e)
    named (s ∷ segs) e (q, k) = rw e (join-name s segs q k)
