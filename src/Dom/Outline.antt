-- ===== src/Dom/Outline.antt =====
-- assets/portal/portal.js, lines 36-62: texts never become elements.
use vault_box.Base.{
  subst, ◌≡◌, refl, sym, ap, ◌∙◌, Bool, true, false, if◌then◌else◌, List, [], ◌∷◌, Text, codes,
  drop,
}
use vault_box.Base.Dict
use vault_box.Dom.{
  Node, Nodes, text_node, element, nil, cons, Child, Children, nothing, shown, node, array,
  none_more, more, Value, absent, yes, is, calls, join_nodes, append_child, append_one, append,
  set_text, set_attribute, set_property, listen, set_one, set_value, set_all, h,
}

-- The elements of a document, with their tags and nothing else.
mutual
  pub data Shape : Type 0 where
    tagged : Text → Shapes → Shape

  pub data Shapes : Type 0 where
    empty : Shapes
    followed : Shape → Shapes → Shapes

unfoldable pub join_shapes : Shapes → Shapes → Shapes
join_shapes empty ts = ts
join_shapes (followed s ss) ts = followed s (join_shapes ss ts)

module _ {ℓ} {M : Type ℓ} where
  unfoldable mutual
    -- What a node adds to the elements of its parent: a text node nothing.
    pub outline : Node M → Shapes
    outline (text_node t) = empty
    outline (element tag attrs props ls ns) = followed (tagged tag (outlines ns)) empty

    pub outlines : Nodes M → Shapes
    outlines nil = empty
    outlines (cons n ns) = join_shapes (outline n) (outlines ns)

  unfoldable mutual
    -- The elements among the children of a call of `h`, arrays taken apart.
    pub child_outline : Child M → Shapes
    child_outline nothing = empty
    child_outline (shown t) = empty
    child_outline (node n) = outline n
    child_outline (array cs) = child_outlines cs

    pub child_outlines : Children M → Shapes
    child_outlines none_more = empty
    child_outlines (more c cs) = join_shapes (child_outline c) (child_outlines cs)

join_shapes_assoc :
    (r s t : Shapes) → join_shapes (join_shapes r s) t ≡ join_shapes r (join_shapes s t)
unfolding join_shapes
join_shapes_assoc empty s t = refl
join_shapes_assoc (followed x r) s t = ap (λ q. followed x q) (join_shapes_assoc r s t)

join_shapes-empty : (s : Shapes) → join_shapes s empty ≡ s
unfolding join_shapes
join_shapes-empty empty = refl
join_shapes-empty (followed x r) = ap (λ q. followed x q) (join_shapes-empty r)

module _ {ℓ} {M : Type ℓ} where
  outlines-join_nodes :
      (ns ms : Nodes M) → outlines (join_nodes ns ms) ≡ join_shapes (outlines ns) (outlines ms)
  unfolding outlines join_nodes join_shapes
  outlines-join_nodes nil ms = refl
  outlines-join_nodes (cons n ns) ms =
      ap (λ q. join_shapes (outline n) q) (outlines-join_nodes ns ms)
      ∙ sym (join_shapes_assoc (outline n) (outlines ns) (outlines ms))

  -- An element with the given elements below it, whatever else it has.
  pub data HasShape (tag : Text) (below : Shapes) : Node M → Type ℓ where
    has_shape :
        {attrs : Dict.Dict Text} {props : Dict.Dict Text} {ls : List (Text × M)} {ns : Nodes M}
        → outlines ns ≡ below
        → HasShape tag below (element tag attrs props ls ns)

  append_child-HasShape :
      (tag : Text) (b : Shapes) (n m : Node M)
      → HasShape tag b n
      → HasShape tag (join_shapes b (outline m)) (append_child n m)
  unfolding append_child outlines join_shapes
  append_child-HasShape tag b _ m (has_shape {ns = ns} e) = has_shape (
      outlines-join_nodes ns (cons m nil)
      ∙ ap (λ q. join_shapes q (join_shapes (outline m) empty)) e
      ∙ ap (λ q. join_shapes b q) (join_shapes-empty (outline m)))

  mutual
    unfolding append append_one outline child_outline

    append_one-HasShape :
        (tag : Text) (b : Shapes) (n : Node M) (c : Child M)
        → HasShape tag b n
        → HasShape tag (join_shapes b (child_outline c)) (append_one n c)
    append_one-HasShape tag b n nothing v =
        subst (λ q. HasShape tag q n) (sym (join_shapes-empty b)) v
    append_one-HasShape tag b n (shown t) v = append_child-HasShape tag b n (text_node t) v
    append_one-HasShape tag b n (node m) v = append_child-HasShape tag b n m v
    append_one-HasShape tag b n (array cs) v = append-HasShape tag b n cs v

    append-HasShape :
        (tag : Text) (b : Shapes) (n : Node M) (cs : Children M)
        → HasShape tag b n
        → HasShape tag (join_shapes b (child_outlines cs)) (append n cs)
    append-HasShape tag b n none_more v =
        subst (λ q. HasShape tag q n) (sym (join_shapes-empty b)) v
    append-HasShape tag b n (more c cs) v =
        subst (λ q. HasShape tag q (append n (more c cs)))
          (join_shapes_assoc b (child_outline c) (child_outlines cs))
          (append-HasShape tag (join_shapes b (child_outline c)) (append_one n c) cs
            (append_one-HasShape tag b n c v))

  if-HasShape :
      (tag : Text) (b : Bool) (m n : Node M)
      → HasShape tag empty m
      → HasShape tag empty n
      → HasShape tag empty (if b then m else n)
  if-HasShape tag true m n v w = v
  if-HasShape tag false m n v w = w

  set_text-HasShape :
      (tag t : Text) (n : Node M) → HasShape tag empty n → HasShape tag empty (set_text t n)
  unfolding set_text outlines outline join_shapes
  set_text-HasShape tag [] _ (has_shape e) = has_shape refl
  set_text-HasShape tag (c ∷ t) _ (has_shape e) = has_shape refl

  set_attribute-HasShape :
      (tag k v : Text) (n : Node M)
      → HasShape tag empty n
      → HasShape tag empty (set_attribute k v n)
  unfolding set_attribute
  set_attribute-HasShape tag k v _ (has_shape e) = has_shape e

  set_property-HasShape :
      (tag k v : Text) (n : Node M) → HasShape tag empty n → HasShape tag empty (set_property k v n)
  unfolding set_property
  set_property-HasShape tag k v _ (has_shape e) = has_shape e

  set_one-HasShape :
      (tag k v a : Text) (n : Node M) → HasShape tag empty n → HasShape tag empty (set_one k v a n)
  unfolding set_one
  set_one-HasShape tag k v a n s = search (
    if-HasShape,
    set_text-HasShape tag v n s,
    set_attribute-HasShape tag (codes "class") v n s,
    set_attribute-HasShape tag k a n s,
    set_property-HasShape tag k v n s,
  )

  listen-HasShape :
      (tag k : Text) (f : M) (n : Node M) → HasShape tag empty n → HasShape tag empty (listen k f n)
  unfolding listen
  listen-HasShape tag k f _ (has_shape e) = has_shape e

  set_value-HasShape :
      (tag k : Text) (v : Value M) (n : Node M)
      → HasShape tag empty n
      → HasShape tag empty (set_value k v n)
  unfolding set_value
  set_value-HasShape tag k absent n s = s
  set_value-HasShape tag k yes n s = set_one-HasShape tag k (codes "true") [] n s
  set_value-HasShape tag k (is v) n s = set_one-HasShape tag k v v n s
  set_value-HasShape tag k (calls f) n s = listen-HasShape tag (drop 2 k) f n s

  set_all-HasShape :
      (tag : Text) (attrs : List (Text × Value M)) (n : Node M)
      → HasShape tag empty n
      → HasShape tag empty (set_all attrs n)
  unfolding set_all
  set_all-HasShape tag [] n s = s
  set_all-HasShape tag ((k, v) ∷ attrs) n s =
      set_all-HasShape tag attrs (set_value k v n) (set_value-HasShape tag k v n s)

  outline_of_HasShape :
      (tag : Text) (b : Shapes) (n : Node M)
      → HasShape tag b n
      → outline n ≡ followed (tagged tag b) empty
  unfolding outline
  outline_of_HasShape tag b _ (has_shape e) = ap (λ q. followed (tagged tag q) empty) e

  -- The element that a call of `h` builds holds the elements among its children, in their order, and
  -- no other: whatever the texts among its attributes and children are, none of them becomes one.
  pub outline-h :
      (tag : Text) (attrs : List (Text × Value M)) (children : Children M)
      → outline (h tag attrs children) ≡ followed (tagged tag (child_outlines children)) empty
  unfolding h outlines join_shapes
  outline-h tag attrs children = outline_of_HasShape tag (child_outlines children) _ (
      append-HasShape tag empty (set_all attrs (element tag [] [] [] nil)) children
        (set_all-HasShape tag attrs (element tag [] [] [] nil) (has_shape refl)))
