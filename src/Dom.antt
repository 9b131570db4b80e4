-- ===== src/Dom.antt =====
-- assets/portal/portal.js, lines 36-107, and assets/portal/public.js, lines 17-41: building elements.
pub mod Outline
use vault_box.Base.{
  String, ℕ, ◌==◌, Bool, true, false, not, ◌&&◌, ◌||◌, Option, none, some, if◌then◌else◌, List, [],
  ◌∷◌, ◌++◌, map, drop, Text, codes, same, starts_with, non_empty,
}
use vault_box.Base.Dict
use vault_box.Base.Dict.{Dict}
use vault_box.Mock.Serve.{Property, own, inherited, missing, property}

-- An element, with what a listener gives as a value of a type of messages, and a text node.
mutual
  pub data Node {ℓ} (M : Type ℓ) : Type ℓ where
    text_node : Text → Node M
    element :
        (tag : Text) (attributes : Dict Text) (properties : Dict Text) (listeners : List (Text × M))
        → Nodes M
        → Node M

  pub data Nodes {ℓ} (M : Type ℓ) : Type ℓ where
    nil : Nodes M
    cons : Node M → Nodes M → Nodes M

-- What stands for a child: null, undefined and false are `nothing`.
mutual
  pub data Child {ℓ} (M : Type ℓ) : Type ℓ where
    nothing : Child M
    shown : Text → Child M
    node : Node M → Child M
    array : Children M → Child M

  pub data Children {ℓ} (M : Type ℓ) : Type ℓ where
    none_more : Children M
    more : Child M → Children M → Children M

-- The value of an attribute: null, undefined and false are `absent`.
pub data Value {ℓ} (M : Type ℓ) : Type ℓ where
  absent : Value M
  yes : Value M
  is : Text → Value M
  calls : M → Value M

abbrev is_property : Text → Bool
is_property k = same k (codes "value") || same k (codes "checked") || same k (codes "disabled")

module _ {ℓ} {M : Type ℓ} where
  unfoldable pub join_nodes : Nodes M → Nodes M → Nodes M
  join_nodes nil ms = ms
  join_nodes (cons n ns) ms = cons n (join_nodes ns ms)

  -- `node.append(child)`: a text node has no children.
  unfoldable pub append_child : Node M → Node M → Node M
  unfolding join_nodes
  append_child (text_node t) child = text_node t
  append_child (element tag attrs props ls ns) child =
      element tag attrs props ls (join_nodes ns (cons child nil))

  -- `append`: the children one by one, arrays within arrays taken apart.
  unfoldable mutual
    pub append_one : Node M → Child M → Node M
    append_one n nothing = n
    append_one n (shown t) = append_child n (text_node t)
    append_one n (node m) = append_child n m
    append_one n (array cs) = append n cs

    pub append : Node M → Children M → Node M
    append n none_more = n
    append n (more c cs) = append (append_one n c) cs

  -- `textContent = t`: the children are replaced; an empty text leaves none.
  pub set_text : Text → Node M → Node M
  set_text t (text_node s) = text_node t
  set_text [] (element tag attrs props ls ns) = element tag attrs props ls nil
  set_text (c ∷ t) (element tag attrs props ls ns) =
      element tag attrs props ls (cons (text_node (c ∷ t)) nil)

  pub set_attribute : Text → Text → Node M → Node M
  set_attribute k v (text_node s) = text_node s
  set_attribute k v (element tag attrs props ls ns) = element tag (Dict.set k v attrs) props ls ns

  pub set_property : Text → Text → Node M → Node M
  set_property k v (text_node s) = text_node s
  set_property k v (element tag attrs props ls ns) = element tag attrs (Dict.set k v props) ls ns

  pub listen : Text → M → Node M → Node M
  listen k f (text_node s) = text_node s
  listen k f (element tag attrs props ls ns) = element tag attrs props (ls ++ (k, f) ∷ []) ns

  -- One attribute of `h`: the value as a text, and what `setAttribute` gets.
  pub set_one : (key value attribute : Text) → Node M → Node M
  set_one k v a n =
      if same k (codes "class")
      then set_attribute (codes "class") v n
      else if same k (codes "text")
      then set_text v n
      else if is_property k
      then set_property k v n
      else set_attribute k a n

  -- A message stands only under a key that starts with "on".
  pub set_value : Text → Value M → Node M → Node M
  set_value k absent n = n
  set_value k yes n = set_one k (codes "true") [] n
  set_value k (is v) n = set_one k v v n
  set_value k (calls f) n = listen (drop 2 k) f n

  pub set_all : List (Text × Value M) → Node M → Node M
  set_all [] n = n
  set_all ((k, v) ∷ attrs) n = set_all attrs (set_value k v n)

  unfoldable pub h : (tag : Text) → List (Text × Value M) → Children M → Node M
  unfolding append append_one append_child set_all set_value set_one set_text set_attribute
      set_property listen Dict.set
  h tag attrs children = append (set_all attrs (element tag [] [] [] nil)) children

-- The children of a call of `h`, and the texts and messages of its attributes.
infixr 60 ◌▸◌
abbrev pub ◌▸◌ {ℓ} : {M : Type ℓ} → Child M → Children M → Children M
c ▸ cs = more c cs

-- The attributes of a call of `h`: with a literal value, a computed one, a condition, a listener.
module _ {ℓ} {M : Type ℓ} where
  abbrev pub attr : String → String → Text × Value M
  attr k v = (codes k, is (codes v))

  abbrev pub given : String → Text → Text × Value M
  given k v = (codes k, is v)

  abbrev pub flag : String → Bool → Text × Value M
  flag k b = (codes k, if b then yes else absent)

  -- `undefined` where there is no message.
  abbrev pub on : String → Option M → Text × Value M
  on k none = (codes k, absent)
  on k (some f) = (codes k, calls f)

  abbrev pub el : Text → List (Text × Value M) → Children M → Child M
  el tag attrs children = node (h tag attrs children)

  abbrev pub leaf : String → List (Text × Value M) → Child M
  leaf tag attrs = el (codes tag) attrs none_more

  -- `condition ? child : null`
  abbrev pub only_if : Bool → Child M → Child M
  only_if b c = if b then c else nothing

  abbrev pub all_of : {A : Type 0} → (A → Child M) → List A → Children M
  all_of f [] = none_more
  all_of f (a ∷ rest) = more (f a) (all_of f rest)
