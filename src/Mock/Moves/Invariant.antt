-- ===== src/Mock/Moves/Invariant.antt =====
-- tool/portal_mock_server.js, lines 320-368: the batch actions keep the tree's invariant.
use vault_box.Base.{
  ℕ, zero, suc, ◌+◌, ◌≡◌, refl, ap, ◌∙◌, sym, subst, arith, ◌≢◌, inl, inr, Bool-cases, Option-cases,
  append-nil, IsFree, drop, decimal, append_assoc, last_index_of, length, Bool, true, false, Option,
  none, some, List, [], ◌∷◌, ◌++◌, Text, codes, same, if◌then◌else◌,
}
use vault_box.Base.Dict
use vault_box.Mock.Tree.{Tree, Node, name_of, slash}
use vault_box.Mock.Tree.Names.{name_of-slash, name_of-append_free, name_of-IsFree}
use vault_box.Mock.Tree.Wellformed.{IsTree, set-IsTree, delete-IsTree}
use vault_box.Mock.Moves.{
  stay, no_match, copy, move, delete, under, relocate, relocate_key, placement, numbered, child_of,
  split_name, Policy, to, free_index, bin_of, batch_loop, place, batch_item, Result, Action,
  cons_result, Placement, touch,
}
use vault_box.Mock.Moves.Below.{is_tail, rest_of, append-rest_of, rest_of-is_tail}

-- A key below the target has a name, if the key that it comes from has one.
name_of-tail :
    (target p r : Text)
    → is_tail r ≡ true
    → name_of target ≢ []
    → name_of (p ++ r) ≢ []
    → name_of (target ++ r) ≢ []
name_of-tail target p [] h n m e = n (ap name_of (sym (append-nil target)) ∙ e)
name_of-tail target p (c ∷ r) h n m e =
    let q : c ≡ b'/' = ground arith in
    m (
      ap (λ d. name_of (p ++ d ∷ r)) q
      ∙ name_of-slash p r
      ∙ sym (name_of-slash target r)
      ∙ sym (ap (λ d. name_of (target ++ d ∷ r)) q)
      ∙ e)

module _ (change : Node → Node) (remove : Bool) (p target : Text)
    (named : name_of target ≢ []) where
  relocate_key-IsTree :
      (k : Text) (n : Node) (tree : Tree)
      → under p k ≡ true
      → Dict.get k tree ≡ some n
      → IsTree tree
      → IsTree (relocate_key change remove p target k (some n) tree)
  unfolding relocate_key rest_of
  relocate_key-IsTree k n tree h e v =
      let whole : name_of (p ++ rest_of p k) ≢ [] =
        subst (λ i. name_of i ≢ []) (append-rest_of p k h) (v.named k (ground arith)) in
      let w =
        set-IsTree (target ++ rest_of p k) (change n) tree
          (name_of-tail target p (rest_of p k) (rest_of-is_tail p k h) named whole) v in
      elim (Bool-cases remove) [
        | inl r ↦ rw r (delete-IsTree k (Dict.set (target ++ rest_of p k) (change n) tree) w)
        | inr r ↦ rw r w
      ]

  relocate_key-IsTree-none :
      (k : Text) (tree : Tree)
      → IsTree tree
      → IsTree (relocate_key change remove p target k none tree)
  unfolding relocate_key
  relocate_key-IsTree-none k tree v = v

  relocate_key-IsTree_any :
      (k : Text) (tree : Tree)
      → under p k ≡ true
      → IsTree tree
      → IsTree (relocate_key change remove p target k (Dict.get k tree) tree)
  relocate_key-IsTree_any k tree h v = elim (Option-cases (Dict.get k tree)) [
    | inl e ↦ rw e (relocate_key-IsTree-none k tree v)
    | inr (n, e) ↦ rw e (relocate_key-IsTree k n tree h e v)
  ]

  pub relocate-IsTree :
      (ks : List Text) (tree : Tree)
      → IsTree tree
      → IsTree (relocate change remove p target ks tree)
  unfolding relocate
  relocate-IsTree [] tree v = v
  relocate-IsTree (k ∷ ks) tree v = elim (Bool-cases (under p k)) [
    | inl h ↦ rw h (
        relocate-IsTree ks (relocate_key change remove p target k (Dict.get k tree) tree)
          (relocate_key-IsTree_any k tree h v))
    | inr h ↦ rw h (relocate-IsTree ks tree v)
  ]

IsFree-drop : (c n : ℕ) (s : Text) → IsFree c s → IsFree c (drop n s)
IsFree-drop c zero s h = h
IsFree-drop c (suc n) [] h = tt
IsFree-drop c (suc n) (d ∷ s) (p, h) = IsFree-drop c n s h

extension-IsFree : (name : Text) → IsFree b'/' name → IsFree b'/' (split_name name).1
extension-IsFree name h = elim (Option-cases (last_index_of b'.' name)) [
  | inl e ↦ rw e tt
  | inr (i, e) ↦ rw e (IsFree-drop b'/' i name h)
]

-- A numbered key has a name.
pub numbered-named :
    (stem name : Text) (i : ℕ)
    → IsFree b'/' name
    → name_of (numbered stem (split_name name).1 i) ≢ []
numbered-named stem name i h =
    let ext = (split_name name).1 in
    let whole : (stem ++ (codes " (" ++ decimal i)) ++ b')' ∷ ext ≡ numbered stem ext i =
      append_assoc stem (codes " (" ++ decimal i) (b')' ∷ ext) in
    subst (λ k. name_of k ≢ []) whole
      (name_of-append_free (stem ++ (codes " (" ++ decimal i)) (b')' ∷ ext)
        ((λ e. omega arith), extension-IsFree name h) (λ e. cc))

pub child_of-named : (d n : Text) → IsFree b'/' n → n ≢ [] → name_of (child_of d n) ≢ []
child_of-named d n h k =
    subst (λ t. name_of t ≢ []) (append_assoc (if same d slash then [] else d) slash n)
      (name_of-append_free ((if same d slash then [] else d) ++ slash) n h k)

-- Wherever a batch puts an item, the key has a name.
placement-named :
    (dest : Text) (policy : Policy) (s : Text) (tree : Tree) {target : Text}
    → name_of s ≢ []
    → placement dest policy s tree ≡ to target
    → name_of target ≢ []
unfolding placement
placement-named dest policy s tree {target} h e =
    let plain = child_of-named dest (name_of s) (name_of-IsFree s) h in
    let stem = (split_name (name_of s)).0 in
    let key = numbered (child_of dest stem) (split_name (name_of s)).1 in
    let again =
      numbered-named (child_of dest stem) (name_of s) (free_index (suc (length tree)) 1 key tree)
        (name_of-IsFree s) in
    ground (arith, plain, again)

place-IsTree :
    (remove : Bool) (now : ℕ) (s : Text) (w : Placement) (tree : Tree)
    → ((target : Text) → w ≡ to target → name_of target ≢ [])
    → IsTree tree
    → IsTree (place remove now s w tree).0
unfolding place
place-IsTree remove now s stay tree h v = v
place-IsTree remove now s (to target) tree h v =
    relocate-IsTree (touch now) remove s target (h target refl) (Dict.keys tree) tree v
place-IsTree remove now s no_match tree h v = v

bin_of-named : (uuid s : Text) → name_of s ≢ [] → name_of (bin_of uuid s) ≢ []
bin_of-named uuid s h =
    let whole : (codes "/.vaultbox/recycle/" ++ uuid ++ codes "__") ++ name_of s ≡ bin_of uuid s =
      simp append_assoc in
    subst (λ k. name_of k ≢ []) whole
      (name_of-append_free (codes "/.vaultbox/recycle/" ++ uuid ++ codes "__") (name_of s)
        (name_of-IsFree s) h)

placed_item-IsTree :
    (remove : Bool) (dest : Text) (policy : Policy) (now : ℕ) (s : Text) (tree : Tree)
    → Dict.has s tree ≡ true
    → IsTree tree
    → IsTree (place remove now s (placement dest policy s tree) tree).0
placed_item-IsTree remove dest policy now s tree found v =
    place-IsTree remove now s (placement dest policy s tree) tree
      (λ target e. placement-named dest policy s tree (v.named s found) e) v

batch_item-IsTree :
    (action : Action) (dest : Text) (policy : Policy) (now : ℕ) (uuid s : Text) (tree : Tree)
    → IsTree tree
    → IsTree (batch_item action dest policy now uuid s tree).0
unfolding batch_item
batch_item-IsTree move dest policy now uuid s tree v = elim (Bool-cases (Dict.has s tree)) [
  | inl found ↦ rw found (placed_item-IsTree true dest policy now s tree found v)
  | inr absent ↦ rw absent v
]
batch_item-IsTree copy dest policy now uuid s tree v = elim (Bool-cases (Dict.has s tree)) [
  | inl found ↦ rw found (placed_item-IsTree false dest policy now s tree found v)
  | inr absent ↦ rw absent v
]
batch_item-IsTree delete dest policy now uuid s tree v = elim (Bool-cases (Dict.has s tree)) [
  | inl found ↦ rw found (
      relocate-IsTree (λ n. n) true s (bin_of uuid s) (bin_of-named uuid s (v.named s found))
        (Dict.keys tree) tree v)
  | inr absent ↦ rw absent v
]

cons_result-tree : (r : Result) (b : Tree × Option (List Result)) → (cons_result r b).0 ≡ b.0
cons_result-tree r (t, none) = refl
cons_result-tree r (t, some rs) = refl

pub batch_loop-IsTree :
    (action : Action) (dest : Text) (policy : Policy) (now : ℕ) (uuid : ℕ → Text) (i : ℕ)
    (sources : List Text) (tree : Tree)
    → IsTree tree
    → IsTree (batch_loop action dest policy now uuid i sources tree).0
unfolding batch_loop
batch_loop-IsTree action dest policy now uuid i [] tree v = v
batch_loop-IsTree action dest policy now uuid i (s ∷ sources) tree v =
    let b = batch_item action dest policy now (uuid i) s tree in
    let w = batch_item-IsTree action dest policy now (uuid i) s tree v in
    elim (Option-cases b.1) [
      | inl q ↦ rw (q, batch_loop) w
      | inr (r, q) ↦
          rw (q, batch_loop)
            (subst IsTree
              (sym
                (cons_result-tree r (batch_loop action dest policy now uuid (i + 1) sources b.0)))
              (batch_loop-IsTree action dest policy now uuid (i + 1) sources b.0 w))
    ]
