-- ===== src/Mock/Moves/Batch.antt =====
-- tool/portal_mock_server.js, lines 341-370: the loop over the sources of a batch.
use vault_box.Base.{
  ℕ, ◌+◌, ◌≡◌, refl, arith, List, [], ◌∷◌, map, length, Text, some, none, Option-cases, Option,
  Bool-cases, Bool, inl, true, inr, false,
}
use vault_box.Mock.Tree.{Tree}
use vault_box.Mock.Server.{Result, completed, skipped, failed}
use vault_box.Base.Dict
use vault_box.Mock.Moves.{
  stay, to, no_match, move, copy, delete, Action, Policy, batch_loop, batch_item, count_status,
  place, cons_result, Placement, to, placement, skip,
}

-- The counts of a batch add up to the number of its results.
pub count_status-sum :
    (rs : List Result)
    → count_status completed rs + count_status skipped rs + count_status failed rs ≡ length rs
unfolding count_status
count_status-sum [] = omega arith
count_status-sum (r ∷ rs) = ground (arith, count_status-sum rs)

place-source :
    (remove : Bool) (now : ℕ) (s : Text) (w : Placement) (tree : Tree) {r : Result}
    → (place remove now s w tree).1 ≡ some r
    → r.source ≡ s
unfolding place
place-source remove now s stay tree e = ground arith
place-source remove now s (to target) tree e = ground arith
place-source remove now s no_match tree e = ground arith

batch_item-source :
    (action : Action) (dest : Text) (policy : Policy) (now : ℕ) (uuid s : Text) (tree : Tree)
    {r : Result}
    → (batch_item action dest policy now uuid s tree).1 ≡ some r
    → r.source ≡ s
unfolding batch_item
batch_item-source move dest policy now uuid s tree {r} e = elim (Bool-cases (Dict.has s tree)) [
  | inl h ↦ place-source true now s (placement dest policy s tree) tree {r = r} (ground arith)
  | inr h ↦ ground arith
]
batch_item-source copy dest policy now uuid s tree {r} e = elim (Bool-cases (Dict.has s tree)) [
  | inl h ↦ place-source false now s (placement dest policy s tree) tree {r = r} (ground arith)
  | inr h ↦ ground arith
]
batch_item-source delete dest policy now uuid s tree e = ground arith

cons_result-eq :
    (r : Result) (b : Tree × Option (List Result)) {rs : List Result}
    → (cons_result r b).1 ≡ some rs
    → (ss : List Result) × (b.1 ≡ some ss) × (rs ≡ r ∷ ss)
cons_result-eq r (t, none) e = cc
cons_result-eq r (t, some ss) e = (ss, refl, ground arith)

-- The results of a batch that ends without an exception are those of its sources, in their order.
pub batch_loop-sources :
    (action : Action) (dest : Text) (policy : Policy) (now : ℕ) (uuid : ℕ → Text) (i : ℕ)
    (sources : List Text) (tree : Tree) {rs : List Result}
    → (batch_loop action dest policy now uuid i sources tree).1 ≡ some rs
    → map (λ r. r.source) rs ≡ sources
unfolding batch_loop
batch_loop-sources action dest policy now uuid i [] tree e = ground arith
batch_loop-sources action dest policy now uuid i (s ∷ sources) tree {rs} e =
    let b = batch_item action dest policy now (uuid i) s tree in
    elim (Option-cases b.1) [
      | inl q ↦ ground arith
      | inr (r, q) ↦
          let (ss, later, whole) =
            cons_result-eq r (batch_loop action dest policy now uuid (i + 1) sources b.0) {rs = rs}
              (ground arith) in
          rw (
            whole,
            batch_item-source action dest policy now (uuid i) s tree q,
            batch_loop-sources action dest policy now uuid (i + 1) sources b.0 later,
          )
    ]

delete_item-some :
    (now : ℕ) (uuid s : Text) (tree : Tree)
    → (r : Result) × ((batch_item delete [] skip now uuid s tree).1 ≡ some r)
unfolding batch_item
delete_item-some now uuid s tree = elim (Bool-cases (Dict.has s tree)) [
  | inl h ↦ rw h (_, refl)
  | inr h ↦ rw h (_, refl)
]

add_result-some :
    (b : Tree × Option Result) (c : Tree × Option (List Result)) {r : Result} {rs : List Result}
    → b.1 ≡ some r
    → c.1 ≡ some rs
    → (elim b.1 as (λ o. Tree × Option (List Result)) [
      | none ↦ (b.0, none)
      | some q ↦ cons_result q c
    ]).1
      ≡ some (r ∷ rs)
add_result-some (t, none) c e k = cc
add_result-some (t, some q) (u, none) e k = cc
add_result-some (t, some q) (u, some qs) e k = cc

-- The loop of a deletion ends without an exception.
pub delete_loop-some :
    (now : ℕ) (uuid : ℕ → Text) (i : ℕ) (ts : List Text) (tree : Tree)
    → (rs : List Result) × ((batch_loop delete [] skip now uuid i ts tree).1 ≡ some rs)
unfolding batch_loop
delete_loop-some now uuid i [] tree = ([], refl)
delete_loop-some now uuid i (t ∷ ts) tree =
    let b = batch_item delete [] skip now (uuid i) t tree in
    let (r, q) = delete_item-some now (uuid i) t tree in
    let (rs, e) = delete_loop-some now uuid (i + 1) ts b.0 in
    (r ∷ rs, add_result-some b (batch_loop delete [] skip now uuid (i + 1) ts b.0) q e)
