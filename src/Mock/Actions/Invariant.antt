-- ===== src/Mock/Actions/Invariant.antt =====
-- tool/portal_mock_server.js, lines 208-241 and 295-374: the tree behind the actions that change it.
use vault_box.Mock.Api.Invariant.{
  parsed-named, Parsed-cases, issue_ticket-tree, content_action-IsTree, login-tree,
}
use vault_box.Base.{
  if◌then◌else◌, not, codes, ◌≡◌, ◌≢◌, refl, arith, Bool, true, false, Option, none, some, List, [],
  Text, has_char, Bool-cases, Option-cases, inl, inr, has_char-eq-false,
}
use vault_box.Mock.Moves.{delete}
use vault_box.Mock.Moves.Invariant.{relocate-IsTree, child_of-named, batch_loop-IsTree}
use vault_box.Mock.Actions.{
  path_arg, signed_in, api, root_request, bearer, api_segs, is_login, login, is_session, fail, Tree,
  Result, child_of, parent_of, Action, post_action, change_action, root_action, Policy, batch_loop,
  move, text, fields_of, skip, is_dir, copy,
}
use vault_box.Mock.Entries.{
  mkdir, mkdir_at, make_dir, rename_at, rename_to, rename, is_bad_name, rename_fields,
  rename_parsed,
}
use vault_box.Mock.Batches.{
  good, bad, hidden, transfer_to, batch_texts, list_field, batch_reply, run_batch, batch_sources,
  batch_paths, batch_transfer, batch_into, Sources, sources_of, policy_of, parse_sources,
}
use vault_box.Base.Dict
use vault_box.Mock.Tree.{dir, Parsed, at, parse_path, name_of, slash}
use vault_box.Mock.Tree.Wellformed.{IsTree, set-IsTree}
use vault_box.Mock.Server.{Server, Request, Fields, Json}

make_dir-IsTree :
    (s : Server) (r : Request) (p : Text)
    → (p ≢ slash → name_of p ≢ [])
    → IsTree s.tree
    → IsTree (make_dir s r p).0.tree
unfolding make_dir
make_dir-IsTree s r p h v =
    ground (arith, λ (q : p ≢ slash). set-IsTree p (dir r.now) s.tree (h q) v)

mkdir-IsTree : (s : Server) (r : Request) (f : Fields) → IsTree s.tree → IsTree (mkdir s r f).0.tree
unfolding mkdir mkdir_at
mkdir-IsTree s r f v = elim (Parsed-cases (parse_path (path_arg f.path))) [
  | inl e ↦ ground arith
  | inr (p, e) ↦ ground (arith, make_dir-IsTree s r p (parsed-named (path_arg f.path) p e) v, e)
]

rename_to-IsTree :
    (s : Server) (p target : Text)
    → name_of target ≢ []
    → IsTree s.tree
    → IsTree (rename_to s p target).0.tree
unfolding rename_to
rename_to-IsTree s p target h v =
    ground (arith, relocate-IsTree (λ n. n) true p target h (Dict.keys s.tree) s.tree v)

rename_at-IsTree : (s : Server) (p n : Text) → IsTree s.tree → IsTree (rename_at s p n).0.tree
unfolding rename_at is_bad_name
rename_at-IsTree s p n v = ground (
  arith,
  λ (a : has_char b'/' n ≡ false) (b : n ≢ []).
      rename_to-IsTree s p (child_of (parent_of p) n)
        (child_of-named (parent_of p) n (has_char-eq-false b'/' n a) b) v,
)

rename_parsed-IsTree :
    (s : Server) (q : Parsed) (n : Text) → IsTree s.tree → IsTree (rename_parsed s q n).0.tree
unfolding rename_parsed
rename_parsed-IsTree s Parsed.null n v = v
rename_parsed-IsTree s Parsed.reserved n v = v
rename_parsed-IsTree s (at p) n v = rename_at-IsTree s p n v

rename_fields-IsTree :
    (s : Server) (p n : Json) → IsTree s.tree → IsTree (rename_fields s p n).0.tree
unfolding rename_fields
rename_fields-IsTree s (text p) (text n) v = rename_parsed-IsTree s (parse_path (some p)) n v
rename_fields-IsTree s (text p) n v = v
rename_fields-IsTree s p n v = v

rename-IsTree : (s : Server) (f : Fields) → IsTree s.tree → IsTree (rename s f).0.tree
unfolding rename
rename-IsTree s f v = rename_fields-IsTree s f.path f.new_name v

batch_reply-IsTree :
    (s : Server) (b : Tree × Option (List Result)) → IsTree b.0 → IsTree (batch_reply s b).0.tree
unfolding batch_reply
batch_reply-IsTree s (tree, none) v = v
batch_reply-IsTree s (tree, some rs) v = v

module _ (s : Server) (r : Request) (v : IsTree s.tree) where
  batch_into-IsTree :
      (a : Action) (sources : List Text) (policy : Policy) (dest : Parsed)
      → IsTree (batch_into s r a sources policy dest).0.tree
  unfolding batch_into
  batch_into-IsTree a sources policy Parsed.null = v
  batch_into-IsTree a sources policy Parsed.reserved = v
  batch_into-IsTree a sources policy (at d) = elim (Bool-cases (is_dir d s.tree)) [
    | inl h ↦ rw h (
        batch_reply-IsTree s (batch_loop a d policy r.now r.uuid 0 sources s.tree)
          (batch_loop-IsTree a d policy r.now r.uuid 0 sources s.tree v))
    | inr h ↦ rw h v
  ]

  transfer_to-IsTree :
      (a : Action) (sources : List Text) (policy : Option Policy) (dest : Json)
      → IsTree (transfer_to s r a sources policy dest).0.tree
  unfolding transfer_to
  transfer_to-IsTree a sources (some policy) (text d) =
      batch_into-IsTree a sources policy (parse_path (some d))
  transfer_to-IsTree a sources (some policy) d = v
  transfer_to-IsTree a sources none d = v

  batch_paths-IsTree :
      (f : Fields) (a : Action) (sources : List Text) → IsTree (batch_paths s r f a sources).0.tree
  unfolding batch_paths batch_transfer
  batch_paths-IsTree f move sources =
      transfer_to-IsTree move sources (policy_of f.conflict) f.destination
  batch_paths-IsTree f copy sources =
      transfer_to-IsTree copy sources (policy_of f.conflict) f.destination
  batch_paths-IsTree f delete sources =
      batch_reply-IsTree s (batch_loop delete [] skip r.now r.uuid 0 sources s.tree)
        (batch_loop-IsTree delete [] skip r.now r.uuid 0 sources s.tree v)

  batch_sources-IsTree :
      (f : Fields) (a : Action) (q : Sources) → IsTree (batch_sources s r f a q).0.tree
  unfolding batch_sources
  batch_sources-IsTree f a bad = v
  batch_sources-IsTree f a hidden = v
  batch_sources-IsTree f a (good sources) = batch_paths-IsTree f a sources

  batch_texts-IsTree :
      (f : Fields) (a : Action) (q : Option (List Text)) → IsTree (batch_texts s r f a q).0.tree
  unfolding batch_texts
  batch_texts-IsTree f a none = v
  batch_texts-IsTree f a (some texts) = batch_sources-IsTree f a (parse_sources texts)

  run_batch-IsTree : (f : Fields) (a : Action) → IsTree (run_batch s r f a).0.tree
  unfolding run_batch
  run_batch-IsTree f a = batch_texts-IsTree f a (sources_of (list_field a f))

  post_action-IsTree : (segs : List Text) (f : Fields) → IsTree (post_action s r segs f).0.tree
  unfolding post_action
  post_action-IsTree segs f = ground (
    arith,
    mkdir-IsTree s r f v,
    rename-IsTree s f v,
    run_batch-IsTree f move,
    run_batch-IsTree f copy,
    run_batch-IsTree f delete,
  )

  change_action-IsTree : (w : Bool) (segs : List Text) → IsTree (change_action w s r segs).0.tree
  unfolding change_action
  change_action-IsTree w segs = elim (Option-cases (fields_of r.body)) [
    | inl e ↦ ground (arith, e)
    | inr (f, e) ↦ ground (arith, e, post_action-IsTree segs f)
  ]

  root_action-IsTree : (w : Bool) (segs : List Text) → IsTree (root_action w s r segs).0.tree
  unfolding root_action
  root_action-IsTree w segs = ground (
    arith,
    issue_ticket-tree s r r.body,
    content_action-IsTree w s r v,
    change_action-IsTree w segs,
  )

signed_in-IsTree :
    (s : Server) (r : Request) (token : Text) (segs : List Text)
    → IsTree s.tree
    → IsTree (signed_in s r token segs).0.tree
unfolding signed_in root_request
signed_in-IsTree s r token segs v =
    ground (arith, root_action-IsTree s r v true segs, root_action-IsTree s r v false segs)

-- The order of the checks of a request to the API.
pub api_lem :
    (s : Server) (r : Request)
    → api s r ≡ (
        if is_login r
        then login s r
        else if not (is_session s (bearer r.authorization))
        then fail s 401 (codes "unauthorized")
        else signed_in s r (bearer r.authorization) (api_segs r))
unfolding api
api_lem s r = refl

pub api-IsTree : (s : Server) (r : Request) → IsTree s.tree → IsTree (api s r).0.tree
api-IsTree s r v =
    rw api_lem
      (ground (arith, login-tree s r, signed_in-IsTree s r (bearer r.authorization) (api_segs r) v))
