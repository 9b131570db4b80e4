-- ===== src/Mock/Batches.antt =====
-- tool/portal_mock_server.js, lines 326-371: moving, copying and deleting several items.
pub mod Answers
use vault_box.Base.{
  ℕ, suc, ◌+◌, ltb, leb, Bool, true, false, not, ◌&&◌, ◌||◌, Option, none, some, if◌then◌else◌,
  ◌==◌, List, [], ◌∷◌, ◌++◌, map, length, get_elem?, drop, any, Text, codes, same, to_lower,
  non_empty, has_char, segments,
}
use vault_box.Base.Dict
use vault_box.Mock.Tree.{Tree, Node, dir, Parsed, at, parse_path, parent_of, name_of, is_dir, slash}
use vault_box.Mock.Server.{
  Json, absent, text, other, array, Items, nil, cons, Fields, Payload, invalid, value, object,
  no_fields, path_arg, Server, Request, Result, completed, skipped, failed, Reply, error,
  not_allowed, logged_out, me, roots, made, renamed, batch,
}
use vault_box.Mock.Moves.{
  relocate, child_of, Policy, skip, keep_both, replace, Action, move, copy, delete, batch_loop,
  count_status,
}
use vault_box.Mock.Api.{
  fail, is_method, login, bearer, is_session, entries, issue_ticket, content_action,
}

-- The elements of an array, if all of them are texts.
unfoldable pub texts_of : Items → Option (List Text)
texts_of nil = some []
texts_of (cons (text s) vs) = elim (texts_of vs) [ none ↦ none | some ts ↦ some (s ∷ ts) ]
texts_of (cons v vs) = none

unfoldable pub sources_of : Json → Option (List Text)
sources_of (array vs) = elim (texts_of vs) [
  | none ↦ none
  | some ts ↦ if ltb (length ts) 1 || ltb 500 (length ts) then none else some ts
]
sources_of v = none

-- What the sources are, all together: one of them no path or the root, else one reserved, else paths.
pub data Sources : Type 0 where
  bad : Sources
  hidden : Sources
  good : List Text → Sources

unfoldable pub add_source : Parsed → Sources → Sources
add_source Parsed.null rest = bad
add_source Parsed.reserved bad = bad
add_source Parsed.reserved hidden = hidden
add_source Parsed.reserved (good ps) = hidden
add_source (at p) bad = bad
add_source (at p) hidden = if same p slash then bad else hidden
add_source (at p) (good ps) = if same p slash then bad else good (p ∷ ps)

unfoldable pub parse_sources : List Text → Sources
parse_sources [] = good []
parse_sources (t ∷ ts) = add_source (parse_path (some t)) (parse_sources ts)

-- `body.conflict || "skip"`, if it is one of the three.
unfoldable pub policy_of : Json → Option Policy
policy_of absent = some skip
policy_of Json.null = some skip
policy_of (other truthy shown) = if truthy then none else some skip
policy_of (array vs) = none
policy_of (text s) =
    if not (non_empty s) || same s (codes "skip")
    then some skip
    else if same s (codes "keepBoth")
    then some keep_both
    else if same s (codes "replace")
    then some replace
    else none

unfoldable pub batch_reply : Server → Tree × Option (List Result) → Server × Reply
batch_reply s (tree, none) = (record s { tree = tree }, Reply.thrown)
batch_reply s (tree, some rs) = (
  record s { tree = tree },
  batch (count_status completed rs) (count_status skipped rs) (count_status failed rs) rs,
)

unfoldable pub batch_into : Server → Request → Action → List Text → Policy → Parsed → Server × Reply
batch_into s r action sources policy Parsed.null = fail s 400 (codes "bad_request")
batch_into s r action sources policy Parsed.reserved = fail s 404 (codes "not_found")
batch_into s r action sources policy (at dest) =
    if is_dir dest s.tree
    then batch_reply s (batch_loop action dest policy r.now r.uuid 0 sources s.tree)
    else fail s 409 (codes "destination_not_found")

unfoldable pub transfer_to :
    Server → Request → Action → List Text → Option Policy → Json → Server × Reply
transfer_to s r action sources (some policy) (text d) =
    batch_into s r action sources policy (parse_path (some d))
transfer_to s r action sources policy d = fail s 400 (codes "bad_request")

unfoldable pub batch_transfer : Server → Request → Fields → Action → List Text → Server × Reply
unfolding transfer_to
batch_transfer s r f action sources =
    transfer_to s r action sources (policy_of f.conflict) f.destination

unfoldable pub batch_paths : Server → Request → Fields → Action → List Text → Server × Reply
batch_paths s r f delete sources =
    batch_reply s (batch_loop delete [] skip r.now r.uuid 0 sources s.tree)
batch_paths s r f move sources = batch_transfer s r f move sources
batch_paths s r f copy sources = batch_transfer s r f copy sources

unfoldable pub batch_sources : Server → Request → Fields → Action → Sources → Server × Reply
batch_sources s r f action bad = fail s 400 (codes "invalid_path")
batch_sources s r f action hidden = fail s 404 (codes "not_found")
batch_sources s r f action (good sources) = batch_paths s r f action sources

abbrev pub list_field : Action → Fields → Json
list_field delete f = f.paths
list_field move f = f.sources
list_field copy f = f.sources

unfoldable pub batch_texts :
    Server → Request → Fields → Action → Option (List Text) → Server × Reply
batch_texts s r f action none = fail s 400 (codes "bad_request")
batch_texts s r f action (some texts) = batch_sources s r f action (parse_sources texts)

unfoldable pub run_batch : Server → Request → Fields → Action → Server × Reply
unfolding sources_of texts_of parse_sources add_source batch_texts batch_sources batch_paths
    batch_transfer batch_into batch_reply policy_of
run_batch s r f action = batch_texts s r f action (sources_of (list_field action f))
