-- ===== src/Mock/Actions.antt =====
-- tool/portal_mock_server.js, lines 208-240, 295-300 and 372-374: the dispatch of the API.
pub mod Invariant
pub mod Refused
pub mod Posts
pub mod Sessions
pub mod ReadOnly
use vault_box.Base.{
  ℕ, suc, ◌+◌, ltb, leb, Bool, true, false, not, ◌&&◌, ◌||◌, Option, none, some, if◌then◌else◌,
  ◌==◌, List, [], ◌∷◌, ◌++◌, map, length, get_elem?, drop, any, Text, codes, same, to_lower,
  non_empty, has_char, segments,
}
use vault_box.Base.Dict
use vault_box.Mock.Tree.{Tree, Node, dir, Parsed, at, parse_path, parent_of, name_of, is_dir, slash}
use vault_box.Mock.Server.{
  Json, absent, text, other, array, Items, nil, cons, Fields, Payload, invalid, value, object,
  no_fields, path_arg, Server, Request, Result, completed, skipped, failed, Reply, error,
  not_allowed, logged_out, me, roots, made, renamed, batch,
}
use vault_box.Mock.Moves.{
  relocate, child_of, Policy, skip, keep_both, replace, Action, move, copy, delete, batch_loop,
  count_status,
}
use vault_box.Mock.Api.{
  fail, is_method, login, bearer, is_session, entries, issue_ticket, content_action,
}
use vault_box.Mock.Entries.{mkdir, rename}
use vault_box.Mock.Batches.{run_batch}

-- `!body || typeof body !== "object"`: what is left is an object or an array.
pub fields_of : Payload → Option Fields
fields_of invalid = none
fields_of (object f) = some f
fields_of (value (array vs)) = some no_fields
fields_of (value v) = none

abbrev is_seg : ℕ → Text → List Text → Bool
is_seg i name segs = elim (get_elem? segs i) [ none ↦ false | some s ↦ same s name ]

pub post_action : Server → Request → List Text → Fields → Server × Reply
post_action s r segs f =
    if is_seg 2 (codes "mkdir") segs
    then mkdir s r f
    else if is_seg 2 (codes "rename") segs
    then rename s f
    else if is_seg 2 (codes "move") segs
    then run_batch s r f move
    else if is_seg 2 (codes "copy") segs
    then run_batch s r f copy
    else if is_seg 2 (codes "delete") segs
    then run_batch s r f delete
    else fail s 404 (codes "not_found")

pub change_action : Bool → Server → Request → List Text → Server × Reply
change_action writable s r segs =
    if not (is_method r (codes "POST"))
    then (s, not_allowed (codes "POST"))
    else if not writable
    then fail s 403 (codes "read_only_storage")
    else elim (fields_of r.body) [
      | none ↦ fail s 400 (codes "bad_request")
      | some f ↦ post_action s r segs f
    ]

-- The actions on one root, which is writable or not.
unfoldable pub root_action : Bool → Server → Request → List Text → Server × Reply
unfolding change_action post_action fields_of
root_action writable s r segs =
    if is_seg 2 (codes "entries") segs
    then (s, entries s r)
    else if is_seg 2 (codes "ticket") segs && is_method r (codes "POST")
    then issue_ticket s r r.body
    else if is_seg 2 (codes "content") segs
    then content_action writable s r
    else change_action writable s r segs

pub root_request : Server → Request → List Text → Server × Reply
root_request s r segs =
    if is_seg 1 (codes "phone") segs
    then root_action true s r segs
    else if is_seg 1 (codes "card") segs
    then root_action false s r segs
    else fail s 404 (codes "root_not_found")

pub signed_in : Server → Request → Text → List Text → Server × Reply
signed_in s r token segs =
    if is_seg 0 (codes "auth") segs && is_seg 1 (codes "logout") segs
    then (record s { sessions = Dict.delete token s.sessions }, logged_out)
    else if is_seg 0 (codes "me") segs
    then (s, me)
    else if is_seg 0 (codes "roots") segs && length segs == 1
    then (s, roots)
    else if not (is_seg 0 (codes "roots") segs) || not (length segs == 3)
    then fail s 404 (codes "not_found")
    else root_request s r segs

abbrev pub api_segs : Request → List Text
api_segs r = drop 2 (segments r.pathname)

abbrev pub is_login : Request → Bool
is_login r = is_seg 0 (codes "auth") (api_segs r) && is_seg 1 (codes "login") (api_segs r)

unfoldable pub api : Server → Request → Server × Reply
unfolding signed_in root_request segments bearer Dict.delete Dict.get
api s r =
    let token = bearer r.authorization in
    if is_login r
    then login s r
    else if not (is_session s token)
    then fail s 401 (codes "unauthorized")
    else signed_in s r token (api_segs r)
