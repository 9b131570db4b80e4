-- ===== src/Mock/Api.antt =====
-- tool/portal_mock_server.js, lines 208-293: signing in, listing, tickets and file contents.
pub mod Invariant
pub mod Refused
pub mod Sessions
pub mod Store
use vault_box.Base.{
  ℕ, suc, ◌+◌, ◌*◌, ltb, leb, Bool, true, false, not, ◌&&◌, ◌||◌, Option, none, some, if◌then◌else◌,
  ◌==◌, List, [], ◌∷◌, ◌++◌, length, drop, any, Text, codes, same, starts_with, to_lower, trim,
  non_empty, has_char, segments,
}
use vault_box.Base.Dict
use vault_box.Mock.Tree.{
  Tree, Node, dir, file, Parsed, at, parse_path, parent_of, name_of, is_dir, slash, is_dir_node,
}
use vault_box.Mock.Listing.{Page, list_dir}
use vault_box.Mock.Serve.{Outcome, served, out_of_range, serve_file}
use vault_box.Mock.Server.{
  Json, absent, text, other, array, Items, Fields, Payload, invalid, value, object, no_fields,
  path_arg, Ticket, Server, Limit, unset, integer, not_natural, Request, Result, completed, skipped,
  failed, Reply, error, not_allowed, bad_range, logged_in, logged_out, me, roots, listing, content,
  stored, made, renamed, batch,
}
use vault_box.Mock.Moves.{
  relocate, child_of, Policy, skip, keep_both, replace, Action, move, copy, delete, batch_loop,
  count_status, has_line_end,
}

abbrev pub fail : Server → ℕ → Text → Server × Reply
fail s status code = (s, error status code)

abbrev pub is_method : Request → Text → Bool
is_method r m = same r.method m

abbrev admin_matches : Text → Text → Bool
admin_matches username password =
    same (to_lower (trim username)) (codes "admin") && same password (codes "correct horse battery")

pub login_as : Server → Request → Json → Json → Server × Reply
login_as s r (text u) (text p) =
    if admin_matches u p
    then (record s { sessions = Dict.set r.token r.now s.sessions }, logged_in r.token)
    else fail s 401 (codes "invalid_credentials")
login_as s r (text u) p = fail s 400 (codes "bad_request")
login_as s r u p = fail s 400 (codes "bad_request")

pub login_body : Server → Request → Payload → Server × Reply
login_body s r (object f) = login_as s r f.username f.password
login_body s r p = fail s 400 (codes "bad_request")

unfoldable pub login : Server → Request → Server × Reply
unfolding login_body login_as trim to_lower Dict.set
login s r =
    if not (is_method r (codes "POST"))
    then (s, not_allowed (codes "POST"))
    else login_body s r r.body

-- `/^Bearer (.+)$/i` and `trim`
unfoldable pub bearer : Option Text → Text
unfolding trim to_lower starts_with
bearer none = []
bearer (some h) =
    let rest = drop 7 h in
    if starts_with (to_lower h) (codes "bearer ") && not (has_line_end rest) then trim rest else []

-- An empty token is falsy.
abbrev pub is_session : Server → Text → Bool
is_session s token = non_empty token && Dict.has token s.sessions

limit_of : Limit → Option ℕ
limit_of unset = some 200
limit_of (integer n) = if ltb n 1 || ltb 500 n then none else some n
limit_of not_natural = none

abbrev page_reply : Text → Option Page → Reply
page_reply p none = Reply.thrown
page_reply p (some page) = listing p page.entries page.next

entries_at : Server → Request → Text → Reply
entries_at s r p =
    if not (is_dir p s.tree)
    then (if Dict.has p s.tree
        then error 400 (codes "not_a_directory")
        else error 404 (codes "not_found"))
    else elim (limit_of r.limit) [
      | none ↦ error 400 (codes "bad_request")
      | some limit ↦ page_reply p (list_dir s.tree p limit r.cursor)
    ]

unfoldable pub entries : Server → Request → Reply
unfolding entries_at limit_of list_dir is_dir parse_path
entries s r = elim (parse_path r.path) [
  | Parsed.null ↦ error 400 (codes "invalid_path")
  | Parsed.reserved ↦ error 404 (codes "not_found")
  | at p ↦ entries_at s r p
]

-- `body && body.path`: a falsy body is passed on itself.
ticket_path : Payload → Option Text
ticket_path invalid = none
ticket_path (object f) = path_arg f.path
ticket_path (value (other false shown)) = some shown
ticket_path (value v) = none

unfoldable pub issue : Server → Request → Text → Server × Reply
issue s r p = if same p slash then fail s 400 (codes "invalid_path") else elim (Dict.get p s.tree) [
  | none ↦ fail s 404 (codes "not_found")
  | some n ↦ if is_dir_node n then fail s 400 (codes "not_a_file") else (
    record s {
      tickets = Dict.set r.token (record { path = p; expires = r.now + 15 * 60 * 1000 }) s.tickets;
    },
    Reply.ticket (codes "/d/" ++ r.token),
  )
]

pub issue_parsed : Server → Request → Parsed → Server × Reply
issue_parsed s r Parsed.null = fail s 400 (codes "invalid_path")
issue_parsed s r Parsed.reserved = fail s 404 (codes "not_found")
issue_parsed s r (at p) = issue s r p

unfoldable pub issue_ticket : Server → Request → Payload → Server × Reply
unfolding issue_parsed issue ticket_path path_arg parse_path Dict.set
issue_ticket s r invalid = fail s 400 (codes "bad_request")
issue_ticket s r body = issue_parsed s r (parse_path (ticket_path body))

pub reply_of : Outcome → Reply
reply_of (served x) = content x
reply_of (out_of_range n) = bad_range n
reply_of Outcome.thrown = Reply.thrown

abbrev is_one : Option Text → Bool
is_one none = false
is_one (some v) = same v (codes "1")

pub serve_node : Request → Text → Node → Reply
serve_node r p (dir m) = error 400 (codes "not_a_file")
serve_node r p (file bytes m) =
    reply_of (serve_file (is_method r (codes "HEAD")) r.range (name_of p) bytes (is_one r.inline))

read_content : Server → Request → Text → Reply
read_content s r p = elim (Dict.get p s.tree) [
  | none ↦ error 404 (codes "not_found")
  | some n ↦ serve_node r p n
]

unfoldable pub write_content : Bool → Server → Request → Text → Server × Reply
write_content writable s r p =
    let existed = Dict.has p s.tree in
    if not writable
    then fail s 403 (codes "read_only_storage")
    else if not (is_dir (parent_of p) s.tree)
    then fail s 409 (codes "parent_not_found")
    else if existed && is_dir p s.tree
    then fail s 409 (codes "is_a_directory")
    else if existed && not (is_one r.overwrite)
    then fail s 409 (codes "already_exists")
    else (
      record s { tree = Dict.set p (file r.bytes r.now) s.tree },
      stored (if existed then 200 else 201) p (length r.bytes),
    )

pub content_at : Bool → Server → Request → Text → Server × Reply
content_at writable s r p =
    if same p slash
    then fail s 400 (codes "invalid_path")
    else if is_method r (codes "GET") || is_method r (codes "HEAD")
    then (s, read_content s r p)
    else if is_method r (codes "PUT")
    then write_content writable s r p
    else (s, not_allowed (codes "GET, HEAD, PUT"))

unfoldable pub content_action : Bool → Server → Request → Server × Reply
unfolding content_at write_content read_content serve_node reply_of is_dir parent_of parse_path
content_action writable s r = elim (parse_path r.path) [
  | Parsed.null ↦ fail s 400 (codes "invalid_path")
  | Parsed.reserved ↦ fail s 404 (codes "not_found")
  | at p ↦ content_at writable s r p
]
