-- ===== src/Mock/Tests.antt =====
-- Runs of the mock server's code on small inputs, at which the theorems apply.
mod Storage
mod Replies
use vault_box.Base.{
  ◌≡◌, refl, arith, ℕ, true, false, none, some, List, [], ◌∷◌, ◌++◌, ◌<◌, ◌≤◌, map, length, Text,
  codes, last_index_of, text_dec, segments, keep, ◌+◌, starts_with, trim, decimal, to_lower, ◌&&◌,
  ◌*◌, suc, if◌then◌else◌, same, one_of, non_empty, ltb,
}
use vault_box.Base.Dict
use vault_box.Base.Int.{negsuc}
use vault_box.Base.Dict.{Dict}
use vault_box.Base.Uri.{encode}
use vault_box.Mock.Tree.{Tree, dir, file, Entry, parse_path, at, name_of, children, is_child}
use vault_box.Mock.Tree.Wellformed.{IsTree, set-IsTree}
use vault_box.Mock.Tree.Paths.{IsSafePath, parse_path-IsSafePath, parse_path_idem}
use vault_box.Mock.Listing.{is_visible}
use vault_box.Mock.Listing.Paging.{walk}
use vault_box.Mock.Serve.{Served, served, serve_file, range_of}
use vault_box.Mock.Serve.Ranges.{
  from_to, from_on, range_of_bounds, serve_file_backwards, serve_file-from_to, Sends,
}
use vault_box.Mock.Tree.Sorting.{children-IsSorted, IsSorted}
use vault_box.Mock.Moves.{
  move, delete, skip, relocate, numbered, free_index, batch_loop, batch_item, count_status,
}
use vault_box.Mock.Moves.Subtree.{get-relocate, expected}
use vault_box.Mock.Moves.Relocate.{IsApart}
use vault_box.Mock.Moves.Numbering.{numbered-IsInjective, free_index-free, free_index-least}
use vault_box.Mock.Moves.Batch.{batch_loop-sources, count_status-sum}
use vault_box.Mock.Moves.Onto.{batch_item-move_onto_self}
use vault_box.Mock.Http.{by_ticket, is_read}
use vault_box.Mock.Http.Tickets.{by_ticket-issue}
use vault_box.Mock.Api.{bearer, is_session, login, issue, serve_node}
use vault_box.Mock.Api.Sessions.{is_session-login}
use vault_box.Mock.Actions.Sessions.{is_session-logout}
use vault_box.Mock.Public.Locked.{link_action-closed}
use vault_box.Mock.Public.{link_action, receive_upload, upload_target, is_bad_upload, receive}
use vault_box.Mock.Public.Uploads.{receive_upload-get}
use vault_box.Mock.Server.{
  Result, completed, skipped, failed, error, object, text, not_allowed, Server, Request, Link,
  unset, download, invalid, no_fields, upload,
}
use vault_box.Mock.Actions.{api, root_action}
use vault_box.Mock.Safety.{run, run-IsTree}
use vault_box.Mock.Actions.ReadOnly.{root_action-read_only}

abbrev tree_one : Tree
tree_one = Dict.set (codes "/a") (dir 1) []

abbrev tree_two : Tree
tree_two = Dict.set (codes "/a/f.txt") (file (1 ∷ 2 ∷ 3 ∷ []) 2) tree_one

abbrev tree_three : Tree
tree_three = Dict.set (codes "/b") (dir 3) tree_two

nil-IsTree : IsTree []
unfolding Dict.get
nil-IsTree = record { distinct = tt; named = λ k h. cc }

tree_three-IsTree : IsTree tree_three
unfolding name_of last_index_of text_dec
tree_three-IsTree =
    set-IsTree (codes "/b") (dir 3) tree_two (λ e. cc)
      (set-IsTree (codes "/a/f.txt") (file (1 ∷ 2 ∷ 3 ∷ []) 2) tree_one (λ e. cc)
        (set-IsTree (codes "/a") (dir 1) [] (λ e. cc) nil-IsTree))

abbrev drop_box : Link
drop_box = record {
  kind = upload;
  path = codes "/a";
  is_directory = true;
  password = none;
  max_file_bytes = none;
  remaining = some 2;
}

abbrev server : Server
server = record {
  tree = tree_three;
  sessions = (codes "t", 0) ∷ [];
  tickets = [];
  unlocks = [];
  links = (codes "u", drop_box) ∷ [];
}

abbrev request : Text → Text → Request
request method pathname = record {
  method = method;
  pathname = pathname;
  authorization = some (codes "Bearer t");
  range = [];
  path = some (codes "/a");
  limit = unset;
  cursor = none;
  overwrite = none;
  inline = none;
  unlock = none;
  name = none;
  body = invalid;
  bytes = 7 ∷ 8 ∷ [];
  now = 5;
  token = codes "new";
  uuid = λ i. codes "id";
}

run-IsTree_example :
    IsTree (run server (request (codes "PUT") (codes "/api/v1/roots/phone/content") ∷ [])).tree
run-IsTree_example =
    run-IsTree server (request (codes "PUT") (codes "/api/v1/roots/phone/content") ∷ [])
      tree_three-IsTree

abbrev locked : Server
locked = record server { sessions = [] }

abbrev make_dir_request : Request
make_dir_request = request (codes "POST") (codes "/api/v1/roots/phone/mkdir")

root_action-read_only_example :
    (root_action false server make_dir_request
      (codes "roots" ∷ codes "card" ∷ codes "mkdir" ∷ [])).0.tree
    ≡ tree_three
root_action-read_only_example =
    root_action-read_only server make_dir_request
      (codes "roots" ∷ codes "card" ∷ codes "mkdir" ∷ [])

by_ticket-issue_example :
    by_ticket
      (issue server (request (codes "POST") []) (codes "/a/f.txt")).0
      (request (codes "GET") (codes "/d/new"))
    ≡ (if ltb (5 + 15 * 60 * 1000) 5
        then error 404 (codes "not_found")
        else if is_read (request (codes "GET") (codes "/d/new"))
        then serve_node
            (request (codes "GET") (codes "/d/new"))
            (codes "/a/f.txt")
            (file (1 ∷ 2 ∷ 3 ∷ []) 2)
        else not_allowed (codes "GET, HEAD"))
unfolding Dict.get Dict.set text_dec
by_ticket-issue_example =
    by_ticket-issue server (request (codes "POST") []) (request (codes "GET") (codes "/d/new"))
      (codes "/a/f.txt") {b = 1 ∷ 2 ∷ 3 ∷ []} {m = 2} (λ e. cc) refl refl

is_session-logout_example :
    is_session (api server (request (codes "POST") (codes "/api/v1/auth/logout"))).0 (codes "t") ≡ (
      if same (codes "t") (bearer (some (codes "Bearer t")))
      then false
      else is_session server (codes "t"))
unfolding segments bearer trim to_lower starts_with Dict.get text_dec
is_session-logout_example =
    is_session-logout server (request (codes "POST") (codes "/api/v1/auth/logout")) refl refl
      (codes "t")

receive_upload-get_example :
    Dict.get
      (codes "/a/f.txt")
      (receive_upload server (request (codes "PUT") []) (codes "u") drop_box (codes "f.txt")).0.tree
    ≡ (if Dict.has (codes "/a/f.txt") tree_three
        then Dict.get (codes "/a/f.txt") tree_three
        else if same (codes "/a/f.txt") (upload_target (codes "/a") (codes "f.txt") tree_three)
        then some (file (7 ∷ 8 ∷ []) 5)
        else none)
unfolding receive_upload receive upload_target is_bad_upload starts_with name_of last_index_of
    free_index decimal Dict.get Dict.set text_dec
receive_upload-get_example =
    receive_upload-get server (request (codes "PUT") []) (codes "u") drop_box (codes "f.txt")
      {status = 201} {size = 2} {q = codes "f (1).txt"} refl (codes "/a/f.txt")

abbrev locked_link : Link
locked_link = record drop_box { kind = download; password = some (codes "hunter22") }

link_action-closed_example :
    (link_action
      (record server { tree = [] })
      (request (codes "GET") [])
      (codes "l")
      locked_link
      none).1
    ≡ (link_action server (request (codes "GET") []) (codes "l") locked_link none).1
link_action-closed_example =
    link_action-closed server [] (request (codes "GET") []) (codes "l") locked_link none refl
