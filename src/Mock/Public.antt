-- ===== src/Mock/Public.antt =====
-- tool/portal_mock_server.js, lines 55-115: the public links, which need no account.
pub mod Invariant
pub mod Refused
pub mod Uploads
pub mod Locked
pub mod Opened
use vault_box.Base.{
  ℕ, suc, ◌+◌, ◌-◌, ltb, Bool, true, false, not, ◌&&◌, ◌||◌, Option, none, some, if◌then◌else◌,
  ◌==◌, List, [], ◌∷◌, ◌++◌, map, length, get_elem?, drop, any, Text, codes, same, trim,
  starts_with, non_empty, has_char, segments, one_of,
}
use vault_box.Base.Dict
use vault_box.Mock.Tree.{
  Tree, Node, dir, file, Parsed, at, parse_path, name_of, is_dir, children, slash,
}
use vault_box.Mock.Listing.{entry_list}
use vault_box.Mock.Serve.{Property, own, inherited, missing, property}
use vault_box.Mock.Server.{
  Json, text, Fields, Payload, invalid, value, object, LinkKind, download, upload, Link, Server,
  Request, Reply, error, not_allowed, listing, stored, link_info, unlocked,
}
use vault_box.Mock.Moves.{split_name, numbered, free_index}
use vault_box.Mock.Api.{fail, is_method, serve_node}

-- A link's token is the first part of the address, its action the second.
abbrev action_is : Option Text → Text → Bool
action_is none name = false
action_is (some a) name = same a name

abbrev is_open : Server → Request → Link → Bool
is_open s r link = elim link.password [
  | none ↦ true
  | some p ↦ elim r.unlock [ none ↦ false | some u ↦ one_of u s.unlocks ]
]

-- `within`: a path below the link's own.
within : Text → Parsed → Parsed
within base Parsed.null = Parsed.null
within base Parsed.reserved = Parsed.reserved
within base (at p) = at (if same p slash then base else base ++ p)

abbrev is_download : LinkKind → Bool
is_download download = true
is_download upload = false

abbrev size_shown : Bool → LinkKind → Option Node → Option ℕ
size_shown true download (some (file b m)) = some (length b)
size_shown opened kind found = none

-- `link.maxFileBytes || null`
abbrev or_null : Option ℕ → Option ℕ
or_null none = none
or_null (some n) = if n == 0 then none else some n

abbrev is_some {ℓ} : {A : Type ℓ} → Option A → Bool
is_some none = false
is_some (some a) = true

describe : Server → Link → Bool → Reply
describe s link opened = link_info (record {
  kind = link.kind;
  is_directory = link.is_directory;
  requires_password = is_some link.password;
  unlocked = opened;
  name = if opened then some (name_of link.path) else none;
  size = size_shown opened link.kind (Dict.get link.path s.tree);
  max_file_bytes = or_null link.max_file_bytes;
  remaining_uses = link.remaining;
})

-- `body.password !== link.password`
pub check_password : Server → Request → Text → Json → Server × Reply
check_password s r password (text p) =
    if same p password
    then (record s { unlocks = r.token ∷ s.unlocks }, unlocked (some r.token))
    else fail s 401 (codes "invalid_password")
check_password s r password v = fail s 401 (codes "invalid_password")

pub unlock_with : Server → Request → Text → Payload → Server × Reply
unlock_with s r password (object f) = check_password s r password f.password
unlock_with s r password (value Json.null) = (s, Reply.thrown)
unlock_with s r password p = fail s 401 (codes "invalid_password")

pub unlock_link : Server → Request → Option Text → Payload → Server × Reply
unlock_link s r password invalid = fail s 400 (codes "bad_request")
unlock_link s r none body = (s, unlocked none)
unlock_link s r (some p) body = unlock_with s r p body

-- `url.searchParams.get("path") || "/"`
abbrev shown_path : Option Text → Text
shown_path none = slash
shown_path (some []) = slash
shown_path (some (c ∷ p)) = c ∷ p

list_folder : Server → Request → Parsed → Reply
list_folder s r Parsed.null = error 400 (codes "invalid_path")
list_folder s r Parsed.reserved = error 404 (codes "not_found")
list_folder s r (at p) =
    if not (is_dir p s.tree)
    then error 404 (codes "not_found")
    else elim (entry_list s.tree (children s.tree p)) [
      | none ↦ Reply.thrown
      | some entries ↦ listing (shown_path r.path) entries none
    ]

-- The name of a received file: trimmed, without a dot in front or a separator.
unfoldable pub is_bad_upload : Text → Bool
is_bad_upload name =
    not (non_empty name)
    || starts_with name (codes ".")
    || has_char b'/' name
    || has_char b'\\' name

-- The key that a received file gets: its own, or the first numbered one that is free.
unfoldable pub upload_target : Text → Text → Tree → Text
upload_target base name tree =
    let first = base ++ b'/' ∷ name in
    let (stem, ext) = split_name name in
    let key = numbered (base ++ b'/' ∷ stem) ext in
    if Dict.has first tree then key (free_index (suc (length tree)) 1 key tree) else first

abbrev too_large : Option ℕ → ℕ → Bool
too_large limit size = elim (or_null limit) [ none ↦ false | some n ↦ ltb n size ]

unfoldable pub receive : Server → Request → Text → Link → Text → Server × Reply
receive s r token link name =
    let target = upload_target link.path name s.tree in
    (
      record s {
        tree = Dict.set target (file r.bytes r.now) s.tree;
        links =
            Dict.set token
              (record link {
                remaining = elim link.remaining [ none ↦ none | some n ↦ some (n - 1) ];
              })
              s.links;
      },
      stored 201 (name_of target) (length r.bytes),
    )

abbrev is_used_up : Option ℕ → Bool
is_used_up none = false
is_used_up (some n) = n == 0

unfoldable pub receive_upload : Server → Request → Text → Link → Text → Server × Reply
receive_upload s r token link name =
    if is_bad_upload name
    then fail s 400 (codes "invalid_name")
    else if too_large link.max_file_bytes (length r.bytes)
    then fail s 413 (codes "file_too_large")
    else if is_used_up link.remaining
    then fail s 410 (codes "link_used_up")
    else receive s r token link name

abbrev name_param : Option Text → Text
name_param none = []
name_param (some n) = n

send_key : Server → Request → Link → Parsed → Reply
send_key s r link Parsed.null = error 400 (codes "invalid_path")
send_key s r link Parsed.reserved = error 404 (codes "not_found")
send_key s r link (at p) =
    if same p link.path && link.is_directory
    then error 400 (codes "invalid_path")
    else elim (Dict.get p s.tree) [
      | none ↦ error 404 (codes "not_found")
      | some (dir m) ↦ error 400 (codes "invalid_path")
      | some (file b m) ↦ serve_node (record r { inline = none }) p (file b m)
    ]

send_file : Server → Request → Link → Reply
send_file s r link =
    send_key s r link
      (if link.is_directory then within link.path (parse_path r.path) else at link.path)

pub open_action : Server → Request → Text → Link → Option Text → Server × Reply
open_action s r token link action =
    if action_is action (codes "entries") && is_download link.kind && link.is_directory
    then (s, list_folder s r (within link.path (parse_path r.path)))
    else if action_is action (codes "entries")
    then fail s 400 (codes "not_a_folder_link")
    else if action_is action (codes "content")
        && is_method r (codes "PUT")
        && not (is_download link.kind)
    then receive_upload s r token link (trim (name_param r.name))
    else if action_is action (codes "content")
        && (is_method r (codes "GET") || is_method r (codes "HEAD"))
        && is_download link.kind
    then (s, send_file s r link)
    else fail s 404 (codes "not_found")

pub link_action : Server → Request → Text → Link → Option Text → Server × Reply
link_action s r token link action =
    let opened = is_open s r link in
    if not (is_some action)
    then (if is_method r (codes "GET")
        then (s, describe s link opened)
        else (s, not_allowed (codes "GET")))
    else if action_is action (codes "unlock") && is_method r (codes "POST")
    then unlock_link s r link.password r.body
    else if not opened
    then fail s 401 (codes "password_required")
    else open_action s r token link action

-- `links[token]` finds what an object inherits, too: a value without `kind`, `path` or `password`.
pub inherited_action : Server → Request → Option Text → Server × Reply
inherited_action s r action =
    if not (is_some action)
    then (if is_method r (codes "GET") then (s, Reply.thrown) else (s, not_allowed (codes "GET")))
    else if action_is action (codes "unlock") && is_method r (codes "POST")
    then unlock_link s r none r.body
    else if action_is action (codes "entries")
    then fail s 400 (codes "not_a_folder_link")
    else fail s 404 (codes "not_found")

-- An absent token is looked up as "undefined".
abbrev token_of : Option Text → Text
token_of none = codes "undefined"
token_of (some t) = t

pub found_action : Server → Request → Text → Option Text → Property Link → Server × Reply
found_action s r token action (own link) = link_action s r token link action
found_action s r token action inherited = inherited_action s r action
found_action s r token action missing = fail s 404 (codes "not_found")

abbrev pub public_segs : Request → List Text
public_segs r = drop 3 (segments r.pathname)

abbrev pub public_token : Request → Text
public_token r = token_of (get_elem? (public_segs r) 0)

unfoldable pub public_api : Server → Request → Server × Reply
unfolding found_action link_action open_action inherited_action send_file send_key receive_upload
    receive upload_target is_bad_upload list_folder unlock_link unlock_with check_password describe
    within property segments trim starts_with
public_api s r =
    found_action s r (public_token r) (get_elem? (public_segs r) 1)
      (property (public_token r) s.links)
