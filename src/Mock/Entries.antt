-- ===== src/Mock/Entries.antt =====
-- tool/portal_mock_server.js, lines 301-324: making directories, and renaming.
use vault_box.Base.{
  ltb, Bool, true, false, not, ◌&&◌, ◌||◌, some, if◌then◌else◌, length, Text, codes, same, to_lower,
  non_empty, has_char,
}
use vault_box.Base.Dict
use vault_box.Mock.Tree.{dir, Parsed, at, parse_path, parent_of, is_dir, slash}
use vault_box.Mock.Server.{Json, text, Fields, path_arg, Server, Request, Reply, made, renamed}
use vault_box.Mock.Moves.{relocate, child_of}
use vault_box.Mock.Api.{fail}

abbrev pub is_text : Json → Bool
is_text (text s) = true
is_text v = false

unfoldable pub make_dir : Server → Request → Text → Server × Reply
make_dir s r p =
    if same p slash
    then fail s 400 (codes "invalid_path")
    else if not (is_dir (parent_of p) s.tree)
    then fail s 409 (codes "parent_not_found")
    else if Dict.has p s.tree
    then fail s 409 (codes "already_exists")
    else (record s { tree = Dict.set p (dir r.now) s.tree }, made p)

unfoldable pub mkdir_at : Server → Request → Parsed → Server × Reply
mkdir_at s r Parsed.null = fail s 400 (codes "invalid_path")
mkdir_at s r Parsed.reserved = fail s 404 (codes "not_found")
mkdir_at s r (at p) = make_dir s r p

unfoldable pub mkdir : Server → Request → Fields → Server × Reply
unfolding mkdir_at make_dir is_dir parent_of parse_path path_arg Dict.set
mkdir s r f =
    if not (is_text f.path)
    then fail s 400 (codes "invalid_path")
    else mkdir_at s r (parse_path (path_arg f.path))

-- The names that `rename` refuses; the length is in code units.
unfoldable pub is_bad_name : Text → Text → Bool
is_bad_name p n =
    not (non_empty n)
    || ltb 255 (length n)
    || has_char b'/' n
    || has_char b'\\' n
    || same n (codes ".")
    || same n (codes "..")
    || (same (parent_of p) slash && same (to_lower n) (codes ".vaultbox"))

unfoldable pub rename_to : Server → Text → Text → Server × Reply
rename_to s p target =
    if not (same target p) && Dict.has target s.tree then fail s 409 (codes "already_exists") else (
      record s { tree = relocate (λ n. n) true p target (Dict.keys s.tree) s.tree },
      renamed target,
    )

unfoldable pub rename_at : Server → Text → Text → Server × Reply
rename_at s p n =
    if same p slash
    then fail s 400 (codes "bad_request")
    else if is_bad_name p n
    then fail s 400 (codes "invalid_name")
    else if not (Dict.has p s.tree)
    then fail s 404 (codes "not_found")
    else rename_to s p (child_of (parent_of p) n)

unfoldable pub rename_parsed : Server → Parsed → Text → Server × Reply
rename_parsed s Parsed.null n = fail s 400 (codes "bad_request")
rename_parsed s Parsed.reserved n = fail s 404 (codes "not_found")
rename_parsed s (at p) n = rename_at s p n

unfoldable pub rename_fields : Server → Json → Json → Server × Reply
rename_fields s (text p) (text n) = rename_parsed s (parse_path (some p)) n
rename_fields s (text p) n = fail s 400 (codes "bad_request")
rename_fields s p n = fail s 400 (codes "bad_request")

unfoldable pub rename : Server → Fields → Server × Reply
unfolding rename_fields rename_parsed rename_at rename_to is_bad_name relocate parent_of parse_path
rename s f = rename_fields s f.path f.new_name
