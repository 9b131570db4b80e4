-- ===== src/Mock/Public/Uploads.antt =====
-- tool/portal_mock_server.js, lines 96-106: what a file that comes in by a public link changes.
use vault_box.Base.{◌≡◌, arith, none, some, Text, same, if◌then◌else◌, ℕ}
use vault_box.Base.Dict
use vault_box.Mock.Tree.{file}
use vault_box.Mock.Server.{Server, Request, Link, stored}
use vault_box.Mock.Public.{receive, receive_upload, upload_target}
use vault_box.Mock.Public.Invariant.{upload_target-free}

-- A file that is received by an upload link changes no key of the tree that was there; it is
-- under the key `upload_target`, with the bytes that came.
pub receive_upload-get :
    (s : Server) (r : Request) (token : Text) (link : Link) (name : Text) {status size : ℕ}
    {q : Text}
    → (receive_upload s r token link name).1 ≡ stored status q size
    → (j : Text)
    → Dict.get j (receive_upload s r token link name).0.tree ≡ (
        if Dict.has j s.tree
        then Dict.get j s.tree
        else if same j (upload_target link.path name s.tree)
        then some (file r.bytes r.now)
        else none)
unfolding receive_upload receive
receive_upload-get s r token link name h j =
    let target = upload_target link.path name s.tree in
    ground (
      arith,
      h,
      upload_target-free link.path name s.tree,
      Dict.get-set j target (file r.bytes r.now) s.tree,
    )
