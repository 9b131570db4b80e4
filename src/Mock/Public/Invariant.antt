-- ===== src/Mock/Public/Invariant.antt =====
-- tool/portal_mock_server.js, lines 55-115: the tree behind a public link.
use vault_box.Base.{
  ◌≡◌, ◌≢◌, subst, arith, false, Option, none, [], ◌∷◌, ◌++◌, Text, length, suc, has_char, IsFree,
  has_char-eq-false, append_assoc, trim,
}
use vault_box.Base.Dict
use vault_box.Mock.Tree.{Tree, file, name_of, slash}
use vault_box.Mock.Tree.Names.{name_of-append_free}
use vault_box.Mock.Tree.Wellformed.{IsTree, set-IsTree}
use vault_box.Mock.Moves.{free_index, numbered, split_name}
use vault_box.Mock.Serve.{inherited, missing}
use vault_box.Mock.Moves.Numbering.{free_index-free, numbered-IsInjective}
use vault_box.Mock.Moves.Invariant.{numbered-named}
use vault_box.Mock.Server.{Server, Request, Link, Payload}
use vault_box.Mock.Public.{
  public_api, receive, receive_upload, upload_target, is_bad_upload, found_action, link_action,
  open_action, inherited_action, unlock_link, unlock_with, Property, name_param, own,
  check_password,
}

-- A received file never takes a key that is in the tree.
pub upload_target-free :
    (base name : Text) (tree : Tree) → Dict.has (upload_target base name tree) tree ≡ false
unfolding upload_target
upload_target-free base name tree =
    let stem = (split_name name).0 in
    let ext = (split_name name).1 in
    let key = numbered (base ++ b'/' ∷ stem) ext in
    ground (arith, free_index-free key (numbered-IsInjective (base ++ b'/' ∷ stem) ext) 1 tree)

upload_target-named :
    (base name : Text) (tree : Tree)
    → IsFree b'/' name
    → name ≢ []
    → name_of (upload_target base name tree) ≢ []
unfolding upload_target
upload_target-named base name tree h n =
    let stem = (split_name name).0 in
    let key = numbered (base ++ b'/' ∷ stem) (split_name name).1 in
    let plain : name_of (base ++ b'/' ∷ name) ≢ [] =
      subst (λ k. name_of k ≢ []) (append_assoc base slash name)
        (name_of-append_free (base ++ slash) name h n) in
    ground (
      arith,
      plain,
      numbered-named (base ++ b'/' ∷ stem) name (free_index (suc (length tree)) 1 key tree) h,
    )

receive_upload-IsTree :
    (s : Server) (r : Request) (token : Text) (link : Link) (name : Text)
    → IsTree s.tree
    → IsTree (receive_upload s r token link name).0.tree
unfolding receive_upload receive is_bad_upload
receive_upload-IsTree s r token link name v = ground (
  arith,
  λ (a : has_char b'/' name ≡ false) (b : name ≢ []).
      set-IsTree (upload_target link.path name s.tree) (file r.bytes r.now) s.tree
        (upload_target-named link.path name s.tree (has_char-eq-false b'/' name a) b) v,
)

unlock_link-tree :
    (s : Server) (r : Request) (p : Option Text) (b : Payload)
    → (unlock_link s r p b).0.tree ≡ s.tree
unfolding unlock_link unlock_with check_password
unlock_link-tree s r p b = ground arith

open_action-IsTree :
    (s : Server) (r : Request) (token : Text) (link : Link) (action : Option Text)
    → IsTree s.tree
    → IsTree (open_action s r token link action).0.tree
unfolding open_action
open_action-IsTree s r token link action v =
    ground (arith, receive_upload-IsTree s r token link (trim (name_param r.name)) v)

link_action-IsTree :
    (s : Server) (r : Request) (token : Text) (link : Link) (action : Option Text)
    → IsTree s.tree
    → IsTree (link_action s r token link action).0.tree
unfolding link_action
link_action-IsTree s r token link action v =
    ground
      (arith, unlock_link-tree s r link.password r.body, open_action-IsTree s r token link action v)

inherited_action-IsTree :
    (s : Server) (r : Request) (action : Option Text)
    → IsTree s.tree
    → IsTree (inherited_action s r action).0.tree
unfolding inherited_action
inherited_action-IsTree s r action v = ground (arith, unlock_link-tree s r none r.body)

found_action-IsTree :
    (s : Server) (r : Request) (token : Text) (action : Option Text) (q : Property Link)
    → IsTree s.tree
    → IsTree (found_action s r token action q).0.tree
unfolding found_action
found_action-IsTree s r token action (own link) v = link_action-IsTree s r token link action v
found_action-IsTree s r token action inherited v = inherited_action-IsTree s r action v
found_action-IsTree s r token action missing v = v

pub public_api-IsTree : (s : Server) (r : Request) → IsTree s.tree → IsTree (public_api s r).0.tree
unfolding public_api
public_api-IsTree s r v = found_action-IsTree s r _ _ _ v
