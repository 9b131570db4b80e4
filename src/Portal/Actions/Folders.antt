-- ===== src/Portal/Actions/Folders.antt =====
-- assets/portal/portal.js, lines 948-959, with tool/portal_mock_server.js, lines 295-310: a new folder
-- at the mock server.
use vault_box.Base.{
  ℕ, ◌≡◌, ◌≢◌, refl, sym, ap, subst, true, false, some, [], ◌∷◌, Text, codes, ◌∙◌,
  has_char-eq-false, non_empty,
}
use vault_box.Base.Dict
use vault_box.Mock.Tree.{dir, slash, is_dir, is_reserved}
use vault_box.Mock.Tree.Paths.{IsSafe, IsSafePath}
use vault_box.Mock.Server.{text, Server, Request, made, no_fields}
use vault_box.Mock.Http.{handle}
use vault_box.Mock.Actions.Posts.{api-mkdir, mkdir-made}
use vault_box.Portal.Words.{join_path}
use vault_box.Portal.Dialog.Names.{prompt_text-some}
use vault_box.Portal.Words.Paths.{parent_path-join_path}
use vault_box.Portal.Words.Inside.{parent_of-parent_path, join_path-IsSafePath, join_path_not_root}
use vault_box.Portal.Dialog.{prompt_text}
use vault_box.Portal.Actions.{Call, call, new_folder, root_url}
use vault_box.Portal.Actions.Requests.{IsSent, handle-phone, phone-call}

folder-sent :
    (path name : Text)
    → non_empty name ≡ true
    → new_folder (codes "phone") path (some name)
      ≡ call
          (root_url (codes "phone") (codes "mkdir"))
          (record no_fields { path = text (join_path path name) })
unfolding new_folder
folder-sent path name n = rw n refl

not_cons : {c : ℕ} {t : Text} → [] ≢ c ∷ t
not_cons e = cc

filled : (t : Text) → non_empty t ≡ true → t ≢ []
filled [] n e = cc
filled (c ∷ t) n e = cc

prompt_text-IsSafe :
    (typed : Text) {name : Text}
    → prompt_text true typed ≡ some name
    → name ≢ codes ".."
    → IsSafe name
prompt_text-IsSafe typed {name} e dots =
    let (n, f, b) = prompt_text-some true typed e in
    (filled name n, dots, has_char-eq-false b'/' name f, has_char-eq-false b'\\' name b)

-- A name that was typed for a new folder, other than ".." and one that the server keeps to itself,
-- makes a directory of that name in the folder that is shown, if the folder is a directory and has
-- nothing of that name.
pub handle-new_folder :
    (s : Server) (r : Request) (path typed : Text) {name : Text} {c : Call}
    → IsSafePath path
    → is_dir path s.tree ≡ true
    → prompt_text true typed ≡ some name
    → name ≢ codes ".."
    → (path ≡ slash → is_reserved (name ∷ []) ≡ false)
    → Dict.has (join_path path name) s.tree ≡ false
    → new_folder (codes "phone") path (prompt_text true typed) ≡ some c
    → IsSent s c r
    → handle s r ≡ (
      record s { tree = Dict.set (join_path path name) (dir r.now) s.tree },
      made (join_path path name),
    )
handle-new_folder s r path typed {name} {c} safe d typed_name dots open_to_all free e sent =
    let named = prompt_text-IsSafe typed typed_name dots in
    let sends =
      sym (folder-sent path name (prompt_text-some true typed typed_name).0)
      ∙ sym (ap (new_folder (codes "phone") path) typed_name)
      ∙ e in
    let (url, body) = phone-call _ "mkdir" sends in
    let at_url = sent.is_for ∙ url in
    let at_parent =
      parent_of-parent_path (join_path path name)
      ∙ parent_path-join_path path name named.2 (λ q. not_cons (sym q ∙ safe.path)) in
    handle-phone s r "mkdir" at_url
    ∙ api-mkdir s r c.body at_url sent.post
    ∙ mkdir-made s r c.body (join_path path name) (ap (λ f. f.path) body)
        (join_path-IsSafePath path name safe (named, open_to_all))
        (join_path_not_root path name named.0)
        (subst (λ q. is_dir q s.tree ≡ true) (sym at_parent) d) free
