-- ===== src/Mock/Actions/Posts.antt =====
-- tool/portal_mock_server.js, lines 223-239 and 295-374: the way of a POST to the root that can be
-- written to.
use vault_box.Base.{
  if◌then◌else◌, ◌≡◌, refl, true, false, Text, String, [], ◌∷◌, ◌++◌, codes, same, text_dec, drop,
  segments, List, ap, split, ◌∙◌, same_iff, Bool,
}
use vault_box.Mock.Server.{Server, Request, Fields, object, text, made}
use vault_box.Base.Dict
use vault_box.Mock.Tree.{dir, slash, is_dir, parent_of}
use vault_box.Mock.Tree.Paths.{IsSafePath, parse_path_of_IsSafePath}
use vault_box.Mock.Actions.{
  api, signed_in, change_action, root_action, post_action, api_segs, is_login, root_request,
  fields_of,
}
use vault_box.Mock.Entries.{mkdir_at, make_dir, mkdir}
use vault_box.Mock.Batches.{run_batch}
use vault_box.Mock.Moves.{move, copy, delete}
use vault_box.Mock.Api.{is_session, bearer}
use vault_box.Mock.Actions.Invariant.{api_lem}

-- A request with a session's token, POST as its method, and these fields in its body.
pub record IsPost (s : Server) (f : Fields) (r : Request) : Type 0 where
  pub is_post : r.method ≡ codes "POST"
  pub has_session : is_session s (bearer r.authorization) ≡ true
  pub has_fields : r.body ≡ object f

abbrev pub phone : String → Text
phone action = codes "/api/v1/roots/phone/" ++ codes action

abbrev segs_for : Text → List Text
segs_for action = codes "roots" ∷ codes "phone" ∷ action ∷ []

root-post :
    (s : Server) (r : Request) (f : Fields) (segs : List Text)
    → IsPost s f r
    → change_action true s r segs ≡ post_action s r segs f
unfolding change_action fields_of
root-post s r f segs p =
    rw ((same_iff r.method (codes "POST")).1 p.is_post, ap fields_of p.has_fields) refl

is_login-roots : (r : Request) (action : Text) → api_segs r ≡ segs_for action → is_login r ≡ false
unfolding text_dec
is_login-roots r action e = rw e refl

phone-change :
    (s : Server) (r : Request) (token action : Text)
    → (same action (codes "entries") ≡ false)
      × (same action (codes "ticket") ≡ false)
      × (same action (codes "content") ≡ false)
    → signed_in s r token (segs_for action) ≡ change_action true s r (segs_for action)
unfolding signed_in root_request root_action text_dec
phone-change s r token action (n, m, k) = rw (n, m, k) refl

api-post :
    (s : Server) (r : Request) (f : Fields) (action : Text)
    → api_segs r ≡ segs_for action
    → IsPost s f r
    → (same action (codes "entries") ≡ false)
      × (same action (codes "ticket") ≡ false)
      × (same action (codes "content") ≡ false)
    → api s r ≡ post_action s r (segs_for action) f
api-post s r f action e p other =
    rw (api_lem, is_login-roots r action e, p.has_session)
      (ap (signed_in s r (bearer r.authorization)) e
        ∙ phone-change s r (bearer r.authorization) action other
        ∙ root-post s r f (segs_for action) p)

segs_of_path :
    (p : Text) (action : Text)
    → drop 2 (segments p) ≡ segs_for action
    → (r : Request) → r.pathname ≡ p
    → api_segs r ≡ segs_for action
segs_of_path p action h r e = ap (λ q. drop 2 (segments q)) e ∙ h

pub api-delete :
    (s : Server) (r : Request) (f : Fields)
    → r.pathname ≡ phone "delete"
    → IsPost s f r
    → api s r ≡ run_batch s r f delete
unfolding post_action text_dec segments split
api-delete s r f e p =
    api-post s r f (codes "delete") (segs_of_path (phone "delete") (codes "delete") refl r e) p
      (refl, refl, refl)

pub api-move_or_copy :
    (s : Server) (r : Request) (f : Fields) (is_move : Bool)
    → r.pathname ≡ (if is_move then phone "move" else phone "copy")
    → IsPost s f r
    → api s r ≡ run_batch s r f (if is_move then move else copy)
unfolding post_action text_dec segments split
api-move_or_copy s r f true e p =
    api-post s r f (codes "move") (segs_of_path (phone "move") (codes "move") refl r e) p
      (refl, refl, refl)
api-move_or_copy s r f false e p =
    api-post s r f (codes "copy") (segs_of_path (phone "copy") (codes "copy") refl r e) p
      (refl, refl, refl)

pub api-mkdir :
    (s : Server) (r : Request) (f : Fields)
    → r.pathname ≡ phone "mkdir"
    → IsPost s f r
    → api s r ≡ mkdir s r f
unfolding post_action text_dec segments split
api-mkdir s r f e p =
    api-post s r f (codes "mkdir") (segs_of_path (phone "mkdir") (codes "mkdir") refl r e) p
      (refl, refl, refl)

-- A directory is made in a directory, under a name that is free there.
pub mkdir-made :
    (s : Server) (r : Request) (f : Fields) (p : Text)
    → f.path ≡ text p
    → IsSafePath p
    → same p slash ≡ false
    → is_dir (parent_of p) s.tree ≡ true
    → Dict.has p s.tree ≡ false
    → mkdir s r f ≡ (record s { tree = Dict.set p (dir r.now) s.tree }, made p)
unfolding mkdir mkdir_at make_dir
mkdir-made s r f p e safe n d free = rw (e, parse_path_of_IsSafePath safe, n, d, free) refl
